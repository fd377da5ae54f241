-- ===== src/Dictionary/Collision.antt =====
-- Two keys with one evaluation.
use coremio.Prelude.{ℕ, ◌≡◌, ◌≢◌, refl, sym, ◌∙◌, true, false, Option, none, some, arith, ◌==◌, ltb}
use coremio.RedBlackTree.{Tree, leaf, node, red, black, insert, fix, descend, plug}
use coremio.Dictionary.{
  Key, Entry, Dictionary, Created, evaluate, same_key, initialize_custom, get_recursive,
  get_if_exists, new_entry, create, get_or_create_informed,
}
use coremio.Dictionary.Create.{different, new_entry-key}

==-refl : (n : ℕ) → (n == n) ≡ true
==-refl n = ground arith

ltb_irrefl : (n : ℕ) → ltb n n ≡ false
ltb_irrefl n = ground arith

module _ {A : Type 0} where
  absent :
      (v : ℕ) (e : Entry A) (l : Tree (Entry A)) (key : Key)
      → same_key e.key key ≡ false
      → get_recursive (node black v e l leaf) key v ≡ none
  unfolding get_recursive
  absent v e l key differs = rw (==-refl v, differs, ltb_irrefl v, get_recursive) refl

  insert-equal :
      (v : ℕ) (e f : Entry A)
      → insert (node black v e leaf leaf) v f ≡ some (node black v e (node red v f leaf leaf) leaf)
  unfolding insert fix descend plug
  insert-equal v e f = rw (ltb_irrefl v, descend) refl

  second :
      (d : Dictionary A) (v : ℕ) (e : Entry A) (key : Key)
      → d.root ≡ node black v e leaf leaf
      → e.key ≢ key
      → v ≡ evaluate key
      → (b : Created A) × (get_or_create_informed true true d key ≡ some b)
        × (b.is_created ≡ true)
        × (get_if_exists b.dictionary key ≡ none)
  unfolding get_or_create_informed create get_if_exists
  second d v e key root differs same =
      let f = new_entry d key in
      let other = different e key differs in
      let t : Tree (Entry A) = node black v e (node red v f leaf leaf) leaf in
      let missing : get_if_exists d key ≡ none = rw (root, sym same) (absent v e leaf key other) in
      let inserted : insert d.root (evaluate key) f ≡ some t =
        rw (root, sym same) (insert-equal v e f) in
      (
        record { dictionary = record d { root = t }; result = some f; is_created = true },
        rw (missing, inserted, get_or_create_informed, create) refl,
        refl,
        rw (sym same) (absent v e (node red v f leaf leaf) key other),
      )

  -- In a dictionary of one entry, a key that collides with the entry's is given a new entry,
  -- and a search for it then finds none.
  pub collision-lost :
      (zeroed : A) (callback : Option (Entry A → A)) (stored key : Key)
      → key ≢ stored
      → evaluate key ≡ evaluate stored
      → (a b : Created A) × (get_or_create_informed true true
            (initialize_custom zeroed callback)
            stored
          ≡ some a)
        × (get_or_create_informed true true a.dictionary key ≡ some b)
        × (b.is_created ≡ true)
        × (get_if_exists b.dictionary key ≡ none)
  unfolding get_or_create_informed initialize_custom create insert fix descend plug get_if_exists
      get_recursive
  collision-lost zeroed callback stored key differs same =
      let empty = initialize_custom zeroed callback in
      let e = new_entry empty stored in
      let d : Dictionary A = record empty { root = node black (evaluate stored) e leaf leaf } in
      let (b, done, created, lost) =
        second d (evaluate stored) e key refl (λ h. differs (sym h ∙ new_entry-key empty stored))
          (sym same) in
      (record { dictionary = d; result = some e; is_created = true }, b, refl, done, created, lost)
