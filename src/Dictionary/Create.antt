-- ===== src/Dictionary/Create.antt =====
-- Finding a key or creating its entry, in a dictionary in which no two keys collide.
use mathlib.Core.Path.{subst}
use coremio.Prelude.{
  ℕ, ◌≡◌, ◌≢◌, refl, sym, ap, ◌∙◌, Bool, true, false, not, ◌&&◌, Option, none, some, List, [], ◌∷◌,
  ◌++◌, ◌<◌, ◌≤◌, arith, if◌then◌else◌, Bool-cases, inl, inr,
}
use coremio.RedBlackTree.Inorder.{inorder}
use coremio.RedBlackTree.Order.{All, Sorted, insert-Inserted}
use coremio.RedBlackTree.Rules.{IsRedBlack}
use coremio.RedBlackTree.Balance.{insert-IsRedBlack}
use coremio.Dictionary.{
  Key, Entry, Dictionary, Created, evaluate, same_key, get_if_exists, new_entry, create,
  get_or_create_informed,
}
use coremio.Dictionary.Find.{same_key_iff, find, find-append, Above, Distinct, get_recursive-find}

module _ {A : Type 0} where
  -- what the operations keep
  pub record WellFormed (d : Dictionary A) : Type 0 where
    pub balanced : IsRedBlack d.root
    pub distinct : Distinct (inorder d.root)

  -- no other key among the entries has the key's evaluation
  abbrev pub NoCollision : Key → List (ℕ × Entry A) → Type 0
  NoCollision key [] = Unit
  NoCollision key ((v, e) ∷ es) = (evaluate e.key ≡ evaluate key → e.key ≡ key) × NoCollision key es

  pub new_entry-key : (d : Dictionary A) (key : Key) → (new_entry d key).key ≡ key
  unfolding new_entry
  new_entry-key d key = ground arith

  Above-All : (v : ℕ) (es : List (ℕ × Entry A)) → Above v es → All (λ w. v ≤ w) es
  Above-All v [] a = tt
  Above-All v ((w, e) ∷ es) a = (omega (arith, a.0), Above-All v es a.1)

  Distinct-Sorted : (es : List (ℕ × Entry A)) → Distinct es → Sorted es
  Distinct-Sorted [] d = tt
  Distinct-Sorted ((v, e) ∷ es) d = (Above-All v es d.1, Distinct-Sorted es d.2)

  -- a missing key's evaluation is not among those of the entries
  missing :
      (key : Key) (es : List (ℕ × Entry A))
      → NoCollision key es
      → Distinct es
      → find key es ≡ none
      → All (λ w. w ≢ evaluate key) es
  unfolding find
  missing key [] n d h = tt
  missing key ((v, e) ∷ es) n d h = elim (Bool-cases (same_key e.key key)) [
    | inl s ↦ absurd (some≢none (subst (λ b. (if b then some e else find key es) ≡ none) s h))
    | inr f ↦ (
      (λ same. false≢true (sym f ∙ (same_key_iff e.key key).1 (n.0 (sym d.0 ∙ same)))),
      missing key es n.1 d.2 (subst (λ b. (if b then some e else find key es) ≡ none) f h),
    )
  ]
    where
      false≢true : false ≢ true
      false≢true = ground arith

      some≢none : some e ≢ none
      some≢none = ground arith

  All-halves : (P : ℕ → Type 0) (es fs : List (ℕ × Entry A)) → All P (es ++ fs) → All P fs
  All-halves P [] fs h = h
  All-halves P ((v, e) ∷ es) fs h = All-halves P es fs h.1

  Above-insert :
      (u : ℕ) (es : List (ℕ × Entry A)) (v : ℕ) (e : Entry A) (fs : List (ℕ × Entry A))
      → u < v
      → Above u (es ++ fs)
      → Above u (es ++ (v, e) ∷ fs)
  Above-insert u [] v e fs l a = (l, a)
  Above-insert u ((w, f) ∷ es) v e fs l a = (a.0, Above-insert u es v e fs l a.1)

  strictly :
      (v : ℕ) (fs : List (ℕ × Entry A)) → All (λ w. v ≤ w) fs → All (λ w. w ≢ v) fs → Above v fs
  strictly v [] a n = tt
  strictly v ((w, f) ∷ fs) a n = (ground (arith, a.0, n.0), strictly v fs a.1 n.1)

  Distinct-insert :
      (es : List (ℕ × Entry A)) (v : ℕ) (e : Entry A) (fs : List (ℕ × Entry A))
      → v ≡ evaluate e.key
      → All (λ w. w < v) es
      → Above v fs
      → Distinct (es ++ fs)
      → Distinct (es ++ (v, e) ∷ fs)
  Distinct-insert [] v e fs h b a d = (h, a, d)
  Distinct-insert ((w, f) ∷ es) v e fs h b a d =
      (d.0, Above-insert w es v e fs b.0 d.1, Distinct-insert es v e fs h b.1 a d.2)

  find-left :
      (key : Key) (es fs : List (ℕ × Entry A)) → find key (es ++ fs) ≡ none → find key es ≡ none
  unfolding find
  find-left key [] fs h = refl
  find-left key ((v, e) ∷ es) fs h = ground (arith, find-left key es fs)

  find-insert_same :
      (key : Key) (es : List (ℕ × Entry A)) (v : ℕ) (e : Entry A) (fs : List (ℕ × Entry A))
      → e.key ≡ key
      → find key es ≡ none
      → find key (es ++ (v, e) ∷ fs) ≡ some e
  unfolding find
  find-insert_same key es v e fs same h =
      find-append key es _ h ∙ rw ((same_key_iff e.key key).1 same) refl

  find-insert_other :
      (key : Key) (es : List (ℕ × Entry A)) (v : ℕ) (e : Entry A) (fs : List (ℕ × Entry A))
      → same_key e.key key ≡ false
      → find key (es ++ (v, e) ∷ fs) ≡ find key (es ++ fs)
  unfolding find
  find-insert_other key [] v e fs h = rw h refl
  find-insert_other key ((w, f) ∷ es) v e fs h =
      ap (λ r. if same_key f.key key then some f else r) (find-insert_other key es v e fs h)

  get-find :
      (d : Dictionary A) (key : Key)
      → WellFormed d
      → get_if_exists d key ≡ find key (inorder d.root)
  unfolding get_if_exists
  get-find d key w = get_recursive-find d.root key w.distinct

  abbrev pub is_found : Option (Entry A) → Bool
  is_found none = false
  is_found (some e) = true

  pub different : (e : Entry A) (key : Key) → e.key ≢ key → same_key e.key key ≡ false
  different e key h = elim (Bool-cases (same_key e.key key)) [
    | inl t ↦ absurd (h ((same_key_iff e.key key).0 t))
    | inr f ↦ f
  ]

  -- what finding or creating an entry does, from the dictionary `d`
  pub record Provided (node_memory key_memory : Bool) (d : Dictionary A) (key : Key) (c : Created A)
      : Type 0 where
    pub kept : WellFormed c.dictionary
    pub returned : c.result ≡ get_if_exists c.dictionary key
    pub others :
        (other : Key) → other ≢ key → get_if_exists c.dictionary other ≡ get_if_exists d other
    pub created : c.is_created ≡ (node_memory && key_memory && not (is_found (get_if_exists d key)))
    pub provided : node_memory && key_memory ≡ true → is_found c.result ≡ true

  pub create-lem :
      (d : Dictionary A) (key : Key)
      → WellFormed d
      → NoCollision key (inorder d.root)
      → get_if_exists d key ≡ none
      → (c : Created A) × (create d key ≡ some c)
        × WellFormed c.dictionary
        × (c.result ≡ some (new_entry d key))
        × (c.is_created ≡ true)
        × (get_if_exists c.dictionary key ≡ some (new_entry d key))
        × ((other : Key) → other ≢ key → get_if_exists c.dictionary other ≡ get_if_exists d other)
  unfolding create
  create-lem d key w n absent =
      let e = new_entry d key in
      let named = new_entry-key d key in
      let (t, done, balanced) = insert-IsRedBlack d.root (evaluate key) e w.balanced in
      let i =
        insert-Inserted d.root (evaluate key) e t (Distinct-Sorted (inorder d.root) w.distinct)
          done in
      let d2 : Dictionary A = record d { root = t } in
      let gone : find key (inorder d.root) ≡ none = sym (get-find d key w) ∙ absent in
      let gone2 : find key (i.smaller ++ i.others) ≡ none =
        subst (λ es. find key es ≡ none) i.was gone in
      let away = missing key (inorder d.root) n w.distinct gone in
      let above = strictly (evaluate key) i.others i.above (
        All-halves (λ u. u ≢ evaluate key) i.smaller i.others
          (subst (λ es. All (λ u. u ≢ evaluate key) es) i.was away)) in
      let distinct =
        Distinct-insert i.smaller (evaluate key) e i.others (ap evaluate (sym named)) i.below above
          (subst (λ es. Distinct es) i.was w.distinct) in
      let kept : WellFormed d2 = record {
        balanced = balanced;
        distinct = subst (λ es. Distinct es) (sym i.is) distinct;
      } in
      (
        record { dictionary = d2; result = some e; is_created = true },
        rw (done, create) refl,
        kept,
        refl,
        refl,
        get-find d2 key kept
            ∙ ap (λ es. find key es) i.is
            ∙ find-insert_same key i.smaller (evaluate key) e i.others named
                (find-left key i.smaller i.others gone2),
        λ other differs.
            get-find d2 other kept
            ∙ ap (λ es. find other es) i.is
            ∙ find-insert_other other i.smaller (evaluate key) e i.others
                (different e other (λ same. differs (sym same ∙ named)))
            ∙ ap (λ es. find other es) (sym i.was)
            ∙ sym (get-find d other w),
      )

  -- In a well-formed dictionary in which no other key has the evaluation of the key, the entry is found or
  -- created without the use of a null pointer: the dictionary stays well formed, what is returned is what a
  -- later search for the key finds, the other keys' searches give what they gave, the flag says that a missing
  -- entry was created, and with memory for a new node an entry is returned.
  pub get_or_create_informed-Provided :
      (node_memory key_memory : Bool) (d : Dictionary A) (key : Key)
      → WellFormed d
      → NoCollision key (inorder d.root)
      → (c : Created A) × (get_or_create_informed node_memory key_memory d key ≡ some c)
        × Provided node_memory key_memory d key c
  unfolding get_or_create_informed
  get_or_create_informed-Provided nm km d key w n = by_search (get_if_exists d key) refl
    where
      false≢true : false ≢ true
      false≢true = ground arith

      by_memory :
          (b : Bool)
          → nm && km ≡ b
          → get_if_exists d key ≡ none
          → (c : Created A) × (get_or_create_informed nm km d key ≡ some c) × Provided nm km d key c
      by_memory true m absent =
          let (c, done, kept, result, created, found, others) = create-lem d key w n absent in
          (
            c,
            rw (absent, m, get_or_create_informed) done,
            record {
              kept = kept;
              returned = result ∙ sym found;
              others = others;
              created = rw (created, absent, m) refl;
              provided = λ h. rw result refl;
            },
          )
      by_memory false m absent = (
        record { dictionary = d; result = none; is_created = false },
        rw (absent, m, get_or_create_informed) refl,
        record {
          kept = w;
          returned = sym absent;
          others = λ other differs. refl;
          created = rw (absent, m) refl;
          provided = λ h. absurd (false≢true (sym m ∙ h));
        },
      )

      never : (b : Bool) → false ≡ (b && false)
      never b = ground arith

      by_search :
          (r : Option (Entry A))
          → get_if_exists d key ≡ r
          → (c : Created A) × (get_or_create_informed nm km d key ≡ some c) × Provided nm km d key c
      by_search (some e) found = (
        record { dictionary = d; result = some e; is_created = false },
        rw (found, get_or_create_informed) refl,
        record {
          kept = w;
          returned = sym found;
          others = λ other differs. refl;
          created = rw found (never (nm && km));
          provided = λ h. refl;
        },
      )
      by_search none absent = by_memory (nm && km) refl absent
