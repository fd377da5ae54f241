-- ===== src/HttpPayload/Build/Lookup.antt =====
-- A header that is appended is found.
use coremio.Prelude.{
  ℕ, ◌≡◌, ◌≢◌, refl, sym, ap, ◌∙◌, Bool, true, false, ◌&&◌, Option, none, some, ◌==◌, ltb,
  Bool-cases, inl, inr, arith, Text,
}
use coremio.RedBlackTree.{Tree, leaf, node}
use coremio.RedBlackTree.Inorder.{inorder}
use coremio.Dictionary.{
  Key, Entry, evaluate, same_key, get_recursive, get_if_exists, get_or_create,
  get_or_create_informed, Created, new_entry, create,
}
use coremio.Dictionary.Find.{same_key_iff}
use coremio.Dictionary.Create.{WellFormed, NoCollision, create-lem}
use coremio.HttpPayload.{Headers, Payload, assign, set_header}
use coremio.HttpPayload.Balanced.{Option-cases}
use coremio.HttpPayload.Build.{built, append_header}

module _ (key : Key) (value : Option Text) where
  -- the search, after the write, gives the entry of the search before it, with the value
  get_recursive-assign :
      (t : Tree (Entry (Option Text))) (w : ℕ) (e : Entry (Option Text))
      → get_recursive t key w ≡ some e
      → get_recursive (assign t key w value) key w ≡ some (record e { content = value })
  unfolding get_recursive assign
  get_recursive-assign leaf w e h = absurd (none≢some h)
    where
      none≢some : none ≡ some e → ⊥
      none≢some h = ground arith
  get_recursive-assign (node c v u l r) w e h = elim (Bool-cases (v == w && same_key u.key key)) [
    | inl here ↦ rw (here, assign, here, get_recursive) (ap written (rw (here, get_recursive) at h))
    | inr away ↦ elim (Bool-cases (ltb w v)) [
      | inl lower ↦
          rw (away, lower, assign, away, lower, get_recursive)
            (get_recursive-assign l w e (rw (away, lower, get_recursive) at h))
      | inr higher ↦
          rw (away, higher, assign, away, higher, get_recursive)
            (get_recursive-assign r w e (rw (away, higher, get_recursive) at h))
    ]
  ]
    where
      written : Option (Entry (Option Text)) → Option (Entry (Option Text))
      written o = elim o [ none ↦ none | some x ↦ some (record x { content = value }) ]

  -- other keys are searched as before
  get_recursive-assign_other :
      (t : Tree (Entry (Option Text))) (w : ℕ) (other : Key) (x : ℕ)
      → other ≢ key
      → get_recursive (assign t key w value) other x ≡ get_recursive t other x
  unfolding get_recursive assign
  get_recursive-assign_other leaf w other x differs = refl
  get_recursive-assign_other (node c v u l r) w other x differs =
      elim (Bool-cases (v == w && same_key u.key key)) [
        | inl here ↦ rw (here, not_here here, assign, get_recursive) refl
        | inr away ↦ elim (Bool-cases (ltb w v)) [
          | inl lower ↦
              rw (away, lower, assign, get_recursive)
                (ap (λ s. searched s (get_recursive r other x))
                  (get_recursive-assign_other l w other x differs))
          | inr higher ↦
              rw (away, higher, assign, get_recursive)
                (ap (λ s. searched (get_recursive l other x) s)
                  (get_recursive-assign_other r w other x differs))
        ]
      ]
    where
      searched :
          Option (Entry (Option Text)) → Option (Entry (Option Text)) → Option (Entry (Option Text))
      searched a b = elim (v == x && same_key u.key other) [
        | true ↦ some u
        | false ↦ elim (ltb x v) [ true ↦ a | false ↦ b ]
      ]

      second : (a b : Bool) → (a && b) ≡ true → b ≡ true
      second a b h = ground arith

      none_of : (a b : Bool) → b ≡ false → (a && b) ≡ false
      none_of a b h = ground arith

      not_here : (v == w && same_key u.key key) ≡ true → (v == x && same_key u.key other) ≡ false
      not_here here =
          none_of (v == x) (same_key u.key other) (elim (Bool-cases (same_key u.key other)) [
            | inr no_match ↦ no_match
            | inl matches ↦ absurd (
                differs (
                  sym ((same_key_iff u.key other).0 matches)
                  ∙ (same_key_iff u.key key).0 (second (v == w) (same_key u.key key) here)))
          ])

-- the value of the header that a search finds
abbrev pub header_value : Headers → Key → Option Text
header_value d key = elim (get_if_exists d key) [ none ↦ none | some e ↦ e.content ]

-- the headers as they are after a header is set
record Set (d : Headers) (key : Key) (value : Text) (d' : Headers) : Type 0 where
  value_of : header_value d' key ≡ some value
  others : (other : Key) → other ≢ key → get_if_exists d' other ≡ get_if_exists d other

get_or_create_lem :
    (d : Headers) (key : Key) (c : Created (Option Text)) (e : Entry (Option Text))
    → get_if_exists d key ≡ none
    → create d key ≡ some c
    → c.result ≡ some e
    → get_or_create true true d key ≡ some (c.dictionary, some e)
unfolding get_or_create get_or_create_informed
get_or_create_lem d key c e absent done result =
    rw (absent, done, get_or_create, get_or_create_informed)
      (ap (λ r. some (c.dictionary, r)) result)

entry_value :
    (d : Headers) (key : Key) → d.node_initialize ≡ none → (new_entry d key).content ≡ d.zeroed
unfolding new_entry
entry_value d key plain = rw (plain, new_entry) refl

set_header-Set :
    (d : Headers) (key : Key) (value : Text)
    → d.node_initialize ≡ none
    → WellFormed d
    → NoCollision key (inorder d.root)
    → (d' : Headers) × (set_header true true d key value ≡ some (d', true)) × Set d key value d'
unfolding set_header get_if_exists
set_header-Set d key value plain w n = elim (Option-cases (get_if_exists d key)) [
  | inr (e, found) ↦ (
    record d { root = assign d.root key (evaluate key) (some value) },
    rw (found, set_header) refl,
    record {
      value_of = ap read (get_recursive-assign key (some value) d.root (evaluate key) e found);
      others = λ other differs.
          get_recursive-assign_other key (some value) d.root (evaluate key) other (evaluate other)
            differs;
    },
  )
  | inl absent ↦
      let z : Headers = record d { zeroed = some value } in
      let (c, done, kept, result, created, found, others) =
        create-lem z key (record { balanced = w.balanced; distinct = w.distinct }) n absent in
      (
        record d { root = c.dictionary.root },
        rw (absent, get_or_create_lem z key c (new_entry z key) absent done result, set_header)
            refl,
        record { value_of = ap read found ∙ entry_value z key plain; others = others },
      )
]
  where
    read : Option (Entry (Option Text)) → Option Text
    read o = elim o [ none ↦ none | some e ↦ e.content ]

-- In well-formed headers in which no other key has the evaluation of the key, with every allocation given:
-- appending a header stores it under the key as it is given, with its upper and lower case. It ends with `NOICE`,
-- whether there was a header of that key or not, a search for that same key then finds the value, and the searches
-- for all other keys, also those that differ only in case, find what they found.
pub append_header-header_value :
    (p : Payload) (key : Key) (value : Text)
    → p.configuration.node_initialize ≡ none
    → WellFormed p.configuration
    → NoCollision key (inorder p.configuration.root)
    → (p' : Payload) × (append_header true true true p key value ≡ built p')
      × (header_value p'.configuration key ≡ some value)
      × ((other : Key)
          → other ≢ key
          → header_value p'.configuration other ≡ header_value p.configuration other)
unfolding append_header
append_header-header_value p key value plain w n =
    let (d, done, set) = set_header-Set p.configuration key value plain w n in
    (
      record p { configuration = d },
      rw (done, append_header) refl,
      set.value_of,
      λ other differs.
          ap (λ o. elim o [ none ↦ none | some e ↦ e.content ]) (set.others other differs),
    )
