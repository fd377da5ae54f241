-- ===== src/HttpPayload/Balanced.antt =====
-- Setting a header keeps the balance of the dictionary, and uses no null pointer.
use coremio.Prelude.{
  ℕ, ◌+◌, ◌≡◌, refl, sym, ap, ◌∙◌, Bool, true, false, ◌&&◌, Option, none, some, ◌==◌, ltb,
  Bool-cases, inl, inr, ◌⊎◌, Text,
}
use coremio.RedBlackTree.{Tree, leaf, node, is_red}
use coremio.RedBlackTree.Rules.{IsRedBlack, Rules, black_height, blackness}
use coremio.RedBlackTree.Balance.{insert-IsRedBlack}
use coremio.Dictionary.{
  Key, Entry, Dictionary, evaluate, same_key, get_if_exists, create, get_or_create_informed,
  get_or_create, new_entry,
}
use coremio.HttpPayload.{Headers, assign, set_header}

pub Option-cases {ℓ} : {A : Type ℓ} (o : Option A) → (o ≡ none) ⊎ ((a : A) × (o ≡ some a))
Option-cases none = inl refl
Option-cases (some a) = inr (a, refl)

record Shape (t u : Tree (Entry (Option Text))) : Type 0 where
  red : is_red u ≡ is_red t
  height : black_height u ≡ black_height t
  rules : Rules t → Rules u

Shape-refl : (t : Tree (Entry (Option Text))) → Shape t t
Shape-refl t = record { red = refl; height = refl; rules = λ r. r }

assign-Shape :
    (t : Tree (Entry (Option Text))) (key : Key) (evaluation : ℕ) (value : Option Text)
    → Shape t (assign t key evaluation value)
unfolding assign
assign-Shape leaf key w value = Shape-refl leaf
assign-Shape (node c v e l r) key w value =
    let left = assign-Shape l key w value in
    let right = assign-Shape r key w value in
    elim (Bool-cases (v == w && same_key e.key key)) [
      | inl here ↦ rw (here, assign) (record { red = refl; height = refl; rules = λ h. h })
      | inr away ↦ elim (Bool-cases (ltb w v)) [
        | inl lower ↦
            rw (away, lower, assign)
              (record {
                red = refl;
                height = ap (λ h. blackness c + h) left.height;
                rules = λ h. (
                  (λ i. (left.red ∙ (h.0 i).0, (h.0 i).1)),
                  left.height ∙ h.1,
                  left.rules h.2,
                  h.3,
                );
              })
        | inr higher ↦
            rw (away, higher, assign)
              (record {
                red = refl;
                height = refl;
                rules = λ h. (
                  (λ i. ((h.0 i).0, right.red ∙ (h.0 i).1)),
                  h.1 ∙ sym right.height,
                  h.2,
                  right.rules h.3,
                );
              })
      ]
    ]

module _ {A : Type 0} where
  -- a result that is no use of a null pointer, with a balanced dictionary
  abbrev Gives : Option (Dictionary A × Option (Entry A)) → Type 0
  Gives none = ⊥
  Gives (some (d, e)) = IsRedBlack d.root

  get_or_create-Gives :
      (n k : Bool) (d : Dictionary A) (key : Key)
      → IsRedBlack d.root
      → Gives (get_or_create n k d key)
  unfolding get_or_create get_or_create_informed create
  get_or_create-Gives n k d key is = elim (Option-cases (get_if_exists d key)) [
    | inr (e, found) ↦ rw (found, get_or_create, get_or_create_informed) is
    | inl absent ↦ elim (Bool-cases (n && k)) [
      | inl memory ↦
          let (t, done, balanced) = insert-IsRedBlack d.root (evaluate key) (new_entry d key) is in
          rw (absent, memory, done, get_or_create, get_or_create_informed, create) balanced
      | inr no_memory ↦ rw (absent, no_memory, get_or_create, get_or_create_informed) is
    ]
  ]

-- the same of `set_header`
abbrev pub Sets : Option (Headers × Bool) → Type 0
Sets none = ⊥
Sets (some (d, b)) = IsRedBlack d.root

pub set_header-Sets :
    (n k : Bool) (d : Headers) (key : Key) (value : Text)
    → IsRedBlack d.root
    → Sets (set_header n k d key value)
unfolding set_header
set_header-Sets n k d key value is = elim (Option-cases (get_if_exists d key)) [
  | inr (e, found) ↦
      let shape = assign-Shape d.root key (evaluate key) (some value) in
      rw (found, set_header)
        (record { root_black = shape.red ∙ is.root_black; rules = shape.rules is.rules })
  | inl absent ↦
      rw (absent, set_header)
        (settled (get_or_create n k (record d { zeroed = some value }) key)
          (get_or_create-Gives n k (record d { zeroed = some value }) key is))
]
  where
    settled :
        (o : Option (Headers × Option (Entry (Option Text))))
        → Gives o
        → Sets (elim o [
          | none ↦ none
          | some (created, entry) ↦ elim entry [
            | none ↦ some (d, false)
            | some e ↦ some (record d { root = created.root }, true)
          ]
        ])
    settled none g = g
    settled (some (created, none)) g = is
    settled (some (created, some e)) g = g
