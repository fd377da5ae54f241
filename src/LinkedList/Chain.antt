-- ===== src/LinkedList/Chain.antt =====
-- What a list stands for.
use mathlib.Core.Bool.{false≢true}
use coremio.Prelude.{
  sym, ◌∙◌, ◌%◌, ◌≡◌, ◌≢◌, true, false, some, List, [], ◌∷◌, arith, length, first, last, has,
  size_mod, has-append, first-append, ◌++◌, ◌==◌, Bool-cases, ==_iff, inl, inr, refl,
}
use coremio.LinkedList.Heap.{Node, Ptr, null, node_of, header_of, Store}

-- The nodes `xs` of the list `l`, in order: linked both ways, distinct, between `prev` and `after`.
abbrev pub Seg : Store → Ptr → Ptr → List Ptr → Ptr → Type 0
Seg s l prev [] after = Unit
Seg s l prev (x ∷ xs) after =
    (x ≢ null)
    × (has x xs ≡ false)
    × (s.node x ≡ some (node_of l (first xs after) prev))
    × Seg s l x xs after

pub record IsList (s : Store) (l : Ptr) (xs : List Ptr) : Type 0 where
  pub not_null : l ≢ null
  pub header : s.list l ≡ some (header_of (first xs null) (last xs null) (length xs % size_mod))
  pub chain : Seg s l null xs null

-- a node that no list holds
abbrev pub IsDetached : Store → Ptr → Type 0
IsDetached s x = (x ≢ null) × (s.node x ≡ some (node_of null null null))

pub frame-Seg :
    (s s' : Store) (l prev : Ptr) (xs : List Ptr) (after : Ptr)
    → ((a : Ptr) → has a xs ≡ true → s'.node a ≡ s.node a)
    → Seg s l prev xs after
    → Seg s' l prev xs after
frame-Seg s s' l prev [] after same c = tt
frame-Seg s s' l prev (x ∷ xs) after same c = (
  c.0,
  c.1,
  ground (arith, same x),
  frame-Seg s s' l x xs after (λ a h. same a (ground arith)) c.3,
)

-- no node is in both
abbrev pub Disjoint : List Ptr → List Ptr → Type 0
Disjoint xs ys = (a : Ptr) → has a xs ≡ true → has a ys ≡ false

pub Seg-append :
    (s : Store) (l prev : Ptr) (xs ys : List Ptr) (after : Ptr)
    → Seg s l prev xs (first ys after)
    → Seg s l (last xs prev) ys after
    → Disjoint xs ys
    → Seg s l prev (xs ++ ys) after
Seg-append s l prev [] ys after c d apart = d
Seg-append s l prev (x ∷ xs) ys after c d apart = (
  c.0,
  ground (arith, has-append x xs ys, apart x),
  rw first-append c.2,
  Seg-append s l x xs ys after c.3 d (λ a h. apart a (ground arith)),
)

pub append-Seg :
    (s : Store) (l prev : Ptr) (xs ys : List Ptr) (after : Ptr)
    → Seg s l prev (xs ++ ys) after
    → Seg s l prev xs (first ys after) × Seg s l (last xs prev) ys after × Disjoint xs ys
append-Seg s l prev [] ys after c = (tt, c, λ a h. cc)
append-Seg s l prev (x ∷ xs) ys after c =
    let (front, back, apart) = append-Seg s l x xs ys after c.3 in
    (
      (c.0, ground (arith, has-append x xs ys, c.1), rw first-append at c.2, front),
      back,
      λ a h. ground (arith, has-append x xs ys, c.1, apart a),
    )

-- the nodes of a chain are owned, and not null
pub has-Seg :
    (s : Store) (l prev : Ptr) (xs : List Ptr) (after : Ptr) (a : Ptr)
    → Seg s l prev xs after
    → has a xs ≡ true
    → (a ≢ null) × (n : Node) × (s.node a ≡ some n) × (n.owner ≡ l)
has-Seg s l prev [] after a c h = cc
has-Seg s l prev (x ∷ xs) after a c h = elim (Bool-cases (a == x)) [
  | inl e ↦
      let same : a ≡ x = (==_iff a x).0 e in
      (rw same c.0, node_of l (first xs after) prev, rw same c.2, refl)
  | inr e ↦ has-Seg s l x xs after a c.3 (ground arith)
]

-- What a command over the nodes `ps` leaves alone: every other node, and every list.
pub record Spares (s s' : Store) (ps : List Ptr) : Type 0 where
  pub nodes : (a : Ptr) → has a ps ≡ false → s'.node a ≡ s.node a
  pub lists : (a : Ptr) → s'.list a ≡ s.list a

pub Disjoint-symm : (xs ys : List Ptr) → Disjoint xs ys → Disjoint ys xs
Disjoint-symm xs ys apart a h = elim (Bool-cases (has a xs)) [
  | inl i ↦ absurd (false≢true (sym (apart a i) ∙ h))
  | inr i ↦ i
]
