-- ===== src/LinkedList/Sort/Order.antt =====
-- When the comparison is an order, the sort puts the nodes in that order.
use coremio.Prelude.{
  ℕ, zero, suc, ◌<◌, ◌≡◌, Bool, true, false, some, List, [], ◌∷◌, arith, length, take, drop, inl,
  inr, Bool-cases, length-take, length-drop,
}
use coremio.LinkedList.Heap.{Ptr}
use coremio.LinkedList.Sort.{takes_left}
use coremio.LinkedList.Sort.Spec.{merge, moves, moves-lt, sorted_by}

-- `to_swap a b` says that `a` must stand behind `b`
pub record IsOrder (to_swap : Ptr → Ptr → Bool) : Type 0 where
  pub asymmetric : (a b : Ptr) → to_swap a b ≡ true → to_swap b a ≡ false
  pub transitive : (a b c : Ptr) → to_swap a b ≡ false → to_swap b c ≡ false → to_swap a c ≡ false

module _ (to_swap : Ptr → Ptr → Bool) where
  -- no node must stand behind a later one
  abbrev pub NoneBefore : Ptr → List Ptr → Type 0
  NoneBefore x [] = Unit
  NoneBefore x (y ∷ ys) = (to_swap x y ≡ false) × NoneBefore x ys

  abbrev pub IsSorted : List Ptr → Type 0
  IsSorted [] = Unit
  IsSorted (x ∷ xs) = NoneBefore x xs × IsSorted xs

module _ (to_swap : Ptr → Ptr → Bool) (order : IsOrder to_swap) where
  NoneBefore-trans :
      (x y : Ptr) (ys : List Ptr)
      → to_swap x y ≡ false
      → NoneBefore to_swap y ys
      → NoneBefore to_swap x ys
  NoneBefore-trans x y [] h n = tt
  NoneBefore-trans x y (z ∷ zs) h n = (order.transitive x y z h n.0, NoneBefore-trans x y zs h n.1)

  NoneBefore-merge :
      (x : Ptr) (xs ys : List Ptr)
      → NoneBefore to_swap x xs
      → NoneBefore to_swap x ys
      → NoneBefore to_swap x (merge (some to_swap) xs ys)
  unfolding merge
  NoneBefore-merge x [] ys h i = i
  NoneBefore-merge x (y ∷ xs) [] h i = h
  NoneBefore-merge x (y ∷ xs) (z ∷ ys) h i = elim (Bool-cases (takes_left (some to_swap) y z)) [
    | inl t ↦ rw (t, merge) (h.0, NoneBefore-merge x xs (z ∷ ys) h.1 i)
    | inr t ↦ rw (t, merge) (i.0, NoneBefore-merge x (y ∷ xs) ys h i.1)
  ]

  merge-IsSorted :
      (xs ys : List Ptr)
      → IsSorted to_swap xs
      → IsSorted to_swap ys
      → IsSorted to_swap (merge (some to_swap) xs ys)
  unfolding merge takes_left
  merge-IsSorted [] ys h i = i
  merge-IsSorted (x ∷ xs) [] h i = h
  merge-IsSorted (x ∷ xs) (y ∷ ys) h i = elim (Bool-cases (to_swap x y)) [
    | inl t ↦
        rw (t, merge)
          (
            NoneBefore-merge y (x ∷ xs) ys
                (order.asymmetric x y t, NoneBefore-trans y x xs (order.asymmetric x y t) h.0) i.0,
            merge-IsSorted (x ∷ xs) ys h i.1,
          )
    | inr t ↦
        rw (t, merge)
          (
            NoneBefore-merge x xs (y ∷ ys) h.0 (t, NoneBefore-trans x y ys t i.0),
            merge-IsSorted xs (y ∷ ys) h.1 i,
          )
  ]

  pub sorted_by-IsSorted :
      (k : ℕ) (xs : List Ptr) → length xs < k → IsSorted to_swap (sorted_by k (some to_swap) xs)
  unfolding sorted_by
  sorted_by-IsSorted zero xs f = absurd (omega arith)
  sorted_by-IsSorted (suc k) [] f = tt
  sorted_by-IsSorted (suc k) (x ∷ []) f = (tt, tt)
  sorted_by-IsSorted (suc k) (x ∷ y ∷ xs) f =
      let half = suc (moves (x ∷ y ∷ xs)) in
      let short = moves-lt x y xs in
      merge-IsSorted _ _
        (sorted_by-IsSorted k (take half (x ∷ y ∷ xs))
          (omega (arith, length-take half (x ∷ y ∷ xs))))
        (sorted_by-IsSorted k (drop half (x ∷ y ∷ xs))
          (omega (arith, length-drop half (x ∷ y ∷ xs))))
