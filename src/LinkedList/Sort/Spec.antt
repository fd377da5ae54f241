-- ===== src/LinkedList/Sort/Spec.antt =====
-- Sorting the list of addresses that a chain stands for, as a function on lists.
use mathlib.Core.Path.{ap₂}
use mathlib.Core.List.{Perm, perm_middle}
use mathlib.Core.List.Perm
use coremio.Prelude.{
  append-nil, Bool-cases, inl, inr, length-append, ap, sym, ◌∙◌, has-append, take-append-drop, ℕ,
  zero, suc, ◌+◌, ◌<◌, ◌≡◌, refl, true, false, List, [], ◌∷◌, ◌++◌, ◌||◌, arith, length, take, drop,
  has,
}
use coremio.LinkedList.Heap.{Ptr}
use coremio.LinkedList.Sort.{Comparison, takes_left}

unfoldable pub merge : Comparison → List Ptr → List Ptr → List Ptr
merge to_swap [] ys = ys
merge to_swap (x ∷ xs) [] = x ∷ xs
merge to_swap (x ∷ xs) (y ∷ ys) = elim (takes_left to_swap x y) [
  | true ↦ x ∷ merge to_swap xs (y ∷ ys)
  | false ↦ y ∷ merge to_swap (x ∷ xs) ys
]

-- how often the single step moves while the double step runs through the list
unfoldable pub moves : List Ptr → ℕ
moves [] = 0
moves (x ∷ []) = 0
moves (x ∷ y ∷ []) = 0
moves (x ∷ y ∷ z ∷ zs) = suc (moves (z ∷ zs))

unfoldable pub sorted_by : ℕ → Comparison → List Ptr → List Ptr
sorted_by zero to_swap xs = xs
sorted_by (suc k) to_swap [] = []
sorted_by (suc k) to_swap (x ∷ []) = x ∷ []
sorted_by (suc k) to_swap (x ∷ y ∷ xs) =
    let half = suc (moves (x ∷ y ∷ xs)) in
    merge to_swap (sorted_by k to_swap (take half (x ∷ y ∷ xs)))
      (sorted_by k to_swap (drop half (x ∷ y ∷ xs)))

pub has-merge :
    (c : Comparison) (a : Ptr) (xs ys : List Ptr) → has a (merge c xs ys) ≡ (has a xs || has a ys)
unfolding merge
has-merge c a [] ys = refl
has-merge c a (x ∷ xs) [] = ground arith
has-merge c a (x ∷ xs) (y ∷ ys) =
    ground (arith, has-merge c a xs (y ∷ ys), has-merge c a (x ∷ xs) ys)

pub length-merge :
    (c : Comparison) (xs ys : List Ptr) → length (merge c xs ys) ≡ length xs + length ys
unfolding merge
length-merge c [] ys = omega arith
length-merge c (x ∷ xs) [] = omega arith
length-merge c (x ∷ xs) (y ∷ ys) =
    ground (arith, length-merge c xs (y ∷ ys), length-merge c (x ∷ xs) ys)

-- the single step stops in the first half, which is not the whole of two or more
pub moves-lt : (x y : Ptr) (xs : List Ptr) → suc (moves (x ∷ y ∷ xs)) < length (x ∷ y ∷ xs)
unfolding moves
moves-lt x y [] = omega arith
moves-lt x y (z ∷ []) = omega arith
moves-lt x y (z ∷ w ∷ zs) = omega (arith, moves-lt z w zs)

merge-perm : (c : Comparison) (xs ys : List Ptr) → Perm (merge c xs ys) (xs ++ ys)
unfolding merge
merge-perm c [] ys = Perm.refl ys
merge-perm c (x ∷ xs) [] = rw append-nil (Perm.refl (x ∷ xs))
merge-perm c (x ∷ xs) (y ∷ ys) = elim (Bool-cases (takes_left c x y)) [
  | inl t ↦ rw (t, merge) (Perm.cons x (merge-perm c xs (y ∷ ys)))
  | inr t ↦
      rw (t, merge)
        (Perm.trans (Perm.cons y (merge-perm c (x ∷ xs) ys)) (Perm.symm (perm_middle (x ∷ xs) ys)))
]

module _ (c : Comparison) where
  pub has-sorted_by : (k : ℕ) (a : Ptr) (xs : List Ptr) → has a (sorted_by k c xs) ≡ has a xs
  unfolding sorted_by
  has-sorted_by zero a xs = refl
  has-sorted_by (suc k) a [] = refl
  has-sorted_by (suc k) a (x ∷ []) = refl
  has-sorted_by (suc k) a (x ∷ y ∷ xs) =
      let half = suc (moves (x ∷ y ∷ xs)) in
      has-merge c a _ _
      ∙ ap₂ ◌||◌ (has-sorted_by k a (take half (x ∷ y ∷ xs)))
          (has-sorted_by k a (drop half (x ∷ y ∷ xs)))
      ∙ sym (has-append a (take half (x ∷ y ∷ xs)) (drop half (x ∷ y ∷ xs)))
      ∙ ap (has a) (take-append-drop half (x ∷ y ∷ xs))

  pub length-sorted_by : (k : ℕ) (xs : List Ptr) → length (sorted_by k c xs) ≡ length xs
  unfolding sorted_by
  length-sorted_by zero xs = refl
  length-sorted_by (suc k) [] = refl
  length-sorted_by (suc k) (x ∷ []) = refl
  length-sorted_by (suc k) (x ∷ y ∷ xs) =
      let half = suc (moves (x ∷ y ∷ xs)) in
      omega (
        arith,
        length-merge c (sorted_by k c (take half (x ∷ y ∷ xs)))
            (sorted_by k c (drop half (x ∷ y ∷ xs))),
        length-sorted_by k (take half (x ∷ y ∷ xs)),
        length-sorted_by k (drop half (x ∷ y ∷ xs)),
        length-append (take half (x ∷ y ∷ xs)) (drop half (x ∷ y ∷ xs)),
        ap length (take-append-drop half (x ∷ y ∷ xs)),
      )

  -- sorting rearranges
  pub sorted_by-perm : (k : ℕ) (xs : List Ptr) → Perm (sorted_by k c xs) xs
  unfolding sorted_by
  sorted_by-perm zero xs = Perm.refl xs
  sorted_by-perm (suc k) [] = Perm.refl []
  sorted_by-perm (suc k) (x ∷ []) = Perm.refl (x ∷ [])
  sorted_by-perm (suc k) (x ∷ y ∷ xs) =
      let half = suc (moves (x ∷ y ∷ xs)) in
      Perm.trans (merge-perm c _ _) (
        Perm.trans
          (Perm.append (sorted_by-perm k (take half (x ∷ y ∷ xs)))
            (sorted_by-perm k (drop half (x ∷ y ∷ xs))))
          (rw take-append-drop (Perm.refl (x ∷ y ∷ xs))))

  pub sorted_by_nil : (k : ℕ) → sorted_by k c [] ≡ []
  unfolding sorted_by
  sorted_by_nil zero = refl
  sorted_by_nil (suc k) = refl
