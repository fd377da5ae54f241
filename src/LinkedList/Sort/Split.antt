-- ===== src/LinkedList/Sort/Split.antt =====
-- `p_list_node_hard_split` cuts a chain behind the node on which the single step stops.
use coremio.Prelude.{
  ap, ◌∙◌, ℕ, zero, suc, ◌<◌, ◌≡◌, ◌≢◌, refl, true, false, some, List, [], ◌∷◌, ◌++◌, arith, length,
  take, drop, has, first, has-append, ==_iff, ◌==◌,
}
use coremio.LinkedList.Heap.{Ptr, null, Store, ok, Ensures, Ensures-mono, commands, node_of, Node}
use coremio.LinkedList.Chain.{Seg, Disjoint, Spares, append-Seg, Seg-append, frame-Seg}
use coremio.LinkedList.Sort.{split_walk, hard_split}
use coremio.LinkedList.Sort.Spec.{moves, moves-lt}

module _ (s : Store) (l : Ptr) where
  split_walk_lem :
      (k : ℕ) (p q : Ptr) (zs ws : List Ptr)
      → Seg s l p zs null
      → Seg s l q ws null
      → moves ws < length zs
      → length ws < k
      → split_walk k (first ws null) (first zs null) s ≡ ok (first (drop (moves ws) zs) null) s
  unfolding split_walk moves commands
  split_walk_lem zero p q zs ws c d m f = absurd (omega arith)
  split_walk_lem (suc k) p q zs [] c d m f = refl
  split_walk_lem (suc k) p q zs (t ∷ []) c d m f = ground arith
  split_walk_lem (suc k) p q zs (t ∷ u ∷ []) c d m f =
      ground (arith, split_walk_lem k p u zs [] c d.3.3 m (omega arith))
  split_walk_lem (suc k) p q [] (t ∷ u ∷ v ∷ ws) c d m f = absurd (omega arith)
  split_walk_lem (suc k) p q (z ∷ zs) (t ∷ u ∷ v ∷ ws) c d m f =
      ground (arith, split_walk_lem k z u zs (v ∷ ws) c.3 d.3.3 (omega arith) (omega arith))

-- the parts of a list that is cut behind its element `k`
record Cut (k : ℕ) (xs : List Ptr) : Type 0 where
  before : List Ptr
  at : Ptr
  next : Ptr
  behind : List Ptr
  takes : take (suc k) xs ≡ before ++ at ∷ []
  drops : drop (suc k) xs ≡ next ∷ behind
  stops : first (drop k xs) null ≡ at
  joins : xs ≡ (before ++ at ∷ []) ++ next ∷ behind

cut : (k : ℕ) (xs : List Ptr) → suc k < length xs → Cut k xs
cut k [] h = absurd (omega arith)
cut k (x ∷ []) h = absurd (omega arith)
cut zero (x ∷ y ∷ xs) h = record {
  before = [];
  at = x;
  next = y;
  behind = xs;
  takes = refl;
  drops = refl;
  stops = refl;
  joins = refl;
}
cut (suc k) (x ∷ y ∷ xs) h =
    let c = cut k (y ∷ xs) (omega arith) in
    record {
      before = x ∷ c.before;
      at = c.at;
      next = c.next;
      behind = c.behind;
      takes = ap (◌∷◌ x) c.takes;
      drops = c.drops;
      stops = c.stops;
      joins = ap (◌∷◌ x) c.joins;
    }

module _ (before : List Ptr) (at next : Ptr) (behind : List Ptr) (a : Ptr)
    (apart : Disjoint (before ++ at ∷ []) (next ∷ behind)) where
  before-outside : Disjoint before (at ∷ []) → has a before ≡ true → has a (at ∷ next ∷ []) ≡ false
  before-outside apart' h = ground (arith, apart a, apart' a, has-append a before (at ∷ []))

  behind-outside : has next behind ≡ false → has a behind ≡ true → has a (at ∷ next ∷ []) ≡ false
  behind-outside out h =
      ground (arith, apart at, has-append at before (at ∷ []), ==_iff a at, ==_iff a next)

all-outside :
    (before : List Ptr) (at next : Ptr) (behind : List Ptr) (a : Ptr)
    → has a ((before ++ at ∷ []) ++ next ∷ behind) ≡ false
    → has a (at ∷ next ∷ []) ≡ false
all-outside before at next behind a h =
    ground (arith, has-append a (before ++ at ∷ []) (next ∷ behind), has-append a before (at ∷ []))

module _ (s : Store) (l : Ptr) where
  hard_split_run :
      (k : ℕ) (head x r : Ptr) (px : Ptr) (n : Node)
      → split_walk k head head s ≡ ok x s
      → x ≢ null
      → s.node x ≡ some (node_of l r px)
      → r ≢ null
      → s.node r ≡ some n
      → (x == r) ≡ false
      → Ensures
          (λ a s'.
            (a ≡ r)
            × (s'.node r ≡ some (record n { previous = null }))
            × (s'.node x ≡ some (node_of l null px))
            × Spares s s' (x ∷ r ∷ []))
          (hard_split k head s)
  unfolding hard_split commands
  hard_split_run k head x r px n walk hx ex hr er ne = ground arith

  hard_split-Cut :
      (k : ℕ) (p : Ptr) (xs : List Ptr) (c : Cut (moves xs) xs)
      → length xs < k
      → Seg s l p xs null
      → moves xs < length xs
      → Ensures
          (λ r s'.
            (r ≡ first (drop (suc (moves xs)) xs) null)
            × Seg s' l p (take (suc (moves xs)) xs) null
            × Seg s' l null (drop (suc (moves xs)) xs) null
            × Spares s s' xs)
          (hard_split k (first xs null) s)
  hard_split-Cut k p xs c f chain m =
      let (front, back, apart) =
        append-Seg s l p (before ++ at ∷ []) (next ∷ behind) null (rw joins at chain) in
      let (front', back', apart') = append-Seg s l p before (at ∷ []) next front in
      let ne : (at == next) ≡ false = ground (arith, apart at, has-append at before (at ∷ [])) in
      rw (takes, drops)
        (Ensures-mono _ _ (hard_split k (first xs null) s)
          (hard_split_run k (first xs null) at next _ _
            (split_walk_lem s l k p p xs xs chain chain m f ∙ rw stops) back'.0 back'.2 back.0
            back.2 ne)
          λ r s' (e, hn, ha, spares). (
            e,
            Seg-append s' l p before (at ∷ []) null
                (frame-Seg s s' l p before at
                  (λ a h. spares.nodes a (before-outside before at next behind a apart apart' h))
                  front')
                (back'.0, refl, ha, tt) apart',
            (
              back.0,
              back.1,
              hn,
              frame-Seg s s' l next behind null
                  (λ a h. spares.nodes a (behind-outside before at next behind a apart back.1 h))
                  back.3,
            ),
            record {
              nodes = λ a h. spares.nodes a (all-outside before at next behind a (rw joins at h));
              lists = spares.lists;
            },
          ))
    where
      open c use {before, at, next, behind, takes, drops, stops, joins}

  -- With fuel for its nodes, splitting a chain of two nodes or more cuts it in two behind
  -- the first half, returns the second half, and writes nowhere else.
  pub hard_split_lem :
      (k : ℕ) (p x y : Ptr) (xs : List Ptr)
      → length (x ∷ y ∷ xs) < k
      → Seg s l p (x ∷ y ∷ xs) null
      → let half = suc (moves (x ∷ y ∷ xs)) in
        Ensures
          (λ r s'.
            (r ≡ first (drop half (x ∷ y ∷ xs)) null)
            × Seg s' l p (take half (x ∷ y ∷ xs)) null
            × Seg s' l null (drop half (x ∷ y ∷ xs)) null
            × Spares s s' (x ∷ y ∷ xs))
          (hard_split k x s)
  hard_split_lem k p x y xs f chain =
      let m = moves-lt x y xs in
      hard_split-Cut k p (x ∷ y ∷ xs) (cut (moves (x ∷ y ∷ xs)) (x ∷ y ∷ xs) m) f chain
        (omega arith)
