-- ===== src/LinkedList/Sort/Run.antt =====
-- `f_list_sort` on a list.
use mathlib.Core.List.{Perm}
use coremio.Prelude.{
  none, length-append, ℕ, zero, suc, ◌<◌, ◌≡◌, ◌≢◌, refl, sym, ap, ◌∙◌, Bool, true, false, some,
  List, [], ◌∷◌, ◌++◌, arith, length, has, if◌then◌else◌, has-split, has-last, first, last, ◌==◌,
  last-append, ◌%◌, size_mod,
}
use coremio.LinkedList.Heap.{
  set_head, ◌>>◌, and_then, Ptr, null, Store, ok, Ensures, Ensures-mono, Ensures-bind, commands,
  Node, Header, header_of, Keeps,
}
use coremio.LinkedList.Chain.{Seg, IsList, Spares, frame-Seg, append-Seg}
use coremio.LinkedList.Sort.{Comparison, merge_sort, walk_tail, sort}
use coremio.LinkedList.Sort.Spec.{
  sorted_by_nil, sorted_by, has-sorted_by, length-sorted_by, sorted_by-perm,
}
use coremio.LinkedList.Sort.Refine.{merge_sort-sorted_by}
use coremio.LinkedList.Sort.Order.{IsOrder, IsSorted, sorted_by-IsSorted}

-- the tail of the list moved, and nothing else
abbrev Walked : Store → Ptr → Header → Ptr → Store → Type 0
Walked s l h t s' =
    (s'.list l ≡ some (record h { tail = t }))
    × ((a : Ptr) → s'.node a ≡ s.node a)
    × ((a : Ptr) → (a == l) ≡ false → s'.list a ≡ s.list a)

walk_stop :
    (k : ℕ) (s : Store) (l : Ptr) (h : Header) (n : Node)
    → l ≢ null
    → s.list l ≡ some h
    → h.tail ≢ null
    → s.node h.tail ≡ some n
    → n.next ≡ null
    → walk_tail (suc k) l s ≡ ok tt s
unfolding walk_tail commands
walk_stop k s l h n hl e ht en nn = ground arith

walk_none :
    (k : ℕ) (s : Store) (l : Ptr) (h : Header)
    → l ≢ null
    → s.list l ≡ some h
    → h.tail ≡ null
    → walk_tail (suc k) l s ≡ ok tt s
unfolding walk_tail commands
walk_none k s l h hl e ht = ground arith

-- one round, to the next node
walk_round :
    (k : ℕ) (s : Store) (l : Ptr) (h : Header) (n : Node)
    → l ≢ null
    → s.list l ≡ some h
    → h.tail ≢ null
    → s.node h.tail ≡ some n
    → n.next ≢ null
    → (s1 : Store) × (walk_tail (suc k) l s ≡ walk_tail k l s1) × Walked s l h n.next s1
unfolding walk_tail commands
walk_round k s l h n hl e ht en nn = (
  record s { list = λ a. if a == l then some (record h { tail = n.next }) else s.list a },
  ground arith,
  (ground arith, λ a. refl, ground arith),
)

walk_tail-last :
    (k : ℕ) (s : Store) (l o p : Ptr) (h : Header) (zs : List Ptr)
    → l ≢ null
    → s.list l ≡ some h
    → Seg s o p (h.tail ∷ zs) null
    → length zs < k
    → Ensures (λ _. Walked s l h (last zs h.tail)) (walk_tail k l s)
walk_tail-last zero s l o p h zs hl e c f = absurd (omega arith)
walk_tail-last (suc k) s l o p h [] hl e c f =
    rw (walk_stop k s l h _ hl e c.0 c.2 refl) (e, λ a. refl, λ a i. refl)
walk_tail-last (suc k) s l o p h (z ∷ zs) hl e c f =
    let (s1, run, (hl1, nodes, lists)) = walk_round k s l h _ hl e c.0 c.2 c.3.0 in
    rw run (
      Ensures-mono (λ _. Walked s1 l (record h { tail = z }) (last zs z)) _ (walk_tail k l s1)
        (walk_tail-last k s1 l o h.tail (record h { tail = z }) zs hl hl1
          (frame-Seg s s1 o h.tail (z ∷ zs) null (λ a i. nodes a) c.3) (omega arith))
        λ _ s2 (hl2, nodes2, lists2). (hl2, λ a. nodes2 a ∙ nodes a, λ a i. lists2 a i ∙ lists a i))

module _ (c : Comparison) (k : ℕ) (s : Store) (l : Ptr) (hl : l ≢ null) where
  -- the run around its two loops
  sort_run :
      (h : Header)
      → s.list l ≡ some h
      → sort k l c s ≡ and_then (merge_sort k c h.head s) (λ r. set_head l r >> walk_tail k l)
  unfolding sort commands
  sort_run h e = ground arith

  set_head_run :
      (h : Header) (r : Ptr)
      → s.list l ≡ some h
      → (s1 : Store) × ((set_head l r >> walk_tail k l) s ≡ walk_tail k l s1)
        × (s1.list l ≡ some (record h { head = r }))
        × ((a : Ptr) → s1.node a ≡ s.node a)
        × ((a : Ptr) → (a == l) ≡ false → s1.list a ≡ s.list a)
  unfolding commands
  set_head_run h r e = (
    record s { list = λ a. if a == l then some (record h { head = r }) else s.list a },
    ground arith,
    ground arith,
    λ a. refl,
    ground arith,
  )

finish_empty :
    (k : ℕ) (s : Store) (l r : Ptr)
    → l ≢ null
    → s.list l ≡ some (header_of null null 0)
    → r ≡ null
    → 0 < k
    → Ensures
        (λ _ s'.
          IsList s' l []
          × ((a : Ptr) → s'.node a ≡ s.node a)
          × ((a : Ptr) → (a == l) ≡ false → s'.list a ≡ s.list a))
        ((set_head l r >> walk_tail k l) s)
finish_empty zero s l r hl e er f = absurd (omega arith)
finish_empty (suc k) s l r hl e er f =
    let (s1, run, hl1, nodes, lists) = set_head_run none (suc k) s l hl _ r e in
    rw (run, walk_none k s1 l _ hl hl1 refl)
      (
        record { not_null = hl; header = hl1 ∙ ap (λ p. some (header_of p null 0)) er; chain = tt },
        nodes,
        lists,
      )

module _ (c : Comparison) (k : ℕ) (l : Ptr) (hl : l ≢ null) where
  -- from the sorted chain on: the tail is walked to its end
  finish-IsList :
      (s : Store) (t r : Ptr) (n : ℕ) (h : Ptr) (zs : List Ptr)
      → zs ≢ []
      → s.list l ≡ some (header_of h t n)
      → r ≡ first zs null
      → has t zs ≡ true
      → Seg s l null zs null
      → length zs < k
      → n ≡ length zs % size_mod
      → Ensures
          (λ _ s'.
            IsList s' l zs
            × ((a : Ptr) → s'.node a ≡ s.node a)
            × ((a : Ptr) → (a == l) ≡ false → s'.list a ≡ s.list a))
          ((set_head l r >> walk_tail k l) s)
  finish-IsList s t r n h zs ne e er i chain f count =
      let (ys, ws, split) = has-split t zs i in
      let (s1, run, hl1, nodes, lists) = set_head_run c k s l hl _ r e in
      let chain1 = frame-Seg s s1 l null zs null (λ a i. nodes a) chain in
      let (front, back, apart) = append-Seg s1 l null ys (t ∷ ws) null (rw split at chain1) in
      rw run (
        Ensures-mono (λ _. Walked s1 l (header_of r t n) (last ws t)) _ (walk_tail k l s1)
          (walk_tail-last k s1 l l _ (header_of r t n) ws hl hl1 back
            (omega (arith, ap length split, length-append ys (t ∷ ws))))
          λ _ s2 (hl2, nodes2, lists2). (
            record {
              not_null = hl;
              header = hl2 ∙ header_eq ys ws split;
              chain = frame-Seg s1 s2 l null zs null (λ a i. nodes2 a) chain1;
            },
            λ a. nodes2 a ∙ nodes a,
            λ a i. lists2 a i ∙ lists a i,
          ))
    where
      header_eq :
          (ys ws : List Ptr)
          → zs ≡ ys ++ t ∷ ws
          → some (header_of r (last ws t) n)
            ≡ some (header_of (first zs null) (last zs null) (length zs % size_mod))
      header_eq ys ws split = ground (arith, last-append ys (t ∷ ws) null)

  has-last-sorted :
      (x : Ptr) (xs : List Ptr) → has (last (x ∷ xs) null) (sorted_by k c (x ∷ xs)) ≡ true
  has-last-sorted x xs = has-sorted_by c k (last xs x) (x ∷ xs) ∙ has-last x xs

  not-nil : (x : Ptr) (xs : List Ptr) → sorted_by k c (x ∷ xs) ≢ []
  not-nil x xs e = absurd (omega (arith, ap length e, length-sorted_by c k (x ∷ xs)))

  -- With fuel for its nodes, sorting a list, with a comparison or without, makes it hold
  -- what a merge sort of the list of its nodes gives, and writes to no other node and no
  -- other list.
  pub sort-sorted_by :
      (s : Store) (xs : List Ptr)
      → length xs < k
      → IsList s l xs
      → Ensures (λ _ s'. IsList s' l (sorted_by k c xs) × Keeps s s' l xs) (sort k l c s)
  sort-sorted_by s xs f is = rw (sort_run c k s l hl _ is.header) (
      Ensures-bind _ _ (merge_sort k c (first xs null) s) _
        (merge_sort-sorted_by c k s l xs f is.chain) (rest xs f is))
    where
      rest :
          (xs : List Ptr)
          → length xs < k
          → IsList s l xs
          → (r : Ptr) (s1 : Store)
          → (r ≡ first (sorted_by k c xs) null)
            × Seg s1 l null (sorted_by k c xs) null
            × Spares s s1 xs
          → Ensures
              (λ _ s'. IsList s' l (sorted_by k c xs) × Keeps s s' l xs)
              ((set_head l r >> walk_tail k l) s1)
      rest [] f is r s1 (e, chain, spares) =
          let e' : sorted_by k c [] ≡ [] = sorted_by_nil c k in
          rw e' (
            Ensures-mono _ _ ((set_head l r >> walk_tail k l) s1)
              (finish_empty k s1 l r hl (spares.lists l ∙ is.header)
                (e ∙ ap (λ zs. first zs null) e') (omega arith))
              λ _ s2 (is2, nodes, lists). (
                is2,
                record {
                  nodes = λ a i. nodes a ∙ spares.nodes a i;
                  lists = λ a i. lists a i ∙ spares.lists a;
                },
              ))
      rest (x ∷ xs) f is r s1 (e, chain, spares) =
          Ensures-mono _ _ ((set_head l r >> walk_tail k l) s1)
            (finish-IsList s1 _ r _ _ (sorted_by k c (x ∷ xs)) (not-nil x xs)
              (spares.lists l ∙ is.header) e (has-last-sorted x xs) chain
              (omega (arith, length-sorted_by c k (x ∷ xs)))
              (ap (λ n. n % size_mod) (sym (length-sorted_by c k (x ∷ xs)))))
            λ _ s2 (is2, nodes, lists). (
              is2,
              record {
                nodes = λ a i. nodes a ∙ spares.nodes a i;
                lists = λ a i. lists a i ∙ spares.lists a;
              },
            )

-- Sorting by a comparison that is an order, with fuel for the nodes, makes the list hold the same nodes in that
-- order, and writes to no other node and no other list.
pub sort-IsSorted :
    (to_swap : Ptr → Ptr → Bool) (k : ℕ) (s : Store) (l : Ptr) (xs : List Ptr)
    → IsOrder to_swap
    → length xs < k
    → IsList s l xs
    → Ensures
        (λ _ s'.
          (ys : List Ptr) × IsList s' l ys × Perm ys xs × IsSorted to_swap ys × Keeps s s' l xs)
        (sort k l (some to_swap) s)
sort-IsSorted to_swap k s l xs order f is =
    Ensures-mono _ _ (sort k l (some to_swap) s)
      (sort-sorted_by (some to_swap) k l is.not_null s xs f is)
      λ _ s' (is', keeps). (
        sorted_by k (some to_swap) xs,
        is',
        sorted_by-perm (some to_swap) k xs,
        sorted_by-IsSorted to_swap order k xs f,
        keeps,
      )
