-- ===== src/LinkedList/Sort/Refine.antt =====
-- `p_list_node_merge_sort` and `f_list_sort` refine the sort of a list.
use mathlib.Core.Path.{subst}
use coremio.Prelude.{
  ℕ, zero, suc, ◌+◌, ◌<◌, ◌≡◌, ◌≢◌, refl, sym, ◌∙◌, false, some, List, [], ◌∷◌, ◌++◌, arith, length,
  take, drop, has, first, take-append-drop, length-take, length-drop, not-has-append,
  not-has-of_append,
}
use coremio.LinkedList.Heap.{
  and_then, Ptr, null, Store, ok, Ensures, Ensures-mono, Ensures-bind, commands, Node,
}
use coremio.LinkedList.Chain.{Seg, Disjoint, Disjoint-symm, Spares, frame-Seg, append-Seg}
use coremio.LinkedList.Sort.{Comparison, merge_sort, hard_split, hard_merge}
use coremio.LinkedList.Sort.Spec.{
  merge, moves, moves-lt, sorted_by, has-sorted_by, length-sorted_by,
}
use coremio.LinkedList.Sort.Split.{hard_split_lem}
use coremio.LinkedList.Sort.Merge.{hard_merge-Seg, Merged, merge_previous-null}

module _ (c : Comparison) where
  sort_step :
      (k : ℕ) (s : Store) (x : Ptr) (n : Node)
      → x ≢ null
      → s.node x ≡ some n
      → n.next ≢ null
      → merge_sort (suc k) c x s
        ≡ and_then (hard_split (suc k) x s) (λ right s1.
          and_then
            (merge_sort k c x s1)
            (λ a s2. and_then (merge_sort k c right s2) (λ b. hard_merge (suc k) c a b)))
  unfolding merge_sort commands
  sort_step k s x n hx e hn = ground arith

  sort_one :
      (k : ℕ) (s : Store) (x : Ptr) (n : Node)
      → x ≢ null
      → s.node x ≡ some n
      → n.next ≡ null
      → merge_sort (suc k) c x s ≡ ok x s
  unfolding merge_sort commands
  sort_one k s x n hx e hn = ground arith

  sort_null : (k : ℕ) (s : Store) → merge_sort (suc k) c null s ≡ ok null s
  unfolding merge_sort
  sort_null k s = refl

  -- the chain of `xs` became that of `ys`, with no other write
  abbrev Turned : Store → Ptr → List Ptr → List Ptr → Ptr → Store → Type 0
  Turned s l xs ys r s' = (r ≡ first ys null) × Seg s' l null ys null × Spares s s' xs

  sort_halves :
      (k : ℕ) (s : Store) (l : Ptr) (xs ls rs : List Ptr)
      → xs ≡ ls ++ rs
      → Disjoint ls rs
      → length ls + length rs < suc k
      → ((s : Store)
          → Seg s l null ls null
          → Ensures (Turned s l ls (sorted_by k c ls)) (merge_sort k c (first ls null) s))
      → ((s : Store)
          → Seg s l null rs null
          → Ensures (Turned s l rs (sorted_by k c rs)) (merge_sort k c (first rs null) s))
      → Seg s l null ls null
      → Seg s l null rs null
      → length (sorted_by k c ls) ≡ length ls
      → length (sorted_by k c rs) ≡ length rs
      → Ensures (Turned s l xs (merge c (sorted_by k c ls) (sorted_by k c rs))) (
          and_then
            (merge_sort k c (first ls null) s)
            (λ a s2. and_then (merge_sort k c (first rs null) s2) (λ b. hard_merge (suc k) c a b)))
  sort_halves k s l xs ls rs e apart f left right chain chain' la lb =
      Ensures-bind (Turned s l ls (sorted_by k c ls)) _ (merge_sort k c (first ls null) s) _
        (left s chain)
        λ a s2 (ea, sa, spa).
          Ensures-bind (Turned s2 l rs (sorted_by k c rs)) _ (merge_sort k c (first rs null) s2) _
            (right s2 (
              frame-Seg s s2 l null rs null (λ b h. spa.nodes b (Disjoint-symm ls rs apart b h))
                chain'))
            λ b s3 (eb, sb, spb).
              rw (ea, eb)
                (Ensures-mono (Merged c s3 l null null (sorted_by k c ls) (sorted_by k c rs)) _
                  (hard_merge (suc k) c (first (sorted_by k c ls) null)
                    (first (sorted_by k c rs) null) s3)
                  (hard_merge-Seg c (suc k) s3 l null null (sorted_by k c ls) (sorted_by k c rs)
                    (omega arith) (λ x h. rw has-sorted_by (apart x (rw has-sorted_by at h)))
                    (frame-Seg s2 s3 l null _ null
                      (λ x h. spb.nodes x (apart x (rw has-sorted_by at h))) sa)
                    sb)
                  λ r s4 (er, chain4, sp4). (
                    er,
                    rw merge_previous-null at chain4,
                    record {
                      nodes = λ x h.
                          sp4.nodes x (
                            not-has-append x _ _ (has-sorted_by c k x ls ∙ (parts x h).0)
                              (has-sorted_by c k x rs ∙ (parts x h).1))
                          ∙ spb.nodes x (parts x h).1
                          ∙ spa.nodes x (parts x h).0;
                      lists = λ x. sp4.lists x ∙ spb.lists x ∙ spa.lists x;
                    },
                  ))
    where
      parts : (x : Ptr) → has x xs ≡ false → (has x ls ≡ false) × (has x rs ≡ false)
      parts x h = not-has-of_append x ls rs (rw e at h)

  -- With fuel for its nodes, `merge_sort` turns a chain into that of the sorted nodes, and writes nowhere else.
  pub merge_sort-sorted_by :
      (k : ℕ) (s : Store) (l : Ptr) (xs : List Ptr)
      → length xs < k
      → Seg s l null xs null
      → Ensures (Turned s l xs (sorted_by k c xs)) (merge_sort k c (first xs null) s)
  unfolding sorted_by
  merge_sort-sorted_by zero s l xs f chain = absurd (omega arith)
  merge_sort-sorted_by (suc k) s l [] f chain =
      rw sort_null (refl, tt, record { nodes = λ a h. refl; lists = λ a. refl })
  merge_sort-sorted_by (suc k) s l (x ∷ []) f chain =
      rw (sort_one k s x _ chain.0 chain.2 refl)
        (refl, chain, record { nodes = λ a h. refl; lists = λ a. refl })
  merge_sort-sorted_by (suc k) s l (x ∷ y ∷ xs) f chain =
      let half = suc (moves (x ∷ y ∷ xs)) in
      let ls = take half (x ∷ y ∷ xs) in
      let rs = drop half (x ∷ y ∷ xs) in
      let joined = take-append-drop half (x ∷ y ∷ xs) in
      let (_, _, apart) =
        append-Seg s l null ls rs null (subst (λ zs. Seg s l null zs null) (sym joined) chain) in
      let short = moves-lt x y xs in
      let shorter = length-drop half (x ∷ y ∷ xs) in
      let longer = length-take half (x ∷ y ∷ xs) (omega arith) in
      rw (sort_step k s x _ chain.0 chain.2 chain.3.0) (
        Ensures-bind _ _ (hard_split (suc k) x s) _ (hard_split_lem s l (suc k) null x y xs f chain)
          λ r s1 (e, front, back, sp). rw e (
            Ensures-mono (Turned s1 l (x ∷ y ∷ xs) (merge c (sorted_by k c ls) (sorted_by k c rs)))
              _ _
              (sort_halves k s1 l (x ∷ y ∷ xs) ls rs (sym joined) apart
                (omega (arith, shorter, longer))
                (λ t d. merge_sort-sorted_by k t l ls (omega (arith, longer)) d)
                (λ t d. merge_sort-sorted_by k t l rs (omega (arith, shorter)) d) front back
                (length-sorted_by c k ls) (length-sorted_by c k rs))
              λ a s2 (e2, chain2, sp2). (
                e2,
                chain2,
                record {
                  nodes = λ b h. sp2.nodes b h ∙ sp.nodes b h;
                  lists = λ b. sp2.lists b ∙ sp.lists b;
                },
              )))
