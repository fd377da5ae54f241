-- ===== src/LinkedList/Sort/Merge.antt =====
-- `p_list_node_hard_merge` relinks two chains into the merge of their nodes.
use coremio.Prelude.{
  ◌∙◌, ℕ, zero, suc, ◌+◌, ◌<◌, ◌≡◌, ◌≢◌, refl, sym, true, false, some, List, [], ◌∷◌, ◌++◌, arith,
  length, has, first, ==_iff, ◌==◌, inl, inr, Bool-cases, if◌then◌else◌, has-append, not-has-append,
}
use coremio.LinkedList.Heap.{
  and_then, Ptr, null, Store, ok, Ensures, Ensures-mono, Ensures-bind, commands, node_of, Node,
}
use coremio.LinkedList.Chain.{Seg, Disjoint, Disjoint-symm, Spares, frame-Seg}
use coremio.LinkedList.Sort.{Comparison, takes_left, hard_merge, attach}
use coremio.LinkedList.Sort.Spec.{merge, has-merge}

-- the previous node of the first of a merge
unfoldable pub merge_previous : Comparison → Ptr → Ptr → List Ptr → List Ptr → Ptr
merge_previous to_swap p q [] ys = q
merge_previous to_swap p q (x ∷ xs) [] = p
merge_previous to_swap p q (x ∷ xs) (y ∷ ys) = if takes_left to_swap x y then p else q

module _ (l x p n : Ptr) (hx : x ≢ null) where
  attach_run :
      (s : Store) (r : Ptr) (m : Node)
      → s.node x ≡ some (node_of l n p)
      → r ≢ null
      → s.node r ≡ some m
      → (x == r) ≡ false
      → Ensures
          (λ a s'.
            (a ≡ x)
            × (s'.node x ≡ some (node_of l r p))
            × (s'.node r ≡ some (record m { previous = x }))
            × Spares s s' (x ∷ r ∷ []))
          (attach x r s)
  unfolding attach commands
  attach_run s r m e hr er ne = ground arith

  attach_end :
      (s : Store)
      → s.node x ≡ some (node_of l n p)
      → Ensures
          (λ a s'. (a ≡ x) × (s'.node x ≡ some (node_of l null p)) × Spares s s' (x ∷ []))
          (attach x null s)
  unfolding attach commands
  attach_end s e = ground arith

  -- putting a node in front of a chain
  attach-Seg :
      (s : Store) (q : Ptr) (zs : List Ptr)
      → s.node x ≡ some (node_of l n p)
      → has x zs ≡ false
      → Seg s l q zs null
      → Ensures
          (λ a s'. (a ≡ x) × Seg s' l p (x ∷ zs) null × Spares s s' (x ∷ zs))
          (attach x (first zs null) s)
  attach-Seg s q [] e out c =
      Ensures-mono _ _ (attach x null s) (attach_end s e)
        λ a s' (f, h, spares). (f, (hx, out, h, tt), spares)
  attach-Seg s q (z ∷ zs) e out c =
      Ensures-mono _ _ (attach x z s) (attach_run s z _ e c.0 c.2 (ground arith))
        λ a s' (f, h, hz, spares). (
          f,
          (
            hx,
            out,
            h,
            (
              c.0,
              c.1,
              hz,
              frame-Seg s s' l z zs null
                  (λ b i. spares.nodes b (ground (arith, ==_iff b x, ==_iff b z))) c.3,
            ),
          ),
          record { nodes = λ b i. spares.nodes b (ground arith); lists = spares.lists },
        )

module _ (c : Comparison) where
  left_step :
      (k : ℕ) (s : Store) (x y : Ptr) (n : Node)
      → takes_left c x y ≡ true
      → x ≢ null
      → y ≢ null
      → s.node x ≡ some n
      → hard_merge (suc k) c x y s ≡ and_then (hard_merge k c n.next y s) (attach x)
  unfolding hard_merge commands
  left_step k s x y n t hx hy e = ground arith

  right_step :
      (k : ℕ) (s : Store) (x y : Ptr) (n : Node)
      → takes_left c x y ≡ false
      → x ≢ null
      → y ≢ null
      → s.node y ≡ some n
      → hard_merge (suc k) c x y s ≡ and_then (hard_merge k c x n.next s) (attach y)
  unfolding hard_merge commands
  right_step k s x y n t hx hy e = ground arith

  left_empty : (k : ℕ) (s : Store) (y : Ptr) → hard_merge (suc k) c null y s ≡ ok y s
  unfolding hard_merge
  left_empty k s y = refl

  right_empty : (k : ℕ) (s : Store) (x : Ptr) → x ≢ null → hard_merge (suc k) c x null s ≡ ok x s
  unfolding hard_merge
  right_empty k s x hx = ground arith

  abbrev pub Merged : Store → Ptr → Ptr → Ptr → List Ptr → List Ptr → Ptr → Store → Type 0
  Merged s l p q xs ys r s' =
      (r ≡ first (merge c xs ys) null)
      × Seg s' l (merge_previous c p q xs ys) (merge c xs ys) null
      × Spares s s' (xs ++ ys)

  merged_left :
      (x y : Ptr) (xs ys : List Ptr)
      → takes_left c x y ≡ true
      → merge c (x ∷ xs) (y ∷ ys) ≡ x ∷ merge c xs (y ∷ ys)
  unfolding merge
  merged_left x y xs ys t = rw (t, merge)

  merged_right :
      (x y : Ptr) (xs ys : List Ptr)
      → takes_left c x y ≡ false
      → merge c (x ∷ xs) (y ∷ ys) ≡ y ∷ merge c (x ∷ xs) ys
  unfolding merge
  merged_right x y xs ys t = rw (t, merge)

  left-Merged :
      (s s' : Store) (l p q x y : Ptr) (xs ys : List Ptr) (r : Ptr)
      → takes_left c x y ≡ true
      → (r ≡ x) × Seg s' l p (x ∷ merge c xs (y ∷ ys)) null × Spares s s' (x ∷ (xs ++ y ∷ ys))
      → Merged s l p q (x ∷ xs) (y ∷ ys) r s'
  unfolding merge_previous
  left-Merged s s' l p q x y xs ys r t (e, chain, spares) =
      rw (merged_left x y xs ys t) (e, rw (t, merge_previous) chain, spares)

  right-Merged :
      (s s' : Store) (l p q x y : Ptr) (xs ys : List Ptr) (r : Ptr)
      → takes_left c x y ≡ false
      → (r ≡ y) × Seg s' l q (y ∷ merge c (x ∷ xs) ys) null × Spares s s' (y ∷ ((x ∷ xs) ++ ys))
      → Merged s l p q (x ∷ xs) (y ∷ ys) r s'
  unfolding merge_previous
  right-Merged s s' l p q x y xs ys r t (e, chain, spares) = rw (merged_right x y xs ys t) (
    e,
    rw (t, merge_previous) chain,
    record { nodes = λ a h. spares.nodes a (moved a h); lists = spares.lists },
  )
    where
      moved :
          (a : Ptr) → has a ((x ∷ xs) ++ (y ∷ ys)) ≡ false → has a (y ∷ ((x ∷ xs) ++ ys)) ≡ false
      moved a h = ground (arith, has-append a xs (y ∷ ys), has-append a xs ys)

has_head : (x : Ptr) (xs : List Ptr) → has x (x ∷ xs) ≡ true
has_head x xs = ground arith

-- what is not among the nodes is not in a part of them
outside :
    (b x : Ptr) (zs nodes : List Ptr)
    → (has b zs ≡ true → has b nodes ≡ true)
    → has b (x ∷ nodes) ≡ false
    → has b (x ∷ zs) ≡ false
outside b x zs nodes within h = ground arith

-- a chain of other nodes, with the node `x` of the store before put in front
attach-Spares :
    (s s' : Store) (l p q n : Ptr) (x r : Ptr) (zs nodes : List Ptr)
    → x ≢ null
    → s.node x ≡ some (node_of l n p)
    → has x nodes ≡ false
    → ((a : Ptr) → has a zs ≡ (has a nodes))
    → r ≡ first zs null
    → Seg s' l q zs null
    → Spares s s' nodes
    → Ensures
        (λ a s''. (a ≡ x) × Seg s'' l p (x ∷ zs) null × Spares s s'' (x ∷ nodes))
        (attach x r s')
attach-Spares s s' l p q n x r zs nodes hx ex out same e chain spares = rw e (
    Ensures-mono _ _ (attach x (first zs null) s')
      (attach-Seg l x p n hx s' q zs (spares.nodes x out ∙ ex) (same x ∙ out) chain)
      λ a s'' (f, chain', spares'). (
        f,
        chain',
        record {
          nodes = λ b h.
              spares'.nodes b (outside b x zs nodes (λ i. sym (same b) ∙ i) h)
              ∙ spares.nodes b (ground arith);
          lists = λ b. spares'.lists b ∙ spares.lists b;
        },
      ))

has-merge-append :
    (c : Comparison) (xs ys : List Ptr) (a : Ptr) → has a (merge c xs ys) ≡ has a (xs ++ ys)
has-merge-append c xs ys a = has-merge c a xs ys ∙ sym (has-append a xs ys)

module _ (c : Comparison) where
  -- With fuel for its nodes, merging two chains that share no node relinks them into one chain of
  -- their merge, and writes nowhere else.
  pub hard_merge-Seg :
      (k : ℕ) (s : Store) (l p q : Ptr) (xs ys : List Ptr)
      → length xs + length ys < k
      → Disjoint xs ys
      → Seg s l p xs null
      → Seg s l q ys null
      → Ensures (Merged c s l p q xs ys) (hard_merge k c (first xs null) (first ys null) s)
  unfolding merge_previous
  hard_merge-Seg zero s l p q xs ys f apart d e = absurd (omega arith)
  hard_merge-Seg (suc k) s l p q [] ys f apart d e =
      rw left_empty (unfold merge in (refl, e, record { nodes = λ a h. refl; lists = λ a. refl }))
  hard_merge-Seg (suc k) s l p q (x ∷ xs) [] f apart d e =
      rw (right_empty c k s x d.0)
        (unfold merge in (refl, d, record { nodes = λ a h. refl; lists = λ a. refl }))
  hard_merge-Seg (suc k) s l p q (x ∷ xs) (y ∷ ys) f apart d e =
      elim (Bool-cases (takes_left c x y)) [
        | inl t ↦ rw (left_step c k s x y _ t d.0 e.0 d.2) (
            Ensures-bind (Merged c s l x q xs (y ∷ ys)) _ (hard_merge k c (first xs null) y s)
              (attach x)
              (hard_merge-Seg k s l x q xs (y ∷ ys) (omega arith) (λ a h. apart a (ground arith))
                d.3 e)
              λ r s' (g, chain, spares).
                Ensures-mono _ _ (attach x r s')
                  (attach-Spares s s' l p _ _ x r _ (xs ++ y ∷ ys) d.0 d.2
                    (not-has-append x xs (y ∷ ys) d.1 (apart x (has_head x xs)))
                    (has-merge-append c xs (y ∷ ys)) g chain spares)
                  λ a s'' post. left-Merged c s s'' l p q x y xs ys a t post)
        | inr t ↦ rw (right_step c k s x y _ t d.0 e.0 e.2) (
            Ensures-bind (Merged c s l p y (x ∷ xs) ys) _ (hard_merge k c x (first ys null) s)
              (attach y)
              (hard_merge-Seg k s l p y (x ∷ xs) ys (omega arith) (λ a h. ground (arith, apart a)) d
                e.3)
              λ r s' (g, chain, spares).
                Ensures-mono _ _ (attach y r s')
                  (attach-Spares s s' l q _ _ y r _ ((x ∷ xs) ++ ys) e.0 e.2
                    (not-has-append y (x ∷ xs) ys
                      (Disjoint-symm (x ∷ xs) (y ∷ ys) apart y (has_head y ys)) e.1)
                    (has-merge-append c (x ∷ xs) ys) g chain spares)
                  λ a s'' post. right-Merged c s s'' l p q x y xs ys a t post)
      ]

pub merge_previous-null :
    (c : Comparison) (xs ys : List Ptr) → merge_previous c null null xs ys ≡ null
unfolding merge_previous
merge_previous-null c [] ys = refl
merge_previous-null c (x ∷ xs) [] = refl
merge_previous-null c (x ∷ xs) (y ∷ ys) = ground arith
