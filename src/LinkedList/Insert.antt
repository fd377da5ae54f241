-- ===== src/LinkedList/Insert.antt =====
-- `f_list_insert`.
use coremio.Prelude.{
  ◌≡◌, ◌≢◌, refl, false, some, List, [], ◌∷◌, ◌++◌, ◌==◌, arith, has, increment, has-append,
  length-append, last-append, first-append, append_assoc, ==_iff,
}
use coremio.LinkedList.Heap.{
  Ptr, null, Node, node_of, Header, Store, Ensures, Ensures-mono, Keeps, commands,
}
use coremio.LinkedList.Chain.{IsList, IsDetached, frame-Seg, Seg-append, append-Seg}
use coremio.LinkedList.{append, insert, insert_between, insert_head, insert_tail}
use coremio.LinkedList.Append.{has-IsDetached, append_tail-concat, append_head-cons}

insert_between_run :
    (s : Store) (l x p q : Ptr) (h : Header) (n m : Node) (hl : l ≢ null) (hh : s.list l ≡ some h)
    (free : IsDetached s x)
    → p ≢ null
    → (p == x) ≡ false
    → s.node p ≡ some n
    → n.next ≡ q
    → q ≢ null
    → (q == x) ≡ false
    → s.node q ≡ some m
    → (p == q) ≡ false
    → Ensures
        (λ r s'.
          (s'.list l ≡ some (record h { entries = increment h.entries }))
          × (s'.node x ≡ some (node_of l q p))
          × (s'.node p ≡ some (record n { next = x }))
          × (s'.node q ≡ some (record m { previous = x }))
          × Keeps s s' l (x ∷ p ∷ q ∷ []))
        (insert l x p s)
unfolding insert insert_between commands
insert_between_run s l x p q h n m hl hh free hp np fp e hq nq fq d = ground arith

module _ (s : Store) (l x : Ptr) (free : IsDetached s x) where
  insert_at_head : insert l x null s ≡ append l x insert_head s
  unfolding insert commands
  insert_at_head = ground arith

  insert_at_tail :
      (p : Ptr) (n : Node)
      → p ≢ null
      → s.node p ≡ some n
      → n.next ≡ null
      → insert l x p s ≡ append l x insert_tail s
  unfolding insert commands
  insert_at_tail p n hp e hn = ground arith

  insert-between :
      (before : List Ptr) (p q : Ptr) (bs : List Ptr)
      → IsList s l (before ++ p ∷ q ∷ bs)
      → Ensures
          (λ _ s'.
            IsList s' l (before ++ p ∷ x ∷ q ∷ bs) × Keeps s s' l (x ∷ (before ++ p ∷ q ∷ bs)))
          (insert l x p s)
  insert-between before p q bs is =
      let (front, back, apart) = append-Seg s l null before (p ∷ q ∷ bs) null is.chain in
      let d = back.3 in
      let out : has x (before ++ p ∷ q ∷ bs) ≡ false =
        has-IsDetached s l x (before ++ p ∷ q ∷ bs) is free in
      let parts = has-append x before (p ∷ q ∷ bs) in
      Ensures-mono _ _ (insert l x p s)
        (insert_between_run s l x p q _ _ _ is.not_null is.header free back.0
          (ground (arith, parts)) back.2 refl d.0 (ground (arith, parts)) d.2 (ground arith))
        λ r s' (hl, hx, hp, hq, keeps). (
          record {
            not_null = is.not_null;
            header = rw hl (
                ground (
                  arith,
                  first-append before (p ∷ q ∷ bs) null,
                  first-append before (p ∷ x ∷ q ∷ bs) null,
                  last-append before (p ∷ q ∷ bs) null,
                  last-append before (p ∷ x ∷ q ∷ bs) null,
                  length-append before (p ∷ q ∷ bs),
                  length-append before (p ∷ x ∷ q ∷ bs),
                ));
            chain =
                Seg-append s' l null before (p ∷ x ∷ q ∷ bs) null
                  (frame-Seg s s' l null before p
                    (λ a h. keeps.nodes a (ground (arith, apart a, parts, ==_iff a x))) front)
                  (
                    back.0,
                    ground (arith, parts),
                    hp,
                    (
                      free.0,
                      ground (arith, parts),
                      hx,
                      (
                        d.0,
                        d.1,
                        hq,
                        frame-Seg s s' l q bs null
                            (λ a h.
                              keeps.nodes a
                                (ground (arith, ==_iff a x, ==_iff a q, ==_iff a p, parts)))
                            d.3,
                      ),
                    ),
                  )
                  (λ a h. ground (arith, apart a, parts, ==_iff a x));
          },
          record {
            nodes = λ a h. keeps.nodes a (ground (arith, has-append a before (p ∷ q ∷ bs)));
            lists = keeps.lists;
          },
        )

  insert-last :
      (before : List Ptr) (p : Ptr)
      → IsList s l (before ++ p ∷ [])
      → Ensures
          (λ _ s'. IsList s' l (before ++ p ∷ x ∷ []) × Keeps s s' l (x ∷ (before ++ p ∷ [])))
          (insert l x p s)
  insert-last before p is =
      let (front, back, apart) = append-Seg s l null before (p ∷ []) null is.chain in
      rw (insert_at_tail p _ back.0 back.2 refl, ← append_assoc before (p ∷ []) (x ∷ []))
        (append_tail-concat s l x free (before ++ p ∷ []) is)

  -- Inserting a detached node with no previous node puts it in front of the list.
  pub insert-null-cons :
      (xs : List Ptr)
      → IsList s l xs
      → Ensures (λ _ s'. IsList s' l (x ∷ xs) × Keeps s s' l (x ∷ xs)) (insert l x null s)
  insert-null-cons xs is = rw insert_at_head (append_head-cons s l x free xs is)

  -- Inserting a detached node behind the node `p` of a list puts it between `p` and what followed,
  -- and writes to no other node and no other list.
  pub insert-append :
      (before : List Ptr) (p : Ptr) (behind : List Ptr)
      → IsList s l (before ++ p ∷ behind)
      → Ensures
          (λ _ s'.
            IsList s' l (before ++ p ∷ x ∷ behind) × Keeps s s' l (x ∷ (before ++ p ∷ behind)))
          (insert l x p s)
  insert-append before p [] is = insert-last before p is
  insert-append before p (q ∷ bs) is = insert-between before p q bs is
