-- ===== src/LinkedList/Remove.antt =====
-- `f_list_remove` and `f_list_remove_from_owner`.
mod Places
use coremio.Prelude.{
  ℕ, suc, ◌%◌, ◌≡◌, ◌≢◌, refl, false, some, List, [], ◌∷◌, ◌++◌, ◌==◌, arith, length, has, size_mod,
  decrement, has-append, length-append, last-append, first-append, snoc-cases, inl, inr, append-nil,
  ==_iff,
}
use coremio.LinkedList.Heap.{
  Ptr, null, Node, node_of, Header, header_of, Store, Ensures, Ensures-mono, Keeps, commands,
  aborted,
}
use coremio.LinkedList.Chain.{IsList, IsDetached, frame-Seg, Seg-append, append-Seg}
use coremio.LinkedList.{remove, remove_from_owner}
use coremio.LinkedList.Remove.Places.{
  remove_only_run, remove_first_run, remove_last_run, remove_inner_run, decrement-suc,
}

-- the list without the node, the node detached and returned, and all else as it was
abbrev pub Removed : Store → Ptr → Ptr → List Ptr → List Ptr → Ptr → Store → Type 0
Removed s l x before behind r s' =
    (r ≡ x) × IsList s' l (before ++ behind) × IsDetached s' x × Keeps s s' l (before ++ x ∷ behind)

module _ (s : Store) (l x : Ptr) where
  remove-only : IsList s l (x ∷ []) → Ensures (Removed s l x [] []) (remove l x s)
  remove-only is =
      let c = is.chain in
      Ensures-mono _ _ (remove l x s) (remove_only_run s l x _ is.not_null is.header c.0 c.2)
        λ r s' (e, hl, hx, keeps).
          (e, record { not_null = is.not_null; header = hl; chain = tt }, (c.0, hx), keeps)

  remove-first :
      (q : Ptr) (bs : List Ptr)
      → IsList s l (x ∷ q ∷ bs)
      → Ensures (Removed s l x [] (q ∷ bs)) (remove l x s)
  remove-first q bs is =
      let c = is.chain in
      let d = c.3 in
      Ensures-mono _ _ (remove l x s)
        (remove_first_run s l x _ is.not_null is.header c.0 q _ c.2 d.0 (ground arith) d.2)
        λ r s' (e, hl, hx, hq, keeps). (
          e,
          record {
            not_null = is.not_null;
            header = rw hl (ground (arith, decrement-suc (suc (length bs))));
            chain = (
              d.0,
              d.1,
              hq,
              frame-Seg s s' l q bs null
                  (λ a h. keeps.nodes a (ground (arith, ==_iff a x, ==_iff a q))) d.3,
            );
          },
          (c.0, hx),
          record { nodes = λ a h. keeps.nodes a (ground arith); lists = keeps.lists },
        )

  remove-last :
      (ys : List Ptr) (p : Ptr)
      → IsList s l ((ys ++ p ∷ []) ++ x ∷ [])
      → Ensures (Removed s l x (ys ++ p ∷ []) []) (remove l x s)
  remove-last ys p is =
      let (front, back, apart) = append-Seg s l null (ys ++ p ∷ []) (x ∷ []) null is.chain in
      let (front', back', apart') = append-Seg s l null ys (p ∷ []) x front in
      let out : has x (ys ++ p ∷ []) ≡ false = ground (arith, apart x) in
      let ne : (p == x) ≡ false = ground (arith, apart p, has-append p ys (p ∷ [])) in
      Ensures-mono _ _ (remove l x s)
        (remove_last_run s l x _ is.not_null is.header back.0 p _ (rw last-append at back.2) back'.0
          ne back'.2)
        λ r s' (e, hl, hx, hp, keeps). (
          e,
          record {
            not_null = is.not_null;
            header =
                rw (hl, append-nil)
                  (ground (
                    arith,
                    first-append (ys ++ p ∷ []) (x ∷ []) null,
                    first-append ys (p ∷ []) null,
                    first-append ys (p ∷ []) x,
                    last-append ys (p ∷ []) null,
                    length-append (ys ++ p ∷ []) (x ∷ []),
                    decrement-suc (length (ys ++ p ∷ [])),
                  ));
            chain = rw append-nil (
                Seg-append s' l null ys (p ∷ []) null
                  (frame-Seg s s' l null ys p
                    (λ a h.
                      keeps.nodes a
                        (ground (arith, apart a, apart' a, has-append a ys (p ∷ []), ==_iff a x)))
                    front')
                  (back'.0, refl, hp, tt) apart');
          },
          (back.0, hx),
          record {
            nodes = λ a h.
                keeps.nodes a
                  (ground (arith, has-append a (ys ++ p ∷ []) (x ∷ []), has-append a ys (p ∷ [])));
            lists = keeps.lists;
          },
        )

  remove-inner :
      (ys : List Ptr) (p q : Ptr) (bs : List Ptr)
      → IsList s l ((ys ++ p ∷ []) ++ x ∷ q ∷ bs)
      → Ensures (Removed s l x (ys ++ p ∷ []) (q ∷ bs)) (remove l x s)
  remove-inner ys p q bs is =
      let (front, back, apart) = append-Seg s l null (ys ++ p ∷ []) (x ∷ q ∷ bs) null is.chain in
      let (front', back', apart') = append-Seg s l null ys (p ∷ []) x front in
      let d = back.3 in
      let ne : (p == x) ≡ false = ground (arith, apart p, has-append p ys (p ∷ [])) in
      let nq : (q == x) ≡ false = ground (arith, back.1) in
      let pq : (p == q) ≡ false = ground (arith, apart p, has-append p ys (p ∷ [])) in
      Ensures-mono _ _ (remove l x s)
        (remove_inner_run s l x _ is.not_null is.header back.0 p q _ _ (rw last-append at back.2)
          back'.0 ne back'.2 d.0 nq d.2 pq)
        λ r s' (e, hl, hx, hp, hq, keeps). (
          e,
          record {
            not_null = is.not_null;
            header = rw hl (
                ground (
                  arith,
                  first-append (ys ++ p ∷ []) (x ∷ q ∷ bs) null,
                  first-append (ys ++ p ∷ []) (q ∷ bs) null,
                  first-append ys (p ∷ []) x,
                  first-append ys (p ∷ []) q,
                  last-append (ys ++ p ∷ []) (x ∷ q ∷ bs) null,
                  last-append (ys ++ p ∷ []) (q ∷ bs) null,
                  length-append (ys ++ p ∷ []) (x ∷ q ∷ bs),
                  length-append (ys ++ p ∷ []) (q ∷ bs),
                  decrement-suc (length ((ys ++ p ∷ []) ++ q ∷ bs)),
                ));
            chain =
                Seg-append s' l null (ys ++ p ∷ []) (q ∷ bs) null
                  (Seg-append s' l null ys (p ∷ []) q
                    (frame-Seg s s' l null ys p
                      (λ a h.
                        keeps.nodes a
                          (ground (arith, apart a, apart' a, has-append a ys (p ∷ []), ==_iff a x)))
                      front')
                    (back'.0, refl, hp, tt) apart')
                  (rw last-append (
                    d.0,
                    d.1,
                    hq,
                    frame-Seg s s' l q bs null
                        (λ a h. keeps.nodes a (
                          ground (
                            arith,
                            ==_iff a x,
                            ==_iff a q,
                            ==_iff a p,
                            apart p,
                            has-append p ys (p ∷ []),
                          )))
                        d.3,
                  ))
                  (λ a h. ground (arith, apart a));
          },
          (back.0, hx),
          record {
            nodes = λ a h. keeps.nodes a (
                ground (arith, has-append a (ys ++ p ∷ []) (x ∷ q ∷ bs), has-append a ys (p ∷ [])));
            lists = keeps.lists;
          },
        )

  -- Removing a node of a list leaves the others in their order, detaches the node and returns it, and writes to no
  -- node outside the list and no other list.
  pub remove-append :
      (before behind : List Ptr)
      → IsList s l (before ++ x ∷ behind)
      → Ensures (Removed s l x before behind) (remove l x s)
  remove-append before behind is = elim (snoc-cases before) [
    | inl e ↦ rw e (remove_front behind (rw e at is))
    | inr (ys, p, e) ↦ rw e (remove_behind ys p behind (rw e at is))
  ]
    where
      remove_front :
          (behind : List Ptr)
          → IsList s l (x ∷ behind)
          → Ensures (Removed s l x [] behind) (remove l x s)
      remove_front [] is = remove-only is
      remove_front (q ∷ bs) is = remove-first q bs is

      remove_behind :
          (ys : List Ptr) (p : Ptr) (behind : List Ptr)
          → IsList s l ((ys ++ p ∷ []) ++ x ∷ behind)
          → Ensures (Removed s l x (ys ++ p ∷ []) behind) (remove l x s)
      remove_behind ys p [] is = remove-last ys p is
      remove_behind ys p (q ∷ bs) is = remove-inner ys p q bs is

  -- Removing a node through its owner is removing it from the list that holds it.
  pub remove_from_owner-remove :
      (n : Node) → x ≢ null → s.node x ≡ some n → remove_from_owner x s ≡ remove n.owner x s
  unfolding remove_from_owner commands
  remove_from_owner-remove n hx e = ground arith

  -- Removing a node from a list that does not own it aborts.
  pub remove_not_owned :
      (n : Node) → x ≢ null → s.node x ≡ some n → n.owner ≢ l → remove l x s ≡ aborted
  unfolding remove commands
  remove_not_owned n hx e ne = ground arith
