-- ===== src/LinkedList/Append.antt =====
-- `f_list_append`.
use coremio.Prelude.{
  ◌≡◌, ◌≢◌, refl, false, some, List, [], ◌∷◌, ◌++◌, ◌==◌, arith, first, last, has, increment,
  has-append, length-append, last-append, first-append, snoc-cases, inl, inr, append_assoc, ==_iff,
  Bool-cases,
}
use coremio.LinkedList.Heap.{
  Ptr, null, Node, node_of, Header, Store, Ensures, Ensures-mono, Keeps, commands,
}
use coremio.LinkedList.Chain.{IsList, IsDetached, frame-Seg, Seg-append, append-Seg, has-Seg}
use coremio.LinkedList.{InsertKind, append, link, insert_head, insert_tail}

-- a detached node is in no list
pub has-IsDetached :
    (s : Store) (l x : Ptr) (xs : List Ptr) → IsList s l xs → IsDetached s x → has x xs ≡ false
has-IsDetached s l x xs is free = elim (Bool-cases (has x xs)) [
  | inl h ↦
      let (_, n, at, own) = has-Seg s l null xs null x is.chain h in
      absurd (is.not_null (ground arith))
  | inr h ↦ h
]

module _ (s : Store) (l x : Ptr) (h : Header) (hl : l ≢ null) (hh : s.list l ≡ some h)
    (free : IsDetached s x) where
  append_empty_run :
      (kind : InsertKind)
      → h.head ≡ null
      → h.tail ≡ null
      → Ensures
          (λ _ s'.
            (s'.list l ≡ some (record h { head = x; tail = x; entries = increment h.entries }))
            × (s'.node x ≡ some (node_of l null null))
            × Keeps s s' l (x ∷ []))
          (append l x kind s)
  unfolding append link commands
  append_empty_run insert_head e f = ground arith
  append_empty_run insert_tail e f = ground arith

  append_tail_run :
      (t : Ptr) (n : Node)
      → h.tail ≡ t
      → t ≢ null
      → s.node t ≡ some n
      → (x == t) ≡ false
      → Ensures
          (λ _ s'.
            (s'.list l ≡ some (record h { tail = x; entries = increment h.entries }))
            × (s'.node x ≡ some (node_of l null t))
            × (s'.node t ≡ some (record n { next = x }))
            × Keeps s s' l (x ∷ t ∷ []))
          (append l x insert_tail s)
  unfolding append link commands
  append_tail_run t n ht htn hn ne = ground arith

  append_head_run :
      (t : Ptr) (n : Node)
      → h.head ≡ t
      → t ≢ null
      → s.node t ≡ some n
      → (x == t) ≡ false
      → Ensures
          (λ _ s'.
            (s'.list l ≡ some (record h { head = x; entries = increment h.entries }))
            × (s'.node x ≡ some (node_of l t null))
            × (s'.node t ≡ some (record n { previous = x }))
            × Keeps s s' l (x ∷ t ∷ []))
          (append l x insert_head s)
  unfolding append link commands
  append_head_run t n ht htn hn ne = ground arith

module _ (s : Store) (l x : Ptr) (free : IsDetached s x) where
  append_tail-snoc :
      (ys : List Ptr) (t : Ptr)
      → IsList s l (ys ++ t ∷ [])
      → Ensures
          (λ _ s'. IsList s' l ((ys ++ t ∷ []) ++ x ∷ []) × Keeps s s' l (x ∷ (ys ++ t ∷ [])))
          (append l x insert_tail s)
  append_tail-snoc ys t is =
      let (front, back, apart) = append-Seg s l null ys (t ∷ []) null is.chain in
      let out : has x (ys ++ t ∷ []) ≡ false = has-IsDetached s l x (ys ++ t ∷ []) is free in
      Ensures-mono _ _ (append l x insert_tail s)
        (append_tail_run s l x _ is.not_null is.header free t (node_of l null (last ys null))
          (last-append ys (t ∷ []) null) back.0 back.2 (ground (arith, has-append x ys (t ∷ []))))
        λ _ s' (hl, hx, ht, keeps). (
          record {
            not_null = is.not_null;
            header = rw hl (
                ground (
                  arith,
                  first-append (ys ++ t ∷ []) (x ∷ []) null,
                  first-append ys (t ∷ []) null,
                  last-append (ys ++ t ∷ []) (x ∷ []) null,
                  length-append (ys ++ t ∷ []) (x ∷ []),
                ));
            chain = rw append_assoc (
                Seg-append s' l null ys (t ∷ x ∷ []) null
                  (frame-Seg s s' l null ys t
                    (λ a h.
                      keeps.nodes a (ground (arith, apart a, has-append a ys (t ∷ []), ==_iff a x)))
                    front)
                  (back.0, ground (arith, has-append x ys (t ∷ [])), ht, (free.0, refl, hx, tt))
                  (λ a h. ground (arith, apart a, has-append a ys (t ∷ []), ==_iff a x)));
          },
          record {
            nodes = λ a h. keeps.nodes a (ground (arith, has-append a ys (t ∷ [])));
            lists = keeps.lists;
          },
        )

  append_empty :
      (kind : InsertKind)
      → IsList s l []
      → Ensures (λ _ s'. IsList s' l (x ∷ []) × Keeps s s' l (x ∷ [])) (append l x kind s)
  append_empty kind is =
      Ensures-mono _ _ (append l x kind s)
        (append_empty_run s l x _ is.not_null is.header free kind refl refl)
        λ _ s' (hl, hx, keeps).
          (record { not_null = is.not_null; header = hl; chain = (free.0, refl, hx, tt) }, keeps)

  -- Appending a detached node at the tail of a list puts it behind the others, and writes to no
  -- other node and no other list.
  pub append_tail-concat :
      (xs : List Ptr)
      → IsList s l xs
      → Ensures
          (λ _ s'. IsList s' l (xs ++ x ∷ []) × Keeps s s' l (x ∷ xs))
          (append l x insert_tail s)
  append_tail-concat xs is = elim (snoc-cases xs) [
    | inl e ↦ rw e (append_empty insert_tail (rw e at is))
    | inr (ys, t, e) ↦ rw e (append_tail-snoc ys t (rw e at is))
  ]

  -- Appending a detached node at the head of a list puts it before the others, and writes to no
  -- other node and no other list.
  pub append_head-cons :
      (xs : List Ptr)
      → IsList s l xs
      → Ensures (λ _ s'. IsList s' l (x ∷ xs) × Keeps s s' l (x ∷ xs)) (append l x insert_head s)
  append_head-cons [] is = append_empty insert_head is
  append_head-cons (y ∷ ys) is =
      let out : has x (y ∷ ys) ≡ false = has-IsDetached s l x (y ∷ ys) is free in
      let c = is.chain in
      Ensures-mono _ _ (append l x insert_head s)
        (append_head_run s l x _ is.not_null is.header free y (node_of l (first ys null) null) refl
          c.0 c.2 (ground arith))
        λ _ s' (hl, hx, hy, keeps). (
          record {
            not_null = is.not_null;
            header = rw hl (ground arith);
            chain = (
              free.0,
              out,
              hx,
              (
                c.0,
                c.1,
                hy,
                frame-Seg s s' l y ys null
                    (λ a h. keeps.nodes a (ground (arith, ==_iff a x, ==_iff a y))) c.3,
              ),
            );
          },
          record { nodes = λ a h. keeps.nodes a (ground arith); lists = keeps.lists },
        )
