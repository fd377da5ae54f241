-- ===== src/RedBlackTree/Order.antt =====
-- An insertion keeps the values in order.
use mathlib.Core.Path.{subst}
use coremio.Prelude.{
  ℕ, ◌≡◌, sym, ◌∙◌, some, none, List, [], ◌∷◌, ◌++◌, append_assoc, append-nil, ◌≤◌, ◌<◌, arith,
  Bool-cases, inl, inr, ltb, Option, ltb→lt,
}
use coremio.RedBlackTree.{red, Tree, leaf, node, Frame, fix, descend, insert}
use coremio.RedBlackTree.Inorder.{
  inorder, before, after, inorder-plug_parts, descend_parts, fix-Holds, Holds,
}

module _ {V : Type 0} where
  abbrev pub All : (ℕ → Type 0) → List (ℕ × V) → Type 0
  All P [] = Unit
  All P ((v, x) ∷ vs) = P v × All P vs

  -- in order, equal values allowed
  abbrev pub Sorted : List (ℕ × V) → Type 0
  Sorted [] = Unit
  Sorted ((v, x) ∷ vs) = All (λ w. v ≤ w) vs × Sorted vs

  pub All-append : (P : ℕ → Type 0) (xs ys : List (ℕ × V)) → All P xs → All P ys → All P (xs ++ ys)
  All-append P [] ys h i = i
  All-append P ((v, x) ∷ xs) ys h i = (h.0, All-append P xs ys h.1 i)

  pub append-All : (P : ℕ → Type 0) (xs ys : List (ℕ × V)) → All P (xs ++ ys) → All P xs × All P ys
  append-All P [] ys h = (tt, h)
  append-All P ((v, x) ∷ xs) ys h = let (a, b) = append-All P xs ys h.1 in ((h.0, a), b)

  pub All-imp : (P Q : ℕ → Type 0) (xs : List (ℕ × V)) → ((w : ℕ) → P w → Q w) → All P xs → All Q xs
  All-imp P Q [] f h = tt
  All-imp P Q ((v, x) ∷ xs) f h = (f v h.0, All-imp P Q xs f h.1)

  -- the parts of a sorted list around one of its values
  pub append-Sorted :
      (xs : List (ℕ × V)) (v : ℕ) (x : V) (ys : List (ℕ × V))
      → Sorted (xs ++ (v, x) ∷ ys)
      → Sorted xs × All (λ w. w ≤ v) xs × All (λ w. v ≤ w) ys × Sorted ys
  append-Sorted [] v x ys h = (tt, tt, h.0, h.1)
  append-Sorted ((w, z) ∷ xs) v x ys h =
      let (a, b, c, d) = append-Sorted xs v x ys h.1 in
      let (e, f) = append-All (λ u. w ≤ u) xs ((v, x) ∷ ys) h.0 in ((e, a), (f.0, b), c, d)

  pub Sorted-append :
      (xs : List (ℕ × V)) (v : ℕ) (x : V) (ys : List (ℕ × V))
      → Sorted xs
      → All (λ w. w ≤ v) xs
      → All (λ w. v ≤ w) ys
      → Sorted ys
      → Sorted (xs ++ (v, x) ∷ ys)
  Sorted-append [] v x ys a b c d = (c, d)
  Sorted-append ((w, z) ∷ xs) v x ys a b c d = (
    All-append (λ u. w ≤ u) xs ((v, x) ∷ ys) a.0
        (b.0, All-imp (λ u. v ≤ u) (λ u. w ≤ u) ys (λ u h. omega arith) c),
    Sorted-append xs v x ys a.1 b.1 c d,
  )

  -- the path to the place of a value has the smaller values before it, the others behind it
  descend-All :
      (v : ℕ) (t : Tree V) (path : List (Frame V))
      → Sorted (inorder t)
      → All (λ w. w < v) (before path)
      → All (λ w. v ≤ w) (after path)
      → All (λ w. w < v) (before (descend v t path)) × All (λ w. v ≤ w) (after (descend v t path))
  unfolding descend before after inorder
  descend-All v leaf path s b a = (b, a)
  descend-All v (node c w x l r) path s b a =
      let (sl, lo, hi, sr) = append-Sorted (inorder l) w x (inorder r) s in
      elim (Bool-cases (ltb w v)) [
        | inl e ↦
            rw (e, descend)
              (descend-All v r _ sr
                (All-append (λ u. u < v) (before path) _ b
                  (All-append (λ u. u < v) (inorder l) ((w, x) ∷ [])
                    (All-imp (λ u. u ≤ w) (λ u. u < v) (inorder l)
                      (λ u h. omega (arith, ltb→lt w v e)) lo)
                    (ltb→lt w v e, tt)))
                a)
        | inr e ↦
            rw (e, descend)
              (descend-All v l _ sl b (
                All-append (λ u. v ≤ u) ((w, x) ∷ inorder r) (after path)
                  (
                    ground arith,
                    All-imp (λ u. w ≤ u) (λ u. v ≤ u) (inorder r) (λ u h. ground arith) hi,
                  )
                  a))
      ]

  -- the new tree holds the new value between the smaller ones and the others, in order
  pub record Inserted (t : Tree V) (v : ℕ) (x : V) (u : Tree V) : Type 0 where
    pub smaller : List (ℕ × V)
    pub others : List (ℕ × V)
    pub was : inorder t ≡ smaller ++ others
    pub is : inorder u ≡ smaller ++ (v, x) ∷ others
    pub below : All (λ w. w < v) smaller
    pub above : All (λ w. v ≤ w) others

  Holds-of :
      (vs : List (ℕ × V)) (r : Option (Tree V)) (t : Tree V)
      → r ≡ some t
      → Holds vs r
      → inorder t ≡ vs
  Holds-of vs none t e h = cc
  Holds-of vs (some u) t e h = cc

  -- What an insertion into a tree in order returns holds the old values in their order, with
  -- the new one behind those that are smaller and before the others.
  pub insert-Inserted :
      (t : Tree V) (v : ℕ) (x : V) (u : Tree V)
      → Sorted (inorder t)
      → insert t v x ≡ some u
      → Inserted t v x u
  unfolding insert inorder before after
  insert-Inserted t v x u s e =
      let path = descend v t [] in
      let (b, a) = descend-All v t [] s tt tt in
      record {
        smaller = before path;
        others = after path;
        was = sym (append-nil (inorder t)) ∙ sym (descend_parts v t []);
        is =
            Holds-of _ (fix (node red v x leaf leaf) path) u e
              (fix-Holds path (node red v x leaf leaf))
            ∙ inorder-plug_parts path (node red v x leaf leaf)
            ∙ append_assoc (before path) ((v, x) ∷ []) (after path);
        below = b;
        above = a;
      }

  Sorted-halves : (xs ys : List (ℕ × V)) → Sorted (xs ++ ys) → Sorted xs × Sorted ys
  Sorted-halves [] ys s = (tt, s)
  Sorted-halves ((v, x) ∷ xs) ys s =
      let (a, b) = Sorted-halves xs ys s.1 in (((append-All (λ w. v ≤ w) xs ys s.0).0, a), b)

  pub insert-Sorted :
      (t : Tree V) (v : ℕ) (x : V) (u : Tree V)
      → Sorted (inorder t)
      → insert t v x ≡ some u
      → Sorted (inorder u)
  insert-Sorted t v x u s e =
      let i = insert-Inserted t v x u s e in
      let (a, b) = Sorted-halves i.smaller i.others (subst (λ vs. Sorted vs) i.was s) in
      subst (λ vs. Sorted vs) (sym i.is)
        (Sorted-append i.smaller v x i.others a
          (All-imp (λ w. w < v) (λ w. w ≤ v) i.smaller (λ w h. omega arith) i.below) i.above b)
