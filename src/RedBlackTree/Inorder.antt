-- ===== src/RedBlackTree/Inorder.antt =====
-- What a tree holds, in order.
use coremio.Prelude.{
  ℕ, ◌≡◌, refl, sym, ap, ◌∙◌, some, List, [], ◌∷◌, ◌++◌, append_assoc, append-nil, Bool-cases, inl,
  inr, ltb, Option, none, ◌&&◌,
}
use mathlib.Core.Path.{subst}
use coremio.RedBlackTree.{
  ◌>>=◌, Color, Side, left, right, red, black, Tree, leaf, node, Frame, frame, up, is_red,
  is_red_color, plug, blacken, rotate_up, fix_round, fix, descend,
}

module _ {V : Type 0} where
  unfoldable pub inorder : Tree V → List (ℕ × V)
  inorder leaf = []
  inorder (node c v x l r) = inorder l ++ (v, x) ∷ inorder r

  -- a result that holds the given values, if there is one
  abbrev pub Holds : List (ℕ × V) → Option (Tree V) → Type 0
  Holds vs none = Unit
  Holds vs (some t) = inorder t ≡ vs

  inorder-blacken : (t : Tree V) → inorder (blacken t) ≡ inorder t
  unfolding inorder
  inorder-blacken leaf = refl
  inorder-blacken (node c v x l r) = refl

  inorder-up :
      (f : Frame V) (t u : Tree V) → inorder t ≡ inorder u → inorder (up f t) ≡ inorder (up f u)
  unfolding inorder
  inorder-up f t u h =
      elim f.side
        as (λ s. inorder (up (record f { side = s }) t) ≡ inorder (up (record f { side = s }) u)) [
          | left ↦ ap (λ vs. vs ++ (f.value, f.item) ∷ inorder f.sibling) h
          | right ↦ ap (λ vs. inorder f.sibling ++ (f.value, f.item) ∷ vs) h
        ]

  inorder-plug :
      (path : List (Frame V)) (t u : Tree V)
      → inorder t ≡ inorder u
      → inorder (plug t path) ≡ inorder (plug u path)
  unfolding plug
  inorder-plug [] t u h = h
  inorder-plug (f ∷ path) t u h = inorder-plug path (up f t) (up f u) (inorder-up f t u h)

  -- rotations, and the exchange of colors, keep the order
  rotate_up-Holds :
      (s i : Side) (v : ℕ) (x : V) (c : Color) (parent uncle : Tree V)
      → Holds (inorder (up (frame s c v x uncle) parent)) (rotate_up s i v x c parent uncle)
  unfolding rotate_up inorder
  rotate_up-Holds left left v x c leaf u = tt
  rotate_up-Holds left left v x c (node d w y l r) u = simp append_assoc
  rotate_up-Holds left right v x c leaf u = tt
  rotate_up-Holds left right v x c (node d w y l leaf) u = tt
  rotate_up-Holds left right v x c (node d w y l (node e z k m n)) u = simp append_assoc
  rotate_up-Holds right right v x c leaf u = tt
  rotate_up-Holds right right v x c (node d w y l r) u = simp append_assoc
  rotate_up-Holds right left v x c leaf u = tt
  rotate_up-Holds right left v x c (node d w y leaf r) u = tt
  rotate_up-Holds right left v x c (node d w y (node e z k m n) r) u = simp append_assoc

  fix_round-Holds : (t : Tree V) (f g : Frame V) → Holds (inorder (up g (up f t))) (fix_round t f g)
  unfolding fix_round inorder
  fix_round-Holds t f g = elim (Bool-cases (is_red g.sibling)) [
    | inl e ↦
        rw e (
          recolored g.side g.sibling (up (record f { color = black }) t) (up f t)
            (repainted f.side))
    | inr e ↦ rw e (rotate_up-Holds g.side f.side g.value g.item g.color (up f t) g.sibling)
  ]
    where
      repainted :
          (s : Side)
          → inorder (up (record f { side = s; color = black }) t)
            ≡ inorder (up (record f { side = s }) t)
      repainted left = refl
      repainted right = refl

      recolored :
          (s : Side) (u p q : Tree V)
          → inorder p ≡ inorder q
          → inorder (up (record g { side = s; color = red; sibling = blacken u }) p)
            ≡ inorder (up (record g { side = s; sibling = u }) q)
      recolored left u p q h = rw (inorder-blacken u, h)
      recolored right u p q h = rw (inorder-blacken u, h)

  then-Holds :
      (vs ws : List (ℕ × V)) (r : Option (Tree V)) (k : Tree V → Option (Tree V))
      → Holds vs r
      → ((t : Tree V) → inorder t ≡ vs → Holds ws (k t))
      → Holds ws (r >>= k)
  then-Holds vs ws none k h next = tt
  then-Holds vs ws (some t) k h next = next t h

  pub fix-Holds : (path : List (Frame V)) (t : Tree V) → Holds (inorder (plug t path)) (fix t path)
  unfolding fix plug
  fix-Holds [] t = inorder-blacken t
  fix-Holds (f ∷ []) t = elim (Bool-cases (is_red t && is_red_color f.color)) [
    | inl e ↦ rw (e, fix) tt
    | inr e ↦ rw (e, fix) (inorder-blacken (up f t))
  ]
  fix-Holds (f ∷ g ∷ path) t = elim (Bool-cases (is_red t && is_red_color f.color)) [
    | inl e ↦
        rw (e, fix)
          (then-Holds (inorder (up g (up f t))) _ (fix_round t f g) (λ u. fix u path)
            (fix_round-Holds t f g)
            λ u h.
              subst (λ ws. Holds ws (fix u path)) (inorder-plug path u (up g (up f t)) h)
                (fix-Holds path u))
    | inr e ↦ rw (e, fix) (inorder-blacken (plug (up g (up f t)) path))
  ]

  -- what a path has before its place
  before_in : Side → List (ℕ × V) → List (ℕ × V) → List (ℕ × V)
  before_in left rest own = rest
  before_in right rest own = rest ++ own

  after_in : Side → List (ℕ × V) → List (ℕ × V) → List (ℕ × V)
  after_in left rest own = own ++ rest
  after_in right rest own = rest

  -- what stands before the place of a path, and what stands behind it
  unfoldable pub before : List (Frame V) → List (ℕ × V)
  unfolding before_in
  before [] = []
  before (f ∷ path) = before_in f.side (before path) (inorder f.sibling ++ (f.value, f.item) ∷ [])

  unfoldable pub after : List (Frame V) → List (ℕ × V)
  unfolding after_in
  after [] = []
  after (f ∷ path) = after_in f.side (after path) ((f.value, f.item) ∷ inorder f.sibling)

  pub inorder-plug_parts :
      (path : List (Frame V)) (t : Tree V)
      → inorder (plug t path) ≡ before path ++ inorder t ++ after path
  unfolding plug before after inorder
  inorder-plug_parts [] t = sym (append-nil (inorder t))
  inorder-plug_parts (f ∷ path) t = inorder-plug_parts path (up f t) ∙ parts f.side
    where
      parts :
          (s : Side)
          → before path ++ inorder (up (record f { side = s }) t) ++ after path
            ≡ before_in s (before path) (inorder f.sibling ++ (f.value, f.item) ∷ [])
              ++ inorder t
              ++ after_in s (after path) ((f.value, f.item) ∷ inorder f.sibling)
      parts left = simp append_assoc
      parts right = simp append_assoc

  pub descend_parts :
      (v : ℕ) (t : Tree V) (path : List (Frame V))
      → before (descend v t path) ++ after (descend v t path)
        ≡ before path ++ inorder t ++ after path
  unfolding descend before after inorder
  descend_parts v leaf path = simp append_assoc
  descend_parts v (node c w x l r) path = elim (Bool-cases (ltb w v)) [
    | inl e ↦ rw (e, descend) (descend_parts v r _ ∙ simp append_assoc)
    | inr e ↦ rw (e, descend) (descend_parts v l _ ∙ simp append_assoc)
  ]
