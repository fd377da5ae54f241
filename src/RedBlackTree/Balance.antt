-- ===== src/RedBlackTree/Balance.antt =====
-- An insertion keeps the red-black rules.
use mathlib.Core.Path.{subst}
use mathlib.Core.Bool.{false≢true}
use coremio.Prelude.{
  ltb, ℕ, suc, ◌+◌, ◌≡◌, refl, sym, ap, ◌∙◌, Bool, true, false, some, List, [], ◌∷◌, arith,
  Bool-cases, inl, inr, Option, ◌&&◌,
}
use coremio.RedBlackTree.{
  Color, Side, left, right, red, black, is_red, is_red_color, Tree, leaf, node, Frame, frame, up,
  blacken, plug, fix, fix_round, rotate_up, descend, insert,
}
use coremio.RedBlackTree.Rules.{
  IsRedBlack, blackness, blackness_red, blackness_black, both, black_height, Rules, BlackAbove,
  Around, blacken-IsRedBlack, Rules-up, is_red-up, Rules-plug,
}

module _ {V : Type 0} where
  -- one round at a red node below a red parent below a black grandparent
  abbrev Rounded : ℕ → Option (Tree V) → Type 0
  Rounded h r = (u : Tree V) × (r ≡ some u) × Rules u × (black_height u ≡ h)

  fix_round-recolored :
      (t : Tree V) (f g : Frame V)
      → Rules t
      → Rules f.sibling
      → black_height f.sibling ≡ black_height t
      → is_red g.sibling ≡ true
      → Rules g.sibling
      → black_height g.sibling ≡ black_height t
      → Rounded (suc (black_height t)) (fix_round t f g)
  unfolding fix_round
  fix_round-recolored t f g rt rs e ru rg h =
      let (rules, height) =
        Rules-up f.side black f.value f.item f.sibling t rt rs e (λ i. cc) (ground arith) in
      let (rules', height') =
        Rules-up g.side red g.value g.item (blacken g.sibling) (up (record f { color = black }) t)
          rules (blacken-IsRedBlack g.sibling rg).rules
          (blackened g.sibling ru ∙ ap suc h ∙ add_suc (black_height t) ∙ sym height)
          (λ i. (blacken-IsRedBlack g.sibling rg).root_black)
          (rw (is_red-up f.side black f.value f.item f.sibling t) refl) in
      rw ru (_, refl, rules', height' ∙ ap (λ k. 0 + k) height ∙ omega arith)
    where
      blackened : (u : Tree V) → is_red u ≡ true → black_height (blacken u) ≡ suc (black_height u)
      blackened leaf r = cc
      blackened (node red z o ul ur) r = omega arith
      blackened (node black z o ul ur) r = cc

      add_suc : (k : ℕ) → suc k ≡ 1 + k
      add_suc k = omega arith

  module _ (v w y : ℕ) (p q x : V) (l r sibling uncle : Tree V) where
    rotate_up-Rules :
        (s i : Side)
        → Rules (node red v p l r)
        → Rules sibling
        → black_height sibling ≡ black_height (node red v p l r)
        → is_red sibling ≡ false
        → Rules uncle
        → black_height uncle ≡ black_height (node red v p l r)
        → is_red uncle ≡ false
        → Rounded
            (suc (black_height (node red v p l r)))
            (rotate_up s i y x black (up (frame i red w q sibling) (node red v p l r)) uncle)
    unfolding rotate_up
    rotate_up-Rules left left rt rs e n ru f m = (
      node black w q (node red v p l r) (node red y x sibling uncle),
      refl,
      ((λ i. cc), omega arith, rt, ((λ i. (n, m)), e ∙ sym f, rs, ru)),
      omega arith,
    )
    rotate_up-Rules left right rt rs e n ru f m = (
      node black v p (node red w q sibling l) (node red y x r uncle),
      refl,
      (
        (λ i. cc),
        omega (arith, rt.1),
        ((λ i. (n, (rt.0 refl).0)), omega arith, rs, rt.2),
        ((λ i. ((rt.0 refl).1, m)), omega (arith, rt.1), rt.3, ru),
      ),
      omega arith,
    )
    rotate_up-Rules right right rt rs e n ru f m = (
      node black w q (node red y x uncle sibling) (node red v p l r),
      refl,
      ((λ i. cc), omega arith, ((λ i. (m, n)), f ∙ sym e, ru, rs), rt),
      omega arith,
    )
    rotate_up-Rules right left rt rs e n ru f m = (
      node black v p (node red y x uncle l) (node red w q r sibling),
      refl,
      (
        (λ i. cc),
        omega (arith, rt.1),
        ((λ i. (m, (rt.0 refl).0)), omega arith, ru, rt.2),
        ((λ i. ((rt.0 refl).1, n)), omega (arith, rt.1), rt.3, rs),
      ),
      omega arith,
    )

  fix_round-Rules :
      (t : Tree V) (f g : Frame V)
      → is_red t ≡ true
      → is_red_color f.color ≡ true
      → is_red_color g.color ≡ false
      → Rules t
      → Rules f.sibling
      → black_height f.sibling ≡ black_height t
      → is_red f.sibling ≡ false
      → Rules g.sibling
      → black_height g.sibling ≡ black_height t
      → Rounded (suc (black_height t)) (fix_round t f g)
  unfolding fix_round
  fix_round-Rules leaf f g it cf cg rt rs e n ru h = cc
  fix_round-Rules (node black v p l r) f g it cf cg rt rs e n ru h = cc
  fix_round-Rules (node red v p l r) f g it cf cg rt rs e n ru h =
      elim (Bool-cases (is_red g.sibling)) [
        | inl m ↦ fix_round-recolored (node red v p l r) f g rt rs e m ru h
        | inr m ↦
            rw (m, red_of f.color cf, black_of g.color cg)
              (rotate_up-Rules v f.value g.value p f.item g.item l r f.sibling g.sibling g.side
                f.side rt rs e n ru h m)
      ]
    where
      red_of : (c : Color) → is_red_color c ≡ true → c ≡ red
      red_of red i = refl
      red_of black i = cc

      black_of : (c : Color) → is_red_color c ≡ false → c ≡ black
      black_of red i = cc
      black_of black i = refl

  -- the loop returns a tree that keeps the rules
  abbrev pub Fixed : Option (Tree V) → Type 0
  Fixed r = (t : Tree V) × (r ≡ some t) × IsRedBlack t

  fix-IsRedBlack :
      (path : List (Frame V)) (t : Tree V)
      → Rules t
      → Around path (black_height t)
      → Fixed (fix t path)
  unfolding fix plug
  fix-IsRedBlack [] t r a = (blacken t, refl, blacken-IsRedBlack t r)
  fix-IsRedBlack (f ∷ []) t r a = elim (Bool-cases (is_red t && is_red_color f.color)) [
    | inl e ↦ absurd (a.2 (both _ _ e).1).1
    | inr e ↦ rw (e, fix) (_, refl, blacken-IsRedBlack _ (Rules-plug f [] t r a e))
  ]
  fix-IsRedBlack (f ∷ g ∷ path) t r a = elim (Bool-cases (is_red t && is_red_color f.color)) [
    | inl e ↦
        let (rt, cf) = both _ _ e in
        let (n, cg) = a.2 cf in
        let zf = blackness_red f.color cf in
        let zg = blackness_black g.color cg in
        let (u, round, ru, hu) =
          fix_round-Rules t f g rt cf cg r a.0 a.1 n a.3.0 (omega (arith, a.3.1)) in
        rw (e, fix)
          (rw round (fix-IsRedBlack path u ru (subst (λ k. Around path k) (omega arith) a.3.3)))
    | inr e ↦ rw (e, fix) (_, refl, blacken-IsRedBlack _ (Rules-plug f (g ∷ path) t r a e))
  ]

  -- the place of a new value is surrounded by a tree that keeps the rules
  descend-Around :
      (v : ℕ) (t : Tree V) (path : List (Frame V))
      → Rules t
      → Around path (black_height t)
      → (is_red t ≡ true → BlackAbove path)
      → Around (descend v t path) 0
  unfolding descend
  descend-Around v leaf path r a n = a
  descend-Around v (node c w x l rt) path r a n = elim (Bool-cases (ltb w v)) [
    | inl e ↦
        rw (e, descend)
          (descend-Around v rt _ r.3
            (r.2, r.1, (λ i. ((r.0 i).0, n i)), subst (λ k. Around path (blackness c + k)) r.1 a)
            (λ i. not_both c (is_red rt) i (λ j. (r.0 j).1)))
    | inr e ↦
        rw (e, descend)
          (descend-Around v l _ r.2 (r.3, sym r.1, (λ i. ((r.0 i).1, n i)), a)
            (λ i. not_both c (is_red l) i (λ j. (r.0 j).0)))
  ]
    where
      not_both :
          (c : Color) (b : Bool)
          → b ≡ true
          → (is_red_color c ≡ true → b ≡ false)
          → is_red_color c ≡ false
      not_both red b h f = absurd (false≢true (sym (f refl) ∙ h))
      not_both black b h f = refl

  -- Inserting into a red-black tree uses no null pointer and gives a red-black tree: the
  -- root is black, no red node has a red child, and each node has as many black nodes on its
  -- left as on its right.
  pub insert-IsRedBlack :
      (t : Tree V) (v : ℕ) (x : V)
      → IsRedBlack t
      → (u : Tree V) × (insert t v x ≡ some u) × IsRedBlack u
  unfolding insert
  insert-IsRedBlack t v x is =
      fix-IsRedBlack (descend v t []) (node red v x leaf leaf) ((λ i. (refl, refl)), refl, tt, tt)
        (descend-Around v t [] is.rules tt (λ i. absurd (false≢true (sym is.root_black ∙ i))))
