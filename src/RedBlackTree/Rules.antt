-- ===== src/RedBlackTree/Rules.antt =====
-- The red-black rules, of a tree and of what surrounds a subtree.
use mathlib.Core.Path.{subst}
use coremio.Prelude.{ℕ, ◌+◌, ◌≡◌, refl, sym, ap, Bool, true, false, List, [], ◌∷◌, arith, ◌&&◌}
use coremio.RedBlackTree.{
  Color, Side, left, right, red, black, is_red, is_red_color, Tree, leaf, node, Frame, frame, up,
  blacken, plug,
}

-- what a node adds to the black height
abbrev pub blackness : Color → ℕ
blackness red = 0
blackness black = 1

pub blackness_red : (c : Color) → is_red_color c ≡ true → blackness c ≡ 0
blackness_red red h = refl
blackness_red black h = cc

pub blackness_black : (c : Color) → is_red_color c ≡ false → blackness c ≡ 1
blackness_black red h = cc
blackness_black black h = refl

pub both : (a b : Bool) → (a && b) ≡ true → (a ≡ true) × (b ≡ true)
both true b h = (refl, h)
both false b h = cc

module _ {V : Type 0} where
  -- the black nodes on the left-most way down
  abbrev pub black_height : Tree V → ℕ
  black_height leaf = 0
  black_height (node c v x l r) = blackness c + black_height l

  -- no red child below a red node, and as many black nodes on each side
  abbrev pub Rules : Tree V → Type 0
  Rules leaf = Unit
  Rules (node c v x l r) =
      (is_red_color c ≡ true → (is_red l ≡ false) × (is_red r ≡ false))
      × (black_height l ≡ black_height r)
      × Rules l
      × Rules r

  -- the rules of a whole tree: also, its root is black
  pub record IsRedBlack (t : Tree V) : Type 0 where
    pub root_black : is_red t ≡ false
    pub rules : Rules t

  abbrev pub BlackAbove : List (Frame V) → Type 0
  BlackAbove [] = ⊥
  BlackAbove (g ∷ path) = is_red_color g.color ≡ false

  -- what surrounds a subtree of black height `h`
  abbrev pub Around : List (Frame V) → ℕ → Type 0
  Around [] h = Unit
  Around (f ∷ path) h =
      Rules f.sibling
      × (black_height f.sibling ≡ h)
      × (is_red_color f.color ≡ true → (is_red f.sibling ≡ false) × BlackAbove path)
      × Around path (blackness f.color + h)

  pub blacken-IsRedBlack : (t : Tree V) → Rules t → IsRedBlack (blacken t)
  blacken-IsRedBlack leaf r = record { root_black = refl; rules = tt }
  blacken-IsRedBlack (node c v x l r) h = record {
    root_black = refl;
    rules = (λ e. cc, h.1, h.2, h.3);
  }

  pub Rules-up :
      (s : Side) (c : Color) (v : ℕ) (x : V) (sibling t : Tree V)
      → Rules t
      → Rules sibling
      → black_height sibling ≡ black_height t
      → (is_red_color c ≡ true → is_red sibling ≡ false)
      → (is_red t && is_red_color c) ≡ false
      → Rules (up (frame s c v x sibling) t)
        × (black_height (up (frame s c v x sibling) t) ≡ blackness c + black_height t)
  Rules-up left c v x sibling t r rs b n e = ((λ i. (ground arith, n i), sym b, r, rs), refl)
  Rules-up right c v x sibling t r rs b n e =
      ((λ i. (n i, ground arith), b, rs, r), ap (λ k. blackness c + k) b)

  pub is_red-up :
      (s : Side) (c : Color) (v : ℕ) (x : V) (sibling t : Tree V)
      → is_red (up (frame s c v x sibling) t) ≡ is_red_color c
  is_red-up left c v x sibling t = refl
  is_red-up right c v x sibling t = refl

  pub Rules-plug :
      (f : Frame V) (path : List (Frame V)) (t : Tree V)
      → Rules t
      → Around (f ∷ path) (black_height t)
      → (is_red t && is_red_color f.color) ≡ false
      → Rules (plug t (f ∷ path))
  unfolding plug
  Rules-plug f [] t r a e =
      (Rules-up f.side f.color f.value f.item f.sibling t r a.0 a.1 (λ i. (a.2 i).0) e).0
  Rules-plug f (g ∷ path) t r a e =
      let (rules, height) =
        Rules-up f.side f.color f.value f.item f.sibling t r a.0 a.1 (λ i. (a.2 i).0) e in
      Rules-plug g path (up f t) rules (subst (λ k. Around (g ∷ path) k) (sym height) a.3) (
        rw (is_red-up f.side f.color f.value f.item f.sibling t)
          (link f.color g.color (λ i. (a.2 i).1)))
    where
      link :
          (c d : Color)
          → (is_red_color c ≡ true → is_red_color d ≡ false)
          → (is_red_color c && is_red_color d) ≡ false
      link red d h = h refl
      link black d h = refl
