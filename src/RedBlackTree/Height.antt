-- ===== src/RedBlackTree/Height.antt =====
-- How high a red-black tree is for what it holds.
use Prim.Native.Nat.{max}
use native.Mathlib.Nat.{two-pow-succ, zero-add}
use mathlib.Core.Path.{subst}
use coremio.Prelude.{
  ap, Option, none, some, List, [], ◌∷◌, length, length-append, ℕ, suc, ◌+◌, ◌*◌, ◌^◌, ◌≤◌, ◌≡◌,
  refl, true, false, arith, Bool, ◌∙◌,
}
use coremio.RedBlackTree.{red, black, is_red, Tree, leaf, node, insert}
use coremio.RedBlackTree.Inorder.{inorder}
use coremio.RedBlackTree.Order.{Sorted, insert-Inserted, insert-Sorted}
use coremio.RedBlackTree.Balance.{insert-IsRedBlack}
use coremio.RedBlackTree.Rules.{black_height, Rules, IsRedBlack}

-- a red root may add one
redness : Bool → ℕ
redness true = 1
redness false = 0

power_one_add : (k : ℕ) → 2 ^ (1 + k) ≡ 2 ^ k + 2 ^ k
power_one_add k = ap (λ (n : ℕ). 2 ^ n) (one_add k) ∙ two-pow-succ k
  where
    one_add : (k : ℕ) → 1 + k ≡ suc k
    one_add k = omega arith

power_zero_add : (k : ℕ) → 2 ^ (0 + k) ≡ 2 ^ k
power_zero_add k = ap (λ (n : ℕ). 2 ^ n) (zero-add k)

module _ {V : Type 0} where
  abbrev pub height : Tree V → ℕ
  height leaf = 0
  height (node c v x l r) = suc (max (height l) (height r))

  abbrev pub size : Tree V → ℕ
  size leaf = 0
  size (node c v x l r) = suc (size l + size r)

  height-le : (t : Tree V) → Rules t → height t ≤ 2 * black_height t + redness (is_red t)
  unfolding redness
  height-le leaf h = omega arith
  height-le (node red v x l r) (top, e, hl, hr) =
      ground (arith, height-le l hl, height-le r hr, top refl)
  height-le (node black v x l r) (top, e, hl, hr) = ground (arith, height-le l hl, height-le r hr)

  power-le-size : (t : Tree V) → Rules t → 2 ^ black_height t ≤ size t + 1
  power-le-size leaf h = omega arith
  power-le-size (node red v x l r) (top, e, hl, hr) =
      omega (arith, power_zero_add (black_height l), power-le-size l hl)
  power-le-size (node black v x l r) (top, e, hl, hr) =
      let er : 2 ^ black_height l ≡ 2 ^ black_height r = ap (λ (n : ℕ). 2 ^ n) e in
      omega (arith, power_one_add (black_height l), power-le-size l hl, power-le-size r hr)

  height-IsRedBlack :
      (t : Tree V)
      → IsRedBlack t
      → (height t ≤ 2 * black_height t) × (2 ^ black_height t ≤ size t + 1)
  unfolding redness
  height-IsRedBlack t is =
      (ground (arith, height-le t is.rules, is.root_black), power-le-size t is.rules)

  size-inorder : (t : Tree V) → size t ≡ length (inorder t)
  unfolding inorder
  size-inorder leaf = refl
  size-inorder (node c v x l r) =
      omega (arith, size-inorder l, size-inorder r, length-append (inorder l) ((v, x) ∷ inorder r))

  size-insert :
      (t : Tree V) (v : ℕ) (x : V) (u : Tree V)
      → Sorted (inorder t)
      → insert t v x ≡ some u
      → size u ≡ size t + 1
  size-insert t v x u s e =
      let i = insert-Inserted t v x u s e in
      omega (
        arith,
        size-inorder t,
        size-inorder u,
        ap length i.was,
        ap length i.is,
        length-append i.smaller i.others,
        length-append i.smaller ((v, x) ∷ i.others),
      )

  -- the insertions of values, one after the other
  abbrev pub insert_all : List (ℕ × V) → Tree V → Option (Tree V)
  insert_all [] t = some t
  insert_all ((v, x) ∷ vs) t = elim (insert t v x) [ none ↦ none | some u ↦ insert_all vs u ]

  -- a tree of so many nodes, not higher than the logarithm allows
  pub record Balanced (n : ℕ) (o : Option (Tree V)) : Type 0 where
    pub tree : Tree V
    pub some_of : o ≡ some tree
    pub has_size : size tree ≡ n
    pub half : ℕ
    pub height_le : height tree ≤ 2 * half
    pub power_le : 2 ^ half ≤ n + 1

  insert_all-Balanced :
      (vs : List (ℕ × V)) (t : Tree V)
      → IsRedBlack t
      → Sorted (inorder t)
      → Balanced (size t + length vs) (insert_all vs t)
  insert_all-Balanced [] t is s = record {
    tree = t;
    some_of = refl;
    has_size = omega arith;
    half = black_height t;
    height_le = (height-IsRedBlack t is).0;
    power_le = omega (arith, (height-IsRedBlack t is).1);
  }
  insert_all-Balanced ((v, x) ∷ vs) t is s =
      let (u, e, red_black) = insert-IsRedBlack t v x is in
      rw (e, insert_all)
        (subst (λ n. Balanced n (insert_all vs u)) (omega (arith, size-insert t v x u s e))
          (insert_all-Balanced vs u red_black (insert-Sorted t v x u s e)))

  -- Any insertions, one after the other from the empty tree, use no null pointer and give a tree with a node for
  -- each of them; its height is at most twice a number to which two to the power is at most one more than the
  -- number of the nodes.
  pub insert_all-height : (vs : List (ℕ × V)) → Balanced (length vs) (insert_all vs leaf)
  unfolding inorder
  insert_all-height vs =
      subst (λ n. Balanced n (insert_all vs leaf)) (zero-add (length vs))
        (insert_all-Balanced vs leaf (record { root_black = refl; rules = tt }) tt)
