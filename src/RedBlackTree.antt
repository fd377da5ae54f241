-- ===== src/RedBlackTree.antt =====
-- The red-black tree: src/red_black_tree.c, include/coremio/red_black_tree.h.
-- A node with its `left` and `right` is a tree. A node pointer, from which `parent` leads up to the
-- root, is the subtree at the node with a path of frames, the parent first: a frame is a parent
-- without the child on the path. Writing a child's link and its `parent` is one step here. A value,
-- a `long int`, is held as its distance from `LONG_MIN`, which keeps the order. An item is what the
-- structure around the node holds. `none` is the use of a null pointer.
pub mod Inorder
pub mod Order
pub mod Rules
pub mod Balance
pub mod Height
pub mod Free
mod Examples
use coremio.Prelude.{
  ℕ, Bool, true, false, ◌&&◌, Option, none, some, List, [], ◌∷◌, ◌++◌, ltb, if◌then◌else◌,
}

pub data Color : Type 0 where
  red black : Color

pub data Side : Type 0 where
  left right : Side

-- `s_red_black_tree_node`
pub data Tree (V : Type 0) : Type 0 where
  leaf : Tree V
  node : Color → ℕ → V → (left right : Tree V) → Tree V

-- a parent: the side on which the path leaves it, its own fields, and its other child
pub record Frame (V : Type 0) : Type 0 where
  pub side : Side
  pub color : Color
  pub value : ℕ
  pub item : V
  pub sibling : Tree V

abbrev pub is_red_color : Color → Bool
is_red_color red = true
is_red_color black = false

module _ {V : Type 0} where
  abbrev pub frame : Side → Color → ℕ → V → Tree V → Frame V
  frame s c v x t = record { side = s; color = c; value = v; item = x; sibling = t }

  -- `(node) && (node->color == d_red_black_tree_color_red)`
  abbrev pub is_red : Tree V → Bool
  is_red leaf = false
  is_red (node c v x l r) = is_red_color c

  -- `node->color = d_red_black_tree_color_black`
  abbrev pub blacken : Tree V → Tree V
  blacken leaf = leaf
  blacken (node c v x l r) = node black v x l r

  abbrev join : Side → Color → ℕ → V → Tree V → Tree V → Tree V
  join left c v x t sibling = node c v x t sibling
  join right c v x t sibling = node c v x sibling t

  -- the parent's subtree, from the child's
  abbrev pub up : Frame V → Tree V → Tree V
  up f t = join f.side f.color f.value f.item t f.sibling

  -- the whole tree
  unfoldable pub plug : Tree V → List (Frame V) → Tree V
  plug t [] = t
  plug t (f ∷ path) = plug (up f t) path

  -- `p_red_black_tree_rotate_right` at the subtree of the pivot
  unfoldable pub rotate_right : Tree V → Option (Tree V)
  rotate_right (node c v x (node lc lv lx ll lr) r) = some (node lc lv lx ll (node c v x lr r))
  rotate_right _ = none

  -- `p_red_black_tree_rotate_left` at the subtree of the pivot
  unfoldable pub rotate_left : Tree V → Option (Tree V)
  rotate_left (node c v x l (node rc rv rx rl rr)) = some (node rc rv rx (node c v x l rl) rr)
  rotate_left _ = none

  -- the exchange of the colors of a rotated subtree's root and of the child it was rotated with
  unfoldable pub swap_colors : Side → Tree V → Tree V
  swap_colors right (node c v x l (node d w y rl rr)) = node d v x l (node c w y rl rr)
  swap_colors left (node c v x (node d w y ll lr) r) = node d v x (node c w y ll lr) r
  swap_colors _ t = t

  infixl 5 ◌>>=◌
  abbrev pub ◌>>=◌ : Option (Tree V) → (Tree V → Option (Tree V)) → Option (Tree V)
  none >>= f = none
  some t >>= f = f t

  -- the branch of a black uncle: the parent is the child of the grandparent on `side`, and the node
  -- the child of the parent on `inner`
  unfoldable pub rotate_up : (side inner : Side) → ℕ → V → Color → Tree V → Tree V → Option (Tree V)
  unfolding rotate_left rotate_right swap_colors
  rotate_up left left v x c parent uncle =
      rotate_right (node c v x parent uncle) >>= λ t. some (swap_colors right t)
  rotate_up left right v x c parent uncle = rotate_left parent >>= λ p.
      rotate_right (node c v x p uncle) >>= λ t. some (swap_colors right t)
  rotate_up right right v x c parent uncle =
      rotate_left (node c v x uncle parent) >>= λ t. some (swap_colors left t)
  rotate_up right left v x c parent uncle = rotate_right parent >>= λ p.
      rotate_left (node c v x uncle p) >>= λ t. some (swap_colors left t)

  -- one round of the loop of `p_red_black_tree_fix`: the subtree at the node with which it goes on,
  -- from the node's, its parent and its grandparent
  unfoldable pub fix_round : Tree V → Frame V → Frame V → Option (Tree V)
  unfolding rotate_up
  fix_round t f g =
      if is_red g.sibling
      then some (
          up (record g { color = red; sibling = blacken g.sibling })
            (up (record f { color = black }) t))
      else rotate_up g.side f.side g.value g.item g.color (up f t) g.sibling

  -- `p_red_black_tree_fix`
  unfoldable pub fix : Tree V → List (Frame V) → Option (Tree V)
  unfolding fix_round plug
  fix t [] = some (blacken t)
  fix t (f ∷ []) =
      if is_red t && is_red_color f.color then none else some (blacken (plug t (f ∷ [])))
  fix t (f ∷ g ∷ path) =
      if is_red t && is_red_color f.color
      then (fix_round t f g >>= λ u. fix u path)
      else some (blacken (plug t (f ∷ g ∷ path)))

  -- `p_red_black_tree_insert_recursive`: the path from the place of a new value up to the root
  unfoldable pub descend : ℕ → Tree V → List (Frame V) → List (Frame V)
  descend value leaf path = path
  descend value (node c v x l r) path = elim (ltb v value) [
    | true ↦ descend value r (frame right c v x l ∷ path)
    | false ↦ descend value l (frame left c v x r ∷ path)
  ]

  -- `f_red_black_tree_insert`, of a node whose links are null
  unfoldable pub insert : Tree V → ℕ → V → Option (Tree V)
  unfolding fix descend
  insert t value item = fix (node red value item leaf leaf) (descend value t [])

  -- `p_red_black_tree_free_recursive`: the items in the order in which their nodes are deleted
  unfoldable pub free_recursive : Tree V → List V
  free_recursive leaf = []
  free_recursive (node c v x l r) = (free_recursive l ++ free_recursive r) ++ x ∷ []

module _ {V S : Type 0} where
  unfoldable pub delete_each : (V → S → S) → List V → S → S
  delete_each delete [] s = s
  delete_each delete (x ∷ xs) s = delete_each delete xs (delete x s)

  -- `f_red_black_tree_free`; the callback deletes a node, and `none` is a null pointer
  unfoldable pub free : Option (V → S → S) → Tree V → S → S
  unfolding free_recursive delete_each
  free none t s = s
  free (some delete) t s = delete_each delete (free_recursive t) s
