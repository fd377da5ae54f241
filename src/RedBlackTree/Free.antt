-- ===== src/RedBlackTree/Free.antt =====
-- Freeing a tree deletes each of its nodes once.
use mathlib.Core.List.{Perm, perm_middle}
use mathlib.Core.List.Perm
use mathlib.Core.Path.{subst}
use coremio.Prelude.{ℕ, ◌≡◌, List, [], ◌∷◌, ◌++◌, map, append-nil, append_assoc}
use mathlib.Core.List.{map-append}
use coremio.RedBlackTree.{Color, Tree, leaf, node, free_recursive}
use coremio.RedBlackTree.Inorder.{inorder}

concat-perm {ℓ} : {A : Type ℓ} (x : A) (xs : List A) → Perm (xs ++ x ∷ []) (x ∷ xs)
concat-perm x xs =
    subst (λ ys. Perm (xs ++ x ∷ []) (x ∷ ys)) (append-nil xs) (perm_middle {a = x} xs [])

module _ {V : Type 0} where
  -- the items of a tree, in order
  unfoldable pub items : Tree V → List V
  items t = map (λ (p : ℕ × V). p.1) (inorder t)

  pub items-node :
      (c : Color) (v : ℕ) (x : V) (l r : Tree V) → items (node c v x l r) ≡ items l ++ x ∷ items r
  unfolding items inorder
  items-node c v x l r = map-append (λ (p : ℕ × V). p.1) (inorder l) ((v, x) ∷ inorder r)

  -- Freeing a tree deletes each of its nodes once.
  pub free_recursive-perm : (t : Tree V) → Perm (free_recursive t) (items t)
  unfolding free_recursive
  free_recursive-perm leaf = unfold items inorder in Perm.refl []
  free_recursive-perm (node c v x l r) =
      rw (items-node, append_assoc)
        (Perm.append (free_recursive-perm l) (
          Perm.trans (Perm.append (free_recursive-perm r) (Perm.refl (x ∷ [])))
            (concat-perm x (items r))))
