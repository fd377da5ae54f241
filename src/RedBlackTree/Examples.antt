-- ===== src/RedBlackTree/Examples.antt =====
-- Small trees: tests of src/red_black_tree.c, and instances of the theorems on it.
use coremio.Prelude.{List, [], ◌∷◌, ℕ, ◌≡◌, refl, some, arith}
use coremio.RedBlackTree.{
  Tree, leaf, node, red, black, insert, fix, fix_round, rotate_up, rotate_left, rotate_right,
  swap_colors, plug, descend,
}
use coremio.RedBlackTree.Inorder.{inorder}
use coremio.RedBlackTree.Order.{Inserted, insert-Inserted}
use coremio.RedBlackTree.Rules.{IsRedBlack}
use coremio.RedBlackTree.Balance.{insert-IsRedBlack}
use coremio.RedBlackTree.Height.{Balanced, insert_all, insert_all-height}

-- a tree of one node, and that tree after the insertion of two values above it
abbrev one : Tree ℕ
one = node black 5 0 leaf leaf

abbrev two : Tree ℕ
two = node black 5 0 leaf (node red 7 1 leaf leaf)

abbrev three : Tree ℕ
three = node black 7 1 (node red 5 0 leaf leaf) (node red 9 2 leaf leaf)

test_insert_below : insert one 7 1 ≡ some two
unfolding insert fix descend plug
test_insert_below = refl

test_insert_rotating : insert two 9 2 ≡ some three
unfolding insert fix fix_round rotate_up rotate_left rotate_right swap_colors descend plug
test_insert_rotating = refl

two-IsRedBlack : IsRedBlack two
two-IsRedBlack = record {
  root_black = refl;
  rules = ((λ h. cc), refl, tt, ((λ h. (refl, refl)), refl, tt, tt));
}

insert-IsRedBlack_example : (u : Tree ℕ) × (insert two 9 2 ≡ some u) × IsRedBlack u
insert-IsRedBlack_example = insert-IsRedBlack two 9 2 two-IsRedBlack

insert-Inserted_example : Inserted two 9 2 three
unfolding inorder
insert-Inserted_example =
    insert-Inserted two 9 2 three ((omega arith, tt), (tt, tt)) test_insert_rotating

abbrev rising : List (ℕ × ℕ)
rising = (1, 0) ∷ (2, 1) ∷ (3, 2) ∷ (4, 3) ∷ (5, 4) ∷ []

insert_all-height_example : Balanced 5 (insert_all rising leaf)
insert_all-height_example = insert_all-height rising
