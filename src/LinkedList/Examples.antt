-- ===== src/LinkedList/Examples.antt =====
-- Lists at concrete addresses: tests of the operations of src/list.c, and instances of their theorems.
use mathlib.Core.List.{Perm}
use coremio.Prelude.{
  ℕ, zero, suc, ◌≡◌, refl, Bool, Option, none, some, List, [], ◌∷◌, ltb, arith, ◌==◌, if◌then◌else◌,
}
use coremio.LinkedList.{append, insert, remove, insert_tail}
use coremio.LinkedList.Heap.{
  commands, Ptr, Node, node_of, Header, header_of, Store, Run, Ensures, Keeps, ok,
}
use coremio.LinkedList.Chain.{IsList, IsDetached, Disjoint}
use coremio.LinkedList.Append.{append_tail-concat}
use coremio.LinkedList.Insert.{insert-append}
use coremio.LinkedList.Remove.{remove-append, Removed}
use coremio.LinkedList.Sort.{
  sort, merge_sort, hard_split, split_walk, hard_merge, attach, takes_left, walk_tail,
}
use coremio.LinkedList.Sort.Spec.{sorted_by}
use coremio.LinkedList.Sort.Order.{IsOrder, IsSorted}
use coremio.LinkedList.Sort.Run.{sort-IsSorted, sort-sorted_by}

-- the list at 1 holds the nodes 13, 11 and 12, and no list the node 14
abbrev node_at : Ptr → Option Node
node_at a =
    if a == 11
    then some (node_of 1 12 13)
    else if a == 12
    then some (node_of 1 0 11)
    else if a == 13
    then some (node_of 1 11 0)
    else if a == 14
    then some (node_of 0 0 0)
    else none

abbrev list_at : Ptr → Option Header
list_at a = if a == 1 then some (header_of 13 12 3) else none

abbrev three_nodes : Store
three_nodes = record { node = node_at; list = list_at }

abbrev descending : Ptr → Ptr → Bool
descending a b = ltb b a

-- the nodes of the list from its head on, at most `k` of them, and from its tail backwards
abbrev forward : ℕ → Store → Ptr → List Ptr
forward zero s p = []
forward (suc k) s p = elim (s.node p) [ none ↦ [] | some n ↦ p ∷ forward k s n.next ]

abbrev backward : ℕ → Store → Ptr → List Ptr
backward zero s p = []
backward (suc k) s p = elim (s.node p) [ none ↦ [] | some n ↦ p ∷ backward k s n.previous ]

-- both, for the list at 1, with the count of its nodes; empty where the run fails
abbrev view : {A : Type 0} → Run A → Option (List Ptr × List Ptr × ℕ)
view (ok a s) = elim (s.list 1) [
  | none ↦ none
  | some h ↦ some (forward 5 s h.head, backward 5 s h.tail, h.entries)
]
view _ = none

test_append :
    view (append 1 14 insert_tail three_nodes)
    ≡ some (13 ∷ 11 ∷ 12 ∷ 14 ∷ [], 14 ∷ 12 ∷ 11 ∷ 13 ∷ [], 4)
unfolding append commands
test_append = refl

test_insert :
    view (insert 1 14 13 three_nodes) ≡ some (13 ∷ 14 ∷ 11 ∷ 12 ∷ [], 12 ∷ 11 ∷ 14 ∷ 13 ∷ [], 4)
unfolding insert append commands
test_insert = refl

test_remove : view (remove 1 11 three_nodes) ≡ some (13 ∷ 12 ∷ [], 12 ∷ 13 ∷ [], 2)
unfolding remove commands
test_remove = refl

test_sort :
    view (sort 5 1 (some descending) three_nodes) ≡ some (11 ∷ 12 ∷ 13 ∷ [], 13 ∷ 12 ∷ 11 ∷ [], 3)
unfolding sort merge_sort hard_split split_walk hard_merge attach takes_left walk_tail commands
test_sort = refl

three_nodes-IsList : IsList three_nodes 1 (13 ∷ 11 ∷ 12 ∷ [])
three_nodes-IsList = record {
  not_null = λ e. omega (arith, e);
  header = refl;
  chain = (
    (λ e. omega (arith, e)),
    refl,
    refl,
    ((λ e. omega (arith, e)), refl, refl, ((λ e. omega (arith, e)), refl, refl, tt)),
  );
}

descending-IsOrder : IsOrder descending
descending-IsOrder = record {
  asymmetric = λ a b h. ground arith;
  transitive = λ a b c h i. ground arith;
}

spare-IsDetached : IsDetached three_nodes 14
spare-IsDetached = (λ e. omega (arith, e), refl)

append_tail-concat_example :
    Ensures
      (λ _ s'.
        IsList s' 1 (13 ∷ 11 ∷ 12 ∷ 14 ∷ []) × Keeps three_nodes s' 1 (14 ∷ 13 ∷ 11 ∷ 12 ∷ []))
      (append 1 14 insert_tail three_nodes)
append_tail-concat_example =
    append_tail-concat three_nodes 1 14 spare-IsDetached (13 ∷ 11 ∷ 12 ∷ []) three_nodes-IsList

insert-append_example :
    Ensures
      (λ _ s'.
        IsList s' 1 (13 ∷ 14 ∷ 11 ∷ 12 ∷ []) × Keeps three_nodes s' 1 (14 ∷ 13 ∷ 11 ∷ 12 ∷ []))
      (insert 1 14 13 three_nodes)
insert-append_example =
    insert-append three_nodes 1 14 spare-IsDetached [] 13 (11 ∷ 12 ∷ []) three_nodes-IsList

remove-append_example :
    Ensures (Removed three_nodes 1 11 (13 ∷ []) (12 ∷ [])) (remove 1 11 three_nodes)
remove-append_example = remove-append three_nodes 1 11 (13 ∷ []) (12 ∷ []) three_nodes-IsList

sort-IsSorted_example :
    Ensures
      (λ _ s'.
        (ys : List Ptr) × IsList s' 1 ys
        × Perm ys (13 ∷ 11 ∷ 12 ∷ [])
        × IsSorted descending ys
        × Keeps three_nodes s' 1 (13 ∷ 11 ∷ 12 ∷ []))
      (sort 4 1 (some descending) three_nodes)
sort-IsSorted_example =
    sort-IsSorted descending 4 three_nodes 1 (13 ∷ 11 ∷ 12 ∷ []) descending-IsOrder (omega arith)
      three_nodes-IsList

sort-sorted_by_example :
    Ensures
      (λ _ s'.
        IsList s' 1 (sorted_by 4 none (13 ∷ 11 ∷ 12 ∷ []))
        × Keeps three_nodes s' 1 (13 ∷ 11 ∷ 12 ∷ []))
      (sort 4 1 none three_nodes)
sort-sorted_by_example =
    sort-sorted_by none 4 1 (λ e. omega (arith, e)) three_nodes (13 ∷ 11 ∷ 12 ∷ []) (omega arith)
      three_nodes-IsList

-- the chain of 13, and the chain of 11 and 12
abbrev half_at : Ptr → Option Node
half_at a =
    if a == 11
    then some (node_of 1 12 0)
    else if a == 12
    then some (node_of 1 0 11)
    else if a == 13
    then some (node_of 1 0 0)
    else none

abbrev two_chains : Store
two_chains = record { node = half_at; list = list_at }

chains_Disjoint : Disjoint (13 ∷ []) (11 ∷ 12 ∷ [])
chains_Disjoint a h = ground arith
