-- ===== src/LinkedList/Sort.antt =====
-- The merge sort of src/list.c. A comparison function reads the objects that embed the nodes, which
-- sorting does not change, so it is a function of two addresses; `none` is a null pointer. Each loop
-- and each recursion runs on fuel.
pub mod Spec
pub mod Split
pub mod Merge
pub mod Refine
pub mod Order
pub mod Run
use coremio.Prelude.{
  ℕ, zero, suc, Bool, true, false, not, Option, none, some, ◌==◌, ◌||◌, ◌&&◌, if◌then◌else◌,
}
use coremio.LinkedList.Heap.{
  Ptr, null, Cmd, out_of_fuel, pure, skip, ◌>>=◌, ◌>>◌, load, set_next, set_previous, load_list,
  set_head, set_tail,
}

-- `l_list_to_swap`: whether the first node must stand behind the second
abbrev pub Comparison : Type 0
Comparison = Option (Ptr → Ptr → Bool)

-- `(f_list_node_comparison) && (!f_list_node_comparison(left_head, right_head))`
unfoldable pub takes_left : Comparison → Ptr → Ptr → Bool
takes_left none left right = false
takes_left (some to_swap) left right = not (to_swap left right)

-- the loop of `p_list_node_hard_split`, which returns `single_step`
unfoldable pub split_walk : ℕ → (twice_step single_step : Ptr) → Cmd Ptr
split_walk zero twice_step single_step = λ _. out_of_fuel
split_walk (suc k) twice_step single_step = if twice_step == null then pure single_step else do
  t ← load twice_step
  if t.next == null then pure single_step else do
    n ← load t.next
    if n.next == null
        then split_walk k null single_step
        else do o ← load single_step; split_walk k n.next o.next

-- `p_list_node_hard_split`
unfoldable pub hard_split : ℕ → Ptr → Cmd Ptr
hard_split fuel head = do
  single_step ← split_walk fuel head head
  if single_step == null then pure null else do
    n ← load single_step
    if n.next == null
        then pure null
        else do set_previous n.next null; set_next single_step null; pure n.next

-- `if ((node->next = rest)) node->next->previous = node`
unfoldable pub attach : Ptr → Ptr → Cmd Ptr
attach node rest = do
  set_next node rest
  (if rest == null then skip else set_previous rest node)
  pure node

-- `p_list_node_hard_merge`
unfoldable pub hard_merge : ℕ → Comparison → (left_head right_head : Ptr) → Cmd Ptr
hard_merge zero to_swap left_head right_head = λ _. out_of_fuel
hard_merge (suc k) to_swap left_head right_head =
    if not (left_head == null) && not (right_head == null)
    then (if takes_left to_swap left_head right_head
        then (do
          n ← load left_head
          rest ← hard_merge k to_swap n.next right_head
          attach left_head rest)
        else (do
          n ← load right_head
          rest ← hard_merge k to_swap left_head n.next
          attach right_head rest))
    else if not (left_head == null)
    then pure left_head
    else pure right_head

-- `p_list_node_merge_sort`
unfoldable pub merge_sort : ℕ → Comparison → Ptr → Cmd Ptr
merge_sort zero to_swap head = λ _. out_of_fuel
merge_sort (suc k) to_swap head = if head == null then pure head else do
  n ← load head
  if n.next == null then pure head else do
    right_head ← hard_split (suc k) head
    left ← merge_sort k to_swap head
    right ← merge_sort k to_swap right_head
    hard_merge (suc k) to_swap left right

-- the loop of `f_list_sort`
unfoldable pub walk_tail : ℕ → Ptr → Cmd (Unit {0})
walk_tail zero list = λ _. out_of_fuel
walk_tail (suc k) list = do
  h ← load_list list
  if h.tail == null then skip else do
    n ← load h.tail
    if n.next == null then skip else do set_tail list n.next; walk_tail k list

-- `f_list_sort`
unfoldable pub sort : ℕ → Ptr → Comparison → Cmd (Unit {0})
sort fuel list to_swap = do
  h ← load_list list
  head ← merge_sort fuel to_swap h.head
  set_head list head
  walk_tail fuel list
