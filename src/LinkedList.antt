-- ===== src/LinkedList.antt =====
-- The doubly linked intrusive list: src/list.c, include/coremio/list.h.
pub mod Heap
pub mod Chain
pub mod Append
pub mod Insert
pub mod Remove
pub mod Sort
mod Examples
use coremio.Prelude.{
  ℕ, zero, suc, Bool, true, false, not, ◌&&◌, Option, none, some, ◌==◌, if◌then◌else◌, increment,
  decrement,
}
use coremio.LinkedList.Heap.{
  Ptr, null, Cmd, out_of_fuel, pure, skip, ◌>>=◌, ◌>>◌, load, set_next, set_previous, set_owner,
  load_list, set_head, set_tail, set_entries, assert,
}

-- `e_list_insert_kind`
pub data InsertKind : Type 0 where
  insert_head insert_tail : InsertKind

-- the `switch` of `f_list_append`
link : Ptr → Ptr → InsertKind → Cmd (Unit {0})
link list node insert_head = do
  h ← load_list list
  (if h.head == null then set_tail list node else set_previous h.head node)
  set_next node h.head
  set_head list node
link list node insert_tail = do
  h ← load_list list
  (if h.tail == null then set_head list node else set_next h.tail node)
  set_previous node h.tail
  set_tail list node

-- `f_list_append`
unfoldable pub append : Ptr → Ptr → InsertKind → Cmd (Unit {0})
unfolding link
append list node kind = do
  n ← load node
  assert (n.owner == null)
  link list node kind
  set_owner node list
  h ← load_list list
  set_entries list (increment h.entries)

-- the branch of `f_list_insert` that puts the node between two others
insert_between : Ptr → Ptr → Ptr → Cmd (Unit {0})
insert_between list node previous = do
  p ← load previous
  set_next node p.next
  set_previous p.next node
  set_previous node previous
  set_next previous node
  set_owner node list
  h ← load_list list
  set_entries list (increment h.entries)

-- `f_list_insert`
unfoldable pub insert : Ptr → Ptr → Ptr → Cmd (Unit {0})
unfolding insert_between append
insert list node previous = do
  n ← load node
  assert (n.owner == null)
  if previous == null then append list node insert_head else do
    p ← load previous
    if p.next == null then append list node insert_tail else insert_between list node previous

-- `f_list_remove`
unfoldable pub remove : Ptr → Ptr → Cmd Ptr
remove list node = do
  n ← load node
  assert (n.owner == list)
  (if n.next == null then set_tail list n.previous else set_previous n.next n.previous)
  (if n.previous == null then set_head list n.next else set_next n.previous n.next)
  set_next node null
  set_previous node null
  set_owner node null
  h ← load_list list
  set_entries list (decrement h.entries)
  pure node

-- `f_list_remove_from_owner`
unfoldable pub remove_from_owner : Ptr → Cmd Ptr
unfolding remove
remove_from_owner node = do n ← load node; remove n.owner node
