-- ===== src/Memory.antt =====
-- The tracker of allocations: src/memory.c, include/coremio/memory.h. Each chunk that is in use is a node
-- of the list `m_memory_chunks`, and its bytes stand behind the node. The C library's `malloc` is a
-- parameter: its answer, where `none` is a null pointer, and what the bytes of the new block hold.
-- The mutex makes each operation on the list one step.
pub mod Track
pub mod Move
mod Examples
use coremio.Prelude.{
  ℕ, zero, suc, ◌+◌, ◌-◌, ◌%◌, Bool, true, false, Option, none, some, List, [], ◌∷◌, ◌++◌, ltb,
  ◌==◌, if◌then◌else◌, size_mod, length, drop,
}
use coremio.LinkedList.{append, remove, insert_head}
use coremio.LinkedList.Heap.{Ptr, null, Node, node_of, Store, Run, set_node}
use coremio.LinkedList.Heap

-- `s_memory_node`, less its node of the list, with the bytes behind it
pub record Chunk : Type 0 where
  pub file : Ptr
  pub line : ℕ
  pub size : ℕ
  pub bytes : List ℕ

pub record Memory : Type 0 where
  pub nodes : Store
  pub chunk : Ptr → Option Chunk

-- `overran` is a write behind the end of a block
pub data Outcome (A : Type 0) : Type 0 where
  ok : A → Memory → Outcome A
  fault aborted overran : Outcome A

-- the address of `m_memory_chunks`
abbrev pub memory_chunks : Ptr
memory_chunks = 1

-- `sizeof(s_memory_node)`
abbrev pub node_bytes : ℕ
node_bytes = 48

module _ {A B : Type 0} where
  abbrev pub and_then : Outcome A → (A → Memory → Outcome B) → Outcome B
  and_then (ok a m) k = k a m
  and_then fault k = fault
  and_then aborted k = aborted
  and_then overran k = overran

  -- an operation on the list; those that are used here take no fuel
  abbrev pub on_list : Run A → (A → Store → Outcome B) → Outcome B
  on_list (Heap.ok a s) k = k a s
  on_list Heap.fault k = fault
  on_list Heap.aborted k = aborted
  on_list Heap.out_of_fuel k = fault

abbrev pub set_chunk : Ptr → Option Chunk → (Ptr → Option Chunk) → Ptr → Option Chunk
set_chunk x c chunk a = if a == x then c else chunk a

-- the first `n` bytes of what a new block holds
unfoldable pub block : (ℕ → ℕ) → ℕ → List ℕ
block garbage zero = []
block garbage (suc n) = garbage 0 ∷ block (λ i. garbage (suc i)) n

-- `f_memory_malloc`
unfoldable pub malloc : Option Ptr → (ℕ → ℕ) → (file : Ptr) → (line size : ℕ) → Memory → Outcome Ptr
unfolding block
malloc none garbage file line size m = ok null m
malloc (some x) garbage file line size m =
    let requested = (node_bytes + size) % size_mod in
    if ltb requested node_bytes
    then overran
    else on_list (append memory_chunks x insert_head (set_node x (node_of null null null) m.nodes))
        λ _ s. ok (x + node_bytes) (record {
          nodes = s;
          chunk =
              set_chunk x
                (some (record {
                  file = file;
                  line = line;
                  size = size;
                  bytes = block garbage (requested - node_bytes);
                }))
                m.chunk;
        })

-- `f_memory_free`
unfoldable pub free : Ptr → Memory → Outcome (Unit {0})
free pointer m =
    if pointer == null
    then ok tt m
    else on_list (remove memory_chunks (pointer - node_bytes) m.nodes) λ x s. ok tt (record {
      nodes = record s { node = λ a. if a == x then none else s.node a };
      chunk = set_chunk x none m.chunk;
    })

-- `memcpy` of `size` bytes of the chunk `old` to the start of the chunk `new`
unfoldable pub copy : (old new : Ptr) → ℕ → Memory → Outcome (Unit {0})
copy old new size m = elim (m.chunk old) [
  | none ↦ fault
  | some from ↦ elim (m.chunk new) [
    | none ↦ fault
    | some to ↦
        if ltb (length to.bytes) size
        then overran
        else ok tt (record m {
          chunk =
              set_chunk new (some (record to { bytes = from.bytes ++ drop size to.bytes })) m.chunk;
        })
  ]
]

-- `previous_memory_node->size`
unfoldable pub size_of : Ptr → Memory → Outcome ℕ
size_of x m = elim (m.chunk x) [ none ↦ fault | some c ↦ ok c.size m ]

-- `f_memory_realloc`
unfoldable pub realloc :
    Option Ptr
    → (ℕ → ℕ)
    → (file : Ptr) → (line : ℕ) → (pointer : Ptr) → (size : ℕ) → Memory
    → Outcome Ptr
realloc answer garbage file line pointer size m =
    and_then (malloc answer garbage file line size m) λ new_pointer m.
      if new_pointer == null
      then ok null m
      else if pointer == null
      then ok new_pointer m
      else and_then (size_of (pointer - node_bytes) m) λ old_size m.
        and_then (copy (pointer - node_bytes) (new_pointer - node_bytes) old_size m)
          λ _ m. and_then (free pointer m) λ _ m. ok new_pointer m
