-- ===== src/Memory/Examples.antt =====
-- One tracked chunk of two bytes: tests of src/memory.c, and instances of the theorems on it.
use coremio.Prelude.{ℕ, ◌≡◌, refl, Option, none, some, [], ◌∷◌, ◌==◌, if◌then◌else◌, arith}
use coremio.LinkedList.{append, remove}
use coremio.LinkedList.Heap.{Ptr, Node, node_of, Header, header_of, commands}
use coremio.LinkedList.Chain.{IsList}
use coremio.Memory.{
  Chunk, Memory, Outcome, ok, overran, block, malloc, free, copy, size_of, realloc,
}
use coremio.Memory.Track.{Yields, IsFree, Allocated, malloc-Allocated, Freed, free-Freed}
use coremio.Memory.Move.{Moved, realloc-Moved, realloc-overran}

abbrev stale : ℕ → ℕ
stale i = 171

abbrev two_bytes : Chunk
two_bytes = record { file = 7; line = 3; size = 2; bytes = 5 ∷ 6 ∷ [] }

-- the chunk's node is at 100, its bytes at 148
abbrev node_at : Ptr → Option Node
node_at a = if a == 100 then some (node_of 1 0 0) else none

abbrev list_at : Ptr → Option Header
list_at a = if a == 1 then some (header_of 100 100 1) else none

abbrev chunk_at : Ptr → Option Chunk
chunk_at a = if a == 100 then some two_bytes else none

abbrev one_chunk : Memory
one_chunk = record { nodes = record { node = node_at; list = list_at }; chunk = chunk_at }

-- the chunk at an address after a run that succeeds
abbrev chunk_after : Outcome Ptr → Ptr → Option Chunk
chunk_after (ok p m) a = m.chunk a
chunk_after _ a = none

test_realloc :
    chunk_after (realloc (some 200) stale 7 9 148 3 one_chunk) 200
    ≡ some (record { file = 7; line = 9; size = 3; bytes = 5 ∷ 6 ∷ 171 ∷ [] })
unfolding realloc malloc free copy size_of block append remove commands
test_realloc = refl

one_chunk-IsList : IsList one_chunk.nodes 1 (100 ∷ [])
one_chunk-IsList = record {
  not_null = λ e. omega (arith, e);
  header = refl;
  chain = ((λ e. omega (arith, e)), refl, refl, tt);
}

unused_200 : IsFree one_chunk 200
unused_200 = ((λ e. omega (arith, e)), refl)

malloc-Allocated_example :
    Yields (Allocated one_chunk 200 (100 ∷ []) 7 9 3) (malloc (some 200) stale 7 9 3 one_chunk)
malloc-Allocated_example =
    malloc-Allocated one_chunk 200 stale 7 9 3 (100 ∷ []) unused_200 (omega arith) one_chunk-IsList

free-Freed_example : Yields (λ _ m'. Freed one_chunk 100 [] [] m') (free 148 one_chunk)
free-Freed_example = free-Freed one_chunk 100 [] [] one_chunk-IsList

realloc-Moved_example :
    Yields (Moved 200 100 two_bytes [] [] 7 9 3) (realloc (some 200) stale 7 9 148 3 one_chunk)
realloc-Moved_example =
    realloc-Moved 200 100 stale 7 9 3 two_bytes [] [] one_chunk unused_200 (omega arith)
      one_chunk-IsList (record { held = refl; full = refl }) (omega arith)

realloc-overran_example : realloc (some 200) stale 7 9 148 1 one_chunk ≡ overran
realloc-overran_example =
    realloc-overran 200 100 stale 7 9 1 two_bytes [] [] one_chunk unused_200 (omega arith)
      one_chunk-IsList (record { held = refl; full = refl }) (omega arith)
