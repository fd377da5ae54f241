-- ===== src/GrowingArray.antt =====
-- The array that grows by buckets: src/array.c, include/coremio/array.h. Before its nodes the block of
-- an array holds three words, `d_array_bucket`, `d_array_size` and `d_array_node_size`; the bytes
-- behind them are a list. The sizes are words of 64 bits.
pub mod Growth
mod Examples
use coremio.Prelude.{
  ℕ, zero, suc, ◌+◌, ◌-◌, ◌*◌, ◌/◌, ◌%◌, Bool, true, false, Option, none, some, List, [], ◌∷◌, ◌++◌,
  ltb, leb, ◌==◌, ◌||◌, if◌then◌else◌, size_mod, length,
}

pub record GrowingArray : Type 0 where
  pub bucket : ℕ
  pub size : ℕ
  pub node_size : ℕ
  pub bytes : List ℕ

-- `sizeof(size_t) * 3`
abbrev pub header_size : ℕ
header_size = 24

-- `divided` is a division by zero, `overran` a write behind the end of a block
pub data Access : Type 0 where
  accessed : Option GrowingArray → Access
  divided overran : Access

-- `memset` with 0 of the bytes from `offset` on
unfoldable pub clear : ℕ → List ℕ → List ℕ
clear offset [] = []
clear zero (b ∷ bytes) = 0 ∷ clear zero bytes
clear (suc offset) (b ∷ bytes) = b ∷ clear offset bytes

-- the first `n` bytes of what a new block holds
unfoldable pub fresh : (ℕ → ℕ) → ℕ → List ℕ
fresh garbage zero = []
fresh garbage (suc n) = garbage 0 ∷ fresh (λ i. garbage (suc i)) n

-- the size of a block of nodes with its three words
unfoldable pub block_size : (node_size nodes : ℕ) → ℕ
block_size node_size nodes = (node_size * nodes % size_mod + header_size) % size_mod

-- `f_array_malloc`; the flag says whether the allocation succeeds
unfoldable pub malloc : Bool → (ℕ → ℕ) → (bucket node_size : ℕ) → Access
unfolding fresh clear block_size
malloc memory garbage bucket node_size =
    let initial_size = block_size node_size bucket in
    if memory
    then (if ltb initial_size header_size
        then overran
        else accessed (
            some (record {
              bucket = bucket;
              size = bucket;
              node_size = node_size;
              bytes = clear 0 (fresh garbage (initial_size - header_size));
            })))
    else accessed none

-- `d_realloc`, which copies the old block, whole, into a new one, and the `memset` of the rest
unfoldable pub resize : (ℕ → ℕ) → GrowingArray → (final_nodes final_size current_size : ℕ) → Access
unfolding fresh clear
resize garbage a final_nodes final_size current_size =
    let old_size = length a.bytes + header_size in
    if ltb final_size old_size || (ltb final_size current_size || ltb current_size header_size)
    then overran
    else accessed (
        some (record a {
          size = final_nodes;
          bytes =
              clear (current_size - header_size) (a.bytes ++ fresh garbage (final_size - old_size));
        }))

-- the growth in `f_array_validate_access`; the flag says whether the allocation succeeds
unfoldable pub grow : Bool → (ℕ → ℕ) → GrowingArray → ℕ → Access
unfolding resize block_size
grow memory garbage a index =
    let final_nodes = (index / a.bucket + 1) * a.bucket % size_mod in
    if a.bucket == 0
    then divided
    else if memory
    then resize garbage a final_nodes (block_size a.node_size final_nodes)
        (block_size a.node_size a.size)
    else accessed (some a)

-- `f_array_validate_access`; `none` is the null pointer
unfoldable pub validate_access : Bool → (ℕ → ℕ) → Option GrowingArray → ℕ → Access
unfolding grow
validate_access memory garbage none index = accessed none
validate_access memory garbage (some a) index =
    if leb a.size index then grow memory garbage a index else accessed (some a)
