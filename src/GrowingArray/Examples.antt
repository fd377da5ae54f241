-- ===== src/GrowingArray/Examples.antt =====
-- An array of two-byte nodes in buckets of four: tests of src/array.c, and instances of the theorems on it.
use coremio.Prelude.{ℕ, ◌≡◌, refl, true, some, [], ◌∷◌, arith}
use coremio.GrowingArray.{
  GrowingArray, accessed, malloc, block_size, clear, fresh, resize, grow, validate_access,
}
use coremio.GrowingArray.Growth.{WellFormed, Reached, final_nodes, validate_access-Reached}

abbrev dirty : ℕ → ℕ
dirty i = 171

abbrev small : GrowingArray
small = record { bucket = 2; size = 2; node_size = 1; bytes = 5 ∷ 6 ∷ [] }

test_malloc : malloc true dirty 2 1 ≡ accessed (some (record small { bytes = 0 ∷ 0 ∷ [] }))
unfolding malloc block_size clear fresh
test_malloc = refl

test_grow :
    validate_access true dirty (some small) 2
    ≡ accessed (some (record small { size = 4; bytes = 5 ∷ 6 ∷ 0 ∷ 0 ∷ [] }))
unfolding validate_access grow resize block_size clear fresh
test_grow = refl

small-WellFormed : WellFormed small
small-WellFormed = record { positive = omega arith; filled = refl; fits = omega arith }

validate_access-Reached_example :
    (b : GrowingArray) × (validate_access true dirty (some small) 2 ≡ accessed (some b))
    × Reached small 2 b
unfolding final_nodes
validate_access-Reached_example =
    validate_access-Reached dirty small 2 small-WellFormed (omega arith) (omega arith)
