-- ===== src/GrowingArray/Growth.antt =====
-- An access makes room for its index, keeps the bytes and clears the new ones.
use native.Mathlib.Nat.{lt-mul-div-succ, mul_comm, mul-le-mul_left, mod-eq_of_lt}
use coremio.Prelude.{
  ℕ, zero, suc, ◌+◌, ◌-◌, ◌*◌, ◌/◌, ◌<◌, ◌≤◌, ◌≡◌, refl, sym, ap, true, false, some, List, [], ◌∷◌,
  ◌++◌, ltb, leb, ◌==◌, ◌||◌, size_mod, length, arith, Bool-cases, inl, inr, append-nil,
}
use coremio.GrowingArray.{
  GrowingArray, accessed, header_size, clear, fresh, block_size, resize, malloc, grow,
  validate_access,
}

unfoldable pub zeros : ℕ → List ℕ
zeros zero = []
zeros (suc n) = 0 ∷ zeros n

length-zeros : (n : ℕ) → length (zeros n) ≡ n
unfolding zeros
length-zeros zero = refl
length-zeros (suc n) = ap suc (length-zeros n)

clear-fresh : (garbage : ℕ → ℕ) (n : ℕ) → clear 0 (fresh garbage n) ≡ zeros n
unfolding clear fresh zeros
clear-fresh garbage zero = refl
clear-fresh garbage (suc n) = ap (λ bs. 0 ∷ bs) (clear-fresh (λ i. garbage (suc i)) n)

clear-append :
    (bs : List ℕ) (garbage : ℕ → ℕ) (n : ℕ)
    → clear (length bs) (bs ++ fresh garbage n) ≡ bs ++ zeros n
unfolding clear
clear-append [] garbage n = clear-fresh garbage n
clear-append (b ∷ bs) garbage n = ap (λ cs. b ∷ cs) (clear-append bs garbage n)

length-append : (xs ys : List ℕ) → length (xs ++ ys) ≡ length xs + length ys
length-append [] ys = omega arith
length-append (x ∷ xs) ys = omega (arith, length-append xs ys)

-- what the operations keep: the nodes fill the block, and its size is a word
pub record WellFormed (a : GrowingArray) : Type 0 where
  pub positive : 0 < a.bucket
  pub filled : length a.bytes ≡ a.node_size * a.size
  pub fits : a.node_size * a.size + header_size < size_mod

-- the nodes after an access to an index that is out of range
unfoldable pub final_nodes : GrowingArray → ℕ → ℕ
final_nodes a index = (index / a.bucket + 1) * a.bucket

index-lt : (a : GrowingArray) (index : ℕ) → 0 < a.bucket → index < final_nodes a index
unfolding final_nodes
index-lt a index h = rw (mul_comm (index / a.bucket + 1) a.bucket) (lt-mul-div-succ index h)

room : (a : GrowingArray) (index : ℕ) → WellFormed a → a.size ≤ index → a.size ≤ final_nodes a index
room a index w out = omega (arith, index-lt a index w.positive, out)

block_size-wrapped :
    (node_size nodes : ℕ)
    → node_size * nodes + header_size < size_mod
    → block_size node_size nodes ≡ node_size * nodes + header_size
unfolding block_size
block_size-wrapped node_size nodes h =
    rw (mod-eq_of_lt {n = node_size * nodes} {m = size_mod} (omega (arith, h)))
      (mod-eq_of_lt {n = node_size * nodes + header_size} {m = size_mod} h)

resize-lem :
    (garbage : ℕ → ℕ) (a : GrowingArray) (nodes n : ℕ)
    → length a.bytes ≤ n
    → resize garbage a nodes (n + header_size) (length a.bytes + header_size)
      ≡ accessed (some (record a { size = nodes; bytes = a.bytes ++ zeros (n - length a.bytes) }))
unfolding resize
resize-lem garbage a nodes n h =
    rw
      (
        enough (length a.bytes) n h,
        difference n (length a.bytes),
        cancel (length a.bytes),
        clear-append a.bytes garbage (n - length a.bytes),
      )
      refl
  where
    enough :
        (b n : ℕ)
        → b ≤ n
        → ltb (n + 24) (b + 24) || (ltb (n + 24) (b + 24) || ltb (b + 24) 24) ≡ false
    enough b n h = ground arith

    difference : (n b : ℕ) → (n + 24) - (b + 24) ≡ n - b
    difference n b = omega arith

    cancel : (b : ℕ) → b + 24 - 24 ≡ b
    cancel b = omega arith

grow-lem :
    (garbage : ℕ → ℕ) (a : GrowingArray) (index : ℕ)
    → WellFormed a
    → a.size ≤ index
    → final_nodes a index < size_mod
    → a.node_size * final_nodes a index + header_size < size_mod
    → grow true garbage a index
      ≡ accessed (
          some (record a {
            size = final_nodes a index;
            bytes = a.bytes ++ zeros (a.node_size * final_nodes a index - length a.bytes);
          }))
unfolding grow final_nodes
grow-lem garbage a index w out few fit =
    let n = (index / a.bucket + 1) * a.bucket in
    rw
      (
        not_zero a.bucket w.positive,
        mod-eq_of_lt {n = n} {m = size_mod} few,
        block_size-wrapped a.node_size n fit,
        block_size-wrapped a.node_size a.size w.fits,
        sym w.filled,
      )
      (resize-lem garbage a n (a.node_size * n)
        (rw w.filled (mul-le-mul_left a.node_size (room a index w out))))
  where
    not_zero : (b : ℕ) → 0 < b → b == 0 ≡ false
    not_zero b h = ground arith

length-grown : (bs : List ℕ) (n : ℕ) → length bs ≤ n → length (bs ++ zeros (n - length bs)) ≡ n
length-grown bs n h =
    omega (arith, length-append bs (zeros (n - length bs)), length-zeros (n - length bs), h)

-- what an access to an index gives
pub record Reached (a : GrowingArray) (index : ℕ) (b : GrowingArray) : Type 0 where
  pub kept : WellFormed b
  pub in_range : index < b.size
  pub same_bucket : b.bucket ≡ a.bucket
  pub same_node_size : b.node_size ≡ a.node_size
  pub bytes_kept : b.bytes ≡ a.bytes ++ zeros (length b.bytes - length a.bytes)

-- A new array of one bucket or more that fits in a word has a size of one bucket, and all its bytes are zero.
malloc-WellFormed :
    (garbage : ℕ → ℕ) (bucket node_size : ℕ)
    → 0 < bucket
    → node_size * bucket + header_size < size_mod
    → (a : GrowingArray) × (malloc true garbage bucket node_size ≡ accessed (some a))
      × WellFormed a
      × (a.size ≡ bucket)
      × (a.bytes ≡ zeros (node_size * bucket))
unfolding malloc
malloc-WellFormed garbage bucket node_size h fit =
    let a : GrowingArray = record {
      bucket = bucket;
      size = bucket;
      node_size = node_size;
      bytes = zeros (node_size * bucket);
    } in
    (
      a,
      rw
          (
            block_size-wrapped node_size bucket fit,
            room_for (node_size * bucket),
            cancelled (node_size * bucket),
            clear-fresh garbage (node_size * bucket),
          )
          refl,
      record { positive = h; filled = length-zeros (node_size * bucket); fits = fit },
      refl,
      refl,
    )
  where
    room_for : (n : ℕ) → ltb (n + 24) 24 ≡ false
    room_for n = ground arith

    cancelled : (n : ℕ) → n + 24 - 24 ≡ n
    cancelled n = omega arith

-- With memory, and where the nodes up to the index fit in a word, an access to any index of a well-formed array,
-- whose bucket is one node or more, gives one in which the index is in range, with the old bytes followed by zeros.
pub validate_access-Reached :
    (garbage : ℕ → ℕ) (a : GrowingArray) (index : ℕ)
    → WellFormed a
    → final_nodes a index < size_mod
    → a.node_size * final_nodes a index + header_size < size_mod
    → (b : GrowingArray) × (validate_access true garbage (some a) index ≡ accessed (some b))
      × Reached a index b
unfolding validate_access zeros
validate_access-Reached garbage a index w few fit = elim (Bool-cases (leb a.size index)) [
  | inl out ↦
      let size_le : a.size ≤ index = leb→le a.size index out in
      let n = final_nodes a index in
      let b : GrowingArray = record a {
        size = n;
        bytes = a.bytes ++ zeros (a.node_size * n - length a.bytes);
      } in
      let grown : length b.bytes ≡ a.node_size * n =
        length-grown a.bytes (a.node_size * n)
          (rw w.filled (mul-le-mul_left a.node_size (room a index w size_le))) in
      (
        b,
        rw out (grow-lem garbage a index w size_le few fit),
        record {
          kept = record { positive = w.positive; filled = grown; fits = fit };
          in_range = index-lt a index w.positive;
          same_bucket = refl;
          same_node_size = refl;
          bytes_kept = rw grown refl;
        },
      )
  | inr here ↦ (
    a,
    rw here refl,
    record {
      kept = w;
      in_range = not_leb a.size index here;
      same_bucket = refl;
      same_node_size = refl;
      bytes_kept = rw (none_added (length a.bytes), zeros) (sym (append-nil a.bytes));
    },
  )
]
  where
    none_added : (n : ℕ) → n - n ≡ 0
    none_added n = omega arith

    leb→le : (m n : ℕ) → leb m n ≡ true → m ≤ n
    leb→le m n h = ground arith

    not_leb : (m n : ℕ) → leb m n ≡ false → n < m
    not_leb m n h = ground arith
