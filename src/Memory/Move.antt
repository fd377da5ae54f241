-- ===== src/Memory/Move.antt =====
-- Reallocation: a new chunk, with the bytes of the old one, which is freed.
use coremio.Prelude.{
  ℕ, ◌+◌, ◌-◌, ◌<◌, ◌≤◌, ◌≡◌, ◌≢◌, refl, sym, ap, ◌∙◌, true, false, none, some, List, [], ◌∷◌, ◌++◌,
  ltb, ◌==◌, if◌then◌else◌, size_mod, length, has, has-append, drop, arith,
}
use coremio.LinkedList.Heap.{Ptr, null}
use coremio.LinkedList.Chain.{IsList}
use coremio.Memory.{
  Chunk, Memory, Outcome, ok, fault, aborted, overran, memory_chunks, node_bytes, and_then,
  set_chunk, malloc, free, copy, size_of, realloc,
}
use coremio.Memory.Track.{
  Yields, and_then-Yields, IsFree, free-outside, Allocated, malloc-Allocated, free-Freed, ==_refl,
}

-- a chunk of as many bytes as it says
pub record Holds (m : Memory) (p : Ptr) (c : Chunk) : Type 0 where
  pub held : m.chunk p ≡ some c
  pub full : length c.bytes ≡ c.size

-- the chunk at `p` moved to `x`, in front of the list
pub record Moved (x p : Ptr) (old : Chunk) (before behind : List Ptr) (file : Ptr) (line size : ℕ)
    (pointer : Ptr) (m' : Memory) : Type 0 where
  pub returned : pointer ≡ x + node_bytes
  pub tracked : IsList m'.nodes memory_chunks (x ∷ (before ++ behind))
  pub added : List ℕ
  pub new :
      m'.chunk x
      ≡ some (record { file = file; line = line; size = size; bytes = old.bytes ++ added })
  pub full : length (old.bytes ++ added) ≡ size
  pub gone : IsFree m' p
  pub no_chunk : m'.chunk p ≡ none

copy-ok :
    (m : Memory) (p x : Ptr) (old new : Chunk) (n : ℕ)
    → m.chunk p ≡ some old
    → m.chunk x ≡ some new
    → n ≤ length new.bytes
    → copy p x n m
      ≡ ok tt (record m {
        chunk = set_chunk x (some (record new { bytes = old.bytes ++ drop n new.bytes })) m.chunk;
      })
unfolding copy
copy-ok m p x old new n h i fits = rw (h, i, enough n (length new.bytes) fits, copy) refl
  where
    enough : (n k : ℕ) → n ≤ k → ltb k n ≡ false
    enough n k h = ground arith

copy-overran :
    (m : Memory) (p x : Ptr) (old new : Chunk) (n : ℕ)
    → m.chunk p ≡ some old
    → m.chunk x ≡ some new
    → length new.bytes < n
    → copy p x n m ≡ overran
unfolding copy
copy-overran m p x old new n h i few = rw (h, i, short n (length new.bytes) few, copy) refl
  where
    short : (n k : ℕ) → k < n → ltb k n ≡ true
    short n k h = ground arith

size_of-ok : (m : Memory) (p : Ptr) (c : Chunk) → m.chunk p ≡ some c → size_of p m ≡ ok c.size m
unfolding size_of
size_of-ok m p c h = rw (h, size_of) refl

length-copied :
    (xs ys : List ℕ) → length xs ≤ length ys → length (xs ++ drop (length xs) ys) ≡ length ys
length-copied [] ys h = refl
length-copied (x ∷ xs) [] h = absurd (omega (arith, h))
length-copied (x ∷ xs) (y ∷ ys) h = ground (arith, length-copied xs ys)

not_null : (n : ℕ) → n + 48 == 0 ≡ false
not_null n = ground arith

cancelled : (n : ℕ) → n + 48 - 48 ≡ n
cancelled n = omega arith

module _ (x p : Ptr) (garbage : ℕ → ℕ) (file : Ptr) (line size : ℕ) (old : Chunk)
    (before behind : List Ptr) where
  -- what follows the allocation
  after : Ptr → Memory → Outcome Ptr
  after new_pointer m =
      if new_pointer == null
      then ok null m
      else if p + node_bytes == null
      then ok new_pointer m
      else and_then (size_of (p + node_bytes - node_bytes) m) λ old_size m.
        and_then (copy (p + node_bytes - node_bytes) (new_pointer - node_bytes) old_size m)
          λ _ m. and_then (free (p + node_bytes) m) λ _ m. ok new_pointer m

  copied : Memory → Chunk → Memory
  copied m new = record m {
    chunk =
        set_chunk x (some (record new { bytes = old.bytes ++ drop old.size new.bytes })) m.chunk;
  }

  differs : (m : Memory) → IsFree m x → IsList m.nodes memory_chunks (before ++ p ∷ behind) → x ≢ p
  differs m free is e = absurd (
      clash x p
        (free-outside m.nodes memory_chunks null (before ++ p ∷ behind) null x free.1 is.chain) e)
    where
      clash : (x p : Ptr) → has x (before ++ p ∷ behind) ≡ false → x ≢ p
      clash x p h e = ground (arith, has-append x before (p ∷ behind))

  -- With an answer of the allocator that holds no node, and where the new chunk and its node
  -- fit in a word, reallocating a tracked chunk to at least its size gives a new chunk in
  -- front of the list, with the old bytes first, and frees the old one.
  pub realloc-Moved :
      (m : Memory)
      → IsFree m x
      → node_bytes + size < size_mod
      → IsList m.nodes memory_chunks (before ++ p ∷ behind)
      → Holds m p old
      → old.size ≤ size
      → Yields
          (Moved x p old before behind file line size)
          (realloc (some x) garbage file line (p + node_bytes) size m)
  unfolding realloc after copied
  realloc-Moved m unused fits is holds grows =
      and_then-Yields _ _ (malloc (some x) garbage file line size m) after
        (malloc-Allocated m x garbage file line size (before ++ p ∷ behind) unused fits is)
        λ pointer m' a.
          let kept : m'.chunk p ≡ some old =
            a.chunks_kept p (λ e. differs m unused is (sym e)) ∙ holds.held in
          let new : Chunk = record { file = file; line = line; size = size; bytes = a.bytes } in
          let large : length old.bytes ≤ length a.bytes =
            omega (arith, holds.full, a.full, grows) in
          let m2 : Memory = copied m' new in
          rw
            (
              a.returned,
              not_null x,
              not_null p,
              cancelled p,
              cancelled x,
              size_of-ok m' p old kept,
              copy-ok m' p x old new old.size kept a.new (omega (arith, a.full, grows)),
            )
            (and_then-Yields _ _ (free (p + node_bytes) m2) (λ _ m. ok (x + node_bytes) m)
              (free-Freed m2 p (x ∷ before) behind a.tracked)
              λ _ m3 f. record {
                returned = refl;
                tracked = f.tracked;
                added = drop old.size a.bytes;
                new = f.chunks_kept x (differs m unused is) ∙ (rw (==_refl x) refl);
                full =
                    ap (λ n. length (old.bytes ++ drop n a.bytes)) (sym holds.full)
                    ∙ length-copied old.bytes a.bytes large
                    ∙ a.full;
                gone = f.gone;
                no_chunk = f.no_chunk;
              })

  -- With an answer of the allocator that holds no node, and where the new chunk and its node
  -- fit in a word, reallocating a tracked chunk to less than its size writes behind the new
  -- block.
  pub realloc-overran :
      (m : Memory)
      → IsFree m x
      → node_bytes + size < size_mod
      → IsList m.nodes memory_chunks (before ++ p ∷ behind)
      → Holds m p old
      → size < old.size
      → realloc (some x) garbage file line (p + node_bytes) size m ≡ overran
  unfolding realloc after
  realloc-overran m unused fits is holds shrinks =
      overran_of (malloc (some x) garbage file line size m)
        (malloc-Allocated m x garbage file line size (before ++ p ∷ behind) unused fits is)
    where
      overran_of :
          (r : Outcome Ptr)
          → Yields (Allocated m x (before ++ p ∷ behind) file line size) r
          → and_then r after ≡ overran
      overran_of (ok pointer m') a =
          let kept : m'.chunk p ≡ some old =
            a.chunks_kept p (λ e. differs m unused is (sym e)) ∙ holds.held in
          let new : Chunk = record { file = file; line = line; size = size; bytes = a.bytes } in
          rw
            (
              a.returned,
              not_null x,
              not_null p,
              cancelled p,
              cancelled x,
              size_of-ok m' p old kept,
              copy-overran m' p x old new old.size kept a.new (omega (arith, a.full, shrinks)),
            )
            refl
      overran_of fault a = absurd a
      overran_of aborted a = absurd a
      overran_of overran a = absurd a
