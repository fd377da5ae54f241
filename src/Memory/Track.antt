-- ===== src/Memory/Track.antt =====
-- The list of the chunks holds those that are in use.
use native.Mathlib.Nat.{mod-eq_of_lt}
use coremio.Prelude.{
  ℕ, zero, suc, ◌+◌, ◌-◌, ◌<◌, ◌≡◌, ◌≢◌, refl, sym, ap, ◌∙◌, true, false, Option, none, some, List,
  ◌∷◌, ◌++◌, ltb, ◌==◌, ==_iff, if◌then◌else◌, size_mod, length, has, not-has-of_append, arith,
  Bool-cases, inl, inr,
}
use coremio.LinkedList.{append, remove, insert_head}
use coremio.LinkedList.Heap.{Ptr, null, Node, node_of, Store, Run, set_node, Ensures, Keeps}
use coremio.LinkedList.Heap
use coremio.LinkedList.Chain.{Seg, IsList, has-Seg, frame-Seg}
use coremio.LinkedList.Append.{append_head-cons}
use coremio.LinkedList.Remove.{remove-append}
use coremio.Memory.{
  Memory, Outcome, ok, fault, aborted, overran, memory_chunks, node_bytes, and_then, on_list, block,
  malloc, free,
}

-- a run that does not fault, abort or write behind a block, and after which `P` holds
abbrev pub Yields : {A : Type 0} → (A → Memory → Type 0) → Outcome A → Type 0
Yields P (ok a m) = P a m
Yields P _ = ⊥

pub on_list-Yields :
    {A B : Type 0} (P : A → Store → Type 0) (Q : B → Memory → Type 0) (r : Run A)
    (k : A → Store → Outcome B)
    → Ensures P r
    → ((a : A) (s : Store) → P a s → Yields Q (k a s))
    → Yields Q (on_list r k)
on_list-Yields P Q (Heap.ok a s) k p next = next a s p
on_list-Yields P Q Heap.fault k p next = absurd p
on_list-Yields P Q Heap.aborted k p next = absurd p
on_list-Yields P Q Heap.out_of_fuel k p next = absurd p

pub and_then-Yields :
    {A B : Type 0} (P : A → Memory → Type 0) (Q : B → Memory → Type 0) (r : Outcome A)
    (k : A → Memory → Outcome B)
    → Yields P r
    → ((a : A) (m : Memory) → P a m → Yields Q (k a m))
    → Yields Q (and_then r k)
and_then-Yields P Q (ok a m) k p next = next a m p
and_then-Yields P Q fault k p next = absurd p
and_then-Yields P Q aborted k p next = absurd p
and_then-Yields P Q overran k p next = absurd p

-- an address that holds no node: what `malloc` answers
abbrev pub IsFree : Memory → Ptr → Type 0
IsFree m x = (x ≢ null) × (m.nodes.node x ≡ none)

pub free-outside :
    (s : Store) (l prev : Ptr) (xs : List Ptr) (after x : Ptr)
    → s.node x ≡ none
    → Seg s l prev xs after
    → has x xs ≡ false
free-outside s l prev xs after x f c = elim (Bool-cases (has x xs)) [
  | inl h ↦ let (nz, n, e, o) = has-Seg s l prev xs after x c h in absurd (some≢none n (sym e ∙ f))
  | inr h ↦ h
]
  where
    some≢none : (n : Node) → some n ≢ none
    some≢none n = ground arith

set_node-IsList :
    (s : Store) (l : Ptr) (xs : List Ptr) (x : Ptr) (n : Node)
    → s.node x ≡ none
    → IsList s l xs
    → IsList (set_node x n s) l xs
set_node-IsList s l xs x n f is = record {
  not_null = is.not_null;
  header = is.header;
  chain =
      frame-Seg s (set_node x n s) l null xs null
        (λ a h. same a (free-outside s l null xs null x f is.chain) h) is.chain;
}
  where
    same : (a : Ptr) → has x xs ≡ false → has a xs ≡ true → (set_node x n s).node a ≡ s.node a
    same a out h = elim (Bool-cases (a == x)) [
      | inl e ↦ absurd (true≢false (sym h ∙ ap (λ b. has b xs) ((==_iff a x).0 e) ∙ out))
      | inr e ↦ rw e refl
    ]
      where
        true≢false : true ≢ false
        true≢false = ground arith

length-block : (garbage : ℕ → ℕ) (n : ℕ) → length (block garbage n) ≡ n
unfolding block
length-block garbage zero = refl
length-block garbage (suc n) = ap suc (length-block (λ i. garbage (suc i)) n)

-- a new chunk at `x`, in front of the list, and nothing else written
pub record Allocated (m : Memory) (x : Ptr) (xs : List Ptr) (file : Ptr) (line size : ℕ)
    (pointer : Ptr) (m' : Memory) : Type 0 where
  pub returned : pointer ≡ x + node_bytes
  pub tracked : IsList m'.nodes memory_chunks (x ∷ xs)
  pub bytes : List ℕ
  pub new : m'.chunk x ≡ some (record { file = file; line = line; size = size; bytes = bytes })
  pub full : length bytes ≡ size
  pub chunks_kept : (a : Ptr) → a ≢ x → m'.chunk a ≡ m.chunk a
  pub nodes_kept : (a : Ptr) → has a (x ∷ xs) ≡ false → m'.nodes.node a ≡ m.nodes.node a

pub ==_refl : (n : ℕ) → n == n ≡ true
==_refl n = ground arith

pub not_== : (a b : ℕ) → a ≢ b → a == b ≡ false
not_== a b h = ground arith

-- With an answer of `malloc` that holds no node, and where the chunk and its node fit in a word, an allocation
-- returns the address behind a new node in front of the list, with as many bytes as asked for.
pub malloc-Allocated :
    (m : Memory) (x : Ptr) (garbage : ℕ → ℕ) (file : Ptr) (line size : ℕ) (xs : List Ptr)
    → IsFree m x
    → node_bytes + size < size_mod
    → IsList m.nodes memory_chunks xs
    → Yields (Allocated m x xs file line size) (malloc (some x) garbage file line size m)
unfolding malloc
malloc-Allocated m x garbage file line size xs free fits is =
    rw (mod-eq_of_lt {n = node_bytes + size} {m = size_mod} fits, room size, rest size)
      (on_list-Yields _ _ (append memory_chunks x insert_head s) _
        (append_head-cons s memory_chunks x (free.0, rw (==_refl x) refl) xs
          (set_node-IsList m.nodes memory_chunks xs x (node_of null null null) free.1 is))
        λ _ s' (tracked, keeps). record {
          returned = refl;
          tracked = tracked;
          bytes = block garbage size;
          new = rw (==_refl x) refl;
          full = length-block garbage size;
          chunks_kept = λ a h. rw (not_== a x h) refl;
          nodes_kept = λ a h. keeps.nodes a h ∙ (rw (apart a h) refl);
        })
  where
    s : Store
    s = set_node x (node_of null null null) m.nodes

    room : (n : ℕ) → ltb (48 + n) 48 ≡ false
    room n = ground arith

    rest : (n : ℕ) → 48 + n - 48 ≡ n
    rest n = omega arith

    apart : (a : Ptr) → has a (x ∷ xs) ≡ false → a == x ≡ false
    apart a h = ground arith

-- the chunk at `x` off the list and gone, and nothing else written
pub record Freed (m : Memory) (x : Ptr) (before behind : List Ptr) (m' : Memory) : Type 0 where
  pub tracked : IsList m'.nodes memory_chunks (before ++ behind)
  pub gone : IsFree m' x
  pub no_chunk : m'.chunk x ≡ none
  pub chunks_kept : (a : Ptr) → a ≢ x → m'.chunk a ≡ m.chunk a
  pub nodes_kept :
      (a : Ptr) → has a (before ++ x ∷ behind) ≡ false → m'.nodes.node a ≡ m.nodes.node a

drop_node-IsList :
    (s : Store) (l : Ptr) (xs : List Ptr) (x : Ptr)
    → s.node x ≡ some (node_of null null null)
    → IsList s l xs
    → IsList (record s { node = λ a. if a == x then none else s.node a }) l xs
drop_node-IsList s l xs x detached is = record {
  not_null = is.not_null;
  header = is.header;
  chain =
      frame-Seg s (record s { node = λ a. if a == x then none else s.node a }) l null xs null same
        is.chain;
}
  where
    not_owned : (n : Node) → some n ≡ some (node_of null null null) → n.owner ≡ l → l ≢ null → ⊥
    not_owned n e o h = h (sym o ∙ ap owner_of e)
      where
        owner_of : Option Node → Ptr
        owner_of none = null
        owner_of (some k) = k.owner

    same : (a : Ptr) → has a xs ≡ true → (if a == x then none else s.node a) ≡ s.node a
    same a h = elim (Bool-cases (a == x)) [
      | inl e ↦
          let (nz, n, held, owned) = has-Seg s l null xs null a is.chain h in
          absurd (
            not_owned n (sym held ∙ ap (λ b. s.node b) ((==_iff a x).0 e) ∙ detached) owned
              is.not_null)
      | inr e ↦ rw e refl
    ]

-- Freeing a chunk takes its node out of the list, keeps the order of the others, and gives up its address.
pub free-Freed :
    (m : Memory) (x : Ptr) (before behind : List Ptr)
    → IsList m.nodes memory_chunks (before ++ x ∷ behind)
    → Yields (λ _ m'. Freed m x before behind m') (free (x + node_bytes) m)
unfolding free
free-Freed m x before behind is =
    rw (not_null x, cancelled x)
      (on_list-Yields _ _ (remove memory_chunks x m.nodes) _
        (remove-append m.nodes memory_chunks x before behind is)
        λ y s (e, tracked, detached, keeps). rw e (record {
          tracked = drop_node-IsList s memory_chunks (before ++ behind) x detached.1 tracked;
          gone = (detached.0, rw (==_refl x) refl);
          no_chunk = rw (==_refl x) refl;
          chunks_kept = λ a h. rw (not_== a x h) refl;
          nodes_kept = λ a h. rw (not_in a h) (keeps.nodes a h);
        }))
  where
    not_null : (n : ℕ) → n + 48 == 0 ≡ false
    not_null n = ground arith

    cancelled : (n : ℕ) → n + 48 - 48 ≡ n
    cancelled n = omega arith

    not_in : (a : Ptr) → has a (before ++ x ∷ behind) ≡ false → a == x ≡ false
    not_in a h = ground (arith, not-has-of_append a before (x ∷ behind) h)
