-- ===== src/HttpPayload/Transfer.antt =====
-- `f_http_payload_read` and `f_http_payload_write`: a message from a socket and to a socket. The functions
-- `f_read` and `f_write` are arguments, as in the source.
pub mod Safety
use coremio.Prelude.{
  ℕ, zero, suc, ◌+◌, ◌-◌, ◌*◌, Bool, true, false, Option, none, some, List, [], ◌∷◌, ◌++◌,
  if◌then◌else◌, ltb, leb, ◌==◌, Text, length, take, drop,
}
use coremio.GrowingArray.{fresh}
use coremio.HttpPayload.{Payload, Library, number}
use coremio.HttpPayload.Unserialize.{
  Allocations, parsed, incomplete, faulted, out_of_fuel, unended, unserialize,
}
use coremio.HttpPayload.Serialize.{serialized, no_memory, broken, serialize}

-- `d_http_payload_buffer_minimum_space_before_increment`
abbrev pub minimum_space : ℕ
minimum_space = 32

-- `d_http_payload_buffer_size`
abbrev pub increment_size : ℕ
increment_size = 256

-- what `f_read` does when it is asked for a number of bytes: the bytes it writes, or `none` when it fails
abbrev pub Answer : Type 0
Answer = ℕ → Option (List ℕ)

-- the message, the buffer, whose length is `*buffer_size` and where `none` is a null pointer, and the sizes
-- `*payload_size` and `*shift_unserialized_payload_size`
pub record Reading : Type 0 where
  pub payload : Payload
  pub buffer : Option (List ℕ)
  pub payload_size : ℕ
  pub shift : ℕ

-- the end of `f_http_payload_read`: the message is complete; `f_read` failed; `SHIT_NO_MEMORY`;
-- `SHIT_NOT_INITIALIZED`; or it still waits for `f_read`. `unterminated` is a parse of a buffer that no zero
-- ends, `overran` a write behind the buffer, and `crashed` an end that the parser does not have
pub data Transfer : Type 0 where
  complete failed without_memory not_initialized waiting : Reading → Transfer
  unterminated overran crashed : Transfer

-- the bytes of a buffer
abbrev pub bytes_of : Option (List ℕ) → List ℕ
bytes_of none = []
bytes_of (some bytes) = bytes

-- `memset` with 0 of `n` bytes from `offset` on; `none` is a write behind the end
unfoldable pub zero_from : (offset n : ℕ) → List ℕ → Option (List ℕ)
zero_from zero zero bytes = some bytes
zero_from zero (suc n) [] = none
zero_from zero (suc n) (b ∷ bytes) = elim (zero_from zero n bytes) [
  | none ↦ none
  | some rest ↦ some (0 ∷ rest)
]
zero_from (suc offset) n [] = none
zero_from (suc offset) n (b ∷ bytes) = elim (zero_from offset n bytes) [
  | none ↦ none
  | some rest ↦ some (b ∷ rest)
]

-- the write of some bytes from `offset` on
unfoldable pub write_from : (offset : ℕ) → (written bytes : List ℕ) → Option (List ℕ)
write_from zero [] bytes = some bytes
write_from zero (w ∷ written) [] = none
write_from zero (w ∷ written) (b ∷ bytes) = elim (write_from zero written bytes) [
  | none ↦ none
  | some rest ↦ some (w ∷ rest)
]
write_from (suc offset) written [] = none
write_from (suc offset) written (b ∷ bytes) = elim (write_from offset written bytes) [
  | none ↦ none
  | some rest ↦ some (b ∷ rest)
]

-- the space that is cleared when the buffer grows, before the increment
abbrev pub residual_space : Option (List ℕ) → ℕ → ℕ
residual_space none size = 0
residual_space (some bytes) size = length bytes - size

-- whether the buffer has to grow
abbrev pub needs_space : Option (List ℕ) → ℕ → Bool
needs_space none size = true
needs_space (some bytes) size = ltb (length bytes - size) minimum_space

-- `d_realloc` of the buffer, and the `memset`
unfoldable pub grown : (ℕ → ℕ) → Option (List ℕ) → ℕ → Option (List ℕ)
unfolding fresh zero_from
grown garbage buffer size =
    zero_from size (residual_space buffer size + increment_size)
      (bytes_of buffer ++ fresh garbage increment_size)

-- the bytes that are parsed are dropped, and as many zeros are added behind
unfoldable pub shifted : Reading → List ℕ → ℕ → Payload → Reading
unfolding fresh
shifted r bytes shift p = record {
  payload = p;
  buffer = some (drop shift bytes ++ fresh (λ _. 0) shift);
  payload_size = r.payload_size - shift;
  shift = 0;
}

-- the end of a round after the parse
unfoldable pub verdict : Reading → Transfer
verdict r = if number r.payload.step == 6 then complete r else waiting r

module _ (library : Library) (memory : Allocations) (garbage : ℕ → ℕ) where
  -- the parse of what the buffer has, and the end of the round
  unfoldable pub parse : Reading → List ℕ → Transfer
  unfolding unserialize shifted verdict
  parse r bytes =
      elim (unserialize library memory (8 * r.payload_size + 7) r.payload bytes r.payload_size
        r.shift) [
          | parsed p shift ↦ verdict (shifted r bytes shift p)
          | incomplete p shift ↦ verdict (shifted r bytes shift p)
          | unended ↦ unterminated
          | faulted ↦ crashed
          | out_of_fuel ↦ crashed
        ]

  -- a round of the loop, with the buffer large enough
  unfoldable pub receive : Answer → Reading → List ℕ → Transfer
  unfolding write_from parse
  receive answer r bytes = elim (answer (length bytes - r.payload_size - 1)) [
    | none ↦ failed r
    | some read ↦ elim (write_from r.payload_size read bytes) [
      | none ↦ overran
      | some filled ↦ parse (record r { payload_size = r.payload_size + length read }) filled
    ]
  ]

  -- a round of the loop; the flag says whether the buffer can grow
  unfoldable pub read_round : Bool → Answer → Reading → Transfer
  unfolding receive grown
  read_round can_grow answer r =
      if leb r.payload_size (length (bytes_of r.buffer))
      then (if needs_space r.buffer r.payload_size
          then (if can_grow
              then elim (grown garbage r.buffer r.payload_size) [
                | none ↦ overran
                | some bytes ↦ receive answer (record r { buffer = some bytes }) bytes
              ]
              else without_memory r)
          else receive answer r (bytes_of r.buffer))
      else not_initialized r

  -- `f_http_payload_read`, on the answers of `f_read` so far, each with the flag of its round
  unfoldable pub read : List (Bool × Answer) → Reading → Transfer
  unfolding read_round
  read [] r = waiting r
  read ((can_grow, answer) ∷ answers) r = elim (read_round can_grow answer r) [
    | waiting r' ↦ read answers r'
    | complete r' ↦ complete r'
    | failed r' ↦ failed r'
    | without_memory r' ↦ without_memory r'
    | not_initialized r' ↦ not_initialized r'
    | unterminated ↦ unterminated
    | overran ↦ overran
    | crashed ↦ crashed
  ]

-- the end of `f_http_payload_write`: `NOICE`, `SHIT_HTTP_PAYLOAD_INCOMPLETE`, `SHIT_NO_MEMORY`, or a result of `f_write`
pub data Sent (R : Type 0) : Type 0 where
  sent not_all_sent no_message broken_message : Sent R
  not_sent : R → Sent R

module _ {R : Type 0} (is_noice : R → Bool) where
  -- `f_http_payload_write`; `f_write` gives its result and how many bytes it wrote
  unfoldable pub write : (Text → R × ℕ) → Library → Bool → (ℕ → Bool) → Payload → Sent R
  unfolding serialize
  write f_write library first memory p = elim (serialize library first memory p) [
    | serialized raw ↦
        let (result, written) = f_write raw in
        if is_noice result
        then (if written == length raw then sent else not_all_sent)
        else not_sent result
    | no_memory ↦ no_message
    | broken ↦ broken_message
  ]
