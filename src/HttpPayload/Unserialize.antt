-- ===== src/HttpPayload/Unserialize.antt =====
-- `f_http_payload_unserialize`: the parser of a message, from the bytes that a buffer has so far. The steps run on
-- the bytes of a buffer that a zero follows; `unserialize` tests for it. `memory` says whether an allocation
-- succeeds, from the number of the call in its step and the offset in the buffer.
pub mod Blocks
pub mod Progress
use coremio.Prelude.{
  ℕ, zero, suc, ◌+◌, ◌-◌, ◌^◌, Bool, true, false, not, ◌&&◌, ◌||◌, Option, none, some, List, [],
  ◌∷◌, ◌++◌, map, ltb, leb, ◌==◌, if◌then◌else◌, Text, codes, c_string, find_before, length, take,
  drop, has,
}
use coremio.Dictionary.{Key, get_if_exists}
use coremio.HttpPayload.{
  Step, header_a, header_b, header_c, key_value, key_value_again, payload, completed, number,
  Payload, Library, method_from_keyword, is_undefined, set_header,
}

-- `d_http_sequence_new_line_characters`
abbrev pub new_line : Text
new_line = 13 ∷ 10 ∷ []

-- `d_http_sequence_skippable_prefix_characters`
abbrev pub is_skippable : ℕ → Bool
is_skippable c = has c (32 ∷ 9 ∷ 13 ∷ 10 ∷ [])

abbrev pub Allocations : Type 0
Allocations = ℕ → ℕ → Bool

-- the block, the offset after it, and `current_session_shift_size`, where `none` is -1
pub record Block : Type 0 where
  pub text : Option Text
  pub shift : ℕ
  pub session : Option ℕ

-- `p_http_payload_unserialize_block`; the flag says whether the allocation succeeds
unfoldable pub block : Bool → (raw needle : Text) → ℕ → Block
block memory raw needle shift =
    if ltb shift (length raw)
    then elim (find_before needle (c_string (drop shift raw))) [
      | none ↦ record { text = none; shift = shift; session = none }
      | some [] ↦ record {
        text = none;
        shift = shift + length needle;
        session = some (length needle);
      }
      | some (c ∷ cs) ↦
          if memory
          then record {
            text = some (c ∷ cs);
            shift = shift + length (c ∷ cs) + length needle;
            session = some (length (c ∷ cs) + length needle);
          }
          else record { text = none; shift = shift + length needle; session = some (length needle) }
    ]
    else record { text = none; shift = shift; session = none }

-- leading and trailing skippable characters off
unfoldable pub skip : Text → Text
skip [] = []
skip (c ∷ cs) = let rest = skip cs in if is_skippable c then rest else c ∷ cs

unfoldable pub strip : Text → Text
strip [] = []
strip (c ∷ cs) = elim (strip cs) [
  | [] ↦ if is_skippable c then [] else c ∷ []
  | d ∷ ds ↦ c ∷ d ∷ ds
]

-- the text behind the first `:`
unfoldable pub behind_colon : Text → Option Text
behind_colon [] = none
behind_colon (c ∷ cs) = let rest = behind_colon cs in if c == 58 then some cs else rest

-- `strncpy` of `n` bytes
unfoldable pub copied : ℕ → List ℕ → List ℕ
copied zero text = []
copied (suc n) [] = 0 ∷ copied n []
copied (suc n) (c ∷ cs) =
    let stopped = copied n [] in let rest = copied n cs in if c == 0 then 0 ∷ stopped else c ∷ rest

-- an `int` that is not positive counts as zero
abbrev pub positive : ℕ → ℕ
positive n = if ltb n (2 ^ 31) then n else 0

-- a step's result: the payload and the offset, `none` where a null pointer is used
abbrev pub Stepped : Type 0
Stepped = Option (Payload × ℕ)

module _ (library : Library) (memory : Allocations) where
  -- `e_http_sequence_step_A_header_block`
  unfoldable pub step_a : Payload → Text → ℕ → Stepped
  unfolding block
  step_a p raw shift =
      let b = block (memory 0 shift) raw (32 ∷ []) shift in
      elim b.text [
        | none ↦ some (p, b.shift)
        | some text ↦
            let kind = method_from_keyword text in
            some (
              (if is_undefined kind
                  then record p { enumerated_method = kind; version = some text; step = header_b }
                  else record p { enumerated_method = kind; method = some text; step = header_b }),
              b.shift,
            )
      ]

  -- whether the first `\r` of the buffer stands before the next space, at `next_space`
  unfoldable pub ends_early : Text → ℕ → Bool
  ends_early raw next_space = elim (find_before (13 ∷ []) (c_string raw)) [
    | none ↦ false
    | some lead ↦ ltb (length lead) next_space
  ]

  -- the second component of the start line, which ends at a new line if `early` and at a space otherwise
  unfoldable pub component_b : (early : Bool) → Payload → Text → ℕ → Stepped
  unfolding block
  component_b early p raw shift =
      let b = block (memory 0 shift) raw (if early then new_line else 32 ∷ []) shift in
      let next = if early then key_value else header_c in
      elim b.text [
        | none ↦ some (record p { premature = early }, b.shift)
        | some text ↦ some (
          (if is_undefined p.enumerated_method
              then (let code = library.atoi text in
                  record p {
                    premature = early;
                    step = next;
                    status_code = if leb 100 code && ltb code 600 then code else p.status_code;
                  })
              else record p { premature = early; step = next; path = some text }),
          b.shift,
        )
      ]

  -- `e_http_sequence_step_B_header_block`
  unfoldable pub step_b : Payload → Text → ℕ → Stepped
  unfolding component_b
  step_b p raw shift =
      if ltb shift (length raw)
      then elim (find_before (32 ∷ []) (c_string (drop shift raw))) [
        | none ↦ some (p, shift)
        | some spaced ↦ component_b (ends_early raw (shift + length spaced)) p raw shift
      ]
      else some (p, shift)

  -- `e_http_sequence_step_C_header_block`
  unfoldable pub step_c : Payload → Text → ℕ → Stepped
  unfolding block
  step_c p raw shift =
      let b = block (memory 0 shift) raw new_line shift in
      elim b.text [
        | none ↦ elim b.session [
          | none ↦ some (p, b.shift)
          | some n ↦ some (record p { premature = true; step = key_value }, b.shift)
        ]
        | some text ↦ some (
          (if is_undefined p.enumerated_method
              then record p { status_message = some text; step = key_value }
              else record p { version = some text; step = key_value }),
          b.shift,
        )
      ]

  -- a header line: the key before the `:`, and the value behind it
  unfoldable pub header_line : Payload → Text → ℕ → Option Payload
  unfolding skip strip behind_colon set_header
  header_line p line shift = elim (behind_colon line) [
    | none ↦ some p
    | some rest ↦ elim (find_before (58 ∷ []) line) [
      | none ↦ some p
      | some [] ↦ some p
      | some (k ∷ ks) ↦ elim (strip (skip rest)) [
        | [] ↦ some p
        | v ∷ vs ↦
            elim (set_header (memory 1 shift) (memory 2 shift) p.configuration
              (map library.tolower (k ∷ ks)) (v ∷ vs)) [
                | none ↦ none
                | some (d, true) ↦ some (record p { configuration = d; step = key_value_again })
                | some (d, false) ↦ some (record p { configuration = d })
              ]
      ]
    ]
  ]

  -- `e_http_sequence_step_key_value`
  unfoldable pub step_key_value : Payload → Text → ℕ → Stepped
  unfolding block header_line
  step_key_value p raw shift =
      let b = block (memory 0 shift) raw new_line shift in
      elim b.text [
        | none ↦ elim b.session [
          | none ↦ some (p, b.shift)
          | some n ↦ some (record p { step = payload }, b.shift)
        ]
        | some line ↦ elim (header_line p line shift) [ none ↦ none | some p' ↦ some (p', b.shift) ]
      ]

  -- the length of the body, from the headers
  unfoldable pub content_length : Payload → ℕ
  unfolding get_if_exists
  content_length p = elim (get_if_exists p.configuration (codes "content-length")) [
    | none ↦ 0
    | some e ↦ elim e.content [ none ↦ 0 | some value ↦ positive (library.atoi value) ]
  ]

  -- `e_http_sequence_step_payload`
  unfoldable pub step_payload : Payload → Text → ℕ → Stepped
  unfolding content_length copied
  step_payload p raw shift =
      let n = content_length p in
      if ltb 0 n
      then (if ltb shift (length raw) && (leb n (length raw - shift) && memory 3 shift)
          then some
              (record p { body = some (copied n (drop shift raw)); step = completed }, shift + n)
          else some (p, shift))
      else some (record p { step = completed }, shift)

  -- the `switch` of a round
  unfoldable pub round_at : Step → Payload → Text → ℕ → Stepped
  unfolding step_a step_b step_c step_key_value step_payload
  round_at header_a p raw shift = step_a p raw shift
  round_at header_b p raw shift = step_b p raw shift
  round_at header_c p raw shift = step_c p raw shift
  round_at key_value p raw shift = step_key_value p raw shift
  round_at key_value_again p raw shift = some (record p { step = key_value }, shift)
  round_at payload p raw shift = step_payload p raw shift
  round_at completed p raw shift = some (p, shift)

  unfoldable pub round : Payload → Text → ℕ → Stepped
  unfolding round_at
  round p raw shift = round_at p.step p raw shift

-- the end of a parse; `incomplete` is `SHIT_HTTP_PAYLOAD_INCOMPLETE`. `unended` is a buffer without a zero behind its
-- `buffer_size` bytes: a search of the parser may run on behind it, and what it then finds is not modelled
pub data Parse : Type 0 where
  parsed incomplete : Payload → ℕ → Parse
  faulted out_of_fuel unended : Parse

-- whether the byte behind the first `size` of a region of the memory is a zero
unfoldable pub is_terminated : ℕ → List ℕ → Bool
is_terminated zero [] = false
is_terminated zero (b ∷ bytes) = b == 0
is_terminated (suc size) [] = false
is_terminated (suc size) (b ∷ bytes) = is_terminated size bytes

abbrev pub ending : Payload → ℕ → Parse
ending p shift = if number p.step == 6 then parsed p shift else incomplete p shift

module _ (library : Library) (memory : Allocations) where
  -- the loop
  unfoldable pub rounds : ℕ → Payload → Text → ℕ → Parse
  unfolding round
  rounds zero p raw shift = out_of_fuel
  rounds (suc k) p raw shift = elim (round library memory p raw shift) [
    | none ↦ faulted
    | some (p', shift') ↦ elim (number p'.step == number p.step || number p'.step == 6) [
      | true ↦ ending p' shift'
      | false ↦ rounds k p' raw shift'
    ]
  ]

  -- `f_http_payload_unserialize`, on the region of the memory that starts with the buffer
  unfoldable pub unserialize : ℕ → Payload → (region : List ℕ) → (buffer_size shift : ℕ) → Parse
  unfolding rounds is_terminated
  unserialize fuel p region buffer_size shift =
      if ltb (number p.step) 6 && ltb shift buffer_size
      then (if is_terminated buffer_size region
          then rounds fuel p (take buffer_size region) shift
          else unended)
      else ending p shift
