-- ===== src/HttpPayload/Serialize.antt =====
-- `f_http_payload_serialize`: the text of a message. `memory` says whether an allocation succeeds, from the
-- size of what is printed so far. `none` is the use of a null pointer, or a write behind the buffer.
pub mod Printed
use coremio.Prelude.{
  ℕ, zero, suc, ◌+◌, ◌-◌, Bool, true, false, ◌&&◌, ◌||◌, Option, none, some, List, [], ◌∷◌, ◌++◌,
  ltb, leb, ◌==◌, if◌then◌else◌, Text, codes, length, take,
}
use coremio.Dictionary.{Key, Entry, get_if_exists, foreach}
use coremio.HttpPayload.{Payload, Library, is_undefined}
use coremio.HttpPayload.Unserialize.{new_line, positive, content_length}

-- `s_http_serialize_payload_container`; the content size is the length of the text
pub record Container : Type 0 where
  pub text : Text
  pub buffer_size : ℕ

-- the end of `f_http_payload_serialize`
pub data Serialized : Type 0 where
  serialized : Text → Serialized
  no_memory broken : Serialized

-- a text, where a null pointer is empty
abbrev pub or_empty : Option Text → Text
or_empty none = []
or_empty (some text) = text

-- the bytes of the body as they are stored, with a zero behind them
abbrev pub stored : Option (List ℕ) → List ℕ
stored none = []
stored (some body) = body ++ 0 ∷ []

-- `memcpy` of the first bytes; `none` is a read behind the end
abbrev pub first_bytes : ℕ → List ℕ → Option (List ℕ)
first_bytes zero bytes = some []
first_bytes (suc n) [] = none
first_bytes (suc n) (b ∷ bytes) = elim (first_bytes n bytes) [
  | none ↦ none
  | some bs ↦ some (b ∷ bs)
]

-- `d_http_payload_buffer_size`
abbrev pub buffer_step : ℕ
buffer_step = 256

-- the loop that finds the space to add, until `needed` bytes fit
unfoldable pub additional : ℕ → (needed size : ℕ) → ℕ
additional zero needed size = 0
additional (suc k) needed size =
    let rest = additional k needed (size + buffer_step) in
    if ltb size needed then buffer_step + rest else 0

-- `snprintf` at the end of the text
unfoldable pub print : Text → Container → Option Container
print text c =
    if leb (length c.text + length text + 1) c.buffer_size
    then some (record c { text = c.text ++ text })
    else none

-- the line of a header
abbrev pub header_text : Key → Text → Text
header_text key value = key ++ 58 ∷ 32 ∷ (value ++ new_line)

-- `p_http_payload_serialize_headers`
unfoldable pub serialize_header :
    (ℕ → Bool) → Entry (Option Text) → Option Container → Option Container
unfolding print additional
serialize_header memory e none = none
serialize_header memory e (some c) = elim e.content [
  | none ↦ none
  | some value ↦
      let needed = length c.text + length (header_text e.key value) + 1 in
      let space = additional needed needed c.buffer_size in
      if ltb 0 space
      then (if memory (length c.text)
          then print (header_text e.key value) (record c { buffer_size = c.buffer_size + space })
          else some c)
      else print (header_text e.key value) c
]

-- the status code that is printed
abbrev pub printed_code : ℕ → ℕ
printed_code code = if leb 100 code && ltb code 600 then code else 0

module _ (library : Library) where
  -- the start line, of a request or of a response
  unfoldable pub start_line : Payload → Text
  start_line p =
      if is_undefined p.enumerated_method
      then or_empty p.version
        ++ 32
          ∷ (library.three_digits (printed_code p.status_code)
              ++ 32 ∷ (or_empty p.status_message ++ new_line))
      else or_empty p.method ++ 32 ∷ (or_empty p.path ++ 32 ∷ (or_empty p.version ++ new_line))

  -- the space for it
  unfoldable pub start_size : Payload → ℕ
  start_size p =
      if is_undefined p.enumerated_method
      then length (or_empty p.version)
        + 1
        + 3
        + 1
        + length (or_empty p.status_message)
        + length new_line
      else length (or_empty p.method)
        + 1
        + length (or_empty p.path)
        + 1
        + length (or_empty p.version)
        + length new_line

  -- the bytes of the body that the headers announce
  unfoldable pub payload_size : Payload → List ℕ → ℕ
  unfolding content_length
  payload_size p body =
      let n = content_length library (λ _ _. true) p in
      if ltb (length body) n then length body else n

  -- the headers, the empty line and the body, behind the start line
  unfoldable pub finish : (ℕ → Bool) → Payload → Option Container → Serialized
  unfolding print payload_size
  finish memory p none = broken
  finish memory p (some c) =
      let body = or_empty p.body in
      let n = payload_size p body in
      let end = length c.text + n + length new_line in
      let grown =
        if leb c.buffer_size end
        then record c { buffer_size = c.buffer_size + ((end + 1) - c.buffer_size) }
        else c in
      if leb c.buffer_size end && not_given (memory (length c.text))
      then no_memory
      else elim (first_bytes n (stored p.body)) [
        | none ↦ broken
        | some bytes ↦ elim (print (new_line ++ bytes) grown) [
          | none ↦ broken
          | some d ↦ serialized d.text
        ]
      ]
    where
      not_given : Bool → Bool
      not_given true = false
      not_given false = true

  -- `f_http_payload_serialize`; the flag says whether the first allocation succeeds
  unfoldable pub serialize : Bool → (ℕ → Bool) → Payload → Serialized
  unfolding finish serialize_header start_line start_size foreach
  serialize first memory p =
      let size = start_size p in
      if first
      then finish memory p (
          foreach p.configuration (some (serialize_header memory))
            (some (record { text = take size (start_line p); buffer_size = size + 1 })))
      else no_memory
