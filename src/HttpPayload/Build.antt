-- ===== src/HttpPayload/Build.antt =====
-- The calls that fill a message: `f_http_payload_set_request_starting_line` and those beside it. The flags say
-- whether an allocation succeeds.
pub mod Lookup
use coremio.Prelude.{
  ℕ, zero, suc, Bool, true, false, ◌&&◌, Option, none, some, List, [], ◌∷◌, if◌then◌else◌, Text,
  codes, length, map,
}
use coremio.RedBlackTree.{leaf}
use coremio.Dictionary.{Key, Entry, Dictionary, initialize, get_if_exists, get_or_create}
use coremio.HttpPayload.{
  Step, header_a, Method, undefined, get, head, options, trace, put, delete, post, patch, connect,
  keywords, is_undefined, Headers, Payload, Library, assign, set_header,
}

-- the end of a call: its payload and whether its result is `SHIT_NO_MEMORY`; `dangling` also, with a value that
-- points to a block that is freed, and `broken` is the use of a null pointer
pub data Built : Type 0 where
  built : Payload → Built
  no_memory : Payload → Built
  dangling : Payload → Built
  broken : Built

-- `f_http_payload_set_string`: what the place holds after it, and whether the result is `NOICE`
unfoldable pub set_string : Bool → Option Text → Option Text × Bool
set_string memory none = (none, true)
set_string memory (some text) = if memory then (some text, true) else (none, false)

-- the keyword of a method in `m_http_methods_keywords`
abbrev pub keyword_of : Method → Text
keyword_of undefined = []
keyword_of get = codes "GET"
keyword_of head = codes "HEAD"
keyword_of options = codes "OPTIONS"
keyword_of trace = codes "TRACE"
keyword_of put = codes "PUT"
keyword_of delete = codes "DELETE"
keyword_of post = codes "POST"
keyword_of patch = codes "PATCH"
keyword_of connect = codes "CONNECT"

-- `f_http_payload_set_request_starting_line`; `memory` is asked for the first, the second and the third text
unfoldable pub set_request_starting_line :
    (ℕ → Bool) → Payload → Method → Option Text → Option Text → Built
unfolding set_string
set_request_starting_line memory p method path version =
    if is_undefined method
    then built p
    else (let (m, m_ok) = set_string (memory 0) (some (keyword_of method)) in
        let (a, a_ok) = set_string (memory 1) path in
        let (v, v_ok) = set_string (memory 2) version in
        let one = record p { enumerated_method = method; method = m } in
        let two = record one { path = a } in
        let three = record two { version = v } in
        if m_ok
        then (if a_ok then (if v_ok then built three else no_memory three) else no_memory two)
        else no_memory one)

-- `f_http_payload_set_response_starting_line`
unfoldable pub set_response_starting_line :
    (ℕ → Bool) → Payload → Option Text → ℕ → Option Text → Built
unfolding set_string
set_response_starting_line memory p version status_code message =
    let (v, v_ok) = set_string (memory 0) version in
    let (s, s_ok) = set_string (memory 1) message in
    let one = record p { status_code = status_code; version = v } in
    let two = record one { status_message = s } in
    if v_ok then (if s_ok then built two else no_memory two) else no_memory one

-- `f_http_payload_append_header`
unfoldable pub append_header :
    (node_memory key_memory value_memory : Bool) → Payload → Key → Text → Built
unfolding set_header get_or_create get_if_exists
append_header node_memory key_memory true p key value =
    elim (set_header node_memory key_memory p.configuration key value) [
      | none ↦ broken
      | some (d, true) ↦ built (record p { configuration = d })
      | some (d, false) ↦ no_memory p
    ]
append_header node_memory key_memory false p key value =
    elim (get_or_create node_memory key_memory p.configuration key) [
      | none ↦ broken
      | some (d, none) ↦ no_memory p
      | some (d, some e) ↦ elim e.content [
        | none ↦ no_memory (record p { configuration = d })
        | some old ↦ dangling p
      ]
    ]

-- `f_http_payload_set_body`; `memory` is asked for the body, and for the node, the key and the value of the header
unfoldable pub set_body : Library → (ℕ → Bool) → Payload → List ℕ → (set_header : Bool) → Built
unfolding append_header
set_body library memory p body set_header =
    let given = memory 0 in
    let p' = record p { body = (if given then some body else none) } in
    let size = if given then length body else 0 in
    if set_header
    then elim (append_header (memory 1) (memory 2) (memory 3) p' (codes "content-length")
        (library.decimal size)) [
          | built q ↦ if given then built q else no_memory q
          | no_memory q ↦ no_memory q
          | dangling q ↦ dangling q
          | broken ↦ broken
        ]
    else if given
    then built p'
    else no_memory p'
