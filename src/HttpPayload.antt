-- ===== src/HttpPayload.antt =====
-- HTTP messages: src/http_payload.c, include/coremio/http_payload.h. A text is the list of its bytes without
-- the final zero. The headers are a dictionary whose content is the `value` of a node, `none` for a null
-- pointer. `atoi`, `tolower` and the printing of numbers are the C library's, and are parameters.
pub mod Balanced
pub mod Unserialize
pub mod Serialize
pub mod Build
pub mod Transfer
mod Examples
use coremio.Prelude.{
  ℕ, zero, suc, ◌+◌, ◌-◌, ◌^◌, Bool, true, false, not, ◌&&◌, Option, none, some, List, [], ◌∷◌,
  ◌++◌, map, ltb, leb, ◌==◌, if◌then◌else◌, Text, codes, length,
}
use coremio.RedBlackTree.{Tree, leaf, node}
use coremio.Dictionary.{
  Key, Entry, Dictionary, evaluate, same_key, get_if_exists, get_or_create, initialize,
}

-- `e_http_sequence_steps`
pub data Step : Type 0 where
  header_a header_b header_c key_value key_value_again payload completed : Step

-- the value of the enumeration
abbrev pub number : Step → ℕ
number header_a = 0
number header_b = 1
number header_c = 2
number key_value = 3
number key_value_again = 4
number payload = 5
number completed = 6

-- `e_http_methods`
pub data Method : Type 0 where
  undefined get head options trace put delete post patch connect : Method

-- `m_http_methods_keywords`, with the method at each place
abbrev pub keywords : List (Text × Method)
keywords =
    (codes "GET", get)
    ∷ (codes "HEAD", head)
    ∷ (codes "OPTIONS", options)
    ∷ (codes "TRACE", trace)
    ∷ (codes "PUT", put)
    ∷ (codes "DELETE", delete)
    ∷ (codes "POST", post)
    ∷ (codes "PATCH", patch)
    ∷ (codes "CONNECT", connect)
    ∷ []

unfoldable pub method_in : List (Text × Method) → Text → Method
unfolding same_key
method_in [] text = undefined
method_in ((keyword, method) ∷ rest) text =
    if same_key keyword text then method else method_in rest text

-- `p_http_method_from_keyword`
unfoldable pub method_from_keyword : Text → Method
unfolding method_in
method_from_keyword text = method_in keywords text

-- whether a method is `e_http_method_undefined`
abbrev pub is_undefined : Method → Bool
is_undefined undefined = true
is_undefined _ = false

-- the headers: `none` is a value that is a null pointer
abbrev pub Headers : Type 0
Headers = Dictionary (Option Text)

-- `s_http_payload`
pub record Payload : Type 0 where
  pub step : Step
  pub enumerated_method : Method
  pub method : Option Text
  pub path : Option Text
  pub version : Option Text
  pub status_message : Option Text
  pub status_code : ℕ
  pub configuration : Headers
  pub body : Option (List ℕ)
  pub premature : Bool

-- `f_http_payload_initialize`
unfoldable pub initialized : Payload
initialized = record {
  step = header_a;
  enumerated_method = undefined;
  method = none;
  path = none;
  version = none;
  status_message = none;
  status_code = 0;
  configuration = initialize none;
  body = none;
  premature = false;
}

-- what the C library gives: `atoi`, as a word of 32 bits, `tolower`, and the texts of `%zu` and `%03u`
pub record Library : Type 0 where
  pub atoi : Text → ℕ
  pub tolower : ℕ → ℕ
  pub decimal : ℕ → Text
  pub three_digits : ℕ → Text

-- the write of a value to the node that the search for a key finds
unfoldable pub assign :
    Tree (Entry (Option Text)) → Key → ℕ → Option Text → Tree (Entry (Option Text))
unfolding same_key
assign leaf key evaluation value = leaf
assign (node c v e l r) key evaluation value =
    let left = assign l key evaluation value in
    let right = assign r key evaluation value in
    if v == evaluation && same_key e.key key
    then node c v (record e { content = value }) l r
    else if ltb evaluation v
    then node c v e left r
    else node c v e l right

-- `f_dictionary_get_or_create`, and the write of the value to the node it gives: the headers after it, and
-- whether there was a node; `none` is the use of a null pointer
unfoldable pub set_header :
    (node_memory key_memory : Bool) → Headers → Key → Text → Option (Headers × Bool)
unfolding assign get_or_create get_if_exists
set_header node_memory key_memory d key value = elim (get_if_exists d key) [
  | some e ↦ some (record d { root = assign d.root key (evaluate key) (some value) }, true)
  | none ↦ elim (get_or_create node_memory key_memory (record d { zeroed = some value }) key) [
    | none ↦ none
    | some (created, entry) ↦ elim entry [
      | none ↦ some (d, false)
      | some e ↦ some (record d { root = created.root }, true)
    ]
  ]
]
