-- ===== src/HttpPayload/Examples.antt =====
-- Small messages: tests of src/http_payload.c, and instances of the theorems on it.
use coremio.Prelude.{
  ℕ, ◌+◌, ◌-◌, ◌*◌, ◌/◌, ◌%◌, ◌≡◌, refl, Bool, true, false, Option, none, some, List, [], ◌∷◌, ◌++◌,
  ltb, leb, ◌&&◌, if◌then◌else◌, arith, Text, codes, length, take, drop, ◌≢◌,
}
use coremio.RedBlackTree.{insert, leaf, node, black}
use coremio.Dictionary.{
  Key, evaluate, foreach, foreach_pre_order, hash_from, char_value, get_if_exists, get_recursive,
  get_or_create, get_or_create_informed, initialize,
}
use coremio.Dictionary.Visit.{pre_order}
use coremio.HttpPayload.{
  get, Payload, Library, initialized, method_from_keyword, method_in, assign, set_header,
}
use coremio.HttpPayload.Unserialize.{
  new_line, is_terminated, Parse, parsed, block, skip, strip, behind_colon, copied, unserialize,
  rounds, round, round_at, step_a, step_b, step_c, step_key_value, step_payload, component_b,
  ends_early, header_line, content_length,
}
use coremio.HttpPayload.Unserialize.Progress.{Ends, unserialize-Ends}
use coremio.RedBlackTree.Rules.{IsRedBlack}
use coremio.RedBlackTree.Inorder.{inorder}
use coremio.Dictionary.Create.{WellFormed, NoCollision}
use coremio.HttpPayload.Build.{
  built, no_memory, dangling, append_header, set_string, set_request_starting_line,
  set_response_starting_line, set_body,
}
use coremio.HttpPayload.Build.Lookup.{header_value, append_header-header_value}
use coremio.HttpPayload.Transfer.{Answer, Reading}
use coremio.HttpPayload.Transfer.Safety.{Ready}
use coremio.HttpPayload.Serialize.{
  serialize, serialized, start_line, start_size, payload_size, or_empty, print, additional,
  serialize_header, finish,
}
use coremio.HttpPayload.Serialize.Printed.{HaveValues, header_lines, serialize-header_lines}

-- the decimal digits of a number that has at most three
abbrev digits : ℕ → Text
digits n =
    if ltb n 10
    then (48 + n) ∷ []
    else if ltb n 100
    then (48 + n / 10) ∷ (48 + n % 10) ∷ []
    else (48 + n / 100) ∷ (48 + n / 10 % 10) ∷ (48 + n % 10) ∷ []

abbrev read_digits : ℕ → Text → ℕ
read_digits n [] = n
read_digits n (c ∷ cs) =
    let rest = read_digits (10 * n + (c - 48)) cs in if leb 48 c && leb c 57 then rest else n

abbrev c_library : Library
c_library = record {
  atoi = read_digits 0;
  tolower = λ c. if leb 65 c && leb c 90 then c + 32 else c;
  decimal = digits;
  three_digits = λ n. (48 + n / 100) ∷ (48 + n / 10 % 10) ∷ (48 + n % 10) ∷ [];
}

abbrev request : Text
request = codes "GET /a HTTP/1.1" ++ (new_line ++ (codes "B: 2" ++ (new_line ++ new_line)))

-- the memory that starts with the request
abbrev region : List ℕ
region = request ++ 0 ∷ 7 ∷ []

terminated : is_terminated (length request) region ≡ true
unfolding is_terminated
terminated = refl

abbrev path_after : Parse → Option Text
path_after (parsed p shift) = p.path
path_after _ = none

test_path :
    path_after (unserialize c_library (λ _ _. true) 200 initialized region (length request) 0)
    ≡ some (codes "/a")
unfolding unserialize is_terminated rounds round round_at step_a step_b step_c step_key_value
    step_payload component_b header_line content_length block skip strip behind_colon copied
    initialized method_from_keyword method_in set_header assign get_or_create get_or_create_informed
    get_if_exists get_recursive evaluate hash_from char_value initialize ends_early insert
test_path = refl

IsRedBlack-initialized : IsRedBlack initialized.configuration.root
unfolding initialized initialize
IsRedBlack-initialized = record { root_black = refl; rules = tt }

unserialize-Ends_example :
    Ends
      (take (length request) region)
      0
      (unserialize c_library (λ _ _. true) 300 initialized region (length request) 0)
unserialize-Ends_example =
    unserialize-Ends c_library (λ _ _. true) 300 initialized region (length request) 0
      IsRedBlack-initialized terminated (omega arith) (omega arith)

abbrev response : Payload
response = record initialized {
  version = some (codes "HTTP/1.1");
  status_code = 200;
  configuration = record {
    root =
        node black (evaluate (codes "content-length"))
          (record { key = codes "content-length"; content = some (codes "2") }) leaf leaf;
    zeroed = none;
    node_initialize = none;
  };
  body = some (codes "okay");
}

test_serialize :
    serialize c_library true (λ _. true) response
    ≡ serialized (
        codes "HTTP/1.1 200 "
        ++ (new_line ++ (codes "content-length: 2" ++ (new_line ++ (new_line ++ codes "ok")))))
unfolding serialize finish serialize_header print additional start_line start_size payload_size
    content_length initialized foreach foreach_pre_order get_if_exists get_recursive evaluate
    hash_from char_value
test_serialize = refl

HaveValues-response : HaveValues (pre_order response.configuration.root)
unfolding pre_order
HaveValues-response = ((codes "2", refl), tt)

serialize-header_lines_example :
    serialize c_library true (λ _. true) response
    ≡ serialized (
        start_line c_library response
        ++ (header_lines (pre_order response.configuration.root)
            ++ (new_line
                ++ take
                    (content_length c_library (λ _ _. true) response)
                    (or_empty response.body))))
serialize-header_lines_example =
    serialize-header_lines c_library (λ code below. refl) response HaveValues-response

abbrev piece : Text → Answer
piece text n = some (take n text)

abbrev two_pieces : List (Bool × Answer)
two_pieces = (true, piece (take 20 request)) ∷ (true, piece (drop 20 request)) ∷ []

abbrev start : Reading
start = record { payload = initialized; buffer = none; payload_size = 0; shift = 0 }

Ready-start : Ready start
Ready-start = record {
  inside = omega arith;
  zeroed = tt;
  parsed_before = omega arith;
  balanced = IsRedBlack-initialized;
}

abbrev nothing : ℕ → ℕ
nothing i = 170

WellFormed-initialized : WellFormed initialized.configuration
unfolding initialized initialize inorder
WellFormed-initialized = record { balanced = IsRedBlack-initialized; distinct = tt }

initialized-plain : initialized.configuration.node_initialize ≡ none
unfolding initialized initialize
initialized-plain = refl

NoCollision-initialized : NoCollision (codes "host") (inorder initialized.configuration.root)
unfolding initialized initialize inorder
NoCollision-initialized = tt

append_header-header_value_example :
    (p : Payload) × (append_header true true true initialized (codes "host") (codes "a") ≡ built p)
    × (header_value p.configuration (codes "host") ≡ some (codes "a"))
    × ((other : Key)
        → other ≢ codes "host"
        → header_value p.configuration other ≡ header_value initialized.configuration other)
append_header-header_value_example =
    append_header-header_value initialized (codes "host") (codes "a") initialized-plain
      WellFormed-initialized NoCollision-initialized

-- a value that cannot be copied leaves the header with the old one, which is freed
test_dangling :
    append_header true true false response (codes "content-length") (codes "3") ≡ dangling response
unfolding append_header get_or_create get_or_create_informed get_if_exists get_recursive evaluate
    hash_from char_value initialized
test_dangling = refl

test_request_starting_line :
    set_request_starting_line
      (λ n. ltb n 2)
      initialized
      get
      (some (codes "/a"))
      (some (codes "HTTP/1.1"))
    ≡ no_memory (record initialized {
      enumerated_method = get;
      method = some (codes "GET");
      path = some (codes "/a");
    })
unfolding set_request_starting_line set_string initialized
test_request_starting_line = refl

test_response_starting_line :
    set_response_starting_line (λ _. true) initialized none 404 (some (codes "gone"))
    ≡ built (record initialized { status_code = 404; status_message = some (codes "gone") })
unfolding set_response_starting_line set_string initialized
test_response_starting_line = refl

test_body :
    set_body c_library (λ _. true) initialized (codes "abc") false
    ≡ built (record initialized { body = some (codes "abc") })
unfolding set_body initialized
test_body = refl
