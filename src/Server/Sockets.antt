-- ===== src/Server/Sockets.antt =====
-- `f_socket_create_server`, `f_socket_create_client` and `f_socket_close`: the calls of the system that they make.
use Prim.Native.Nat.{bit_or}
use coremio.Prelude.{
  ℕ, Bool, true, false, Option, none, some, List, [], ◌∷◌, ◌++◌, ◌==◌, if◌then◌else◌, Text,
}
use coremio.Server.{
  Result, noice, socket_create, set_option, bind_failure, listen_mode, connect_failure,
  get_attributes, invalid_address, is_noice,
}

-- a call of the system that succeeds, or that cannot fail, on a descriptor
pub data Call : Type 0 where
  opened shut closed reuses : ℕ → Call
  with_flags bound listens : ℕ → ℕ → Call
  connected : ℕ → Call

-- the descriptors that are open after some calls, in order
unfoldable pub close_one : ℕ → List ℕ → List ℕ
close_one d [] = []
close_one d (o ∷ os) = let rest = close_one d os in if o == d then rest else o ∷ rest

unfoldable pub open_after : List Call → List ℕ → List ℕ
unfolding close_one
open_after [] os = os
open_after (opened d ∷ calls) os = open_after calls (d ∷ os)
open_after (closed d ∷ calls) os = open_after calls (close_one d os)
open_after (_ ∷ calls) os = open_after calls os

-- what the system answers to the calls of `f_socket_create_server`: `none` is a failure
pub record ServerAnswers : Type 0 where
  pub socket : Option ℕ
  pub reuse : Bool
  pub flags : Option ℕ
  pub set_flags : Bool
  pub inet_pton : Text → Option ℕ
  pub bind : Bool
  pub listen : Bool

-- the flags that `fcntl` is given
abbrev pub nonblocking : ℕ → Option ℕ → ℕ
nonblocking o_nonblock none = bit_or 0 o_nonblock
nonblocking o_nonblock (some flags) = bit_or flags o_nonblock

-- `sin_addr` and `sin_port` of the configuration; `INADDR_ANY` is 0
pub record Opened : Type 0 where
  pub result : Result
  pub descriptor : Option ℕ
  pub address : ℕ
  pub calls : List Call

-- the address to listen at
abbrev pub listening_address : (inet_pton : Text → Option ℕ) → Option Text → Option ℕ
listening_address inet_pton none = some 0
listening_address inet_pton (some text) = inet_pton text

-- a failure after the socket is there: it is closed
abbrev pub fail : Result → ℕ → List Call → Opened
fail result d calls = record {
  result = result;
  descriptor = none;
  address = 0;
  calls = calls ++ closed d ∷ [];
}

-- `bind` and `listen`, at an address if there is one
unfoldable pub listen_at : (bind listen : Bool) → (d queue : ℕ) → List Call → Option ℕ → Opened
listen_at bind listen d queue calls none = fail invalid_address d calls
listen_at bind listen d queue calls (some address) =
    if bind
    then (if listen
        then record {
          result = noice;
          descriptor = some d;
          address = address;
          calls = calls ++ bound d address ∷ listens d queue ∷ [];
        }
        else fail listen_mode d (calls ++ bound d address ∷ []))
    else fail bind_failure d calls

-- `f_socket_create_server`
unfoldable pub create_server :
    (o_nonblock : ℕ) → ServerAnswers → (in_listening_address : Option Text) → (queue : ℕ) → Opened
unfolding listen_at
create_server o_nonblock a in_listening_address queue = elim a.socket [
  | none ↦ record { result = socket_create; descriptor = none; address = 0; calls = [] }
  | some d ↦
      if a.reuse
      then (if a.set_flags
          then listen_at a.bind a.listen d queue
              (opened d ∷ reuses d ∷ with_flags d (nonblocking o_nonblock a.flags) ∷ [])
              (listening_address a.inet_pton in_listening_address)
          else fail set_option d (opened d ∷ reuses d ∷ []))
      else fail set_option d (opened d ∷ [])
]

-- what `connect` and the calls behind it answer: it succeeds; it fails with `EINPROGRESS`, then `select` says that
-- the socket is writable, `getsockopt` succeeds and the error of the socket is a number; or it fails
pub data Connect : Type 0 where
  connects : Connect
  in_progress : (writable option_read : Bool) → (socket_error : ℕ) → Connect
  refuses : Connect

-- what the system answers for one resolved address
pub record Attempt : Type 0 where
  pub socket : Option ℕ
  pub flags : Option ℕ
  pub set_flags : Bool
  pub connect : Connect

abbrev pub is_connected : Connect → Bool
is_connected connects = true
is_connected (in_progress true true error) = error == 0
is_connected (in_progress _ _ error) = false
is_connected refuses = false

-- the result, the descriptor and the calls so far
pub record Client : Type 0 where
  pub result : Result
  pub descriptor : Option ℕ
  pub calls : List Call

-- a round of the loop over the resolved addresses, while the result is no `NOICE`
unfoldable pub try_address : (o_nonblock : ℕ) → Attempt → Client → Client
try_address o_nonblock a c = elim a.socket [
  | none ↦ record { result = socket_create; descriptor = none; calls = c.calls }
  | some d ↦
      if a.set_flags
      then (let ready = c.calls ++ opened d ∷ with_flags d (nonblocking o_nonblock a.flags) ∷ [] in
          if is_connected a.connect
          then record { result = noice; descriptor = some d; calls = ready ++ connected d ∷ [] }
          else record c { descriptor = none; calls = ready ++ closed d ∷ [] })
      else record c { descriptor = none; calls = c.calls ++ opened d ∷ closed d ∷ [] }
]

unfoldable pub try_addresses : (o_nonblock : ℕ) → List Attempt → Client → Client
unfolding try_address
try_addresses o_nonblock [] c = c
try_addresses o_nonblock (a ∷ attempts) c =
    let next = try_addresses o_nonblock attempts (try_address o_nonblock a c) in
    if is_noice c.result then c else next

-- `f_socket_create_client`; `getaddrinfo` gives the addresses, or `none` when it fails
unfoldable pub create_client :
    (o_nonblock : ℕ) → (getaddrinfo : Option (List Attempt)) → (descriptor : Option ℕ) → Client
unfolding try_addresses
create_client o_nonblock none descriptor = record {
  result = get_attributes;
  descriptor = descriptor;
  calls = [];
}
create_client o_nonblock (some attempts) descriptor =
    try_addresses o_nonblock attempts
      (record { result = connect_failure; descriptor = descriptor; calls = [] })

-- `f_socket_close`
unfoldable pub socket_close : Option ℕ → Option ℕ × List Call
socket_close none = (none, [])
socket_close (some d) = (none, shut d ∷ closed d ∷ [])
