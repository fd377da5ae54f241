-- ===== src/Server/Examples.antt =====
-- A small server: tests of src/server.c, and instances of the theorems on it.
use coremio.Prelude.{
  ◌/◌, ◌^◌, ◌≡◌, ◌↔◌, refl, Bool, true, false, not, ◌&&◌, ◌||◌, Option, none, some, List, [], ◌∷◌,
  if◌then◌else◌, arith, has, Text, codes, starts_with, length, take,
}
use coremio.HttpPayload.{Library, initialized}
use coremio.Server.{noice, is_noice}
use coremio.Server.Sockets.{
  opened, open_after, close_one, ServerAnswers, create_server, Attempt, refuses, in_progress,
  create_client,
}
use coremio.Server.Descriptors.{
  OwnsOpened, OwnsClient, create_server-OwnsOpened, create_client-OwnsClient,
}
use coremio.Server.Transmission.{
  Select, ready, Received, bytes, read_failed, Accepted, accepts, accepts_nothing, socket_write,
  send_rounds, send_once,
}
use coremio.Server.Transmission.Sending.{Sends, taking, socket_write-Sends, socket_write-taking}
use coremio.Server.Addresses.{
  Network, address_matches, is_allowed, append_address, free_nodes, white_list, black_list,
}
use coremio.Server.Admission.{
  entries, any_matches, is_nil, append_address-is_allowed, address_matches_iff,
}
use coremio.Server.Queue.{
  Connection, allows, settle, get_connection_node, Logged, Arrival, Poll, arrives, blank,
  run_callback, round, free, close_all,
}
use coremio.Server.Queue.Order.{Lists, all_kept, ServedQueued, run_callback-ServedQueued}
use coremio.Server.Queue.Interleave.{
  Event, by_thread, by_client, handed, serve, events_kept, Handed, serve-Handed,
}
use coremio.Server.Queue.Release.{Fate, round-Fate, free-open_after}
use coremio.HttpPayload.Transfer.{Reading, sent, write}
use coremio.HttpPayload.Unserialize.{content_length}
use coremio.Dictionary.{foreach, foreach_pre_order, get_if_exists, get_recursive}
use coremio.Dictionary
use coremio.HttpPayload.Transfer.Safety.{Ready, IsSafe}
use coremio.HttpPayload.Serialize.{
  serialized, serialize, start_line, start_size, finish, print, payload_size,
}
use coremio.Server.Messages.{
  read_from_socket, read_from_socket-IsSafe, write_to_socket, write_to_socket-socket_write,
}

abbrev answers : ServerAnswers
answers = record {
  socket = some 7;
  reuse = true;
  flags = some 2;
  set_flags = true;
  inet_pton = λ text. none;
  bind = true;
  listen = false;
}

create_server-OwnsOpened_example : OwnsOpened (3 ∷ []) (create_server 2048 answers none 10)
create_server-OwnsOpened_example = create_server-OwnsOpened 2048 answers none 10 (3 ∷ []) refl

abbrev attempts : List Attempt
attempts =
    record { socket = some 7; flags = none; set_flags = true; connect = refuses }
    ∷ record {
      socket = some 8;
      flags = some 2;
      set_flags = true;
      connect = in_progress true true 0;
    }
    ∷ []

create_client-OwnsClient_example :
    OwnsClient none (3 ∷ []) (create_client 2048 (some attempts) (some 3))
create_client-OwnsClient_example =
    create_client-OwnsClient 2048 (some attempts) (some 3) (3 ∷ []) (refl, (refl, tt))

socket_write-Sends_example :
    Sends (5 ∷ 6 ∷ []) (socket_write (5 ∷ 6 ∷ []) ((ready, accepts 1) ∷ [])).1
    × ((socket_write (5 ∷ 6 ∷ []) ((ready, accepts 1) ∷ [])).0 ≡ false
        → is_noice (socket_write (5 ∷ 6 ∷ []) ((ready, accepts 1) ∷ [])).1.result ≡ true
        → ((socket_write (5 ∷ 6 ∷ []) ((ready, accepts 1) ∷ [])).1.total ≡ 2)
          × ((socket_write (5 ∷ 6 ∷ []) ((ready, accepts 1) ∷ [])).1.taken ≡ 5 ∷ 6 ∷ []))
socket_write-Sends_example = socket_write-Sends (5 ∷ 6 ∷ []) ((ready, accepts 1) ∷ [])

socket_write-taking_example :
    ((socket_write (5 ∷ 6 ∷ []) (taking (0 ∷ 0 ∷ []))).0 ≡ false)
    × (is_noice (socket_write (5 ∷ 6 ∷ []) (taking (0 ∷ 0 ∷ []))).1.result ≡ true)
    × ((socket_write (5 ∷ 6 ∷ []) (taking (0 ∷ 0 ∷ []))).1.taken ≡ 5 ∷ 6 ∷ [])
socket_write-taking_example =
    socket_write-taking (5 ∷ 6 ∷ []) (0 ∷ 0 ∷ []) (omega arith) (omega arith)

-- "10.0.0.0" and what stands behind a slash
abbrev network : Network
network = record {
  inet_pton = λ text. if starts_with (codes "10.0.0.0") text then some 167772160 else none;
  atoi = λ text. if starts_with (codes "8") text then 8 else 0;
}

abbrev ten : Text
ten = codes "10.0.0.0/8"

address_matches_iff_example :
    (address_matches network 167772161 ten ≡ true) ↔ (167772161 / 2 ^ 24 ≡ 167772160 / 2 ^ 24)
address_matches_iff_example =
    address_matches_iff network ten (codes "10.0.0.0") 167772161 167772160 refl (omega arith) refl
      (omega arith) (omega arith) (omega arith)

append_address-is_allowed_example :
    ((white : List Text) × (append_address (λ _. true) ten (some (free_nodes 5))
        ≡ some (noice, some white))
      × (is_allowed network white ([] ∷ []) 167772161 ≡ (
          address_matches network 167772161 (take 19 ten)
          || any_matches network 167772161 (entries (free_nodes 5)))))
    × ((black : List Text) × (append_address (λ _. true) ten (some ([] ∷ []))
          ≡ some (noice, some black))
        × (is_allowed network (free_nodes 5) black 167772161 ≡ (
            is_allowed network (free_nodes 5) ([] ∷ []) 167772161
            && (not (is_nil network (entries (free_nodes 5)))
                || not (address_matches network 167772161 (take 19 ten))))))
append_address-is_allowed_example =
    append_address-is_allowed network (λ _. true) 49 (codes "0.0.0.0/8") (free_nodes 5) ([] ∷ [])
      167772161 (λ i. refl)

abbrev listening : Logged
listening = record {
  server = record blank {
    white_list_addresses = some ([] ∷ []);
    black_list_addresses = some (ten ∷ []);
    descriptor = some 4;
  };
  calls = opened 4 ∷ [];
}

abbrev first_arrival : Arrival
first_arrival = record {
  connection = record { descriptor = 5; address = 167772161 };
  set_flags = true;
  memory = true;
}

abbrev second_arrival : Arrival
second_arrival = record {
  connection = record { descriptor = 6; address = 9 };
  set_flags = true;
  memory = true;
}

abbrev polls : List (Poll × Bool)
polls = (arrives first_arrival, false) ∷ (arrives second_arrival, true) ∷ []

Lists-listening : Lists ([] ∷ []) (ten ∷ []) listening.server
Lists-listening = record { has_white = refl; has_black = refl }

run_callback-ServedQueued_example :
    ServedQueued network
      ([] ∷ [])
      (ten ∷ [])
      []
      (all_kept network ([] ∷ []) (ten ∷ []) polls)
      (run_callback network polls listening)
run_callback-ServedQueued_example =
    run_callback-ServedQueued network ([] ∷ []) (ten ∷ []) polls listening Lists-listening

test_kept : all_kept network ([] ∷ []) (ten ∷ []) polls ≡ second_arrival.connection ∷ []
unfolding all_kept is_allowed white_list black_list address_matches
test_kept = refl

not_open : has 6 (open_after (opened 4 ∷ []) (3 ∷ [])) ≡ false
unfolding open_after
not_open = refl

round-Fate_example :
    (s' : Logged) × (round network (arrives second_arrival) listening ≡ some s')
    × Fate (is_allowed network ([] ∷ []) (ten ∷ []) 9) second_arrival listening s' (3 ∷ [])
round-Fate_example =
    round-Fate network ([] ∷ []) (ten ∷ []) second_arrival listening (3 ∷ []) Lists-listening
      not_open

abbrev with_connections : Logged
with_connections = record {
  server = record listening.server {
    connections = first_arrival.connection ∷ second_arrival.connection ∷ [];
  };
  calls = opened 4 ∷ opened 5 ∷ opened 6 ∷ [];
}

test_open_after : open_after (free with_connections).calls (3 ∷ []) ≡ 3 ∷ []
unfolding free open_after close_all close_one
test_open_after = refl

free-open_after_example :
    (has 5 (open_after (free with_connections).calls (3 ∷ []))
      ≡ (has 5 (open_after with_connections.calls (3 ∷ [])) && not (has 5 (4 ∷ 5 ∷ 6 ∷ []))))
    × ((free with_connections).server.connections ≡ [])
    × ((free with_connections).server.descriptor ≡ none)
    × ((free with_connections).server.white_list_addresses ≡ none)
    × ((free with_connections).server.black_list_addresses ≡ none)
free-open_after_example = free-open_after with_connections 4 5 (3 ∷ []) refl

abbrev c_library : Library
c_library = record {
  atoi = length;
  tolower = λ c. c;
  decimal = λ n. [];
  three_digits = λ n. 48 ∷ 48 ∷ 48 ∷ [];
}

abbrev unread : Reading
unread = record { payload = initialized; buffer = none; payload_size = 0; shift = 0 }

Ready-unread : Ready unread
unfolding initialized Dictionary.initialize
Ready-unread = record {
  inside = omega arith;
  zeroed = tt;
  parsed_before = omega arith;
  balanced = record { root_black = refl; rules = tt };
}

abbrev one_call : List (Bool × List (Select × Received))
one_call = (true, (ready, read_failed true) ∷ (ready, bytes (codes "GET / HTTP/1.1")) ∷ []) ∷ []

read_from_socket-IsSafe_example :
    IsSafe (read_from_socket c_library (λ _ _. true) (λ _. 170) one_call unread)
read_from_socket-IsSafe_example =
    read_from_socket-IsSafe c_library (λ _ _. true) (λ _. 170) one_call unread Ready-unread

abbrev two_answers : List (Select × Accepted)
two_answers = (ready, accepts_nothing) ∷ (ready, accepts 4) ∷ (ready, accepts 5) ∷ []

write_to_socket-sent : write_to_socket c_library true (λ _. true) initialized two_answers ≡ sent
unfolding write_to_socket write serialize finish print start_line start_size payload_size
    content_length initialized Dictionary.initialize foreach foreach_pre_order get_if_exists
    get_recursive socket_write send_rounds send_once
write_to_socket-sent = refl

write_to_socket-socket_write_example :
    (raw : Text) × (serialize c_library true (λ _. true) initialized ≡ serialized raw)
    × ((socket_write raw two_answers).1.taken ≡ raw)
write_to_socket-socket_write_example =
    write_to_socket-socket_write c_library true (λ _. true) initialized two_answers
      write_to_socket-sent

test_get_connection_node : get_connection_node with_connections.server ≡ (
  some first_arrival.connection,
  record listening.server { connections = second_arrival.connection ∷ [] },
)
unfolding get_connection_node
test_get_connection_node = refl

abbrev events : List Event
events =
    by_client
    ∷ by_thread (arrives second_arrival)
    ∷ by_thread (arrives first_arrival)
    ∷ by_client
    ∷ []

abbrev given : Option (List Connection × Logged) → List Connection
given none = []
given (some (cs, s)) = cs

test_given : given (serve network events listening) ≡ second_arrival.connection ∷ []
unfolding serve handed round allows settle get_connection_node white_list black_list address_matches
test_given = refl

serve-Handed_example :
    Handed
      ([] ∷ [])
      (ten ∷ [])
      []
      (events_kept network ([] ∷ []) (ten ∷ []) events)
      (serve network events listening)
serve-Handed_example = serve-Handed network ([] ∷ []) (ten ∷ []) events listening Lists-listening
