-- ===== src/Server/Queue.antt =====
-- The server: `f_server_initialize`, `f_server_run`, its thread, `f_server_get_connection_node` and `f_server_free`.
-- The list of connections is the nodes from its head to its tail: `f_list_append` at the tail puts a node behind
-- them, `f_list_remove_from_owner` of the head takes the first. The calls on descriptors are logged.
-- `run_callback` is the rounds of the thread one after the other; Queue/Interleave has calls of
-- `f_server_get_connection_node` between them.
pub mod Order
pub mod Release
pub mod Interleave
use coremio.Prelude.{
  ℕ, Bool, true, false, ◌&&◌, Option, none, some, List, [], ◌∷◌, ◌++◌, if◌then◌else◌, Text,
}
use coremio.Server.{Result, noice, no_memory, thread_interrupted, already_initialized, is_noice}
use coremio.Server.Sockets.{Call, opened, shut, closed, ServerAnswers, create_server}
use coremio.Server.Addresses.{Network, bucket_size, white_list, black_list, free_nodes}

-- `s_server_connection_node`: the descriptor and the address
pub record Connection : Type 0 where
  pub descriptor : ℕ
  pub address : ℕ

-- `s_server`; `has_runner` and `has_lock` say whether the runner and the lock are initialized
pub record Server : Type 0 where
  pub has_runner : Bool
  pub has_lock : Bool
  pub port : ℕ
  pub in_listening_address : Option Text
  pub white_list_addresses : Option (List Text)
  pub black_list_addresses : Option (List Text)
  pub descriptor : Option ℕ
  pub connections : List Connection

-- what `memset` and the first line leave
abbrev pub blank : Server
blank = record {
  has_runner = false;
  has_lock = false;
  port = 0;
  in_listening_address = none;
  white_list_addresses = none;
  black_list_addresses = none;
  descriptor = none;
  connections = [];
}

-- `f_server_initialize`: the result of `f_runner_initialize`, and whether the lock and the two arrays are given
unfoldable pub initialize :
    (runner : Result)
    → (lock white_memory black_memory : Bool) → (port : ℕ) → (in_listening_address : Option Text)
    → Result × Server
unfolding free_nodes
initialize runner lock white_memory black_memory port in_listening_address =
    let named = record blank {
      has_runner = true;
      has_lock = true;
      port = port;
      in_listening_address = in_listening_address;
    } in
    let lists = record named {
      white_list_addresses = some (free_nodes bucket_size);
      black_list_addresses = some (free_nodes bucket_size);
    } in
    if is_noice runner
    then (if lock
        then (if white_memory && black_memory then (noice, lists) else (no_memory, named))
        else (no_memory, blank))
    else (runner, blank)

-- the server and the calls on descriptors so far
pub record Logged : Type 0 where
  pub server : Server
  pub calls : List Call

-- `f_server_run`; the runner is running or not, and `runner` is the result of `f_runner_run`
unfoldable pub run :
    (o_nonblock : ℕ)
    → (is_running : Bool) → ServerAnswers
    → (queue : ℕ) → (runner : Result) → Logged
    → Result × Logged
unfolding create_server
run o_nonblock is_running answers queue runner s =
    let o = create_server o_nonblock answers s.server.in_listening_address queue in
    let s' : Logged = record {
      server = record s.server { descriptor = o.descriptor };
      calls = s.calls ++ o.calls;
    } in
    if is_running
    then (already_initialized, s)
    else if is_noice o.result
    then (runner, s')
    else (o.result, s')

-- a connection that `accept` gives, whether `fcntl` sets its flags, and whether there is memory for a node
pub record Arrival : Type 0 where
  pub connection : Connection
  pub set_flags : Bool
  pub memory : Bool

-- what the system answers in a round of the thread
pub data Poll : Type 0 where
  arrives : Arrival → Poll
  nothing_arrives select_fails : Poll

-- the test of the two lists; `none` is the use of a null pointer
unfoldable pub allows : Network → (white black : Option (List Text)) → ℕ → Option Bool
unfolding white_list black_list
allows network white black incoming = elim white [
  | none ↦ none
  | some addresses ↦
      let (allowed, is_empty) = white_list network incoming addresses in
      if allowed
      then some true
      else if is_empty
      then elim black [
        | none ↦ none
        | some addresses ↦ some (black_list network incoming addresses)
      ]
      else some false
]

-- what becomes of a connection, once it is known whether it is allowed
unfoldable pub settle : Arrival → Logged → Option Bool → Option Logged
settle a s none = none
settle a s (some false) = some (record s {
  calls =
      s.calls
      ++ opened a.connection.descriptor
        ∷ shut a.connection.descriptor
        ∷ closed a.connection.descriptor
        ∷ [];
})
settle a s (some true) =
    if a.set_flags
    then (if a.memory
        then some (record {
          server = record s.server { connections = s.server.connections ++ a.connection ∷ [] };
          calls = s.calls ++ opened a.connection.descriptor ∷ [];
        })
        else some (record s {
          calls =
              s.calls
              ++ opened a.connection.descriptor
                ∷ shut a.connection.descriptor
                ∷ closed a.connection.descriptor
                ∷ [];
        }))
    else some (record s { calls = s.calls ++ opened a.connection.descriptor ∷ [] })

-- a round of `p_server_run_callback`
unfoldable pub round : Network → Poll → Logged → Option Logged
unfolding allows settle
round network (arrives a) s = settle a s (
    allows network s.server.white_list_addresses s.server.black_list_addresses a.connection.address)
round network nothing_arrives s = some s
round network select_fails s = some s

-- whether the socket is still valid after a round
abbrev pub is_valid : Poll → Bool
is_valid select_fails = false
is_valid _ = true

-- the end of a run: its result, or that it goes on; and the server
pub record Served : Type 0 where
  pub result : Option Result
  pub after : Logged

-- `p_server_run_callback`, on the rounds so far, each with the flag that says whether an interrupt is required
unfoldable pub run_callback : Network → List (Poll × Bool) → Logged → Option Served
unfolding round
run_callback network [] s = some (record { result = none; after = s })
run_callback network ((poll, kill) ∷ polls) s = elim (round network poll s) [
  | none ↦ none
  | some s' ↦
      if kill
      then some (record { result = some thread_interrupted; after = s' })
      else if is_valid poll
      then run_callback network polls s'
      else some (record { result = some noice; after = s' })
]

-- `f_server_get_connection_node`
unfoldable pub get_connection_node : Server → Option Connection × Server
get_connection_node s = elim s.connections [
  | [] ↦ (none, s)
  | c ∷ cs ↦ (some c, record s { connections = cs })
]

-- `f_server_connection_free` of each connection
unfoldable pub close_all : List Connection → List Call
close_all [] = []
close_all (c ∷ cs) = shut c.descriptor ∷ closed c.descriptor ∷ close_all cs

-- `f_server_free`, behind the stop and the join of the runner
unfoldable pub free : Logged → Logged
unfolding close_all
free s = elim s.server.descriptor [
  | none ↦ s
  | some d ↦ record {
    server = record s.server {
      has_lock = false;
      white_list_addresses = none;
      black_list_addresses = none;
      descriptor = none;
      connections = [];
    };
    calls = s.calls ++ (close_all s.server.connections ++ closed d ∷ []);
  }
]
