-- ===== src/Server/Queue/Interleave.antt =====
-- The thread of src/server.c with a client: rounds of `p_server_run_callback` and calls of
-- `f_server_get_connection_node`, in any order. Each of them changes the list of connections once, under its lock, so a
-- call in the middle of a round is one before its append or behind it. No address is added to the lists meanwhile.
use mathlib.Core.Path.{subst}
use coremio.Prelude.{
  Option, none, some, List, [], ◌∷◌, ◌++◌, append_assoc, append-nil, ◌≡◌, sym, ap, ◌∙◌, Text,
}
use coremio.Server.Addresses.{Network}
use coremio.Server.Queue.{Connection, Logged, Poll, round, get_connection_node}
use coremio.Server.Queue.Order.{Lists, Queued, poll_kept, round-Queued}

-- a round of the thread, or a call of the client
pub data Event : Type 0 where
  by_thread : Poll → Event
  by_client : Event

-- a connection that a call gives, before those of the later calls
unfoldable pub handed :
    Option Connection → Option (List Connection × Logged) → Option (List Connection × Logged)
handed c none = none
handed none (some given) = some given
handed (some c) (some (cs, s)) = some (c ∷ cs, s)

-- the events, one after the other: the connections that the client is given, and the server
unfoldable pub serve : Network → List Event → Logged → Option (List Connection × Logged)
unfolding handed round get_connection_node
serve network [] s = some ([], s)
serve network (by_thread poll ∷ events) s = elim (round network poll s) [
  | none ↦ none
  | some s' ↦ serve network events s'
]
serve network (by_client ∷ events) s =
    handed (get_connection_node s.server).0
      (serve network events (record s { server = (get_connection_node s.server).1 }))

-- the connections of the rounds that are queued
unfoldable pub events_kept : Network → (white black : List Text) → List Event → List Connection
events_kept network white black [] = []
events_kept network white black (by_thread poll ∷ events) =
    poll_kept network white black poll ++ events_kept network white black events
events_kept network white black (by_client ∷ events) = events_kept network white black events

-- no use of a null pointer, and the connections given, before those that are still queued
abbrev pub Handed :
    (white black : List Text)
    → (before kept : List Connection) → Option (List Connection × Logged)
    → Type 0
Handed white black before kept none = ⊥
Handed white black before kept (some (given, s)) =
    Lists white black s.server × (given ++ s.server.connections ≡ before ++ kept)

module _ (network : Network) (white black : List Text) where
  further :
      (before mine rest : List Connection) (o : Option (List Connection × Logged))
      → Handed white black (before ++ mine) rest o
      → Handed white black before (mine ++ rest) o
  further before mine rest none q = q
  further before mine rest (some (given, s)) (l, e) = (l, e ∙ append_assoc before mine rest)

  put_front :
      (c : Connection) (before kept : List Connection) (o : Option (List Connection × Logged))
      → Handed white black before kept o
      → Handed white black (c ∷ before) kept (handed (some c) o)
  unfolding handed
  put_front c before kept none q = q
  put_front c before kept (some (given, s)) (l, e) = (l, ap (λ cs. c ∷ cs) e)

  as_given :
      (before kept : List Connection) (o : Option (List Connection × Logged))
      → Handed white black before kept o
      → Handed white black before kept (handed none o)
  unfolding handed
  as_given before kept none q = q
  as_given before kept (some given) q = q

  -- From a server that has its two lists, for any rounds of the thread and calls of the client between them, in any
  -- order: no null pointer is used, neither list changes, and the connections that the calls give, followed by those
  -- still queued at the end, are those queued at first and, in the order of their arrival, those of the rounds that
  -- the lists allow and for which the flags could be set and a node allocated.
  pub serve-Handed :
      (events : List Event) (s : Logged)
      → Lists white black s.server
      → Handed white black s.server.connections
          (events_kept network white black events)
          (serve network events s)
  unfolding serve events_kept get_connection_node
  serve-Handed [] s h = (h, sym (append-nil s.server.connections))
  serve-Handed (by_thread poll ∷ events) s h =
      after (λ s' h'. serve-Handed events s' h') (round network poll s)
        (round-Queued network white black poll s h)
    where
      mine : List Connection
      mine = poll_kept network white black poll

      rest : List Connection
      rest = events_kept network white black events

      after :
          ((s' : Logged)
            → Lists white black s'.server
            → Handed white black s'.server.connections rest (serve network events s'))
          → (o : Option Logged) → Queued white black s.server.connections mine o
          → Handed white black s.server.connections
              (mine ++ rest)
              (elim o [ none ↦ none | some s' ↦ serve network events s' ])
      after again none q = q
      after again (some s') (l, e) =
          further s.server.connections mine rest (serve network events s')
            (subst (λ cs. Handed white black cs rest (serve network events s')) e (again s' l))
  serve-Handed (by_client ∷ events) s h =
      by_connections (λ s' h'. serve-Handed events s' h') s.server.connections
    where
      rest : List Connection
      rest = events_kept network white black events

      by_connections :
          ((s' : Logged)
            → Lists white black s'.server
            → Handed white black s'.server.connections rest (serve network events s'))
          → (cs : List Connection)
          → Handed white black cs rest (
              serve network
                (by_client ∷ events)
                (record s { server = record s.server { connections = cs } }))
      by_connections again [] =
          as_given [] rest
            (serve network events (record s { server = record s.server { connections = [] } }))
            (again (record s { server = record s.server { connections = [] } })
              (record { has_white = h.has_white; has_black = h.has_black }))
      by_connections again (c ∷ cs) =
          put_front c cs rest
            (serve network events (record s { server = record s.server { connections = cs } }))
            (again (record s { server = record s.server { connections = cs } })
              (record { has_white = h.has_white; has_black = h.has_black }))
