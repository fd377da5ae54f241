-- ===== src/Server/Queue/Order.antt =====
-- The connections come out in the order in which they arrived, those alone that the lists allow.
use mathlib.Core.Path.{subst}
use coremio.Prelude.{
  ℕ, Bool, true, false, ◌&&◌, Option, none, some, List, [], ◌∷◌, ◌++◌, append_assoc, append-nil,
  if◌then◌else◌, ◌≡◌, refl, sym, ◌∙◌, Text,
}
use coremio.Server.{noice, thread_interrupted}
use coremio.Server.Addresses.{Network, is_allowed, white_list, black_list}
use coremio.Server.Queue.{
  Connection, Server, Logged, Arrival, Poll, arrives, nothing_arrives, select_fails, allows, settle,
  round, is_valid, Served, run_callback,
}

-- the connections among the rounds that are queued, from lists of addresses
abbrev pub arrival_kept : Network → (white black : List Text) → Arrival → List Connection
arrival_kept network white black a =
    if is_allowed network white black a.connection.address && (a.set_flags && a.memory)
    then a.connection ∷ []
    else []

abbrev pub poll_kept : Network → (white black : List Text) → Poll → List Connection
poll_kept network white black (arrives a) = arrival_kept network white black a
poll_kept network white black nothing_arrives = []
poll_kept network white black select_fails = []

-- those of the rounds until the first that ends the run
unfoldable pub all_kept : Network → (white black : List Text) → List (Poll × Bool) → List Connection
all_kept network white black [] = []
all_kept network white black ((poll, kill) ∷ polls) =
    let rest = all_kept network white black polls in
    poll_kept network white black poll ++ (if kill then [] else if is_valid poll then rest else [])

-- a server with some lists of addresses
pub record Lists (white black : List Text) (s : Server) : Type 0 where
  pub has_white : s.white_list_addresses ≡ some white
  pub has_black : s.black_list_addresses ≡ some black

-- a run that uses no null pointer, and what it queued
abbrev pub Queued :
    (white black : List Text) → (before kept : List Connection) → Option Logged → Type 0
Queued white black before kept none = ⊥
Queued white black before kept (some s) =
    Lists white black s.server × (s.server.connections ≡ before ++ kept)

module _ (network : Network) (white black : List Text) where
  pub allows-is_allowed :
      (w b : Option (List Text)) (incoming : ℕ)
      → w ≡ some white
      → b ≡ some black
      → allows network w b incoming ≡ some (is_allowed network white black incoming)
  unfolding allows is_allowed
  allows-is_allowed w b incoming hw hb =
      rw (hw, hb, allows)
        (by_white (white_list network incoming white).0 (white_list network incoming white).1
          (black_list network incoming black))
    where
      by_white :
          (m e c : Bool)
          → (if m then some true else if e then some c else some false)
            ≡ some (if m then true else if e then c else false)
      by_white true e c = refl
      by_white false true c = refl
      by_white false false c = refl

  settle-Queued :
      (allowed : Bool) (a : Arrival) (s : Logged)
      → Lists white black s.server
      → Queued white black s.server.connections
          (if allowed && (a.set_flags && a.memory) then a.connection ∷ [] else [])
          (settle a s (some allowed))
  unfolding settle
  settle-Queued false a s h = (h, sym (append-nil s.server.connections))
  settle-Queued true a s h = by_flags a.set_flags a.memory
    where
      by_flags :
          (f m : Bool)
          → Queued white black s.server.connections
              (if f && m then a.connection ∷ [] else [])
              (settle (record a { set_flags = f; memory = m }) s (some true))
      by_flags false m = (h, sym (append-nil s.server.connections))
      by_flags true false = (h, sym (append-nil s.server.connections))
      by_flags true true = (record { has_white = h.has_white; has_black = h.has_black }, refl)

  pub round-Queued :
      (poll : Poll) (s : Logged)
      → Lists white black s.server
      → Queued white black s.server.connections
          (poll_kept network white black poll)
          (round network poll s)
  unfolding round
  round-Queued (arrives a) s h =
      rw
        (
          allows-is_allowed s.server.white_list_addresses s.server.black_list_addresses
              a.connection.address h.has_white h.has_black,
          round,
        )
        (settle-Queued (is_allowed network white black a.connection.address) a s h)
  round-Queued nothing_arrives s h = (h, sym (append-nil s.server.connections))
  round-Queued select_fails s h = (h, sym (append-nil s.server.connections))

  -- the same of a run
  abbrev pub ServedQueued : (before kept : List Connection) → Option Served → Type 0
  ServedQueued before kept none = ⊥
  ServedQueued before kept (some s) = Queued white black before kept (some s.after)

  further :
      (before mine rest : List Connection) (o : Option Served)
      → ServedQueued (before ++ mine) rest o
      → ServedQueued before (mine ++ rest) o
  further before mine rest none q = q
  further before mine rest (some s) (l, e) = (l, e ∙ append_assoc before mine rest)

  -- From a server that has its two lists, and whatever arrives: the thread uses no null pointer, changes neither
  -- list, and the connections at its end are those before it and, behind them in the order of their arrival, the
  -- connections up to the end of the run that the lists allow and for which the flags could be set and a node
  -- allocated.
  pub run_callback-ServedQueued :
      (polls : List (Poll × Bool)) (s : Logged)
      → Lists white black s.server
      → ServedQueued s.server.connections
          (all_kept network white black polls)
          (run_callback network polls s)
  unfolding run_callback all_kept
  run_callback-ServedQueued [] s h = (h, sym (append-nil s.server.connections))
  run_callback-ServedQueued ((poll, kill) ∷ polls) s h =
      after (λ s' h'. run_callback-ServedQueued polls s' h') (round network poll s)
        (round-Queued poll s h) kill (is_valid poll)
    where
      mine : List Connection
      mine = poll_kept network white black poll

      rest : List Connection
      rest = all_kept network white black polls

      after :
          ((s' : Logged)
            → Lists white black s'.server
            → ServedQueued s'.server.connections rest (run_callback network polls s'))
          → (o : Option Logged) → Queued white black s.server.connections mine o
          → (k v : Bool)
          → ServedQueued s.server.connections
              (mine ++ (if k then [] else if v then rest else []))
              (elim o [
                | none ↦ none
                | some s' ↦
                    if k
                    then some (record { result = some thread_interrupted; after = s' })
                    else if v
                    then run_callback network polls s'
                    else some (record { result = some noice; after = s' })
              ])
      after again none q k v = q
      after again (some s') (l, e) true v = (l, rw (append-nil mine) e)
      after again (some s') (l, e) false false = (l, rw (append-nil mine) e)
      after again (some s') (l, e) false true =
          further s.server.connections mine rest (run_callback network polls s')
            (subst (λ cs. ServedQueued cs rest (run_callback network polls s')) e (again s' l))
