-- ===== src/Server/Queue/Release.antt =====
-- Which descriptors stay open, in a round of the thread and behind `f_server_free`.
use coremio.Prelude.{
  ℕ, Bool, true, false, not, ◌&&◌, ◌||◌, ◌==◌, Bool-cases, inl, inr, arith, none, some, List, [],
  ◌∷◌, ◌++◌, append-nil, if◌then◌else◌, ◌≡◌, refl, sym, ap, ◌∙◌, has, Text,
}
use coremio.Server.Sockets.{Call, close_one, opened, shut, closed, open_after}
use coremio.Server.Descriptors.{open_after-append, close_one_new}
use coremio.Server.Addresses.{Network, is_allowed}
use coremio.Server.Queue.{Connection, Logged, Arrival, arrives, settle, round, free, close_all}
use coremio.Server.Queue.Order.{Lists, allows-is_allowed}

-- what a round leaves of a connection that arrives
pub record Fate (allowed : Bool) (a : Arrival) (s s' : Logged) (os : List ℕ) : Type 0 where
  pub queued :
      s'.server.connections
      ≡ s.server.connections
        ++ (if allowed && (a.set_flags && a.memory) then a.connection ∷ [] else [])
  pub left_open : open_after s'.calls os ≡ (
      if allowed && (not a.set_flags || a.memory)
      then a.connection.descriptor ∷ open_after s.calls os
      else open_after s.calls os)

settle-Fate :
    (allowed : Bool) (a : Arrival) (s : Logged) (os : List ℕ)
    → has a.connection.descriptor (open_after s.calls os) ≡ false
    → (s' : Logged) × (settle a s (some allowed) ≡ some s') × Fate allowed a s s' os
unfolding settle open_after
settle-Fate false a s os new = (
  record s {
    calls =
        s.calls
        ++ opened a.connection.descriptor
          ∷ shut a.connection.descriptor
          ∷ closed a.connection.descriptor
          ∷ [];
  },
  refl,
  record {
    queued = sym (append-nil s.server.connections);
    left_open =
        open_after-append s.calls
          (opened a.connection.descriptor
            ∷ shut a.connection.descriptor
            ∷ closed a.connection.descriptor
            ∷ [])
          os
        ∙ close_one_new a.connection.descriptor (open_after s.calls os) new;
  },
)
settle-Fate true a s os new = by_flags a.set_flags a.memory
  where
    d : ℕ
    d = a.connection.descriptor

    by_flags :
        (f m : Bool)
        → (s' : Logged) × (settle (record a { set_flags = f; memory = m }) s (some true) ≡ some s')
          × Fate true (record a { set_flags = f; memory = m }) s s' os
    by_flags false m = (
      record s { calls = s.calls ++ opened d ∷ [] },
      refl,
      record {
        queued = sym (append-nil s.server.connections);
        left_open = open_after-append s.calls (opened d ∷ []) os;
      },
    )
    by_flags true false = (
      record s { calls = s.calls ++ opened d ∷ shut d ∷ closed d ∷ [] },
      refl,
      record {
        queued = sym (append-nil s.server.connections);
        left_open =
            open_after-append s.calls (opened d ∷ shut d ∷ closed d ∷ []) os
            ∙ close_one_new d (open_after s.calls os) new;
      },
    )
    by_flags true true = (
      record {
        server = record s.server { connections = s.server.connections ++ a.connection ∷ [] };
        calls = s.calls ++ opened d ∷ [];
      },
      refl,
      record { queued = refl; left_open = open_after-append s.calls (opened d ∷ []) os },
    )

-- A connection that arrives, with a descriptor that is not open already, is queued exactly if the lists allow it,
-- its flags can be set and there is a node for it. It stays open exactly if the lists allow it, and either its
-- flags cannot be set or there is a node for it: in the first of these cases it is open and in no queue.
pub round-Fate :
    (network : Network) (white black : List Text) (a : Arrival) (s : Logged) (os : List ℕ)
    → Lists white black s.server
    → has a.connection.descriptor (open_after s.calls os) ≡ false
    → (s' : Logged) × (round network (arrives a) s ≡ some s')
      × Fate (is_allowed network white black a.connection.address) a s s' os
unfolding round
round-Fate network white black a s os h new =
    let (s', done, fate) =
      settle-Fate (is_allowed network white black a.connection.address) a s os new in
    (
      s',
      ap (settle a s) (
            allows-is_allowed network white black s.server.white_list_addresses
              s.server.black_list_addresses a.connection.address h.has_white h.has_black)
          ∙ done,
      fate,
    )

abbrev pub descriptors : List Connection → List ℕ
descriptors [] = []
descriptors (c ∷ cs) = c.descriptor ∷ descriptors cs

has-close_one : (o d : ℕ) (os : List ℕ) → has o (close_one d os) ≡ (has o os && not (o == d))
unfolding close_one
has-close_one o d [] = refl
has-close_one o d (x ∷ os) = elim (Bool-cases (x == d)) [
  | inl e ↦ rw (e, close_one) (ground (arith, has-close_one o d os))
  | inr e ↦ rw (e, close_one) (ground (arith, has-close_one o d os))
]

has-close_all :
    (o d : ℕ) (cs : List Connection) (os : List ℕ)
    → has o (open_after (close_all cs ++ closed d ∷ []) os)
      ≡ (has o os && not (has o (d ∷ descriptors cs)))
unfolding close_all open_after
has-close_all o d [] os = has-close_one o d os ∙ ground arith
has-close_all o d (c ∷ cs) os =
    has-close_all o d cs (close_one c.descriptor os)
    ∙ ground (arith, has-close_one o c.descriptor os)

-- Freeing a server that listens closes its connections' descriptors and its own, and no other: a descriptor is
-- open afterwards exactly if it was open and is none of these. The server has no connection, no list and no
-- descriptor left.
pub free-open_after :
    (s : Logged) (d o : ℕ) (base : List ℕ)
    → s.server.descriptor ≡ some d
    → (has o (open_after (free s).calls base)
        ≡ (has o (open_after s.calls base) && not (has o (d ∷ descriptors s.server.connections))))
      × ((free s).server.connections ≡ [])
      × ((free s).server.descriptor ≡ none)
      × ((free s).server.white_list_addresses ≡ none)
      × ((free s).server.black_list_addresses ≡ none)
unfolding free
free-open_after s d o base listens = rw (listens, free) (closes, refl, refl, refl, refl)
  where
    end : List Call
    end = close_all s.server.connections ++ closed d ∷ []

    closes :
        has o (open_after (s.calls ++ end) base)
        ≡ (has o (open_after s.calls base) && not (has o (d ∷ descriptors s.server.connections)))
    closes =
        ap (has o) (open_after-append s.calls end base)
        ∙ has-close_all o d s.server.connections (open_after s.calls base)
