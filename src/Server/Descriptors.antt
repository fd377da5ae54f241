-- ===== src/Server/Descriptors.antt =====
-- The descriptors that the making of a socket leaves open.
use coremio.Prelude.{
  ℕ, Bool, true, false, Option, none, some, List, [], ◌∷◌, ◌++◌, ◌==◌, ==_iff, ◌≡◌, refl, ap, ◌∙◌,
  ◌⊎◌, inl, inr, Bool-cases, has, arith, Text,
}
use coremio.Server.{
  Result, noice, set_option, bind_failure, listen_mode, invalid_address, connect_failure, is_noice,
}
use coremio.Server.Sockets.{
  Call, opened, shut, closed, reuses, with_flags, bound, listens, connected, close_one, open_after,
  ServerAnswers, Opened, fail, listen_at, listening_address, create_server, nonblocking, Attempt,
  is_connected, Client, try_address, try_addresses, create_client,
}

-- a result with a descriptor that is open besides the others, or one that is no `NOICE`, with no descriptor and
-- none open besides the others
abbrev pub Owned : List ℕ → Result → Option ℕ → List Call → Type 0
Owned os result descriptor calls =
    ((result ≡ noice) × ((d : ℕ) × (descriptor ≡ some d) × (open_after calls os ≡ d ∷ os)))
    ⊎ ((is_noice result ≡ false) × (descriptor ≡ none) × (open_after calls os ≡ os))

-- a new descriptor is not open already
abbrev pub IsNew : List ℕ → Option ℕ → Type 0
IsNew os none = Unit
IsNew os (some d) = has d os ≡ false

close_one_absent : (d : ℕ) (os : List ℕ) → has d os ≡ false → close_one d os ≡ os
unfolding close_one
close_one_absent d [] h = refl
close_one_absent d (o ∷ os) h =
    rw (differs, close_one) (ap (λ xs. o ∷ xs) (close_one_absent d os (ground arith)))
  where
    differs : (o == d) ≡ false
    differs = ground arith

pub close_one_new : (d : ℕ) (os : List ℕ) → has d os ≡ false → close_one d (d ∷ os) ≡ os
unfolding close_one
close_one_new d os h = rw ((==_iff d d).1 refl, close_one) (close_one_absent d os h)

pub open_after-append :
    (xs ys : List Call) (os : List ℕ) → open_after (xs ++ ys) os ≡ open_after ys (open_after xs os)
unfolding open_after
open_after-append [] ys os = refl
open_after-append (opened d ∷ xs) ys os = open_after-append xs ys (d ∷ os)
open_after-append (closed d ∷ xs) ys os = open_after-append xs ys (close_one d os)
open_after-append (shut d ∷ xs) ys os = open_after-append xs ys os
open_after-append (reuses d ∷ xs) ys os = open_after-append xs ys os
open_after-append (with_flags d f ∷ xs) ys os = open_after-append xs ys os
open_after-append (bound d f ∷ xs) ys os = open_after-append xs ys os
open_after-append (listens d f ∷ xs) ys os = open_after-append xs ys os
open_after-append (connected d ∷ xs) ys os = open_after-append xs ys os

-- what closes the new descriptor leaves the others
close-open_after :
    (d : ℕ) (os : List ℕ) (calls : List Call)
    → has d os ≡ false
    → open_after calls os ≡ d ∷ os
    → open_after (calls ++ closed d ∷ []) os ≡ os
unfolding open_after
close-open_after d os calls h e =
    open_after-append calls (closed d ∷ []) os ∙ ap (close_one d) e ∙ close_one_new d os h

-- the same of the whole outcome
abbrev pub OwnsOpened : List ℕ → Opened → Type 0
OwnsOpened os o = Owned os o.result o.descriptor o.calls

-- a client that owns its connection, or one that failed with this descriptor and nothing open
abbrev pub OwnsClient : Option ℕ → List ℕ → Client → Type 0
OwnsClient left os c =
    ((c.result ≡ noice) × ((d : ℕ) × (c.descriptor ≡ some d) × (open_after c.calls os ≡ d ∷ os)))
    ⊎ ((is_noice c.result ≡ false) × (c.descriptor ≡ left) × (open_after c.calls os ≡ os))

fail-OwnsOpened :
    (os : List ℕ) (result : Result) (d : ℕ) (calls : List Call)
    → is_noice result ≡ false
    → has d os ≡ false
    → open_after calls os ≡ d ∷ os
    → OwnsOpened os (fail result d calls)
fail-OwnsOpened os result d calls not_noice new e =
    inr (not_noice, refl, close-open_after d os calls new e)

listen_at-OwnsOpened :
    (bind listen : Bool) (d queue : ℕ) (calls : List Call) (address : Option ℕ) (os : List ℕ)
    → has d os ≡ false
    → open_after calls os ≡ d ∷ os
    → OwnsOpened os (listen_at bind listen d queue calls address)
unfolding listen_at open_after
listen_at-OwnsOpened b l d queue calls none os n e =
    fail-OwnsOpened os invalid_address d calls refl n e
listen_at-OwnsOpened false l d queue calls (some address) os n e =
    fail-OwnsOpened os bind_failure d calls refl n e
listen_at-OwnsOpened true false d queue calls (some address) os n e =
    fail-OwnsOpened os listen_mode d (calls ++ bound d address ∷ []) refl n
      (open_after-append calls (bound d address ∷ []) os ∙ e)
listen_at-OwnsOpened true true d queue calls (some address) os n e =
    inl (refl, (d, refl, open_after-append calls (bound d address ∷ listens d queue ∷ []) os ∙ e))

-- Where the new socket's descriptor is not open already, `f_socket_create_server` ends with `NOICE` and a
-- descriptor that is open besides those that were, or with an error, no descriptor, and those alone.
pub create_server-OwnsOpened :
    (o_nonblock : ℕ) (a : ServerAnswers) (address : Option Text) (queue : ℕ) (os : List ℕ)
    → IsNew os a.socket
    → OwnsOpened os (create_server o_nonblock a address queue)
unfolding create_server open_after
create_server-OwnsOpened o_nonblock a address queue os new =
    by_answers a.socket a.reuse a.set_flags new
  where
    by_answers :
        (s : Option ℕ) (r f : Bool)
        → IsNew os s
        → OwnsOpened os (
            create_server o_nonblock
              (record a { socket = s; reuse = r; set_flags = f })
              address
              queue)
    by_answers none r f n = inr (refl, refl, refl)
    by_answers (some d) false f n = fail-OwnsOpened os set_option d (opened d ∷ []) refl n refl
    by_answers (some d) true false n =
        fail-OwnsOpened os set_option d (opened d ∷ reuses d ∷ []) refl n refl
    by_answers (some d) true true n =
        listen_at-OwnsOpened a.bind a.listen d queue
          (opened d ∷ reuses d ∷ with_flags d (nonblocking o_nonblock a.flags) ∷ [])
          (listening_address a.inet_pton address) os n refl

-- the attempts' sockets are new
abbrev pub AreNew : List ℕ → List Attempt → Type 0
AreNew os [] = Unit
AreNew os (a ∷ attempts) = IsNew os a.socket × AreNew os attempts

-- no attempt so far has left anything
record Nothing (os : List ℕ) (c : Client) : Type 0 where
  pub not_yet : is_noice c.result ≡ false
  pub none_open : open_after c.calls os ≡ os

try_address-OwnsClient :
    (o_nonblock : ℕ) (a : Attempt) (c : Client) (os : List ℕ)
    → IsNew os a.socket
    → Nothing os c
    → OwnsClient none os (try_address o_nonblock a c)
unfolding try_address open_after
try_address-OwnsClient o_nonblock a c os new n =
    by_answers a.socket a.set_flags (Bool-cases (is_connected a.connect)) new
  where
    opens :
        (d : ℕ) (calls : List Call)
        → open_after (c.calls ++ opened d ∷ calls) os ≡ open_after calls (d ∷ os)
    opens d calls =
        open_after-append c.calls (opened d ∷ calls) os
        ∙ ap (λ o. open_after calls (d ∷ o)) n.none_open

    by_answers :
        (s : Option ℕ) (f : Bool)
        → (is_connected a.connect ≡ true) ⊎ (is_connected a.connect ≡ false)
        → IsNew os s
        → OwnsClient none os (try_address o_nonblock (record a { socket = s; set_flags = f }) c)
    by_answers none f k new = inr (refl, refl, n.none_open)
    by_answers (some d) false k new =
        inr (n.not_yet, refl, opens d (closed d ∷ []) ∙ close_one_new d os new)
    by_answers (some d) true (inl k) new =
        rw (k, try_address)
          (inl (
            refl,
            (
              d,
              refl,
              open_after-append
                    (c.calls ++ opened d ∷ with_flags d (nonblocking o_nonblock a.flags) ∷ [])
                    (connected d ∷ []) os
                  ∙ opens d (with_flags d (nonblocking o_nonblock a.flags) ∷ []),
            ),
          ))
    by_answers (some d) true (inr k) new =
        rw (k, try_address)
          (inr (
            n.not_yet,
            refl,
            close-open_after d os
                (c.calls ++ opened d ∷ with_flags d (nonblocking o_nonblock a.flags) ∷ []) new
                (opens d (with_flags d (nonblocking o_nonblock a.flags) ∷ [])),
          ))

try_addresses-OwnsClient :
    (o_nonblock : ℕ) (attempts : List Attempt) (c : Client) (os : List ℕ)
    → AreNew os attempts
    → OwnsClient none os c
    → OwnsClient none os (try_addresses o_nonblock attempts c)
unfolding try_addresses
try_addresses-OwnsClient o_nonblock [] c os news o = o
try_addresses-OwnsClient o_nonblock (a ∷ attempts) c os (new, news) (inl (is, rest)) =
    let over : is_noice c.result ≡ true = ap is_noice is in
    rw (over, try_addresses) (inl (is, rest))
try_addresses-OwnsClient o_nonblock (a ∷ attempts) c os (new, news) (inr (not_yet, _, none_open)) =
    rw (not_yet, try_addresses)
      (try_addresses-OwnsClient o_nonblock attempts (try_address o_nonblock a c) os news (
        try_address-OwnsClient o_nonblock a c os new
          (record { not_yet = not_yet; none_open = none_open })))

-- the addresses that are tried
abbrev pub tried : Option (List Attempt) → List Attempt
tried none = []
tried (some attempts) = attempts

-- the descriptor behind a failure: where no address is tried, it is the one that was there
abbrev pub left_by : List Attempt → Option ℕ → Option ℕ
left_by [] descriptor = descriptor
left_by (a ∷ attempts) descriptor = none

-- Where the descriptor of each socket that is tried is not open already, `f_socket_create_client` ends with
-- `NOICE` and a descriptor that is open besides those that were, or with an error, and those alone are open: the
-- sockets of the addresses that did not connect are closed. With an error there is no descriptor if an address
-- was tried; if `getaddrinfo` fails or gives none, the descriptor is the one that was there before.
pub create_client-OwnsClient :
    (o_nonblock : ℕ) (getaddrinfo : Option (List Attempt)) (descriptor : Option ℕ) (os : List ℕ)
    → AreNew os (tried getaddrinfo)
    → OwnsClient
        (left_by (tried getaddrinfo) descriptor)
        os
        (create_client o_nonblock getaddrinfo descriptor)
unfolding create_client try_addresses open_after
create_client-OwnsClient o_nonblock none descriptor os news = inr (refl, refl, refl)
create_client-OwnsClient o_nonblock (some []) descriptor os news = inr (refl, refl, refl)
create_client-OwnsClient o_nonblock (some (a ∷ attempts)) descriptor os (new, news) =
    try_addresses-OwnsClient o_nonblock attempts _ os news (
      try_address-OwnsClient o_nonblock a begun os new
        (record { not_yet = refl; none_open = refl }))
  where
    begun : Client
    begun = record { result = connect_failure; descriptor = descriptor; calls = [] }
