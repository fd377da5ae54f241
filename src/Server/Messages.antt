-- ===== src/Server/Messages.antt =====
-- Messages over sockets: `f_http_payload_read_from_socket` and `f_http_payload_write_to_socket` of
-- src/http_payload.c.
use coremio.Prelude.{
  ℕ, ◌≤◌, ◌≡◌, refl, sym, ap, ◌∙◌, Bool, true, false, Option, none, some, List, [], ◌∷◌,
  if◌then◌else◌, ltb, ◌==◌, inl, inr, Bool-cases, arith, Text, length, length-take_le,
}
use coremio.HttpPayload.{Payload, Library}
use coremio.HttpPayload.Unserialize.{Allocations}
use coremio.HttpPayload.Serialize.{Serialized, serialized, no_memory, broken, serialize}
use coremio.HttpPayload.Transfer.{
  Answer, Reading, Transfer, read, Sent, sent, not_all_sent, not_sent, no_message, broken_message,
  write,
}
use coremio.HttpPayload.Transfer.Safety.{Ready, Fits, KeepsSize, IsSafe, read-IsSafe}
use coremio.Server.{Result, is_noice}
use coremio.Server.Transmission.{
  Select, ready, select_failed, timed_out, Received, bytes, end_of_stream, read_failed, Accepted,
  Reception, receive_once, socket_read, socket_write,
}
use coremio.Server.Transmission.Sending.{socket_write-Sends}

-- `f_socket_read` as an `f_read`: the bytes if its result is `NOICE`
abbrev pub reception : Option Reception → Option (List ℕ)
reception none = none
reception (some r) = if is_noice r.result then some r.received else none

abbrev pub reader : List (Select × Received) → Answer
reader answers buffer_size = reception (socket_read buffer_size answers)

-- the calls of `f_socket_read`, each with the flag of its round
abbrev pub readers : List (Bool × List (Select × Received)) → List (Bool × Answer)
readers [] = []
readers ((can_grow, answers) ∷ calls) = (can_grow, reader answers) ∷ readers calls

-- `f_http_payload_read_from_socket`
unfoldable pub read_from_socket :
    Library → Allocations → (ℕ → ℕ) → List (Bool × List (Select × Received)) → Reading → Transfer
read_from_socket library memory garbage calls r = read library memory garbage (readers calls) r

receive_once-Fits : (n : ℕ) (s : Select) (r : Received) → Fits n (reception (receive_once n s r))
unfolding receive_once
receive_once-Fits n ready (bytes got) = elim (Bool-cases (ltb (length got) n)) [
  | inl less ↦ rw (less, receive_once) (small (length got) n less)
  | inr all ↦ rw (all, receive_once) (length-take_le n got)
]
  where
    small : (a b : ℕ) → ltb a b ≡ true → a ≤ b
    small a b h = ground arith
receive_once-Fits n ready end_of_stream = tt
receive_once-Fits n ready (read_failed true) = tt
receive_once-Fits n ready (read_failed false) = tt
receive_once-Fits n (select_failed true) r = tt
receive_once-Fits n (select_failed false) r = tt
receive_once-Fits n timed_out r = tt

socket_read-Fits :
    (n : ℕ) (answers : List (Select × Received)) → Fits n (reception (socket_read n answers))
unfolding socket_read
socket_read-Fits n [] = tt
socket_read-Fits n ((s, r) ∷ answers) =
    after (receive_once n s r) (receive_once-Fits n s r) (socket_read-Fits n answers)
  where
    after :
        (o : Option Reception)
        → Fits n (reception o)
        → Fits n (reception (socket_read n answers))
        → Fits n (reception (elim o [ some done ↦ some done | none ↦ socket_read n answers ]))
    after none now later = later
    after (some done) now later = now

readers-KeepsSize : (calls : List (Bool × List (Select × Received))) → KeepsSize (readers calls)
readers-KeepsSize [] = tt
readers-KeepsSize ((can_grow, answers) ∷ calls) =
    ((λ n. socket_read-Fits n answers), readers-KeepsSize calls)

-- Starting with no buffer, or with one that holds the received bytes and only zeros behind them, with an offset of
-- what is parsed that is not behind the received bytes, and with headers that are a red-black tree, reading a
-- message from a socket is safe whatever the system answers: no write behind the buffer, no search of the parser
-- that runs out of it, no use of a null pointer, and only a complete message is reported as one. What it leaves can
-- be read on from: it satisfies the same conditions.
pub read_from_socket-IsSafe :
    (library : Library) (memory : Allocations) (garbage : ℕ → ℕ)
    (calls : List (Bool × List (Select × Received))) (r : Reading)
    → Ready r
    → IsSafe (read_from_socket library memory garbage calls r)
unfolding read_from_socket
read_from_socket-IsSafe library memory garbage calls r is =
    read-IsSafe library memory garbage (readers calls) r (readers-KeepsSize calls) is

-- the result of `f_socket_write`, `none` while it waits, and the bytes it sent
abbrev pub writer : List (Select × Accepted) → Text → Option Result × ℕ
writer answers raw =
    let (waits, t) = socket_write raw answers in ((if waits then none else some t.result), t.total)

abbrev pub is_done : Option Result → Bool
is_done none = false
is_done (some result) = is_noice result

-- `f_http_payload_write_to_socket`
unfoldable pub write_to_socket :
    Library → Bool → (ℕ → Bool) → Payload → List (Select × Accepted) → Sent (Option Result)
unfolding write
write_to_socket library first memory p answers =
    write is_done (writer answers) library first memory p

-- When writing a message to a socket ends with `NOICE`, there is a text of the message, and the system took it
-- all, in order and each byte once.
pub write_to_socket-socket_write :
    (library : Library) (first : Bool) (memory : ℕ → Bool) (p : Payload)
    (answers : List (Select × Accepted))
    → write_to_socket library first memory p answers ≡ sent
    → (raw : Text) × (serialize library first memory p ≡ serialized raw)
      × ((socket_write raw answers).1.taken ≡ raw)
unfolding write_to_socket write
write_to_socket-socket_write library first memory p answers is_sent =
    by_message (serialize library first memory p) refl is_sent
  where
    reports : Sent (Option Result) → Bool
    reports sent = true
    reports _ = false

    false≢true : false ≡ true → ⊥
    false≢true e = ground arith

    clash : (o : Sent (Option Result)) → reports o ≡ false → o ≡ sent → ⊥
    clash o no_report e = false≢true (sym no_report ∙ ap reports e)

    Written : Serialized → Type 0
    Written m =
        (elim m [
          | serialized raw ↦
              if is_done (writer answers raw).0
              then (if (writer answers raw).1 == length raw then sent else not_all_sent)
              else not_sent (writer answers raw).0
          | no_memory ↦ no_message
          | broken ↦ broken_message
        ])
        ≡ sent

    ended :
        (waits : Bool) (result : Result) (n size : ℕ)
        → (if is_done (if waits then none else some result)
            then (if n == size then sent else not_all_sent)
            else not_sent (if waits then none else some result))
          ≡ sent
        → (waits ≡ false) × (is_noice result ≡ true)
    ended true result n size e = absurd (clash (not_sent none) refl e)
    ended false result n size e = elim (Bool-cases (is_noice result)) [
      | inl is ↦ (refl, is)
      | inr is_not ↦ absurd (clash (not_sent (some result)) refl (rw is_not at e))
    ]

    by_message :
        (m : Serialized)
        → serialize library first memory p ≡ m
        → Written m
        → (raw : Text) × (serialize library first memory p ≡ serialized raw)
          × ((socket_write raw answers).1.taken ≡ raw)
    by_message (serialized raw) is e =
        let (ends, result) =
          ended (socket_write raw answers).0 (socket_write raw answers).1.result
            (socket_write raw answers).1.total (length raw) e in
        (raw, is, ((socket_write-Sends raw answers).1 ends result).1)
    by_message no_memory is e = absurd (clash no_message refl e)
    by_message broken is e = absurd (clash broken_message refl e)
