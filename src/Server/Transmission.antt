-- ===== src/Server/Transmission.antt =====
-- `f_socket_read` and `f_socket_write`: the rounds of their loops, on what the system answers to each.
pub mod Sending
use coremio.Prelude.{
  ℕ, zero, suc, ◌+◌, ◌-◌, Bool, true, false, Option, none, some, List, [], ◌∷◌, ◌++◌, if◌then◌else◌,
  ltb, Text, length, take, drop,
}
use coremio.Server.{Result, noice, timeout, disconnected, is_noice}

-- what `select` answers: a positive number; -1, with a flag that says whether `errno` is `EINVAL` or `ENOMEM`; or 0
pub data Select : Type 0 where
  ready : Select
  select_failed : Bool → Select
  timed_out : Select

-- the result when `select` gives no positive number
abbrev pub select_result : Select → Result
select_result ready = noice
select_result (select_failed true) = timeout
select_result (select_failed false) = disconnected
select_result timed_out = timeout

-- what `read` and `send` answer: a positive number of bytes; 0; or -1, with a flag that says whether `errno` is
-- `EAGAIN` or `EWOULDBLOCK`
pub data Received : Type 0 where
  bytes : List ℕ → Received
  end_of_stream : Received
  read_failed : Bool → Received

pub data Accepted : Type 0 where
  accepts : ℕ → Accepted
  accepts_nothing : Accepted
  send_failed : Bool → Accepted

-- the result of `f_socket_read`, with the bytes that it gives
pub record Reception : Type 0 where
  pub result : Result
  pub received : List ℕ

-- one round of `f_socket_read`; `none` is one more round
unfoldable pub receive_once : (buffer_size : ℕ) → Select → Received → Option Reception
receive_once buffer_size ready (bytes got) = some (record {
  result = noice;
  received = (if ltb (length got) buffer_size then got else take buffer_size got);
})
receive_once buffer_size ready end_of_stream =
    some (record { result = disconnected; received = [] })
receive_once buffer_size ready (read_failed true) = none
receive_once buffer_size ready (read_failed false) =
    some (record { result = disconnected; received = [] })
receive_once buffer_size (select_failed memory) _ =
    some (record { result = select_result (select_failed memory); received = [] })
receive_once buffer_size timed_out _ = some (record { result = timeout; received = [] })

-- `f_socket_read`, on the answers so far; `none` still waits
unfoldable pub socket_read : (buffer_size : ℕ) → List (Select × Received) → Option Reception
unfolding receive_once
socket_read buffer_size [] = none
socket_read buffer_size ((select, received) ∷ answers) =
    elim (receive_once buffer_size select received) [
      | some done ↦ some done
      | none ↦ socket_read buffer_size answers
    ]

-- a run of `f_socket_write`: the result, `total_sent_size`, and the bytes that the system took
pub record Transmission : Type 0 where
  pub result : Result
  pub total : ℕ
  pub taken : List ℕ

-- one round of `f_socket_write`
unfoldable pub send_once : (buffer : List ℕ) → Select → Accepted → Transmission → Transmission
send_once buffer ready (accepts n) t = record t {
  total = (if ltb n (length buffer - t.total) then t.total + n else length buffer);
  taken = t.taken ++ take n (drop t.total buffer);
}
send_once buffer ready accepts_nothing t = t
send_once buffer ready (send_failed true) t = t
send_once buffer ready (send_failed false) t = record t { result = disconnected }
send_once buffer (select_failed memory) _ t = record t {
  result = select_result (select_failed memory);
}
send_once buffer timed_out _ t = record t { result = timeout }

-- the condition of the loop
abbrev pub goes_on : List ℕ → Transmission → Bool
goes_on buffer t = if is_noice t.result then ltb t.total (length buffer) else false

-- the rounds of `f_socket_write`, and whether it still waits
unfoldable pub send_rounds :
    (buffer : List ℕ) → List (Select × Accepted) → Transmission → Bool × Transmission
unfolding send_once
send_rounds buffer [] t = (true, t)
send_rounds buffer ((select, accepted) ∷ answers) t =
    let t' = send_once buffer select accepted t in
    let rest = send_rounds buffer answers t' in if goes_on buffer t' then rest else (false, t')

-- `f_socket_write`
unfoldable pub socket_write : (buffer : List ℕ) → List (Select × Accepted) → Bool × Transmission
unfolding send_rounds
socket_write buffer answers =
    send_rounds buffer answers (record { result = noice; total = 0; taken = [] })
