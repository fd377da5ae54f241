-- ===== src/Server.antt =====
-- The server and its sockets: src/server.c, include/coremio/server.h. The calls of the system, of `inet_pton` and
-- of `atoi` are arguments: what they answer, from the first call to the last. A descriptor is `none` where the
-- source has a negative one.
pub mod Mask
pub mod Sockets
pub mod Transmission
pub mod Addresses
pub mod Admission
pub mod Descriptors
pub mod Queue
pub mod Messages
mod Examples
use coremio.Prelude.{ℕ, Bool, true, false}

-- the values of `coremio_result` that the server names, and those of the runner
pub data Result : Type 0 where
  noice no_memory timeout thread_interrupted already_initialized : Result
  socket_create set_option bind_failure listen_mode connect_failure disconnected get_attributes
        invalid_address :
      Result
  other : ℕ → Result

abbrev pub is_noice : Result → Bool
is_noice noice = true
is_noice _ = false
