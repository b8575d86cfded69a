-- ===== src/Server/Socket.antt =====
-- libgearman-server/struct/io.h and io.cc: a connection's socket with its buffers. What the peer and
-- the system do is a list of answers to the calls of `recv` and `send`; when none is left, the
-- socket is not ready. An answer of TLS is one of these, as `SSL_get_error` is read.
use gearmand.Prelude.{ℕ, Bool, true, false, Option, none, some, List, [], if◌then◌else◌}
pub mod Flush
pub mod Send
pub mod Outcome
pub mod Rounds
pub mod Delivered
pub mod Stream
pub mod Ending
pub mod Rest
pub mod Data
pub mod Sends
pub mod Queue
pub mod Delivery
pub mod Recv
pub mod Workload
pub mod Reads
pub mod Follows
pub mod Chunks
pub mod Loading
pub mod Refill
pub mod Short
pub mod Loads
pub mod Arguments
pub mod Asking
pub mod Receiving
pub mod Receives
pub mod Input
pub mod Decodes
pub mod Unique
use gearmand.Protocol.Errors.{Error, failed}
use gearmand.Protocol.Packet.{Bytes, Packet, packet_free}

pub data Errno : Type 0 where
  eagain eintr epipe econnreset ehostdown enomem other_errno : Errno

-- `took n`: up to n bytes of those that are offered, or of those that have arrived; of the latter no
-- byte means that the peer has closed. `err e`: -1, with `errno`.
pub data Answer : Type 0 where
  took : ℕ → Answer
  err : Errno → Answer

-- `__errno_to_gearmand_error_t` of log.cc
abbrev pub errno_error : Errno → Error
errno_error Errno.enomem = Error.memory_allocation_failure
errno_error Errno.econnreset = Error.lost_connection
errno_error Errno.ehostdown = Error.lost_connection
errno_error _ = Error.errno

pub data SendState : Type 0 where
  none_to_send pre_flush force_flush flushing flush_data : SendState

pub data RecvState : Type 0 where
  none_to_read reading read_data : RecvState

-- Where `send_buffer_ptr` points: into the send buffer, or into the packet's workload.
pub data SendPointer : Type 0 where
  in_buffer in_data : ℕ → SendPointer

-- `gearmand_io_st`. `send_buffer` is what was written to the array, `recv_buffer` the
-- `recv_buffer_size` bytes from `recv_buffer_ptr` on. `sent` is what the peer was sent, `incoming`
-- what has arrived, `answers` those to come.
pub record Socket : Type 0 where
  pub connected : Bool
  pub close_after_flush : Bool
  pub send_state : SendState
  pub recv_state : RecvState
  pub pollin : Bool
  pub pollout : Bool
  pub send_buffer : Bytes
  pub send_buffer_ptr : SendPointer
  pub send_buffer_size : ℕ
  pub send_data_size : ℕ
  pub send_data_offset : ℕ
  pub recv_buffer : Bytes
  pub recv_data_size : ℕ
  pub recv_data_offset : ℕ
  pub recv_packet : Option Packet
  pub event_watch : Bool → Bool → Error
  pub answers : List Answer
  pub incoming : Bytes
  pub sent : Bytes

abbrev pub send_buffer_room : ℕ
send_buffer_room = 8192

abbrev pub recv_buffer_room : ℕ
recv_buffer_room = 8192

-- `_connection_close` of a connection that has a socket, and of one that has none.
unfoldable pub close : Socket → Socket
close s =
    if s.connected
    then record s {
      connected = false;
      pollin = false;
      pollout = false;
      send_state = none_to_send;
      send_buffer_ptr = in_buffer 0;
      send_buffer_size = 0;
      send_data_size = 0;
      send_data_offset = 0;
      recv_state = none_to_read;
      recv_packet = none;
      recv_buffer = [];
    }
    else s

-- `gearmand_io_set_events` for POLLOUT and for POLLIN: the watch is told what is new.
abbrev watched : Socket → Socket × Error
watched s =
    let e = s.event_watch s.pollin s.pollout in
    if failed e then (close s, e) else (s, Error.success)

unfoldable pub watch_out : Socket → Socket × Error
unfolding close
watch_out s = if s.pollout then (s, Error.success) else watched (record s { pollout = true })

unfoldable pub watch_in : Socket → Socket × Error
unfolding close
watch_in s = if s.pollin then (s, Error.success) else watched (record s { pollin = true })

-- The call that would block: `GEARMAND_IO_WAIT`, unless the watch fails.
abbrev pub wait_for : Socket × Error → Socket × Error
wait_for (s, e) = if failed e then (s, e) else (s, Error.io_wait)
