-- ===== src/Server/Socket/Stream.antt =====
-- io.cc: the bytes that a connection is to send, by the state of `gearman_io_send`.
use gearmand.Prelude.{◌≡◌, ◌≢◌, ◌⊎◌, ◌≤◌, ◌<◌, ◌++◌, Bool, true, false, length, drop, []}
use gearmand.Protocol.Errors.{Error}
use gearmand.Protocol.Packet.{Bytes, Packet, is_some}
use gearmand.Server.Socket.{Socket, SendState, SendPointer, send_buffer_room}
use gearmand.Server.Socket.Flush.{pending, workload_of}
use gearmand.Server.Socket.Outcome.{CanFlush}

-- A packet of the server: all of it is there, and its header fits into the buffer.
pub record IsSendable (p : Packet) : Type 0 where
  pub complete : p.complete ≡ true
  pub header : length p.args ≤ send_buffer_room
  pub size : length (workload_of p) ≡ p.data_size
  pub there : is_some p.workload ≡ true ⊎ (p.data_size ≡ 0)

-- What the state says of the buffer.
abbrev pub InState : SendState → Socket → Packet → Type 0
InState SendState.none_to_send s p =
    (s.send_buffer_ptr ≡ SendPointer.in_buffer 0)
    × ((s.send_data_offset ≡ 0) × (s.send_buffer_size ≤ send_buffer_room))
InState SendState.pre_flush s p = s.send_data_offset ≡ 0
InState SendState.force_flush s p = s.send_data_offset < p.data_size
InState SendState.flushing s p = s.send_data_offset ≡ 0
InState SendState.flush_data s p = s.send_data_offset ≤ s.send_data_size

pub record CanSend (s : Socket) (p : Packet) : Type 0 where
  pub can : CanFlush s p
  pub state : InState s.send_state s p

-- What of the packet is not in the buffer.
abbrev pub rest_of : SendState → Socket → Packet → Bytes
rest_of SendState.none_to_send s p = p.args ++ workload_of p
rest_of SendState.pre_flush s p = p.args ++ workload_of p
rest_of SendState.force_flush s p = drop s.send_data_offset (workload_of p)
rest_of SendState.flushing s p = []
rest_of SendState.flush_data s p = []

-- What was sent, what is in the buffer, and the rest.
abbrev pub stream : Socket → Packet → Bytes
stream s p = (s.sent ++ pending s p) ++ rest_of s.send_state s p

-- The packet is sent, or in the buffer where it may wait.
pub record IsSent (total : Bytes) (last : Bool) (t : Socket) (p : Packet) : Type 0 where
  pub ready : CanSend t p
  pub idle : t.send_state ≡ SendState.none_to_send
  pub sent : t.sent ++ pending t p ≡ total
  pub empty : (last ≡ false) ⊎ (t.send_buffer_size ≡ 0)

pub record IsWaiting (total : Bytes) (t : Socket) (p : Packet) : Type 0 where
  pub ready : CanSend t p
  pub begun : t.send_state ≢ SendState.none_to_send
  pub sent : stream t p ≡ total

pub record IsClosed (total : Bytes) (t : Socket) : Type 0 where
  pub unsent : Bytes
  pub sent : t.sent ++ unsent ≡ total
  pub closed : t.connected ≡ false

-- What came of a call, by its result.
abbrev pub Sending : Bytes → Bool → Packet → Socket × Error → Type 0
Sending total last p (t, e) =
    ((e ≡ Error.success) × IsSent total last t p)
    ⊎ (((e ≡ Error.io_wait) × IsWaiting total t p) ⊎ ((e ≢ Error.success) × IsClosed total t))
