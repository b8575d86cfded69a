-- ===== src/Server/Socket/Workload.antt =====
-- io.cc: `gearmand_connection_recv_data`, and `gearman_io_recv` with its data, as the I/O threads call it.
use gearmand.Prelude.{
  ℕ, zero, suc, ◌+◌, ◌-◌, Bool, true, false, Option, none, some, [], ◌++◌, length, take, drop, ◌==◌,
  if◌then◌else◌,
}
use gearmand.Protocol.Errors.{Error, failed}
use gearmand.Protocol.Commands.{Magic, Command}
use gearmand.Protocol.Packet.{Bytes, Packet, reset}
use gearmand.Server.Socket.{Socket, RecvState, close}
use gearmand.Server.Socket.Flush.{workload_of}
use gearmand.Server.Socket.Recv.{Unpacker, ReadBytes, Received, connection_read, recv_loop, smaller}

-- `packet->data` with what was received of it.
abbrev pub filled : Packet → Bytes → Packet
filled p b = record p { workload = some (workload_of p ++ b) }

-- The offset after some bytes; all of the workload is there when it reaches the size.
abbrev pub counted_in : Socket → ℕ → Socket
counted_in s n =
    if s.recv_data_size == s.recv_data_offset + n
    then record s { recv_data_size = 0; recv_data_offset = 0; recv_state = RecvState.none_to_read }
    else record s { recv_data_offset = s.recv_data_offset + n }

-- What is still wanted of the workload.
abbrev pub wanted : Socket → Packet → ℕ
wanted s p = smaller (s.recv_data_size - s.recv_data_offset) (p.data_size - s.recv_data_offset)

abbrev pub from_buffer : Socket → Packet → ℕ → Socket
from_buffer s p k = record s {
  recv_buffer = drop k s.recv_buffer;
  recv_packet = some (filled p (take k s.recv_buffer));
}

-- The socket, the packet with more of its workload, and the result.
abbrev pub after_read : ℕ → Packet → ReadBytes → Socket × Packet × Error
after_read k p (s, b, e) =
    if failed e
    then (counted_in s k, p, e)
    else (counted_in (record s { recv_packet = some (filled p b) }) (k + length b), filled p b, e)

-- As many bytes of the buffer as are wanted, and the rest from the socket.
abbrev pub take_in : ℕ → ℕ → Socket → Packet → Socket × Packet × Error
take_in n k s p =
    if n == k
    then (counted_in (from_buffer s p k) k, filled p (take k s.recv_buffer), Error.success)
    else after_read k (filled p (take k s.recv_buffer))
        (connection_read (from_buffer s p k) (n - k))

-- `gearmand_connection_recv_data`
unfoldable pub recv_data : Socket → Packet → Socket × Packet × Error
unfolding connection_read
recv_data s p =
    if s.recv_data_size == 0
    then (s, p, Error.success)
    else take_in (wanted s p) (smaller (length s.recv_buffer) (wanted s p)) s p

abbrev pub whole : Socket → Packet → Received
whole s p =
    Received.received (record s { recv_state = RecvState.none_to_read; recv_packet = none }) p

-- The loop of `GEARMAND_CON_RECV_STATE_READ_DATA`.
unfoldable pub data_loop : ℕ → Socket → Packet → Option Received
unfolding recv_data
data_loop zero s p = none
data_loop (suc n) s p = elim (s.recv_data_size == 0) [
  | true ↦ some (whole s p)
  | false ↦ elim (failed (recv_data s p).2) [
    | true ↦ some (Received.gave_up (recv_data s p).0 (recv_data s p).2)
    | false ↦ data_loop n (recv_data s p).0 (recv_data s p).1
  ]
]

-- After the arguments: the workload, if there is one and memory for it.
abbrev pub begin_data : Bool → Socket → Packet → Option Received
begin_data memory s p =
    let q = record p { workload = some []; free_data = true } in
    let t = record s {
      recv_data_size = p.data_size;
      recv_state = RecvState.read_data;
      recv_packet = some q;
    } in
    let loop = data_loop (length s.answers + 3) t q in
    if p.data_size == 0
    then some (whole s p)
    else if memory
    then loop
    else some (
        Received.gave_up (close (record s { recv_data_size = p.data_size }))
          Error.memory_allocation_failure)

unfoldable pub after_arguments : Bool → Option Received → Option Received
unfolding data_loop close
after_arguments memory none = none
after_arguments memory (some (Received.gave_up s e)) = some (Received.gave_up s e)
after_arguments memory (some (Received.received s p)) = begin_data memory s p

abbrev pub blank_packet : Packet
blank_packet = reset Magic.text Command.text

-- `gearman_io_recv`, of which `recv_packet` is the packet that is begun. `memory` tells whether there
-- is some for the workload.
unfoldable pub io_recv : Unpacker → Bool → Socket → Option Received
unfolding recv_loop after_arguments reset
io_recv unpack memory s =
    let n = length s.answers + 2 in
    elim s.recv_state [
      | RecvState.none_to_read ↦
          if s.connected
          then (let t = record s {
            recv_state = RecvState.reading;
            recv_packet = some blank_packet;
          } in
              after_arguments memory (recv_loop n unpack t blank_packet))
          else some (Received.gave_up s Error.not_connected)
      | RecvState.reading ↦ elim s.recv_packet [
        | none ↦ none
        | some p ↦ after_arguments memory (recv_loop n unpack s p)
      ]
      | RecvState.read_data ↦ elim s.recv_packet [ none ↦ none | some p ↦ data_loop (n + 1) s p ]
    ]
