-- ===== src/Server/Socket/Send.antt =====
-- io.cc: `gearman_io_send`. What the protocol's `pack` does is an argument.
use gearmand.Prelude.{
  ℕ, zero, suc, ◌+◌, ◌-◌, Bool, true, false, not, ◌&&◌, Option, none, some, ◌++◌, length, take,
  drop, ltb, ◌==◌, if◌then◌else◌,
}
use gearmand.Protocol.Errors.{Error, failed}
use gearmand.Protocol.Packet.{Bytes, Packet, is_some}
use gearmand.Server.Socket.{Socket, SendState, SendPointer, close, send_buffer_room}
use gearmand.Server.Socket.Flush.{flush, workload_of}

-- The bytes that it copies into a room, and its result.
abbrev pub Packer : Type 0
Packer = Packet → ℕ → Bytes × Error

-- `memcpy` behind the bytes in the buffer.
abbrev pub put_behind : Socket → Bytes → Socket
put_behind s b = record s {
  send_buffer = take s.send_buffer_size s.send_buffer ++ b;
  send_buffer_size = s.send_buffer_size + length b;
}

-- What the loop that packs comes to: the header is in the buffer, or the call returns.
pub data Packing : Type 0 where
  packed : Socket → Packing
  stopped : Socket → Error → Packing

abbrev pub room_left : Socket → ℕ
room_left s = send_buffer_room - s.send_buffer_size

-- The loop that packs: where there is no room, the buffer is flushed. A second round finds it empty, so
-- three steps are all; `waiting` tells whether it begins with the flush, as after a wait.
unfoldable pub pack_loop : ℕ → Packer → Bool → Socket → Packet → Option Packing
unfolding flush
pack_loop zero pack waiting s p = none
pack_loop (suc n) pack true s p = elim (failed (flush s p).1) [
  | true ↦ some (Packing.stopped (flush s p).0 (flush s p).1)
  | false ↦ pack_loop n pack false (flush s p).0 p
]
pack_loop (suc n) pack false s p = elim (pack p (room_left s)).1 [
  | Error.success ↦ some (Packing.packed (put_behind s (pack p (room_left s)).0))
  | Error.ignore_packet ↦ some (Packing.stopped s Error.success)
  | Error.flush_data ↦ elim (s.send_buffer_size == 0) [
    | true ↦ some (Packing.stopped s Error.send_buffer_too_small)
    | false ↦ pack_loop n pack true (record s { send_state = SendState.pre_flush }) p
  ]
  | e ↦ some (Packing.stopped s e)
]

-- `_connection_flush`, and the close that was asked for.
unfoldable pub flush_and_close : Socket → Packet → Socket × Error
unfolding flush
flush_and_close s p =
    let r = flush s p in
    if not (failed r.1) && r.0.close_after_flush then (close r.0, Error.lost_connection) else r

-- The end of the call, when the whole packet is in the buffer.
unfoldable pub finish : Bool → Socket → Packet → Socket × Error
unfolding flush_and_close
finish true s p = flush_and_close (record s { send_state = SendState.flushing }) p
finish false s p = (record s { send_state = SendState.none_to_send }, Error.success)

-- The rest of the workload, once the buffer is flushed: into the buffer if it fits, else it is sent
-- from where it is.
unfoldable pub send_rest : Bool → Socket → Packet → Socket × Error
unfolding finish
send_rest last s p =
    let size = p.data_size - s.send_data_offset in
    let t = record s { send_data_size = p.data_size; send_buffer_size = size } in
    if not (is_some p.workload)
    then (
      record s { send_data_size = p.data_size; send_state = SendState.flush_data },
      Error.success,
    )
    else if ltb size send_buffer_room
    then finish last
        (record t {
          send_buffer = take size (drop s.send_data_offset (workload_of p));
          send_data_size = 0;
          send_data_offset = 0;
        })
        p
    else flush_and_close
        (record t {
          send_buffer_ptr = SendPointer.in_data s.send_data_offset;
          send_state = SendState.flush_data;
        })
        p

-- From `GEARMAND_CON_SEND_UNIVERSAL_FORCE_FLUSH` on.
unfoldable pub force : Bool → Socket → Packet → Socket × Error
unfolding send_rest
force last s p = let r = flush s p in if failed r.1 then r else send_rest last r.0 p

-- The first `n` bytes of the workload behind the header.
abbrev pub copied : ℕ → Socket → Packet → Socket
copied n s p = record (put_behind s (take n (workload_of p))) { send_data_offset = n }

-- All of the workload, or what there is room for of it, is in the buffer.
unfoldable pub send_copied : ℕ → Bool → Socket → Packet → Socket × Error
unfolding force
send_copied n last s p =
    if n == p.data_size
    then finish last (record (copied n s p) { send_data_offset = 0 }) p
    else force last (record (copied n s p) { send_state = SendState.force_flush }) p

-- The workload behind the header: as much of it as there is room for.
unfoldable pub send_data : Bool → Socket → Packet → Socket × Error
unfolding send_copied
send_data last s p =
    if p.data_size == 0
    then finish last s p
    else if is_some p.workload && ltb 0 (room_left s)
    then send_copied (if ltb p.data_size (room_left s) then p.data_size else room_left s) last s p
    else force last (record s { send_state = SendState.force_flush }) p

abbrev pub after_packing : Bool → Option Packing → Packet → Option (Socket × Error)
after_packing last none p = none
after_packing last (some (Packing.stopped s e)) p = some (s, e)
after_packing last (some (Packing.packed s)) p = some (send_data last s p)

-- A round that packs, the flush, and a round that packs into the empty buffer.
abbrev pub pack_rounds : ℕ
pack_rounds = 3

-- `gearman_io_send`, by the state that it finds. `none`: the loop that packs needs more rounds.
unfoldable pub io_send : Packer → Socket → Packet → Bool → Option (Socket × Error)
unfolding pack_loop send_data
io_send pack s p last = elim s.send_state [
  | SendState.none_to_send ↦
      if not p.complete
      then some (s, Error.invalid_packet)
      else after_packing last (pack_loop pack_rounds pack false s p) p
  | SendState.pre_flush ↦ after_packing last (pack_loop pack_rounds pack true s p) p
  | SendState.force_flush ↦ some (force last s p)
  | SendState.flushing ↦ some (flush_and_close s p)
  | SendState.flush_data ↦ some (flush_and_close s p)
]
