-- ===== src/Server/Socket/Recv.antt =====
-- io.cc: `_connection_read`, and the loop of `gearman_io_recv` that reads the header and the arguments.
-- What the protocol's `unpack` does is an argument.
use gearmand.Prelude.{
  ℕ, zero, suc, ◌-◌, true, false, Option, none, some, List, [], ◌∷◌, ◌++◌, length, take, drop, ltb,
  ◌==◌, if◌then◌else◌,
}
use gearmand.Protocol.Errors.{Error, failed}
use gearmand.Protocol.Packet.{Bytes, Packet}
use gearmand.Protocol.Packet.Wire.{Unpacked}
use gearmand.Server.Socket.{Socket, Answer, Errno, close, watch_in, wait_for, recv_buffer_room}
use gearmand.Server.Socket.Flush.{with_answers}

abbrev pub Unpacker : Type 0
Unpacker = Packet → Bytes → Unpacked

abbrev read_error : Errno → Error
read_error Errno.epipe = Error.lost_connection
read_error Errno.econnreset = Error.lost_connection
read_error Errno.ehostdown = Error.lost_connection
read_error _ = Error.errno

abbrev pub smaller : ℕ → ℕ → ℕ
smaller a b = if ltb a b then a else b

-- A socket, the bytes that were read, and the result.
abbrev pub ReadBytes : Type 0
ReadBytes = Socket × Bytes × Error

abbrev pub no_bytes : Socket × Error → ReadBytes
no_bytes (s, e) = (s, [], e)

-- `recv` gives what has arrived: no more than it is asked for, and nothing only when the peer closed.
abbrev pub arrived : Socket → ℕ → ReadBytes
arrived s n =
    if n == 0
    then no_bytes (close s, Error.lost_connection)
    else (record s { incoming = drop n s.incoming }, take n s.incoming, Error.success)

-- The loop of `_connection_read` over the answers.
unfoldable pub read_answers : List Answer → Socket → ℕ → ReadBytes
unfolding close watch_in
read_answers [] s room = no_bytes (wait_for (watch_in (with_answers s [])))
read_answers (Answer.took n ∷ rest) s room =
    arrived (with_answers s rest) (smaller n (smaller room (length s.incoming)))
read_answers (Answer.err e ∷ rest) s room = elim e [
  | Errno.eagain ↦ no_bytes (wait_for (watch_in (with_answers s rest)))
  | Errno.eintr ↦ read_answers rest s room
  | other ↦ no_bytes (close (with_answers s rest), read_error other)
]

unfoldable pub connection_read : Socket → ℕ → ReadBytes
unfolding read_answers
connection_read s room = read_answers s.answers s room

-- What a call comes to: a whole packet, or the error that it returns.
pub data Received : Type 0 where
  received : Socket → Packet → Received
  gave_up : Socket → Error → Received

-- `unpack` is called where there are bytes.
abbrev pub parse : Unpacker → Packet → Bytes → Unpacked
parse unpack p [] = (p, 0, Error.io_wait)
parse unpack p (b ∷ bs) = unpack p (b ∷ bs)

abbrev pub parsed : Socket → Unpacked → Socket
parsed s u = record s { recv_buffer = drop u.1 s.recv_buffer; recv_packet = some u.0 }

abbrev pub with_bytes : Socket → Bytes → Socket
with_bytes s b = record s { recv_buffer = s.recv_buffer ++ b }

-- The loop of `GEARMAND_CON_RECV_UNIVERSAL_READ`. Each round but the last takes an answer.
unfoldable pub recv_loop : ℕ → Unpacker → Socket → Packet → Option Received
unfolding connection_read
recv_loop zero unpack s p = none
recv_loop (suc n) unpack s p =
    let u = parse unpack p s.recv_buffer in
    let r = connection_read (parsed s u) (recv_buffer_room - length (parsed s u).recv_buffer) in
    elim u.2 [
      | Error.success ↦ some (Received.received (parsed s u) u.0)
      | Error.io_wait ↦ elim (failed r.2) [
        | true ↦ some (Received.gave_up r.0 r.2)
        | false ↦ recv_loop n unpack (with_bytes r.0 r.1) u.0
      ]
      | e ↦ some (Received.gave_up (close (parsed s u)) e)
    ]
