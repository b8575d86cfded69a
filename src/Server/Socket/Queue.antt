-- ===== src/Server/Socket/Queue.antt =====
-- thread.cc: `_thread_packet_flush`, of the packets that are queued for a connection.
use gearmand.Prelude.{Bool, true, false, Option, none, some, List, [], ◌∷◌, if◌then◌else◌}
use gearmand.Protocol.Errors.{Error, failed}
use gearmand.Protocol.Packet.{Packet}
use gearmand.Server.Socket.{Socket, watch_in}
use gearmand.Server.Socket.Send.{Packer, io_send}

abbrev pub is_last : List Packet → Bool
is_last [] = true
is_last (p ∷ q) = false

-- The loop: the packet at the head is sent, and removed.
unfoldable pub flush_queue : Packer → Socket → List Packet → Option (Socket × List Packet × Error)
unfolding io_send watch_in
flush_queue pack s [] = some ((watch_in s).0, [], (watch_in s).1)
flush_queue pack s (p ∷ q) = elim (io_send pack s p (is_last q)) [
  | none ↦ none
  | some r ↦ elim (failed r.1) [ true ↦ some (r.0, p ∷ q, r.1) | false ↦ flush_queue pack r.0 q ]
]

-- `_thread_packet_flush`: the socket, the packets that are left in the queue, and the result.
unfoldable pub packet_flush : Packer → Socket → List Packet → Option (Socket × List Packet × Error)
unfolding flush_queue
packet_flush pack s q = if s.pollout then some (s, q, Error.io_wait) else flush_queue pack s q
