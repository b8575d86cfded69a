-- ===== src/Server/Socket/Input.antt =====
-- thread.cc: `_thread_packet_read`, of a server with several threads: it queues what it reads.
use gearmand.Prelude.{ℕ, zero, suc, Bool, true, false, not, Option, none, some, List, [], ◌∷◌, ◌&&◌}
use gearmand.Protocol.Errors.{Error}
use gearmand.Protocol.Packet.{Packet}
use gearmand.Server.Socket.{Socket}
use gearmand.Server.Socket.Recv.{Unpacker, Received}
use gearmand.Server.Socket.Workload.{io_recv}

-- `con->packet`: a packet is begun.
abbrev pub is_begun : Option Packet → Bool
is_begun none = false
is_begun (some p) = true

-- The socket, the packets for the processing thread, and the result.
abbrev pub PacketsRead : Type 0
PacketsRead = Option (Socket × List Packet × Error)

abbrev pub behind_first : Packet → PacketsRead → PacketsRead
behind_first p none = none
behind_first p (some (s, q, e)) = some (s, p ∷ q, e)

-- `GEARMAND_IO_WAIT` ends the loop, another error is returned.
abbrev pub end_of_read : Socket → Error → PacketsRead
end_of_read s Error.io_wait = some (s, [], Error.success)
end_of_read s e = some (s, [], e)

-- The loop. `memory` tells whether there is some for a new packet and for its workload.
unfoldable pub packet_read : ℕ → Unpacker → Bool → Socket → PacketsRead
unfolding io_recv
packet_read zero unpack memory s = none
packet_read (suc n) unpack memory s = elim (not memory && not (is_begun s.recv_packet)) [
  | true ↦ some (s, [], Error.memory_allocation_failure)
  | false ↦ elim (io_recv unpack memory s) [
    | none ↦ none
    | some (Received.gave_up t e) ↦ end_of_read t e
    | some (Received.received t p) ↦ behind_first p (packet_read n unpack memory t)
  ]
]
