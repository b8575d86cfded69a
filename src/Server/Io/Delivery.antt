-- ===== src/Server/Io/Delivery.antt =====
-- packet.cc: what becomes of a packet that is queued for a connection.
use gearmand.Prelude.{ℕ, ◌≡◌, ◌⊎◌, inl, inr, ◌∙◌, Bool, true, List, [], ◌∷◌, ◌++◌, if◌then◌else◌}
use gearmand.Protocol.Errors.{Error, failed}
use gearmand.Protocol.Commands.{Magic, Command}
use gearmand.Protocol.Packet.{Bytes, Packet, reset, create_args, pack_header}
use gearmand.Server.State.{Server}

abbrev packets : Server → ℕ → List Packet
packets s c = (s.cons c).io_packet_list

-- Either the packet stands behind those that wait, and the connection on its thread's list, or the
-- call failed and no packet of the connection has changed.
abbrev pub Delivered : Server → ℕ → Packet → Server × Error → Type 0
Delivered s c p (t, e) =
    ((e ≡ Error.success) × (packets t c ≡ packets s c ++ p ∷ []) × ((t.cons c).io_list ≡ true))
    ⊎ ((failed e ≡ true) × (packets t c ≡ packets s c))

-- The packet that the call makes, with its header.
abbrev pub made_packet : Bool → Magic → Command → List Bytes → Packet
made_packet t m command args =
    let p = (pack_header (create_args (reset m command) args).0).0 in
    record p { free_data = if t then true else p.free_data }

-- Two servers with the same packets.
moved :
    (s t : Server) (c : ℕ) (p : Packet) (r : Server × Error)
    → packets t c ≡ packets s c
    → Delivered t c p r
    → Delivered s c p r
moved s t c p r e (inl (ok, q, l)) = inl (ok, rw (← e) q, l)
moved s t c p r e (inr (bad, q)) = inr (bad, q ∙ e)
