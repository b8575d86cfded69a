-- ===== src/Server/Io.antt =====
-- packet.cc and connection.cc: packets that are queued for a connection.
pub mod Frame
pub mod Delivery
pub mod Sendable
use gearmand.Prelude.{
  ℕ, ◌+◌, ◌-◌, Bool, true, List, [], ◌∷◌, ◌++◌, length, update, ltb, ◌==◌, if◌then◌else◌,
}
use gearmand.Protocol.Errors.{Error, failed}
use gearmand.Protocol.Commands.{Magic, Command}
use gearmand.Protocol.Packet.{Bytes, Packet, reset, create_args, pack_header}
use gearmand.Server.State.{Server, set_con, new_object}

abbrev max_free_server_packet : ℕ
max_free_server_packet = 2000

-- `gearman_server_packet_create(thread, false)`: from the free list, or new.
unfoldable pub packet_create : Server → Bool × Server
packet_create s =
    if ltb 0 s.free_packet_count
    then (true, record s { free_packet_count = s.free_packet_count - 1 })
    else (s.can_allocate s.next_object, (new_object s).1)

-- `gearman_server_packet_free(packet, thread, false)`
unfoldable pub packet_put_back : Server → Server
packet_put_back s =
    if ltb s.free_packet_count max_free_server_packet
    then record s { free_packet_count = s.free_packet_count + 1 }
    else s

abbrev pub joined : Server → ℕ → List ℕ → Server
joined s c waiting =
    let t = (s.cons c).thread in
    let s1 = set_con s c (record (s.cons c) { io_list = true }) in
    record s1 {
      thread_io = update s.thread_io t waiting;
      thread_runs =
          update s.thread_runs t
            (if length waiting == 1 then s.thread_runs t + 1 else s.thread_runs t);
    }

-- `gearman_server_con_io_add`: onto the thread's list, once; the first one wakes the thread.
unfoldable pub con_io_add : Server → ℕ → Server
con_io_add s c = if (s.cons c).io_list then s else joined s c (c ∷ s.thread_io (s.cons c).thread)

abbrev pub queued : Server → ℕ → Packet → Server
queued s c p =
    con_io_add
      (set_con s c (record (s.cons c) { io_packet_list = (s.cons c).io_packet_list ++ p ∷ [] })) c

abbrev pub packed : Server → ℕ → Bool → Packet × Error → Server × Error
packed s c take_data (p, e) = if failed e then (packet_put_back s, e) else (
  queued s c (record p { free_data = if take_data then true else p.free_data }),
  Error.success,
)

abbrev pub filled : Server → ℕ → Bool → Packet × Error → Server × Error
filled s c take_data (p, e) =
    if failed e then (packet_put_back s, e) else packed s c take_data (pack_header p)

-- `gearman_server_io_packet_add`: the arguments end before the first NULL.
unfoldable pub io_packet_add : Server → ℕ → Bool → Magic → Command → List Bytes → Server × Error
unfolding packet_create packet_put_back
io_packet_add s c take_data m command args =
    let (made, s1) = packet_create s in
    if made
    then filled s1 c take_data (create_args (reset m command) args)
    else (s1, Error.memory_allocation_failure)
