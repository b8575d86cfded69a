-- ===== src/Server/Socket/Receives.antt =====
-- io.cc: `gearman_io_recv` loses no byte, however they come in.
use gearmand.Server.Socket.Arguments.{IsArguments, waits-no_arguments}
use gearmand.Server.Socket.Loads.{data_loop-Loads}
use gearmand.Prelude.{
  if-true, if-false, ◌+◌, ◌≡◌, inl, inr, refl, sym, ap, ◌∙◌, Bool, true, false, Option, none, some,
  [], ◌++◌, length, drop, ◌==◌, Bool-cases, arith, ==→eq,
}
use mathlib.Core.List.{append-nil, append_assoc}
use mathlib.Core.Path.{subst}
use gearmand.Protocol.Packet.{Bytes, Packet, reset}
use gearmand.Protocol.Packet.Text.{unpack}
use gearmand.Protocol.Packet.Wire.{unpack_binary}
use gearmand.Protocol.Packet.Resume.Loop.{shifted_zero}
use gearmand.Server.Socket.{Socket, RecvState, close}
use gearmand.Server.Socket.Recv.{Received}
use gearmand.Server.Socket.Workload.{data_loop, after_arguments, begin_data, blank_packet, io_recv}
use gearmand.Server.Socket.Follows.{Follows}
use gearmand.Server.Socket.Chunks.{Chunks, IsWhole, recv_loop-Chunks}
use gearmand.Server.Socket.Loading.{IsInData}
use gearmand.Server.Socket.Receiving.{
  with_part, InState, CanReceive, IsReceived, IsShort, Receives, received-ready, loaded-Receives,
}

-- What came before is counted in.
Receives-after :
    (all b : Bytes) (s t : Socket) (r : Option Received)
    → s.incoming ≡ b ++ t.incoming
    → Receives (all ++ b) t r
    → Receives all s r
Receives-after all b s t none came h = h
Receives-after all b s t (some (Received.received u r)) came h = record {
  more = b ++ h.more;
  incoming = came ∙ (ap (λ x. b ++ x) h.incoming ∙ sym (append_assoc b h.more u.incoming));
  packet = h.packet;
  rest = h.rest;
  arguments = subst (λ x. IsArguments x h.packet h.rest) (append_assoc all b h.more) h.arguments;
  result = h.result;
  enough = h.enough;
  ready = h.ready;
  idle = h.idle;
}
Receives-after all b s t (some (Received.gave_up u e)) came (inl (io, h)) = inl (
  io,
  record {
    more = b ++ h.more;
    incoming = came ∙ (ap (λ x. b ++ x) h.incoming ∙ sym (append_assoc b h.more u.incoming));
    ready = subst (λ x. CanReceive x u) (append_assoc all b h.more) h.ready;
    begun = h.begun;
    short = subst IsShort (append_assoc all b h.more) h.short;
  },
)
Receives-after all b s t (some (Received.gave_up u e)) came (inr bad) = inr bad

-- From the arguments on.
module _ (all : Bytes) (s : Socket) (start : s.recv_data_offset ≡ 0) (memory : Bool) where
  at_once :
      (t : Socket) (r : Packet) (h : IsWhole blank_packet all s t r)
      → IsArguments (all ++ h.more) r t.recv_buffer
  at_once t r h = record {
    head = all ++ h.more;
    tail = [];
    bytes = sym (append-nil _);
    used = h.used;
    unpacked = h.whole;
    behind = h.left ∙ sym (append-nil _);
  }

  no_data :
      (t : Socket) (r : Packet)
      → IsWhole blank_packet all s t r
      → r.data_size ≡ 0
      → IsReceived all s (record t { recv_state = RecvState.none_to_read; recv_packet = none }) r
  no_data t r h z = record {
    more = h.more;
    incoming = h.incoming;
    packet = r;
    rest = t.recv_buffer;
    arguments = at_once t r h;
    result = if-true (r.data_size == 0) _ _ (rw z refl);
    enough = omega (arith, z);
    ready = received-ready _ h.connected (h.offset ∙ start) refl;
    idle = refl;
  }

  with_data :
      (t : Socket) (r : Packet)
      → IsWhole blank_packet all s t r
      → r.data_size == 0 ≡ false
      → Receives all s (
          data_loop
            (length t.answers + 3)
            (record t {
              recv_data_size = r.data_size;
              recv_state = RecvState.read_data;
              recv_packet = some (with_part r []);
            })
            (with_part r []))
  with_data t r h more =
      let u : Socket = record t {
        recv_data_size = r.data_size;
        recv_state = RecvState.read_data;
        recv_packet = some (with_part r []);
      } in
      let d : IsInData u (with_part r []) = record {
        connected = h.connected;
        size = refl;
        offset = h.offset ∙ start;
        some_left = ground (arith, more);
      } in
      Receives-after all h.more s u _ h.incoming (
        loaded-Receives (all ++ h.more) u r [] (at_once t r h) d refl _
          (data_loop-Loads (length t.answers + 3) u (with_part r []) d (omega arith)))

  begun-Receives :
      (t : Socket) (r : Packet)
      → IsWhole blank_packet all s t r
      → Receives all s (begin_data memory t r)
  unfolding close
  begun-Receives t r h = elim (Bool-cases (r.data_size == 0)) [
    | inl z ↦
        subst (Receives all s) (sym (if-true (r.data_size == 0) _ _ z))
          (no_data t r h (==→eq _ _ z))
    | inr more ↦
        subst (Receives all s) (sym (if-false (r.data_size == 0) _ _ more))
          (elim (Bool-cases memory) [
            | inl there ↦
                subst (Receives all s) (sym (if-true memory _ _ there)) (with_data t r h more)
            | inr scarce ↦
                subst (Receives all s) (sym (if-false memory _ _ scarce))
                  (inr ((λ e. cc), simp h.connected refl))
          ])
  ]

  after-Receives :
      (st : s.recv_state ≡ RecvState.reading) (r : Option Received)
      → Chunks blank_packet all s r
      → Receives all s (after_arguments memory r)
  unfolding after_arguments
  after-Receives st none h = h
  after-Receives st (some (Received.received t r)) h = begun-Receives t r h
  after-Receives st (some (Received.gave_up t e)) (inl (io, h)) = inl (
    io,
    record {
      more = h.more;
      incoming = h.incoming;
      ready = record {
        connected = h.connected;
        state =
            subst (λ x. InState x (all ++ h.more) t) (sym (h.state ∙ st))
              (record {
                packet = h.packet;
                kept = h.kept;
                follows = h.follows;
                start = h.offset ∙ start;
              });
      };
      begun = λ idle. cc (idle, h.state, st);
      short = λ a rest f. absurd (waits-no_arguments (all ++ h.more) rest a h.waits f);
    },
  )
  after-Receives st (some (Received.gave_up t e)) (inr bad) = inr bad

Receives-same :
    (all : Bytes) (s t : Socket) (r : Option Received)
    → s.incoming ≡ t.incoming
    → Receives all t r
    → Receives all s r
Receives-same all s t r same h =
    Receives-after all [] s t r same (subst (λ x. Receives x t r) (sym (append-nil all)) h)

blank-Follows : (s : Socket) (b : Bytes) → s.recv_buffer ≡ b → Follows blank_packet b s blank_packet
unfolding drop reset unpack unpack_binary
blank-Follows s b e = record {
  used = 0;
  within = omega arith;
  left = e;
  later = λ c. sym (shifted_zero _);
  asks = λ _. refl;
}

io_recv-state :
    (st : RecvState) (all : Bytes) (s : Socket) (memory : Bool)
    → s.connected ≡ true
    → InState st all s
    → Receives all s (io_recv unpack memory (record s { recv_state = st }))
unfolding io_recv
io_recv-state RecvState.none_to_read all s memory on (left, start) =
    let u : Socket = record s { recv_state = RecvState.reading; recv_packet = some blank_packet } in
    subst (Receives all s) (sym (if-true s.connected _ _ on)) (
      Receives-same all s u _ refl (
        after-Receives all u start memory refl _ (
          recv_loop-Chunks (length s.answers + 2) blank_packet all u blank_packet
            (blank-Follows u all left) on (omega arith))))
io_recv-state RecvState.reading all s memory on h =
    let u : Socket = record s { recv_state = RecvState.reading; recv_packet = some h.packet } in
    let f : Follows blank_packet all u h.packet = record {
      used = h.follows.used;
      within = h.follows.within;
      left = h.follows.left;
      later = h.follows.later;
      asks = h.follows.asks;
    } in
    simp h.kept (
      Receives-same all s u _ refl (
        after-Receives all u h.start memory refl _
          (recv_loop-Chunks (length s.answers + 2) blank_packet all u h.packet f on (omega arith))))
io_recv-state RecvState.read_data all s memory on h =
    let u : Socket = record s {
      recv_state = RecvState.read_data;
      recv_packet = some (with_part h.packet h.part);
    } in
    let d : IsInData u (with_part h.packet h.part) = record {
      connected = on;
      size = h.ready.size;
      offset = h.ready.offset;
      some_left = h.ready.some_left;
    } in
    simp h.kept (
      Receives-same all s u _ refl (
        loaded-Receives all u h.packet h.part h.arguments d refl _ (
          data_loop-Loads ((length s.answers + 2) + 1) u (with_part h.packet h.part) d
            (omega arith))))

-- For a connected socket that reads, where `all` came since its packet was begun, `gearman_io_recv`
-- ends, and either gives the packet that the bytes say, however they came in, keeps those behind it
-- and is ready for the next, or waits and may go on when more has come, or fails and is closed.
pub io_recv-Receives :
    (all : Bytes) (s : Socket) (memory : Bool)
    → CanReceive all s
    → Receives all s (io_recv unpack memory s)
io_recv-Receives all s memory ready =
    io_recv-state s.recv_state all s memory ready.connected ready.state
