-- ===== src/Server/Socket/Receiving.antt =====
-- io.cc: what comes of `gearman_io_recv`, with the loop over the workload.
use gearmand.Server.Socket.Arguments.{IsArguments, append-IsArguments, arguments_unique}
use gearmand.Prelude.{
  take-append_ge, drop-append_ge, length-append, if-false, ◌≤◌, ◌<◌, ◌≡◌, ◌≢◌, ◌⊎◌, inl, inr, refl,
  sym, ap, ◌∙◌, true, false, Option, none, some, ◌++◌, length, take, drop, ◌==◌, if◌then◌else◌,
  arith,
}
use mathlib.Core.List.{append-nil, append_assoc}
use mathlib.Core.Path.{subst}
use gearmand.Protocol.Errors.{Error}
use gearmand.Protocol.Packet.{Bytes, Packet}
use gearmand.Server.Socket.{Socket, RecvState}
use gearmand.Server.Socket.Recv.{Received}
use gearmand.Server.Socket.Workload.{filled, blank_packet}
use gearmand.Server.Socket.Follows.{Follows}
use gearmand.Server.Socket.Loading.{Loads, IsInData, left_of}

-- A packet with its workload, and what follows it.
abbrev pub with_workload : Packet → Bytes → Packet × Bytes
with_workload a rest = if a.data_size == 0 then (a, rest) else (
  record a { workload = some (take a.data_size rest); free_data = true },
  drop a.data_size rest,
)

abbrev pub with_part : Packet → Bytes → Packet
with_part a part = record a { workload = some part; free_data = true }

-- A socket that reads, where `all` came since the packet was begun.
pub record ReadsArguments (all : Bytes) (s : Socket) : Type 0 where
  pub packet : Packet
  pub kept : s.recv_packet ≡ some packet
  pub follows : Follows blank_packet all s packet
  pub start : s.recv_data_offset ≡ 0

pub record ReadsWorkload (all : Bytes) (s : Socket) : Type 0 where
  pub packet : Packet
  pub part : Bytes
  pub kept : s.recv_packet ≡ some (with_part packet part)
  pub arguments : IsArguments all packet (part ++ s.recv_buffer)
  pub ready : IsInData s (with_part packet part)

abbrev pub InState : RecvState → Bytes → Socket → Type 0
InState RecvState.none_to_read all s = (s.recv_buffer ≡ all) × (s.recv_data_offset ≡ 0)
InState RecvState.reading all s = ReadsArguments all s
InState RecvState.read_data all s = ReadsWorkload all s

pub record CanReceive (all : Bytes) (s : Socket) : Type 0 where
  pub connected : s.connected ≡ true
  pub state : InState s.recv_state all s

-- A whole packet: `more` came, the packet is what the bytes say, and the socket is ready for the next.
pub record IsReceived (all : Bytes) (s t : Socket) (r : Packet) : Type 0 where
  pub more : Bytes
  pub incoming : s.incoming ≡ more ++ t.incoming
  pub packet : Packet
  pub rest : Bytes
  pub arguments : IsArguments (all ++ more) packet rest
  pub result : with_workload packet rest ≡ (r, t.recv_buffer)
  pub enough : packet.data_size ≤ length rest
  pub ready : CanReceive t.recv_buffer t
  pub idle : t.recv_state ≡ RecvState.none_to_read

-- Bytes that hold no whole packet at their front.
abbrev pub IsShort : Bytes → Type 0
IsShort all = (a : Packet) (rest : Bytes) → IsArguments all a rest → length rest < a.data_size

-- More is wanted, and there is no whole packet yet.
pub record IsPartial (all : Bytes) (s t : Socket) : Type 0 where
  pub more : Bytes
  pub incoming : s.incoming ≡ more ++ t.incoming
  pub ready : CanReceive (all ++ more) t
  pub begun : t.recv_state ≢ RecvState.none_to_read
  pub short : IsShort (all ++ more)

abbrev pub Receives : Bytes → Socket → Option Received → Type 0
Receives all s none = ⊥
Receives all s (some (Received.received t r)) = IsReceived all s t r
Receives all s (some (Received.gave_up t e)) =
    ((e ≡ Error.io_wait) × IsPartial all s t) ⊎ ((e ≢ Error.success) × (t.connected ≡ false))

pub received-ready :
    (t : Socket)
    → t.connected ≡ true
    → t.recv_data_offset ≡ 0
    → t.recv_state ≡ RecvState.none_to_read
    → CanReceive t.recv_buffer t
received-ready t on start idle = record {
  connected = on;
  state = subst (λ st. InState st t.recv_buffer t) (sym idle) (refl, start);
}

-- The loop over the workload, with a packet whose arguments are there.
module _ (all : Bytes) (s : Socket) (a : Packet) (part : Bytes)
    (arguments : IsArguments all a (part ++ s.recv_buffer)) (d : IsInData s (with_part a part))
    (at_data : s.recv_state ≡ RecvState.read_data) where
  q : Packet
  q = with_part a part

  more-IsArguments : (m : Bytes) → IsArguments (all ++ m) a (part ++ (s.recv_buffer ++ m))
  more-IsArguments m =
      subst (IsArguments (all ++ m) a) (append_assoc part s.recv_buffer m)
        (append-IsArguments all m a (part ++ s.recv_buffer) arguments)

  loaded_result :
      (m : Bytes) (t : Socket) (r : Packet)
      → r ≡ filled q (take (left_of q) (s.recv_buffer ++ m))
      → t.recv_buffer ≡ drop (left_of q) (s.recv_buffer ++ m)
      → with_workload a (part ++ (s.recv_buffer ++ m)) ≡ (r, t.recv_buffer)
  unfolding q
  loaded_result m t r packet left =
      let le : length part ≤ a.data_size = omega (arith, d.some_left) in
      if-false (a.data_size == 0) _ _ (ground (arith, d.some_left)) ∙ λ i. (
        (ap (with_part a) (take-append_ge a.data_size part (s.recv_buffer ++ m) le) ∙ sym packet) i,
        (drop-append_ge a.data_size part (s.recv_buffer ++ m) le ∙ sym left) i,
      )

  loaded : (r : Option Received) → Loads s q r → Receives all s r
  unfolding q
  loaded none h = h
  loaded (some (Received.received t r)) h = record {
    more = h.more;
    incoming = h.incoming;
    packet = a;
    rest = part ++ (s.recv_buffer ++ h.more);
    arguments = more-IsArguments h.more;
    result = loaded_result h.more t r h.packet h.left;
    enough = omega (arith, h.enough, length-append part (s.recv_buffer ++ h.more));
    ready = received-ready t h.connected h.offset h.idle;
    idle = h.idle;
  }
  loaded (some (Received.gave_up t e)) (inl (io, h)) = inl (
    io,
    record {
      more = h.more;
      incoming = h.incoming;
      ready = record {
        connected = h.ready.connected;
        state =
            subst (λ st. InState st (all ++ h.more) t) (sym (h.state ∙ at_data))
              (record {
                packet = a;
                part = part ++ (s.recv_buffer ++ h.more);
                kept = h.kept;
                arguments =
                    subst (IsArguments (all ++ h.more) a)
                      (sym (append-nil _)
                        ∙ ap (λ x. (part ++ (s.recv_buffer ++ h.more)) ++ x) (sym h.empty))
                      (more-IsArguments h.more);
                ready = h.ready;
              });
      };
      begun = λ idle. cc (idle, h.state, at_data);
      short = λ b rest f.
          let have = part ++ (s.recv_buffer ++ h.more) in
          let e = arguments_unique (all ++ h.more) have rest a b (more-IsArguments h.more) f in
          subst (λ x. length rest < x.data_size) e.0
            (subst (λ x. length x < a.data_size) e.1 h.ready.some_left);
    },
  )
  loaded (some (Received.gave_up t e)) (inr bad) = inr bad

  pub loaded-Receives : (r : Option Received) → Loads s (with_part a part) r → Receives all s r
  unfolding q
  loaded-Receives = loaded
