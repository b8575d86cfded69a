-- ===== src/Server/Socket/Chunks.antt =====
-- io.cc: however the bytes of a packet come in, its arguments are what `unpack` makes of them all.
use gearmand.Prelude.{
  drop-drop, ℕ, zero, suc, ◌+◌, ◌-◌, ◌<◌, ◌≡◌, ◌≢◌, ◌⊎◌, inl, inr, refl, sym, ap, ◌∙◌, true, false,
  Option, none, some, [], ◌++◌, length, drop, Bool-cases, arith,
}
use mathlib.Core.List.{append-nil, append_assoc}
use mathlib.Core.Path.{subst}
use gearmand.Protocol.Errors.{Error, failed, eq_success}
use gearmand.Protocol.Packet.{Bytes, Packet}
use gearmand.Protocol.Packet.Wire.{Unpacked}
use gearmand.Protocol.Packet.Text.{unpack}
use gearmand.Server.Socket.{Socket, close, recv_buffer_room}
use gearmand.Server.Socket.Recv.{
  parsed, with_bytes, recv_loop, connection_read, Received, ReadBytes,
}
use gearmand.Server.Socket.Reads.{Reading, connection_read-Reading}
use gearmand.Server.Socket.Follows.{Follows, parse_follows, all_at_once, next-Follows}

-- The header and the arguments are there: `more` came, and what is not used is in the buffer.
pub record IsWhole (p : Packet) (all : Bytes) (s t : Socket) (r : Packet) : Type 0 where
  pub more : Bytes
  pub incoming : s.incoming ≡ more ++ t.incoming
  pub used : ℕ
  pub whole : unpack p (all ++ more) ≡ (r, used, Error.success)
  pub left : t.recv_buffer ≡ drop used (all ++ more)
  pub connected : t.connected ≡ true
  pub offset : t.recv_data_offset ≡ s.recv_data_offset

-- More is wanted: `more` came, and the next call goes on from there.
pub record IsBegun (p : Packet) (all : Bytes) (s t : Socket) : Type 0 where
  pub more : Bytes
  pub incoming : s.incoming ≡ more ++ t.incoming
  pub packet : Packet
  pub kept : t.recv_packet ≡ some packet
  pub follows : Follows p (all ++ more) t packet
  pub waits : (unpack p (all ++ more)).2 ≡ Error.io_wait
  pub connected : t.connected ≡ true
  pub state : t.recv_state ≡ s.recv_state
  pub offset : t.recv_data_offset ≡ s.recv_data_offset

-- What comes of the loop that reads the header and the arguments.
abbrev pub Chunks : Packet → Bytes → Socket → Option Received → Type 0
Chunks p all s none = ⊥
Chunks p all s (some (Received.received t r)) = IsWhole p all s t r
Chunks p all s (some (Received.gave_up t e)) =
    ((e ≡ Error.io_wait) × IsBegun p all s t) ⊎ ((e ≢ Error.success) × (t.connected ≡ false))

Chunks-after :
    (p : Packet) (all b : Bytes) (s t : Socket) (r : Option Received)
    → s.incoming ≡ b ++ t.incoming
    → (t.recv_state ≡ s.recv_state) × (t.recv_data_offset ≡ s.recv_data_offset)
    → Chunks p (all ++ b) t r
    → Chunks p all s r
Chunks-after p all b s t none came same h = h
Chunks-after p all b s t (some (Received.received u r)) came same h = record {
  more = b ++ h.more;
  incoming = came ∙ (ap (λ x. b ++ x) h.incoming ∙ sym (append_assoc b h.more u.incoming));
  used = h.used;
  whole = ap (unpack p) (sym (append_assoc all b h.more)) ∙ h.whole;
  left = h.left ∙ ap (drop h.used) (append_assoc all b h.more);
  connected = h.connected;
  offset = h.offset ∙ same.1;
}
Chunks-after p all b s t (some (Received.gave_up u e)) came same (inl (io, h)) = inl (
  io,
  record {
    more = b ++ h.more;
    incoming = came ∙ (ap (λ x. b ++ x) h.incoming ∙ sym (append_assoc b h.more u.incoming));
    packet = h.packet;
    kept = h.kept;
    follows = subst (λ x. Follows p x u h.packet) (append_assoc all b h.more) h.follows;
    waits = ap (λ x. (unpack p x).2) (sym (append_assoc all b h.more)) ∙ h.waits;
    connected = h.connected;
    state = h.state ∙ same.0;
    offset = h.offset ∙ same.1;
  },
)
Chunks-after p all b s t (some (Received.gave_up u e)) came same (inr bad) = inr bad

recv_cases :
    (p : Packet) (all : Bytes) (s t : Socket) (r : Packet) (again : Option Received) (e : Error)
    → (e ≡ Error.success → IsWhole p all s t r)
    → (e ≡ Error.io_wait → Chunks p all s again)
    → (close t).connected ≡ false
    → Chunks p all s (elim e [
      | Error.success ↦ some (Received.received t r)
      | Error.io_wait ↦ again
      | x ↦ some (Received.gave_up (close t) x)
    ])
recv_cases p all s t r again Error.success done wait off = done refl
recv_cases p all s t r again Error.io_wait done wait off = wait refl
recv_cases p all s t r again _ done wait off = inr ((λ h. cc h), off)

-- A round of the loop, by what `unpack` gave.
abbrev round : ℕ → Socket → Unpacked → Option Received
round n s u =
    let r = connection_read (parsed s u) (recv_buffer_room - length (parsed s u).recv_buffer) in
    elim u.2 [
      | Error.success ↦ some (Received.received (parsed s u) u.0)
      | Error.io_wait ↦ elim (failed r.2) [
        | true ↦ some (Received.gave_up r.0 r.2)
        | false ↦ recv_loop n unpack (with_bytes r.0 r.1) u.0
      ]
      | e ↦ some (Received.gave_up (close (parsed s u)) e)
    ]

module _ (n : ℕ) (p : Packet) (all : Bytes) (s : Socket) (q : Packet) (f : Follows p all s q)
    (on : s.connected ≡ true)
    (next : (b : Bytes) (t : Socket) (r : Packet)
      → Follows p (all ++ b) t r
      → t.connected ≡ true
      → length t.answers < length s.answers
      → Chunks p (all ++ b) t (recv_loop n unpack t r)) where
  now : Unpacked
  now = unpack q (drop f.used all)

  left_now : drop now.1 s.recv_buffer ≡ drop now.1 (drop f.used all)
  left_now = ap (drop now.1) f.left

  now-IsWhole : now.2 ≡ Error.success → IsWhole p all s (parsed s now) now.0
  unfolding now
  now-IsWhole ok = record {
    more = [];
    incoming = refl;
    used = f.used + now.1;
    whole = rw (append-nil all, all_at_once p all s q f, ok) refl;
    left =
        left_now ∙ (drop-drop now.1 f.used all ∙ ap (drop (f.used + now.1)) (sym (append-nil all)));
    connected = on;
    offset = refl;
  }

  read_more :
      (r : ReadBytes) (room : ℕ)
      → now.2 ≡ Error.io_wait
      → Reading (length s.answers) room (parsed s now) r
      → Chunks p all s (elim (failed r.2) [
        | true ↦ some (Received.gave_up r.0 r.2)
        | false ↦ recv_loop n unpack (with_bytes r.0 r.1) now.0
      ])
  unfolding now failed
  read_more (t, b, e) room io (inl (ok, h)) = rw ok (
      Chunks-after p all b s (with_bytes t b) _ h.incoming (h.state, h.data_offset)
        (next b (with_bytes t b) now.0
          (next-Follows p all s q f (with_bytes t b) b io (ap (λ x. x ++ b) (h.buffer ∙ left_now)))
          h.connected h.used))
  read_more (t, b, e) room io (inr (inl (wait, h))) = rw wait (
      inl (
        wait,
        record {
          more = [];
          incoming = sym h.incoming;
          packet = now.0;
          kept = h.packet;
          follows = next-Follows p all s q f t [] io (h.buffer ∙ (left_now ∙ sym (append-nil _)));
          waits =
              ap (λ x. (unpack p x).2) (append-nil all)
              ∙ (ap (λ (x : Unpacked). x.2) (all_at_once p all s q f) ∙ io);
          connected = h.connected;
          state = h.state;
          offset = h.data_offset;
        },
      ))
  read_more (t, b, e) room io (inr (inr (bad, off))) = elim (Bool-cases (failed e)) [
    | inl x ↦ rw x (inr (bad, off))
    | inr x ↦ absurd (bad (eq_success e x))
  ]

  round-Chunks : Chunks p all s (round n s now)
  unfolding close
  round-Chunks =
      let room = recv_buffer_room - length (parsed s now).recv_buffer in
      recv_cases p all s (parsed s now) now.0 _ now.2 now-IsWhole
        (λ io.
          read_more (connection_read (parsed s now) room) room io
            (connection_read-Reading (parsed s now) room on))
        (simp on refl)

-- The loop, with a packet that is begun.
pub recv_loop-Chunks :
    (n : ℕ) (p : Packet) (all : Bytes) (s : Socket) (q : Packet)
    → Follows p all s q
    → s.connected ≡ true
    → length s.answers < n
    → Chunks p all s (recv_loop n unpack s q)
unfolding recv_loop now
recv_loop-Chunks zero p all s q f on less = absurd (omega (arith, less))
recv_loop-Chunks (suc n) p all s q f on less =
    subst (λ u. Chunks p all s (round n s u)) (sym (parse_follows p all s q f))
      (round-Chunks n p all s q f on (λ b t r g on' fewer.
        recv_loop-Chunks n p (all ++ b) t r g on' (omega (arith, less, fewer))))
