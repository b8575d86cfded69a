-- ===== src/Server/Socket/Sends.antt =====
-- io.cc: `gearman_io_send` loses no byte.
use gearmand.Prelude.{
  ℕ, suc, ◌≤◌, ◌<◌, ◌≡◌, ◌≢◌, ◌⊎◌, inl, inr, refl, sym, ap, ◌∙◌, Bool, true, false, not, Option,
  none, some, [], ◌++◌, length, take, ltb, ◌==◌, if◌then◌else◌, Bool-cases, arith, ltb→lt, ltb→le,
}
use mathlib.Core.List.{append-nil, append_assoc}
use gearmand.Protocol.Errors.{Error, failed, eq_success}
use gearmand.Protocol.Packet.{Bytes, Packet}
use gearmand.Server.Socket.{Socket, SendState}
use gearmand.Server.Socket.Flush.{flush, pending, workload_of}
use gearmand.Server.Socket.Send.{
  flush_and_close, force, send_data, pack_loop, io_send, put_behind, Packing, pack_rounds,
}
use gearmand.Server.Socket.Outcome.{CanFlush, IsFlushed, Flushing}
use gearmand.Server.Socket.Delivered.{flush-Flushing}
use gearmand.Server.Socket.Stream.{
  IsSendable, InState, CanSend, rest_of, stream, IsWaiting, IsClosed, Sending,
}
use gearmand.Server.Socket.Ending.{flush_and_close-Sending, part-IsWaiting}
use gearmand.Protocol.Packet.Text.{pack}
use gearmand.Server.Socket.Send.{room_left, after_packing}
use gearmand.Server.Socket.Rest.{IsFilled, filled-CanFlush, source_start, pending_start}
use gearmand.Server.Socket.Data.{send_data-Sending, put_behind-IsFilled, force-Sending}
use mathlib.Core.Path.{subst}

-- What the loop that packs comes to, of all that is to be sent: the header is in the buffer, or the
-- call returns.
abbrev IsPacked : Bytes → Packet → Option Packing → Type 0
IsPacked total p none = ⊥
IsPacked total p (some (Packing.packed t)) = IsFilled (total ++ p.args) t
IsPacked total p (some (Packing.stopped t e)) =
    ((e ≡ Error.io_wait) × IsWaiting (total ++ (p.args ++ workload_of p)) t p)
    ⊎ ((e ≢ Error.success) × IsClosed (total ++ (p.args ++ workload_of p)) t)

module _ (p : Packet) (room : ℕ) where
  pack_into : length p.args ≤ room → pack p room ≡ (p.args, Error.success)
  unfolding pack
  pack_into h = ground arith

  pack_too_large : room < length p.args → pack p room ≡ ([], Error.flush_data)
  unfolding pack
  pack_too_large h = ground arith

module _ (s : Socket) (p : Packet) (n : ℕ) where
  pack_fits :
      length p.args ≤ room_left s
      → pack_loop (suc n) pack false s p ≡ some (Packing.packed (put_behind s p.args))
  unfolding pack_loop
  pack_fits h = rw (pack_loop, pack_into p (room_left s) h) (rw (pack_into p (room_left s) h) refl)

  pack_full :
      room_left s < length p.args
      → s.send_buffer_size == 0 ≡ false
      → pack_loop (suc n) pack false s p
        ≡ pack_loop n pack true (record s { send_state = SendState.pre_flush }) p
  unfolding pack_loop
  pack_full h more = rw (pack_loop, pack_too_large p (room_left s) h, more) refl

pack_filled :
    (s : Socket) (p : Packet) (n : ℕ) (total : Bytes)
    → IsFilled total s
    → length p.args ≤ room_left s
    → IsPacked total p (pack_loop (suc n) pack false s p)
pack_filled s p n total h le =
    rw (pack_fits s p n le) (put_behind-IsFilled s total p.args h (omega (arith, h.room)))

-- With the flush before the header.
module _ (s : Socket) (p : Packet) (good : IsSendable p) (can : CanFlush s p)
    (at_flush : s.send_state ≡ SendState.pre_flush) (start : s.send_data_offset ≡ 0) where
  before : Bytes
  before = s.sent ++ pending s p

  flushed-IsFilled : (t : Socket) → IsFlushed s p t → IsFilled before t
  unfolding before take
  flushed-IsFilled t all = record {
    connected = all.connected;
    pointer = all.pointer;
    start = all.data_offset ∙ rw (at_flush, start) refl;
    room = omega (arith, all.empty);
    fits = omega (arith, all.empty);
    sent = rw all.empty (append-nil _ ∙ all.sent);
  }

  flushed-room : (t : Socket) → IsFlushed s p t → length p.args ≤ room_left t
  flushed-room t all = omega (arith, all.empty, good.header)

  after-IsPacked :
      (n : ℕ) (r : Socket × Error)
      → Flushing s p r
      → IsPacked before p (elim (failed r.1) [
        | true ↦ some (Packing.stopped r.0 r.1)
        | false ↦ pack_loop (suc n) pack false r.0 p
      ])
  unfolding failed before
  after-IsPacked n (t, e) (inl (ok, all)) =
      rw ok (pack_filled t p n before (flushed-IsFilled t all) (flushed-room t all))
  after-IsPacked n (t, e) (inr (inl (io, part))) =
      let w = part-IsWaiting s t p part (λ x. cc) (simp at_flush start) in
      rw io (
        inl (
          io,
          record {
            ready = w.ready;
            begun = w.begun;
            sent = w.sent ∙ ap (λ st. before ++ rest_of st s p) at_flush;
          },
        ))
  after-IsPacked n (t, e) (inr (inr (bad, cut))) = elim (Bool-cases (failed e)) [
    | inl f ↦ rw f (
        inr (
          bad,
          record {
            unsent = cut.unsent ++ (p.args ++ workload_of p);
            sent = sym (append_assoc t.sent cut.unsent _) ∙ rw cut.sent refl;
            closed = cut.closed;
          },
        ))
    | inr f ↦ absurd (bad (eq_success e f))
  ]

  pre_flush-IsPacked : (n : ℕ) → IsPacked before p (pack_loop (suc (suc n)) pack true s p)
  unfolding pack_loop
  pre_flush-IsPacked n = after-IsPacked n (flush s p) (flush-Flushing s p can)

-- With a buffer that may hold earlier packets.
none-IsPacked :
    (s : Socket) (p : Packet) (total : Bytes)
    → IsSendable p
    → IsFilled total s
    → s.send_state ≡ SendState.none_to_send
    → IsPacked total p (pack_loop pack_rounds pack false s p)
unfolding before
none-IsPacked s p total good h idle = elim (Bool-cases (ltb (room_left s) (length p.args))) [
  | inr fits ↦ pack_filled s p 2 total h (ltb→le _ _ fits)
  | inl full ↦
      let flush_first = record s { send_state = SendState.pre_flush } in
      rw (pack_full s p 2 (ltb→lt _ _ full) (ground (arith, good.header, ltb→lt _ _ full))) (
        subst (λ x. IsPacked x p (pack_loop 2 pack true flush_first p))
          (ap (λ x. s.sent ++ x) (pending_start s p h.pointer) ∙ h.sent)
          (pre_flush-IsPacked flush_first p good
            (filled-CanFlush s p total h SendState.pre_flush refl) refl h.start 0))
]

-- What the call comes to: its loop that packs ends, and its result is as it is to be.
abbrev pub Result : Bytes → Bool → Packet → Option (Socket × Error) → Type 0
Result total last p none = ⊥
Result total last p (some r) = Sending total last p r

after_packing-Result :
    (total : Bytes) (last : Bool) (p : Packet) (r : Option Packing)
    → IsSendable p
    → IsPacked total p r
    → Result (total ++ (p.args ++ workload_of p)) last p (after_packing last r p)
after_packing-Result total last p none good h = h
after_packing-Result total last p (some (Packing.packed t)) good h =
    subst (λ x. Sending x last p (send_data last t p)) (append_assoc total p.args (workload_of p))
      (send_data-Sending t p last good (total ++ p.args) h)
after_packing-Result total last p (some (Packing.stopped t e)) good h = inr h

io_send-Result :
    (st : SendState) (s : Socket) (p : Packet) (last : Bool)
    → s.send_state ≡ st
    → IsSendable p
    → CanFlush s p
    → InState st s p
    → Result ((s.sent ++ pending s p) ++ rest_of st s p) last p (elim st [
      | SendState.none_to_send ↦
          if not p.complete
          then some (s, Error.invalid_packet)
          else after_packing last (pack_loop pack_rounds pack false s p) p
      | SendState.pre_flush ↦ after_packing last (pack_loop pack_rounds pack true s p) p
      | SendState.force_flush ↦ some (force last s p)
      | SendState.flushing ↦ some (flush_and_close s p)
      | SendState.flush_data ↦ some (flush_and_close s p)
    ])
unfolding before
io_send-Result SendState.none_to_send s p last e good can (pointer, (start, room)) =
    simp good.complete (
      after_packing-Result _ last p _ good (
        none-IsPacked s p _ good
          (record {
            connected = can.connected;
            pointer = pointer;
            start = start;
            room = room;
            fits = subst (λ b. s.send_buffer_size ≤ length b) (source_start s p pointer) can.fits;
            sent = ap (λ x. s.sent ++ x) (sym (pending_start s p pointer));
          })
          e))
io_send-Result SendState.pre_flush s p last e good can h =
    after_packing-Result _ last p _ good (pre_flush-IsPacked s p good can e h 1)
io_send-Result SendState.force_flush s p last e good can h =
    subst (λ st. Sending ((s.sent ++ pending s p) ++ rest_of st s p) last p (force last s p)) e
      (force-Sending s p last good e h can)
io_send-Result SendState.flushing s p last e good can h =
    subst (λ x. Sending x last p (flush_and_close s p)) (sym (append-nil _))
      (flush_and_close-Sending s p last can (inl (e, h)))
io_send-Result SendState.flush_data s p last e good can h =
    subst (λ x. Sending x last p (flush_and_close s p)) (sym (append-nil _))
      (flush_and_close-Sending s p last can (inr e))

-- For a complete packet whose header fits into the buffer, and a socket in any of its states,
-- `gearman_io_send` ends, and either succeeds with the packet sent or in the buffer behind what was to be
-- sent before (all sent if it is the last), or waits with the rest still to come, or fails and is
-- closed with a beginning of it sent.
pub io_send-Sends :
    (s : Socket) (p : Packet) (last : Bool)
    → IsSendable p
    → CanSend s p
    → Result (stream s p) last p (io_send pack s p last)
unfolding io_send
io_send-Sends s p last good ready =
    io_send-Result s.send_state s p last refl good ready.can ready.state
