-- ===== src/Server/Socket/Ending.antt =====
-- io.cc: the flush at the end of `gearman_io_send`, and its close.
use gearmand.Prelude.{
  ◌≡◌, ◌≢◌, ◌⊎◌, inl, inr, refl, ap, ◌∙◌, Bool, true, not, ◌&&◌, [], ◌++◌, take, if◌then◌else◌,
  Bool-cases, arith,
}
use mathlib.Core.List.{append-nil}
use gearmand.Protocol.Errors.{Error, failed, eq_success}
use gearmand.Protocol.Packet.{Packet}
use gearmand.Server.Socket.{Socket, SendState, close}
use gearmand.Server.Socket.Flush.{flush, pending, is_flush_data}
use gearmand.Server.Socket.Send.{flush_and_close}
use gearmand.Server.Socket.Outcome.{CanFlush, IsFlushed, IsPart, Flushing}
use gearmand.Server.Socket.Delivered.{flush-Flushing}
use gearmand.Server.Socket.Stream.{InState, CanSend, rest_of, stream, IsWaiting, Sending}

is_flush_data-eq : (st : SendState) → is_flush_data st ≡ true → st ≡ SendState.flush_data
is_flush_data-eq SendState.none_to_send h = cc
is_flush_data-eq SendState.pre_flush h = cc
is_flush_data-eq SendState.force_flush h = cc
is_flush_data-eq SendState.flushing h = cc
is_flush_data-eq SendState.flush_data h = refl

-- A flush that waits is taken up by the next call.
module _ (s t : Socket) (p : Packet) (part : IsPart s p t) where
  part-InState :
      (st : SendState)
      → s.send_state ≡ st
      → st ≢ SendState.none_to_send
      → InState st s p
      → InState st t p × (rest_of st t p ≡ rest_of st s p)
  part-InState SendState.none_to_send e other h = absurd (other refl)
  part-InState SendState.pre_flush e other h = (part.data_offset (rw e refl) ∙ h, refl)
  part-InState SendState.force_flush e other h =
      let same = part.data_offset (rw e refl) in (rw same h, rw same refl)
  part-InState SendState.flushing e other h = (part.data_offset (rw e refl) ∙ h, refl)
  part-InState SendState.flush_data e other h =
      (omega (arith, (part.can.exact (rw (part.state, e) refl)).0), refl)

  pub part-IsWaiting :
      s.send_state ≢ SendState.none_to_send → InState s.send_state s p → IsWaiting (stream s p) t p
  part-IsWaiting other h =
      let r = part-InState s.send_state refl other h in
      record {
        ready = record { can = part.can; state = simp part.state r.0 };
        begun = simp part.state other;
        sent =
            ap (λ st. (t.sent ++ pending t p) ++ rest_of st t p) part.state
            ∙ rw (part.sent, r.1) refl;
      }

-- A flush that is done leaves an empty buffer.
module _ (s t : Socket) (p : Packet) (all : IsFlushed s p t) where
  pub flushed-CanSend : t.send_data_offset ≡ 0 → CanSend t p
  flushed-CanSend start = record {
    can = record {
      connected = all.connected;
      fits = rw all.empty (omega arith);
      exact = λ h. absurd (cc (all.state, h));
    };
    state = simp all.state (all.pointer, (start, omega (arith, all.empty)));
  }

  pub flushed-pending : (q : Packet) → pending t q ≡ []
  unfolding take
  flushed-pending q = rw all.empty refl

-- `_connection_flush` and the close that was asked for, in a state that ends with it.
module _ (s : Socket) (p : Packet) (last : Bool) (can : CanFlush s p)
    (ends : ((s.send_state ≡ SendState.flushing) × (s.send_data_offset ≡ 0))
      ⊎ (s.send_state ≡ SendState.flush_data)) where
  ended_offset : (t : Socket) → IsFlushed s p t → t.send_data_offset ≡ 0
  ended_offset t all = elim ends [
    | inl (e, start) ↦ all.data_offset ∙ rw (e, start) refl
    | inr e ↦ all.data_offset ∙ rw e refl
  ]

  ends-InState :
      InState s.send_state s p
      × ((s.send_state ≢ SendState.none_to_send) × (rest_of s.send_state s p ≡ []))
  ends-InState = elim ends [
    | inl (e, start) ↦ simp e (start, ((λ h. cc), refl))
    | inr e ↦ simp e (omega (arith, (can.exact (rw e refl)).0), ((λ h. cc), refl))
  ]

  closing :
      (r : Socket × Error)
      → Flushing s p r
      → Sending (s.sent ++ pending s p) last p (
          if not (failed r.1) && r.0.close_after_flush
          then (close r.0, Error.lost_connection)
          else r)
  unfolding close failed
  closing (t, e) (inl (ok, all)) = rw ok (elim (Bool-cases t.close_after_flush) [
    | inl shut ↦
        simp (shut, all.connected)
          (inr (
            inr ((λ h. cc), record { unsent = []; sent = append-nil _ ∙ all.sent; closed = refl })))
    | inr open_still ↦ simp open_still (
        inl (
          refl,
          record {
            ready = flushed-CanSend s t p all (ended_offset t all);
            idle = all.state;
            sent = rw (flushed-pending s t p all p) (append-nil _ ∙ all.sent);
            empty = inr all.empty;
          },
        ))
  ])
  closing (t, e) (inr (inl (io, part))) =
      let w = part-IsWaiting s t p part ends-InState.1.0 ends-InState.0 in
      rw io (
        inr (
          inl (
            refl,
            record {
              ready = w.ready;
              begun = w.begun;
              sent = w.sent ∙ rw ends-InState.1.1 (append-nil _);
            },
          )))
  closing (t, e) (inr (inr (bad, cut))) = elim (Bool-cases (failed e)) [
    | inl f ↦
        rw f (inr (inr (bad, record { unsent = cut.unsent; sent = cut.sent; closed = cut.closed })))
    | inr f ↦ absurd (bad (eq_success e f))
  ]

  pub flush_and_close-Sending : Sending (s.sent ++ pending s p) last p (flush_and_close s p)
  unfolding flush_and_close
  flush_and_close-Sending = closing (flush s p) (flush-Flushing s p can)
