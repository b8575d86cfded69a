-- ===== src/Server/Socket/Rest.antt =====
-- io.cc: the part of `gearman_io_send` that sends the workload.
use mathlib.Core.Path.{subst}
use gearmand.Prelude.{
  take_all, length-drop, ◌-◌, ◌≤◌, ◌<◌, ◌≡◌, inl, inr, refl, ap, ◌∙◌, Bool, true, false, ◌++◌,
  length, take, drop, ltb, Bool-cases, arith, ltb→lt,
}
use gearmand.Protocol.Packet.{Bytes, Packet, is_some}
use gearmand.Server.Socket.{Socket, SendState, SendPointer, send_buffer_room}
use gearmand.Server.Socket.Flush.{pending, workload_of, is_flush_data}
use gearmand.Server.Socket.Send.{flush_and_close, finish, send_rest}
use gearmand.Server.Socket.Outcome.{CanFlush, source}
use gearmand.Server.Socket.Stream.{IsSendable, Sending}
use gearmand.Server.Socket.Ending.{flush_and_close-Sending}

-- The buffer is ready for the end of the call, or for more.
pub record IsFilled (total : Bytes) (s : Socket) : Type 0 where
  pub connected : s.connected ≡ true
  pub pointer : s.send_buffer_ptr ≡ SendPointer.in_buffer 0
  pub start : s.send_data_offset ≡ 0
  pub room : s.send_buffer_size ≤ send_buffer_room
  pub fits : s.send_buffer_size ≤ length s.send_buffer
  pub sent : s.sent ++ take s.send_buffer_size s.send_buffer ≡ total

pub source_start :
    (s : Socket) (p : Packet)
    → s.send_buffer_ptr ≡ SendPointer.in_buffer 0
    → source s p ≡ s.send_buffer
unfolding drop
source_start s p e = rw e refl

pub pending_start :
    (s : Socket) (p : Packet)
    → s.send_buffer_ptr ≡ SendPointer.in_buffer 0
    → pending s p ≡ take s.send_buffer_size s.send_buffer
pending_start s p e = ap (take s.send_buffer_size) (source_start s p e)

module _ (s : Socket) (p : Packet) (total : Bytes) (h : IsFilled total s) where
  pub filled-CanFlush :
      (st : SendState) → is_flush_data st ≡ false → CanFlush (record s { send_state = st }) p
  filled-CanFlush st e = record {
    connected = h.connected;
    fits = rw (source_start s p h.pointer) h.fits;
    exact = λ x. cc;
  }

  pub finish-Sending : (last : Bool) → Sending total last p (finish last s p)
  unfolding finish
  finish-Sending true =
      subst
        (λ x. Sending x true p (flush_and_close (record s { send_state = SendState.flushing }) p))
        (ap (λ x. s.sent ++ x) (pending_start s p h.pointer) ∙ h.sent)
        (flush_and_close-Sending (record s { send_state = SendState.flushing }) p true
          (filled-CanFlush SendState.flushing refl) (inl (refl, h.start)))
  finish-Sending false = inl (
    refl,
    record {
      ready = record {
        can = filled-CanFlush SendState.none_to_send refl;
        state = (h.pointer, (h.start, h.room));
      };
      idle = refl;
      sent = rw (pending_start s p h.pointer) h.sent;
      empty = inl refl;
    },
  )

-- The rest of a workload, once the buffer is empty.
module _ (s : Socket) (p : Packet) (last : Bool) (on : s.connected ≡ true)
    (pointer : s.send_buffer_ptr ≡ SendPointer.in_buffer 0) (good : IsSendable p)
    (some_left : s.send_data_offset < p.data_size) where
  left : Bytes
  left = drop s.send_data_offset (workload_of p)

  length-left : length left ≡ p.data_size - s.send_data_offset
  unfolding left
  length-left =
      length-drop s.send_data_offset (workload_of p) ∙ ap (λ n. n - s.send_data_offset) good.size

  workload_there : is_some p.workload ≡ true
  workload_there = elim good.there [ inl e ↦ e | inr e ↦ absurd (omega (arith, e)) ]

  all_left : take (p.data_size - s.send_data_offset) left ≡ left
  all_left = take_all _ left (omega (arith, length-left))

  small_rest : Socket
  small_rest = record s {
    send_buffer = take (p.data_size - s.send_data_offset) left;
    send_buffer_size = p.data_size - s.send_data_offset;
    send_data_size = 0;
    send_data_offset = 0;
  }

  large_rest : Socket
  large_rest = record s {
    send_data_size = p.data_size;
    send_buffer_size = p.data_size - s.send_data_offset;
    send_buffer_ptr = SendPointer.in_data s.send_data_offset;
    send_state = SendState.flush_data;
  }

  send_rest-Sending : Sending (s.sent ++ left) last p (send_rest last s p)
  unfolding send_rest left small_rest large_rest
  send_rest-Sending = elim (Bool-cases (ltb (p.data_size - s.send_data_offset) send_buffer_room)) [
    | inl small ↦
        rw (workload_there, small)
          (finish-Sending small_rest p (s.sent ++ left)
            (record {
              connected = on;
              pointer = pointer;
              start = refl;
              room = omega (arith, ltb→lt _ _ small);
              fits = rw (all_left, length-left) (omega arith);
              sent = rw (all_left, all_left) refl;
            })
            last)
    | inr large ↦
        rw (workload_there, large)
          (subst (λ x. Sending x last p (flush_and_close large_rest p))
            (ap (λ x. s.sent ++ x) all_left)
            (flush_and_close-Sending large_rest p last
              (record {
                connected = on;
                fits = rw length-left (omega arith);
                exact = λ _. (omega arith, omega arith);
              })
              (inr refl)))
  ]

  pub send_rest-Sends :
      Sending (s.sent ++ drop s.send_data_offset (workload_of p)) last p (send_rest last s p)
  unfolding left
  send_rest-Sends = send_rest-Sending
