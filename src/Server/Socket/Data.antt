-- ===== src/Server/Socket/Data.antt =====
-- io.cc: `gearman_io_send` from the packed header on.
use gearmand.Prelude.{
  take_all, if-true, if-false, take-drop, length-take, ℕ, ◌+◌, ◌-◌, ◌≤◌, ◌<◌, ◌≡◌, inl, inr, refl,
  sym, ap, ◌∙◌, Bool, true, ◌&&◌, [], ◌∷◌, ◌++◌, length, take, drop, ltb, ◌==◌, if◌then◌else◌,
  Bool-cases, arith, ==→eq, length-append,
}
use mathlib.Core.List.{append-nil, append_assoc}
use gearmand.Protocol.Errors.{Error, failed, eq_success}
use gearmand.Protocol.Packet.{Bytes, Packet, is_some}
use gearmand.Server.Socket.{Socket, SendState, send_buffer_room}
use gearmand.Server.Socket.Flush.{flush, workload_of}
use gearmand.Server.Socket.Send.{
  finish, send_rest, force, send_data, send_copied, copied, put_behind,
}
use gearmand.Server.Socket.Outcome.{CanFlush, Flushing}
use gearmand.Server.Socket.Delivered.{flush-Flushing}
use gearmand.Server.Socket.Stream.{IsSendable, rest_of, stream, Sending}
use gearmand.Server.Socket.Ending.{part-IsWaiting}
use gearmand.Server.Socket.Rest.{
  IsFilled, finish-Sending, send_rest-Sends, pending_start, filled-CanFlush,
}
use mathlib.Core.Path.{subst}

-- From the flush before the rest of the workload on.
module _ (s : Socket) (p : Packet) (last : Bool) (good : IsSendable p)
    (at_force : s.send_state ≡ SendState.force_flush)
    (some_left : s.send_data_offset < p.data_size) where
  forced :
      (r : Socket × Error)
      → Flushing s p r
      → Sending (stream s p) last p (if failed r.1 then r else send_rest last r.0 p)
  unfolding failed
  forced (t, e) (inl (ok, all)) =
      let kept : t.send_data_offset ≡ s.send_data_offset = all.data_offset ∙ rw at_force refl in
      rw ok (
        subst (λ x. Sending x last p (send_rest last t p)) (simp (all.sent, kept, at_force) refl)
          (send_rest-Sends t p last all.connected all.pointer good (omega (arith, kept))))
  forced (t, e) (inr (inl (io, part))) =
      rw io (inr (inl (refl, part-IsWaiting s t p part (λ x. cc) (rw at_force some_left))))
  forced (t, e) (inr (inr (bad, cut))) = elim (Bool-cases (failed e)) [
    | inl f ↦ rw f (
        inr (
          inr (
            bad,
            record {
              unsent = cut.unsent ++ rest_of s.send_state s p;
              sent = sym (append_assoc t.sent cut.unsent _) ∙ rw cut.sent refl;
              closed = cut.closed;
            },
          )))
    | inr f ↦ absurd (bad (eq_success e f))
  ]

  pub force-Sending : CanFlush s p → Sending (stream s p) last p (force last s p)
  unfolding force
  force-Sending can = forced (flush s p) (flush-Flushing s p can)

none_of_it : (xs : Bytes) → length xs ≡ 0 → xs ≡ []
none_of_it [] z = refl
none_of_it (x ∷ xs) z = absurd (omega (arith, z))

-- Bytes put behind those in the buffer.
pub put_behind-IsFilled :
    (s : Socket) (total b : Bytes)
    → IsFilled total s
    → s.send_buffer_size + length b ≤ send_buffer_room
    → IsFilled (total ++ b) (put_behind s b)
put_behind-IsFilled s total b h le =
    let front : length (take s.send_buffer_size s.send_buffer) ≡ s.send_buffer_size =
      length-take s.send_buffer_size s.send_buffer h.fits in
    let all : length (take s.send_buffer_size s.send_buffer ++ b) ≡ s.send_buffer_size + length b =
      length-append (take s.send_buffer_size s.send_buffer) b ∙ ap (λ n. n + length b) front in
    record {
      connected = h.connected;
      pointer = h.pointer;
      start = h.start;
      room = le;
      fits = omega (arith, all);
      sent =
          ap (λ l. s.sent ++ l) (take_all (s.send_buffer_size + length b) _ (omega (arith, all)))
          ∙ (sym (append_assoc s.sent (take s.send_buffer_size s.send_buffer) b)
              ∙ ap (λ l. l ++ b) h.sent);
    }

-- With the header in the buffer.
module _ (s : Socket) (p : Packet) (last : Bool) (good : IsSendable p) (total : Bytes)
    (h : IsFilled total s) where
  -- The first bytes of the workload, with the rest to be forced out behind them.
  force_from :
      (n : ℕ) (t : Socket)
      → IsFilled (total ++ take n (workload_of p)) (record t { send_data_offset = 0 })
      → t.send_data_offset ≡ n
      → n < p.data_size
      → Sending
          (total ++ workload_of p)
          last
          p
          (force last (record t { send_state = SendState.force_flush }) p)
  force_from n t f at some_left =
      let c =
        filled-CanFlush (record t { send_data_offset = 0 }) p _ f SendState.force_flush refl in
      subst (λ x. Sending x last p (force last (record t { send_state = SendState.force_flush }) p))
        (ap (λ x. (t.sent ++ x) ++ drop t.send_data_offset (workload_of p))
            (pending_start t p f.pointer)
          ∙ (rw (f.sent, at) (append_assoc total _ _)
              ∙ ap (λ l. total ++ l) (take-drop n (workload_of p))))
        (force-Sending (record t { send_state = SendState.force_flush }) p last good refl
          (rw at some_left) (record { connected = c.connected; fits = c.fits; exact = λ x. cc }))

  copied-IsFilled :
      (n : ℕ)
      → n ≤ send_buffer_room - s.send_buffer_size
      → n ≤ p.data_size
      → IsFilled (total ++ take n (workload_of p)) (record (copied n s p) { send_data_offset = 0 })
  copied-IsFilled n fits le =
      let l : length (take n (workload_of p)) ≡ n =
        length-take n (workload_of p) (omega (arith, good.size)) in
      let f = put_behind-IsFilled s total (take n (workload_of p)) h (omega (arith, l, h.room)) in
      record {
        connected = f.connected;
        pointer = f.pointer;
        start = refl;
        room = f.room;
        fits = f.fits;
        sent = f.sent;
      }

  finish-copied :
      (n : ℕ)
      → n ≤ send_buffer_room - s.send_buffer_size
      → n ≡ p.data_size
      → Sending
          (total ++ workload_of p)
          last
          p
          (finish last (record (copied n s p) { send_data_offset = 0 }) p)
  finish-copied n fits whole =
      subst (λ x. Sending x last p (finish last (record (copied n s p) { send_data_offset = 0 }) p))
        (ap (λ l. total ++ l) (take_all n (workload_of p) (omega (arith, good.size))))
        (finish-Sending _ p _ (copied-IsFilled n fits (omega arith)) last)

  send_copied-Sending :
      (n : ℕ)
      → n ≤ send_buffer_room - s.send_buffer_size
      → n ≤ p.data_size
      → Sending (total ++ workload_of p) last p (send_copied n last s p)
  unfolding send_copied
  send_copied-Sending n n_room n_size = elim (Bool-cases (n == p.data_size)) [
    | inl e ↦ simp e (finish-copied n n_room (==→eq _ _ e))
    | inr e ↦
        simp e (force_from n (copied n s p) (copied-IsFilled n n_room n_size) refl (ground arith))
  ]

  pub send_data-Sending : Sending (total ++ workload_of p) last p (send_data last s p)
  unfolding send_data take
  send_data-Sending =
      let room = send_buffer_room - s.send_buffer_size in
      let n = if ltb p.data_size room then p.data_size else room in
      let n_room : n ≤ room = ground arith in
      let n_size : n ≤ p.data_size = ground arith in
      elim (Bool-cases (p.data_size == 0)) [
        | inl z ↦
            let e : total ≡ total ++ workload_of p =
              sym (append-nil total)
              ∙ ap (λ l. total ++ l) (sym (none_of_it (workload_of p) (good.size ∙ ==→eq _ _ z))) in
            subst (λ x. Sending (total ++ workload_of p) last p x) (sym (if-true _ _ _ z))
              (subst (λ x. Sending x last p (finish last s p)) e (finish-Sending s p total h last))
        | inr some_data ↦
            let there : is_some p.workload ≡ true = elim good.there [
              | inl e ↦ e
              | inr e ↦ absurd (ground (arith, e, some_data))
            ] in
            elim (Bool-cases (ltb 0 room)) [
              | inl r ↦
                  subst (λ x. Sending (total ++ workload_of p) last p x)
                    (sym (
                      if-false _ _ _ some_data
                      ∙ if-true (is_some p.workload && ltb 0 room) _ _ (rw (there, r) refl)))
                    (send_copied-Sending n n_room n_size)
              | inr r ↦
                  subst (λ x. Sending (total ++ workload_of p) last p x)
                    (sym (
                      if-false _ _ _ some_data
                      ∙ if-false (is_some p.workload && ltb 0 room) _ _ (rw (there, r) refl)))
                    (force_from 0 s
                      (record {
                        connected = h.connected;
                        pointer = h.pointer;
                        start = refl;
                        room = h.room;
                        fits = h.fits;
                        sent = h.sent ∙ sym (append-nil total);
                      })
                      h.start (ground arith))
            ]
      ]
