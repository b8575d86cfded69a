-- ===== src/Server/Socket/Outcome.antt =====
-- io.cc: what comes of a call of `_connection_flush`.
use gearmand.Prelude.{
  ◌+◌, ◌≤◌, ◌<◌, ◌≡◌, ◌≢◌, ◌⊎◌, inl, inr, refl, sym, ◌∙◌, Bool, true, false, List, ◌++◌, length,
  take, if◌then◌else◌, Bool-cases, arith, ==→eq,
}
use mathlib.Core.List.{append-nil}
use gearmand.Protocol.Errors.{Error, failed}
use gearmand.Protocol.Packet.{Bytes, Packet}
use gearmand.Server.Socket.{Socket, Answer, SendState, SendPointer, close, watch_out, wait_for}
use gearmand.Server.Socket.Flush.{
  empty_now, fault, flushed, pending, from_pointer, workload_of, is_flush_data, with_answers,
}

-- The bytes from the pointer on.
abbrev pub source : Socket → Packet → Bytes
source s p = from_pointer s.send_buffer_ptr s.send_buffer (workload_of p)

-- There is as much to send as is said, and a workload that is sent from where it is ends with it.
pub record CanFlush (s : Socket) (p : Packet) : Type 0 where
  pub connected : s.connected ≡ true
  pub fits : s.send_buffer_size ≤ length (source s p)
  pub exact :
      is_flush_data s.send_state ≡ true
      → (s.send_data_offset + s.send_buffer_size ≡ s.send_data_size) × (0 < s.send_buffer_size)

-- All of it was sent.
pub record IsFlushed (s : Socket) (p : Packet) (t : Socket) : Type 0 where
  pub sent : t.sent ≡ s.sent ++ pending s p
  pub state : t.send_state ≡ SendState.none_to_send
  pub pointer : t.send_buffer_ptr ≡ SendPointer.in_buffer 0
  pub empty : t.send_buffer_size ≡ 0
  pub connected : t.connected ≡ true
  pub data_size : t.send_data_size ≡ (if is_flush_data s.send_state then 0 else s.send_data_size)
  pub data_offset :
      t.send_data_offset ≡ (if is_flush_data s.send_state then 0 else s.send_data_offset)
  pub closes : t.close_after_flush ≡ s.close_after_flush

-- Some of it was sent, and the rest waits.
pub record IsPart (s : Socket) (p : Packet) (t : Socket) : Type 0 where
  pub sent : t.sent ++ pending t p ≡ s.sent ++ pending s p
  pub state : t.send_state ≡ s.send_state
  pub can : CanFlush t p
  pub data_size : t.send_data_size ≡ s.send_data_size
  pub data_offset : is_flush_data s.send_state ≡ false → t.send_data_offset ≡ s.send_data_offset
  pub closes : t.close_after_flush ≡ s.close_after_flush

-- The connection is closed, and what was sent is the beginning of it.
pub record IsCut (s : Socket) (p : Packet) (t : Socket) : Type 0 where
  pub unsent : Bytes
  pub sent : t.sent ++ unsent ≡ s.sent ++ pending s p
  pub closed : t.connected ≡ false

-- What came of a flush, by its result.
abbrev pub Flushing : Socket → Packet → Socket × Error → Type 0
Flushing s p (t, e) =
    ((e ≡ Error.success) × IsFlushed s p t)
    ⊎ (((e ≡ Error.io_wait) × IsPart s p t) ⊎ ((e ≢ Error.success) × IsCut s p t))

module _ (s : Socket) (p : Packet) (can : CanFlush s p) where
  closed-IsCut : (t : Socket) → t.sent ≡ s.sent → t.connected ≡ false → IsCut s p t
  closed-IsCut t same off = record { unsent = pending s p; sent = rw same refl; closed = off }

  pub close-Flushing :
      (rest : List Answer) (e : Error)
      → e ≢ Error.success
      → Flushing s p (fault (with_answers s rest) e)
  unfolding close
  close-Flushing rest e bad = inr (
      inr (
        bad,
        closed-IsCut (close (with_answers s rest)) (simp can.connected refl)
            (simp can.connected refl),
      ))

  pub empty-Flushing :
      (rest : List Answer) → empty_now s ≡ true → Flushing s p (flushed (with_answers s rest))
  unfolding take
  empty-Flushing rest z =
      let none_left : s.send_buffer_size ≡ 0 = ==→eq _ _ z in
      let inside : is_flush_data s.send_state ≡ false =
        elim (Bool-cases (is_flush_data s.send_state)) [
          | inl d ↦ absurd (omega (arith, (can.exact d).1))
          | inr d ↦ d
        ] in
      inl (
        refl,
        record {
          sent = rw none_left (sym (append-nil s.sent));
          state = refl;
          pointer = refl;
          empty = none_left;
          connected = can.connected;
          data_size = rw inside refl;
          data_offset = rw inside refl;
          closes = refl;
        },
      )

  kept-IsPart :
      (rest : List Answer) (out : Bool) → IsPart s p (record s { answers = rest; pollout = out })
  kept-IsPart rest out = record {
    sent = refl;
    state = refl;
    can = record { connected = can.connected; fits = can.fits; exact = can.exact };
    data_size = refl;
    data_offset = λ _. refl;
    closes = refl;
  }

  pub wait-Flushing :
      (rest : List Answer) → Flushing s p (wait_for (watch_out (with_answers s rest)))
  unfolding watch_out close failed
  wait-Flushing rest = elim (Bool-cases s.pollout) [
    | inl on ↦ simp on (inr (inl (refl, kept-IsPart rest true)))
    | inr off ↦ elim (Bool-cases (failed (s.event_watch s.pollin true))) [
      | inl bad ↦
          simp (off, bad)
            (inr (
              inr (
                (λ h. cc bad),
                closed-IsCut (close (record s { answers = rest; pollout = true }))
                    (simp can.connected refl) (simp can.connected refl),
              )))
      | inr good ↦ simp (off, good) (inr (inl (refl, kept-IsPart rest true)))
    ]
  ]

module _ (s t : Socket) (p : Packet) (part : IsPart s p t) where
  pub Flushing-after : (r : Socket × Error) → Flushing t p r → Flushing s p r
  Flushing-after (u, e) (inl (ok, all)) = inl (
    ok,
    record {
      sent = all.sent ∙ part.sent;
      state = all.state;
      pointer = all.pointer;
      empty = all.empty;
      connected = all.connected;
      data_size = all.data_size ∙ rw (part.state, part.data_size) refl;
      data_offset = elim (Bool-cases (is_flush_data s.send_state)) [
        | inl d ↦ all.data_offset ∙ rw (part.state, d) refl
        | inr d ↦ all.data_offset ∙ rw (part.state, d, part.data_offset d) refl
      ];
      closes = all.closes ∙ part.closes;
    },
  )
  Flushing-after (u, e) (inr (inl (io, more))) = inr (
      inl (
        io,
        record {
          sent = more.sent ∙ part.sent;
          state = more.state ∙ part.state;
          can = more.can;
          data_size = more.data_size ∙ part.data_size;
          data_offset = λ d. more.data_offset (rw part.state d) ∙ part.data_offset d;
          closes = more.closes ∙ part.closes;
        },
      ))
  Flushing-after (u, e) (inr (inr (bad, cut))) =
      inr (
        inr (bad, record { unsent = cut.unsent; sent = cut.sent ∙ part.sent; closed = cut.closed }))
