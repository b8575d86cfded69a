-- ===== src/Server/Socket/Delivered.antt =====
-- io.cc: `_connection_flush` loses no byte.
use gearmand.Server.Socket.Rounds.{RoundIs, sent_round-RoundIs}
use gearmand.Server.Socket.Outcome.{
  CanFlush, IsPart, Flushing, close-Flushing, empty-Flushing, wait-Flushing, Flushing-after,
}
use gearmand.Prelude.{ℕ, ◌+◌, ◌≤◌, inl, inr, refl, List, [], ◌∷◌, ltb, ◌==◌, Bool-cases, arith}
use gearmand.Protocol.Errors.{Error}
use gearmand.Protocol.Packet.{Packet}
use gearmand.Server.Socket.{Socket, Answer, Errno, errno_error, watch_out, wait_for}
use gearmand.Server.Socket.Flush.{
  empty_now, fault, flushed, flush, flush_loop, amount, after_send, sent_round, Round, with_answers,
}

amount_le : (n size : ℕ) → amount n size ≤ size
amount_le n size = ground arith

after_round :
    (rest : List Answer) (idle : ℕ) (s : Socket) (p : Packet) (r : Round)
    → RoundIs s p r
    → ((t : Socket) → IsPart s p t → Flushing s p (flush_loop rest idle t p))
    → Flushing s p (elim r [
      | Round.ended t ↦ flushed (with_answers t rest)
      | Round.returned t ↦ (with_answers t rest, Error.success)
      | Round.goes_on t ↦ flush_loop rest idle t p
    ])
after_round rest idle s p (Round.ended t) is next = inl (refl, is rest)
after_round rest idle s p (Round.returned t) is next = absurd is
after_round rest idle s p (Round.goes_on t) is next = next t is

after_error :
    (rest : List Answer) (s : Socket) (p : Packet)
    → CanFlush s p
    → (e : Errno) (again : Socket × Error) → Flushing s p again
    → Flushing s p (elim e [
      | Errno.eagain ↦ wait_for (watch_out (with_answers s rest))
      | Errno.eintr ↦ again
      | other ↦ fault (with_answers s rest) (errno_error other)
    ])
after_error rest s p can Errno.eagain again next = wait-Flushing s p can rest
after_error rest s p can Errno.eintr again next = next
after_error rest s p can Errno.enomem again next = close-Flushing s p can rest _ (λ h. cc)
after_error rest s p can Errno.epipe again next = close-Flushing s p can rest _ (λ h. cc)
after_error rest s p can Errno.econnreset again next = close-Flushing s p can rest _ (λ h. cc)
after_error rest s p can Errno.ehostdown again next = close-Flushing s p can rest _ (λ h. cc)
after_error rest s p can Errno.other_errno again next = close-Flushing s p can rest _ (λ h. cc)

-- The loop of `_connection_flush`: whatever the answers of `send`, all was sent, or what was not waits
-- where the pointer is, or the connection is closed.
flush_loop-Flushing :
    (l : List Answer) (idle : ℕ) (s : Socket) (p : Packet)
    → CanFlush s p
    → Flushing s p (flush_loop l idle s p)
unfolding flush_loop
flush_loop-Flushing [] idle s p can = elim (Bool-cases (empty_now s)) [
  | inl z ↦ rw z (empty-Flushing s p can [] z)
  | inr z ↦ rw z (wait-Flushing s p can [])
]
flush_loop-Flushing (Answer.took n ∷ rest) idle s p can = elim (Bool-cases (empty_now s)) [
  | inl z ↦ rw (flush_loop, z) (empty-Flushing s p can (Answer.took n ∷ rest) z)
  | inr z ↦ elim (Bool-cases (amount n s.send_buffer_size == 0)) [
    | inl idled ↦ elim (Bool-cases (ltb 5 (idle + 1))) [
      | inl many ↦
          rw (flush_loop, z, idled, many)
            (close-Flushing s p can rest Error.lost_connection (λ h. cc))
      | inr few ↦ rw (flush_loop, z, idled, few) (flush_loop-Flushing rest (idle + 1) s p can)
    ]
    | inr some_taken ↦
        rw (flush_loop, z, some_taken)
          (after_round rest idle s p
            (sent_round (after_send s p (amount n s.send_buffer_size))
              (amount n s.send_buffer_size))
            (sent_round-RoundIs s p can (amount n s.send_buffer_size)
              (amount_le n s.send_buffer_size))
            (λ t part.
              Flushing-after s t p part (flush_loop rest idle t p)
                (flush_loop-Flushing rest idle t p part.can)))
  ]
]
flush_loop-Flushing (Answer.err e ∷ rest) idle s p can = elim (Bool-cases (empty_now s)) [
  | inl z ↦ rw (flush_loop, z) (empty-Flushing s p can (Answer.err e ∷ rest) z)
  | inr z ↦
      rw (flush_loop, z)
        (after_error rest s p can e (flush_loop rest idle s p)
          (flush_loop-Flushing rest idle s p can))
]

-- Whatever `send` answers, `_connection_flush` of a connection with a buffer or a workload to send
-- either succeeds and has sent all of it, or waits and what was sent is followed by what is still
-- pending, or fails, is closed, and what was sent begins what was to be sent.
pub flush-Flushing : (s : Socket) (p : Packet) → CanFlush s p → Flushing s p (flush s p)
unfolding flush
flush-Flushing s p can = simp can.connected (flush_loop-Flushing s.answers 0 s p can)
