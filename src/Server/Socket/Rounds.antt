-- ===== src/Server/Socket/Rounds.antt =====
-- io.cc: a round of the loop of `_connection_flush` that sent some bytes.
use gearmand.Server.Socket.Outcome.{CanFlush, IsFlushed, IsPart, source}
use gearmand.Prelude.{
  drop-drop, length-drop, take-split, take-take, ℕ, ◌+◌, ◌-◌, ◌≤◌, ◌<◌, ◌≡◌, inl, inr, refl, sym,
  ap, ◌∙◌, true, false, List, ◌++◌, take, drop, ◌==◌, if◌then◌else◌, Bool-cases, arith, ==→eq,
}
use mathlib.Core.List.{append_assoc}
use gearmand.Protocol.Packet.{Bytes, Packet}
use gearmand.Server.Socket.{Socket, Answer, SendState, SendPointer}
use gearmand.Server.Socket.Flush.{
  flushed, pending, from_pointer, advanced, after_send, sent_round, Round, workload_of,
  is_flush_data, with_answers,
}

from_pointer-advanced :
    (a : SendPointer) (n : ℕ) (buffer workload : Bytes)
    → from_pointer (advanced a n) buffer workload ≡ drop n (from_pointer a buffer workload)
from_pointer-advanced (SendPointer.in_buffer k) n b w = sym (drop-drop n k b)
from_pointer-advanced (SendPointer.in_data k) n b w = sym (drop-drop n k w)

-- What a round that sent some bytes comes to.
abbrev pub RoundIs : Socket → Packet → Round → Type 0
RoundIs s p (Round.ended t) = (rest : List Answer) → IsFlushed s p (flushed (with_answers t rest)).0
RoundIs s p (Round.returned t) = ⊥
RoundIs s p (Round.goes_on t) = IsPart s p t

module _ (s : Socket) (p : Packet) (can : CanFlush s p) (n : ℕ)
    (n_le : n ≤ s.send_buffer_size) where
  all_taken : s.send_buffer_size - n ≡ 0 → take n (pending s p) ≡ pending s p
  all_taken z =
      let same : n ≡ s.send_buffer_size = omega arith in
      take-take n s.send_buffer_size (source s p) n_le ∙ ap (λ k. take k (source s p)) same

  taken_then_left :
      take n (pending s p) ++ take (s.send_buffer_size - n) (drop n (source s p)) ≡ pending s p
  taken_then_left =
      rw (take-take n s.send_buffer_size (source s p) n_le)
        (take-split n s.send_buffer_size (source s p) n_le)

  -- Of a round that goes on: the pointer is behind what was taken.
  moved : ℕ → Socket
  moved offset = record (after_send s p n) {
    send_data_offset = offset;
    send_buffer_ptr = advanced s.send_buffer_ptr n;
  }

  source-moved : (offset : ℕ) → source (moved offset) p ≡ drop n (source s p)
  unfolding moved
  source-moved offset = from_pointer-advanced s.send_buffer_ptr n s.send_buffer (workload_of p)

  moved-IsPart :
      (offset : ℕ)
      → (is_flush_data s.send_state ≡ true
          → (offset + (s.send_buffer_size - n) ≡ s.send_data_size) × (0 < s.send_buffer_size - n))
      → (is_flush_data s.send_state ≡ false → offset ≡ s.send_data_offset)
      → IsPart s p (moved offset)
  unfolding moved
  moved-IsPart offset exact kept = record {
    sent =
        rw (source-moved offset)
          (append_assoc s.sent (take n (pending s p)) _ ∙ ap (λ l. s.sent ++ l) taken_then_left);
    state = refl;
    can = record {
      connected = can.connected;
      fits = rw (source-moved offset, length-drop n (source s p)) (omega (arith, can.fits));
      exact = exact;
    };
    data_size = refl;
    data_offset = kept;
    closes = refl;
  }

  ended-IsFlushed :
      (size offset : ℕ) (rest : List Answer)
      → s.send_buffer_size - n ≡ 0
      → size ≡ (if is_flush_data s.send_state then 0 else s.send_data_size)
      → offset ≡ (if is_flush_data s.send_state then 0 else s.send_data_offset)
      → IsFlushed s p (record (after_send s p n) {
        send_data_size = size;
        send_data_offset = offset;
        answers = rest;
        send_state = SendState.none_to_send;
        send_buffer_ptr = SendPointer.in_buffer 0;
      })
  ended-IsFlushed size offset rest z same_size same_offset = record {
    sent = ap (λ l. s.sent ++ l) (all_taken z);
    state = refl;
    pointer = refl;
    empty = z;
    connected = can.connected;
    data_size = same_size;
    data_offset = same_offset;
    closes = refl;
  }

  pub sent_round-RoundIs : RoundIs s p (sent_round (after_send s p n) n)
  unfolding sent_round moved
  sent_round-RoundIs = elim (Bool-cases (is_flush_data s.send_state)) [
    | inl d ↦ elim (Bool-cases (s.send_data_offset + n == s.send_data_size)) [
      | inl e ↦
          simp (d, e)
            (λ rest.
              ended-IsFlushed 0 0 rest (omega (arith, (can.exact d).0, ==→eq _ _ e)) (rw d refl)
                (rw d refl))
      | inr e ↦ elim (Bool-cases (s.send_buffer_size - n == 0)) [
        | inl z ↦ absurd (ground (arith, (can.exact d).0, ==→eq _ _ z, e))
        | inr z ↦
            simp (d, e, z)
              (moved-IsPart (s.send_data_offset + n)
                (λ _. (omega (arith, (can.exact d).0), ground (arith, z))) (λ x. cc))
      ]
    ]
    | inr d ↦ elim (Bool-cases (s.send_buffer_size - n == 0)) [
      | inl e ↦
          simp (d, e)
            (λ rest.
              ended-IsFlushed s.send_data_size s.send_data_offset rest (==→eq _ _ e) (rw d refl)
                (rw d refl))
      | inr e ↦ simp (d, e) (moved-IsPart s.send_data_offset (λ x. cc) (λ _. refl))
    ]
  ]
