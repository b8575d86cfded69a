-- ===== src/Server/Socket/Reads.antt =====
-- io.cc: what a call of `_connection_read` gives.
use gearmand.Prelude.{
  take-drop, ℕ, ◌≤◌, ◌<◌, ◌≡◌, ◌≢◌, ◌⊎◌, inl, inr, refl, sym, Bool, true, false, List, [], ◌∷◌,
  ◌++◌, length, ◌==◌, Bool-cases, arith, length-take-le,
}
use gearmand.Protocol.Errors.{Error, failed}
use gearmand.Protocol.Packet.{Bytes}
use gearmand.Server.Socket.{Socket, Answer, Errno, close, watch_in, wait_for}
use gearmand.Server.Socket.Flush.{with_answers}
use gearmand.Server.Socket.Recv.{
  ReadBytes, read_answers, connection_read, arrived, no_bytes, smaller,
}

-- Nothing of the receiving side is changed.
pub record IsUnread (s t : Socket) : Type 0 where
  pub connected : t.connected ≡ true
  pub incoming : t.incoming ≡ s.incoming
  pub buffer : t.recv_buffer ≡ s.recv_buffer
  pub packet : t.recv_packet ≡ s.recv_packet
  pub data_size : t.recv_data_size ≡ s.recv_data_size
  pub data_offset : t.recv_data_offset ≡ s.recv_data_offset
  pub state : t.recv_state ≡ s.recv_state

-- Some bytes were taken off what has arrived, and an answer was used.
pub record IsRead (answers : ℕ) (room : ℕ) (s t : Socket) (b : Bytes) : Type 0 where
  pub connected : t.connected ≡ true
  pub incoming : s.incoming ≡ b ++ t.incoming
  pub fits : length b ≤ room
  pub buffer : t.recv_buffer ≡ s.recv_buffer
  pub packet : t.recv_packet ≡ s.recv_packet
  pub data_size : t.recv_data_size ≡ s.recv_data_size
  pub data_offset : t.recv_data_offset ≡ s.recv_data_offset
  pub state : t.recv_state ≡ s.recv_state
  pub used : length t.answers < answers

-- What a read gives, by its result.
abbrev pub Reading : ℕ → ℕ → Socket → ReadBytes → Type 0
Reading answers room s (t, b, e) =
    ((e ≡ Error.success) × IsRead answers room s t b)
    ⊎ (((e ≡ Error.io_wait) × IsUnread s t) ⊎ ((e ≢ Error.success) × (t.connected ≡ false)))

module _ (answers room : ℕ) (s : Socket) (on : s.connected ≡ true) where
  unread :
      (rest : List Answer) (polled : Bool)
      → IsUnread s (record s { answers = rest; pollin = polled })
  unread rest polled = record {
    connected = on;
    incoming = refl;
    buffer = refl;
    packet = refl;
    data_size = refl;
    data_offset = refl;
    state = refl;
  }

  wait-Reading :
      (rest : List Answer)
      → Reading answers room s (no_bytes (wait_for (watch_in (with_answers s rest))))
  unfolding watch_in close failed
  wait-Reading rest = elim (Bool-cases s.pollin) [
    | inl set ↦ simp set (inr (inl (refl, unread rest true)))
    | inr unset ↦ elim (Bool-cases (failed (s.event_watch true s.pollout))) [
      | inl bad ↦ simp (unset, bad) (inr (inr ((λ h. cc bad), simp on refl)))
      | inr fine ↦ simp (unset, fine) (inr (inl (refl, unread rest true)))
    ]
  ]

  closed-Reading :
      (rest : List Answer) (e : Error)
      → e ≢ Error.success
      → Reading answers room s (no_bytes (close (with_answers s rest), e))
  unfolding close
  closed-Reading rest e bad = inr (inr (bad, simp on refl))

  arrived-Reading :
      (rest : List Answer) (n : ℕ)
      → n ≤ room
      → n ≤ length s.incoming
      → length rest < answers
      → Reading answers room s (arrived (with_answers s rest) n)
  unfolding close
  arrived-Reading rest n fits there less = elim (Bool-cases (n == 0)) [
    | inl z ↦ simp z (closed-Reading rest Error.lost_connection (λ h. cc))
    | inr more ↦ simp more (
        inl (
          refl,
          record {
            connected = on;
            incoming = sym (take-drop n s.incoming);
            fits = omega (arith, length-take-le n s.incoming);
            buffer = refl;
            packet = refl;
            data_size = refl;
            data_offset = refl;
            state = refl;
            used = less;
          },
        ))
  ]

read_answers-Reading :
    (l : List Answer) (answers room : ℕ) (s : Socket)
    → s.connected ≡ true
    → length l ≤ answers
    → Reading answers room s (read_answers l s room)
unfolding read_answers
read_answers-Reading [] answers room s on le = wait-Reading answers room s on []
read_answers-Reading (Answer.took n ∷ rest) answers room s on le =
    arrived-Reading answers room s on rest (smaller n (smaller room (length s.incoming)))
      (ground arith) (ground arith) (omega arith)
read_answers-Reading (Answer.err Errno.eagain ∷ rest) answers room s on le =
    wait-Reading answers room s on rest
read_answers-Reading (Answer.err Errno.eintr ∷ rest) answers room s on le =
    read_answers-Reading rest answers room s on (omega arith)
read_answers-Reading (Answer.err Errno.epipe ∷ rest) answers room s on le =
    closed-Reading answers room s on rest _ (λ h. cc)
read_answers-Reading (Answer.err Errno.econnreset ∷ rest) answers room s on le =
    closed-Reading answers room s on rest _ (λ h. cc)
read_answers-Reading (Answer.err Errno.ehostdown ∷ rest) answers room s on le =
    closed-Reading answers room s on rest _ (λ h. cc)
read_answers-Reading (Answer.err Errno.enomem ∷ rest) answers room s on le =
    closed-Reading answers room s on rest _ (λ h. cc)
read_answers-Reading (Answer.err Errno.other_errno ∷ rest) answers room s on le =
    closed-Reading answers room s on rest _ (λ h. cc)

pub connection_read-Reading :
    (s : Socket) (room : ℕ)
    → s.connected ≡ true
    → Reading (length s.answers) room s (connection_read s room)
unfolding connection_read
connection_read-Reading s room on =
    read_answers-Reading s.answers (length s.answers) room s on (omega arith)
