-- ===== src/Client/Flush/Sends.antt =====
-- connection.cc: a flush of the send buffer over a connection that stands.
use gearmand.Prelude.{
  ℕ, zero, suc, ◌-◌, ◌<◌, ◌≤◌, ◌≡◌, ◌∙◌, refl, ap, sym, true, false, Option, none, some, List, [],
  ◌∷◌, ◌++◌, take, drop, length, arith, Bool-cases, if-true, inl, inr, ◌==◌, ==→eq, drop-drop,
  take-split, take-take,
}
use mathlib.Core.List.{append_assoc, append-nil}
use mathlib.Core.Path.{subst}
use gearmand.Protocol.Packet.{Bytes}
use gearmand.Client.Return.{Return, failed}
use gearmand.Client.Connection.{Connection, ConnectState, SendState, SendPointer, close_socket}
use gearmand.Client.Flush.{
  Line, Round, SendAnswer, Errno, flush, flush_round, send_round, send_answered, after_bytes,
  blocked, set_con, waited, flushed, perror, pending, from_pointer, advanced, is_flush_data, amount,
}

-- The connection stands, a call does not block, and what is sent is the send buffer.
pub record IsReady (l : Line) : Type 0 where
  pub state : l.con.state ≡ ConnectState.connected
  pub is_open : l.con.is_open ≡ true
  pub non_blocking : l.non_blocking ≡ true
  pub buffered : is_flush_data l.con.send_state ≡ false

-- What came of a flush: all was sent, the rest waits for room to write, or the socket was closed with
-- a beginning sent.
pub data Flushing (total payload : Bytes) (m : Line) (r : Return) : Type 0 where
  all_sent :
      r ≡ Return.success
      → m.sent ≡ total
      → m.con.send_buffer_size ≡ 0
      → m.con.send_state ≡ SendState.state_none
      → Flushing total payload m r
  rest_waits :
      r ≡ Return.io_wait
      → m.sent ++ pending m.con payload ≡ total
      → m.con.pollout ≡ true
      → IsReady m
      → Flushing total payload m r
  closed :
      failed r ≡ true
      → (unsent : Bytes) → m.sent ++ unsent ≡ total
      → m.con.is_open ≡ false
      → Flushing total payload m r

abbrev all_of : Line → Bytes → Bytes
all_of l payload = l.sent ++ pending l.con payload

-- What a round comes to.
abbrev Goes : Bytes → Bytes → ℕ → Round → Type 0
Goes total payload n (Round.returned m r) = Flushing total payload m r
Goes total payload n (Round.again m) = IsReady m × (all_of m payload ≡ total) × (length m.sends < n)

blocked-Goes :
    (l : Line) (payload : Bytes) (n : ℕ) → IsReady l → Goes (all_of l payload) payload n (blocked l)
unfolding blocked
blocked-Goes l payload n y =
    let m : Line = set_con l (record l.con { pollout = true }) in
    subst (Goes (all_of l payload) payload n)
      (sym (
        if-true l.non_blocking (Round.returned m Return.io_wait) (waited m l.waits) y.non_blocking))
      (Flushing.rest_waits refl refl refl (record {
        state = y.state;
        is_open = y.is_open;
        non_blocking = y.non_blocking;
        buffered = y.buffered;
      }))

from_pointer-advanced :
    (a : SendPointer) (n : ℕ) (buffer payload : Bytes)
    → from_pointer (advanced a n) buffer payload ≡ drop n (from_pointer a buffer payload)
from_pointer-advanced (SendPointer.in_buffer k) n b w = sym (drop-drop n k b)
from_pointer-advanced (SendPointer.in_data k) n b w = sym (drop-drop n k w)

amount-le : (n size : ℕ) → amount n size ≤ size
amount-le n size = ground arith

perror-failed : (e : Errno) → failed (perror e) ≡ true
unfolding failed
perror-failed Errno.eagain = refl
perror-failed _ = refl

closed_now : (c : Connection) → c.is_open ≡ true → (close_socket c).is_open ≡ false
unfolding close_socket
closed_now c o = simp o

module _ (l : Line) (payload : Bytes) (y : IsReady l) where
  abbrev source : Bytes
  source = from_pointer l.con.send_buffer_ptr l.con.send_buffer payload

  abbrev size : ℕ
  size = l.con.send_buffer_size

  taken_all : (k : ℕ) → k ≤ size → size - k ≡ 0 → take k (take size source) ≡ take size source
  taken_all k u z =
      let same : k ≡ size = omega arith in take-take k size source u ∙ ap (λ j. take j source) same

  taken_part :
      (k : ℕ)
      → k ≤ size
      → (l.sent ++ take k (take size source))
          ++ take
              (size - k)
              (from_pointer (advanced l.con.send_buffer_ptr k) l.con.send_buffer payload)
        ≡ all_of l payload
  taken_part k u =
      rw
        (
          from_pointer-advanced l.con.send_buffer_ptr k l.con.send_buffer payload,
          take-take k size source u,
          append_assoc l.sent (take k source) (take (size - k) (drop k source)),
        )
        (ap (λ xs. l.sent ++ xs) (take-split k size source u))

  bytes-Goes :
      (k : ℕ) (rest : List SendAnswer) (n : ℕ)
      → k ≤ size
      → length rest < n
      → Goes (all_of l payload) payload n (
          after_bytes
            (record l {
              sends = rest;
              sent = l.sent ++ take k (pending l.con payload);
              con = record l.con { send_buffer_size = size - k };
            })
            k)
  unfolding after_bytes
  bytes-Goes k rest n u s = elim (Bool-cases (size - k == 0)) [
    | inl e ↦
        rw (y.buffered, e)
          (Flushing.all_sent refl (ap (λ xs. l.sent ++ xs) (taken_all k u (==→eq (size - k) 0 e)))
            (==→eq (size - k) 0 e) refl)
    | inr e ↦
        rw (y.buffered, e)
          (
            record {
              state = y.state;
              is_open = y.is_open;
              non_blocking = y.non_blocking;
              buffered = y.buffered;
            },
            taken_part k u,
            s,
          )
  ]

  error-Goes :
      (e : Errno) (rest : List SendAnswer) (n : ℕ)
      → length rest < n
      → Goes (all_of l payload) payload n (send_answered l payload (SendAnswer.err e ∷ rest))
  unfolding send_answered close_socket
  error-Goes Errno.eagain rest n s =
      blocked-Goes (record l { sends = rest }) payload n
        (record {
          state = y.state;
          is_open = y.is_open;
          non_blocking = y.non_blocking;
          buffered = y.buffered;
        })
  error-Goes e rest n s =
      Flushing.closed (perror-failed e) (pending l.con payload) refl (closed_now l.con y.is_open)

  answers-Goes :
      (answers : List SendAnswer)
      → l.sends ≡ answers
      → Goes (all_of l payload) payload (length l.sends) (send_answered l payload answers)
  unfolding send_answered
  answers-Goes [] e = blocked-Goes l payload (length l.sends) y
  answers-Goes (SendAnswer.err r ∷ rest) e =
      error-Goes r rest (length l.sends) (omega (arith, ap length e))
  answers-Goes (SendAnswer.took n ∷ rest) e =
      bytes-Goes (amount n size) rest (length l.sends) (amount-le n size)
        (omega (arith, ap length e))

  empty-Goes : size ≡ 0 → Goes (all_of l payload) payload (length l.sends) (flushed l)
  unfolding take
  empty-Goes z =
      Flushing.all_sent refl (sym (append-nil l.sent) ∙ ap (λ k. l.sent ++ take k source) (sym z)) z
        refl

  round-Goes : Goes (all_of l payload) payload (length l.sends) (send_round l payload)
  unfolding send_round
  round-Goes = elim (Bool-cases (size == 0)) [
    | inl e ↦ rw e (empty-Goes (==→eq size 0 e))
    | inr e ↦ rw e (answers-Goes l.sends refl)
  ]

-- A flush that ends, and what came of it.
abbrev pub Flushed : Bytes → Bytes → Option (Line × Return) → Type 0
Flushed total payload none = ⊥
Flushed total payload (some (m, r)) = Flushing total payload m r

next_round :
    (rounds : ℕ) (total payload : Bytes) (n : ℕ) (o : Round)
    → Goes total payload n o
    → ((m : Line)
        → IsReady m
        → all_of m payload ≡ total
        → length m.sends < n
        → Flushed total payload (flush rounds m payload))
    → Flushed total payload
        (elim o [ Round.returned m r ↦ some (m, r) | Round.again m ↦ flush rounds m payload ])
next_round rounds total payload n (Round.returned m r) g h = g
next_round rounds total payload n (Round.again m) g h = h m g.0 g.1 g.2

-- A flush of the send buffer over a connection that stands, where calls do not block, ends for more
-- rounds than there are answers to sends: with all that was pending sent, the buffer empty and the
-- connection idle; or to wait for room to write, with nothing lost; or with the socket closed and a
-- beginning sent.
pub flush-Flushed :
    (rounds : ℕ) (l : Line) (payload : Bytes)
    → IsReady l
    → length l.sends < rounds
    → Flushed (all_of l payload) payload (flush rounds l payload)
unfolding flush flush_round
flush-Flushed zero l payload y u = absurd (omega arith)
flush-Flushed (suc rounds) l payload y u =
    next_round rounds (all_of l payload) payload (length l.sends)
      (flush_round l.con.state l payload)
      (subst (λ s. Goes (all_of l payload) payload (length l.sends) (flush_round s l payload))
        (sym y.state) (round-Goes l payload y))
      (λ m z e s.
        subst (λ total. Flushed total payload (flush rounds m payload)) e
          (flush-Flushed rounds m payload z (omega arith)))
