-- ===== src/Server/Socket/Loading.antt =====
-- io.cc: what comes of the loop over a workload.
use gearmand.Prelude.{
  take-append_ge, drop-append_ge, length-append, ℕ, ◌-◌, ◌≤◌, ◌<◌, ◌≡◌, ◌≢◌, ◌⊎◌, inl, inr, refl,
  sym, ap, ◌∙◌, true, false, Option, none, some, [], ◌++◌, length, take, drop, arith,
}
use mathlib.Core.List.{append_assoc}
use mathlib.Core.Path.{subst}
use gearmand.Protocol.Errors.{Error}
use gearmand.Protocol.Packet.{Bytes, Packet}
use gearmand.Server.Socket.{Socket, RecvState}
use gearmand.Server.Socket.Flush.{workload_of}
use gearmand.Server.Socket.Recv.{Received}
use gearmand.Server.Socket.Workload.{filled}

-- A workload that is begun.
pub record IsInData (s : Socket) (q : Packet) : Type 0 where
  pub connected : s.connected ≡ true
  pub size : s.recv_data_size ≡ q.data_size
  pub offset : s.recv_data_offset ≡ length (workload_of q)
  pub some_left : length (workload_of q) < q.data_size

abbrev pub left_of : Packet → ℕ
left_of q = q.data_size - length (workload_of q)

-- All of it is there: `more` came, and what is not part of it is in the buffer.
pub record IsLoaded (s : Socket) (q : Packet) (t : Socket) (r : Packet) : Type 0 where
  pub more : Bytes
  pub incoming : s.incoming ≡ more ++ t.incoming
  pub packet : r ≡ filled q (take (left_of q) (s.recv_buffer ++ more))
  pub enough : left_of q ≤ length (s.recv_buffer ++ more)
  pub left : t.recv_buffer ≡ drop (left_of q) (s.recv_buffer ++ more)
  pub connected : t.connected ≡ true
  pub offset : t.recv_data_offset ≡ 0
  pub idle : t.recv_state ≡ RecvState.none_to_read

-- More is wanted: `more` came, and is with the packet.
pub record IsLoading (s : Socket) (q : Packet) (t : Socket) : Type 0 where
  pub more : Bytes
  pub incoming : s.incoming ≡ more ++ t.incoming
  pub kept : t.recv_packet ≡ some (filled q (s.recv_buffer ++ more))
  pub empty : t.recv_buffer ≡ []
  pub ready : IsInData t (filled q (s.recv_buffer ++ more))
  pub state : t.recv_state ≡ s.recv_state

abbrev pub Loads : Socket → Packet → Option Received → Type 0
Loads s q none = ⊥
Loads s q (some (Received.received t r)) = IsLoaded s q t r
Loads s q (some (Received.gave_up t e)) =
    ((e ≡ Error.io_wait) × IsLoading s q t) ⊎ ((e ≢ Error.success) × (t.connected ≡ false))

pub filled_twice : (q : Packet) (a b : Bytes) → filled (filled q a) b ≡ filled q (a ++ b)
filled_twice q a b = rw (append_assoc (workload_of q) a b) refl

pub left_of-filled : (q : Packet) (a : Bytes) → left_of (filled q a) ≡ left_of q - length a
left_of-filled q a = omega (arith, length-append (workload_of q) a)

-- After some bytes were put into the packet and none is in the buffer.
module _ (s t : Socket) (q : Packet) (b : Bytes) (came : s.incoming ≡ b ++ t.incoming)
    (none_left : t.recv_buffer ≡ []) (le : length (s.recv_buffer ++ b) ≤ left_of q)
    (same : t.recv_state ≡ s.recv_state) where
  have : Bytes
  have = s.recv_buffer ++ b

  incoming_after : (m u : Bytes) → t.incoming ≡ m ++ u → s.incoming ≡ (b ++ m) ++ u
  incoming_after m u e = came ∙ (ap (λ x. b ++ x) e ∙ sym (append_assoc b m u))

  all_of : (m : Bytes) → have ++ (t.recv_buffer ++ m) ≡ s.recv_buffer ++ (b ++ m)
  unfolding have
  all_of m = ap (λ x. (s.recv_buffer ++ b) ++ (x ++ m)) none_left ∙ append_assoc s.recv_buffer b m

  take_more :
      (m : Bytes)
      → have ++ take (left_of (filled q have)) (t.recv_buffer ++ m)
        ≡ take (left_of q) (s.recv_buffer ++ (b ++ m))
  unfolding have
  take_more m =
      ap (λ n. have ++ take n (t.recv_buffer ++ m)) (left_of-filled q have)
      ∙ (sym (take-append_ge (left_of q) have (t.recv_buffer ++ m) le)
          ∙ ap (take (left_of q)) (all_of m))

  drop_more :
      (m : Bytes)
      → drop (left_of (filled q have)) (t.recv_buffer ++ m)
        ≡ drop (left_of q) (s.recv_buffer ++ (b ++ m))
  unfolding have
  drop_more m =
      ap (λ n. drop n (t.recv_buffer ++ m)) (left_of-filled q have)
      ∙ (sym (drop-append_ge (left_of q) have (t.recv_buffer ++ m) le)
          ∙ ap (drop (left_of q)) (all_of m))

  enough_more :
      (m : Bytes)
      → left_of (filled q have) ≤ length (t.recv_buffer ++ m)
      → left_of q ≤ length (s.recv_buffer ++ (b ++ m))
  enough_more m h =
      rw (sym (all_of m))
        (omega (arith, h, left_of-filled q have, length-append have (t.recv_buffer ++ m)))

  filled_more :
      (m : Bytes)
      → filled (filled q have) (t.recv_buffer ++ m) ≡ filled q (s.recv_buffer ++ (b ++ m))
  filled_more m = filled_twice q have (t.recv_buffer ++ m) ∙ ap (filled q) (all_of m)

  Loads-after : (r : Option Received) → Loads t (filled q have) r → Loads s q r
  unfolding have
  Loads-after none h = h
  Loads-after (some (Received.received u r)) h = record {
    more = b ++ h.more;
    incoming = incoming_after h.more u.incoming h.incoming;
    packet = h.packet ∙ (filled_twice q have _ ∙ ap (filled q) (take_more h.more));
    enough = enough_more h.more h.enough;
    left = h.left ∙ drop_more h.more;
    connected = h.connected;
    offset = h.offset;
    idle = h.idle;
  }
  Loads-after (some (Received.gave_up u e)) (inl (io, h)) = inl (
    io,
    record {
      more = b ++ h.more;
      incoming = incoming_after h.more u.incoming h.incoming;
      kept = h.kept ∙ ap some (filled_more h.more);
      empty = h.empty;
      ready = subst (IsInData u) (filled_more h.more) h.ready;
      state = h.state ∙ same;
    },
  )
  Loads-after (some (Received.gave_up u e)) (inr bad) = inr bad

  pub Loads-past : (r : Option Received) → Loads t (filled q (s.recv_buffer ++ b)) r → Loads s q r
  unfolding have
  Loads-past = Loads-after
