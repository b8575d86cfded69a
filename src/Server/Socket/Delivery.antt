-- ===== src/Server/Socket/Delivery.antt =====
-- thread.cc: `_thread_packet_flush` sends what is queued, in its order.
use gearmand.Prelude.{
  ◌≤◌, ◌≡◌, ◌≢◌, ◌⊎◌, inl, inr, refl, sym, ap, ◌∙◌, Bool, true, false, Option, none, some, List, [],
  ◌∷◌, ◌++◌, length, take, Bool-cases,
}
use mathlib.Core.List.{append-nil, append_assoc}
use gearmand.Protocol.Errors.{Error, failed, eq_success}
use gearmand.Protocol.Packet.{Bytes, Packet}
use gearmand.Server.Socket.{Socket, SendState, close}
use gearmand.Server.Socket.Flush.{pending, workload_of}
use gearmand.Server.Socket.Send.{io_send}
use gearmand.Server.Socket.Stream.{IsSendable, InState, CanSend, rest_of, stream, IsSent, IsClosed}
use gearmand.Protocol.Packet.Text.{pack}
use gearmand.Server.Socket.{watch_in}
use gearmand.Server.Socket.Queue.{is_last, flush_queue, packet_flush}
use gearmand.Server.Socket.Rest.{pending_start, source_start}
use gearmand.Server.Socket.Sends.{io_send-Sends, Result}
use mathlib.Core.Path.{subst}

-- The bytes of packets, one behind the other.
abbrev pub wire : List Packet → Bytes
wire [] = []
wire (p ∷ q) = (p.args ++ workload_of p) ++ wire q

abbrev pub AllSendable : List Packet → Type 0
AllSendable [] = Unit
AllSendable (p ∷ q) = IsSendable p × AllSendable q

-- What waits: the packet at the head may be begun.
abbrev pub IsQueued : Bytes → Socket → List Packet → Type 0
IsQueued total t [] = ⊥
IsQueued total t (p ∷ q) = CanSend t p × (stream t p ++ wire q ≡ total)

-- What comes of a flush of the queue.
abbrev pub Delivered : Bytes → Option (Socket × List Packet × Error) → Type 0
Delivered total none = ⊥
Delivered total (some (t, rest, e)) =
    (((e ≡ Error.success) × (rest ≡ [])) × (t.sent ≡ total))
    ⊎ (((e ≡ Error.io_wait) × IsQueued total t rest) ⊎ ((e ≢ Error.success) × IsClosed total t))

-- The next packet of the queue goes behind what is in the buffer.
module _ (total : Bytes) (t : Socket) (p q : Packet) (last : Bool)
    (done : IsSent total last t p) where
  in_state : InState SendState.none_to_send t p
  in_state = subst (λ st. InState st t p) done.idle done.ready.state

  next-CanSend : CanSend t q
  next-CanSend = record {
    can = record {
      connected = done.ready.can.connected;
      fits =
          subst (λ b. t.send_buffer_size ≤ length b)
            (source_start t p in_state.0 ∙ sym (source_start t q in_state.0)) done.ready.can.fits;
      exact = λ h. absurd (cc (done.idle, h));
    };
    state = subst (λ st. InState st t q) (sym done.idle) in_state;
  }

  next-stream : stream t q ≡ total ++ (q.args ++ workload_of q)
  next-stream =
      ap (λ st. (t.sent ++ pending t q) ++ rest_of st t q) done.idle
      ∙ ap (λ x. x ++ (q.args ++ workload_of q))
          (ap (λ x. t.sent ++ x) (pending_start t q in_state.0 ∙ sym (pending_start t p in_state.0))
            ∙ done.sent)

-- The watch for what comes next.
watch-Delivered :
    (total : Bytes) (t : Socket)
    → t.sent ≡ total
    → t.connected ≡ true
    → Delivered total (some ((watch_in t).0, [], (watch_in t).1))
unfolding watch_in close failed
watch-Delivered total t e on = elim (Bool-cases t.pollin) [
  | inl set ↦ simp set (inl ((refl, refl), e))
  | inr unset ↦ elim (Bool-cases (failed (t.event_watch true t.pollout))) [
    | inl bad ↦
        simp (unset, bad)
          (inr (
            inr (
              (λ h. cc bad),
              record { unsent = []; sent = append-nil _ ∙ (simp on e); closed = simp on refl },
            )))
    | inr fine ↦ simp (unset, fine) (inl ((refl, refl), e))
  ]
]

after_one :
    (s : Socket) (p : Packet) (q : List Packet) (r : Option (Socket × Error))
    → Result (stream s p) (is_last q) p r
    → ((t : Socket)
        → IsSent (stream s p) (is_last q) t p
        → Delivered (stream s p ++ wire q) (flush_queue pack t q))
    → Delivered (stream s p ++ wire q) (elim r [
      | none ↦ none
      | some x ↦ elim (failed x.1) [
        | true ↦ some (x.0, p ∷ q, x.1)
        | false ↦ flush_queue pack x.0 q
      ]
    ])
unfolding failed
after_one s p q none h next = absurd h
after_one s p q (some (t, e)) (inl (ok, all)) next = rw ok (next t all)
after_one s p q (some (t, e)) (inr (inl (io, w))) next =
    rw io (inr (inl (io, (w.ready, ap (λ x. x ++ wire q) w.sent))))
after_one s p q (some (t, e)) (inr (inr (bad, cut))) next = elim (Bool-cases (failed e)) [
  | inl f ↦ rw f (
      inr (
        inr (
          bad,
          record {
            unsent = cut.unsent ++ wire q;
            sent = sym (append_assoc t.sent cut.unsent _) ∙ ap (λ x. x ++ wire q) cut.sent;
            closed = cut.closed;
          },
        )))
  | inr f ↦ absurd (bad (eq_success e f))
]

last_sent : (total : Bytes) (t : Socket) (p : Packet) → IsSent total true t p → t.sent ≡ total
unfolding take
last_sent total t p done = elim done.empty [
  | inl e ↦ absurd (cc e)
  | inr e ↦ sym (append-nil t.sent) ∙ (rw e at done.sent)
]

flush_queue-Delivered :
    (s : Socket) (p : Packet) (q : List Packet)
    → IsSendable p
    → AllSendable q
    → CanSend s p
    → Delivered (stream s p ++ wire q) (flush_queue pack s (p ∷ q))
unfolding flush_queue
flush_queue-Delivered s p [] good all can =
    after_one s p [] (io_send pack s p true) (io_send-Sends s p true good can) (λ t done.
      subst (λ x. Delivered x (flush_queue pack t [])) (sym (append-nil (stream s p)))
        (watch-Delivered (stream s p) t (last_sent _ t p done) done.ready.can.connected))
flush_queue-Delivered s p (p' ∷ q) good (good', all) can =
    after_one s p (p' ∷ q) (io_send pack s p false) (io_send-Sends s p false good can) (λ t done.
      subst (λ x. Delivered x (flush_queue pack t (p' ∷ q)))
        (ap (λ x. x ++ wire q) (next-stream (stream s p) t p p' false done)
          ∙ append_assoc (stream s p) (p'.args ++ workload_of p') (wire q))
        (flush_queue-Delivered t p' q good' all (next-CanSend (stream s p) t p p' false done)))

-- For a queue of complete packets whose headers fit into the buffer, and a socket in any of its states
-- that does not wait to write, `_thread_packet_flush` either succeeds with an empty queue and the bytes
-- of all packets sent in order, or waits with a queue whose bytes are what is missing, or fails and is
-- closed with a beginning of them sent.
pub packet_flush-Delivered :
    (s : Socket) (p : Packet) (q : List Packet)
    → IsSendable p
    → AllSendable q
    → CanSend s p
    → s.pollout ≡ false
    → Delivered (stream s p ++ wire q) (packet_flush pack s (p ∷ q))
unfolding packet_flush
packet_flush-Delivered s p q good all can off = simp off (flush_queue-Delivered s p q good all can)
