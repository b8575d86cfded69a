-- ===== src/Server/Socket/Loads.antt =====
-- io.cc: however the bytes of a workload come in, all of it is received.
use gearmand.Prelude.{
  ℕ, zero, suc, ◌+◌, ◌≤◌, ◌<◌, ◌≡◌, inl, inr, refl, sym, true, false, some, ◌++◌, length, ◌==◌,
  Bool-cases, arith,
}
use mathlib.Core.Path.{subst}
use gearmand.Protocol.Errors.{Error, failed, eq_success}
use gearmand.Protocol.Packet.{Bytes, Packet}
use gearmand.Server.Socket.{Socket}
use gearmand.Server.Socket.Recv.{Received}
use gearmand.Server.Socket.Workload.{filled, recv_data, data_loop}
use gearmand.Server.Socket.Loading.{IsInData, Loads, Loads-past}
use gearmand.Server.Socket.Refill.{DataRound}
use gearmand.Server.Socket.Short.{recv_data-DataRound}

after_data :
    (n : ℕ) (s : Socket) (q : Packet) (r : Socket × Packet × Error)
    → 0 < n
    → DataRound s q r
    → ((t : Socket) (b : Bytes)
        → length t.answers < length s.answers
        → IsInData t (filled q (s.recv_buffer ++ b))
        → Loads t (filled q (s.recv_buffer ++ b)) (data_loop n t (filled q (s.recv_buffer ++ b))))
    → Loads s q
        (elim (failed r.2) [ true ↦ some (Received.gave_up r.0 r.2) | false ↦ data_loop n r.0 r.1 ])
unfolding failed data_loop
after_data zero s q (t, r, e) room h next = absurd (omega arith)
after_data (suc n) s q (t, r, e) room (inl (ok, inl (z, h))) next =
    rw (ok, z)
      record {
        more = h.more;
        incoming = h.incoming;
        packet = h.packet;
        enough = h.enough;
        left = h.left;
        connected = h.connected;
        offset = h.offset;
        idle = refl;
      }
after_data (suc n) s q (t, r, e) room (inl (ok, inr h)) next =
    subst
      (λ x.
        Loads s q
          (elim (failed x) [ true ↦ some (Received.gave_up t x) | false ↦ data_loop (suc n) t r ]))
      (sym ok)
      (subst (λ x. Loads s q (data_loop (suc n) t x)) (sym h.is)
        (Loads-past s t q h.bytes h.came h.none_left h.le h.state _
          (next t h.bytes h.used (subst (IsInData t) h.is h.ready))))
after_data (suc n) s q (t, r, e) room (inr (inl (io, h))) next = rw io (inl (io, h))
after_data (suc n) s q (t, r, e) room (inr (inr (bad, off))) next = elim (Bool-cases (failed e)) [
  | inl x ↦ rw x (inr (bad, off))
  | inr x ↦ absurd (bad (eq_success e x))
]

-- The loop over the workload.
pub data_loop-Loads :
    (n : ℕ) (s : Socket) (q : Packet)
    → IsInData s q
    → length s.answers + 2 ≤ n
    → Loads s q (data_loop n s q)
unfolding data_loop
data_loop-Loads zero s q d le = absurd (omega (arith, le))
data_loop-Loads (suc n) s q d le =
    let more : s.recv_data_size == 0 ≡ false = ground (arith, d.size, d.some_left) in
    rw (Loads, more)
      (after_data n s q (recv_data s q) (omega (arith, le)) (recv_data-DataRound s q d)
        (λ t b used ready.
          data_loop-Loads n t (filled q (s.recv_buffer ++ b)) ready (omega (arith, le, used))))
