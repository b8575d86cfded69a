-- ===== src/Server/Socket/Refill.antt =====
-- io.cc: a call of `gearmand_connection_recv_data`.
use gearmand.Prelude.{
  if-true, if-false, ==_self, ℕ, ◌+◌, ◌≤◌, ◌<◌, ◌≡◌, ◌≢◌, ◌⊎◌, inl, inr, refl, sym, ap, ◌∙◌, false,
  [], ◌++◌, length, take, drop, ◌==◌, Bool-cases, arith,
}
use mathlib.Core.List.{append-nil}
use mathlib.Core.Path.{subst}
use gearmand.Protocol.Errors.{Error}
use gearmand.Protocol.Packet.{Bytes, Packet}
use gearmand.Server.Socket.{Socket, RecvState}
use gearmand.Server.Socket.Recv.{smaller}
use gearmand.Server.Socket.Workload.{filled, counted_in, wanted, take_in, recv_data, from_buffer}
use gearmand.Server.Socket.Loading.{IsInData, left_of, IsLoaded, IsLoading}

-- All of the workload was in hand.
pub record IsMore (s : Socket) (q : Packet) (t : Socket) (r : Packet) : Type 0 where
  pub bytes : Bytes
  pub came : s.incoming ≡ bytes ++ t.incoming
  pub none_left : t.recv_buffer ≡ []
  pub le : length (s.recv_buffer ++ bytes) ≤ left_of q
  pub is : r ≡ filled q (s.recv_buffer ++ bytes)
  pub ready : IsInData t r
  pub state : t.recv_state ≡ s.recv_state
  pub used : length t.answers < length s.answers

-- A call of `gearmand_connection_recv_data`, by its result.
abbrev pub DataRound : Socket → Packet → Socket × Packet × Error → Type 0
DataRound s q (t, r, e) =
    ((e ≡ Error.success) × (((t.recv_data_size ≡ 0) × IsLoaded s q t r) ⊎ IsMore s q t r))
    ⊎ (((e ≡ Error.io_wait) × IsLoading s q t) ⊎ ((e ≢ Error.success) × (t.connected ≡ false)))

abbrev pub finished : Socket → Socket
finished s = record s {
  recv_data_size = 0;
  recv_data_offset = 0;
  recv_state = RecvState.none_to_read;
}

module _ (s : Socket) (n : ℕ) where
  pub counted_done : s.recv_data_size ≡ s.recv_data_offset + n → counted_in s n ≡ finished s
  counted_done e = if-true (s.recv_data_size == s.recv_data_offset + n) _ _ (rw e (==_self _))

  pub counted_more :
      s.recv_data_offset + n < s.recv_data_size
      → counted_in s n ≡ record s { recv_data_offset = s.recv_data_offset + n }
  counted_more h = if-false (s.recv_data_size == s.recv_data_offset + n) _ _ (ground arith)

  pub counted_in-closed : s.connected ≡ false → (counted_in s n).connected ≡ false
  counted_in-closed off = elim (Bool-cases (s.recv_data_size == s.recv_data_offset + n)) [
    | inl e ↦ ap (λ (t : Socket). t.connected) (if-true _ _ _ e) ∙ off
    | inr e ↦ ap (λ (t : Socket). t.connected) (if-false _ _ _ e) ∙ off
  ]

module _ (s : Socket) (q : Packet) (d : IsInData s q) where
  wanted_is : wanted s q ≡ left_of q
  wanted_is = rw (d.size, d.offset) (ground arith)

  pub recv_data_is :
      recv_data s q ≡ take_in (left_of q) (smaller (length s.recv_buffer) (left_of q)) s q
  unfolding recv_data
  recv_data_is =
      if-false (s.recv_data_size == 0) _ _ (ground (arith, d.size, d.some_left))
      ∙ ap (λ n. take_in n (smaller (length s.recv_buffer) n) s q) wanted_is

  pub enough_buffered : left_of q ≤ length s.recv_buffer → DataRound s q (recv_data s q)
  enough_buffered h =
      let k : smaller (length s.recv_buffer) (left_of q) ≡ left_of q = ground arith in
      let e : recv_data s q ≡ (
        finished (from_buffer s q (left_of q)),
        filled q (take (left_of q) s.recv_buffer),
        Error.success,
      ) =
        recv_data_is
        ∙ (ap (λ n. take_in (left_of q) n s q) k
            ∙ (if-true (left_of q == left_of q) _ _ (==_self (left_of q))
                ∙ ap (λ t. (t, filled q (take (left_of q) s.recv_buffer), Error.success))
                    (counted_done (from_buffer s q (left_of q)) (left_of q)
                      (omega (arith, d.size, d.offset, d.some_left))))) in
      subst (DataRound s q) (sym e) (
        inl (
          refl,
          inl (
            refl,
            record {
              more = [];
              incoming = refl;
              packet = ap (λ x. filled q (take (left_of q) x)) (sym (append-nil s.recv_buffer));
              enough = rw (append-nil s.recv_buffer) h;
              left = ap (drop (left_of q)) (sym (append-nil s.recv_buffer));
              connected = d.connected;
              offset = refl;
              idle = refl;
            },
          ),
        ))
