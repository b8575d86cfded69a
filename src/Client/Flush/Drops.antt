-- ===== src/Client/Flush/Drops.antt =====
-- connection.cc: addresses that refuse the connection, followed by one that takes it.
use gearmand.Prelude.{
  ℕ, zero, suc, ◌+◌, ◌≤◌, ◌≡◌, refl, true, false, Option, none, some, List, [], ◌∷◌, ◌++◌, length,
  arith,
}
use gearmand.Protocol.Packet.{Bytes}
use gearmand.Client.Return.{Return}
use gearmand.Client.Connection.{ConnectState, close_socket}
use gearmand.Client.Flush.{
  Line, ConnectAnswer, flush, flush_round, connect_round, connect_to, send_round, shut_down,
}

-- Each of the addresses refuses the connection, and the one behind them takes it.
abbrev pub refusals : List ℕ → List ConnectAnswer → List ConnectAnswer
refusals [] more = ConnectAnswer.established ∷ more
refusals (a ∷ gone) more = ConnectAnswer.refused ∷ refusals gone more

-- A connection without a socket, about to be connected to the first of the addresses.
abbrev pub connecting_to : Line → List ℕ → List ConnectAnswer → Line
connecting_to l addresses answers = record l {
  connects = answers;
  con = record l.con { state = ConnectState.connect; is_open = false; addrinfo_next = addresses };
}

-- The result is success, no byte was sent, and none is left to be sent.
abbrev pub Dropped : Bytes → Option (Line × Return) → Type 0
Dropped before none = ⊥
Dropped before (some (m, r)) =
    (r ≡ Return.success)
    × (m.sent ≡ before)
    × (m.con.send_buffer_size ≡ 0)
    × (m.con.state ≡ ConnectState.connected)

-- Once the buffer is empty nothing is sent.
emptied-Dropped :
    (gone : List ℕ) (n : ℕ) (l : Line) (b : ℕ) (rest : List ℕ) (more : List ConnectAnswer)
    (payload : Bytes)
    → l.con.send_buffer_size ≡ 0
    → length gone + 2 ≤ n
    → Dropped l.sent (flush n (connecting_to l (gone ++ b ∷ rest) (refusals gone more)) payload)
unfolding flush flush_round connect_round connect_to send_round close_socket
emptied-Dropped gone zero l b rest more payload e le = absurd (omega (arith, le))
emptied-Dropped [] (suc zero) l b rest more payload e le = absurd (omega (arith, le))
emptied-Dropped [] (suc (suc n)) l b rest more payload e le = simp e (refl, refl, refl, refl)
emptied-Dropped (a ∷ gone) (suc n) l b rest more payload e le =
    emptied-Dropped gone n (shut_down (record l { con = record l.con { is_open = true } })) b rest
      more payload refl (omega (arith, le))

-- When the first address of a server and any number of those behind it refuse the connection and the
-- next one takes it, the flush ends connected and with success, given two rounds more than there are
-- refusals, with nothing sent and an empty buffer, whatever bytes waited in it.
pub flush-drops :
    (gone : List ℕ) (n : ℕ) (l : Line) (a b : ℕ) (rest : List ℕ) (more : List ConnectAnswer)
    (payload : Bytes)
    → length (a ∷ gone) + 2 ≤ n
    → Dropped l.sent
        (flush n (connecting_to l ((a ∷ gone) ++ b ∷ rest) (refusals (a ∷ gone) more)) payload)
unfolding flush flush_round connect_round connect_to send_round close_socket
flush-drops gone zero l a b rest more payload le = absurd (omega (arith, le))
flush-drops gone (suc n) l a b rest more payload le =
    emptied-Dropped gone n (shut_down (record l { con = record l.con { is_open = true } })) b rest
      more payload refl (omega (arith, le))
