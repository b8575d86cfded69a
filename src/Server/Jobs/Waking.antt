-- ===== src/Server/Jobs/Waking.antt =====
-- job.cc: which workers a wake-up reaches.
use gearmand.Prelude.{ℕ, ◌≡◌, ◌≢◌, ◌⊎◌, true, false, List, [], ◌∷◌, ◌++◌}
use gearmand.Protocol.Commands.{Magic, Command}
use gearmand.Protocol.Packet.{Packet}
use gearmand.Server.State.{Server, Con, set_con}
use gearmand.Server.Io.{io_packet_add}
use gearmand.Server.Io.Delivery.{made_packet}
use gearmand.Server.Jobs.Wake.{is_wakeable}

abbrev pub noop : Packet
noop = made_packet false Magic.response Command.noop []

-- A connection before and after: nothing was said to it, or it was asleep without a NOOP and now has
-- one behind its packets and is marked.
abbrev pub Noticed : Con → Con → Type 0
Noticed x y =
    (y.is_sleeping ≡ x.is_sleeping)
    × (((y.is_noop_sent ≡ x.is_noop_sent) × (y.io_packet_list ≡ x.io_packet_list))
        ⊎ ((is_wakeable x ≡ true)
            × (y.is_noop_sent ≡ true)
            × (y.io_packet_list ≡ x.io_packet_list ++ noop ∷ [])))

-- There is memory for whatever is made.
abbrev pub HasMemory : Server → Type 0
HasMemory s = (n : ℕ) → s.can_allocate n ≡ true

-- What queueing a NOOP leaves alone.
module _ (s : Server) (c : ℕ) where
  sent_noop : Server
  sent_noop = (io_packet_add s c false Magic.response Command.noop []).0

  -- After the NOOP the connection is marked.
  told : Server
  unfolding sent_noop
  told = set_con sent_noop c (record (sent_noop.cons c) { is_noop_sent = true })

-- What a wake-up leaves: no worker or setting has changed, and each connection is as it may be.
pub record IsWoken (s t : Server) : Type 0 where
  pub workers : t.workers ≡ s.workers
  pub memory : t.can_allocate ≡ s.can_allocate
  pub worker_wakeup : t.worker_wakeup ≡ s.worker_wakeup
  pub noticed : (k : ℕ) → Noticed (s.cons k) (t.cons k)

-- No connection of these workers is asleep without a NOOP.
abbrev pub AllAwake : Server → Server → List ℕ → Type 0
AllAwake s t [] = Unit
AllAwake s t (w ∷ ws) = (is_wakeable (t.cons (s.workers w).con) ≡ false) × AllAwake s t ws

-- The loop reached the workers at the front, whose list is then turned; with no bound on the NOOPs it
-- reached all of them.
pub record Reaches (s t : Server) (ws visited order : List ℕ) : Type 0 where
  pub front : List ℕ
  pub back : List ℕ
  pub split : ws ≡ front ++ back
  pub turned : order ≡ back ++ (visited ++ front)
  pub awake : AllAwake s t front
  pub bounded : (back ≡ []) ⊎ (s.worker_wakeup ≢ 0)
  pub woken : IsWoken s t
