-- ===== src/Server/Socket/Decodes.antt =====
-- thread.cc: the packets that `_thread_packet_read` queues are those that the bytes say.
use gearmand.Server.Socket.Arguments.{IsArguments}
use gearmand.Prelude.{◌≤◌, ◌≡◌, ◌⊎◌, Bool, false, none, some, List, [], ◌∷◌, ◌++◌, length}
use gearmand.Protocol.Errors.{Error}
use gearmand.Protocol.Packet.{Bytes, Packet}
use gearmand.Server.Socket.{Socket}
use gearmand.Server.Socket.Receiving.{with_workload, CanReceive, IsShort, Receives}
use gearmand.Server.Socket.Asking.{Asked}
use gearmand.Server.Socket.Input.{PacketsRead}

-- A packet at the head of some bytes, and the bytes behind it.
pub record IsFirst (all : Bytes) (r : Packet) (left : Bytes) : Type 0 where
  pub packet : Packet
  pub rest : Bytes
  pub arguments : IsArguments all packet rest
  pub enough : packet.data_size ≤ length rest
  pub result : with_workload packet rest ≡ (r, left)

-- The packets that some bytes say, one behind the other, and the bytes behind them.
abbrev pub Decodes : Bytes → List Packet → Bytes → Type 0
Decodes all [] after = all ≡ after
Decodes all (r ∷ q) after = (left : Bytes) × (IsFirst all r left × Decodes left q after)

-- All that there is was read: the packets are those that the bytes say, all of them, the bytes behind
-- them hold no whole packet and wait, and the system said that the next read would block.
pub record IsDrained (all : Bytes) (s t : Socket) (q : List Packet) : Type 0 where
  pub more : Bytes
  pub incoming : s.incoming ≡ more ++ t.incoming
  pub after : Bytes
  pub decodes : Decodes (all ++ more) q after
  pub ready : CanReceive after t
  pub short : IsShort after
  pub asked : Asked s.answers t.answers

-- There is no memory for the next packet: the packets are those that the bytes read so far say, and
-- the bytes behind them wait.
pub record IsStopped (all : Bytes) (s t : Socket) (q : List Packet) : Type 0 where
  pub more : Bytes
  pub incoming : s.incoming ≡ more ++ t.incoming
  pub after : Bytes
  pub decodes : Decodes (all ++ more) q after
  pub ready : CanReceive after t

-- The connection is closed: the packets are those that came before.
pub record IsCutOff (all : Bytes) (s t : Socket) (q : List Packet) : Type 0 where
  pub more : Bytes
  pub later : Bytes
  pub incoming : s.incoming ≡ more ++ later
  pub after : Bytes
  pub decodes : Decodes (all ++ more) q after
  pub closed : t.connected ≡ false

-- What comes of the loop.
abbrev pub ReadsAll : Bool → Bytes → Socket → PacketsRead → Type 0
ReadsAll memory all s none = ⊥
ReadsAll memory all s (some (t, q, e)) =
    ((e ≡ Error.success) × IsDrained all s t q)
    ⊎ (((e ≡ Error.memory_allocation_failure) × (memory ≡ false) × IsStopped all s t q)
        ⊎ IsCutOff all s t q)
