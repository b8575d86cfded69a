-- ===== src/Client/Task/Ends.antt =====
-- run.cc: without the choice by hash a run of a task goes through the list of connections at most
-- once.
use gearmand.Prelude.{ℕ, ◌≡◌, Bool, ◌==◌, length}
use gearmand.Protocol.Packet.{Packet}
use gearmand.Client.Return.{Return}
use gearmand.Client.Connection.{Connection}
use gearmand.Client.Selection.{Library}
use gearmand.Client.Task.{Task, Client, with_con}
use gearmand.Client.Task.Submit.{Send, give_up_slot}
use gearmand.Client.Task.Places.{addresses, rest_behind}

-- The places that the loop has not come to yet.
abbrev left_behind : ℕ → Client → ℕ
left_behind a cl = length (rest_behind a (addresses cl.con_list))

-- A send stays on its connection.
abbrev pub KeepsAddress : Send → Type 0
KeepsAddress send = (c : Connection) (p : Packet) (b : Bool) → (send c p b).0.address ≡ c.address

module _ (lib : Library) (send : Send) (keeps : KeepsAddress send) where
  abbrev after : Client → ℕ → Connection → Task → Client
  after cl a c t = give_up_slot (with_con a (λ _. (send c t.send (cl.new_tasks == 0)).0) cl) t a
