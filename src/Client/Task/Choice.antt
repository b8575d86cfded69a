-- ===== src/Client/Task/Choice.antt =====
-- run.cc: what the choice of a connection reads is not changed by the numbers of submissions.
use gearmand.Prelude.{ℕ, ◌≡◌, arith}
use gearmand.Client.Task.{Task, Client}
use gearmand.Client.Task.Submit.{take_slot, give_up_slot, use_hash_server_selection}

pub take_slot-hash :
    (cl : Client) (t : Task) (a : ℕ)
    → use_hash_server_selection (take_slot cl t a).0 (take_slot cl t a).1
      ≡ use_hash_server_selection cl t
unfolding take_slot
take_slot-hash cl t a = ground arith

pub give_up_slot-hash :
    (cl : Client) (t : Task) (a : ℕ)
    → use_hash_server_selection (give_up_slot cl t a) t ≡ use_hash_server_selection cl t
give_up_slot-hash cl t a = ground arith
