-- ===== src/Client/Task/Slots.antt =====
-- run.cc and client.cc: the numbers by which `JOB_CREATED` replies find their submissions.
use gearmand.Prelude.{
  ℕ, zero, suc, ◌+◌, ◌<◌, ◌≡◌, ◌∙◌, refl, ap, true, false, none, some, List, [], ◌∷◌, arith, inl,
  inr, Bool-cases, ◌==◌, ==_self, length, dec32, inc32,
}
use gearmand.Protocol.Commands.{Command}
use gearmand.Protocol.Packet.{Bytes, Packet, is_some}
use gearmand.Client.Return.{Return}
use gearmand.Client.Connection.{Connection, close_socket}
use gearmand.Client.Selection.{Library}
use gearmand.Client.Task.{TaskState, Task, Client, Outcome, expects_job_created}
use gearmand.Client.Task.Submit.{
  Send, run_new, submit_loop, take_slot, give_up, choose_next, choose, after_send, first_idle,
  behind,
}
use gearmand.Client.Task.Run.{client_run_task, on_state}
use gearmand.Client.Task.Match.{Match, find_task, try_task, is_active}

-- Submissions that wait for their replies on a connection, numbered from `n` on.
abbrev pub Numbered : ℕ → ℕ → List Task → Type 0
Numbered a n [] = Unit
Numbered a n (t ∷ ts) =
    (t.con ≡ some a)
    × (is_active t.state ≡ true)
    × (expects_job_created t.send.command ≡ true)
    × (t.created_id ≡ n)
    × Numbered a (n + 1) ts

-- The first of them gets the reply, or it is passed by.
reply_first :
    (code : Bytes → Return) (p : Packet) (c : Connection) (t : Task) (ts : List Task) (i : ℕ)
    → p.command ≡ Command.job_created
    → t.con ≡ some c.address
    → is_active t.state ≡ true
    → expects_job_created t.send.command ≡ true
    → t.created_id ≡ c.created_id
    → find_task code p c (t ∷ ts) i
      ≡ (Match.task_at i, record c { created_id = inc32 c.created_id })
unfolding find_task try_task
reply_first code p c t ts i e f g h k =
    rw (f, find_task, g, ==_self c.address, e, h, k, ==_self c.created_id) refl

reply_passes :
    (code : Bytes → Return) (p : Packet) (c : Connection) (t : Task) (ts : List Task) (i : ℕ)
    → p.command ≡ Command.job_created
    → t.con ≡ some c.address
    → is_active t.state ≡ true
    → (t.created_id == c.created_id) ≡ false
    → find_task code p c (t ∷ ts) i ≡ find_task code p c ts (suc i)
unfolding find_task try_task
reply_passes code p c t ts i e f g k = elim (Bool-cases (expects_job_created t.send.command)) [
  | inl h ↦ rw (f, find_task, g, ==_self c.address, e, h, k) refl
  | inr h ↦ rw (f, find_task, g, ==_self c.address, e, h) refl
]

later_reply :
    (code : Bytes → Return) (p : Packet) (c : Connection) (ts : List Task) (n k i : ℕ)
    → p.command ≡ Command.job_created
    → Numbered c.address n ts
    → c.created_id ≡ n + k
    → k < length ts
    → find_task code p c ts i
      ≡ (Match.task_at (i + k), record c { created_id = inc32 c.created_id })
later_reply code p c [] n k i e h s l = absurd (omega arith)
later_reply code p c (t ∷ ts) n zero i e h s l =
    reply_first code p c t ts i e h.0 h.1 h.2 (omega (arith, h.3))
    ∙ ap (λ j. (Match.task_at j, record c { created_id = inc32 c.created_id })) (omega arith)
later_reply code p c (t ∷ ts) n (suc k) i e h s l =
    reply_passes code p c t ts i e h.0 h.1 (ground (arith, h.3))
    ∙ (later_reply code p c ts (n + 1) k (suc i) e h.4 (omega arith) (omega arith)
        ∙ ap (λ j. (Match.task_at j, record c { created_id = inc32 c.created_id })) (omega arith))

-- JOB_CREATED replies go to the submissions of their connection in the order of their numbers: where
-- the tasks are active submissions on the connection with the numbers n, n + 1 and so on, and k
-- replies were counted, the loop of _client_run_tasks gives the next one to the task at place k and
-- counts it.
pub find_task-in_order :
    (code : Bytes → Return) (p : Packet) (c : Connection) (ts : List Task) (n k : ℕ)
    → p.command ≡ Command.job_created
    → Numbered c.address n ts
    → c.created_id ≡ n + k
    → k < length ts
    → find_task code p c ts 0 ≡ (Match.task_at k, record c { created_id = inc32 c.created_id })
find_task-in_order code p c ts n k e h s l =
    later_reply code p c ts n k 0 e h s l
    ∙ ap (λ j. (Match.task_at j, record c { created_id = inc32 c.created_id })) (omega arith)

-- A server that cannot be connected: the socket is closed. And one that takes each packet.
abbrev pub refuse : Send
refuse c p b = (close_socket c, Return.could_not_connect)

abbrev pub accept : Send
accept c p b = (c, Return.success)

-- A client of one server that does not choose servers by hash.
abbrev pub only : Connection → Client → Client
only c cl = record cl { con_list = c ∷ []; server_selection_hash_unique = false }

-- A submission that is sent over the connection, and one that is new.
abbrev pub sending : Connection → Task → Task
sending c t = record t { state = TaskState.submit; con = some c.address }

abbrev pub fresh : Task → Task
fresh t = record t { state = TaskState.new }

-- The connection after a submission over it failed.
abbrev pub once_failed : Connection → Connection
once_failed c = record (close_socket c) { created_id = 1 }

abbrev pub failed_client : Connection → Client → Client
failed_client c cl = record (only (once_failed c) cl) { new_tasks = inc32 cl.new_tasks }

-- The connection and the task after the next submission was sent.
abbrev pub then_sent : Connection → Connection
then_sent c = record (once_failed c) { created_id_next = 1; pollin = true }

abbrev pub waiting : Connection → Task → Task
waiting c t = record t { state = TaskState.work; con = some c.address; created_id = 0 }

first_fails :
    (lib : Library) (cl : Client) (c : Connection) (t : Task)
    → c.is_open ≡ true
    → expects_job_created t.send.command ≡ true
    → client_run_task 1 lib refuse (only c cl) (sending c t)
      ≡ Outcome.returned
          (failed_client c cl)
          (record t { state = TaskState.new; con = none; error_code = Return.could_not_connect })
          Return.could_not_connect
unfolding client_run_task on_state submit_loop close_socket choose_next first_idle behind give_up
first_fails lib cl c t o e = ground arith

then_waits :
    (lib : Library) (cl : Client) (c : Connection) (u : Task)
    → c.is_open ≡ true
    → expects_job_created u.send.command ≡ true
    → is_some u.send.workload ≡ true
    → client_run_task 1 lib accept (failed_client c cl) (fresh u)
      ≡ Outcome.returned
          (record (only (then_sent c) cl) {
            no_new = false;
            new_tasks = dec32 (inc32 cl.new_tasks);
          })
          (waiting c u)
          Return.success
unfolding client_run_task on_state run_new submit_loop close_socket choose first_idle take_slot
    after_send
then_waits lib cl c u o e w = ground arith

-- After a submission over an open connection failed because the server cannot be connected, and a
-- client of this one server, without the choice by hash, sent the next submission over it, the next
-- submission waits with the number 0 where the connection counts from 1: no JOB_CREATED packet finds
-- it.
pub created_reply_lost :
    (lib : Library) (code : Bytes → Return) (cl : Client) (c : Connection) (t u : Task) (p : Packet)
    → c.is_open ≡ true
    → expects_job_created t.send.command ≡ true
    → expects_job_created u.send.command ≡ true
    → is_some u.send.workload ≡ true
    → p.command ≡ Command.job_created
    → (client_run_task 1 lib refuse (only c cl) (sending c t)
        ≡ Outcome.returned
            (failed_client c cl)
            (record t { state = TaskState.new; con = none; error_code = Return.could_not_connect })
            Return.could_not_connect)
      × (client_run_task 1 lib accept (failed_client c cl) (fresh u)
          ≡ Outcome.returned
              (record (only (then_sent c) cl) {
                no_new = false;
                new_tasks = dec32 (inc32 cl.new_tasks);
              })
              (waiting c u)
              Return.success)
      × (find_task code p (then_sent c) (waiting c u ∷ []) 0 ≡ (Match.no_task, then_sent c))
unfolding find_task close_socket is_active
created_reply_lost lib code cl c t u p o e f w j = (
  first_fails lib cl c t o e,
  then_waits lib cl c u o f w,
  reply_passes code p (then_sent c) (waiting c u) [] 0 j (ground arith) refl refl,
)
