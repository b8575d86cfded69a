-- ===== src/Client/Task/Twice.antt =====
-- run.cc: a task whose send failed is counted off again when it is run again.
use gearmand.Prelude.{ℕ, ◌≡◌, none, arith, dec32}
use gearmand.Client.Return.{Return}
use gearmand.Client.Connection.{Connection, close_socket}
use gearmand.Client.Selection.{Library}
use gearmand.Client.Task.{Task, TaskState, Client, Outcome, Action, finish, call_fn}
use gearmand.Client.Task.Submit.{Send, submit_loop, give_up}
use gearmand.Client.Task.Replies.{run_fail}
use gearmand.Client.Task.Run.{client_run_task, on_state}
use gearmand.Client.Task.Slots.{only, sending}

-- A server that closes the connection.
abbrev pub lose : Send
lose c p b = (close_socket c, Return.lost_connection)

-- The run of the task that a run left.
abbrev pub run_again : ℕ → Library → Send → Outcome → Outcome
run_again rounds lib send (Outcome.returned cl t r) = client_run_task rounds lib send cl t
run_again rounds lib send Outcome.aborted = Outcome.aborted
run_again rounds lib send Outcome.going_on = Outcome.going_on

-- The run returned, with so many running tasks and the task in that state.
abbrev pub Left : ℕ → TaskState → Outcome → Type 0
Left n st (Outcome.returned cl t r) = (cl.running_tasks ≡ n) × (t.state ≡ st)
Left n st Outcome.aborted = ⊥
Left n st Outcome.going_on = ⊥

-- When the send of a task to a client's only connection loses the connection, the run takes the task
-- off the running tasks and leaves it failed, not finished; where the task has no function for
-- failures, the next run takes one more off them and finishes it, so that one task is counted off
-- twice.
pub run_again-counts_twice :
    (lib : Library) (send : Send) (rounds : ℕ) (cl : Client) (c : Connection) (t : Task)
    → t.func Action.fail_fn ≡ none
    → Left
        (dec32 cl.running_tasks)
        TaskState.fail
        (client_run_task 1 lib lose (only c cl) (sending c t))
      × Left
          (dec32 (dec32 cl.running_tasks))
          TaskState.finished
          (run_again rounds lib send (client_run_task 1 lib lose (only c cl) (sending c t)))
unfolding client_run_task on_state submit_loop give_up run_fail finish call_fn
run_again-counts_twice lib send rounds cl c t e = ground (arith, e)
