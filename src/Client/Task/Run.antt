-- ===== src/Client/Task/Run.antt =====
-- libgearman/run.cc: `_client_run_task`.
use gearmand.Prelude.{ℕ, Option, none, some}
use gearmand.Client.Selection.{Library}
use gearmand.Client.Task.{Task, Client, Outcome, TaskState, finish}
use gearmand.Client.Task.Submit.{Send, run_new, submit_loop, run_workload}
use gearmand.Client.Task.Replies.{
  run_work, run_created, run_data, run_warning, run_status, run_complete, run_exception, run_fail,
}

-- A state that follows the choice of a connection.
abbrev pub on_con : Option ℕ → (ℕ → Outcome) → Outcome
on_con none f = Outcome.aborted
on_con (some a) f = f a

-- The `switch` over the state of the task; `rounds` bounds the sends of one call.
unfoldable pub on_state : TaskState → ℕ → Library → Send → Client → Task → Outcome
on_state TaskState.new rounds lib send cl t = run_new rounds lib send cl t
on_state TaskState.submit rounds lib send cl t =
    on_con t.con (λ a. submit_loop rounds lib send a cl t)
on_state TaskState.workload rounds lib send cl t = on_con t.con (λ a. run_workload a cl t)
on_state TaskState.work rounds lib send cl t = run_work cl t
on_state TaskState.created rounds lib send cl t = run_created cl t
on_state TaskState.got_data rounds lib send cl t = run_data cl t
on_state TaskState.warning rounds lib send cl t = run_warning cl t
on_state TaskState.status rounds lib send cl t = run_status cl t
on_state TaskState.complete rounds lib send cl t = run_complete cl t
on_state TaskState.exception rounds lib send cl t = run_exception cl t
on_state TaskState.fail rounds lib send cl t = run_fail cl t
on_state TaskState.finished rounds lib send cl t = finish cl t

-- `_client_run_task`
unfoldable pub client_run_task : ℕ → Library → Send → Client → Task → Outcome
unfolding on_state
client_run_task rounds lib send cl t = on_state t.state rounds lib send cl t
