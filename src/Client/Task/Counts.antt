-- ===== src/Client/Task/Counts.antt =====
-- run.cc: how a run of a task counts the tasks that are running.
use gearmand.Prelude.{
  ℕ, ◌≡◌, ◌⊎◌, refl, true, false, none, [], ◌∷◌, arith, ◌++◌, ◌&&◌, dec32, inl, inr, Bool,
  Bool-cases, Option-cases,
}
use gearmand.Client.Return.{Return, failed}
use gearmand.Client.Selection.{Library}
use gearmand.Client.Task.{
  Task, Client, Outcome, TaskState, Action, call_fn, finish, is_finished, with_state, checked,
  counted_off,
}
use gearmand.Client.Task.Submit.{Send}
use gearmand.Client.Return.{is_unknown_state}
use gearmand.Protocol.Commands.{Command}
use gearmand.Client.Task.Replies.{
  run_work, run_created, run_status, stay, after_status, after_created, take_exception, on_reply,
  printed, recv_arg, take_status, is_over, asks_status, ends_created,
}
use gearmand.Client.Task.Run.{client_run_task, on_state}

-- The states in which a task that was sent gets its replies.
unfoldable pub gets_replies : TaskState → Bool
gets_replies TaskState.new = false
gets_replies TaskState.submit = false
gets_replies TaskState.workload = false
gets_replies TaskState.finished = false
gets_replies _ = true

-- The run finished the task and counted it off, or it left the client as it was and the task
-- unfinished; or an assertion failed.
abbrev pub CountedOnce : Client → Outcome → Type 0
CountedOnce cl (Outcome.returned cl' t r) =
    (t.state ≡ TaskState.finished)
      × (r ≡ Return.success)
      × (cl'.running_tasks ≡ dec32 cl.running_tasks)
      × (cl'.new_tasks ≡ cl.new_tasks)
    ⊎ (is_finished t.state ≡ false) × (cl' ≡ cl)
CountedOnce cl Outcome.aborted = Unit
CountedOnce cl Outcome.going_on = ⊥

stay-CountedOnce : (cl : Client) (t : Task) → CountedOnce cl (stay cl t)
stay-CountedOnce cl t = inr (refl, refl)

checked_once :
    (cl : Client) (t : Task)
    → t.state ≡ TaskState.finished
    → CountedOnce cl (checked (counted_off cl) t)
checked_once cl t u = elim (Bool-cases (is_unknown_state t.error_code)) [
  | inl e ↦ rw e tt
  | inr e ↦ rw e (elim (Bool-cases (cl.free_tasks && t.is_add_task)) [
    | inl f ↦ rw f (inl (u, refl, refl, refl))
    | inr f ↦ rw f (inl (u, refl, refl, refl))
  ])
]

finish-CountedOnce :
    (cl : Client) (t : Task) → is_finished t.state ≡ false → CountedOnce cl (finish cl t)
unfolding finish
finish-CountedOnce cl t u = rw u (checked_once cl (with_state TaskState.finished t) refl)

call_fn-CountedOnce :
    (a : Action) (s : TaskState) (cl : Client) (t : Task) (next : Client → Task → Outcome)
    → is_finished s ≡ false
    → ((u : Task) → is_finished u.state ≡ false → CountedOnce cl (next cl u))
    → is_finished t.state ≡ false
    → CountedOnce cl (call_fn a s cl t next)
unfolding call_fn
call_fn-CountedOnce a s cl t next o h u = elim (Option-cases (t.func a)) [
  | inl e ↦ rw (e, call_fn) (h t u)
  | inr (f, e) ↦
      rw (e, call_fn)
        (elim (Bool-cases (failed (f t.calls))) [
          | inl bad ↦ rw bad (inr (o, refl))
          | inr good ↦ rw good (h (record t { calls = t.calls ++ a ∷ [] }) u)
        ])
]

status-CountedOnce :
    (cl : Client) (t : Task) → is_finished t.state ≡ false → CountedOnce cl (run_status cl t)
unfolding run_status
status-CountedOnce cl t u =
    call_fn-CountedOnce Action.status_fn TaskState.status cl t after_status refl
      (λ v w. elim (Bool-cases (asks_status v.send.command)) [
        | inl e ↦ rw e (finish-CountedOnce cl v w)
        | inr e ↦ rw e (stay-CountedOnce cl v)
      ])
      u

created-CountedOnce :
    (cl : Client) (t : Task) → is_finished t.state ≡ false → CountedOnce cl (run_created cl t)
unfolding run_created
created-CountedOnce cl t u =
    call_fn-CountedOnce Action.created_fn TaskState.created cl t after_created refl
      (λ v w. elim (Bool-cases (ends_created v.send.command)) [
        | inl e ↦ rw e (finish-CountedOnce cl (record v { error_code = Return.success }) w)
        | inr e ↦ rw e (stay-CountedOnce cl v)
      ])
      u

-- The states whose function is followed by the end of the task, and those after which others come.
ended-CountedOnce :
    (a : Action) (s : TaskState) (cl : Client) (t : Task)
    → is_finished s ≡ false
    → is_finished t.state ≡ false
    → CountedOnce cl (call_fn a s cl t finish)
ended-CountedOnce a s cl t o u = call_fn-CountedOnce a s cl t finish o (finish-CountedOnce cl) u

stayed-CountedOnce :
    (a : Action) (s : TaskState) (cl : Client) (t : Task)
    → is_finished s ≡ false
    → is_finished t.state ≡ false
    → CountedOnce cl (call_fn a s cl t stay)
stayed-CountedOnce a s cl t o u =
    call_fn-CountedOnce a s cl t stay o (λ v w. stay-CountedOnce cl v) u

take_exception-state : (t : Task) → (take_exception t).state ≡ t.state
unfolding take_exception
take_exception-state t = ground arith

reply-CountedOnce :
    (c : Command) (cl : Client) (t : Task)
    → is_finished t.state ≡ false
    → CountedOnce cl (on_reply c cl t)
unfolding on_reply
reply-CountedOnce Command.job_created cl t u =
    created-CountedOnce cl (record t { is_known = true; job_handle = printed 64 (recv_arg t 0) }) u
reply-CountedOnce Command.work_data cl t u =
    stayed-CountedOnce Action.data_fn TaskState.got_data cl
      (record t { is_known = true; is_running = true }) refl u
reply-CountedOnce Command.work_warning cl t u =
    stayed-CountedOnce Action.warning_fn TaskState.warning cl t refl u
reply-CountedOnce Command.work_status cl t u =
    status-CountedOnce cl (take_status Command.work_status t) u
reply-CountedOnce Command.status_res_unique cl t u =
    status-CountedOnce cl (take_status Command.status_res_unique t) u
reply-CountedOnce Command.status_res cl t u =
    status-CountedOnce cl (take_status Command.status_res t) u
reply-CountedOnce Command.work_complete cl t u =
    ended-CountedOnce Action.complete_fn TaskState.complete cl
      (record (is_over t) { error_code = Return.success }) refl u
reply-CountedOnce Command.work_exception cl t u =
    ended-CountedOnce Action.exception_fn TaskState.exception cl (take_exception t) refl
      (rw (take_exception-state t) u)
reply-CountedOnce Command.work_fail cl t u =
    ended-CountedOnce Action.fail_fn TaskState.fail cl
      (record (is_over t) { result = none; error_code = Return.work_fail }) refl u
reply-CountedOnce _ cl t u = stay-CountedOnce cl t

pub state-CountedOnce :
    (s : TaskState) (rounds : ℕ) (lib : Library) (send : Send) (cl : Client) (t : Task)
    → gets_replies s ≡ true
    → is_finished t.state ≡ false
    → CountedOnce cl (on_state s rounds lib send cl t)
unfolding on_state gets_replies run_work on_reply
state-CountedOnce TaskState.work rounds lib send cl t g u = reply-CountedOnce t.recv.command cl t u
state-CountedOnce TaskState.created rounds lib send cl t g u = created-CountedOnce cl t u
state-CountedOnce TaskState.got_data rounds lib send cl t g u =
    stayed-CountedOnce Action.data_fn TaskState.got_data cl t refl u
state-CountedOnce TaskState.warning rounds lib send cl t g u =
    stayed-CountedOnce Action.warning_fn TaskState.warning cl t refl u
state-CountedOnce TaskState.status rounds lib send cl t g u = status-CountedOnce cl t u
state-CountedOnce TaskState.complete rounds lib send cl t g u =
    ended-CountedOnce Action.complete_fn TaskState.complete cl t refl u
state-CountedOnce TaskState.exception rounds lib send cl t g u =
    ended-CountedOnce Action.exception_fn TaskState.exception cl t refl u
state-CountedOnce TaskState.fail rounds lib send cl t g u =
    ended-CountedOnce Action.fail_fn TaskState.fail cl t refl u
state-CountedOnce _ rounds lib send cl t g u = cc

replies-open : (s : TaskState) → gets_replies s ≡ true → is_finished s ≡ false
unfolding gets_replies
replies-open TaskState.finished g = cc
replies-open _ g = ground arith

-- A run of _client_run_task on a task that is in WORK or at one of its reply functions ends, and
-- either finishes the task with success, takes one off the running tasks and leaves the count of new
-- tasks, or leaves the task unfinished and the client as it was, or fails an assertion,
-- whatever its functions answer.
pub client_run_task-CountedOnce :
    (rounds : ℕ) (lib : Library) (send : Send) (cl : Client) (t : Task)
    → gets_replies t.state ≡ true
    → CountedOnce cl (client_run_task rounds lib send cl t)
unfolding client_run_task
client_run_task-CountedOnce rounds lib send cl t g =
    state-CountedOnce t.state rounds lib send cl t g (replies-open t.state g)
