-- ===== src/Client/Task/Ended.antt =====
-- run.cc: the parts of a run that always end.
use gearmand.Prelude.{
  ◌++◌, ℕ, true, false, Option, none, some, [], ◌∷◌, inl, inr, Bool, Bool-cases, Option-cases, ltb,
  ◌&&◌, not, if◌then◌else◌,
}
use gearmand.Protocol.Packet.{is_some}
use gearmand.Client.Return.{Return, is_could_not_connect, failed, is_unknown_state}
use gearmand.Client.Task.{
  TaskState, Task, Client, Outcome, Action, finish, call_fn, checked, with_state, is_finished,
  counted_off,
}
use gearmand.Client.Task.Submit.{
  give_up, after_send, run_workload, to_work, has_workload_fn, on_result,
}
use gearmand.Client.Task.Run.{on_con}
use gearmand.Client.Task.Counts.{CountedOnce}

-- The run does not ask for more rounds.
abbrev pub Ends : Outcome → Type 0
Ends (Outcome.returned cl t r) = Unit
Ends Outcome.aborted = Unit
Ends Outcome.going_on = ⊥

pub CountedOnce-Ends : (cl : Client) (o : Outcome) → CountedOnce cl o → Ends o
CountedOnce-Ends cl (Outcome.returned d t r) h = tt
CountedOnce-Ends cl Outcome.aborted h = tt
CountedOnce-Ends cl Outcome.going_on h = h

pub checked-Ends : (cl : Client) (t : Task) → Ends (checked cl t)
checked-Ends cl t = elim (Bool-cases (is_unknown_state t.error_code)) [
  | inl e ↦ rw e tt
  | inr e ↦
      rw e
        (elim (Bool-cases (cl.free_tasks && t.is_add_task)) [ inl f ↦ rw f tt | inr f ↦ rw f tt ])
]

pub if-Ends : (b : Bool) (x y : Outcome) → Ends x → Ends y → Ends (if b then x else y)
if-Ends true x y h k = h
if-Ends false x y h k = k

pub call_fn-Ends :
    (a : Action) (s : TaskState) (cl : Client) (t : Task) (next : Client → Task → Outcome)
    → ((u : Task) → Ends (next cl u))
    → Ends (call_fn a s cl t next)
unfolding call_fn
call_fn-Ends a s cl t next h = elim (Option-cases (t.func a)) [
  | inl e ↦ rw (e, call_fn) (h t)
  | inr (f, e) ↦
      let u : Task = record t { calls = t.calls ++ a ∷ [] } in
      rw (e, call_fn)
        (if-Ends (failed (f t.calls)) (Outcome.returned cl (with_state s u) (f t.calls)) (next cl u)
          tt (h u))
]

pub workload-Ends : (a : ℕ) (cl : Client) (t : Task) → Ends (run_workload a cl t)
unfolding run_workload
workload-Ends a cl t = elim (Option-cases (t.func Action.workload_fn)) [
  | inl e ↦ rw (e, run_workload) tt
  | inr (f, e) ↦
      rw (e, run_workload)
        (call_fn-Ends Action.workload_fn TaskState.workload cl t (to_work a) (λ u. tt))
]

pub after_send-Ends : (a : ℕ) (cl : Client) (t : Task) → Ends (after_send a cl t)
unfolding after_send
after_send-Ends a cl t =
    if-Ends (ltb 0 t.send.data_size && not (is_some t.send.workload))
      (if has_workload_fn t
        then run_workload a cl t
        else Outcome.returned cl t Return.need_workload_fn)
      (to_work a cl t)
      (if-Ends (has_workload_fn t) (run_workload a cl t)
        (Outcome.returned cl t Return.need_workload_fn) (workload-Ends a cl t) tt)
      tt

pub give_up-Ends : (cl : Client) (t : Task) (r : Return) → Ends (give_up cl t r)
unfolding give_up
give_up-Ends cl t r = elim (Bool-cases (is_could_not_connect r)) [
  | inl e ↦ rw e tt
  | inr e ↦ rw e tt
]

pub on_result-Ends :
    (r : Return) (a b : Outcome) (f : Return → Outcome)
    → Ends a
    → Ends b
    → ((e : Return) → Ends (f e))
    → Ends (on_result r a b f)
on_result-Ends Return.success a b f h k g = h
on_result-Ends Return.io_wait a b f h k g = k
on_result-Ends r a b f h k g = g r

pub on_con-Ends : (o : Option ℕ) (f : ℕ → Outcome) → ((a : ℕ) → Ends (f a)) → Ends (on_con o f)
on_con-Ends none f h = tt
on_con-Ends (some a) f h = h a

pub finish-Ends : (cl : Client) (t : Task) → Ends (finish cl t)
unfolding finish
finish-Ends cl t =
    if-Ends (is_finished t.state) (checked cl t)
      (checked (counted_off cl) (with_state TaskState.finished t)) (checked-Ends cl t)
      (checked-Ends (counted_off cl) (with_state TaskState.finished t))
