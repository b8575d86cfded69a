-- ===== src/Client/Task/Submit.antt =====
-- libgearman/run.cc: the states of `_client_run_task` in which a task is sent. What
-- `gearman_connection_st::send_packet` does to a connection is a parameter.
use gearmand.Prelude.{
  ℕ, zero, suc, Bool, true, false, not, ◌&&◌, Option, none, some, List, [], ◌∷◌, take, ltb, ◌==◌,
  dec32, inc32, if◌then◌else◌,
}
use gearmand.Protocol.Packet.{Packet, is_some}
use gearmand.Client.Return.{Return, is_could_not_connect}
use gearmand.Client.Connection.{Connection, is_state_none}
use gearmand.Client.Selection.{Library, select_connection_by_key}
use gearmand.Client.Task.{
  Task, Client, Outcome, TaskState, Action, expects_job_created, find_con, with_con, with_state,
  call_fn, counted_off,
}

-- `use_hash_server_selection`
abbrev pub use_hash_server_selection : Client → Task → Bool
use_hash_server_selection cl t =
    cl.server_selection_hash_unique && (ltb 0 t.unique_length && expects_job_created t.send.command)

-- The first connection of the list that is not in the middle of a send.
unfoldable pub first_idle : List Connection → Option ℕ
first_idle [] = none
first_idle (c ∷ cs) =
    let rest = first_idle cs in if is_state_none c.send_state then some c.address else rest

-- The connections that follow one in the list.
unfoldable pub behind : ℕ → List Connection → List Connection
behind a [] = []
behind a (c ∷ cs) = let rest = behind a cs in if c.address == a then cs else rest

abbrev pub address_of : Option Connection → Option ℕ
address_of none = none
address_of (some c) = some c.address

abbrev pub by_key : Library → Client → Task → Option ℕ → Option ℕ
by_key lib cl t after =
    address_of (select_connection_by_key lib cl.con_list (take t.unique_length t.unique) after)

-- The choice of a connection for a new task, and that of another one where the first could not be
-- connected.
unfoldable pub choose : Library → Client → Task → Option ℕ
choose lib cl t =
    if use_hash_server_selection cl t then by_key lib cl t none else first_idle cl.con_list

unfoldable pub choose_next : Library → Client → Task → ℕ → Option ℕ
choose_next lib cl t a =
    if use_hash_server_selection cl t
    then by_key lib cl t (some a)
    else first_idle (behind a cl.con_list)

abbrev pub next_id : Client → ℕ → ℕ
next_id cl a = elim (find_con a cl.con_list) [ none ↦ 0 | some c ↦ c.created_id_next ]

-- The task takes the connection, and a submission the next number of it.
unfoldable pub take_slot : Client → Task → ℕ → Client × Task
take_slot cl t a =
    if expects_job_created t.send.command
    then (
      with_con a (λ c. record c { created_id_next = inc32 c.created_id_next }) cl,
      record t { con = some a; created_id = next_id cl a },
    )
    else (cl, record t { con = some a })

-- The number of a submission that could not be sent is given up.
abbrev pub give_up_slot : Client → Task → ℕ → Client
give_up_slot cl t a =
    if expects_job_created t.send.command
    then with_con a (λ c. record c { created_id = inc32 c.created_id }) cl
    else cl

-- The task is sent; the reply is waited for.
abbrev pub to_work : ℕ → Client → Task → Outcome
to_work a cl t =
    Outcome.returned (with_con a (λ c. record c { pollin = true }) (record cl { no_new = false }))
      (with_state TaskState.work t) Return.success

-- The state WORKLOAD; a function that is not set is called all the same.
unfoldable pub run_workload : ℕ → Client → Task → Outcome
run_workload a cl t = elim (t.func Action.workload_fn) [
  | none ↦ Outcome.aborted
  | some f ↦ call_fn Action.workload_fn TaskState.workload cl t (to_work a)
]

abbrev pub has_workload_fn : Task → Bool
has_workload_fn t = elim (t.func Action.workload_fn) [ none ↦ false | some f ↦ true ]

-- What follows the loop: the workload, where there is only its size.
unfoldable pub after_send : ℕ → Client → Task → Outcome
after_send a cl t =
    if ltb 0 t.send.data_size && not (is_some t.send.workload)
    then (if has_workload_fn t
        then run_workload a cl t
        else Outcome.returned cl t Return.need_workload_fn)
    else to_work a cl t

-- No connection is left to be tried.
unfoldable pub give_up : Client → Task → Return → Outcome
give_up cl t ret =
    if is_could_not_connect ret
    then Outcome.returned (record cl { new_tasks = inc32 cl.new_tasks })
        (record t { con = none; error_code = ret; state = TaskState.new }) ret
    else Outcome.returned (counted_off cl)
        (record t { con = none; error_code = ret; state = TaskState.fail }) ret

-- What a send gives: the connection after it, and its result.
abbrev pub Send : Type 0
Send = Connection → Packet → Bool → Connection × Return

abbrev pub send_on : Send → Client → ℕ → Packet → Option (Client × Return)
send_on send cl a p = elim (find_con a cl.con_list) [
  | none ↦ none
  | some c ↦ let (c', ret) = send c p (cl.new_tasks == 0) in some (with_con a (λ _. c') cl, ret)
]

abbrev pub next_con : Library → Client → Task → ℕ → Return → Option ℕ
next_con lib cl t a ret = if is_could_not_connect ret then choose_next lib cl t a else none

-- What the loop does with the result of a send.
abbrev pub on_result : Return → Outcome → Outcome → (Return → Outcome) → Outcome
on_result Return.success sent waiting other = sent
on_result Return.io_wait sent waiting other = waiting
on_result ret sent waiting other = other ret

-- The state SUBMIT: the loop of sends.
unfoldable pub submit_loop : ℕ → Library → Send → ℕ → Client → Task → Outcome
unfolding give_up after_send take_slot
submit_loop zero lib send a cl t = Outcome.going_on
submit_loop (suc rounds) lib send a cl t = elim (send_on send cl a t.send) [
  | none ↦ Outcome.aborted
  | some (sent, ret) ↦
      on_result ret (after_send a sent t)
        (Outcome.returned sent (with_state TaskState.submit t) Return.io_wait)
        (λ other. elim (next_con lib (give_up_slot sent t a) t a other) [
          | none ↦ give_up (give_up_slot sent t a) t other
          | some b ↦
              submit_loop rounds lib send b (take_slot (give_up_slot sent t a) t b).0
                (take_slot (give_up_slot sent t a) t b).1
        ])
]

abbrev pub has_connections : List Connection → Bool
has_connections [] = false
has_connections (c ∷ cs) = true

abbrev pub start_on : ℕ → Library → Send → Client → Task → Option ℕ → Outcome
start_on rounds lib send cl t none =
    Outcome.returned (record cl { no_new = true }) (record t { con = none }) Return.io_wait
start_on rounds lib send cl t (some a) =
    let begun = record cl { new_tasks = dec32 cl.new_tasks } in
    submit_loop rounds lib send a (take_slot begun t a).0 (take_slot begun t a).1

-- The state NEW.
unfoldable pub run_new : ℕ → Library → Send → Client → Task → Outcome
unfolding submit_loop choose
run_new rounds lib send cl t =
    if has_connections cl.con_list
    then start_on rounds lib send cl t (choose lib cl t)
    else Outcome.returned
        (record cl { new_tasks = dec32 cl.new_tasks; running_tasks = dec32 cl.running_tasks }) t
        Return.no_servers
