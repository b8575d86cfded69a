-- ===== src/Client/Task.antt =====
-- libgearman/interface/task.hpp and client.hpp: a task of a client, and what the states of a task
-- use of the client. A connection is named by its address. The user's functions are any functions of
-- the calls so far.
pub mod Submit
pub mod Replies
pub mod Run
pub mod Match
pub mod Choice
pub mod Counts
pub mod Ended
pub mod Places
pub mod TwoIdle
pub mod Refused
pub mod Ends
pub mod Slots
pub mod Twice
use gearmand.Prelude.{
  ℕ, ◌+◌, ◌%◌, ◌^◌, Bool, true, false, Option, none, some, List, [], ◌∷◌, ◌++◌, ◌==◌, ◌&&◌, dec32,
  if◌then◌else◌,
}
use gearmand.Protocol.Commands.{Command}
use gearmand.Protocol.Packet.{Bytes, Packet}
use gearmand.Client.Return.{Return, failed, is_unknown_state}
use gearmand.Client.Connection.{Connection}

-- `gearman_task_state_t`
pub data TaskState : Type 0 where
  new submit workload work created got_data warning status complete exception fail finished :
      TaskState

-- The members of `gearman_actions_t`.
pub data Action : Type 0 where
  workload_fn created_fn data_fn warning_fn status_fn complete_fn exception_fn fail_fn : Action

-- `Task`. `calls` are the calls of its functions so far; `is_freed` tells that it was freed.
pub record Task : Type 0 where
  pub state : TaskState
  pub is_add_task : Bool
  pub is_known : Bool
  pub is_running : Bool
  pub is_freed : Bool
  pub created_id : ℕ
  pub numerator : ℕ
  pub denominator : ℕ
  pub client_count : ℕ
  pub con : Option ℕ
  pub send : Packet
  pub recv : Packet
  pub func : Action → Option (List Action → Return)
  pub calls : List Action
  pub error_code : Return
  pub result : Option Bytes
  pub job_handle : Bytes
  pub exception : Bytes
  pub unique_length : ℕ
  pub unique : Bytes

-- `Client`
pub record Client : Type 0 where
  pub no_new : Bool
  pub free_tasks : Bool
  pub server_selection_hash_unique : Bool
  pub new_tasks : ℕ
  pub running_tasks : ℕ
  pub task_count : ℕ
  pub con_list : List Connection

-- How a run of a task ends: it returns, an assertion of it fails or it calls a null function, or it
-- is still going on when the rounds are used up.
pub data Outcome : Type 0 where
  returned : Client → Task → Return → Outcome
  aborted : Outcome
  going_on : Outcome

-- `gearman_command_expects_job_created`
unfoldable pub expects_job_created : Command → Bool
expects_job_created Command.submit_job = true
expects_job_created Command.submit_job_bg = true
expects_job_created Command.submit_job_high = true
expects_job_created Command.submit_job_high_bg = true
expects_job_created Command.submit_job_low = true
expects_job_created Command.submit_job_low_bg = true
expects_job_created Command.submit_job_sched = true
expects_job_created Command.submit_job_epoch = true
expects_job_created Command.submit_reduce_job = true
expects_job_created Command.submit_reduce_job_background = true
expects_job_created _ = false

abbrev pub find_con : ℕ → List Connection → Option Connection
find_con a [] = none
find_con a (c ∷ cs) = let rest = find_con a cs in if c.address == a then some c else rest

abbrev pub change_con : ℕ → (Connection → Connection) → List Connection → List Connection
change_con a f [] = []
change_con a f (c ∷ cs) = (if c.address == a then f c else c) ∷ change_con a f cs

abbrev pub with_con : ℕ → (Connection → Connection) → Client → Client
with_con a f cl = record cl { con_list = change_con a f cl.con_list }

abbrev pub with_state : TaskState → Task → Task
with_state s t = record t { state = s }

abbrev pub answered : Return → TaskState → Client → Task → (Client → Task → Outcome) → Outcome
answered ret s cl t next =
    if failed ret then Outcome.returned cl (with_state s t) ret else next cl t

-- The call of a function that is set; where it fails, the task stays in the state and its result is
-- returned.
unfoldable pub call_fn : Action → TaskState → Client → Task → (Client → Task → Outcome) → Outcome
call_fn a s cl t next = elim (t.func a) [
  | none ↦ next cl t
  | some f ↦ answered (f t.calls) s cl (record t { calls = t.calls ++ a ∷ [] }) next
]

abbrev pub is_finished : TaskState → Bool
is_finished TaskState.finished = true
is_finished _ = false

-- `gearman_task_free` at the end of a run
abbrev pub free_task : Client → Task → Outcome
free_task cl t =
    if cl.free_tasks && t.is_add_task
    then Outcome.returned (record cl { task_count = dec32 cl.task_count })
        (record t { is_freed = true; job_handle = [] }) Return.success
    else Outcome.returned cl t Return.success

abbrev pub counted_off : Client → Client
counted_off cl = record cl { running_tasks = dec32 cl.running_tasks }

abbrev pub checked : Client → Task → Outcome
checked cl t = if is_unknown_state t.error_code then Outcome.aborted else free_task cl t

-- What follows the `switch`.
unfoldable pub finish : Client → Task → Outcome
finish cl t =
    if is_finished t.state
    then checked cl t
    else checked (counted_off cl) (with_state TaskState.finished t)
