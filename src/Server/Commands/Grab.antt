-- ===== src/Server/Commands/Grab.antt =====
-- server.cc: a worker asks for a job.
use gearmand.Prelude.{
  ◌+◌, ℕ, false, Option, none, some, List, [], ◌∷◌, ◌++◌, bytes_eq, c_str, if◌then◌else◌, take,
}
use gearmand.Protocol.Errors.{Error, failed}
use gearmand.Protocol.Commands.{Command}
use gearmand.Protocol.Packet.{Bytes}
use gearmand.Server.State.{Server, Job, set_con}
use gearmand.Server.Jobs.Requeue.{job_queue, con_add_job_timeout}
use gearmand.Server.Take.{job_take}
use gearmand.Server.Commands.Reply.{respond, with_nul, data_args}

-- The reply's command and arguments, `unique_length + 1` bytes from the buffer of the unique id on,
-- which the reducer's buffer follows: the handle, the function, for two of the commands the unique
-- id, for the third the reducer too if there is one, and the workload.
abbrev with_unique : Job → List Bytes → List Bytes
with_unique x rest =
    take (x.unique_length + 1) (x.unique ++ (0 ∷ with_nul (c_str x.reducer))) ∷ rest

abbrev pub reply_command : Command → Job → Command
reply_command Command.grab_job_uniq x = Command.job_assign_uniq
reply_command Command.grab_job_all x =
    if bytes_eq x.reducer [] then Command.job_assign_uniq else Command.job_assign_all
reply_command _ x = Command.job_assign

abbrev extra_args : Command → Job → List Bytes
extra_args Command.grab_job_uniq x = with_unique x []
extra_args Command.grab_job_all x =
    with_unique x (if bytes_eq x.reducer [] then [] else with_nul (c_str x.reducer) ∷ [])
extra_args _ x = []

unfoldable pub assign_args : Server → Command → Job → List Bytes
assign_args s command x =
    with_nul (c_str x.job_handle)
    ∷ with_nul (s.functions x.function).function_name
    ∷ (extra_args command x ++ data_args x.workload)

abbrev awake : Server → ℕ → Server
awake s con = set_con s con (record (s.cons con) { is_sleeping = false; is_noop_sent = false })

-- A packet that cannot be queued gives the job back; else its timer is set.
abbrev assigned : ℕ → Server × Error → ℕ → ℕ → Server × Error
assigned now (s, e) con j =
    if failed e then job_queue now s j else ((con_add_job_timeout s con j).0, Error.success)

abbrev give : ℕ → Server × Option ℕ → ℕ → Command → Server × Error
give now (s, none) con command = respond s con Command.no_job []
give now (s, some j) con command =
    assigned now
      (respond s con (reply_command command (s.jobs j)) (assign_args s command (s.jobs j))) con j

-- `GEARMAN_COMMAND_GRAB_JOB`, `…_UNIQ` and `…_ALL`. `none`: the fuel ran out.
unfoldable pub grab_job : ℕ → ℕ → Server → ℕ → Command → Option (Server × Error)
unfolding assign_args
grab_job fuel now s con command = elim (job_take fuel now (awake s con) con) [
  | none ↦ none
  | some r ↦ some (give now r con command)
]
