-- ===== src/Server/Commands/Submit.antt =====
-- server.cc: the commands that submit a job.
use gearmand.Prelude.{
  ℕ, ◌^◌, Bool, true, false, not, Option, none, some, [], ◌∷◌, c_str, codes, ℤ, pos, negsuc,
  read_decimal, ltb, if◌then◌else◌,
}
use gearmand.Protocol.Errors.{Error, failed}
use gearmand.Protocol.Commands.{Command}
use gearmand.Protocol.Strings.{ReturnCode, gearmand_strerror}
use gearmand.Protocol.Packet.{Bytes, Packet}
use gearmand.Server.State.{Server, Priority}
use gearmand.Server.Clients.{client_add, client_free}
use gearmand.Server.Jobs.Add.{Submission, Added, job_add, job_add_reducer}
use gearmand.Server.Commands.Reply.{respond, error_packet, arg_at, chopped, size_less_one}

abbrev pub unique_size : ℕ
unique_size = 64

abbrev pub priority_of : Command → Priority
priority_of Command.submit_job_high = Priority.high
priority_of Command.submit_job_high_bg = Priority.high
priority_of Command.submit_job_low = Priority.low
priority_of Command.submit_job_low_bg = Priority.low
priority_of _ = Priority.normal

-- The commands whose client does not wait.
abbrev pub is_background_command : Command → Bool
is_background_command Command.submit_job_bg = true
is_background_command Command.submit_job_high_bg = true
is_background_command Command.submit_job_low_bg = true
is_background_command Command.submit_job_epoch = true
is_background_command Command.submit_reduce_job_background = true
is_background_command _ = false

abbrev is_epoch : Command → Bool
is_epoch Command.submit_job_epoch = true
is_epoch _ = false

-- `gearman_server_client_free`, which passes over NULL.
abbrev pub free_client : Server → Option ℕ → Server
free_client s none = s
free_client s (some c) = client_free s c

abbrev has_failed : Error → Bool
has_failed Error.success = false
has_failed Error.job_exists = false
has_failed _ = true

abbrev failure_text : Error → Bytes
failure_text Error.job_queue_full = codes "Job queue is full"
failure_text e = gearmand_strerror e

abbrev created_or : Server × Error → Option ℕ → Server × Error
created_or (s, e) client = if failed e then (free_client s client, e) else (s, Error.success)

abbrev created : Server → ℕ → Option ℕ → Option ℕ → Server × Error
created s con client none = (s, Error.success)
created s con client (some j) =
    created_or (respond s con Command.job_created (c_str (s.jobs j).job_handle ∷ [])) client

-- The reply to a submission; on success and for a job that exists there is a job.
unfoldable pub reply_added : Added → ℕ → Option ℕ → Server × Error
reply_added (s, j, e) con client =
    if has_failed e
    then error_packet (free_client s client) con ReturnCode.queue_error (failure_text e)
    else created s con client j

-- The client of the submission: none for a background command.
abbrev pub Joined : Type 0
Joined = Server × Option (Option ℕ)

abbrev taken_on : Server × Option ℕ → Joined
taken_on (s, none) = (s, none)
taken_on (s, some c) = (s, some (some c))

unfoldable pub join_client : Server → ℕ → Command → Joined
join_client s con command =
    if is_background_command command then (s, some none) else taken_on (client_add s con)

abbrev too_large : Server → ℕ → Option ℕ → Server × Error
too_large s con client =
    error_packet (free_client s client) con ReturnCode.argument_too_large
      (codes "Unique value too large")

abbrev submission : Packet → ℤ → Option ℕ → Submission
submission p when client = record {
  function_name = chopped (arg_at p 0);
  unique = chopped (arg_at p 1);
  reducer = [];
  workload = p.workload;
  priority = priority_of p.command;
  client = client;
  when = when;
}

abbrev submit_joined : ℕ → Joined → ℕ → Packet → ℤ → Server × Error
submit_joined now (s, none) con p when = (s, Error.memory_allocation_failure)
submit_joined now (s, some client) con p when =
    if ltb unique_size (size_less_one (arg_at p 1))
    then too_large s con client
    else reply_added (job_add now s (submission p when client)) con client

-- `strtoll` sets `errno` for a number that does not fit.
abbrev fits_int64 : ℤ → Bool
fits_int64 (pos n) = ltb n (2 ^ 63)
fits_int64 (negsuc n) = ltb n (2 ^ 63)

-- `GEARMAN_COMMAND_SUBMIT_JOB` and the other commands with two arguments, or a time as the third.
unfoldable pub submit_job : ℕ → Server → ℕ → Packet → Server × Error
unfolding join_client reply_added
submit_job now s con p =
    let joined = join_client s con p.command in
    let when = if is_epoch p.command then read_decimal (c_str (arg_at p 2)) else pos 0 in
    if not (fits_int64 when)
    then (joined.0, Error.unknown_option)
    else submit_joined now joined con p when

abbrev reduction : Packet → Option ℕ → Submission
reduction p client = record {
  function_name = chopped (arg_at p 0);
  unique = chopped (arg_at p 1);
  reducer = chopped (arg_at p 2);
  workload = p.workload;
  priority = Priority.normal;
  client = client;
  when = pos 0;
}

abbrev reduce_joined : ℕ → Joined → ℕ → Packet → Server × Error
reduce_joined now (s, none) con p = (s, Error.memory_allocation_failure)
reduce_joined now (s, some client) con p =
    if ltb unique_size (size_less_one (arg_at p 2))
    then too_large s con client
    else reply_added (job_add_reducer now s (reduction p client)) con client

-- `GEARMAN_COMMAND_SUBMIT_REDUCE_JOB` and its background form.
unfoldable pub submit_reduce_job : ℕ → Server → ℕ → Packet → Server × Error
unfolding join_client reply_added
submit_reduce_job now s con p = reduce_joined now (join_client s con p.command) con p
