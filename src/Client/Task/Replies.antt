-- ===== src/Client/Task/Replies.antt =====
-- libgearman/run.cc: the states of `_client_run_task` in which a task gets its replies. Each state
-- after the first continues a reply at the user's function, which failed before.
use gearmand.Prelude.{
  ℕ, ◌+◌, ◌-◌, ◌%◌, ◌^◌, Bool, true, false, not, ◌&&◌, none, some, [], take, length, get_or, ltb,
  ◌==◌, ℤ, pos, negsuc, is_zero, read_decimal, c_str, if◌then◌else◌,
}
use gearmand.Protocol.Commands.{Command}
use gearmand.Protocol.Packet.{Bytes, Packet}
use gearmand.Client.Return.{Return}
use gearmand.Client.Task.{Task, Client, Outcome, TaskState, Action, with_state, call_fn, finish}

-- The end of a reply after which others come.
abbrev pub stay : Client → Task → Outcome
stay cl t = Outcome.returned cl (with_state TaskState.work t) Return.success

-- The commands of which `JOB_CREATED` is the last reply.
unfoldable pub ends_created : Command → Bool
ends_created Command.submit_job_bg = true
ends_created Command.submit_job_high_bg = true
ends_created Command.submit_job_low_bg = true
ends_created Command.submit_job_epoch = true
ends_created Command.submit_reduce_job_background = true
ends_created _ = false

abbrev pub after_created : Client → Task → Outcome
after_created cl t =
    if ends_created t.send.command
    then finish cl (record t { error_code = Return.success })
    else stay cl t

-- The state CREATED, and those that follow.
unfoldable pub run_created : Client → Task → Outcome
run_created cl t = call_fn Action.created_fn TaskState.created cl t after_created

unfoldable pub run_data : Client → Task → Outcome
run_data cl t = call_fn Action.data_fn TaskState.got_data cl t stay

unfoldable pub run_warning : Client → Task → Outcome
run_warning cl t = call_fn Action.warning_fn TaskState.warning cl t stay

unfoldable pub asks_status : Command → Bool
asks_status Command.get_status = true
asks_status Command.get_status_unique = true
asks_status _ = false

abbrev pub after_status : Client → Task → Outcome
after_status cl t = if asks_status t.send.command then finish cl t else stay cl t

unfoldable pub run_status : Client → Task → Outcome
run_status cl t = call_fn Action.status_fn TaskState.status cl t after_status

unfoldable pub run_complete : Client → Task → Outcome
run_complete cl t = call_fn Action.complete_fn TaskState.complete cl t finish

unfoldable pub run_exception : Client → Task → Outcome
run_exception cl t = call_fn Action.exception_fn TaskState.exception cl t finish

unfoldable pub run_fail : Client → Task → Outcome
run_fail cl t = call_fn Action.fail_fn TaskState.fail cl t finish

-- `uint32_t(atoi(text))`
unfoldable pub to_u32 : ℤ → ℕ
to_u32 (pos n) = n % 2 ^ 32
to_u32 (negsuc n) = 2 ^ 32 - 1 - n % 2 ^ 32

abbrev pub recv_arg : Task → ℕ → Bytes
recv_arg t i = get_or t.recv.arg i []

-- `snprintf("%.*s")` into an array of `size` bytes
abbrev pub printed : ℕ → Bytes → Bytes
printed size text = take (size - 1) (c_str text)

abbrev is_nonzero : Bytes → Bool
is_nonzero text = not (is_zero (read_decimal (c_str text)))

-- Where the numerator stands among a reply's arguments.
unfoldable pub numerator_place : Command → ℕ
numerator_place Command.status_res = 3
numerator_place Command.status_res_unique = 3
numerator_place _ = 1

abbrev pub known : Task → Task
known t = record t {
  error_code = Return.success;
  is_known = is_nonzero (recv_arg t 1);
  is_running = is_nonzero (recv_arg t 2);
}

-- What the reply to a request of a status says first.
unfoldable pub status_known : Command → Task → Task
status_known Command.status_res t = known t
status_known Command.status_res_unique t = record (known t) { unique = printed 64 (recv_arg t 0) }
status_known _ t = t

abbrev numbers : ℕ → Task → Task
numbers x t = record t {
  numerator = to_u32 (read_decimal (c_str (recv_arg t x)));
  denominator = to_u32 (read_decimal (printed 11 (recv_arg t (x + 1))));
}

unfoldable pub status_clients : Command → ℕ → Task → Task
status_clients Command.status_res_unique x t = record t {
  client_count = to_u32 (read_decimal (printed 11 (recv_arg t (x + 2))));
}
status_clients _ x t = t

-- The numbers of a status.
unfoldable pub take_status : Command → Task → Task
unfolding status_known status_clients numerator_place
take_status c t = let x = numerator_place c in status_clients c x (numbers x (status_known c t))

abbrev pub is_over : Task → Task
is_over t = record t { is_known = false; is_running = false }

abbrev pub data_of : Packet → Bytes
data_of p = elim p.workload [ none ↦ [] | some d ↦ d ]

-- An exception that has data and one argument is kept.
unfoldable pub take_exception : Task → Task
take_exception t =
    if (length t.recv.arg == 1) && ltb 0 t.recv.data_size
    then record (is_over t) {
      exception = take t.recv.data_size (data_of t.recv);
      result = none;
      error_code = Return.work_exception;
    }
    else record (is_over t) { result = none; error_code = Return.work_exception }

-- The packet that came, by its command.
unfoldable pub on_reply : Command → Client → Task → Outcome
unfolding take_status take_exception run_created run_data run_warning run_status run_complete
    run_exception run_fail
on_reply Command.job_created cl t =
    run_created cl (record t { is_known = true; job_handle = printed 64 (recv_arg t 0) })
on_reply Command.work_data cl t = run_data cl (record t { is_known = true; is_running = true })
on_reply Command.work_warning cl t = run_warning cl t
on_reply Command.work_status cl t = run_status cl (take_status Command.work_status t)
on_reply Command.status_res_unique cl t = run_status cl (take_status Command.status_res_unique t)
on_reply Command.status_res cl t = run_status cl (take_status Command.status_res t)
on_reply Command.work_complete cl t =
    run_complete cl (record (is_over t) { error_code = Return.success })
on_reply Command.work_exception cl t = run_exception cl (take_exception t)
on_reply Command.work_fail cl t =
    run_fail cl (record (is_over t) { result = none; error_code = Return.work_fail })
on_reply _ cl t = stay cl t

-- The state WORK.
unfoldable pub run_work : Client → Task → Outcome
unfolding on_reply
run_work cl t = on_reply t.recv.command cl t
