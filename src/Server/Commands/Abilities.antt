-- ===== src/Server/Commands/Abilities.antt =====
-- server.cc: what a worker can do, and its going to sleep.
use gearmand.Prelude.{
  ℕ, ◌-◌, ◌^◌, Bool, true, Option, none, some, [], length, c_str, ℤ, pos, negsuc, read_decimal, ltb,
  leb, if◌then◌else◌,
}
use gearmand.Protocol.Errors.{Error}
use gearmand.Protocol.Commands.{Command}
use gearmand.Protocol.Packet.{Packet}
use gearmand.Server.State.{Server, set_con}
use gearmand.Server.Jobs.{con_delete_timeout}
use gearmand.Server.Workers.{worker_add, con_free_worker, con_free_workers, con_set_id}
use gearmand.Server.Take.Peek.{job_peek}
use gearmand.Server.Commands.Reply.{respond, arg_at, chopped}

abbrev registered : Server × Option ℕ → Server × Error
registered (s, none) = (s, Error.memory_allocation_failure)
registered (s, some w) = (s, Error.success)

-- `GEARMAN_COMMAND_CAN_DO`
unfoldable pub can_do : Server → ℕ → Packet → Server × Error
can_do s con p = registered (worker_add s con (arg_at p 0) (pos 0))

-- `timeout == LONG_MIN or timeout == LONG_MAX or errno != 0`
abbrev pub bad_long : ℤ → Bool
bad_long (pos n) = leb (2 ^ 63 - 1) n
bad_long (negsuc n) = leb (2 ^ 63 - 1) n

abbrev maximum_integer_display_length : ℕ
maximum_integer_display_length = 20

-- `GEARMAN_COMMAND_CAN_DO_TIMEOUT`; `errno` is `ERANGE`, which is no error of the server's own.
unfoldable pub can_do_timeout : Server → ℕ → Packet → Server × Error
can_do_timeout s con p =
    let timeout = read_decimal (c_str (arg_at p 1)) in
    if ltb maximum_integer_display_length (length (arg_at p 1))
    then (s, Error.invalid_packet)
    else if bad_long timeout
    then (s, Error.errno)
    else registered (worker_add s con (chopped (arg_at p 0)) timeout)

-- `GEARMAN_COMMAND_CANT_DO`
unfoldable pub cant_do : ℕ → Server → ℕ → Packet → Server × Error
cant_do now s con p = (con_free_worker now s con (arg_at p 0), Error.success)

-- `GEARMAN_COMMAND_RESET_ABILITIES`
unfoldable pub reset_abilities : ℕ → Server → ℕ → Server × Error
reset_abilities now s con = (con_free_workers now s con, Error.success)

-- `GEARMAN_COMMAND_SET_CLIENT_ID`
unfoldable pub set_client_id : Server → ℕ → Packet → Server × Error
set_client_id s con p = (con_set_id s con (arg_at p 0), Error.success)

abbrev after_peek : Server × Option ℕ → ℕ → Server × Error
after_peek (s, none) con = (
  con_delete_timeout (set_con s con (record (s.cons con) { is_sleeping = true })) con,
  Error.success,
)
after_peek (s, some j) con = respond s con Command.noop []

-- `GEARMAN_COMMAND_PRE_SLEEP`. `none`: the fuel ran out.
unfoldable pub pre_sleep : ℕ → ℕ → Server → ℕ → Option (Server × Error)
pre_sleep fuel now s con = elim (job_peek fuel now s con) [
  | none ↦ none
  | some r ↦ some (after_peek r con)
]
