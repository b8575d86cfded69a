-- ===== src/Protocol/Commands.antt =====
-- libgearman-1.0/protocol.h and libgearman/command.cc: the commands of the protocol, their numbers
-- and the table of their arguments. `beyond n` stands for the number `GEARMAN_COMMAND_MAX + n`.
use gearmand.Prelude.{
  ℕ, ◌+◌, ◌-◌, ◌<◌, ◌≡◌, refl, Bool, true, false, List, [], ◌∷◌, get_or, ltb, if◌then◌else◌, arith,
}

pub data Magic : Type 0 where
  text request response : Magic

pub data Command : Type 0 where
  text can_do cant_do reset_abilities pre_sleep unused noop submit_job job_created grab_job no_job
        job_assign work_status work_complete work_fail get_status echo_req echo_res submit_job_bg
        error status_res submit_job_high set_client_id can_do_timeout all_yours work_exception
        option_req option_res work_data work_warning grab_job_uniq job_assign_uniq
        submit_job_high_bg submit_job_low submit_job_low_bg submit_job_sched submit_job_epoch
        submit_reduce_job submit_reduce_job_background grab_job_all job_assign_all get_status_unique
        status_res_unique :
      Command
  beyond : ℕ → Command

abbrev pub command_max : ℕ
command_max = 43

unfoldable pub command_code : Command → ℕ
command_code Command.text = 0
command_code Command.can_do = 1
command_code Command.cant_do = 2
command_code Command.reset_abilities = 3
command_code Command.pre_sleep = 4
command_code Command.unused = 5
command_code Command.noop = 6
command_code Command.submit_job = 7
command_code Command.job_created = 8
command_code Command.grab_job = 9
command_code Command.no_job = 10
command_code Command.job_assign = 11
command_code Command.work_status = 12
command_code Command.work_complete = 13
command_code Command.work_fail = 14
command_code Command.get_status = 15
command_code Command.echo_req = 16
command_code Command.echo_res = 17
command_code Command.submit_job_bg = 18
command_code Command.error = 19
command_code Command.status_res = 20
command_code Command.submit_job_high = 21
command_code Command.set_client_id = 22
command_code Command.can_do_timeout = 23
command_code Command.all_yours = 24
command_code Command.work_exception = 25
command_code Command.option_req = 26
command_code Command.option_res = 27
command_code Command.work_data = 28
command_code Command.work_warning = 29
command_code Command.grab_job_uniq = 30
command_code Command.job_assign_uniq = 31
command_code Command.submit_job_high_bg = 32
command_code Command.submit_job_low = 33
command_code Command.submit_job_low_bg = 34
command_code Command.submit_job_sched = 35
command_code Command.submit_job_epoch = 36
command_code Command.submit_reduce_job = 37
command_code Command.submit_reduce_job_background = 38
command_code Command.grab_job_all = 39
command_code Command.job_assign_all = 40
command_code Command.get_status_unique = 41
command_code Command.status_res_unique = 42
command_code (Command.beyond n) = 43 + n

abbrev commands : List Command
commands =
    Command.text ∷ Command.can_do ∷ Command.cant_do ∷ Command.reset_abilities ∷ Command.pre_sleep
    ∷ Command.unused ∷ Command.noop ∷ Command.submit_job ∷ Command.job_created ∷ Command.grab_job
    ∷ Command.no_job ∷ Command.job_assign ∷ Command.work_status ∷ Command.work_complete
    ∷ Command.work_fail ∷ Command.get_status ∷ Command.echo_req ∷ Command.echo_res
    ∷ Command.submit_job_bg ∷ Command.error ∷ Command.status_res ∷ Command.submit_job_high
    ∷ Command.set_client_id ∷ Command.can_do_timeout ∷ Command.all_yours ∷ Command.work_exception
    ∷ Command.option_req ∷ Command.option_res ∷ Command.work_data ∷ Command.work_warning
    ∷ Command.grab_job_uniq ∷ Command.job_assign_uniq ∷ Command.submit_job_high_bg
    ∷ Command.submit_job_low ∷ Command.submit_job_low_bg ∷ Command.submit_job_sched
    ∷ Command.submit_job_epoch ∷ Command.submit_reduce_job ∷ Command.submit_reduce_job_background
    ∷ Command.grab_job_all ∷ Command.job_assign_all ∷ Command.get_status_unique
    ∷ Command.status_res_unique ∷ []

-- The cast of a number to `gearman_command_t`.
unfoldable pub to_command : ℕ → Command
to_command n =
    if ltb n command_max then get_or commands n Command.text else Command.beyond (n - command_max)

-- `command >= GEARMAN_COMMAND_MAX`
unfoldable pub is_beyond : Command → Bool
is_beyond (Command.beyond n) = true
is_beyond _ = false

-- The columns `argc` and `data` of `gearmand_command_info_list`; without a row, as `text`.
pub record CommandInfo : Type 0 where
  pub argc : ℕ
  pub has_data : Bool

abbrev row : ℕ → Bool → CommandInfo
row n b = record { argc = n; has_data = b }

unfoldable pub command_info : Command → CommandInfo
command_info Command.text = row 5 false
command_info Command.can_do = row 1 false
command_info Command.cant_do = row 1 false
command_info Command.reset_abilities = row 0 false
command_info Command.pre_sleep = row 0 false
command_info Command.unused = row 0 false
command_info Command.noop = row 0 false
command_info Command.submit_job = row 2 true
command_info Command.job_created = row 1 false
command_info Command.grab_job = row 0 false
command_info Command.no_job = row 0 false
command_info Command.job_assign = row 2 true
command_info Command.work_status = row 3 false
command_info Command.work_complete = row 1 true
command_info Command.work_fail = row 1 false
command_info Command.get_status = row 1 false
command_info Command.echo_req = row 0 true
command_info Command.echo_res = row 0 true
command_info Command.submit_job_bg = row 2 true
command_info Command.error = row 2 false
command_info Command.status_res = row 5 false
command_info Command.submit_job_high = row 2 true
command_info Command.set_client_id = row 1 false
command_info Command.can_do_timeout = row 2 false
command_info Command.all_yours = row 0 false
command_info Command.work_exception = row 1 true
command_info Command.option_req = row 1 false
command_info Command.option_res = row 1 false
command_info Command.work_data = row 1 true
command_info Command.work_warning = row 1 true
command_info Command.grab_job_uniq = row 0 false
command_info Command.job_assign_uniq = row 3 true
command_info Command.submit_job_high_bg = row 2 true
command_info Command.submit_job_low = row 2 true
command_info Command.submit_job_low_bg = row 2 true
command_info Command.submit_job_sched = row 7 true
command_info Command.submit_job_epoch = row 3 true
command_info Command.submit_reduce_job = row 4 true
command_info Command.submit_reduce_job_background = row 4 true
command_info Command.grab_job_all = row 0 false
command_info Command.job_assign_all = row 4 true
command_info Command.get_status_unique = row 1 false
command_info Command.status_res_unique = row 6 false
command_info (Command.beyond n) = row 0 false

pub code-lt-max : (c : Command) → is_beyond c ≡ false → command_code c < command_max
unfolding command_code is_beyond
code-lt-max (Command.beyond n) h = ground arith
code-lt-max _ h = omega arith

-- The number of a command stands for that command.
pub to_command-code : (c : Command) → to_command (command_code c) ≡ c
unfolding to_command command_code
to_command-code (Command.beyond n) = ground arith
to_command-code _ = refl
