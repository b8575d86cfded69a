-- ===== src/Server/Commands/Run.antt =====
-- server.cc: `gearman_server_run_command`; gearmand_con.cc: what the proc thread does with it.
use gearmand.Prelude.{ℕ, Bool, true, false, Option, none, some, length, codes, ◌==◌, if◌then◌else◌}
use gearmand.Protocol.Errors.{Error}
use gearmand.Protocol.Commands.{Magic, Command, is_beyond}
use gearmand.Protocol.Strings.{ReturnCode}
use gearmand.Protocol.Packet.{Packet}
use gearmand.Server.State.{Server}
use gearmand.Server.Clients.{free_con_clients}
use gearmand.Server.Workers.{con_free_workers}
use gearmand.Server.Jobs.Add.{Submission, job_add}
use gearmand.Server.Commands.Reply.{error_packet}
use gearmand.Server.Commands.Submit.{submit_job, submit_reduce_job}
use gearmand.Server.Commands.Status.{echo, get_status, get_status_unique, option_req}
use gearmand.Server.Commands.Abilities.{
  can_do, can_do_timeout, cant_do, reset_abilities, set_client_id, pre_sleep,
}
use gearmand.Server.Commands.Grab.{grab_job}
use gearmand.Server.Commands.Work.{work_data, work_status, work_complete, work_exception, work_fail}
use gearmand.Server.Commands.Text.{run_text}

-- A handler that ends, or one that needs fuel: `none` when that ran out.
abbrev pub Run : Type 0
Run = Option (Server × Error)

unfoldable pub dispatch : ℕ → ℕ → Server → ℕ → Packet → Command → Run
dispatch fuel now s con p Command.echo_req = some (echo s con p)
dispatch fuel now s con p Command.submit_reduce_job = some (submit_reduce_job now s con p)
dispatch fuel now s con p Command.submit_reduce_job_background =
    some (submit_reduce_job now s con p)
dispatch fuel now s con p Command.submit_job = some (submit_job now s con p)
dispatch fuel now s con p Command.submit_job_bg = some (submit_job now s con p)
dispatch fuel now s con p Command.submit_job_high = some (submit_job now s con p)
dispatch fuel now s con p Command.submit_job_high_bg = some (submit_job now s con p)
dispatch fuel now s con p Command.submit_job_low = some (submit_job now s con p)
dispatch fuel now s con p Command.submit_job_low_bg = some (submit_job now s con p)
dispatch fuel now s con p Command.submit_job_epoch = some (submit_job now s con p)
dispatch fuel now s con p Command.get_status_unique = some (get_status_unique s con p)
dispatch fuel now s con p Command.get_status = some (get_status s con p)
dispatch fuel now s con p Command.option_req = some (option_req s con p)
dispatch fuel now s con p Command.can_do = some (can_do s con p)
dispatch fuel now s con p Command.can_do_timeout = some (can_do_timeout s con p)
dispatch fuel now s con p Command.cant_do = some (cant_do now s con p)
dispatch fuel now s con p Command.reset_abilities = some (reset_abilities now s con)
dispatch fuel now s con p Command.pre_sleep = pre_sleep fuel now s con
dispatch fuel now s con p Command.grab_job = grab_job fuel now s con Command.grab_job
dispatch fuel now s con p Command.grab_job_uniq = grab_job fuel now s con Command.grab_job_uniq
dispatch fuel now s con p Command.grab_job_all = grab_job fuel now s con Command.grab_job_all
dispatch fuel now s con p Command.work_data = some (work_data s con p)
dispatch fuel now s con p Command.work_warning = some (work_data s con p)
dispatch fuel now s con p Command.work_status = some (work_status s con p)
dispatch fuel now s con p Command.work_complete = some (work_complete s con p)
dispatch fuel now s con p Command.work_exception = some (work_exception s con p)
dispatch fuel now s con p Command.work_fail = some (work_fail s con p)
dispatch fuel now s con p Command.set_client_id = some (set_client_id s con p)
dispatch fuel now s con p Command.text = some (run_text s con p)
dispatch fuel now s con p _ =
    some (error_packet s con ReturnCode.invalid_command (codes "Command not expected"))

abbrev pub is_response : Magic → Bool
is_response Magic.response = true
is_response Magic.request = false
is_response Magic.text = false

-- `gearman_server_run_command`
unfoldable pub run_command : ℕ → ℕ → Server → ℕ → Packet → Run
unfolding dispatch
run_command fuel now s con p =
    if is_response p.magic
    then some (error_packet s con ReturnCode.invalid_magic (codes "Request magic expected"))
    else if is_beyond p.command
    then some (error_packet s con ReturnCode.invalid_command (codes "Invalid command expected"))
    else dispatch fuel now s con p p.command

-- The proc thread on a dead connection without packets: its workers and clients go.
unfoldable pub bury_con : ℕ → Server → ℕ → Server
bury_con now s con =
    let s1 = con_free_workers now s con in
    free_con_clients (length (s1.cons con).client_list) s1 con

-- `Context::replay_add`: a job that comes from the persistent queue.
unfoldable pub replay_add : ℕ → Server → Submission → Server × Error
replay_add now s x = let (s1, j, e) = job_add now s (record x { client = none }) in (s1, e)

-- `gearman_server_shutdown_graceful`
unfoldable pub server_shutdown_graceful : Server → Server × Error
server_shutdown_graceful s = (
  record s { shutdown_graceful = true },
  if s.job_count == 0 then Error.shutdown else Error.shutdown_graceful,
)
