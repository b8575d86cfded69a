-- ===== src/Tests/Tasks.antt =====
-- A client of two servers and its tasks.
use gearmand.Prelude.{ℕ, ◌≡◌, refl, Bool, true, false, none, some, [], ◌∷◌, codes, arith}
use gearmand.Protocol.Commands.{Command, Magic}
use gearmand.Protocol.Packet.{Packet, Bytes, reset}
use gearmand.Client.Return.{Return}
use gearmand.Client.Connection.{Connection, SendState}
use gearmand.Client.Task.{Task, TaskState, Client, Outcome, expects_job_created}
use gearmand.Client.Task.Submit.{Send, use_hash_server_selection}
use gearmand.Client.Task.Run.{client_run_task}
use gearmand.Client.Task.Counts.{gets_replies, CountedOnce, client_run_task-CountedOnce}
use gearmand.Client.Task.Refused.{client_run_task-hangs}
use gearmand.Client.Task.TwoIdle.{Refuses, TwoIdle}
use gearmand.Client.Task.Ended.{Ends}
use gearmand.Client.Task.Match.{Match, find_task, is_active}
use gearmand.Client.Task.Slots.{
  Numbered, find_task-in_order, created_reply_lost, refuse, accept, only, sending, fresh,
  failed_client, then_sent, waiting,
}
use gearmand.Client.Task.Twice.{lose, run_again, Left, run_again-counts_twice}
use gearmand.Tests.Servers.{library, server, two_servers}

abbrev submission : Packet
submission = record (reset Magic.request Command.submit_job_bg) {
  complete = true;
  workload = some (codes "data");
  data_size = 4;
}

abbrev task : Task
task = record {
  state = TaskState.new;
  is_add_task = true;
  is_known = false;
  is_running = false;
  is_freed = false;
  created_id = 0;
  numerator = 0;
  denominator = 0;
  client_count = 0;
  con = none;
  send = submission;
  recv = reset Magic.response Command.job_created;
  func = λ _. none;
  calls = [];
  error_code = Return.unknown_state;
  result = none;
  job_handle = [];
  exception = [];
  unique_length = 1;
  unique = b'b' ∷ [];
}

abbrev client : Bool → Client
client by_hash = record {
  no_new = false;
  free_tasks = false;
  server_selection_hash_unique = by_hash;
  new_tasks = 1;
  running_tasks = 1;
  task_count = 1;
  con_list = two_servers;
}

gets_work : gets_replies TaskState.work ≡ true
unfolding gets_replies
gets_work = refl

client_run_task-CountedOnce_example :
    CountedOnce
      (client false)
      (client_run_task 1 library accept (client false) (record task { state = TaskState.work }))
client_run_task-CountedOnce_example =
    client_run_task-CountedOnce 1 library accept (client false)
      (record task { state = TaskState.work }) gets_work

abbrev unreachable : Send
unreachable c p b = (record c { send_state = SendState.state_none }, Return.could_not_connect)

unreachable-Refuses : Refuses unreachable
unreachable-Refuses = record {
  result = λ c p b. refl;
  address = λ c p b. refl;
  idle = λ c p b. refl;
}

two_servers-TwoIdle : TwoIdle two_servers
two_servers-TwoIdle = record {
  first = server b'a';
  second = server b'b';
  others = [];
  listed = refl;
  differ = λ e. absurd (omega arith);
  first_idle = refl;
  second_idle = refl;
}

hashed : use_hash_server_selection (client true) task ≡ true
unfolding expects_job_created reset
hashed = refl

client_run_task-hangs_example :
    client_run_task 9 library unreachable (client true) task ≡ Outcome.going_on
client_run_task-hangs_example =
    client_run_task-hangs library unreachable 9 (client true) task unreachable-Refuses hashed
      two_servers-TwoIdle refl

abbrev waits_with : ℕ → Task
waits_with n = record task { state = TaskState.work; con = some b'a'; created_id = n }

abbrev created : Packet
created = reset Magic.response Command.job_created

waiting-Numbered : Numbered b'a' 4 (waits_with 4 ∷ waits_with 5 ∷ [])
unfolding is_active expects_job_created reset
waiting-Numbered = (refl, refl, refl, refl, (refl, refl, refl, refl, tt))

created-command : created.command ≡ Command.job_created
unfolding reset
created-command = refl

abbrev no_code : Bytes → Return
no_code _ = Return.max_return

find_task-in_order_example :
    find_task no_code created
      (record (server b'a') { created_id = 5 })
      (waits_with 4 ∷ waits_with 5 ∷ [])
      0
    ≡ (Match.task_at 1, record (server b'a') { created_id = 6 })
find_task-in_order_example =
    find_task-in_order no_code created (record (server b'a') { created_id = 5 })
      (waits_with 4 ∷ waits_with 5 ∷ []) 4 1 created-command waiting-Numbered (omega arith)
      (omega arith)

abbrev open_server : Connection
open_server = record (server b'a') { is_open = true }

submits : expects_job_created task.send.command ≡ true
unfolding expects_job_created reset
submits = refl

created_reply_lost_example :
    (client_run_task 1 library refuse (only open_server (client false)) (sending open_server task)
      ≡ Outcome.returned
          (failed_client open_server (client false))
          (record task { state = TaskState.new; con = none; error_code = Return.could_not_connect })
          Return.could_not_connect)
    × (client_run_task 1 library accept (failed_client open_server (client false)) (fresh task)
        ≡ Outcome.returned
            (record (only (then_sent open_server) (client false)) { no_new = false; new_tasks = 1 })
            (waiting open_server task)
            Return.success)
    × (find_task no_code created (then_sent open_server) (waiting open_server task ∷ []) 0
        ≡ (Match.no_task, then_sent open_server))
created_reply_lost_example =
    created_reply_lost library no_code (client false) open_server task task created refl submits
      submits refl created-command

run_again-counts_twice_example :
    Left 0 TaskState.fail
      (client_run_task 1 library lose (only open_server (client false)) (sending open_server task))
    × Left 4294967295 TaskState.finished (
        run_again 1 library accept (
          client_run_task 1 library lose
            (only open_server (client false))
            (sending open_server task)))
run_again-counts_twice_example =
    run_again-counts_twice library accept 1 (client false) open_server task refl
