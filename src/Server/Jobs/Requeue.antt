-- ===== src/Server/Jobs/Requeue.antt =====
-- job.cc and connection.cc: `gearman_server_job_queue`, for new jobs and for those given back.
use gearmand.Prelude.{
  ℕ, Bool, false, ◌&&◌, ◌||◌, Option, none, some, List, [], ◌∷◌, ◌++◌, c_str, inc32, dec32, inc8, ℤ,
  pos, negsuc, gt_now, is_positive, ltb, ◌==◌, if◌then◌else◌,
}
use gearmand.Protocol.Errors.{Error, failed}
use gearmand.Protocol.Commands.{Magic, Command}
use gearmand.Protocol.Packet.{Bytes}
use gearmand.Server.State.{Server, at, put, set_job, set_function, set_con, set_worker, new_object}
use gearmand.Server.Io.{io_packet_add}
use gearmand.Server.Queue.{queue_done}
use gearmand.Server.Jobs.{job_free, leave_worker, con_delete_timeout}
use gearmand.Server.Jobs.Wake.{wake_workers, insert_when, schedule_epoch_wakeup}

-- The same packet to each client's connection in turn; a failure is logged and passed over.
unfoldable pub send_to_clients : Server → List ℕ → Command → List Bytes → Server
send_to_clients s [] command args = s
send_to_clients s (c ∷ cs) command args =
    send_to_clients (io_packet_add s (s.clients c).con false Magic.response command args).0 cs
      command args

-- `gearman_queue_done` for the job.
abbrev pub job_done : Server → ℕ → Server × Error
job_done s j =
    let x = s.jobs j in queue_done s x.unique x.unique_length (s.functions x.function).function_name

abbrev unstore : Server → ℕ → Server
unstore s j = if (s.jobs j).job_queued then (job_done s j).0 else s

-- The job was given back too often: its clients are told, and it is gone.
unfoldable pub drop_job : Server → ℕ → Server
unfolding send_to_clients
drop_job s j =
    let x = s.jobs j in
    job_free
      (unstore (send_to_clients s x.client_list Command.work_fail (c_str x.job_handle ∷ [])) j) j

-- `job_retries == 0 || (job_retries > 0 && retries == job_retries)`
unfoldable pub retries_used_up : ℤ → ℕ → Bool
retries_used_up (pos limit) retries = (limit == 0) || (ltb 0 limit && (retries == limit))
retries_used_up (negsuc n) retries = false

abbrev count_retry : Server → ℕ → Server
count_retry s j = set_job s j (record (s.jobs j) { retries = inc8 (s.jobs j).retries })

-- The job leaves its worker, to be queued again.
unfoldable pub release_job : Server → ℕ → Option ℕ → Server
release_job s j none = s
release_job s j (some w) =
    let s1 = leave_worker s j (some w) in
    let f = (s.jobs j).function in
    let s2 =
      set_function s1 f
        (record (s1.functions f) { job_running = dec32 (s1.functions f).job_running }) in
    set_job s2 j (record (s2.jobs j) { worker = none; numerator = 0; denominator = 0 })

-- The job behind the last one of its priority.
unfoldable pub append_job : Server → ℕ → Server
append_job s j =
    let f = s.functions (s.jobs j).function in
    let p = (s.jobs j).priority in
    set_function s (s.jobs j).function (record f {
      job_list = put f.job_list p (at f.job_list p ++ j ∷ []);
      job_count = inc32 f.job_count;
    })

unfoldable pub plan_epoch : ℕ → Server → ℕ → Server
plan_epoch now s j =
    let f = (s.jobs j).function in
    let when = (s.jobs j).when in
    if is_positive when && gt_now when now
    then schedule_epoch_wakeup now
        (set_function s f (record (s.functions f) {
          epoch_pending_whens = insert_when when (s.functions f).epoch_pending_whens;
        }))
        f when
    else s

unfoldable pub enqueue : ℕ → Server → ℕ → Server
unfolding append_job plan_epoch
enqueue now s j = plan_epoch now (append_job (wake_workers s (s.jobs j).function) j) j

abbrev requeue : ℕ → Server → ℕ → Option ℕ → Server
requeue now s j none = enqueue now s j
requeue now s j (some w) =
    if retries_used_up s.job_retries (inc8 (s.jobs j).retries)
    then drop_job (count_retry s j) j
    else enqueue now (release_job (count_retry s j) j (some w)) j

-- `gearman_server_job_queue`; it never fails.
unfoldable pub job_queue : ℕ → Server → ℕ → Server × Error
unfolding enqueue release_job drop_job retries_used_up
job_queue now s j = (requeue now s j (s.jobs j).worker, Error.success)

-- `_server_job_timeout`: the timer of a job that was given out fires.
unfoldable pub job_timeout : ℕ → Server → ℕ → Server
unfolding job_queue
job_timeout now s j = let (s1, e) = job_queue now s j in if failed e then job_free s1 j else s1

-- The first worker of the connection that does the function.
unfoldable pub find_worker : Server → ℕ → List ℕ → Option ℕ
find_worker s f [] = none
find_worker s f (w ∷ ws) = if (s.workers w).function == f then some w else find_worker s f ws

abbrev at_least_second : ℤ → ℕ
at_least_second (pos n) = if ltb n 1000 then 1000 else n
at_least_second (negsuc n) = 1000

abbrev arm_timeout : Server → ℕ → ℕ → ℕ → Server × Error
arm_timeout s con j w =
    let ms = at_least_second (s.workers w).timeout in
    let s1 = set_worker s w (record (s.workers w) { timeout = pos ms }) in
    let armed =
      λ (t : Server). set_con t con (record (t.cons con) { timeout_event = some (j, ms) }) in
    elim (s.cons con).timeout_event [
      | some _ ↦ (armed s1, Error.success)
      | none ↦ elim (new_object s1).0 [
        | some _ ↦ (armed (new_object s1).1, Error.success)
        | none ↦ ((new_object s1).1, Error.memory_allocation_failure)
      ]
    ]

-- `gearman_server_con_add_job_timeout`: the connection's timer is for this job, or for none.
unfoldable pub con_add_job_timeout : Server → ℕ → ℕ → Server × Error
unfolding find_worker
con_add_job_timeout s con j = elim (find_worker s (s.jobs j).function (s.cons con).worker_list) [
  | none ↦ (s, Error.success)
  | some w ↦
      if is_positive (s.workers w).timeout
      then arm_timeout s con j w
      else (con_delete_timeout s con, Error.success)
]
