-- ===== src/Server/Jobs.antt =====
-- libgearman-server/job.cc and gearmand_con.cc: jobs and their tables.
use gearmand.Prelude.{
  ℕ, ◌%◌, Bool, true, false, not, ◌&&◌, Option, none, some, List, [], ◌∷◌, length, take, remove,
  bytes_eq, c_str, update, dec32, ltb, ◌==◌, if◌then◌else◌,
}
pub mod Wake
pub mod Requeue
pub mod Add
pub mod Unique
pub mod Epoch
pub mod Waking
pub mod Alarm
pub mod Abandon
pub mod Handle
use gearmand.Protocol.Packet.{Bytes}
use gearmand.Server.State.{
  Server, Job, Function, Worker, Con, Priority, set_job, set_function, set_worker, set_con,
  new_object,
}
use gearmand.Server.Hash.{server_job_hash}
use gearmand.Server.Clients.{free_job_clients}

-- `gearman_server_job_create`: what the call leaves of the object `x`; the job's function is set
-- by `gearman_server_job_add_reducer` next.
abbrev pub blank_job : Job → Job
blank_job x = record x {
  ignore_job = false;
  job_queued = false;
  retries = 0;
  priority = Priority.normal;
  job_handle_key = 0;
  unique_key = 0;
  numerator = 0;
  denominator = 0;
  data_size = 0;
  function = 0;
  workload = none;
  client_list = [];
  worker = none;
  job_handle = [];
  unique = [];
  unique_length = 0;
}

unfoldable pub job_create : Server → Option ℕ × Server
job_create s = elim s.free_job_list [
  | j ∷ js ↦ (some j, set_job (record s { free_job_list = js }) j (blank_job (s.jobs j)))
  | [] ↦ elim (new_object s).0 [
    | none ↦ (none, (new_object s).1)
    | some j ↦ (some j, set_job (new_object s).1 j (blank_job (s.jobs j)))
  ]
]

-- `gearman_server_con_delete_timeout`
unfoldable pub con_delete_timeout : Server → ℕ → Server
con_delete_timeout s con = set_con s con (record (s.cons con) { timeout_event = none })

abbrev max_free_server_job : ℕ
max_free_server_job = 1000

abbrev stop_running : Server → ℕ → Option ℕ → Server
stop_running s f none = s
stop_running s f (some w) =
    con_delete_timeout
      (set_function s f
        (record (s.functions f) { job_running = dec32 (s.functions f).job_running }))
      (s.workers w).con

abbrev less_total : Server → ℕ → Server
less_total s f =
    set_function s f (record (s.functions f) { job_total = dec32 (s.functions f).job_total })

abbrev pub leave_worker : Server → ℕ → Option ℕ → Server
leave_worker s j none = s
leave_worker s j (some w) =
    set_worker s w (record (s.workers w) { job_list = remove j (s.workers w).job_list })

-- `GEARMAND_HASH_DEL(Server->unique, …)` and `GEARMAND_HASH__DEL(Server->job, …)`
unfoldable pub unhash : Server → ℕ → Server
unhash s j =
    let x = s.jobs j in
    let uk = x.unique_key % s.hashtable_buckets in
    let hk = x.job_handle_key % s.hashtable_buckets in
    record s {
      unique_hash = update s.unique_hash uk (remove j (s.unique_hash uk));
      unique_count = dec32 s.unique_count;
      job_hash = update s.job_hash hk (remove j (s.job_hash hk));
      job_count = dec32 s.job_count;
    }

abbrev put_back_job : Server → ℕ → Server
put_back_job s j =
    if ltb (length s.free_job_list) max_free_server_job
    then record s { free_job_list = j ∷ s.free_job_list }
    else s

abbrev drop_workload : Server → ℕ → Server
drop_workload s j = set_job s j (record (s.jobs j) { workload = none })

abbrev drop_clients : Server → ℕ → Server
drop_clients s j = free_job_clients (length (s.jobs j).client_list) s j

-- `gearman_server_job_free` of a job that is not NULL.
unfoldable pub job_free : Server → ℕ → Server
unfolding unhash
job_free s j =
    let x = s.jobs j in
    let s1 = less_total (stop_running s x.function x.worker) x.function in
    let s2 = drop_clients (drop_workload s1 j) j in
    put_back_job (unhash (leave_worker s2 j x.worker) j) j

-- `gearman_server_job_get` over a bucket: the handle's job, if `worker_con` is NULL or its worker's.
unfoldable pub owned_by : Server → Job → Option ℕ → Bool
owned_by s x none = true
owned_by s x (some con) = elim x.worker [ none ↦ false | some w ↦ (s.workers w).con == con ]

-- `strncmp(a, b, GEARMAND_JOB_HANDLE_SIZE) == 0`
abbrev pub same_handle : Bytes → Bytes → Bool
same_handle a b = bytes_eq (take 64 (c_str a)) (take 64 (c_str b))

unfoldable pub find_handle : Server → Bytes → ℕ → List ℕ → Option ℕ
find_handle s handle key [] = none
find_handle s handle key (j ∷ js) =
    if ((s.jobs j).job_handle_key == key) && same_handle (s.jobs j).job_handle handle
    then some j
    else find_handle s handle key js

abbrev if_owned : Server → Option ℕ → Option ℕ → Option ℕ
if_owned s con none = none
if_owned s con (some j) = if owned_by s (s.jobs j) con then some j else none

-- `gearman_server_job_get`
unfoldable pub job_get : Server → Bytes → Option ℕ → Option ℕ
unfolding find_handle owned_by
job_get s handle worker_con =
    let key = server_job_hash handle in
    if_owned s worker_con (find_handle s handle key (s.job_hash (key % s.hashtable_buckets)))

unfoldable pub find_unique : Server → Bytes → List ℕ → Option ℕ
find_unique s unique [] = none
find_unique s unique (j ∷ js) =
    if not (bytes_eq (s.jobs j).unique []) && bytes_eq (s.jobs j).unique unique
    then some j
    else find_unique s unique js

-- `gearman_server_job_get_by_unique` of a C string, called with `worker_con` NULL.
unfoldable pub job_get_by_unique : Server → Bytes → Option ℕ
unfolding find_unique
job_get_by_unique s unique =
    find_unique s unique (s.unique_hash (server_job_hash unique % s.hashtable_buckets))
