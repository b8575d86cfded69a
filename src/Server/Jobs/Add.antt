-- ===== src/Server/Jobs/Add.antt =====
-- job.cc: `gearman_server_job_add_reducer`, by which a job comes in.
use gearmand.Prelude.{
  ℕ, ◌%◌, Bool, true, false, ◌&&◌, Option, none, some, List, [], ◌∷◌, ◌++◌, length, take, bytes_eq,
  c_str, update, inc32, ℤ, print_u32, ltb, leb, ◌==◌, if◌then◌else◌,
}
use gearmand.Protocol.Errors.{Error, failed}
use gearmand.Protocol.Packet.{Bytes}
use gearmand.Server.State.{Server, Job, Priority, at, set_job, set_function, set_client}
use gearmand.Server.Hash.{server_job_hash}
use gearmand.Server.Functions.{function_get}
use gearmand.Server.Queue.{queue_add}
use gearmand.Server.Jobs.{job_create, job_free}
use gearmand.Server.Jobs.Requeue.{job_queue, job_done}

-- What `gearman_server_job_add_reducer` is given. `when` is 0 for a job that may run at once.
pub record Submission : Type 0 where
  pub function_name : Bytes
  pub unique : Bytes
  pub reducer : Bytes
  pub workload : Option Bytes
  pub priority : Priority
  pub client : Option ℕ
  pub when : ℤ

abbrev pub workload_bytes : Option Bytes → Bytes
workload_bytes none = []
workload_bytes (some d) = d

abbrev pub data_size_of : Submission → ℕ
data_size_of x = length (workload_bytes x.workload)

-- `_server_job_get_unique` over a bucket, by the id: `data_size` is 0.
unfoldable pub find_by_id : Server → ℕ → ℕ → Bytes → List ℕ → Option ℕ
find_by_id s key f unique [] = none
find_by_id s key f unique (j ∷ js) =
    let x = s.jobs j in
    if ((x.function == f) && (x.unique_key == key)) && bytes_eq (c_str x.unique) (c_str unique)
    then some j
    else find_by_id s key f unique js

-- The same by the workload, for the id `-`.
unfoldable pub find_by_data : Server → ℕ → ℕ → Bytes → List ℕ → Option ℕ
find_by_data s key f d [] = none
find_by_data s key f d (j ∷ js) =
    let x = s.jobs j in
    if ((x.function == f) && (x.unique_key == key))
      && ((x.data_size == length d) && bytes_eq (workload_bytes x.workload) d)
    then some j
    else find_by_data s key f d js

abbrev is_dash : Bytes → Bool
is_dash u = bytes_eq u (b'-' ∷ [])

abbrev bucket_of : Server → ℕ → List ℕ
bucket_of s key = s.unique_hash (key % s.hashtable_buckets)

-- The key of the id, and the job that already has it.
unfoldable pub look_up : Server → ℕ → Submission → ℕ × Option ℕ
unfolding find_by_id find_by_data
look_up s f x =
    let d = workload_bytes x.workload in
    let data_key = server_job_hash d in
    let id_key = server_job_hash x.unique in
    if length x.unique == 0
    then (0, none)
    else if is_dash x.unique
    then (if length d == 0
        then (0, none)
        else (data_key, find_by_data s data_key f d (bucket_of s data_key)))
    else (id_key, find_by_id s id_key f x.unique (bucket_of s id_key))

-- `job_total >= max_queue_size[priority]`, where there is a limit.
unfoldable pub queue_is_full : Server → ℕ → Priority → Bool
queue_is_full s f p =
    ltb 0 (at (s.functions f).max_queue_size p)
    && leb (at (s.functions f).max_queue_size p) (s.functions f).job_total

-- `snprintf(job_handle, GEARMAND_JOB_HANDLE_SIZE, "%s:%u", …)`
abbrev pub handle_text : Server → Bytes
handle_text s = take 63 (s.job_handle_prefix ++ (b':' ∷ print_u32 s.job_handle_count))

-- `snprintf(unique, GEARMAN_MAX_UNIQUE_SIZE, "%.*s", …)`
abbrev pub stored_unique : Bytes → Bytes
stored_unique u = take 63 (c_str u)

abbrev filled_job : Server → Job → ℕ → ℕ → Submission → Job
filled_job s b f key x = record b {
  priority = x.priority;
  function = f;
  job_handle = handle_text s;
  job_handle_key = server_job_hash (c_str (handle_text s));
  unique_length = length x.unique;
  unique = stored_unique x.unique;
  unique_key = key;
  workload = x.workload;
  data_size = data_size_of x;
  when = x.when;
  reducer = c_str x.reducer;
}

-- The new job in the tables.
unfoldable pub enter_job : Server → ℕ → ℕ → ℕ → Submission → Server
enter_job s j f key x =
    let s1 =
      set_function s f (record (s.functions f) { job_total = inc32 (s.functions f).job_total }) in
    let y = filled_job s (s.jobs j) f key x in
    let uk = key % s.hashtable_buckets in
    let hk = y.job_handle_key % s.hashtable_buckets in
    record (set_job s1 j y) {
      job_handle_count = inc32 s.job_handle_count;
      unique_hash = update s.unique_hash uk (j ∷ s.unique_hash uk);
      unique_count = inc32 s.unique_count;
      job_hash = update s.job_hash hk (j ∷ s.job_hash hk);
      job_count = inc32 s.job_count;
    }

abbrev mark_queued : Server → ℕ → Server
mark_queued s j = set_job s j (record (s.jobs j) { job_queued = true })

abbrev is_background : Submission → Bool
is_background x = elim x.client [ none ↦ true | some _ ↦ false ]

-- Only a background job is stored, and none at startup, when the jobs come from the store.
unfoldable pub persist : Server → ℕ → Submission → Server × Error
persist s j x =
    if s.queue_startup
    then (mark_queued s j, Error.success)
    else if is_background x
    then (let r =
          queue_add s (s.jobs j).unique (length x.unique) x.function_name x.workload x.priority
            x.when in
        if failed r.1 then r else (mark_queued r.0 j, r.1))
    else (s, Error.success)

abbrev forget : Server → ℕ → Server
forget s j = job_free (set_job s j (record (s.jobs j) { workload = none })) j

abbrev unstored : Server → ℕ → Submission → Server
unstored s j x = if is_background x then (job_done s j).0 else s

-- `server_client->job= server_job; GEARMAND_LIST_ADD(server_job->client, …)`
unfoldable pub attach : Server → ℕ → Option ℕ → Server
attach s j none = s
attach s j (some c) =
    set_job (set_client s c (record (s.clients c) { job = some j })) j
      (record (s.jobs j) { client_list = c ∷ (s.jobs j).client_list })

-- The job of the submission, and what became of it.
abbrev pub Added : Type 0
Added = Server × Option ℕ × Error

abbrev queued_job : Server × Error → ℕ → Submission → Added
queued_job (s, e) j x =
    if failed e then (forget (unstored s j x) j, none, e) else (attach s j x.client, some j, e)

abbrev persisted : ℕ → Server × Error → ℕ → Submission → Added
persisted now (s, e) j x =
    if failed e then (forget s j, none, e) else queued_job (job_queue now s j) j x

abbrev with_new_job : ℕ → Option ℕ × Server → ℕ → ℕ → Submission → Added
with_new_job now (none, s) f key x = (s, none, Error.memory_allocation_failure)
with_new_job now (some j, s) f key x = persisted now (persist (enter_job s j f key x) j x) j x

unfoldable pub add_to_function : ℕ → Server → ℕ → Submission → Added
unfolding look_up queue_is_full enter_job persist attach
add_to_function now s f x = elim (look_up s f x).1 [
  | some j ↦ (attach s j x.client, some j, Error.job_exists)
  | none ↦
      if queue_is_full s f x.priority
      then (s, none, Error.job_queue_full)
      else with_new_job now (job_create s) f (look_up s f x).0 x
]

abbrev with_function : ℕ → Server × Option ℕ → Submission → Added
with_function now (s, none) x = (s, none, Error.memory_allocation_failure)
with_function now (s, some f) x = add_to_function now s f x

-- `gearman_server_job_add_reducer`
unfoldable pub job_add_reducer : ℕ → Server → Submission → Added
job_add_reducer now s x = with_function now (function_get s x.function_name) x

-- `gearman_server_job_add`: no reducer.
unfoldable pub job_add : ℕ → Server → Submission → Added
unfolding job_add_reducer
job_add now s x = job_add_reducer now s (record x { reducer = [] })
