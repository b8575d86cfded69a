-- ===== src/Server/State.antt =====
-- libgearman-server/struct/{server,function,job,worker,client,io}.h: the objects of the server. A
-- pointer is the object's number in its store, an intrusive list is the list of the objects on it,
-- head first (its `_count` is the length), and a circular list begins at the head pointer. The
-- lists by priority hold the chain from `job_list` to `job_end`.
use gearmand.Prelude.{ℕ, suc, Bool, Option, none, some, List, ℤ, update, if◌then◌else◌}
use gearmand.Protocol.Errors.{Error}
use gearmand.Protocol.Packet.{Bytes, Packet}

pub data Priority : Type 0 where
  high normal low : Priority

pub record ByPriority {ℓ} (A : Type ℓ) : Type ℓ where
  pub of_high : A
  pub of_normal : A
  pub of_low : A

abbrev pub at {ℓ} : {A : Type ℓ} → ByPriority A → Priority → A
at m Priority.high = m.of_high
at m Priority.normal = m.of_normal
at m Priority.low = m.of_low

abbrev pub put {ℓ} : {A : Type ℓ} → ByPriority A → Priority → A → ByPriority A
put m Priority.high a = record m { of_high = a }
put m Priority.normal a = record m { of_normal = a }
put m Priority.low a = record m { of_low = a }

-- `gearman_server_job_st`
pub record Job : Type 0 where
  pub retries : ℕ
  pub priority : Priority
  pub ignore_job : Bool
  pub job_queued : Bool
  pub job_handle_key : ℕ
  pub unique_key : ℕ
  pub numerator : ℕ
  pub denominator : ℕ
  pub when : ℤ
  pub function : ℕ
  pub workload : Option Bytes
  pub data_size : ℕ
  pub client_list : List ℕ
  pub worker : Option ℕ
  pub job_handle : Bytes
  pub unique_length : ℕ
  pub unique : Bytes
  pub reducer : Bytes

-- `gearman_server_function_st`; the pending times are in ascending order, as in the multiset.
pub record Function : Type 0 where
  pub worker_count : ℕ
  pub job_count : ℕ
  pub job_total : ℕ
  pub job_running : ℕ
  pub max_queue_size : ByPriority ℕ
  pub function_name : Bytes
  pub worker_list : List ℕ
  pub job_list : ByPriority (List ℕ)
  pub epoch_wakeup_timer : Bool
  pub epoch_next_wakeup : ℤ
  pub epoch_pending_whens : List ℤ

-- `gearman_server_worker_st`
pub record Worker : Type 0 where
  pub timeout : ℤ
  pub con : ℕ
  pub function : ℕ
  pub job_list : List ℕ

-- `gearman_server_client_st`
pub record Client : Type 0 where
  pub con : ℕ
  pub job : Option ℕ

-- `gearman_server_con_st`: what the commands read and write. `timeout_event` is the job that the
-- armed timer is for, with its milliseconds.
pub record Con : Type 0 where
  pub thread : ℕ
  pub is_sleeping : Bool
  pub is_exceptions : Bool
  pub is_noop_sent : Bool
  pub is_dead : Bool
  pub io_list : Bool
  pub io_packet_list : List Packet
  pub worker_list : List ℕ
  pub client_list : List ℕ
  pub id : Bytes
  pub timeout_event : Option (ℕ × ℕ)
  pub fd : ℕ
  pub host : Option Bytes

pub data QueueVersion : Type 0 where
  version_none version_function version_class : QueueVersion

-- A call of the persistent queue's plugin.
pub data QueueCall : Type 0 where
  add_call : Bytes → ℕ → Bytes → Option Bytes → Priority → ℤ → QueueCall
  flush_call : QueueCall
  done_call : Bytes → ℕ → Bytes → QueueCall

-- `gearman_server_st`. `plugin` is the queue module that the server was given: its answer to a call
-- after the calls before it. `can_allocate n` tells whether `new` succeeds for object number `n`.
-- `thread_io` holds each thread's list of connections with packets to send, and `thread_runs`
-- counts how often its `run_fn` was called. The last three are what `getpid`,
-- `gearmand_verbose_name` and the build tell.
pub record Server : Type 0 where
  pub round_robin : Bool
  pub queue_startup : Bool
  pub shutdown_graceful : Bool
  pub has_event_base : Bool
  pub exceptions : Bool
  pub job_retries : ℤ
  pub worker_wakeup : ℕ
  pub job_handle_count : ℕ
  pub job_count : ℕ
  pub unique_count : ℕ
  pub function_count : ℕ
  pub free_packet_count : ℕ
  pub job_handle_prefix : Bytes
  pub hashtable_buckets : ℕ
  pub function_hash : ℕ → List ℕ
  pub job_hash : ℕ → List ℕ
  pub unique_hash : ℕ → List ℕ
  pub free_job_list : List ℕ
  pub free_client_list : List ℕ
  pub free_worker_list : List ℕ
  pub jobs : ℕ → Job
  pub functions : ℕ → Function
  pub workers : ℕ → Worker
  pub clients : ℕ → Client
  pub cons : ℕ → Con
  pub thread_io : ℕ → List ℕ
  pub thread_runs : ℕ → ℕ
  pub next_object : ℕ
  pub can_allocate : ℕ → Bool
  pub queue_version : QueueVersion
  pub plugin : List QueueCall → QueueCall → Error
  pub queue_log : List QueueCall
  pub threads : List ℕ
  pub con_list : ℕ → List ℕ
  pub pid : ℕ
  pub verbose_name : Bytes
  pub package_version : Bytes

abbrev pub set_job : Server → ℕ → Job → Server
set_job s j x = record s { jobs = update s.jobs j x }

abbrev pub set_function : Server → ℕ → Function → Server
set_function s f x = record s { functions = update s.functions f x }

abbrev pub set_worker : Server → ℕ → Worker → Server
set_worker s w x = record s { workers = update s.workers w x }

abbrev pub set_client : Server → ℕ → Client → Server
set_client s c x = record s { clients = update s.clients c x }

abbrev pub set_con : Server → ℕ → Con → Server
set_con s c x = record s { cons = update s.cons c x }

-- `new (std::nothrow)`: the object's number, if there is memory for it.
abbrev pub new_object : Server → Option ℕ × Server
new_object s = (
  if s.can_allocate s.next_object then some s.next_object else none,
  record s { next_object = suc s.next_object },
)
