-- ===== src/Tests.antt =====
-- Concrete servers and packets at which the theorems are applied.
use gearmand.Prelude.{
  ℕ, zero, suc, ◌+◌, ◌-◌, ◌*◌, ◌/◌, ◌%◌, ◌^◌, ◌≤◌, ◌<◌, ◌≡◌, ◌≢◌, ◌⊎◌, inl, inr, refl, sym, ap, ◌∙◌,
  Bool, true, false, not, ◌&&◌, ◌||◌, Option, none, some, List, [], ◌∷◌, ◌++◌, map, length, take,
  drop, get_or, remove, contains, bytes_eq, c_str, codes, head?, tail, update, inc32, dec32, inc8,
  ℤ, pos, negsuc, is_zero, gt_now, is_positive, leb_ℤ, print_u32, read_decimal, ltb, leb, ◌==◌,
  if◌then◌else◌, Bool-cases, Option-cases, arith, ==_self, bytes_eq_self, bytes_eq→eq,
}
use gearmand.Protocol.Packet.{Bytes}
use gearmand.Prelude.{
  ℕ, zero, suc, Bool, true, false, Option, none, some, List, [], ◌∷◌, codes, pos, if◌then◌else◌,
  ◌==◌,
}
use gearmand.Protocol.Errors.{Error}
use gearmand.Protocol.Packet.{Bytes, Packet}
use gearmand.Server.State.{
  Server, Job, Function, Worker, Client, Con, Priority, QueueVersion, set_job, set_function,
  set_worker, set_client, set_con,
}
use gearmand.Server.Jobs.Add.{Submission}
pub mod Wire
pub mod Servers
pub mod Tasks
pub mod Lines
pub mod Requests
pub mod Store
pub mod Calls
pub mod Transport

abbrev pub no_job : Job
no_job = record {
  retries = 0;
  priority = Priority.normal;
  ignore_job = false;
  job_queued = false;
  job_handle_key = 0;
  unique_key = 0;
  numerator = 0;
  denominator = 0;
  when = pos 0;
  function = 0;
  workload = none;
  data_size = 0;
  client_list = [];
  worker = none;
  job_handle = [];
  unique_length = 0;
  unique = [];
  reducer = [];
}

abbrev pub no_function : Function
no_function = record {
  worker_count = 0;
  job_count = 0;
  job_total = 0;
  job_running = 0;
  max_queue_size = record { of_high = 0; of_normal = 0; of_low = 0 };
  function_name = [];
  worker_list = [];
  job_list = record { of_high = []; of_normal = []; of_low = [] };
  epoch_wakeup_timer = false;
  epoch_next_wakeup = pos 0;
  epoch_pending_whens = [];
}

abbrev pub no_con : Con
no_con = record {
  thread = 0;
  is_sleeping = false;
  is_exceptions = false;
  is_noop_sent = false;
  is_dead = false;
  io_list = false;
  io_packet_list = [];
  worker_list = [];
  client_list = [];
  id = codes "-";
  timeout_event = none;
  fd = 7;
  host = none;
}

-- A server that has just begun, without a queue module.
abbrev pub empty_server : Server
empty_server = record {
  round_robin = false;
  queue_startup = false;
  shutdown_graceful = false;
  has_event_base = true;
  exceptions = false;
  job_retries = pos 3;
  worker_wakeup = 0;
  job_handle_count = 1;
  job_count = 0;
  unique_count = 0;
  function_count = 0;
  free_packet_count = 0;
  job_handle_prefix = codes "H:box";
  hashtable_buckets = 991;
  function_hash = λ _. [];
  job_hash = λ _. [];
  unique_hash = λ _. [];
  free_job_list = [];
  free_client_list = [];
  free_worker_list = [];
  jobs = λ _. no_job;
  functions = λ _. no_function;
  workers = λ _. record { timeout = pos 0; con = 0; function = 0; job_list = [] };
  clients = λ _. record { con = 0; job = none };
  cons = λ _. no_con;
  thread_io = λ _. [];
  thread_runs = λ _. 0;
  next_object = 10;
  can_allocate = λ _. true;
  queue_version = QueueVersion.version_none;
  plugin = λ _ _. Error.success;
  queue_log = [];
  threads = 0 ∷ [];
  con_list = λ _. [];
  pid = 42;
  verbose_name = codes "ERROR";
  package_version = codes "1.1.21";
}

-- Two functions with one job each at the normal priority: job 1 of function 1 is for later, job 2 of
-- function 2 is not. Connection 5 has the workers 1 and 2, one for each function.
abbrev pub busy_server : Server
busy_server = record empty_server {
  jobs = λ j.
      if j == 1
      then record no_job { function = 1; when = pos 900; client_list = 1 ∷ 2 ∷ [] }
      else record no_job { function = 2 };
  functions = λ f. record no_function {
    job_count = 1;
    job_total = 1;
    function_name = if f == 1 then codes "resize" else codes "crop";
    job_list = record { of_high = []; of_normal = f ∷ []; of_low = [] };
    worker_list = f ∷ [];
    epoch_wakeup_timer = true;
    epoch_next_wakeup = pos 900;
    epoch_pending_whens = pos 900 ∷ pos 950 ∷ [];
  };
  workers = λ w. record { timeout = pos 0; con = 5; function = w; job_list = [] };
  clients = λ _. record { con = 6; job = some 1 };
  cons = λ c. record no_con { worker_list = if c == 5 then 1 ∷ 2 ∷ [] else []; is_sleeping = true };
}

-- The same under round robin, both functions with job 1 alone, at the high priority.
abbrev pub waiting_server : Server
waiting_server = record busy_server {
  round_robin = true;
  functions = λ f. record no_function {
    job_count = 1;
    job_list = record { of_high = 1 ∷ []; of_normal = []; of_low = [] };
  };
}

abbrev pub request : Bytes → Submission
request u = record {
  function_name = codes "resize";
  unique = u;
  reducer = [];
  workload = some (codes "data");
  priority = Priority.normal;
  client = none;
  when = pos 0;
}
