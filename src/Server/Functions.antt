-- ===== src/Server/Functions.antt =====
-- libgearman-server/function.cc: the table of functions, by name.
use gearmand.Prelude.{
  ℕ, ◌%◌, false, Option, none, some, List, [], ◌∷◌, bytes_eq, update, inc32, pos, if◌then◌else◌,
}
pub mod Lookup
use gearmand.Protocol.Packet.{Bytes}
use gearmand.Server.State.{Server, Function, set_function, new_object}
use gearmand.Server.Hash.{server_function_hash, default_hash_size}

-- A bucket's functions in turn.
pub find_function : Server → Bytes → List ℕ → Option ℕ
find_function s name [] = none
find_function s name (f ∷ fs) =
    if bytes_eq (s.functions f).function_name name then some f else find_function s name fs

abbrev pub new_function : Bytes → Function
new_function name = record {
  worker_count = 0;
  job_count = 0;
  job_total = 0;
  job_running = 0;
  max_queue_size = record { of_high = 0; of_normal = 0; of_low = 0 };
  function_name = name;
  worker_list = [];
  job_list = record { of_high = []; of_normal = []; of_low = [] };
  epoch_wakeup_timer = false;
  epoch_next_wakeup = pos 0;
  epoch_pending_whens = [];
}

-- `GEARMAND_HASH__ADD(server->function, key, function)`
abbrev hash_function : Server → ℕ → ℕ → Server
hash_function s key f = record s {
  function_hash = update s.function_hash key (f ∷ s.function_hash key);
  function_count = inc32 s.function_count;
}

-- `gearman_server_function_create`
unfoldable pub function_create : Server → Bytes → ℕ → Server × Option ℕ
function_create s name key = elim (new_object s).0 [
  | none ↦ ((new_object s).1, none)
  | some f ↦ (hash_function (set_function (new_object s).1 f (new_function name)) key f, some f)
]

abbrev pub function_key : Bytes → ℕ
function_key name = server_function_hash name % default_hash_size

-- `gearman_server_function_get`: the function of that name, made if there is none.
unfoldable pub function_get : Server → Bytes → Server × Option ℕ
unfolding find_function
function_get s name = elim (find_function s name (s.function_hash (function_key name))) [
  | some f ↦ (s, some f)
  | none ↦ function_create s name (function_key name)
]
