-- ===== src/Client/Task/Match.antt =====
-- libgearman/client.cc: the loop of `_client_run_tasks` that finds the task of a packet. The code that
-- the text of an error stands for is a parameter.
use gearmand.Prelude.{
  ℕ, suc, Bool, true, false, not, ◌&&◌, ◌||◌, Option, none, some, List, [], ◌∷◌, take, length,
  get_or, ltb, ◌==◌, inc32, bytes_eq, c_str, if◌then◌else◌,
}
use gearmand.Protocol.Commands.{Command}
use gearmand.Protocol.Packet.{Bytes, Packet}
use gearmand.Client.Return.{Return}
use gearmand.Client.Connection.{Connection}
use gearmand.Client.Task.{Task, TaskState, expects_job_created}

-- `gearman_task_is_active`
unfoldable pub is_active : TaskState → Bool
is_active TaskState.complete = false
is_active TaskState.exception = false
is_active TaskState.fail = false
is_active TaskState.finished = false
is_active _ = true

-- `strncmp(a, b, n) == 0`
abbrev strncmp_eq : ℕ → Bytes → Bytes → Bool
strncmp_eq n a b = bytes_eq (take n (c_str a)) (take n (c_str b))

abbrev pub packet_arg : Packet → ℕ → Bytes
packet_arg p i = get_or p.arg i []

-- The place of the task in the list, the code of an error, or no task; and the connection after it.
pub data Match : Type 0 where
  no_task : Match
  task_at : ℕ → Match
  server_error : Return → Match

abbrev pub has_con : Connection → Task → Bool
has_con c t = elim t.con [ none ↦ false | some a ↦ a == c.address ]

-- Whether a task waits for the number that the connection comes to.
abbrev pub awaits_created : Connection → Task → Bool
awaits_created c t = expects_job_created t.send.command && (t.created_id == c.created_id)

-- The comparison of the handle: an empty one fits each packet.
abbrev pub fits_handle : Packet → Task → Bool
fits_handle p t =
    not (ltb (length (packet_arg p 0)) (length (c_str t.job_handle)))
    && strncmp_eq (length (c_str t.job_handle)) t.job_handle (packet_arg p 0)

abbrev pub fits_unique : Packet → Task → Bool
fits_unique p t = strncmp_eq (length (packet_arg p 0)) t.unique (packet_arg p 0)

-- `GEARMAN_SERVER_ERROR` for a text that is no code.
abbrev pub error_of : (Bytes → Return) → Packet → Return
error_of code p = elim (code (packet_arg p 0)) [
  | Return.max_return ↦ Return.server_error
  | other ↦ other
]

-- A slot that still waits for its reply is released.
abbrev released : Connection → Connection
released c =
    if c.created_id == c.created_id_next then c else record c { created_id = inc32 c.created_id }

-- What the body of the loop does with an active task of the connection: it ends the loop, or not.
unfoldable pub try_task :
    Command → (Bytes → Return) → Packet → Connection → Task → ℕ → Option (Match × Connection)
try_task Command.job_created code p c t i =
    if awaits_created c t
    then some (Match.task_at i, record c { created_id = inc32 c.created_id })
    else none
try_task Command.error code p c t i = some (Match.server_error (error_of code p), released c)
try_task Command.status_res_unique code p c t i =
    if fits_unique p t || fits_handle p t then some (Match.task_at i, c) else none
try_task _ code p c t i = if fits_handle p t then some (Match.task_at i, c) else none

-- The loop over the list, from its place `i` on.
unfoldable pub find_task :
    (Bytes → Return) → Packet → Connection → List Task → ℕ → Match × Connection
find_task code p c [] i = (Match.no_task, c)
find_task code p c (t ∷ ts) i = elim (has_con c t && is_active t.state) [
  | false ↦ find_task code p c ts (suc i)
  | true ↦ elim (try_task p.command code p c t i) [
    | some found ↦ found
    | none ↦ find_task code p c ts (suc i)
  ]
]
