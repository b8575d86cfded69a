-- ===== src/Server/Workers.antt =====
-- worker.cc and connection.cc: what a connection can do.
use gearmand.Prelude.{
  ℕ, zero, suc, ◌-◌, Option, none, some, List, [], ◌∷◌, ◌++◌, length, take, remove, bytes_eq, c_str,
  inc32, dec32, ℤ, negsuc, ltb, if◌then◌else◌,
}
use gearmand.Protocol.Packet.{Bytes}
use gearmand.Server.State.{Server, set_worker, set_function, set_con, new_object}
use gearmand.Server.Functions.{function_get}
use gearmand.Server.Jobs.Requeue.{job_queue}

abbrev max_free_server_worker : ℕ
max_free_server_worker = 1000

abbrev worker_alloc : Server → Option ℕ × Server
worker_alloc s = elim s.free_worker_list [
  | w ∷ ws ↦ (some w, record s { free_worker_list = ws })
  | [] ↦ new_object s
]

abbrev join_con : Server → ℕ → ℕ → Server
join_con s w con =
    set_con s con (record (s.cons con) { worker_list = w ∷ (s.cons con).worker_list })

-- Behind the function's other workers: before the head of the circular list.
abbrev join_function : Server → ℕ → ℕ → Server
join_function s w f = set_function s f (record (s.functions f) {
  worker_list = (s.functions f).worker_list ++ w ∷ [];
  worker_count = inc32 (s.functions f).worker_count;
})

-- `gearman_server_worker_create`, which sets the timeout to -1.
unfoldable pub worker_create : Server → ℕ → ℕ → Server × Option ℕ
worker_create s con f = elim (worker_alloc s).0 [
  | none ↦ ((worker_alloc s).1, none)
  | some w ↦ (
    join_function
        (join_con
          (set_worker (worker_alloc s).1 w
            (record { timeout = negsuc 0; con = con; function = f; job_list = [] }))
          w con)
        w f,
    some w,
  )
]

abbrev set_timeout : ℤ → Server × Option ℕ → Server × Option ℕ
set_timeout t (s, none) = (s, none)
set_timeout t (s, some w) = (set_worker s w (record (s.workers w) { timeout = t }), some w)

abbrev worker_on : ℕ → ℤ → Server × Option ℕ → Server × Option ℕ
worker_on con t (s, none) = (s, none)
worker_on con t (s, some f) = set_timeout t (worker_create s con f)

-- `gearman_server_worker_add`
unfoldable pub worker_add : Server → ℕ → Bytes → ℤ → Server × Option ℕ
unfolding worker_create
worker_add s con name timeout = worker_on con timeout (function_get s name)

-- `while (worker->job_list != NULL) gearman_server_job_queue(worker->job_list)`: each round takes the
-- head off, so the list's length bounds the rounds.
unfoldable pub requeue_jobs : ℕ → ℕ → Server → ℕ → Server
requeue_jobs zero now s w = s
requeue_jobs (suc n) now s w = elim (s.workers w).job_list [
  | [] ↦ s
  | j ∷ js ↦ requeue_jobs n now (job_queue now s j).0 w
]

abbrev quit_con : Server → ℕ → Server
quit_con s w =
    let c = (s.workers w).con in
    set_con s c (record (s.cons c) { worker_list = remove w (s.cons c).worker_list })

abbrev quit_function : Server → ℕ → Server
quit_function s w =
    let f = (s.workers w).function in
    set_function s f (record (s.functions f) {
      worker_list = remove w (s.functions f).worker_list;
      worker_count = dec32 (s.functions f).worker_count;
    })

abbrev put_back_worker : Server → ℕ → Server
put_back_worker s w =
    if ltb (length s.free_worker_list) max_free_server_worker
    then record s { free_worker_list = w ∷ s.free_worker_list }
    else s

-- `gearman_server_worker_free`
unfoldable pub worker_free : ℕ → Server → ℕ → Server
unfolding requeue_jobs
worker_free now s w =
    put_back_worker
      (quit_function (quit_con (requeue_jobs (length (s.workers w).job_list) now s w) w) w) w

-- `gearman_server_con_free_workers`: each round takes the head off.
unfoldable pub free_workers : ℕ → ℕ → Server → ℕ → Server
free_workers zero now s con = s
free_workers (suc n) now s con = elim (s.cons con).worker_list [
  | [] ↦ s
  | w ∷ ws ↦ free_workers n now (worker_free now s w) con
]

unfoldable pub con_free_workers : ℕ → Server → ℕ → Server
unfolding free_workers
con_free_workers now s con = free_workers (length (s.cons con).worker_list) now s con

-- `gearman_server_con_free_worker`: the loop goes on behind the last kept worker, so it meets each
-- worker of the list once, in turn.
unfoldable pub free_named : ℕ → Server → Bytes → List ℕ → Server
free_named now s name [] = s
free_named now s name (w ∷ ws) =
    free_named now
      (if bytes_eq (s.functions (s.workers w).function).function_name name
        then worker_free now s w
        else s)
      name ws

unfoldable pub con_free_worker : ℕ → Server → ℕ → Bytes → Server
unfolding free_named
con_free_worker now s con name = free_named now s name (s.cons con).worker_list

abbrev server_con_id_size : ℕ
server_con_id_size = 128

-- `gearman_server_con_set_id`
unfoldable pub con_set_id : Server → ℕ → Bytes → Server
con_set_id s con id =
    set_con s con (record (s.cons con) { id = c_str (take (server_con_id_size - 1) id) })
