-- ===== src/Server/Take.antt =====
-- gearmand_con.cc: the job that a worker's connection is given.
use gearmand.Prelude.{
  ℕ, zero, suc, Bool, true, false, not, ◌||◌, Option, none, some, List, [], ◌∷◌, ◌++◌, remove,
  head?, inc32, dec32, is_zero, gt_now, ◌==◌, if◌then◌else◌,
}
pub mod Peek
pub mod Select
pub mod Fit
pub mod RoundRobin
use gearmand.Server.State.{
  Server, Job, Function, Worker, Con, Priority, at, put, set_job, set_function, set_con, set_worker,
}
use gearmand.Server.Jobs.{job_free}

-- `when == 0 || when <= time(NULL)`
unfoldable pub is_ready : ℕ → Job → Bool
is_ready now x = is_zero x.when || not (gt_now x.when now)

-- The first job of a chain that may run now.
unfoldable pub first_ready : ℕ → Server → List ℕ → Option ℕ
first_ready now s [] = none
first_ready now s (j ∷ js) = if is_ready now (s.jobs j) then some j else first_ready now s js

-- The worker behind `w` on a list: `con_next`.
unfoldable pub next_after : ℕ → List ℕ → Option ℕ
next_after w [] = none
next_after w (x ∷ xs) = if x == w then head? xs else next_after w xs

abbrev pub has_jobs_at : Function → Priority → Bool
has_jobs_at f p = elim (at f.job_list p) [ [] ↦ false | _ ∷ _ ↦ true ]

-- With round robin the worker goes to the end of its connection's list.
unfoldable pub rotate : Server → ℕ → ℕ → Server
rotate s con w =
    if s.round_robin
    then set_con s con
        (record (s.cons con) { worker_list = remove w (s.cons con).worker_list ++ w ∷ [] })
    else s

-- The job off its function's chain and onto the worker's list.
unfoldable pub assign : Server → ℕ → ℕ → Priority → Server
assign s w j p =
    let f = (s.jobs j).function in
    let s1 = set_function s f (record (s.functions f) {
      job_list = put (s.functions f).job_list p (remove j (at (s.functions f).job_list p));
      job_count = dec32 (s.functions f).job_count;
      job_running = inc32 (s.functions f).job_running;
    }) in
    set_worker (set_job s1 j (record (s.jobs j) { worker = some w })) w
      (record (s.workers w) { job_list = j ∷ (s.workers w).job_list })

-- `function->job_count == 0 || function->job_list[priority] == NULL`: nothing to look at.
abbrev pub skips : Server → Priority → ℕ → Bool
skips s p w =
    let f = s.functions (s.workers w).function in (f.job_count == 0) || not (has_jobs_at f p)

abbrev pub chain : Server → Priority → ℕ → List ℕ
chain s p w = at (s.functions (s.workers w).function).job_list p

-- The loop over the connection's workers at one priority. `none`: the fuel ran out; else the state
-- and the job, if one was found, as it is now assigned. `con_next` is read before the rotation.
unfoldable pub scan : ℕ → ℕ → Server → ℕ → Priority → Option ℕ → Option (Server × Option ℕ)
unfolding first_ready next_after assign
scan zero now s con p w = none
scan (suc fuel) now s con p none = some (s, none)
scan (suc fuel) now s con p (some w) = elim (skips s p w) [
  | true ↦ scan fuel now s con p (next_after w (s.cons con).worker_list)
  | false ↦ elim (first_ready now s (chain s p w)) [
    | none ↦ scan fuel now (rotate s con w) con p (next_after w (s.cons con).worker_list)
    | some j ↦ some (assign (rotate s con w) w j p, some j)
  ]
]

abbrev pub start_scan : ℕ → ℕ → Server → ℕ → Priority → Option (Server × Option ℕ)
start_scan fuel now s con p = scan fuel now s con p (head? (s.cons con).worker_list)

-- The loop over the priorities.
unfoldable pub scan_all : ℕ → ℕ → Server → ℕ → List Priority → Option (Server × Option ℕ)
unfolding scan
scan_all fuel now s con [] = some (s, none)
scan_all fuel now s con (p ∷ ps) = elim (start_scan fuel now s con p) [
  | none ↦ none
  | some (s1, some j) ↦ some (s1, some j)
  | some (s1, none) ↦ scan_all fuel now s1 con ps
]

abbrev pub priorities : List Priority
priorities = Priority.high ∷ Priority.normal ∷ Priority.low ∷ []

-- `gearman_server_job_take`: a job that is to be ignored is freed, and the search begins again.
unfoldable pub job_take : ℕ → ℕ → Server → ℕ → Option (Server × Option ℕ)
unfolding scan_all
job_take zero now s con = none
job_take (suc fuel) now s con = elim (scan_all fuel now s con priorities) [
  | none ↦ none
  | some (s1, none) ↦ some (s1, none)
  | some (s1, some j) ↦ elim (s1.jobs j).ignore_job [
    | true ↦ job_take fuel now (job_free s1 j) con
    | false ↦ some (s1, some j)
  ]
]
