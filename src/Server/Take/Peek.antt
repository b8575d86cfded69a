-- ===== src/Server/Take/Peek.antt =====
-- gearmand_con.cc: `gearman_server_job_peek`, which tells whether a worker has to be woken.
use gearmand.Prelude.{
  ℕ, zero, suc, true, false, Option, none, some, List, [], ◌∷◌, ◌==◌, if◌then◌else◌,
}
use gearmand.Server.State.{Server, Function, Priority, at, set_job}
use gearmand.Server.Jobs.{job_free}
use gearmand.Server.Take.{first_ready, job_take, priorities}

-- The first job that may run, of the first priority that has one.
unfoldable pub peek_priorities : ℕ → Server → Function → List Priority → Option ℕ
unfolding first_ready
peek_priorities now s f [] = none
peek_priorities now s f (p ∷ ps) = elim (first_ready now s (at f.job_list p)) [
  | some j ↦ some j
  | none ↦ peek_priorities now s f ps
]

-- The loop over the connection's workers.
unfoldable pub peek_workers : ℕ → Server → List ℕ → Option ℕ
unfolding peek_priorities
peek_workers now s [] = none
peek_workers now s (w ∷ ws) =
    let f = s.functions (s.workers w).function in
    elim (if f.job_count == 0 then none else peek_priorities now s f priorities) [
      | some j ↦ some j
      | none ↦ peek_workers now s ws
    ]

-- `gearman_server_job_free(gearman_server_job_take(server_con))`
abbrev pub free_taken : Server × Option ℕ → Server
free_taken (s, none) = s
free_taken (s, some j) = job_free s j

-- `gearman_server_job_peek`. `none`: the fuel ran out.
unfoldable pub job_peek : ℕ → ℕ → Server → ℕ → Option (Server × Option ℕ)
unfolding peek_workers
job_peek zero now s con = none
job_peek (suc fuel) now s con = elim (peek_workers now s (s.cons con).worker_list) [
  | none ↦ some (s, none)
  | some j ↦ elim (s.jobs j).ignore_job [
    | false ↦ some (s, some j)
    | true ↦ elim (job_take fuel now (set_job s j (record (s.jobs j) { ignore_job = false })) con) [
      | none ↦ none
      | some r ↦ job_peek fuel now (free_taken r) con
    ]
  ]
]
