-- ===== src/Server/Clients.antt =====
-- libgearman-server/client.cc: a connection's wait for a job's results.
use gearmand.Prelude.{
  ℕ, zero, suc, Bool, true, false, Option, none, some, List, [], ◌∷◌, length, remove, ltb,
  if◌then◌else◌,
}
use gearmand.Server.State.{Server, Job, set_job, set_client, set_con, new_object}

abbrev max_free_server_client : ℕ
max_free_server_client = 1000

-- A client from the free list, or a new one.
abbrev pub client_create : Server → Option ℕ × Server
client_create s = elim s.free_client_list [
  | [] ↦ new_object s
  | c ∷ cs ↦ (some c, record s { free_client_list = cs })
]

-- `gearman_server_client_add`
unfoldable pub client_add : Server → ℕ → Server × Option ℕ
client_add s con =
    let (made, s1) = client_create s in
    elim made [
      | none ↦ (s1, none)
      | some c ↦
          let s2 = set_client s1 c (record { con = con; job = none }) in
          (
            set_con s2 con (record (s2.cons con) { client_list = c ∷ (s2.cons con).client_list }),
            some c,
          )
    ]

abbrev is_empty {ℓ} : {A : Type ℓ} → List A → Bool
is_empty [] = true
is_empty (x ∷ xs) = false

-- `GEARMAND_LIST_DEL(client->job->client, client, job_)`, and the mark on a job with no client left.
abbrev abandon : Job → ℕ → Job
abandon j c =
    let rest = remove c j.client_list in
    if is_empty rest
    then record j { client_list = rest; ignore_job = true; job_queued = false }
    else record j { client_list = rest }

abbrev leave_job : Server → ℕ → Option ℕ → Server
leave_job s c none = s
leave_job s c (some j) = set_job s j (abandon (s.jobs j) c)

abbrev leave_con : Server → ℕ → ℕ → Server
leave_con s c con =
    set_con s con (record (s.cons con) { client_list = remove c (s.cons con).client_list })

abbrev put_back_client : Server → ℕ → Server
put_back_client s c =
    if ltb (length s.free_client_list) max_free_server_client
    then record s { free_client_list = c ∷ s.free_client_list }
    else s

-- `gearman_server_client_free`
unfoldable pub client_free : Server → ℕ → Server
client_free s c = let x = s.clients c in put_back_client (leave_job (leave_con s c x.con) c x.job) c

-- `while (client_list != NULL) gearman_server_client_free(client_list)` for a job; each round takes
-- the head off, so the list's length bounds the rounds.
unfoldable pub free_job_clients : ℕ → Server → ℕ → Server
free_job_clients zero s j = s
free_job_clients (suc n) s j = elim (s.jobs j).client_list [
  | [] ↦ s
  | c ∷ cs ↦ free_job_clients n (client_free s c) j
]

-- The same loop over a connection's clients.
unfoldable pub free_con_clients : ℕ → Server → ℕ → Server
free_con_clients zero s con = s
free_con_clients (suc n) s con = elim (s.cons con).client_list [
  | [] ↦ s
  | c ∷ cs ↦ free_con_clients n (client_free s c) con
]
