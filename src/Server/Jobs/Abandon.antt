-- ===== src/Server/Jobs/Abandon.antt =====
-- client.cc and job.cc: what becomes of a job whose clients leave.
use gearmand.Prelude.{ℕ, ◌≡◌, ◌∙◌, true, false, some, List, [], ◌∷◌, length, remove, arith}
use gearmand.Server.State.{Server}
use gearmand.Server.Clients.{client_free, free_job_clients}
use gearmand.Server.Jobs.Add.{attach}

-- A job that no client waits for, as a background job is, which a client joins and then leaves,
-- has no client again, counts as not stored and is to be ignored, whatever it was before.
pub joined_job_ignored :
    (s : Server) (j c : ℕ)
    → (s.jobs j).client_list ≡ []
    → (((client_free (attach s j (some c)) c).jobs j).ignore_job ≡ true)
      × (((client_free (attach s j (some c)) c).jobs j).job_queued ≡ false)
      × (((client_free (attach s j (some c)) c).jobs j).client_list ≡ [])
unfolding client_free attach remove
joined_job_ignored s j c e = ground arith

-- Each client of the list waits for the job.
abbrev pub AllWait : Server → ℕ → List ℕ → Type 0
AllWait s j [] = Unit
AllWait s j (c ∷ cs) = ((s.clients c).job ≡ some j) × AllWait s j cs

client_free-list :
    (s : Server) (j c : ℕ) (cs : List ℕ)
    → (s.clients c).job ≡ some j
    → (s.jobs j).client_list ≡ c ∷ cs
    → ((client_free s c).jobs j).client_list ≡ cs
unfolding client_free remove
client_free-list s j c cs e l = ground arith

client_free-job : (s : Server) (c d : ℕ) → ((client_free s c).clients d).job ≡ (s.clients d).job
unfolding client_free
client_free-job s c d = ground arith

AllWait-client_free :
    (s : Server) (j c : ℕ) (cs : List ℕ) → AllWait s j cs → AllWait (client_free s c) j cs
AllWait-client_free s j c [] a = tt
AllWait-client_free s j c (d ∷ ds) a =
    (client_free-job s c d ∙ a.0, AllWait-client_free s j c ds a.1)

-- The loop that frees a job's clients, with as many rounds as there are clients, leaves none, where
-- each client of the job waits for it.
pub free_job_clients-empties :
    (cs : List ℕ) (s : Server) (j : ℕ)
    → (s.jobs j).client_list ≡ cs
    → AllWait s j cs
    → ((free_job_clients (length cs) s j).jobs j).client_list ≡ []
unfolding free_job_clients
free_job_clients-empties [] s j e a = e
free_job_clients-empties (c ∷ cs) s j e a =
    rw (e, free_job_clients)
      (free_job_clients-empties cs (client_free s c) j (client_free-list s j c cs a.0 e)
        (AllWait-client_free s j c cs a.1))
