-- ===== src/Server/Commands/Text/Reports.antt =====
-- text.cc: the commands that list workers, functions and jobs.
use gearmand.Prelude.{
  ℕ, zero, suc, Bool, none, some, List, [], ◌∷◌, ◌++◌, length, take, codes, print_u32,
  if◌then◌else◌,
}
use gearmand.Protocol.Packet.{Bytes}
use gearmand.Server.State.{Server}
use gearmand.Server.Hash.{default_hash_size}

-- A table's chains from bucket `key` on, over so many buckets.
unfoldable pub chains : (ℕ → List ℕ) → ℕ → ℕ → List ℕ
chains table zero key = []
chains table (suc n) key = table key ++ chains table n (suc key)

abbrev pub tab : Bytes
tab = 9 ∷ []

abbrev pub newline : Bytes
newline = 10 ∷ []

abbrev pub end_mark : Bytes
end_mark = b'.' ∷ newline

unfoldable pub lines : (ℕ → Bytes) → List ℕ → Bytes
lines line [] = end_mark
lines line (x ∷ xs) = line x ++ lines line xs

abbrev number : ℕ → Bytes
number n = tab ++ print_u32 n

unfoldable pub worker_names : Server → List ℕ → Bytes
worker_names s [] = newline
worker_names s (w ∷ ws) =
    (b' ' ∷ (s.functions (s.workers w).function).function_name) ++ worker_names s ws

-- A connection that was given up has no host, and no line.
unfoldable pub workers_line : Server → ℕ → Bytes
unfolding worker_names
workers_line s con =
    let c = s.cons con in
    elim c.host [
      | none ↦ []
      | some host ↦
          print_u32 c.fd
          ++ ((b' ' ∷ host) ++ ((b' ' ∷ c.id) ++ (codes " :" ++ worker_names s c.worker_list)))
    ]

unfoldable pub thread_cons : Server → List ℕ → List ℕ
thread_cons s [] = []
thread_cons s (t ∷ ts) = s.con_list t ++ thread_cons s ts

abbrev pub all_functions : Server → List ℕ
all_functions s = chains s.function_hash default_hash_size 0

unfoldable pub text_workers : Server → Bytes
unfolding workers_line thread_cons lines
text_workers s = lines (workers_line s) (thread_cons s s.threads)

unfoldable pub priority_status_line : Server → ℕ → Bytes
priority_status_line s f =
    let x = s.functions f in
    x.function_name
    ++ (number (length x.job_list.of_high)
        ++ (number (length x.job_list.of_normal)
            ++ (number (length x.job_list.of_low) ++ (number x.worker_count ++ newline))))

unfoldable pub text_priority_status : Server → Bytes
unfolding priority_status_line lines chains
text_priority_status s = lines (priority_status_line s) (all_functions s)

unfoldable pub status_line : Server → ℕ → Bytes
status_line s f =
    let x = s.functions f in
    x.function_name
    ++ (number x.job_total ++ (number x.job_running ++ (number x.worker_count ++ newline)))

unfoldable pub text_status : Server → Bytes
unfolding status_line lines chains
text_status s = lines (status_line s) (all_functions s)

abbrev unique_line : Server → ℕ → Bytes
unique_line s j =
    let x = s.jobs j in x.job_handle ++ (tab ++ (take x.unique_length x.unique ++ newline))

unfoldable pub text_unique_jobs : Server → Bytes
unfolding lines chains
text_unique_jobs s = lines (unique_line s) (chains s.unique_hash s.hashtable_buckets 0)

abbrev flag : Bool → Bytes
flag b = number (if b then 1 else 0)

abbrev job_line : Server → ℕ → Bytes
job_line s j =
    let x = s.jobs j in
    x.job_handle ++ (number x.retries ++ (flag x.ignore_job ++ (flag x.job_queued ++ newline)))

unfoldable pub text_jobs : Server → Bytes
unfolding lines chains
text_jobs s = lines (job_line s) (chains s.job_hash s.hashtable_buckets 0)
