-- ===== src/Server/Jobs/Handle.antt =====
-- job.cc and gearmand_con.cc: the handle of a new job, and the look-up by it.
use gearmand.Prelude.{
  ℕ, ◌%◌, ◌≡◌, refl, none, some, List, [], ◌∷◌, take, c_str, arith, ==_self, bytes_eq_self,
}
use gearmand.Protocol.Packet.{Bytes}
use gearmand.Server.State.{Server}
use gearmand.Server.Hash.{server_job_hash}
use gearmand.Server.Jobs.{job_get, find_handle, c_str, Bytes, ℕ, List, none}
use gearmand.Server.Jobs.Add.{Submission, enter_job, handle_text}

c_str_twice : (u : Bytes) → c_str (c_str u) ≡ c_str u
unfolding c_str
c_str_twice [] = refl
c_str_twice (x ∷ xs) = ground (arith, c_str_twice xs)

find_handle-head :
    (s : Server) (handle : Bytes) (j : ℕ) (js : List ℕ)
    → (s.jobs j).job_handle_key ≡ server_job_hash (c_str handle)
    → (s.jobs j).job_handle ≡ handle
    → find_handle s (c_str handle) (server_job_hash (c_str handle)) (j ∷ js) ≡ some j
unfolding find_handle
find_handle-head s handle j js k e =
    rw
      (
        k,
        e,
        c_str_twice handle,
        ==_self (server_job_hash (c_str handle)),
        bytes_eq_self (take 64 (c_str handle)),
      )
      refl

entered_handle :
    (s : Server) (j f key : ℕ) (x : Submission)
    → ((enter_job s j f key x).jobs j).job_handle ≡ handle_text s
unfolding enter_job
entered_handle s j f key x = simp (==_self j)

entered_handle_key :
    (s : Server) (j f key : ℕ) (x : Submission)
    → ((enter_job s j f key x).jobs j).job_handle_key ≡ server_job_hash (c_str (handle_text s))
unfolding enter_job
entered_handle_key s j f key x = simp (==_self j)

entered_handle_bucket :
    (s : Server) (j f key : ℕ) (x : Submission) (h : ℕ)
    → server_job_hash (c_str (handle_text s)) ≡ h
    → (enter_job s j f key x).job_hash (h % (enter_job s j f key x).hashtable_buckets)
      ≡ j ∷ s.job_hash (h % s.hashtable_buckets)
unfolding enter_job
entered_handle_bucket s j f key x h e =
    rw (← e) (simp (==_self (server_job_hash (c_str (handle_text s)) % s.hashtable_buckets)))

-- A job that was just entered is the one that its handle, up to its NUL, names.
pub entered_job_found :
    (s : Server) (j f key : ℕ) (x : Submission)
    → job_get (enter_job s j f key x) (c_str (handle_text s)) none ≡ some j
unfolding job_get
entered_job_found s j f key x =
    rw
      (
        entered_handle_bucket s j f key x (server_job_hash (c_str (handle_text s))) refl,
        find_handle-head (enter_job s j f key x) (handle_text s) j _
            (entered_handle_key s j f key x) (entered_handle s j f key x),
      )
      refl
