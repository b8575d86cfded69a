-- ===== src/Server/Jobs/Unique.antt =====
-- job.cc: the unique id of a submission, and the job that has it already.
use gearmand.Prelude.{
  ℕ, zero, suc, ◌%◌, ◌≤◌, ◌<◌, ◌≡◌, ◌∙◌, inl, inr, refl, ap, false, none, some, List, [], ◌∷◌,
  length, take, bytes_eq, c_str, Bool-cases, arith, bytes_eq-length, length-take-le, ==_self,
  bytes_eq_self,
}
use gearmand.Protocol.Packet.{Bytes}
use gearmand.Server.State.{Server}
use gearmand.Server.Hash.{server_job_hash}
use gearmand.Server.Jobs.Add.{Submission, find_by_id, look_up, enter_job, stored_unique}

-- A text without NUL, as the protocol's parser cuts it.
abbrev pub IsText : Bytes → Type 0
IsText u = c_str u ≡ u

-- What `gearman_server_job_st::unique` has room for, with its NUL.
abbrev pub IsStored : Server → Type 0
IsStored s = (j : ℕ) → length (s.jobs j).unique ≤ 63

length-c_str-le : (u : Bytes) → length (c_str u) ≤ length u
unfolding c_str
length-c_str-le [] = omega arith
length-c_str-le (x ∷ xs) = ground (arith, length-c_str-le xs)

too_short :
    (s : Server) (j : ℕ) (u : Bytes)
    → IsStored s
    → 63 < length (c_str u)
    → bytes_eq (c_str (s.jobs j).unique) (c_str u) ≡ false
too_short s j u stored long = elim (Bool-cases (bytes_eq (c_str (s.jobs j).unique) (c_str u))) [
  | inl e ↦
      absurd (omega (arith, bytes_eq-length _ _ e, length-c_str-le (s.jobs j).unique, stored j))
  | inr e ↦ e
]

find_by_id-long :
    (s : Server) (key f : ℕ) (u : Bytes) (js : List ℕ)
    → IsStored s
    → 63 < length (c_str u)
    → find_by_id s key f u js ≡ none
unfolding find_by_id
find_by_id-long s key f u [] stored long = refl
find_by_id-long s key f u (j ∷ js) stored long =
    ground (arith, too_short s j u stored long, find_by_id-long s key f u js stored long)

-- An id that is neither empty nor the dash.
abbrev IsName : Bytes → Type 0
IsName u = (0 < length u) × (bytes_eq u (b'-' ∷ []) ≡ false)

named_look_up :
    (s : Server) (f : ℕ) (x : Submission)
    → IsName x.unique
    → look_up s f x ≡ (
      server_job_hash x.unique,
      find_by_id s
          (server_job_hash x.unique)
          f
          x.unique
          (s.unique_hash (server_job_hash x.unique % s.hashtable_buckets)),
    )
unfolding look_up
named_look_up s f x n = ground arith

not_dash : (u : Bytes) → 1 < length u → bytes_eq u (b'-' ∷ []) ≡ false
not_dash u h = elim (Bool-cases (bytes_eq u (b'-' ∷ []))) [
  | inl e ↦ absurd (omega (arith, bytes_eq-length u (b'-' ∷ []) e))
  | inr e ↦ e
]

enter_job-IsStored :
    (s : Server) (j f key : ℕ) (x : Submission) → IsStored s → IsStored (enter_job s j f key x)
unfolding enter_job
enter_job-IsStored s j f key x stored i =
    ground (arith, length-take-le 63 (c_str x.unique), stored i)

-- A unique id of 64 bytes without NUL is cut when it is stored: right after its job was entered,
-- where no job's stored id exceeds 63 bytes, a look-up for the same function and id finds no job.
pub long_unique_lost :
    (s : Server) (j f : ℕ) (x : Submission)
    → IsStored s
    → IsText x.unique
    → length x.unique ≡ 64
    → (look_up (enter_job s j f (look_up s f x).0 x) f x).1 ≡ none
long_unique_lost s j f x stored text long =
    let t = enter_job s j f (look_up s f x).0 x in
    let name = not_dash x.unique (omega arith) in
    rw (named_look_up t f x (omega arith, name)) (
      find_by_id-long t _ f x.unique _ (enter_job-IsStored s j f (look_up s f x).0 x stored)
        (rw text (omega arith)))

take_all : (n : ℕ) (u : Bytes) → length u ≤ n → take n u ≡ u
unfolding take
take_all zero [] h = refl
take_all zero (x ∷ u) h = absurd (omega arith)
take_all (suc n) [] h = refl
take_all (suc n) (x ∷ u) h = ap (◌∷◌ x) (take_all n u (omega arith))

find_by_id-head :
    (s : Server) (key f j : ℕ) (u : Bytes) (js : List ℕ)
    → (s.jobs j).function ≡ f
    → (s.jobs j).unique_key ≡ key
    → c_str (s.jobs j).unique ≡ c_str u
    → find_by_id s key f u (j ∷ js) ≡ some j
unfolding find_by_id
find_by_id-head s key f j u js a b c =
    rw (a, b, c, ==_self f, ==_self key, bytes_eq_self (c_str u)) refl

entered_function :
    (s : Server) (j f key : ℕ) (x : Submission) → ((enter_job s j f key x).jobs j).function ≡ f
unfolding enter_job
entered_function s j f key x = simp (==_self j)

entered_key :
    (s : Server) (j f key : ℕ) (x : Submission) → ((enter_job s j f key x).jobs j).unique_key ≡ key
unfolding enter_job
entered_key s j f key x = simp (==_self j)

entered_unique :
    (s : Server) (j f key : ℕ) (x : Submission)
    → ((enter_job s j f key x).jobs j).unique ≡ stored_unique x.unique
unfolding enter_job
entered_unique s j f key x = simp (==_self j)

entered_bucket :
    (s : Server) (j f key : ℕ) (x : Submission)
    → (enter_job s j f key x).unique_hash (key % (enter_job s j f key x).hashtable_buckets)
      ≡ j ∷ s.unique_hash (key % s.hashtable_buckets)
unfolding enter_job
entered_bucket s j f key x = simp (==_self (key % s.hashtable_buckets))

-- A unique id of at most 63 bytes without NUL, neither empty nor the dash, is found: right after a
-- job of that id was entered for a function, a look-up for the same function and id gives that
-- job.
pub unique_found :
    (s : Server) (j f : ℕ) (x : Submission)
    → IsText x.unique
    → length x.unique ≤ 63
    → IsName x.unique
    → look_up (enter_job s j f (look_up s f x).0 x) f x ≡ (server_job_hash x.unique, some j)
unique_found s j f x text short name =
    let key = server_job_hash x.unique in
    let t = enter_job s j f key x in
    let stored : stored_unique x.unique ≡ x.unique = rw text (take_all 63 x.unique short) in
    rw (named_look_up s f x name, named_look_up t f x name, entered_bucket s j f key x)
      (ap (λ o. (key, o))
        (find_by_id-head t key f j x.unique _ (entered_function s j f key x)
          (entered_key s j f key x) (ap c_str (entered_unique s j f key x ∙ stored))))
