-- ===== src/Server/Take/RoundRobin.antt =====
-- gearmand_con.cc: `gearman_server_job_take` under round robin, where the loop reads the next worker
-- before it moves the current one to the end of the list.
use gearmand.Prelude.{
  ℕ, zero, suc, ◌≡◌, ◌≢◌, refl, sym, ◌∙◌, true, false, none, some, List, [], ◌∷◌, ◌++◌, remove,
  arith,
}
use gearmand.Server.State.{Server, Priority, set_con}
use gearmand.Server.Take.{
  scan, scan_all, job_take, skips, chain, first_ready, rotate, next_after, priorities,
}

-- Two workers of the connection, both with jobs of this priority, and all of those for later.
pub record IsWaiting (now : ℕ) (s : Server) (con : ℕ) (p : Priority) (a b : ℕ) : Type 0 where
  pub turns : s.round_robin ≡ true
  pub differ : a ≢ b
  pub both : (s.cons con).worker_list ≡ a ∷ b ∷ []
  pub looked_at : skips s p a ≡ false
  pub looked_at_too : skips s p b ≡ false
  pub later : first_ready now s (chain s p a) ≡ none
  pub later_too : first_ready now s (chain s p b) ≡ none

turned : Server → ℕ → ℕ → Server
turned s con a =
    set_con s con
      (record (s.cons con) { worker_list = remove a (s.cons con).worker_list ++ a ∷ [] })

first_ready-turned :
    (now : ℕ) (s : Server) (con a : ℕ) (js : List ℕ)
    → first_ready now (turned s con a) js ≡ first_ready now s js
unfolding turned first_ready
first_ready-turned now s con a [] = refl
first_ready-turned now s con a (j ∷ js) = ground (arith, first_ready-turned now s con a js)

turned-IsWaiting :
    {now : ℕ} {s : Server} {con : ℕ} {p : Priority} {a b : ℕ}
    → IsWaiting now s con p a b
    → IsWaiting now (turned s con a) con p b a
unfolding turned remove
turned-IsWaiting {now} {s} {con} {p} {a} {b} h = record {
  turns = h.turns;
  differ = λ e. h.differ (sym e);
  both = ground arith;
  looked_at = h.looked_at_too;
  looked_at_too = h.looked_at;
  later = first_ready-turned now s con a (chain s p b) ∙ h.later_too;
  later_too = first_ready-turned now s con a (chain s p a) ∙ h.later;
}

rotate-turned : (s : Server) (con a : ℕ) → s.round_robin ≡ true → rotate s con a ≡ turned s con a
unfolding rotate turned
rotate-turned s con a e = simp e

-- A round of the loop whose worker has jobs, but none that may run.
pub scan-waits :
    (fuel now : ℕ) (s : Server) (con : ℕ) (p : Priority) (w : ℕ)
    → skips s p w ≡ false
    → first_ready now s (chain s p w) ≡ none
    → scan (suc fuel) now s con p (some w)
      ≡ scan fuel now (rotate s con w) con p (next_after w (s.cons con).worker_list)
unfolding scan
scan-waits fuel now s con p w e f = rw (e, scan, f)

next_after-head : (a b : ℕ) (ws : List ℕ) → next_after a (a ∷ b ∷ ws) ≡ some b
unfolding next_after
next_after-head a b ws = ground arith

scan-waiting :
    (fuel now : ℕ) (s : Server) (con : ℕ) (p : Priority) (a b : ℕ)
    → IsWaiting now s con p a b
    → scan fuel now s con p (some a) ≡ none
unfolding scan
scan-waiting zero now s con p a b h = refl
scan-waiting (suc fuel) now s con p a b h =
    scan-waits fuel now s con p a h.looked_at h.later
    ∙ rw (h.both, next_after-head a b [], rotate-turned s con a h.turns)
        (scan-waiting fuel now (turned s con a) con p b a (turned-IsWaiting h))

scan_all-hangs :
    (fuel now : ℕ) (s : Server) (con a b : ℕ)
    → IsWaiting now s con Priority.high a b
    → scan_all fuel now s con priorities ≡ none
unfolding scan_all
scan_all-hangs fuel now s con a b h =
    rw (h.both, scan-waiting fuel now s con Priority.high a b h, scan_all)

-- With round robin, for a connection with two workers that both have high-priority jobs, all of
-- those for later, no fuel is enough for `gearman_server_job_take`: its loop never ends.
pub job_take-hangs :
    (fuel now : ℕ) (s : Server) (con a b : ℕ)
    → IsWaiting now s con Priority.high a b
    → job_take fuel now s con ≡ none
unfolding job_take
job_take-hangs zero now s con a b h = refl
job_take-hangs (suc fuel) now s con a b h = rw (scan_all-hangs fuel now s con a b h, job_take)
