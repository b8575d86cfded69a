-- ===== src/Server/Take/Select.antt =====
-- gearmand_con.cc: which job `gearmand_server_job_take` finds without round robin.
use gearmand.Prelude.{
  ℕ, zero, suc, ◌<◌, ◌≡◌, inl, inr, refl, sym, ap, ◌∙◌, true, false, Option, none, some, List, [],
  ◌∷◌, ◌++◌, length, contains, head?, ◌==◌, Bool-cases, Option-cases, arith,
}
use gearmand.Server.State.{Server, Priority}
use gearmand.Server.Take.{
  scan, scan_all, start_scan, skips, chain, first_ready, rotate, next_after, assign,
}
use gearmand.Server.Take.RoundRobin.{scan-waits}
use mathlib.Core.List.{append_assoc}

-- The first of the workers that has a job to run at this priority, with its first such job.
unfoldable pub choose_at : ℕ → Server → Priority → List ℕ → Option (ℕ × ℕ)
choose_at now s p [] = none
choose_at now s p (w ∷ ws) = elim (skips s p w) [
  | true ↦ choose_at now s p ws
  | false ↦ elim (first_ready now s (chain s p w)) [
    | some j ↦ some (w, j)
    | none ↦ choose_at now s p ws
  ]
]

-- The choice over the priorities, the highest first.
unfoldable pub choose : ℕ → Server → List ℕ → List Priority → Option (ℕ × ℕ × Priority)
unfolding choose_at
choose now s ws [] = none
choose now s ws (p ∷ ps) = elim (choose_at now s p ws) [
  | some (w, j) ↦ some (w, j, p)
  | none ↦ choose now s ws ps
]

abbrev pub given_at : Server → Priority → Option (ℕ × ℕ) → Server × Option ℕ
given_at s p none = (s, none)
given_at s p (some (w, j)) = (assign s w j p, some j)

abbrev pub given : Server → Option (ℕ × ℕ × Priority) → Server × Option ℕ
given s none = (s, none)
given s (some (w, j, p)) = (assign s w j p, some j)

-- No worker stands twice on the list.
abbrev pub Distinct : List ℕ → Type 0
Distinct [] = Unit
Distinct (x ∷ xs) = (contains x xs ≡ false) × Distinct xs

contains-middle : (w : ℕ) (pre rest : List ℕ) → contains w (pre ++ w ∷ rest) ≡ true
unfolding contains
contains-middle w [] rest = ground arith
contains-middle w (x ∷ pre) rest = ground (arith, contains-middle w pre rest)

next_after-middle :
    (w : ℕ) (pre rest : List ℕ)
    → Distinct (pre ++ w ∷ rest)
    → next_after w (pre ++ w ∷ rest) ≡ head? rest
unfolding next_after
next_after-middle w [] rest d = ground arith
next_after-middle w (x ∷ pre) rest d = elim (Bool-cases (x == w)) [
  | inl e ↦ absurd (ground (arith, contains-middle w pre rest))
  | inr n ↦ rw n (next_after-middle w pre rest d.1)
]

rotate_idle : (s : Server) (con w : ℕ) → s.round_robin ≡ false → rotate s con w ≡ s
unfolding rotate
rotate_idle s con w e = simp e

module _ (now : ℕ) (s : Server) (con : ℕ) (p : Priority) (idle : s.round_robin ≡ false) where
  scan-chooses :
      (fuel : ℕ) (pre ws : List ℕ)
      → (s.cons con).worker_list ≡ pre ++ ws
      → Distinct (pre ++ ws)
      → length ws < fuel
      → scan fuel now s con p (head? ws) ≡ some (given_at s p (choose_at now s p ws))
  unfolding scan choose_at
  scan-chooses zero pre ws e d h = absurd (omega arith)
  scan-chooses (suc fuel) pre [] e d h = refl
  scan-chooses (suc fuel) pre (w ∷ ws) e d h =
      let next : next_after w (s.cons con).worker_list ≡ head? ws =
        rw e (next_after-middle w pre ws d) in
      let assoc = append_assoc pre (w ∷ []) ws in
      let rest = scan-chooses fuel (pre ++ w ∷ []) ws (e ∙ sym assoc) (rw assoc d) (omega arith) in
      elim (Bool-cases (skips s p w)) [
        | inl skip ↦ rw (skip, scan, choose_at, next) rest
        | inr look ↦ elim (Option-cases (first_ready now s (chain s p w))) [
          | inl later ↦
              scan-waits fuel now s con p w look later
              ∙ rw (rotate_idle s con w idle, next, look, choose_at, later, choose_at) rest
          | inr (j, found) ↦ rw (look, scan, choose_at, found, rotate_idle s con w idle)
        ]
      ]

abbrev workers_of : Server → ℕ → List ℕ
workers_of s con = (s.cons con).worker_list

choose_at-start :
    (fuel now : ℕ) (s : Server) (con : ℕ) (p : Priority)
    → s.round_robin ≡ false
    → Distinct (workers_of s con)
    → length (workers_of s con) < fuel
    → start_scan fuel now s con p ≡ some (given_at s p (choose_at now s p (workers_of s con)))
choose_at-start fuel now s con p idle d h =
    scan-chooses now s con p idle fuel [] (workers_of s con) refl d h

-- Without round robin, and with no worker twice on the connection's list, the two loops of
-- `gearman_server_job_take` end, for any fuel beyond the number of the connection's workers, and
-- what they hand out is the choice: of the first priority at which a worker has a job to run, the
-- first such worker's first such job.
pub scan_all-chooses :
    (fuel now : ℕ) (s : Server) (con : ℕ) (ps : List Priority)
    → s.round_robin ≡ false
    → Distinct (s.cons con).worker_list
    → length (s.cons con).worker_list < fuel
    → scan_all fuel now s con ps ≡ some (given s (choose now s (s.cons con).worker_list ps))
unfolding scan_all choose
scan_all-chooses fuel now s con [] idle d h = refl
scan_all-chooses fuel now s con (p ∷ ps) idle d h =
    let start = choose_at-start fuel now s con p idle d h in
    let rest = scan_all-chooses fuel now s con ps idle d h in
    elim (Option-cases (choose_at now s p (workers_of s con))) [
      | inl e ↦ rw (start ∙ ap (λ c. some (given_at s p c)) e, scan_all, e, choose) rest
      | inr (x, e) ↦ rw (start ∙ ap (λ c. some (given_at s p c)) e, scan_all, e, choose)
    ]
