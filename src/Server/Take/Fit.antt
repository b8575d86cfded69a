-- ===== src/Server/Take/Fit.antt =====
-- gearmand_con.cc: the job that a worker's connection is given suits it.
use gearmand.Prelude.{
  refl, ℕ, ◌≡◌, ◌∙◌, ◌<◌, ◌⊎◌, inl, inr, true, Option, none, some, List, [], ◌∷◌, contains,
  Bool-cases, Option-cases, arith, false, ap, sym, length,
}
use gearmand.Server.State.{Server, Priority}
use gearmand.Server.Take.{is_ready, first_ready, skips, chain, assign, scan_all}
use gearmand.Server.Take.Select.{choose, choose_at, given, Distinct, scan_all-chooses}

contains-head : (w : ℕ) (ws : List ℕ) → contains w (w ∷ ws) ≡ true
unfolding contains
contains-head w ws = ground arith

contains-tail : (w x : ℕ) (ws : List ℕ) → contains w ws ≡ true → contains w (x ∷ ws) ≡ true
unfolding contains
contains-tail w x ws h = ground arith

first_ready-IsReady :
    (now : ℕ) (s : Server) (js : List ℕ) (j : ℕ)
    → first_ready now s js ≡ some j
    → (contains j js ≡ true) × (is_ready now (s.jobs j) ≡ true)
unfolding first_ready
first_ready-IsReady now s [] j e = cc
first_ready-IsReady now s (x ∷ xs) j e = elim (Bool-cases (is_ready now (s.jobs x))) [
  | inl ready ↦ ground (arith, contains-head j xs)
  | inr later ↦
      let r = first_ready-IsReady now s xs j (rw (first_ready, later) at e) in
      (contains-tail j x xs r.0, r.1)
]

-- The worker is the connection's, and the job is one of its function's at this priority, not for later.
abbrev pub Fits : ℕ → Server → List ℕ → Priority → ℕ → ℕ → Type 0
Fits now s ws p w j =
    (contains w ws ≡ true) × (contains j (chain s p w) ≡ true) × (is_ready now (s.jobs j) ≡ true)

Fits-behind :
    (now : ℕ) (s : Server) (p : Priority) (x w j : ℕ) (xs : List ℕ)
    → Fits now s xs p w j
    → Fits now s (x ∷ xs) p w j
Fits-behind now s p x w j xs h = (contains-tail w x xs h.0, h.1, h.2)

choose_at-Fits :
    (now : ℕ) (s : Server) (p : Priority) (ws : List ℕ) (w j : ℕ)
    → choose_at now s p ws ≡ some (w, j)
    → Fits now s ws p w j
unfolding choose_at
choose_at-Fits now s p [] w j e = cc
choose_at-Fits now s p (x ∷ xs) w j e = elim (Bool-cases (skips s p x)) [
  | inl skip ↦
      Fits-behind now s p x w j xs (choose_at-Fits now s p xs w j (rw (choose_at, skip) at e))
  | inr look ↦ elim (Option-cases (first_ready now s (chain s p x))) [
    | inl later ↦
        Fits-behind now s p x w j xs
          (choose_at-Fits now s p xs w j (rw (choose_at, look, later) at e))
    | inr (k, found) ↦
        let same : ◌≡◌ {A = Option (ℕ × ℕ)} (some (x, k)) (some (w, j)) =
          (rw (choose_at, look, found) at e) in
        let a : x ≡ w = cc in
        let b : k ≡ j = cc in
        let r = first_ready-IsReady now s (chain s p x) k found in
        rw (← a, ← b) (contains-head x xs, r.0, r.1)
  ]
]

-- Of the priorities up to the choice, those before it have no job to give.
abbrev pub NoneBefore : ℕ → Server → List ℕ → List Priority → Priority → Type 0
NoneBefore now s ws [] p = ⊥
NoneBefore now s ws (q ∷ qs) p =
    (q ≡ p) ⊎ ((choose_at now s q ws ≡ none) × NoneBefore now s ws qs p)

choose-Fits :
    (now : ℕ) (s : Server) (ws : List ℕ) (ps : List Priority) (w j : ℕ) (p : Priority)
    → choose now s ws ps ≡ some (w, j, p)
    → Fits now s ws p w j × NoneBefore now s ws ps p
unfolding choose
choose-Fits now s ws [] w j p e = cc
choose-Fits now s ws (q ∷ qs) w j p e = elim (Option-cases (choose_at now s q ws)) [
  | inl idle ↦
      let r = choose-Fits now s ws qs w j p (rw (choose, idle) at e) in (r.0, inr (idle, r.1))
  | inr ((v, k), found) ↦
      let same : ◌≡◌ {A = Option (ℕ × ℕ × Priority)} (some (v, k, q)) (some (w, j, p)) =
        (rw (choose, found) at e) in
      let a : v ≡ w = cc in
      let b : k ≡ j = cc in
      let c : q ≡ p = cc in (rw (← a, ← b, ← c) (choose_at-Fits now s q ws v k found), inl c)
]

-- How a job was handed out.
abbrev pub HandedOut : ℕ → Server → List ℕ → List Priority → ℕ → Server → Type 0
HandedOut now s ws ps j t =
    (w : ℕ) × (p : Priority) × (Fits now s ws p w j
      × NoneBefore now s ws ps p
      × (t ≡ assign s w j p))

none_given {ℓ} :
    {A : Type ℓ} (t : A) (a : A) (j : ℕ) → ◌≡◌ {A = A × Option ℕ} (a, none) (t, some j) → ⊥
none_given t a j e = let no_job : ◌≡◌ {A = Option ℕ} none (some j) = ap (λ r. r.1) e in cc

some_given {ℓ} :
    {A : Type ℓ} (t a : A) (j k : ℕ)
    → ◌≡◌ {A = A × Option ℕ} (a, some k) (t, some j)
    → (a ≡ t) × (k ≡ j)
some_given t a j k e =
    let job : ◌≡◌ {A = Option ℕ} (some k) (some j) = ap (λ r. r.1) e in (ap (λ r. r.0) e, cc)

module _ (now : ℕ) (s t : Server) (ws : List ℕ) (ps : List Priority) (j : ℕ) where
  given-HandedOut :
      (o : Option (ℕ × ℕ × Priority))
      → choose now s ws ps ≡ o
      → given s o ≡ (t, some j)
      → HandedOut now s ws ps j t
  given-HandedOut none found e = absurd (none_given t s j e)
  given-HandedOut (some (w, k, p)) found e =
      let same = some_given t (assign s w k p) j k e in
      let r = choose-Fits now s ws ps w k p found in
      (w, p, (rw (← same.1) r.0, r.1, rw (← same.1) (sym same.0)))

some_same {ℓ} : {A : Type ℓ} (a b : A) → some a ≡ some b → a ≡ b
some_same a b e = ap (λ o. elim o [ none ↦ a | some x ↦ x ]) e

-- A job that the search hands out without round robin, where no worker stands twice on the
-- connection's list and the fuel exceeds their number, is queued at one of the priorities for a
-- function that a worker of the connection does, and it is not for later; at no priority before
-- that one has any of the workers a job to run; and the state is that in which the job was
-- assigned to the worker.
pub scan_all-HandedOut :
    (fuel now : ℕ) (s t : Server) (con j : ℕ) (ps : List Priority)
    → s.round_robin ≡ false
    → Distinct (s.cons con).worker_list
    → length (s.cons con).worker_list < fuel
    → scan_all fuel now s con ps ≡ some (t, some j)
    → HandedOut now s (s.cons con).worker_list ps j t
scan_all-HandedOut fuel now s t con j ps idle d h e =
    let ws = (s.cons con).worker_list in
    given-HandedOut now s t ws ps j (choose now s ws ps) refl (
      some_same (given s (choose now s ws ps)) (t, some j)
        (sym (scan_all-chooses fuel now s con ps idle d h) ∙ e))
