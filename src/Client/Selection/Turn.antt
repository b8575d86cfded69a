-- ===== src/Client/Selection/Turn.antt =====
-- server_selection.cc: the last loop goes once round the ring and takes the first connection that it
-- may take.
use gearmand.Prelude.{
  ℕ, zero, suc, ◌+◌, ◌-◌, ◌%◌, ◌<◌, ◌≤◌, ◌≡◌, refl, true, false, Option, none, some, [], ◌∷◌, List,
  length, get_elem?, ltb, if◌then◌else◌, arith, Bool-cases, inl, inr, ◌∙◌, ltb→lt, ltb→le,
}
use native.Mathlib.Nat.{mod-eq_of_lt, mod-eq-sub-mod}
use gearmand.Client.Connection.{Connection}
use gearmand.Client.Selection.{KetamaPoint, is_eligible, first_available}

pub get_elem?-total :
    (ring : List KetamaPoint) (i : ℕ)
    → i < length ring
    → (p : KetamaPoint) × (get_elem? ring i ≡ some p)
get_elem?-total [] i h = absurd (omega arith)
get_elem?-total (p ∷ ps) zero h = (p, refl)
get_elem?-total (p ∷ ps) (suc i) h = get_elem?-total ps i (omega arith)

-- No place that a round looks at may be taken.
abbrev pub NoneIn : List KetamaPoint → Option ℕ → ℕ → ℕ → ℕ → Type 0
NoneIn ring after start lo hi =
    (k : ℕ) (p : KetamaPoint)
    → lo ≤ k
    → k < hi
    → get_elem? ring ((start + k) % length ring) ≡ some p
    → is_eligible after p.con ≡ false

-- The round that ended the loop.
pub record TakenAt (ring : List KetamaPoint) (after : Option ℕ) (start lo hi : ℕ) (c : Connection)
    : Type 0 where
  pub round : ℕ
  pub taken : KetamaPoint
  pub at_least : lo ≤ round
  pub less : round < hi
  pub stands : get_elem? ring ((start + round) % length ring) ≡ some taken
  pub its : taken.con ≡ c
  pub eligible : is_eligible after taken.con ≡ true
  pub first : NoneIn ring after start lo round

abbrev pub Outcome : List KetamaPoint → Option ℕ → ℕ → ℕ → ℕ → Option Connection → Type 0
Outcome ring after start lo hi none = NoneIn ring after start lo hi
Outcome ring after start lo hi (some c) = TakenAt ring after start lo hi c

here_not :
    (ring : List KetamaPoint) (after : Option ℕ) (start seen k : ℕ) (p q : KetamaPoint)
    → get_elem? ring ((start + seen) % length ring) ≡ some p
    → is_eligible after p.con ≡ false
    → get_elem? ring ((start + k) % length ring) ≡ some q
    → k ≡ seen
    → is_eligible after q.con ≡ false
here_not ring after start seen k p q e n g same =
    let again : get_elem? ring ((start + seen) % length ring) ≡ some q = rw (← same) g in
    let eq : p ≡ q = cc in rw (← eq) n

more_rounds :
    (ring : List KetamaPoint) (after : Option ℕ) (start left seen : ℕ) (p : KetamaPoint)
    (o : Option Connection)
    → get_elem? ring ((start + seen) % length ring) ≡ some p
    → is_eligible after p.con ≡ false
    → Outcome ring after start (seen + 1) ((seen + 1) + left) o
    → Outcome ring after start seen (seen + suc left) o
more_rounds ring after start left seen p none e n h = λ k q l u g. elim (Bool-cases (ltb seen k)) [
  | inl d ↦ h k q (ground arith) (omega arith) g
  | inr d ↦ here_not ring after start seen k p q e n g (ground arith)
]
more_rounds ring after start left seen p (some c) e n h = record {
  round = h.round;
  taken = h.taken;
  at_least = omega (arith, h.at_least);
  less = omega (arith, h.less);
  stands = h.stands;
  its = h.its;
  eligible = h.eligible;
  first = λ k q l u g. elim (Bool-cases (ltb seen k)) [
    | inl d ↦ h.first k q (ground arith) u g
    | inr d ↦ here_not ring after start seen k p q e n g (ground arith)
  ];
}

round_within : (start seen n : ℕ) → 0 < n → (start + seen) % n < n
round_within start seen n h = grind arith

pub first_available-Outcome :
    (ring : List KetamaPoint) (after : Option ℕ) (start left seen : ℕ)
    → 0 < length ring
    → Outcome ring after start seen (seen + left) (first_available ring after start left seen)
unfolding first_available
first_available-Outcome ring after start zero seen h = λ k q l u g. absurd (omega arith)
first_available-Outcome ring after start (suc left) seen h =
    let (p, e) =
      get_elem?-total ring ((start + seen) % length ring)
        (round_within start seen (length ring) h) in
    rw (e, first_available)
      (elim (Bool-cases (is_eligible after p.con)) [
        | inl y ↦ rw y (record {
          round = seen;
          taken = p;
          at_least = omega arith;
          less = omega arith;
          stands = e;
          its = refl;
          eligible = y;
          first = λ k q l u g. absurd (omega arith);
        })
        | inr n ↦ rw n (
            more_rounds ring after start left seen p
              (first_available ring after start left (seen + 1)) e n
              (first_available-Outcome ring after start left (seen + 1) h))
      ])

-- The place of a round, without the remainder.
pub round_place :
    (start k n : ℕ)
    → start < n
    → k < n
    → (start + k) % n ≡ (if ltb (start + k) n then start + k else start + k - n)
round_place start k n s h = elim (Bool-cases (ltb (start + k) n)) [
  | inl e ↦ rw (e, mod-eq_of_lt (ltb→lt (start + k) n e)) refl
  | inr e ↦ rw e (mod-eq-sub-mod (ltb→le (start + k) n e) ∙ mod-eq_of_lt (omega arith))
]

-- The round that looks at a place.
pub round_of : (start n i : ℕ) → start < n → i < n → (k : ℕ) × (k < n) × ((start + k) % n ≡ i)
round_of start n i s h = elim (Bool-cases (ltb i start)) [
  | inl e ↦ (
    i + n - start,
    ground arith,
    rw (round_place start (i + n - start) n s (ground arith)) (ground arith),
  )
  | inr e ↦ (
    i - start,
    ground arith,
    rw (round_place start (i - start) n s (ground arith)) (ground arith),
  )
]
