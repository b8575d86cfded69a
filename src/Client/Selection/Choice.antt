-- ===== src/Client/Selection/Choice.antt =====
-- server_selection.cc: which connection `client_select_connection_by_key` answers.
use mathlib.Core.List.{Mem}
use mathlib.Core.Logic.{∥∥₁_elim}
use native.Mathlib.Bridge.{le_prop}
use mathlib.Core.Path.{subst}
use gearmand.Prelude.{
  ℕ, zero, suc, ◌+◌, ◌-◌, ◌%◌, ◌^◌, ◌<◌, ◌≤◌, ◌≡◌, ◌⊎◌, sym, true, none, some, [], ◌∷◌, List,
  length, get_elem?, ltb, ◌==◌, if◌then◌else◌, arith, Bool-cases, inl, inr, ltb→lt, ltb→le,
}
use gearmand.Protocol.Packet.{Bytes}
use gearmand.Client.Connection.{Connection, is_state_none}
use gearmand.Client.Selection.{KetamaPoint, IsSorted, Library, build_continuum, all_points}
use gearmand.Client.Selection.Search.{Splits, get_elem?-lt, get_elem?-ge, get_elem?-IsSorted}
use gearmand.Client.Selection.Turn.{TakenAt, round_place, round_of}
use gearmand.Client.Selection.Points.{mem-IsAt, get_elem?-mem, mem_ring, point-lt}

-- How far a point lies behind the hash on the ring of 32-bit numbers.
abbrev pub distance : ℕ → ℕ → ℕ
distance hash point = (point + 2 ^ 32 - hash) % 2 ^ 32

-- Two places of the loop, of which the first comes no later: on the same side of `low` in their
-- order, or the second behind the end.
abbrev InTurn : ℕ → ℕ → ℕ → Type 0
InTurn low i j = (low ≤ i) × (i ≤ j) ⊎ ((low ≤ i) × (j < low) ⊎ (i ≤ j) × (j < low))

abbrev place : ℕ → ℕ → ℕ → ℕ
place start k n = if ltb (start + k) n then start + k else start + k - n

abbrev pub wrapped : ℕ → ℕ → ℕ
wrapped low n = if low == n then 0 else low

places-InTurn :
    (low n k m : ℕ)
    → low ≤ n
    → k ≤ m
    → m < n
    → InTurn low (place (wrapped low n) k n) (place (wrapped low n) m n)
places-InTurn low n k m b l u = elim (Bool-cases (low == n)) [
  | inl e ↦ inr (inr (ground arith, ground arith))
  | inr e ↦ elim (Bool-cases (ltb (low + m) n)) [
    | inl a ↦ inl (ground arith, ground arith)
    | inr a ↦ elim (Bool-cases (ltb (low + k) n)) [
      | inl c ↦ inr (inl (ground arith, ground arith))
      | inr c ↦ inr (inr (ground arith, ground arith))
    ]
  ]
]

module _ (ring : List KetamaPoint) (h low : ℕ) (s : IsSorted ring) (parts : Splits ring h low) where
  behind_lem : (i : ℕ) (p : KetamaPoint) → get_elem? ring i ≡ some p → low ≤ i → h ≤ p.point
  behind_lem i p e l = get_elem?-ge ring h i e (parts.behind i l)

  before_lem : (i : ℕ) (p : KetamaPoint) → get_elem? ring i ≡ some p → i < low → p.point < h
  before_lem i p e l = get_elem?-lt ring h i e (parts.before i l)

  -- Of two places that the loop comes to, the first one is nearer to the hash.
  nearer_place :
      (i j : ℕ) (p q : KetamaPoint)
      → get_elem? ring i ≡ some p
      → get_elem? ring j ≡ some q
      → h < 2 ^ 32
      → p.point < 2 ^ 32
      → q.point < 2 ^ 32
      → InTurn low i j
      → distance h p.point ≤ distance h q.point
  nearer_place i j p q e f hb pb qb (inl (a, b)) =
      omega (arith, behind_lem i p e a, get_elem?-IsSorted ring i j s b e f)
  nearer_place i j p q e f hb pb qb (inr (inl (a, b))) =
      omega (arith, behind_lem i p e a, before_lem j q f b)
  nearer_place i j p q e f hb pb qb (inr (inr (a, b))) =
      omega (arith, before_lem j q f b, get_elem?-IsSorted ring i j s a e f)

  -- The same of two rounds.
  nearer_round :
      (k m : ℕ) (p q : KetamaPoint)
      → k ≤ m
      → m < length ring
      → get_elem? ring ((wrapped low (length ring) + k) % length ring) ≡ some p
      → get_elem? ring ((wrapped low (length ring) + m) % length ring) ≡ some q
      → h < 2 ^ 32
      → p.point < 2 ^ 32
      → q.point < 2 ^ 32
      → distance h p.point ≤ distance h q.point
  nearer_round k m p q l u e f hb pb qb =
      let n = length ring in
      let start : wrapped low n < n = ground (arith, parts.within) in
      nearer_place ((wrapped low n + k) % n) ((wrapped low n + m) % n) p q e f hb pb qb (
        subst (λ i. InTurn low i ((wrapped low n + m) % n))
          (sym (round_place (wrapped low n) k n start (omega arith)))
          (subst (λ j. InTurn low (place (wrapped low n) k n) j)
            (sym (round_place (wrapped low n) m n start u))
            (places-InTurn low n k m parts.within l u)))

-- What a search of a key answers stands for a point that is nearest to the key's hash.
pub record IsNearest (lib : Library) (cs : List Connection) (key : Bytes) (c : Connection)
    : Type 0 where
  pub nearest : KetamaPoint
  pub its : nearest.con ≡ c
  pub is_point : Mem nearest (all_points lib cs)
  pub idle : is_state_none c.send_state ≡ true
  pub least :
      (q : KetamaPoint)
      → Mem q (all_points lib cs)
      → is_state_none q.con.send_state ≡ true
      → distance (lib.md5 key) nearest.point ≤ distance (lib.md5 key) q.point

pub place_within :
    (ring : List KetamaPoint) (i : ℕ) {p : KetamaPoint}
    → get_elem? ring i ≡ some p
    → i < length ring
place_within [] i e = cc
place_within (p ∷ ps) zero e = omega arith
place_within (p ∷ ps) (suc i) e = omega (arith, place_within ps i e)

pub ring_nonempty :
    (ring : List KetamaPoint) (i : ℕ) {p : KetamaPoint}
    → get_elem? ring i ≡ some p
    → 0 < length ring
ring_nonempty ring i e = omega (arith, place_within ring i e)

module _ (lib : Library) (cs : List Connection) where
  abbrev ring : List KetamaPoint
  ring = build_continuum lib cs

  pub ring-IsSorted : IsSorted ring
  unfolding build_continuum
  ring-IsSorted = lib.sort-IsSorted (all_points lib cs)

  -- No round of the loop comes to a nearer point that may be taken.
  no_nearer :
      (h low i : ℕ) (c : Connection) (q : KetamaPoint)
      → IsSorted ring
      → Splits ring h low
      → (t : TakenAt ring none (wrapped low (length ring)) 0 (length ring) c) → h < 2 ^ 32
      → t.taken.point < 2 ^ 32
      → q.point < 2 ^ 32
      → get_elem? ring i ≡ some q
      → is_state_none q.con.send_state ≡ true
      → distance h t.taken.point ≤ distance h q.point
  no_nearer h low i c q s parts t hb tb qb e idle =
      let start : wrapped low (length ring) < length ring =
        ground (arith, parts.within, ring_nonempty ring i e) in
      let (k, u, at) =
        round_of (wrapped low (length ring)) (length ring) i start (place_within ring i e) in
      let stands : get_elem? ring ((wrapped low (length ring) + k) % length ring) ≡ some q =
        rw at e in
      elim (Bool-cases (ltb k t.round)) [
        | inl b ↦ cc (t.first k q (omega arith) (ltb→lt k t.round b) stands)
        | inr b ↦
            nearer_round ring h low s parts t.round k t.taken q (ltb→le k t.round b) u t.stands
              stands hb tb qb
      ]

  pub taken_least :
      (key : Bytes) (low : ℕ) (c : Connection)
      → Splits ring (lib.md5 key) low
      → (t : TakenAt ring none (wrapped low (length ring)) 0 (length ring) c) → (q : KetamaPoint)
      → Mem q (all_points lib cs)
      → is_state_none q.con.send_state ≡ true
      → distance (lib.md5 key) t.taken.point ≤ distance (lib.md5 key) q.point
  taken_least key low c parts t q m idle =
      let mine : Mem t.taken (all_points lib cs) =
        (mem_ring lib cs t.taken).0
          (get_elem?-mem ring ((wrapped low (length ring) + t.round) % length ring) t.stands) in
      ∥∥₁_elim (mem-IsAt ring ((mem_ring lib cs q).1 m)) le_prop (λ (i, e).
        no_nearer (lib.md5 key) low i c q (ring-IsSorted) parts t (lib.md5_u32 key)
          (point-lt lib cs t.taken mine) (point-lt lib cs q m) e idle)
