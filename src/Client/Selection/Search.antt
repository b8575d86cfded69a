-- ===== src/Client/Selection/Search.antt =====
-- server_selection.cc: what the binary search finds in a ring that is in order.
use gearmand.Prelude.{
  ℕ, zero, suc, ◌+◌, ◌-◌, ◌/◌, ◌<◌, ◌≤◌, ◌≡◌, refl, true, false, some, [], ◌∷◌, List, length,
  get_elem?, ltb, arith, Bool-cases, inl, inr, ltb→lt, ltb→le, lt→ltb,
}
use gearmand.Client.Selection.{KetamaPoint, AllPoints, IsSorted, is_below, search_point}

-- Points that are no smaller than `x`: one below the hash puts `x` below it.
least_below :
    (ring : List KetamaPoint) (x h j : ℕ)
    → AllPoints (λ q. x ≤ q.point) ring
    → is_below ring h j ≡ true
    → x < h
unfolding is_below
least_below [] x h j a b = ground arith
least_below (p ∷ ps) x h zero a b = ground arith
least_below (p ∷ ps) x h (suc j) a b = least_below ps x h j a.1 b

is_below_mono :
    (ring : List KetamaPoint) (h i j : ℕ)
    → IsSorted ring
    → i ≤ j
    → is_below ring h j ≡ true
    → is_below ring h i ≡ true
unfolding is_below
is_below_mono [] h i j s l b = ground arith
is_below_mono (p ∷ ps) h zero zero s l b = b
is_below_mono (p ∷ ps) h zero (suc j) s l b = lt→ltb p.point h (least_below ps p.point h j s.0 b)
is_below_mono (p ∷ ps) h (suc i) zero s l b = absurd (omega arith)
is_below_mono (p ∷ ps) h (suc i) (suc j) s l b = is_below_mono ps h i j s.1 (omega arith) b

is_below-false :
    (ring : List KetamaPoint) (h i j : ℕ)
    → IsSorted ring
    → i ≤ j
    → is_below ring h i ≡ false
    → is_below ring h j ≡ false
is_below-false ring h i j s l b = elim (Bool-cases (is_below ring h j)) [
  | inl e ↦ cc (is_below_mono ring h i j s l e)
  | inr e ↦ e
]

-- The place where the points that are not below the hash begin.
pub record Splits (ring : List KetamaPoint) (h r : ℕ) : Type 0 where
  pub within : r ≤ length ring
  pub before : (i : ℕ) → i < r → is_below ring h i ≡ true
  pub behind : (i : ℕ) → r ≤ i → is_below ring h i ≡ false

pub search_point-Splits :
    (rounds : ℕ) (ring : List KetamaPoint) (h low high : ℕ)
    → IsSorted ring
    → high ≤ low + rounds
    → low ≤ high
    → high ≤ length ring
    → ((i : ℕ) → i < low → is_below ring h i ≡ true)
    → ((i : ℕ) → high ≤ i → is_below ring h i ≡ false)
    → Splits ring h (search_point rounds ring h low high)
unfolding search_point
search_point-Splits zero ring h low high s f l n b a = record {
  within = omega arith;
  before = b;
  behind = λ i q. a i (omega arith);
}
search_point-Splits (suc rounds) ring h low high s f l n b a = elim (Bool-cases (ltb low high)) [
  | inr e ↦
      rw (e, search_point)
        (record {
          within = omega arith;
          before = b;
          behind = λ i q. a i (omega (arith, ltb→le low high e));
        })
  | inl e ↦
      let mid : ℕ = low + (high - low) / 2 in
      let room : low < high = ltb→lt low high e in
      rw (e, search_point)
        (elim (Bool-cases (is_below ring h mid)) [
          | inl t ↦ rw t (
              search_point-Splits rounds ring h (mid + 1) high s (omega arith) (omega arith) n
                (λ i q. is_below_mono ring h i mid s (omega arith) t) a)
          | inr t ↦ rw t (
              search_point-Splits rounds ring h low mid s (omega arith) (omega arith) (omega arith)
                b (λ i q. is_below-false ring h mid i s q t))
        ])
]

get_elem?-below :
    (ring : List KetamaPoint) (h i : ℕ) {p : KetamaPoint}
    → get_elem? ring i ≡ some p
    → is_below ring h i ≡ ltb p.point h
unfolding is_below
get_elem?-below ring h i e = rw (e, is_below)

pub get_elem?-lt :
    (ring : List KetamaPoint) (h i : ℕ) {p : KetamaPoint}
    → get_elem? ring i ≡ some p
    → is_below ring h i ≡ true
    → p.point < h
get_elem?-lt ring h i {p} e b = ltb→lt p.point h (cc (get_elem?-below ring h i e))

pub get_elem?-ge :
    (ring : List KetamaPoint) (h i : ℕ) {p : KetamaPoint}
    → get_elem? ring i ≡ some p
    → is_below ring h i ≡ false
    → h ≤ p.point
get_elem?-ge ring h i {p} e b = ltb→le p.point h (cc (get_elem?-below ring h i e))

least_get :
    (ring : List KetamaPoint) (x j : ℕ) {q : KetamaPoint}
    → AllPoints (λ q. x ≤ q.point) ring
    → get_elem? ring j ≡ some q
    → x ≤ q.point
least_get [] x j a e = cc
least_get (p ∷ ps) x zero a e = ground arith
least_get (p ∷ ps) x (suc j) a e = least_get ps x j a.1 e

-- In a sorted ring a place behind another has no smaller point.
pub get_elem?-IsSorted :
    (ring : List KetamaPoint) (i j : ℕ) {p q : KetamaPoint}
    → IsSorted ring
    → i ≤ j
    → get_elem? ring i ≡ some p
    → get_elem? ring j ≡ some q
    → p.point ≤ q.point
get_elem?-IsSorted [] i j s l e f = cc
get_elem?-IsSorted (r ∷ ps) zero zero s l e f = ground arith
get_elem?-IsSorted (r ∷ ps) zero (suc j) s l e f =
    let a = least_get ps r.point j s.0 f in ground arith
get_elem?-IsSorted (r ∷ ps) (suc i) zero s l e f = absurd (omega arith)
get_elem?-IsSorted (r ∷ ps) (suc i) (suc j) s l e f =
    get_elem?-IsSorted ps i j s.1 (omega arith) e f

-- No point stands behind the end.
pub beyond : (ring : List KetamaPoint) (h i : ℕ) → length ring ≤ i → is_below ring h i ≡ false
unfolding is_below
beyond [] h i l = refl
beyond (p ∷ ps) h zero l = absurd (omega arith)
beyond (p ∷ ps) h (suc i) l = beyond ps h i (omega arith)
