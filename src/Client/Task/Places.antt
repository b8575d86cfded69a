-- ===== src/Client/Task/Places.antt =====
-- run.cc: the places of the list of connections that the loop of sends has not come to yet.
use gearmand.Prelude.{
  ℕ, ◌<◌, ◌≤◌, ◌≡◌, refl, true, false, some, List, [], ◌∷◌, arith, inl, inr, Bool-cases, ◌==◌,
  ==→eq, if◌then◌else◌, length, contains,
}
use gearmand.Client.Connection.{Connection}
use gearmand.Client.Task.{find_con, change_con}
use gearmand.Client.Task.Submit.{first_idle, behind}

abbrev pub addresses : List Connection → List ℕ
addresses [] = []
addresses (c ∷ cs) = c.address ∷ addresses cs

abbrev pub Distinct : List ℕ → Type 0
Distinct [] = Unit
Distinct (n ∷ ns) = (contains n ns ≡ false) × Distinct ns

unfoldable pub rest_behind : ℕ → List ℕ → List ℕ
rest_behind a [] = []
rest_behind a (n ∷ ns) = let rest = rest_behind a ns in if n == a then ns else rest

pub rest_behind-contained :
    (a b : ℕ) (ns : List ℕ) → contains b (rest_behind a ns) ≡ true → contains b ns ≡ true
unfolding contains rest_behind
rest_behind-contained a b [] h = h
rest_behind-contained a b (n ∷ ns) h = ground (arith, rest_behind-contained a b ns)

pub rest_behind-lt :
    (b : ℕ) (ns : List ℕ) → contains b ns ≡ true → length (rest_behind b ns) < length ns
unfolding contains rest_behind
rest_behind-lt b [] h = cc
rest_behind-lt b (n ∷ ns) h = ground (arith, rest_behind-lt b ns)

not_itself : (n b : ℕ) (ns : List ℕ) → contains n ns ≡ false → contains b ns ≡ true → n == b ≡ false
not_itself n b ns f t = elim (Bool-cases (n == b)) [
  | inl e ↦ let same : contains b ns ≡ false = rw (← ==→eq n b e) f in cc
  | inr e ↦ e
]

-- Behind a place that lies behind another there are fewer places.
pub rest_behind-shrinks :
    (a b : ℕ) (ns : List ℕ)
    → Distinct ns
    → contains b (rest_behind a ns) ≡ true
    → length (rest_behind b ns) < length (rest_behind a ns)
unfolding contains rest_behind
rest_behind-shrinks a b [] d h = cc
rest_behind-shrinks a b (n ∷ ns) d h = elim (Bool-cases (n == a)) [
  | inl e ↦
      let its : contains b ns ≡ true = rw e at h in
      rw (e, not_itself n b ns d.0 its) (rest_behind-lt b ns its)
  | inr e ↦
      let its : contains b (rest_behind a ns) ≡ true = rw e at h in
      rw (e, not_itself n b ns d.0 (rest_behind-contained a b ns its))
        (rest_behind-shrinks a b ns d.1 its)
]

pub addresses-behind :
    (a : ℕ) (cs : List Connection) → addresses (behind a cs) ≡ rest_behind a (addresses cs)
unfolding behind rest_behind
addresses-behind a [] = refl
addresses-behind a (c ∷ cs) = ground (arith, addresses-behind a cs)

pub first_idle-contained :
    (cs : List Connection) (b : ℕ) → first_idle cs ≡ some b → contains b (addresses cs) ≡ true
unfolding first_idle contains
first_idle-contained [] b e = cc
first_idle-contained (c ∷ cs) b e = ground (arith, first_idle-contained cs b)

pub addresses-change_con :
    (a : ℕ) (f : Connection → Connection) (cs : List Connection)
    → ((c : Connection) → c.address ≡ a → (f c).address ≡ a)
    → addresses (change_con a f cs) ≡ addresses cs
addresses-change_con a f [] k = refl
addresses-change_con a f (c ∷ cs) k = elim (Bool-cases (c.address == a)) [
  | inl e ↦
      rw (e, addresses-change_con a f cs k, k c (==→eq c.address a e), ==→eq c.address a e) refl
  | inr e ↦ rw (e, addresses-change_con a f cs k) refl
]

pub find_con-address :
    (cs : List Connection) (a : ℕ) (c : Connection) → find_con a cs ≡ some c → c.address ≡ a
find_con-address [] a c e = cc
find_con-address (d ∷ cs) a c e = ground (arith, find_con-address cs a c)

pub rest_behind-le : (a : ℕ) (ns : List ℕ) → length (rest_behind a ns) ≤ length ns
unfolding rest_behind
rest_behind-le a [] = omega arith
rest_behind-le a (n ∷ ns) = ground (arith, rest_behind-le a ns)
