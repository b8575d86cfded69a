-- ===== src/Client/Selection/Points.antt =====
-- server_selection.cc: the points of the ring are those of the connections, whatever their order.
use mathlib.Core.List.{
  Mem, mem-cons, mem-cons_self, mem-cons_of_mem, not-mem-nil, mem-append, mem-append_left,
  mem-append_right, Mem-prop,
}
use mathlib.Core.List.Perm
use mathlib.Core.Logic.{∥∥₁_elim}
use mathlib.Core.Logic.Or
use native.Mathlib.Bridge.{le_prop}
use mathlib.Core.Path.{subst}
use gearmand.Prelude.{
  ℕ, zero, suc, ◌^◌, ◌<◌, ◌≡◌, ◌↔◌, ap, sym, ◌∙◌, some, [], ◌∷◌, ◌++◌, List, get_elem?, arith,
}
use gearmand.Protocol.Packet.{Bytes}
use gearmand.Client.Connection.{Connection}
use gearmand.Client.Selection.{
  KetamaPoint, AllPoints, Library, chunk_point, server_points, entry, all_points, build_continuum,
}

-- A place of a list holds an element of it.
pub get_elem?-mem :
    (ps : List KetamaPoint) (i : ℕ) {p : KetamaPoint} → get_elem? ps i ≡ some p → Mem p ps
get_elem?-mem [] i e = cc
get_elem?-mem (q ∷ ps) zero e = let same : q ≡ _ = cc in rw same mem-cons_self
get_elem?-mem (q ∷ ps) (suc i) e = mem-cons_of_mem q (get_elem?-mem ps i e)

-- An element stands at a place.
abbrev pub IsAt : KetamaPoint → List KetamaPoint → Type 0
IsAt p ps = ∥ ((i : ℕ) × (get_elem? ps i ≡ some p)) ∥₁

pub mem-IsAt : (ps : List KetamaPoint) {p : KetamaPoint} → Mem p ps → IsAt p ps
mem-IsAt [] m = absurd (not-mem-nil m)
mem-IsAt (q ∷ ps) m =
    Or.elim (hlevel) (mem-cons.0 m) (λ e. ∣ (zero, ap some (sym e)) ∣₁)
      (λ r. ∥∥₁_elim (mem-IsAt ps r) (hlevel) (λ (i, g). ∣ (suc i, g) ∣₁))

pub AllPoints-append :
    (P : KetamaPoint → Type 0) (ps qs : List KetamaPoint)
    → AllPoints P ps
    → AllPoints P qs
    → AllPoints P (ps ++ qs)
AllPoints-append P [] qs a b = b
AllPoints-append P (p ∷ ps) qs a b = (a.0, AllPoints-append P ps qs a.1 b)

pub le_of_mem :
    (n : ℕ) (ps : List KetamaPoint) {p : KetamaPoint}
    → AllPoints (λ q. q.point < n) ps
    → Mem p ps
    → p.point < n
le_of_mem n [] a m = absurd (not-mem-nil m)
le_of_mem n (q ∷ ps) a m = Or.elim le_prop (mem-cons.0 m) (λ e. rw e a.0) (le_of_mem n ps a.1)

module _ (lib : Library) where
  chunk_point-lt : (key : Bytes) (chunk : ℕ) → chunk_point lib key chunk < 2 ^ 32
  unfolding chunk_point
  chunk_point-lt key chunk = omega (arith, lib.signature_byte)

  all_points-lt : (cs : List Connection) → AllPoints (λ q. q.point < 2 ^ 32) (all_points lib cs)
  unfolding all_points server_points
  all_points-lt [] = tt
  all_points-lt (c ∷ cs) =
      AllPoints-append (λ q. q.point < 2 ^ 32) (server_points lib c) (all_points lib cs)
        (search (chunk_point-lt)) (all_points-lt cs)

  pub mem_ring :
      (cs : List Connection) (p : KetamaPoint)
      → Mem p (build_continuum lib cs) ↔ Mem p (all_points lib cs)
  unfolding build_continuum
  mem_ring cs p = Perm.mem_iff (lib.sort-perm (all_points lib cs))

  pub point-lt :
      (cs : List Connection) (p : KetamaPoint) → Mem p (all_points lib cs) → p.point < 2 ^ 32
  point-lt cs p m = le_of_mem (2 ^ 32) (all_points lib cs) (all_points-lt cs) m

  -- A connection's points are on the ring.
  pub has_point :
      (cs : List Connection) (c : Connection) → Mem c cs → Mem (entry lib c 0 0) (all_points lib cs)
  unfolding all_points server_points
  has_point [] c m = absurd (not-mem-nil m)
  has_point (d ∷ cs) c m =
      Or.elim Mem-prop (mem-cons.0 m)
        (λ e. mem-append_left {s = server_points lib d} (all_points lib cs) (rw e mem-cons_self))
        (λ r. mem-append_right (server_points lib d) (has_point cs c r))

  own_con :
      (ps : List KetamaPoint) (cs : List Connection) (c : Connection) (p : KetamaPoint)
      → AllPoints (λ q. q.con ≡ c) ps
      → Mem p ps
      → Mem p.con (c ∷ cs)
  own_con [] cs c p a m = absurd (not-mem-nil m)
  own_con (q ∷ ps) cs c p a m =
      Or.elim Mem-prop (mem-cons.0 m) (λ e. rw (e, a.0) mem-cons_self) (own_con ps cs c p a.1)

  its_points : (c : Connection) → AllPoints (λ q. q.con ≡ c) (server_points lib c)
  unfolding server_points
  its_points c = search

  -- Each point stands for a connection of the list.
  pub point_con :
      (cs : List Connection) (p : KetamaPoint) → Mem p (all_points lib cs) → Mem p.con cs
  unfolding all_points
  point_con [] p m = absurd (not-mem-nil m)
  point_con (c ∷ cs) p m =
      Or.elim Mem-prop (mem-append.0 m)
        (λ own. own_con (server_points lib c) cs c p (its_points c) own)
        (λ r. mem-cons_of_mem c (point_con cs p r))

  -- A point on the ring is one of its connection's points.
  at_home :
      (ps : List KetamaPoint) (c : Connection) (p : KetamaPoint)
      → AllPoints (λ q. q.con ≡ c) ps
      → Mem p (server_points lib c)
      → Mem p ps
      → Mem p (server_points lib p.con)
  at_home [] c p a s m = absurd (not-mem-nil m)
  at_home (q ∷ ps) c p a s m =
      Or.elim Mem-prop (mem-cons.0 m)
        (λ e. subst (λ d. Mem p (server_points lib d)) (sym (ap (λ r. r.con) e ∙ a.0)) s)
        (at_home ps c p a.1 s)

  own_point :
      (cs : List Connection) (p : KetamaPoint)
      → Mem p (all_points lib cs)
      → Mem p (server_points lib p.con)
  unfolding all_points
  own_point [] p m = absurd (not-mem-nil m)
  own_point (c ∷ cs) p m =
      Or.elim Mem-prop (mem-append.0 m)
        (λ own. at_home (server_points lib c) c p (its_points c) own own) (own_point cs p)

  listed_point :
      (cs : List Connection) (c : Connection) (p : KetamaPoint)
      → Mem c cs
      → Mem p (server_points lib c)
      → Mem p (all_points lib cs)
  unfolding all_points
  listed_point [] c p m s = absurd (not-mem-nil m)
  listed_point (d ∷ cs) c p m s =
      Or.elim Mem-prop (mem-cons.0 m)
        (λ e. mem-append_left (all_points lib cs) (subst (λ x. Mem p (server_points lib x)) e s))
        (λ r. mem-append_right (server_points lib d) (listed_point cs c p r s))

  -- A point goes over to each list that has its connection.
  pub point_of :
      (cs ds : List Connection) (p : KetamaPoint)
      → Mem p (all_points lib cs)
      → Mem p.con ds
      → Mem p (all_points lib ds)
  point_of cs ds p m l = listed_point ds p.con p l (own_point cs p m)
