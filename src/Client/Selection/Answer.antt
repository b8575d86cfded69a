-- ===== src/Client/Selection/Answer.antt =====
-- server_selection.cc: what `client_select_connection_by_key` answers, and when it answers none.
use mathlib.Core.List.{Mem}
use mathlib.Core.Logic.{∥∥₁_elim}
use gearmand.Prelude.{
  ℕ, ◌+◌, ◌%◌, ◌<◌, ◌≡◌, ◌↔◌, refl, sym, true, false, Option, none, some, [], ◌∷◌, List, length,
  if◌then◌else◌, arith, if-false,
}
use mathlib.Core.Path.{subst}
use native.Mathlib.Nat.{zero-add}
use gearmand.Protocol.Packet.{Bytes}
use gearmand.Client.Connection.{Connection}
use gearmand.Client.Selection.{
  KetamaPoint, is_empty, Library, is_eligible, search_point, start_index, build_continuum,
  select_connection_by_key, first_available, entry,
}
use gearmand.Client.Selection.Search.{Splits, search_point-Splits, beyond}
use gearmand.Client.Selection.Turn.{Outcome, TakenAt, first_available-Outcome, round_of}
use gearmand.Client.Selection.Points.{mem-IsAt, get_elem?-mem, mem_ring, has_point, point_con}
use gearmand.Client.Selection.Choice.{
  IsNearest, taken_least, place_within, ring_nonempty, ring-IsSorted,
}

full : (ps : List KetamaPoint) → 0 < length ps → is_empty ps ≡ false
full [] h = absurd (omega arith)
full (p ∷ ps) h = refl

some_full :
    (ps : List KetamaPoint) (o : Option Connection) (c : Connection)
    → (if is_empty ps then none else o) ≡ some c
    → 0 < length ps
some_full [] o c e = cc
some_full (p ∷ ps) o c e = omega arith

module _ (lib : Library) (cs : List Connection) (key : Bytes) where
  abbrev ring : List KetamaPoint
  ring = build_continuum lib cs

  abbrev low : ℕ
  low = search_point (length ring) ring (lib.md5 key) 0 (length ring)

  low-Splits : Splits ring (lib.md5 key) low
  low-Splits =
      search_point-Splits (length ring) ring (lib.md5 key) 0 (length ring) (ring-IsSorted lib cs)
        (omega arith) (omega arith) (omega arith) (λ i q. absurd (omega arith))
        (λ i q. beyond ring (lib.md5 key) i q)

  start_within : (after : Option ℕ) → 0 < length ring → start_index lib ring key after < length ring
  unfolding start_index
  start_within none h = ground (arith, low-Splits.within)
  start_within (some a) h = grind arith

  select-Outcome :
      (after : Option ℕ)
      → 0 < length ring
      → Outcome ring after
          (start_index lib ring key after)
          0
          (length ring)
          (select_connection_by_key lib cs key after)
  unfolding select_connection_by_key
  select-Outcome after h =
      subst (Outcome ring after (start_index lib ring key after) 0 (length ring))
        (sym (
          if-false (is_empty ring) none
            (first_available ring after (start_index lib ring key after) (length ring) 0)
            (full ring h)))
        (subst
          (λ n.
            Outcome ring after (start_index lib ring key after) 0 n
              (first_available ring after (start_index lib ring key after) (length ring) 0))
          (zero-add (length ring))
          (first_available-Outcome ring after (start_index lib ring key after) (length ring) 0 h))

  of_answer :
      (after : Option ℕ) (o : Option Connection)
      → 0 < length ring
      → select_connection_by_key lib cs key after ≡ o
      → Outcome ring after (start_index lib ring key after) 0 (length ring) o
  of_answer after o h e =
      subst (Outcome ring after (start_index lib ring key after) 0 (length ring)) e
        (select-Outcome after h)

  -- A search that has an answer had a ring.
  ring_given :
      (after : Option ℕ) (c : Connection)
      → select_connection_by_key lib cs key after ≡ some c
      → 0 < length ring
  unfolding select_connection_by_key
  ring_given after c e =
      some_full ring (first_available ring after (start_index lib ring key after) (length ring) 0) c
        e

  pub answer-TakenAt :
      (after : Option ℕ) (c : Connection)
      → select_connection_by_key lib cs key after ≡ some c
      → TakenAt ring after (start_index lib ring key after) 0 (length ring) c
  answer-TakenAt after c e = of_answer after (some c) (ring_given after c e) e

  -- Without an answer no connection of the list may be taken.
  none_eligible :
      (after : Option ℕ)
      → select_connection_by_key lib cs key after ≡ none
      → (c : Connection) → Mem c cs
      → is_eligible after c ≡ false
  none_eligible after e c m =
      ∥∥₁_elim (mem-IsAt ring ((mem_ring lib cs (entry lib c 0 0)).1 (has_point lib cs c m)))
        (hlevel)
        (λ (i, at).
          let n : ℕ = length ring in
          let start : ℕ = start_index lib ring key after in
          let full_ring = ring_nonempty ring i at in
          let (k, u, eq) =
            round_of start n i (start_within after full_ring) (place_within ring i at) in
          of_answer after none full_ring e k (entry lib c 0 0) (omega arith) u (rw eq at))

  pub answer-mem :
      (after : Option ℕ) (c : Connection)
      → select_connection_by_key lib cs key after ≡ some c
      → Mem c cs
  answer-mem after c e =
      let t = answer-TakenAt after c e in
      subst (λ d. Mem d cs) t.its
        (point_con lib cs t.taken (
          (mem_ring lib cs t.taken).0 (
            get_elem?-mem ring ((start_index lib ring key after + t.round) % length ring)
              t.stands)))

  none_answer :
      (after : Option ℕ) (o : Option Connection)
      → select_connection_by_key lib cs key after ≡ o
      → ((c : Connection) → Mem c cs → is_eligible after c ≡ false)
      → o ≡ none
  none_answer after none e h = refl
  none_answer after (some c) e h =
      let t = answer-TakenAt after c e in
      let may : is_eligible after c ≡ true = rw (← t.its) t.eligible in
      cc (h c (answer-mem after c e))

-- client_select_connection_by_key answers no connection exactly when each connection of the list is
-- in the middle of a send or is the one that the search starts behind.
pub select_none_iff :
    (lib : Library) (cs : List Connection) (key : Bytes) (after : Option ℕ)
    → (select_connection_by_key lib cs key after ≡ none)
      ↔ ((c : Connection) → Mem c cs → is_eligible after c ≡ false)
select_none_iff lib cs key after = (
  none_eligible lib cs key after,
  none_answer lib cs key after (select_connection_by_key lib cs key after) refl,
)

-- The connection that client_select_connection_by_key answers for a key, where it does not start
-- behind another, is not in the middle of a send and has a point on the ring that is no farther
-- behind the key's hash than each point of a connection that is not in the middle of a send.
pub select-IsNearest :
    (lib : Library) (cs : List Connection) (key : Bytes) (c : Connection)
    → select_connection_by_key lib cs key none ≡ some c
    → IsNearest lib cs key c
unfolding start_index
select-IsNearest lib cs key c e =
    let t = answer-TakenAt lib cs key none c e in
    record {
      nearest = t.taken;
      its = t.its;
      is_point = (mem_ring lib cs t.taken).0 (
          get_elem?-mem (ring lib cs key)
            ((start_index lib (ring lib cs key) key none + t.round) % length (ring lib cs key))
            t.stands);
      idle = rw (← t.its) t.eligible;
      least = taken_least lib cs key (low lib cs key) c (low-Splits lib cs key) t;
    }
