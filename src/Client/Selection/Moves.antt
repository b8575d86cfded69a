-- ===== src/Client/Selection/Moves.antt =====
-- server_selection.cc: keys move only to a server that comes, or away from one that goes.
use mathlib.Core.List.{Mem}
use gearmand.Prelude.{ℕ, ◌^◌, ◌<◌, ◌≤◌, ◌≡◌, refl, Option, none, some, List, arith, ap, ◌∙◌, sym}
use mathlib.Core.Path.{subst}
use gearmand.Protocol.Packet.{Bytes}
use gearmand.Client.Connection.{Connection}
use gearmand.Client.Selection.{KetamaPoint, Library, all_points, select_connection_by_key}
use gearmand.Client.Selection.Choice.{IsNearest, distance}
use gearmand.Client.Selection.Points.{point-lt, point_con, point_of}
use gearmand.Client.Selection.Answer.{select_none_iff, select-IsNearest}

-- No two connections share a point.
abbrev pub HasOwnPoints : Library → List Connection → Type 0
HasOwnPoints lib cs =
    (p q : KetamaPoint)
    → Mem p (all_points lib cs)
    → Mem q (all_points lib cs)
    → p.point ≡ q.point
    → p.con ≡ q.con

-- Points that are as far behind a hash are the same number.
same_distance :
    (h a b : ℕ)
    → h < 2 ^ 32
    → a < 2 ^ 32
    → b < 2 ^ 32
    → distance h a ≤ distance h b
    → distance h b ≤ distance h a
    → a ≡ b
same_distance h a b hb ab bb l g = omega arith

module _ (lib : Library) (cs ds : List Connection) (key : Bytes) where
  same_choice :
      (k d : Connection)
      → HasOwnPoints lib cs
      → ((c : Connection) → Mem c ds → Mem c cs)
      → Mem k ds
      → IsNearest lib cs key k
      → IsNearest lib ds key d
      → d ≡ k
  same_choice k d own sub listed a b =
      let p : KetamaPoint = a.nearest in
      let q : KetamaPoint = b.nearest in
      let small : Mem p (all_points lib ds) =
        point_of lib cs ds p a.is_point (subst (λ x. Mem x ds) (sym a.its) listed) in
      let large : Mem q (all_points lib cs) =
        point_of lib ds cs q b.is_point (sub q.con (point_con lib ds q b.is_point)) in
      let same : p.point ≡ q.point =
        same_distance (lib.md5 key) p.point q.point (lib.md5_u32 key) (point-lt lib cs p a.is_point)
          (point-lt lib ds q b.is_point) (a.least q large (rw b.its b.idle))
          (b.least p small (rw a.its a.idle)) in
      sym b.its ∙ (sym (own p q a.is_point large same) ∙ a.its)

  still_answered :
      (k : Connection) (o : Option Connection)
      → HasOwnPoints lib cs
      → ((c : Connection) → Mem c ds → Mem c cs)
      → Mem k ds
      → IsNearest lib cs key k
      → select_connection_by_key lib ds key none ≡ o
      → o ≡ some k
  still_answered k none own sub listed a e =
      let idle = a.idle in cc ((select_none_iff lib ds key none).0 e k listed)
  still_answered k (some d) own sub listed a e =
      ap some (same_choice k d own sub listed a (select-IsNearest lib ds key d e))

-- Where no two connections share a point of the ring, a key keeps its connection when other
-- connections leave the list or the list is reordered: if each connection of ds is one of cs, and
-- the connection k that is answered with cs is one of ds, k is answered with ds. So connections
-- that join take keys over and move no key between two others.
pub select-keeps :
    (lib : Library) (cs ds : List Connection) (k : Connection) (key : Bytes)
    → HasOwnPoints lib cs
    → ((c : Connection) → Mem c ds → Mem c cs)
    → Mem k ds
    → select_connection_by_key lib cs key none ≡ some k
    → select_connection_by_key lib ds key none ≡ some k
select-keeps lib cs ds k key own sub listed e =
    still_answered lib cs ds key k (select_connection_by_key lib ds key none) own sub listed
      (select-IsNearest lib cs key k e) refl
