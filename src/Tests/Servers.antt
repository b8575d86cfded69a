-- ===== src/Tests/Servers.antt =====
-- A client of two servers, with a stand-in for MD5 and a sort by insertion.
use mathlib.Core.List.{Perm, Mem, mem-cons, not-mem-nil, mem-cons_self, mem-cons_of_mem}
use mathlib.Core.List.Perm
use mathlib.Core.Logic.Or
use gearmand.Prelude.{
  ℕ, ◌*◌, ◌/◌, ◌%◌, ◌^◌, ◌≤◌, ◌≡◌, refl, false, none, some, [], ◌∷◌, List, arith, get_or, ◌∙◌, ◌↔◌,
  ap, sym, ltb, ◌==◌, if◌then◌else◌, Bool-cases, inl, inr, ltb→le,
}
use gearmand.Client.Connection.{Connection, ConnectState, SendState, SendPointer}
use gearmand.Client.Selection.{
  KetamaPoint, AllPoints, IsSorted, Library, all_points, server_points, chunk_point,
  select_connection_by_key, build_continuum, start_index, first_available, search_point, is_below,
  is_eligible,
}
use gearmand.Client.Selection.Moves.{HasOwnPoints, select-keeps}
use gearmand.Client.Selection.Choice.{IsNearest}
use gearmand.Client.Selection.Answer.{select-IsNearest, select_none_iff}

insert_point : KetamaPoint → List KetamaPoint → List KetamaPoint
insert_point p [] = p ∷ []
insert_point p (q ∷ qs) =
    let rest = insert_point p qs in if ltb q.point p.point then q ∷ rest else p ∷ q ∷ qs

pub sort_points : List KetamaPoint → List KetamaPoint
unfolding insert_point
sort_points [] = []
sort_points (p ∷ ps) = insert_point p (sort_points ps)

insert_point-perm : (p : KetamaPoint) (qs : List KetamaPoint) → Perm (insert_point p qs) (p ∷ qs)
unfolding insert_point
insert_point-perm p [] = Perm.refl (p ∷ [])
insert_point-perm p (q ∷ qs) = elim (Bool-cases (ltb q.point p.point)) [
  | inl e ↦ rw e (Perm.trans (Perm.cons q (insert_point-perm p qs)) (Perm.swap p q qs))
  | inr e ↦ rw e (Perm.refl (p ∷ q ∷ qs))
]

pub sort_points-perm : (ps : List KetamaPoint) → Perm (sort_points ps) ps
unfolding sort_points
sort_points-perm [] = Perm.refl []
sort_points-perm (p ∷ ps) =
    Perm.trans (insert_point-perm p (sort_points ps)) (Perm.cons p (sort_points-perm ps))

insert_point-All :
    (P : KetamaPoint → Type 0) (p : KetamaPoint) (qs : List KetamaPoint)
    → P p
    → AllPoints P qs
    → AllPoints P (insert_point p qs)
unfolding insert_point
insert_point-All P p [] a b = (a, tt)
insert_point-All P p (q ∷ qs) a b = elim (Bool-cases (ltb q.point p.point)) [
  | inl e ↦ rw e (b.0, insert_point-All P p qs a b.1)
  | inr e ↦ rw e (a, b)
]

weaker :
    (x y : ℕ) (ps : List KetamaPoint)
    → x ≤ y
    → AllPoints (λ q. y ≤ q.point) ps
    → AllPoints (λ q. x ≤ q.point) ps
weaker x y [] l a = tt
weaker x y (p ∷ ps) l a = (omega (arith, a.0), weaker x y ps l a.1)

insert_point-IsSorted :
    (p : KetamaPoint) (qs : List KetamaPoint) → IsSorted qs → IsSorted (insert_point p qs)
unfolding insert_point
insert_point-IsSorted p [] s = (tt, tt)
insert_point-IsSorted p (q ∷ qs) s = elim (Bool-cases (ltb q.point p.point)) [
  | inl e ↦ rw e (
    insert_point-All (λ r. q.point ≤ r.point) p qs (ground arith) s.0,
    insert_point-IsSorted p qs s.1,
  )
  | inr e ↦
      rw e ((ltb→le q.point p.point e, weaker p.point q.point qs (ltb→le q.point p.point e) s.0), s)
]

pub sort_points-IsSorted : (ps : List KetamaPoint) → IsSorted (sort_points ps)
unfolding sort_points
sort_points-IsSorted [] = tt
sort_points-IsSorted (p ∷ ps) = insert_point-IsSorted p (sort_points ps) (sort_points-IsSorted ps)

-- The first byte of the key in place of its hash.
abbrev pub library : Library
library = record {
  signature = λ key i. get_or key 0 0 % 256;
  md5 = λ key. get_or key 0 0 % 256 * 2 ^ 24;
  sort = sort_points;
  signature_byte = λ key i. omega arith;
  md5_u32 = λ key. omega arith;
  sort-perm = sort_points-perm;
  sort-IsSorted = sort_points-IsSorted;
}

abbrev pub server : ℕ → Connection
server a = record {
  address = a;
  host = a ∷ [];
  service = b'1' ∷ [];
  state = ConnectState.addrinfo;
  send_state = SendState.state_none;
  is_open = false;
  addrinfo_next = [];
  server_options_sent = false;
  pollin = false;
  pollout = false;
  created_id = 0;
  created_id_next = 0;
  send_buffer = [];
  send_buffer_ptr = SendPointer.in_buffer 0;
  send_buffer_size = 0;
  send_data_size = 0;
  send_data_offset = 0;
}

abbrev pub two_servers : List Connection
two_servers = server b'a' ∷ server b'b' ∷ []

chosen : select_connection_by_key library two_servers (b'b' ∷ []) none ≡ some (server b'b')
unfolding select_connection_by_key build_continuum all_points server_points sort_points start_index
    first_available search_point is_below chunk_point
chosen = refl

Connection-set : (c d : Connection) (p q : c ≡ d) → p ≡ q
Connection-set = hlevel

-- The connection whose first letter the highest byte of a point is.
owner : ℕ → Connection
owner n = if n / 2 ^ 24 == b'a' then server b'a' else server b'b'

owned :
    (ps : List KetamaPoint) (p : KetamaPoint)
    → AllPoints (λ q. q.con ≡ owner q.point) ps
    → Mem p ps
    → p.con ≡ owner p.point
owned [] p a m = absurd (not-mem-nil m)
owned (q ∷ ps) p a m =
    Or.elim (Connection-set p.con (owner p.point)) (mem-cons.0 m) (λ e. rw e a.0) (owned ps p a.1)

two_servers-owned : AllPoints (λ q. q.con ≡ owner q.point) (all_points library two_servers)
unfolding all_points server_points chunk_point owner
two_servers-owned = search

two_servers-HasOwnPoints : HasOwnPoints library two_servers
two_servers-HasOwnPoints p q mp mq e =
    owned (all_points library two_servers) p two_servers-owned mp
    ∙ (ap owner e ∙ sym (owned (all_points library two_servers) q two_servers-owned mq))

select-keeps_example :
    select_connection_by_key library (server b'b' ∷ []) (b'b' ∷ []) none ≡ some (server b'b')
select-keeps_example =
    select-keeps library two_servers (server b'b' ∷ []) (server b'b') (b'b' ∷ [])
      two_servers-HasOwnPoints (λ c m. mem-cons_of_mem (server b'a') m) mem-cons_self chosen

select-IsNearest_example : IsNearest library two_servers (b'b' ∷ []) (server b'b')
select-IsNearest_example = select-IsNearest library two_servers (b'b' ∷ []) (server b'b') chosen

select_none_iff_example :
    (select_connection_by_key library two_servers (b'b' ∷ []) (some b'b') ≡ none)
    ↔ ((c : Connection) → Mem c two_servers → is_eligible (some b'b') c ≡ false)
select_none_iff_example = select_none_iff library two_servers (b'b' ∷ []) (some b'b')
