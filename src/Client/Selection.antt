-- ===== src/Client/Selection.antt =====
-- libgearman/server_selection.cc: the server that gets a job, by a ring of hash points. The MD5
-- functions of libhashkit and `std::sort` are the operations of `Library`.
pub mod Search
pub mod Turn
pub mod Points
pub mod Choice
pub mod Answer
pub mod Moves
use mathlib.Core.List.{Perm}
use gearmand.Prelude.{
  ℕ, zero, suc, ◌+◌, ◌-◌, ◌*◌, ◌/◌, ◌%◌, ◌^◌, ◌<◌, ◌≤◌, Bool, true, false, not, ◌&&◌, Option, none,
  some, List, [], ◌∷◌, ◌++◌, length, get_elem?, get_or, ltb, ◌==◌, if◌then◌else◌, print_u32,
}
use gearmand.Protocol.Packet.{Bytes}
use gearmand.Client.Connection.{Connection, is_state_none}

-- A point of the ring, and the connection that it stands for.
pub record KetamaPoint : Type 0 where
  pub point : ℕ
  pub con : Connection

abbrev pub AllPoints : (KetamaPoint → Type 0) → List KetamaPoint → Type 0
AllPoints P [] = Unit
AllPoints P (p ∷ ps) = P p × AllPoints P ps

abbrev pub IsSorted : List KetamaPoint → Type 0
IsSorted [] = Unit
IsSorted (p ∷ ps) = AllPoints (λ q. p.point ≤ q.point) ps × IsSorted ps

-- What the code relies on: `libhashkit_md5_signature`, the bytes of a digest, `libhashkit_md5`, a
-- number of 32 bits, and `std::sort` by `operator<`, which orders the points and keeps them all.
pub record Library : Type 0 where
  pub signature : Bytes → ℕ → ℕ
  pub md5 : Bytes → ℕ
  pub sort : List KetamaPoint → List KetamaPoint
  pub signature_byte : (key : Bytes) (i : ℕ) → signature key i < 256
  pub md5_u32 : (key : Bytes) → md5 key < 2 ^ 32
  pub sort-perm : (ps : List KetamaPoint) → Perm (sort ps) ps
  pub sort-IsSorted : (ps : List KetamaPoint) → IsSorted (sort ps)

-- "%s:%s-%u"; the array has room for the longest host and service.
abbrev point_key : Connection → ℕ → Bytes
point_key c replica = c.host ++ (b':' ∷ (c.service ++ (b'-' ∷ print_u32 replica)))

-- The address of the connection that the search starts behind, if there is one.
abbrev pub is_after : Option ℕ → Connection → Bool
is_after none c = false
is_after (some a) c = c.address == a

-- A connection that the search may answer.
abbrev pub is_eligible : Option ℕ → Connection → Bool
is_eligible after c = not (is_after after c) && is_state_none c.send_state

module _ (lib : Library) where
  -- Four bytes of the digest, the last one first.
  unfoldable pub chunk_point : Bytes → ℕ → ℕ
  chunk_point key chunk =
      lib.signature key (chunk * 4 + 3) * 2 ^ 24
      + lib.signature key (chunk * 4 + 2) * 2 ^ 16
      + lib.signature key (chunk * 4 + 1) * 2 ^ 8
      + lib.signature key (chunk * 4)

  abbrev pub entry : Connection → ℕ → ℕ → KetamaPoint
  entry c replica chunk = record { point = chunk_point (point_key c replica) chunk; con = c }

  abbrev pub replica_points : Connection → ℕ → List KetamaPoint → List KetamaPoint
  replica_points c replica ps =
      entry c replica 0 ∷ entry c replica 1 ∷ entry c replica 2 ∷ entry c replica 3 ∷ ps

  unfoldable pub server_points : Connection → List KetamaPoint
  server_points c =
      replica_points c 0 (replica_points c 1 (replica_points c 2 (replica_points c 3 [])))

  -- The loop over the connections.
  unfoldable pub all_points : List Connection → List KetamaPoint
  all_points [] = []
  all_points (c ∷ cs) = server_points c ++ all_points cs

  unfoldable pub build_continuum : List Connection → List KetamaPoint
  build_continuum cs = lib.sort (all_points cs)

-- `continuum[mid].point < hash`, for a place within the ring.
unfoldable pub is_below : List KetamaPoint → ℕ → ℕ → Bool
is_below ring hash i = elim (get_elem? ring i) [ none ↦ false | some p ↦ ltb p.point hash ]

-- The binary search; its rounds are at most `high - low`.
unfoldable pub search_point : ℕ → List KetamaPoint → ℕ → ℕ → ℕ → ℕ
search_point zero ring hash low high = low
search_point (suc rounds) ring hash low high = elim (ltb low high) [
  | true ↦
      let mid = low + (high - low) / 2 in
      elim (is_below ring hash mid) [
        | true ↦ search_point rounds ring hash (mid + 1) high
        | false ↦ search_point rounds ring hash low mid
      ]
  | false ↦ low
]

-- `after_index`: the first place of the connection, or 0.
unfoldable pub after_index : ℕ → ℕ → List KetamaPoint → ℕ
after_index a i [] = 0
after_index a i (p ∷ ps) =
    let rest = after_index a (i + 1) ps in if p.con.address == a then i else rest

unfoldable pub start_index : Library → List KetamaPoint → Bytes → Option ℕ → ℕ
start_index lib ring key (some a) = (after_index a 0 ring + 1) % length ring
start_index lib ring key none =
    let low = search_point (length ring) ring (lib.md5 key) 0 (length ring) in
    if low == length ring then 0 else low

-- The last loop: `left` rounds from the place `start + seen` on.
unfoldable pub first_available : List KetamaPoint → Option ℕ → ℕ → ℕ → ℕ → Option Connection
first_available ring after start zero seen = none
first_available ring after start (suc left) seen =
    elim (get_elem? ring ((start + seen) % length ring)) [
      | none ↦ none
      | some p ↦ elim (is_eligible after p.con) [
        | true ↦ some p.con
        | false ↦ first_available ring after start left (seen + 1)
      ]
    ]

abbrev pub is_empty : List KetamaPoint → Bool
is_empty [] = true
is_empty (p ∷ ps) = false

-- `client_select_connection_by_key`
unfoldable pub select_connection_by_key :
    Library → List Connection → Bytes → Option ℕ → Option Connection
select_connection_by_key lib cs key after =
    let ring = build_continuum lib cs in
    if is_empty ring
    then none
    else first_available ring after (start_index lib ring key after) (length ring) 0
