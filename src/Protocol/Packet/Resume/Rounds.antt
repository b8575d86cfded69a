-- ===== src/Protocol/Packet/Resume/Rounds.antt =====
-- protocol.cc: a round of the loop over the arguments, and the bytes that follow it.
use gearmand.Prelude.{
  take-append_le, ℕ, zero, suc, ◌+◌, ◌≤◌, ◌<◌, ◌≡◌, ◌⊎◌, inl, inr, refl, ◌∙◌, true, false, none,
  some, [], ◌∷◌, ◌++◌, length, take, ltb, Bool-cases, Option-cases, arith, le→ltb, ltb→lt, ltb→le,
  length-append,
}
use gearmand.Protocol.Errors.{Error, failed-success}
use gearmand.Protocol.Commands.{command_info}
use gearmand.Protocol.Packet.{Bytes, Packet, create_arg, append_arg, args_base}
use gearmand.Protocol.Packet.Wire.{memchr, unpack_round, missing_args, wants_nul, sub64}

pub memchr-append :
    (c : ℕ) (xs ys : Bytes) (k : ℕ) → memchr c xs ≡ some k → memchr c (xs ++ ys) ≡ some k
unfolding memchr
memchr-append c [] ys k e = cc
memchr-append c (x ∷ xs) ys zero e = ground (arith, memchr-append c xs ys 0)
memchr-append c (x ∷ xs) ys (suc k) e = ground (arith, memchr-append c xs ys k)

pub memchr-lt : (c : ℕ) (xs : Bytes) (k : ℕ) → memchr c xs ≡ some k → k < length xs
unfolding memchr
memchr-lt c [] k e = cc
memchr-lt c (x ∷ xs) zero e = omega arith
memchr-lt c (x ∷ xs) (suc k) e = ground (arith, memchr-lt c xs k)

-- A packet's next argument is added, or refused for good.
create_arg-step :
    (p : Packet) (a : Bytes)
    → length p.arg < (command_info p.command).argc
    → create_arg p a ≡ (append_arg p a, Error.success)
unfolding create_arg
create_arg-step p a few = ground arith

append_arg_grows : (p : Packet) (a : Bytes) → length p.args ≤ length (append_arg p a).args
append_arg_grows p a = ground (arith, length-append p.args a, length-append (args_base p) a)

abbrev nul_step : Packet → Bytes → ℕ → Packet
nul_step p a k = record (append_arg p (take (k + 1) a)) { data_size = sub64 p.data_size (k + 1) }

abbrev sized_step : Packet → Bytes → Packet
sized_step p a = record (append_arg p (take p.data_size a)) { data_size = 0 }

module _ (p : Packet) (a : Bytes) where
  round_nul_wait : wants_nul p ≡ true → memchr 0 a ≡ none → unpack_round p a ≡ (p, 0, Error.io_wait)
  unfolding unpack_round
  round_nul_wait w e = rw (w, e) refl

  round_sized_wait :
      wants_nul p ≡ false → length a < p.data_size → unpack_round p a ≡ (p, 0, Error.io_wait)
  unfolding unpack_round
  round_sized_wait w short = rw w (ground arith)

  module _ (few : length p.arg < (command_info p.command).argc) where
    round_nul :
        (k : ℕ)
        → wants_nul p ≡ true
        → memchr 0 a ≡ some k
        → unpack_round p a ≡ (nul_step p a k, k + 1, Error.success)
    unfolding unpack_round
    round_nul k w e = rw (w, e, create_arg-step p (take (k + 1) a) few, failed-success) refl

    round_sized :
        wants_nul p ≡ false
        → p.data_size ≤ length a
        → unpack_round p a ≡ (sized_step p a, p.data_size, Error.success)
    unfolding unpack_round
    round_sized w long =
        rw
          (
            w,
            le→ltb (length a) p.data_size long,
            create_arg-step p (take p.data_size a) few,
            failed-success,
          )
          refl

-- A round either waits and has changed nothing, or goes the same way when more bytes follow.
pub record Goes (p : Packet) (a : Bytes) (q : Packet) (k : ℕ) : Type 0 where
  pub now : unpack_round p a ≡ (q, k, Error.success)
  pub later : (b : Bytes) → unpack_round p (a ++ b) ≡ (q, k, Error.success)
  pub within : k ≤ length a
  pub fewer : missing_args q + 1 ≡ missing_args p
  pub kept : length p.args ≤ length q.args

pub round_cases :
    (p : Packet) (a : Bytes)
    → length p.arg < (command_info p.command).argc
    → (unpack_round p a ≡ (p, 0, Error.io_wait)) ⊎ ((q : Packet) × (k : ℕ) × Goes p a q k)
round_cases p a few = elim (Bool-cases (wants_nul p)) [
  | inl w ↦ elim (Option-cases (memchr 0 a)) [
    | inl e ↦ inl (round_nul_wait p a w e)
    | inr (k, e) ↦
        let within = memchr-lt 0 a k e in
        inr (
          nul_step p a k,
          k + 1,
          record {
            now = round_nul p a few k w e;
            later = λ b.
                round_nul p (a ++ b) few k w (memchr-append 0 a b k e)
                ∙ rw (take-append_le (k + 1) a b (omega arith)) refl;
            within = omega arith;
            fewer = omega (arith, length-append p.arg (take (k + 1) a ∷ []));
            kept = append_arg_grows p (take (k + 1) a);
          },
        )
  ]
  | inr w ↦ elim (Bool-cases (ltb (length a) p.data_size)) [
    | inl short ↦ inl (round_sized_wait p a w (ltb→lt _ _ short))
    | inr long ↦
        let enough : p.data_size ≤ length a = ltb→le _ _ long in
        inr (
          sized_step p a,
          p.data_size,
          record {
            now = round_sized p a few w enough;
            later = λ b.
                round_sized p (a ++ b) few w (omega (arith, length-append a b))
                ∙ rw (take-append_le p.data_size a b enough) refl;
            within = enough;
            fewer = omega (arith, length-append p.arg (take p.data_size a ∷ []));
            kept = append_arg_grows p (take p.data_size a);
          },
        )
  ]
]
