-- ===== src/Protocol/Packet/Resume/Loop.antt =====
-- protocol.cc: the loop over the arguments when it has to wait.
use gearmand.Prelude.{
  drop-append_le, drop-drop, length-drop, ℕ, zero, suc, ◌+◌, ◌≤◌, ◌≡◌, ◌⊎◌, inl, inr, refl, ap, ◌∙◌,
  true, ◌++◌, length, drop, Bool-cases, arith,
}
use native.Mathlib.Nat.{add_assoc, add-zero}
use gearmand.Protocol.Errors.{Error, failed, failed-success}
use gearmand.Protocol.Packet.{Bytes, Packet}
use gearmand.Protocol.Packet.Wire.{Unpacked, unpack_round, unpack_args, missing_args}
use gearmand.Protocol.Packet.Resume.Rounds.{Goes, round_cases}

-- The result of bytes that follow others, of which some were used.
abbrev pub shifted : ℕ → Unpacked → Unpacked
shifted k r = (r.0, k + r.1, r.2)

pub shifted_zero : (r : Unpacked) → shifted 0 r ≡ r
shifted_zero (q, k, e) = ground arith

pub unpack_args-shifted :
    (n : ℕ) (p : Packet) (r : Bytes) (k used : ℕ)
    → unpack_args n p r (k + used) ≡ shifted k (unpack_args n p r used)
unfolding unpack_args
unpack_args-shifted zero p r k used = refl
unpack_args-shifted (suc n) p r k used =
    let t = unpack_round p r in
    elim (Bool-cases (failed t.2)) [
      | inl bad ↦ rw (unpack_args, bad) refl
      | inr good ↦
          rw (unpack_args, good)
            (ap (unpack_args n t.0 (drop t.1 r)) (add_assoc k used t.1)
              ∙ unpack_args-shifted n t.0 (drop t.1 r) k (used + t.1))
    ]

-- What a loop that waits has done: it used some of the bytes, and goes on from there.
pub record Waits (n : ℕ) (p : Packet) (a : Bytes) (used : ℕ) : Type 0 where
  pub from : Packet
  pub taken : ℕ
  pub waits : unpack_args n p a used ≡ (from, used + taken, Error.io_wait)
  pub later :
      (b : Bytes)
      → unpack_args n p (a ++ b) used
        ≡ unpack_args (missing_args from) from (drop taken a ++ b) (used + taken)
  pub within : taken ≤ length a
  pub kept : length p.args ≤ length from.args

pub failed-io_wait : failed Error.io_wait ≡ true
unfolding failed
failed-io_wait = refl

pub args_wait :
    (n : ℕ) (p : Packet) (a : Bytes) (used : ℕ)
    → unpack_round p a ≡ (p, 0, Error.io_wait)
    → unpack_args (suc n) p a used ≡ (p, used, Error.io_wait)
unfolding unpack_args
args_wait n p a used e = rw (e, unpack_args, failed-io_wait, e) refl

pub args_go :
    (n : ℕ) (p : Packet) (a : Bytes) (used : ℕ) (q : Packet) (k : ℕ)
    → unpack_round p a ≡ (q, k, Error.success)
    → unpack_args (suc n) p a used ≡ unpack_args n q (drop k a) (used + k)
unfolding unpack_args
args_go n p a used q k e = rw (e, unpack_args, failed-success, e) refl

Waits-at_once :
    (n : ℕ) (p : Packet) (a : Bytes) (used : ℕ)
    → suc n ≡ missing_args p
    → unpack_round p a ≡ (p, 0, Error.io_wait)
    → Waits (suc n) p a used
unfolding drop
Waits-at_once n p a used e wait = record {
  from = p;
  taken = 0;
  waits = args_wait n p a used wait ∙ rw (add-zero used) refl;
  later = λ b. rw (← e, add-zero used) refl;
  within = omega arith;
  kept = omega arith;
}

Waits-behind :
    (n : ℕ) (p : Packet) (a : Bytes) (used : ℕ) (q : Packet) (k : ℕ)
    → Goes p a q k
    → Waits n q (drop k a) (used + k)
    → Waits (suc n) p a used
Waits-behind n p a used q k go more = record {
  from = more.from;
  taken = k + more.taken;
  waits = args_go n p a used q k go.now ∙ (more.waits ∙ rw (add_assoc used k more.taken) refl);
  later = λ b.
      args_go n p (a ++ b) used q k (go.later b)
      ∙ (ap (λ r. unpack_args n q r (used + k)) (drop-append_le k a b go.within)
          ∙ (more.later b ∙ rw (drop-drop more.taken k a, add_assoc used k more.taken) refl));
  within = omega (arith, go.within, more.within, length-drop k a);
  kept = omega (arith, go.kept, more.kept);
}

pub unpack_args-cases :
    (n : ℕ) (p : Packet) (a : Bytes) (used : ℕ)
    → n ≡ missing_args p
    → ((unpack_args n p a used).2 ≡ Error.success) ⊎ Waits n p a used
unfolding unpack_args
unpack_args-cases zero p a used e = inl refl
unpack_args-cases (suc n) p a used e = elim (round_cases p a (omega arith)) [
  | inl wait ↦ inr (Waits-at_once n p a used e wait)
  | inr (q, k, go) ↦ elim (unpack_args-cases n q (drop k a) (used + k) (omega (arith, go.fewer))) [
    | inl done ↦ inl (rw (args_go n p a used q k go.now) done)
    | inr more ↦ inr (Waits-behind n p a used q k go more)
  ]
]

pub unpack_args_used :
    (n : ℕ) (p : Packet) (a : Bytes) (used : ℕ) → used ≤ (unpack_args n p a used).1
unfolding unpack_args
unpack_args_used zero p a used = omega arith
unpack_args_used (suc n) p a used = elim (Bool-cases (failed (unpack_round p a).2)) [
  | inl bad ↦ rw (unpack_args, bad) (omega arith)
  | inr good ↦
      rw (unpack_args, good)
        (omega (
          arith,
          unpack_args_used n (unpack_round p a).0 (drop (unpack_round p a).1 a)
              (used + (unpack_round p a).1),
        ))
]
