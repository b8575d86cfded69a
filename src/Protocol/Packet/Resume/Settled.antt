-- ===== src/Protocol/Packet/Resume/Settled.antt =====
-- protocol.cc: bytes that follow a whole packet do not change it.
use gearmand.Prelude.{
  length-drop, ℕ, ◌+◌, ◌≤◌, ◌<◌, ◌≡◌, inl, inr, refl, sym, ap, ◌∙◌, false, some, [], ◌∷◌, length,
  take, drop, ltb, Bool-cases, Option-cases, arith, ltb→lt, ltb→le,
}
use gearmand.Protocol.Errors.{Error, failed}
use gearmand.Protocol.Packet.{Bytes, Packet, packet_header_size}
use gearmand.Protocol.Packet.Wire.{Unpacked, memchr, unpack_args, missing_args, unpack_header}
use gearmand.Protocol.Packet.Text.{ended_line, unpack, unpack_text, begins_text}
use gearmand.Protocol.Packet.Resume.{
  unpack_as_binary, unpack_as_text, unpack_short, success-no_wait,
}
use gearmand.Protocol.Packet.Resume.Rounds.{round_cases, memchr-append, memchr-lt}
use gearmand.Protocol.Packet.Resume.Loop.{args_go, args_wait}
use gearmand.Protocol.Packet.Resume.{
  header_read, header_more, begins_text-append, unpack_as_text, unpack_as_binary, unpack_short,
  success-no_wait,
}
use gearmand.Protocol.Packet.Resume.Bounds.{unpack_text-none, begins_text-room, failed-no_success}
use gearmand.Prelude.{
  ◌-◌, zero, suc, ◌++◌, get_or, take-append_le, drop-append_le, length-drop, ltb→lt, ltb→le,
}

-- A result that stays when more bytes follow, and uses no more than there were.
pub record IsSettled (f : Bytes → Unpacked) (used : ℕ) (a : Bytes) : Type 0 where
  pub later : (b : Bytes) → f (a ++ b) ≡ f a
  pub within : (f a).1 ≤ used + length a

unpack_args-IsSettled :
    (n : ℕ) (p : Packet) (a : Bytes) (used : ℕ)
    → n ≡ missing_args p
    → (unpack_args n p a used).2 ≡ Error.success
    → IsSettled (λ x. unpack_args n p x used) used a
unfolding unpack_args
unpack_args-IsSettled zero p a used e ok = record { later = λ b. refl; within = omega arith }
unpack_args-IsSettled (suc n) p a used e ok = elim (round_cases p a (omega arith)) [
  | inl wait ↦
      absurd (success-no_wait (sym ok ∙ ap (λ (r : Unpacked). r.2) (args_wait n p a used wait)))
  | inr (q, k, go) ↦
      let here = args_go n p a used q k go.now in
      let s =
        unpack_args-IsSettled n q (drop k a) (used + k) (omega (arith, go.fewer))
          (sym (ap (λ (r : Unpacked). r.2) here) ∙ ok) in
      record {
        later = λ b.
            args_go n p (a ++ b) used q k (go.later b)
            ∙ (ap (λ x. unpack_args n q x (used + k)) (drop-append_le k a b go.within)
                ∙ (s.later b ∙ sym here));
        within = rw here (omega (arith, s.within, go.within, length-drop k a));
      }
]

get_or-append : (a b : Bytes) (k : ℕ) → k < length a → get_or (a ++ b) k 0 ≡ get_or a k 0
get_or-append [] b k h = absurd (omega arith)
get_or-append (x ∷ a) b zero h = refl
get_or-append (x ∷ a) b (suc k) h = get_or-append a b k (omega arith)

ended_line-append : (k : ℕ) (a b : Bytes) → k < length a → ended_line k (a ++ b) ≡ ended_line k a
unfolding ended_line
ended_line-append k a b h =
    rw
      (
        get_or-append a b (k - 1) (omega arith),
        take-append_le k a b (omega arith),
        take-append_le (k - 1) a b (omega arith),
      )
      refl

unpack_text-IsSettled :
    (p : Packet) (a : Bytes) (k : ℕ) → memchr 10 a ≡ some k → IsSettled (unpack_text p) 0 a
unfolding unpack_text
unpack_text-IsSettled p a k e = record {
  later = λ b. rw (memchr-append 10 a b k e, e, ended_line-append k a b (memchr-lt 10 a k e)) refl;
  within = rw e (omega (arith, memchr-lt 10 a k e));
}

IsSettled-from :
    (f g : Bytes → Unpacked) (used : ℕ) (a : Bytes)
    → ((b : Bytes) → f (a ++ b) ≡ g (a ++ b))
    → f a ≡ g a
    → IsSettled g used a
    → IsSettled f used a
IsSettled-from f g used a same here h = record {
  later = λ b. same b ∙ (h.later b ∙ sym here);
  within = rw here h.within;
}

binary-IsSettled :
    (p : Packet) (a : Bytes)
    → length p.args ≡ 0
    → begins_text a ≡ false
    → packet_header_size ≤ length a
    → (unpack p a).2 ≡ Error.success
    → IsSettled (unpack p) 0 a
unfolding header_read
binary-IsSettled p a empty t long ok =
    let h = unpack_header (record p { args = take packet_header_size a }) in
    let rest = drop packet_header_size a in
    elim (Bool-cases (failed h.1)) [
      | inl bad ↦
          let here : unpack p a ≡ (h.0, 0, h.1) = unpack_as_binary p a empty t long ∙ rw bad refl in
          absurd (failed-no_success h.1 bad (sym (ap (λ (r : Unpacked). r.2) here) ∙ ok))
      | inr good ↦
          let here : unpack p a ≡ unpack_args (missing_args h.0) h.0 rest packet_header_size =
            unpack_as_binary p a empty t long ∙ rw good refl in
          let s =
            unpack_args-IsSettled (missing_args h.0) h.0 rest packet_header_size refl
              (sym (ap (λ (r : Unpacked). r.2) here) ∙ ok) in
          record {
            later = λ b. header_more p a b empty t long ∙ (rw good (s.later b) ∙ sym here);
            within = rw here (omega (arith, s.within, length-drop packet_header_size a));
          }
    ]

-- A packet that is there stays what it is when more bytes follow.
pub unpack-IsSettled :
    (p : Packet) (a : Bytes)
    → length p.args ≡ 0
    → (unpack p a).2 ≡ Error.success
    → IsSettled (unpack p) 0 a
unpack-IsSettled p a empty ok = elim (Bool-cases (begins_text a)) [
  | inl t ↦ elim (Option-cases (memchr 10 a)) [
    | inl n ↦ absurd (
        success-no_wait (
          sym ok
          ∙ ap (λ (r : Unpacked). r.2) (unpack_as_text p a empty t ∙ unpack_text-none p a n)))
    | inr (k, n) ↦
        IsSettled-from (unpack p) (unpack_text p) 0 a
          (λ b. unpack_as_text p (a ++ b) empty (begins_text-append a b (begins_text-room a t) ∙ t))
          (unpack_as_text p a empty t) (unpack_text-IsSettled p a k n)
  ]
  | inr t ↦ elim (Bool-cases (ltb (length a) packet_header_size)) [
    | inl short ↦ absurd (
        success-no_wait
          (sym ok ∙ ap (λ (r : Unpacked). r.2) (unpack_short p a empty t (ltb→lt _ _ short))))
    | inr enough ↦ binary-IsSettled p a empty t (ltb→le _ _ enough) ok
  ]
]
