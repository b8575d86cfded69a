-- ===== src/Protocol/Packet/Resume/Bounds.antt =====
-- protocol.cc: how many bytes `unpack` uses.
use gearmand.Prelude.{
  length-drop, ℕ, ◌+◌, ◌≤◌, ◌<◌, ◌≡◌, ◌≢◌, inl, inr, refl, sym, ap, ◌∙◌, true, false, none, some,
  [], ◌∷◌, length, take, drop, ltb, ◌==◌, Bool-cases, Option-cases, arith, ltb→lt, ltb→le, ==→eq,
}
use gearmand.Protocol.Errors.{Error, failed}
use gearmand.Protocol.Packet.{Bytes, Packet, packet_header_size}
use gearmand.Protocol.Packet.Wire.{Unpacked, memchr, unpack_args, missing_args, unpack_header}
use gearmand.Protocol.Packet.Text.{unpack, unpack_text, begins_text}
use gearmand.Protocol.Packet.Resume.Loop.{unpack_args_used, unpack_args-cases}
use gearmand.Protocol.Packet.Resume.{
  unpack_header-no_wait, unpack_as_binary, unpack_as_text, unpack_short, unpack_begun,
  unpack_text-waits, success-no_wait,
}

header_within :
    (p : Packet) (a : Bytes)
    → length p.args ≡ 0
    → begins_text a ≡ false
    → packet_header_size ≤ length a
    → (unpack p a).2 ≡ Error.io_wait
    → (unpack p a).1 ≤ length a
header_within p a empty t long e =
    let h = unpack_header (record p { args = take packet_header_size a }) in
    let rest = drop packet_header_size a in
    elim (Bool-cases (failed h.1)) [
      | inl bad ↦ absurd (
          unpack_header-no_wait (record p { args = take packet_header_size a })
            (rw (unpack_as_binary p a empty t long, bad) at e))
      | inr good ↦
          let here : unpack p a ≡ unpack_args (missing_args h.0) h.0 rest packet_header_size =
            unpack_as_binary p a empty t long ∙ rw good refl in
          elim (unpack_args-cases (missing_args h.0) h.0 rest packet_header_size refl) [
            | inl done ↦
                absurd (success-no_wait (sym done ∙ ap (λ (r : Unpacked). r.2) (sym here) ∙ e))
            | inr w ↦
                rw (here ∙ w.waits) (omega (arith, w.within, length-drop packet_header_size a))
          ]
    ]

-- Where it asks for more bytes, it has used no more than there are.
pub unpack_within :
    (p : Packet) (a : Bytes) → (unpack p a).2 ≡ Error.io_wait → (unpack p a).1 ≤ length a
unpack_within p a e = elim (Bool-cases (length p.args == 0)) [
  | inr begun ↦ elim (unpack_args-cases (missing_args p) p a 0 refl) [
    | inl done ↦ absurd (success-no_wait (sym (rw (unpack_begun p a (ground arith)) done) ∙ e))
    | inr w ↦ rw (unpack_begun p a (ground arith) ∙ w.waits) (omega (arith, w.within))
  ]
  | inl none_yet ↦
      let empty : length p.args ≡ 0 = ==→eq _ _ none_yet in
      elim (Bool-cases (begins_text a)) [
        | inl t ↦
            let here = unpack_as_text p a empty t in
            rw (here ∙ unpack_text-waits p a (rw here at e)) (omega arith)
        | inr t ↦ elim (Bool-cases (ltb (length a) packet_header_size)) [
          | inl short ↦ rw (unpack_short p a empty t (ltb→lt _ _ short)) (omega arith)
          | inr long ↦ header_within p a empty t (ltb→le _ _ long) e
        ]
      ]
]

pub failed-no_success : (e : Error) → failed e ≡ true → e ≢ Error.success
unfolding failed
failed-no_success e bad h = cc (bad, h)

pub unpack_text-none :
    (p : Packet) (a : Bytes) → memchr 10 a ≡ none → unpack_text p a ≡ (p, 0, Error.io_wait)
unfolding unpack_text
unpack_text-none p a n = rw n refl

unpack_text-some :
    (p : Packet) (a : Bytes) (k : ℕ) → memchr 10 a ≡ some k → (unpack_text p a).1 ≡ k + 1
unfolding unpack_text
unpack_text-some p a k n = rw n refl

pub begins_text-room : (a : Bytes) → begins_text a ≡ true → 0 < length a
begins_text-room [] t = cc t
begins_text-room (x ∷ a) t = omega arith

header_used :
    (p : Packet) (a : Bytes)
    → length p.args ≡ 0
    → begins_text a ≡ false
    → packet_header_size ≤ length a
    → (unpack p a).2 ≡ Error.success
    → 0 < (unpack p a).1
header_used p a empty t long ok =
    let h = unpack_header (record p { args = take packet_header_size a }) in
    let rest = drop packet_header_size a in
    elim (Bool-cases (failed h.1)) [
      | inl bad ↦
          let here : unpack p a ≡ (h.0, 0, h.1) = unpack_as_binary p a empty t long ∙ rw bad refl in
          absurd (failed-no_success h.1 bad (sym (ap (λ (r : Unpacked). r.2) here) ∙ ok))
      | inr good ↦
          let here : unpack p a ≡ unpack_args (missing_args h.0) h.0 rest packet_header_size =
            unpack_as_binary p a empty t long ∙ rw good refl in
          rw here (omega (arith, unpack_args_used (missing_args h.0) h.0 rest packet_header_size))
    ]

-- A packet that is there uses some bytes.
pub unpack_used :
    (p : Packet) (a : Bytes)
    → length p.args ≡ 0
    → (unpack p a).2 ≡ Error.success
    → (0 < (unpack p a).1) × (0 < length a)
unpack_used p a empty ok = elim (Bool-cases (begins_text a)) [
  | inl t ↦ elim (Option-cases (memchr 10 a)) [
    | inl n ↦ absurd (
        success-no_wait (
          sym ok
          ∙ ap (λ (r : Unpacked). r.2) (unpack_as_text p a empty t ∙ unpack_text-none p a n)))
    | inr (k, n) ↦ (
      rw (ap (λ (r : Unpacked). r.1) (unpack_as_text p a empty t) ∙ unpack_text-some p a k n)
          (omega arith),
      begins_text-room a t,
    )
  ]
  | inr t ↦ elim (Bool-cases (ltb (length a) packet_header_size)) [
    | inl short ↦ absurd (
        success-no_wait
          (sym ok ∙ ap (λ (r : Unpacked). r.2) (unpack_short p a empty t (ltb→lt _ _ short))))
    | inr long ↦ (header_used p a empty t (ltb→le _ _ long) ok, omega (arith, ltb→le _ _ long))
  ]
]
