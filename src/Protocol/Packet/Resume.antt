-- ===== src/Protocol/Packet/Resume.antt =====
-- protocol.cc: a packet whose bytes come in parts.
pub mod Rounds
pub mod Loop
pub mod Bounds
pub mod Settled
use gearmand.Prelude.{
  take-append_le, drop-append_le, drop-drop, length-drop, length-take, ℕ, zero, suc, ◌+◌, ◌-◌, ◌*◌,
  ◌/◌, ◌%◌, ◌^◌, ◌≤◌, ◌<◌, ◌≡◌, ◌≢◌, ◌⊎◌, inl, inr, refl, sym, ap, ◌∙◌, Bool, true, false, not,
  ◌&&◌, ◌||◌, Option, none, some, List, [], ◌∷◌, ◌++◌, map, length, take, drop, get_or, remove,
  contains, bytes_eq, c_str, codes, head?, tail, update, inc32, dec32, inc8, ℤ, pos, negsuc,
  is_zero, gt_now, is_positive, leb_ℤ, print_u32, read_decimal, ltb, leb, ◌==◌, if◌then◌else◌,
  Bool-cases, Option-cases, arith, le→ltb, ltb→lt, ltb→le, length-append, ==_self, bytes_eq_self,
  bytes_eq→eq, ==→eq,
}
use native.Mathlib.Nat.{add_assoc, add-zero, zero-add, suc-add}
use gearmand.Protocol.Errors.{Error, failed, failed-success}
use gearmand.Protocol.Commands.{Magic, Command, command_info}
use gearmand.Protocol.Packet.{Bytes, Packet, create_arg, append_arg, args_base, packet_header_size}
use gearmand.Protocol.Packet.Wire.{
  Unpacked, memchr, unpack_binary, unpack_round, unpack_args, missing_args, after_header,
  unpack_header, wants_nul, sub64,
}
use gearmand.Protocol.Packet.Text.{
  unpack, unpack_text, text_args, word_at, behind_word, as_text, ended_line, begins_text,
}
use Loop.{unpack_args_used, shifted, shifted_zero, unpack_args-shifted, unpack_args-cases, Waits}

create_arg-no_wait : (p : Packet) (a : Bytes) → (create_arg p a).1 ≢ Error.io_wait
unfolding create_arg
create_arg-no_wait p a = ground arith

text_args-no_wait : (n : ℕ) (p : Packet) (r : Bytes) → (text_args n p r).1 ≢ Error.io_wait
unfolding text_args
text_args-no_wait zero p r = λ e. cc
text_args-no_wait (suc n) p r = elim (Option-cases (memchr b' ' r)) [
  | inl e ↦ rw (text_args, e) (create_arg-no_wait p r)
  | inr (k, e) ↦ elim (Bool-cases (failed (create_arg p (word_at k r)).1)) [
    | inl bad ↦ rw (text_args, e, bad) (create_arg-no_wait p (word_at k r))
    | inr good ↦ rw (text_args, e, good) (text_args-no_wait n _ (behind_word k r))
  ]
]

unpack_header-no_wait : (p : Packet) → (unpack_header p).1 ≢ Error.io_wait
unfolding unpack_header
unpack_header-no_wait p = ground arith

unpack_header-args : (p : Packet) → (unpack_header p).0.args ≡ p.args
unfolding unpack_header
unpack_header-args p = ground arith

unpack_text-waits :
    (p : Packet) (a : Bytes)
    → (unpack_text p a).2 ≡ Error.io_wait
    → unpack_text p a ≡ (p, 0, Error.io_wait)
unfolding unpack_text
unpack_text-waits p a e = elim (Option-cases (memchr 10 a)) [
  | inl n ↦ rw n refl
  | inr (k, n) ↦ absurd (text_args-no_wait (k + 1) (as_text p) (ended_line k a) (rw n at e))
]

module _ (p : Packet) (a : Bytes) where
  unpack_begun : 0 < length p.args → unpack p a ≡ unpack_args (missing_args p) p a 0
  unfolding unpack unpack_binary
  unpack_begun room = ground arith

  unpack_as_text : length p.args ≡ 0 → begins_text a ≡ true → unpack p a ≡ unpack_text p a
  unfolding unpack
  unpack_as_text empty t = rw (empty, t) refl

  unpack_short :
      length p.args ≡ 0
      → begins_text a ≡ false
      → length a < packet_header_size
      → unpack p a ≡ (p, 0, Error.io_wait)
  unfolding unpack unpack_binary
  unpack_short empty t short = rw (empty, t) (ground arith)

  unpack_as_binary :
      length p.args ≡ 0
      → begins_text a ≡ false
      → packet_header_size ≤ length a
      → unpack p a
        ≡ after_header
            (unpack_header (record p { args = take packet_header_size a }))
            (drop packet_header_size a)
  unfolding unpack unpack_binary
  unpack_as_binary empty t long = rw (empty, t) (ground arith)

-- What is to be shown of a packet and the bytes so far, for all that may follow.
abbrev pub Resumes : Packet → Bytes → Bytes → Type 0
Resumes p a b =
    unpack p (a ++ b) ≡ shifted (unpack p a).1 (unpack (unpack p a).0 (drop (unpack p a).1 a ++ b))

Resumes-unchanged : (p : Packet) (a b : Bytes) → unpack p a ≡ (p, 0, Error.io_wait) → Resumes p a b
unfolding drop
Resumes-unchanged p a b e = rw e (sym (shifted_zero (unpack p (a ++ b))))

-- The loop over the arguments, begun after some used bytes, and taken up by the next call.
args_resume :
    (q : Packet) (rest b : Bytes) (used taken : ℕ) (from : Packet)
    → 0 < length from.args
    → unpack_args (missing_args from) from (drop taken rest ++ b) (used + taken)
      ≡ shifted (used + taken) (unpack from (drop taken rest ++ b))
args_resume q rest b used taken from room =
    rw
      (
        unpack_begun from (drop taken rest ++ b) room,
        ← unpack_args-shifted (missing_args from) from (drop taken rest ++ b) (used + taken) 0,
      )
      (rw add-zero refl)

success-no_wait : Error.success ≢ Error.io_wait
success-no_wait e = cc

Resumes-begun :
    (p : Packet) (a b : Bytes) → 0 < length p.args → (unpack p a).2 ≡ Error.io_wait → Resumes p a b
Resumes-begun p a b room e = elim (unpack_args-cases (missing_args p) p a 0 refl) [
  | inl done ↦ absurd (success-no_wait (sym (rw (unpack_begun p a room) done) ∙ e))
  | inr w ↦
      let now = unpack_begun p a room ∙ w.waits in
      let later = w.later b ∙ args_resume p a b 0 w.taken w.from (omega (arith, w.kept)) in
      rw (now, unpack_begun p (a ++ b) room, zero-add w.taken) (rw (zero-add w.taken) at later)
]

begins_text-append : (a b : Bytes) → 0 < length a → begins_text (a ++ b) ≡ begins_text a
begins_text-append [] b h = absurd (omega arith)
begins_text-append (x ∷ xs) b h = refl

-- A packet of which the header is among the bytes.
module _ (p : Packet) (a b : Bytes) (empty : length p.args ≡ 0) (t : begins_text a ≡ false) where
  module _ (long : packet_header_size ≤ length a) where
    header_read : Packet × Error
    header_read = unpack_header (record p { args = take packet_header_size a })

    header_room : 0 < length header_read.0.args
    unfolding header_read
    header_room =
        rw
          (
            unpack_header-args (record p { args = take packet_header_size a }),
            length-take packet_header_size a long,
          )
          (omega arith)

    header_more : unpack p (a ++ b) ≡ after_header header_read (drop packet_header_size a ++ b)
    unfolding header_read
    header_more =
        unpack_as_binary p (a ++ b) empty (begins_text-append a b (omega arith) ∙ t)
          (omega (arith, length-append a b))
        ∙ rw
            (take-append_le packet_header_size a b long, drop-append_le packet_header_size a b long)
            refl

    Resumes-header : (unpack p a).2 ≡ Error.io_wait → Resumes p a b
    unfolding header_read
    Resumes-header e = elim (Bool-cases (failed header_read.1)) [
      | inl bad ↦ absurd (
          unpack_header-no_wait (record p { args = take packet_header_size a })
            (rw (unpack_as_binary p a empty t long, bad) at e))
      | inr good ↦
          let q = header_read.0 in
          let rest = drop packet_header_size a in
          let here : unpack p a ≡ unpack_args (missing_args q) q rest packet_header_size =
            unpack_as_binary p a empty t long ∙ rw good refl in
          let there : unpack p (a ++ b)
              ≡ unpack_args (missing_args q) q (rest ++ b) packet_header_size =
            header_more ∙ rw good refl in
          elim (unpack_args-cases (missing_args q) q rest packet_header_size refl) [
            | inl done ↦
                absurd (success-no_wait (sym done ∙ ap (λ (r : Unpacked). r.2) (sym here) ∙ e))
            | inr w ↦
                rw (here ∙ w.waits, there)
                  (w.later b
                    ∙ (args_resume q rest b packet_header_size w.taken w.from
                          (omega (arith, header_room, w.kept))
                        ∙ rw (drop-drop w.taken packet_header_size a) refl))
          ]
    ]

-- Waiting for more loses nothing: where `Geartext::unpack` asks for more bytes, to go on with what it
-- left and with what it did not use, once more has come, gives what it gives on all the bytes at once.
pub unpack-Resumes :
    (p : Packet) (a b : Bytes)
    → (unpack p a).2 ≡ Error.io_wait
    → unpack p (a ++ b)
      ≡ shifted (unpack p a).1 (unpack (unpack p a).0 (drop (unpack p a).1 a ++ b))
unpack-Resumes p a b e = elim (Bool-cases (length p.args == 0)) [
  | inr begun ↦ Resumes-begun p a b (ground arith) e
  | inl none_yet ↦
      let empty : length p.args ≡ 0 = ==→eq _ _ none_yet in
      elim (Bool-cases (begins_text a)) [
        | inl t ↦
            let here = unpack_as_text p a empty t in
            Resumes-unchanged p a b (here ∙ unpack_text-waits p a (rw here at e))
        | inr t ↦ elim (Bool-cases (ltb (length a) packet_header_size)) [
          | inl short ↦ Resumes-unchanged p a b (unpack_short p a empty t (ltb→lt _ _ short))
          | inr long ↦ Resumes-header p a b empty t (ltb→le _ _ long) e
        ]
      ]
]
