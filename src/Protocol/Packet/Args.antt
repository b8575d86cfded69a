-- ===== src/Protocol/Packet/Args.antt =====
-- protocol.cc: the loop of `Geartext::unpack` over a packet's arguments.
use gearmand.Prelude.{
  ℕ, suc, ◌+◌, ◌-◌, ◌^◌, ◌<◌, ◌≤◌, ◌≡◌, refl, ap, sym, ◌≢◌, ◌∙◌, true, false, some, List, [], ◌∷◌,
  ◌++◌, length, arith, take-append, drop-append, length-append, ==_self,
}
use mathlib.Core.List.{append-nil, append_assoc}
use gearmand.Protocol.Errors.{Error, failed-success}
use gearmand.Protocol.Commands.{command_info}
use gearmand.Protocol.Packet.{Bytes, Packet, create_arg}
use gearmand.Protocol.Packet.Wire.{unpack_args, memchr, wants_nul, unpack_round}

-- An argument with its NUL, and none before that.
abbrev pub Terminated : Bytes → Type 0
Terminated [] = ⊥
Terminated (b ∷ []) = b ≡ 0
Terminated (b ∷ c ∷ bs) = (b ≢ 0) × Terminated (c ∷ bs)

abbrev pub AllTerminated : List Bytes → Type 0
AllTerminated [] = Unit
AllTerminated (a ∷ xs) = Terminated a × AllTerminated xs

abbrev pub concat : List Bytes → Bytes
concat [] = []
concat (a ∷ xs) = a ++ concat xs

memchr-Terminated :
    (a r : Bytes) → Terminated a → (k : ℕ) × (memchr 0 (a ++ r) ≡ some k) × (k + 1 ≡ length a)
unfolding memchr
memchr-Terminated [] r t = absurd t
memchr-Terminated (b ∷ []) r t = (0, ground arith, omega arith)
memchr-Terminated (b ∷ c ∷ bs) r t =
    let (k, f, l) = memchr-Terminated (c ∷ bs) r t.1 in (suc k, ground arith, omega arith)

-- What one more argument makes of the packet that is read.
abbrev pub received : Packet → List Bytes → Packet
received p xs = record p {
  args = p.args ++ concat xs;
  arg = p.arg ++ xs;
  data_size = p.data_size - length (concat xs);
}

-- One argument of the loop: its bytes are cut off and counted.
abbrev consumed : Packet → Bytes → Packet
consumed p a = record p {
  args = p.args ++ a;
  arg = p.arg ++ a ∷ [];
  data_size = p.data_size - length a;
}

wants_nul-has_data : (p : Packet) → (command_info p.command).has_data ≡ true → wants_nul p ≡ true
unfolding wants_nul
wants_nul-has_data p d = ground arith

wants_nul-before_last :
    (p : Packet) → length p.arg + 1 ≢ (command_info p.command).argc → wants_nul p ≡ true
unfolding wants_nul
wants_nul-before_last p d = ground arith

pub create_arg-append :
    (p : Packet) (a : Bytes)
    → 0 < length p.args
    → length p.arg < (command_info p.command).argc
    → create_arg p a ≡ (record p { args = p.args ++ a; arg = p.arg ++ a ∷ [] }, Error.success)
unfolding create_arg
create_arg-append p a room few = ground arith

unpack_round-nul :
    (p : Packet) (a r : Bytes)
    → Terminated a
    → 0 < length p.args
    → wants_nul p ≡ true
    → length p.arg < (command_info p.command).argc
    → length a ≤ p.data_size
    → p.data_size < 2 ^ 64
    → unpack_round p (a ++ r) ≡ (consumed p a, length a, Error.success)
unfolding unpack_round
unpack_round-nul p a r t room d few fits small =
    let (k, f, l) = memchr-Terminated a r t in
    rw (d, f, l, take-append a r, create_arg-append p a room few, failed-success) (ground arith)

unpack_round-sized :
    (p : Packet) (a r : Bytes)
    → 0 < length p.args
    → (command_info p.command).has_data ≡ false
    → length p.arg + 1 ≡ (command_info p.command).argc
    → p.data_size ≡ length a
    → unpack_round p (a ++ r) ≡ (consumed p a, length a, Error.success)
unfolding unpack_round wants_nul
unpack_round-sized p a r room d few size =
    rw
      (
        d,
        few,
        ==_self,
        size,
        take-append a r,
        create_arg-append (record p { data_size = length a }) a room (omega arith),
        failed-success,
      )
      (ground (arith, length-append a r))

unpack_args_step :
    (n : ℕ) (p : Packet) (a r : Bytes) (used : ℕ)
    → unpack_round p (a ++ r) ≡ (consumed p a, length a, Error.success)
    → unpack_args (suc n) p (a ++ r) used ≡ unpack_args n (consumed p a) r (used + length a)
unfolding unpack_args
unpack_args_step n p a r used e = rw (e, unpack_args, failed-success, e, drop-append a r)

concat-append : (xs ys : List Bytes) → concat (xs ++ ys) ≡ concat xs ++ concat ys
concat-append [] ys = refl
concat-append (x ∷ xs) ys =
    ap (λ z. x ++ z) (concat-append xs ys) ∙ sym (append_assoc x (concat xs) (concat ys))

-- Arguments that all end with a NUL, and behind them the last one, which takes what is left.
pub concat-last : (xs : List Bytes) (a : Bytes) → concat (xs ++ a ∷ []) ≡ concat xs ++ a
concat-last xs a = concat-append xs (a ∷ []) ∙ ap (λ z. concat xs ++ z) (append-nil a)

-- The loop on arguments of a command without a workload.
pub unpack_args-last :
    (xs : List Bytes) (a : Bytes) (p : Packet) (r : Bytes) (used : ℕ)
    → AllTerminated xs
    → 0 < length p.args
    → (command_info p.command).has_data ≡ false
    → length p.arg + length xs + 1 ≡ (command_info p.command).argc
    → p.data_size ≡ length (concat xs) + length a
    → p.data_size < 2 ^ 64
    → unpack_args (suc (length xs)) p (concat xs ++ (a ++ r)) used
      ≡ (received p (xs ++ a ∷ []), used + (length (concat xs) + length a), Error.success)
unfolding unpack_args
unpack_args-last [] a p r used t room d few size small =
    unpack_args_step 0 p a r used (unpack_round-sized p a r room d (omega arith) (omega arith))
    ∙ rw (append-nil a) (ground arith)
unpack_args-last (x ∷ xs) a p r used t room d few size small =
    let sizes = length-append x (concat xs) in
    rw (append_assoc x (concat xs) (a ++ r)) (
      unpack_args_step (suc (length xs)) p x (concat xs ++ (a ++ r)) used (
        unpack_round-nul p x (concat xs ++ (a ++ r)) t.0 room
          (wants_nul-before_last p (λ e. omega arith)) (omega arith) (omega arith) small)
      ∙ (unpack_args-last xs a (consumed p x) r (used + length x) t.1
            (omega (arith, length-append p.args x)) d (omega (arith, length-append p.arg (x ∷ [])))
            (omega arith) (omega arith)
          ∙ rw
              (
                append_assoc p.args x (concat (xs ++ a ∷ [])),
                append_assoc p.arg (x ∷ []) (xs ++ a ∷ []),
                sizes,
                length-append x (concat (xs ++ a ∷ [])),
              )
              (ground arith)))

-- The loop on arguments that all end with a NUL.
pub unpack_args-received :
    (xs : List Bytes) (p : Packet) (r : Bytes) (used : ℕ)
    → AllTerminated xs
    → 0 < length p.args
    → (command_info p.command).has_data ≡ true
    → length p.arg + length xs ≡ (command_info p.command).argc
    → length (concat xs) ≤ p.data_size
    → p.data_size < 2 ^ 64
    → unpack_args (length xs) p (concat xs ++ r) used
      ≡ (received p xs, used + length (concat xs), Error.success)
unfolding unpack_args
unpack_args-received [] p r used t room d few fits small = simp append-nil (ground arith)
unpack_args-received (a ∷ xs) p r used t room d few fits small =
    let sizes = length-append a (concat xs) in
    rw (append_assoc a (concat xs) r) (
      unpack_args_step (length xs) p a (concat xs ++ r) used (
        unpack_round-nul p a (concat xs ++ r) t.0 room (wants_nul-has_data p d) (omega arith)
          (omega arith) small)
      ∙ (unpack_args-received xs (consumed p a) r (used + length a) t.1
            (omega (arith, length-append p.args a)) d (omega (arith, length-append p.arg (a ∷ [])))
            (omega arith) (omega arith)
          ∙ rw (append_assoc p.args a (concat xs), append_assoc p.arg (a ∷ []) xs, sizes)
              (ground arith)))
