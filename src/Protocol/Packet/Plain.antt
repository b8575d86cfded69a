-- ===== src/Protocol/Packet/Plain.antt =====
-- packet.cc and protocol.cc: the arguments of a command without a workload survive the wire.
use gearmand.Prelude.{
  ℕ, suc, ◌+◌, ◌-◌, ◌^◌, ◌<◌, ◌≤◌, ◌≡◌, refl, sym, ap, ◌∙◌, false, List, [], ◌∷◌, ◌++◌, length,
  drop, arith, length-append,
}
use mathlib.Core.List.{append_assoc}
use gearmand.Protocol.Errors.{Error}
use gearmand.Protocol.Commands.{Magic, Command, command_info, is_beyond}
use gearmand.Protocol.Packet.{
  Bytes, Packet, reset, pack_header, body_length, is_text, is_text_command, create_args,
}
use gearmand.Protocol.Packet.Wire.{unpack_binary, unpack_args, missing_args}
use gearmand.Protocol.Packet.Header.{header, pack_header-Written, pack_header-success}
use gearmand.Protocol.Packet.Args.{AllTerminated, concat, concat-last, unpack_args-last}
use gearmand.Protocol.Packet.Sending.{bare, create_args-bare}
use gearmand.Protocol.Packet.RoundTrip.{length-header, unpack_binary-header}

-- What the other side reads.
abbrev pub read_plain : Magic → Command → List Bytes → Packet
read_plain m c xs = record (reset Magic.text Command.text) {
  magic = m;
  command = c;
  args = header m c (length (concat xs)) ++ concat xs;
  arg = xs;
}

-- The bytes of the packet that these arguments make.
abbrev pub packed_bytes : Magic → Command → List Bytes → Bytes
packed_bytes m c xs = (pack_header (create_args (reset m c) xs).0).0.args

module _ (m : Magic) (c : Command) (t : is_text m ≡ false) (named : is_text_command c ≡ false)
    (known : is_beyond c ≡ false) where
  packed_bytes-made :
      (a : Bytes) (xs : List Bytes)
      → length (a ∷ xs) ≤ (command_info c).argc
      → length (concat (a ∷ xs)) + 12 < 2 ^ 32 - 1
      → packed_bytes m c (a ∷ xs) ≡ header m c (length (concat (a ∷ xs))) ++ concat (a ∷ xs)
  unfolding drop reset
  packed_bytes-made a xs few small =
      let p = bare m c (a ∷ xs) in
      let ok = pack_header-success p t named known (omega arith) (omega arith) in
      let w = pack_header-Written p t (omega arith) ok in
      let size : body_length p ≡ length (concat (a ∷ xs)) = omega arith in
      ap (λ (z : Packet × Error). (pack_header z.0).0.args) (create_args-bare m c a xs t few)
      ∙ (w.0 ∙ ap (λ n. header m c n ++ concat (a ∷ xs)) size)

  plain_read :
      (xs : List Bytes) (a r : Bytes)
      → (command_info c).has_data ≡ false
      → length xs + 1 ≡ (command_info c).argc
      → AllTerminated xs
      → length (concat (xs ++ a ∷ [])) < 2 ^ 32
      → unpack_binary
          (reset Magic.text Command.text)
          ((header m c (length (concat (xs ++ a ∷ []))) ++ concat (xs ++ a ∷ [])) ++ r)
        ≡ (read_plain m c (xs ++ a ∷ []), 12 + length (concat (xs ++ a ∷ [])), Error.success)
  unfolding reset
  plain_read xs a r d full ended small =
      let n : ℕ = length (concat (xs ++ a ∷ [])) in
      let p = reset Magic.text Command.text in
      let q = record p { args = header m c n; magic = m; command = c; data_size = n } in
      let sizes = ap length (concat-last xs a) ∙ length-append (concat xs) a in
      let bytes = ap (λ z. z ++ r) (concat-last xs a) ∙ append_assoc (concat xs) a r in
      let missing : missing_args q ≡ suc (length xs) = omega (arith, full) in
      let last =
        unpack_args-last xs a q r 12 ended (omega (arith, length-header m c n)) d
          (omega (arith, full)) sizes (omega (arith, small)) in
      let none_left : n - n ≡ 0 = omega arith in
      ap (unpack_binary p) (append_assoc (header m c n) (concat (xs ++ a ∷ [])) r)
      ∙ (unpack_binary-header p m c n (concat (xs ++ a ∷ []) ++ r) refl t named known small
          ∙ (ap (λ k. unpack_args k q (concat (xs ++ a ∷ []) ++ r) 12) missing
              ∙ (ap (λ z. unpack_args (suc (length xs)) q z 12) bytes
                  ∙ (last ∙ λ i. (
                    record (read_plain m c (xs ++ a ∷ [])) { data_size = none_left i },
                    12 + sym sizes i,
                    Error.success,
                  )))))

made_of :
    (m : Magic) (c : Command) (xs : List Bytes) (a : Bytes)
    → is_text m ≡ false
    → is_text_command c ≡ false
    → is_beyond c ≡ false
    → length (xs ++ a ∷ []) ≤ (command_info c).argc
    → length (concat (xs ++ a ∷ [])) + 12 < 2 ^ 32 - 1
    → packed_bytes m c (xs ++ a ∷ [])
      ≡ header m c (length (concat (xs ++ a ∷ []))) ++ concat (xs ++ a ∷ [])
made_of m c [] a t named known few small = packed_bytes-made m c t named known a [] few small
made_of m c (x ∷ xs) a t named known few small =
    packed_bytes-made m c t named known x (xs ++ a ∷ []) few small

-- A request or response whose command has no workload and at least one argument, with as many
-- arguments as the command has, each but the last ended by its only NUL, the last of any bytes, and
-- less than 2^32 - 1 bytes in all, survives the wire: the arguments are added in turn and the header
-- is packed, and `Geartext::unpack` on those bytes, whatever comes behind them, gives back magic,
-- command and arguments, with no data left to come, having used the packet and no more.
pub plain_round_trip :
    (m : Magic) (c : Command) (xs : List Bytes) (a r : Bytes)
    → is_text m ≡ false
    → is_text_command c ≡ false
    → is_beyond c ≡ false
    → (command_info c).has_data ≡ false
    → length xs + 1 ≡ (command_info c).argc
    → AllTerminated xs
    → length (concat (xs ++ a ∷ [])) + 12 < 2 ^ 32 - 1
    → unpack_binary (reset Magic.text Command.text) (packed_bytes m c (xs ++ a ∷ []) ++ r)
      ≡ (read_plain m c (xs ++ a ∷ []), 12 + length (concat (xs ++ a ∷ [])), Error.success)
plain_round_trip m c xs a r t named known d full ended small =
    let few : length (xs ++ a ∷ []) ≤ (command_info c).argc =
      omega (arith, full, length-append xs (a ∷ [])) in
    ap (λ z. unpack_binary (reset Magic.text Command.text) (z ++ r))
      (made_of m c xs a t named known few small)
    ∙ plain_read m c t named known xs a r d full ended (omega (arith, small))
