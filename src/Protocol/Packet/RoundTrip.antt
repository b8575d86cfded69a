-- ===== src/Protocol/Packet/RoundTrip.antt =====
-- packet.cc and protocol.cc: the arguments of a packet survive the way over the wire.
use gearmand.Prelude.{
  ℕ, suc, ◌+◌, ◌-◌, ◌^◌, ◌<◌, ◌≡◌, refl, ◌∙◌, true, false, List, [], ◌∷◌, ◌++◌, length, drop, arith,
  length-append, le→ltb,
}
use mathlib.Core.List.{append_assoc}
use gearmand.Protocol.Errors.{Error, failed-success}
use gearmand.Protocol.Commands.{Magic, Command, command_info, is_beyond}
use gearmand.Protocol.Packet.{
  Bytes, Packet, reset, pack_header, body_length, is_text, is_text_command, packet_header_size,
  create_args,
}
use gearmand.Protocol.Packet.Wire.{unpack_binary, unpack_args, missing_args}
use gearmand.Protocol.Packet.Header.{
  header, header-Unpacks, pack_header-Written, has_data-named, pack_header-success, with_args,
  take-header, drop-header,
}
use gearmand.Protocol.Packet.Args.{AllTerminated, concat, unpack_args-received}
use gearmand.Protocol.Packet.Sending.{sent, create_args-sent}

-- What the other side reads: the packet without its workload, whose bytes are still to come.
abbrev pub read_back : Magic → Command → List Bytes → Bytes → Packet
read_back m c xs d = record (reset Magic.text Command.text) {
  magic = m;
  command = c;
  args = header m c (length (concat xs) + length d) ++ concat xs;
  arg = xs;
  data_size = length d;
}

pub minus_zero : (n : ℕ) → n - 0 ≡ n
minus_zero n = omega arith

pub length-header : (m : Magic) (c : Command) (n : ℕ) → length (header m c n) ≡ 12
length-header Magic.request c n = refl
length-header _ c n = refl

-- A header at the front of the bytes is read, and the loop goes on behind it.
pub unpack_binary-header :
    (p : Packet) (m : Magic) (c : Command) (n : ℕ) (r : Bytes)
    → p.args ≡ []
    → is_text m ≡ false
    → is_text_command c ≡ false
    → is_beyond c ≡ false
    → n < 2 ^ 32
    → let q = record p { args = header m c n; magic = m; command = c; data_size = n } in
      unpack_binary p (header m c n ++ r) ≡ unpack_args (missing_args q) q r packet_header_size
unfolding unpack_binary with_args
unpack_binary-header p m c n r e t tc b h = rw (
  e,
  le→ltb (length (header m c n ++ r)) 12
      (omega (arith, length-append (header m c n) r, length-header m c n)),
  take-header m c n r,
  drop-header m c n r,
  header-Unpacks p m c n t tc b h,
  failed-success,
)

-- A request or response whose command has a workload and at least one argument, with as many
-- arguments as the command has, each ended by its only NUL, and less than 2^32 - 1 bytes in all,
-- survives the wire: the
-- arguments are added in turn, the header is packed, buffer and workload are sent, and
-- `Geartext::unpack` on those bytes gives back magic, command, arguments and the workload's size,
-- having used the header and the arguments and left the workload.
pub wire_round_trip :
    (m : Magic) (c : Command) (a : Bytes) (xs : List Bytes) (d : Bytes)
    → is_text m ≡ false
    → (command_info c).has_data ≡ true
    → length (a ∷ xs) ≡ (command_info c).argc
    → AllTerminated (a ∷ xs)
    → length (concat (a ∷ xs)) + length d + 12 < 2 ^ 32 - 1
    → unpack_binary
        (reset Magic.text Command.text)
        ((pack_header (create_args (reset m c) ((a ∷ xs) ++ d ∷ [])).0).0.args ++ d)
      ≡ (read_back m c (a ∷ xs) d, 12 + length (concat (a ∷ xs)), Error.success)
unfolding unpack_binary reset drop
wire_round_trip m c a xs d t h full ended small =
    let p = sent m c (a ∷ xs) d in
    let named = has_data-named c h in
    let ok = pack_header-success p t named.0 named.1 (omega arith) (omega arith) in
    let w = pack_header-Written p t (omega arith) ok in
    let n : ℕ = length (concat (a ∷ xs)) + length d in
    let size : body_length p ≡ n = omega arith in
    let r = record (reset Magic.text Command.text) {
      args = header m c n;
      magic = m;
      command = c;
      data_size = n;
    } in
    rw
      (
        create_args-sent m c a xs d t h full,
        w.0,
        size,
        append_assoc (header m c n) (concat (a ∷ xs)) d,
        unpack_binary-header (reset Magic.text Command.text) m c n (concat (a ∷ xs) ++ d) refl t
            named.0 named.1 (omega arith),
        ← full,
        minus_zero (suc (length xs)),
      )
      (unpack_args-received (a ∷ xs) r d 12 ended (omega (arith, length-header m c n)) h
          (omega arith) (omega arith) (omega arith)
        ∙ ground arith)
