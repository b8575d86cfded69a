-- ===== src/Protocol/Packet/Header.antt =====
-- packet.cc and protocol.cc: the header that `gearmand_packet_pack_header` writes is the one that
-- `gearmand_packet_unpack_header` reads.
use gearmand.Prelude.{
  ℕ, ◌+◌, ◌^◌, ◌<◌, ◌≤◌, ◌≡◌, refl, true, false, ◌∷◌, ◌++◌, length, take, drop, arith, bytes_eq,
}
use gearmand.Protocol.Errors.{Error}
use gearmand.Protocol.Commands.{
  Magic, Command, command_info, command_code, is_beyond, to_command, to_command-code, code-lt-max,
}
use gearmand.Protocol.Packet.{
  Bytes, Packet, pack_header, body_length, be32, magic_bytes, is_text, is_text_command, u32_max,
  packet_header_size,
}
use gearmand.Protocol.Packet.Wire.{read32, unpack_header}

pub read32-be32 : (n : ℕ) → n < 2 ^ 32 → read32 0 (be32 n) ≡ n
read32-be32 n h = omega arith

abbrev pub header : Magic → Command → ℕ → Bytes
header m c n = magic_bytes m ++ (be32 (command_code c) ++ be32 n)

-- What a successful `pack_header` leaves in the buffer.
abbrev pub Written : Packet → Type 0
Written p =
    ((pack_header p).0.args ≡ header p.magic p.command (body_length p) ++ drop 12 p.args)
    × (is_text_command p.command ≡ false)
    × (is_beyond p.command ≡ false)
    × (body_length p < u32_max)

unfoldable pub with_args : Packet → Bytes → Packet
with_args p xs = record p { args = xs }

with_args-Written :
    (p : Packet) (xs : Bytes)
    → is_text p.magic ≡ false
    → 12 ≤ length xs
    → (pack_header (with_args p xs)).1 ≡ Error.success
    → Written (with_args p xs)
unfolding pack_header take drop with_args
with_args-Written p (a ∷ b ∷ c ∷ d ∷ e ∷ f ∷ g ∷ h ∷ i ∷ j ∷ k ∷ l ∷ xs) t room q = ground arith
with_args-Written p _ t room q = absurd (omega arith)

pub pack_header-Written :
    (p : Packet)
    → is_text p.magic ≡ false
    → 12 ≤ length p.args
    → (pack_header p).1 ≡ Error.success
    → Written p
unfolding with_args
pack_header-Written p t room e = with_args-Written p p.args t room e

read_command :
    (m : Magic) (c : Command) (n : ℕ)
    → is_text m ≡ false
    → is_beyond c ≡ false
    → to_command (read32 4 (header m c n)) ≡ c
read_command Magic.text c n t b = cc
read_command m c n t b =
    rw (read32-be32 (command_code c) (omega (arith, code-lt-max c b))) (to_command-code c)

read_size :
    (m : Magic) (c : Command) (n : ℕ) → is_text m ≡ false → n < 2 ^ 32 → read32 8 (header m c n) ≡ n
read_size Magic.text c n t h = cc
read_size m c n t h = omega arith

pub header-Unpacks :
    (q : Packet) (m : Magic) (c : Command) (n : ℕ)
    → is_text m ≡ false
    → is_text_command c ≡ false
    → is_beyond c ≡ false
    → n < 2 ^ 32
    → unpack_header (with_args q (header m c n))
      ≡ (record q { args = header m c n; magic = m; command = c; data_size = n }, Error.success)
unfolding unpack_header take bytes_eq with_args
header-Unpacks q Magic.text c n t tc b h = cc
header-Unpacks q Magic.request c n t tc b h =
    rw (read_command Magic.request c n t b, read_size Magic.request c n t h, tc, b)
header-Unpacks q Magic.response c n t tc b h =
    rw (read_command Magic.response c n t b, read_size Magic.response c n t h, tc, b)

pub take-header :
    (m : Magic) (c : Command) (n : ℕ) (r : Bytes)
    → take packet_header_size (header m c n ++ r) ≡ header m c n
unfolding take
take-header Magic.request c n r = refl
take-header _ c n r = refl

pub drop-header :
    (m : Magic) (c : Command) (n : ℕ) (r : Bytes) → drop packet_header_size (header m c n ++ r) ≡ r
unfolding drop
drop-header Magic.request c n r = refl
drop-header _ c n r = refl

-- The header that `gearmand_packet_pack_header` wrote, where it succeeded on a packet that is no
-- text and whose buffer has room for it, reads back: from its twelve bytes
-- `gearmand_packet_unpack_header` recovers the magic, the command and the length of the body,
-- whatever the reading packet held before.
pub header_round_trip :
    (p q : Packet)
    → is_text p.magic ≡ false
    → 12 ≤ length p.args
    → (pack_header p).1 ≡ Error.success
    → unpack_header (record q { args = take packet_header_size (pack_header p).0.args }) ≡ (
      record q {
        args = take packet_header_size (pack_header p).0.args;
        magic = p.magic;
        command = p.command;
        data_size = body_length p;
      },
      Error.success,
    )
unfolding with_args
header_round_trip p q t room e =
    let w = pack_header-Written p t room e in
    let taken : take packet_header_size (pack_header p).0.args
        ≡ header p.magic p.command (body_length p) =
      rw w.0 (take-header p.magic p.command (body_length p) (drop 12 p.args)) in
    rw taken (header-Unpacks q p.magic p.command (body_length p) t w.1 w.2 (omega (arith, w.3)))

with_args-packs :
    (p : Packet) (xs : Bytes)
    → is_text p.magic ≡ false
    → is_text_command p.command ≡ false
    → is_beyond p.command ≡ false
    → 12 ≤ length xs
    → length xs + p.data_size < 2 ^ 32
    → (pack_header (with_args p xs)).1 ≡ Error.success
unfolding pack_header take drop with_args
with_args-packs p (a ∷ b ∷ c ∷ d ∷ e ∷ f ∷ g ∷ h ∷ i ∷ j ∷ k ∷ l ∷ xs) t tc bc room small =
    ground arith
with_args-packs p _ t tc bc room small = absurd (omega arith)

-- A packet below 4 GiB gets its header.
pub pack_header-success :
    (p : Packet)
    → is_text p.magic ≡ false
    → is_text_command p.command ≡ false
    → is_beyond p.command ≡ false
    → 12 ≤ length p.args
    → length p.args + p.data_size < 2 ^ 32
    → (pack_header p).1 ≡ Error.success
unfolding with_args
pack_header-success p t tc b room small = with_args-packs p p.args t tc b room small

pub has_data-named :
    (c : Command)
    → (command_info c).has_data ≡ true
    → (is_text_command c ≡ false) × (is_beyond c ≡ false)
unfolding command_info command_code is_beyond
has_data-named (Command.beyond n) h = cc
has_data-named _ h = (ground arith, ground arith)
