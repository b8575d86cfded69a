-- ===== src/Protocol/Packet.antt =====
-- libgearman-server/struct/packet.h and packet.cc: a packet, its arguments and its header.
-- `args` holds the `args_size` bytes of the buffer; the header's bytes are 0 until they are written,
-- and `arg` the arguments that lie behind it. Sizes are lengths of byte strings.
pub mod Header
pub mod Wire
pub mod Args
pub mod Sending
pub mod RoundTrip
pub mod Plain
pub mod Text
pub mod Resume
use gearmand.Prelude.{
  ℕ, ◌+◌, ◌-◌, ◌/◌, ◌%◌, ◌^◌, ◌<◌, ◌≡◌, refl, Bool, true, false, not, ◌&&◌, ◌||◌, Option, none,
  some, List, [], ◌∷◌, ◌++◌, length, take, drop, leb, ltb, ◌==◌, if◌then◌else◌, arith,
}
use gearmand.Protocol.Errors.{Error, failed}
use gearmand.Protocol.Commands.{Magic, Command, CommandInfo, command_info, command_code, is_beyond}

abbrev pub Bytes : Type 0
Bytes = List ℕ

pub record Packet : Type 0 where
  pub complete : Bool
  pub free_data : Bool
  pub magic : Magic
  pub command : Command
  pub args : Bytes
  pub arg : List Bytes
  pub workload : Option Bytes
  pub data_size : ℕ

abbrev pub packet_header_size : ℕ
packet_header_size = 12

abbrev pub blank_header : Bytes
blank_header = 0 ∷ 0 ∷ 0 ∷ 0 ∷ 0 ∷ 0 ∷ 0 ∷ 0 ∷ 0 ∷ 0 ∷ 0 ∷ 0 ∷ []

-- `gearmand_packet_st::reset`
unfoldable pub reset : Magic → Command → Packet
reset m c = record {
  complete = false;
  free_data = false;
  magic = m;
  command = c;
  args = [];
  arg = [];
  workload = none;
  data_size = 0;
}

abbrev pub is_text : Magic → Bool
is_text Magic.text = true
is_text Magic.request = false
is_text Magic.response = false

abbrev pub is_some : Option Bytes → Bool
is_some none = false
is_some (some a) = true

-- The buffer that the next argument is put behind.
abbrev pub args_base : Packet → Bytes
args_base p = if (length p.args == 0) && not (is_text p.magic) then blank_header else p.args

abbrev pub append_arg : Packet → Bytes → Packet
append_arg p a = record p { args = args_base p ++ a; arg = p.arg ++ a ∷ [] }

-- `packet_create_arg`, the body of `gearmand_packet_create`.
unfoldable pub create_arg : Packet → Bytes → Packet × Error
create_arg p a =
    let info = command_info p.command in
    if (length p.arg == info.argc) && (not info.has_data || is_some p.workload)
    then (p, Error.too_many_args)
    else if length p.arg == info.argc
    then (record p { workload = some a; data_size = length a }, Error.success)
    else (append_arg p a, Error.success)

-- One argument after the other, up to the first error, as `gearman_server_io_packet_add` does.
unfoldable pub create_args : Packet → List Bytes → Packet × Error
create_args p [] = (p, Error.success)
create_args p (a ∷ r) = elim (failed (create_arg p a).1) [
  | true ↦ create_arg p a
  | false ↦ create_args (create_arg p a).0 r
]

-- `memcpy(buffer + at, bytes, n)` within the buffer.
abbrev pub overwrite : ℕ → Bytes → Bytes → Bytes
overwrite at bytes buffer = take at buffer ++ (bytes ++ drop (at + length bytes) buffer)

-- `htonl`, and the four bytes of the result.
abbrev pub be32 : ℕ → Bytes
be32 n = (n / 2 ^ 24 % 256) ∷ (n / 2 ^ 16 % 256) ∷ (n / 2 ^ 8 % 256) ∷ (n % 256) ∷ []

abbrev pub magic_bytes : Magic → Bytes
magic_bytes Magic.request = 0 ∷ b'R' ∷ b'E' ∷ b'Q' ∷ []
magic_bytes _ = 0 ∷ b'R' ∷ b'E' ∷ b'S' ∷ []

abbrev pub is_text_command : Command → Bool
is_text_command c = command_code c == 0

abbrev pub with_header : Packet → Packet
with_header p = if length p.args == 0 then record p { args = blank_header } else p

abbrev pub with_magic : Packet → Packet
with_magic p = record p { args = overwrite 0 (magic_bytes p.magic) p.args }

abbrev pub with_command : Packet → Packet
with_command p = record p { args = overwrite 4 (be32 (command_code p.command)) p.args }

abbrev pub u32_max : ℕ
u32_max = 2 ^ 32 - 1

-- `args_size + data_size - GEARMAND_PACKET_HEADER_SIZE` on `uint64_t`
abbrev pub body_length : Packet → ℕ
body_length p = (length p.args + p.data_size + 2 ^ 64 - packet_header_size) % 2 ^ 64

pack_length : Packet → Packet × Error
pack_length p =
    if leb u32_max (body_length p) || ltb (body_length p) p.data_size
    then (p, Error.argument_too_large)
    else (
      record p { args = overwrite 8 (be32 (body_length p)) p.args; complete = true },
      Error.success,
    )

pack_binary : Packet → Packet × Error
unfolding pack_length
pack_binary p =
    if is_text_command p.command || is_beyond p.command
    then (with_magic p, Error.invalid_command)
    else pack_length (with_command (with_magic p))

-- `gearmand_packet_pack_header`
unfoldable pub pack_header : Packet → Packet × Error
unfolding pack_binary
pack_header p =
    if is_text p.magic
    then (record p { complete = true }, Error.success)
    else pack_binary (with_header p)

-- `gearmand_packet_free`: the buffer and an owned workload are released.
unfoldable pub packet_free : Packet → Packet
packet_free p = record p { args = []; workload = if p.free_data then none else p.workload }
