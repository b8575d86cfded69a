-- ===== src/Protocol/Packet/Wire.antt =====
-- libgearman-server/plugins/protocol/gear/protocol.cc: bytes that a connection received, to a packet.
use gearmand.Prelude.{
  ℕ, zero, suc, ◌+◌, ◌-◌, ◌*◌, ◌%◌, ◌^◌, true, false, not, ◌||◌, Option, none, some, [], ◌∷◌,
  length, take, drop, get_or, ltb, ◌==◌, if◌then◌else◌, bytes_eq, Bool,
}
use gearmand.Protocol.Errors.{Error, failed}
use gearmand.Protocol.Commands.{Magic, command_info, to_command, is_beyond}
use gearmand.Protocol.Packet.{
  Bytes, Packet, create_arg, magic_bytes, is_text_command, packet_header_size,
}

-- `ntohl` of the four bytes at `at`.
abbrev pub read32 : ℕ → Bytes → ℕ
read32 at b =
    ((get_or b at 0 * 256 + get_or b (at + 1) 0) * 256 + get_or b (at + 2) 0) * 256
    + get_or b (at + 3) 0

abbrev unpack_numbers : Packet → Packet × Error
unpack_numbers p =
    let c = to_command (read32 4 p.args) in
    if is_text_command c || is_beyond c
    then (record p { command = c }, Error.invalid_command)
    else (record p { command = c; data_size = read32 8 p.args }, Error.success)

-- `gearmand_packet_unpack_header`
unfoldable pub unpack_header : Packet → Packet × Error
unpack_header p =
    if bytes_eq (take 4 p.args) (magic_bytes Magic.request)
    then unpack_numbers (record p { magic = Magic.request })
    else if bytes_eq (take 4 p.args) (magic_bytes Magic.response)
    then unpack_numbers (record p { magic = Magic.response })
    else (p, Error.invalid_magic)

-- `memchr`: the place of the byte.
unfoldable pub memchr : ℕ → Bytes → Option ℕ
memchr c [] = none
memchr c (b ∷ bs) = elim (b == c) [
  | true ↦ some 0
  | false ↦ elim (memchr c bs) [ none ↦ none | some k ↦ some (suc k) ]
]

-- A packet, the number of bytes used, and the result.
abbrev pub Unpacked : Type 0
Unpacked = Packet × ℕ × Error

-- `packet->data_size -= arg_size` on `size_t`
abbrev pub sub64 : ℕ → ℕ → ℕ
sub64 a b = (a + 2 ^ 64 - b % 2 ^ 64) % 2 ^ 64

-- The test of a round: is the next argument one that ends with a NUL?
unfoldable pub wants_nul : Packet → Bool
wants_nul p =
    not (length p.arg + 1 == (command_info p.command).argc) || (command_info p.command).has_data

abbrev counted : ℕ → Packet × Error → Unpacked
counted n (q, e) =
    if failed e then (q, 0, e) else (record q { data_size = sub64 q.data_size n }, n, Error.success)

abbrev nul_arg : Packet → Bytes → Option ℕ → Unpacked
nul_arg p rest none = (p, 0, Error.io_wait)
nul_arg p rest (some k) = counted (k + 1) (create_arg p (take (k + 1) rest))

abbrev emptied : ℕ → Packet × Error → Unpacked
emptied n (q, e) = if failed e then (q, 0, e) else (record q { data_size = 0 }, n, Error.success)

abbrev sized_arg : Packet → Bytes → Unpacked
sized_arg p rest =
    if ltb (length rest) p.data_size
    then (p, 0, Error.io_wait)
    else emptied p.data_size (create_arg p (take p.data_size rest))

-- One round of the `while` loop: the packet, the bytes that it uses of `rest`, and the result.
unfoldable pub unpack_round : Packet → Bytes → Unpacked
unpack_round p rest = if wants_nul p then nul_arg p rest (memchr 0 rest) else sized_arg p rest

-- The `while` loop over the arguments that are missing; each round that goes on adds one, so the
-- number of missing arguments bounds the rounds. `rest` is what lies behind the `used` bytes.
unfoldable pub unpack_args : ℕ → Packet → Bytes → ℕ → Unpacked
unpack_args zero p rest used = (p, used, Error.success)
unpack_args (suc n) p rest used = elim (failed (unpack_round p rest).2) [
  | true ↦ ((unpack_round p rest).0, used, (unpack_round p rest).2)
  | false ↦
      unpack_args n (unpack_round p rest).0 (drop (unpack_round p rest).1 rest)
        (used + (unpack_round p rest).1)
]

abbrev pub missing_args : Packet → ℕ
missing_args p = (command_info p.command).argc - length p.arg

abbrev pub after_header : Packet × Error → Bytes → Unpacked
after_header (p, e) rest =
    if failed e then (p, 0, e) else unpack_args (missing_args p) p rest packet_header_size

-- The binary part of `Geartext::unpack`: the first byte is 0, or a packet is already begun.
unfoldable pub unpack_binary : Packet → Bytes → Unpacked
unpack_binary p bytes =
    if length p.args == 0
    then (if ltb (length bytes) packet_header_size
        then (p, 0, Error.io_wait)
        else after_header (unpack_header (record p { args = take packet_header_size bytes }))
            (drop packet_header_size bytes))
    else unpack_args (missing_args p) p bytes 0
