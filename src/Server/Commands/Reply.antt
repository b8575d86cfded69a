-- ===== src/Server/Commands/Reply.antt =====
-- server.cc: replies that the handlers share.
use gearmand.Prelude.{
  ℕ, ◌+◌, ◌-◌, ◌%◌, ◌^◌, Bool, false, ◌&&◌, Option, none, some, List, [], ◌∷◌, ◌++◌, map, length,
  take, get_or, bytes_eq, c_str, leb, if◌then◌else◌,
}
use gearmand.Protocol.Errors.{Error, failed}
use gearmand.Protocol.Commands.{Magic, Command}
use gearmand.Protocol.Strings.{ReturnCode, error_code_string}
use gearmand.Protocol.Packet.{Bytes, Packet}
use gearmand.Server.State.{Server}
use gearmand.Server.Io.{io_packet_add}

-- A string with its NUL.
abbrev pub with_nul : Bytes → Bytes
with_nul b = b ++ 0 ∷ []

-- A response that does not take the data over.
abbrev pub respond : Server → ℕ → Command → List Bytes → Server × Error
respond s con command args = io_packet_add s con false Magic.response command args

-- `_server_error_packet`
unfoldable pub error_packet : Server → ℕ → ReturnCode → Bytes → Server × Error
error_packet s con code text =
    respond s con Command.error (with_nul (error_code_string code) ∷ (text ∷ []))

-- The argument at a place, and the argument less its last byte, which is its NUL.
abbrev pub arg_at : Packet → ℕ → Bytes
arg_at p n = get_or p.arg n []

abbrev pub chopped : Bytes → Bytes
chopped a = take (length a - 1) a

-- `arg_size - 1` on `size_t`
abbrev pub size_less_one : Bytes → ℕ
size_less_one a = (length a + (2 ^ 64 - 1)) % 2 ^ 64

-- An argument that is left out where the pointer is NULL.
abbrev pub data_args : Option Bytes → List Bytes
data_args none = []
data_args (some d) = d ∷ []

-- ASCII letters in lower case, and `strcasecmp(a, b) == 0` of two C strings.
abbrev lower : ℕ → ℕ
lower c = if leb 65 c && leb c 90 then c + 32 else c

unfoldable pub case_eq : Bytes → Bytes → Bool
case_eq a b = bytes_eq (map lower (c_str a)) (map lower (c_str b))

-- What follows a step, unless that failed.
abbrev pub and_then : Server × Error → (Server → Server × Error) → Server × Error
and_then (s, e) f = if failed e then (s, e) else f s
