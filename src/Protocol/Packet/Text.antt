-- ===== src/Protocol/Packet/Text.antt =====
-- plugins/protocol/gear/protocol.cc: the line of a text command, and `Geartext` as a whole.
use gearmand.Prelude.{
  ℕ, zero, suc, ◌+◌, ◌-◌, Bool, true, false, not, ◌&&◌, Option, none, some, [], ◌∷◌, ◌++◌, length,
  take, drop, get_or, ltb, ◌==◌, if◌then◌else◌,
}
use gearmand.Protocol.Errors.{Error, failed}
use gearmand.Protocol.Commands.{Magic, Command}
use gearmand.Protocol.Packet.{Bytes, Packet, create_arg}
use gearmand.Protocol.Packet.Wire.{Unpacked, memchr, unpack_binary}

-- `while (*ptr == ' ') ptr++`: how many spaces a text begins with.
unfoldable pub count_spaces : Bytes → ℕ
count_spaces [] = 0
count_spaces (b ∷ bs) = if b == b' ' then suc (count_spaces bs) else 0

-- The word up to its first space, which becomes a NUL, with the spaces behind that.
abbrev pub word_at : ℕ → Bytes → Bytes
word_at k rest = let tail = drop (k + 1) rest in take k rest ++ (0 ∷ take (count_spaces tail) tail)

abbrev pub behind_word : ℕ → Bytes → Bytes
behind_word k rest = let tail = drop (k + 1) rest in drop (count_spaces tail) tail

-- The loop over the words of a line. Each round leaves less of the line, so its length bounds them.
unfoldable pub text_args : ℕ → Packet → Bytes → Packet × Error
text_args zero p rest = (p, Error.success)
text_args (suc n) p rest = elim (memchr b' ' rest) [
  | none ↦ create_arg p rest
  | some k ↦ elim (failed (create_arg p (word_at k rest)).1) [
    | true ↦ create_arg p (word_at k rest)
    | false ↦ text_args n (create_arg p (word_at k rest)).0 (behind_word k rest)
  ]
]

-- The line with NULs in place of its newline and of a carriage return before that.
unfoldable pub ended_line : ℕ → Bytes → Bytes
ended_line k bytes =
    if ltb 0 k && (get_or bytes (k - 1) 0 == 13)
    then take (k - 1) bytes ++ (0 ∷ (0 ∷ []))
    else take k bytes ++ (0 ∷ [])

abbrev pub as_text : Packet → Packet
as_text p = record p { magic = Magic.text; command = Command.text }

abbrev text_line : Packet → Bytes → Option ℕ → Unpacked
text_line p bytes none = (p, 0, Error.io_wait)
text_line p bytes (some k) =
    let r = text_args (k + 1) (as_text p) (ended_line k bytes) in (r.0, k + 1, r.1)

-- A text command: up to the first newline.
unfoldable pub unpack_text : Packet → Bytes → Unpacked
unpack_text p bytes = text_line p bytes (memchr 10 bytes)

-- Bytes that begin with another byte than 0.
abbrev pub begins_text : Bytes → Bool
begins_text [] = false
begins_text (b ∷ bs) = not (b == 0)

-- `Geartext::unpack`
unfoldable pub unpack : Packet → Bytes → Unpacked
unfolding unpack_text unpack_binary
unpack p bytes =
    if (length p.args == 0) && begins_text bytes then unpack_text p bytes else unpack_binary p bytes

-- `Geartext::pack` into a room of some bytes: the bytes that it copies, and its result.
unfoldable pub pack : Packet → ℕ → Bytes × Error
pack p room = if ltb room (length p.args) then ([], Error.flush_data) else (p.args, Error.success)
