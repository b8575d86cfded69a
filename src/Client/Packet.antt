-- ===== src/Client/Packet.antt =====
-- libgearman/packet.cc and libgearman/protocol/submit.cc: the packets that the client library makes.
-- `gearman_packet_st` has the fields of the server's packet; memory is taken to be found.
pub mod Requests
use gearmand.Prelude.{
  ℕ, ◌+◌, Bool, true, false, not, ◌&&◌, ◌||◌, Option, none, some, List, [], ◌∷◌, ◌++◌, length, leb,
  ltb, ◌==◌, if◌then◌else◌,
}
use gearmand.Protocol.Commands.{Magic, Command, command_info, is_beyond}
use gearmand.Protocol.Packet.{
  Bytes, Packet, reset, is_text, is_some, append_arg, overwrite, be32, with_header, with_magic,
  with_command, is_text_command, u32_max, body_length,
}
use gearmand.Client.Return.{Return, failed}

-- `packet_create_arg`; with `no_new_data` the packet keeps the caller's data and does not own it.
unfoldable pub packet_create_arg : Bool → Packet → Bytes → Packet × Return
packet_create_arg no_new_data p a =
    let info = command_info p.command in
    if (length p.arg == info.argc) && (not info.has_data || is_some p.workload)
    then (p, Return.too_many_args)
    else if length p.arg == info.argc
    then (
      record p {
        workload = some a;
        data_size = length a;
        free_data = if no_new_data then p.free_data else true;
      },
      Return.success,
    )
    else (append_arg p a, Return.success)

packet_pack_length : Packet → Packet × Return
packet_pack_length p =
    if leb u32_max (body_length p) || ltb (body_length p) p.data_size
    then (p, Return.argument_too_large)
    else (
      record p { args = overwrite 8 (be32 (body_length p)) p.args; complete = true },
      Return.success,
    )

-- `gearman_packet_pack_header`
unfoldable pub packet_pack_header : Packet → Packet × Return
unfolding packet_pack_length
packet_pack_header p =
    if is_text p.magic
    then (record p { complete = true }, Return.success)
    else if is_text_command p.command || is_beyond p.command
    then (with_magic (with_header p), Return.invalid_command)
    else packet_pack_length (with_command (with_magic (with_header p)))

-- A packet that could not be made is freed.
abbrev freed : Packet × Return → Packet × Return
freed (p, r) = if failed r then (reset Magic.text Command.text, r) else (p, r)

-- The loop of `gearman_packet_create_args` over the arguments.
unfoldable pub packet_add_args : Bool → Packet → List Bytes → Packet × Return
packet_add_args no_new_data p [] = (p, Return.success)
packet_add_args no_new_data p (a ∷ r) = elim (failed (packet_create_arg no_new_data p a).1) [
  | true ↦ packet_create_arg no_new_data p a
  | false ↦ packet_add_args no_new_data (packet_create_arg no_new_data p a).0 r
]

abbrev packed : Packet × Return → Packet × Return
packed (p, r) = if failed r then (p, r) else packet_pack_header p

-- `gearman_packet_create_args`
unfoldable pub packet_create_args : Bool → Magic → Command → List Bytes → Packet × Return
packet_create_args no_new_data m c args =
    freed (packed (packet_add_args no_new_data (reset m c) args))

-- A text as an argument, with its NUL.
abbrev pub with_nul : Bytes → Bytes
with_nul text = text ++ 0 ∷ []

-- The function's name behind the name space, if there is one.
abbrev pub full_name : Option Bytes → Bytes → Bytes
full_name none function = function
full_name (some space) function = space ++ function

-- The name and its NUL stay within `function_buffer`, which only a name space fills.
abbrev pub name_fits : Option Bytes → Bytes → Bool
name_fits none function = true
name_fits (some space) function = leb (length space + length function + 1) 1024

-- `libgearman::protocol::submit` and `submit_background`; none: written past `function_buffer`.
unfoldable pub submit :
    Bool → Option Bytes → Command → Bytes → Bytes → Bytes → Option (Packet × Return)
submit no_new_data space c unique function workload =
    if name_fits space function
    then some (
        packet_create_args no_new_data Magic.request c
          (with_nul (full_name space function) ∷ with_nul unique ∷ workload ∷ []))
    else none
