-- ===== src/Client/Packet/Requests.antt =====
-- libgearman/packet.cc against libgearman-server/packet.cc: a submission that the client library makes
-- is read by the server as it was made.
use mathlib.Core.List.{append-nil, append_assoc}
use gearmand.Prelude.{
  ◌+◌, ◌-◌, ◌^◌, ◌<◌, ◌≡◌, ◌∙◌, refl, ap, sym, Bool, true, false, not, Option, none, some, List, [],
  ◌∷◌, ◌++◌, length, arith,
}
use gearmand.Protocol.Errors.{Error}
use gearmand.Protocol.Commands.{Magic, Command, command_info}
use gearmand.Protocol.Packet.{Bytes, Packet, reset, pack_header, blank_header}
use gearmand.Protocol.Packet.Wire.{unpack_binary}
use gearmand.Protocol.Packet.Header.{pack_header-success, has_data-named}
use gearmand.Protocol.Packet.Args.{AllTerminated, concat}
use gearmand.Protocol.Packet.Sending.{sent, create_args-sent}
use gearmand.Protocol.Packet.RoundTrip.{wire_round_trip, read_back}
use gearmand.Client.Return.{Return, failed}
use gearmand.Client.Packet.{
  packet_create_arg, packet_pack_header, packet_add_args, packet_create_args, submit, with_nul,
  full_name, name_fits,
}

create_arg-first :
    (keep : Bool) (c : Command) (a : Bytes)
    → 0 < (command_info c).argc
    → packet_create_arg keep (reset Magic.request c) a
      ≡ (record (reset Magic.request c) { args = blank_header ++ a; arg = a ∷ [] }, Return.success)
unfolding packet_create_arg reset
create_arg-first keep c a few = ground arith

create_arg-append :
    (keep : Bool) (p : Packet) (a : Bytes)
    → 0 < length p.args
    → length p.arg < (command_info p.command).argc
    → packet_create_arg keep p a
      ≡ (record p { args = p.args ++ a; arg = p.arg ++ a ∷ [] }, Return.success)
unfolding packet_create_arg
create_arg-append keep p a room few = ground arith

-- A packet as the server has it, but for the owner of its workload.
abbrev owned : Bool → Packet → Packet
owned b p = record p { free_data = b }

create_arg-workload :
    (keep : Bool) (p : Packet) (d : Bytes)
    → length p.arg ≡ (command_info p.command).argc
    → (command_info p.command).has_data ≡ true
    → p.workload ≡ none
    → p.free_data ≡ false
    → packet_create_arg keep p d
      ≡ (owned (not keep) (record p { workload = some d; data_size = length d }), Return.success)
unfolding packet_create_arg
create_arg-workload true p d full h w f = ground arith
create_arg-workload false p d full h w f = ground arith

-- The client's header is the server's.
pack_header_same :
    (b : Bool) (p : Packet)
    → (pack_header p).1 ≡ Error.success
    → packet_pack_header (owned b p) ≡ (owned b (pack_header p).0, Return.success)
unfolding packet_pack_header pack_header
pack_header_same b p e = ground arith

add_args-next :
    {q : Packet} (keep : Bool) (p : Packet) (a : Bytes) (r : List Bytes)
    → packet_create_arg keep p a ≡ (q, Return.success)
    → packet_add_args keep p (a ∷ r) ≡ packet_add_args keep q r
unfolding packet_add_args failed
add_args-next keep p a r e = rw (packet_add_args, e, e)

-- The three arguments of a submission.
add_args-sent :
    (keep : Bool) (c : Command) (a b d : Bytes)
    → (command_info c).has_data ≡ true
    → (command_info c).argc ≡ 2
    → packet_add_args keep (reset Magic.request c) (a ∷ b ∷ d ∷ [])
      ≡ (owned (not keep) (sent Magic.request c (a ∷ b ∷ []) d), Return.success)
unfolding packet_add_args reset failed
add_args-sent keep c a b d h n =
    let p = record (reset Magic.request c) { args = blank_header ++ a; arg = a ∷ [] } in
    let q = record p { args = (blank_header ++ a) ++ b; arg = a ∷ b ∷ [] } in
    add_args-next keep (reset Magic.request c) a (b ∷ d ∷ [])
      (create_arg-first keep c a (omega arith))
    ∙ add_args-next keep p b (d ∷ []) (create_arg-append keep p b (omega arith) (omega arith))
    ∙ add_args-next keep q d [] (create_arg-workload keep q d (sym n) h refl refl)
    ∙ rw (append_assoc blank_header a b, append-nil b)

-- What the client sends is the server's packet with the same arguments, packed.
create_args-packs :
    (keep : Bool) (c : Command) (a b d : Bytes)
    → (command_info c).has_data ≡ true
    → (command_info c).argc ≡ 2
    → length (concat (a ∷ b ∷ [])) + length d + 12 < 2 ^ 32 - 1
    → packet_create_args keep Magic.request c (a ∷ b ∷ d ∷ [])
      ≡ (owned (not keep) (pack_header (sent Magic.request c (a ∷ b ∷ []) d)).0, Return.success)
unfolding packet_create_args failed reset
create_args-packs keep c a b d h n small =
    let p = sent Magic.request c (a ∷ b ∷ []) d in
    let named = has_data-named c h in
    let ok = pack_header-success p refl named.0 named.1 (omega arith) (omega arith) in
    rw (add_args-sent keep c a b d h n, pack_header_same (not keep) p ok)

pack_header-keeps_workload : (p : Packet) → (pack_header p).0.workload ≡ p.workload
unfolding pack_header
pack_header-keeps_workload p = ground arith

-- The server reads what the client has packed.
sent-Read :
    (c : Command) (a b d : Bytes)
    → (command_info c).has_data ≡ true
    → (command_info c).argc ≡ 2
    → AllTerminated (a ∷ b ∷ [])
    → length (concat (a ∷ b ∷ [])) + length d + 12 < 2 ^ 32 - 1
    → unpack_binary
        (reset Magic.text Command.text)
        ((pack_header (sent Magic.request c (a ∷ b ∷ []) d)).0.args ++ d)
      ≡ (read_back Magic.request c (a ∷ b ∷ []) d, 12 + length (concat (a ∷ b ∷ [])), Error.success)
sent-Read c a b d h n ended small =
    ap (λ z. unpack_binary (reset Magic.text Command.text) ((pack_header z.0).0.args ++ d))
      (sym (create_args-sent Magic.request c a (b ∷ []) d refl h (sym n)))
    ∙ wire_round_trip Magic.request c a (b ∷ []) d refl h (sym n) ended small

-- A submission whose name fits and whose command has two arguments and a workload, each argument ended
-- by its only NUL, and less than 2^32 - 1 bytes in all, is made, and the server's
-- `Geartext::unpack` on its buffer and workload gives back the command, the name behind its name space, the
-- unique key and the workload's size, having used all but the workload.
pub submit_round_trip :
    (keep : Bool) (space : Option Bytes) (c : Command) (u f d : Bytes)
    → let a = with_nul (full_name space f) in
      let xs = a ∷ with_nul u ∷ [] in
      (command_info c).has_data ≡ true
      → (command_info c).argc ≡ 2
      → name_fits space f ≡ true
      → AllTerminated xs
      → length (concat xs) + length d + 12 < 2 ^ 32 - 1
      → (p : Packet) × (submit keep space c u f d ≡ some (p, Return.success))
        × (p.workload ≡ some d)
        × (unpack_binary (reset Magic.text Command.text) (p.args ++ d)
            ≡ (read_back Magic.request c xs d, 12 + length (concat xs), Error.success))
unfolding submit
submit_round_trip keep space c u f d h n fits ended small =
    let a = with_nul (full_name space f) in
    let b = with_nul u in
    let q = pack_header (sent Magic.request c (a ∷ b ∷ []) d) in
    (
      owned (not keep) q.0,
      rw (fits, create_args-packs keep c a b d h n small),
      pack_header-keeps_workload (sent Magic.request c (a ∷ b ∷ []) d),
      sent-Read c a b d h n ended small,
    )
