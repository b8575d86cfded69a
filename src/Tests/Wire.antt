-- ===== src/Tests/Wire.antt =====
-- The packet's theorems at a submission of a job.
use gearmand.Protocol.Packet.Text.{unpack}
use gearmand.Protocol.Packet.Resume.{unpack-Resumes}
use gearmand.Protocol.Packet.Resume.Loop.{shifted}
use gearmand.Prelude.{◌+◌, ◌≤◌, ◌≡◌, refl, false, List, [], ◌∷◌, ◌++◌, length, take, drop, arith}
use gearmand.Protocol.Packet.{Bytes}
use gearmand.Protocol.Errors.{Error, failed}
use gearmand.Protocol.Commands.{Magic, Command, command_code, command_info, is_beyond}
use gearmand.Protocol.Packet.{
  Bytes, Packet, reset, create_args, create_arg, is_text, pack_header, body_length,
  packet_header_size,
}
use gearmand.Protocol.Packet.Wire.{unpack_binary, unpack_header}
use gearmand.Protocol.Packet.Header.{header_round_trip}
use gearmand.Protocol.Packet.RoundTrip.{wire_round_trip, read_back}
use gearmand.Protocol.Packet.Args.{concat}
use gearmand.Protocol.Packet.Plain.{plain_round_trip, packed_bytes, read_plain}

-- The function "r" and the unique id "u1", each with its NUL, and the workload "d".
abbrev parts : List Bytes
parts = (114 ∷ 0 ∷ []) ∷ (117 ∷ 49 ∷ 0 ∷ []) ∷ []

abbrev workload : Bytes
workload = 100 ∷ []

abbrev submit : Packet
submit = (create_args (reset Magic.request Command.submit_job) (parts ++ workload ∷ [])).0

submit_packed : (pack_header submit).1 ≡ Error.success
unfolding create_args pack_header reset failed create_arg command_info command_code is_beyond take
    drop
submit_packed = refl

submit_room : 12 ≤ length submit.args
unfolding create_args reset failed create_arg command_info command_code is_beyond
submit_room = omega arith

submit_binary : is_text submit.magic ≡ false
unfolding create_args reset failed create_arg command_info
submit_binary = refl

header_round_trip_example :
    unpack_header (record (reset Magic.text Command.text) {
      args = take packet_header_size (pack_header submit).0.args;
    })
    ≡ (
      record (reset Magic.text Command.text) {
        args = take packet_header_size (pack_header submit).0.args;
        magic = submit.magic;
        command = submit.command;
        data_size = body_length submit;
      },
      Error.success,
    )
header_round_trip_example =
    header_round_trip submit (reset Magic.text Command.text) submit_binary submit_room submit_packed

wire_round_trip_example :
    unpack_binary (reset Magic.text Command.text) (
      (pack_header
        (create_args (reset Magic.request Command.submit_job) (parts ++ workload ∷ [])).0).0.args
      ++ workload)
    ≡ (
      read_back Magic.request Command.submit_job parts workload,
      12 + length (concat parts),
      Error.success,
    )
unfolding command_info
wire_round_trip_example =
    wire_round_trip Magic.request Command.submit_job (114 ∷ 0 ∷ []) ((117 ∷ 49 ∷ 0 ∷ []) ∷ [])
      workload refl refl refl
      (((λ e. omega arith), refl), (((λ e. omega arith), ((λ e. omega arith), refl)), tt))
      (omega arith)

-- The first bytes of the submission's header.
abbrev first_bytes : Bytes
first_bytes = 0 ∷ 82 ∷ 69 ∷ []

-- A worker's function "r" with a timeout of 5 seconds, and bytes that follow.
plain_round_trip_example :
    unpack_binary (reset Magic.text Command.text) (
      packed_bytes Magic.request Command.can_do_timeout ((114 ∷ 0 ∷ []) ∷ (53 ∷ []) ∷ [])
      ++ first_bytes)
    ≡ (
      read_plain Magic.request Command.can_do_timeout ((114 ∷ 0 ∷ []) ∷ (53 ∷ []) ∷ []),
      12 + length (concat ((114 ∷ 0 ∷ []) ∷ (53 ∷ []) ∷ [])),
      Error.success,
    )
unfolding command_info command_code is_beyond
plain_round_trip_example =
    plain_round_trip Magic.request Command.can_do_timeout ((114 ∷ 0 ∷ []) ∷ []) (53 ∷ [])
      first_bytes refl refl refl refl refl (((λ e. omega arith), refl), tt) (omega arith)

-- The rest of it with the arguments.
abbrev more_bytes : Bytes
more_bytes = 81 ∷ 0 ∷ 0 ∷ 0 ∷ 16 ∷ 0 ∷ 0 ∷ 0 ∷ 1 ∷ 104 ∷ []

first_bytes-wait : (unpack (reset Magic.text Command.text) first_bytes).2 ≡ Error.io_wait
unfolding unpack unpack_binary reset
first_bytes-wait = refl

unpack-Resumes_example :
    unpack (reset Magic.text Command.text) (first_bytes ++ more_bytes)
    ≡ shifted (unpack (reset Magic.text Command.text) first_bytes).1 (
        unpack
          (unpack (reset Magic.text Command.text) first_bytes).0
          (drop (unpack (reset Magic.text Command.text) first_bytes).1 first_bytes ++ more_bytes))
unpack-Resumes_example =
    unpack-Resumes (reset Magic.text Command.text) first_bytes more_bytes first_bytes-wait
