-- ===== src/Tests/Requests.antt =====
-- A submission that the client library makes, for the function "r" in the name space "n".
use gearmand.Prelude.{◌+◌, ◌≡◌, refl, true, some, List, [], ◌∷◌, ◌++◌, length, arith}
use gearmand.Protocol.Errors.{Error}
use gearmand.Protocol.Commands.{Magic, Command, command_info}
use gearmand.Protocol.Packet.{Bytes, Packet, reset}
use gearmand.Protocol.Packet.Wire.{unpack_binary}
use gearmand.Protocol.Packet.Args.{concat}
use gearmand.Protocol.Packet.RoundTrip.{read_back}
use gearmand.Client.Return.{Return}
use gearmand.Client.Packet.{submit}
use gearmand.Client.Packet.Requests.{submit_round_trip}

-- The name "nr" and the unique key "u1", each with its NUL.
abbrev parts : List Bytes
parts = (110 ∷ 114 ∷ 0 ∷ []) ∷ (117 ∷ 49 ∷ 0 ∷ []) ∷ []

abbrev workload : Bytes
workload = 100 ∷ []

submit_round_trip_example :
    (p : Packet) × (submit true
        (some (110 ∷ []))
        Command.submit_job
        (117 ∷ 49 ∷ [])
        (114 ∷ [])
        workload
      ≡ some (p, Return.success))
    × (p.workload ≡ some workload)
    × (unpack_binary (reset Magic.text Command.text) (p.args ++ workload) ≡ (
      read_back Magic.request Command.submit_job parts workload,
      12 + length (concat parts),
      Error.success,
    ))
unfolding command_info
submit_round_trip_example =
    submit_round_trip true (some (110 ∷ [])) Command.submit_job (117 ∷ 49 ∷ []) (114 ∷ []) workload
      refl refl refl
      (
        ((λ e. omega arith), ((λ e. omega arith), refl)),
        (((λ e. omega arith), ((λ e. omega arith), refl)), tt),
      )
      (omega arith)
