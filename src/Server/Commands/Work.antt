-- ===== src/Server/Commands/Work.antt =====
-- server.cc: what a worker tells about a job that it was given.
use gearmand.Prelude.{
  ℕ, ◌-◌, ◌%◌, ◌^◌, Bool, true, false, not, ◌&&◌, Option, none, some, List, [], ◌∷◌, length, take,
  c_str, codes, ℤ, pos, negsuc, read_decimal, ltb, if◌then◌else◌,
}
use gearmand.Protocol.Errors.{Error}
use gearmand.Protocol.Commands.{Magic, Command}
use gearmand.Protocol.Strings.{ReturnCode}
use gearmand.Protocol.Packet.{Bytes, Packet}
use gearmand.Server.State.{Server, set_job}
use gearmand.Server.Io.{io_packet_add}
use gearmand.Server.Jobs.{job_get, job_free}
use gearmand.Server.Jobs.Requeue.{send_to_clients, job_done}
use gearmand.Server.Commands.Reply.{error_packet, arg_at, and_then}
use gearmand.Server.Commands.Status.{fits_buffer}

abbrev is_exception : Command → Bool
is_exception Command.work_exception = true
is_exception _ = false

abbrev work_args : Packet → List Bytes
work_args p = elim p.workload [
  | some d ↦ if ltb 0 p.data_size then arg_at p 0 ∷ d ∷ [] else arg_at p 0 ∷ []
  | none ↦ arg_at p 0 ∷ []
]

-- The packet for one client; without the option `exceptions` an exception is a failure.
unfoldable pub work_packet : Server → ℕ → Packet → Command → Server × Error
work_packet s c p command =
    let con = (s.clients c).con in
    if is_exception command && not (s.cons con).is_exceptions
    then io_packet_add s con true Magic.response Command.work_fail (arg_at p 0 ∷ [])
    else io_packet_add s con true Magic.response command (work_args p)

-- `_server_queue_work_data`: a failure is logged and passed over.
unfoldable pub queue_work_data : Server → List ℕ → Packet → Command → Server
unfolding work_packet
queue_work_data s [] p command = s
queue_work_data s (c ∷ cs) p command = queue_work_data (work_packet s c p command).0 cs p command

abbrev remove_stored : Server → ℕ → Server × Error
remove_stored s j = if (s.jobs j).job_queued then job_done s j else (s, Error.success)

-- Out of the persistent queue, and gone.
unfoldable pub finish_job : Server → ℕ → Server × Error
finish_job s j = and_then (remove_stored s j) (λ t. (job_free t j, Error.success))

abbrev not_found : Server → ℕ → Bytes → Server × Error
not_found s con text = error_packet s con ReturnCode.job_not_found text

-- The job of the packet's handle, while the connection's worker has it.
abbrev pub owned_job : Server → ℕ → Packet → Option ℕ
owned_job s con p = job_get s (c_str (arg_at p 0)) (some con)

-- `GEARMAN_COMMAND_WORK_DATA` and `GEARMAN_COMMAND_WORK_WARNING`
unfoldable pub work_data : Server → ℕ → Packet → Server × Error
unfolding queue_work_data
work_data s con p = elim (owned_job s con p) [
  | none ↦ not_found s con (codes "Job does not exist on server")
  | some j ↦ (queue_work_data s (s.jobs j).client_list p p.command, Error.success)
]

-- The cast of an `int` to `uint32_t`.
abbrev pub to_u32 : ℤ → ℕ
to_u32 (pos n) = n % 2 ^ 32
to_u32 (negsuc n) = 2 ^ 32 - 1 - n % 2 ^ 32

abbrev status_for : Server → ℕ → Packet → Server × Error
status_for s j p =
    let numerator = to_u32 (read_decimal (c_str (arg_at p 1))) in
    let s1 = set_job s j (record (s.jobs j) { numerator = numerator }) in
    let text = c_str (arg_at p 2) in
    let denominator = to_u32 (read_decimal (take 10 text)) in
    let s2 = set_job s1 j (record (s1.jobs j) { denominator = denominator }) in
    if ltb 11 (length text) then (s1, Error.memory_allocation_failure) else (
      send_to_clients s2 (s.jobs j).client_list Command.work_status
          (arg_at p 0 ∷ arg_at p 1 ∷ arg_at p 2 ∷ []),
      Error.success,
    )

-- `GEARMAN_COMMAND_WORK_STATUS`
unfoldable pub work_status : Server → ℕ → Packet → Server × Error
work_status s con p = elim (owned_job s con p) [
  | none ↦ not_found s con (codes "Job given in work result not found")
  | some j ↦ status_for s j p
]

-- `GEARMAN_COMMAND_WORK_COMPLETE`
unfoldable pub work_complete : Server → ℕ → Packet → Server × Error
unfolding queue_work_data finish_job
work_complete s con p = elim (owned_job s con p) [
  | none ↦ not_found s con (codes "Job given in work result not found")
  | some j ↦ finish_job (queue_work_data s (s.jobs j).client_list p Command.work_complete) j
]

-- `GEARMAN_COMMAND_WORK_EXCEPTION`
unfoldable pub work_exception : Server → ℕ → Packet → Server × Error
unfolding queue_work_data finish_job
work_exception s con p = elim (owned_job s con p) [
  | none ↦ not_found s con (codes "An exception was received for a job that does not exist")
  | some j ↦ finish_job (queue_work_data s (s.jobs j).client_list p Command.work_exception) j
]

-- `GEARMAN_COMMAND_WORK_FAIL`
unfoldable pub work_fail : Server → ℕ → Packet → Server × Error
unfolding finish_job
work_fail s con p =
    if fits_buffer (c_str (arg_at p 0))
    then elim (owned_job s con p) [
      | none ↦ not_found s con (codes "Job given in work result not found")
      | some j ↦
          finish_job (send_to_clients s (s.jobs j).client_list Command.work_fail (arg_at p 0 ∷ []))
            j
    ]
    else error_packet s con ReturnCode.argument_too_large
        (codes "Error occurred due to GEARMAND_JOB_HANDLE_SIZE being too small from snprintf")
