-- ===== src/Server/Commands/Status.antt =====
-- server.cc: questions about jobs, options and the echo.
use gearmand.Prelude.{
  ℕ, Bool, true, ◌&&◌, Option, none, some, List, [], ◌∷◌, length, c_str, codes, print_u32, ltb,
  if◌then◌else◌,
}
use gearmand.Protocol.Errors.{Error}
use gearmand.Protocol.Commands.{Magic, Command}
use gearmand.Protocol.Strings.{ReturnCode}
use gearmand.Protocol.Packet.{Bytes, Packet}
use gearmand.Server.State.{Server, set_con}
use gearmand.Server.Io.{io_packet_add}
use gearmand.Server.Jobs.{job_get, job_get_by_unique}
use gearmand.Server.Commands.Reply.{respond, error_packet, arg_at, with_nul, data_args, case_eq}

-- `GEARMAN_COMMAND_ECHO_REQ`
unfoldable pub echo : Server → ℕ → Packet → Server × Error
echo s con p = io_packet_add s con true Magic.response Command.echo_res (data_args p.workload)

abbrev pub zero_text : Bytes
zero_text = b'0' ∷ []

abbrev pub one_text : Bytes
one_text = b'1' ∷ []

abbrev running_text : Option ℕ → Bytes
running_text none = zero_text
running_text (some w) = one_text

-- `snprintf` into a buffer of 64 bytes: the C string, if it fits with its NUL.
abbrev pub fits_buffer : Bytes → Bool
fits_buffer text = ltb (length text) 64

unfoldable pub unique_status : Server → Bytes → Option ℕ → List Bytes
unique_status s name none =
    with_nul name
    ∷ with_nul zero_text
    ∷ with_nul zero_text
    ∷ with_nul zero_text
    ∷ with_nul zero_text
    ∷ zero_text
    ∷ []
unique_status s name (some j) =
    let x = s.jobs j in
    with_nul name
    ∷ with_nul one_text
    ∷ with_nul (running_text x.worker)
    ∷ with_nul (print_u32 x.numerator)
    ∷ with_nul (print_u32 x.denominator)
    ∷ print_u32 (length x.client_list)
    ∷ []

-- `GEARMAN_COMMAND_GET_STATUS_UNIQUE`
unfoldable pub get_status_unique : Server → ℕ → Packet → Server × Error
unfolding unique_status
get_status_unique s con p =
    let name = c_str (arg_at p 0) in
    if fits_buffer name
    then respond s con Command.status_res_unique (unique_status s name (job_get_by_unique s name))
    else (s, Error.memory_allocation_failure)

unfoldable pub handle_status : Server → Bytes → Option ℕ → List Bytes
handle_status s handle none =
    with_nul handle ∷ with_nul zero_text ∷ with_nul zero_text ∷ with_nul zero_text ∷ zero_text ∷ []
handle_status s handle (some j) =
    let x = s.jobs j in
    with_nul handle
    ∷ with_nul one_text
    ∷ with_nul (running_text x.worker)
    ∷ with_nul (print_u32 x.numerator)
    ∷ print_u32 x.denominator
    ∷ []

-- `GEARMAN_COMMAND_GET_STATUS`
unfoldable pub get_status : Server → ℕ → Packet → Server × Error
unfolding handle_status
get_status s con p =
    let handle = c_str (arg_at p 0) in
    if fits_buffer handle
    then respond s con Command.status_res (handle_status s handle (job_get s handle none))
    else (s, Error.memory_allocation_failure)

abbrev unknown_option : Server → ℕ → Server × Error
unknown_option s con =
    error_packet s con ReturnCode.unknown_option (codes "Server does not recognize given option")

-- `GEARMAN_COMMAND_OPTION_REQ`
unfoldable pub option_req : Server → ℕ → Packet → Server × Error
option_req s con p =
    let option = c_str (arg_at p 0) in
    if fits_buffer option && case_eq option (codes "exceptions")
    then respond (set_con s con (record (s.cons con) { is_exceptions = true })) con
        Command.option_res (arg_at p 0 ∷ [])
    else unknown_option s con
