-- ===== src/Server/Commands/Text.antt =====
-- libgearman-server/text.cc: `server_run_text`, the administrative commands.
use gearmand.Prelude.{
  ℕ, Bool, true, false, ◌&&◌, some, [], ◌∷◌, ◌++◌, length, drop, bytes_eq, c_str, codes, print_u32,
  leb, ◌==◌, if◌then◌else◌,
}
pub mod Limits
pub mod Maxqueue
pub mod Reports
use gearmand.Protocol.Errors.{Error, failed}
use gearmand.Protocol.Commands.{Magic, Command}
use gearmand.Protocol.Packet.{Bytes, Packet, reset}
use gearmand.Server.State.{
  Server, Job, Function, Worker, Con, ByPriority, Priority, at, set_job, set_function, set_con,
}
use gearmand.Server.Hash.{server_job_hash, default_hash_size}
use gearmand.Server.Io.{con_io_add, packet_create}
use gearmand.Server.Functions.{function_get, function_key}
use gearmand.Server.Jobs.{find_handle}
use gearmand.Server.Jobs.Requeue.{send_to_clients, job_done}
use gearmand.Server.Commands.Reply.{arg_at, case_eq}
use Limits.{
  job_cancel, cancel_text, text_create, text_drop, queue_limits, set_limits, text_success, crlf,
}
use Reports.{
  text_workers, text_priority_status, text_status, text_unique_jobs, text_jobs, all_functions,
}

abbrev unknown_text : Bytes → Bytes
unknown_text name = crlf (codes "ERR UNKNOWN_COMMAND Unknown+server+command" ++ name)

abbrev args_text : Packet → Bytes
args_text p = crlf (
    codes "ERR INVALID_ARGUMENTS An+incomplete+set+of+arguments+was+sent+to+this+command+"
    ++ c_str (arg_at p 0))

abbrev is_word : Packet → ℕ → Bytes → Bool
is_word p n word = case_eq word (arg_at p n)

abbrev show_text : Server → Packet → Bytes
show_text s p =
    if (length p.arg == 3) && (is_word p 1 (codes "unique") && is_word p 2 (codes "jobs"))
    then text_unique_jobs s
    else if (length p.arg == 2) && is_word p 1 (codes "jobs")
    then text_jobs s
    else crlf (codes "ERR UNKNOWN_SHOW_ARGUMENTS")

abbrev cancel_reply : Server × Error → Server × Bytes
cancel_reply (s, e) = (s, cancel_text e)

abbrev run_cancel : Server → Packet → Server × Bytes
run_cancel s p =
    if (length p.arg == 3) && is_word p 1 (codes "job")
    then cancel_reply (job_cancel s (c_str (arg_at p 2)))
    else (s, [])

abbrev names_function : Packet → Bool
names_function p = (length p.arg == 3) && is_word p 1 (codes "function")

-- `maxqueue FUNCTION [LIMIT …]`
unfoldable pub text_maxqueue : Server → Packet → Server × Bytes
text_maxqueue s p =
    if length p.arg == 1
    then (s, args_text p)
    else (set_limits s (c_str (arg_at p 1)) (queue_limits p) (all_functions s), text_success)

-- The chain of tests on the command's words: the state, and the text of the reply.
unfoldable pub text_reply : Server → Packet → Server × Bytes
unfolding text_maxqueue
text_reply s p =
    if length p.arg == 0
    then (s, unknown_text (codes "NULL"))
    else if is_word p 0 (codes "workers")
    then (s, text_workers s)
    else if is_word p 0 (codes "prioritystatus")
    then (s, text_priority_status s)
    else if is_word p 0 (codes "status")
    then (s, text_status s)
    else if leb 3 (length p.arg) && is_word p 0 (codes "cancel")
    then run_cancel s p
    else if leb 2 (length p.arg) && is_word p 0 (codes "show")
    then (s, show_text s p)
    else if is_word p 0 (codes "create")
    then (if names_function p then text_create s p else (s, args_text p))
    else if is_word p 0 (codes "drop")
    then (if names_function p then text_drop s p else (s, args_text p))
    else if is_word p 0 (codes "maxqueue")
    then text_maxqueue s p
    else if is_word p 0 (codes "getpid")
    then (s, codes "OK " ++ (print_u32 s.pid ++ 10 ∷ []))
    else if is_word p 0 (codes "verbose")
    then (s, codes "OK " ++ (s.verbose_name ++ 10 ∷ []))
    else if is_word p 0 (codes "version")
    then (s, codes "OK " ++ (s.package_version ++ 10 ∷ []))
    else (s, unknown_text (c_str (arg_at p 0)))

-- A text that is empty is an internal error.
abbrev pub text_packet : Bytes → Packet
text_packet text = record (reset Magic.text Command.text) {
  complete = true;
  free_data = true;
  workload = some (if bytes_eq text [] then crlf (codes "ERR UNKNOWN_ERROR") else text);
  data_size = length (if bytes_eq text [] then crlf (codes "ERR UNKNOWN_ERROR") else text);
}

abbrev send_text : Bool × Server → ℕ → Bytes → Server × Error
send_text (false, s) con text = (s, Error.memory_allocation_failure)
send_text (true, s) con text = (
  con_io_add
      (set_con s con (record (s.cons con) {
        io_packet_list = (s.cons con).io_packet_list ++ text_packet text ∷ [];
      }))
      con,
  Error.success,
)

-- `server_run_text`
unfoldable pub run_text : Server → ℕ → Packet → Server × Error
unfolding text_reply
run_text s con p = let (s1, text) = text_reply s p in send_text (packet_create s1) con text
