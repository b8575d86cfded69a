-- ===== src/Server/Commands/Text/Limits.antt =====
-- text.cc and gearmand_con.cc: the commands that change jobs and functions.
use gearmand.Prelude.{
  ℕ, zero, suc, ◌+◌, ◌-◌, ◌%◌, ◌^◌, true, false, ◌&&◌, Option, none, some, List, [], ◌∷◌, ◌++◌,
  length, take, remove, bytes_eq, c_str, codes, update, dec32, ℤ, pos, negsuc, read_decimal, ltb,
  leb, ◌==◌, if◌then◌else◌,
}
use gearmand.Protocol.Errors.{Error, failed}
use gearmand.Protocol.Commands.{Command}
use gearmand.Protocol.Packet.{Bytes, Packet}
use gearmand.Server.State.{Server, ByPriority, set_job, set_function}
use gearmand.Server.Hash.{server_job_hash, default_hash_size}
use gearmand.Server.Functions.{function_get, function_key}
use gearmand.Server.Jobs.{find_handle}
use gearmand.Server.Jobs.Requeue.{send_to_clients, job_done}
use gearmand.Server.Commands.Reply.{arg_at, case_eq}

abbrev pub text_success : Bytes
text_success = codes "OK" ++ (13 ∷ 10 ∷ [])

abbrev pub crlf : Bytes → Bytes
crlf text = text ++ (13 ∷ 10 ∷ [])

abbrev ignored : Server × Error → ℕ → Server × Error
ignored (s, e) j =
    if failed e
    then (s, e)
    else (set_job s j (record (s.jobs j) { ignore_job = true; job_queued = false }), Error.success)

abbrev cancelled : Server → ℕ → Server × Error
cancelled s j =
    let x = s.jobs j in
    let s1 = send_to_clients s x.client_list Command.work_fail (c_str x.job_handle ∷ []) in
    ignored (if (s1.jobs j).job_queued then job_done s1 j else (s1, Error.success)) j

-- `gearman_server_job_cancel`: the clients are told, and the job is marked not to run.
unfoldable pub job_cancel : Server → Bytes → Server × Error
job_cancel s handle =
    let key = server_job_hash handle in
    elim (find_handle s handle key (s.job_hash (key % s.hashtable_buckets))) [
      | none ↦ (s, Error.no_jobs)
      | some j ↦ cancelled s j
    ]

abbrev pub cancel_text : Error → Bytes
cancel_text Error.success = text_success
cancel_text Error.no_jobs = crlf (codes "ERR UNKNOWN_JOB")
cancel_text _ = crlf (codes "ERR UNKNOWN_ERROR")

abbrev created_text : Server × Option ℕ → Bytes → Server × Bytes
created_text (s, some f) name = (s, text_success)
created_text (s, none) name = (s, crlf (codes "ERR CREATE_FUNCTION " ++ c_str name))

-- `create function NAME`: the name's size is the argument's less two.
unfoldable pub text_create : Server → Packet → Server × Bytes
text_create s p =
    let name = arg_at p 2 in created_text (function_get s (take (length name - 2) name)) name

-- `gearman_server_function_free`
unfoldable pub function_free : Server → ℕ → Server
function_free s f =
    let key = function_key (s.functions f).function_name in
    record (set_function s f (record (s.functions f) { epoch_wakeup_timer = false })) {
      function_hash = update s.function_hash key (remove f (s.function_hash key));
      function_count = dec32 s.function_count;
    }

unfoldable pub find_named : Server → Bytes → List ℕ → Option ℕ
find_named s name [] = none
find_named s name (f ∷ fs) =
    if case_eq (s.functions f).function_name name then some f else find_named s name fs

abbrev busy_text : Bytes
busy_text = crlf (codes "ERR there are still connected workers or executing clients")

abbrev drop_found : Server → Option ℕ → Bytes → Server × Bytes
drop_found s none text = (s, text)
drop_found s (some f) text =
    if ((s.functions f).worker_count == 0) && ((s.functions f).job_running == 0)
    then (function_free s f, text ++ text_success)
    else (s, text ++ busy_text)

-- The loop over the buckets; in each the first function of that name, in any case of letters.
unfoldable pub drop_buckets : ℕ → ℕ → Server → Bytes → Bytes → Server × Bytes
unfolding function_free find_named
drop_buckets zero key s name text = (s, text)
drop_buckets (suc n) key s name text =
    let r = drop_found s (find_named s name (s.function_hash key)) text in
    drop_buckets n (suc key) r.0 name r.1

unfoldable pub text_drop : Server → Packet → Server × Bytes
unfolding drop_buckets
text_drop s p =
    let (s1, text) = drop_buckets default_hash_size 0 s (arg_at p 2) [] in
    (s1, if bytes_eq text [] then crlf (codes "ERR function not found") else text)

-- `atoi`: `strtol`, which stops at the ends of a `long` of 64 bits, converted to an `int`; the 32 bits
-- of that.
abbrev pub atoi_bits : ℤ → ℕ
atoi_bits (pos n) = (if ltb n (2 ^ 63) then n else 2 ^ 63 - 1) % 2 ^ 32
atoi_bits (negsuc n) = (2 ^ 64 - (if ltb n (2 ^ 63) then n + 1 else 2 ^ 63)) % 2 ^ 32

-- A limit as it is given: 0 for a number below 0.
abbrev pub limit_of : Bytes → ℕ
limit_of text =
    let bits = atoi_bits (read_decimal (c_str text)) in if ltb bits (2 ^ 31) then bits else 0

abbrev pub limit_at : Packet → ℕ → ℕ
limit_at p n = if ltb n (length p.arg) then limit_of (arg_at p n) else 0

-- The loop over the priorities, and the one that gives the first limit to all.
unfoldable pub queue_limits : Packet → ByPriority ℕ
queue_limits p =
    let each : ByPriority ℕ = record {
      of_high = limit_at p 2;
      of_normal = limit_at p 3;
      of_low = limit_at p 4;
    } in
    if leb (length p.arg) 3
    then record each { of_normal = each.of_high; of_low = each.of_high }
    else each

unfoldable pub set_limits : Server → Bytes → ByPriority ℕ → List ℕ → Server
set_limits s name limits [] = s
set_limits s name limits (f ∷ fs) =
    set_limits
      (if bytes_eq (s.functions f).function_name name
        then set_function s f (record (s.functions f) { max_queue_size = limits })
        else s)
      name limits fs
