-- ===== src/Server/Queue.antt =====
-- libgearman-server/queue.cc: the calls to the persistent queue, whose plugin is a parameter.
use gearmand.Prelude.{ℕ, Bool, true, false, Option, ◌∷◌, ℤ, if◌then◌else◌}
use gearmand.Protocol.Errors.{Error, failed}
use gearmand.Protocol.Packet.{Bytes}
use gearmand.Server.State.{Server, QueueCall, QueueVersion, Priority}

abbrev pub call_plugin : Server → QueueCall → Server × Error
call_plugin s c = (record s { queue_log = c ∷ s.queue_log }, s.plugin s.queue_log c)

abbrev is_none_version : QueueVersion → Bool
is_none_version QueueVersion.version_none = true
is_none_version QueueVersion.version_function = false
is_none_version QueueVersion.version_class = false

-- `gearman_queue_flush`
unfoldable pub queue_flush : Server → Server × Error
queue_flush s =
    if is_none_version s.queue_version
    then (s, Error.success)
    else call_plugin s QueueCall.flush_call

abbrev flushed : Server × Error → Server × Error
flushed (s, e) = if failed e then (s, e) else queue_flush s

-- `gearman_queue_add`: a job that was stored is flushed.
unfoldable pub queue_add : Server → Bytes → ℕ → Bytes → Option Bytes → Priority → ℤ → Server × Error
queue_add s unique unique_size function_name workload priority when =
    if is_none_version s.queue_version
    then (s, Error.success)
    else flushed
        (call_plugin s (QueueCall.add_call unique unique_size function_name workload priority when))

-- `gearman_queue_done`
unfoldable pub queue_done : Server → Bytes → ℕ → Bytes → Server × Error
queue_done s unique unique_size function_name =
    if is_none_version s.queue_version
    then (s, Error.success)
    else call_plugin s (QueueCall.done_call unique unique_size function_name)
