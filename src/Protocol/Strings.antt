-- ===== src/Protocol/Strings.antt =====
-- libgearman-server/error/strerror.cc: `gearmand_strerror`; libgearman/strerror.cc: the codes that
-- the server sends to clients, without the eight letters `GEARMAN_` that are cut off.
use gearmand.Prelude.{codes}
use gearmand.Protocol.Errors.{Error}
use gearmand.Protocol.Packet.{Bytes}

unfoldable pub gearmand_strerror : Error → Bytes
gearmand_strerror Error.success = codes "SUCCESS"
gearmand_strerror Error.io_wait = codes "IO_WAIT"
gearmand_strerror Error.shutdown = codes "SHUTDOWN"
gearmand_strerror Error.shutdown_graceful = codes "SHUTDOWN_GRACEFUL"
gearmand_strerror Error.errno = codes "ERRNO"
gearmand_strerror Error.event = codes "EVENT"
gearmand_strerror Error.too_many_args = codes "TOO_MANY_ARGS"
gearmand_strerror Error.no_active_fds = codes "NO_ACTIVE_FDS"
gearmand_strerror Error.invalid_magic = codes "INVALID_MAGIC"
gearmand_strerror Error.invalid_command = codes "INVALID_COMMAND"
gearmand_strerror Error.invalid_packet = codes "INVALID_PACKET"
gearmand_strerror Error.unexpected_packet = codes "UNEXPECTED_PACKET"
gearmand_strerror Error.getaddrinfo = codes "GETADDRINFO"
gearmand_strerror Error.no_servers = codes "NO_SERVERS"
gearmand_strerror Error.lost_connection = codes "LOST_CONNECTION"
gearmand_strerror Error.memory_allocation_failure = codes "MEMORY_ALLOCATION_FAILURE"
gearmand_strerror Error.job_exists = codes "JOB_EXISTS"
gearmand_strerror Error.job_queue_full = codes "JOB_JOB_QUEUE_FULL"
gearmand_strerror Error.server_error = codes "SERVER_ERROR"
gearmand_strerror Error.work_error = codes "WORK_ERROR"
gearmand_strerror Error.work_data = codes "WORK_DATA"
gearmand_strerror Error.work_warning = codes "WORK_WARNING"
gearmand_strerror Error.work_status = codes "WORK_STATUS"
gearmand_strerror Error.work_exception = codes "WORK_EXCEPTION"
gearmand_strerror Error.work_fail = codes "WORK_FAIL"
gearmand_strerror Error.not_connected = codes "NOT_CONNECTED"
gearmand_strerror Error.could_not_connect = codes "COULD_NOT_CONNECT"
gearmand_strerror Error.send_in_progress = codes "SEND_IN_PROGRESS"
gearmand_strerror Error.recv_in_progress = codes "RECV_IN_PROGRESS"
gearmand_strerror Error.not_flushing = codes "NOT_FLUSHING"
gearmand_strerror Error.data_too_large = codes "DATA_TOO_LARGE"
gearmand_strerror Error.invalid_function_name = codes "INVALID_FUNCTION_NAME"
gearmand_strerror Error.invalid_worker_function = codes "INVALID_WORKER_FUNCTION"
gearmand_strerror Error.no_registered_function = codes "NO_REGISTERED_FUNCTION"
gearmand_strerror Error.no_registered_functions = codes "NO_REGISTERED_FUNCTIONS"
gearmand_strerror Error.no_jobs = codes "NO_JOBS"
gearmand_strerror Error.echo_data_corruption = codes "ECHO_DATA_CORRUPTION"
gearmand_strerror Error.need_workload_fn = codes "NEED_WORKLOAD_FN"
gearmand_strerror Error.pause = codes "PAUSE"
gearmand_strerror Error.unknown_state = codes "UNKNOWN_STATE"
gearmand_strerror Error.pthread = codes "PTHREAD"
gearmand_strerror Error.pipe_eof = codes "PIPE_EOF"
gearmand_strerror Error.queue_error = codes "QUEUE_ERROR"
gearmand_strerror Error.flush_data = codes "FLUSH_DATA"
gearmand_strerror Error.send_buffer_too_small = codes "SEND_BUFFER_TOO_SMALL"
gearmand_strerror Error.ignore_packet = codes "IGNORE_PACKET"
gearmand_strerror Error.unknown_option = codes "UNKNOWN_OPTION"
gearmand_strerror Error.timeout = codes "TIMEOUT"
gearmand_strerror Error.argument_too_large =
    codes "The argument was too large for Gearman to handle."
gearmand_strerror Error.invalid_argument = codes "An invalid argument was passed to a function."
gearmand_strerror Error.max_return = codes "Gibberish returned!"

-- The codes of `gearman_return_t` in error packets.
pub data ReturnCode : Type 0 where
  invalid_magic invalid_command argument_too_large queue_error unknown_option job_not_found :
      ReturnCode

unfoldable pub error_code_string : ReturnCode → Bytes
error_code_string ReturnCode.invalid_magic = codes "INVALID_MAGIC"
error_code_string ReturnCode.invalid_command = codes "INVALID_COMMAND"
error_code_string ReturnCode.argument_too_large = codes "ARGUMENT_TOO_LARGE"
error_code_string ReturnCode.queue_error = codes "QUEUE_ERROR"
error_code_string ReturnCode.unknown_option = codes "UNKNOWN_OPTION"
error_code_string ReturnCode.job_not_found = codes "JOB_NOT_FOUND"
