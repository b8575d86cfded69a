-- ===== src/Client/Return.antt =====
-- libgearman-1.0/return.h: the results of the client library's functions (`gearman_return_t`).
use gearmand.Prelude.{Bool, true, false}

pub data Return : Type 0 where
  success io_wait shutdown shutdown_graceful errno event too_many_args no_active_fds invalid_magic
        invalid_command invalid_packet unexpected_packet getaddrinfo no_servers lost_connection
        memory_allocation_failure job_exists job_queue_full server_error work_error work_data
        work_warning work_status work_exception work_fail not_connected could_not_connect
        send_in_progress recv_in_progress not_flushing data_too_large invalid_function_name
        invalid_worker_function no_registered_function no_registered_functions no_jobs
        echo_data_corruption need_workload_fn pause unknown_state pthread pipe_eof queue_error
        flush_data send_buffer_too_small ignore_packet unknown_option timeout argument_too_large
        invalid_argument in_progress invalid_server_option job_not_found max_return :
      Return

-- `gearman_failed`
unfoldable pub failed : Return → Bool
failed Return.success = false
failed _ = true

abbrev pub is_could_not_connect : Return → Bool
is_could_not_connect Return.could_not_connect = true
is_could_not_connect _ = false

abbrev pub is_unknown_state : Return → Bool
is_unknown_state Return.unknown_state = true
is_unknown_state _ = false
