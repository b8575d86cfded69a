-- ===== src/Protocol/Errors.antt =====
-- libgearman-server/error/type.h: the results of the server's functions (`gearmand_error_t`).
use mathlib.Core.Bool.{Bool, true, false}
use mathlib.Core.Path.{◌≡◌, refl}

pub data Error : Type 0 where
  success io_wait shutdown shutdown_graceful errno event too_many_args no_active_fds invalid_magic
        invalid_command invalid_packet unexpected_packet getaddrinfo no_servers lost_connection
        memory_allocation_failure job_exists job_queue_full server_error work_error work_data
        work_warning work_status work_exception work_fail not_connected could_not_connect
        send_in_progress recv_in_progress not_flushing data_too_large invalid_function_name
        invalid_worker_function no_registered_function no_registered_functions no_jobs
        echo_data_corruption need_workload_fn pause unknown_state pthread pipe_eof queue_error
        flush_data send_buffer_too_small ignore_packet unknown_option timeout argument_too_large
        invalid_argument max_return :
      Error

-- The macros `gearmand_success` and `gearmand_failed`.
pub succeeded : Error → Bool
succeeded Error.success = true
succeeded _ = false

unfoldable pub failed : Error → Bool
failed Error.success = false
failed _ = true

pub failed-success : failed Error.success ≡ false
unfolding failed
failed-success = refl

pub eq_success : (e : Error) → failed e ≡ false → e ≡ Error.success
unfolding failed
eq_success Error.success h = refl
eq_success _ h = cc
