-- ===== src/Lib.antt =====
-- gearmand: the job server of Gearman. Clients submit jobs for functions, workers register functions
-- and grab jobs, and the server queues jobs by function and priority, coalesces those with the same
-- unique id, hands them out, passes results on and, for background jobs, stores them in a queue
-- module. One thread, the proc thread, runs every command, so a command is a function from the
-- server's state to the state after it and a result.
--
-- The parts and their files (paths from the repository's root):
--   Protocol/Errors, Protocol/Strings: the results and their texts
--     (libgearman-server/error/type.h, error/strerror.cc, libgearman/strerror.cc).
--   Protocol/Commands: the commands, their numbers and arguments (libgearman-1.0/protocol.h,
--     libgearman/command.cc).
--   Protocol/Packet: packets, their arguments and header (libgearman-server/packet.cc);
--     Packet/Wire: the parser of binary packets
--     (libgearman-server/plugins/protocol/gear/protocol.cc), Packet/Text: its text commands, and
--     `Geartext::unpack` and `Geartext::pack`; Packet/Header, Packet/Args, Packet/Sending,
--     Packet/RoundTrip, Packet/Plain and Packet/Resume: proofs on them.
--   Server/State: the objects of libgearman-server/struct/*.h. A pointer is a number into a store
--     of its type, an intrusive list the list of numbers from its head on.
--   Server/Hash: `_server_job_hash` and `_server_function_hash`, on the bit patterns of `int32_t`.
--   Server/Io: `gearman_server_io_packet_add` and `gearman_server_con_io_add`.
--     Io/Frame, Io/Delivery and Io/Sendable: proofs on them.
--   Server/Queue: libgearman-server/queue.cc. The queue module is the field `plugin`, any function of
--     the calls so far; no assumption is made on it.
--   Server/Functions, Server/Clients, Server/Workers: function.cc, client.cc and worker.cc, with the
--     parts of connection.cc that free workers.
--   Server/Jobs: creation, look-up and freeing of jobs (job.cc, gearmand_con.cc); Jobs/Add:
--     `gearman_server_job_add_reducer`; Jobs/Requeue: `gearman_server_job_queue` and the job timeout;
--     Jobs/Wake: NOOPs to sleeping workers and the timers of jobs that are for later, with proofs in
--     Jobs/Waking, Jobs/Epoch and Jobs/Alarm.
--   Server/Take: `gearman_server_job_take`; Take/Peek: `gearman_server_job_peek`.
--   Server/Commands: the cases of `gearman_server_run_command` (server.cc) by what they serve, the
--     administrative commands of text.cc (Commands/Text) and the dispatch (Commands/Run).
--   Server/Socket: the socket of a connection with its buffers (libgearman-server/struct/io.h, io.cc).
--     Socket/Flush: `_connection_flush`; Socket/Send: `gearman_io_send`; Socket/Queue:
--     `_thread_packet_flush` (thread.cc); Socket/Recv: `_connection_read` and the loop over a packet's
--     header and arguments; Socket/Workload: `gearmand_connection_recv_data` and `gearman_io_recv`;
--     Socket/Input: `_thread_packet_read` (thread.cc) of a server with several threads.
--     Proofs on sending: Socket/Outcome, Rounds, Delivered, Stream, Ending, Rest, Data, Sends and
--     Delivery; on receiving: Socket/Reads, Follows, Chunks, Loading, Refill, Short, Loads,
--     Arguments, Receiving, Receives, Asking, Decodes and Unique.
--   Client: the client library (libgearman). Client/Connection: a connection's sending half and
--     `close_socket`; Client/Flush: `gearman_connection_st::flush` (connection.cc), with proofs in
--     Flush/Sends and Flush/Drops; Client/Selection: `client_select_connection_by_key`
--     (server_selection.cc), with proofs in Selection/Search, Turn, Points, Choice, Answer and Moves;
--     Client/Task: the task, with Task/Submit, Task/Replies and Task/Run for `_client_run_task`
--     (run.cc) and Task/Match for the loop that finds the task of a packet (client.cc); proofs in
--     Task/Choice, Counts, Places, TwoIdle, Refused, Ended, Ends, Slots and Twice; Client/Packet:
--     packet.cc and protocol/submit.cc, with Packet/Requests on what the server reads.
--   Tests: concrete servers at which the theorems are applied.
--
-- Parameters. `can_allocate` tells for each object to come whether memory is found for it. The time
-- is one number `now` for a whole command. `event_base_set` is taken to accept a fresh event.
-- Counters of 32 bits and the retry count of 8 bits wrap. Of the client, the MD5 functions of
-- libhashkit and `std::sort` are the record `Library`; what `send_packet` does to a connection, the
-- user's functions and the codes of error texts are any functions; `rounds` bounds the sends of one
-- run of a task, and one more than the client has connections is enough without the choice by hash.
--
-- Sockets. What `send` and `recv` do is a list of answers, any list: a number of bytes, of which no
-- more than was offered or has arrived counts, or an errno. When none is left the call would block.
-- The peer's bytes are a list, those that were sent another. `event_watch_fn` is any function of the
-- events. The queue of packets is taken as it is when its flush begins.
--
-- Loops. Loops over a list are recursion on the list, those that take the head off until none is left
-- on its length. `gearman_server_job_take` and `gearman_server_job_peek`, which may not end, run on
-- fuel and answer `none` when it runs out; so do the commands that call them. Without round robin the
-- search needs more fuel than the connection has workers. `gearman_io_send` packs in at most three
-- rounds; the loops of `gearman_io_recv` use an answer in each round but the last, and
-- `_thread_packet_read` at least one byte for each packet.
--
-- Not modelled: event loops and the threads' other work (gearmand.cc, thread.cc, gearmand_thread.cc,
-- wakeup.cc, timer.cc), socket options, creating and freeing connections, locks, logging, configuration, the queue
-- modules, the HTTP protocol, the rest of the client library and the programs. Buffers have any size (`realloc`
-- does not fail), who owns a workload's memory is only the flag `free_data`, and the header's bytes
-- are 0 until the header is packed.
pub mod Prelude
pub mod Protocol
pub mod Server
pub mod Client
pub mod Tests
