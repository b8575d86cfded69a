-- ===== src/Server/Socket/Flush.antt =====
-- io.cc: `_connection_flush`, for the packet whose workload the pointer may point into.
use gearmand.Prelude.{
  ℕ, ◌+◌, ◌-◌, Bool, true, false, none, some, List, [], ◌∷◌, ◌++◌, take, drop, ltb, ◌==◌,
  if◌then◌else◌,
}
use gearmand.Protocol.Errors.{Error}
use gearmand.Protocol.Packet.{Bytes, Packet}
use gearmand.Server.Socket.{
  Socket, Answer, Errno, errno_error, SendState, SendPointer, close, watch_out, wait_for,
}

abbrev pub workload_of : Packet → Bytes
workload_of p = elim p.workload [ none ↦ [] | some d ↦ d ]

-- The bytes from the pointer on.
abbrev pub from_pointer : SendPointer → Bytes → Bytes → Bytes
from_pointer (SendPointer.in_buffer k) buffer workload = drop k buffer
from_pointer (SendPointer.in_data k) buffer workload = drop k workload

abbrev pub advanced : SendPointer → ℕ → SendPointer
advanced (SendPointer.in_buffer k) n = SendPointer.in_buffer (k + n)
advanced (SendPointer.in_data k) n = SendPointer.in_data (k + n)

-- What waits to be sent.
abbrev pub pending : Socket → Packet → Bytes
pending s p = take s.send_buffer_size (from_pointer s.send_buffer_ptr s.send_buffer (workload_of p))

-- The end of the loop: the buffer is empty.
abbrev pub flushed : Socket → Socket × Error
flushed s = (
  record s { send_state = SendState.none_to_send; send_buffer_ptr = SendPointer.in_buffer 0 },
  Error.success,
)

abbrev pub is_flush_data : SendState → Bool
is_flush_data SendState.flush_data = true
is_flush_data _ = false

-- What `send` took of what it was offered.
abbrev pub amount : ℕ → ℕ → ℕ
amount n size = if ltb size n then size else n

-- The state after some bytes were taken.
abbrev pub after_send : Socket → Packet → ℕ → Socket
after_send s p n = record s {
  sent = s.sent ++ take n (pending s p);
  send_buffer_size = s.send_buffer_size - n;
}

-- How a round that sent some bytes goes on: the loop ends, the call returns, or the loop goes round.
pub data Round : Type 0 where
  ended returned : Socket → Round
  goes_on : Socket → Round

unfoldable pub sent_round : Socket → ℕ → Round
sent_round s n =
    if is_flush_data s.send_state
    then (let offset = s.send_data_offset + n in
        if offset == s.send_data_size
        then Round.ended (record s { send_data_size = 0; send_data_offset = 0 })
        else if s.send_buffer_size == 0
        then Round.returned (record s { send_data_offset = offset })
        else Round.goes_on (record s {
          send_data_offset = offset;
          send_buffer_ptr = advanced s.send_buffer_ptr n;
        }))
    else if s.send_buffer_size == 0
    then Round.ended s
    else Round.goes_on (record s { send_buffer_ptr = advanced s.send_buffer_ptr n })

abbrev pub empty_now : Socket → Bool
empty_now s = s.send_buffer_size == 0

abbrev pub with_answers : Socket → List Answer → Socket
with_answers s rest = record s { answers = rest }

-- The call failed, and the connection is closed.
abbrev pub fault : Socket → Error → Socket × Error
fault s e = (close s, e)

-- The loop over the answers; `idle` counts those of no byte, of which the sixth ends it.
unfoldable pub flush_loop : List Answer → ℕ → Socket → Packet → Socket × Error
unfolding sent_round
flush_loop [] idle s p =
    if empty_now s then flushed (with_answers s []) else wait_for (watch_out (with_answers s []))
flush_loop (Answer.took n ∷ rest) idle s p = elim (empty_now s) [
  | true ↦ flushed (with_answers s (Answer.took n ∷ rest))
  | false ↦ elim (amount n s.send_buffer_size == 0) [
    | true ↦ elim (ltb 5 (idle + 1)) [
      | true ↦ fault (with_answers s rest) Error.lost_connection
      | false ↦ flush_loop rest (idle + 1) s p
    ]
    | false ↦
        elim (sent_round (after_send s p (amount n s.send_buffer_size))
          (amount n s.send_buffer_size)) [
            | Round.ended t ↦ flushed (with_answers t rest)
            | Round.returned t ↦ (with_answers t rest, Error.success)
            | Round.goes_on t ↦ flush_loop rest idle t p
          ]
  ]
]
flush_loop (Answer.err e ∷ rest) idle s p = elim (empty_now s) [
  | true ↦ flushed (with_answers s (Answer.err e ∷ rest))
  | false ↦ elim e [
    | Errno.eagain ↦ wait_for (watch_out (with_answers s rest))
    | Errno.eintr ↦ flush_loop rest idle s p
    | other ↦ fault (with_answers s rest) (errno_error other)
  ]
]

-- `_connection_flush`. On a connection that is not connected its assertion fails.
unfoldable pub flush : Socket → Packet → Socket × Error
unfolding flush_loop
flush s p = if s.connected then flush_loop s.answers 0 s p else (s, Error.errno)
