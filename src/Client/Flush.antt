-- ===== src/Client/Flush.antt =====
-- libgearman/connection.cc: `gearman_connection_st::flush`, without TLS. What the system does is in
-- lists of answers; when none is left, a look-up and a wait time out, `connect` is in progress and
-- `send` would block.
pub mod Drops
pub mod Sends
use gearmand.Prelude.{
  ℕ, zero, suc, ◌+◌, ◌-◌, Bool, true, false, Option, none, some, List, [], ◌∷◌, ◌++◌, take, drop,
  tail, ltb, ◌==◌, if◌then◌else◌,
}
use gearmand.Protocol.Packet.{Bytes}
use gearmand.Client.Return.{Return}
use gearmand.Client.Connection.{Connection, ConnectState, SendState, SendPointer, close_socket}

-- `econnrefused` stands for ENETUNREACH and ETIMEDOUT too, `enomem` for EFAULT, `eagain` for ENOTCONN
-- and EWOULDBLOCK.
pub data Errno : Type 0 where
  eagain epipe econnreset ehostdown enomem einval econnrefused other_errno : Errno

-- `correct_from_errno` on GEARMAN_ERRNO
abbrev pub perror : Errno → Return
perror Errno.enomem = Return.memory_allocation_failure
perror Errno.einval = Return.invalid_argument
perror Errno.econnreset = Return.lost_connection
perror Errno.ehostdown = Return.lost_connection
perror Errno.epipe = Return.lost_connection
perror Errno.econnrefused = Return.could_not_connect
perror _ = Return.errno

pub data Lookup : Type 0 where
  found : List ℕ → Lookup
  unknown : Return → Lookup

-- `socket`, the setting of its options, and `connect`.
pub data ConnectAnswer : Type 0 where
  no_socket : Errno → ConnectAnswer
  no_options : Return → ConnectAnswer
  established in_progress refused unavailable connect_error : ConnectAnswer

pub data SendAnswer : Type 0 where
  took : ℕ → SendAnswer
  err : Errno → SendAnswer

-- `gearman_wait`: the events of this connection (an error, and room to write), or its result.
pub data Wait : Type 0 where
  ready : Bool → Bool → Wait
  wait_failed : Return → Wait

-- A connection with what the system will answer; `sent` is what the server was sent, `revents_err`
-- and `revents_out` are the bits of `_revents`.
pub record Line : Type 0 where
  pub con : Connection
  pub non_blocking : Bool
  pub revents_err : Bool
  pub revents_out : Bool
  pub lookups : List Lookup
  pub connects : List ConnectAnswer
  pub sends : List SendAnswer
  pub waits : List Wait
  pub sent : Bytes

-- A round returns, or the loop goes on.
pub data Round : Type 0 where
  returned : Line → Return → Round
  again : Line → Round

abbrev pub set_con : Line → Connection → Line
set_con l c = record l { con = c }

abbrev pub in_state : ConnectState → Connection → Connection
in_state s c = record c { state = s }

-- `close_socket`, which forgets the events of a connection that has a socket.
abbrev pub shut_down : Line → Line
shut_down l = record l {
  con = close_socket l.con;
  revents_err = if l.con.is_open then false else l.revents_err;
  revents_out = if l.con.is_open then false else l.revents_out;
}

-- `gearman_wait`, after which the loop goes on, where the connection may block.
abbrev pub waited : Line → List Wait → Round
waited l [] = Round.returned l Return.timeout
waited l (Wait.wait_failed r ∷ rest) = Round.returned (record l { waits = rest }) r
waited l (Wait.ready e o ∷ rest) = Round.again (record l {
  waits = rest;
  revents_err = e;
  revents_out = o;
  con = record l.con { pollout = if o then false else l.con.pollout };
})

unfoldable pub blocked : Line → Round
blocked l =
    let m = set_con l (record l.con { pollout = true }) in
    if l.non_blocking then Round.returned m Return.io_wait else waited m l.waits

-- GEARMAN_CON_UNIVERSAL_CONNECTING
unfoldable pub connecting_round : Line → Round
unfolding blocked
connecting_round l =
    if l.revents_err
    then Round.again (
        set_con l (record (in_state ConnectState.connect l.con) {
          addrinfo_next = tail l.con.addrinfo_next;
        }))
    else if l.revents_out
    then Round.again (set_con l (in_state ConnectState.connected l.con))
    else blocked (set_con l (in_state ConnectState.connecting l.con))

abbrev opened : Connection → Connection
opened c = record c { is_open = true }

-- The call of `connect` to the first of the addresses, of which `rest` follow.
unfoldable pub connect_to : Line → List ℕ → List ConnectAnswer → Round
unfolding connecting_round
connect_to l rest [] =
    connecting_round (set_con l (in_state ConnectState.connecting (opened l.con)))
connect_to l rest (ConnectAnswer.in_progress ∷ more) =
    connecting_round
      (record l { connects = more; con = in_state ConnectState.connecting (opened l.con) })
connect_to l rest (ConnectAnswer.no_socket e ∷ more) =
    Round.returned (record l { connects = more; con = in_state ConnectState.addrinfo l.con })
      (perror e)
connect_to l rest (ConnectAnswer.no_options r ∷ more) =
    Round.returned (shut_down (record l { connects = more; con = opened l.con })) r
connect_to l rest (ConnectAnswer.established ∷ more) =
    Round.again (record l { connects = more; con = in_state ConnectState.connected (opened l.con) })
connect_to l rest (ConnectAnswer.refused ∷ more) = Round.again (
    shut_down (record l {
      connects = more;
      con = record (opened l.con) { addrinfo_next = rest; state = ConnectState.connect };
    }))
connect_to l rest (ConnectAnswer.unavailable ∷ more) =
    Round.again
      (shut_down (record l { connects = more; con = in_state ConnectState.connect (opened l.con) }))
connect_to l rest (ConnectAnswer.connect_error ∷ more) =
    Round.returned (shut_down (record l { connects = more; con = opened l.con }))
      Return.could_not_connect

-- An open socket is closed first.
abbrev connect_first : Line → List ℕ → Round
connect_first l [] =
    Round.returned (set_con l (in_state ConnectState.addrinfo l.con)) Return.could_not_connect
connect_first l (a ∷ rest) = connect_to l rest l.connects

-- GEARMAN_CON_UNIVERSAL_CONNECT
unfoldable pub connect_round : Line → Round
unfolding connect_to close_socket
connect_round l = connect_first (shut_down l) l.con.addrinfo_next

abbrev looked_up : Line → List Lookup → Round
looked_up l [] = Round.returned (set_con l (record l.con { addrinfo_next = [] })) Return.timeout
looked_up l (Lookup.unknown r ∷ rest) =
    Round.returned (record l { lookups = rest; con = record l.con { addrinfo_next = [] } }) r
looked_up l (Lookup.found addresses ∷ rest) = connect_round (record l {
  lookups = rest;
  con = record l.con { addrinfo_next = addresses; state = ConnectState.connect };
})

-- The bytes from the pointer on, and those that wait.
abbrev pub from_pointer : SendPointer → Bytes → Bytes → Bytes
from_pointer (SendPointer.in_buffer k) buffer payload = drop k buffer
from_pointer (SendPointer.in_data k) buffer payload = drop k payload

abbrev pub pending : Connection → Bytes → Bytes
pending c payload = take c.send_buffer_size (from_pointer c.send_buffer_ptr c.send_buffer payload)

abbrev pub advanced : SendPointer → ℕ → SendPointer
advanced (SendPointer.in_buffer k) n = SendPointer.in_buffer (k + n)
advanced (SendPointer.in_data k) n = SendPointer.in_data (k + n)

abbrev pub is_flush_data : SendState → Bool
is_flush_data SendState.flush_data = true
is_flush_data _ = false

-- The end of the loop of sends.
abbrev pub flushed : Line → Round
flushed l =
    Round.returned
      (set_con l (record l.con {
        send_state = SendState.state_none;
        send_buffer_ptr = SendPointer.in_buffer 0;
      }))
      Return.success

abbrev moved : Line → ℕ → Round
moved l n =
    Round.again (set_con l (record l.con { send_buffer_ptr = advanced l.con.send_buffer_ptr n }))

-- What follows a send of some bytes.
unfoldable pub after_bytes : Line → ℕ → Round
after_bytes l n =
    if is_flush_data l.con.send_state
    then (let offset = l.con.send_data_offset + n in
        if offset == l.con.send_data_size
        then flushed (set_con l (record l.con { send_data_size = 0; send_data_offset = 0 }))
        else if l.con.send_buffer_size == 0
        then Round.returned (set_con l (record l.con { send_data_offset = offset })) Return.success
        else moved (set_con l (record l.con { send_data_offset = offset })) n)
    else if l.con.send_buffer_size == 0
    then flushed l
    else moved l n

-- What `send` took of what it was offered.
abbrev pub amount : ℕ → ℕ → ℕ
amount n size = if ltb size n then size else n

unfoldable pub send_answered : Line → Bytes → List SendAnswer → Round
unfolding after_bytes blocked
send_answered l payload [] = blocked l
send_answered l payload (SendAnswer.err Errno.eagain ∷ rest) = blocked (record l { sends = rest })
send_answered l payload (SendAnswer.err e ∷ rest) =
    Round.returned (shut_down (record l { sends = rest })) (perror e)
send_answered l payload (SendAnswer.took n ∷ rest) =
    let k = amount n l.con.send_buffer_size in
    after_bytes
      (record l {
        sends = rest;
        sent = l.sent ++ take k (pending l.con payload);
        con = record l.con { send_buffer_size = l.con.send_buffer_size - k };
      })
      k

-- GEARMAN_CON_UNIVERSAL_CONNECTED
unfoldable pub send_round : Line → Bytes → Round
unfolding send_answered
send_round l payload =
    if l.con.send_buffer_size == 0 then flushed l else send_answered l payload l.sends

-- One round of the loop; a state that is entered from the one before is a round of its own.
unfoldable pub flush_round : ConnectState → Line → Bytes → Round
unfolding connect_round connecting_round send_round
flush_round ConnectState.addrinfo l payload = looked_up l l.lookups
flush_round ConnectState.connect l payload = connect_round l
flush_round ConnectState.connecting l payload = connecting_round l
flush_round ConnectState.connected l payload = send_round l payload

-- `gearman_connection_st::flush`; `payload` is the data of the packet that the pointer may point
-- into. Without an answer the rounds are used up.
unfoldable pub flush : ℕ → Line → Bytes → Option (Line × Return)
unfolding flush_round
flush zero l payload = none
flush (suc rounds) l payload = elim (flush_round l.con.state l payload) [
  | Round.returned m r ↦ some (m, r)
  | Round.again m ↦ flush rounds m payload
]
