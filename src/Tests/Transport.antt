-- ===== src/Tests/Transport.antt =====
-- A socket that takes a few bytes at a time, and two packets that wait for it.
use gearmand.Prelude.{◌≤◌, length}
use gearmand.Protocol.Packet.{create_args, create_arg, pack_header}
use gearmand.Server.Socket.{send_buffer_room}
use gearmand.Server.Io.Delivery.{made_packet}
use gearmand.Server.Io.Sendable.{made_packet-IsSendable}
use gearmand.Prelude.{List, bytes_eq}
use gearmand.Protocol.Commands.{command_code, to_command, is_beyond}
use gearmand.Prelude.{◌≡◌, take, drop}
use gearmand.Protocol.Errors.{failed}
use gearmand.Protocol.Packet.{Bytes}
use gearmand.Protocol.Packet.{reset}
use gearmand.Protocol.Commands.{command_info}
use gearmand.Protocol.Packet.Wire.{unpack_binary, unpack_args, unpack_header}
use gearmand.Server.Socket.Workload.{blank_packet}
use gearmand.Server.Socket.Receiving.{with_workload}
use gearmand.Server.Socket.Decodes.{IsFirst, Decodes}
use gearmand.Server.Socket.Unique.{Decodes-unique}
use gearmand.Server.Socket.Workload.{io_recv}
use gearmand.Server.Socket.Receiving.{CanReceive, Receives}
use gearmand.Server.Socket.Receives.{io_recv-Receives}
use gearmand.Protocol.Packet.Text.{unpack}
use gearmand.Prelude.{refl, inl, inr, true, false, none, some, [], ◌∷◌, ◌++◌, drop, arith}
use gearmand.Protocol.Errors.{Error}
use gearmand.Protocol.Commands.{Magic, Command}
use gearmand.Protocol.Packet.{Packet}
use gearmand.Protocol.Packet.Text.{pack}
use gearmand.Server.Socket.{Socket, Answer, Errno, SendState, RecvState, SendPointer}
use gearmand.Server.Socket.Flush.{flush}
use gearmand.Server.Socket.Send.{io_send}
use gearmand.Server.Socket.Queue.{packet_flush}
use gearmand.Server.Socket.Outcome.{CanFlush, Flushing}
use gearmand.Server.Socket.Stream.{IsSendable, CanSend, stream}
use gearmand.Server.Socket.Delivered.{flush-Flushing}
use gearmand.Server.Socket.Sends.{Result, io_send-Sends}
use gearmand.Server.Socket.Delivery.{Delivered, wire, packet_flush-Delivered}

abbrev socket : Socket
socket = record {
  connected = true;
  close_after_flush = false;
  send_state = SendState.none_to_send;
  recv_state = RecvState.none_to_read;
  pollin = true;
  pollout = false;
  send_buffer = [];
  send_buffer_ptr = SendPointer.in_buffer 0;
  send_buffer_size = 0;
  send_data_size = 0;
  send_data_offset = 0;
  recv_buffer = [];
  recv_data_size = 0;
  recv_data_offset = 0;
  recv_packet = none;
  event_watch = λ _ _. Error.success;
  answers = Answer.took 5 ∷ Answer.err Errno.eagain ∷ Answer.took 100 ∷ [];
  incoming = [];
  sent = [];
}

-- NOOP, and the echo of one byte.
abbrev noop_packet : Packet
noop_packet = record {
  magic = Magic.response;
  command = Command.noop;
  args = 0 ∷ 82 ∷ 69 ∷ 83 ∷ 0 ∷ 0 ∷ 0 ∷ 6 ∷ 0 ∷ 0 ∷ 0 ∷ 0 ∷ [];
  arg = [];
  data_size = 0;
  workload = none;
  complete = true;
  free_data = false;
}

abbrev echo_packet : Packet
echo_packet = record {
  magic = Magic.response;
  command = Command.echo_res;
  args = 0 ∷ 82 ∷ 69 ∷ 83 ∷ 0 ∷ 0 ∷ 0 ∷ 17 ∷ 0 ∷ 0 ∷ 0 ∷ 1 ∷ [];
  arg = [];
  data_size = 1;
  workload = some (104 ∷ []);
  complete = true;
  free_data = true;
}

noop_packet-IsSendable : IsSendable noop_packet
noop_packet-IsSendable = record {
  complete = refl;
  header = omega arith;
  size = refl;
  there = inr refl;
}

echo_packet-IsSendable : IsSendable echo_packet
echo_packet-IsSendable = record {
  complete = refl;
  header = omega arith;
  size = refl;
  there = inl refl;
}

socket-CanFlush : CanFlush socket noop_packet
socket-CanFlush = record { connected = refl; fits = omega arith; exact = λ h. absurd (cc h) }

socket-CanSend : CanSend socket noop_packet
socket-CanSend = record { can = socket-CanFlush; state = (refl, (refl, omega arith)) }

-- The header of the echo is in the buffer, and part of it is sent.
abbrev begun : Socket
begun = record socket {
  send_state = SendState.flushing;
  send_buffer = echo_packet.args ++ 104 ∷ [];
  send_buffer_ptr = SendPointer.in_buffer 3;
  send_buffer_size = 10;
  sent = 0 ∷ 82 ∷ 69 ∷ [];
}

begun-CanFlush : CanFlush begun echo_packet
unfolding drop
begun-CanFlush = record { connected = refl; fits = omega arith; exact = λ h. absurd (cc h) }

flush-Flushing_example : Flushing begun echo_packet (flush begun echo_packet)
flush-Flushing_example = flush-Flushing begun echo_packet begun-CanFlush

io_send-Sends_example :
    Result (stream socket noop_packet) true noop_packet (io_send pack socket noop_packet true)
io_send-Sends_example = io_send-Sends socket noop_packet true noop_packet-IsSendable socket-CanSend

packet_flush-Delivered_example :
    Delivered
      (stream socket noop_packet ++ wire (echo_packet ∷ []))
      (packet_flush pack socket (noop_packet ∷ echo_packet ∷ []))
packet_flush-Delivered_example =
    packet_flush-Delivered socket noop_packet (echo_packet ∷ []) noop_packet-IsSendable
      (echo_packet-IsSendable, tt) socket-CanSend refl

-- A socket at which an echo request comes in two parts.
abbrev listening : Socket
listening = record socket {
  recv_buffer = 0 ∷ 82 ∷ 69 ∷ 81 ∷ [];
  answers = Answer.took 9 ∷ Answer.err Errno.eintr ∷ Answer.took 50 ∷ Answer.err Errno.eagain ∷ [];
  incoming = 0 ∷ 0 ∷ 0 ∷ 16 ∷ 0 ∷ 0 ∷ 0 ∷ 2 ∷ 104 ∷ 105 ∷ 0 ∷ [];
}

listening-CanReceive : CanReceive (0 ∷ 82 ∷ 69 ∷ 81 ∷ []) listening
listening-CanReceive = record { connected = refl; state = (refl, refl) }

io_recv-Receives_example :
    Receives (0 ∷ 82 ∷ 69 ∷ 81 ∷ []) listening (io_recv unpack true listening)
io_recv-Receives_example =
    io_recv-Receives (0 ∷ 82 ∷ 69 ∷ 81 ∷ []) listening true listening-CanReceive

-- An echo request of two bytes, and the packet that it is.
abbrev echo_bytes : Bytes
echo_bytes = 0 ∷ 82 ∷ 69 ∷ 81 ∷ 0 ∷ 0 ∷ 0 ∷ 16 ∷ 0 ∷ 0 ∷ 0 ∷ 2 ∷ 104 ∷ 105 ∷ []

abbrev echo_arguments : Packet
echo_arguments = (unpack blank_packet echo_bytes).0

abbrev echo_request : Packet
echo_request = (with_workload echo_arguments (104 ∷ 105 ∷ [])).0

echo_request-IsFirst : IsFirst echo_bytes echo_request []
unfolding unpack unpack_binary reset failed command_info unpack_args unpack_header take drop
    bytes_eq command_code to_command is_beyond
echo_request-IsFirst = record {
  packet = echo_arguments;
  rest = 104 ∷ 105 ∷ [];
  arguments = record {
    head = echo_bytes;
    tail = [];
    bytes = refl;
    used = 12;
    unpacked = refl;
    behind = refl;
  };
  enough = omega arith;
  result = refl;
}

echo_request-Decodes : Decodes echo_bytes (echo_request ∷ []) []
echo_request-Decodes = ([], (echo_request-IsFirst, refl))

Decodes-unique_example :
    ◌≡◌ {A = List Packet} (echo_request ∷ []) (echo_request ∷ []) × (◌≡◌ {A = Bytes} [] [])
Decodes-unique_example =
    Decodes-unique echo_bytes [] [] (echo_request ∷ []) (echo_request ∷ []) refl
      echo_request-Decodes echo_request-Decodes

reply_packed :
    (pack_header (create_args (reset Magic.response Command.echo_res) ((104 ∷ []) ∷ [])).0).1
    ≡ Error.success
unfolding create_args pack_header reset failed create_arg command_info command_code is_beyond take
    drop
reply_packed = refl

reply_fits :
    length (made_packet true Magic.response Command.echo_res ((104 ∷ []) ∷ [])).args
    ≤ send_buffer_room
unfolding create_args pack_header reset failed create_arg command_info command_code is_beyond take
    drop
reply_fits = omega arith

made_packet-IsSendable_example :
    IsSendable (made_packet true Magic.response Command.echo_res ((104 ∷ []) ∷ []))
made_packet-IsSendable_example =
    made_packet-IsSendable true Magic.response Command.echo_res ((104 ∷ []) ∷ []) reply_packed
      reply_fits
