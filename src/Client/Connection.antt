-- ===== src/Client/Connection.antt =====
-- libgearman/connection.hpp and connection.cc: a client's connection to a server, the sending half.
-- The addresses that `getaddrinfo` gave are a list, of which `addrinfo_next` are those to be tried.
use gearmand.Prelude.{ℕ, Bool, false, List, if◌then◌else◌}
use gearmand.Protocol.Packet.{Bytes}

-- `gearman_con_universal_t`
pub data ConnectState : Type 0 where
  addrinfo connect connecting connected : ConnectState

-- `gearman_con_send_t`
pub data SendState : Type 0 where
  state_none pre_flush force_flush flushing flush_data : SendState

-- Where `send_buffer_ptr` points: into the send buffer, or into the packet's data.
pub data SendPointer : Type 0 where
  in_buffer in_data : ℕ → SendPointer

-- `gearman_connection_st`. The address stands for the pointer to it; `is_open` tells whether `fd` is
-- a socket, and `send_buffer` is what was written to the array.
pub record Connection : Type 0 where
  pub address : ℕ
  pub host : Bytes
  pub service : Bytes
  pub state : ConnectState
  pub send_state : SendState
  pub is_open : Bool
  pub addrinfo_next : List ℕ
  pub server_options_sent : Bool
  pub pollin : Bool
  pub pollout : Bool
  pub created_id : ℕ
  pub created_id_next : ℕ
  pub send_buffer : Bytes
  pub send_buffer_ptr : SendPointer
  pub send_buffer_size : ℕ
  pub send_data_size : ℕ
  pub send_data_offset : ℕ

abbrev pub is_state_none : SendState → Bool
is_state_none SendState.state_none = Bool.true
is_state_none _ = false

-- `gearman_connection_st::close_socket`, of a connection that has a socket and of one that has none.
unfoldable pub close_socket : Connection → Connection
close_socket c =
    if c.is_open
    then record c {
      state = ConnectState.connect;
      is_open = false;
      pollin = false;
      pollout = false;
      send_state = SendState.state_none;
      send_buffer_ptr = SendPointer.in_buffer 0;
      send_buffer_size = 0;
      send_data_size = 0;
      send_data_offset = 0;
      server_options_sent = false;
      created_id = 0;
      created_id_next = 0;
    }
    else c
