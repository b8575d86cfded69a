-- ===== src/Tests/Lines.antt =====
-- A connection with bytes that wait to be sent.
use gearmand.Prelude.{◌++◌, true, false, [], ◌∷◌, codes, arith, refl}
use gearmand.Client.Connection.{ConnectState, SendState}
use gearmand.Client.Flush.{Line, SendAnswer, Errno, flush, pending}
use gearmand.Client.Flush.Sends.{IsReady, Flushed, flush-Flushed}
use gearmand.Client.Flush.Drops.{Dropped, connecting_to, refusals, flush-drops}
use gearmand.Tests.Servers.{server}

abbrev line : Line
line = record {
  con = record (server b'a') {
    state = ConnectState.connected;
    is_open = true;
    send_state = SendState.flushing;
    send_buffer = codes "request";
    send_buffer_size = 7;
  };
  non_blocking = true;
  revents_err = false;
  revents_out = false;
  lookups = [];
  connects = [];
  sends = SendAnswer.took 3 ∷ SendAnswer.err Errno.eagain ∷ [];
  waits = [];
  sent = [];
}

line-IsReady : IsReady line
line-IsReady = record { state = refl; is_open = refl; non_blocking = refl; buffered = refl }

flush-Flushed_example : Flushed (line.sent ++ pending line.con []) [] (flush 3 line [])
flush-Flushed_example = flush-Flushed 3 line [] line-IsReady (omega arith)

flush-drops_example :
    Dropped [] (flush 5 (connecting_to line (1 ∷ 2 ∷ 3 ∷ []) (refusals (1 ∷ 2 ∷ []) [])) [])
flush-drops_example = flush-drops (2 ∷ []) 5 line 1 3 [] [] [] (omega arith)
