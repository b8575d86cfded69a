-- ===== src/Tests/Calls.antt =====
-- The theorems on the search for a job and on replies, at a server with two functions.
use gearmand.Prelude.{
  ◌≡◌, ◌==◌, if◌then◌else◌, codes, c_str, contains, refl, false, none, some, [], ◌∷◌, contains,
  codes, arith,
}
use gearmand.Server.State.{Priority, Server}
use gearmand.Protocol.Commands.{Magic, Command}
use gearmand.Protocol.Packet.{reset}
use gearmand.Server.Commands.Text.{text_maxqueue}
use gearmand.Server.Commands.Text.Reports.{all_functions}
use gearmand.Server.Commands.Text.Maxqueue.{limited, limits_given, with_words, text_maxqueue-limits}
use gearmand.Server.Io.{io_packet_add}
use gearmand.Server.Io.Frame.{strip, strip-io_packet_add}
use gearmand.Server.Take.{
  is_ready, rotate, first_ready, scan_all, is_ready, rotate, first_ready, job_take, priorities,
  assign, first_ready,
}
use gearmand.Server.Take.Select.{choose, given, scan_all-chooses}
use gearmand.Server.Take.Fit.{HandedOut, scan_all-HandedOut}
use gearmand.Server.Take.RoundRobin.{IsWaiting, job_take-hangs}
use gearmand.Tests.{busy_server, waiting_server}

scan_all-chooses_example :
    scan_all 3 100 busy_server 5 priorities
    ≡ some (given busy_server (choose 100 busy_server (1 ∷ 2 ∷ []) priorities))
unfolding contains
scan_all-chooses_example =
    scan_all-chooses 3 100 busy_server 5 priorities refl (refl, (refl, tt)) (omega arith)

job_two_found :
    scan_all 3 100 busy_server 5 priorities ≡ some (assign busy_server 2 2 Priority.normal, some 2)
unfolding scan_all is_ready rotate
job_two_found = refl

scan_all-HandedOut_example :
    HandedOut 100 busy_server (1 ∷ 2 ∷ []) priorities 2 (assign busy_server 2 2 Priority.normal)
unfolding contains
scan_all-HandedOut_example =
    scan_all-HandedOut 3 100 busy_server (assign busy_server 2 2 Priority.normal) 5 2 priorities
      refl (refl, (refl, tt)) (omega arith) job_two_found

two-IsWaiting : IsWaiting 100 waiting_server 5 Priority.high 1 2
unfolding first_ready is_ready
two-IsWaiting = record {
  turns = refl;
  differ = λ e. omega arith;
  both = refl;
  looked_at = refl;
  looked_at_too = refl;
  later = refl;
  later_too = refl;
}

job_take-hangs_example : job_take 1000 100 waiting_server 5 ≡ none
job_take-hangs_example = job_take-hangs 1000 100 waiting_server 5 1 2 two-IsWaiting

strip-io_packet_add_example :
    strip 5
      (busy_server.cons 5).thread
      (io_packet_add busy_server 5 false Magic.response Command.noop []).0
    ≡ strip 5 (busy_server.cons 5).thread busy_server
strip-io_packet_add_example = strip-io_packet_add busy_server 5 false Magic.response Command.noop []

-- Its first function in the table.
abbrev listed_server : Server
listed_server = record busy_server { function_hash = λ k. if k == 0 then 1 ∷ [] else [] }

text_maxqueue-limits_example :
    (text_maxqueue listed_server (
        with_words
          (reset Magic.text Command.text)
          (codes "maxqueue" ∷ codes "resize" ∷ codes "5" ∷ codes "7" ∷ []))).0.functions
      1
    ≡ limited
        (c_str (codes "resize"))
        (limits_given (codes "5" ∷ codes "7" ∷ []))
        (contains 1 (all_functions listed_server))
        (listed_server.functions 1)
text_maxqueue-limits_example =
    text_maxqueue-limits listed_server (reset Magic.text Command.text) 1 (codes "maxqueue")
      (codes "resize") (codes "5" ∷ codes "7" ∷ [])
