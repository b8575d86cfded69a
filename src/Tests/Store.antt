-- ===== src/Tests/Store.antt =====
-- The theorems on the tables of jobs and functions, at a server with two functions.
use gearmand.Prelude.{
  ◌≡◌, refl, true, false, none, some, [], ◌∷◌, bytes_eq, c_str, codes, pos, leb_ℤ, arith,
}
use gearmand.Protocol.Packet.{Bytes}
use gearmand.Server.State.{Server}
use gearmand.Server.Hash.{server_job_hash}
use gearmand.Server.Functions.{function_get, function_create}
use gearmand.Server.Functions.Lookup.{function_get_again}
use gearmand.Server.Clients.{client_free, free_job_clients}
use gearmand.Server.Jobs.{job_get}
use gearmand.Server.Jobs.Add.{enter_job, look_up, attach, handle_text}
use gearmand.Server.Jobs.Unique.{unique_found, long_unique_lost}
use gearmand.Server.Jobs.Handle.{entered_job_found}
use gearmand.Server.Jobs.Abandon.{joined_job_ignored, free_job_clients-empties}
use gearmand.Server.Jobs.Wake.{epoch_wakeup_cb}
use gearmand.Server.Jobs.Alarm.{IsSorted, IsScheduled, epoch_wakeup_cb-IsScheduled}
use gearmand.Tests.{empty_server, busy_server, request, no_function}

-- The id "aaa…a" of 64 bytes.
abbrev long_id : Bytes
long_id = codes "aaaaaaaaaaaaaaaaaaaaaaaaaaaaaaaaaaaaaaaaaaaaaaaaaaaaaaaaaaaaaaaa"

long_id-IsText : c_str long_id ≡ long_id
unfolding c_str
long_id-IsText = refl

short_id-IsText : c_str (codes "u1") ≡ codes "u1"
unfolding c_str
short_id-IsText = refl

short_id_named : bytes_eq (codes "u1") (codes "-") ≡ false
unfolding bytes_eq
short_id_named = refl

unique_found_example :
    look_up
      (enter_job busy_server 3 1
        (look_up busy_server 1 (request (codes "u1"))).0
        (request (codes "u1")))
      1
      (request (codes "u1"))
    ≡ (server_job_hash (codes "u1"), some 3)
unique_found_example =
    unique_found busy_server 3 1 (request (codes "u1")) short_id-IsText (omega arith)
      (omega arith, short_id_named)

long_unique_lost_example :
    (look_up
      (enter_job empty_server 3 1 (look_up empty_server 1 (request long_id)).0 (request long_id))
      1
      (request long_id)).1
    ≡ none
long_unique_lost_example =
    long_unique_lost empty_server 3 1 (request long_id) (λ j. omega arith) long_id-IsText refl

entered_job_found_example :
    job_get
      (enter_job empty_server 3 1 7 (request (codes "u1")))
      (c_str (handle_text empty_server))
      none
    ≡ some 3
entered_job_found_example = entered_job_found empty_server 3 1 7 (request (codes "u1"))

joined_job_ignored_example :
    (((client_free (attach busy_server 2 (some 4)) 4).jobs 2).ignore_job ≡ true)
    × (((client_free (attach busy_server 2 (some 4)) 4).jobs 2).job_queued ≡ false)
    × (((client_free (attach busy_server 2 (some 4)) 4).jobs 2).client_list ≡ [])
joined_job_ignored_example = joined_job_ignored busy_server 2 4 refl

free_job_clients-empties_example : ((free_job_clients 2 busy_server 1).jobs 1).client_list ≡ []
free_job_clients-empties_example =
    free_job_clients-empties (1 ∷ 2 ∷ []) busy_server 1 refl (refl, (refl, tt))

times_in_order : IsSorted (pos 900 ∷ pos 950 ∷ [])
unfolding leb_ℤ
times_in_order = ((refl, tt), (tt, tt))

epoch_wakeup_cb-IsScheduled_example : IsScheduled ((epoch_wakeup_cb 920 busy_server 1).functions 1)
epoch_wakeup_cb-IsScheduled_example =
    epoch_wakeup_cb-IsScheduled 920 busy_server 1 refl (λ n. refl) times_in_order

abbrev with_scale : Server
with_scale = (function_get empty_server (codes "scale")).0

scale_made : function_get empty_server (codes "scale") ≡ (with_scale, some 10)
unfolding function_get function_create
scale_made = refl

function_get_again_example :
    (function_get with_scale (codes "scale") ≡ (with_scale, some 10))
    × ((with_scale.functions 10).function_name ≡ codes "scale")
function_get_again_example =
    function_get_again empty_server with_scale (codes "scale") 10 scale_made

-- Two sleeping workers of a function, of which one is to be woken for a job.
abbrev sleepers : Server
sleepers = record busy_server {
  worker_wakeup = 1;
  functions = λ _. record no_function { worker_list = 1 ∷ 2 ∷ [] };
}
