-- ===== src/Server/Jobs/Wake.antt =====
-- job.cc: waking sleeping workers, and the timers of jobs that are for later.
use gearmand.Prelude.{
  ℕ, ◌+◌, Bool, true, false, not, ◌&&◌, ◌||◌, none, some, List, [], ◌∷◌, ◌++◌, ℤ, pos, gt_now,
  is_positive, leb_ℤ, ltb, ◌==◌, if◌then◌else◌, Option,
}
use gearmand.Protocol.Errors.{Error, failed}
use gearmand.Protocol.Commands.{Magic, Command}
use gearmand.Server.State.{Server, Con, set_function, set_con, new_object, Function}
use gearmand.Server.Io.{io_packet_add}

abbrev pub is_wakeable : Con → Bool
is_wakeable c = c.is_sleeping && not c.is_noop_sent

abbrev noop_done : Server × Error → ℕ → ℕ → Server × ℕ
noop_done (s, e) con sent =
    if failed e
    then (s, sent)
    else (set_con s con (record (s.cons con) { is_noop_sent = true }), sent + 1)

-- The body of the loop over a function's workers: the state, and how many NOOPs were sent.
unfoldable pub wake_worker : Server → ℕ → ℕ → Server × ℕ
wake_worker s w sent =
    let con = (s.workers w).con in
    if is_wakeable (s.cons con)
    then noop_done (io_packet_add s con false Magic.response Command.noop []) con sent
    else (s, sent)

-- `do … while (worker != worker_list && (worker_wakeup == 0 || noop_sent < worker_wakeup))` from the
-- head of the circular list: the workers behind, those visited, the state. The rest of the list
-- bounds the rounds.
unfoldable pub wake_loop : Server → List ℕ → List ℕ → ℕ → List ℕ × Server
wake_loop s [] visited sent = (visited, s)
wake_loop s (w ∷ rest) visited sent =
    elim ((s.worker_wakeup == 0) || ltb (wake_worker s w sent).1 s.worker_wakeup) [
      | true ↦ wake_loop (wake_worker s w sent).0 rest (visited ++ w ∷ []) (wake_worker s w sent).1
      | false ↦ (rest ++ (visited ++ w ∷ []), (wake_worker s w sent).0)
    ]

-- The list's head is then the worker at which the loop ended.
unfoldable pub wake_workers : Server → ℕ → Server
unfolding wake_loop wake_worker
wake_workers s f =
    let (order, s1) = wake_loop s (s.functions f).worker_list [] 0 in
    set_function s1 f (record (s1.functions f) { worker_list = order })

-- `function->epoch_pending_whens.insert(when)`
unfoldable pub insert_when : ℤ → List ℤ → List ℤ
insert_when t [] = t ∷ []
insert_when t (u ∷ us) = if leb_ℤ u t then u ∷ insert_when t us else t ∷ (u ∷ us)

abbrev pub armed_function : Function → ℤ → Function
armed_function x when = record x { epoch_wakeup_timer = true; epoch_next_wakeup = when }

abbrev unarmed_function : Function → Function
unarmed_function x = record x {
  epoch_wakeup_timer = false;
  epoch_next_wakeup = if x.epoch_wakeup_timer then pos 0 else x.epoch_next_wakeup;
}

-- The memory for the event decides.
unfoldable pub arm : Server → ℕ → ℤ → Option ℕ → Server
arm s f when (some event) = set_function s f (armed_function (s.functions f) when)
arm s f when none = set_function s f (unarmed_function (s.functions f))

-- `_schedule_epoch_wakeup`, where `event_base_set` accepts the fresh event.
unfoldable pub schedule_epoch_wakeup : ℕ → Server → ℕ → ℤ → Server
unfolding arm
schedule_epoch_wakeup now s f when =
    if not s.has_event_base
    then s
    else if not (gt_now when now)
    then s
    else if (s.functions f).epoch_wakeup_timer && leb_ℤ (s.functions f).epoch_next_wakeup when
    then s
    else arm (new_object s).1 f when (new_object s).0

-- `while (it != end() && *it <= now) it= erase(it)`
unfoldable pub erase_due : ℕ → List ℤ → List ℤ
erase_due now [] = []
erase_due now (t ∷ ts) = if leb_ℤ t (pos now) then erase_due now ts else t ∷ ts

abbrev pub rearm : ℕ → Server → ℕ → List ℤ → Server
rearm now s f [] = s
rearm now s f (t ∷ ts) = if is_positive t then schedule_epoch_wakeup now s f t else s

-- `_epoch_wakeup_cb`: the timer fires.
unfoldable pub epoch_wakeup_cb : ℕ → Server → ℕ → Server
epoch_wakeup_cb now s f =
    let s1 =
      set_function s f
        (record (s.functions f) { epoch_wakeup_timer = false; epoch_next_wakeup = pos 0 }) in
    let s2 = wake_workers s1 f in
    let due = erase_due now (s2.functions f).epoch_pending_whens in
    rearm now (set_function s2 f (record (s2.functions f) { epoch_pending_whens = due })) f due
