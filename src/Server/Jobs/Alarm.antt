-- ===== src/Server/Jobs/Alarm.antt =====
-- job.cc: what the timer of a function's later jobs leaves when it fires.
use gearmand.Prelude.{
  ℕ, ◌≡◌, inl, inr, refl, ap, ◌∙◌, true, false, ◌||◌, List, [], ◌∷◌, ◌++◌, ℤ, pos, negsuc, gt_now,
  is_positive, leb_ℤ, ltb, ◌==◌, Bool-cases, arith, ==_self,
}
use gearmand.Server.State.{Server, Function, set_function}
use gearmand.Protocol.Commands.{Magic, Command}
use gearmand.Server.Io.{io_packet_add}
use gearmand.Server.Io.Frame.{strip, strip-io_packet_add}
use gearmand.Server.Jobs.Wake.{
  wake_workers, wake_loop, wake_worker, erase_due, epoch_wakeup_cb, rearm,
}
use gearmand.Server.Jobs.Epoch.{IsBefore, IsWatched, leb_ℤ_refl, schedule_new, schedule-pending}

-- The times in order, the earliest first.
abbrev pub IsSorted : List ℤ → Type 0
IsSorted [] = Unit
IsSorted (t ∷ ts) = IsBefore t ts × IsSorted ts

-- What the wake-up of a worker may not change.
abbrev Same : Server → Server → Type 0
Same s t =
    (t.functions ≡ s.functions)
    × (t.has_event_base ≡ s.has_event_base)
    × (t.can_allocate ≡ s.can_allocate)

io_packet_add-Same :
    (s : Server) (con : ℕ) → Same s (io_packet_add s con false Magic.response Command.noop []).0
unfolding strip
io_packet_add-Same s con =
    let e = strip-io_packet_add s con false Magic.response Command.noop [] in
    (
      ap (λ (x : Server). x.functions) e,
      ap (λ (x : Server). x.has_event_base) e,
      ap (λ (x : Server). x.can_allocate) e,
    )

wake_worker-Same : (s : Server) (w sent : ℕ) → Same s (wake_worker s w sent).0
unfolding wake_worker
wake_worker-Same s w sent = ground (arith, io_packet_add-Same s (s.workers w).con)

wake_loop-Same :
    (s : Server) (ws visited : List ℕ) (sent : ℕ) → Same s (wake_loop s ws visited sent).1
unfolding wake_loop
wake_loop-Same s [] visited sent = (refl, refl, refl)
wake_loop-Same s (w ∷ ws) visited sent =
    let r = wake_worker s w sent in
    let a = wake_worker-Same s w sent in
    let b = wake_loop-Same r.0 ws (visited ++ w ∷ []) r.1 in
    elim (Bool-cases ((s.worker_wakeup == 0) || ltb r.1 s.worker_wakeup)) [
      | inl more ↦ rw (wake_loop, more) (b.0 ∙ a.0, b.1 ∙ a.1, b.2 ∙ a.2)
      | inr last ↦ rw (wake_loop, last) a
    ]

module _ (s : Server) (f : ℕ) where
  woken : Same s (wake_loop s (s.functions f).worker_list [] 0).1
  woken = wake_loop-Same s (s.functions f).worker_list [] 0

  wake_workers-base : (wake_workers s f).has_event_base ≡ s.has_event_base
  unfolding wake_workers
  wake_workers-base = woken.1

  wake_workers-memory : (wake_workers s f).can_allocate ≡ s.can_allocate
  unfolding wake_workers
  wake_workers-memory = woken.2

  wake_workers-timer :
      ((wake_workers s f).functions f).epoch_wakeup_timer ≡ (s.functions f).epoch_wakeup_timer
  unfolding wake_workers
  wake_workers-timer = rw (==_self f) (ap (λ g. (g f).epoch_wakeup_timer) woken.0)

  wake_workers-pending :
      ((wake_workers s f).functions f).epoch_pending_whens ≡ (s.functions f).epoch_pending_whens
  unfolding wake_workers
  wake_workers-pending = rw (==_self f) (ap (λ g. (g f).epoch_pending_whens) woken.0)

not_due : (now : ℕ) (t : ℤ) → leb_ℤ t (pos now) ≡ false → gt_now t now ≡ true
unfolding leb_ℤ
not_due now (pos n) h = ground arith
not_due now (negsuc n) h = cc

erase_due-later :
    (now : ℕ) (ts us : List ℤ) (t : ℤ) → erase_due now ts ≡ t ∷ us → gt_now t now ≡ true
unfolding erase_due
erase_due-later now [] us t e = cc
erase_due-later now (u ∷ ts) us t e = elim (Bool-cases (leb_ℤ u (pos now))) [
  | inl due ↦ erase_due-later now ts us t (rw (erase_due, due) at e)
  | inr late ↦ ground (arith, not_due now u late)
]

erase_due-IsSorted : (now : ℕ) (ts : List ℤ) → IsSorted ts → IsSorted (erase_due now ts)
unfolding erase_due
erase_due-IsSorted now [] h = tt
erase_due-IsSorted now (t ∷ ts) h = ground (arith, erase_due-IsSorted now ts h.1)

later-IsPositive : (t : ℤ) (now : ℕ) → gt_now t now ≡ true → is_positive t ≡ true
later-IsPositive (pos n) now h = ground arith
later-IsPositive (negsuc n) now h = cc

module _ (now : ℕ) (s : Server) (f : ℕ) where
  -- What `rearm` does for the times that remain.
  rearm-IsWatched :
      (ts : List ℤ)
      → s.has_event_base ≡ true
      → s.can_allocate s.next_object ≡ true
      → (s.functions f).epoch_wakeup_timer ≡ false
      → (s.functions f).epoch_pending_whens ≡ ts
      → IsSorted ts
      → ((t : ℤ) → (us : List ℤ) → ts ≡ t ∷ us → gt_now t now ≡ true)
      → IsWatched ((rearm now s f ts).functions f)
  rearm-IsWatched [] base memory off pending sorted late = inl pending
  rearm-IsWatched (t ∷ ts) base memory off pending sorted late =
      let gt = late t ts refl in
      let new = schedule_new now s f t base memory gt (rw off) in
      rw (later-IsPositive t now gt, new, ==_self f)
        (inr (record { armed = refl; early = rw pending (leb_ℤ_refl t, sorted.0) }))

abbrev unset : Server → ℕ → Server
unset s f =
    set_function s f
      (record (s.functions f) { epoch_wakeup_timer = false; epoch_next_wakeup = pos 0 })

rearm-pending :
    (now : ℕ) (s : Server) (f : ℕ) (ts : List ℤ)
    → ((rearm now s f ts).functions f).epoch_pending_whens ≡ (s.functions f).epoch_pending_whens
rearm-pending now s f [] = refl
rearm-pending now s f (t ∷ ts) = elim (Bool-cases (is_positive t)) [
  | inl set ↦ rw set (schedule-pending now s f t)
  | inr idle ↦ rw idle refl
]

-- A function's pending times are in order, and its timer is set for no later than the first of them.
abbrev pub IsScheduled : Function → Type 0
IsScheduled x = IsSorted x.epoch_pending_whens × IsWatched x

-- After the timer of a function's later jobs fired, where there is an event loop and memory for
-- events and the pending times were in order, they are in order, and a timer is set for no later
-- than each that is left, if any is.
pub epoch_wakeup_cb-IsScheduled :
    (now : ℕ) (s : Server) (f : ℕ)
    → s.has_event_base ≡ true
    → ((n : ℕ) → s.can_allocate n ≡ true)
    → IsSorted (s.functions f).epoch_pending_whens
    → IsScheduled ((epoch_wakeup_cb now s f).functions f)
unfolding epoch_wakeup_cb
epoch_wakeup_cb-IsScheduled now s f base memory sorted =
    let s1 = unset s f in
    let t = wake_workers s1 f in
    let due = erase_due now (t.functions f).epoch_pending_whens in
    let s3 = set_function t f (record (t.functions f) { epoch_pending_whens = due }) in
    let off : (t.functions f).epoch_wakeup_timer ≡ false =
      wake_workers-timer s1 f ∙ rw (==_self f) refl in
    let times : (t.functions f).epoch_pending_whens ≡ (s.functions f).epoch_pending_whens =
      wake_workers-pending s1 f ∙ rw (==_self f) refl in
    let sorted_due : IsSorted due =
      erase_due-IsSorted now (t.functions f).epoch_pending_whens (rw times sorted) in
    (
      rw (rearm-pending now s3 f due, ==_self f) sorted_due,
      rearm-IsWatched now s3 f due (wake_workers-base s1 f ∙ base)
          (rw (wake_workers-memory s1 f) (memory t.next_object)) (rw (==_self f) off)
          (rw (==_self f)) sorted_due
          (λ u us. erase_due-later now (t.functions f).epoch_pending_whens us u),
    )
