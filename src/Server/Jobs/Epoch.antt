-- ===== src/Server/Jobs/Epoch.antt =====
-- job.cc: the timer that wakes workers for jobs that are for later.
use gearmand.Prelude.{
  ℕ, ◌≡◌, ◌⊎◌, inl, inr, refl, ◌∙◌, Bool, true, false, ◌&&◌, List, [], ◌∷◌, ℤ, pos, negsuc, gt_now,
  is_positive, leb_ℤ, Bool-cases, arith, &&_left, &&_right, ==_self,
}
use gearmand.Server.State.{Server, Function, new_object, set_function}
use gearmand.Server.Jobs.Wake.{insert_when, schedule_epoch_wakeup, armed_function}
use gearmand.Server.Jobs.Requeue.{plan_epoch}

pub leb_ℤ_refl : (t : ℤ) → leb_ℤ t t ≡ true
unfolding leb_ℤ
leb_ℤ_refl (pos n) = ground arith
leb_ℤ_refl (negsuc n) = ground arith

pub leb_ℤ_trans : (a b c : ℤ) → leb_ℤ a b ≡ true → leb_ℤ b c ≡ true → leb_ℤ a c ≡ true
unfolding leb_ℤ
leb_ℤ_trans (pos a) (pos b) (pos c) h k = ground arith
leb_ℤ_trans (negsuc a) (negsuc b) (negsuc c) h k = ground arith
leb_ℤ_trans (negsuc a) b (pos c) h k = refl
leb_ℤ_trans (pos a) (negsuc b) c h k = cc
leb_ℤ_trans (pos a) (pos b) (negsuc c) h k = cc
leb_ℤ_trans (negsuc a) (pos b) (negsuc c) h k = cc

pub leb_ℤ_total : (a b : ℤ) → leb_ℤ a b ≡ false → leb_ℤ b a ≡ true
unfolding leb_ℤ
leb_ℤ_total (pos a) (pos b) h = ground arith
leb_ℤ_total (negsuc a) (negsuc b) h = ground arith
leb_ℤ_total (pos a) (negsuc b) h = refl
leb_ℤ_total (negsuc a) (pos b) h = cc

-- A time that is at or before each time of a list.
abbrev pub IsBefore : ℤ → List ℤ → Type 0
IsBefore m [] = Unit
IsBefore m (t ∷ ts) = (leb_ℤ m t ≡ true) × IsBefore m ts

pub IsBefore-insert_when :
    (m t : ℤ) (ts : List ℤ) → leb_ℤ m t ≡ true → IsBefore m ts → IsBefore m (insert_when t ts)
unfolding insert_when
IsBefore-insert_when m t [] h b = (h, tt)
IsBefore-insert_when m t (u ∷ us) h b = ground (arith, IsBefore-insert_when m t us h b.1)

pub IsBefore-trans : (a m : ℤ) (ts : List ℤ) → leb_ℤ a m ≡ true → IsBefore m ts → IsBefore a ts
IsBefore-trans a m [] h b = tt
IsBefore-trans a m (t ∷ ts) h b = (leb_ℤ_trans a m t h b.0, IsBefore-trans a m ts h b.1)

-- The function's timer is set, for a time at or before that of each pending job.
pub record IsTimely (x : Function) : Type 0 where
  pub armed : x.epoch_wakeup_timer ≡ true
  pub early : IsBefore x.epoch_next_wakeup x.epoch_pending_whens

abbrev pub IsWatched : Function → Type 0
IsWatched x = (x.epoch_pending_whens ≡ []) ⊎ IsTimely x

-- What the pending times so far say of the function's timer.
abbrev Kept : Function → List ℤ → Type 0
Kept x ts = (ts ≡ []) ⊎ ((x.epoch_wakeup_timer ≡ true) × IsBefore x.epoch_next_wakeup ts)

Kept-IsBefore : (x : Function) (ts : List ℤ) → Kept x ts → IsBefore x.epoch_next_wakeup ts
Kept-IsBefore x ts (inl e) = rw e tt
Kept-IsBefore x ts (inr k) = k.1

new-IsBefore :
    (x : Function) (when : ℤ) (ts : List ℤ)
    → Kept x ts
    → (x.epoch_wakeup_timer && leb_ℤ x.epoch_next_wakeup when) ≡ false
    → IsBefore when ts
new-IsBefore x when ts (inl e) h = rw e tt
new-IsBefore x when ts (inr k) h =
    IsBefore-trans when x.epoch_next_wakeup ts (leb_ℤ_total x.epoch_next_wakeup when (rw k.0 at h))
      k.1

module _ (now : ℕ) (s : Server) (f : ℕ) (when : ℤ) where
  abbrev pub has_earlier : Bool
  has_earlier = (s.functions f).epoch_wakeup_timer && leb_ℤ (s.functions f).epoch_next_wakeup when

  schedule_kept : has_earlier ≡ true → schedule_epoch_wakeup now s f when ≡ s
  unfolding schedule_epoch_wakeup
  schedule_kept keep = elim (Bool-cases s.has_event_base) [
    | inl base ↦ elim (Bool-cases (gt_now when now)) [
      | inl late ↦ simp (base, late, keep)
      | inr due ↦ simp (base, due)
    ]
    | inr bare ↦ simp bare
  ]

  pub schedule_new :
      s.has_event_base ≡ true
      → s.can_allocate s.next_object ≡ true
      → gt_now when now ≡ true
      → has_earlier ≡ false
      → schedule_epoch_wakeup now s f when
        ≡ set_function (new_object s).1 f (armed_function (s.functions f) when)
  unfolding schedule_epoch_wakeup
  schedule_new base memory late new = simp (base, late, new, memory)

  schedule-IsTimely :
      (ts : List ℤ)
      → s.has_event_base ≡ true
      → s.can_allocate s.next_object ≡ true
      → gt_now when now ≡ true
      → Kept (s.functions f) ts
      → (s.functions f).epoch_pending_whens ≡ insert_when when ts
      → IsTimely ((schedule_epoch_wakeup now s f when).functions f)
  schedule-IsTimely ts base memory late before pending = elim (Bool-cases has_earlier) [
    | inl keep ↦ rw (schedule_kept keep) (record {
      armed = &&_left _ _ keep;
      early = rw pending (
          IsBefore-insert_when _ when ts (&&_right (s.functions f).epoch_wakeup_timer _ keep)
            (Kept-IsBefore (s.functions f) ts before));
    })
    | inr new ↦
        rw (schedule_new base memory late new, ==_self f)
          (record {
            armed = refl;
            early = rw pending (
                IsBefore-insert_when when when ts (leb_ℤ_refl when)
                  (new-IsBefore (s.functions f) when ts before new));
          })
  ]

pub schedule-pending :
    (now : ℕ) (s : Server) (f : ℕ) (when : ℤ)
    → ((schedule_epoch_wakeup now s f when).functions f).epoch_pending_whens
      ≡ (s.functions f).epoch_pending_whens
unfolding schedule_epoch_wakeup
schedule-pending now s f when = ground arith

watched-Kept : (x : Function) → IsWatched x → Kept x x.epoch_pending_whens
watched-Kept x (inl e) = inl e
watched-Kept x (inr t) = inr (t.armed, t.early)

-- Queueing a job for later, where there is an event loop and memory for the event, leaves its
-- function with a timer set for no later than any pending job, this one among them, if the function
-- had such a timer before or nothing pending.
pub plan_epoch-IsTimely :
    (now : ℕ) (s : Server) (j : ℕ)
    → s.has_event_base ≡ true
    → s.can_allocate s.next_object ≡ true
    → (is_positive (s.jobs j).when && gt_now (s.jobs j).when now) ≡ true
    → IsWatched (s.functions (s.jobs j).function)
    → IsTimely ((plan_epoch now s j).functions (s.jobs j).function)
      × (((plan_epoch now s j).functions (s.jobs j).function).epoch_pending_whens
          ≡ insert_when (s.jobs j).when (s.functions (s.jobs j).function).epoch_pending_whens)
unfolding plan_epoch
plan_epoch-IsTimely now s j base memory late w =
    let f = (s.jobs j).function in
    let when = (s.jobs j).when in
    let ts = (s.functions f).epoch_pending_whens in
    let s1 =
      set_function s f (record (s.functions f) { epoch_pending_whens = insert_when when ts }) in
    let gt : gt_now when now ≡ true = &&_right (is_positive when) _ late in
    simp late (
      schedule-IsTimely now s1 f when ts base memory gt
          (rw (==_self f) (watched-Kept (s.functions f) w)) (rw (==_self f)),
      schedule-pending now s1 f when ∙ rw (==_self f),
    )
