-- ===== src/Timer/Wake.antt =====
-- One timer interrupt: which sleepers it wakes.
use eda.Prelude.{
  ℕ, ◌≡◌, ◌≢◌, refl, ◌∙◌, ap, ◌&&◌, Bool, true, false, ◌==◌, List, [], ◌∷◌, ◌++◌, arith,
  if◌then◌else◌, Bool-cases, inl, inr, ok,
}
use mathlib.Core.Path.{subst}
use mathlib.Core.List.{append_assoc, append-nil}
use eda.Prelude.Members.{mem, IsDistinct}
use eda.Thread.{ready, is_blocked, Thread, Kernel, status_of, is_thread, no_alarm}
use eda.Thread.Invariant.{IsValid}
use eda.Thread.Create.{IsCalm, unblocked, unblocked-IsValid, thread_unblock_lem}
use eda.Timer.{is_due, set_alarm, check_alarm, wake_loop}

-- Whether the sleeper `t` is to be woken at `ticks`.
abbrev pub is_waking : ℕ → Kernel → ℕ → Bool
is_waking ticks k t = is_blocked (status_of k t) && is_due ticks (k.threads t).alarm_tick

-- The sleepers that are to be woken, and the others, in order.
unfoldable pub waking : ℕ → Kernel → List ℕ → List ℕ
waking ticks k [] = []
waking ticks k (t ∷ ts) = if is_waking ticks k t then t ∷ waking ticks k ts else waking ticks k ts

unfoldable pub asleep : ℕ → Kernel → List ℕ → List ℕ
asleep ticks k [] = []
asleep ticks k (t ∷ ts) = if is_waking ticks k t then asleep ticks k ts else t ∷ asleep ticks k ts

-- Each thread on the list is live and not the idle thread.
abbrev pub Sleepers : Kernel → List ℕ → Type 0
Sleepers k [] = Unit {0}
Sleepers k (t ∷ ts) = (is_thread k t ≡ true) × (t ≢ k.idle_thread) × Sleepers k ts

-- `k'` is `k` with the threads of the list `ws` made ready, in that order, and their alarms cleared.
pub record Woken (k : Kernel) (ws : List ℕ) (k' : Kernel) : Type 0 where
  pub valid : IsValid k'
  pub queue : k'.ready_list ≡ k.ready_list ++ ws
  pub statuses : (t : ℕ) → status_of k' t ≡ (if mem t ws then ready else status_of k t)
  pub alarms :
      (t : ℕ)
      → (k'.threads t).alarm_tick ≡ (if mem t ws then no_alarm else (k.threads t).alarm_tick)
  pub live : (t : ℕ) → is_thread k' t ≡ is_thread k t
  pub same_current : k'.current ≡ k.current
  pub same_idle : k'.idle_thread ≡ k.idle_thread
  pub same_off : k'.intr_on ≡ k.intr_on
  pub same_context : k'.in_external_intr ≡ k.in_external_intr
  pub same_ticks : k'.thread_ticks ≡ k.thread_ticks

-- A change of one thread that is not on a list leaves the list's sleepers.
module _ (ticks : ℕ) (k k' : Kernel) (x : ℕ)
    (same : (t : ℕ) → (t == x) ≡ false → k'.threads t ≡ k.threads t) where
  is_waking-same : (t : ℕ) → (t == x) ≡ false → is_waking ticks k' t ≡ is_waking ticks k t
  is_waking-same t h =
      ap (λ (th : Thread). is_blocked th.status && is_due ticks th.alarm_tick) (same t h)

  waking-same : (ts : List ℕ) → mem x ts ≡ false → waking ticks k' ts ≡ waking ticks k ts
  unfolding waking mem
  waking-same [] h = refl
  waking-same (t ∷ ts) h = ground (arith, is_waking-same t, waking-same ts)

  asleep-same : (ts : List ℕ) → mem x ts ≡ false → asleep ticks k' ts ≡ asleep ticks k ts
  unfolding asleep mem
  asleep-same [] h = refl
  asleep-same (t ∷ ts) h = ground (arith, is_waking-same t, asleep-same ts)

-- The state after one sleeper was woken.
abbrev roused : Kernel → ℕ → Kernel
roused k t = set_alarm (unblocked k t) t no_alarm

roused-IsValid :
    {k : Kernel} (t : ℕ)
    → IsValid k
    → is_thread k t ≡ true
    → t ≢ k.idle_thread
    → is_blocked (status_of k t) ≡ true
    → IsValid (roused k t)
roused-IsValid {k} t v live ne bl =
    let u = unblocked-IsValid t v live ne bl in
    record {
      queued = record {
        idle_live = ground (arith, u.queued.idle_live);
        idle_stays = ground (arith, u.queued.idle_stays);
        current_live = ground (arith, u.queued.current_live);
        ready_all = λ x. ground (arith, u.queued.ready_all x);
        distinct = u.queued.distinct;
      };
      running_only = λ x l. ground (arith, u.running_only x);
    }

Sleepers-same :
    (k k' : Kernel) (ts : List ℕ)
    → ((t : ℕ) → is_thread k' t ≡ is_thread k t)
    → k'.idle_thread ≡ k.idle_thread
    → Sleepers k ts
    → Sleepers k' ts
Sleepers-same k k' [] live idle s = tt
Sleepers-same k k' (t ∷ ts) live idle s =
    (live t ∙ s.0, λ e. s.1 (e ∙ idle), Sleepers-same k k' ts live idle s.2)

Woken-nil : {k : Kernel} → IsValid k → Woken k [] k
unfolding mem
Woken-nil v = record {
  valid = v;
  queue = simp append-nil;
  statuses = λ t. refl;
  alarms = λ t. refl;
  live = λ t. refl;
  same_current = refl;
  same_idle = refl;
  same_off = refl;
  same_context = refl;
  same_ticks = refl;
}

Woken-cons : {k k' : Kernel} (t : ℕ) (ws : List ℕ) → Woken (roused k t) ws k' → Woken k (t ∷ ws) k'
unfolding mem
Woken-cons {k} {k'} t ws w = record {
  valid = w.valid;
  queue = w.queue ∙ append_assoc k.ready_list (t ∷ []) ws;
  statuses = λ x. ground (arith, w.statuses x);
  alarms = λ x. ground (arith, w.alarms x);
  live = λ x. ground (arith, w.live x);
  same_current = w.same_current;
  same_idle = w.same_idle;
  same_off = w.same_off;
  same_context = w.same_context;
  same_ticks = w.same_ticks;
}

module _ (ticks : ℕ) where
  check_alarm-waking :
      (k : Kernel) (t : ℕ)
      → IsCalm k
      → is_thread k t ≡ true
      → is_waking ticks k t ≡ true
      → check_alarm ticks k t ≡ ok (true, roused k t)
  unfolding check_alarm
  check_alarm-waking k t calm live h =
      let bl : is_blocked (status_of k t) ≡ true = ground arith in
      let due : is_due ticks (k.threads t).alarm_tick ≡ true = ground arith in
      rw (bl, due) (rw (thread_unblock_lem k t calm live bl) refl)

  check_alarm-asleep :
      (k : Kernel) (t : ℕ) → is_waking ticks k t ≡ false → check_alarm ticks k t ≡ ok (false, k)
  unfolding check_alarm
  check_alarm-asleep k t h = ground arith

  roused-same : (k : Kernel) (t x : ℕ) → (x == t) ≡ false → (roused k t).threads x ≡ k.threads x
  roused-same k t x h = rw h refl

  roused-waking :
      (k : Kernel) (t : ℕ) (ts : List ℕ)
      → mem t ts ≡ false
      → waking ticks (roused k t) ts ≡ waking ticks k ts
  roused-waking k t ts = waking-same ticks k (roused k t) t (roused-same k t) ts

  wake_loop-waking :
      (k : Kernel) (t : ℕ) (ts : List ℕ) {k' : Kernel}
      → IsCalm k
      → is_thread k t ≡ true
      → is_waking ticks k t ≡ true
      → mem t ts ≡ false
      → wake_loop ticks (roused k t) ts ≡ ok (asleep ticks (roused k t) ts, k')
      → wake_loop ticks k (t ∷ ts) ≡ ok (asleep ticks k (t ∷ ts), k')
  unfolding wake_loop asleep
  wake_loop-waking k t ts {k'} calm live h out run = rw (check_alarm-waking k t calm live h) (
      rw (run, h)
        (ap (λ l. ok (l, k')) (asleep-same ticks k (roused k t) t (roused-same k t) ts out)))

  -- The loop of the timer interrupt over a list of distinct sleepers returns: it wakes those of them
  -- whose alarm is due, in the order of the list, and leaves the others on the list.
  pub wake_loop-Woken :
      (ts : List ℕ) {k : Kernel}
      → IsValid k
      → IsCalm k
      → IsDistinct ts
      → Sleepers k ts
      → (k' : Kernel) × (wake_loop ticks k ts ≡ ok (asleep ticks k ts, k'))
        × Woken k (waking ticks k ts) k'
  unfolding wake_loop asleep waking
  wake_loop-Woken [] {k} v calm d s = (k, refl, Woken-nil v)
  wake_loop-Woken (t ∷ ts) {k} v calm d s = elim (Bool-cases (is_waking ticks k t)) [
    | inr e ↦
        let (k', run, w) = wake_loop-Woken ts v calm d.1 s.2 in
        (k', rw (check_alarm-asleep k t e) (rw (run, e) refl), rw e w)
    | inl e ↦
        let bl : is_blocked (status_of k t) ≡ true = ground arith in
        let (k', run, w) =
          wake_loop-Woken ts (roused-IsValid t v s.0 s.1 bl) calm d.1
            (Sleepers-same k (roused k t) ts (λ x. ground arith) refl s.2) in
        (
          k',
          wake_loop-waking k t ts calm s.0 e d.0 run,
          rw e (
              Woken-cons t (waking ticks k ts)
                (subst (λ ws. Woken (roused k t) ws k') (roused-waking k t ts d.0) w)),
        )
  ]
