-- ===== src/Timer/Steps.antt =====
-- What the threads and the timer do to the alarm clock, each call and each interrupt as one step.
use eda.Prelude.{
  ℕ, ◌+◌, ◌^◌, ◌<◌, ◌≤◌, ◌≡◌, ◌≢◌, ◌∙◌, ap, ◌&&◌, Bool, true, false, not, ◌==◌, ==_iff, List, [],
  ◌∷◌, arith, Bool-cases, inl, inr, ok,
}
use eda.Prelude.Members.{mem}
use eda.Thread.{
  Thread, thread_magic, is_blocked, Kernel, status_of, is_thread, next_thread, intr_disable,
  thread_block, thread_yield, thread_exit, thread_create, thread_unblock,
}
use eda.Thread.Invariant.{IsValid, Switched}
use eda.Thread.Schedule.{next_queued}
use eda.Timer.{Timer, timer_irq, timer_sleep}
use eda.Timer.Wake.{Sleepers}
use eda.Timer.Sleepers.{IsTimer, live_of_mem}
use eda.Timer.Tables.{blocked_not_dying}

-- The clock with interrupts on or off.
abbrev pub at_level : Timer → Bool → Timer
at_level s on = record s { kernel = record s.kernel { intr_on = on } }

abbrev pub with_kernel : Timer → Kernel → Timer
with_kernel s k = record s { kernel = k }

-- One step. `timer_sleep` is one, although the source turns interrupts off only before it blocks: an
-- interrupt between its first statement and its call of `thread_block` is not among the runs. The processor takes a timer interrupt, with interrupts off inside; the current thread turns
-- interrupts on or off, sleeps, yields, exits or blocks, creates a thread on a free page, or unblocks
-- a thread that does not sleep.
pub data Step (s : Timer) : Timer → Type 0 where
  interrupt : {s' : Timer} → s.ticks + 1 < 2 ^ 31 → timer_irq (at_level s false) ≡ ok s' → Step s s'
  level : (on : Bool) → Step s (at_level s on)
  sleep :
      {s' : Timer} (n : ℕ)
      → 0 < n
      → s.ticks + n < 2 ^ 31
      → s.kernel.current ≢ s.kernel.idle_thread
      → timer_sleep s n true ≡ ok s'
      → Step s s'
  yield : {k : Kernel} → thread_yield s.kernel ≡ ok k → Step s (with_kernel s k)
  exit :
      {k : Kernel}
      → s.kernel.current ≢ s.kernel.idle_thread
      → thread_exit s.kernel ≡ ok k
      → Step s (with_kernel s k)
  block :
      {k : Kernel}
      → s.kernel.current ≢ s.kernel.idle_thread
      → thread_block (intr_disable s.kernel) ≡ ok k
      → Step s (with_kernel s k)
  create :
      {tid : ℕ} {k : Kernel} (page priority : ℕ)
      → page ≢ 0
      → priority ≤ 63
      → is_thread s.kernel page ≡ false
      → thread_create s.kernel page priority ≡ ok (tid, k)
      → Step s (with_kernel s k)
  unblock :
      {k : Kernel} (t : ℕ)
      → mem t s.blocked_threads ≡ false
      → is_thread s.kernel t ≡ true
      → is_blocked (status_of s.kernel t) ≡ true
      → t ≢ s.kernel.idle_thread
      → thread_unblock s.kernel t ≡ ok k
      → Step s (with_kernel s k)

pub data Run (s : Timer) : Timer → Type 0 where
  here : Run s s
  after : {t u : Timer} → Run s t → Step t u → Run s u

-- The clock between steps: no external interrupt is being handled.
pub record IsClock (s : Timer) : Type 0 where
  pub timer : IsTimer s
  pub outside : s.kernel.in_external_intr ≡ false

-- `k'` has the sleepers of `s` as they are there.
pub record Keeps (s : Timer) (k' : Kernel) : Type 0 where
  pub valid : IsValid k'
  pub same_idle : k'.idle_thread ≡ s.kernel.idle_thread
  pub same :
      (t : ℕ)
      → mem t s.blocked_threads ≡ true
      → (is_thread k' t ≡ true)
        × (is_blocked (status_of k' t) ≡ true)
        × ((k'.threads t).alarm_tick ≡ (s.kernel.threads t).alarm_tick)

Keeps-Sleepers :
    {s : Timer} {k' : Kernel}
    → IsTimer s
    → Keeps s k'
    → (ts : List ℕ) → ((t : ℕ) → mem t ts ≡ true → mem t s.blocked_threads ≡ true)
    → Sleepers k' ts
unfolding mem
Keeps-Sleepers v p [] h = tt
Keeps-Sleepers {s} v p (x ∷ xs) h =
    let m = h x (ground arith) in
    let (live, ne) = live_of_mem s.kernel s.blocked_threads v.sleepers x m in
    (
      (p.same x m).0,
      λ e. absurd (ground (arith, p.same_idle)),
      Keeps-Sleepers v p xs (λ t g. h t (ground arith)),
    )

pub Keeps-IsTimer : {s : Timer} {k' : Kernel} → IsTimer s → Keeps s k' → IsTimer (with_kernel s k')
Keeps-IsTimer {s} v p = record {
  kernel = p.valid;
  distinct = v.distinct;
  sleepers = Keeps-Sleepers v p s.blocked_threads (λ t m. m);
  sleeping = λ t m. (p.same t m).1;
  ahead = λ t m. let (lo, hi) = v.ahead t m in let (l, b, a) = p.same t m in (rw a lo, rw a hi);
}

-- The state `k` in which `schedule` is called has the sleepers of `s`, none of them on its run queue.
pub record Spares (s : Timer) (k : Kernel) : Type 0 where
  pub same_idle : k.idle_thread ≡ s.kernel.idle_thread
  pub same : (t : ℕ) → mem t s.blocked_threads ≡ true → k.threads t ≡ s.kernel.threads t
  pub unqueued : (t : ℕ) → mem t s.blocked_threads ≡ true → mem t k.ready_list ≡ false

pub Switched-Keeps :
    {s : Timer} {k k' : Kernel} → IsTimer s → Spares s k → Switched k k' → Keeps s k'
Switched-Keeps {s} {k} {k'} v p sw = record {
  valid = sw.valid;
  same_idle = sw.same_idle ∙ p.same_idle;
  same = λ t m. go t m;
}
  where
    not_next : (t : ℕ) → mem t s.blocked_threads ≡ true → (t == k'.current) ≡ false
    not_next t m = elim (Bool-cases (t == k'.current)) [
      | inr e ↦ e
      | inl e ↦
          let (live, other) = live_of_mem s.kernel s.blocked_threads v.sleepers t m in
          let t_is : t ≡ next_thread k.idle_thread k.ready_list =
            (==_iff t k'.current).0 e ∙ sw.chosen in
          let out : (t == k.idle_thread) ≡ false = rw p.same_idle other in
          let queued : mem t k.ready_list ≡ true =
            rw t_is (next_queued k.idle_thread k.ready_list (rw t_is at out)) in
          absurd (ground (arith, p.unqueued t m))
    ]

    go :
        (t : ℕ)
        → mem t s.blocked_threads ≡ true
        → (is_thread k' t ≡ true)
          × (is_blocked (status_of k' t) ≡ true)
          × ((k'.threads t).alarm_tick ≡ (s.kernel.threads t).alarm_tick)
    go t m =
        let (live, other) = live_of_mem s.kernel s.blocked_threads v.sleepers t m in
        let bl : is_blocked (status_of k t) ≡ true =
          ap (λ th. is_blocked (Thread.status th)) (p.same t m) ∙ v.sleeping t m in
        (
          sw.live t (blocked_not_dying (status_of k t) bl)
              ∙ ap (λ th. not (t == 0) && (Thread.magic th == thread_magic)) (p.same t m)
              ∙ live,
          ap is_blocked (sw.statuses t) ∙ rw (not_next t m) bl,
          sw.alarms t ∙ ap (λ th. Thread.alarm_tick th) (p.same t m),
        )
