-- ===== src/Timer/Safe.antt =====
-- Runs of whole calls and interrupts keep the alarm clock, and no sleeper wakes early in them.
use mathlib.Core.Path.{subst}
use eda.Prelude.{
  ℕ, ◌+◌, ◌^◌, ◌<◌, ◌≤◌, ◌≡◌, ◌≢◌, refl, sym, ◌∙◌, ap, Bool, true, false, ◌==◌, ==-ne, ==_iff, ◌∷◌,
  arith, Bool-cases, inl, inr, ok, ok_inj,
}
use eda.Prelude.Members.{mem}
use eda.Thread.{
  blocked, is_blocked, Kernel, status_of, set_status, is_thread, intr_disable, thread_block,
  thread_yield, thread_exit, thread_create, thread_unblock,
}
use eda.Thread.Switch.{
  yielded, exited, thread_block-Switched, thread_yield-Switched, thread_exit-Switched,
}
use eda.Thread.Create.{
  IsCalm, created, created-IsValid, unblocked, unblocked-IsValid, thread_create_lem,
  thread_unblock-IsValid,
}
use eda.Thread.Waiters.{level-IsValid}
use eda.Timer.{Timer, timer_irq, timer_sleep}
use eda.Timer.Sleepers.{IsTimer, live_of_mem}
use eda.Timer.Tables.{yielded_queue}
use eda.Timer.Interrupt.{timer_irq-Ticked}
use eda.Timer.Sleep.{timer_sleep-Slept}
use eda.Timer.Steps.{
  Step, Run, here, after, interrupt, level, sleep, yield, exit, block, create, unblock, at_level,
  with_kernel, IsClock, Keeps, Keeps-IsTimer, Spares, Switched-Keeps,
}

-- `s'` comes after `s`: it is a state between steps, and each sleeper of `s` whose alarm is still ahead
-- sleeps on, with the same alarm.
pub record Later (s s' : Timer) : Type 0 where
  pub clock : IsClock s'
  pub ticks : s.ticks ≤ s'.ticks
  pub kept :
      (t : ℕ)
      → mem t s.blocked_threads ≡ true
      → s'.ticks < (s.kernel.threads t).alarm_tick
      → (mem t s'.blocked_threads ≡ true)
        × ((s'.kernel.threads t).alarm_tick ≡ (s.kernel.threads t).alarm_tick)

Later-trans : {s t u : Timer} → Later s t → Later t u → Later s u
Later-trans a b = record {
  clock = b.clock;
  ticks = omega (arith, a.ticks, b.ticks);
  kept = λ x m lt.
      let (m1, e1) = a.kept x m (omega (arith, b.ticks)) in
      let (m2, e2) = b.kept x m1 (rw e1 lt) in (m2, e2 ∙ e1);
}

Keeps-Later :
    {s : Timer} {k' : Kernel}
    → IsClock s
    → Keeps s k'
    → k'.in_external_intr ≡ false
    → Later s (with_kernel s k')
Keeps-Later c p out = record {
  clock = record { timer = Keeps-IsTimer c.timer p; outside = out };
  ticks = omega arith;
  kept = λ t m lt. (m, (p.same t m).2);
}

module _ {s : Timer} (c : IsClock s) where
  abbrev v : IsTimer s
  v = c.timer

  not_current : (t : ℕ) → mem t s.blocked_threads ≡ true → (t == s.kernel.current) ≡ false
  not_current t m = elim (Bool-cases (t == s.kernel.current)) [
    | inr e ↦ e
    | inl e ↦
        let same = (==_iff t s.kernel.current).0 e in
        let bl : is_blocked (status_of s.kernel s.kernel.current) ≡ true =
          subst (λ x. is_blocked (status_of s.kernel x) ≡ true) same (v.sleeping t m) in
        absurd (ground (arith, v.kernel.running_only s.kernel.current v.kernel.queued.current_live))
  ]

  sleeper_unqueued : (t : ℕ) → mem t s.blocked_threads ≡ true → mem t s.kernel.ready_list ≡ false
  sleeper_unqueued t m = ground (arith, v.kernel.queued.ready_all t, v.sleeping t m)

  yield-Spares : Spares s (yielded v.kernel)
  yield-Spares = record {
    same_idle = refl;
    same = λ t m. rw (not_current t m) refl;
    unqueued = λ t m. elim (Bool-cases (mem t (yielded v.kernel).ready_list)) [
      | inr e ↦ e
      | inl e ↦ absurd (ground (arith, yielded_queue v.kernel t e, v.sleeping t m))
    ];
  }

  yield-Later : {k : Kernel} → thread_yield s.kernel ≡ ok k → Later s (with_kernel s k)
  yield-Later run =
      let (k', run', sw) = thread_yield-Switched v.kernel c.outside in
      subst (λ k. Later s (with_kernel s k)) (ok_inj (sym run' ∙ run))
        (Keeps-Later c (Switched-Keeps v yield-Spares sw) (sw.same_context ∙ c.outside))

  exit-Later :
      {k : Kernel}
      → s.kernel.current ≢ s.kernel.idle_thread
      → thread_exit s.kernel ≡ ok k
      → Later s (with_kernel s k)
  exit-Later ne run =
      let (k', run', sw) = thread_exit-Switched v.kernel c.outside ne in
      let sp : Spares s (exited v.kernel) = record {
        same_idle = refl;
        same = λ t m. rw (not_current t m) refl;
        unqueued = sleeper_unqueued;
      } in
      subst (λ k. Later s (with_kernel s k)) (ok_inj (sym run' ∙ run))
        (Keeps-Later c (Switched-Keeps v sp sw) (sw.same_context ∙ c.outside))

  block-Later :
      {k : Kernel} → thread_block (intr_disable s.kernel) ≡ ok k → Later s (with_kernel s k)
  block-Later run =
      let (k', run', sw) = thread_block-Switched (level-IsValid false v.kernel) refl c.outside in
      let sp : Spares s (set_status (intr_disable s.kernel) s.kernel.current blocked) = record {
        same_idle = refl;
        same = λ t m. rw (not_current t m) refl;
        unqueued = sleeper_unqueued;
      } in
      subst (λ k. Later s (with_kernel s k)) (ok_inj (sym run' ∙ run))
        (Keeps-Later c (Switched-Keeps v sp sw) (sw.same_context ∙ c.outside))

  calm : IsCalm s.kernel
  calm = rw c.outside refl

  create-Later :
      {tid : ℕ} {k : Kernel} (page priority : ℕ)
      → page ≢ 0
      → priority ≤ 63
      → is_thread s.kernel page ≡ false
      → thread_create s.kernel page priority ≡ ok (tid, k)
      → Later s (with_kernel s k)
  create-Later page priority ne hi fresh run =
      let same : unblocked (created s.kernel page priority) page ≡ _ =
        ap (λ r. r.1)
          (ok_inj (sym (thread_create_lem v.kernel page priority ne fresh calm hi) ∙ run)) in
      let not_page : (t : ℕ) → mem t s.blocked_threads ≡ true → (t == page) ≡ false = λ t m.
        elim (Bool-cases (t == page)) [
          | inr e ↦ e
          | inl e ↦
              let (live, other) = live_of_mem s.kernel s.blocked_threads v.sleepers t m in
              absurd (
                ground (
                  arith,
                  (==_iff t page).0 e,
                  subst (λ x. is_thread s.kernel x ≡ true) ((==_iff t page).0 e) live,
                ))
        ] in
      subst (λ k. Later s (with_kernel s k)) same
        (Keeps-Later c
          (record {
            valid =
                unblocked-IsValid page (created-IsValid v.kernel page priority ne fresh calm)
                  (ground arith) (ground (arith, v.kernel.queued.idle_live)) (ground arith);
            same_idle = refl;
            same = λ t m.
                let (live, other) = live_of_mem s.kernel s.blocked_threads v.sleepers t m in
                let out = not_page t m in
                (ground arith, ground (arith, v.sleeping t m), ground arith);
          })
          c.outside)

  unblock-Later :
      {k : Kernel} (t : ℕ)
      → mem t s.blocked_threads ≡ false
      → is_thread s.kernel t ≡ true
      → is_blocked (status_of s.kernel t) ≡ true
      → t ≢ s.kernel.idle_thread
      → thread_unblock s.kernel t ≡ ok k
      → Later s (with_kernel s k)
  unblock-Later t out live bl ne run =
      let (run', v') = thread_unblock-IsValid t v.kernel calm live ne bl in
      let other : (u : ℕ) → mem u s.blocked_threads ≡ true → (u == t) ≡ false = λ u m.
        elim (Bool-cases (u == t)) [
          | inr e ↦ e
          | inl e ↦ absurd (
              ground (arith, out, subst (λ x. mem x s.blocked_threads ≡ true) ((==_iff u t).0 e) m))
        ] in
      subst (λ k. Later s (with_kernel s k)) (ok_inj (sym run' ∙ run))
        (Keeps-Later c
          (record {
            valid = v';
            same_idle = refl;
            same = λ u m.
                let (live', idle) = live_of_mem s.kernel s.blocked_threads v.sleepers u m in
                let apart = other u m in
                (ground arith, ground (arith, v.sleeping u m), ground arith);
          })
          c.outside)

  pub level-IsTimer : (on : Bool) → IsTimer (at_level s on)
  level-IsTimer on = record {
    kernel = level-IsValid on v.kernel;
    distinct = v.distinct;
    sleepers = v.sleepers;
    sleeping = v.sleeping;
    ahead = v.ahead;
  }

  level-Later : (on : Bool) → Later s (at_level s on)
  level-Later on = record {
    clock = record { timer = level-IsTimer on; outside = c.outside };
    ticks = omega arith;
    kept = λ t m lt. (m, refl);
  }

  interrupt-Later :
      {s' : Timer} → s.ticks + 1 < 2 ^ 31 → timer_irq (at_level s false) ≡ ok s' → Later s s'
  interrupt-Later soon run =
      let (s1, run', t) = timer_irq-Ticked (level-IsTimer false) refl c.outside soon in
      subst (λ x. Later s x) (ok_inj (sym run' ∙ run))
        (record {
          clock = record { timer = t.valid; outside = t.outside };
          ticks = omega (arith, t.ticked);
          kept = λ x m lt.
              let on : mem x s1.blocked_threads ≡ true =
                (t.woken x m).1
                ∙ rw
                    (==-ne (s.kernel.threads x).alarm_tick (s.ticks + 1)
                      (λ e. omega (arith, e, lt, t.ticked)))
                    refl in
              (on, (t.alarms x on).1);
        })

  still :
      (x : ℕ) → mem x s.blocked_threads ≡ true → mem x (s.kernel.current ∷ s.blocked_threads) ≡ true
  unfolding mem
  still x m = ground arith

  sleep-Later :
      {s' : Timer} (n : ℕ)
      → 0 < n
      → s.ticks + n < 2 ^ 31
      → s.kernel.current ≢ s.kernel.idle_thread
      → timer_sleep s n true ≡ ok s'
      → Later s s'
  sleep-Later n pos soon ne run =
      let (s1, run', t) = timer_sleep-Slept v n pos soon c.outside ne in
      subst (λ x. Later s x) (ok_inj (sym run' ∙ run))
        (record {
          clock = record { timer = t.valid; outside = t.outside };
          ticks = omega (arith, t.same_ticks);
          kept = λ x m lt. (rw t.listed (still x m), t.alarms x m);
        })

Step-Later : {s s' : Timer} → IsClock s → Step s s' → Later s s'
Step-Later c (interrupt soon run) = interrupt-Later c soon run
Step-Later c (level on) = level-Later c on
Step-Later c (sleep n pos soon ne run) = sleep-Later c n pos soon ne run
Step-Later c (yield run) = yield-Later c run
Step-Later c (exit ne run) = exit-Later c ne run
Step-Later c (block ne run) = block-Later c run
Step-Later c (create page priority ne hi fresh run) = create-Later c page priority ne hi fresh run
Step-Later c (unblock t out live bl ne run) = unblock-Later c t out live bl ne run

-- A run is a sequence of these steps: a timer interrupt before tick 2 ^ 31 - 1; the current thread
-- turns interrupts on or off or yields; if it is not the idle thread, it exits, blocks with
-- interrupts off, or sleeps for a positive number of ticks that end before tick 2 ^ 31, malloc
-- giving its node; it creates a thread with a valid priority on a free page, or unblocks a live
-- blocked thread that is neither a sleeper nor the idle thread. Each is one step: no interrupt
-- comes inside timer_sleep, which in the source has interrupts on until it blocks. After any run
-- from a state of the alarm clock whose invariant holds, the invariant holds, and a thread that
-- slept at first and whose alarm is still ahead sleeps on, with the same alarm.
pub Run-Later : {s s' : Timer} → IsClock s → Run s s' → Later s s'
Run-Later c here = record { clock = c; ticks = omega arith; kept = λ t m lt. (m, refl) }
Run-Later c (after r st) = let a = Run-Later c r in Later-trans a (Step-Later a.clock st)
