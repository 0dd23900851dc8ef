-- ===== src/Timer/Runs.antt =====
-- How long a thread sleeps.
use eda.Prelude.{
  ℕ, suc, ◌+◌, ◌^◌, ◌<◌, ◌≡◌, ◌≢◌, refl, ◌∙◌, sym, ap, true, false, not, ◌==◌, arith, ok, ok_inj,
}
use eda.Prelude.Members.{mem}
use eda.Thread.{is_blocked, status_of}
use eda.Timer.{Timer, timer_irq, timer_sleep}
use eda.Timer.Interrupt.{timer_irq-Ticked}
use eda.Timer.Sleep.{timer_sleep-Slept}
use eda.Timer.Steps.{
  Run, here, after, interrupt, level, sleep, yield, exit, block, create, unblock, IsClock, at_level,
}
use eda.Timer.Safe.{level-IsTimer, Run-Later}

-- The timer interrupts of a run
unfoldable pub interrupts : {s s' : Timer} → Run s s' → ℕ
interrupts here = 0
interrupts (after r (interrupt soon run)) = suc (interrupts r)
interrupts (after r _) = interrupts r

-- Each timer interrupt counts one tick, and nothing else does.
interrupts-ticks : {s s' : Timer} → IsClock s → (r : Run s s') → s'.ticks ≡ s.ticks + interrupts r
unfolding interrupts
interrupts-ticks c here = omega arith
interrupts-ticks c (after r (interrupt soon run)) =
    let v = (Run-Later c r).clock in
    let (s1, run', t) = timer_irq-Ticked (level-IsTimer v false) refl v.outside soon in
    let same = ap (λ x. Timer.ticks x) (ok_inj (sym run' ∙ run)) in
    omega (arith, same, t.ticked, interrupts-ticks c r)
interrupts-ticks c (after r (sleep n pos soon ne run)) =
    let v = (Run-Later c r).clock in
    let (s1, run', t) = timer_sleep-Slept v.timer n pos soon v.outside ne in
    let same = ap (λ x. Timer.ticks x) (ok_inj (sym run' ∙ run)) in
    omega (arith, same, t.same_ticks, interrupts-ticks c r)
interrupts-ticks c (after r (level on)) = interrupts-ticks c r
interrupts-ticks c (after r (yield run)) = interrupts-ticks c r
interrupts-ticks c (after r (exit ne run)) = interrupts-ticks c r
interrupts-ticks c (after r (block ne run)) = interrupts-ticks c r
interrupts-ticks c (after r (create page priority ne hi fresh run)) = interrupts-ticks c r
interrupts-ticks c (after r (unblock t out live bl ne run)) = interrupts-ticks c r

-- The thread `t` sleeps in `s`.
abbrev pub Sleeps : ℕ → Timer → Type 0
Sleeps t s = (is_blocked (status_of s.kernel t) ≡ true) × (mem t s.blocked_threads ≡ true)

-- The next timer interrupt wakes the thread `t`.
abbrev pub Wakes : ℕ → Timer → Type 0
Wakes t s =
    (s' : Timer) × (timer_irq (at_level s false) ≡ ok s')
    × IsClock s'
    × (is_blocked (status_of s'.kernel t) ≡ false)
    × (mem t s'.blocked_threads ≡ false)

Wakes-due :
    (t : ℕ) {s : Timer}
    → IsClock s
    → mem t s.blocked_threads ≡ true
    → (s.kernel.threads t).alarm_tick ≡ s.ticks + 1
    → Wakes t s
Wakes-due t {s} c m due =
    let (lo, hi) = c.timer.ahead t m in
    let (s1, run, tk) =
      timer_irq-Ticked (level-IsTimer c false) refl c.outside (omega (arith, due, hi)) in
    let (blocks, listed) = tk.woken t m in
    let now : ((s.kernel.threads t).alarm_tick == s.ticks + 1) ≡ true = ground (arith, due) in
    (
      s1,
      run,
      record { timer = tk.valid; outside = tk.outside },
      blocks ∙ ap not now,
      listed ∙ ap not now,
    )

-- A thread, not the idle thread, calls timer_sleep for n ticks, n positive and the end before tick
-- 2 ^ 31, and malloc gives its node. Whatever steps of a run (Timer.Steps.Step) follow, of this
-- and other threads and of the timer, it stays blocked and on the list of sleepers while they have
-- fewer than n timer interrupts among them, and the n-th timer interrupt returns, unblocks it and
-- takes it off the list. A call of a thread, timer_sleep too, is one step, without an interrupt
-- inside, and no step unblocks a sleeper but the interrupt.
pub timer_sleep-Run :
    {s : Timer} (n : ℕ)
    → IsClock s
    → 0 < n
    → s.ticks + n < 2 ^ 31
    → s.kernel.current ≢ s.kernel.idle_thread
    → (s1 : Timer) × (timer_sleep s n true ≡ ok s1)
      × ((s' : Timer) (r : Run s1 s')
          → interrupts r < n
          → Sleeps s.kernel.current s' × (suc (interrupts r) ≡ n → Wakes s.kernel.current s'))
unfolding mem
timer_sleep-Run {s} n c pos soon ne =
    let (s1, run, sl) = timer_sleep-Slept c.timer n pos soon c.outside ne in
    let c1 : IsClock s1 = record { timer = sl.valid; outside = sl.outside } in
    let listed : mem s.kernel.current s1.blocked_threads ≡ true = rw sl.listed (ground arith) in
    (
      s1,
      run,
      λ s' r few.
          let later = Run-Later c1 r in
          let ticks = interrupts-ticks c1 r in
          let (on, same) =
            later.kept s.kernel.current listed
              (omega (arith, ticks, few, sl.alarm, sl.same_ticks)) in
          (
            (later.clock.timer.sleeping s.kernel.current on, on),
            λ last.
                Wakes-due s.kernel.current later.clock on
                  (omega (arith, same, sl.alarm, sl.same_ticks, ticks, last)),
          ),
    )
