-- ===== src/Timer/Interrupt.antt =====
-- The timer interrupt as a whole.
use eda.Prelude.{
  ℕ, ◌+◌, ◌%◌, ◌^◌, ◌<◌, ◌≡◌, refl, ◌∙◌, ap, ◌&&◌, true, false, not, ◌==◌, List, [], ◌∷◌, arith,
  Bool-cases, inl, inr, ok,
}
use eda.Prelude.Members.{mem}
use eda.Thread.{is_blocked, Kernel, status_of, thread_magic, thread_tick, intr_leave}
use eda.Timer.{Timer, wake_loop, timer_interrupt, timer_irq}
use eda.Timer.Wake.{is_waking, waking, asleep, Sleepers, Woken, wake_loop-Woken}
use eda.Timer.Sleepers.{IsTimer, mem-asleep, mem-waking, IsDistinct-asleep, live_of_mem}
use eda.Timer.Tables.{
  SameTables, SameTables-IsValid, thread_tick-SameTables, Settled, intr_leave-Settled, entered,
  entered-SameTables, enter_lem,
}

-- What a timer interrupt makes of the alarm clock.
pub record Ticked (s s' : Timer) : Type 0 where
  pub valid : IsTimer s'
  pub ticked : s'.ticks ≡ s.ticks + 1
  pub outside : s'.kernel.in_external_intr ≡ false
  pub woken :
      (t : ℕ)
      → mem t s.blocked_threads ≡ true
      → (is_blocked (status_of s'.kernel t) ≡ not ((s.kernel.threads t).alarm_tick == s.ticks + 1))
        × (mem t s'.blocked_threads ≡ not ((s.kernel.threads t).alarm_tick == s.ticks + 1))
  pub alarms :
      (t : ℕ)
      → mem t s'.blocked_threads ≡ true
      → (mem t s.blocked_threads ≡ true)
        × ((s'.kernel.threads t).alarm_tick ≡ (s.kernel.threads t).alarm_tick)

-- The timer interrupt, in a state of the alarm clock with interrupts off.
module _ {s : Timer} (v : IsTimer s) (off : s.kernel.intr_on ≡ false)
    (ext : s.kernel.in_external_intr ≡ false) (soon : s.ticks + 1 < 2 ^ 31) where
  abbrev pub now : ℕ
  now = s.ticks + 1

  abbrev pub still : List ℕ
  still = asleep now (entered s.kernel) s.blocked_threads

  pub wakes :
      (t : ℕ)
      → mem t s.blocked_threads ≡ true
      → is_waking now (entered s.kernel) t ≡ ((s.kernel.threads t).alarm_tick == now)
  wakes t m = ground (arith, v.sleeping t m, v.ahead t m)

  pub irq_kernels :
      (k2 : Kernel) × (k3 : Kernel) × (k4 : Kernel) × (wake_loop now
          (entered s.kernel)
          s.blocked_threads
        ≡ ok (still, k2))
      × (thread_tick k2 ≡ ok k3)
      × (intr_leave k3 ≡ ok k4)
      × Woken (entered s.kernel) (waking now (entered s.kernel) s.blocked_threads) k2
      × SameTables k2 k3
      × Settled k3 k4
  irq_kernels =
      let v1 = SameTables-IsValid (entered-SameTables s.kernel) v.kernel in
      let (k2, run2, w) = wake_loop-Woken now s.blocked_threads v1 off v.distinct v.sleepers in
      let (k3, run3, st, off3, ext3) = thread_tick-SameTables w.valid (w.same_context) in
      let (k4, run4, se) =
        intr_leave-Settled (SameTables-IsValid st w.valid) (off3 ∙ w.same_off ∙ off) ext3 in
      (k2, k3, k4, run2, run3, run4, w, st, se)

  module _ {k2 k3 k4 : Kernel}
      (w : Woken (entered s.kernel) (waking now (entered s.kernel) s.blocked_threads) k2)
      (st : SameTables k2 k3) (se : Settled k3 k4) where
    abbrev pub later : Timer
    later = record { kernel = k4; ticks = now; blocked_threads = still }

    -- The sleepers after the interrupt.
    pub ends :
        (t : ℕ)
        → mem t s.blocked_threads ≡ true
        → is_blocked (status_of k4 t) ≡ not ((s.kernel.threads t).alarm_tick == now)
    ends t m =
        let here = live_of_mem s.kernel s.blocked_threads v.sleepers t m in
        ground (
          arith,
          se.blocks t (ap (λ i. t == i) (st.idle ∙ w.same_idle) ∙ here.1) (
              ap (λ f. not (t == 0) && ((f t).magic == thread_magic)) st.threads
              ∙ w.live t
              ∙ here.0),
          ap (λ f. (f t).status) st.threads,
          w.statuses t,
          mem-waking now (entered s.kernel) t s.blocked_threads,
          wakes t m,
          v.sleeping t m,
          m,
        )

    pub stays :
        (t : ℕ)
        → mem t still ≡ (mem t s.blocked_threads && not ((s.kernel.threads t).alarm_tick == now))
    stays t = elim (Bool-cases (mem t s.blocked_threads)) [
      | inl m ↦ mem-asleep now (entered s.kernel) t s.blocked_threads ∙ rw (m, wakes t m) refl
      | inr m ↦ mem-asleep now (entered s.kernel) t s.blocked_threads ∙ rw m refl
    ]

    -- A thread that stays on the list is as it was.
    pub kept :
        (t : ℕ)
        → mem t still ≡ true
        → (mem t s.blocked_threads ≡ true)
          × (is_blocked (status_of k3 t) ≡ true)
          × ((k4.threads t).alarm_tick ≡ (s.kernel.threads t).alarm_tick)
          × (((s.kernel.threads t).alarm_tick == now) ≡ false)
    kept t m =
        let on : mem t s.blocked_threads ≡ true = ground (arith, stays t) in
        let late : ((s.kernel.threads t).alarm_tick == now) ≡ false = ground (arith, stays t) in
        let out : mem t (waking now (entered s.kernel) s.blocked_threads) ≡ false =
          mem-waking now (entered s.kernel) t s.blocked_threads ∙ rw (on, wakes t on, late) refl in
        (
          on,
          ap (λ f. is_blocked (f t).status) st.threads
              ∙ ap is_blocked (w.statuses t)
              ∙ rw out (v.sleeping t on),
          se.alarms t ∙ ap (λ f. (f t).alarm_tick) st.threads ∙ w.alarms t ∙ rw out refl,
          late,
        )

    pub same_idle4 : k4.idle_thread ≡ s.kernel.idle_thread
    same_idle4 = se.same_idle ∙ st.idle ∙ w.same_idle

    pub later-Sleepers :
        (ts : List ℕ) → ((t : ℕ) → mem t ts ≡ true → mem t still ≡ true) → Sleepers k4 ts
    unfolding mem
    later-Sleepers [] h = tt
    later-Sleepers (x ∷ xs) h =
        let m = h x (ground arith) in
        let (on, bl, al, late) = kept x m in
        let (live, ne) = live_of_mem s.kernel s.blocked_threads v.sleepers x on in
        (
          se.live x bl
              ∙ ap (λ f. not (x == 0) && ((f x).magic == thread_magic)) st.threads
              ∙ w.live x
              ∙ live,
          λ e. absurd (ground (arith, same_idle4)),
          later-Sleepers xs (λ t g. h t (ground arith)),
        )

    pub later-IsTimer : IsTimer later
    later-IsTimer = record {
      kernel = se.valid;
      distinct = IsDistinct-asleep now (entered s.kernel) s.blocked_threads v.distinct;
      sleepers = later-Sleepers still (λ t m. m);
      sleeping = λ t m. let (on, bl, al, late) = kept t m in ends t on ∙ rw late refl;
      ahead = λ t m.
          let (on, bl, al, late) = kept t m in
          let (lo, hi) = v.ahead t on in (ground arith, ground arith);
    }

  pub timer_irq_lem :
      {k2 k3 k4 : Kernel}
      → wake_loop now (entered s.kernel) s.blocked_threads ≡ ok (still, k2)
      → thread_tick k2 ≡ ok k3
      → intr_leave k3 ≡ ok k4
      → timer_irq s ≡ ok (record { kernel = k4; ticks = now; blocked_threads = still })
  unfolding timer_irq timer_interrupt
  timer_irq_lem run2 run3 run4 =
      let wrap : (s.ticks + 1) % 2 ^ 64 ≡ now = omega arith in
      rw (enter_lem s.kernel off ext) (rw wrap (rw (run2, run3, run4) refl))

  -- A timer interrupt leaves no external interrupt behind, and the alarms of the threads that sleep on.
  pub timer_irq-Ticked : (s' : Timer) × (timer_irq s ≡ ok s') × Ticked s s'
  timer_irq-Ticked =
      let (k2, k3, k4, run2, run3, run4, w, st, se) = irq_kernels in
      (
        record { kernel = k4; ticks = now; blocked_threads = still },
        timer_irq_lem run2 run3 run4,
        record {
          valid = later-IsTimer w st se;
          ticked = refl;
          outside = se.outside;
          woken = λ t m. (ends w st se t m, stays w st se t ∙ rw m refl);
          alarms = λ t m. let (on, bl, al, late) = kept w st se t m in (on, al);
        },
      )

  -- A timer interrupt before tick 2 ^ 31 returns and keeps the invariant; the tick count goes up by one,
  -- and of the sleeping threads exactly those whose alarm is that tick are awake and off the list.
  pub timer_irq-IsTimer :
      (s' : Timer) × (timer_irq s ≡ ok s')
      × IsTimer s'
      × (s'.ticks ≡ s.ticks + 1)
      × ((t : ℕ)
          → mem t s.blocked_threads ≡ true
          → (is_blocked (status_of s'.kernel t)
              ≡ not ((s.kernel.threads t).alarm_tick == s.ticks + 1))
            × (mem t s'.blocked_threads ≡ not ((s.kernel.threads t).alarm_tick == s.ticks + 1)))
  timer_irq-IsTimer = let (s', run, t) = timer_irq-Ticked in (s', run, t.valid, t.ticked, t.woken)
