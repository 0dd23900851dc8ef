-- ===== src/Tests/ThreadTests.antt =====
-- The theorems on threads/thread.c and devices/timer.c at a kernel of four threads.
use eda.Prelude.{ℕ, ◌≡◌, refl, true, false, not, [], ◌∷◌, arith, ◌==◌, if◌then◌else◌, ok}
use eda.Prelude.Members.{mem}
use eda.Thread.{
  Status, running, ready, blocked, dying, Thread, Kernel, status_of, set_status, is_blocked,
  no_alarm, thread_magic, thread_block, thread_yield, thread_exit, thread_create,
}
use eda.Thread.Invariant
use eda.Thread.Invariant.{Switched}
use eda.Thread.Switch.{
  yielded, exited, thread_block-Switched, thread_yield-Switched, thread_exit-Switched,
}
use eda.Thread.Create.{thread_create-IsValid}
use eda.Timer.{Timer, timer_irq, timer_sleep}
use eda.Timer.Sleepers.{IsTimer}
use eda.Timer.Interrupt.{timer_irq-IsTimer}
use eda.Timer.Sleep.{timer_sleep-IsTimer}

abbrev thread : ℕ → Status → ℕ → Thread
thread tid status alarm = record {
  tid = tid;
  status = status;
  priority = 31;
  alarm_tick = alarm;
  magic = thread_magic;
}

-- Thread 1 is the idle thread, 2 runs, 3 is ready and 4 sleeps until tick 8; the rest is free memory.
abbrev table : ℕ → Thread
table t =
    if t == 1
    then thread 1 blocked no_alarm
    else if t == 2
    then thread 2 running no_alarm
    else if t == 3
    then thread 3 ready no_alarm
    else if t == 4
    then thread 4 blocked 8
    else record { tid = 0; status = dying; priority = 0; alarm_tick = 0; magic = 0 }

abbrev pub four : Kernel
four = record {
  threads = table;
  current = 2;
  ready_list = 3 ∷ [];
  all_list = 2 ∷ 1 ∷ 3 ∷ 4 ∷ [];
  idle_thread = 1;
  initial_thread = 2;
  next_tid = 5;
  thread_ticks = 3;
  idle_ticks = 0;
  kernel_ticks = 7;
  intr_on = false;
  in_external_intr = false;
  yield_on_return = false;
}

pub four-IsValid : Invariant.IsValid four
unfolding mem
four-IsValid = record {
  queued = record {
    idle_live = refl;
    idle_stays = refl;
    current_live = refl;
    ready_all = λ t. ground arith;
    distinct = (refl, tt);
  };
  running_only = λ t live. ground arith;
}

abbrev pub clock : Timer
clock = record { kernel = four; ticks = 7; blocked_threads = 4 ∷ [] }

pub clock-IsTimer : IsTimer clock
unfolding mem
clock-IsTimer = record {
  kernel = four-IsValid;
  distinct = (refl, tt);
  sleepers = (refl, omega arith, tt);
  sleeping = λ t m. ground arith;
  ahead = λ t m. ground arith;
}

thread_block-Switched_example :
    (k' : Kernel) × (thread_block four ≡ ok k') × Switched (set_status four 2 blocked) k'
thread_block-Switched_example = thread_block-Switched four-IsValid refl refl

thread_yield-Switched_example :
    (k' : Kernel) × (thread_yield four ≡ ok k') × Switched (yielded four-IsValid) k'
thread_yield-Switched_example = thread_yield-Switched four-IsValid refl

thread_exit-Switched_example :
    (k' : Kernel) × (thread_exit four ≡ ok k') × Switched (exited four-IsValid) k'
thread_exit-Switched_example = thread_exit-Switched four-IsValid refl (omega arith)

thread_create-IsValid_example :
    (k' : Kernel) × (thread_create four 9 31 ≡ ok (5, k'))
    × Invariant.IsValid k'
    × (k'.ready_list ≡ 3 ∷ 9 ∷ [])
    × (k'.threads 9 ≡ thread 5 ready no_alarm)
thread_create-IsValid_example =
    thread_create-IsValid four-IsValid 9 31 (omega arith) refl refl (omega arith)

timer_irq-IsTimer_example :
    (s' : Timer) × (timer_irq clock ≡ ok s')
    × IsTimer s'
    × (s'.ticks ≡ 8)
    × ((t : ℕ)
        → mem t (4 ∷ []) ≡ true
        → (is_blocked (status_of s'.kernel t) ≡ not ((table t).alarm_tick == 8))
          × (mem t s'.blocked_threads ≡ not ((table t).alarm_tick == 8)))
timer_irq-IsTimer_example = timer_irq-IsTimer clock-IsTimer refl refl (omega arith)

timer_sleep-IsTimer_example :
    (s' : Timer) × (timer_sleep clock 5 true ≡ ok s')
    × IsTimer s'
    × (s'.blocked_threads ≡ 2 ∷ 4 ∷ [])
    × ((s'.kernel.threads 2).alarm_tick ≡ 12)
    × (is_blocked (status_of s'.kernel 2) ≡ true)
timer_sleep-IsTimer_example =
    timer_sleep-IsTimer clock-IsTimer 5 (omega arith) (omega arith) refl (omega arith)
