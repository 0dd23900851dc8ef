-- ===== src/Tests/ClockTests.antt =====
-- The theorems on the runs of the alarm clock, at a kernel of four threads.
use eda.Prelude.{◌≡◌, refl, true, ◌<◌, suc, arith, ok}
use eda.Timer.{Timer, timer_sleep}
use eda.Timer.Sleep.{timer_sleep-IsTimer}
use eda.Timer.Steps.{IsClock, Run, here, after, sleep}
use eda.Timer.Safe.{Later, Run-Later}
use eda.Timer.Runs.{interrupts, Sleeps, Wakes, timer_sleep-Run}
use eda.Tests.ThreadTests.{clock, clock-IsTimer}

clock-IsClock : IsClock clock
clock-IsClock = record { timer = clock-IsTimer; outside = refl }

-- The state in which thread 2 has gone to sleep for five ticks
slept : (s' : Timer) × (timer_sleep clock 5 true ≡ ok s')
slept =
    let (s', run, v, ts, alarm, bl) =
      timer_sleep-IsTimer clock-IsTimer 5 (omega arith) (omega arith) refl (omega arith) in
    (s', run)

slept_run : Run clock (slept.0)
slept_run = after here (sleep 5 (omega arith) (omega arith) (omega arith) slept.1)

Run-Later_example : Later clock slept.0
Run-Later_example = Run-Later clock-IsClock slept_run

timer_sleep-Run_example :
    (s1 : Timer) × (timer_sleep clock 5 true ≡ ok s1)
    × ((s' : Timer) (r : Run s1 s')
        → interrupts r < 5
        → Sleeps 2 s' × (suc (interrupts r) ≡ 5 → Wakes 2 s'))
timer_sleep-Run_example = timer_sleep-Run 5 clock-IsClock (omega arith) (omega arith) (omega arith)
