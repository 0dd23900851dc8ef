-- ===== src/Timer.antt =====
-- mount/lab2/pintos/src/devices/timer.c: the alarm clock, with the sleeping threads on a list instead
-- of in a busy loop. `ticks` is an `int64_t`, `alarm_tick` an `int`, each as a bit pattern. A
-- `struct blocked_thread` on the list is the thread that it names.
pub mod Wake
pub mod Sleepers
pub mod Tables
pub mod Interrupt
pub mod Sleep
pub mod Steps
pub mod Safe
pub mod Runs
use eda.Prelude.{
  ℕ, zero, suc, ◌+◌, ◌*◌, ◌/◌, ◌%◌, ◌^◌, ◌&&◌, ◌||◌, Bool, true, false, not, List, [], ◌∷◌, ltb,
  leb, ◌==◌, if◌then◌else◌, Result, ok, panic, fault, ◌>>=◌, ◌>>◌, assert,
}
use eda.Prelude.Members.{update}
use eda.Thread.{
  Kernel, Thread, status_of, is_blocked, no_alarm, thread_current, thread_unblock, thread_block,
  thread_tick, intr_set_level, intr_enter, intr_leave,
}

-- The static variables of timer.c, with the kernel's.
pub record Timer : Type 0 where
  pub kernel : Kernel
  pub ticks : ℕ
  pub blocked_threads : List ℕ

-- `t->alarm_tick >= 0 && ticks >= t->alarm_tick`, where the pattern of a negative `ticks` is large.
abbrev pub is_due : ℕ → ℕ → Bool
is_due ticks alarm = ltb alarm (2 ^ 31) && ltb ticks (2 ^ 63) && leb alarm ticks

abbrev pub set_alarm : Kernel → ℕ → ℕ → Kernel
set_alarm k t alarm = record k {
  threads = update k.threads t (record (k.threads t) { alarm_tick = alarm });
}

-- `check_alarm`, with whether it has woken the thread
unfoldable pub check_alarm : ℕ → Kernel → ℕ → Result (Bool × Kernel)
check_alarm ticks k t =
    if is_blocked (status_of k t)
    then (if is_due ticks (k.threads t).alarm_tick
        then (thread_unblock k t >>= λ k'. ok (true, set_alarm k' t no_alarm))
        else ok (false, k))
    else ok (false, k)

-- The loop of `timer_interrupt` over the list, with what it leaves there
unfoldable pub wake_loop : ℕ → Kernel → List ℕ → Result (List ℕ × Kernel)
wake_loop ticks k [] = ok ([], k)
wake_loop ticks k (t ∷ ts) = check_alarm ticks k t >>= λ c.
    wake_loop ticks c.1 ts >>= λ r. ok ((if c.0 then r.0 else t ∷ r.0), r.1)

unfoldable pub timer_interrupt : Timer → Result Timer
timer_interrupt s = do
  let ticks' = (s.ticks + 1) % 2 ^ 64
  r ← wake_loop ticks' s.kernel s.blocked_threads
  k ← thread_tick r.1
  ok (record { kernel = k; ticks = ticks'; blocked_threads = r.0 })

-- The timer interrupt as `intr_handler` runs it.
unfoldable pub timer_irq : Timer → Result Timer
timer_irq s = do
  k ← intr_enter s.kernel
  s' ← timer_interrupt (record s { kernel = k })
  k' ← intr_leave s'.kernel
  ok (record s' { kernel = k' })

-- `timer_sleep` up to the switch to another thread; `node` tells whether `malloc` returned a node. When
-- the thread is next current it turns interrupts on and frees the node.
unfoldable pub timer_sleep : Timer → ℕ → Bool → Result Timer
timer_sleep s sleep_ticks node = if sleep_ticks == 0 || leb (2 ^ 63) sleep_ticks then ok s else (do
  cur ← thread_current s.kernel
  let k = set_alarm s.kernel cur ((s.ticks + sleep_ticks) % 2 ^ 64 % 2 ^ 32)
  if node
      then (do
        k1 ← intr_set_level k false
        k2 ← thread_block k1
        ok (record s { kernel = k2; blocked_threads = cur ∷ s.blocked_threads }))
      else fault)
