-- ===== src/Thread.antt =====
-- mount/lab2/pintos/src/threads/thread.c and the interrupt state of threads/interrupt.c: the life
-- of a thread and the scheduler. A `struct thread *` is a number, and 0 is NULL. A function that
-- calls `schedule` ends here when the processor has been given to the next thread: what the source
-- does after that call is done when the thread is next current, as the step `intr_set_level`.
pub mod Invariant
pub mod Schedule
pub mod Switch
pub mod Create
pub mod Waiters
use eda.Prelude.{
  ℕ, zero, suc, ◌+◌, ◌-◌, ◌%◌, ◌^◌, ◌&&◌, ◌||◌, Bool, true, false, not, List, [], ◌∷◌, ◌++◌, ltb,
  leb, ◌==◌, if◌then◌else◌, Result, ok, panic, ◌>>=◌, ◌>>◌, assert,
}
use eda.Prelude.Members.{update, erase}

-- `enum thread_status`
pub data Status : Type 0 where
  running ready blocked dying : Status

abbrev pub is_running : Status → Bool
is_running running = true
is_running _ = false

abbrev pub is_ready : Status → Bool
is_ready ready = true
is_ready _ = false

abbrev pub is_blocked : Status → Bool
is_blocked blocked = true
is_blocked _ = false

abbrev pub is_dying : Status → Bool
is_dying dying = true
is_dying _ = false

-- `THREAD_MAGIC`; a page that has been given back holds another value there.
abbrev pub thread_magic : ℕ
thread_magic = 0xcd6a_bf4b

abbrev pub freed_magic : ℕ
freed_magic = 0xcccc_cccc

-- `TIME_SLICE`
abbrev pub time_slice : ℕ
time_slice = 4

-- `(int) -1` as a 32-bit pattern: no alarm is set.
abbrev pub no_alarm : ℕ
no_alarm = 2 ^ 32 - 1

-- `TID_ERROR`
abbrev pub tid_error : ℕ
tid_error = 2 ^ 32 - 1

-- `struct thread`, without its name and its stack. `alarm_tick` is an `int` as a bit pattern.
pub record Thread : Type 0 where
  pub tid : ℕ
  pub status : Status
  pub priority : ℕ
  pub alarm_tick : ℕ
  pub magic : ℕ

-- The static variables of thread.c and interrupt.c, with the thread that the processor runs.
pub record Kernel : Type 0 where
  pub threads : ℕ → Thread
  pub current : ℕ
  pub ready_list : List ℕ
  pub all_list : List ℕ
  pub idle_thread : ℕ
  pub initial_thread : ℕ
  pub next_tid : ℕ
  pub thread_ticks : ℕ
  pub idle_ticks : ℕ
  pub kernel_ticks : ℕ
  pub intr_on : Bool
  pub in_external_intr : Bool
  pub yield_on_return : Bool

abbrev pub status_of : Kernel → ℕ → Status
status_of k t = (k.threads t).status

abbrev pub set_status : Kernel → ℕ → Status → Kernel
set_status k t s = record k { threads = update k.threads t (record (k.threads t) { status = s }) }

-- `is_thread`
abbrev pub is_thread : Kernel → ℕ → Bool
is_thread k t = not (t == 0) && ((k.threads t).magic == thread_magic)

unfoldable pub intr_enable : Kernel → Result Kernel
intr_enable k = assert (not k.in_external_intr) >> ok (record k { intr_on = true })

abbrev pub intr_disable : Kernel → Kernel
intr_disable k = record k { intr_on = false }

unfoldable pub intr_set_level : Kernel → Bool → Result Kernel
intr_set_level k level = if level then intr_enable k else ok (intr_disable k)

unfoldable pub intr_yield_on_return : Kernel → Result Kernel
intr_yield_on_return k = assert k.in_external_intr >> ok (record k { yield_on_return = true })

-- `thread_current`
unfoldable pub thread_current : Kernel → Result ℕ
thread_current k =
    assert (is_thread k k.current) >> assert (is_running (status_of k k.current)) >> ok k.current

-- `next_thread_to_run`, with what it leaves of the ready list
abbrev pub next_thread : ℕ → List ℕ → ℕ
next_thread idle [] = idle
next_thread idle (t ∷ ts) = t

abbrev pub rest_of : List ℕ → List ℕ
rest_of [] = []
rest_of (t ∷ ts) = ts

-- `thread_schedule_tail`; `prev` is 0 where the thread goes on itself. The page of a dying thread is
-- given back.
unfoldable pub thread_schedule_tail : Kernel → ℕ → Result Kernel
thread_schedule_tail k prev = do
  assert (not k.intr_on)
  let k1 = record (set_status k k.current running) { thread_ticks = 0 }
  if not (prev == 0) && is_dying (status_of k1 prev) && not (prev == k.initial_thread)
      then (assert (not (prev == k.current))
          >> ok (record k1 {
            threads = update k1.threads prev (record (k1.threads prev) { magic = freed_magic });
          }))
      else ok k1

unfoldable pub schedule : Kernel → Result Kernel
schedule k = do
  let cur = k.current
  let next = next_thread k.idle_thread k.ready_list
  assert (not k.intr_on)
  assert (not (is_running (status_of k cur)))
  assert (is_thread k next)
  thread_schedule_tail (record k { current = next; ready_list = rest_of k.ready_list })
      (if cur == next then 0 else cur)

unfoldable pub thread_block : Kernel → Result Kernel
thread_block k = do
  assert (not k.in_external_intr)
  assert (not k.intr_on)
  cur ← thread_current k
  schedule (set_status k cur blocked)

unfoldable pub thread_unblock : Kernel → ℕ → Result Kernel
thread_unblock k t = do
  assert (is_thread k t)
  assert (is_blocked (status_of k t))
  intr_set_level
      (set_status (record (intr_disable k) { ready_list = k.ready_list ++ (t ∷ []) }) t ready)
      k.intr_on

unfoldable pub thread_yield : Kernel → Result Kernel
thread_yield k = do
  cur ← thread_current k
  assert (not k.in_external_intr)
  schedule (
      set_status
        (record (intr_disable k) {
          ready_list = if cur == k.idle_thread then k.ready_list else k.ready_list ++ (cur ∷ []);
        })
        cur ready)

unfoldable pub thread_exit : Kernel → Result Kernel
thread_exit k = do
  assert (not k.in_external_intr)
  cur ← thread_current k
  schedule (set_status (record (intr_disable k) { all_list = erase cur k.all_list }) cur dying)

-- `thread_tick` of a kernel without user programs
unfoldable pub thread_tick : Kernel → Result Kernel
thread_tick k = do
  t ← thread_current k
  let k1 =
      if t == k.idle_thread
      then record k { idle_ticks = k.idle_ticks + 1 }
      else record k { kernel_ticks = k.kernel_ticks + 1 }
  let k2 = record k1 { thread_ticks = (k.thread_ticks + 1) % 2 ^ 32 }
  if leb time_slice k2.thread_ticks then intr_yield_on_return k2 else ok k2

-- `init_thread`, of a thread whose name is not NULL
unfoldable pub init_thread : Kernel → ℕ → ℕ → Result Kernel
init_thread k t priority = do
  assert (not (t == 0))
  assert (leb priority 63)
  ok (record k {
    threads = update k.threads t (record {
      tid = 0;
      status = blocked;
      priority = priority;
      alarm_tick = no_alarm;
      magic = thread_magic;
    });
    all_list = k.all_list ++ (t ∷ []);
  })

-- `tid = t->tid = allocate_tid ()`; the lock of the counter is free again on return.
abbrev pub assign_tid : Kernel → ℕ → Kernel
assign_tid k t = record k {
  threads = update k.threads t (record (k.threads t) { tid = k.next_tid });
  next_tid = (k.next_tid + 1) % 2 ^ 32;
}

-- `page` is what `palloc_get_page` returns; neither the name nor the function is NULL. The frames on
-- the new thread's stack are left out.
unfoldable pub thread_create : Kernel → ℕ → ℕ → Result (ℕ × Kernel)
thread_create k page priority =
    if page == 0
    then ok (tid_error, k)
    else (init_thread k page priority >>= λ k1.
        thread_unblock (assign_tid k1 page) page >>= λ k2. ok (k1.next_tid, k2))

unfoldable pub thread_set_priority : Kernel → ℕ → Result Kernel
thread_set_priority k new_priority = do
  t ← thread_current k
  ok (record k { threads = update k.threads t (record (k.threads t) { priority = new_priority }) })

unfoldable pub thread_get_priority : Kernel → Result ℕ
thread_get_priority k = thread_current k >>= λ t. ok (k.threads t).priority

-- `intr_handler` of an external interrupt, up to the call of its handler and from there on.
unfoldable pub intr_enter : Kernel → Result Kernel
intr_enter k = do
  assert (not k.intr_on)
  assert (not k.in_external_intr)
  ok (record k { in_external_intr = true; yield_on_return = false })

unfoldable pub intr_leave : Kernel → Result Kernel
intr_leave k = do
  assert (not k.intr_on)
  assert k.in_external_intr
  let k1 = record k { in_external_intr = false }
  if k.yield_on_return then thread_yield k1 else ok k1
