-- ===== src/Synch.antt =====
-- mount/lab2/pintos/src/threads/synch.c: semaphores, locks and condition variables. An object is a
-- value next to the kernel's state, its list of waiters the sequence of the threads on it. A call that
-- has to wait ends where the next thread has the processor; the waiting thread goes on from there, with
-- the interrupt level that it keeps on its stack, when it is next current.
pub mod Sema
pub mod Locks
pub mod Conditions
use eda.Prelude.{
  ℕ, ◌+◌, ◌-◌, ◌%◌, ◌^◌, Bool, true, false, not, List, [], ◌∷◌, ◌++◌, Option, none, some, ◌==◌,
  if◌then◌else◌, Result, ok, ◌>>=◌, ◌>>◌, assert,
}
use eda.Thread.{Kernel, thread_current, thread_block, thread_unblock, intr_disable, intr_set_level}

-- `struct semaphore`
pub record Semaphore : Type 0 where
  pub value : ℕ
  pub waiters : List ℕ

-- `struct lock`
pub record Lock : Type 0 where
  pub holder : ℕ
  pub semaphore : Semaphore

abbrev pub sema_init : ℕ → Semaphore
sema_init value = record { value = value; waiters = [] }

-- The loop of `sema_down` from its test on, until it goes on (true) or the thread waits (false). `old`
-- is the level to restore.
unfoldable pub sema_down_loop : Bool → Kernel → Semaphore → Result (Bool × Kernel × Semaphore)
sema_down_loop old k s =
    if s.value == 0
    then (thread_current k >>= λ cur.
        thread_block k >>= λ k'. ok (false, k', record s { waiters = s.waiters ++ (cur ∷ []) }))
    else (intr_set_level k old >>= λ k'. ok (true, k', record s { value = s.value - 1 }))

unfoldable pub sema_down : Kernel → Semaphore → Result (Bool × Kernel × Semaphore)
sema_down k s = assert (not k.in_external_intr) >> sema_down_loop k.intr_on (intr_disable k) s

unfoldable pub sema_try_down : Kernel → Semaphore → Result (Bool × Kernel × Semaphore)
sema_try_down k s =
    if s.value == 0
    then (intr_set_level (intr_disable k) k.intr_on >>= λ k'. ok (false, k', s))
    else (intr_set_level (intr_disable k) k.intr_on >>= λ k'.
        ok (true, k', record s { value = s.value - 1 }))

-- `list_pop_front (&sema->waiters)` with `thread_unblock`, where there is a waiter.
unfoldable pub wake_first : Kernel → List ℕ → Result (Kernel × List ℕ)
wake_first k [] = ok (k, [])
wake_first k (t ∷ ts) = thread_unblock k t >>= λ k'. ok (k', ts)

unfoldable pub sema_up : Kernel → Semaphore → Result (Kernel × Semaphore)
sema_up k s = do
  w ← wake_first (intr_disable k) s.waiters
  k' ← intr_set_level w.0 k.intr_on
  ok (k', record { value = (s.value + 1) % 2 ^ 32; waiters = w.1 })

abbrev pub lock_init : Lock
lock_init = record { holder = 0; semaphore = sema_init 1 }

unfoldable pub lock_held_by_current_thread : Kernel → Lock → Result Bool
lock_held_by_current_thread k l = thread_current k >>= λ cur. ok (l.holder == cur)

-- What `lock_acquire` does when `sema_down` has returned, or the thread waits.
unfoldable pub take_lock : Lock → Bool × Kernel × Semaphore → Result (Bool × Kernel × Lock)
take_lock l (true, k, s) =
    thread_current k >>= λ cur. ok (true, k, record { holder = cur; semaphore = s })
take_lock l (false, k, s) = ok (false, k, record l { semaphore = s })

unfoldable pub lock_acquire : Kernel → Lock → Result (Bool × Kernel × Lock)
lock_acquire k l = do
  assert (not k.in_external_intr)
  held ← lock_held_by_current_thread k l
  assert (not held)
  r ← sema_down k l.semaphore
  take_lock l r

-- A thread that waits in `lock_acquire`, when it is current again.
unfoldable pub lock_acquire_resumed : Bool → Kernel → Lock → Result (Bool × Kernel × Lock)
lock_acquire_resumed old k l = sema_down_loop old k l.semaphore >>= λ r. take_lock l r

unfoldable pub lock_try_acquire : Kernel → Lock → Result (Bool × Kernel × Lock)
lock_try_acquire k l = do
  held ← lock_held_by_current_thread k l
  assert (not held)
  r ← sema_try_down k l.semaphore
  take_lock l r

unfoldable pub lock_release : Kernel → Lock → Result (Kernel × Lock)
lock_release k l = do
  held ← lock_held_by_current_thread k l
  assert held
  r ← sema_up k l.semaphore
  ok (r.0, record { holder = 0; semaphore = r.1 })

-- `struct condition`: the semaphore of each `struct semaphore_elem` on its list, which lies on the
-- stack of the thread that waits on it.
pub record Condition : Type 0 where
  pub waiting : List Semaphore

abbrev pub cond_init : Condition
cond_init = record { waiting = [] }

-- `cond_wait` up to the switch to another thread.
unfoldable pub cond_wait : Kernel → Condition → Lock → Result (Kernel × Condition × Lock)
cond_wait k c l = do
  assert (not k.in_external_intr)
  held ← lock_held_by_current_thread k l
  assert held
  r ← lock_release k l
  d ← sema_down r.0 (sema_init 0)
  ok (d.1, record { waiting = c.waiting ++ (d.2 ∷ []) }, r.1)

-- A thread that waits in `cond_wait`, with its semaphore, when it is current again; false where it has
-- to wait again, for its semaphore or for the lock.
unfoldable pub cond_wait_resumed :
    Bool → Kernel → Semaphore → Lock → Result (Bool × Kernel × Semaphore × Lock)
cond_wait_resumed old k s l = sema_down_loop old k s >>= λ d.
    if d.0 then (lock_acquire d.1 l >>= λ r. ok (r.0, r.1, d.2, r.2)) else ok (false, d.1, d.2, l)

-- `list_pop_front (&cond->waiters)` with `sema_up`, where there is a waiter; the last component is
-- the semaphore that has been raised, if any.
unfoldable pub signal_first : Kernel → List Semaphore → Result (Kernel × Condition × List Semaphore)
signal_first k [] = ok (k, record { waiting = [] }, [])
signal_first k (s ∷ ss) = sema_up k s >>= λ r. ok (r.0, record { waiting = ss }, r.1 ∷ [])

unfoldable pub cond_signal :
    Kernel → Condition → Lock → Result (Kernel × Condition × List Semaphore)
cond_signal k c l = do
  assert (not k.in_external_intr)
  held ← lock_held_by_current_thread k l
  assert held
  signal_first k c.waiting

-- The loop of `cond_broadcast`, over the waiters that are left
unfoldable pub broadcast_loop : Kernel → List Semaphore → Lock → Result (Kernel × List Semaphore)
broadcast_loop k [] l = ok (k, [])
broadcast_loop k (s ∷ ss) l = cond_signal k (record { waiting = s ∷ ss }) l >>= λ r.
    broadcast_loop r.0 ss l >>= λ q. ok (q.0, r.2 ++ q.1)

unfoldable pub cond_broadcast :
    Kernel → Condition → Lock → Result (Kernel × Condition × List Semaphore)
cond_broadcast k c l = broadcast_loop k c.waiting l >>= λ q. ok (q.0, record { waiting = [] }, q.1)
