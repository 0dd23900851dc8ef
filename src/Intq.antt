-- ===== src/Intq.antt =====
-- mount/lab2/pintos/src/devices/intq.c: a circular buffer between threads and interrupt handlers. A call
-- that has to wait ends where the next thread has the processor, with no byte.
pub mod Queue
pub mod Waiting
use eda.Prelude.{
  ℕ, ◌+◌, ◌%◌, Bool, true, false, not, Option, none, some, ◌==◌, if◌then◌else◌, Result, ok, ◌>>=◌,
  ◌>>◌, assert,
}
use eda.Prelude.Members.{update}
use eda.Thread.{Kernel, thread_current, thread_block, thread_unblock}
use eda.Synch.{Lock, lock_init, lock_acquire, lock_acquire_resumed, lock_release}

-- `INTQ_BUFSIZE`
abbrev pub intq_bufsize : ℕ
intq_bufsize = 64

-- `struct intq`; the waiting threads are 0 where there is none.
pub record Intq : Type 0 where
  pub lock : Lock
  pub not_full : ℕ
  pub not_empty : ℕ
  pub buf : ℕ → ℕ
  pub head : ℕ
  pub tail : ℕ

-- The buffer keeps what the storage holds.
abbrev pub intq_init : (ℕ → ℕ) → Intq
intq_init storage = record {
  lock = lock_init;
  not_full = 0;
  not_empty = 0;
  buf = storage;
  head = 0;
  tail = 0;
}

abbrev pub next : ℕ → ℕ
next pos = (pos + 1) % intq_bufsize

abbrev pub is_empty : Intq → Bool
is_empty q = q.head == q.tail

abbrev pub is_full : Intq → Bool
is_full q = next q.head == q.tail

unfoldable pub intq_empty : Kernel → Intq → Result Bool
intq_empty k q = assert (not k.intr_on) >> ok (is_empty q)

unfoldable pub intq_full : Kernel → Intq → Result Bool
intq_full k q = assert (not k.intr_on) >> ok (is_full q)

-- `signal` of the given waiter, whose condition is `holds`; the waiter is reset.
unfoldable pub signal : Kernel → Bool → ℕ → Result Kernel
signal k holds waiter =
    assert (not k.intr_on)
    >> (assert holds >> (if waiter == 0 then ok k else thread_unblock k waiter))

-- `wait` for a condition that does not hold; the result is the thread that waits.
unfoldable pub wait : Kernel → Bool → Result (ℕ × Kernel)
wait k holds_not = do
  assert (not k.in_external_intr)
  assert (not k.intr_on)
  assert holds_not
  cur ← thread_current k
  k' ← thread_block k
  ok (cur, k')

-- The part of `intq_getc` behind its loop
unfoldable pub take_byte : Kernel → Intq → Result (Option ℕ × Kernel × Intq)
take_byte k q =
    let q' = record q { tail = next q.tail } in
    signal k (not (is_full q')) q.not_full >>= λ k'.
    ok (some (q.buf q.tail), k', record q' { not_full = 0 })

-- The loop of `intq_getc` from the return of `lock_acquire` on
unfoldable pub await_not_empty : Intq → Bool × Kernel × Lock → Result (Option ℕ × Kernel × Intq)
await_not_empty q (true, k, l) =
    wait k (is_empty q) >>= λ w. ok (none, w.1, record q { lock = l; not_empty = w.0 })
await_not_empty q (false, k, l) = ok (none, k, record q { lock = l })

unfoldable pub intq_getc : Kernel → Intq → Result (Option ℕ × Kernel × Intq)
intq_getc k q = do
  empty ← intq_empty k q
  if empty
      then (assert (not k.in_external_intr) >> (lock_acquire k q.lock >>= await_not_empty q))
      else take_byte k q

-- A thread that waits in `intq_getc`, when it is current again: for the lock, and for the condition.
unfoldable pub intq_getc_locking : Bool → Kernel → Intq → Result (Option ℕ × Kernel × Intq)
intq_getc_locking old k q = lock_acquire_resumed old k q.lock >>= await_not_empty q

unfoldable pub intq_getc_resumed : Kernel → Intq → Result (Option ℕ × Kernel × Intq)
intq_getc_resumed k q = lock_release k q.lock >>= λ r. intq_getc r.0 (record q { lock = r.1 })

-- The part of `intq_putc` behind its loop; true tells that the byte has been put.
unfoldable pub put_byte : Kernel → Intq → ℕ → Result (Bool × Kernel × Intq)
put_byte k q byte =
    let q' = record q { buf = update q.buf q.head byte; head = next q.head } in
    signal k (not (is_empty q')) q.not_empty >>= λ k'. ok (true, k', record q' { not_empty = 0 })

unfoldable pub await_not_full : Intq → Bool × Kernel × Lock → Result (Bool × Kernel × Intq)
await_not_full q (true, k, l) =
    wait k (is_full q) >>= λ w. ok (false, w.1, record q { lock = l; not_full = w.0 })
await_not_full q (false, k, l) = ok (false, k, record q { lock = l })

unfoldable pub intq_putc : Kernel → Intq → ℕ → Result (Bool × Kernel × Intq)
intq_putc k q byte = do
  full ← intq_full k q
  if full
      then (assert (not k.in_external_intr) >> (lock_acquire k q.lock >>= await_not_full q))
      else put_byte k q byte

unfoldable pub intq_putc_locking : Bool → Kernel → Intq → Result (Bool × Kernel × Intq)
intq_putc_locking old k q = lock_acquire_resumed old k q.lock >>= await_not_full q

unfoldable pub intq_putc_resumed : Kernel → Intq → ℕ → Result (Bool × Kernel × Intq)
intq_putc_resumed k q byte =
    lock_release k q.lock >>= λ r. intq_putc r.0 (record q { lock = r.1 }) byte
