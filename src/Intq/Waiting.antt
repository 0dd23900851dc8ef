-- ===== src/Intq/Waiting.antt =====
-- Calls that find the queue empty.
use eda.Prelude.{
  ◌≡◌, ◌≢◌, sym, ◌∙◌, true, false, ◌==◌, ==-ne, ==_iff, arith, Bool-cases, inl, inr, none, ok,
  panic,
}
use eda.Thread.{Kernel, blocked, is_running, status_of, set_status, thread_block}
use eda.Thread.Invariant.{IsValid, Switched}
use eda.Thread.Switch.{current-running, thread_block-Switched}
use eda.Thread.Waiters.{waits, waits-Switched}
use eda.Synch.{lock_acquire}
use eda.Synch.Locks.{IsLock, held_by_current, acquire_free, current_pos}
use eda.Intq.{Intq, intq_empty, wait, await_not_empty, intq_getc}
use eda.Intq.Queue.{IsIntq}

-- `intq_getc` by the handler of an external interrupt panics on an empty queue.
pub intq_getc-panic :
    (k : Kernel) (q : Intq)
    → k.intr_on ≡ false
    → k.in_external_intr ≡ true
    → q.head ≡ q.tail
    → intq_getc k q ≡ panic
intq_getc-panic k q off inside e =
    let empty : (q.head == q.tail) ≡ true = (==_iff q.head q.tail).1 e in
    unfold intq_getc intq_empty in simp (off, inside, empty)

module _ {k : Kernel} {q : Intq} (v : IsValid k) (i : IsIntq k q) (l : IsLock k q.lock)
    (off : k.intr_on ≡ false) (out : k.in_external_intr ≡ false) (ne : k.current ≢ k.idle_thread)
    (empty : q.head ≡ q.tail) (free : q.lock.holder ≡ 0) where
  -- The queue with the current thread as the one that waits for a byte.
  abbrev pub awaited : Intq
  awaited = record q { lock = held_by_current k q.lock; not_empty = k.current }

  runs : is_running (status_of k k.current) ≡ true
  runs = ground (arith, v.running_only k.current v.queued.current_live)

  acquired : lock_acquire k q.lock ≡ ok (true, k, held_by_current k q.lock)
  acquired =
      acquire_free v l out (==-ne q.lock.holder k.current (λ e. current_pos v (sym e ∙ free)))
        ((==_iff q.lock.holder 0).1 free)

  waits_lem : (k' : Kernel) → thread_block k ≡ ok k' → intq_getc k q ≡ ok (none, k', awaited)
  waits_lem k' run =
      let e : (q.head == q.tail) ≡ true = (==_iff q.head q.tail).1 empty in
      unfold intq_getc intq_empty await_not_empty wait in
      simp (off, out, e, acquired, current-running v, run)

  apart_of : (q.not_full == k.current) ≡ false
  apart_of = elim (Bool-cases (q.not_full == k.current)) [
    | inr e ↦ e
    | inl e ↦
        let same = (==_iff q.not_full k.current).0 e in
        let w : waits k q.not_full ≡ true = i.writer (λ z. current_pos v (sym same ∙ z)) in
        absurd (ground (arith, runs))
  ]

  -- `intq_getc` on an empty queue whose lock is free, with interrupts off and by a thread other than the
  -- idle thread, blocks the thread as the one that waits for a byte: it holds the lock, the next thread
  -- has the processor, and the queue stays valid.
  pub intq_getc-Switched :
      (k' : Kernel) × (intq_getc k q ≡ ok (none, k', awaited))
      × Switched (set_status k k.current blocked) k'
      × IsIntq k' awaited
  intq_getc-Switched =
      let (k', run, sw) = thread_block-Switched v off out in
      (
        k',
        waits_lem k' run,
        sw,
        record {
          head_lt = i.head_lt;
          tail_lt = i.tail_lt;
          reader = λ z. waits-Switched v ne sw k.current (ground arith);
          writer = λ z. waits-Switched v ne sw q.not_full (ground (arith, i.writer z, apart_of));
          apart = λ z. apart_of;
        },
      )
