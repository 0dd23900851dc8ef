-- ===== src/Synch/Locks.antt =====
-- Locks: a lock is free or has one holder, and only the holder gives it back.
use eda.Prelude.{
  ◌-◌, ◌≡◌, ◌≢◌, refl, sym, ◌∙◌, Bool, true, false, ◌==◌, ==-ne, ==_iff, arith, Bool-cases, inl,
  inr, if◌then◌else◌, Result, ok, panic, ◌>>=◌,
}
use eda.Thread.{blocked, Kernel, set_status, intr_disable}
use eda.Thread.Invariant.{IsValid, Switched}
use eda.Thread.Switch.{current-running}
use eda.Thread.Create.{IsCalm}
use eda.Synch.{
  Lock, lock_init, lock_held_by_current_thread, take_lock, lock_acquire, lock_try_acquire,
  lock_release, sema_down, sema_try_down,
}
use eda.Synch.Sema.{
  IsSema, sema_init-IsSema, woken, raised, sema_up-raised, queued, sema_down-taken,
  sema_down-queued, sema_try_down_lem,
}

-- The semaphore of a lock has value 1 where the lock has no holder, else 0.
pub record IsLock (k : Kernel) (l : Lock) : Type 0 where
  pub waits : IsSema k l.semaphore
  pub free : l.semaphore.value ≡ (if l.holder == 0 then 1 else 0)

pub lock_init-IsLock : (k : Kernel) → IsLock k lock_init
lock_init-IsLock k = record { waits = sema_init-IsSema k 1; free = refl }

-- The lock held by the current thread.
abbrev pub held_by_current : Kernel → Lock → Lock
held_by_current k l = record { holder = k.current; semaphore = record l.semaphore { value = 0 } }

-- What `lock_acquire` comes to: the lock was free and is taken, another thread holds it and the
-- current one waits, or the current thread holds it already and the kernel panics.
pub data Acquires (k : Kernel) (l : Lock) : Result (Bool × Kernel × Lock) → Type 0 where
  takes :
      l.holder ≡ 0
      → IsLock k (held_by_current k l)
      → Acquires k l (ok (true, k, held_by_current k l))
  queues :
      {k' : Kernel}
      → l.holder ≢ 0
      → l.holder ≢ k.current
      → Switched (set_status (intr_disable k) k.current blocked) k'
      → IsLock k' (record l { semaphore = queued k l.semaphore })
      → Acquires k l (ok (false, k', record l { semaphore = queued k l.semaphore }))
  refuses : l.holder ≡ k.current → Acquires k l panic

pub current_pos : {k : Kernel} → IsValid k → k.current ≢ 0
current_pos v = λ e. ground (arith, v.queued.current_live)

held-IsLock : {k : Kernel} (l : Lock) → IsValid k → IsLock k l → IsLock k (held_by_current k l)
held-IsLock l v i = record {
  waits = record { distinct = i.waits.distinct; waiting = i.waits.waiting };
  free = rw (==-ne _ 0 (current_pos v)) refl;
}

module _ {k : Kernel} {l : Lock} (v : IsValid k) (i : IsLock k l) (out : k.in_external_intr ≡ false)
    (other : (l.holder == k.current) ≡ false) where
  acquire_down : lock_acquire k l ≡ (sema_down k l.semaphore >>= take_lock l)
  acquire_down =
      unfold lock_acquire lock_held_by_current_thread in simp (out, current-running v, other)

  pub acquire_free : (l.holder == 0) ≡ true → lock_acquire k l ≡ ok (true, k, held_by_current k l)
  acquire_free e =
      let one : l.semaphore.value ≡ 1 = i.free ∙ rw e refl in
      acquire_down
      ∙ rw (sema_down-taken {k = k} {s = l.semaphore} out (omega (arith, one)))
          (unfold take_lock in rw (current-running v, one) refl)

  acquire_held :
      k.current ≢ k.idle_thread → (l.holder == 0) ≡ false → Acquires k l (lock_acquire k l)
  acquire_held ne e =
      let none : l.semaphore.value ≡ 0 = i.free ∙ rw e refl in
      let (k', run, sw, w) = sema_down-queued v i.waits out ne none in
      rw (acquire_down, run)
        (unfold take_lock in
          queues (λ z. absurd (ground arith)) (λ z. absurd (ground arith)) sw
            (record { waits = w; free = i.free }))

-- `lock_acquire` by a thread other than the idle thread, outside an external interrupt, comes to one of
-- the three outcomes of `Acquires`.
pub lock_acquire-Acquires :
    {k : Kernel} {l : Lock}
    → IsValid k
    → IsLock k l
    → k.in_external_intr ≡ false
    → k.current ≢ k.idle_thread
    → Acquires k l (lock_acquire k l)
lock_acquire-Acquires {k} {l} v i out ne = elim (Bool-cases (l.holder == k.current)) [
  | inl e ↦ rw (acquire_own e) (refuses ((==_iff l.holder k.current).0 e))
  | inr e ↦ elim (Bool-cases (l.holder == 0)) [
    | inl z ↦ rw (acquire_free v i out e z) (takes ((==_iff l.holder 0).0 z) (held-IsLock l v i))
    | inr z ↦ acquire_held v i out e ne z
  ]
]
  where
    acquire_own : (l.holder == k.current) ≡ true → lock_acquire k l ≡ panic
    acquire_own e =
        unfold lock_acquire lock_held_by_current_thread in simp (out, current-running v, e)

-- `lock_try_acquire` by a thread that does not hold the lock takes it if it is free and reports it;
-- else it changes nothing.
pub lock_try_acquire-held_by_current :
    {k : Kernel} {l : Lock}
    → IsValid k
    → IsCalm k
    → IsLock k l
    → l.holder ≢ k.current
    → (l' : Lock) × (lock_try_acquire k l ≡ ok (l.holder == 0, k, l'))
      × (l' ≡ (if l.holder == 0 then held_by_current k l else l))
      × IsLock k l'
lock_try_acquire-held_by_current {k} {l} v c i ne = elim (Bool-cases (l.holder == 0)) [
  | inl e ↦ (held_by_current k l, try_free e, rw e refl, held-IsLock l v i)
  | inr e ↦ (l, try_held e, rw e refl, i)
]
  where
    try_down : lock_try_acquire k l ≡ (sema_try_down k l.semaphore >>= take_lock l)
    try_down =
        unfold lock_try_acquire lock_held_by_current_thread in
        simp (current-running v, ==-ne l.holder k.current ne)

    try_free :
        (l.holder == 0) ≡ true → lock_try_acquire k l ≡ ok (l.holder == 0, k, held_by_current k l)
    try_free e =
        let one : l.semaphore.value ≡ 1 = i.free ∙ rw e refl in
        try_down
        ∙ rw (sema_try_down_lem {k = k} l.semaphore c)
            (unfold take_lock in rw (one, e) (rw (current-running v) refl))

    try_held : (l.holder == 0) ≡ false → lock_try_acquire k l ≡ ok (l.holder == 0, k, l)
    try_held e =
        let none : l.semaphore.value ≡ 0 = i.free ∙ rw e refl in
        let z : (l.semaphore.value == 0) ≡ true = (==_iff l.semaphore.value 0).1 none in
        let same : l.semaphore.value - 1 ≡ l.semaphore.value = omega (arith, none) in
        try_down
        ∙ rw (sema_try_down_lem {k = k} l.semaphore c) (unfold take_lock in rw (z, same, e) refl)

-- `lock_release` by the holder frees the lock and makes its first waiter ready.
pub lock_release-freed :
    {k : Kernel} {l : Lock}
    → IsValid k
    → IsCalm k
    → IsLock k l
    → l.holder ≡ k.current
    → (l' : Lock) × (lock_release k l ≡ ok (woken k l.semaphore.waiters, l'))
      × (l' ≡ record { holder = 0; semaphore = raised l.semaphore })
      × IsValid (woken k l.semaphore.waiters)
      × IsLock (woken k l.semaphore.waiters) l'
lock_release-freed {k} {l} v c i mine =
    let (run, v', w) = sema_up-raised v c i.waits in
    let same : (l.holder == k.current) ≡ true = (==_iff l.holder k.current).1 mine in
    let empty : l.semaphore.value ≡ 0 =
      i.free ∙ rw (==-ne l.holder 0 (λ e. current_pos v (sym mine ∙ e))) refl in
    (
      record { holder = 0; semaphore = raised l.semaphore },
      unfold lock_release lock_held_by_current_thread in simp (current-running v, same, run),
      refl,
      v',
      record { waits = w; free = omega (arith, empty) },
    )

-- `lock_release` by a thread that does not hold the lock panics.
pub lock_release-panic :
    {k : Kernel} (l : Lock) → IsValid k → l.holder ≢ k.current → lock_release k l ≡ panic
lock_release-panic {k} l v ne =
    unfold lock_release lock_held_by_current_thread in
    simp (current-running v, ==-ne l.holder k.current ne)
