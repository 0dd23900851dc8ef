-- ===== src/Tests/SynchTests.antt =====
-- The theorems on threads/synch.c at the kernel of four threads, where thread 2 runs, 3 is ready and 4
-- is blocked.
use eda.Prelude.{ℕ, ◌≡◌, refl, true, false, [], ◌∷◌, arith, ok, ==_iff}
use eda.Prelude.Members.{mem}
use eda.Thread.{Kernel, blocked, set_status, intr_disable}
use eda.Thread.Invariant
use eda.Thread.Invariant.{Switched}
use eda.Thread.Waiters.{waits}
use eda.Synch.{Semaphore, Lock, lock_init, sema_down, lock_acquire, lock_release}
use eda.Synch.Sema.{IsSema, woken, raised, sema_down-queued}
use eda.Synch.Locks.{IsLock, Acquires, lock_acquire-Acquires, lock_release-freed, lock_init-IsLock}
use eda.Tests.ThreadTests.{four, four-IsValid}

-- Thread 4 waits.
abbrev busy : Semaphore
busy = record { value = 0; waiters = 4 ∷ [] }

only_four : (t : ℕ) → mem t (4 ∷ []) ≡ true → waits four t ≡ true
unfolding mem
only_four t m = rw ((==_iff t 4).0 (ground arith)) refl

busy-IsSema : IsSema four busy
unfolding mem
busy-IsSema = record { distinct = (refl, tt); waiting = only_four }

-- Thread 2 holds the lock for which thread 4 waits.
abbrev held : Lock
held = record { holder = 2; semaphore = busy }

held-IsLock : IsLock four held
held-IsLock = record { waits = busy-IsSema; free = refl }

sema_down-queued_example :
    (k' : Kernel) × (sema_down four busy
      ≡ ok (false, k', record { value = 0; waiters = 4 ∷ 2 ∷ [] }))
    × Switched (set_status (intr_disable four) 2 blocked) k'
    × IsSema k' (record { value = 0; waiters = 4 ∷ 2 ∷ [] })
sema_down-queued_example = sema_down-queued four-IsValid busy-IsSema refl (omega arith) refl

lock_acquire-Acquires_example : Acquires four lock_init (lock_acquire four lock_init)
lock_acquire-Acquires_example =
    lock_acquire-Acquires four-IsValid (lock_init-IsLock four) refl (omega arith)

lock_release-freed_example :
    (l' : Lock) × (lock_release four held ≡ ok (woken four (4 ∷ []), l'))
    × (l' ≡ record { holder = 0; semaphore = raised busy })
    × Invariant.IsValid (woken four (4 ∷ []))
    × IsLock (woken four (4 ∷ [])) l'
lock_release-freed_example = lock_release-freed four-IsValid refl held-IsLock refl
