-- ===== src/Synch/Sema.antt =====
-- Semaphores: who waits, who is woken, and the value.
use eda.Prelude.{
  ℕ, ◌+◌, ◌-◌, ◌%◌, ◌^◌, ◌<◌, ◌≡◌, ◌≢◌, refl, ◌∙◌, Bool, true, false, not, ◌==◌, ==-ne, List, [],
  ◌∷◌, ◌++◌, arith, Bool-cases, inl, inr, ok,
}
use eda.Prelude.Members.{mem, mem-append, IsDistinct, IsDistinct-snoc}
use eda.Thread.{
  blocked, is_running, Kernel, status_of, set_status, thread_block, intr_set_level, intr_disable,
  rest_of,
}
use eda.Thread.Invariant.{IsValid, Switched}
use eda.Thread.Switch.{current-running, thread_block-Switched}
use eda.Thread.Create.{IsCalm, level_restored, unblocked, unblocked-IsValid, thread_unblock_lem}
use eda.Thread.Waiters.{waits, waits-unblocked, waits-Switched, level-IsValid}
use eda.Synch.{Semaphore, sema_init, sema_down_loop, sema_down, sema_try_down, wake_first, sema_up}

-- The waiters of a semaphore are distinct blocked threads, none of them the idle thread.
pub record IsSema (k : Kernel) (s : Semaphore) : Type 0 where
  pub distinct : IsDistinct s.waiters
  pub waiting : (t : ℕ) → mem t s.waiters ≡ true → waits k t ≡ true

-- The kernel after the first of the waiters has been woken.
abbrev pub woken : Kernel → List ℕ → Kernel
woken k [] = k
woken k (t ∷ ts) = unblocked k t

pub sema_init-IsSema : (k : Kernel) (value : ℕ) → IsSema k (sema_init value)
unfolding mem
sema_init-IsSema k value = record { distinct = tt; waiting = λ t h. absurd (ground arith) }

-- The semaphore after `sema_up`.
abbrev pub raised : Semaphore → Semaphore
raised s = record { value = (s.value + 1) % 2 ^ 32; waiters = rest_of s.waiters }

IsCalm-disabled : (k : Kernel) → IsCalm (intr_disable k)
IsCalm-disabled k = ground arith

wake_first-woken :
    (k : Kernel) (ts : List ℕ)
    → IsCalm k
    → ((t : ℕ) → mem t ts ≡ true → waits k t ≡ true)
    → wake_first k ts ≡ ok (woken k ts, rest_of ts)
unfolding wake_first mem
wake_first-woken k [] c h = refl
wake_first-woken k (t ∷ ts) c h =
    let w : waits k t ≡ true = h t (ground arith) in
    rw (thread_unblock_lem k t c (ground arith) (ground arith)) refl

woken-level :
    (k : Kernel) (ts : List ℕ)
    → IsCalm k
    → intr_set_level (woken (intr_disable k) ts) k.intr_on ≡ ok (woken k ts)
woken-level k [] c = level_restored k k.intr_on k.in_external_intr c refl
woken-level k (t ∷ ts) c = level_restored (unblocked k t) k.intr_on k.in_external_intr c refl

woken-IsValid :
    {k : Kernel} (ts : List ℕ)
    → IsValid k
    → ((t : ℕ) → mem t ts ≡ true → waits k t ≡ true)
    → IsValid (woken k ts)
unfolding mem
woken-IsValid [] v h = v
woken-IsValid {k} (t ∷ ts) v h =
    let w : waits k t ≡ true = h t (ground arith) in
    unblocked-IsValid t v (ground arith) (ground arith) (ground arith)

rest-IsSema : {k : Kernel} (s : Semaphore) → IsSema k s → IsSema (woken k s.waiters) (raised s)
unfolding mem
rest-IsSema {k} s i = go s.waiters i.distinct i.waiting
  where
    go :
        (ts : List ℕ)
        → IsDistinct ts
        → ((t : ℕ) → mem t ts ≡ true → waits k t ≡ true)
        → IsSema (woken k ts) (record { value = (s.value + 1) % 2 ^ 32; waiters = rest_of ts })
    go [] d h = record { distinct = tt; waiting = λ t m. absurd (ground arith) }
    go (t ∷ ts) d h = record {
      distinct = d.1;
      waiting = λ u m. elim (Bool-cases (u == t)) [
        | inl e ↦ absurd (ground (arith, d.0))
        | inr e ↦ waits-unblocked k t u e (h u (ground arith))
      ];
    }

-- `sema_up` in a valid kernel returns: the first waiter is ready, last in the run queue, the others
-- wait on, the value is one higher, and kernel and semaphore are valid.
pub sema_up-raised :
    {k : Kernel} {s : Semaphore}
    → IsValid k
    → IsCalm k
    → IsSema k s
    → (sema_up k s ≡ ok (woken k s.waiters, raised s))
      × IsValid (woken k s.waiters)
      × IsSema (woken k s.waiters) (raised s)
unfolding sema_up
sema_up-raised {k} {s} v c i = (
  rw (wake_first-woken (intr_disable k) s.waiters (IsCalm-disabled k) i.waiting)
      (rw (woken-level k s.waiters c) refl),
  woken-IsValid s.waiters v i.waiting,
  rest-IsSema s i,
)

sema_down-loop :
    (k : Kernel) (s : Semaphore)
    → k.in_external_intr ≡ false
    → sema_down k s ≡ sema_down_loop k.intr_on (intr_disable k) s
sema_down-loop k s out = unfold sema_down in simp (out)

-- `sema_down` of a semaphore whose value is not 0 takes one and leaves the kernel as it is.
pub sema_down-taken :
    {k : Kernel} {s : Semaphore}
    → k.in_external_intr ≡ false
    → 0 < s.value
    → sema_down k s ≡ ok (true, k, record s { value = s.value - 1 })
unfolding sema_down_loop
sema_down-taken {k} {s} out pos =
    sema_down-loop k s out
    ∙ rw (==-ne s.value 0 (omega arith))
        (rw (level_restored k k.intr_on k.in_external_intr (ground arith) refl) refl)

-- The semaphore with the current thread as its last waiter.
abbrev pub queued : Kernel → Semaphore → Semaphore
queued k s = record s { waiters = s.waiters ++ (k.current ∷ []) }

down-waits :
    {k k' : Kernel} (s : Semaphore) (old : Bool)
    → IsValid k
    → s.value ≡ 0
    → thread_block k ≡ ok k'
    → sema_down_loop old k s ≡ ok (false, k', queued k s)
unfolding sema_down_loop
down-waits s old v e run = rw e (rw (current-running v) (rw run refl))

-- `sema_down` of a semaphore whose value is 0, by a thread other than the idle thread and outside an
-- external interrupt, blocks the thread as the last waiter: the next thread has the processor, and
-- kernel and semaphore are valid.
pub sema_down-queued :
    {k : Kernel} {s : Semaphore}
    → IsValid k
    → IsSema k s
    → k.in_external_intr ≡ false
    → k.current ≢ k.idle_thread
    → s.value ≡ 0
    → (k' : Kernel) × (sema_down k s ≡ ok (false, k', queued k s))
      × Switched (set_status (intr_disable k) k.current blocked) k'
      × IsSema k' (queued k s)
unfolding sema_down_loop mem
sema_down-queued {k} {s} v i out ne zero_value =
    let off = level-IsValid false v in
    let (k', run, sw) = thread_block-Switched off refl out in
    let runs : is_running (status_of k k.current) ≡ true =
      ground (arith, v.running_only k.current v.queued.current_live) in
    let new : mem k.current s.waiters ≡ false = elim (Bool-cases (mem k.current s.waiters)) [
      | inr e ↦ e
      | inl e ↦ absurd (ground (arith, i.waiting k.current e))
    ] in
    (
      k',
      sema_down-loop k s out ∙ down-waits s k.intr_on off zero_value run,
      sw,
      record {
        distinct = IsDistinct-snoc s.waiters k.current i.distinct new;
        waiting = λ t m.
            waits-Switched off ne sw t
              (ground (arith, i.waiting t, mem-append t s.waiters (k.current ∷ []), runs));
      },
    )

-- `sema_try_down` takes one if there is one and reports it; else it changes nothing.
pub sema_try_down_lem :
    {k : Kernel} (s : Semaphore)
    → IsCalm k
    → sema_try_down k s ≡ ok (not (s.value == 0), k, record s { value = s.value - 1 })
unfolding sema_try_down
sema_try_down_lem {k} s c = rw (level_restored k k.intr_on k.in_external_intr c refl) (ground arith)
