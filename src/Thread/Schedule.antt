-- ===== src/Thread/Schedule.antt =====
-- `schedule`: which thread has the processor next.
use eda.Prelude.{
  ℕ, ◌≡◌, refl, ◌&&◌, Bool, true, false, not, ◌==◌, List, [], ◌∷◌, arith, if◌then◌else◌, Bool-cases,
  inl, inr, ok, ==_iff,
}
use eda.Prelude.Members.{mem, update, IsDistinct}
use eda.Thread.{
  Status, running, ready, blocked, dying, is_running, is_ready, is_dying, Thread, Kernel, status_of,
  is_thread, next_thread, rest_of, freed_magic, thread_magic, thread_schedule_tail, schedule,
}
use eda.Thread.Invariant.{IsQueued, IsSuspended, Switched}

ready_not_dying : (st : Status) → is_ready st ≡ true → is_dying st ≡ false
ready_not_dying running h = refl
ready_not_dying ready h = refl
ready_not_dying blocked h = refl
ready_not_dying dying h = absurd (ground arith)

next_live : (k : Kernel) → IsQueued k → is_thread k (next_thread k.idle_thread k.ready_list) ≡ true
unfolding mem
next_live k q = go k.ready_list q.ready_all
  where
    go :
        (l : List ℕ)
        → ((t : ℕ)
            → mem t l ≡ (is_thread k t && (is_ready (status_of k t) && not (t == k.idle_thread))))
        → is_thread k (next_thread k.idle_thread l) ≡ true
    go [] all = q.idle_live
    go (x ∷ xs) all = ground (arith, all x)

next_stays :
    (k : Kernel)
    → IsQueued k
    → is_dying (status_of k (next_thread k.idle_thread k.ready_list)) ≡ false
unfolding mem
next_stays k q = go k.ready_list q.ready_all
  where
    go :
        (l : List ℕ)
        → ((t : ℕ)
            → mem t l ≡ (is_thread k t && (is_ready (status_of k t) && not (t == k.idle_thread))))
        → is_dying (status_of k (next_thread k.idle_thread l)) ≡ false
    go [] all = q.idle_stays
    go (x ∷ xs) all = ready_not_dying _ (ground (arith, all x))

mem-rest_of :
    (idle t : ℕ) (l : List ℕ)
    → IsDistinct l
    → mem idle l ≡ false
    → mem t (rest_of l) ≡ (mem t l && not (t == next_thread idle l))
unfolding mem
mem-rest_of idle t [] d h = refl
mem-rest_of idle t (x ∷ xs) d h = ground (arith, d.0)

IsDistinct-rest_of : (l : List ℕ) → IsDistinct l → IsDistinct (rest_of l)
IsDistinct-rest_of [] d = tt
IsDistinct-rest_of (x ∷ xs) d = d.1

-- The thread that is chosen is the idle thread, or it is on the run queue.
pub next_queued :
    (idle : ℕ) (l : List ℕ)
    → (next_thread idle l == idle) ≡ false
    → mem (next_thread idle l) l ≡ true
unfolding mem
next_queued idle [] h = ground arith
next_queued idle (x ∷ xs) h = ground arith

module _ {k : Kernel} (s : IsSuspended k) where
  next : ℕ
  next = next_thread k.idle_thread k.ready_list

  idle_unqueued : mem k.idle_thread k.ready_list ≡ false
  idle_unqueued = ground (arith, s.queued.ready_all k.idle_thread)

  -- The state after the switch, whose table `th` is that of `k` with the next thread running and, where
  -- `gone`, the page of the thread that stopped given back.
  switched :
      (th : ℕ → Thread) (gone : Bool)
      → ((t : ℕ) → (th t).status ≡ (if t == next then running else status_of k t))
      → ((t : ℕ) → (th t).alarm_tick ≡ (k.threads t).alarm_tick)
      → ((t : ℕ)
          → ((th t).magic == thread_magic)
            ≡ (((k.threads t).magic == thread_magic) && not (gone && (t == k.current))))
      → (gone ≡ true → is_dying (status_of k k.current) ≡ true)
      → (gone ≡ true → (k.current == next) ≡ false)
      → (is_dying (status_of k k.current) ≡ true → gone ≡ not (k.current == k.initial_thread))
      → Switched k (record k {
        threads = th;
        current = next;
        ready_list = rest_of k.ready_list;
        thread_ticks = 0;
      })
  unfolding next
  switched th gone st al mg dy ne fr = record {
    valid = record {
      queued = record {
        idle_live = ground (arith, mg k.idle_thread, dy, s.queued.idle_live, s.queued.idle_stays);
        idle_stays = ground (arith, st k.idle_thread, s.queued.idle_stays);
        current_live = ground (arith, mg next, ne, next_live k s.queued);
        ready_all = λ t. ground (
          arith,
          mg t,
          dy,
          st t,
          s.queued.ready_all t,
          mem-rest_of k.idle_thread t k.ready_list s.queued.distinct idle_unqueued,
        );
        distinct = IsDistinct-rest_of k.ready_list s.queued.distinct;
      };
      running_only = λ t live. ground (arith, mg t, st t, s.none_running t);
    };
    chosen = refl;
    off = s.off;
    statuses = st;
    alarms = al;
    live = λ t h. ground (arith, mg t, dy);
    freed = λ d. ground (arith, mg k.current, fr d, s.queued.current_live);
    queue = refl;
    same_all = refl;
    same_idle = refl;
    same_context = refl;
    slice = refl;
  }

  abbrev woken : ℕ → Thread
  woken = update k.threads next (record (k.threads next) { status = running })

  abbrev cleared : ℕ → Thread
  cleared = update woken k.current (record (woken k.current) { magic = freed_magic })

  abbrev after : (ℕ → Thread) → Kernel
  after th = record k {
    threads = th;
    current = next;
    ready_list = rest_of k.ready_list;
    thread_ticks = 0;
  }

  stopped : is_running (status_of k k.current) ≡ false
  stopped = s.none_running k.current s.queued.current_live

  -- Whether the page of the thread that stopped is given back.
  abbrev is_gone : Bool
  is_gone =
      not (k.current == next)
      && (is_dying (status_of k k.current) && not (k.current == k.initial_thread))

  schedule-kept : is_gone ≡ false → schedule k ≡ ok (after woken)
  unfolding schedule thread_schedule_tail next
  schedule-kept h =
      rw (s.off, stopped, next_live k s.queued) (ground (arith, s.queued.current_live))

  schedule-gone : is_gone ≡ true → schedule k ≡ ok (after cleared)
  unfolding schedule thread_schedule_tail next
  schedule-gone h =
      rw (s.off, stopped, next_live k s.queued) (ground (arith, s.queued.current_live))

  -- A dying thread is not the next one.
  not_next : is_dying (status_of k k.current) ≡ true → (k.current == next) ≡ false
  unfolding next
  not_next d = elim (Bool-cases (k.current == next)) [
    | inr e ↦ e
    | inl e ↦
        let same : k.current ≡ next_thread k.idle_thread k.ready_list =
          (==_iff k.current (next_thread k.idle_thread k.ready_list)).0 e in
        let stays : is_dying (status_of k k.current) ≡ false = rw same (next_stays k s.queued) in
        absurd (ground arith)
  ]

  -- `schedule` passes the processor on.
  pub schedule-Switched : (k' : Kernel) × (schedule k ≡ ok k') × Switched k k'
  schedule-Switched = elim (Bool-cases is_gone) [
    | inr e ↦ (
      after woken,
      schedule-kept e,
      switched woken false (λ t. ground arith) (λ t. ground arith) (λ t. ground arith) (λ h. cc)
          (λ h. cc) (λ d. ground (arith, not_next d)),
    )
    | inl e ↦ (
      after cleared,
      schedule-gone e,
      switched cleared true (λ t. ground arith) (λ t. ground arith) (λ t. ground arith)
          (λ h. ground arith) (λ h. ground arith) (λ d. ground (arith, not_next d)),
    )
  ]
