-- ===== src/Timer/Tables.antt =====
-- Steps of an interrupt that leave the thread table and the run queue alone, and its end.
use eda.Prelude.{
  ℕ, ◌+◌, ◌%◌, ◌^◌, ◌≡◌, refl, ◌∙◌, Bool, true, false, not, leb, ◌==◌, [], ◌∷◌, arith,
  if◌then◌else◌, Bool-cases, ==_iff, inl, inr, Result, ok, ◌>>=◌, assert,
}
use eda.Prelude.Members.{mem, mem-append}
use eda.Thread.{
  Status, running, ready, blocked, is_blocked, is_dying, dying, Kernel, status_of, is_thread,
  time_slice, next_thread, thread_tick, intr_enter, intr_leave, intr_yield_on_return,
}
use eda.Thread.Invariant.{IsValid, Switched}
use eda.Thread.Schedule.{next_queued}
use eda.Thread.Switch.{current-running, thread_yield-Switched, yielded}

-- `k'` has the thread table and the run queue of `k`.
pub record SameTables (k k' : Kernel) : Type 0 where
  pub threads : k'.threads ≡ k.threads
  pub queue : k'.ready_list ≡ k.ready_list
  pub current : k'.current ≡ k.current
  pub idle : k'.idle_thread ≡ k.idle_thread

pub SameTables-IsValid : {k k' : Kernel} → SameTables k k' → IsValid k → IsValid k'
SameTables-IsValid {k} {k'} s v = record {
  queued = record {
    idle_live = ground (arith, s.threads, s.idle, v.queued.idle_live);
    idle_stays = ground (arith, s.threads, s.idle, v.queued.idle_stays);
    current_live = ground (arith, s.threads, s.current, v.queued.current_live);
    ready_all = λ t. ground (arith, s.threads, s.queue, s.idle, v.queued.ready_all t);
    distinct = rw s.queue v.queued.distinct;
  };
  running_only = λ t l. ground (arith, s.threads, s.current, v.running_only t);
}

-- The counters after a tick.
abbrev pub counted : Kernel → Bool → Kernel
counted k idle =
    record (if idle
      then record k { idle_ticks = k.idle_ticks + 1 }
      else record k { kernel_ticks = k.kernel_ticks + 1 }) {
        thread_ticks = (k.thread_ticks + 1) % 2 ^ 32;
      }

pub counted-SameTables :
    (k : Kernel) (idle y : Bool) → SameTables k (record (counted k idle) { yield_on_return = y })
counted-SameTables k true y = record { threads = refl; queue = refl; current = refl; idle = refl }
counted-SameTables k false y = record { threads = refl; queue = refl; current = refl; idle = refl }

pub counted_flags :
    (k : Kernel) (idle : Bool)
    → ((counted k idle).intr_on ≡ k.intr_on)
      × ((counted k idle).in_external_intr ≡ k.in_external_intr)
counted_flags k true = (refl, refl)
counted_flags k false = (refl, refl)

module _ {k : Kernel} (v : IsValid k) where
  abbrev pub idles : Bool
  idles = k.current == k.idle_thread

  pub thread_tick-yields :
      k.in_external_intr ≡ true
      → leb time_slice (counted k idles).thread_ticks ≡ true
      → thread_tick k ≡ ok (record (counted k idles) { yield_on_return = true })
  unfolding thread_tick intr_yield_on_return
  thread_tick-yields h e = rw (current-running v) (rw e (rw ((counted_flags k idles).1 ∙ h) refl))

  pub thread_tick-stays :
      leb time_slice (counted k idles).thread_ticks ≡ false → thread_tick k ≡ ok (counted k idles)
  unfolding thread_tick
  thread_tick-stays e = simp (current-running v, e)

-- `thread_tick` inside an external interrupt leaves the tables alone.
pub thread_tick-SameTables :
    {k : Kernel} (v : IsValid k)
    → k.in_external_intr ≡ true
    → (k' : Kernel) × (thread_tick k ≡ ok k')
      × SameTables k k'
      × (k'.intr_on ≡ k.intr_on)
      × (k'.in_external_intr ≡ true)
thread_tick-SameTables {k} v h =
    let idle = k.current == k.idle_thread in
    let flags = counted_flags k idle in
    elim (Bool-cases (leb time_slice (counted k idle).thread_ticks)) [
      | inl e ↦ (
        record (counted k idle) { yield_on_return = true },
        thread_tick-yields v h e,
        counted-SameTables k idle true,
        flags.0,
        flags.1 ∙ h,
      )
      | inr e ↦ (
        counted k idle,
        thread_tick-stays v e,
        counted-SameTables k idle (counted k idle).yield_on_return,
        flags.0,
        flags.1 ∙ h,
      )
    ]

-- What the end of an interrupt leaves of the state `k` after its handler: another thread may be current,
-- but the threads that are blocked are the same, except that the idle thread may run.
pub record Settled (k k' : Kernel) : Type 0 where
  pub valid : IsValid k'
  pub blocks :
      (t : ℕ)
      → (t == k.idle_thread) ≡ false
      → is_thread k t ≡ true
      → is_blocked (status_of k' t) ≡ is_blocked (status_of k t)
  pub alarms : (t : ℕ) → (k'.threads t).alarm_tick ≡ (k.threads t).alarm_tick
  pub live : (t : ℕ) → is_blocked (status_of k t) ≡ true → is_thread k' t ≡ is_thread k t
  pub same_idle : k'.idle_thread ≡ k.idle_thread
  pub off : k'.intr_on ≡ false
  pub outside : k'.in_external_intr ≡ false

pub blocked_not_dying : (s : Status) → is_blocked s ≡ true → is_dying s ≡ false
blocked_not_dying blocked h = refl
blocked_not_dying running h = cc
blocked_not_dying ready h = cc
blocked_not_dying dying h = cc

-- A thread on the run queue of a yield was ready or current.
pub yielded_queue :
    {k : Kernel} (v : IsValid k) (t : ℕ)
    → mem t (yielded v).ready_list ≡ true
    → is_blocked (status_of k t) ≡ false
unfolding mem
yielded_queue {k} v t h = elim (Bool-cases (k.current == k.idle_thread)) [
  | inl e ↦ ground (arith, v.queued.ready_all t)
  | inr e ↦ ground (
    arith,
    v.queued.ready_all t,
    mem-append t k.ready_list (k.current ∷ []),
    v.running_only k.current v.queued.current_live,
  )
]

pub Switched-Settled :
    {k k' : Kernel} (v : IsValid k)
    → k.in_external_intr ≡ false
    → Switched (yielded v) k'
    → Settled k k'
Switched-Settled {k} {k'} v ext s = record {
  valid = s.valid;
  blocks = λ t ne live. elim (Bool-cases (t == k'.current)) [
    | inl e ↦ ground (arith, s.statuses t, yielded_queue v t (on_queue t ne e))
    | inr e ↦ ground (arith, s.statuses t, v.running_only t)
  ];
  alarms = λ t. ground (arith, s.alarms t);
  live = λ t h. ground (arith, s.live t, blocked_not_dying (status_of k t) h);
  same_idle = s.same_idle;
  off = s.off;
  outside = s.same_context ∙ ext;
}
  where
    on_queue :
        (t : ℕ)
        → (t == k.idle_thread) ≡ false
        → (t == k'.current) ≡ true
        → mem t (yielded v).ready_list ≡ true
    on_queue t ne e =
        let t_is : t ≡ next_thread k.idle_thread (yielded v).ready_list =
          (==_iff t k'.current).0 e ∙ s.chosen in
        rw t_is (next_queued k.idle_thread (yielded v).ready_list (rw t_is at ne))

pub same-Settled :
    {k k' : Kernel}
    → IsValid k'
    → SameTables k k'
    → k'.intr_on ≡ false
    → k'.in_external_intr ≡ false
    → Settled k k'
same-Settled v s off ext = record {
  valid = v;
  blocks = λ t ne live. rw s.threads refl;
  alarms = λ t. rw s.threads refl;
  live = λ t h. rw s.threads refl;
  same_idle = s.idle;
  off = off;
  outside = ext;
}

-- The state in which the interrupt no longer counts as one.
abbrev pub left : Kernel → Kernel
left k = record k { in_external_intr = false }

pub left-SameTables : (k : Kernel) → SameTables k (left k)
left-SameTables k = record { threads = refl; queue = refl; current = refl; idle = refl }

pub leave_yield :
    (off context due : Bool) (x y : Result Kernel)
    → off ≡ false
    → context ≡ true
    → due ≡ true
    → (assert (not off) >>= λ _. assert context >>= λ _. if due then x else y) ≡ x
leave_yield off context due x y h g e = rw (h, g, e) refl

pub intr_leave-Settled :
    {k : Kernel}
    → IsValid k
    → k.intr_on ≡ false
    → k.in_external_intr ≡ true
    → (k' : Kernel) × (intr_leave k ≡ ok k') × Settled k k'
unfolding intr_leave
intr_leave-Settled {k} v off ext =
    let v' = SameTables-IsValid (left-SameTables k) v in
    elim (Bool-cases k.yield_on_return) [
      | inr e ↦ (left k, simp (off, ext, e), same-Settled v' (left-SameTables k) off refl)
      | inl e ↦
          let (k', run, s) = thread_yield-Switched v' refl in
          let t = Switched-Settled v' refl s in
          (
            k',
            leave_yield k.intr_on k.in_external_intr k.yield_on_return _ _ off ext e ∙ run,
            record {
              valid = t.valid;
              blocks = t.blocks;
              alarms = t.alarms;
              live = t.live;
              same_idle = t.same_idle;
              off = t.off;
              outside = t.outside;
            },
          )
    ]

-- The state of the kernel inside the timer interrupt.
abbrev pub entered : Kernel → Kernel
entered k = record k { in_external_intr = true; yield_on_return = false }

pub entered-SameTables : (k : Kernel) → SameTables k (entered k)
entered-SameTables k = record { threads = refl; queue = refl; current = refl; idle = refl }

pub enter_outside :
    (off context : Bool) (k : Kernel)
    → off ≡ false
    → context ≡ false
    → (assert (not off) >>= λ _. assert (not context) >>= λ _. ok k) ≡ ok k
enter_outside off context k h g = rw (h, g) refl

pub enter_lem :
    (k : Kernel) → k.intr_on ≡ false → k.in_external_intr ≡ false → intr_enter k ≡ ok (entered k)
unfolding intr_enter
enter_lem k off ext = enter_outside k.intr_on k.in_external_intr (entered k) off ext
