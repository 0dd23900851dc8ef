-- ===== src/Thread/Create.antt =====
-- `thread_unblock`, `thread_create` and `thread_tick`: operations that do not switch.
use eda.Prelude.{
  ℕ, ◌≤◌, ◌≡◌, ◌≢◌, refl, ◌&&◌, Bool, true, false, ==-ne, [], ◌∷◌, ◌++◌, arith, le→leb, ok, panic,
}
use eda.Prelude.Members.{mem, update, mem-append, IsDistinct-snoc}
use eda.Thread.{
  ready, blocked, is_blocked, status_of, set_status, is_thread, no_alarm, thread_magic, Kernel,
  intr_enable, intr_set_level, thread_unblock, thread_create, init_thread, assign_tid,
}
use eda.Thread.Invariant.{IsValid}

-- The state after `thread_unblock`.
abbrev pub unblocked : Kernel → ℕ → Kernel
unblocked k t = set_status (record k { ready_list = k.ready_list ++ (t ∷ []) }) t ready

-- Interrupts are not on while an external interrupt is handled.
abbrev pub IsCalm : Kernel → Type 0
IsCalm k = (k.in_external_intr && k.intr_on) ≡ false

pub level_restored :
    (k : Kernel) (on ext : Bool)
    → (ext && on) ≡ false
    → k.in_external_intr ≡ ext
    → intr_set_level (record k { intr_on = false }) on ≡ ok (record k { intr_on = on })
unfolding intr_set_level intr_enable
level_restored k false ext h e = refl
level_restored k true false h e = rw e refl
level_restored k true true h e = absurd (ground arith)

-- `thread_unblock` of a live blocked thread returns, with that thread ready and last in the run queue.
pub thread_unblock_lem :
    (k : Kernel) (t : ℕ)
    → IsCalm k
    → is_thread k t ≡ true
    → is_blocked (status_of k t) ≡ true
    → thread_unblock k t ≡ ok (unblocked k t)
unfolding thread_unblock
thread_unblock_lem k t calm live bl =
    rw (live, bl) (level_restored (unblocked k t) k.intr_on k.in_external_intr calm refl)

pub unblocked-IsValid :
    {k : Kernel} (t : ℕ)
    → IsValid k
    → is_thread k t ≡ true
    → t ≢ k.idle_thread
    → is_blocked (status_of k t) ≡ true
    → IsValid (unblocked k t)
unfolding mem
unblocked-IsValid {k} t v live ne bl = record {
  queued = record {
    idle_live = ground (arith, v.queued.idle_live);
    idle_stays = ground (arith, v.queued.idle_stays);
    current_live = ground (arith, v.queued.current_live);
    ready_all = λ u. ground (arith, v.queued.ready_all u, mem-append u k.ready_list (t ∷ []));
    distinct =
        IsDistinct-snoc k.ready_list t v.queued.distinct (ground (arith, v.queued.ready_all t));
  };
  running_only = λ u l. ground (arith, v.running_only u, v.running_only t);
}

-- `thread_unblock` of a live thread that is not blocked panics.
pub thread_unblock-panic :
    (k : Kernel) (t : ℕ)
    → is_thread k t ≡ true
    → is_blocked (status_of k t) ≡ false
    → thread_unblock k t ≡ panic
unfolding thread_unblock
thread_unblock-panic k t live bl = rw (live, bl) refl

-- The state before the new thread is unblocked.
abbrev pub created : Kernel → ℕ → ℕ → Kernel
created k page priority =
    assign_tid
      (record k {
        threads = update k.threads page (record {
          tid = 0;
          status = blocked;
          priority = priority;
          alarm_tick = no_alarm;
          magic = thread_magic;
        });
        all_list = k.all_list ++ (page ∷ []);
      })
      page

module _ {k : Kernel} (v : IsValid k) (page priority : ℕ) (ne : page ≢ 0)
    (fresh : is_thread k page ≡ false) (calm : IsCalm k) where
  pub created-IsValid : IsValid (created k page priority)
  created-IsValid = record {
    queued = record {
      idle_live = ground (arith, v.queued.idle_live);
      idle_stays = ground (arith, v.queued.idle_stays, v.queued.idle_live);
      current_live = ground (arith, v.queued.current_live);
      ready_all = λ u. ground (arith, v.queued.ready_all u);
      distinct = v.queued.distinct;
    };
    running_only = λ u l. ground (arith, v.running_only u, v.queued.current_live);
  }

  pub thread_create_lem :
      priority ≤ 63
      → thread_create k page priority ≡ ok (k.next_tid, unblocked (created k page priority) page)
  unfolding thread_create init_thread
  thread_create_lem h =
      rw (==-ne page 0 ne, le→leb priority 63 h)
        (rw (thread_unblock_lem (created k page priority) page calm (ground arith) (ground arith))
          refl)

  -- `thread_create` on a page that holds no live thread, with a valid priority, returns the next thread
  -- identifier; the new thread is ready, last in the run queue, has that identifier and no alarm, and
  -- the invariant is kept.
  pub thread_create-IsValid :
      priority ≤ 63
      → (k' : Kernel) × (thread_create k page priority ≡ ok (k.next_tid, k'))
        × IsValid k'
        × (k'.ready_list ≡ k.ready_list ++ (page ∷ []))
        × (k'.threads page ≡ record {
          tid = k.next_tid;
          status = ready;
          priority = priority;
          alarm_tick = no_alarm;
          magic = thread_magic;
        })
  thread_create-IsValid h = (
    unblocked (created k page priority) page,
    thread_create_lem h,
    unblocked-IsValid page created-IsValid (ground arith) (ground (arith, v.queued.idle_live))
        (ground arith),
    refl,
    ground arith,
  )

-- `thread_unblock` of a live blocked thread that is not the idle thread returns with that thread ready
-- and last in the run queue, and keeps the invariant.
pub thread_unblock-IsValid :
    {k : Kernel} (t : ℕ)
    → IsValid k
    → IsCalm k
    → is_thread k t ≡ true
    → t ≢ k.idle_thread
    → is_blocked (status_of k t) ≡ true
    → (thread_unblock k t ≡ ok (unblocked k t)) × IsValid (unblocked k t)
thread_unblock-IsValid {k} t v calm live ne bl =
    (thread_unblock_lem k t calm live bl, unblocked-IsValid t v live ne bl)
