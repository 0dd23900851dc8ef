-- ===== src/Thread/Switch.antt =====
-- The operations that end in `schedule`.
use eda.Prelude.{
  ◌≡◌, ◌≢◌, refl, ◌∙◌, true, false, ◌==◌, [], ◌∷◌, ◌++◌, arith, if◌then◌else◌, Bool-cases, inl, inr,
  ok,
}
use eda.Prelude.Members.{mem, erase, IsDistinct, mem-append, IsDistinct-snoc}
use eda.Thread.{
  ready, blocked, dying, is_running, Kernel, status_of, set_status, schedule, thread_block,
  thread_yield, thread_exit, thread_current, intr_disable,
}
use eda.Thread.Invariant.{IsValid, IsSuspended, Switched}
use eda.Thread.Schedule.{schedule-Switched}

module _ {k : Kernel} (v : IsValid k) where
  pub current-running : thread_current k ≡ ok k.current
  unfolding thread_current
  current-running =
      let run : is_running (status_of k k.current) ≡ true =
        ground (arith, v.running_only k.current v.queued.current_live) in
      rw (v.queued.current_live, run) refl

  blocked-IsSuspended : k.intr_on ≡ false → IsSuspended (set_status k k.current blocked)
  blocked-IsSuspended off = record {
    queued = record {
      idle_live = ground (arith, v.queued.idle_live);
      idle_stays = ground (arith, v.queued.idle_stays);
      current_live = ground (arith, v.queued.current_live);
      ready_all =
          λ t. ground (arith, v.queued.ready_all t, v.running_only k.current v.queued.current_live);
      distinct = v.queued.distinct;
    };
    off = off;
    none_running = λ t live. ground (arith, v.running_only t);
  }

  thread_block-schedule :
      k.intr_on ≡ false
      → k.in_external_intr ≡ false
      → thread_block k ≡ schedule (set_status k k.current blocked)
  unfolding thread_block
  thread_block-schedule off outside = simp (outside, off, current-running)

  -- `thread_block` with interrupts off, outside an external interrupt, returns: the current thread is
  -- blocked and the next one of the run queue has the processor.
  pub thread_block-Switched :
      k.intr_on ≡ false
      → k.in_external_intr ≡ false
      → (k' : Kernel) × (thread_block k ≡ ok k') × Switched (set_status k k.current blocked) k'
  thread_block-Switched off outside =
      let (k', e, s) = schedule-Switched (blocked-IsSuspended off) in
      (k', thread_block-schedule off outside ∙ e, s)

  -- The state in which `thread_yield` calls `schedule`.
  abbrev pub yielded : Kernel
  yielded =
      set_status
        (record (intr_disable k) {
          ready_list =
              if k.current == k.idle_thread then k.ready_list else k.ready_list ++ (k.current ∷ []);
        })
        k.current ready

  current_unqueued : mem k.current k.ready_list ≡ false
  current_unqueued =
      ground (arith, v.queued.ready_all k.current, v.running_only k.current v.queued.current_live)

  yielded-IsDistinct :
      IsDistinct
        (if k.current == k.idle_thread then k.ready_list else k.ready_list ++ (k.current ∷ []))
  yielded-IsDistinct = elim (Bool-cases (k.current == k.idle_thread)) [
    | inl e ↦ rw e v.queued.distinct
    | inr e ↦ rw e (IsDistinct-snoc k.ready_list k.current v.queued.distinct current_unqueued)
  ]

  yielded-IsSuspended : IsSuspended yielded
  unfolding mem
  yielded-IsSuspended = record {
    queued = record {
      idle_live = ground (arith, v.queued.idle_live);
      idle_stays = ground (arith, v.queued.idle_stays);
      current_live = ground (arith, v.queued.current_live);
      ready_all = λ t. ground (
        arith,
        v.queued.ready_all t,
        v.running_only t,
        v.queued.current_live,
        mem-append t k.ready_list (k.current ∷ []),
      );
      distinct = yielded-IsDistinct;
    };
    off = refl;
    none_running = λ t live. ground (arith, v.running_only t);
  }

  -- `thread_yield` outside an external interrupt returns: the current thread is ready, behind all
  -- others in the run queue (the idle thread stays off it), and the next one has the processor.
  pub thread_yield-Switched :
      k.in_external_intr ≡ false → (k' : Kernel) × (thread_yield k ≡ ok k') × Switched yielded k'
  thread_yield-Switched outside =
      let (k', e, s) = schedule-Switched yielded-IsSuspended in (k', yield_lem ∙ e, s)
    where
      yield_lem : thread_yield k ≡ schedule yielded
      yield_lem = unfold thread_yield in simp (current-running, outside)

  -- The state in which `thread_exit` calls `schedule`.
  abbrev pub exited : Kernel
  exited =
      set_status (record (intr_disable k) { all_list = erase k.current k.all_list }) k.current dying

  -- `thread_exit` of a thread that is not the idle thread, outside an external interrupt, returns: the
  -- thread is dying and off the list of all threads, its page is given back unless it is the initial
  -- thread, and the next one has the processor.
  pub thread_exit-Switched :
      k.in_external_intr ≡ false
      → k.current ≢ k.idle_thread
      → (k' : Kernel) × (thread_exit k ≡ ok k') × Switched exited k'
  unfolding thread_exit
  thread_exit-Switched outside ne =
      let (k', e, s) = schedule-Switched suspended in (k', exit_lem ∙ e, s)
    where
      exit_lem : thread_exit k ≡ schedule exited
      exit_lem = simp (outside, current-running)

      suspended : IsSuspended exited
      suspended = record {
        queued = record {
          idle_live = ground (arith, v.queued.idle_live);
          idle_stays = ground (arith, v.queued.idle_stays);
          current_live = ground (arith, v.queued.current_live);
          ready_all = λ t.
              ground (arith, v.queued.ready_all t, v.running_only k.current v.queued.current_live);
          distinct = v.queued.distinct;
        };
        off = refl;
        none_running = λ t live. ground (arith, v.running_only t);
      }
