-- ===== src/Thread/Waiters.antt =====
-- Threads that wait to be unblocked, and how `thread_block` and `thread_unblock` leave them.
use eda.Prelude.{
  ℕ, ◌≡◌, ◌≢◌, ◌∙◌, ◌&&◌, Bool, true, false, not, ◌==◌, ==-ne, ==_iff, arith, Bool-cases, inl, inr,
  if◌then◌else◌,
}
use eda.Prelude.Members.{mem}
use eda.Thread.{
  blocked, is_running, is_ready, is_blocked, Kernel, status_of, set_status, is_thread, next_thread,
}
use eda.Thread.Invariant.{IsValid, Switched}
use eda.Thread.Schedule.{next_queued}
use eda.Thread.Create.{unblocked}

-- Whether `t` is a live blocked thread other than the idle thread.
abbrev pub waits : Kernel → ℕ → Bool
waits k t = is_thread k t && (is_blocked (status_of k t) && not (t == k.idle_thread))

-- The kernel with interrupts on or off as told.
pub level-IsValid : {k : Kernel} (on : Bool) → IsValid k → IsValid (record k { intr_on = on })
level-IsValid on v = record {
  queued = record {
    idle_live = v.queued.idle_live;
    idle_stays = v.queued.idle_stays;
    current_live = v.queued.current_live;
    ready_all = v.queued.ready_all;
    distinct = v.queued.distinct;
  };
  running_only = v.running_only;
}

pub waits-unblocked :
    (k : Kernel) (t u : ℕ) → (u == t) ≡ false → waits k u ≡ true → waits (unblocked k t) u ≡ true
waits-unblocked k t u e h = ground arith

module _ {k k' : Kernel} (v : IsValid k) (ne : k.current ≢ k.idle_thread)
    (sw : Switched (set_status k k.current blocked) k') where
  -- The next thread is none of those that wait.
  not_next :
      (t : ℕ)
      → (t == k.idle_thread) ≡ false
      → is_ready (status_of k t) ≡ false
      → (t == k'.current) ≡ false
  not_next t out h = elim (Bool-cases (t == k'.current)) [
    | inr e ↦ e
    | inl e ↦
        let t_is : t ≡ next_thread k.idle_thread k.ready_list =
          (==_iff t k'.current).0 e ∙ sw.chosen in
        let queued : mem t k.ready_list ≡ true =
          rw t_is (next_queued k.idle_thread k.ready_list (rw t_is at out)) in
        absurd (ground (arith, v.queued.ready_all t))
  ]

  current_waits : waits k' k.current ≡ true
  current_waits =
      let runs : is_running (status_of k k.current) ≡ true =
        ground (arith, v.running_only k.current v.queued.current_live) in
      let out = not_next k.current (==-ne k.current k.idle_thread ne) (ground arith) in
      let live : is_thread k' k.current ≡ true =
        sw.live k.current (ground arith) ∙ ground (arith, v.queued.current_live) in
      let same : (k.current == k'.idle_thread) ≡ false =
        rw sw.same_idle (==-ne k.current k.idle_thread ne) in
      ground (arith, sw.statuses k.current)

  others_wait : (t : ℕ) → (t == k.current) ≡ false → waits k t ≡ true → waits k' t ≡ true
  others_wait t other h =
      let idle : (t == k.idle_thread) ≡ false = ground arith in
      let out = not_next t idle (ground arith) in
      let live : is_thread k' t ≡ true = sw.live t (ground arith) ∙ ground arith in
      let same : (t == k'.idle_thread) ≡ false = rw sw.same_idle idle in
      ground (arith, sw.statuses t)

  -- After the current thread has blocked, it waits, and so do those that waited before.
  pub waits-Switched :
      (t : ℕ) → (if t == k.current then true else waits k t) ≡ true → waits k' t ≡ true
  waits-Switched t h = elim (Bool-cases (t == k.current)) [
    | inl e ↦ rw ((==_iff t k.current).0 e) current_waits
    | inr e ↦ others_wait t e (ground arith)
  ]
