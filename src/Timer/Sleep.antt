-- ===== src/Timer/Sleep.antt =====
-- `timer_sleep`: how a thread goes to sleep.
use eda.Prelude.{
  ℕ, ◌+◌, ◌%◌, ◌^◌, ◌<◌, ◌≡◌, ◌≢◌, refl, ◌∙◌, ◌||◌, true, false, leb, ◌==◌, ==-ne, List, [], ◌∷◌,
  arith, Bool-cases, ==_iff, inl, inr, ok,
}
use eda.Prelude.Members.{mem}
use eda.Thread.{
  blocked, is_running, is_ready, is_blocked, Kernel, status_of, set_status, next_thread,
  intr_set_level, thread_block,
}
use eda.Thread.Invariant.{IsValid, Switched}
use eda.Thread.Schedule.{next_queued}
use eda.Thread.Switch.{current-running, thread_block-Switched}
use eda.Timer.{Timer, set_alarm, timer_sleep}
use eda.Timer.Wake.{Sleepers}
use eda.Timer.Sleepers.{IsTimer, live_of_mem}
use eda.Timer.Tables.{blocked_not_dying}

module _ {s : Timer} (v : IsTimer s) (alarm : ℕ)
    (ne : s.kernel.current ≢ s.kernel.idle_thread) where
  abbrev pub cur : ℕ
  cur = s.kernel.current

  -- The kernel when `timer_sleep` blocks the current thread.
  abbrev pub armed : Kernel
  armed = record (set_alarm s.kernel cur alarm) { intr_on = false }

  pub armed-IsValid : IsValid armed
  armed-IsValid = record {
    queued = record {
      idle_live = ground (arith, v.kernel.queued.idle_live);
      idle_stays = ground (arith, v.kernel.queued.idle_stays);
      current_live = ground (arith, v.kernel.queued.current_live);
      ready_all = λ t. ground (arith, v.kernel.queued.ready_all t);
      distinct = v.kernel.queued.distinct;
    };
    running_only = λ t l. ground (arith, v.kernel.running_only t);
  }

  pub cur-running : is_running (status_of s.kernel cur) ≡ true
  cur-running = ground (arith, v.kernel.running_only cur v.kernel.queued.current_live)

  pub cur_new : mem cur s.blocked_threads ≡ false
  cur_new = elim (Bool-cases (mem cur s.blocked_threads)) [
    | inr e ↦ e
    | inl e ↦ absurd (ground (arith, v.sleeping cur e, cur-running))
  ]

  module _ {k' : Kernel} (sw : Switched (set_status armed cur blocked) k') where
    -- The next thread is none of the sleepers.
    pub not_next :
        (t : ℕ)
        → (t == s.kernel.idle_thread) ≡ false
        → is_ready (status_of s.kernel t) ≡ false
        → (t == k'.current) ≡ false
    not_next t out h = elim (Bool-cases (t == k'.current)) [
      | inr e ↦ e
      | inl e ↦
          let t_is : t ≡ next_thread s.kernel.idle_thread s.kernel.ready_list =
            (==_iff t k'.current).0 e ∙ sw.chosen in
          let queued : mem t s.kernel.ready_list ≡ true =
            rw t_is (next_queued s.kernel.idle_thread s.kernel.ready_list (rw t_is at out)) in
          absurd (ground (arith, v.kernel.queued.ready_all t))
    ]

    abbrev pub after_sleep : Timer
    after_sleep = record s { kernel = k'; blocked_threads = cur ∷ s.blocked_threads }

    pub cur-blocked : is_blocked (status_of k' cur) ≡ true
    cur-blocked =
        let out = not_next cur (==-ne cur s.kernel.idle_thread ne) (ground (arith, cur-running)) in
        ground (arith, sw.statuses cur)

    pub old-blocked : (t : ℕ) → mem t s.blocked_threads ≡ true → is_blocked (status_of k' t) ≡ true
    old-blocked t m =
        let (live, other) = live_of_mem s.kernel s.blocked_threads v.sleepers t m in
        let out = not_next t other (ground (arith, v.sleeping t m)) in
        ground (arith, sw.statuses t, v.sleeping t m)

    pub Sleepers-after :
        (ts : List ℕ)
        → ((t : ℕ) → mem t ts ≡ true → mem t s.blocked_threads ≡ true)
        → Sleepers s.kernel ts
        → Sleepers k' ts
    unfolding mem
    Sleepers-after [] h p = tt
    Sleepers-after (x ∷ xs) h p = (
      sw.live x (blocked_not_dying _ (ground (arith, v.sleeping x (h x (ground arith)))))
          ∙ ground (arith, p.0),
      λ e. p.1 (e ∙ sw.same_idle),
      Sleepers-after xs (λ t g. h t (ground arith)) p.2,
    )

    pub after_sleep-IsTimer : s.ticks < alarm → alarm < 2 ^ 31 → IsTimer after_sleep
    unfolding mem
    after_sleep-IsTimer lo hi = record {
      kernel = sw.valid;
      distinct = (cur_new, v.distinct);
      sleepers = (
        sw.live cur (ground arith) ∙ ground (arith, v.kernel.queued.current_live),
        λ e. ne (e ∙ sw.same_idle),
        Sleepers-after s.blocked_threads (λ t m. m) v.sleepers,
      );
      sleeping = λ t m. elim (Bool-cases (t == cur)) [
        | inl e ↦ rw ((==_iff t cur).0 e) cur-blocked
        | inr e ↦ old-blocked t (ground arith)
      ];
      ahead = λ t m. elim (Bool-cases (t == cur)) [
        | inl e ↦ (ground (arith, sw.alarms t), ground (arith, sw.alarms t))
        | inr e ↦
            let (l, h) = v.ahead t (ground arith) in
            (ground (arith, sw.alarms t), ground (arith, sw.alarms t))
      ];
    }

pub timer_sleep_lem :
    {s : Timer} (v : IsTimer s) (n : ℕ) {k' : Kernel}
    → 0 < n
    → s.ticks + n < 2 ^ 31
    → thread_block (record (set_alarm s.kernel s.kernel.current (s.ticks + n)) { intr_on = false })
      ≡ ok k'
    → timer_sleep s n true
      ≡ ok (record s { kernel = k'; blocked_threads = s.kernel.current ∷ s.blocked_threads })
unfolding timer_sleep intr_set_level
timer_sleep_lem {s} v n pos soon run =
    let some_ticks : (n == 0 || leb (2 ^ 63) n) ≡ false = ground arith in
    let fits : (s.ticks + n) % 2 ^ 64 % 2 ^ 32 ≡ s.ticks + n = omega arith in
    rw some_ticks (rw (current-running v.kernel) (rw fits (rw run refl)))

-- What a call of `timer_sleep` makes of the alarm clock.
pub record Slept (s : Timer) (n : ℕ) (s' : Timer) : Type 0 where
  pub valid : IsTimer s'
  pub listed : s'.blocked_threads ≡ s.kernel.current ∷ s.blocked_threads
  pub alarm : (s'.kernel.threads s.kernel.current).alarm_tick ≡ s.ticks + n
  pub asleep : is_blocked (status_of s'.kernel s.kernel.current) ≡ true
  pub same_ticks : s'.ticks ≡ s.ticks
  pub outside : s'.kernel.in_external_intr ≡ false
  pub alarms :
      (t : ℕ)
      → mem t s.blocked_threads ≡ true
      → (s'.kernel.threads t).alarm_tick ≡ (s.kernel.threads t).alarm_tick

pub timer_sleep-Slept :
    {s : Timer} (v : IsTimer s) (n : ℕ)
    → 0 < n
    → s.ticks + n < 2 ^ 31
    → s.kernel.in_external_intr ≡ false
    → s.kernel.current ≢ s.kernel.idle_thread
    → (s' : Timer) × (timer_sleep s n true ≡ ok s') × Slept s n s'
timer_sleep-Slept {s} v n pos soon ext ne =
    let (k', run, sw) = thread_block-Switched (armed-IsValid v (s.ticks + n) ne) refl ext in
    (
      after_sleep v (s.ticks + n) ne sw,
      timer_sleep_lem v n pos soon run,
      record {
        valid = after_sleep-IsTimer v (s.ticks + n) ne sw (omega arith) soon;
        listed = refl;
        alarm = ground (arith, sw.alarms s.kernel.current);
        asleep = cur-blocked v (s.ticks + n) ne sw;
        same_ticks = refl;
        outside = sw.same_context ∙ ext;
        alarms = λ t m. elim (Bool-cases (t == s.kernel.current)) [
          | inl e ↦
              absurd (ground (arith, cur_new v (s.ticks + n) ne, (==_iff t s.kernel.current).0 e))
          | inr e ↦ ground (arith, sw.alarms t)
        ];
      },
    )

-- `timer_sleep` of a positive number of ticks that ends before tick 2 ^ 31 returns: the current thread,
-- not the idle thread, is blocked and on the list with its alarm that many ticks ahead, another thread
-- has the processor, and the invariant is kept.
pub timer_sleep-IsTimer :
    {s : Timer} (v : IsTimer s) (n : ℕ)
    → 0 < n
    → s.ticks + n < 2 ^ 31
    → s.kernel.in_external_intr ≡ false
    → s.kernel.current ≢ s.kernel.idle_thread
    → (s' : Timer) × (timer_sleep s n true ≡ ok s')
      × IsTimer s'
      × (s'.blocked_threads ≡ s.kernel.current ∷ s.blocked_threads)
      × ((s'.kernel.threads s.kernel.current).alarm_tick ≡ s.ticks + n)
      × (is_blocked (status_of s'.kernel s.kernel.current) ≡ true)
timer_sleep-IsTimer v n pos soon ext ne =
    let (s', run, t) = timer_sleep-Slept v n pos soon ext ne in
    (s', run, t.valid, t.listed, t.alarm, t.asleep)
