-- ===== src/Thread/Invariant.antt =====
-- What holds of the thread table and the run queue between the kernel's operations.
use eda.Prelude.{ℕ, ◌≡◌, ◌&&◌, true, false, not, ◌==◌, if◌then◌else◌}
use eda.Prelude.Members.{mem, IsDistinct}
use eda.Thread.{
  running, is_running, is_ready, is_dying, Kernel, status_of, is_thread, next_thread, rest_of,
}

-- The run queue holds each ready thread once, and no other; the idle thread is not on it.
pub record IsQueued (k : Kernel) : Type 0 where
  pub idle_live : is_thread k k.idle_thread ≡ true
  pub idle_stays : is_dying (status_of k k.idle_thread) ≡ false
  pub current_live : is_thread k k.current ≡ true
  pub ready_all :
      (t : ℕ)
      → mem t k.ready_list
        ≡ (is_thread k t && (is_ready (status_of k t) && not (t == k.idle_thread)))
  pub distinct : IsDistinct k.ready_list

-- Moreover the current thread runs, and no other.
pub record IsValid (k : Kernel) : Type 0 where
  pub queued : IsQueued k
  pub running_only : (t : ℕ) → is_thread k t ≡ true → is_running (status_of k t) ≡ (t == k.current)

-- The state in which `schedule` is called: the current thread has just stopped to run.
pub record IsSuspended (k : Kernel) : Type 0 where
  pub queued : IsQueued k
  pub off : k.intr_on ≡ false
  pub none_running : (t : ℕ) → is_thread k t ≡ true → is_running (status_of k t) ≡ false

-- The processor has passed from the state `k` to the first thread of the run queue, or to the idle
-- thread; all other threads are as in `k`, but the page of a thread that was dying is given back,
-- unless it is the initial thread.
pub record Switched (k k' : Kernel) : Type 0 where
  pub valid : IsValid k'
  pub chosen : k'.current ≡ next_thread k.idle_thread k.ready_list
  pub off : k'.intr_on ≡ false
  pub statuses : (t : ℕ) → status_of k' t ≡ (if t == k'.current then running else status_of k t)
  pub alarms : (t : ℕ) → (k'.threads t).alarm_tick ≡ (k.threads t).alarm_tick
  pub live : (t : ℕ) → is_dying (status_of k t) ≡ false → is_thread k' t ≡ is_thread k t
  pub freed :
      is_dying (status_of k k.current) ≡ true
      → is_thread k' k.current ≡ (k.current == k.initial_thread)
  pub queue : k'.ready_list ≡ rest_of k.ready_list
  pub same_all : k'.all_list ≡ k.all_list
  pub same_idle : k'.idle_thread ≡ k.idle_thread
  pub same_context : k'.in_external_intr ≡ k.in_external_intr
  pub slice : k'.thread_ticks ≡ 0
