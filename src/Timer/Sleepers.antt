-- ===== src/Timer/Sleepers.antt =====
-- The list of sleeping threads of the alarm clock, and its invariant.
use eda.Prelude.{
  ℕ, ◌^◌, ◌<◌, ◌≡◌, refl, ◌&&◌, true, false, not, ◌==◌, ==-ne, List, [], ◌∷◌, arith, Bool-cases,
  ==_iff, inl, inr,
}
use eda.Prelude.Members.{mem, IsDistinct}
use eda.Thread.{is_blocked, Kernel, status_of, is_thread}
use eda.Thread.Invariant.{IsValid}
use eda.Timer.{Timer}
use eda.Timer.Wake.{is_waking, waking, asleep, Sleepers}

-- The alarm clock between interrupts: the list holds distinct blocked threads, each with an alarm in
-- the future.
pub record IsTimer (s : Timer) : Type 0 where
  pub kernel : IsValid s.kernel
  pub distinct : IsDistinct s.blocked_threads
  pub sleepers : Sleepers s.kernel s.blocked_threads
  pub sleeping : (t : ℕ) → mem t s.blocked_threads ≡ true → is_blocked (status_of s.kernel t) ≡ true
  pub ahead :
      (t : ℕ)
      → mem t s.blocked_threads ≡ true
      → (s.ticks < (s.kernel.threads t).alarm_tick) × ((s.kernel.threads t).alarm_tick < 2 ^ 31)

module _ (ticks : ℕ) (k : Kernel) where
  pub mem-asleep :
      (t : ℕ) (ts : List ℕ) → mem t (asleep ticks k ts) ≡ (mem t ts && not (is_waking ticks k t))
  unfolding mem asleep
  mem-asleep t [] = refl
  mem-asleep t (x ∷ xs) = ground (arith, mem-asleep t xs)

  pub mem-waking :
      (t : ℕ) (ts : List ℕ) → mem t (waking ticks k ts) ≡ (mem t ts && is_waking ticks k t)
  unfolding mem waking
  mem-waking t [] = refl
  mem-waking t (x ∷ xs) = ground (arith, mem-waking t xs)

  pub IsDistinct-asleep : (ts : List ℕ) → IsDistinct ts → IsDistinct (asleep ticks k ts)
  unfolding asleep
  IsDistinct-asleep [] d = tt
  IsDistinct-asleep (x ∷ xs) d = elim (Bool-cases (is_waking ticks k x)) [
    | inl e ↦ rw e (IsDistinct-asleep xs d.1)
    | inr e ↦ rw e (ground (arith, mem-asleep x xs), IsDistinct-asleep xs d.1)
  ]

  pub Sleepers-asleep : (ts : List ℕ) → Sleepers k ts → Sleepers k (asleep ticks k ts)
  unfolding asleep
  Sleepers-asleep [] s = tt
  Sleepers-asleep (x ∷ xs) s = elim (Bool-cases (is_waking ticks k x)) [
    | inl e ↦ rw e (Sleepers-asleep xs s.2)
    | inr e ↦ rw e (s.0, s.1, Sleepers-asleep xs s.2)
  ]

pub live_of_mem :
    (k : Kernel) (ts : List ℕ)
    → Sleepers k ts
    → (t : ℕ) → mem t ts ≡ true
    → (is_thread k t ≡ true) × ((t == k.idle_thread) ≡ false)
unfolding mem
live_of_mem k [] p t m = cc
live_of_mem k (x ∷ xs) p t m = elim (Bool-cases (t == x)) [
  | inl e ↦ rw ((==_iff t x).0 e) (p.0, ==-ne x k.idle_thread p.1)
  | inr e ↦ live_of_mem k xs p.2 t (ground arith)
]
