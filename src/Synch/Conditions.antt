-- ===== src/Synch/Conditions.antt =====
-- Condition variables: which threads a signal and a broadcast wake.
use eda.Prelude.{
  ℕ, ◌≡◌, refl, ◌∙◌, true, false, ◌==◌, ==_iff, List, [], ◌∷◌, ◌++◌, map, arith, Bool-cases, inl,
  inr, ok,
}
use mathlib.Core.List.{append_assoc, append-nil}
use eda.Prelude.Members.{mem, IsDistinct}
use eda.Thread.{Kernel}
use eda.Thread.Invariant.{IsValid}
use eda.Thread.Switch.{current-running}
use eda.Thread.Create.{IsCalm, unblocked}
use eda.Thread.Waiters.{waits, waits-unblocked}
use eda.Synch.{
  Semaphore, Lock, Condition, lock_held_by_current_thread, signal_first, cond_signal,
  broadcast_loop, cond_broadcast,
}
use eda.Synch.Sema.{IsSema, sema_up-raised}

-- The semaphore of a thread that waits for a signal.
abbrev pub unsignalled : ℕ → Semaphore
unsignalled t = record { value = 0; waiters = t ∷ [] }

-- The threads `ts` wait for a signal, in this order.
pub record IsCond (k : Kernel) (c : Condition) (ts : List ℕ) : Type 0 where
  pub elems : c.waiting ≡ map unsignalled ts
  pub distinct : IsDistinct ts
  pub asleep : (t : ℕ) → mem t ts ≡ true → waits k t ≡ true

-- The state of a thread that calls an operation of a condition variable: it holds the lock, outside an
-- external interrupt.
pub record Holds (k : Kernel) (l : Lock) : Type 0 where
  pub valid : IsValid k
  pub outside : k.in_external_intr ≡ false
  pub holder : l.holder ≡ k.current

pub IsCalm-held : {k : Kernel} {l : Lock} → Holds k l → IsCalm k
IsCalm-held h = ground (arith, h.outside)

one_waits : (k : Kernel) (t : ℕ) → waits k t ≡ true → IsSema k (unsignalled t)
unfolding mem
one_waits k t w = record {
  distinct = (refl, tt);
  waiting = λ u m. rw ((==_iff u t).0 (ground arith)) w;
}

signal_lem :
    {k : Kernel} (c : Condition) {l : Lock}
    → Holds k l
    → cond_signal k c l ≡ signal_first k c.waiting
signal_lem {k} c {l} h =
    let same : (l.holder == k.current) ≡ true = (==_iff l.holder k.current).1 h.holder in
    unfold cond_signal lock_held_by_current_thread in
    simp (h.outside, current-running h.valid, same)

rest_asleep :
    (k : Kernel) (t : ℕ) (ts : List ℕ)
    → IsDistinct (t ∷ ts)
    → ((u : ℕ) → mem u (t ∷ ts) ≡ true → waits k u ≡ true)
    → (u : ℕ) → mem u ts ≡ true
    → waits (unblocked k t) u ≡ true
unfolding mem
rest_asleep k t ts d h u m = elim (Bool-cases (u == t)) [
  | inl e ↦ absurd (ground (arith, d.0))
  | inr e ↦ waits-unblocked k t u e (h u (ground arith))
]

first_waits :
    (k : Kernel) (t : ℕ) (ts : List ℕ)
    → ((u : ℕ) → mem u (t ∷ ts) ≡ true → waits k u ≡ true)
    → waits k t ≡ true
unfolding mem
first_waits k t ts h = h t (ground arith)

-- `cond_signal` by the holder of the lock, where `t` is the first of the threads that wait for a
-- signal, makes that thread ready, raises its semaphore and leaves the others waiting.
pub cond_signal-IsCond :
    {k : Kernel} {c : Condition} {l : Lock} (t : ℕ) (ts : List ℕ)
    → Holds k l
    → IsCond k c (t ∷ ts)
    → (c' : Condition) × (cond_signal k c l
        ≡ ok (unblocked k t, c', record { value = 1; waiters = [] } ∷ []))
      × Holds (unblocked k t) l
      × IsCond (unblocked k t) c' ts
unfolding signal_first
cond_signal-IsCond {k} {c} {l} t ts h i =
    let (run, v, w) =
      sema_up-raised h.valid (IsCalm-held h) (one_waits k t (first_waits k t ts i.asleep)) in
    (
      record { waiting = map unsignalled ts },
      signal_lem c h ∙ rw i.elems (rw run refl),
      record { valid = v; outside = h.outside; holder = h.holder },
      record {
        elems = refl;
        distinct = i.distinct.1;
        asleep = rest_asleep k t ts i.distinct i.asleep;
      },
    )

-- The kernel after `ts` have been unblocked, one after the other.
abbrev pub all_unblocked : Kernel → List ℕ → Kernel
all_unblocked k [] = k
all_unblocked k (t ∷ ts) = all_unblocked (unblocked k t) ts

-- The semaphores of `ts`, each raised.
abbrev pub signalled : List ℕ → List Semaphore
signalled [] = []
signalled (t ∷ ts) = record { value = 1; waiters = [] } ∷ signalled ts

pub all_unblocked-queue :
    (k : Kernel) (ts : List ℕ) → (all_unblocked k ts).ready_list ≡ k.ready_list ++ ts
all_unblocked-queue k [] = simp append-nil
all_unblocked-queue k (t ∷ ts) =
    all_unblocked-queue (unblocked k t) ts ∙ append_assoc k.ready_list (t ∷ []) ts

broadcast_lem :
    (ts : List ℕ) {k : Kernel} {l : Lock}
    → Holds k l
    → IsDistinct ts
    → ((t : ℕ) → mem t ts ≡ true → waits k t ≡ true)
    → (broadcast_loop k (map unsignalled ts) l ≡ ok (all_unblocked k ts, signalled ts))
      × IsValid (all_unblocked k ts)
unfolding broadcast_loop
broadcast_lem [] h d w = (refl, h.valid)
broadcast_lem (t ∷ ts) {k} {l} h d w =
    let i : IsCond k (record { waiting = map unsignalled (t ∷ ts) }) (t ∷ ts) = record {
      elems = refl;
      distinct = d;
      asleep = w;
    } in
    let (c', run, h', i') = cond_signal-IsCond t ts h i in
    let (runs, v) = broadcast_lem ts h' d.1 i'.asleep in (rw run (rw runs refl), v)

-- `cond_broadcast` by the holder of the lock makes all threads that wait for a signal ready, in their
-- order behind the run queue, raises the semaphore of each and leaves no waiter.
pub cond_broadcast-IsCond :
    {k : Kernel} {c : Condition} {l : Lock} (ts : List ℕ)
    → Holds k l
    → IsCond k c ts
    → (k' : Kernel) × (cond_broadcast k c l ≡ ok (k', record { waiting = [] }, signalled ts))
      × IsValid k'
      × (k'.ready_list ≡ k.ready_list ++ ts)
unfolding cond_broadcast
cond_broadcast-IsCond {k} ts h i =
    let (run, v) = broadcast_lem ts h i.distinct i.asleep in
    (all_unblocked k ts, rw i.elems (rw run refl), v, all_unblocked-queue k ts)
