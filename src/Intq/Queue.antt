-- ===== src/Intq/Queue.antt =====
-- The buffer as a first-in first-out queue of bytes.
use eda.Prelude.{
  ℕ, zero, suc, ◌+◌, ◌-◌, ◌%◌, ◌<◌, ◌≡◌, ◌≢◌, refl, sym, ◌∙◌, ap, true, false, ◌==◌, ==-ne, ==_iff,
  List, [], ◌∷◌, ◌++◌, arith, Bool-cases, inl, inr, if◌then◌else◌, some, ok,
}
use eda.Prelude.Members.{update}
use eda.Thread.{Kernel}
use eda.Thread.Invariant.{IsValid}
use eda.Thread.Create.{unblocked, unblocked-IsValid, thread_unblock_lem}
use eda.Thread.Waiters.{waits, waits-unblocked}
use eda.Intq.{Intq, next, intq_empty, intq_full, signal, take_byte, intq_getc, put_byte, intq_putc}

-- The `n` bytes from position `pos` on, around the end of the buffer.
abbrev pub read_from : (ℕ → ℕ) → ℕ → ℕ → List ℕ
read_from buf pos zero = []
read_from buf pos (suc n) = buf (pos % 64) ∷ read_from buf (pos + 1) n

abbrev pub used : Intq → ℕ
used q = (q.head + 64 - q.tail) % 64

-- The bytes in the queue, the oldest first.
abbrev pub contents : Intq → List ℕ
contents q = read_from q.buf q.tail (used q)

-- The positions lie in the buffer; a waiting thread is blocked, and waits for one condition only.
pub record IsIntq (k : Kernel) (q : Intq) : Type 0 where
  pub head_lt : q.head < 64
  pub tail_lt : q.tail < 64
  pub reader : q.not_empty ≢ 0 → waits k q.not_empty ≡ true
  pub writer : q.not_full ≢ 0 → waits k q.not_full ≡ true
  pub apart : q.not_empty ≢ 0 → (q.not_full == q.not_empty) ≡ false

read_from-snoc :
    (buf : ℕ → ℕ) (pos n : ℕ)
    → read_from buf pos (suc n) ≡ read_from buf pos n ++ (buf ((pos + n) % 64) ∷ [])
read_from-snoc buf pos zero = let e : pos + 0 ≡ pos = omega arith in rw e refl
read_from-snoc buf pos (suc n) =
    let e : pos + 1 + n ≡ pos + suc n = omega arith in
    ap (λ l. buf (pos % 64) ∷ l) (read_from-snoc buf (pos + 1) n ∙ rw e refl)

read_from-mod : (buf : ℕ → ℕ) (pos n : ℕ) → read_from buf (pos % 64) n ≡ read_from buf pos n
read_from-mod buf pos zero = refl
read_from-mod buf pos (suc n) =
    let e : pos % 64 % 64 ≡ pos % 64 = omega arith in
    let e2 : (pos % 64 + 1) % 64 ≡ (pos + 1) % 64 = omega arith in
    let tails : read_from buf (pos % 64 + 1) n ≡ read_from buf (pos + 1) n =
      sym (read_from-mod buf (pos % 64 + 1) n)
      ∙ ap (λ p. read_from buf p n) e2
      ∙ read_from-mod buf (pos + 1) n in
    ap (λ p. buf p ∷ read_from buf (pos % 64 + 1) n) e ∙ ap (λ l. buf (pos % 64) ∷ l) tails

read_from-update :
    (buf : ℕ → ℕ) (h byte pos n : ℕ)
    → ((i : ℕ) → i < n → (pos + i) % 64 ≢ h)
    → read_from (update buf h byte) pos n ≡ read_from buf pos n
read_from-update buf h byte pos zero out = refl
read_from-update buf h byte pos (suc n) out =
    let here : (pos % 64 == h) ≡ false =
      ==-ne (pos % 64) h (λ e. out 0 (omega arith) (omega (arith, e))) in
    let there : read_from (update buf h byte) (pos + 1) n ≡ read_from buf (pos + 1) n =
      read_from-update buf h byte (pos + 1) n
        (λ i lt e. out (i + 1) (omega arith) (omega (arith, e))) in
    rw (here, there) refl

-- The kernel after the waiter, if there is one, has been unblocked.
abbrev pub alerted : Kernel → ℕ → Kernel
alerted k waiter = if waiter == 0 then k else unblocked k waiter

signal_lem :
    (k : Kernel) (waiter : ℕ)
    → k.intr_on ≡ false
    → (waiter ≢ 0 → waits k waiter ≡ true)
    → signal k true waiter ≡ ok (alerted k waiter)
signal_lem k waiter off h = elim (Bool-cases (waiter == 0)) [
  | inl e ↦ unfold signal in simp (off, e)
  | inr e ↦
      let w = h (λ z. absurd (ground arith)) in
      unfold signal in
      simp (off, e, thread_unblock_lem k waiter (ground arith) (ground arith) (ground arith))
]

alerted-IsValid :
    {k : Kernel} (waiter : ℕ)
    → IsValid k
    → (waiter ≢ 0 → waits k waiter ≡ true)
    → IsValid (alerted k waiter)
alerted-IsValid {k} waiter v h = elim (Bool-cases (waiter == 0)) [
  | inl e ↦ rw e v
  | inr e ↦
      let w = h (λ z. absurd (ground arith)) in
      rw e (unblocked-IsValid waiter v (ground arith) (ground arith) (ground arith))
]

alerted-waits :
    (k : Kernel) (waiter u : ℕ)
    → (waiter ≢ 0 → (u == waiter) ≡ false)
    → waits k u ≡ true
    → waits (alerted k waiter) u ≡ true
alerted-waits k waiter u ne h = elim (Bool-cases (waiter == 0)) [
  | inl e ↦ rw e h
  | inr e ↦ rw e (waits-unblocked k waiter u (ne (λ z. absurd (ground arith))) h)
]

module _ {k : Kernel} {q : Intq} (v : IsValid k) (i : IsIntq k q) (off : k.intr_on ≡ false) where
  module _ (byte : ℕ) (room : next q.head ≢ q.tail) where
    -- The queue after `intq_putc`.
    abbrev pub after_put : Intq
    after_put = record q { buf = update q.buf q.head byte; head = next q.head; not_empty = 0 }

    put_lem : intq_putc k q byte ≡ ok (true, alerted k q.not_empty, after_put)
    put_lem =
        let full : (next q.head == q.tail) ≡ false = ==-ne (next q.head) q.tail room in
        unfold intq_putc intq_full put_byte in
        simp (off, full, signal_lem k q.not_empty off i.reader)

    put-contents : contents after_put ≡ contents q ++ (byte ∷ [])
    put-contents =
        let h = i.head_lt in
        let t = i.tail_lt in
        let more : (next q.head + 64 - q.tail) % 64 ≡ suc (used q) = omega arith in
        let last : (q.tail + used q) % 64 ≡ q.head = omega arith in
        let here : (q.head == q.head) ≡ true = (==_iff q.head q.head).1 refl in
        rw more (
          read_from-snoc (update q.buf q.head byte) q.tail (used q)
          ∙ rw (last, here)
              (ap (λ l. l ++ (byte ∷ []))
                (read_from-update q.buf q.head byte q.tail (used q) (λ j lt e. omega arith))))

    put-IsIntq : IsIntq (alerted k q.not_empty) after_put
    put-IsIntq = record {
      head_lt = omega arith;
      tail_lt = i.tail_lt;
      reader = λ ne. absurd (ne refl);
      writer = λ ne. alerted-waits k q.not_empty q.not_full i.apart (i.writer ne);
      apart = λ ne. absurd (ne refl);
    }

    -- `intq_putc` with interrupts off on a queue that is not full puts the byte behind the others, wakes
    -- the thread that waits for a byte, if there is one, and keeps kernel and queue valid.
    pub intq_putc-contents :
        (k' : Kernel) × (q' : Intq) × (intq_putc k q byte ≡ ok (true, k', q'))
        × (contents q' ≡ contents q ++ (byte ∷ []))
        × (k' ≡ alerted k q.not_empty)
        × IsValid k'
        × IsIntq k' q'
    intq_putc-contents = (
      alerted k q.not_empty,
      after_put,
      put_lem,
      put-contents,
      refl,
      alerted-IsValid q.not_empty v i.reader,
      put-IsIntq,
    )

  module _ (some_byte : q.head ≢ q.tail) where
    -- The queue after `intq_getc`.
    abbrev pub after_get : Intq
    after_get = record q { tail = next q.tail; not_full = 0 }

    get_lem : intq_getc k q ≡ ok (some (q.buf q.tail), alerted k q.not_full, after_get)
    get_lem =
        let empty : (q.head == q.tail) ≡ false = ==-ne q.head q.tail some_byte in
        let h = i.head_lt in
        let t = i.tail_lt in
        let room : (next q.head == next q.tail) ≡ false =
          ==-ne (next q.head) (next q.tail) (λ e. some_byte (omega (arith, e))) in
        unfold intq_getc intq_empty take_byte in
        simp (off, empty, room, signal_lem k q.not_full off i.writer)

    get-contents : contents q ≡ q.buf q.tail ∷ contents after_get
    get-contents =
        let h = i.head_lt in
        let t = i.tail_lt in
        let more : used q ≡ suc ((q.head + 64 - next q.tail) % 64) = omega arith in
        let first : q.tail % 64 ≡ q.tail = omega arith in
        rw (more, first)
          (ap (λ l. q.buf q.tail ∷ l)
            (sym (read_from-mod q.buf (q.tail + 1) ((q.head + 64 - next q.tail) % 64))))

    get-IsIntq : IsIntq (alerted k q.not_full) after_get
    get-IsIntq = record {
      head_lt = i.head_lt;
      tail_lt = omega arith;
      reader = λ ne.
          alerted-waits k q.not_full q.not_empty (λ z. ground (arith, i.apart ne)) (i.reader ne);
      writer = λ ne. absurd (ne refl);
      apart = λ ne. ground (arith, ne);
    }

    -- `intq_getc` with interrupts off on a queue that is not empty returns the oldest byte and takes it
    -- off, wakes the thread that waits for room, if there is one, and keeps kernel and queue valid.
    pub intq_getc-contents :
        (byte : ℕ) × (k' : Kernel) × (q' : Intq) × (intq_getc k q ≡ ok (some byte, k', q'))
        × (contents q ≡ byte ∷ contents q')
        × (k' ≡ alerted k q.not_full)
        × IsValid k'
        × IsIntq k' q'
    intq_getc-contents = (
      q.buf q.tail,
      alerted k q.not_full,
      after_get,
      get_lem,
      get-contents,
      refl,
      alerted-IsValid q.not_full v i.writer,
      get-IsIntq,
    )
