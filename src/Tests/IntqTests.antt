-- ===== src/Tests/IntqTests.antt =====
-- The theorems on devices/intq.c at the kernel of four threads, where thread 4 waits for room.
use eda.Prelude.{ℕ, ◌≡◌, refl, true, [], ◌∷◌, arith, some, ok}
use eda.Thread.{Kernel}
use eda.Thread.Invariant
use eda.Thread.Invariant.{Switched}
use eda.Intq.{Intq, intq_init, intq_getc, intq_putc}
use eda.Intq.Queue.{IsIntq, contents, alerted, intq_putc-contents, intq_getc-contents}
use eda.Tests.ThreadTests.{four, four-IsValid}

-- Two bytes, around the end of the buffer.
abbrev two : Intq
two = record (intq_init (λ a. a)) { not_full = 4; head = 1; tail = 63 }

two-IsIntq : IsIntq four two
two-IsIntq = record {
  head_lt = omega arith;
  tail_lt = omega arith;
  reader = λ ne. absurd (ne refl);
  writer = λ ne. refl;
  apart = λ ne. absurd (ne refl);
}

abbrev nothing : Intq
nothing = record (intq_init (λ a. a)) { not_full = 0 }

two-contents : contents two ≡ 63 ∷ 0 ∷ []
two-contents = refl

intq_putc-contents_example :
    (k' : Kernel) × (q' : Intq) × (intq_putc four two 7 ≡ ok (true, k', q'))
    × (contents q' ≡ 63 ∷ 0 ∷ 7 ∷ [])
    × (k' ≡ alerted four 0)
    × Invariant.IsValid k'
    × IsIntq k' q'
intq_putc-contents_example = intq_putc-contents four-IsValid two-IsIntq refl 7 (omega arith)

intq_getc-contents_example :
    (byte : ℕ) × (k' : Kernel) × (q' : Intq) × (intq_getc four two ≡ ok (some byte, k', q'))
    × (contents two ≡ byte ∷ contents q')
    × (k' ≡ alerted four 4)
    × Invariant.IsValid k'
    × IsIntq k' q'
intq_getc-contents_example = intq_getc-contents four-IsValid two-IsIntq refl (omega arith)
