-- ===== src/Tests/StringsTests.antt =====
-- The theorems on lib/string.c at a memory that holds "AB" at address 16.
use eda.Prelude.{ℕ, ◌≡◌, arith, ◌==◌, if◌then◌else◌, ok}
use eda.Palloc.{Memory}
use eda.Strings.{memmove}
use eda.Strings.Blocks.{moved, memmove-moved}

abbrev page : Memory
page a = if a == 16 then 65 else if a == 17 then 66 else 0

memmove-moved_example :
    (m' : Memory) × (memmove page 17 16 2 ≡ ok (17, m')) × ((a : ℕ) → m' a ≡ moved page 17 16 2 a)
memmove-moved_example = memmove-moved page 17 16 2 (omega arith) (omega arith)
