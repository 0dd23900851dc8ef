-- ===== src/Tests/PallocTests.antt =====
-- The theorems on threads/palloc.c at two pools of three pages.
use eda.Prelude.{
  ℕ, ◌+◌, ◌<◌, ◌≤◌, ◌≡◌, ◌≢◌, refl, inl, Bool, true, false, List, [], ◌∷◌, arith, ◌==◌,
  if◌then◌else◌, Result, ok, panic,
}
use eda.Palloc.{
  Memory, Pool, Palloc, palloc_get_multiple, palloc_free_multiple, palloc_init, memset,
}
use eda.Palloc.State.{IsValid, in_use}
use eda.Palloc.Get.{Got, palloc_get_multiple-Got}
use eda.Palloc.Free.{GivesBack, palloc_free_multiple-panic, palloc_free_multiple-get}
use eda.Palloc.Init.{palloc_init-IsValid}

-- The first page of the pool at 0x10000 is in use, none of the pool at 0x20000.
abbrev pools : Palloc
pools = record {
  kernel_pool = record { used_map = record { bit_cnt = 3; bits = 1 ∷ [] }; base = 0x10000 };
  user_pool = record { used_map = record { bit_cnt = 3; bits = 0 ∷ [] }; base = 0x20000 };
  memory = λ a. 0;
}

pools-IsValid : IsValid pools
pools-IsValid = omega arith

-- After two pages were taken from the kernel's pool.
abbrev taken : Palloc
taken = record pools {
  kernel_pool = record { used_map = record { bit_cnt = 3; bits = 7 ∷ [] }; base = 0x10000 };
}

get_runs : palloc_get_multiple pools 0 2 ≡ ok (0x11000, taken)
get_runs =
    unfold palloc_get_multiple eda.Palloc.finish_get eda.Bitmap.bitmap_scan_and_flip
      eda.Bitmap.bitmap_scan eda.Bitmap.scan_loop eda.Bitmap.bitmap_contains
      eda.Bitmap.contains_loop eda.Bitmap.bitmap_test eda.Bitmap.bitmap_set_multiple
      eda.Bitmap.set_loop eda.Bitmap.bitmap_set eda.Bitmap.bitmap_mark eda.Bitmap.modify in
    refl

palloc_get_multiple-Got_example : Got pools 4 2 (palloc_get_multiple pools 4 2)
palloc_get_multiple-Got_example = palloc_get_multiple-Got pools-IsValid 4 2 (omega arith)

palloc_free_multiple-panic_example : palloc_free_multiple pools 0x10000 2 ≡ panic
palloc_free_multiple-panic_example =
    palloc_free_multiple-panic pools-IsValid 0x10000 2 refl (omega arith) (inl (omega arith)) 17
      refl (unfold eda.Bitmap.Bit.holds eda.Prelude.Bits.bit in refl)

palloc_free_multiple-get_example : GivesBack pools 2 0x11000 taken
palloc_free_multiple-get_example =
    palloc_free_multiple-get pools-IsValid 0 2 (omega arith) get_runs (omega arith)

palloc_init-IsValid_example :
    (s : Palloc) × (palloc_init (λ a. 0) 1024 100 ≡ ok s)
    × IsValid s
    × ((n : ℕ) → in_use s n ≡ false)
palloc_init-IsValid_example =
    palloc_init-IsValid (λ a. 0) 1024 100 (omega arith) (omega arith) (omega arith)
