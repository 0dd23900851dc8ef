-- ===== src/Tests/BitmapTests.antt =====
-- Runs of lib/kernel/bitmap.c, and its theorems at a bitmap of forty bits.
use eda.Prelude.{ℕ, ◌≡◌, refl, true, false, [], ◌∷◌, arith, ok, panic}
use eda.Bitmap.{
  Bitmap, bitmap_error, bitmap_set, bitmap_test, bitmap_flip, bitmap_set_multiple, bitmap_count,
  bitmap_contains, bitmap_scan, bitmap_scan_and_flip, bitmap_create, bitmap_create_in_buf,
  bitmap_all,
}
use eda.Bitmap.Bit
use eda.Bitmap.Bit.{holds, Rewrites, bitmap_test-holds, bitmap_set-Rewrites, bitmap_flip-Rewrites}
use eda.Bitmap.Scan.{Scanned, flipped, bitmap_scan-Scanned, bitmap_scan_and_flip-flipped}

-- Bits 1, 2 and 33 are set.
abbrev forty : Bitmap
forty = record { bit_cnt = 40; bits = 6 ∷ 2 ∷ [] }

forty-IsValid : Bit.IsValid forty
forty-IsValid = omega arith

set_runs : bitmap_set forty 34 true ≡ ok (record { bit_cnt = 40; bits = 6 ∷ 6 ∷ [] })
unfolding bitmap_set
set_runs = unfold eda.Bitmap.bitmap_mark eda.Bitmap.modify in refl

scan_runs : bitmap_scan forty 0 3 false ≡ ok 3
scan_runs =
    unfold bitmap_scan eda.Bitmap.scan_loop bitmap_contains eda.Bitmap.contains_loop bitmap_test in
    refl

set_out_of_range : bitmap_set forty 40 true ≡ panic
set_out_of_range = unfold bitmap_set in refl

bitmap_scan-Scanned_example :
    (idx : ℕ) × (bitmap_scan forty 1 4 false ≡ ok idx) × Scanned forty 1 4 false idx
bitmap_scan-Scanned_example = bitmap_scan-Scanned forty-IsValid 4 false 1 (omega arith)

bitmap_scan_and_flip-flipped_example :
    (idx : ℕ) × (b' : Bitmap) × (bitmap_scan_and_flip forty 0 4 false ≡ ok (idx, b'))
    × Scanned forty 0 4 false idx
    × Rewrites forty (flipped forty idx 4 false) b'
bitmap_scan_and_flip-flipped_example =
    bitmap_scan_and_flip-flipped forty-IsValid 4 false 0 (omega arith)
