-- ===== src/Tests/FreeMapTests.antt =====
-- The theorems on filesys/free-map.c at a map of five sectors, the first two in use.
use eda.Prelude.{ℕ, ◌≡◌, refl, true, false, [], ◌∷◌, arith, Option, some, ok}
use eda.Bitmap.Bit.{IsValid}
use eda.FreeMap.{FreeMap, free_map_init, free_map_allocate, free_map_release}
use eda.FreeMap.Sectors.{Allocated, free_map_allocate-Allocated}

abbrev five : FreeMap
five = record { free_map = record { bit_cnt = 5; bits = 3 ∷ [] }; is_open = true }

five-IsValid : IsValid five.free_map
five-IsValid = record { room = omega arith; small = omega arith }

init_runs : free_map_init 5 true (some (9 ∷ [])) ≡ ok (record five { is_open = false })
init_runs =
    unfold free_map_init eda.FreeMap.mark_reserved eda.Bitmap.bitmap_create
      eda.Bitmap.bitmap_set_all eda.Bitmap.bitmap_set_multiple eda.Bitmap.set_loop
      eda.Bitmap.bitmap_set eda.Bitmap.bitmap_mark eda.Bitmap.bitmap_reset eda.Bitmap.modify in
    refl

free_map_allocate-Allocated_example :
    (o : Option ℕ) × (m' : FreeMap) × (free_map_allocate five 2 true ≡ ok (o, m'))
    × Allocated five 2 true o m'
free_map_allocate-Allocated_example = free_map_allocate-Allocated five five-IsValid 2 true
