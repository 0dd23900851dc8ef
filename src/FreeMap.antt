-- ===== src/FreeMap.antt =====
-- mount/lab2/pintos/src/filesys/free-map.c: the sectors of the file system that are in use. Whether
-- `bitmap_write` could write the map to its file is an argument; the file itself is left out.
pub mod Sectors
use eda.Prelude.{
  ℕ, ◌&&◌, Bool, true, false, not, List, Option, none, some, ◌==◌, if◌then◌else◌, Result, ok, panic,
  ◌>>=◌, ◌>>◌, assert,
}
use eda.Bitmap.{
  Bitmap, bitmap_error, bitmap_create, bitmap_mark, bitmap_scan_and_flip, bitmap_set_multiple,
  bitmap_all,
}

-- The static variables; of `free_map_file` whether it is open.
pub record FreeMap : Type 0 where
  pub free_map : Bitmap
  pub is_open : Bool

-- `FREE_MAP_SECTOR`
abbrev pub free_map_sector : ℕ
free_map_sector = 0

-- `ROOT_DIR_SECTOR`
abbrev pub root_dir_sector : ℕ
root_dir_sector = 1

-- `bitmap` is what `bitmap_create` returns.
unfoldable pub mark_reserved : Option Bitmap → Result FreeMap
mark_reserved none = panic
mark_reserved (some b) = do
  b1 ← bitmap_mark b free_map_sector
  b2 ← bitmap_mark b1 root_dir_sector
  ok (record { free_map = b2; is_open = false })

-- `header` and `memory` tell what `malloc` gives to `bitmap_create`.
unfoldable pub free_map_init : ℕ → Bool → Option (List ℕ) → Result FreeMap
free_map_init sectors header memory = bitmap_create sectors header memory >>= mark_reserved

-- What `free_map_allocate` does with the sector found: the first sector, or `none` for failure.
unfoldable pub finish_allocate : FreeMap → ℕ → Bool → ℕ → Result (Option ℕ × FreeMap)
finish_allocate m cnt written sector =
    if sector == bitmap_error
    then ok (none, m)
    else if m.is_open && not written
    then (bitmap_set_multiple m.free_map sector cnt false >>= λ b.
        ok (none, record m { free_map = b }))
    else ok (some sector, m)

unfoldable pub free_map_allocate : FreeMap → ℕ → Bool → Result (Option ℕ × FreeMap)
free_map_allocate m cnt written = bitmap_scan_and_flip m.free_map 0 cnt false >>= λ r.
    finish_allocate (record m { free_map = r.1 }) cnt written r.0

unfoldable pub free_map_release : FreeMap → ℕ → ℕ → Result FreeMap
free_map_release m sector cnt = do
  all ← bitmap_all m.free_map sector cnt
  assert all
  b ← bitmap_set_multiple m.free_map sector cnt false
  ok (record m { free_map = b })
