-- ===== src/FreeMap/Sectors.antt =====
-- Which sectors are in use after an allocation and a release.
use eda.Prelude.{
  ℕ, ◌+◌, ◌<◌, ◌≤◌, ◌≡◌, ◌⊎◌, refl, ◌∙◌, ◌&&◌, ◌||◌, Bool, true, false, not, ◌==◌, ==-ne, arith,
  Bool-cases, inl, inr, Option, none, some, ok,
}
use eda.Bitmap.{Bitmap, bitmap_error, bitmap_set_multiple, bitmap_all, word_mod, elem_bits}
use eda.Bitmap.Bit.{IsValid, holds, Rewrites}
use eda.Bitmap.Ranges.{within, bitmap_set_multiple-Rewrites}
use eda.Bitmap.Scan.{
  IsRun, IsBroken, Scanned, found, missing, flipped, bitmap_scan_and_flip-flipped,
}
use eda.Bitmap.Create.{bitmap_all-true}
use eda.FreeMap.{FreeMap, finish_allocate, free_map_allocate, free_map_release}

-- Whether a sector is in use.
abbrev pub in_use : FreeMap → ℕ → Bool
in_use m i = holds m.free_map i

-- What `free_map_allocate` comes to: the first run of free sectors is taken, or nothing changes, where
-- there is none or the map could not be written.
pub data Allocated (m : FreeMap) (cnt : ℕ) (written : Bool) : Option ℕ → FreeMap → Type 0 where
  granted :
      (sector : ℕ) (m' : FreeMap)
      → sector + cnt ≤ m.free_map.bit_cnt
      → ((i : ℕ) → within sector cnt i ≡ true → in_use m i ≡ false)
      → ((i : ℕ) → i < sector → IsBroken m.free_map i cnt false)
      → Rewrites m.free_map (λ i. within sector cnt i || in_use m i) m'.free_map
      → Allocated m cnt written (some sector) m'
  refused :
      (m' : FreeMap)
      → ((i : ℕ) → i + cnt ≤ m.free_map.bit_cnt → IsBroken m.free_map i cnt false)
        ⊎ ((m.is_open && not written) ≡ true)
      → Rewrites m.free_map (in_use m) m'.free_map
      → Allocated m cnt written none m'

module _ (m : FreeMap) (v : IsValid m.free_map) (cnt : ℕ) (written : Bool) where
  -- The run that was found, with the map written or not.
  granted_or_undone :
      (idx : ℕ) (b' : Bitmap)
      → idx + cnt ≤ m.free_map.bit_cnt
      → IsRun m.free_map idx cnt false
      → ((i : ℕ) → 0 ≤ i → i < idx → IsBroken m.free_map i cnt false)
      → Rewrites m.free_map (flipped m.free_map idx cnt false) b'
      → (o : Option ℕ) × (m' : FreeMap) × (finish_allocate
            (record m { free_map = b' })
            cnt
            written
            idx
          ≡ ok (o, m'))
        × Allocated m cnt written o m'
  unfolding finish_allocate
  granted_or_undone idx b' fits run before r =
      let ne : (idx == bitmap_error) ≡ false =
        ==-ne idx bitmap_error (λ e. omega (arith, v.small)) in
      elim (Bool-cases (m.is_open && not written)) [
        | inr e ↦ (
          some idx,
          record m { free_map = b' },
          rw (ne, e) refl,
          granted idx (record m { free_map = b' }) fits (λ i w. run i (ground arith) (ground arith))
              (λ i lt. before i (omega arith) lt)
              (record {
                valid = r.valid;
                size = r.size;
                content = λ i. ground (arith, r.content i);
              }),
        )
        | inl e ↦
            let (b2, undo, u) =
              bitmap_set_multiple-Rewrites idx false cnt r.valid (omega (arith, r.size)) in
            (
              none,
              record m { free_map = b2 },
              rw (ne, e, undo) refl,
              refused (record m { free_map = b2 }) (inr e)
                  (record {
                    valid = u.valid;
                    size = u.size ∙ r.size;
                    content = λ i. ground (arith, u.content i, r.content i, run i);
                  }),
            )
      ]

  -- `free_map_allocate` in a valid map returns: it takes the first run of `cnt` free sectors and no
  -- other sector; where there is none, or the open file could not be written, the sectors in use stay
  -- the same.
  pub free_map_allocate-Allocated :
      (o : Option ℕ) × (m' : FreeMap) × (free_map_allocate m cnt written ≡ ok (o, m'))
      × Allocated m cnt written o m'
  unfolding free_map_allocate
  free_map_allocate-Allocated =
      let (idx, b', run, s, r) = bitmap_scan_and_flip-flipped v cnt false 0 (omega arith) in
      go idx b' run s r
    where
      go :
          (idx : ℕ) (b' : Bitmap)
          → eda.Bitmap.bitmap_scan_and_flip m.free_map 0 cnt false ≡ ok (idx, b')
          → Scanned m.free_map 0 cnt false idx
          → Rewrites m.free_map (flipped m.free_map idx cnt false) b'
          → (o : Option ℕ) × (m' : FreeMap) × (free_map_allocate m cnt written ≡ ok (o, m'))
            × Allocated m cnt written o m'
      go idx b' run (found lo hi all before) r =
          let (o, m', e, a) = granted_or_undone idx b' hi all before r in (o, m', rw run e, a)
      go idx b' run (missing e before) r = (
        none,
        record m { free_map = b' },
        unfold finish_allocate in rw (run, e) refl,
        refused (record m { free_map = b' }) (inl (λ i h. before i (omega arith) h))
            (record {
              valid = r.valid;
              size = r.size;
              content = λ i. ground (arith, r.content i, e);
            }),
      )

module _ (m : FreeMap) (v : IsValid m.free_map) (cnt : ℕ) where
  -- `free_map_release` of sectors that are all in use frees these and no other.
  pub free_map_release-Rewrites :
      (sector : ℕ)
      → sector + cnt ≤ m.free_map.bit_cnt
      → ((i : ℕ) → within sector cnt i ≡ true → in_use m i ≡ true)
      → (m' : FreeMap) × (free_map_release m sector cnt ≡ ok m')
        × Rewrites m.free_map (λ i. not (within sector cnt i) && in_use m i) m'.free_map
  unfolding free_map_release
  free_map_release-Rewrites sector fits all =
      let full : bitmap_all m.free_map sector cnt ≡ ok true =
        bitmap_all-true sector cnt v fits (λ i lo hi. all i (ground arith)) in
      let (b', set, r) = bitmap_set_multiple-Rewrites sector false cnt v fits in
      (
        record m { free_map = b' },
        rw (full, set) refl,
        record { valid = r.valid; size = r.size; content = λ i. ground (arith, r.content i) },
      )
