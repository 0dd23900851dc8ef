-- ===== src/Bitmap/Scan.antt =====
-- `bitmap_scan` and `bitmap_scan_and_flip`: first fit.
use eda.Prelude.{
  ℕ, zero, suc, ◌+◌, ◌-◌, ◌≤◌, ◌<◌, ◌≡◌, ◌≢◌, ◌&&◌, refl, inl, inr, Bool, true, false, not, arith,
  leb, le→leb, leb→le, ◌==◌, ==_iff, ==-ne, if◌then◌else◌, same, Bool-cases, ok,
}
use eda.Bitmap.{
  Bitmap, bitmap_error, bitmap_contains, scan_loop, bitmap_scan, bitmap_scan_and_flip,
  bitmap_set_multiple,
}
use eda.Bitmap.Bit.{IsValid, holds, Rewrites}
use eda.Bitmap.Ranges.{within, Answers, bitmap_contains-Answers, bitmap_set_multiple-Rewrites}

-- The `cnt` bits from `i` on all have the value; one of them has the other value.
abbrev pub IsRun : Bitmap → ℕ → ℕ → Bool → Type 0
IsRun b i cnt value = (j : ℕ) → i ≤ j → j < i + cnt → holds b j ≡ value

abbrev pub IsBroken : Bitmap → ℕ → ℕ → Bool → Type 0
IsBroken b i cnt value = (j : ℕ) × (i ≤ j) × (j < i + cnt) × (holds b j ≡ not value)

-- What a scan from `start` with result `idx` has found: the first run that lies inside the bitmap, or
-- that there is none.
pub data Scanned (b : Bitmap) (start cnt : ℕ) (value : Bool) (idx : ℕ) : Type 0 where
  found :
      start ≤ idx
      → idx + cnt ≤ b.bit_cnt
      → IsRun b idx cnt value
      → ((i : ℕ) → start ≤ i → i < idx → IsBroken b i cnt value)
      → Scanned b start cnt value idx
  missing :
      idx ≡ bitmap_error
      → ((i : ℕ) → start ≤ i → i + cnt ≤ b.bit_cnt → IsBroken b i cnt value)
      → Scanned b start cnt value idx

same-not : (x value : Bool) → same x (not value) ≡ true → x ≡ not value
same-not true true h = cc
same-not true false h = refl
same-not false true h = refl
same-not false false h = cc

same-not-false : (x value : Bool) → same x (not value) ≡ false → x ≡ value
same-not-false true true h = refl
same-not-false true false h = cc
same-not-false false true h = cc
same-not-false false false h = refl

-- A position that is no run goes before what the scan from the next one has found.
Scanned-next :
    {b : Bitmap} {start cnt : ℕ} {value : Bool} {idx : ℕ}
    → IsBroken b start cnt value
    → Scanned b (start + 1) cnt value idx
    → Scanned b start cnt value idx
Scanned-next {b} {start} {cnt} {value} broken (found lo hi run before) =
    found (omega arith) hi run λ i h g. elim (Bool-cases (i == start)) [
      | inl e ↦ rw ((==_iff i start).0 e) broken
      | inr e ↦ before i (ground arith) g
    ]
Scanned-next {b} {start} {cnt} {value} broken (missing e before) = missing e λ i h g.
    elim (Bool-cases (i == start)) [
      | inl e ↦ rw ((==_iff i start).0 e) broken
      | inr e ↦ before i (ground arith) g
    ]

module _ {b : Bitmap} (v : IsValid b) (cnt : ℕ) (value : Bool) where
  scan_loop-Scanned :
      (n i : ℕ)
      → n + (i + cnt) ≡ b.bit_cnt + 1
      → (idx : ℕ) × (scan_loop b n i cnt value ≡ ok idx) × Scanned b i cnt value idx
  unfolding scan_loop
  scan_loop-Scanned zero i h = (bitmap_error, refl, missing refl λ j lo hi. absurd (omega arith))
  scan_loop-Scanned (suc n) i h =
      step (bitmap_contains-Answers v i (not value) cnt (omega arith))
        (scan_loop-Scanned n (i + 1) (omega arith))
    where
      step :
          (t : Bool) × (bitmap_contains b i cnt (not value) ≡ ok t)
            × Answers (λ j. same (holds b j) (not value)) i cnt t
          → (idx : ℕ) × (scan_loop b n (i + 1) cnt value ≡ ok idx) × Scanned b (i + 1) cnt value idx
          → (idx : ℕ) × (scan_loop b (suc n) i cnt value ≡ ok idx) × Scanned b i cnt value idx
      step (false, e, clear) rest = (
        i,
        rw e,
        found (omega arith) (omega arith)
            (λ j lo hi. same-not-false (holds b j) value (clear j lo hi))
            λ j lo hi. absurd (omega arith),
      )
      step (true, e, (j, lo, hi, bad)) (idx, run, s) =
          (idx, rw (e, run), Scanned-next (j, lo, hi, same-not (holds b j) value bad) s)

  -- `bitmap_scan` from a start inside the bitmap returns the first run of `cnt` bits that have the
  -- value, or BITMAP_ERROR exactly when no run lies inside the bitmap from the start on.
  pub bitmap_scan-Scanned :
      (start : ℕ)
      → start ≤ b.bit_cnt
      → (idx : ℕ) × (bitmap_scan b start cnt value ≡ ok idx) × Scanned b start cnt value idx
  unfolding bitmap_scan scan_loop
  bitmap_scan-Scanned start h =
      rw (le→leb start b.bit_cnt h) (elim (Bool-cases (leb cnt b.bit_cnt)) [
        | inr e ↦ (bitmap_error, rw e, missing refl λ i lo hi. absurd (ground arith))
        | inl e ↦ rw e (elim (Bool-cases (leb (start + cnt) (b.bit_cnt + 1))) [
          | inl fits ↦
              let c = leb→le cnt b.bit_cnt e in
              let f = leb→le (start + cnt) (b.bit_cnt + 1) fits in
              scan_loop-Scanned (b.bit_cnt - cnt + 1 - start) start (omega arith)
          | inr past ↦
              let none_left : b.bit_cnt - cnt + 1 - start ≡ 0 = ground arith in
              (bitmap_error, rw none_left refl, missing refl λ i lo hi. absurd (ground arith))
        ])
      ])

-- The bits after `bitmap_scan_and_flip` has returned `idx`.
abbrev pub flipped : Bitmap → ℕ → ℕ → Bool → ℕ → Bool
flipped b idx cnt value j =
    if not (idx == bitmap_error) && within idx cnt j then not value else holds b j

-- `bitmap_scan_and_flip` from a start inside the bitmap returns what the scan finds; it flips the
-- bits of the run that it returns and no other, and changes nothing where it returns BITMAP_ERROR.
pub bitmap_scan_and_flip-flipped :
    {b : Bitmap} (v : IsValid b) (cnt : ℕ) (value : Bool) (start : ℕ)
    → start ≤ b.bit_cnt
    → (idx : ℕ) × (b' : Bitmap) × (bitmap_scan_and_flip b start cnt value ≡ ok (idx, b'))
      × Scanned b start cnt value idx
      × Rewrites b (flipped b idx cnt value) b'
unfolding bitmap_scan_and_flip
bitmap_scan_and_flip-flipped {b} v cnt value start h = go (bitmap_scan-Scanned v cnt value start h)
  where
    finish :
        (idx : ℕ)
        → bitmap_scan b start cnt value ≡ ok idx
        → Scanned b start cnt value idx
        → (idx ≢ bitmap_error)
        → (b' : Bitmap) × (bitmap_set_multiple b idx cnt (not value) ≡ ok b')
          × Rewrites b (λ j. if within idx cnt j then not value else holds b j) b'
        → (idx : ℕ) × (b' : Bitmap) × (bitmap_scan_and_flip b start cnt value ≡ ok (idx, b'))
          × Scanned b start cnt value idx
          × Rewrites b (flipped b idx cnt value) b'
    finish idx run s ne (b', done, r) =
        let e = ==-ne idx bitmap_error ne in
        (
          idx,
          b',
          rw (run, e, done),
          s,
          record { valid = r.valid; size = r.size; content = λ j. ground (arith, r.content j) },
        )

    go :
        (idx : ℕ) × (bitmap_scan b start cnt value ≡ ok idx) × Scanned b start cnt value idx
        → (idx : ℕ) × (b' : Bitmap) × (bitmap_scan_and_flip b start cnt value ≡ ok (idx, b'))
          × Scanned b start cnt value idx
          × Rewrites b (flipped b idx cnt value) b'
    go (idx, run, found lo hi all before) =
        finish idx run (found lo hi all before) (omega (arith, v.small))
          (bitmap_set_multiple-Rewrites idx (not value) cnt v hi)
    go (idx, run, missing e before) = (
      idx,
      b,
      rw (run, e),
      missing e before,
      record { valid = v; size = refl; content = λ j. ground arith },
    )
