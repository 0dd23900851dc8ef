-- ===== src/Bitmap/Ranges.antt =====
-- The loops over a range of bits.
use eda.Prelude.{
  ℕ, zero, suc, ◌+◌, ◌≤◌, ◌<◌, ◌≡◌, refl, ◌∙◌, ap, inl, inr, Bool, true, false, ◌&&◌, arith, ltb,
  leb, le→leb, ◌==◌, if◌then◌else◌, same, Bool-cases, ==_iff, Result, ok,
}
use mathlib.Core.Path.{subst}
use native.Mathlib.Nat.{zero-add, add-zero}
use eda.Bitmap.{
  assert_range, word_mod, add_size, Bitmap, bitmap_set, bitmap_test, set_loop, bitmap_set_multiple,
  bitmap_set_all, count_loop, bitmap_count, contains_loop, bitmap_contains,
}
use eda.Bitmap.Bit.{IsValid, holds, Rewrites, bitmap_set-Rewrites, bitmap_test-holds}

-- Whether `i` is one of the `cnt` positions from `start` on.
abbrev pub within : ℕ → ℕ → ℕ → Bool
within start cnt i = leb start i && ltb i (start + cnt)

set_loop_step :
    (n i start : ℕ) (value : Bool) (b : Bitmap) {b1 : Bitmap} {r : Result Bitmap}
    → start + i < word_mod
    → bitmap_set b (start + i) value ≡ ok b1
    → set_loop n (i + 1) start value b1 ≡ r
    → set_loop (suc n) i start value b ≡ r
unfolding set_loop
set_loop_step n i start value b h e rest =
    let e' : add_size start i ≡ start + i = omega arith in rw (e', e) rest

-- The ASSERTs of a range inside the bitmap hold.
assert_range_lem :
    {b : Bitmap} (start cnt : ℕ)
    → IsValid b
    → start + cnt ≤ b.bit_cnt
    → assert_range b start cnt ≡ ok tt
assert_range_lem {b} start cnt v h =
    rw (le→leb start b.bit_cnt (omega arith))
      (rw (le→leb (add_size start cnt) b.bit_cnt (omega (arith, v.small))) refl)

module _ (start : ℕ) (value : Bool) where
  set_loop-Rewrites :
      (n i : ℕ) {b : Bitmap}
      → IsValid b
      → start + (i + n) ≤ b.bit_cnt
      → (b' : Bitmap) × (set_loop n i start value b ≡ ok b')
        × Rewrites b (λ j. if within (start + i) n j then value else holds b j) b'
  unfolding set_loop
  set_loop-Rewrites zero i {b} v h =
      (b, refl, record { valid = v; size = refl; content = λ j. ground arith })
  set_loop-Rewrites (suc n) i {b} v h =
      let (b1, set1, r1) = bitmap_set-Rewrites v (start + i) (omega arith) value in
      let (b2, set2, r2) = set_loop-Rewrites n (i + 1) r1.valid (omega (arith, r1.size)) in
      (
        b2,
        set_loop_step n i start value b (omega (arith, v.small)) set1 set2,
        record {
          valid = r2.valid;
          size = r2.size ∙ r1.size;
          content = λ j. ground (arith, r1.content j, r2.content j);
        },
      )

  -- `bitmap_set_multiple` of a range inside the bitmap returns; it writes the bits of the range and
  -- leaves the others.
  pub bitmap_set_multiple-Rewrites :
      (cnt : ℕ) {b : Bitmap}
      → IsValid b
      → start + cnt ≤ b.bit_cnt
      → (b' : Bitmap) × (bitmap_set_multiple b start cnt value ≡ ok b')
        × Rewrites b (λ j. if within start cnt j then value else holds b j) b'
  unfolding bitmap_set_multiple
  bitmap_set_multiple-Rewrites cnt {b} v h =
      let (b1, set1, r1) = set_loop-Rewrites cnt 0 v (omega arith) in
      (
        b1,
        rw (assert_range_lem start cnt v h) set1,
        record { valid = r1.valid; size = r1.size; content = λ j. ground (arith, r1.content j) },
      )

-- `bitmap_set_all` writes every bit of the bitmap.
pub bitmap_set_all-Rewrites :
    {b : Bitmap} (value : Bool)
    → IsValid b
    → (b' : Bitmap) × (bitmap_set_all b value ≡ ok b')
      × Rewrites b (λ j. if ltb j b.bit_cnt then value else holds b j) b'
unfolding bitmap_set_all
bitmap_set_all-Rewrites {b} value v =
    let (b', e, r) = bitmap_set_multiple-Rewrites 0 value b.bit_cnt v (omega arith) in
    (b', e, record { valid = r.valid; size = r.size; content = λ j. ground (arith, r.content j) })

-- What the answer `t` to "is there an `f` among the `cnt` positions from `start`" says.
abbrev pub Answers : (ℕ → Bool) → ℕ → ℕ → Bool → Type 0
Answers f start cnt true = (i : ℕ) × (start ≤ i) × (i < start + cnt) × (f i ≡ true)
Answers f start cnt false = (i : ℕ) → start ≤ i → i < start + cnt → f i ≡ false

Answers-here : (f : ℕ → Bool) (start n : ℕ) → f start ≡ true → Answers f start (suc n) true
Answers-here f start n h = (start, omega arith, omega arith, h)

Answers-later :
    (f : ℕ → Bool) (start n : ℕ) (t : Bool)
    → f start ≡ false
    → Answers f (start + 1) n t
    → Answers f start (suc n) t
Answers-later f start n true h (i, lo, hi, found) = (i, omega arith, omega arith, found)
Answers-later f start n false h none_later = λ i lo hi. elim (Bool-cases (i == start)) [
  | inl e ↦ rw ((==_iff i start).0 e) h
  | inr e ↦ none_later i (ground arith) (ground arith)
]

module _ {b : Bitmap} (v : IsValid b) (start : ℕ) (value : Bool) where
  abbrev is_value : ℕ → Bool
  is_value j = same (holds b j) value

  test_at :
      (i : ℕ) → start + i < b.bit_cnt → bitmap_test b (add_size start i) ≡ ok (holds b (start + i))
  test_at i h =
      let e : add_size start i ≡ start + i = omega (arith, v.small) in
      rw e (bitmap_test-holds v (start + i) h)

  contains_loop-Answers :
      (n i : ℕ)
      → start + (i + n) ≤ b.bit_cnt
      → (t : Bool) × (contains_loop b n i start value ≡ ok t) × Answers is_value (start + i) n t
  unfolding contains_loop
  contains_loop-Answers zero i h = (false, refl, λ j lo hi. absurd (omega arith))
  contains_loop-Answers (suc n) i h = elim (Bool-cases (is_value (start + i))) [
    | inl e ↦ (true, rw (test_at i (omega arith)) (rw e), Answers-here is_value (start + i) n e)
    | inr e ↦
        let (t, run, ans) = contains_loop-Answers n (i + 1) (omega arith) in
        let move : start + (i + 1) ≡ start + i + 1 = omega arith in
        (
          t,
          rw (test_at i (omega arith)) (rw e run),
          Answers-later is_value (start + i) n t e (subst (λ k. Answers is_value k n t) move ans),
        )
  ]

  -- `bitmap_contains` of a range inside the bitmap returns whether a bit of the range has the value:
  -- for `true` there is one, for `false` none has it.
  pub bitmap_contains-Answers :
      (cnt : ℕ)
      → start + cnt ≤ b.bit_cnt
      → (t : Bool) × (bitmap_contains b start cnt value ≡ ok t) × Answers is_value start cnt t
  unfolding bitmap_contains
  bitmap_contains-Answers cnt h =
      let (t, run, ans) = contains_loop-Answers cnt 0 (omega arith) in
      let move : start + 0 ≡ start = omega arith in
      (t, rw (assert_range_lem start cnt v h) run, subst (λ k. Answers is_value k cnt t) move ans)

-- How many of the `n` positions from `start` on satisfy `f`.
unfoldable pub count_in : (ℕ → Bool) → ℕ → ℕ → ℕ
count_in f start zero = 0
count_in f start (suc n) = (if f start then 1 else 0) + count_in f (start + 1) n

count_in-le : (f : ℕ → Bool) (start n : ℕ) → count_in f start n ≤ n
unfolding count_in
count_in-le f start zero = omega arith
count_in-le f start (suc n) = ground (arith, count_in-le f (start + 1) n)

module _ {b : Bitmap} (v : IsValid b) (start : ℕ) (value : Bool) where
  count_loop-count_in :
      (n i acc : ℕ)
      → start + (i + n) ≤ b.bit_cnt
      → count_loop b n i start value acc
        ≡ ok (acc + count_in (λ j. same (holds b j) value) (start + i) n)
  unfolding count_loop count_in
  count_loop-count_in zero i acc h = ap ok (omega arith)
  count_loop-count_in (suc n) i acc h =
      let move : start + (i + 1) ≡ start + i + 1 = omega arith in
      rw (test_at v start value i (omega arith))
        (count_loop-count_in n (i + 1) _ (omega arith) ∙ rw move (ap ok (ground arith)))

  -- `bitmap_count` of a range inside the bitmap returns the number of its bits that have the value.
  pub bitmap_count-count_in :
      (cnt : ℕ)
      → start + cnt ≤ b.bit_cnt
      → bitmap_count b start cnt value ≡ ok (count_in (λ j. same (holds b j) value) start cnt)
  unfolding bitmap_count
  bitmap_count-count_in cnt h =
      rw (assert_range_lem start cnt v h)
        (count_loop-count_in cnt 0 0 (omega arith) ∙ simp (zero-add, add-zero))
