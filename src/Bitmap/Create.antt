-- ===== src/Bitmap/Create.antt =====
-- New bitmaps, and the questions about a whole range.
use eda.Prelude.{
  ℕ, ◌+◌, ◌-◌, ◌*◌, ◌≤◌, ◌<◌, ◌≡◌, refl, Bool, true, false, not, List, some, arith, le→leb, same,
  length, ok, ◌>>=◌,
}
use eda.Bitmap.{
  word_mod, elem_bits, elem_cnt, bitmap_buf_size, Bitmap, bitmap_set_all, bitmap_create_in_buf,
  bitmap_create, bitmap_contains, bitmap_all,
}
use eda.Bitmap.Bit.{IsValid, holds}
use eda.Bitmap.Ranges.{Answers, bitmap_contains-Answers, bitmap_set_all-Rewrites}

abbrev pub raw : ℕ → List ℕ → Bitmap
raw bit_cnt block = record { bit_cnt = bit_cnt; bits = block }

-- A valid bitmap of `bit_cnt` bits that are all false.
pub record IsClear (bit_cnt : ℕ) (b : Bitmap) : Type 0 where
  pub valid : IsValid b
  pub size : b.bit_cnt ≡ bit_cnt
  pub clear : (i : ℕ) → i < bit_cnt → holds b i ≡ false

set_all-IsClear :
    (bit_cnt : ℕ) (block : List ℕ)
    → IsValid (raw bit_cnt block)
    → (b : Bitmap) × (bitmap_set_all (raw bit_cnt block) false ≡ ok b) × IsClear bit_cnt b
set_all-IsClear bit_cnt block v =
    let (b, e, r) = bitmap_set_all-Rewrites false v in
    (b, e, record { valid = r.valid; size = r.size; clear = λ i h. ground (arith, r.content i) })

-- `bitmap_create_in_buf` in storage for which the size given is right returns a bitmap whose bits are
-- all false, whatever the storage held.
pub bitmap_create_in_buf-IsClear :
    (bit_cnt : ℕ) (block : List ℕ) (block_size : ℕ)
    → bit_cnt < word_mod - elem_bits
    → bitmap_buf_size bit_cnt ≤ block_size
    → block_size ≤ 8 + 4 * length block
    → (b : Bitmap) × (bitmap_create_in_buf bit_cnt block block_size ≡ ok b) × IsClear bit_cnt b
unfolding bitmap_create_in_buf
bitmap_create_in_buf-IsClear bit_cnt block block_size small need have =
    rw (le→leb (bitmap_buf_size bit_cnt) block_size need)
      (set_all-IsClear bit_cnt block (record { room = omega arith; small = omega arith }))

-- `bitmap_create`, where both allocations succeed, returns a bitmap whose bits are all false.
pub bitmap_create-IsClear :
    (bit_cnt : ℕ) (block : List ℕ)
    → bit_cnt < word_mod - elem_bits
    → elem_cnt bit_cnt ≤ length block
    → (b : Bitmap) × (bitmap_create bit_cnt true (some block) ≡ ok (some b)) × IsClear bit_cnt b
unfolding bitmap_create
bitmap_create-IsClear bit_cnt block small have =
    let (b, e, clear) =
      set_all-IsClear bit_cnt block (record { room = omega arith; small = omega arith }) in
    (b, rw e refl, clear)

same-false : (x : Bool) → same x false ≡ false → x ≡ true
same-false true h = refl
same-false false h = cc

-- `bitmap_all` of a range inside the bitmap whose bits are all true answers true.
pub bitmap_all-true :
    {b : Bitmap} (start cnt : ℕ) (v : IsValid b)
    → start + cnt ≤ b.bit_cnt
    → ((i : ℕ) → start ≤ i → i < start + cnt → holds b i ≡ true)
    → bitmap_all b start cnt ≡ ok true
unfolding bitmap_all
bitmap_all-true {b} start cnt v h all = go (bitmap_contains-Answers v start false cnt h)
  where
    go :
        (t : Bool) × (bitmap_contains b start cnt false ≡ ok t)
          × Answers (λ j. same (holds b j) false) start cnt t
        → (bitmap_contains b start cnt false >>= λ t. ok (not t)) ≡ ok true
    go (false, e, ans) = rw e refl
    go (true, e, (i, lo, hi, bad)) = absurd (ground (arith, all i lo hi))

-- `bitmap_all` that answers true of a range inside the bitmap is right.
pub bitmap_all_sound :
    {b : Bitmap} (start cnt : ℕ) (v : IsValid b)
    → start + cnt ≤ b.bit_cnt
    → bitmap_all b start cnt ≡ ok true
    → (i : ℕ) → start ≤ i
    → i < start + cnt
    → holds b i ≡ true
unfolding bitmap_all
bitmap_all_sound {b} start cnt v h yes_all = go (bitmap_contains-Answers v start false cnt h)
  where
    go :
        (t : Bool) × (bitmap_contains b start cnt false ≡ ok t)
          × Answers (λ j. same (holds b j) false) start cnt t
        → (i : ℕ) → start ≤ i
        → i < start + cnt
        → holds b i ≡ true
    go (false, e, ans) i lo hi = same-false (holds b i) (ans i lo hi)
    go (true, e, ans) i lo hi = ground arith

-- `bitmap_all` of a range inside the bitmap with a false bit answers false.
pub bitmap_all-false :
    {b : Bitmap} (start cnt : ℕ) (v : IsValid b)
    → start + cnt ≤ b.bit_cnt
    → (i : ℕ) → start ≤ i
    → i < start + cnt
    → holds b i ≡ false
    → bitmap_all b start cnt ≡ ok false
unfolding bitmap_all
bitmap_all-false {b} start cnt v h i lo hi bad = go (bitmap_contains-Answers v start false cnt h)
  where
    go :
        (t : Bool) × (bitmap_contains b start cnt false ≡ ok t)
          × Answers (λ j. same (holds b j) false) start cnt t
        → (bitmap_contains b start cnt false >>= λ t. ok (not t)) ≡ ok false
    go (true, e, ans) = rw e refl
    go (false, e, ans) = absurd (ground (arith, ans i lo hi))
