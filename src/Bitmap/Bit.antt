-- ===== src/Bitmap/Bit.antt =====
-- One bit of a bitmap: what `bitmap_test` reads is what the last write left there.
use eda.Prelude.{
  ℕ, zero, suc, ◌-◌, ◌*◌, ◌%◌, ◌^◌, ◌≤◌, ◌<◌, ◌≡◌, refl, Bool, true, false, not, arith, lt→ltb,
  ◌==◌, if◌then◌else◌, Bool-cases, inl, inr, length, get_or, set, length-set, get_elem?-eq-get_or,
  get_or-set_self, get_or-set_ne, ok,
}
use native.Mathlib.Nat.{pow-le-pow_right}
use Prim.Native.Nat.{differ}
use eda.Prelude.Bits.{
  bit, bit_lt, bit-bit_and, bit-bit_or, bit-bit_xor, bit-pow, bit-complement, bit_and-pow_zero,
  bit_and-pow_ne,
}
use eda.Bitmap.{
  word_mod, elem_bits, Bitmap, elem_idx, bit_mask, complement, modify, bitmap_mark, bitmap_reset,
  bitmap_flip, bitmap_set, bitmap_test,
}

-- The storage has an element for each bit, and the number of bits is a `size_t` below SIZE_MAX.
pub record IsValid (b : Bitmap) : Type 0 where
  pub room : b.bit_cnt ≤ elem_bits * length b.bits
  pub small : b.bit_cnt < word_mod - 1

-- The abstract view: bit `i` of the array.
unfoldable pub holds : Bitmap → ℕ → Bool
holds b i = bit (get_or b.bits (elem_idx i) 0) (i % elem_bits) == 1

-- `b'` is a valid bitmap of the same size as `b`, with the bits `f`.
pub record Rewrites (b : Bitmap) (f : ℕ → Bool) (b' : Bitmap) : Type 0 where
  pub valid : IsValid b'
  pub size : b'.bit_cnt ≡ b.bit_cnt
  pub content : (i : ℕ) → holds b' i ≡ f i

-- The element that holds bit `i`.
abbrev word : Bitmap → ℕ → ℕ
word b i = get_or b.bits (elem_idx i) 0

differ-zero : (x : ℕ) → differ x 0 ≡ x
differ-zero zero = refl
differ-zero (suc x) = refl

flip_digit : (x y : ℕ) → x < 2 → y ≡ 1 → (differ x y == 1) ≡ not (x == 1)
flip_digit zero y h e = rw e
flip_digit (suc zero) y h e = rw e
flip_digit (suc (suc x)) y h e = absurd (omega arith)

mask-lt : (k : ℕ) → k < 32 → 2 ^ k < word_mod
mask-lt k h = omega (arith, pow-le-pow_right {n = 2} (omega arith) {i = k} {j = 31} (omega arith))

module _ {b : Bitmap} (v : IsValid b) (i : ℕ) (h : i < b.bit_cnt) where
  in_range : elem_idx i < length b.bits
  in_range = omega arith

  -- `bitmap_test` of a bit inside a valid bitmap returns that bit.
  pub bitmap_test-holds : bitmap_test b i ≡ ok (holds b i)
  unfolding bitmap_test holds
  bitmap_test-holds =
      let w = get_or b.bits (elem_idx i) 0 in
      let k = i % elem_bits in
      rw (lt→ltb _ _ h, get_elem?-eq-get_or b.bits (elem_idx i) 0 in_range)
        (ground (arith, bit_and-pow_zero w k, bit_and-pow_ne w k, bit_lt w k))

  -- An element is rewritten so that one digit changes.
  modify-Rewrites :
      (f : ℕ → ℕ) (value : Bool)
      → ((k : ℕ)
          → k < elem_bits
          → (bit (f (word b i)) k == 1)
            ≡ (if k == i % elem_bits then value else bit (word b i) k == 1))
      → (b' : Bitmap) × (modify b i f ≡ ok b')
        × Rewrites b (λ j. if j == i then value else holds b j) b'
  unfolding modify holds
  modify-Rewrites f value digit = (
    b',
    rw (get_elem?-eq-get_or b.bits (elem_idx i) 0 in_range, modify),
    record {
      valid = record {
        room = omega (arith, length-set b.bits (elem_idx i) (f w));
        small = v.small;
      };
      size = refl;
      content = content;
    },
  )
    where
      w : ℕ
      w = get_or b.bits (elem_idx i) 0

      b' : Bitmap
      b' = record b { bits = set b.bits (elem_idx i) (f w) }

      content : (j : ℕ) → holds b' j ≡ (if j == i then value else holds b j)
      content j = elim (Bool-cases (elem_idx j == elem_idx i)) [
        | inl e ↦ ground (
          arith,
          get_or-set_self b.bits (elem_idx i) (f w) 0 in_range,
          digit (j % elem_bits) (omega arith),
        )
        | inr e ↦ ground (arith, get_or-set_ne b.bits (elem_idx i) (elem_idx j) (f w) 0)
      ]

  pub bitmap_mark-Rewrites :
      (b' : Bitmap) × (bitmap_mark b i ≡ ok b')
      × Rewrites b (λ j. if j == i then true else holds b j) b'
  unfolding bitmap_mark
  bitmap_mark-Rewrites = modify-Rewrites _ true λ k lt.
      ground (
        arith,
        bit-bit_or (word b i) (bit_mask i) k,
        bit-pow (i % elem_bits) k,
        bit_lt (word b i) k,
      )

  pub bitmap_reset-Rewrites :
      (b' : Bitmap) × (bitmap_reset b i ≡ ok b')
      × Rewrites b (λ j. if j == i then false else holds b j) b'
  unfolding bitmap_reset
  bitmap_reset-Rewrites = modify-Rewrites _ false λ k lt. ground (
    arith,
    bit-bit_and (word b i) (complement (bit_mask i)) k,
    bit-pow (i % elem_bits) k,
    bit_lt (word b i) k,
    bit-complement 32 (bit_mask i) k (mask-lt (i % elem_bits) (omega arith)) lt,
  )

  -- `bitmap_set` of a bit in range returns; it writes that bit and leaves the others.
  pub bitmap_set-Rewrites :
      (value : Bool)
      → (b' : Bitmap) × (bitmap_set b i value ≡ ok b')
        × Rewrites b (λ j. if j == i then value else holds b j) b'
  unfolding bitmap_set
  bitmap_set-Rewrites true = rw (lt→ltb _ _ h) bitmap_mark-Rewrites
  bitmap_set-Rewrites false = rw (lt→ltb _ _ h) bitmap_reset-Rewrites

  -- `bitmap_flip` toggles one bit.
  pub bitmap_flip-Rewrites :
      (b' : Bitmap) × (bitmap_flip b i ≡ ok b')
      × Rewrites b (λ j. if j == i then not (holds b i) else holds b j) b'
  unfolding bitmap_flip holds
  bitmap_flip-Rewrites = modify-Rewrites _ (not (holds b i)) λ k lt. ground (
    arith,
    bit-bit_xor (word b i) (bit_mask i) k,
    bit-pow (i % elem_bits) k,
    bit_lt (word b i) k,
    flip_digit (bit (word b i) k) (bit (bit_mask i) k),
    differ-zero (bit (word b i) k),
  )
