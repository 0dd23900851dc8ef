-- ===== src/Bitmap.antt =====
-- mount/lab2/pintos/src/lib/kernel/bitmap.c: a bitmap as an array of 32-bit elements. A `size_t`
-- and an `elem_type` are numbers below 2 ^ 32. The `or`, `and` and `xor` instructions of the
-- inline assembly act on one element.
pub mod Bit
pub mod Ranges
pub mod Scan
pub mod Create
use Prim.Native.Nat.{bit_and, bit_or, bit_xor}
use eda.Prelude.{
  ℕ, zero, suc, ◌+◌, ◌-◌, ◌*◌, ◌/◌, ◌%◌, ◌^◌, Bool, true, false, not, List, [], Option, none, some,
  ltb, leb, ◌==◌, if◌then◌else◌, same, get_elem?, set, Result, ok, panic, fault, ◌>>=◌, ◌>>◌,
  assert,
}

abbrev pub word_mod : ℕ
word_mod = 2 ^ 32

-- `size_t` addition
abbrev pub add_size : ℕ → ℕ → ℕ
add_size a b = (a + b) % word_mod

-- `ELEM_BITS`
abbrev pub elem_bits : ℕ
elem_bits = 32

-- `BITMAP_ERROR`, which is SIZE_MAX
abbrev pub bitmap_error : ℕ
bitmap_error = word_mod - 1

pub record Bitmap : Type 0 where
  pub bit_cnt : ℕ
  pub bits : List ℕ

abbrev pub elem_idx : ℕ → ℕ
elem_idx bit_idx = bit_idx / elem_bits

abbrev pub bit_mask : ℕ → ℕ
bit_mask bit_idx = 2 ^ (bit_idx % elem_bits)

-- `~mask`
abbrev pub complement : ℕ → ℕ
complement mask = word_mod - 1 - mask

-- DIV_ROUND_UP (bit_cnt, ELEM_BITS) in `size_t`
abbrev pub elem_cnt : ℕ → ℕ
elem_cnt bit_cnt = add_size bit_cnt (elem_bits - 1) / elem_bits

abbrev pub byte_cnt : ℕ → ℕ
byte_cnt bit_cnt = 4 * elem_cnt bit_cnt

-- `sizeof (struct bitmap)` is 8.
abbrev pub bitmap_buf_size : ℕ → ℕ
bitmap_buf_size bit_cnt = add_size 8 (byte_cnt bit_cnt)

-- One read-modify-write instruction on the element that holds a bit.
unfoldable pub modify : Bitmap → ℕ → (ℕ → ℕ) → Result Bitmap
modify b bit_idx f = elim (get_elem? b.bits (elem_idx bit_idx)) [
  | none ↦ fault
  | some w ↦ ok (record b { bits = set b.bits (elem_idx bit_idx) (f w) })
]

unfoldable pub bitmap_mark : Bitmap → ℕ → Result Bitmap
bitmap_mark b bit_idx = modify b bit_idx (λ w. bit_or w (bit_mask bit_idx))

unfoldable pub bitmap_reset : Bitmap → ℕ → Result Bitmap
bitmap_reset b bit_idx = modify b bit_idx (λ w. bit_and w (complement (bit_mask bit_idx)))

unfoldable pub bitmap_flip : Bitmap → ℕ → Result Bitmap
bitmap_flip b bit_idx = modify b bit_idx (λ w. bit_xor w (bit_mask bit_idx))

unfoldable pub bitmap_set : Bitmap → ℕ → Bool → Result Bitmap
bitmap_set b idx value =
    assert (ltb idx b.bit_cnt) >> (if value then bitmap_mark b idx else bitmap_reset b idx)

unfoldable pub bitmap_test : Bitmap → ℕ → Result Bool
bitmap_test b idx = do
  assert (ltb idx b.bit_cnt)
  elim (get_elem? b.bits (elem_idx idx)) [
    | none ↦ fault
    | some w ↦ ok (not (bit_and w (bit_mask idx) == 0))
  ]

-- `for (i = 0; i < cnt; i++) bitmap_set (b, start + i, value);` with `n` rounds to go
unfoldable pub set_loop : ℕ → ℕ → ℕ → Bool → Bitmap → Result Bitmap
set_loop zero i start value b = ok b
set_loop (suc n) i start value b =
    bitmap_set b (add_size start i) value >>= λ b'. set_loop n (i + 1) start value b'

-- The ASSERTs on a range of bits.
abbrev pub assert_range : Bitmap → ℕ → ℕ → Result (Unit {0})
assert_range b start cnt =
    assert (leb start b.bit_cnt) >> assert (leb (add_size start cnt) b.bit_cnt)

unfoldable pub bitmap_set_multiple : Bitmap → ℕ → ℕ → Bool → Result Bitmap
bitmap_set_multiple b start cnt value = assert_range b start cnt >> set_loop cnt 0 start value b

unfoldable pub bitmap_set_all : Bitmap → Bool → Result Bitmap
bitmap_set_all b value = bitmap_set_multiple b 0 b.bit_cnt value

-- The loop of `bitmap_count`; `value_cnt` is what it has counted.
unfoldable pub count_loop : Bitmap → ℕ → ℕ → ℕ → Bool → ℕ → Result ℕ
count_loop b zero i start value value_cnt = ok value_cnt
count_loop b (suc n) i start value value_cnt = bitmap_test b (add_size start i) >>= λ t.
    count_loop b n (i + 1) start value (if same t value then value_cnt + 1 else value_cnt)

unfoldable pub bitmap_count : Bitmap → ℕ → ℕ → Bool → Result ℕ
bitmap_count b start cnt value = assert_range b start cnt >> count_loop b cnt 0 start value 0

-- The loop of `bitmap_contains`
unfoldable pub contains_loop : Bitmap → ℕ → ℕ → ℕ → Bool → Result Bool
contains_loop b zero i start value = ok false
contains_loop b (suc n) i start value =
    let rest = contains_loop b n (i + 1) start value in
    bitmap_test b (add_size start i) >>= λ t. if same t value then ok true else rest

unfoldable pub bitmap_contains : Bitmap → ℕ → ℕ → Bool → Result Bool
bitmap_contains b start cnt value = assert_range b start cnt >> contains_loop b cnt 0 start value

unfoldable pub bitmap_any : Bitmap → ℕ → ℕ → Result Bool
bitmap_any b start cnt = bitmap_contains b start cnt true

unfoldable pub bitmap_none : Bitmap → ℕ → ℕ → Result Bool
bitmap_none b start cnt = bitmap_contains b start cnt true >>= λ t. ok (not t)

unfoldable pub bitmap_all : Bitmap → ℕ → ℕ → Result Bool
bitmap_all b start cnt = bitmap_contains b start cnt false >>= λ t. ok (not t)

-- `for (i = start; i <= last; i++)` with `n` rounds to go
unfoldable pub scan_loop : Bitmap → ℕ → ℕ → ℕ → Bool → Result ℕ
scan_loop b zero i cnt value = ok bitmap_error
scan_loop b (suc n) i cnt value =
    let rest = scan_loop b n (i + 1) cnt value in
    bitmap_contains b i cnt (not value) >>= λ t. if t then rest else ok i

unfoldable pub bitmap_scan : Bitmap → ℕ → ℕ → Bool → Result ℕ
bitmap_scan b start cnt value =
    assert (leb start b.bit_cnt)
    >> (if leb cnt b.bit_cnt
        then scan_loop b (b.bit_cnt - cnt + 1 - start) start cnt value
        else ok bitmap_error)

unfoldable pub bitmap_scan_and_flip : Bitmap → ℕ → ℕ → Bool → Result (ℕ × Bitmap)
bitmap_scan_and_flip b start cnt value = do
  idx ← bitmap_scan b start cnt value
  if idx == bitmap_error
      then ok (idx, b)
      else (bitmap_set_multiple b idx cnt (not value) >>= λ b'. ok (idx, b'))

-- The elements of the storage at `block`, behind the header, have any contents at first.
unfoldable pub bitmap_create_in_buf : ℕ → List ℕ → ℕ → Result Bitmap
bitmap_create_in_buf bit_cnt block block_size =
    assert (leb (bitmap_buf_size bit_cnt) block_size)
    >> bitmap_set_all (record { bit_cnt = bit_cnt; bits = block }) false

-- The two calls of `malloc` return a header or not, and the storage `memory` or not; the inner result
-- is the new bitmap, or `none` for a null pointer.
unfoldable pub bitmap_create : ℕ → Bool → Option (List ℕ) → Result (Option Bitmap)
bitmap_create bit_cnt header memory = if not header then ok none else elim memory [
  | some block ↦
      bitmap_set_all (record { bit_cnt = bit_cnt; bits = block }) false >>= λ b. ok (some b)
  | none ↦
      if bit_cnt == 0
      then (bitmap_set_all (record { bit_cnt = bit_cnt; bits = [] }) false >>= λ b. ok (some b))
      else ok none
]
