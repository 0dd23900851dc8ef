-- ===== src/Strings.antt =====
-- mount/lab2/pintos/src/lib/string.c: blocks of bytes and strings in memory, a byte for each address. A
-- `char` is its byte. A loop over a string runs on fuel, the number of bytes it may look at; without
-- enough it returns `none`.
pub mod Blocks
pub mod Text
use eda.Prelude.{
  ℕ, zero, suc, ◌+◌, ◌-◌, ◌&&◌, ◌||◌, Bool, true, false, not, Option, none, some, ltb, leb, ◌==◌,
  if◌then◌else◌, Result, ok, panic, fault, ◌>>=◌, ◌>>◌, assert,
}
use eda.Prelude.Members.{update}
use eda.Palloc.{Memory}

-- `while (size-- > 0) *dst++ = *src++;`
unfoldable pub copy_up : Memory → ℕ → ℕ → ℕ → Memory
copy_up m dst src zero = m
copy_up m dst src (suc n) = copy_up (update m dst (m src)) (dst + 1) (src + 1) n

-- `while (size-- > 0) *--dst = *--src;` from the ends of the blocks
unfoldable pub copy_down : Memory → ℕ → ℕ → ℕ → Memory
copy_down m dst src zero = m
copy_down m dst src (suc n) = copy_down (update m (dst + n) (m (src + n))) dst src n

-- `ASSERT (p != NULL || size == 0)`
abbrev pub assert_block : ℕ → ℕ → Result (Unit {0})
assert_block p size = assert (not (p == 0) || size == 0)

unfoldable pub memcpy : Memory → ℕ → ℕ → ℕ → Result (ℕ × Memory)
memcpy m dst src size =
    assert_block dst size >> (assert_block src size >> ok (dst, copy_up m dst src size))

-- The pointer returned is what `dst` has become.
unfoldable pub memmove : Memory → ℕ → ℕ → ℕ → Result (ℕ × Memory)
memmove m dst src size =
    assert_block dst size
    >> (assert_block src size
        >> (if ltb dst src
            then ok (dst + size, copy_up m dst src size)
            else ok (dst, copy_down m dst src size)))

-- The order of two blocks: below, equal or above.
pub data Order : Type 0 where
  below equal above : Order

unfoldable pub memcmp_loop : Memory → ℕ → ℕ → ℕ → Order
memcmp_loop m a b zero = equal
memcmp_loop m a b (suc n) =
    if m a == m b then memcmp_loop m (a + 1) (b + 1) n else if ltb (m b) (m a) then above else below

unfoldable pub memcmp : Memory → ℕ → ℕ → ℕ → Result Order
memcmp m a b size = assert_block a size >> (assert_block b size >> ok (memcmp_loop m a b size))

-- The result 0 is NULL.
unfoldable pub memchr_loop : Memory → ℕ → ℕ → ℕ → ℕ
memchr_loop m block ch zero = 0
memchr_loop m block ch (suc n) = if m block == ch then block else memchr_loop m (block + 1) ch n

unfoldable pub memchr : Memory → ℕ → ℕ → ℕ → Result ℕ
memchr m block ch size = assert_block block size >> ok (memchr_loop m block ch size)

unfoldable pub fill : Memory → ℕ → ℕ → ℕ → Memory
fill m dst value zero = m
fill m dst value (suc n) = fill (update m dst value) (dst + 1) value n

unfoldable pub memset : Memory → ℕ → ℕ → ℕ → Result (ℕ × Memory)
memset m dst value size = assert_block dst size >> ok (dst, fill m dst value size)

unfoldable pub strlen_loop : Memory → ℕ → ℕ → Option ℕ
strlen_loop m p zero = none
strlen_loop m p (suc fuel) = if m p == 0 then some p else strlen_loop m (p + 1) fuel

-- The result of a loop, or the access that follows where its bound is passed.
abbrev pub within_fuel {ℓ} : {A : Type ℓ} → Option A → Result A
within_fuel (some a) = ok a
within_fuel none = fault

unfoldable pub strlen : ℕ → Memory → ℕ → Result ℕ
strlen fuel m string =
    assert (not (string == 0)) >> (within_fuel (strlen_loop m string fuel) >>= λ p. ok (p - string))

unfoldable pub strchr_loop : Memory → ℕ → ℕ → ℕ → Option ℕ
strchr_loop m string c zero = none
strchr_loop m string c (suc fuel) =
    if m string == c
    then some string
    else if m string == 0
    then some 0
    else strchr_loop m (string + 1) c fuel

unfoldable pub strchr : ℕ → Memory → ℕ → ℕ → Result ℕ
strchr fuel m string c = assert (not (string == 0)) >> within_fuel (strchr_loop m string c fuel)

unfoldable pub strlcpy : ℕ → Memory → ℕ → ℕ → ℕ → Result (ℕ × Memory)
strlcpy fuel m dst src size = do
  assert (not (dst == 0))
  assert (not (src == 0))
  src_len ← strlen fuel m src
  if size == 0 then ok (src_len, m) else (do
    let dst_len = if ltb src_len (size - 1) then src_len else size - 1
    r ← memcpy m dst src dst_len
    ok (src_len, update r.1 (dst + dst_len) 0))

unfoldable pub strlcat : ℕ → Memory → ℕ → ℕ → ℕ → Result (ℕ × Memory)
strlcat fuel m dst src size = do
  assert (not (dst == 0))
  assert (not (src == 0))
  src_len ← strlen fuel m src
  dst_len ← strlen fuel m dst
  if not (size == 0) && ltb dst_len size
      then (do
        let room = size - dst_len - 1
        let copy_cnt = if ltb src_len room then src_len else room
        r ← memcpy m (dst + dst_len) src copy_cnt
        ok (src_len + dst_len, update r.1 (dst + dst_len + copy_cnt) 0))
      else ok (src_len + dst_len, m)
