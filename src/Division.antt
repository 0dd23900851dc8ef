-- ===== src/Division.antt =====
-- mount/lab2/pintos/src/lib/arithmetic.c: division of 64-bit integers on a machine that divides 64 bits by
-- 32. A word is its bit pattern. A division error of the DIVL instruction is a `fault`.
pub mod Quotient
use eda.Prelude.{
  ℕ, ◌+◌, ◌-◌, ◌*◌, ◌/◌, ◌%◌, ◌^◌, ◌&&◌, ◌||◌, Bool, true, false, ltb, leb, ◌==◌, same,
  if◌then◌else◌, Result, ok, fault, ◌>>=◌,
}

-- The instruction: `n` is in two registers, high and low half; the quotient must fit into one.
unfoldable pub divl : ℕ → ℕ → Result ℕ
divl n d =
    let n1 = n / 2 ^ 32 in
    let n0 = n % 2 ^ 32 in
    if d == 0 || leb (2 ^ 32) ((n1 * 2 ^ 32 + n0) / d) then fault else ok ((n1 * 2 ^ 32 + n0) / d)

-- One step of `nlz`: the count and the word so far
abbrev pub nlz_step : ℕ → ℕ → ℕ × ℕ → ℕ × ℕ
nlz_step limit k (n, x) = if leb x limit then (n + k, x * 2 ^ k % 2 ^ 32) else (n, x)

unfoldable pub nlz : ℕ → ℕ
nlz x0 =
    let (n, x) =
      nlz_step 0x3FFFFFFF 2
        (nlz_step 0x0FFFFFFF 4 (nlz_step 0x00FFFFFF 8 (nlz_step 0x0000FFFF 16 (0, x0)))) in
    if leb x 0x7FFFFFFF then n + 1 else n

-- `udiv64` by a divisor of 32 bits, and by a longer one
unfoldable pub udiv_short : ℕ → ℕ → Result ℕ
udiv_short n d =
    let b = 2 ^ 32 in
    let n1 = n / 2 ^ 32 in
    let n0 = n % 2 ^ 32 in
    if d == 0
    then fault
    else (divl ((b * (n1 % d) + n0) % 2 ^ 64) d >>= λ q. ok ((q + b * (n1 / d)) % 2 ^ 64))

unfoldable pub udiv_long : ℕ → ℕ → Result ℕ
udiv_long n d =
    let s = nlz (d / 2 ^ 32) in
    divl (n / 2) (d * 2 ^ s % 2 ^ 64 / 2 ^ 32) >>= λ q0.
    let q = q0 / 2 ^ (31 - s) in
    let q1 = (q + 2 ^ 64 - 1) % 2 ^ 64 in
    if ltb ((n + 2 ^ 64 - q1 * d % 2 ^ 64) % 2 ^ 64) d then ok q1 else ok q

unfoldable pub udiv64 : ℕ → ℕ → Result ℕ
udiv64 n d = if d / 2 ^ 32 == 0 then udiv_short n d else if ltb n d then ok 0 else udiv_long n d

-- The result is cut to 32 bits.
unfoldable pub umod64 : ℕ → ℕ → Result ℕ
umod64 n d = udiv64 n d >>= λ q. ok ((n + 2 ^ 64 - d * q % 2 ^ 64) % 2 ^ 64 % 2 ^ 32)

-- `n < 0`, and `-n`
abbrev pub is_negative : ℕ → Bool
is_negative n = leb (2 ^ 63) n

abbrev pub negate : ℕ → ℕ
negate n = (2 ^ 64 - n) % 2 ^ 64

abbrev pub magnitude : ℕ → ℕ
magnitude n = if is_negative n then negate n else n

unfoldable pub sdiv64 : ℕ → ℕ → Result ℕ
sdiv64 n d = udiv64 (magnitude n) (magnitude d) >>= λ q.
    ok (if same (is_negative n) (is_negative d) then q else negate q)

-- The result is cut to 32 bits, and its sign extended by the caller.
unfoldable pub smod64 : ℕ → ℕ → Result ℕ
smod64 n d = sdiv64 n d >>= λ q. ok ((n + 2 ^ 64 - d * q % 2 ^ 64) % 2 ^ 64 % 2 ^ 32)

abbrev pub sign_extend : ℕ → ℕ
sign_extend r = if leb (2 ^ 31) r then r + (2 ^ 64 - 2 ^ 32) else r

unfoldable pub divdi3 : ℕ → ℕ → Result ℕ
divdi3 n d = sdiv64 n d

unfoldable pub moddi3 : ℕ → ℕ → Result ℕ
moddi3 n d = smod64 n d >>= λ r. ok (sign_extend r)

unfoldable pub udivdi3 : ℕ → ℕ → Result ℕ
udivdi3 n d = udiv64 n d

unfoldable pub umoddi3 : ℕ → ℕ → Result ℕ
umoddi3 n d = umod64 n d
