-- ===== src/Division/Quotient.antt =====
-- The quotient of two words of 64 bits.
use native.Mathlib.Nat.{
  div-eq_of_lt, mul-le-mul_left, mul-le-mul_right, lt_of_mul-lt-mul_right, add-mul-div_left,
  div-add-mod, div-lt_iff_lt-mul, div-div-eq-div-mul, mod-lt, div-le_self, le-div_iff_mul-le,
  mul-div-mul_left, pow-suc, zero-add, suc-add, mul-div-le, lt-mul-div-succ,
}
use eda.Prelude.{
  ℕ, zero, suc, ◌+◌, ◌-◌, ◌*◌, ◌/◌, ◌%◌, ◌^◌, ◌<◌, ◌≤◌, ◌≡◌, ◌≢◌, ◌⊎◌, refl, sym, ◌∙◌, ap, false,
  ltb, leb, ◌==◌, ==-ne, arith, Bool-cases, inl, inr, if◌then◌else◌, ok,
}
use eda.Division.{divl, nlz, udiv_short, udiv_long, udiv64, umod64, udivdi3, umoddi3}

nlz_lem :
    (x : ℕ)
    → x ≢ 0
    → x < 2 ^ 32
    → (nlz x ≤ 31) × (2 ^ 31 ≤ x * 2 ^ nlz x) × (x * 2 ^ nlz x < 2 ^ 32)
unfolding nlz
nlz_lem x ne lt = ground arith

leb-gt : (a b : ℕ) → b < a → leb a b ≡ false
leb-gt a b h = ground arith

divl-fits : (n d : ℕ) → 0 < d → n / d < 2 ^ 32 → divl n d ≡ ok (n / d)
unfolding divl
divl-fits n d pos h =
    let halves : n / 2 ^ 32 * 2 ^ 32 + n % 2 ^ 32 ≡ n = omega arith in
    rw (==-ne d 0 (omega arith), halves, leb-gt (2 ^ 32) (n / d) h) refl

udiv_short_lem : (n d : ℕ) → n < 2 ^ 64 → 0 < d → d < 2 ^ 32 → udiv_short n d ≡ ok (n / d)
unfolding udiv_short
udiv_short_lem n d hn pos hd =
    let n1 = n / 2 ^ 32 in
    let n0 = n % 2 ^ 32 in
    let a = n1 / d in
    let r = n1 % d in
    let r_lt : r < d = mod-lt n1 pos in
    let x = 2 ^ 32 * r + n0 in
    let fits : x < 2 ^ 32 * d = omega arith in
    let x_lt : x < 2 ^ 64 = omega (arith, fits, hd) in
    let small : x / d < 2 ^ 32 = (div-lt_iff_lt-mul pos).1 fits in
    let whole : n ≡ x + d * (2 ^ 32 * a) = omega (arith, div-add-mod n1 d) in
    let split : n / d ≡ x / d + 2 ^ 32 * a =
      ap (λ m. m / d) whole ∙ add-mul-div_left x (2 ^ 32 * a) pos in
    let whole_lt : x / d + 2 ^ 32 * a < 2 ^ 64 = omega (arith, split, div-le_self n d, hn) in
    let no_wrap : x % 2 ^ 64 ≡ x = omega (arith, x_lt) in
    let no_wrap1 : (x / d + 2 ^ 32 * a) % 2 ^ 64 ≡ x / d + 2 ^ 32 * a = omega (arith, whole_lt) in
    rw (==-ne d 0 (omega arith), no_wrap, divl-fits x d pos small, no_wrap1) (ap ok (sym split))

pow-add : (s t : ℕ) → 2 ^ s * 2 ^ t ≡ 2 ^ (s + t)
pow-add zero t = omega (arith, ap (λ k. 2 ^ k) (zero-add t))
pow-add (suc s) t = omega (
  arith,
  ap (λ x. x * 2 ^ t) (pow-suc 2 s),
  pow-suc 2 (s + t),
  ap (λ k. 2 ^ k) (suc-add s t),
  pow-add s t,
)

-- How far the quotient by the upper bits of the divisor can be off: `c` is the part of the divisor
-- that is kept, a multiple of `p` of at least 2 ^ 31 times it.
module _ (n d v p s : ℕ) (scaled : s * p ≡ 2 ^ 32) (v_is : v ≡ d / p) (v_large : 2 ^ 31 ≤ v)
    (hn : n < 2 ^ 64) (p_even : (p ≡ 2) ⊎ (4 ≤ p)) where
  p_pos : 0 < p
  p_pos = elim p_even [ inl e ↦ omega (arith, e) | inr h ↦ omega (arith, h) ]

  kept_le : v * p ≤ d
  kept_le = omega (arith, mul-div-le d p, ap (λ x. x * p) v_is)

  kept_near : d < v * p + p
  kept_near = omega (arith, lt-mul-div-succ d p_pos, ap (λ x. x * p) v_is)

  kept_large : 2 ^ 31 * p ≤ v * p
  kept_large = mul-le-mul_right p v_large

  kept_pos : 0 < v * p
  kept_pos = omega (arith, kept_large, p_pos)

  estimate-le : n / d ≤ n / (v * p)
  estimate-le =
      (le-div_iff_mul-le kept_pos).1
        (omega (arith, mul-div-le n d, mul-le-mul_left (n / d) kept_le))

  quotient_small : n / d + 1 ≤ 2 * s
  quotient_small =
      let q = n / d in
      let scaled_q : q * (2 ^ 31 * p) ≤ n =
        omega (arith, mul-div-le n d, mul-le-mul_left q kept_le, mul-le-mul_left q kept_large) in
      let bound : q * p < 2 * s * p = omega (arith, scaled_q, scaled, hn) in
      let less : q < 2 * s = lt_of_mul-lt-mul_right p bound in omega (arith, less)

  rest_le : (n / d + 1) * (p - 1) ≤ v * p
  rest_le =
      let scaled_rest : (n / d + 1) * (p - 1) ≤ 2 * s * (p - 1) =
        mul-le-mul_right (p - 1) quotient_small in
      elim p_even [
        | inl e ↦ omega (
          arith,
          scaled_rest,
          kept_large,
          ap (λ x. 2 * s * (x - 1)) e,
          ap (λ x. s * x) e,
          scaled,
          e,
        )
        | inr h ↦
            let product : 2 * s * (p - 1) + 2 * s ≡ 2 * (s * p) =
              omega (arith, ap (λ x. 2 * (s * x)) {x = p} {y = p - 1 + 1} (omega (arith, h))) in
            omega (arith, scaled_rest, kept_large, product, scaled, h)
      ]

  estimate_lt : n / (v * p) < n / d + 2
  estimate_lt =
      let q = n / d in
      let below : n < d * (q + 1) = lt-mul-div-succ n d_pos in
      let split : d * (q + 1) ≤ (v * p + (p - 1)) * (q + 1) =
        mul-le-mul_right (q + 1) (omega (arith, kept_near, p_pos)) in
      (div-lt_iff_lt-mul kept_pos).1 (omega (arith, below, split, rest_le))
    where
      d_pos : 0 < d
      d_pos = omega (arith, kept_le, kept_pos)

-- The last step: of an estimate that is right or one too large, the right one is taken.
corrected :
    (n d q : ℕ)
    → n < 2 ^ 64
    → 0 < d
    → d ≤ n
    → n / d ≤ q
    → q < n / d + 2
    → (if ltb ((n + 2 ^ 64 - (q + 2 ^ 64 - 1) % 2 ^ 64 * d % 2 ^ 64) % 2 ^ 64) d
        then ok ((q + 2 ^ 64 - 1) % 2 ^ 64)
        else ok q)
      ≡ ok (n / d)
corrected n d q hn pos le lo hi =
    let one : 1 ≤ n / d = (le-div_iff_mul-le pos).1 (omega (arith, le)) in
    let q_le : n / d ≤ n = div-le_self n d in
    let q1 : (q + 2 ^ 64 - 1) % 2 ^ 64 ≡ q - 1 = omega (arith, one, lo, hi, q_le, hn) in
    rw q1 (go one (Q-cases lo hi))
  where
    Q-cases : n / d ≤ q → q < n / d + 2 → (q ≡ n / d) ⊎ (q ≡ n / d + 1)
    Q-cases a b = grind arith

    go :
        1 ≤ n / d
        → (q ≡ n / d) ⊎ (q ≡ n / d + 1)
        → (if ltb ((n + 2 ^ 64 - (q - 1) * d % 2 ^ 64) % 2 ^ 64) d then ok (q - 1) else ok q)
          ≡ ok (n / d)
    go one (inl e) =
        let low : (q - 1) * d + d ≤ n = omega (
          arith,
          mul-div-le n d,
          ap (λ x. x * d) e,
          ap (λ x. x * d) {x = q} {y = q - 1 + 1} (omega (arith, e, one)),
        ) in
        ground (arith, low, e, hn)
    go one (inr e) =
        let same_q : q - 1 ≡ n / d = omega (arith, e) in
        let low : (q - 1) * d ≤ n = omega (arith, mul-div-le n d, ap (λ x. x * d) same_q) in
        let high : n < (q - 1) * d + d =
          omega (arith, lt-mul-div-succ n pos, ap (λ x. x * d) same_q) in
        ground (arith, low, high, same_q, hn)

pos_of_product : (s x : ℕ) → 2 ^ 31 ≤ x * s → 0 < s
pos_of_product zero x h = absurd (omega (arith, h))
pos_of_product (suc s) x h = omega arith

even_cases : (h : ℕ) → 0 < h → (2 * h ≡ 2) ⊎ (4 ≤ 2 * h)
even_cases zero pos = absurd (omega arith)
even_cases (suc zero) pos = inl refl
even_cases (suc (suc h)) pos = inr (omega arith)

udiv_long_lem :
    (n d : ℕ) → n < 2 ^ 64 → d < 2 ^ 64 → 2 ^ 32 ≤ d → d ≤ n → udiv_long n d ≡ ok (n / d)
unfolding udiv_long
udiv_long_lem n d hn hd big le =
    let d1 = d / 2 ^ 32 in
    let t = nlz d1 in
    let (t_le, lo, hi) = nlz_lem d1 (omega (arith, big)) (omega (arith, hd)) in
    let s = 2 ^ t in
    let h = 2 ^ (31 - t) in
    let p = 2 * h in
    let s_pos : 0 < s = pos_of_product s d1 lo in
    let sh : s * h ≡ 2 ^ 31 =
      pow-add t (31 - t) ∙ ap (λ k. 2 ^ k) {x = t + (31 - t)} {y = 31} (omega (arith, t_le)) in
    let scaled : s * p ≡ 2 ^ 32 = omega (arith, sh) in
    let v = d * s % 2 ^ 64 / 2 ^ 32 in
    let no_wrap : d * s < 2 ^ 64 =
      let below : d1 < p = lt_of_mul-lt-mul_right s (omega (arith, hi, scaled)) in
      let upper : (d1 + 1) * s ≤ p * s = mul-le-mul_right s (omega (arith, below)) in
      let whole : (d + 1) * s ≤ (d1 + 1) * 2 ^ 32 * s = mul-le-mul_right s (omega arith) in
      omega (arith, upper, whole, scaled, s_pos) in
    let v_is : v ≡ d / p =
      ap (λ x. x / 2 ^ 32) {x = d * s % 2 ^ 64} {y = s * d} (omega (arith, no_wrap))
      ∙ ap (λ x. s * d / x) (sym scaled)
      ∙ mul-div-mul_left d p s_pos in
    let v_large : 2 ^ 31 ≤ v =
      omega (arith, no_wrap, lo, mul-le-mul_right {m = d1 * 2 ^ 32} {n = d} s (omega arith)) in
    let p_even : (p ≡ 2) ⊎ (4 ≤ p) = even_cases h (pos_of_product h s (omega (arith, sh))) in
    let fits : n / 2 / v < 2 ^ 32 =
      (div-lt_iff_lt-mul (omega (arith, v_large))).1 (omega (arith, v_large, hn)) in
    let q_is : n / 2 / v / h ≡ n / (v * p) =
      ap (λ x. x / h) (div-div-eq-div-mul n 2 v)
      ∙ div-div-eq-div-mul n (2 * v) h
      ∙ ap (λ x. n / x) {x = 2 * v * h} {y = v * p} (omega arith) in
    rw (divl-fits (n / 2) v (omega (arith, v_large)) fits) (
      corrected n d (n / 2 / v / h) hn (omega (arith, big)) le
        (omega (arith, q_is, estimate-le n d v p s scaled v_is v_large hn p_even))
        (omega (arith, q_is, estimate_lt n d v p s scaled v_is v_large hn p_even)))

pub udiv64_lem : (n d : ℕ) → n < 2 ^ 64 → d < 2 ^ 64 → 0 < d → udiv64 n d ≡ ok (n / d)
unfolding udiv64
udiv64_lem n d hn hd pos = elim (Bool-cases (d / 2 ^ 32 == 0)) [
  | inl e ↦ rw e (udiv_short_lem n d hn pos (ground arith))
  | inr e ↦ elim (Bool-cases (ltb n d)) [
    | inl u ↦ rw (e, u) (ap ok (sym (div-eq_of_lt (ground arith))))
    | inr u ↦ rw (e, u) (udiv_long_lem n d hn hd (ground arith) (ground arith))
  ]
]

-- The quotient is the one of the numbers, and no division error occurs; the remainder is cut to its lower
-- 32 bits.
pub udivdi3-umoddi3 :
    (n d : ℕ)
    → n < 2 ^ 64
    → d < 2 ^ 64
    → 0 < d
    → (udivdi3 n d ≡ ok (n / d)) × (umoddi3 n d ≡ ok (n % d % 2 ^ 32))
unfolding udivdi3 umoddi3 umod64
udivdi3-umoddi3 n d hn hd pos =
    let quotient = udiv64_lem n d hn hd pos in
    let rest : (n + 2 ^ 64 - d * (n / d) % 2 ^ 64) % 2 ^ 64 ≡ n % d =
      omega (arith, div-add-mod n d, hn) in
    (quotient, rw quotient (ap (λ r. ok (r % 2 ^ 32)) rest))
