-- ===== src/Hash/Moves.antt =====
-- Moving elements between buckets.
use Prim.Native.Nat.{bit_and, bit_and-bitwise, digits, min}
use eda.Prelude.{
  ℕ, zero, suc, ◌+◌, ◌-◌, ◌^◌, ◌/◌, ◌%◌, ◌<◌, ◌≤◌, ◌≡◌, refl, sym, ◌∙◌, ap, ◌&&◌, true, false, List,
  [], ◌∷◌, ltb, leb, ◌==◌, if◌then◌else◌, arith, Bool-cases, inl, inr, ==_iff,
}
use eda.Prelude.Members.{update, erase}
use eda.Hash.{
  Hash, find_bucket, turn_off_least_1bit, is_power_of_2, power_loop, new_bucket_cnt, move_bucket,
  move_loop,
}

-- How often an element stands in a bucket
unfoldable pub occurrences : ℕ → List ℕ → ℕ
occurrences e [] = 0
occurrences e (x ∷ xs) = (if e == x then 1 else 0) + occurrences e xs

pub occurrences-erase :
    (e x : ℕ) (xs : List ℕ)
    → occurrences e (erase x xs) ≡ (if e == x then occurrences e xs - 1 else occurrences e xs)
unfolding occurrences erase
occurrences-erase e x [] = ground arith
occurrences-erase e x (y ∷ ys) = ground (arith, occurrences-erase e x ys)

pub occurrences-update :
    (e i b x : ℕ) (buckets : ℕ → List ℕ)
    → occurrences e (update buckets b (x ∷ buckets b) i)
      ≡ (if i == b then (if e == x then 1 else 0) else 0) + occurrences e (buckets i)
unfolding occurrences
occurrences-update e i b x buckets = elim (Bool-cases (i == b)) [
  | inl u ↦ let at : i ≡ b = (==_iff i b).0 u in rw (u, at) refl
  | inr u ↦ rw u (omega arith)
]

-- So often if it is the bucket of the element
abbrev pub at_bucket : Hash → ℕ → ℕ → ℕ → ℕ
at_bucket h e i n = if i == find_bucket h e then n else 0

pub move_bucket-occurrences :
    (h : Hash) (buckets : ℕ → List ℕ) (es : List ℕ) (e i : ℕ)
    → occurrences e (move_bucket h buckets es i)
      ≡ at_bucket h e i (occurrences e es) + occurrences e (buckets i)
unfolding move_bucket occurrences
move_bucket-occurrences h buckets [] e i = ground arith
move_bucket-occurrences h buckets (x ∷ es) e i =
    let b = find_bucket h x in
    let rest = move_bucket-occurrences h (update buckets b (x ∷ buckets b)) es e i in
    let one = occurrences-update e i b x buckets in
    elim (Bool-cases (e == x)) [
      | inl u ↦
          let same : b ≡ find_bucket h e = ap (find_bucket h) (sym ((==_iff e x).0 u)) in
          rest ∙ rw (one, u, same) (ground arith)
      | inr u ↦ rest ∙ rw (one, u) (ground arith)
    ]

-- How often an element stands in `n` buckets from one on
unfoldable pub all_occurrences : ℕ → (ℕ → List ℕ) → ℕ → ℕ → ℕ
all_occurrences e old i zero = 0
all_occurrences e old i (suc n) = occurrences e (old i) + all_occurrences e old (i + 1) n

pub move_loop-occurrences :
    (n : ℕ) (h : Hash) (old buckets : ℕ → List ℕ) (e i k : ℕ)
    → occurrences e (move_loop n k h old buckets i)
      ≡ at_bucket h e i (all_occurrences e old k n) + occurrences e (buckets i)
unfolding move_loop all_occurrences
move_loop-occurrences zero h old buckets e i k = ground arith
move_loop-occurrences (suc n) h old buckets e i k =
    move_loop-occurrences n h old (move_bucket h buckets (old k)) e i (k + 1)
    ∙ ground (arith, move_bucket-occurrences h buckets (old k) e i)

-- An element that stands in one bucket only
pub all_occurrences-one :
    (e : ℕ) (old : ℕ → List ℕ) (i n b : ℕ)
    → ((j : ℕ) → (j == b) ≡ false → occurrences e (old j) ≡ 0)
    → all_occurrences e old i n ≡ (if leb i b && ltb b (i + n) then occurrences e (old b) else 0)
unfolding all_occurrences
all_occurrences-one e old i zero b h = ground arith
all_occurrences-one e old i (suc n) b h =
    let rest = all_occurrences-one e old (i + 1) n b h in
    elim (Bool-cases (i == b)) [
      | inl u ↦
          let at = ap (λ x. occurrences e (old x)) ((==_iff i b).0 u) in ground (arith, rest, at, u)
      | inr u ↦ ground (arith, rest, h i u, u)
    ]

-- Masks and powers of 2
digits_le : (n a b : ℕ) → digits (λ y. zero) min n a b ≤ b
digits_le zero a b = omega arith
digits_le (suc n) zero b = omega arith
digits_le (suc n) (suc a) b = omega (arith, digits_le n (suc a / 2) (b / 2))

pub bit_and-le : (x m : ℕ) → bit_and x m ≤ m
bit_and-le x m = omega (arith, bit_and-bitwise x m, digits_le x x m)

turn_off_lt : (x : ℕ) → 0 < x → x < 2 ^ 32 → turn_off_least_1bit x < x
turn_off_lt x pos h =
    let less_one : (x + 2 ^ 32 - 1) % 2 ^ 32 ≡ x - 1 = omega (arith, pos, h) in
    let le = bit_and-le x ((x + 2 ^ 32 - 1) % 2 ^ 32) in omega (arith, le, less_one, pos)

power_loop-is_power_of_2 :
    (fuel x : ℕ) → 0 < x → x ≤ fuel → x < 2 ^ 32 → is_power_of_2 (power_loop fuel x) ≡ true
unfolding power_loop
power_loop-is_power_of_2 zero x pos le h = absurd (omega (arith, pos, le))
power_loop-is_power_of_2 (suc n) x pos le h = elim (Bool-cases (is_power_of_2 x)) [
  | inl u ↦ rw u u
  | inr u ↦
      let falls = turn_off_lt x pos h in
      let some_left : 0 < turn_off_least_1bit x = ground (arith, u, pos) in
      rw u (
        power_loop-is_power_of_2 n (turn_off_least_1bit x) some_left (omega (arith, falls, le))
          (omega (arith, falls, h)))
]

pub new_bucket_cnt-is_power_of_2 :
    (elem_cnt : ℕ) → elem_cnt < 2 ^ 32 → is_power_of_2 (new_bucket_cnt elem_cnt) ≡ true
unfolding new_bucket_cnt
new_bucket_cnt-is_power_of_2 elem_cnt h =
    power_loop-is_power_of_2 _ _ (ground arith) (omega arith) (ground (arith, h))
