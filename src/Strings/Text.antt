-- ===== src/Strings/Text.antt =====
-- Strings that end with a zero byte: their length, searching and copying.
use eda.Prelude.{
  ℕ, zero, suc, ◌+◌, ◌-◌, ◌<◌, ◌≡◌, ◌≢◌, refl, sym, ◌∙◌, ap, ◌&&◌, ◌||◌, true, false, ◌==◌, ==-ne,
  ==_iff, ltb, leb, arith, Bool-cases, inl, inr, if◌then◌else◌, ok, some,
}
use mathlib.Core.Path.{subst}
use eda.Prelude.Members.{update}
use eda.Palloc.{Memory}
use eda.Strings.{
  memcpy, Order, below, equal, above, memcmp_loop, memcmp, strlen_loop, strlen, strlcpy,
}
use eda.Strings.Blocks.{moved, memcpy-moved}

-- The string at `p` has `n` bytes before its zero byte.
pub record IsString (m : Memory) (p n : ℕ) : Type 0 where
  pub inside : (i : ℕ) → i < n → m (p + i) ≢ 0
  pub ends : m (p + n) ≡ 0

strlen_loop-end :
    (m : Memory) (p n fuel : ℕ)
    → n < fuel
    → ((i : ℕ) → i < n → m (p + i) ≢ 0)
    → m (p + n) ≡ 0
    → strlen_loop m p fuel ≡ some (p + n)
unfolding strlen_loop
strlen_loop-end m p n zero lt inside ends = absurd (omega arith)
strlen_loop-end m p zero (suc fuel) lt inside ends =
    let e : p + 0 ≡ p = omega arith in
    let z : (m p == 0) ≡ true = (==_iff (m p) 0).1 (ap m (sym e) ∙ ends) in rw (z, e) refl
strlen_loop-end m p (suc n) (suc fuel) lt inside ends =
    let e : p + 0 ≡ p = omega arith in
    let next : p + 1 + n ≡ p + suc n = omega arith in
    let z : (m p == 0) ≡ false = ==-ne (m p) 0 (λ h. inside 0 (omega arith) (ap m e ∙ h)) in
    let shift : (i : ℕ) → i < n → m (p + 1 + i) ≢ 0 =
      λ i l h. inside (i + 1) (omega arith) (ap m (shifted i) ∙ h) in
    rw z (strlen_loop-end m (p + 1) n fuel (omega arith) shift (ap m next ∙ ends) ∙ ap some next)
  where
    shifted : (i : ℕ) → p + (i + 1) ≡ p + 1 + i
    shifted i = omega arith

-- `strlen` of a string returns its length, on any fuel above it.
pub strlen_lem :
    {m : Memory} {p n : ℕ} (fuel : ℕ) → IsString m p n → p ≢ 0 → n < fuel → strlen fuel m p ≡ ok n
unfolding strlen
strlen_lem {m} {p} {n} fuel s ne lt =
    let e : p + n - p ≡ n = omega arith in
    rw (==-ne p 0 ne, strlen_loop-end m p n fuel lt s.inside s.ends, e) refl

-- What `memcmp` tells of the bytes at `a` and `b`: all the same, or the first two that differ.
pub data Compared (m : Memory) (a b n : ℕ) : Order → Type 0 where
  alike : ((i : ℕ) → i < n → m (a + i) ≡ m (b + i)) → Compared m a b n equal
  differs :
      (i : ℕ) (o : Order)
      → i < n
      → ((j : ℕ) → j < i → m (a + j) ≡ m (b + j))
      → m (a + i) ≢ m (b + i)
      → o ≡ (if ltb (m (b + i)) (m (a + i)) then above else below)
      → Compared m a b n o

shifted_byte : (m : Memory) (p i : ℕ) → m (p + 1 + i) ≡ m (p + suc i)
shifted_byte m p i = ap m (omega arith)

-- Bytes that agree at the front and from the next position on.
agree-suc :
    (m : Memory) (a b n : ℕ)
    → m a ≡ m b
    → ((i : ℕ) → i < n → m (a + 1 + i) ≡ m (b + 1 + i))
    → (i : ℕ) → i < suc n
    → m (a + i) ≡ m (b + i)
agree-suc m a b n e h zero lt =
    let p : a + 0 ≡ a = omega arith in let q : b + 0 ≡ b = omega arith in ap m p ∙ e ∙ ap m (sym q)
agree-suc m a b n e h (suc i) lt = sym (shifted_byte m a i) ∙ h i (omega arith) ∙ shifted_byte m b i

Compared-suc :
    {m : Memory} (a b n : ℕ) {o : Order}
    → m a ≡ m b
    → Compared m (a + 1) (b + 1) n o
    → Compared m a b (suc n) o
Compared-suc {m} a b n e (alike h) = alike (agree-suc m a b n e h)
Compared-suc {m} a b n e (differs i o lt before ne r) =
    differs (suc i) o (omega arith) (λ j l. agree-suc m a b i e before j l)
      (λ z. ne (shifted_byte m a i ∙ z ∙ sym (shifted_byte m b i)))
      (subst (λ x. o ≡ (if ltb (m (b + suc i)) x then above else below)) (shifted_byte m a i)
        (subst (λ x. o ≡ (if ltb x (m (a + 1 + i)) then above else below)) (shifted_byte m b i) r))

memcmp_loop-Compared : (m : Memory) (a b n : ℕ) → Compared m a b n (memcmp_loop m a b n)
unfolding memcmp_loop
memcmp_loop-Compared m a b zero = alike (λ i lt. absurd (omega arith))
memcmp_loop-Compared m a b (suc n) = elim (Bool-cases (m a == m b)) [
  | inl e ↦
      rw e
        (Compared-suc a b n ((==_iff (m a) (m b)).0 e) (memcmp_loop-Compared m (a + 1) (b + 1) n))
  | inr e ↦ rw e (
      differs 0 (if ltb (m b) (m a) then above else below) (omega arith)
        (λ j lt. absurd (omega arith)) (λ z. absurd (ground (arith, front a, front b)))
        (rw (front a, front b) refl))
]
  where
    front : (p : ℕ) → m (p + 0) ≡ m p
    front p = ap m (omega arith)

-- `memcmp` of blocks at addresses other than NULL returns; it tells whether they are the same, and else
-- how the first bytes that differ compare.
pub memcmp-Compared :
    (m : Memory) (a b size : ℕ)
    → a ≢ 0
    → b ≢ 0
    → (o : Order) × (memcmp m a b size ≡ ok o) × Compared m a b size o
unfolding memcmp
memcmp-Compared m a b size na nb =
    (memcmp_loop m a b size, rw (==-ne a 0 na, ==-ne b 0 nb) refl, memcmp_loop-Compared m a b size)

-- The number of characters of a string of length `n` that fit into `size` bytes.
abbrev pub fitting : ℕ → ℕ → ℕ
fitting n size = if ltb n (size - 1) then n else size - 1

-- `strlcpy` of a string into a block of `size` bytes, not 0, that does not overlap it returns the length
-- of the string, on any fuel above it. Then there is a string at `dst`, the front of the one at `src`
-- that fits, and the bytes outside it are as before.
pub strlcpy-IsString :
    {m : Memory} {src n : ℕ} (fuel dst size : ℕ)
    → IsString m src n
    → n < fuel
    → src ≢ 0
    → dst ≢ 0
    → 0 < size
    → (leb (dst + size) src || leb (src + n + 1) dst) ≡ true
    → (m' : Memory) × (strlcpy fuel m dst src size ≡ ok (n, m'))
      × IsString m' dst (fitting n size)
      × ((i : ℕ) → i < fitting n size → m' (dst + i) ≡ m (src + i))
      × ((a : ℕ) → (leb dst a && ltb a (dst + fitting n size + 1)) ≡ false → m' a ≡ m a)
unfolding strlcpy
strlcpy-IsString {m} {src} {n} fuel dst size s lt ns nd pos apart =
    let len = strlen_lem fuel s ns lt in
    let (m1, run, eff) = memcpy-moved m dst src (fitting n size) nd ns (ground arith) in
    finish m1 run eff len
  where
    finish :
        (m1 : Memory)
        → memcpy m dst src (fitting n size) ≡ ok (dst, m1)
        → ((a : ℕ) → m1 a ≡ moved m dst src (fitting n size) a)
        → strlen fuel m src ≡ ok n
        → (m' : Memory) × (strlcpy fuel m dst src size ≡ ok (n, m'))
          × IsString m' dst (fitting n size)
          × ((i : ℕ) → i < fitting n size → m' (dst + i) ≡ m (src + i))
          × ((a : ℕ) → (leb dst a && ltb a (dst + fitting n size + 1)) ≡ false → m' a ≡ m a)
    finish m1 run eff len = (
      update m1 (dst + fitting n size) 0,
      rw (==-ne dst 0 nd, ==-ne src 0 ns, len, ==-ne size 0 (omega arith), run) refl,
      record {
        inside = λ i l z. s.inside i (ground (arith, l)) (sym (copied i l) ∙ z);
        ends = ground arith;
      },
      λ i l. copied i l,
      λ a out. kept a out,
    )
      where
        copied :
            (i : ℕ)
            → i < fitting n size
            → update m1 (dst + fitting n size) 0 (dst + i) ≡ m (src + i)
        copied i l =
            let c : (dst + i == dst + fitting n size) ≡ false =
              ==-ne (dst + i) (dst + fitting n size) (λ e. omega (arith, l, e)) in
            let w : (leb dst (dst + i) && ltb (dst + i) (dst + fitting n size)) ≡ true =
              ground (arith, l) in
            let q : dst + i - dst + src ≡ src + i = omega arith in
            rw c (eff (dst + i) ∙ rw (w, q) refl)

        kept :
            (a : ℕ)
            → (leb dst a && ltb a (dst + fitting n size + 1)) ≡ false
            → update m1 (dst + fitting n size) 0 a ≡ m a
        kept a out =
            let c : (a == dst + fitting n size) ≡ false =
              ==-ne a (dst + fitting n size) (λ e. absurd (ground (arith, out, e))) in
            let w : (leb dst a && ltb a (dst + fitting n size)) ≡ false = ground (arith, out) in
            rw c (eff a ∙ rw w refl)
