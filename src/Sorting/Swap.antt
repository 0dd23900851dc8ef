-- ===== src/Sorting/Swap.antt =====
-- Swapping two elements, and permutations.
use eda.Prelude.{
  ℕ, zero, suc, ◌+◌, ◌<◌, ◌≤◌, ◌≡◌, refl, ◌∙◌, ap, ◌&&◌, true, false, ltb, leb, ◌==◌, if◌then◌else◌,
  arith, Bool-cases, inl, inr,
}
use eda.Sorting.{Array, bytes_of, elem, swap_byte, swap_loop, do_swap}

bytes_of-same : (n : ℕ) (f g : ℕ → ℕ) → ((i : ℕ) → i < n → f i ≡ g i) → bytes_of n f ≡ bytes_of n g
unfolding bytes_of
bytes_of-same zero f g h = refl
bytes_of-same (suc n) f g h =
    rw
      (
        h 0 (omega arith),
        bytes_of-same n (λ i. f (suc i)) (λ i. g (suc i)) (λ i lt. h (suc i) (omega (arith, lt))),
      )
      refl

-- Two indexes change their places.
abbrev pub flip : ℕ → ℕ → ℕ → ℕ
flip a b k = if k == a then b else if k == b then a else k

swap_byte-flip :
    (array : Array) (a b i k j : ℕ)
    → swap_byte array a b i k j ≡ (if j == i then array (flip a b k) j else array k j)
swap_byte-flip array a b i k j =
    let at : (x y l : ℕ) → x ≡ y → array x l ≡ array y l = λ x y l e. ap (λ z. array z l) e in
    let byte : j ≡ i → (x : ℕ) → array x j ≡ array x i = λ e x. ap (array x) e in
    ground
      (arith, at k a j, at k b j, at b a j, at a b j, at a b i, at b a i, byte, at k a i, at k b i)

swap_loop-flip :
    (n : ℕ) (array : Array) (a b i k j : ℕ)
    → swap_loop n array a b i k j
      ≡ (if leb i j && ltb j (i + n) then array (flip a b k) j else array k j)
unfolding swap_loop
swap_loop-flip zero array a b i k j = ground arith
swap_loop-flip (suc n) array a b i k j =
    let rest = swap_loop-flip n (swap_byte array a b i) a b (i + 1) k j in
    let flipped = swap_byte-flip array a b i (flip a b k) j in
    let kept = swap_byte-flip array a b i k j in
    elim (Bool-cases (j == i)) [
      | inl e ↦
          let done : (leb (i + 1) j && ltb j (i + 1 + n)) ≡ false = ground (arith, e) in
          let inside : (leb i j && ltb j (i + suc n)) ≡ true = ground (arith, e) in
          rw inside (rest ∙ rw (done, kept, e) refl)
      | inr e ↦ elim (Bool-cases (leb (i + 1) j && ltb j (i + 1 + n))) [
        | inl u ↦
            let inside : (leb i j && ltb j (i + suc n)) ≡ true = ground (arith, u) in
            rw inside (rest ∙ rw (u, flipped, e) refl)
        | inr u ↦
            let outside : (leb i j && ltb j (i + suc n)) ≡ false = ground (arith, u, e) in
            rw outside (rest ∙ rw (u, kept, e) refl)
      ]
    ]

pub do_swap-flip :
    (array : Array) (a b size k : ℕ)
    → elem (do_swap array a b size) size k ≡ elem array size (flip a b k)
unfolding do_swap
do_swap-flip array a b size k = bytes_of-same size _ _ (λ i lt.
    let inside : (leb 0 i && ltb i (0 + size)) ≡ true = ground (arith, lt) in
    swap_loop-flip size array a b 0 k i ∙ rw inside refl)

-- The elements of `f`, of the first `n` of which `e` has the same in another order
pub record IsPermuted {ℓ} {A : Type ℓ} (n : ℕ) (e f : ℕ → A) : Type ℓ where
  pub to : ℕ → ℕ
  pub back : ℕ → ℕ
  pub to_range : (k : ℕ) → 1 ≤ k → k ≤ n → (1 ≤ to k) × (to k ≤ n)
  pub back_range : (k : ℕ) → 1 ≤ k → k ≤ n → (1 ≤ back k) × (back k ≤ n)
  pub to_back : (k : ℕ) → 1 ≤ k → k ≤ n → to (back k) ≡ k
  pub back_to : (k : ℕ) → 1 ≤ k → k ≤ n → back (to k) ≡ k
  pub at : (k : ℕ) → 1 ≤ k → k ≤ n → f k ≡ e (to k)
  pub beyond : (k : ℕ) → n < k → f k ≡ e k

pub IsPermuted-refl {ℓ} : {A : Type ℓ} (n : ℕ) (e : ℕ → A) → IsPermuted n e e
IsPermuted-refl n e = record {
  to = λ k. k;
  back = λ k. k;
  to_range = λ k h l. (h, l);
  back_range = λ k h l. (h, l);
  to_back = λ k h l. refl;
  back_to = λ k h l. refl;
  at = λ k h l. refl;
  beyond = λ k h. refl;
}

pub IsPermuted-trans {ℓ} :
    {A : Type ℓ} (n : ℕ) (e f g : ℕ → A) → IsPermuted n e f → IsPermuted n f g → IsPermuted n e g
IsPermuted-trans n e f g p q = record {
  to = λ k. p.to (q.to k);
  back = λ k. q.back (p.back k);
  to_range = λ k h l. let r = q.to_range k h l in p.to_range (q.to k) r.0 r.1;
  back_range = λ k h l. let r = p.back_range k h l in q.back_range (p.back k) r.0 r.1;
  to_back = λ k h l.
      let r = p.back_range k h l in ap p.to (q.to_back (p.back k) r.0 r.1) ∙ p.to_back k h l;
  back_to =
      λ k h l. let r = q.to_range k h l in ap q.back (p.back_to (q.to k) r.0 r.1) ∙ q.back_to k h l;
  at = λ k h l. let r = q.to_range k h l in q.at k h l ∙ p.at (q.to k) r.0 r.1;
  beyond = λ k h. q.beyond k h ∙ p.beyond k h;
}

-- What is permuted in a front is permuted in a longer one.
pub IsPermuted-more {ℓ} :
    {A : Type ℓ} (m n : ℕ) (e f : ℕ → A) → m ≤ n → IsPermuted m e f → IsPermuted n e f
IsPermuted-more m n e f h p = record {
  to = λ k. if leb 1 k && leb k m then p.to k else k;
  back = λ k. if leb 1 k && leb k m then p.back k else k;
  to_range = λ k lo hi. ground (arith, p.to_range k);
  back_range = λ k lo hi. ground (arith, p.back_range k);
  to_back = λ k lo hi. ground (arith, p.back_range k, p.to_back k);
  back_to = λ k lo hi. ground (arith, p.to_range k, p.back_to k);
  at = λ k lo hi. elim (Bool-cases (leb 1 k && leb k m)) [
    | inl u ↦ rw u (p.at k (omega arith) (ground (arith, u)))
    | inr u ↦ rw u (p.beyond k (ground (arith, u)))
  ];
  beyond = λ k lo. p.beyond k (omega arith);
}

pub do_swap-IsPermuted :
    (array : Array) (a b size n : ℕ)
    → 1 ≤ a
    → a ≤ n
    → 1 ≤ b
    → b ≤ n
    → IsPermuted n (elem array size) (elem (do_swap array a b size) size)
do_swap-IsPermuted array a b size n ha la hb lb = record {
  to = flip a b;
  back = flip a b;
  to_range = λ k h l. ground arith;
  back_range = λ k h l. ground arith;
  to_back = λ k h l. ground arith;
  back_to = λ k h l. ground arith;
  at = λ k h l. do_swap-flip array a b size k;
  beyond = λ k h.
      let kept : flip a b k ≡ k = ground arith in
      do_swap-flip array a b size k ∙ ap (elem array size) kept;
}
