-- ===== src/Random/State.antt =====
-- The generator's array is always a permutation of the bytes.
use eda.Prelude.{
  ℕ, zero, suc, ◌+◌, ◌%◌, ◌<◌, ◌≤◌, ◌≡◌, refl, ap, Bool, true, false, List, [], ◌∷◌, if◌then◌else◌,
  arith, length,
}
use eda.Random.{Random, swap_byte, mix_loop, random_init, next_byte, bytes_loop, random_bytes}

-- A permutation of the bytes
pub record IsPermutation (s : ℕ → ℕ) : Type 0 where
  pub bounded : (i : ℕ) → i < 256 → s i < 256
  pub injective : (i j : ℕ) → i < 256 → j < 256 → s i ≡ s j → i ≡ j

swap_byte-IsPermutation :
    (s : ℕ → ℕ) (a b : ℕ) → a < 256 → b < 256 → IsPermutation s → IsPermutation (swap_byte s a b)
swap_byte-IsPermutation s a b ha hb p = record {
  bounded = λ i h. ground (arith, p.bounded i, p.bounded a, p.bounded b);
  injective = λ i j hi hj e. ground (
    arith,
    p.injective i j,
    p.injective a j,
    p.injective b j,
    p.injective i a,
    p.injective i b,
    p.injective a b,
  );
}

mix_loop-IsPermutation :
    (seed n : ℕ) (s : ℕ → ℕ) (i j : ℕ)
    → i + n ≤ 256
    → IsPermutation s
    → IsPermutation (mix_loop seed n s i j)
unfolding mix_loop
mix_loop-IsPermutation seed zero s i j h p = p
mix_loop-IsPermutation seed (suc n) s i j h p =
    mix_loop-IsPermutation seed n _ (i + 1) _ (omega arith)
      (swap_byte-IsPermutation s i _ (omega arith) (omega arith) p)

pub record IsRandom (r : Random) : Type 0 where
  pub permutation : IsPermutation r.s
  pub i_lt : r.s_i < 256
  pub j_lt : r.s_j < 256

pub random_init-IsRandom : (seed : ℕ) → IsRandom (random_init seed)
unfolding random_init
random_init-IsRandom seed = record {
  permutation =
      mix_loop-IsPermutation seed 256 (λ i. i) 0 0 (omega arith)
        (record { bounded = λ i h. h; injective = λ i j hi hj e. e });
  i_lt = omega arith;
  j_lt = omega arith;
}

-- Every element of the list is a byte.
abbrev pub AreBytes : List ℕ → Type 0
AreBytes [] = Unit {0}
AreBytes (b ∷ bs) = (b < 256) × AreBytes bs

bytes_loop-IsRandom :
    (n : ℕ) (r : Random)
    → IsRandom r
    → (length ((bytes_loop n r).0) ≡ n)
      × AreBytes ((bytes_loop n r).0)
      × IsRandom ((bytes_loop n r).1)
unfolding bytes_loop next_byte
bytes_loop-IsRandom zero r p = (refl, tt, p)
bytes_loop-IsRandom (suc n) r p =
    let i = (r.s_i + 1) % 256 in
    let j = (r.s_j + r.s i) % 256 in
    let swapped = swap_byte-IsPermutation r.s i j (omega arith) (omega arith) p.permutation in
    let (size, bytes, rest) =
      bytes_loop-IsRandom n (record r { s = swap_byte r.s i j; s_i = i; s_j = j })
        (record { permutation = swapped; i_lt = omega arith; j_lt = omega arith }) in
    (ap suc size, (swapped.bounded _ (omega arith), bytes), rest)

-- `random_bytes` returns as many bytes as it is asked for and keeps the array a permutation of the
-- bytes; a generator that was not initialised is initialised first.
pub random_bytes-IsRandom :
    (r : Random) (size : ℕ)
    → (r.inited ≡ true → IsRandom r)
    → (length (random_bytes r size).0 ≡ size)
      × AreBytes (random_bytes r size).0
      × IsRandom (random_bytes r size).1
unfolding random_bytes
random_bytes-IsRandom r size p = bytes_loop-IsRandom size _ (ready r.inited p)
  where
    ready : (b : Bool) → (b ≡ true → IsRandom r) → IsRandom (if b then r else random_init 0)
    ready true h = h refl
    ready false h = random_init-IsRandom 0
