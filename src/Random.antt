-- ===== src/Random.antt =====
-- mount/lab2/pintos/src/lib/random.c: the RC4 generator. The array `s` is a function of its 256 indexes.
pub mod State
use eda.Prelude.{ℕ, zero, suc, ◌+◌, ◌*◌, ◌/◌, ◌%◌, ◌^◌, Bool, true, List, [], ◌∷◌, if◌then◌else◌}
use eda.Prelude.Members.{update}

-- The static variables
pub record Random : Type 0 where
  pub s : ℕ → ℕ
  pub s_i : ℕ
  pub s_j : ℕ
  pub inited : Bool

-- `swap_byte` on two elements of `s`
abbrev pub swap_byte : (ℕ → ℕ) → ℕ → ℕ → ℕ → ℕ
swap_byte s a b = update (update s a (s b)) b (s a)

-- `seedp[i % sizeof seed]`: the bytes of an `unsigned`, the lowest first
abbrev pub seed_byte : ℕ → ℕ → ℕ
seed_byte seed i = seed / 256 ^ (i % 4) % 256

-- The second loop of `random_init`, with `n` turns left
unfoldable pub mix_loop : ℕ → ℕ → (ℕ → ℕ) → ℕ → ℕ → ℕ → ℕ
mix_loop seed zero s i j = s
mix_loop seed (suc n) s i j =
    let j1 = (j + (s i + seed_byte seed i)) % 256 in mix_loop seed n (swap_byte s i j1) (i + 1) j1

-- The first loop leaves each index at its own place.
unfoldable pub random_init : ℕ → Random
random_init seed = record { s = mix_loop seed 256 (λ i. i) 0 0; s_i = 0; s_j = 0; inited = true }

-- One turn of the loop of `random_bytes`: the state, and the byte that is written
unfoldable pub next_byte : Random → ℕ × Random
next_byte r =
    let i = (r.s_i + 1) % 256 in
    let j = (r.s_j + r.s i) % 256 in
    let t = swap_byte r.s i j in (t ((t i + t j) % 256), record r { s = t; s_i = i; s_j = j })

unfoldable pub bytes_loop : ℕ → Random → List ℕ × Random
bytes_loop zero r = ([], r)
bytes_loop (suc n) r = let (b, r1) = next_byte r in let (bs, r2) = bytes_loop n r1 in (b ∷ bs, r2)

unfoldable pub random_bytes : Random → ℕ → List ℕ × Random
random_bytes r size = bytes_loop size (if r.inited then r else random_init 0)

-- The number of a list of bytes, the lowest first
unfoldable pub little_endian : List ℕ → ℕ
little_endian [] = 0
little_endian (b ∷ bs) = b + 256 * little_endian bs

unfoldable pub random_ulong : Random → ℕ × Random
random_ulong r = let (bs, r1) = random_bytes r 4 in (little_endian bs, r1)
