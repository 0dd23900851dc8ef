-- ===== src/Tests/NumberTests.antt =====
-- The theorems on lib/arithmetic.c, lib/random.c and lib/stdlib.c.
use eda.Prelude.{
  ℕ, ◌+◌, ◌*◌, ◌/◌, ◌%◌, ◌^◌, ◌≡◌, refl, ◌∙◌, true, List, [], ◌∷◌, some, none, ltb, ◌==◌,
  if◌then◌else◌, arith, ok, length, Bool-cases, inl, inr,
}
use eda.Division.{udivdi3, umoddi3}
use eda.Division.Quotient.{udivdi3-umoddi3}
use eda.Random.{random_init, random_bytes}
use eda.Random.State.{IsRandom, AreBytes, random_bytes-IsRandom, random_init-IsRandom}
use eda.Sorting.{
  Array, Sign, less, equal, more, Compare, is_less, is_more, elem, sort, binary_search,
}
use eda.Sorting.Heap.{IsOrder}
use eda.Sorting.Sorted.{IsSorted, Sorts, sort-Sorts}
use eda.Sorting.Search.{IsKey, Found, binary_search-Found}

udivdi3-umoddi3_example :
    (udivdi3 (2 ^ 63) (2 ^ 33 + 1) ≡ ok (2 ^ 63 / (2 ^ 33 + 1)))
    × (umoddi3 (2 ^ 63) (2 ^ 33 + 1) ≡ ok (2 ^ 63 % (2 ^ 33 + 1) % 2 ^ 32))
udivdi3-umoddi3_example =
    udivdi3-umoddi3 (2 ^ 63) (2 ^ 33 + 1) (omega arith) (omega arith) (omega arith)

random_bytes-IsRandom_example :
    let r = random_bytes (random_init 7) 3 in (length r.0 ≡ 3) × AreBytes r.0 × IsRandom r.1
random_bytes-IsRandom_example =
    random_bytes-IsRandom (random_init 7) 3 (λ e. random_init-IsRandom 7)

-- Elements of one byte
abbrev three : Array
three k i = if k == 1 then 5 else if k == 2 then 9 else 2

abbrev sign : ℕ → ℕ → Sign
sign x y = if ltb x y then less else if ltb y x then more else equal

abbrev rank : List ℕ → ℕ
rank [] = 0
rank (x ∷ xs) = x + 1

abbrev by_byte : Compare
by_byte xs ys = sign (rank xs) (rank ys)

sign-more : (x y : ℕ) → is_more (sign x y) ≡ ltb y x
sign-more x y = elim (Bool-cases (ltb x y)) [
  | inl e ↦ rw e (ground (arith, e))
  | inr e ↦ elim (Bool-cases (ltb y x)) [ inl u ↦ rw (e, u) refl | inr u ↦ rw (e, u) refl ]
]

sign-less : (x y : ℕ) → is_less (sign x y) ≡ ltb x y
sign-less x y = elim (Bool-cases (ltb x y)) [
  | inl e ↦ rw e refl
  | inr e ↦ elim (Bool-cases (ltb y x)) [ inl u ↦ rw (e, u) refl | inr u ↦ rw (e, u) refl ]
]

by_byte-IsOrder : IsOrder by_byte
by_byte-IsOrder = record {
  either = λ x y h.
      let a = sign-more (rank x) (rank y) in
      let b = sign-more (rank y) (rank x) in ground (arith, a, b, h);
  trans = λ x y z h g.
      let a = sign-more (rank x) (rank y) in
      let b = sign-more (rank y) (rank z) in
      let c = sign-more (rank x) (rank z) in ground (arith, a, b, c, h, g);
}

by_byte-IsKey : (key : List ℕ) → IsKey by_byte key
by_byte-IsKey key = record {
  upward = λ x y h e.
      let a = sign-more (rank x) (rank y) in
      let b = sign-less (rank key) (rank x) in
      let c = sign-less (rank key) (rank y) in ground (arith, a, b, c, h, e);
  downward = λ x y h e.
      let a = sign-more (rank x) (rank y) in
      let b = sign-more (rank key) (rank x) in
      let c = sign-more (rank key) (rank y) in ground (arith, a, b, c, h, e);
}

sort-Sorts_example : Sorts by_byte 3 1 three (sort three true 3 1 by_byte)
sort-Sorts_example = sort-Sorts by_byte three 3 1 by_byte-IsOrder (omega arith) (omega arith)

-- 2, 4, 6
abbrev even : Array
even k i = 2 * k

even-IsSorted : IsSorted by_byte 3 (elem even 1)
unfolding eda.Sorting.bytes_of
even-IsSorted j k lo le hi = sign-more (2 * j + 1) (2 * k + 1) ∙ ground (arith, le)

binary_search-Found_example :
    Found by_byte (4 ∷ []) (elem even 1) 3 1 (binary_search (4 ∷ []) even 3 1 by_byte)
binary_search-Found_example =
    binary_search-Found by_byte (4 ∷ []) even 3 1 (omega arith) (omega arith)
      (by_byte-IsKey (4 ∷ [])) even-IsSorted

found_4 : binary_search (4 ∷ []) even 3 1 by_byte ≡ some 1
unfolding binary_search eda.Sorting.search_loop eda.Sorting.bytes_of
found_4 = refl

-- Elements without bytes: the search does not start.
no_size : binary_search (4 ∷ []) even 3 0 (λ x y. equal) ≡ none
unfolding binary_search eda.Sorting.search_loop eda.Sorting.bytes_of
no_size = refl
