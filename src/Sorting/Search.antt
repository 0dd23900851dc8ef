-- ===== src/Sorting/Search.antt =====
-- `binary_search` finds an element of a sorted array.
use native.Mathlib.Nat.{
  mul_comm, add-mul, add-sub_of_le, add-sub_cancel_left, add-mul-div_left, mul-lt-mul_of_pos_right,
  mul-le-mul_right,
}
use mathlib.Core.Path.{subst}
use eda.Prelude.{
  ℕ, zero, suc, ◌+◌, ◌-◌, ◌*◌, ◌/◌, ◌%◌, ◌^◌, ◌<◌, ◌≤◌, ◌≡◌, refl, sym, ◌∙◌, ap, if◌then◌else◌,
  ltb→lt, ◌||◌, Bool, true, false, List, Option, none, some, ltb, arith, Bool-cases, inl, inr,
}
use eda.Sorting.{
  Array, Sign, less, equal, more, Compare, is_less, is_more, elem, search_loop, binary_search,
}
use eda.Sorting.Heap.{Le}
use eda.Sorting.Sorted.{IsSorted}

-- The elements less than the key stand before those greater than it.
pub record IsKey (compare : Compare) (key : List ℕ) : Type 0 where
  pub upward :
      (x y : List ℕ)
      → Le compare x y
      → is_less (compare key x) ≡ true
      → is_less (compare key y) ≡ true
  pub downward :
      (x y : List ℕ)
      → Le compare x y
      → is_more (compare key y) ≡ true
      → is_more (compare key x) ≡ true

abbrev pub matches : Sign → Bool
matches equal = true
matches _ = false

-- What is found matches the key; where nothing is found, nothing matches.
abbrev pub Found : Compare → List ℕ → (ℕ → List ℕ) → ℕ → ℕ → Option ℕ → Type 0
Found compare key e cnt size (some p) =
    (k : ℕ) × (k < cnt) × (p ≡ k * size) × (matches (compare key (e (k + 1))) ≡ true)
Found compare key e cnt size none = (k : ℕ) → k < cnt → matches (compare key (e (k + 1))) ≡ false

less_unmatched : (s : Sign) → is_less s ≡ true → matches s ≡ false
less_unmatched less h = refl
less_unmatched equal h = ground (arith, h)
less_unmatched more h = refl

more_unmatched : (s : Sign) → is_more s ≡ true → matches s ≡ false
more_unmatched less h = refl
more_unmatched equal h = ground (arith, h)
more_unmatched more h = refl

Sign-cases : (s : Sign) → (is_less s || is_more s) ≡ false → matches s ≡ true
Sign-cases less h = ground (arith, h)
Sign-cases equal h = refl
Sign-cases more h = ground (arith, h)

module _ (compare : Compare) (key : List ℕ) (array : Array) (cnt size : ℕ) (k : IsKey compare key)
    (s : IsSorted compare cnt (elem array size)) (some_size : 0 < size) where
  -- How the key compares with the element behind `j` others
  abbrev cmp : ℕ → Sign
  cmp j = compare key (elem array size (j + 1))

  below_less : (m j : ℕ) → m ≤ j → j < cnt → is_less (cmp m) ≡ true → is_less (cmp j) ≡ true
  below_less m j le lt =
      k.upward _ _ (s (m + 1) (j + 1) (omega arith) (omega (arith, le)) (omega (arith, lt)))

  above_more : (j m : ℕ) → j ≤ m → m < cnt → is_more (cmp m) ≡ true → is_more (cmp j) ≡ true
  above_more j m le lt =
      k.downward _ _ (s (j + 1) (m + 1) (omega arith) (omega (arith, le)) (omega (arith, lt)))

  -- No elements are left.
  closed :
      (first last : ℕ)
      → last ≤ first
      → ((j : ℕ) → j < first → j < cnt → is_more (cmp j) ≡ true)
      → ((j : ℕ) → last ≤ j → j < cnt → is_less (cmp j) ≡ true)
      → (j : ℕ) → j < cnt
      → matches (cmp j) ≡ false
  closed first last le before behind j lt = elim (Bool-cases (ltb j first)) [
    | inl e ↦ more_unmatched (cmp j) (before j (ground (arith, e)) lt)
    | inr e ↦ less_unmatched (cmp j) (behind j (ground (arith, e, le)) lt)
  ]

  mul-div_right : (x : ℕ) → x * size / size ≡ x
  mul-div_right x =
      ap (λ y. y / size) (omega (arith, mul_comm x size))
      ∙ add-mul-div_left 0 x some_size
      ∙ omega arith

  ltb-mul : (x y : ℕ) → ltb (x * size) (y * size) ≡ ltb x y
  ltb-mul x y = elim (Bool-cases (ltb x y)) [
    | inl e ↦ ground (arith, e, mul-lt-mul_of_pos_right (ltb→lt x y e) some_size)
    | inr e ↦ let le : y ≤ x = ground (arith, e) in ground (arith, e, mul-le-mul_right size le)
  ]

  -- What the loop computes from the pointers to the elements `first` and `last`
  turn :
      (fuel first last : ℕ)
      → first ≤ last
      → let m = first + (last - first) / 2 in
        search_loop (suc fuel) key array (first * size) (last * size) size compare ≡ (
          if ltb first last
          then (if is_less (cmp m) || is_more (cmp m)
              then search_loop fuel key array
                  (if is_less (cmp m) then first * size else (m + 1) * size)
                  (if is_less (cmp m) then m * size else last * size)
                  size
                  compare
              else some (m * size))
          else none)
  unfolding search_loop
  turn fuel first last le =
      let half = (last - first) / 2 in
      let m = first + half in
      let whole : (last * size - first * size) / size ≡ last - first =
        ap (λ x. (x * size - first * size) / size) (sym (add-sub_of_le le))
        ∙ ap (λ x. (x - first * size) / size) (add-mul first (last - first) size)
        ∙ ap (λ x. x / size) (add-sub_cancel_left (first * size) ((last - first) * size))
        ∙ mul-div_right (last - first) in
      let at : first * size + half * size ≡ m * size = sym (add-mul first half size) in
      let next : m * size + size ≡ (m + 1) * size = omega (arith, add-mul m 1 size) in
      rw (whole, at, mul-div_right m, next, ltb-mul first last) refl

  search_loop-Found :
      (fuel first last : ℕ)
      → last ≤ first + fuel
      → first ≤ last
      → last ≤ cnt
      → ((j : ℕ) → j < first → j < cnt → is_more (cmp j) ≡ true)
      → ((j : ℕ) → last ≤ j → j < cnt → is_less (cmp j) ≡ true)
      → Found compare key
          (elem array size)
          cnt
          size
          (search_loop fuel key array (first * size) (last * size) size compare)
  unfolding search_loop
  search_loop-Found zero first last f ord le before behind =
      closed first last (omega (arith, f)) before behind
  search_loop-Found (suc n) first last f ord le before behind =
      let m = first + (last - first) / 2 in
      let run = turn n first last ord in
      elim (Bool-cases (ltb first last)) [
        | inr e ↦ rw (run, e) (closed first last (ground (arith, e)) before behind)
        | inl e ↦
            let lt : first < last = ground (arith, e) in
            let inside : m < cnt = omega (arith, lt, le) in
            elim (Bool-cases (is_less (cmp m))) [
              | inl u ↦
                  rw (run, e, u)
                    (search_loop-Found n first m (omega (arith, lt, f)) (omega (arith, lt))
                      (omega (arith, lt, le)) before (λ j le1 lt1. below_less m j le1 lt1 u))
              | inr u ↦ elim (Bool-cases (is_more (cmp m))) [
                | inl v ↦
                    rw (run, e, u, v)
                      (search_loop-Found n (m + 1) last (omega (arith, lt, f)) (omega (arith, lt))
                        le (λ j lt1 lt2. above_more j m (omega (arith, lt1)) inside v) behind)
                | inr v ↦
                    rw (run, e, u, v) (m, inside, refl, Sign-cases (cmp m) (ground (arith, u, v)))
              ]
            ]
      ]

-- In a sorted array of elements of at least one byte each that fits into memory, by a comparison
-- with the key that respects the order, the search returns where an element that matches the key
-- begins, and NULL where no element does.
pub binary_search-Found :
    (compare : Compare) (key : List ℕ) (array : Array) (cnt size : ℕ)
    → 0 < size
    → size * cnt < 2 ^ 32
    → IsKey compare key
    → IsSorted compare cnt (elem array size)
    → Found compare key (elem array size) cnt size (binary_search key array cnt size compare)
unfolding binary_search
binary_search-Found compare key array cnt size some_size fits k s =
    let end : size * cnt % 2 ^ 32 ≡ cnt * size = omega (arith, fits, mul_comm size cnt) in
    let start : 0 * size ≡ 0 = omega arith in
    rw end (
      subst
        (λ z.
          Found compare key (elem array size) cnt size
            (search_loop cnt key array z (cnt * size) size compare))
        start
        (search_loop-Found compare key array cnt size k s some_size cnt 0 cnt (omega arith)
          (omega arith) (omega arith) (λ j lt1 lt. absurd (omega (arith, lt1)))
          (λ j le lt. absurd (omega (arith, le, lt)))))
