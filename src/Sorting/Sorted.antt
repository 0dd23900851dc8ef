-- ===== src/Sorting/Sorted.antt =====
-- `sort` sorts.
use eda.Prelude.{
  ℕ, zero, suc, ◌+◌, ◌/◌, ◌^◌, ◌<◌, ◌≤◌, ◌≡◌, sym, ◌∙◌, ap, true, List, ltb, ◌==◌, arith,
  Bool-cases, inl, inr, ==_iff, Result, ok, panic, fault,
}
use mathlib.Core.Path.{fun_ext, subst}
use eda.Sorting.{Array, Compare, is_more, elem, do_swap, heapify, build_loop, extract_loop, sort}
use eda.Sorting.Swap.{
  flip, do_swap-flip, IsPermuted, IsPermuted-refl, IsPermuted-trans, IsPermuted-more,
  do_swap-IsPermuted,
}
use eda.Sorting.Heap.{Le, IsOrder, IsHeap, refl_le}
use eda.Sorting.Heapify.{heapify-IsHeap}

-- The elements behind the first `n` are in order, and none before them is greater than one of them.
pub record IsSortedFrom (compare : Compare) (n cnt : ℕ) (e : ℕ → List ℕ) : Type 0 where
  pub sorted : (j k : ℕ) → n < j → j ≤ k → k ≤ cnt → Le compare (e j) (e k)
  pub split : (j k : ℕ) → 1 ≤ j → j ≤ n → n < k → k ≤ cnt → Le compare (e j) (e k)

-- The elements are in order.
abbrev pub IsSorted : Compare → ℕ → (ℕ → List ℕ) → Type 0
IsSorted compare cnt e = (j k : ℕ) → 1 ≤ j → j ≤ k → k ≤ cnt → Le compare (e j) (e k)

module _ (compare : Compare) (order : IsOrder compare) where
  -- The first element of a heap is the greatest.
  IsHeap-root :
      (fuel : ℕ) (cnt : ℕ) (e : ℕ → List ℕ) (k : ℕ)
      → IsHeap compare 1 cnt e
      → 1 ≤ k
      → k ≤ cnt
      → k ≤ fuel
      → Le compare (e k) (e 1)
  IsHeap-root zero cnt e k h lo hi f = absurd (omega (arith, lo, f))
  IsHeap-root (suc n) cnt e k h lo hi f = elim (Bool-cases (k == 1)) [
    | inl u ↦
        ap (λ x. is_more (compare (e x) (e 1))) ((==_iff k 1).0 u) ∙ refl_le compare order (e 1)
    | inr u ↦
        let two : 2 ≤ k = ground (arith, u, lo) in
        order.trans (e k) (e (k / 2)) (e 1) (h k hi (omega (arith, two))) (
          IsHeap-root n cnt e (k / 2) h (omega (arith, two)) (omega (arith, hi, two))
            (omega (arith, f, two)))
  ]

  -- A permutation of the front keeps the order behind it.
  IsSortedFrom-permuted :
      (n cnt : ℕ) (e f : ℕ → List ℕ)
      → IsPermuted n e f
      → IsSortedFrom compare n cnt e
      → IsSortedFrom compare n cnt f
  IsSortedFrom-permuted n cnt e f p s = record {
    sorted = λ j k nj jk hk.
        rw (p.beyond j nj, p.beyond k (omega (arith, nj, jk))) (s.sorted j k nj jk hk);
    split = λ j k lo jn nk hk.
        let (from, to) = p.to_range j lo jn in
        rw (p.at j lo jn, p.beyond k nk) (s.split (p.to j) k from to nk hk);
  }

  -- The greatest element of the heap joins the sorted elements.
  IsSortedFrom-swap :
      (n cnt : ℕ) (e : ℕ → List ℕ)
      → 1 ≤ n
      → suc n ≤ cnt
      → IsHeap compare 1 (suc n) e
      → IsSortedFrom compare (suc n) cnt e
      → IsSortedFrom compare n cnt (λ k. e (flip 1 (suc n) k))
  IsSortedFrom-swap n cnt e pos fits h s = record {
    sorted = λ j k nj jk hk. elim (Bool-cases (j == suc n)) [
      | inl u ↦
          let at : flip 1 (suc n) j ≡ 1 = ground (arith, u, pos) in
          rw at (elim (Bool-cases (k == suc n)) [
            | inl v ↦
                let top : flip 1 (suc n) k ≡ 1 = ground (arith, v, pos) in
                rw top (refl_le compare order (e 1))
            | inr v ↦
                let self : flip 1 (suc n) k ≡ k = ground (arith, v, jk, nj, pos) in
                rw self (s.split 1 k (omega arith) (omega arith) (ground (arith, v, jk, nj)) hk)
          ])
      | inr u ↦
          let first : flip 1 (suc n) j ≡ j = ground (arith, u, nj, pos) in
          let second : flip 1 (suc n) k ≡ k = ground (arith, u, jk, nj, pos) in
          rw (first, second) (s.sorted j k (ground (arith, u, nj)) jk hk)
    ];
    split = λ j k lo jn nk hk.
        let (from, to) : (1 ≤ flip 1 (suc n) j) × (flip 1 (suc n) j ≤ suc n) = ground arith in
        elim (Bool-cases (k == suc n)) [
          | inl v ↦
              let top : flip 1 (suc n) k ≡ 1 = ground (arith, v, pos) in
              rw top (IsHeap-root (suc n) (suc n) e (flip 1 (suc n) j) h from to to)
          | inr v ↦
              let self : flip 1 (suc n) k ≡ k = ground (arith, v, nk, pos) in
              rw self (s.split (flip 1 (suc n) j) k from to (ground (arith, v, nk)) hk)
        ];
  }

  -- Swapping the root away leaves a heap but for the root.
  IsHeap-swap :
      (n : ℕ) (e : ℕ → List ℕ)
      → 1 ≤ n
      → IsHeap compare 1 (suc n) e
      → IsHeap compare 2 n (λ k. e (flip 1 (suc n) k))
  IsHeap-swap n e pos h c le above =
      let self : flip 1 (suc n) c ≡ c = ground (arith, le, above) in
      let parent : flip 1 (suc n) (c / 2) ≡ c / 2 = ground (arith, le, above) in
      rw (self, parent) (h c (omega (arith, le)) (omega (arith, above)))

  -- One turn of the second loop
  sort_step :
      (n : ℕ) (array : Array) (cnt size : ℕ)
      → 1 ≤ n
      → suc n ≤ cnt
      → cnt < 2 ^ 31
      → IsHeap compare 1 (suc n) (elem array size)
      → IsSortedFrom compare (suc n) cnt (elem array size)
      → let next = elem (heapify (do_swap array 1 (suc n) size) 1 n size compare) size in
        IsHeap compare 1 n next
        × IsSortedFrom compare n cnt next
        × IsPermuted cnt (elem array size) next
  sort_step n array cnt size pos fits few h s =
      let e1 = elem (do_swap array 1 (suc n) size) size in
      let swapped : (λ k. elem array size (flip 1 (suc n) k)) ≡ e1 =
        fun_ext (λ k. sym (do_swap-flip array 1 (suc n) size k)) in
      let heap1 = subst (IsHeap compare 2 n) swapped (IsHeap-swap n (elem array size) pos h) in
      let sorted1 =
        subst (IsSortedFrom compare n cnt) swapped
          (IsSortedFrom-swap n cnt (elem array size) pos fits h s) in
      let (heap, permuted) =
        heapify-IsHeap compare order (do_swap array 1 (suc n) size) 1 n size (omega arith) pos
          (omega (arith, fits, few)) heap1 in
      (
        heap,
        IsSortedFrom-permuted n cnt e1 _ permuted sorted1,
        IsPermuted-trans cnt _ e1 _
            (do_swap-IsPermuted array 1 (suc n) size cnt (omega arith) (omega (arith, fits))
              (omega arith) fits)
            (IsPermuted-more n cnt e1 _ (omega (arith, fits)) permuted),
      )

  extract_loop-IsSorted :
      (n : ℕ) (array : Array) (cnt size : ℕ)
      → n ≤ cnt
      → cnt < 2 ^ 31
      → IsHeap compare 1 n (elem array size)
      → IsSortedFrom compare n cnt (elem array size)
      → IsSorted compare cnt (elem (extract_loop n array size compare) size)
        × IsPermuted cnt (elem array size) (elem (extract_loop n array size compare) size)
  unfolding extract_loop
  extract_loop-IsSorted zero array cnt size fits few h s =
      (λ j k lo jk hk. s.sorted j k (omega (arith, lo)) jk hk, IsPermuted-refl cnt _)
  extract_loop-IsSorted (suc zero) array cnt size fits few h s = (
    λ j k lo jk hk. elim (Bool-cases (j == 1)) [
      | inr u ↦ s.sorted j k (ground (arith, u, lo)) jk hk
      | inl u ↦ rw ((==_iff j 1).0 u) (elim (Bool-cases (k == 1)) [
        | inl v ↦ rw ((==_iff k 1).0 v) (refl_le compare order (elem array size 1))
        | inr v ↦ s.split 1 k (omega arith) (omega arith) (ground (arith, v, jk, lo)) hk
      ])
    ],
    IsPermuted-refl cnt _,
  )
  extract_loop-IsSorted (suc (suc n)) array cnt size fits few h s =
      let (heap, sorted, permuted) = sort_step (suc n) array cnt size (omega arith) fits few h s in
      let (all, others) =
        extract_loop-IsSorted (suc n) _ cnt size (omega (arith, fits)) few heap sorted in
      (all, IsPermuted-trans cnt _ _ _ permuted others)

  build_loop-IsHeap :
      (i : ℕ) (array : Array) (cnt size : ℕ)
      → i ≤ cnt
      → cnt < 2 ^ 31
      → IsHeap compare (i + 1) cnt (elem array size)
      → IsHeap compare 1 cnt (elem (build_loop i array cnt size compare) size)
        × IsPermuted cnt (elem array size) (elem (build_loop i array cnt size compare) size)
  unfolding build_loop
  build_loop-IsHeap zero array cnt size le few h = (h, IsPermuted-refl cnt _)
  build_loop-IsHeap (suc i) array cnt size le few h =
      let (heap, permuted) =
        heapify-IsHeap compare order array (suc i) cnt size (omega arith) le few h in
      let (all, others) =
        build_loop-IsHeap i (heapify array (suc i) cnt size compare) cnt size (omega (arith, le))
          few (λ c hc above. heap c hc (omega (arith, above))) in
      (all, IsPermuted-trans cnt _ _ _ permuted others)

-- What a sorted array is: in order, with the same elements
abbrev pub Sorts : Compare → ℕ → ℕ → Array → Result Array → Type 0
Sorts compare cnt size array (ok sorted) =
    IsSorted compare cnt (elem sorted size) × IsPermuted cnt (elem array size) (elem sorted size)
Sorts compare cnt size array panic = ⊥
Sorts compare cnt size array fault = ⊥

-- Sorting an array of fewer than 2 ^ 31 elements of at least one byte each, by a comparison that orders the
-- elements, returns, and leaves the same elements in order, and what stands behind them as it was.
pub sort-Sorts :
    (compare : Compare) (array : Array) (cnt size : ℕ)
    → IsOrder compare
    → 0 < size
    → cnt < 2 ^ 31
    → Sorts compare cnt size array (sort array true cnt size compare)
unfolding sort
sort-Sorts compare array cnt size order some_size few =
    let (heap, permuted) =
      build_loop-IsHeap compare order (cnt / 2) array cnt size (omega arith) few
        (λ c hc above. absurd (omega (arith, hc, above))) in
    let (sorted, others) =
      extract_loop-IsSorted compare order cnt (build_loop (cnt / 2) array cnt size compare) cnt size
        (omega arith) few heap
        (record {
          sorted = λ j k nj jk hk. absurd (omega (arith, nj, jk, hk));
          split = λ j k lo jn nk hk. absurd (omega (arith, nk, hk));
        }) in
    let positive : ltb 0 size ≡ true = ground (arith, some_size) in
    rw positive (sorted, IsPermuted-trans cnt _ _ _ permuted others)
