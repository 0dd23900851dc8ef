-- ===== src/Sorting/Heapify.antt =====
-- `heapify` restores the heap from an index on.
use eda.Prelude.{
  ℕ, zero, suc, ◌+◌, ◌-◌, ◌/◌, ◌^◌, ◌<◌, ◌≤◌, ◌≡◌, ◌≢◌, sym, ◌∙◌, ap, List, ◌==◌, arith, Bool-cases,
  inl, inr, ==_iff,
}
use mathlib.Core.Path.{fun_ext, subst}
use eda.Sorting.{Array, Compare, is_more, elem, do_swap, max_left, max_right, heapify_loop, heapify}
use eda.Sorting.Swap.{
  flip, do_swap-flip, IsPermuted, IsPermuted-refl, IsPermuted-trans, do_swap-IsPermuted,
}
use eda.Sorting.Heap.{Le, IsOrder, IsHeap, IsHeapBut, IsMax, max_right-IsMax}

module _ (compare : Compare) (order : IsOrder compare) where
  -- Nothing below the index is greater.
  IsHeap-stop :
      (e : ℕ → List ℕ) (lo cnt j : ℕ)
      → IsHeapBut compare lo cnt j e
      → ((c : ℕ) → c ≤ cnt → c / 2 ≡ j → Le compare (e c) (e j))
      → IsHeap compare lo cnt e
  IsHeap-stop e lo cnt j h children c le above = elim (Bool-cases (c / 2 == j)) [
    | inl u ↦
        let at : c / 2 ≡ j = (==_iff (c / 2) j).0 u in
        ap (λ x. is_more (compare (e c) (e x))) at ∙ children c le at
    | inr u ↦ h.other c le above (λ at. ground (arith, u, at))
  ]

  module _ (e : ℕ → List ℕ) (lo cnt j m : ℕ) (h : IsHeapBut compare lo cnt j e)
      (max : IsMax compare cnt j m e) (down : m / 2 ≡ j) (pos : 1 ≤ j) (from : lo ≤ j) where
    kept : (k : ℕ) → k ≢ j → k ≢ m → e (flip j m k) ≡ e k
    kept k a b = ap e {x = flip j m k} {y = k} (ground (arith, a, b))

    upper : e (flip j m j) ≡ e m
    upper = ap e {x = flip j m j} {y = m} (ground arith)

    lower : e (flip j m m) ≡ e j
    lower = ap e {x = flip j m m} {y = j} (ground arith)

    -- The greater child goes up, and the heap may be none at its place.
    IsHeapBut-step : IsHeapBut compare lo cnt m (λ k. e (flip j m k))
    IsHeapBut-step = record {
      other = λ c le above apart. elim (Bool-cases (c / 2 == j)) [
        | inl u ↦
            let at : c / 2 ≡ j = (==_iff (c / 2) j).0 u in
            rw (at, upper)
              (elim (Bool-cases (c == m)) [
                | inl v ↦ rw ((==_iff c m).0 v, lower) max.self
                | inr v ↦
                    rw (kept c (omega (arith, at, pos)) (λ w. ground (arith, v, w)))
                      (max.children c le at)
              ])
        | inr u ↦
            let parent : e (flip j m (c / 2)) ≡ e (c / 2) =
              kept (c / 2) (λ w. ground (arith, u, w)) apart in
            rw parent (elim (Bool-cases (c == j)) [
              | inl v ↦
                  let at : c ≡ j = (==_iff c j).0 v in
                  rw (at, upper) (h.child m max.in_range down (omega (arith, above, at)))
              | inr v ↦
                  rw (kept c (λ w. ground (arith, v, w)) (λ w. ground (arith, u, w, down)))
                    (h.other c le above (λ w. ground (arith, u, w)))
            ])
      ];
      child = λ c le at above.
          rw (down, upper, kept c (omega (arith, at, down, pos)) (omega (arith, at, down, pos)))
            (ap (λ x. is_more (compare (e c) (e x))) (sym at)
              ∙ h.other c le (omega (arith, at, down, from)) (omega (arith, at, down, pos)));
    }

  heapify_loop-IsHeap :
      (fuel : ℕ) (array : Array) (lo j cnt size : ℕ)
      → cnt ≤ j + fuel
      → 1 ≤ j
      → lo ≤ j
      → j ≤ cnt
      → cnt < 2 ^ 31
      → IsHeapBut compare lo cnt j (elem array size)
      → IsHeap compare lo cnt (elem (heapify_loop fuel array j cnt size compare) size)
        × IsPermuted cnt (elem array size) (elem (heapify_loop fuel array j cnt size compare) size)
  unfolding heapify_loop
  heapify_loop-IsHeap zero array lo j cnt size fuel pos from hi few h = (
    IsHeap-stop _ lo cnt j h (λ c le at. absurd (omega (arith, at, le, fuel, pos))),
    IsPermuted-refl cnt _,
  )
  heapify_loop-IsHeap (suc n) array lo j cnt size fuel pos from hi few h =
      let m = max_right array j cnt size compare (max_left array j cnt size compare) in
      let max = max_right-IsMax compare order array j cnt size pos hi few in
      elim (Bool-cases (m == j)) [
        | inl u ↦
            let at : m ≡ j = (==_iff m j).0 u in
            let children : (c : ℕ)
                → c ≤ cnt
                → c / 2 ≡ j
                → Le compare (elem array size c) (elem array size j) =
              λ c le half.
                ap (λ x. is_more (compare (elem array size c) (elem array size x))) (sym at)
                ∙ max.children c le half in
            rw u (IsHeap-stop _ lo cnt j h children, IsPermuted-refl cnt _)
        | inr u ↦
            let down : m / 2 ≡ j = max.place (λ w. ground (arith, u, w)) in
            let swapped : (λ k. elem array size (flip j m k)) ≡ elem (do_swap array j m size) size =
              fun_ext (λ k. sym (do_swap-flip array j m size k)) in
            let but =
              subst (IsHeapBut compare lo cnt m) swapped
                (IsHeapBut-step (elem array size) lo cnt j m h max down pos from) in
            let (heap, permuted) =
              heapify_loop-IsHeap n (do_swap array j m size) lo m cnt size
                (omega (arith, fuel, down, pos)) (omega (arith, down, pos))
                (omega (arith, down, pos, from)) max.in_range few but in
            rw u (
              heap,
              IsPermuted-trans cnt _ _ _
                  (do_swap-IsPermuted array j m size cnt pos hi (omega (arith, down, pos))
                    max.in_range)
                  permuted,
            )
      ]

  -- `heapify` makes a heap from an index on of one from the next index on.
  pub heapify-IsHeap :
      (array : Array) (i cnt size : ℕ)
      → 1 ≤ i
      → i ≤ cnt
      → cnt < 2 ^ 31
      → IsHeap compare (i + 1) cnt (elem array size)
      → IsHeap compare i cnt (elem (heapify array i cnt size compare) size)
        × IsPermuted cnt (elem array size) (elem (heapify array i cnt size compare) size)
  unfolding heapify
  heapify-IsHeap array i cnt size pos hi few h =
      heapify_loop-IsHeap (cnt - i) array i i cnt size (omega (arith, hi)) pos (omega arith) hi few
        (record {
          other = λ c le above apart. h c le (ground (arith, above, apart));
          child = λ c le at above. absurd (omega (arith, at, above, pos));
        })
