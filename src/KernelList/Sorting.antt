-- ===== src/KernelList/Sorting.antt =====
-- The sort as a whole.
use mathlib.Core.Path.{subst}
use mathlib.Core.List.{append-nil}
use eda.Prelude.{
  ℕ, zero, suc, ◌+◌, ◌^◌, ◌<◌, ◌≤◌, ◌≡◌, refl, sym, ◌∙◌, ap, true, false, ◌==◌, List, [], ◌∷◌,
  arith, Bool-cases, inl, inr, ltb, length, ok,
}
use eda.KernelList.{Links, tail_of}
use eda.KernelList.Ordered.{Less}
use eda.KernelList.Sorted.{IsSorted}
use eda.KernelList.Sort.{is_sorted, sort_pass, sort_loop, list_sort}
use eda.KernelList.State.{IsList, first}
use eda.KernelList.Remove.{Linked-next}
use eda.KernelList.Ends.{list_nonnull}
use eda.KernelList.Merge.{==-same}
use eda.KernelList.Runs.{is_sorted_lem}
use eda.KernelList.Passes.{runs, runs_le, IsSorted-breaks, SameElements, sort_pass-Passes}

SameElements-trans :
    {xs ys zs : List ℕ} → SameElements xs ys → SameElements ys zs → SameElements xs zs
SameElements-trans s t = record {
  same_length = t.same_length ∙ s.same_length;
  same = λ a. t.same a ∙ s.same a;
}

IsSorted-runs : (less : Less) (zs : List ℕ) → runs less zs ≤ 1 → IsSorted less zs
IsSorted-runs less [] h = tt
IsSorted-runs less (z ∷ zs) h = IsSorted-breaks less z zs (omega (arith, h))

-- The last assertion of `list_sort`
is_sorted-true :
    {l : Links} {list : ℕ} (less : Less) (fuel : ℕ) (zs : List ℕ)
    → IsList l list zs
    → IsSorted less zs
    → length zs < fuel
    → is_sorted fuel l less (first zs (tail_of list)) (tail_of list) ≡ ok true
unfolding is_sorted
is_sorted-true {l} {list} less fuel [] v s lt = rw (==-same (tail_of list)) refl
is_sorted-true {l} {list} less fuel (z ∷ zs) v s lt =
    is_sorted_lem less fuel [] z zs []
      (subst (λ ws. IsList l list (z ∷ ws)) (sym (append-nil zs)) v) s (omega arith)

-- One pass that is the last, and one that is not
last_pass :
    {m : Links} {a c : ℕ} (l : Links) (less : Less) (passes fuel list : ℕ)
    → (list == 0) ≡ false
    → l.next list ≡ a
    → sort_pass fuel fuel l less (tail_of list) a 0 ≡ ok (c, m)
    → ltb 1 c ≡ false
    → sort_loop (suc passes) fuel l less list ≡ ok m
unfolding sort_loop
last_pass l less passes fuel list list0 n run few = rw (list0, n, run, few) refl

further_pass :
    {m m1 : Links} {a c : ℕ} (l : Links) (less : Less) (passes fuel list : ℕ)
    → (list == 0) ≡ false
    → l.next list ≡ a
    → sort_pass fuel fuel l less (tail_of list) a 0 ≡ ok (c, m)
    → ltb 1 c ≡ true
    → sort_loop passes fuel m less list ≡ ok m1
    → sort_loop (suc passes) fuel l less list ≡ ok m1
unfolding sort_loop
further_pass l less passes fuel list list0 n run many more = rw (list0, n, run, many) more

sort_lem :
    {m : Links} {a : ℕ} (l : Links) (less : Less) (fuel list : ℕ)
    → (list == 0) ≡ false
    → sort_loop fuel fuel l less list ≡ ok m
    → m.next list ≡ a
    → is_sorted fuel m less a (tail_of list) ≡ ok true
    → list_sort fuel l less list ≡ ok m
unfolding list_sort
sort_lem l less fuel list list0 run n sorted = rw (list0, run, n, sorted) refl

module _ (less : Less) (asym : (a b : ℕ) → less a b ≡ true → less b a ≡ false) where
  sort_loop-IsSorted :
      {list : ℕ} (passes fuel : ℕ) {l : Links} (xs : List ℕ)
      → IsList l list xs
      → runs less xs < passes
      → length xs + 2 < fuel
      → length xs < 2 ^ 32
      → (m : Links) × (zs : List ℕ) × (sort_loop passes fuel l less list ≡ ok m)
        × IsList m list zs
        × SameElements xs zs
        × IsSorted less zs
  sort_loop-IsSorted zero fuel xs v lt en le = absurd (omega arith)
  sort_loop-IsSorted {list} (suc passes) fuel {l} xs v lt en le =
      let (c, m, zs, run, w, p) =
        sort_pass-Passes less asym fuel fuel [] xs 0 v (omega arith) en (omega (arith, le)) in
      let e = p.elements in
      elim (Bool-cases (ltb 1 c)) [
        | inl h ↦
            let (m1, ws, more, w1, e1, s) =
              sort_loop-IsSorted passes fuel zs w (ground (arith, p.fewer, p.half, h))
                (omega (arith, e.same_length)) (omega (arith, e.same_length, le)) in
            (
              m1,
              ws,
              further_pass l less passes fuel list (list_nonnull v) (Linked-next v.linked)
                  (run ∙ ap (λ n. ok (n, m)) (omega arith)) h more,
              w1,
              SameElements-trans e e1,
              s,
            )
        | inr h ↦ (
          m,
          zs,
          last_pass l less passes fuel list (list_nonnull v) (Linked-next v.linked)
              (run ∙ ap (λ n. ok (n, m)) (omega arith)) h,
          w,
          e,
          IsSorted-runs less zs (ground (arith, p.fewer, h)),
        )
      ]

  -- With more fuel than the list has elements and two, sorting a list by an asymmetric order
  -- returns, passes its own assertions, and leaves the same elements in order.
  pub list_sort-IsSorted :
      {l : Links} {list : ℕ} (xs : List ℕ) (fuel : ℕ)
      → IsList l list xs
      → length xs + 2 < fuel
      → length xs < 2 ^ 32
      → (m : Links) × (zs : List ℕ) × (list_sort fuel l less list ≡ ok m)
        × IsList m list zs
        × SameElements xs zs
        × IsSorted less zs
  list_sort-IsSorted {l} {list} xs fuel v en le =
      let (m, zs, run, w, e, s) =
        sort_loop-IsSorted fuel fuel xs v (omega (arith, runs_le less xs)) en le in
      (
        m,
        zs,
        sort_lem l less fuel list (list_nonnull v) run (Linked-next w.linked)
            (is_sorted-true less fuel zs w s (omega (arith, e.same_length))),
        w,
        e,
        s,
      )
