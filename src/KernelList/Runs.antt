-- ===== src/KernelList/Runs.antt =====
-- The runs of nondecreasing elements that the sort looks for and merges.
use mathlib.Core.Path.{subst}
use mathlib.Core.List.{append_assoc, append-nil}
use eda.Prelude.{
  ℕ, zero, suc, ◌+◌, ◌<◌, ◌≡◌, refl, sym, ◌∙◌, ap, true, false, ◌==◌, ==-ne, List, [], ◌∷◌, ◌++◌,
  arith, Bool-cases, inl, inr, if◌then◌else◌, length, ok,
}
use eda.Prelude.Members.{mem, mem-append}
use eda.KernelList.{Links, tail_of, list_next, list_prev}
use eda.KernelList.Ordered.{Less}
use eda.KernelList.Sorted.{IsSorted}
use eda.KernelList.Sort.{sorted_loop, is_sorted, end_of_run_loop, find_end_of_run, inplace_merge}
use eda.KernelList.State.{IsList, first}
use eda.KernelList.Insert.{fresh-first}
use eda.KernelList.Remove.{IsList-Around}
use eda.KernelList.Size.{list_next_lem, first_nonnull}
use eda.KernelList.Merge.{Linked-back, list_prev_lem, merged, merge_loop-IsList}

-- From the element `a` on, the elements of its run and those behind the run
abbrev pub run_tail : Less → ℕ → List ℕ → List ℕ
run_tail less a [] = []
run_tail less a (y ∷ ys) = if less y a then [] else y ∷ run_tail less y ys

abbrev pub run_rest : Less → ℕ → List ℕ → List ℕ
run_rest less a [] = []
run_rest less a (y ∷ ys) = if less y a then y ∷ ys else run_rest less y ys

-- An element of a list and the next one
record Step (l : Links) (list a : ℕ) (ys : List ℕ) : Type 0 where
  forth : list_next l a ≡ ok (first ys (tail_of list))
  back : list_prev l (first ys (tail_of list)) ≡ ok a

IsList-Step :
    {l : Links} {list : ℕ} (done : List ℕ) (a : ℕ) (ys : List ℕ)
    → IsList l list (done ++ (a ∷ ys))
    → Step l list a ys
IsList-Step {l} {list} done a ys v =
    let c = IsList-Around done ys a v in
    let back = Linked-back c.behind in
    record {
      forth = list_next_lem l a c.nonnull c.next_nonnull ∙ ap ok c.next_is;
      back = list_prev_lem l _ (rw (sym c.next_is) c.next_nonnull) (rw back c.nonnull) ∙ ap ok back;
    }

shift :
    {l : Links} {list : ℕ} (done : List ℕ) (a : ℕ) (ys : List ℕ)
    → IsList l list (done ++ (a ∷ ys))
    → IsList l list ((done ++ (a ∷ [])) ++ ys)
shift {l} {list} done a ys v =
    subst (λ zs. IsList l list zs) (sym (append_assoc done (a ∷ []) ys)) v

apart_end :
    {l : Links} {list : ℕ} (done : List ℕ) (a : ℕ) (us post : List ℕ)
    → IsList l list (done ++ (a ∷ (us ++ post)))
    → (a == first post (tail_of list)) ≡ false
unfolding mem
apart_end {list = list} done a us post v =
    let c = IsList-Around done (us ++ post) a v in
    ==-ne a _
      (fresh-first post (ground (arith, c.ends)) (ground (arith, c.right, mem-append a us post)))

end_of_run_loop_lem :
    {l : Links} {list : ℕ} (less : Less) (fuel : ℕ) (done : List ℕ) (a : ℕ) (xs : List ℕ)
    → IsList l list (done ++ (a ∷ xs))
    → length xs < fuel
    → end_of_run_loop fuel l less a (tail_of list) ≡ ok (first (run_rest less a xs) (tail_of list))
unfolding end_of_run_loop
end_of_run_loop_lem less zero done a xs v lt = absurd (omega arith)
end_of_run_loop_lem {l} {list} less (suc fuel) done a [] v lt =
    let s = IsList-Step done a [] v in rw s.forth (ground arith)
end_of_run_loop_lem {l} {list} less (suc fuel) done a (y ∷ ys) v lt =
    let s = IsList-Step done a (y ∷ ys) v in
    let v1 = shift done a (y ∷ ys) v in
    let rest = end_of_run_loop_lem less fuel (done ++ (a ∷ [])) y ys v1 (omega arith) in
    let not_end : (y == tail_of list) ≡ false =
      apart_end (done ++ (a ∷ [])) y ys []
        (subst (λ zs. IsList l list ((done ++ (a ∷ [])) ++ (y ∷ zs))) (sym (append-nil ys)) v1) in
    rw (s.forth, not_end, s.back)
      (elim (Bool-cases (less y a)) [ inl h ↦ rw h refl | inr h ↦ rw h rest ])

sorted_loop_lem :
    {l : Links} {list : ℕ} (less : Less) (fuel : ℕ) (done : List ℕ) (a : ℕ) (us post : List ℕ)
    → IsList l list (done ++ (a ∷ (us ++ post)))
    → IsSorted less (a ∷ us)
    → length us < fuel
    → sorted_loop fuel l less a (first post (tail_of list)) ≡ ok true
unfolding sorted_loop
sorted_loop_lem less zero done a us post v so lt = absurd (omega arith)
sorted_loop_lem {l} {list} less (suc fuel) done a [] post v so lt =
    let s = IsList-Step done a post v in rw s.forth (ground arith)
sorted_loop_lem {l} {list} less (suc fuel) done a (y ∷ ys) post v so lt =
    let s = IsList-Step done a (y ∷ (ys ++ post)) v in
    let v1 = shift done a (y ∷ (ys ++ post)) v in
    let rest = sorted_loop_lem less fuel (done ++ (a ∷ [])) y ys post v1 so.1 (omega arith) in
    rw (s.forth, apart_end (done ++ (a ∷ [])) y ys post v1, s.back, so.0) rest

pub run_tail-rest :
    (less : Less) (a : ℕ) (xs : List ℕ) → run_tail less a xs ++ run_rest less a xs ≡ xs
run_tail-rest less a [] = refl
run_tail-rest less a (y ∷ ys) = elim (Bool-cases (less y a)) [
  | inl h ↦ rw h refl
  | inr h ↦ rw h (ap (λ zs. y ∷ zs) (run_tail-rest less y ys))
]

pub run_tail-IsSorted : (less : Less) (a : ℕ) (xs : List ℕ) → IsSorted less (a ∷ run_tail less a xs)
run_tail-IsSorted less a [] = tt
run_tail-IsSorted less a (y ∷ ys) = elim (Bool-cases (less y a)) [
  | inl h ↦ rw h tt
  | inr h ↦ rw h (h, run_tail-IsSorted less y ys)
]

-- In a valid list, `find_end_of_run` returns the element behind the run.
pub find_end_of_run_lem :
    {l : Links} {list : ℕ} (less : Less) (fuel : ℕ) (done : List ℕ) (a : ℕ) (xs : List ℕ)
    → IsList l list (done ++ (a ∷ xs))
    → length xs < fuel
    → find_end_of_run fuel l less a (tail_of list) ≡ ok (first (run_rest less a xs) (tail_of list))
unfolding find_end_of_run mem
find_end_of_run_lem {l} {list} less fuel done a xs v lt =
    let c = IsList-Around done xs a v in
    let end0 : (tail_of list == 0) ≡ false = ground (arith, v.nonnull) in
    let differ : (a == tail_of list) ≡ false = ground (arith, c.ends) in
    rw (c.nonnull, end0, differ) (end_of_run_loop_lem less fuel done a xs v lt)

pub is_sorted_lem :
    {l : Links} {list : ℕ} (less : Less) (fuel : ℕ) (done : List ℕ) (a : ℕ) (us post : List ℕ)
    → IsList l list (done ++ (a ∷ (us ++ post)))
    → IsSorted less (a ∷ us)
    → length us < fuel
    → is_sorted fuel l less a (first post (tail_of list)) ≡ ok true
unfolding is_sorted
is_sorted_lem less fuel done a us post v so lt =
    rw (apart_end done a us post v) (sorted_loop_lem less fuel done a us post v so lt)

-- Two runs of a list are merged in place.
pub inplace_merge-IsList :
    {l : Links} {list : ℕ} (less : Less) (fuel : ℕ) (done : List ℕ) (a b : ℕ) (us ws post : List ℕ)
    → IsList l list (done ++ ((a ∷ us) ++ ((b ∷ ws) ++ post)))
    → IsSorted less (a ∷ us)
    → IsSorted less (b ∷ ws)
    → length us + length ws + 2 < fuel
    → (m : Links) × (inplace_merge fuel l less a b (first post (tail_of list)) ≡ ok m)
      × IsList m list (done ++ (merged less (a ∷ us) (b ∷ ws) ++ post))
unfolding inplace_merge mem
inplace_merge-IsList {l} {list} less fuel done a b us ws post v sa sb lt =
    let c = IsList-Around done (us ++ ((b ∷ ws) ++ post)) a v in
    let v1 : IsList l list ((done ++ (a ∷ us)) ++ (b ∷ (ws ++ post))) =
      subst (λ zs. IsList l list zs) (sym (append_assoc done (a ∷ us) (b ∷ (ws ++ post)))) v in
    let cb = IsList-Around (done ++ (a ∷ us)) (ws ++ post) b v1 in
    let end0 : (first post (tail_of list) == 0) ≡ false = first_nonnull (tail_of list) post (
      ground (
        arith,
        v.nonnull,
        mem-append 0 done ((a ∷ us) ++ ((b ∷ ws) ++ post)),
        mem-append 0 us ((b ∷ ws) ++ post),
        mem-append 0 ws post,
      )) in
    let first_sorted = is_sorted_lem less fuel done a us ((b ∷ ws) ++ post) v sa (omega arith) in
    let second_sorted = is_sorted_lem less fuel (done ++ (a ∷ us)) b ws post v1 sb (omega arith) in
    let (m, run, w) = merge_loop-IsList less post fuel done (a ∷ us) (b ∷ ws) v (omega arith) in
    (m, rw (c.nonnull, cb.nonnull, end0, first_sorted, second_sorted) run, w)
