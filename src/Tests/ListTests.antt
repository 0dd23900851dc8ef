-- ===== src/Tests/ListTests.antt =====
-- The theorems on lib/kernel/list.c, at a memory with two lists.
use eda.Prelude.{
  ℕ, ◌&&◌, not, ◌≡◌, refl, true, false, List, [], ◌∷◌, arith, ◌==◌, ltb, if◌then◌else◌, ok,
}
use eda.Prelude.Members.{mem}
use eda.KernelList.{Links, list_reverse}
use eda.KernelList.Ordered.{Less, list_unique}
use eda.KernelList.Linked.{link, chain}
use eda.KernelList.State.{nodes, IsList, Spares}
use eda.KernelList.Reverse.{list_reverse-IsList}
use eda.KernelList.Deque.{
  Op, push_front, push_back, pop_front, pop_back, operate_all, describe_all, describe,
  operate_all-Agrees,
}
use eda.KernelList.Sorted.{IsSorted}
use eda.KernelList.Sort.{list_sort}
use eda.KernelList.Passes.{SameElements}
use eda.KernelList.Sorting.{list_sort-IsSorted}
use eda.KernelList.Unique.{Duplicates, a_list, list_unique-IsList}

-- The list at 100 holds 10, 20 and 30; the list at 200 is empty.
abbrev memory : Links
memory = record {
  prev = λ a.
      if a == 10
      then 100
      else if a == 20
      then 10
      else if a == 30
      then 20
      else if a == 108
      then 30
      else if a == 208
      then 200
      else 0;
  next = λ a.
      if a == 100
      then 10
      else if a == 10
      then 20
      else if a == 20
      then 30
      else if a == 30
      then 108
      else if a == 200
      then 208
      else 0;
}

abbrev three : List ℕ
three = 10 ∷ 20 ∷ 30 ∷ []

three-IsList : IsList memory 100 three
unfolding mem
three-IsList = record {
  head_prev = refl;
  tail_next = refl;
  linked = chain {p = 100} {x = 10} refl refl (
      chain {p = 10} {x = 20} refl refl
        (chain {p = 20} {x = 30} refl refl (link {p = 30} refl refl)));
  distinct = (refl, (refl, (refl, (refl, (refl, tt)))));
  nonnull = refl;
}

empty-IsList : IsList memory 200 []
unfolding mem
empty-IsList = record {
  head_prev = refl;
  tail_next = refl;
  linked = link refl refl;
  distinct = (refl, (refl, tt));
  nonnull = refl;
}

list_reverse-IsList_example :
    (f : Links) × (list_reverse 4 memory 100 ≡ ok f)
    × IsList f 100 (30 ∷ 20 ∷ 10 ∷ [])
    × Spares memory f (nodes 100 three)
list_reverse-IsList_example = list_reverse-IsList three 4 three-IsList (omega arith)

-- 40 and 50 are pushed to either end, then two elements are popped.
abbrev ops : List Op
ops = push_front 40 ∷ push_back 50 ∷ pop_back ∷ pop_front ∷ pop_front ∷ []

operate_all-Agrees_example :
    (m : Links) × (operate_all memory 100 ops ≡ ok (50 ∷ 40 ∷ 10 ∷ [], m))
    × IsList m 100 (20 ∷ 30 ∷ [])
unfolding describe_all describe mem
operate_all-Agrees_example = operate_all-Agrees 100 memory three ops three-IsList

-- The elements below 25 are equal.
abbrev tens : Less
tens a b = ltb a 25 && not (ltb b 25)

list_unique-IsList_example :
    (m : Links) × (list_unique 3 memory tens 100 200 ≡ ok m)
    × IsList m 100 (10 ∷ 30 ∷ [])
    × Duplicates m (nodes 100 (10 ∷ 30 ∷ [])) 200 (20 ∷ [])
unfolding mem
list_unique-IsList_example =
    list_unique-IsList {ds = []} tens (20 ∷ 30 ∷ []) 3 three-IsList
      (a_list empty-IsList (λ a h. ground arith)) (omega arith)

-- The element 20 is less than all others.
abbrev twenty_first : Less
twenty_first a b = (a == 20) && not (b == 20)

twenty_first-asym : (a b : ℕ) → twenty_first a b ≡ true → twenty_first b a ≡ false
twenty_first-asym a b h = ground arith

list_sort-IsSorted_example :
    (m : Links) × (zs : List ℕ) × (list_sort 6 memory twenty_first 100 ≡ ok m)
    × IsList m 100 zs
    × SameElements three zs
    × IsSorted twenty_first zs
list_sort-IsSorted_example =
    list_sort-IsSorted twenty_first twenty_first-asym three 6 three-IsList (omega arith)
      (omega arith)
