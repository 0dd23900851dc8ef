-- ===== src/KernelList/Unique.antt =====
-- The removal of adjacent duplicates.
use mathlib.Core.Path.{subst}
use mathlib.Core.List.{append_assoc, append-nil}
use eda.Prelude.{
  ℕ, zero, suc, ◌<◌, ◌≡◌, ◌≢◌, refl, sym, Bool, true, false, ◌==◌, List, [], ◌∷◌, ◌++◌, arith,
  Bool-cases, inl, inr, if◌then◌else◌, length, ok,
}
use eda.Prelude.Members.{mem, mem-append}
use eda.KernelList.{Links, tail_of, list_remove}
use eda.KernelList.Ordered.{Less, same, keep_duplicate, unique_loop, list_unique}
use eda.KernelList.State.{nodes, IsList, first, IsList-frame}
use eda.KernelList.Insert.{mem_ne}
use eda.KernelList.Remove.{IsList-Around, Linked-next, list_remove-IsList}
use eda.KernelList.Ends.{list_nonnull, list_empty_lem, list_push_back-IsList}
use eda.KernelList.Size.{list_next_lem}

-- The elements that stay behind `x`, and those that are taken off
abbrev pub kept : Less → ℕ → List ℕ → List ℕ
kept less x [] = []
kept less x (y ∷ ys) = if same less x y then kept less x ys else y ∷ kept less y ys

abbrev pub taken_off : Less → ℕ → List ℕ → List ℕ
taken_off less x [] = []
taken_off less x (y ∷ ys) = if same less x y then y ∷ taken_off less x ys else taken_off less y ys

-- `duplicates` is NULL or a list apart from the one with the nodes `ns`.
pub data Duplicates (l : Links) (ns : List ℕ) : ℕ → List ℕ → Type 0 where
  no_list : {ds : List ℕ} → Duplicates l ns 0 ds
  a_list :
      {list : ℕ} {ds : List ℕ}
      → IsList l list ds
      → ((a : ℕ) → mem a (nodes list ds) ≡ true → mem a ns ≡ false)
      → Duplicates l ns list ds

opposite : {a b : Bool} → (a ≡ true → b ≡ false) → b ≡ true → a ≡ false
opposite {a} {b} f h = elim (Bool-cases a) [ inl e ↦ absurd (ground (arith, f e)) | inr e ↦ e ]

-- The element `y` behind `x` is moved to the duplicates.
move-Duplicates :
    {l : Links} {list duplicates : ℕ} {ds : List ℕ} (y : ℕ) (xs ys : List ℕ)
    → IsList l list (xs ++ (y ∷ ys))
    → Duplicates l (nodes list (xs ++ (y ∷ ys))) duplicates ds
    → (m : Links) × (q : Links) × (list_remove l y ≡ ok (first ys (tail_of list), q))
      × (keep_duplicate q duplicates y ≡ ok m)
      × IsList m list (xs ++ ys)
      × Duplicates m (nodes list (xs ++ ys)) duplicates (ds ++ (y ∷ []))
unfolding mem
move-Duplicates {list = list} y xs ys v no_list =
    let (q, run, w, s, n, p) = list_remove-IsList xs ys y v in (q, q, run, refl, w, no_list)
move-Duplicates {list = list} {duplicates = duplicates} {ds = ds} y xs ys v (a_list u apart) =
    let c = IsList-Around xs ys y v in
    let (q, run, w, s, n, p) = list_remove-IsList xs ys y v in
    let u1 = IsList-frame (nodes list (xs ++ (y ∷ ys))) u s apart in
    let y0 : y ≢ 0 = ground (arith, c.nonnull) in
    let fresh : mem y (nodes duplicates ds) ≡ false =
      ground (arith, apart y, mem-append y xs (y ∷ ys)) in
    let out : mem y (nodes list (xs ++ ys)) ≡ false =
      ground (arith, c.right, c.ends, c.apart y, mem-append y xs ys) in
    let (m, pushed, t, s1) = list_push_back-IsList {e = y} u1 y0 fresh in
    let apart1 : (a : ℕ)
        → mem a (nodes list (xs ++ ys)) ≡ true
        → mem a (nodes duplicates (ds ++ (y ∷ []))) ≡ false =
      (λ a h. ground (
        arith,
        apart a,
        mem_ne a y (nodes list (xs ++ ys)) h out,
        mem-append a xs ys,
        mem-append a xs (y ∷ ys),
        mem-append a ds (y ∷ []),
      )) in
    (
      m,
      q,
      run,
      rw (list_nonnull u) pushed,
      IsList-frame (nodes duplicates (ds ++ (y ∷ []))) w s1 apart1,
      a_list t (λ a h. opposite (apart1 a) h),
    )

-- The lists that the loop works on
abbrev Lists : Links → ℕ → ℕ → List ℕ → List ℕ → Type 0
Lists l list duplicates zs ds = IsList l list zs × Duplicates l (nodes list zs) duplicates ds

shift :
    {l : Links} {list duplicates : ℕ} {ds : List ℕ} (xs : List ℕ) (x : ℕ) (zs : List ℕ)
    → Lists l list duplicates (xs ++ (x ∷ zs)) ds
    → Lists l list duplicates ((xs ++ (x ∷ [])) ++ zs) ds
shift {l} {list} {duplicates} {ds} xs x zs h =
    subst (λ ws. Lists l list duplicates ws ds) (sym (append_assoc xs (x ∷ []) zs)) h

unshift :
    {l : Links} {list duplicates : ℕ} {ds : List ℕ} (xs : List ℕ) (x : ℕ) (zs : List ℕ)
    → Lists l list duplicates ((xs ++ (x ∷ [])) ++ zs) ds
    → Lists l list duplicates (xs ++ (x ∷ zs)) ds
unshift {l} {list} {duplicates} {ds} xs x zs h =
    subst (λ ws. Lists l list duplicates ws ds) (append_assoc xs (x ∷ []) zs) h

unique_loop-IsList :
    {list duplicates : ℕ} (less : Less) (ys : List ℕ) (fuel : ℕ) {l : Links} (x : ℕ)
    (xs ds : List ℕ)
    → IsList l list (xs ++ (x ∷ ys))
    → Duplicates l (nodes list (xs ++ (x ∷ ys))) duplicates ds
    → length ys < fuel
    → (m : Links) × (unique_loop fuel l less list duplicates x ≡ ok m)
      × IsList m list (xs ++ (x ∷ kept less x ys))
      × Duplicates m
          (nodes list (xs ++ (x ∷ kept less x ys)))
          duplicates
          (ds ++ taken_off less x ys)
unfolding unique_loop mem
unique_loop-IsList less ys zero x xs ds v dup lt = absurd (omega arith)
unique_loop-IsList {list} {duplicates} less [] (suc fuel) {l} x xs ds v dup lt =
    let c = IsList-Around xs [] x v in
    (
      l,
      rw (list_next_lem l x c.nonnull c.next_nonnull, c.next_is, list_nonnull v) (ground arith),
      v,
      subst (λ es. Duplicates l (nodes list (xs ++ (x ∷ []))) duplicates es) (sym (append-nil ds))
          dup,
    )
unique_loop-IsList {list} {duplicates} less (y ∷ ys) (suc fuel) {l} x xs ds v dup lt =
    let c = IsList-Around xs (y ∷ ys) x v in
    let not_end : (y == tail_of list) ≡ false = ground (arith, c.ends) in
    elim (Bool-cases (same less x y)) [
      | inl h ↦
          let (v0, dup0) = shift xs x (y ∷ ys) (v, dup) in
          let (q1, q, run, keep, w, dup1) = move-Duplicates y (xs ++ (x ∷ [])) ys v0 dup0 in
          let (w1, dup2) = unshift xs x ys (w, dup1) in
          let (m, more, t, dup3) =
            unique_loop-IsList less ys fuel x xs (ds ++ (y ∷ [])) w1 dup2 (omega arith) in
          rw h (
            m,
            rw
                (
                  list_next_lem l x c.nonnull c.next_nonnull,
                  c.next_is,
                  list_nonnull v,
                  not_end,
                  h,
                  run,
                  keep,
                )
                more,
            t,
            subst (λ es. Duplicates m (nodes list (xs ++ (x ∷ kept less x ys))) duplicates es)
                (append_assoc ds (y ∷ []) (taken_off less x ys)) dup3,
          )
      | inr h ↦
          let (v0, dup0) = shift xs x (y ∷ ys) (v, dup) in
          let (m, more, w, dup1) =
            unique_loop-IsList less ys fuel y (xs ++ (x ∷ [])) ds v0 dup0 (omega arith) in
          let (t, dup2) = unshift xs x (y ∷ kept less y ys) (w, dup1) in
          rw h (
            m,
            rw (list_next_lem l x c.nonnull c.next_nonnull, c.next_is, list_nonnull v, not_end, h)
                more,
            t,
            dup2,
          )
    ]

-- With more fuel than the list has elements, `list_unique` leaves the first of each row of elements that
-- are equal to it, and appends the others, in their order, to the duplicates, where there is a list for
-- them.
pub list_unique-IsList :
    {l : Links} {list duplicates x : ℕ} {ds : List ℕ} (less : Less) (xs : List ℕ) (fuel : ℕ)
    → IsList l list (x ∷ xs)
    → Duplicates l (nodes list (x ∷ xs)) duplicates ds
    → length xs < fuel
    → (m : Links) × (list_unique fuel l less list duplicates ≡ ok m)
      × IsList m list (x ∷ kept less x xs)
      × Duplicates m (nodes list (x ∷ kept less x xs)) duplicates (ds ++ taken_off less x xs)
unfolding list_unique
list_unique-IsList {x = x} {ds = ds} less xs fuel v dup lt =
    let (m, run, w, dup1) = unique_loop-IsList less xs fuel x [] ds v dup lt in
    (m, rw (list_nonnull v, list_empty_lem (x ∷ xs) v, Linked-next v.linked) run, w, dup1)
