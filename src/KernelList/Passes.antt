-- ===== src/KernelList/Passes.antt =====
-- The passes of the sort.
use mathlib.Core.Path.{subst}
use mathlib.Core.List.{append_assoc}
use eda.Prelude.{
  ℕ, zero, suc, ◌+◌, ◌%◌, ◌^◌, ◌<◌, ◌≤◌, ◌≡◌, refl, sym, ◌∙◌, ap, ◌||◌, true, false, ◌==◌, List, [],
  ◌∷◌, ◌++◌, arith, Bool-cases, ◌⊎◌, inl, inr, if◌then◌else◌, length, length-append, ok,
}
use eda.Prelude.Members.{mem, mem-append}
use eda.KernelList.{Links, tail_of}
use eda.KernelList.Ordered.{Less}
use eda.KernelList.Sorted.{IsSorted}
use eda.KernelList.Sort.{find_end_of_run, inplace_merge, sort_pass}
use eda.KernelList.State.{IsList, first}
use eda.KernelList.Remove.{IsList-Around}
use eda.KernelList.Merge.{merged, ==-same}
use eda.KernelList.Runs.{
  run_tail, run_rest, run_tail-rest, run_tail-IsSorted, find_end_of_run_lem, inplace_merge-IsList,
}

-- The number of runs
abbrev pub breaks : Less → ℕ → List ℕ → ℕ
breaks less x [] = 0
breaks less x (y ∷ ys) = if less y x then 1 + breaks less y ys else breaks less y ys

abbrev pub runs : Less → List ℕ → ℕ
runs less [] = 0
runs less (x ∷ xs) = 1 + breaks less x xs

module _ (less : Less) where
  breaks-rest : (a : ℕ) (xs : List ℕ) → breaks less a xs ≡ runs less (run_rest less a xs)
  breaks-rest a [] = refl
  breaks-rest a (y ∷ ys) = elim (Bool-cases (less y a)) [
    | inl h ↦ rw h refl
    | inr h ↦ rw h (breaks-rest y ys)
  ]

  breaks_le : (a : ℕ) (zs : List ℕ) → breaks less a zs ≤ runs less zs
  breaks_le a [] = omega arith
  breaks_le a (z ∷ zs) = ground arith

  breaks-append :
      (a : ℕ) (us zs : List ℕ) → IsSorted less (a ∷ us) → breaks less a (us ++ zs) ≤ runs less zs
  breaks-append a [] zs s = breaks_le a zs
  breaks-append a (u ∷ us) zs s = rw s.0 (breaks-append u us zs s.1)

  runs-append : (us zs : List ℕ) → IsSorted less us → runs less (us ++ zs) ≤ 1 + runs less zs
  runs-append [] zs s = omega arith
  runs-append (u ∷ us) zs s = omega (arith, breaks-append u us zs s)

  pub runs_le : (xs : List ℕ) → runs less xs ≤ length xs
  runs_le [] = omega arith
  runs_le (x ∷ []) = omega arith
  runs_le (x ∷ y ∷ xs) = ground (arith, runs_le (y ∷ xs))

  pub IsSorted-breaks : (x : ℕ) (xs : List ℕ) → breaks less x xs ≡ 0 → IsSorted less (x ∷ xs)
  IsSorted-breaks x [] h = tt
  IsSorted-breaks x (y ∷ ys) h = elim (Bool-cases (less y x)) [
    | inl k ↦
        absurd (omega (arith, ap (λ b. if b then 1 + breaks less y ys else breaks less y ys) k, h))
    | inr k ↦ (
      k,
      IsSorted-breaks y ys
          (ap (λ b. if b then 1 + breaks less y ys else breaks less y ys) (sym k) ∙ h),
    )
  ]

-- The merge of sorted sequences is sorted and has the elements of both.
merged-IsSorted :
    (less : Less)
    → ((a b : ℕ) → less a b ≡ true → less b a ≡ false)
    → (us ws : List ℕ) (c : ℕ) → IsSorted less (c ∷ us)
    → IsSorted less (c ∷ ws)
    → IsSorted less (c ∷ merged less us ws)
merged-IsSorted less asym [] ws c s t = t
merged-IsSorted less asym (a ∷ us) [] c s t = s
merged-IsSorted less asym (a ∷ us) (b ∷ ws) c s t = elim (Bool-cases (less b a)) [
  | inl h ↦ rw h (t.0, merged-IsSorted less asym (a ∷ us) ws b (asym b a h, s.1) t.1)
  | inr h ↦ rw h (s.0, merged-IsSorted less asym us (b ∷ ws) a s.1 (h, t.1))
]

mem-merged :
    (less : Less) (x : ℕ) (us ws : List ℕ) → mem x (merged less us ws) ≡ (mem x us || mem x ws)
unfolding mem
mem-merged less x [] ws = refl
mem-merged less x (a ∷ us) [] = ground arith
mem-merged less x (a ∷ us) (b ∷ ws) = elim (Bool-cases (less b a)) [
  | inl h ↦ rw h (ground (arith, mem-merged less x (a ∷ us) ws))
  | inr h ↦ rw h (ground (arith, mem-merged less x us (b ∷ ws)))
]

length-merged : (less : Less) (us ws : List ℕ) → length (merged less us ws) ≡ length us + length ws
length-merged less [] ws = omega arith
length-merged less (a ∷ us) [] = omega arith
length-merged less (a ∷ us) (b ∷ ws) = elim (Bool-cases (less b a)) [
  | inl h ↦ rw h (omega (arith, length-merged less (a ∷ us) ws))
  | inr h ↦ rw h (omega (arith, length-merged less us (b ∷ ws)))
]

merged-runs :
    (less : Less)
    → ((a b : ℕ) → less a b ≡ true → less b a ≡ false)
    → (a b : ℕ) (us ws : List ℕ) → IsSorted less (a ∷ us)
    → IsSorted less (b ∷ ws)
    → IsSorted less (merged less (a ∷ us) (b ∷ ws))
merged-runs less asym a b us ws s t = elim (Bool-cases (less b a)) [
  | inl h ↦ rw h (merged-IsSorted less asym (a ∷ us) ws b (asym b a h, s) t)
  | inr h ↦ rw h (merged-IsSorted less asym us (b ∷ ws) a s (h, t))
]

-- The elements `zs` are those of `xs`, in another order.
pub record SameElements (xs zs : List ℕ) : Type 0 where
  pub same_length : length zs ≡ length xs
  pub same : (a : ℕ) → mem a zs ≡ mem a xs

-- What a pass does to the elements `xs`: it leaves at most as many runs as it counts, about half of
-- those before.
pub record Passes (less : Less) (xs zs : List ℕ) (c : ℕ) : Type 0 where
  pub elements : SameElements xs zs
  pub fewer : runs less zs ≤ c
  pub half : c + c ≤ runs less xs + 1

List-cases : (xs : List ℕ) → (xs ≡ []) ⊎ ((y : ℕ) × (ys : List ℕ) × (xs ≡ y ∷ ys))
List-cases [] = inl refl
List-cases (y ∷ ys) = inr (y, ys, refl)

-- One turn of a pass
turn_lem :
    {m1 : Links} {b b1 : ℕ} (l : Links) (a stop cnt : ℕ) (less : Less) (turns fuel : ℕ)
    {r : ℕ × Links}
    → (a == stop) ≡ false
    → find_end_of_run fuel l less a stop ≡ ok b
    → (b == stop) ≡ false
    → find_end_of_run fuel l less b stop ≡ ok b1
    → inplace_merge fuel l less a b b1 ≡ ok m1
    → sort_pass turns fuel m1 less stop b1 ((cnt + 1) % 2 ^ 32) ≡ ok r
    → sort_pass (suc turns) fuel l less stop a cnt ≡ ok r
unfolding sort_pass
turn_lem l a stop cnt less turns fuel differ found not_end found1 merge rest =
    rw (differ, found, not_end, found1, merge) rest

module _ (less : Less) (asym : (a b : ℕ) → less a b ≡ true → less b a ≡ false) where
  -- A pair of runs and what the pass makes of the elements behind them
  pair-Passes :
      (a b : ℕ) (us ws post zs : List ℕ) (c : ℕ)
      → IsSorted less (a ∷ us)
      → IsSorted less (b ∷ ws)
      → breaks less a (us ++ (b ∷ (ws ++ post))) ≡ 1 + breaks less b (ws ++ post)
      → breaks less b (ws ++ post) ≡ runs less post
      → Passes less post zs c
      → Passes less (a ∷ (us ++ (b ∷ (ws ++ post)))) (merged less (a ∷ us) (b ∷ ws) ++ zs) (1 + c)
  unfolding mem
  pair-Passes a b us ws post zs c s t e1 e2 p =
      let ms = merged less (a ∷ us) (b ∷ ws) in
      record {
        elements = record {
          same_length = omega (
            arith,
            length-append ms zs,
            length-merged less (a ∷ us) (b ∷ ws),
            length-append us (b ∷ (ws ++ post)),
            length-append ws post,
            p.elements.same_length,
          );
          same = λ x.
              mem-append x ms zs
              ∙ ap (λ q. q || mem x zs) (mem-merged less x (a ∷ us) (b ∷ ws))
              ∙ ap (λ q. (mem x (a ∷ us) || mem x (b ∷ ws)) || q) (p.elements.same x)
              ∙ ground (arith, mem-append x us (b ∷ (ws ++ post)), mem-append x ws post);
        };
        fewer =
            omega (arith, runs-append less ms zs (merged-runs less asym a b us ws s t), p.fewer);
        half = omega (arith, e1, e2, p.half);
      }

  pub sort_pass-Passes :
      {list : ℕ} (turns fuel : ℕ) {l : Links} (done xs : List ℕ) (cnt : ℕ)
      → IsList l list (done ++ xs)
      → length xs < turns
      → length xs + 2 < fuel
      → cnt + length xs < 2 ^ 32
      → (c : ℕ) × (m : Links) × (zs : List ℕ) × (sort_pass turns fuel l less
            (tail_of list)
            (first xs (tail_of list))
            cnt
          ≡ ok (cnt + c, m))
        × IsList m list (done ++ zs)
        × Passes less xs zs c
  unfolding sort_pass mem
  sort_pass-Passes zero fuel done xs cnt v lt en le = absurd (omega arith)
  sort_pass-Passes {list} (suc turns) fuel {l} done [] cnt v lt en le = (
    0,
    l,
    [],
    rw (==-same (tail_of list)) (ap (λ n. ok (n, l)) (omega arith)),
    v,
    record {
      elements = record { same_length = refl; same = λ a. refl };
      fewer = omega arith;
      half = omega arith;
    },
  )
  sort_pass-Passes {list} (suc turns) fuel {l} done (a ∷ xs) cnt v lt en le =
      let differ : (a == tail_of list) ≡ false = ground (arith, (IsList-Around done xs a v).ends) in
      let counted : (cnt + 1) % 2 ^ 32 ≡ cnt + 1 = omega (arith, le) in
      let found = find_end_of_run_lem less fuel done a xs v (omega arith) in
      elim (List-cases (run_rest less a xs)) [
        | inl e ↦
            let at_end = found ∙ ap (λ r. ok (first r (tail_of list))) e in
            let one_run : breaks less a xs ≡ 0 = breaks-rest less a xs ∙ ap (runs less) e in
            (
              1,
              l,
              a ∷ xs,
              rw (differ, at_end, ==-same (tail_of list)) (ap (λ n. ok (n, l)) counted),
              v,
              record {
                elements = record { same_length = refl; same = λ b. refl };
                fewer = omega (arith, one_run);
                half = omega (arith, one_run);
              },
            )
        | inr (b, ys, e) ↦
            let us = run_tail less a xs in
            let ws = run_tail less b ys in
            let post = run_rest less b ys in
            let ys_is : ys ≡ ws ++ post = sym (run_tail-rest less b ys) in
            let xs_is0 : xs ≡ us ++ (b ∷ ys) =
              sym (run_tail-rest less a xs) ∙ ap (λ r. us ++ r) e in
            let xs_is : xs ≡ us ++ (b ∷ (ws ++ post)) = xs_is0 ∙ ap (λ r. us ++ (b ∷ r)) ys_is in
            let v1 : IsList l list ((done ++ (a ∷ us)) ++ (b ∷ ys)) =
              subst (λ zs. IsList l list zs) (sym (append_assoc done (a ∷ us) (b ∷ ys)))
                (subst (λ zs. IsList l list (done ++ (a ∷ zs))) xs_is0 v) in
            let v2 = subst (λ zs. IsList l list (done ++ (a ∷ zs))) xs_is v in
            let not_end : (b == tail_of list) ≡ false =
              ground (arith, (IsList-Around (done ++ (a ∷ us)) ys b v1).ends) in
            let lengths : length xs ≡ length us + length ws + length post + 1 = omega (
              arith,
              ap length xs_is,
              length-append us (b ∷ (ws ++ post)),
              length-append ws post,
            ) in
            let lengths1 : length ys ≡ length ws + length post =
              omega (arith, ap length ys_is, length-append ws post) in
            let found1 = found ∙ ap (λ r. ok (first r (tail_of list))) e in
            let found2 =
              find_end_of_run_lem less fuel (done ++ (a ∷ us)) b ys v1
                (omega (arith, lengths, lengths1)) in
            let sa = run_tail-IsSorted less a xs in
            let sb = run_tail-IsSorted less b ys in
            let ms = merged less (a ∷ us) (b ∷ ws) in
            let (m1, merge, w) =
              inplace_merge-IsList less fuel done a b us ws post v2 sa sb
                (omega (arith, lengths)) in
            let (c, m, zs, run, w1, p) =
              sort_pass-Passes turns fuel (done ++ ms) post (cnt + 1)
                (subst (λ zs. IsList m1 list zs) (sym (append_assoc done ms post)) w)
                (omega (arith, lengths)) (omega (arith, lengths)) (omega (arith, lengths, le)) in
            (
              1 + c,
              m,
              ms ++ zs,
              turn_lem l a (tail_of list) cnt less turns fuel differ found1 not_end found2 merge (
                  ap (sort_pass turns fuel m1 less (tail_of list) (first post (tail_of list)))
                    counted
                  ∙ run
                  ∙ ap (λ n. ok (n, m)) (omega arith)),
              subst (λ zs. IsList m list zs) (append_assoc done ms zs) w1,
              subst (λ r. Passes less (a ∷ r) (ms ++ zs) (1 + c)) (sym xs_is)
                  (pair-Passes a b us ws post zs c sa sb
                    (ap (breaks less a) (sym xs_is)
                      ∙ breaks-rest less a xs
                      ∙ ap (runs less) e
                      ∙ ap (λ r. 1 + breaks less b r) ys_is)
                    (ap (breaks less b) (sym ys_is) ∙ breaks-rest less b ys) p),
            )
      ]
