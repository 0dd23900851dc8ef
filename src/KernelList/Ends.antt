-- ===== src/KernelList/Ends.antt =====
-- Both ends of a list as a queue and a stack.
use mathlib.Core.Path.{subst}
use mathlib.Core.List.{append-nil}
use eda.Prelude.{
  ℕ, ◌≡◌, ◌≢◌, refl, sym, Bool, true, false, ◌==◌, ==-ne, List, [], ◌∷◌, ◌++◌, arith, Result, ok,
  panic,
}
use eda.Prelude.Members.{mem}
use eda.KernelList.{
  Links, tail_of, init_links, list_init, list_empty, list_front, list_back, list_push_front,
  list_push_back, list_pop_front, list_pop_back,
}
use eda.KernelList.Linked.{Linked, link, Linked-split}
use eda.KernelList.State.{nodes, IsList, Spares}
use eda.KernelList.Insert.{list_insert-IsList}
use eda.KernelList.Remove.{Linked-next, list_remove-IsList}

-- A run that leaves the elements `xs` in the list and changes nothing outside the elements `ns`
abbrev pub Leaves : Links → ℕ → List ℕ → List ℕ → Result Links → Type 0
Leaves l list ns xs r = (m : Links) × (r ≡ ok m) × IsList m list xs × Spares l m (nodes list ns)

pub list_nonnull : {l : Links} {list : ℕ} {xs : List ℕ} → IsList l list xs → (list == 0) ≡ false
unfolding mem
list_nonnull v = ground (arith, v.nonnull)

pub list_init-IsList : {l : Links} {list : ℕ} → list ≢ 0 → Leaves l list [] [] (list_init l list)
unfolding list_init mem
list_init-IsList {l} {list} ne = (
  init_links l list,
  rw (==-ne list 0 ne) refl,
  record {
    head_prev = ground arith;
    tail_next = ground arith;
    linked = link (ground arith) (ground arith);
    distinct = ground arith;
    nonnull = ground arith;
  },
  record { prev = λ a h. ground arith; next = λ a h. ground arith },
)

pub list_push_back-IsList :
    {l : Links} {list e : ℕ} {xs : List ℕ}
    → IsList l list xs
    → e ≢ 0
    → mem e (nodes list xs) ≡ false
    → Leaves l list (xs ++ (e ∷ [])) (xs ++ (e ∷ [])) (list_push_back l list e)
unfolding list_push_back
list_push_back-IsList {l} {list} {e} {xs} v ne out = rw (list_nonnull v) (
    list_insert-IsList xs [] (subst (λ zs. IsList l list zs) (sym (append-nil xs)) v) ne
      (subst (λ zs. mem e (nodes list zs) ≡ false) (sym (append-nil xs)) out))

pub list_push_front-IsList :
    {l : Links} {list e : ℕ} {xs : List ℕ}
    → IsList l list xs
    → e ≢ 0
    → mem e (nodes list xs) ≡ false
    → Leaves l list (e ∷ xs) (e ∷ xs) (list_push_front l list e)
unfolding list_push_front
list_push_front-IsList {l} {list} {e} {xs} v ne out =
    rw (list_nonnull v, Linked-next v.linked) (list_insert-IsList [] xs v ne out)

abbrev pub is_nil : List ℕ → Bool
is_nil [] = true
is_nil (_ ∷ _) = false

pub list_empty_lem :
    {l : Links} {list : ℕ} (xs : List ℕ) → IsList l list xs → list_empty l list ≡ ok (is_nil xs)
unfolding list_empty mem
list_empty_lem {l} {list} [] v = rw (list_nonnull v) (ground (arith, Linked-next v.linked))
list_empty_lem {l} {list} (x ∷ xs) v =
    rw (list_nonnull v) (ground (arith, Linked-next v.linked, v.distinct))

-- A removal that returns the element `e`
abbrev pub Yields : Links → ℕ → List ℕ → List ℕ → ℕ → Result (ℕ × Links) → Type 0
Yields l list ns xs e r =
    (m : Links) × (r ≡ ok (e, m)) × IsList m list xs × Spares l m (nodes list ns)

pub list_pop_front-IsList :
    {l : Links} {list x : ℕ} {xs : List ℕ}
    → IsList l list (x ∷ xs)
    → Yields l list (x ∷ xs) xs x (list_pop_front l list)
unfolding list_pop_front list_front
list_pop_front-IsList {l} {list} {x} {xs} v =
    let (m, run, w, s, n, p) = list_remove-IsList [] xs x v in
    (m, rw (list_empty_lem (x ∷ xs) v, Linked-next v.linked, run) refl, w, s)

pub list_pop_back-IsList :
    {l : Links} {list x : ℕ} {xs : List ℕ}
    → IsList l list (xs ++ (x ∷ []))
    → Yields l list (xs ++ (x ∷ [])) xs x (list_pop_back l list)
unfolding list_pop_back list_back
list_pop_back-IsList {l} {list} {x} {xs} v =
    let (m, run, w, s, n, p) = list_remove-IsList xs [] x v in
    (
      m,
      rw (list_empty_lem (xs ++ (x ∷ [])) v, snoc xs, prev_end (Linked-split xs v.linked).1, run)
          refl,
      subst (λ zs. IsList m list zs) (append-nil xs) w,
      s,
    )
  where
    prev_end : Linked l (tail_of list) x [] → l.prev (tail_of list) ≡ x
    prev_end (link a b) = b

    snoc : (xs : List ℕ) → is_nil (xs ++ (x ∷ [])) ≡ false
    snoc [] = refl
    snoc (y ∷ xs) = refl

pub list_pop_front-nil : {l : Links} {list : ℕ} → IsList l list [] → list_pop_front l list ≡ panic
unfolding list_pop_front list_front
list_pop_front-nil v = rw (list_empty_lem [] v) refl

pub list_pop_back-nil : {l : Links} {list : ℕ} → IsList l list [] → list_pop_back l list ≡ panic
unfolding list_pop_back list_back
list_pop_back-nil v = rw (list_empty_lem [] v) refl
