-- ===== src/KernelList/Sorted.antt =====
-- Insertion into a sorted list.
use mathlib.Core.Path.{subst}
use eda.Prelude.{
  ℕ, zero, suc, ◌<◌, ◌≡◌, ◌≢◌, refl, sym, ap, true, false, ◌==◌, ==-ne, List, [], ◌∷◌, ◌++◌, arith,
  Bool-cases, inl, inr, if◌then◌else◌, length, ok,
}
use eda.Prelude.Members.{mem}
use eda.KernelList.{Links}
use eda.KernelList.Ordered.{Less, find_place, list_insert_ordered}
use eda.KernelList.Linked.{Linked, link, chain}
use eda.KernelList.State.{nodes, IsList, Spares, first}
use eda.KernelList.Insert.{list_insert-IsList}
use eda.KernelList.Remove.{Linked-next}
use eda.KernelList.Size.{list_next_lem, first_nonnull}

-- The elements before the first that is greater than `e`, and the others
abbrev pub lower : Less → ℕ → List ℕ → List ℕ
lower less e [] = []
lower less e (x ∷ xs) = if less e x then [] else x ∷ lower less e xs

abbrev pub upper : Less → ℕ → List ℕ → List ℕ
upper less e [] = []
upper less e (x ∷ xs) = if less e x then x ∷ xs else upper less e xs

lower-upper : (less : Less) (e : ℕ) (xs : List ℕ) → lower less e xs ++ upper less e xs ≡ xs
lower-upper less e [] = refl
lower-upper less e (x ∷ xs) = elim (Bool-cases (less e x)) [
  | inl h ↦ rw h refl
  | inr h ↦ rw h (ap (λ ys. x ∷ ys) (lower-upper less e xs))
]

-- No element is less than the one before it.
abbrev pub IsSorted : Less → List ℕ → Type 0
IsSorted less [] = Unit {0}
IsSorted less (x ∷ []) = Unit {0}
IsSorted less (x ∷ y ∷ xs) = (less y x ≡ false) × IsSorted less (y ∷ xs)

find_place_lem :
    {l : Links} {stop : ℕ} (less : Less) (e fuel : ℕ) {p : ℕ} {xs : List ℕ}
    → Linked l stop p xs
    → mem 0 (stop ∷ xs) ≡ false
    → mem stop xs ≡ false
    → length xs < fuel
    → find_place fuel l less stop e (first xs stop) ≡ ok (first (upper less e xs) stop)
unfolding find_place mem
find_place_lem less e zero s nz out lt = absurd (omega arith)
find_place_lem {l} {stop} less e (suc fuel) (link a b) nz out lt = ground arith
find_place_lem {l} {stop} less e (suc fuel) (chain {x = x} {xs = xs} a b s) nz out lt =
    let nz1 : mem 0 (stop ∷ xs) ≡ false = ground arith in
    let xs0 : (x == stop) ≡ false = ground arith in
    let rest = find_place_lem less e fuel s nz1 (ground arith) (omega arith) in
    let n = Linked-next s in
    let next0 : (l.next x == 0) ≡ false = rw n (first_nonnull stop xs nz1) in
    elim (Bool-cases (less e x)) [
      | inl h ↦ rw (xs0, h) refl
      | inr h ↦ rw (xs0, h, list_next_lem l x (ground arith) next0, n) rest
    ]

-- The sorted list stays sorted.
module _ (less : Less) (asym : (a b : ℕ) → less a b ≡ true → less b a ≡ false) (e : ℕ) where
  behind-IsSorted :
      (x : ℕ) (xs : List ℕ)
      → IsSorted less (x ∷ xs)
      → less e x ≡ false
      → IsSorted less (x ∷ (lower less e xs ++ (e ∷ upper less e xs)))
  behind-IsSorted x [] s h = (h, tt)
  behind-IsSorted x (y ∷ ys) s h = elim (Bool-cases (less e y)) [
    | inl k ↦ rw k (h, (asym e y k, s.1))
    | inr k ↦ rw k (s.0, behind-IsSorted y ys s.1 k)
  ]

  pub placed-IsSorted :
      (xs : List ℕ) → IsSorted less xs → IsSorted less (lower less e xs ++ (e ∷ upper less e xs))
  placed-IsSorted [] s = tt
  placed-IsSorted (x ∷ xs) s = elim (Bool-cases (less e x)) [
    | inl k ↦ rw k (asym e x k, s)
    | inr k ↦ rw k (behind-IsSorted x xs s k)
  ]

-- With more fuel than the list has elements, a new element is inserted before the first element that is
-- greater; a sorted list stays sorted; nothing outside the list changes.
pub list_insert_ordered-IsList :
    {l : Links} {list e : ℕ} (less : Less) (xs : List ℕ) (fuel : ℕ)
    → ((a b : ℕ) → less a b ≡ true → less b a ≡ false)
    → IsList l list xs
    → e ≢ 0
    → mem e (nodes list xs) ≡ false
    → length xs < fuel
    → (m : Links) × (list_insert_ordered fuel l less list e ≡ ok m)
      × IsList m list (lower less e xs ++ (e ∷ upper less e xs))
      × (IsSorted less xs → IsSorted less (lower less e xs ++ (e ∷ upper less e xs)))
      × Spares l m (nodes list (lower less e xs ++ (e ∷ upper less e xs)))
unfolding list_insert_ordered mem
list_insert_ordered-IsList {l} {list} {e} less xs fuel asym v ne out lt =
    let parts = sym (lower-upper less e xs) in
    let list0 : (list == 0) ≡ false = ground (arith, v.nonnull) in
    let (m, run, w, s) =
      list_insert-IsList {e = e} (lower less e xs) (upper less e xs)
        (subst (λ ys. IsList l list ys) parts v) ne
        (subst (λ ys. mem e (nodes list ys) ≡ false) parts out) in
    let place =
      find_place_lem less e fuel v.linked (ground (arith, v.nonnull)) (ground (arith, v.distinct))
        lt in
    (
      m,
      rw (list0, ==-ne e 0 ne, Linked-next v.linked, place) run,
      w,
      placed-IsSorted less asym e xs,
      s,
    )
