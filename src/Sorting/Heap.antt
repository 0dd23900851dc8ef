-- ===== src/Sorting/Heap.antt =====
-- `heapify` restores the heap below an index.
use eda.Prelude.{
  ℕ, ◌+◌, ◌*◌, ◌/◌, ◌%◌, ◌^◌, ◌<◌, ◌≤◌, ◌≡◌, ◌≢◌, refl, ◌∙◌, ap, ◌&&◌, true, false, List, leb, ◌==◌,
  if◌then◌else◌, arith, Bool-cases, inl, inr, ==_iff,
}
use eda.Sorting.{Array, Compare, is_more, elem, max_left, max_right}

abbrev pub Le : Compare → List ℕ → List ℕ → Type 0
Le compare x y = is_more (compare x y) ≡ false

-- What `sort` asks of `compare`
pub record IsOrder (compare : Compare) : Type 0 where
  pub either : (x y : List ℕ) → is_more (compare x y) ≡ true → Le compare y x
  pub trans : (x y z : List ℕ) → Le compare x y → Le compare y z → Le compare x z

-- No element of the first `cnt` is greater than its parent, if the parent stands at `lo` or behind.
abbrev pub IsHeap : Compare → ℕ → ℕ → (ℕ → List ℕ) → Type 0
IsHeap compare lo cnt e = (c : ℕ) → c ≤ cnt → lo ≤ c / 2 → Le compare (e c) (e (c / 2))

-- A heap but for the children of `j`, which are not greater than its parent
pub record IsHeapBut (compare : Compare) (lo cnt j : ℕ) (e : ℕ → List ℕ) : Type 0 where
  pub other : (c : ℕ) → c ≤ cnt → lo ≤ c / 2 → c / 2 ≢ j → Le compare (e c) (e (c / 2))
  pub child : (c : ℕ) → c ≤ cnt → c / 2 ≡ j → lo ≤ j / 2 → Le compare (e c) (e (j / 2))

-- `max`: the index or a child, none of which is greater
pub record IsMax (compare : Compare) (cnt j max : ℕ) (e : ℕ → List ℕ) : Type 0 where
  pub in_range : max ≤ cnt
  pub place : max ≢ j → max / 2 ≡ j
  pub self : Le compare (e j) (e max)
  pub children : (c : ℕ) → c ≤ cnt → c / 2 ≡ j → Le compare (e c) (e max)

module _ (compare : Compare) (order : IsOrder compare) where
  pub refl_le : (x : List ℕ) → Le compare x x
  refl_le x = elim (Bool-cases (is_more (compare x x))) [ inl e ↦ order.either x x e | inr e ↦ e ]

  -- The greater one of two elements, if there is a second
  abbrev picked : (ℕ → List ℕ) → ℕ → ℕ → ℕ → ℕ
  picked e x k cnt = if leb k cnt && is_more (compare (e k) (e x)) then k else x

  pick :
      (e : ℕ → List ℕ) (x k cnt : ℕ)
      → ((picked e x k cnt ≢ x) → (picked e x k cnt ≡ k) × (k ≤ cnt))
        × Le compare (e x) (e (picked e x k cnt))
        × (k ≤ cnt → Le compare (e k) (e (picked e x k cnt)))
  pick e x k cnt = elim (Bool-cases (leb k cnt && is_more (compare (e k) (e x)))) [
    | inl u ↦ rw u (
      λ h. (refl, ground (arith, u)),
      order.either (e k) (e x) (ground (arith, u)),
      λ h. refl_le (e k),
    )
    | inr u ↦ rw u (λ h. absurd (h refl), refl_le (e x), λ h. ground (arith, u, h))
  ]

  IsMax-picks :
      (e : ℕ → List ℕ) (j cnt : ℕ)
      → 1 ≤ j
      → j ≤ cnt
      → IsMax compare cnt j (picked e (picked e j (2 * j) cnt) (2 * j + 1) cnt) e
  IsMax-picks e j cnt lo hi =
      let m1 = picked e j (2 * j) cnt in
      let m2 = picked e m1 (2 * j + 1) cnt in
      let (which1, self1, left) = pick e j (2 * j) cnt in
      let (which2, self2, right) = pick e m1 (2 * j + 1) cnt in
      record {
        in_range = ground (arith, which1, which2);
        place = λ h. ground (arith, which1, which2, h);
        self = order.trans (e j) (e m1) (e m2) self1 self2;
        children = λ c le half. elim (Bool-cases (c == 2 * j)) [
          | inl u ↦
              let at : c ≡ 2 * j = (==_iff c (2 * j)).0 u in
              ap (λ x. is_more (compare (e x) (e m2))) at
              ∙ order.trans (e (2 * j)) (e m1) (e m2) (left (omega (arith, at, le))) self2
          | inr u ↦
              let at : c ≡ 2 * j + 1 = ground (arith, u, half) in
              ap (λ x. is_more (compare (e x) (e m2))) at ∙ right (omega (arith, at, le))
        ];
      }

  -- The loop picks the greatest of an element and its children.
  pub max_right-IsMax :
      (array : Array) (j cnt size : ℕ)
      → 1 ≤ j
      → j ≤ cnt
      → cnt < 2 ^ 31
      → IsMax compare cnt j
          (max_right array j cnt size compare (max_left array j cnt size compare))
          (elem array size)
  max_right-IsMax array j cnt size lo hi few =
      let e = elem array size in
      let left : 2 * j % 2 ^ 32 ≡ 2 * j = omega arith in
      let right : (2 * j + 1) % 2 ^ 32 ≡ 2 * j + 1 = omega arith in
      rw (left, right) (IsMax-picks e j cnt lo hi)
