-- ===== src/Lsh/Strip.antt =====
-- What `stripwhite` leaves of a line.
use mathlib.Core.Path.{subst}
use eda.Prelude.{
  ℕ, zero, suc, ◌+◌, ◌-◌, ◌<◌, ◌≤◌, ◌≡◌, refl, sym, ◌∙◌, ap, true, false, ◌==◌, [], ◌∷◌, ◌++◌,
  arith, Bool-cases, ==_iff, inl, inr, length, take, drop,
}
use eda.Parse.{Text, isspace, skip}
use eda.Lsh.{space_at, last_index, strip_end, stripwhite}

abbrev pub AreSpaces : Text → Type 0
AreSpaces [] = Unit {0}
AreSpaces (c ∷ s) = (isspace c ≡ true) × AreSpaces s

-- `s` is `t` with spaces around it, and `t` has none at either end.
pub record Stripped (s t : Text) : Type 0 where
  pub front : Text
  pub back : Text
  pub parts : s ≡ front ++ (t ++ back)
  pub front_spaces : AreSpaces front
  pub back_spaces : AreSpaces back
  pub first : space_at t 0 ≡ false
  pub last : space_at t (length t - 1) ≡ false

skip-front : (s : Text) → (front : Text) × (s ≡ front ++ skip s) × AreSpaces front
unfolding skip
skip-front [] = ([], refl, tt)
skip-front (c ∷ s) = elim (Bool-cases (isspace c)) [
  | inr e ↦ ([], rw e refl, tt)
  | inl e ↦ let (front, p, sp) = skip-front s in (c ∷ front, rw e (ap (λ t. c ∷ t) p), (e, sp))
]

skip-first : (s : Text) → space_at (skip s) 0 ≡ false
unfolding skip
skip-first [] = refl
skip-first (c ∷ s) = elim (Bool-cases (isspace c)) [
  | inr e ↦ rw (e, e) refl
  | inl e ↦ rw e (skip-first s)
]

last_index-le : (s : Text) (i : ℕ) → last_index s i ≤ i
unfolding last_index
last_index-le s zero = omega arith
last_index-le s (suc i) = ground (arith, last_index-le s i)

-- No space is at the index found, if there is none at 0, and spaces only are behind it.
last_index-kept : (s : Text) (i : ℕ) → space_at s 0 ≡ false → space_at s (last_index s i) ≡ false
unfolding last_index
last_index-kept s zero h = h
last_index-kept s (suc i) h = elim (Bool-cases (space_at s (suc i))) [
  | inl e ↦ rw e (last_index-kept s i h)
  | inr e ↦ rw (e, e) refl
]

last_index_down :
    (s : Text) (i : ℕ) → space_at s (suc i) ≡ true → last_index s (suc i) ≡ last_index s i
unfolding last_index
last_index_down s i e = rw e refl

last_index_stop : (s : Text) (i : ℕ) → space_at s (suc i) ≡ false → last_index s (suc i) ≡ suc i
unfolding last_index
last_index_stop s i e = rw e refl

last_index-behind : (s : Text) (i j : ℕ) → last_index s i < j → j ≤ i → space_at s j ≡ true
last_index-behind s zero j lo hi = absurd (omega arith)
last_index-behind s (suc i) j lo hi = elim (Bool-cases (space_at s (suc i))) [
  | inr e ↦ absurd (omega (arith, last_index_stop s i e))
  | inl e ↦
      let lo' : last_index s i < j = omega (arith, last_index_down s i e) in
      elim (Bool-cases (j == suc i)) [
        | inl z ↦ subst (λ k. space_at s k ≡ true) (sym ((==_iff j (suc i)).0 z)) e
        | inr z ↦ last_index-behind s i j lo' (ground arith)
      ]
]

take-drop : (n : ℕ) (s : Text) → s ≡ take n s ++ drop n s
take-drop zero s = refl
take-drop (suc n) [] = refl
take-drop (suc n) (c ∷ s) = ap (λ t. c ∷ t) (take-drop n s)

drop-AreSpaces :
    (n : ℕ) (s : Text)
    → ((j : ℕ) → n ≤ j → j < length s → space_at s j ≡ true)
    → AreSpaces (drop n s)
drop-AreSpaces zero [] h = tt
drop-AreSpaces (suc n) [] h = tt
drop-AreSpaces zero (c ∷ s) h = (
  h 0 (omega arith) (omega arith),
  drop-AreSpaces zero s (λ j lo hi. h (suc j) (omega arith) (omega arith)),
)
drop-AreSpaces (suc n) (c ∷ s) h =
    drop-AreSpaces n s (λ j lo hi. h (suc j) (omega arith) (omega arith))

length-take : (n : ℕ) (s : Text) → n ≤ length s → length (take n s) ≡ n
length-take zero s h = refl
length-take (suc n) [] h = absurd (omega arith)
length-take (suc n) (c ∷ s) h = ap suc (length-take n s (omega arith))

space_at-take : (n i : ℕ) (s : Text) → i < n → space_at (take n s) i ≡ space_at s i
space_at-take zero i s h = absurd (omega arith)
space_at-take (suc n) i [] h = refl
space_at-take (suc n) zero (c ∷ s) h = refl
space_at-take (suc n) (suc i) (c ∷ s) h = space_at-take n i s (omega arith)

strip_end-Stripped :
    (s : Text)
    → space_at s 0 ≡ false
    → (back : Text) × (s ≡ strip_end s ++ back)
      × AreSpaces back
      × (space_at (strip_end s) 0 ≡ false)
      × (space_at (strip_end s) (length (strip_end s) - 1) ≡ false)
unfolding strip_end
strip_end-Stripped [] h = ([], refl, tt, refl, refl)
strip_end-Stripped (c ∷ s) h =
    let n = last_index (c ∷ s) (length s) in
    let le = last_index-le (c ∷ s) (length s) in
    let len : length (take (n + 1) (c ∷ s)) - 1 ≡ n =
      omega (arith, length-take (n + 1) (c ∷ s) (omega (arith, le))) in
    (
      drop (n + 1) (c ∷ s),
      take-drop (n + 1) (c ∷ s),
      drop-AreSpaces (n + 1) (c ∷ s)
          (λ j lo hi. last_index-behind (c ∷ s) (length s) j (omega arith) (omega arith)),
      space_at-take (n + 1) 0 (c ∷ s) (omega arith) ∙ h,
      ap (space_at (take (n + 1) (c ∷ s))) len
          ∙ space_at-take (n + 1) n (c ∷ s) (omega arith)
          ∙ last_index-kept (c ∷ s) (length s) h,
    )

-- `stripwhite` takes the spaces from both ends of a line and nothing else.
pub stripwhite-Stripped : (s : Text) → Stripped s (stripwhite s)
unfolding stripwhite
stripwhite-Stripped s =
    let (front, p, fs) = skip-front s in
    let (back, q, bs, first, last) = strip_end-Stripped (skip s) (skip-first s) in
    record {
      front = front;
      back = back;
      parts = p ∙ ap (λ t. front ++ t) q;
      front_spaces = fs;
      back_spaces = bs;
      first = first;
      last = last;
    }
