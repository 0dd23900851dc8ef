-- ===== src/File/Counts.antt =====
-- How many open files an inode has, and how many of them deny writes.
use eda.Prelude.{
  ℕ, ◌+◌, ◌≤◌, ◌≡◌, ◌≢◌, refl, ◌∙◌, ap, ==_iff, Bool-cases, inl, inr, Bool, true, false, List, [],
  ◌∷◌, ◌==◌, if◌then◌else◌, arith,
}
use eda.Prelude.Members.{mem, erase, IsDistinct}

-- 1 for true
abbrev pub bit : Bool → ℕ
bit b = if b then 1 else 0

-- The members of a list that pass a test
unfoldable pub count : (ℕ → Bool) → List ℕ → ℕ
count f [] = 0
count f (x ∷ xs) = bit (f x) + count f xs

pub count-same :
    (f g : ℕ → Bool) (ps : List ℕ)
    → ((a : ℕ) → mem a ps ≡ true → f a ≡ g a)
    → count f ps ≡ count g ps
unfolding count mem
count-same f g [] h = refl
count-same f g (x ∷ xs) h =
    rw (h x (ground arith), count-same f g xs (λ a m. h a (ground (arith, m)))) refl

pub count-erase :
    (f : ℕ → Bool) (ps : List ℕ) (p : ℕ)
    → mem p ps ≡ true
    → count f ps ≡ bit (f p) + count f (erase p ps)
unfolding count mem erase
count-erase f [] p m = ground (arith, m)
count-erase f (x ∷ xs) p m = ground (arith, m, count-erase f xs p)

-- One member passes another test than before.
pub count-change :
    (f g : ℕ → Bool) (ps : List ℕ) (p : ℕ)
    → IsDistinct ps
    → mem p ps ≡ true
    → ((a : ℕ) → a ≢ p → f a ≡ g a)
    → count f ps + bit (g p) ≡ count g ps + bit (f p)
unfolding count mem
count-change f g [] p d m h = ground (arith, m)
count-change f g (x ∷ xs) p d m h = elim (Bool-cases (p == x)) [
  | inl e ↦
      let at : p ≡ x = (==_iff p x).0 e in
      let others =
        count-same f g xs
          (λ a ma. h a (λ same. ground (arith, ma, d.0, ap (λ y. mem y xs) (same ∙ at)))) in
      rw (at, others) (omega arith)
  | inr e ↦
      let first : f x ≡ g x = h x (λ same. ground (arith, e, same)) in
      let others = count-change f g xs p d.1 (ground (arith, m, e)) h in
      rw first (omega (arith, others))
]

pub count-le :
    (f g : ℕ → Bool) (ps : List ℕ) → ((a : ℕ) → f a ≡ true → g a ≡ true) → count f ps ≤ count g ps
unfolding count
count-le f g [] h = omega arith
count-le f g (x ∷ xs) h = ground (arith, count-le f g xs h, h x)

pub count-none :
    (f : ℕ → Bool) (ps : List ℕ) → ((a : ℕ) → mem a ps ≡ true → f a ≡ false) → count f ps ≡ 0
unfolding count mem
count-none f [] h = refl
count-none f (x ∷ xs) h =
    rw (h x (ground arith), count-none f xs (λ a m. h a (ground (arith, m)))) refl
