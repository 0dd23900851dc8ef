-- ===== src/Inode/Table.antt =====
-- The list of the open inodes.
use eda.Prelude.{
  ℕ, ◌≡◌, ◌∙◌, ap, ==_iff, true, false, List, [], ◌∷◌, Option, none, some, ◌==◌, arith, Bool-cases,
  inl, inr,
}
use eda.Prelude.Members.{mem}
use eda.Inode.{Inode, find_open}

-- The inode found is an open one of that sector; where none is found, there is none.
abbrev pub Finds : (ℕ → Inode) → List ℕ → ℕ → Option ℕ → Type 0
Finds at ps sector (some p) = (mem p ps ≡ true) × ((at p).sector ≡ sector)
Finds at ps sector none = (p : ℕ) → mem p ps ≡ true → ((at p).sector == sector) ≡ false

pub find_open-Finds :
    (at : ℕ → Inode) (ps : List ℕ) (sector : ℕ) → Finds at ps sector (find_open at ps sector)
unfolding find_open mem
find_open-Finds at [] sector = λ p m. ground (arith, m)
find_open-Finds at (x ∷ xs) sector = elim (Bool-cases ((at x).sector == sector)) [
  | inl e ↦ rw e (ground arith, ground (arith, e))
  | inr e ↦ rw e (later e (find_open at xs sector) (find_open-Finds at xs sector))
]
  where
    later :
        ((at x).sector == sector) ≡ false
        → (r : Option ℕ) → Finds at xs sector r
        → Finds at (x ∷ xs) sector r
    later e (some p) f = (ground (arith, f.0), f.1)
    later e none f = λ p m. elim (Bool-cases (p == x)) [
      | inl same ↦ ap (λ y. (at y).sector == sector) ((==_iff p x).0 same) ∙ e
      | inr other ↦ f p (ground (arith, m, other))
    ]
