-- ===== src/File/Opened.antt =====
-- Open files and open inodes: each inode counts its files, and those that deny writes.
use eda.Prelude.{
  ℕ, ◌^◌, ◌<◌, ◌≡◌, refl, sym, ◌∙◌, ap, ◌&&◌, Bool, true, false, List, ◌==◌, arith, Bool-cases, inl,
  inr, ==_iff,
}
use eda.Prelude.Members.{update, mem, IsDistinct}
use eda.Inode.{Inode}
use eda.File.{File, Files}
use eda.File.Counts.{count, count-same}

abbrev pub of_inode : (ℕ → File) → ℕ → ℕ → Bool
of_inode file q p = (file p).inode == q

abbrev pub denies : (ℕ → File) → ℕ → ℕ → Bool
denies file q p = (file p).inode == q && (file p).deny_write

-- What an open inode counts
pub record IsCounted (i : Inode) (file : ℕ → File) (ps : List ℕ) (q : ℕ) : Type 0 where
  pub opens : i.open_cnt ≡ count (of_inode file q) ps
  pub denials : i.deny_write_cnt ≡ count (denies file q) ps
  pub held : 0 < i.open_cnt

-- `ps` are the open files, `os` the open inodes, of which each sector has at most one.
pub record IsOpened (os : List ℕ) (at : ℕ → Inode) (file : ℕ → File) (ps : List ℕ) : Type 0 where
  pub files : IsDistinct ps
  pub null : mem 0 ps ≡ false
  pub inodes : IsDistinct os
  pub null_inode : mem 0 os ≡ false
  pub few : count (λ p. true) ps < 2 ^ 31
  pub inode_of : (p : ℕ) → mem p ps ≡ true → mem (file p).inode os ≡ true
  pub counted : (q : ℕ) → mem q os ≡ true → IsCounted (at q) file ps q
  pub sectors :
      (q r : ℕ) → mem q os ≡ true → mem r os ≡ true → (at q).sector ≡ (at r).sector → q ≡ r

abbrev pub AreOpened : Files → List ℕ → Type 0
AreOpened s ps = IsOpened s.inodes.open_inodes s.inodes.at s.file ps

pub update-same {ℓ} : {A : Type ℓ} (f : ℕ → A) (p : ℕ) (a : A) → update f p a p ≡ a
update-same f p a = let e : (p == p) ≡ true = ground arith in rw e refl

pub update-other {ℓ} :
    {A : Type ℓ} (f : ℕ → A) (p : ℕ) (a : A) (q : ℕ) → (q == p) ≡ false → update f p a q ≡ f q
update-other f p a q e = rw e refl

-- A member is not an address that is no member.
pub member-other : (p a : ℕ) (ps : List ℕ) → mem p ps ≡ false → mem a ps ≡ true → (a == p) ≡ false
member-other p a ps absent held = elim (Bool-cases (a == p)) [
  | inr e ↦ e
  | inl e ↦ ground (arith, absent, held, ap (λ x. mem x ps) ((==_iff a p).0 e))
]

pub ==-flip : (a b : ℕ) → (a == b) ≡ false → (b == a) ≡ false
==-flip a b h = ground (arith, h)

pub member-some : (q : ℕ) (os : List ℕ) → mem 0 os ≡ false → mem q os ≡ true → (q == 0) ≡ false
member-some q os null m = member-other 0 q os null m

-- The counts of a file's inode do not change where a file that is not open does.
pub count-update :
    (test : File → Bool) (file : ℕ → File) (ps : List ℕ) (p : ℕ) (f : File)
    → mem p ps ≡ false
    → count (λ a. test (update file p f a)) ps ≡ count (λ a. test (file a)) ps
count-update test file ps p f absent =
    count-same _ _ ps (λ a m. ap test (update-other file p f a (member-other p a ps absent m)))

-- An inode that keeps its sector
pub sector-update :
    (at : ℕ → Inode) (q : ℕ) (i : Inode) (r : ℕ)
    → i.sector ≡ (at q).sector
    → (update at q i r).sector ≡ (at r).sector
sector-update at q i r h = elim (Bool-cases (r == q)) [
  | inl e ↦ rw e (h ∙ ap (λ x. (at x).sector) (sym ((==_iff r q).0 e)))
  | inr e ↦ rw e refl
]

-- The inodes have the sectors that they had.
pub sectors-update :
    (os : List ℕ) (at : ℕ → Inode) (q : ℕ) (i : Inode)
    → i.sector ≡ (at q).sector
    → ((r t : ℕ) → mem r os ≡ true → mem t os ≡ true → (at r).sector ≡ (at t).sector → r ≡ t)
    → (r t : ℕ) → mem r os ≡ true
    → mem t os ≡ true
    → (update at q i r).sector ≡ (update at q i t).sector
    → r ≡ t
sectors-update os at q i h one r t mr mt e =
    one r t mr mt (sym (sector-update at q i r h) ∙ e ∙ sector-update at q i t h)

pub counted-update :
    (at : ℕ → Inode) (q : ℕ) (i : Inode) (file : ℕ → File) (ps : List ℕ) (r : ℕ)
    → IsCounted i file ps q
    → ((r == q) ≡ false → IsCounted (at r) file ps r)
    → IsCounted (update at q i r) file ps r
counted-update at q i file ps r here there = elim (Bool-cases (r == q)) [
  | inl e ↦ let same : r ≡ q = (==_iff r q).0 e in rw (e, same) here
  | inr e ↦ rw e (there e)
]
