-- ===== src/File/Flagged.antt =====
-- A file that changes its flag, and the counts of its inode.
use eda.Prelude.{
  ℕ, ◌+◌, ◌≡◌, refl, sym, ◌∙◌, ap, ◌&&◌, Bool, true, false, List, ◌==◌, arith, Bool-cases, inl, inr,
  ==_iff, ==-ne,
}
use eda.Prelude.Members.{update, mem, IsDistinct}
use eda.Inode.{Inode}
use eda.File.{File}
use eda.File.Counts.{bit, count, count-same, count-change}
use eda.File.Opened.{
  of_inode, denies, IsCounted, IsOpened, update-same, update-other, sectors-update, counted-update,
  ==-flip,
}

-- A file with its flag
abbrev pub flagged : (ℕ → File) → ℕ → Bool → ℕ → File
flagged file p b = update file p (record (file p) { deny_write = b })

flagged-inode :
    (file : ℕ → File) (p : ℕ) (b : Bool) (a : ℕ) → (flagged file p b a).inode ≡ (file a).inode
flagged-inode file p b a = elim (Bool-cases (a == p)) [
  | inl e ↦ rw e (ap (λ x. (file x).inode) (sym ((==_iff a p).0 e)))
  | inr e ↦ rw e refl
]

-- The files of an inode stay the same.
flagged-of_inode :
    (file : ℕ → File) (p : ℕ) (b : Bool) (q : ℕ) (ps : List ℕ)
    → count (of_inode (flagged file p b) q) ps ≡ count (of_inode file q) ps
flagged-of_inode file p b q ps =
    count-same _ _ ps (λ a m. ap (λ x. x == q) (flagged-inode file p b a))

-- The files that deny writes to the inode of the file
flagged-denies :
    (file : ℕ → File) (p : ℕ) (b : Bool) (ps : List ℕ)
    → IsDistinct ps
    → mem p ps ≡ true
    → count (denies file (file p).inode) ps + bit b
      ≡ count (denies (flagged file p b) (file p).inode) ps + bit (file p).deny_write
flagged-denies file p b ps d m =
    let q = (file p).inode in
    let same : (q == q) ≡ true = ground arith in
    let now : denies (flagged file p b) q p ≡ b =
      ap (λ f. f.inode == q && f.deny_write)
        (update-same file p (record (file p) { deny_write = b }))
      ∙ ap (λ x. x && b) same in
    let before : denies file q p ≡ (file p).deny_write = ap (λ x. x && (file p).deny_write) same in
    let change = count-change (denies file q) (denies (flagged file p b) q) ps p d m (λ a h.
      ap (λ f. f.inode == q && f.deny_write) (sym (update-other file p _ a (==-ne a p h)))) in
    omega (arith, change, ap bit now, ap bit before)

-- The files that deny writes to another inode
flagged-elsewhere :
    (file : ℕ → File) (p : ℕ) (b : Bool) (q : ℕ) (ps : List ℕ)
    → ((file p).inode == q) ≡ false
    → count (denies (flagged file p b) q) ps ≡ count (denies file q) ps
flagged-elsewhere file p b q ps other = count-same _ _ ps (λ a m. elim (Bool-cases (a == p)) [
  | inl e ↦
      let same : a ≡ p = (==_iff a p).0 e in
      rw (same, update-same file p (record (file p) { deny_write = b }), other) refl
  | inr e ↦ rw e refl
])

-- A file denies writes, or not, and its inode counts it.
pub IsCounted-flagged :
    (i : Inode) (file : ℕ → File) (ps : List ℕ) (p n : ℕ) (b : Bool)
    → IsDistinct ps
    → mem p ps ≡ true
    → n + bit (file p).deny_write ≡ i.deny_write_cnt + bit b
    → IsCounted i file ps (file p).inode
    → IsCounted (record i { deny_write_cnt = n }) (flagged file p b) ps (file p).inode
IsCounted-flagged i file ps p n b d m e c =
    let change = flagged-denies file p b ps d m in
    record {
      opens = c.opens ∙ sym (flagged-of_inode file p b (file p).inode ps);
      denials = omega (arith, change, e, c.denials);
      held = c.held;
    }

IsCounted-unflagged :
    (i : Inode) (file : ℕ → File) (ps : List ℕ) (p r : ℕ) (b : Bool)
    → ((file p).inode == r) ≡ false
    → IsCounted i file ps r
    → IsCounted i (flagged file p b) ps r
IsCounted-unflagged i file ps p r b other c = record {
  opens = c.opens ∙ sym (flagged-of_inode file p b r ps);
  denials = c.denials ∙ sym (flagged-elsewhere file p b r ps other);
  held = c.held;
}

pub IsOpened-flagged :
    (os : List ℕ) (at : ℕ → Inode) (file : ℕ → File) (ps : List ℕ) (p n : ℕ) (b : Bool)
    → IsOpened os at file ps
    → mem p ps ≡ true
    → n + bit (file p).deny_write ≡ (at (file p).inode).deny_write_cnt + bit b
    → IsOpened os
        (update at (file p).inode (record (at (file p).inode) { deny_write_cnt = n }))
        (flagged file p b)
        ps
IsOpened-flagged os at file ps p n b o m e =
    let q = (file p).inode in
    record {
      files = o.files;
      null = o.null;
      inodes = o.inodes;
      null_inode = o.null_inode;
      few = o.few;
      inode_of = λ a ma. rw (flagged-inode file p b a) (o.inode_of a ma);
      counted = λ r mr.
          counted-update at q _ _ _ r
            (IsCounted-flagged (at q) file ps p n b o.files m e (o.counted q (o.inode_of p m)))
            (λ u. IsCounted-unflagged (at r) file ps p r b (==-flip r q u) (o.counted r mr));
      sectors = sectors-update os at q _ refl o.sectors;
    }
