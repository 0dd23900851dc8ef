-- ===== src/File/Fresh.antt =====
-- A new file on an inode that is open, or on a new one.
use eda.Prelude.{
  ℕ, ◌+◌, ◌^◌, ◌<◌, ◌≡◌, refl, ◌&&◌, Bool, true, false, List, ◌∷◌, ◌==◌, arith, Bool-cases, inl,
  inr,
}
use eda.Prelude.Members.{update, mem}
use eda.Inode.{Inode}
use eda.File.{File}
use eda.File.Counts.{bit, count, count-none}
use eda.File.Opened.{
  of_inode, denies, IsCounted, IsOpened, update-same, count-update, sectors-update, counted-update,
  member-other, ==-flip,
}

-- A new file
abbrev pub fresh : ℕ → File
fresh q = record { inode = q; pos = 0; deny_write = false }

-- How many of the files are of an inode, or deny it writes, with a new file
count-fresh :
    (test : File → Bool) (file : ℕ → File) (ps : List ℕ) (p : ℕ) (f : File)
    → mem p ps ≡ false
    → count (λ a. test (update file p f a)) (p ∷ ps) ≡ bit (test f) + count (λ a. test (file a)) ps
unfolding count
count-fresh test file ps p f absent =
    rw (update-same file p f, count-update test file ps p f absent) refl

-- What an inode counts of which one more file is opened, and what another inode counts
IsCounted-more :
    (i : Inode) (file : ℕ → File) (ps : List ℕ) (p q : ℕ)
    → mem p ps ≡ false
    → IsCounted i file ps q
    → IsCounted (record i { open_cnt = i.open_cnt + 1 }) (update file p (fresh q)) (p ∷ ps) q
IsCounted-more i file ps p q absent c =
    let same : (q == q) ≡ true = ground arith in
    let one = count-fresh (λ f. f.inode == q) file ps p (fresh q) absent in
    let none_denies = count-fresh (λ f. f.inode == q && f.deny_write) file ps p (fresh q) absent in
    record {
      opens = rw (one, same) (omega (arith, c.opens));
      denials = rw (none_denies, same) (omega (arith, c.denials));
      held = omega arith;
    }

IsCounted-elsewhere :
    (i : Inode) (file : ℕ → File) (ps : List ℕ) (p q r : ℕ)
    → mem p ps ≡ false
    → (q == r) ≡ false
    → IsCounted i file ps r
    → IsCounted i (update file p (fresh q)) (p ∷ ps) r
IsCounted-elsewhere i file ps p q r absent other c =
    let one = count-fresh (λ f. f.inode == r) file ps p (fresh q) absent in
    let none_denies = count-fresh (λ f. f.inode == r && f.deny_write) file ps p (fresh q) absent in
    record {
      opens = rw (one, other) (omega (arith, c.opens));
      denials = rw (none_denies, other) (omega (arith, c.denials));
      held = c.held;
    }

-- Each file has an open inode.
inode_of-fresh :
    (os : List ℕ) (file : ℕ → File) (ps : List ℕ) (p q : ℕ)
    → mem q os ≡ true
    → ((a : ℕ) → mem a ps ≡ true → mem (file a).inode os ≡ true)
    → (a : ℕ) → mem a (p ∷ ps) ≡ true
    → mem (update file p (fresh q) a).inode os ≡ true
unfolding mem
inode_of-fresh os file ps p q m h a ma = elim (Bool-cases (a == p)) [
  | inl e ↦ rw e m
  | inr e ↦ rw e (h a (ground (arith, ma, e)))
]

-- No other open inode has the sector of a new one.
sectors-alone :
    (os : List ℕ) (at : ℕ → Inode) (q : ℕ) (i : Inode)
    → ((r t : ℕ) → mem r os ≡ true → mem t os ≡ true → (at r).sector ≡ (at t).sector → r ≡ t)
    → ((r : ℕ) → mem r os ≡ true → ((at r).sector == i.sector) ≡ false)
    → (r t : ℕ) → mem r (q ∷ os) ≡ true
    → mem t (q ∷ os) ≡ true
    → (update at q i r).sector ≡ (update at q i t).sector
    → r ≡ t
unfolding mem
sectors-alone os at q i one alone r t mr mt = elim (Bool-cases (r == q)) [
  | inl e ↦ elim (Bool-cases (t == q)) [
    | inl u ↦ λ h. ground (arith, e, u)
    | inr u ↦ rw (e, u) (λ h. ground (arith, h, alone t (ground (arith, mt, u))))
  ]
  | inr e ↦ elim (Bool-cases (t == q)) [
    | inl u ↦ rw (e, u) (λ h. ground (arith, h, alone r (ground (arith, mr, e))))
    | inr u ↦ rw (e, u) (one r t (ground (arith, mr, e)) (ground (arith, mt, u)))
  ]
]

module _ (os : List ℕ) (at : ℕ → Inode) (file : ℕ → File) (ps : List ℕ) (o : IsOpened os at file ps)
    (p : ℕ) (null : (p == 0) ≡ false) (absent : mem p ps ≡ false)
    (few : count (λ a. true) ps + 1 < 2 ^ 31) where
  -- An open inode has one more file.
  pub IsOpened-again :
      (q : ℕ)
      → mem q os ≡ true
      → IsOpened os
          (update at q (record (at q) { open_cnt = (at q).open_cnt + 1 }))
          (update file p (fresh q))
          (p ∷ ps)
  unfolding count mem
  IsOpened-again q m = record {
    files = (absent, o.files);
    null = ground (arith, null, o.null);
    inodes = o.inodes;
    null_inode = o.null_inode;
    few = omega (arith, few);
    inode_of = inode_of-fresh os file ps p q m o.inode_of;
    counted = λ r mr.
        counted-update at q _ _ _ r (IsCounted-more (at q) file ps p q absent (o.counted q m))
          (λ e. IsCounted-elsewhere (at r) file ps p q r absent (==-flip r q e) (o.counted r mr));
    sectors = sectors-update os at q _ refl o.sectors;
  }

  IsCounted-one :
      (i : Inode) (q : ℕ)
      → i.open_cnt ≡ 1
      → i.deny_write_cnt ≡ 0
      → ((a : ℕ) → mem a ps ≡ true → ((file a).inode == q) ≡ false)
      → IsCounted i (update file p (fresh q)) (p ∷ ps) q
  IsCounted-one i q opens denials others =
      let same : (q == q) ≡ true = ground arith in
      let one = count-fresh (λ f. f.inode == q) file ps p (fresh q) absent in
      let none_denies =
        count-fresh (λ f. f.inode == q && f.deny_write) file ps p (fresh q) absent in
      record {
        opens = rw (one, same) (omega (arith, opens, count-none (of_inode file q) ps others));
        denials =
            rw (none_denies, same)
              (omega (
                arith,
                denials,
                count-none (denies file q) ps (λ a ma. ground (arith, others a ma)),
              ));
        held = omega (arith, opens);
      }

  -- The first file of an inode that was not open
  pub IsOpened-first :
      (q : ℕ) (i : Inode)
      → (q == 0) ≡ false
      → mem q os ≡ false
      → i.open_cnt ≡ 1
      → i.deny_write_cnt ≡ 0
      → ((r : ℕ) → mem r os ≡ true → ((at r).sector == i.sector) ≡ false)
      → IsOpened (q ∷ os) (update at q i) (update file p (fresh q)) (p ∷ ps)
  unfolding count mem
  IsOpened-first q i some_q absent_q opens denials alone = record {
    files = (absent, o.files);
    null = ground (arith, null, o.null);
    inodes = (absent_q, o.inodes);
    null_inode = ground (arith, some_q, o.null_inode);
    few = omega (arith, few);
    inode_of =
        inode_of-fresh (q ∷ os) file ps p q (ground arith)
          (λ a ma. ground (arith, o.inode_of a ma));
    counted = λ r mr.
        counted-update at q _ _ _ r
          (IsCounted-one i q opens denials
            (λ a ma. member-other q (file a).inode os absent_q (o.inode_of a ma)))
          (λ e.
            IsCounted-elsewhere (at r) file ps p q r absent (==-flip r q e)
              (o.counted r (ground (arith, mr, e))));
    sectors = sectors-alone os at q i o.sectors alone;
  }
