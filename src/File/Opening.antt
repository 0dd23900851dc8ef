-- ===== src/File/Opening.antt =====
-- Opening files.
use eda.Prelude.{
  ℕ, ◌+◌, ◌^◌, ◌<◌, ◌≡◌, refl, sym, ◌∙◌, ap, true, false, List, ◌∷◌, Option, none, some, ◌==◌,
  Result, ok,
}
use eda.Prelude.Members.{update, mem}
use eda.Inode.{Inode, Inodes, find_open, inode_reopen, inode_open, finish_open, decode}
use eda.Inode.Table.{Finds, find_open-Finds}
use eda.File.{Files, file_open, file_reopen}
use eda.File.Counts.{count}
use eda.File.Opened.{IsOpened, AreOpened, update-same, member-some}
use eda.File.Fresh.{fresh, IsOpened-again, IsOpened-first}

-- A file is open on the inode of a sector.
abbrev pub Opens : List ℕ → ℕ → ℕ → Result (ℕ × Files) → Type 0
Opens ps sector p (ok (q, s1)) =
    (q ≡ p) × AreOpened s1 (p ∷ ps) × ((s1.inodes.at (s1.file p).inode).sector ≡ sector)
Opens ps sector p _ = ⊥

file_open-some :
    (s : Files) (ps : List ℕ) (q p sector : ℕ)
    → (q == 0) ≡ false
    → (p == 0) ≡ false
    → (s.inodes.at q).sector ≡ sector
    → IsOpened s.inodes.open_inodes s.inodes.at (update s.file p (fresh q)) (p ∷ ps)
    → Opens ps sector p (file_open s q p)
unfolding file_open
file_open-some s ps q p sector some_q null at o =
    rw (some_q, null)
      (refl, o, ap (λ f. (s.inodes.at f.inode).sector) (update-same s.file p (fresh q)) ∙ at)

abbrev inode_of_sector : Inodes → ℕ → Inode
inode_of_sector s sector = record {
  sector = sector;
  open_cnt = 1;
  removed = false;
  deny_write_cnt = 0;
  content = decode (s.disk sector);
}

inode_open-found :
    (s : Inodes) (sector memory q : ℕ)
    → find_open s.at s.open_inodes sector ≡ some q
    → inode_open s sector memory ≡ (q, inode_reopen s q)
unfolding inode_open
inode_open-found s sector memory q e = ap (finish_open s sector memory) e

inode_open-new :
    (s : Inodes) (sector memory : ℕ)
    → find_open s.at s.open_inodes sector ≡ none
    → (memory == 0) ≡ false
    → inode_open s sector memory ≡ (
      memory,
      record s {
        open_inodes = memory ∷ s.open_inodes;
        at = update s.at memory (inode_of_sector s sector);
      },
    )
unfolding inode_open
inode_open-new s sector memory e some_memory =
    ap (finish_open s sector memory) e ∙ (rw some_memory refl)

inode_reopen-some :
    (s : Inodes) (q : ℕ)
    → (q == 0) ≡ false
    → inode_reopen s q
      ≡ record s { at = update s.at q (record (s.at q) { open_cnt = (s.at q).open_cnt + 1 }) }
unfolding inode_reopen
inode_reopen-some s q e = rw e refl

inode_reopen-file_open :
    (s : Files) (ps : List ℕ) (q p : ℕ)
    → AreOpened s ps
    → mem q s.inodes.open_inodes ≡ true
    → (p == 0) ≡ false
    → mem p ps ≡ false
    → count (λ a. true) ps + 1 < 2 ^ 31
    → Opens ps
        (s.inodes.at q).sector
        p
        (file_open (record s { inodes = inode_reopen s.inodes q }) q p)
inode_reopen-file_open s ps q p o m null absent few =
    let some_q = member-some q s.inodes.open_inodes o.null_inode m in
    rw (inode_reopen-some s.inodes q some_q) (
      file_open-some _ ps q p (s.inodes.at q).sector some_q null
        (ap (λ i. i.sector) (update-same s.inodes.at q _))
        (IsOpened-again s.inodes.open_inodes s.inodes.at s.file ps o p null absent few q m))

module _ (s : Files) (ps : List ℕ) (sector memory p : ℕ) (o : AreOpened s ps)
    (some_memory : (memory == 0) ≡ false) (new_memory : mem memory s.inodes.open_inodes ≡ false)
    (null : (p == 0) ≡ false) (absent : mem p ps ≡ false)
    (few : count (λ a. true) ps + 1 < 2 ^ 31) where
  Opens-found :
      (r : Option ℕ)
      → find_open s.inodes.at s.inodes.open_inodes sector ≡ r
      → Finds s.inodes.at s.inodes.open_inodes sector r
      → let i = inode_open s.inodes sector memory in
        Opens ps sector p (file_open (record s { inodes = i.1 }) i.0 p)
  Opens-found (some q) e (m, at) =
      rw (inode_open-found s.inodes sector memory q e, sym at)
        (inode_reopen-file_open s ps q p o m null absent few)
  Opens-found none e alone = rw (inode_open-new s.inodes sector memory e some_memory) (
      file_open-some _ ps memory p sector some_memory null
        (ap (λ i. i.sector) (update-same s.inodes.at memory _))
        (IsOpened-first s.inodes.open_inodes s.inodes.at s.file ps o p null absent few memory
          (inode_of_sector s.inodes sector) some_memory new_memory refl refl alone))

-- With fresh addresses for an inode and a file, opening the inode of a sector and a file on it returns
-- the file: the inode that is open for the sector, if there is one, and else a new one, which counts the
-- files it has and those that deny writes; the inodes in memory stay at most one for a sector.
pub inode_open-file_open :
    (s : Files) (ps : List ℕ) (sector memory p : ℕ)
    → AreOpened s ps
    → (memory == 0) ≡ false
    → mem memory s.inodes.open_inodes ≡ false
    → (p == 0) ≡ false
    → mem p ps ≡ false
    → count (λ a. true) ps + 1 < 2 ^ 31
    → let r = inode_open s.inodes sector memory in
      Opens ps sector p (file_open (record s { inodes = r.1 }) r.0 p)
inode_open-file_open s ps sector memory p o some_memory new_memory null absent few =
    Opens-found s ps sector memory p o some_memory new_memory null absent few
      (find_open s.inodes.at s.inodes.open_inodes sector) refl
      (find_open-Finds s.inodes.at s.inodes.open_inodes sector)

-- Opening a file again returns a new file on the same inode.
pub file_reopen-Opens :
    (s : Files) (ps : List ℕ) (p memory : ℕ)
    → AreOpened s ps
    → mem p ps ≡ true
    → (memory == 0) ≡ false
    → mem memory ps ≡ false
    → count (λ a. true) ps + 1 < 2 ^ 31
    → Opens ps (s.inodes.at (s.file p).inode).sector memory (file_reopen s p memory)
unfolding file_reopen
file_reopen-Opens s ps p memory o m null absent few =
    inode_reopen-file_open s ps (s.file p).inode memory o (o.inode_of p m) null absent few
