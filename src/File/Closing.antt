-- ===== src/File/Closing.antt =====
-- Closing files.
use eda.Prelude.{
  ℕ, ◌+◌, ◌-◌, ◌%◌, ◌^◌, ◌<◌, ◌≡◌, refl, sym, ◌∙◌, ap, true, false, List, ltb, ◌==◌, Result, ok,
  panic, fault, ◌>>=◌, arith, Bool-cases, inl, inr, ==_iff,
}
use eda.Prelude.Members.{update, mem, erase, mem-erase, IsDistinct-erase}
use eda.Inode.{Inode, inode_close}
use eda.File.{File, Files, file_close, file_allow_write}
use eda.File.Counts.{bit, count, count-le, count-erase}
use eda.File.Opened.{
  of_inode, denies, IsCounted, IsOpened, AreOpened, update-same, sectors-update, counted-update,
  ==-flip, member-some,
}
use eda.File.Denying.{Flags, file_allow_write-Flags}

-- What an inode counts without one of its files, and what another inode counts
IsCounted-less :
    (i : Inode) (file : ℕ → File) (ps : List ℕ) (p n : ℕ)
    → mem p ps ≡ true
    → (file p).deny_write ≡ false
    → i.open_cnt ≡ n + 1
    → 0 < n
    → IsCounted i file ps (file p).inode
    → IsCounted (record i { open_cnt = n }) file (erase p ps) (file p).inode
IsCounted-less i file ps p n m e opens some_n c =
    let q = (file p).inode in
    let same : (q == q) ≡ true = ground arith in
    let quiet : denies file q p ≡ false = ground (arith, e) in
    record {
      opens = omega (arith, opens, c.opens, count-erase (of_inode file q) ps p m, ap bit same);
      denials = omega (arith, c.denials, count-erase (denies file q) ps p m, ap bit quiet);
      held = some_n;
    }

IsCounted-others :
    (i : Inode) (file : ℕ → File) (ps : List ℕ) (p r : ℕ)
    → mem p ps ≡ true
    → ((file p).inode == r) ≡ false
    → IsCounted i file ps r
    → IsCounted i file (erase p ps) r
IsCounted-others i file ps p r m other c =
    let quiet : denies file r p ≡ false = ground (arith, other) in
    record {
      opens = omega (arith, c.opens, count-erase (of_inode file r) ps p m, ap bit other);
      denials = omega (arith, c.denials, count-erase (denies file r) ps p m, ap bit quiet);
      held = c.held;
    }

module _ (os : List ℕ) (at : ℕ → Inode) (file : ℕ → File) (ps : List ℕ) (p : ℕ)
    (o : IsOpened os at file ps) (m : mem p ps ≡ true) (e : (file p).deny_write ≡ false) where
  few-erase : count (λ a. true) (erase p ps) < 2 ^ 31
  few-erase = omega (arith, o.few, count-erase (λ a. true) ps p m)

  -- Other files of the inode stay open.
  IsOpened-less :
      (n : ℕ)
      → (at (file p).inode).open_cnt ≡ n + 1
      → 0 < n
      → IsOpened os
          (update at (file p).inode (record (at (file p).inode) { open_cnt = n }))
          file
          (erase p ps)
  IsOpened-less n opens some_n =
      let q = (file p).inode in
      record {
        files = IsDistinct-erase p ps o.files;
        null = ground (arith, mem-erase 0 p ps o.files, o.null);
        inodes = o.inodes;
        null_inode = o.null_inode;
        few = few-erase;
        inode_of = λ a ma. o.inode_of a (ground (arith, ma, mem-erase a p ps o.files));
        counted = λ r mr.
            counted-update at q _ _ _ r
              (IsCounted-less (at q) file ps p n m e opens some_n (o.counted q (o.inode_of p m)))
              (λ u. IsCounted-others (at r) file ps p r m (==-flip r q u) (o.counted r mr));
        sectors = sectors-update os at q _ refl o.sectors;
      }

  -- It was the last file of the inode.
  IsOpened-last :
      (i : Inode)
      → (at (file p).inode).open_cnt ≡ 1
      → IsOpened (erase (file p).inode os) (update at (file p).inode i) file (erase p ps)
  IsOpened-last i opens =
      let q = (file p).inode in
      let kept : (r : ℕ) → mem r (erase q os) ≡ true → (mem r os ≡ true) × ((r == q) ≡ false) =
        λ r mr. ground (arith, mr, mem-erase r q os o.inodes) in
      record {
        files = IsDistinct-erase p ps o.files;
        null = ground (arith, mem-erase 0 p ps o.files, o.null);
        inodes = IsDistinct-erase q os o.inodes;
        null_inode = ground (arith, mem-erase 0 q os o.inodes, o.null_inode);
        few = few-erase;
        inode_of = λ a ma. elim (Bool-cases ((file a).inode == q)) [
          | inl u ↦
              let same : (q == q) ≡ true = ground arith in
              absurd (
                omega (
                  arith,
                  u,
                  count-erase (of_inode file q) (erase p ps) a ma,
                  ap bit u,
                  (o.counted q (o.inode_of p m)).opens,
                  opens,
                  count-erase (of_inode file q) ps p m,
                  ap bit same,
                ))
          | inr u ↦ ground (
            arith,
            u,
            mem-erase (file a).inode q os o.inodes,
            o.inode_of a (ground (arith, ma, mem-erase a p ps o.files)),
          )
        ];
        counted = λ r mr. rw (kept r mr).1 (
            IsCounted-others (at r) file ps p r m (==-flip r q (kept r mr).1)
              (o.counted r (kept r mr).0));
        sectors = λ r t mr mt.
            rw ((kept r mr).1, (kept t mt).1) (o.sectors r t (kept r mr).0 (kept t mt).0);
      }

-- The file is closed; its inode, of which `n` files were open, stays open exactly if it has another.
abbrev pub Closes : List ℕ → ℕ → ℕ → ℕ → Result Files → Type 0
Closes ps p q n (ok s1) = AreOpened s1 (erase p ps) × (mem q s1.inodes.open_inodes ≡ ltb 1 n)
Closes ps p q n panic = ⊥
Closes ps p q n fault = ⊥

module _ (s : Files) (ps : List ℕ) (p : ℕ) (o : AreOpened s ps) (m : mem p ps ≡ true)
    (e : (s.file p).deny_write ≡ false)
    (here : (s.inodes.at (s.file p).inode).removed ≡ false) where
  -- Giving back the inode of a file that denies no writes
  inode_close-Closes :
      Closes ps p
        (s.file p).inode
        (s.inodes.at (s.file p).inode).open_cnt
        (inode_close s.inodes (s.file p).inode >>= λ i. ok (record s { inodes = i }))
  unfolding inode_close
  inode_close-Closes =
      let q = (s.file p).inode in
      let n = (s.inodes.at q).open_cnt in
      let some_q = member-some q s.inodes.open_inodes o.null_inode (o.inode_of p m) in
      let c = o.counted q (o.inode_of p m) in
      let less : (n + 2 ^ 32 - 1) % 2 ^ 32 ≡ n - 1 = omega (
        arith,
        c.held,
        c.opens,
        o.few,
        count-le (of_inode s.file q) (λ a. true) ps (λ a h. refl),
      ) in
      elim (Bool-cases (n == 1)) [
        | inl u ↦
            let last : n ≡ 1 = (==_iff n 1).0 u in
            let zero_left : ((n + 2 ^ 32 - 1) % 2 ^ 32 == 0) ≡ true = ground (arith, less, last) in
            let off : mem q (erase q s.inodes.open_inodes) ≡ ltb 1 n =
              let same : (q == q) ≡ true = ground arith in
              ground (arith, mem-erase q q s.inodes.open_inodes o.inodes, last) in
            rw (some_q, zero_left, here)
              (IsOpened-last s.inodes.open_inodes s.inodes.at s.file ps p o m e _ last, off)
        | inr u ↦
            let some_left : ((n + 2 ^ 32 - 1) % 2 ^ 32 == 0) ≡ false =
              ground (arith, less, u, c.held) in
            let on : mem q s.inodes.open_inodes ≡ ltb 1 n =
              ground (arith, o.inode_of p m, u, c.held) in
            rw (some_q, some_left)
              (
                IsOpened-less s.inodes.open_inodes s.inodes.at s.file ps p o m e _
                    (omega (arith, less, c.held)) (ground (arith, less, u, c.held)),
                on,
              )
      ]

-- What `file_close` does once the file allows writes
close_flagged :
    (s : Files) (ps : List ℕ) (p : ℕ) (r : Result Files)
    → mem p ps ≡ true
    → (s.inodes.at (s.file p).inode).removed ≡ false
    → Flags s ps p false r
    → Closes ps p (s.file p).inode (s.inodes.at (s.file p).inode).open_cnt (
        r >>= λ s1.
        (inode_close s1.inodes (s1.file p).inode >>= λ i. ok (record s1 { inodes = i })))
close_flagged s ps p panic m here f = absurd f
close_flagged s ps p fault m here f = absurd f
close_flagged s ps p (ok s1) m here (o, file, opened) =
    let quiet = file p ∙ update-same s.file p (record (s.file p) { deny_write = false }) in
    let same : (s.file p).inode ≡ (s1.file p).inode = sym (ap (λ f. f.inode) quiet) in
    let count_kept = opened.1 (s.file p).inode in
    let here1 = ap (λ q. (s1.inodes.at q).removed) (sym same) ∙ count_kept.1 ∙ here in
    rw (sym count_kept.0, same)
      (inode_close-Closes s1 ps p o m (ap (λ f. f.deny_write) quiet) here1)

-- Closing an open file, whose inode is not removed, returns: the file denies no writes any more, its inode
-- counts one file less, and the inode is closed exactly if this was its last file.
pub file_close-Closes :
    (s : Files) (ps : List ℕ) (p : ℕ)
    → AreOpened s ps
    → mem p ps ≡ true
    → (s.inodes.at (s.file p).inode).removed ≡ false
    → Closes ps p (s.file p).inode (s.inodes.at (s.file p).inode).open_cnt (file_close s p)
unfolding file_close
file_close-Closes s ps p o m here =
    let some_p = member-some p ps o.null m in
    rw some_p
      (close_flagged s ps p (file_allow_write s p) m here (file_allow_write-Flags s ps p o m))
