-- ===== src/File/Denying.antt =====
-- Denying writes to the inode of a file, and allowing them again.
use eda.Prelude.{
  ℕ, ◌+◌, ◌-◌, ◌<◌, ◌≤◌, ◌≡◌, refl, sym, ◌∙◌, ap, Bool, true, false, List, ltb, leb, ◌==◌, Result,
  ok, panic, fault, arith, Bool-cases, inl, inr, ==_iff,
}
use eda.Prelude.Members.{update, mem}
use eda.Palloc.{Memory}
use eda.Inode.{Disk, Inode, Inodes, inode_deny_write, inode_allow_write, inode_write_at}
use eda.File.{
  File, Files, file_deny_write, file_allow_write, file_write, file_write_at, with_disk, moved,
}
use eda.File.Counts.{bit, count, count-le, count-erase}
use eda.File.Opened.{of_inode, denies, IsCounted, AreOpened, member-some}
use eda.File.Flagged.{flagged, IsCounted-flagged, IsOpened-flagged}

-- An inode counts no more files that deny writes than files.
denials_le :
    (i : Inode) (file : ℕ → File) (ps : List ℕ) (q : ℕ)
    → IsCounted i file ps q
    → i.deny_write_cnt ≤ i.open_cnt
denials_le i file ps q c = omega (
  arith,
  c.opens,
  c.denials,
  count-le (denies file q) (of_inode file q) ps (λ a h. ground (arith, h)),
)

-- The inodes stay open as often, and as little removed.
abbrev pub IsKept : Inodes → Inodes → Type 0
IsKept i j =
    (j.open_inodes ≡ i.open_inodes)
    × ((q : ℕ) → ((j.at q).open_cnt ≡ (i.at q).open_cnt) × ((j.at q).removed ≡ (i.at q).removed))

IsKept-update :
    (i : Inodes) (q n : ℕ)
    → IsKept i (record i { at = update i.at q (record (i.at q) { deny_write_cnt = n }) })
IsKept-update i q n = (
  refl,
  λ r. elim (Bool-cases (r == q)) [
    | inl e ↦
        let same : r ≡ q = (==_iff r q).0 e in
        rw e (ap (λ x. (i.at x).open_cnt) (sym same), ap (λ x. (i.at x).removed) (sym same))
    | inr e ↦ rw e (refl, refl)
  ],
)

-- The file has the flag, and its inode counts it; the inodes are open as before, none is more removed.
abbrev pub Flags : Files → List ℕ → ℕ → Bool → Result Files → Type 0
Flags s ps p b (ok s1) =
    AreOpened s1 ps × ((a : ℕ) → s1.file a ≡ flagged s.file p b a) × IsKept s.inodes s1.inodes
Flags s ps p b panic = ⊥
Flags s ps p b fault = ⊥

flagged-same :
    (file : ℕ → File) (p : ℕ) (b : Bool)
    → (file p).deny_write ≡ b
    → (a : ℕ) → file a ≡ flagged file p b a
flagged-same file p b e a = elim (Bool-cases (a == p)) [
  | inl u ↦ rw u (ap file ((==_iff a p).0 u) ∙ ap (λ x. record (file p) { deny_write = x }) e)
  | inr u ↦ rw u refl
]

-- A file that denies writes is counted.
denied-some :
    (file : ℕ → File) (ps : List ℕ) (p : ℕ)
    → mem p ps ≡ true
    → (file p).deny_write ≡ true
    → 0 < count (denies file (file p).inode) ps
denied-some file ps p m e =
    let same : (file p).inode == (file p).inode ≡ true = ground arith in
    let one : denies file (file p).inode p ≡ true = rw (same, e) refl in
    omega (arith, count-erase (denies file (file p).inode) ps p m, ap bit one)

-- Denying writes to the inode of an open file returns, passes its assertion, and the inode counts the
-- file among those that deny writes, once.
pub file_deny_write-Flags :
    (s : Files) (ps : List ℕ) (p : ℕ)
    → AreOpened s ps
    → mem p ps ≡ true
    → Flags s ps p true (file_deny_write s p)
unfolding file_deny_write inode_deny_write
file_deny_write-Flags s ps p o m =
    let some_p = member-some p ps o.null m in
    elim (Bool-cases (s.file p).deny_write) [
      | inl e ↦ rw (some_p, e) (o, flagged-same s.file p true e, (refl, λ q. (refl, refl)))
      | inr e ↦
          let i = s.inodes.at (s.file p).inode in
          let counts : i.deny_write_cnt + 1 + bit (s.file p).deny_write
              ≡ i.deny_write_cnt + bit true =
            ground (arith, ap bit e) in
          let c =
            IsCounted-flagged i s.file ps p (i.deny_write_cnt + 1) true o.files m counts
              (o.counted (s.file p).inode (o.inode_of p m)) in
          let fits : leb (i.deny_write_cnt + 1) i.open_cnt ≡ true =
            ground (arith, denials_le _ _ _ _ c) in
          rw (some_p, e, fits)
            (
              IsOpened-flagged s.inodes.open_inodes s.inodes.at s.file ps p (i.deny_write_cnt + 1)
                  true o m counts,
              λ a. refl,
              IsKept-update s.inodes (s.file p).inode _,
            )
    ]

-- Allowing writes again returns, passes its assertions, and the inode no longer counts the file among
-- those that deny writes.
pub file_allow_write-Flags :
    (s : Files) (ps : List ℕ) (p : ℕ)
    → AreOpened s ps
    → mem p ps ≡ true
    → Flags s ps p false (file_allow_write s p)
unfolding file_allow_write inode_allow_write
file_allow_write-Flags s ps p o m =
    let some_p = member-some p ps o.null m in
    elim (Bool-cases (s.file p).deny_write) [
      | inr e ↦ rw (some_p, e) (o, flagged-same s.file p false e, (refl, λ q. (refl, refl)))
      | inl e ↦
          let i = s.inodes.at (s.file p).inode in
          let c = o.counted (s.file p).inode (o.inode_of p m) in
          let some_denial : 0 < i.deny_write_cnt =
            omega (arith, c.denials, ap bit e, denied-some s.file ps p m e) in
          let counts : i.deny_write_cnt - 1 + bit (s.file p).deny_write
              ≡ i.deny_write_cnt + bit false =
            ground (arith, some_denial, ap bit e) in
          let positive : ltb 0 i.deny_write_cnt ≡ true = ground (arith, some_denial) in
          let fits : leb i.deny_write_cnt i.open_cnt ≡ true =
            ground (arith, denials_le _ _ _ _ c) in
          rw (some_p, e, positive, fits)
            (
              IsOpened-flagged s.inodes.open_inodes s.inodes.at s.file ps p (i.deny_write_cnt - 1)
                  false o m counts,
              λ a. refl,
              IsKept-update s.inodes (s.file p).inode _,
            )
    ]

inode_write_at-denied :
    (m : Memory) (d : Disk) (i : Inode) (bounce : Bool) (buffer size offset : ℕ)
    → 0 < i.deny_write_cnt
    → inode_write_at m d i bounce buffer size offset ≡ (0, d)
unfolding inode_write_at
inode_write_at-denied m d i bounce buffer size offset h =
    let some_denial : (i.deny_write_cnt == 0) ≡ false = ground (arith, h) in rw some_denial refl

-- A file that moves by nothing
moved-same :
    (file : ℕ → File) (p a : ℕ)
    → update file p (record (file p) { pos = (file p).pos + 0 }) a ≡ file a
moved-same file p a = elim (Bool-cases (a == p)) [
  | inl u ↦ rw u (
      ap (λ x. record (file p) { pos = x }) {x = (file p).pos + 0} {y = (file p).pos} (omega arith)
      ∙ ap file (sym ((==_iff a p).0 u)))
  | inr u ↦ rw u refl
]

-- While an open file denies writes to its inode, a write by any open file of the inode writes nothing, at
-- its position or another, and leaves the disk and its position as they are.
pub file_write-denied :
    (m : Memory) (s : Files) (ps : List ℕ) (bounce : Bool) (p r buffer size file_ofs : ℕ)
    → AreOpened s ps
    → mem p ps ≡ true
    → (s.file p).deny_write ≡ true
    → (s.file r).inode ≡ (s.file p).inode
    → let w = file_write m s bounce r buffer size in
      (file_write_at m s bounce r buffer size file_ofs ≡ (0, s))
      × (w.0 ≡ 0)
      × (w.1.inodes ≡ s.inodes)
      × ((a : ℕ) → w.1.file a ≡ s.file a)
unfolding file_write file_write_at inode_write_at
file_write-denied m s ps bounce p r buffer size file_ofs o mp e same =
    let f = s.file r in
    let q = (s.file p).inode in
    let c = o.counted q (o.inode_of p mp) in
    let some_denial : 0 < (s.inodes.at f.inode).deny_write_cnt = omega (
      arith,
      c.denials,
      denied-some s.file ps p mp e,
      ap (λ x. (s.inodes.at x).deny_write_cnt) same,
    ) in
    let here =
      inode_write_at-denied m s.inodes.disk (s.inodes.at f.inode) bounce buffer size f.pos
        some_denial in
    let there =
      inode_write_at-denied m s.inodes.disk (s.inodes.at f.inode) bounce buffer size file_ofs
        some_denial in
    (
      ap (λ x. (x.0, with_disk s x.1)) there,
      ap (λ x. x.0) here,
      ap (λ x. (with_disk s x.1).inodes) here,
      λ a. ap (λ x. (moved (with_disk s x.1) r (f.pos + x.0)).file a) here ∙ moved-same s.file r a,
    )
