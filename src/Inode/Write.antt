-- ===== src/Inode/Write.antt =====
-- Writing the bytes of a file.
use eda.Prelude.{
  ℕ, zero, suc, ◌+◌, ◌-◌, ◌*◌, ◌/◌, ◌%◌, ◌<◌, ◌≤◌, ◌≡◌, refl, sym, ◌∙◌, ==_iff, ap, ◌&&◌, ◌||◌,
  true, false, ltb, leb, ◌==◌, if◌then◌else◌, arith, Bool-cases, inl, inr,
}
use eda.Prelude.Members.{update}
use eda.Palloc.{Memory}
use eda.Inode.{Disk, Inode, byte_to_sector, chunk_size, merge_in, write_loop, inode_write_at}
use eda.Inode.Read.{Fits, movable, or_true, sector_is}

-- The disk with `n` bytes of memory, from `src` on, at the offset in the file
abbrev pub position : Inode → ℕ → ℕ → ℕ
position i s o = (s - i.content.start) * 512 + o

abbrev pub stored : Memory → Disk → Inode → ℕ → ℕ → ℕ → Disk
stored m d i src offset n s o =
    if leb i.content.start s && (leb offset (position i s o) && ltb (position i s o) (offset + n))
    then m (src + (position i s o - offset))
    else d s o

abbrev written : Memory → Disk → Inode → ℕ → ℕ → ℕ → Disk
written m d i src offset c =
    update d (byte_to_sector i offset)
      (merge_in m (d (byte_to_sector i offset)) (offset % 512) src c)

module _ (m : Memory) (d : Disk) (i : Inode) (src offset c : ℕ) (f : Fits i)
    (h : offset < i.content.length) (le : c ≤ 512 - offset % 512) (s o : ℕ) (ho : o < 512) where
  -- One chunk
  written-stored : written m d i src offset c s o ≡ stored m d i src offset c s o
  written-stored =
      let sec = sector_is i offset f h in
      elim (Bool-cases (s == i.content.start + offset / 512)) [
        | inr e ↦
            let outside : (leb i.content.start s
                  && (leb offset (position i s o) && ltb (position i s o) (offset + c)))
                ≡ false =
              ground arith in
            rw (sec, e, outside) refl
        | inl e ↦ elim (Bool-cases (leb (offset % 512) o && ltb o (offset % 512 + c))) [
          | inl u ↦
              let inside : (leb i.content.start s
                    && (leb offset (position i s o) && ltb (position i s o) (offset + c)))
                  ≡ true =
                ground arith in
              let at : o - offset % 512 ≡ position i s o - offset = ground arith in
              rw (sec, e, u, inside) (ap (λ x. m (src + x)) at)
          | inr u ↦
              let outside : (leb i.content.start s
                    && (leb offset (position i s o) && ltb (position i s o) (offset + c)))
                  ≡ false =
                ground arith in
              let kept : (ltb 0 (offset % 512) || ltb c (512 - offset % 512)) ≡ true =
                ground arith in
              rw (sec, e, u, outside, kept)
                (ap (λ x. d x o) (sym ((==_iff s (i.content.start + offset / 512)).0 e)))
        ]
      ]

  stored-stored :
      (n : ℕ)
      → stored m (stored m d i src offset c) i (src + c) (offset + c) n s o
        ≡ stored m d i src offset (c + n) s o
  stored-stored n =
      let first =
        leb i.content.start s
        && (leb offset (position i s o) && ltb (position i s o) (offset + c)) in
      let second =
        leb i.content.start s
        && (leb (offset + c) (position i s o) && ltb (position i s o) (offset + c + n)) in
      let both =
        leb i.content.start s
        && (leb offset (position i s o) && ltb (position i s o) (offset + (c + n))) in
      elim (Bool-cases second) [
        | inl e ↦
            let all : both ≡ true = ground arith in
            rw (e, all)
              (ap m {x = src + c + (position i s o - (offset + c))}
                {y = src + (position i s o - offset)} (ground arith))
        | inr e ↦ elim (Bool-cases first) [
          | inl u ↦ let all : both ≡ true = ground arith in rw (e, u, all) refl
          | inr u ↦ let all : both ≡ false = ground arith in rw (e, u, all) refl
        ]
      ]

write_loop-stored :
    (fuel : ℕ) (m : Memory) (d : Disk) (i : Inode) (buffer size offset done : ℕ)
    → Fits i
    → size ≤ fuel
    → ((write_loop fuel m d i true buffer size offset done).0 ≡ done + movable i size offset)
      × ((s o : ℕ)
          → o < 512
          → (write_loop fuel m d i true buffer size offset done).1 s o
            ≡ stored m d i (buffer + done) offset (movable i size offset) s o)
unfolding write_loop
write_loop-stored zero m d i buffer size offset done f le = (omega arith, λ s o h. ground arith)
write_loop-stored (suc fuel) m d i buffer size offset done f le =
    let c = chunk_size i size offset in
    elim (Bool-cases (size == 0 || c == 0)) [
      | inl e ↦ rw e (ground arith, λ s o h. ground arith)
      | inr e ↦
          let d1 = written m d i (buffer + done) offset c in
          let n1 = movable i (size - c) (offset + c) in
          let (n, disk) =
            write_loop-stored fuel m d1 i buffer (size - c) (offset + c) (done + c) f
              (ground arith) in
          let all : movable i size offset ≡ c + n1 = ground arith in
          rw (e, or_true (offset % 512 == 0 && c == 512))
            (
              n ∙ omega (arith, all),
              λ s o h.
                  disk s o h
                  ∙ ap (λ x. stored m d1 i x (offset + c) n1 s o) {x = buffer + (done + c)}
                      {y = buffer + done + c} (omega arith)
                  ∙ ap
                      (λ y.
                        if leb i.content.start s
                          && (leb (offset + c) (position i s o)
                              && ltb (position i s o) (offset + c + n1))
                        then m (buffer + done + c + (position i s o - (offset + c)))
                        else y)
                      (written-stored m d i (buffer + done) offset c f (ground arith) (ground arith)
                        s o h)
                  ∙ stored-stored m d i (buffer + done) offset c f (ground arith) (ground arith) s o
                      h n1
                  ∙ ap (λ x. stored m d i (buffer + done) offset x s o) (sym all),
            )
    ]

-- On a device that has the sectors of the file and that can be written, inode_write_at returns how
-- many of the bytes the file has room for, and puts these at the offset in the file and nothing
-- else on the disk, if there is memory for its bounce buffer; it writes nothing to a file that is
-- denied writes.
pub inode_write_at-stored :
    (m : Memory) (d : Disk) (i : Inode) (buffer size offset : ℕ)
    → Fits i
    → let n = if i.deny_write_cnt == 0 then movable i size offset else 0 in
      ((inode_write_at m d i true buffer size offset).0 ≡ n)
      × ((s o : ℕ)
          → o < 512
          → (inode_write_at m d i true buffer size offset).1 s o ≡ stored m d i buffer offset n s o)
unfolding inode_write_at
inode_write_at-stored m d i buffer size offset f = elim (Bool-cases (i.deny_write_cnt == 0)) [
  | inl e ↦
      let (count, disk) = write_loop-stored size m d i buffer size offset 0 f (omega arith) in
      rw e (
        count ∙ omega arith,
        λ s o h.
            disk s o h ∙ ap (λ x. stored m d i x offset (movable i size offset) s o) (omega arith),
      )
  | inr e ↦ rw e (refl, λ s o h. ground arith)
]
