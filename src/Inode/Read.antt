-- ===== src/Inode/Read.antt =====
-- Reading the bytes of a file.
use eda.Prelude.{
  ℕ, zero, suc, ◌+◌, ◌-◌, ◌/◌, ◌%◌, ◌^◌, ◌<◌, ◌≤◌, ◌≡◌, refl, sym, ◌∙◌, ap, ◌&&◌, ◌||◌, Bool, true,
  false, ltb, leb, ◌==◌, min, if◌then◌else◌, arith, Bool-cases, inl, inr,
}
use eda.Palloc.{Memory}
use eda.Inode.{Disk, Inode, byte_to_sector, chunk_size, copy_out, read_loop, inode_read_at}

-- The byte at an offset of a file
abbrev pub byte_of : Disk → Inode → ℕ → ℕ
byte_of d i pos = d (i.content.start + pos / 512) (pos % 512)

-- The sectors of a file have numbers.
abbrev pub Fits : Inode → Type 0
Fits i = i.content.start + (i.content.length + 511) / 512 ≤ 2 ^ 32

-- The bytes that a call can move
abbrev pub movable : Inode → ℕ → ℕ → ℕ
movable i size offset = min size (i.content.length - offset)

-- Memory with `n` bytes of the file from `offset` on, at `dst`
abbrev pub filled : Memory → Disk → Inode → ℕ → ℕ → ℕ → ℕ → ℕ
filled m d i dst offset n a =
    if leb dst a && ltb a (dst + n) then byte_of d i (offset + (a - dst)) else m a

pub or_true : (b : Bool) → (b || true) ≡ true
or_true true = refl
or_true false = refl

-- A chunk lies in one sector.
pub sector_is :
    (i : Inode) (offset : ℕ)
    → Fits i
    → offset < i.content.length
    → byte_to_sector i offset ≡ i.content.start + offset / 512
sector_is i offset f h = ground (arith, f)

byte_in_sector :
    (d : Disk) (i : Inode) (offset j : ℕ)
    → Fits i
    → offset < i.content.length
    → j < 512 - offset % 512
    → d (byte_to_sector i offset) (offset % 512 + j) ≡ byte_of d i (offset + j)
byte_in_sector d i offset j f h lt =
    ap (λ s. d s (offset % 512 + j)) (sector_is i offset f h)
    ∙ ap (λ q. d (i.content.start + q) (offset % 512 + j)) {x = offset / 512}
        {y = (offset + j) / 512} (omega (arith, lt))
    ∙ ap (λ r. d (i.content.start + (offset + j) / 512) r) (omega (arith, lt))

-- The first chunk, then the others
filled-copy_out :
    (m : Memory) (d : Disk) (i : Inode) (dst offset c n a : ℕ)
    → Fits i
    → offset < i.content.length
    → c ≤ 512 - offset % 512
    → filled
        (copy_out m (d (byte_to_sector i offset)) (offset % 512) dst c)
        d
        i
        (dst + c)
        (offset + c)
        n
        a
      ≡ filled m d i dst offset (c + n) a
filled-copy_out m d i dst offset c n a f h le = elim (Bool-cases (leb dst a && ltb a (dst + c))) [
  | inl e ↦
      let behind : (leb (dst + c) a && ltb a (dst + c + n)) ≡ false = ground arith in
      let inside : (leb dst a && ltb a (dst + (c + n))) ≡ true = ground arith in
      rw (behind, e, inside) (byte_in_sector d i offset (a - dst) f h (ground arith))
  | inr e ↦ elim (Bool-cases (leb (dst + c) a && ltb a (dst + c + n))) [
    | inl u ↦
        let inside : (leb dst a && ltb a (dst + (c + n))) ≡ true = ground arith in
        rw (u, inside)
          (ap (byte_of d i) {x = offset + c + (a - (dst + c))} {y = offset + (a - dst)}
            (ground arith))
    | inr u ↦
        let outside : (leb dst a && ltb a (dst + (c + n))) ≡ false = ground arith in
        rw (u, e, outside) refl
  ]
]

read_loop-filled :
    (fuel : ℕ) (m : Memory) (d : Disk) (i : Inode) (buffer size offset done : ℕ)
    → Fits i
    → size ≤ fuel
    → ((read_loop fuel m d i true buffer size offset done).0 ≡ done + movable i size offset)
      × ((a : ℕ)
          → (read_loop fuel m d i true buffer size offset done).1 a
            ≡ filled m d i (buffer + done) offset (movable i size offset) a)
unfolding read_loop
read_loop-filled zero m d i buffer size offset done f le = (omega arith, λ a. ground arith)
read_loop-filled (suc fuel) m d i buffer size offset done f le =
    let c = chunk_size i size offset in
    elim (Bool-cases (size == 0 || c == 0)) [
      | inl e ↦ rw e (ground arith, λ a. ground arith)
      | inr e ↦
          let (n, mem) =
            read_loop-filled fuel
              (copy_out m (d (byte_to_sector i offset)) (offset % 512) (buffer + done) c) d i buffer
              (size - c) (offset + c) (done + c) f (ground arith) in
          let moved : movable i size offset ≡ c + movable i (size - c) (offset + c) =
            ground arith in
          rw (e, or_true (offset % 512 == 0 && c == 512))
            (
              n ∙ omega (arith, moved),
              λ a.
                  mem a
                  ∙ ap
                      (λ x.
                        filled
                          (copy_out m (d (byte_to_sector i offset)) (offset % 512) (buffer + done)
                            c)
                          d i x (offset + c) (movable i (size - c) (offset + c)) a)
                      {x = buffer + (done + c)} {y = buffer + done + c} (omega arith)
                  ∙ filled-copy_out m d i (buffer + done) offset c
                      (movable i (size - c) (offset + c)) a f (ground arith) (ground arith)
                  ∙ ap (λ x. filled m d i (buffer + done) offset x a) (sym moved),
            )
    ]

-- On a device that has the sectors of the file, inode_read_at returns how many of the bytes asked
-- for the file has, and puts these, and no others, into the buffer, if there is memory for its
-- bounce buffer.
pub inode_read_at-filled :
    (m : Memory) (d : Disk) (i : Inode) (buffer size offset : ℕ)
    → Fits i
    → ((inode_read_at m d i true buffer size offset).0 ≡ movable i size offset)
      × ((a : ℕ)
          → (inode_read_at m d i true buffer size offset).1 a
            ≡ filled m d i buffer offset (movable i size offset) a)
unfolding inode_read_at
inode_read_at-filled m d i buffer size offset f =
    let (n, mem) = read_loop-filled size m d i buffer size offset 0 f (omega arith) in
    (
      n ∙ omega arith,
      λ a. mem a ∙ ap (λ x. filled m d i x offset (movable i size offset) a) (omega arith),
    )
