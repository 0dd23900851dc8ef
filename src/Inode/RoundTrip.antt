-- ===== src/Inode/RoundTrip.antt =====
-- Reading back what was written to a file.
use eda.Prelude.{
  ℕ, ◌+◌, ◌-◌, ◌/◌, ◌%◌, ◌<◌, ◌≡◌, sym, ◌∙◌, ap, ◌&&◌, true, ltb, leb, ◌==◌, if◌then◌else◌, arith,
}
use eda.Palloc.{Memory}
use eda.Inode.{Disk, Inode, inode_read_at, inode_write_at}
use eda.Inode.Read.{byte_of, Fits, movable, filled, inode_read_at-filled}
use eda.Inode.Write.{position, stored, inode_write_at-stored}

-- A byte of the part of a file that was stored
stored-byte_of :
    (m : Memory) (d : Disk) (i : Inode) (src offset n k : ℕ)
    → k < n
    → stored m d i src offset n (i.content.start + (offset + k) / 512) ((offset + k) % 512)
      ≡ m (src + k)
stored-byte_of m d i src offset n k h =
    let at : position i (i.content.start + (offset + k) / 512) ((offset + k) % 512) ≡ offset + k =
      omega arith in
    let starts : leb i.content.start (i.content.start + (offset + k) / 512) ≡ true = ground arith in
    let from : leb offset (offset + k) ≡ true = ground arith in
    let to : ltb (offset + k) (offset + n) ≡ true = ground arith in
    rw (at, starts, from, to)
      (ap (λ x. m (src + x)) {x = offset + k - offset} {y = k} (omega arith))

filled-byte_of :
    (m : Memory) (d : Disk) (i : Inode) (dst offset n k : ℕ)
    → k < n
    → filled m d i dst offset n (dst + k) ≡ byte_of d i (offset + k)
filled-byte_of m d i dst offset n k h =
    let inside : (leb dst (dst + k) && ltb (dst + k) (dst + n)) ≡ true = ground arith in
    rw inside (ap (λ x. byte_of d i (offset + x)) {x = dst + k - dst} {y = k} (omega arith))

-- What inode_write_at wrote to a file, inode_read_at reads back: it returns as many bytes, and the
-- buffer it fills holds the bytes of the other buffer, if there is memory for their bounce
-- buffers, the device has the sectors of the file and writes to the file are not denied.
pub inode_write_at-inode_read_at :
    (m m2 : Memory) (d : Disk) (i : Inode) (src dst size offset : ℕ)
    → Fits i
    → i.deny_write_cnt ≡ 0
    → let n = (inode_write_at m d i true src size offset).0 in
      let r =
        inode_read_at m2 (inode_write_at m d i true src size offset).1 i true dst size offset in
      (r.0 ≡ n) × ((k : ℕ) → k < n → r.1 (dst + k) ≡ m (src + k))
inode_write_at-inode_read_at m m2 d i src dst size offset f e =
    let n = movable i size offset in
    let (wrote, disk) = inode_write_at-stored m d i src size offset f in
    let amount : (if i.deny_write_cnt == 0 then n else 0) ≡ n = ground (arith, e) in
    let all : (inode_write_at m d i true src size offset).0 ≡ n = wrote ∙ amount in
    let (count, bytes) =
      inode_read_at-filled m2 (inode_write_at m d i true src size offset).1 i dst size offset f in
    (
      count ∙ sym all,
      λ k h.
          let lt : k < n = omega (arith, h, all) in
          let at = (offset + k) / 512 in
          bytes (dst + k)
          ∙ filled-byte_of m2 (inode_write_at m d i true src size offset).1 i dst offset n k lt
          ∙ disk (i.content.start + at) ((offset + k) % 512) (omega arith)
          ∙ ap (λ x. stored m d i src offset x (i.content.start + at) ((offset + k) % 512)) amount
          ∙ stored-byte_of m d i src offset n k lt,
    )
