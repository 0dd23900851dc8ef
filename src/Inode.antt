-- ===== src/Inode.antt =====
-- mount/lab2/pintos/src/filesys/inode.c: inodes on disk and in memory. The disk is a byte for each sector and
-- offset; `block_read` and `block_write` move whole sectors, which the device is taken to have. Offsets and sizes are not negative. Of the
-- `bounce` buffer only whether `malloc` gives it is kept, an argument.
pub mod Read
pub mod Write
pub mod RoundTrip
pub mod Table
use eda.Prelude.{
  ℕ, zero, suc, ◌+◌, ◌-◌, ◌*◌, ◌/◌, ◌%◌, ◌^◌, ◌&&◌, ◌||◌, Bool, true, false, not, List, [], ◌∷◌,
  Option, none, some, ltb, leb, ◌==◌, min, if◌then◌else◌, Result, ok, panic, fault, ◌>>=◌, ◌>>◌,
  assert,
}
use eda.Prelude.Members.{update, erase}
use eda.Palloc.{Memory}
use eda.FreeMap.{FreeMap, free_map_allocate, free_map_release}

abbrev pub Disk : Type 0
Disk = ℕ → ℕ → ℕ

abbrev pub sector_size : ℕ
sector_size = 512

abbrev pub inode_magic : ℕ
inode_magic = 0x494e4f44

-- `struct inode_disk`
pub record InodeDisk : Type 0 where
  pub start : ℕ
  pub length : ℕ
  pub magic : ℕ

-- `struct inode`, without its list element
pub record Inode : Type 0 where
  pub sector : ℕ
  pub open_cnt : ℕ
  pub removed : Bool
  pub deny_write_cnt : ℕ
  pub content : InodeDisk

-- The disk, the free map, the inodes in memory by their addresses, and the list `open_inodes`
pub record Inodes : Type 0 where
  pub disk : Disk
  pub free_map : FreeMap
  pub at : ℕ → Inode
  pub open_inodes : List ℕ

abbrev pub bytes_to_sectors : ℕ → ℕ
bytes_to_sectors size = (size + sector_size - 1) / sector_size

-- -1 is 2 ^ 32 - 1.
abbrev pub byte_to_sector : Inode → ℕ → ℕ
byte_to_sector i pos =
    if ltb pos i.content.length then (i.content.start + pos / sector_size) % 2 ^ 32 else 2 ^ 32 - 1

-- A sector that holds an inode: three words, the lowest byte first, and zeros
abbrev pub word_byte : ℕ → ℕ → ℕ
word_byte x k = x / 256 ^ k % 256

unfoldable pub encode : InodeDisk → ℕ → ℕ
encode d o =
    if ltb o 4
    then word_byte d.start o
    else if ltb o 8
    then word_byte d.length (o - 4)
    else if ltb o 12
    then word_byte d.magic (o - 8)
    else 0

abbrev pub word_at : (ℕ → ℕ) → ℕ → ℕ
word_at s o = s o + 256 * s (o + 1) + 256 ^ 2 * s (o + 2) + 256 ^ 3 * s (o + 3)

unfoldable pub decode : (ℕ → ℕ) → InodeDisk
decode s = record { start = word_at s 0; length = word_at s 4; magic = word_at s 8 }

-- Without the count of writes, the PANIC of `check_sector` past the end of the device, and the assertion that
-- the device is not foreign: devices are outside the model.
abbrev pub block_write : Disk → ℕ → (ℕ → ℕ) → Disk
block_write d sector content = update d sector content

-- The loop of `inode_create` that writes zeros
unfoldable pub zero_sectors : ℕ → Disk → ℕ → Disk
zero_sectors zero d sector = d
zero_sectors (suc n) d sector =
    zero_sectors n (block_write d sector (λ o. 0)) ((sector + 1) % 2 ^ 32)

-- `allocated` tells whether `calloc` gives memory, `written` whether the free map could be written.
unfoldable pub inode_create : Inodes → ℕ → ℕ → Bool → Bool → Result (Bool × Inodes)
inode_create s sector length allocated written =
    let sectors = bytes_to_sectors length in
    let create = free_map_allocate s.free_map sectors written >>= λ r. ok (elim r.0 [
      | none ↦ (false, record s { free_map = r.1 })
      | some start ↦
          let d =
            block_write s.disk sector
              (encode (record { start = start; length = length; magic = inode_magic })) in
          (true, record s { free_map = r.1; disk = zero_sectors sectors d start })
    ]) in
    if allocated then create else ok (false, s)

unfoldable pub inode_reopen : Inodes → ℕ → Inodes
inode_reopen s p =
    if p == 0
    then s
    else record s { at = update s.at p (record (s.at p) { open_cnt = (s.at p).open_cnt + 1 }) }

-- The first open inode of a sector
unfoldable pub find_open : (ℕ → Inode) → List ℕ → ℕ → Option ℕ
find_open at [] sector = none
find_open at (p ∷ ps) sector = if (at p).sector == sector then some p else find_open at ps sector

-- `inode_open` behind its search; `memory` is what `malloc` returns.
abbrev pub finish_open : Inodes → ℕ → ℕ → Option ℕ → ℕ × Inodes
finish_open s sector memory (some p) = (p, inode_reopen s p)
finish_open s sector memory none = if memory == 0 then (0, s) else (
  memory,
  record s {
    open_inodes = memory ∷ s.open_inodes;
    at = update s.at memory (record {
      sector = sector;
      open_cnt = 1;
      removed = false;
      deny_write_cnt = 0;
      content = decode (s.disk sector);
    });
  },
)

unfoldable pub inode_open : Inodes → ℕ → ℕ → ℕ × Inodes
inode_open s sector memory = finish_open s sector memory (find_open s.at s.open_inodes sector)

abbrev pub inode_get_inumber : Inodes → ℕ → ℕ
inode_get_inumber s p = (s.at p).sector

-- The blocks of a removed inode are given back.
abbrev pub deallocate : Inodes → Inode → Result Inodes
deallocate s i = do
  m ← free_map_release s.free_map i.sector 1
  m2 ← free_map_release m i.content.start (bytes_to_sectors i.content.length)
  ok (record s { free_map = m2 })

unfoldable pub inode_close : Inodes → ℕ → Result Inodes
inode_close s p =
    let n = ((s.at p).open_cnt + 2 ^ 32 - 1) % 2 ^ 32 in
    let s1 = record s { at = update s.at p (record (s.at p) { open_cnt = n }) } in
    let s2 = record s1 { open_inodes = erase p s1.open_inodes } in
    if p == 0
    then ok s
    else if n == 0
    then (if (s.at p).removed then deallocate s2 (s.at p) else ok s2)
    else ok s1

unfoldable pub inode_remove : Inodes → ℕ → Result Inodes
inode_remove s p =
    assert (not (p == 0))
    >> ok (record s { at = update s.at p (record (s.at p) { removed = true }) })

abbrev pub inode_length : Inode → ℕ
inode_length i = i.content.length

-- `chunk_size`
abbrev pub chunk_size : Inode → ℕ → ℕ → ℕ
chunk_size i size offset =
    min size (min (inode_length i - offset) (sector_size - offset % sector_size))

-- `n` bytes of a sector from `ofs` on, copied to `dst`
abbrev pub copy_out : Memory → (ℕ → ℕ) → ℕ → ℕ → ℕ → Memory
copy_out m content ofs dst n a =
    if leb dst a && ltb a (dst + n) then content (ofs + (a - dst)) else m a

-- The loop of `inode_read_at`, which runs at most as often as bytes are left
unfoldable pub read_loop : ℕ → Memory → Disk → Inode → Bool → ℕ → ℕ → ℕ → ℕ → ℕ × Memory
read_loop zero m d i bounce buffer size offset bytes_read = (bytes_read, m)
read_loop (suc fuel) m d i bounce buffer size offset bytes_read =
    let chunk = chunk_size i size offset in
    let ofs = offset % sector_size in
    let m1 = copy_out m (d (byte_to_sector i offset)) ofs (buffer + bytes_read) chunk in
    let more =
      read_loop fuel m1 d i bounce buffer (size - chunk) (offset + chunk) (bytes_read + chunk) in
    if size == 0 || chunk == 0
    then (bytes_read, m)
    else if (ofs == 0 && chunk == sector_size) || bounce
    then more
    else (bytes_read, m)

unfoldable pub inode_read_at : Memory → Disk → Inode → Bool → ℕ → ℕ → ℕ → ℕ × Memory
inode_read_at m d i bounce buffer size offset = read_loop size m d i bounce buffer size offset 0

-- What is written to a sector: bytes of memory, and around them what the sector held, or zeros
abbrev pub merge_in : Memory → (ℕ → ℕ) → ℕ → ℕ → ℕ → ℕ → ℕ
merge_in m old ofs src n o =
    if leb ofs o && ltb o (ofs + n)
    then m (src + (o - ofs))
    else if ltb 0 ofs || ltb n (sector_size - ofs)
    then old o
    else 0

unfoldable pub write_loop : ℕ → Memory → Disk → Inode → Bool → ℕ → ℕ → ℕ → ℕ → ℕ × Disk
write_loop zero m d i bounce buffer size offset bytes_written = (bytes_written, d)
write_loop (suc fuel) m d i bounce buffer size offset bytes_written =
    let chunk = chunk_size i size offset in
    let ofs = offset % sector_size in
    let sector = byte_to_sector i offset in
    let d1 = block_write d sector (merge_in m (d sector) ofs (buffer + bytes_written) chunk) in
    let more =
      write_loop fuel m d1 i bounce buffer (size - chunk) (offset + chunk)
        (bytes_written + chunk) in
    if size == 0 || chunk == 0
    then (bytes_written, d)
    else if (ofs == 0 && chunk == sector_size) || bounce
    then more
    else (bytes_written, d)

unfoldable pub inode_write_at : Memory → Disk → Inode → Bool → ℕ → ℕ → ℕ → ℕ × Disk
inode_write_at m d i bounce buffer size offset =
    if i.deny_write_cnt == 0 then write_loop size m d i bounce buffer size offset 0 else (0, d)

unfoldable pub inode_deny_write : Inodes → ℕ → Result Inodes
inode_deny_write s p =
    let i = record (s.at p) { deny_write_cnt = (s.at p).deny_write_cnt + 1 } in
    assert (leb i.deny_write_cnt i.open_cnt) >> ok (record s { at = update s.at p i })

unfoldable pub inode_allow_write : Inodes → ℕ → Result Inodes
inode_allow_write s p =
    let i = s.at p in
    assert (ltb 0 i.deny_write_cnt)
    >> (assert (leb i.deny_write_cnt i.open_cnt)
        >> ok
            (record s { at = update s.at p (record i { deny_write_cnt = i.deny_write_cnt - 1 }) }))
