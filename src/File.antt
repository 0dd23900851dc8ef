-- ===== src/File.antt =====
-- mount/lab2/pintos/src/filesys/file.c: open files, each with its inode, its position and whether it denies
-- writes. A file at an address is not NULL where the source reads it without a test; positions are not
-- negative. `memory` is what `calloc` returns.
pub mod Counts
pub mod Opened
pub mod Fresh
pub mod Opening
pub mod Flagged
pub mod Denying
pub mod Closing
use eda.Prelude.{
  ℕ, ◌+◌, ◌^◌, ◌&&◌, Bool, true, false, not, ◌==◌, if◌then◌else◌, Result, ok, ◌>>=◌, ◌>>◌, assert,
}
use eda.Prelude.Members.{update}
use eda.Palloc.{Memory}
use eda.Inode.{
  Disk, Inodes, inode_reopen, inode_close, inode_read_at, inode_write_at, inode_deny_write,
  inode_allow_write, inode_length,
}

-- `struct file`
pub record File : Type 0 where
  pub inode : ℕ
  pub pos : ℕ
  pub deny_write : Bool

-- The inodes, and the files by their addresses
pub record Files : Type 0 where
  pub inodes : Inodes
  pub file : ℕ → File

unfoldable pub file_open : Files → ℕ → ℕ → Result (ℕ × Files)
file_open s inode memory =
    if not (inode == 0) && not (memory == 0)
    then ok (
      memory,
      record s {
        file = update s.file memory (record { inode = inode; pos = 0; deny_write = false });
      },
    )
    else inode_close s.inodes inode >>= λ i. ok (0, record s { inodes = i })

unfoldable pub file_reopen : Files → ℕ → ℕ → Result (ℕ × Files)
file_reopen s p memory =
    let q = (s.file p).inode in file_open (record s { inodes = inode_reopen s.inodes q }) q memory

unfoldable pub file_deny_write : Files → ℕ → Result Files
file_deny_write s p =
    let f = s.file p in
    let deny = inode_deny_write s.inodes f.inode >>= λ i.
    ok (record s { file = update s.file p (record f { deny_write = true }); inodes = i }) in
    assert (not (p == 0)) >> (if not f.deny_write then deny else ok s)

unfoldable pub file_allow_write : Files → ℕ → Result Files
file_allow_write s p =
    let f = s.file p in
    let allow = inode_allow_write s.inodes f.inode >>= λ i.
    ok (record s { file = update s.file p (record f { deny_write = false }); inodes = i }) in
    assert (not (p == 0)) >> (if f.deny_write then allow else ok s)

unfoldable pub file_close : Files → ℕ → Result Files
file_close s p =
    let close = file_allow_write s p >>= λ s1.
    (inode_close s1.inodes (s1.file p).inode >>= λ i. ok (record s1 { inodes = i })) in
    if p == 0 then ok s else close

abbrev pub file_get_inode : Files → ℕ → ℕ
file_get_inode s p = (s.file p).inode

-- A file with its position moved
abbrev pub moved : Files → ℕ → ℕ → Files
moved s p pos = record s { file = update s.file p (record (s.file p) { pos = pos }) }

unfoldable pub file_read : Memory → Files → Bool → ℕ → ℕ → ℕ → ℕ × Memory × Files
file_read m s bounce p buffer size =
    let f = s.file p in
    let r = inode_read_at m s.inodes.disk (s.inodes.at f.inode) bounce buffer size f.pos in
    (r.0, r.1, moved s p (f.pos + r.0))

abbrev pub file_read_at : Memory → Files → Bool → ℕ → ℕ → ℕ → ℕ → ℕ × Memory
file_read_at m s bounce p buffer size file_ofs =
    inode_read_at m s.inodes.disk (s.inodes.at (s.file p).inode) bounce buffer size file_ofs

abbrev pub with_disk : Files → Disk → Files
with_disk s d = record s { inodes = record s.inodes { disk = d } }

unfoldable pub file_write_at : Memory → Files → Bool → ℕ → ℕ → ℕ → ℕ → ℕ × Files
file_write_at m s bounce p buffer size file_ofs =
    let r =
      inode_write_at m s.inodes.disk (s.inodes.at (s.file p).inode) bounce buffer size file_ofs in
    (r.0, with_disk s r.1)

unfoldable pub file_write : Memory → Files → Bool → ℕ → ℕ → ℕ → ℕ × Files
file_write m s bounce p buffer size =
    let f = s.file p in
    let r = inode_write_at m s.inodes.disk (s.inodes.at f.inode) bounce buffer size f.pos in
    (r.0, moved (with_disk s r.1) p (f.pos + r.0))

abbrev pub file_length : Files → ℕ → Result ℕ
file_length s p = assert (not (p == 0)) >> ok (inode_length (s.inodes.at (s.file p).inode))

unfoldable pub file_seek : Files → ℕ → ℕ → Result Files
file_seek s p new_pos = assert (not (p == 0)) >> ok (moved s p new_pos)

unfoldable pub file_tell : Files → ℕ → Result ℕ
file_tell s p = assert (not (p == 0)) >> ok (s.file p).pos
