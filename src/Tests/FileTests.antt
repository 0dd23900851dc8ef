-- ===== src/Tests/FileTests.antt =====
-- The theorems on filesys/inode.c and filesys/file.c: a disk whose sector 7 holds the inode of a file of 600
-- bytes in the sectors 20 and 21.
use eda.Prelude.{
  ℕ, ◌+◌, ◌%◌, ◌<◌, ◌≡◌, refl, true, false, List, [], ◌∷◌, ◌==◌, if◌then◌else◌, arith,
}
use eda.Prelude.Members.{mem}
use eda.Inode.{
  Disk, Inode, InodeDisk, inode_magic, encode, inode_read_at, inode_write_at, inode_open,
}
use eda.Inode.Read.{filled, inode_read_at-filled}
use eda.Inode.Write.{stored, inode_write_at-stored}
use eda.Inode.RoundTrip.{inode_write_at-inode_read_at}
use eda.File.{Files, file_open, file_close, file_write, file_write_at, file_deny_write}
use eda.File.Counts.{count}
use eda.File.Opened.{AreOpened}
use eda.File.Opening.{Opens, inode_open-file_open}
use eda.File.Denying.{Flags, file_deny_write-Flags, file_write-denied}
use eda.File.Closing.{Closes, file_close-Closes}

abbrev on_disk : InodeDisk
on_disk = record { start = 20; length = 600; magic = inode_magic }

abbrev inode : Inode
inode = record { sector = 7; open_cnt = 1; removed = false; deny_write_cnt = 0; content = on_disk }

abbrev disk : Disk
disk s o = if s == 7 then encode on_disk o else (s + o) % 256

inode_read_at-filled_example :
    ((inode_read_at (λ a. 0) disk inode true 5000 300 500).0 ≡ 100)
    × ((a : ℕ)
        → (inode_read_at (λ a. 0) disk inode true 5000 300 500).1 a
          ≡ filled (λ a. 0) disk inode 5000 500 100 a)
inode_read_at-filled_example = inode_read_at-filled (λ a. 0) disk inode 5000 300 500 (omega arith)

inode_write_at-stored_example :
    ((inode_write_at (λ a. a) disk inode true 5000 300 500).0 ≡ 100)
    × ((s o : ℕ)
        → o < 512
        → (inode_write_at (λ a. a) disk inode true 5000 300 500).1 s o
          ≡ stored (λ a. a) disk inode 5000 500 100 s o)
inode_write_at-stored_example = inode_write_at-stored (λ a. a) disk inode 5000 300 500 (omega arith)

inode_write_at-inode_read_at_example :
    let w = inode_write_at (λ a. a) disk inode true 5000 300 500 in
    let r = inode_read_at (λ a. 0) w.1 inode true 8000 300 500 in
    (r.0 ≡ w.0) × ((k : ℕ) → k < w.0 → r.1 (8000 + k) ≡ 5000 + k)
inode_write_at-inode_read_at_example =
    inode_write_at-inode_read_at (λ a. a) (λ a. 0) disk inode 5000 8000 300 500 (omega arith) refl

-- Two files, at 200 and 300, on the inode at 100; the first denies writes.
abbrev two_files : Files
two_files = record {
  inodes = record {
    disk = disk;
    free_map = record { free_map = record { bit_cnt = 32; bits = 0xffffff ∷ [] }; is_open = true };
    at = λ q. record inode { open_cnt = 2; deny_write_cnt = 1 };
    open_inodes = 100 ∷ [];
  };
  file = λ p. record { inode = 100; pos = 0; deny_write = p == 200 };
}

abbrev open_files : List ℕ
open_files = 200 ∷ 300 ∷ []

two_files-AreOpened : AreOpened two_files open_files
unfolding count mem
two_files-AreOpened = record {
  files = (refl, (refl, tt));
  null = refl;
  inodes = (refl, tt);
  null_inode = refl;
  few = omega arith;
  inode_of = λ p m. refl;
  counted = λ q m.
      let at : q ≡ 100 = ground (arith, m) in
      rw at (record { opens = refl; denials = refl; held = omega arith });
  sectors = λ q r mq mr e. ground (arith, mq, mr);
}

inode_open-file_open_example :
    let r = inode_open two_files.inodes 7 500 in
    Opens open_files 7 600 (file_open (record two_files { inodes = r.1 }) r.0 600)
unfolding mem count
inode_open-file_open_example =
    inode_open-file_open two_files open_files 7 500 600 two_files-AreOpened refl refl refl refl
      (omega arith)

file_deny_write-Flags_example : Flags two_files open_files 300 true (file_deny_write two_files 300)
unfolding mem
file_deny_write-Flags_example =
    file_deny_write-Flags two_files open_files 300 two_files-AreOpened refl

file_write-denied_example :
    let w = file_write (λ a. a) two_files true 300 5000 20 in
    (file_write_at (λ a. a) two_files true 300 5000 20 90 ≡ (0, two_files))
    × (w.0 ≡ 0)
    × (w.1.inodes ≡ two_files.inodes)
    × ((a : ℕ) → w.1.file a ≡ two_files.file a)
unfolding mem
file_write-denied_example =
    file_write-denied (λ a. a) two_files open_files true 200 300 5000 20 90 two_files-AreOpened refl
      refl refl

file_close-Closes_example : Closes open_files 200 100 2 (file_close two_files 200)
unfolding mem
file_close-Closes_example = file_close-Closes two_files open_files 200 two_files-AreOpened refl refl
