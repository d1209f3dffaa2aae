-- ===== src/Xv6/Fs/Tests.antt =====
-- The theorems on xv6/base/fs.c at a file system of a hundred blocks.
use os_projects.Base.{
  ℕ, zero, suc, ◌+◌, ◌*◌, ◌/◌, ◌%◌, ◌<◌, ◌≡◌, ◌≢◌, inl, refl, subst, true, false, ◌==◌, ltb,
  if◌then◌else◌, List, [], ◌∷◌, Option, none, some, replicate, arith,
}
use os_projects.Memory.{read_bytes}
use os_projects.Xv6.Spinlock.{initsleeplock}
use os_projects.Xv6.Fs.{Superblock, Inode, Fs, done, M, balloc}
use os_projects.Xv6.Fs.Bitmap.{used, IsMarked, Allocs, balloc_lem}
use os_projects.Xv6.Fs.Inodes.{put_inode, iupdate, load_inode, iget}
use os_projects.Xv6.Fs.Inodes.Disk.{IsStored, load_inode-iupdate}
use os_projects.Xv6.Fs.Inodes.Table.{IsTable, Gets, iget_lem}
use os_projects.Xv6.Fs.Files.{Io, count, readi, writei}
use os_projects.Xv6.Fs.Files.Reading.{content, block_of, IsMapped, readable, readi_lem}
use os_projects.Xv6.Fs.Files.Writing.{IsSeparate, Writes, writei_lem, readi-writei}
use os_projects.Xv6.Fs.Paths.Elements.{elements, parts, names_of, elements_lem}

abbrev super : Superblock
super = record {
  size = 100;
  nblocks = 40;
  ninodes = 200;
  nlog = 30;
  logstart = 2;
  inodestart = 32;
  bmapstart = 58;
}

-- The bits of the blocks up to 61 are set.
abbrev bitmap : ℕ → ℕ
bitmap o = if ltb o 7 then 255 else if o == 7 then 63 else 0

-- A file of 1000 bytes in the blocks 60 and 61.
abbrev file : Inode
file = record {
  dev = 1;
  inum = 9;
  ref = 1;
  lock = initsleeplock;
  valid = true;
  type = 2;
  major = 0;
  minor = 0;
  nlink = 1;
  size = 1000;
  addrs = 60 ∷ 61 ∷ replicate 11 0;
}

abbrev no_file : Inode
no_file = record file { ref = 0; inum = 0; valid = false }

abbrev disk : Fs
disk = record {
  block = λ b o. if b == 58 then bitmap o else o % 7;
  written = [];
  sb = super;
  icache = λ i. if i == 3 then file else no_file;
}

disk-IsMarked : IsMarked disk
disk-IsMarked n l =
    let e : 58 ≡ n / 4096 + 58 = omega arith in
    (omega arith, subst (λ b. used disk b ≡ true) e refl)

balloc_lem_example : Allocs disk (balloc disk)
balloc_lem_example = balloc_lem disk disk-IsMarked

file-IsStored : IsStored file
file-IsStored =
    (omega arith, omega arith, omega arith, omega arith, omega arith, refl, ground arith)

-- What the entry has of an inode that it had before.
abbrev stale : Inode
stale = record file { valid = false; type = 7; size = 3; nlink = 9; addrs = [] }

load_inode-iupdate_example :
    load_inode 3 (put_inode 3 stale (iupdate 3 disk)) ≡ done (tt, iupdate 3 disk)
load_inode-iupdate_example =
    load_inode-iupdate 3 disk stale file-IsStored refl (omega arith) (refl, refl, refl, refl, refl)

disk-IsTable : IsTable disk
disk-IsTable i j li lj p h = ground arith

iget_lem_example : Gets 1 20 disk (iget 1 20 disk)
iget_lem_example = iget_lem 1 20 disk disk-IsTable

-- The devices of the console's major number fail.
abbrev no_read : ℕ → Option (ℕ → ℕ → M Io)
no_read major = none

abbrev no_write : ℕ → Option (ℕ → List ℕ → M Io)
no_write major = none

disk-IsMapped : IsMapped disk 3 1000
disk-IsMapped zero l = (omega arith, omega arith, inl (omega arith))
disk-IsMapped (suc zero) l = (omega arith, omega arith, inl (omega arith))
disk-IsMapped (suc (suc n)) l = absurd (omega arith)

disk-IsSeparate : IsSeparate disk 3 1000
disk-IsSeparate zero l = (omega arith, only)
  where
    only : (k : ℕ) → k * 512 < 1000 → 0 ≢ k → block_of disk 3 0 ≢ block_of disk 3 k
    only zero l ne = absurd (omega arith)
    only (suc zero) l ne = omega arith
    only (suc (suc k)) l ne = absurd (omega arith)
disk-IsSeparate (suc zero) l = (omega arith, only)
  where
    only : (k : ℕ) → k * 512 < 1000 → 1 ≢ k → block_of disk 3 1 ≢ block_of disk 3 k
    only zero l ne = omega arith
    only (suc zero) l ne = absurd (omega arith)
    only (suc (suc k)) l ne = absurd (omega arith)
disk-IsSeparate (suc (suc n)) l = absurd (omega arith)

readi_lem_example :
    readi no_read no_write 3 510 600 disk
    ≡ done (
      count (read_bytes (content disk 3) 510 (readable disk 3 510 600)) (readable disk 3 510 600),
      disk,
    )
readi_lem_example =
    readi_lem no_read no_write 3 510 600 disk disk-IsMapped (omega arith) (omega arith)
      (omega arith)

abbrev three : List ℕ
three = 1 ∷ 2 ∷ 3 ∷ []

writei_lem_example :
    (g : Fs) × (writei no_read no_write 3 three 511 disk ≡ done (count [] 3, g))
    × Writes 3 1000 511 three disk g
writei_lem_example =
    writei_lem no_read no_write 3 511 three disk disk-IsMapped disk-IsSeparate (omega arith)
      (omega arith) (omega arith)

readi-writei_example :
    (g : Fs) × (writei no_read no_write 3 three 511 disk ≡ done (count [] 3, g))
    × (readi no_read no_write 3 511 3 g ≡ done (count three 3, g))
readi-writei_example =
    readi-writei no_read no_write 3 511 three disk disk-IsMapped disk-IsSeparate (omega arith)
      (omega arith) (omega arith)

-- The path //a//bb/c
abbrev path : List ℕ
path = b'/' ∷ b'/' ∷ b'a' ∷ b'/' ∷ b'/' ∷ b'b' ∷ b'b' ∷ b'/' ∷ b'c' ∷ []

elements_lem_example : elements 10 path ≡ some (names_of (parts path))
elements_lem_example = elements_lem 10 path (omega arith)
