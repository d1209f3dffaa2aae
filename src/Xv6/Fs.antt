-- ===== src/Xv6/Fs.antt =====
-- xv6/base/fs.c: the file system, and its layer of blocks. The state has the contents of the blocks of
-- the one device as `bread` gives them, through the cache of Xv6/Bio and the log of Xv6/Log, and the
-- numbers of the blocks that were given to `log_write`, the last first. The device takes part only in
-- the table of inodes.
pub mod Inodes
pub mod Files
pub mod Dirs
pub mod Paths
pub mod Bits
pub mod Bitmap
mod Tests
use os_projects.Base.{
  ℕ, zero, suc, ◌+◌, ◌-◌, ◌*◌, ◌/◌, ◌%◌, ◌^◌, Bool, true, false, ◌&&◌, not, ◌==◌, ltb,
  if◌then◌else◌, List, [], ◌∷◌, Option, none, some, update,
}
use os_projects.Memory.{int_at}
use os_projects.Xv6.Spinlock.{SleepLock, initsleeplock}

abbrev pub bsize : ℕ
bsize = 512

-- `BPB`, bits of a block
abbrev pub bpb : ℕ
bpb = 4096

abbrev pub ninode : ℕ
ninode = 50

-- `struct superblock`
pub record Superblock : Type 0 where
  pub size : ℕ
  pub nblocks : ℕ
  pub ninodes : ℕ
  pub nlog : ℕ
  pub logstart : ℕ
  pub inodestart : ℕ
  pub bmapstart : ℕ

-- `struct inode`; the shorts are 16-bit patterns, and `addrs` has NDIRECT + 1 numbers.
pub record Inode : Type 0 where
  pub dev : ℕ
  pub inum : ℕ
  pub ref : ℕ
  pub lock : SleepLock
  pub valid : Bool
  pub type : ℕ
  pub major : ℕ
  pub minor : ℕ
  pub nlink : ℕ
  pub size : ℕ
  pub addrs : List ℕ

pub record Fs : Type 0 where
  pub block : ℕ → ℕ → ℕ
  pub written : List ℕ
  pub sb : Superblock
  pub icache : ℕ → Inode

-- What a call ends in: its value, a sleep on the lock of an inode that another process holds, or a
-- panic. What comes after the sleep is not part of the call.
pub data Res {ℓ} (A : Type ℓ) : Type ℓ where
  done : A → Res A
  sleeps : Res A
  panics : Res A

abbrev pub M : Type 0 → Type 0
M A = Fs → Res (A × Fs)

abbrev pub bind {ℓ κ} : {A : Type ℓ} {B : Type κ} → Res A → (A → Res B) → Res B
bind (done a) f = f a
bind sleeps f = sleeps
bind panics f = panics

infixl 5 ◌>>=◌ ◌>>◌
abbrev pub ◌>>=◌ : {A B : Type 0} → M A → (A → M B) → M B
m >>= k = λ f. bind (m f) (λ (a, g). k a g)

abbrev pub ◌>>◌ : {A B : Type 0} → M A → M B → M B
m >> k = m >>= λ _. k

abbrev pub pure : {A : Type 0} → A → M A
pure a f = done (a, f)

abbrev pub panic : {A : Type 0} → M A
panic f = panics

-- `bread`, and `log_write` of a buffer with new contents.
abbrev pub bread : ℕ → Fs → ℕ → ℕ
bread b f = f.block b

pub log_write : ℕ → (ℕ → ℕ) → Fs → Fs
log_write b contents f = record f { block = update f.block b contents; written = b ∷ f.written }

-- `readsb`
pub readsb : Fs → Superblock
readsb f =
    let m = bread 1 f in
    record {
      size = int_at m 0;
      nblocks = int_at m 4;
      ninodes = int_at m 8;
      nlog = int_at m 12;
      logstart = int_at m 16;
      inodestart = int_at m 20;
      bmapstart = int_at m 24;
    }

-- `iinit`, which also prints the super block
pub iinit : Fs → Fs
iinit f = record f {
  sb = readsb f;
  icache = λ i. if ltb i ninode then record (f.icache i) { lock = initsleeplock } else f.icache i;
}

pub bzero : ℕ → Fs → Fs
bzero bno f = log_write bno (λ i. if ltb i bsize then 0 else bread bno f i) f

-- `BBLOCK`
abbrev pub bblock : ℕ → Fs → ℕ
bblock b f = b / bpb + f.sb.bmapstart

-- `x & (1 << k)` is not 0, of a byte.
abbrev pub has_bit : ℕ → ℕ → Bool
has_bit x k = x / 2 ^ k % 2 == 1

-- `x | (1 << k)` and `x & ~(1 << k)`
pub set_bit : ℕ → ℕ → ℕ
set_bit x k = if has_bit x k then x else x + 2 ^ k

pub clear_bit : ℕ → ℕ → ℕ
clear_bit x k = if has_bit x k then x - 2 ^ k else x

-- The inner loop of `balloc`: of `k` bits of a block of the bitmap, from `bi` on, which stand for the
-- blocks from `b + bi` on, the first that is clear.
pub find_clear : ℕ → ℕ → ℕ → ℕ → (ℕ → ℕ) → Option ℕ
find_clear zero bi b size m = none
find_clear (suc k) bi b size m =
    let rest = find_clear k (bi + 1) b size m in
    if not (ltb (b + bi) size)
    then none
    else if not (has_bit (m (bi / 8)) (bi % 8))
    then some bi
    else rest

-- What `balloc` does with the block that it takes.
pub take_block : ℕ → ℕ → Fs → ℕ × Fs
take_block b bi f =
    let m = bread (bblock b f) f in
    let g = log_write (bblock b f) (update m (bi / 8) (set_bit (m (bi / 8)) (bi % 8))) f in
    (b + bi, bzero (b + bi) g)

-- The outer loop, `k` blocks of the bitmap being left.
pub balloc_from : ℕ → ℕ → M ℕ
balloc_from zero b f = panics
balloc_from (suc k) b f =
    let rest = balloc_from k (b + bpb) f in
    if ltb b f.sb.size
    then (elim (find_clear bpb 0 b f.sb.size (bread (bblock b f) f)) [
      | none ↦ rest
      | some bi ↦ done (take_block b bi f)
    ])
    else panics

-- `balloc`; the bitmap has no more blocks than rounds are given here.
pub balloc : M ℕ
balloc f = balloc_from (f.sb.size / bpb + 1) 0 f

pub bfree : ℕ → M (Unit {0})
bfree b f =
    let m = bread (bblock b f) f in
    let bi = b % bpb in
    if has_bit (m (bi / 8)) (bi % 8)
    then done (tt, log_write (bblock b f) (update m (bi / 8) (clear_bit (m (bi / 8)) (bi % 8))) f)
    else panics
