-- ===== src/Xv6/Fs/Inodes.antt =====
-- xv6/base/fs.c: the table of inodes. An inode is named by its index in `icache`.
pub mod Disk
pub mod Table
use os_projects.Base.{
  ℕ, zero, suc, ◌+◌, ◌-◌, ◌*◌, ◌/◌, ◌%◌, ◌^◌, Bool, true, false, ◌&&◌, ◌||◌, not, ◌==◌, ltb,
  if◌then◌else◌, List, [], ◌∷◌, ◌++◌, Option, none, some, update, get_or, set,
}
use os_projects.Memory.{read_bytes, write_bytes, bytes_of, int_at, read_ints, bytes_of_ints}
use os_projects.Xv6.Spinlock.{acquiresleep, releasesleep, holdingsleep}
use os_projects.Xv6.Fs.{
  Fs, Inode, Res, done, sleeps, panics, M, bind, ◌>>=◌, ◌>>◌, pure, panic, bread, log_write, bfree,
  bsize, ninode,
}

abbrev pub put_inode : ℕ → Inode → Fs → Fs
put_inode i ip f = record f { icache = update f.icache i ip }

-- `IBLOCK`, and the place of an inode in its block, which has IPB = 8.
abbrev pub iblock : ℕ → Fs → ℕ
iblock inum f = inum / 8 + f.sb.inodestart

abbrev pub short_at : (ℕ → ℕ) → ℕ → ℕ
short_at m a = m a + 256 * m (a + 1)

pub bytes_of_short : ℕ → List ℕ
bytes_of_short w = w % 256 ∷ w / 256 % 256 ∷ []

-- `struct dinode` with the fields of an inode.
pub dinode_bytes : Inode → List ℕ
dinode_bytes ip =
    bytes_of_short ip.type
    ++ (bytes_of_short ip.major
        ++ (bytes_of_short ip.minor
            ++ (bytes_of_short ip.nlink ++ (bytes_of ip.size ++ bytes_of_ints ip.addrs))))

pub iupdate : ℕ → Fs → Fs
iupdate i f =
    let ip = f.icache i in
    let b = iblock ip.inum f in
    log_write b (write_bytes (bread b f) (ip.inum % 8 * 64) (dinode_bytes ip)) f

-- What the search loop of `iget` finds in `k` entries from `i` on: the inode, or the first empty slot.
pub data Slot : Type 0 where
  cached : ℕ → Slot
  unused : Option ℕ → Slot

pub find_inode : ℕ → ℕ → Option ℕ → ℕ → ℕ → (ℕ → Inode) → Slot
find_inode zero i empty dev inum t = unused empty
find_inode (suc k) i empty dev inum t =
    let ip = t i in
    let empty' : Option ℕ = elim empty [
      | some j ↦ some j
      | none ↦ if ip.ref == 0 then some i else none
    ] in
    let rest = find_inode k (i + 1) empty' dev inum t in
    if ltb 0 ip.ref && ((ip.dev == dev) && (ip.inum == inum)) then cached i else rest

-- `iget` after its loop.
pub take_slot : ℕ → ℕ → Slot → M ℕ
take_slot dev inum (cached i) f =
    let ip = f.icache i in done (i, put_inode i (record ip { ref = ip.ref + 1 }) f)
take_slot dev inum (unused none) f = panics
take_slot dev inum (unused (some i)) f =
    done (i, put_inode i (record (f.icache i) { dev = dev; inum = inum; ref = 1; valid = false }) f)

pub iget : ℕ → ℕ → M ℕ
iget dev inum f = take_slot dev inum (find_inode ninode 0 none dev inum f.icache) f

pub idup : ℕ → M ℕ
idup i f = let ip = f.icache i in done (i, put_inode i (record ip { ref = ip.ref + 1 }) f)

-- The loop of `ialloc`, `k` numbers from `inum` on being left.
pub ialloc_from : ℕ → ℕ → ℕ → ℕ → M ℕ
ialloc_from zero inum dev type f = panics
ialloc_from (suc k) inum dev type f =
    let b = iblock inum f in
    let a = inum % 8 * 64 in
    let m = bread b f in
    let zeroed = λ (i : ℕ). if not (ltb i a) && ltb i (a + 64) then 0 else m i in
    let rest = ialloc_from k (inum + 1) dev type f in
    if short_at m a == 0
    then iget dev inum (log_write b (write_bytes zeroed a (bytes_of_short type)) f)
    else rest

pub ialloc : ℕ → ℕ → M ℕ
ialloc dev type f = ialloc_from (f.sb.ninodes - 1) 1 dev type f

-- The fields that `ilock` reads from the disk.
pub read_dinode : ℕ → (ℕ → ℕ) → Inode → Inode
read_dinode a m ip = record ip {
  type = short_at m a;
  major = short_at m (a + 2);
  minor = short_at m (a + 4);
  nlink = short_at m (a + 6);
  size = int_at m (a + 8);
  addrs = read_ints 13 (a + 12) m;
  valid = true;
}

-- The rest of `ilock`, once the process has the lock.
pub load_inode : ℕ → M (Unit {0})
load_inode i f =
    let ip = f.icache i in
    let ip' = read_dinode (ip.inum % 8 * 64) (bread (iblock ip.inum f) f) ip in
    if ip.valid
    then done (tt, f)
    else if ip'.type == 0
    then panics
    else done (tt, put_inode i ip' f)

-- `ilock` by the process `pid`. The pointer is not null.
pub ilock : ℕ → ℕ → M (Unit {0})
ilock pid i f =
    let ip = f.icache i in
    if ltb ip.ref 1 then panics else (elim (acquiresleep pid ip.lock) [
      | none ↦ sleeps
      | some l ↦ load_inode i (put_inode i (record ip { lock = l }) f)
    ])

pub iunlock : ℕ → ℕ → M (Unit {0})
iunlock pid i f =
    let ip = f.icache i in
    if not (holdingsleep pid ip.lock) || ltb ip.ref 1
    then panics
    else done (tt, put_inode i (record ip { lock = releasesleep ip.lock }) f)

-- The loop of `itrunc` over the direct blocks, `k` being left from `j` on.
pub free_direct : ℕ → ℕ → ℕ → M (Unit {0})
free_direct zero j i f = done (tt, f)
free_direct (suc k) j i f =
    let ip = f.icache i in
    let a = get_or ip.addrs j 0 in
    let next =
      λ (g : Fs). put_inode i (record (g.icache i) { addrs = set (g.icache i).addrs j 0 }) g in
    let freed = bind (bfree a f) (λ (_, g). free_direct k (j + 1) i (next g)) in
    let skipped = free_direct k (j + 1) i f in if a == 0 then skipped else freed

-- The loop over the numbers in the indirect block, which `a` holds.
pub free_indirect : ℕ → ℕ → (ℕ → ℕ) → M (Unit {0})
free_indirect zero j a f = done (tt, f)
free_indirect (suc k) j a f =
    let n = int_at a (4 * j) in
    let freed = bind (bfree n f) (λ (_, g). free_indirect k (j + 1) a g) in
    let skipped = free_indirect k (j + 1) a f in if n == 0 then skipped else freed

-- The second part of `itrunc`.
pub free_last : ℕ → M (Unit {0})
free_last i f =
    let b = get_or (f.icache i).addrs 12 0 in
    if b == 0
    then done (tt, f)
    else bind (free_indirect 128 0 (bread b f) f) (λ (_, g). bind (bfree b g) (λ (_, h).
      done (tt, put_inode i (record (h.icache i) { addrs = set (h.icache i).addrs 12 0 }) h)))

pub itrunc : ℕ → M (Unit {0})
itrunc i = do
  free_direct 12 0 i
  free_last i
  λ f. done (tt, iupdate i (put_inode i (record (f.icache i) { size = 0 }) f))

-- What `iput` does under the lock.
pub free_unlinked : ℕ → M (Unit {0})
free_unlinked i f =
    let ip = f.icache i in
    if ip.valid && ((ip.nlink == 0) && (ip.ref == 1))
    then bind (itrunc i f) (λ (_, g).
      let h = iupdate i (put_inode i (record (g.icache i) { type = 0 }) g) in
      done (tt, put_inode i (record (h.icache i) { valid = false }) h))
    else done (tt, f)

pub drop_ref : ℕ → Fs → Fs
drop_ref i f =
    let ip = f.icache i in
    put_inode i (record ip { lock = releasesleep ip.lock; ref = ip.ref - 1 }) f

-- `iput` by the process `pid` of an inode that has references.
pub iput : ℕ → ℕ → M (Unit {0})
iput pid i f =
    let ip = f.icache i in
    elim (acquiresleep pid ip.lock) [
      | none ↦ sleeps
      | some l ↦
          bind (free_unlinked i (put_inode i (record ip { lock = l }) f))
            (λ (_, g). done (tt, drop_ref i g))
    ]

pub iunlockput : ℕ → ℕ → M (Unit {0})
iunlockput pid i = do iunlock pid i; iput pid i
