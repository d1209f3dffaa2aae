-- ===== src/Xv6/Bio.antt =====
-- xv6/base/bio.c: the buffer cache, with the disk of xv6/base/memide.c behind it. A block's contents
-- are a list of bytes. The linked list is the list of the indices of the buffers, the most recently
-- used first; the pieces of an operation are those between which it may sleep on a buffer's lock.
pub mod Get
pub mod Coherent
mod Tests
use os_projects.Base.{
  ℕ, zero, suc, ◌+◌, ◌-◌, ◌%◌, ◌^◌, Bool, true, false, ◌&&◌, ◌||◌, not, ◌==◌, ltb, leb,
  if◌then◌else◌, List, [], ◌∷◌, Option, none, some, update,
}
use os_projects.Xv6.Spinlock.{SleepLock, initsleeplock, acquiresleep, releasesleep, holdingsleep}

-- `struct buf`; `valid` and `dirty` are the bits of `flags`.
pub record Buf : Type 0 where
  pub valid : Bool
  pub dirty : Bool
  pub dev : ℕ
  pub blockno : ℕ
  pub lock : SleepLock
  pub refcnt : ℕ
  pub block_data : List ℕ

-- `bcache` and the disk.
pub record Bcache : Type 0 where
  pub buf : ℕ → Buf
  pub order : List ℕ
  pub disk : ℕ → List ℕ
  pub disksize : ℕ

-- The buffers that `binit` has put in the list after `k` rounds: the last is the first of the list.
pub link_bufs : ℕ → List ℕ
link_bufs zero = []
link_bufs (suc k) = k ∷ link_bufs k

pub binit : ℕ → Bcache → Bcache
binit nbuf c = record c {
  buf = λ i. if ltb i nbuf then record (c.buf i) { lock = initsleeplock } else c.buf i;
  order = link_bufs nbuf;
}

abbrev pub caches : ℕ → ℕ → Buf → Bool
caches dev blockno b = (b.dev == dev) && (b.blockno == blockno)

abbrev pub can_recycle : Buf → Bool
can_recycle b = (b.refcnt == 0) && not b.dirty

-- The first loop of `bget`: the first buffer of the list that has the block.
pub find_cached : ℕ → ℕ → (ℕ → Buf) → List ℕ → Option ℕ
find_cached dev blockno buf [] = none
find_cached dev blockno buf (i ∷ is) =
    let rest = find_cached dev blockno buf is in if caches dev blockno (buf i) then some i else rest

-- The second loop: the last buffer of the list that can be taken.
pub find_unused_buf : (ℕ → Buf) → List ℕ → Option ℕ
find_unused_buf buf [] = none
find_unused_buf buf (i ∷ is) = elim (find_unused_buf buf is) [
  | some j ↦ some j
  | none ↦ if can_recycle (buf i) then some i else none
]

pub recycled : ℕ → ℕ → Buf → Buf
recycled dev blockno b = record b {
  dev = dev;
  blockno = blockno;
  valid = false;
  dirty = false;
  refcnt = 1;
}

-- `bget` up to its `acquiresleep`; `none` is the panic.
pub bget : ℕ → ℕ → Bcache → Option (ℕ × Bcache)
bget dev blockno c = elim (find_cached dev blockno c.buf c.order) [
  | some i ↦
      let b = c.buf i in
      some (i, record c { buf = update c.buf i (record b { refcnt = (b.refcnt + 1) % 2 ^ 32 }) })
  | none ↦ elim (find_unused_buf c.buf c.order) [
    | some i ↦ some (i, record c { buf = update c.buf i (recycled dev blockno (c.buf i)) })
    | none ↦ none
  ]
]

-- `iderw` of xv6/base/memide.c by the process `pid`, on the buffer with index `i`; `none` is a panic.
pub iderw : ℕ → ℕ → Bcache → Option Bcache
iderw pid i c =
    let b = c.buf i in
    if not (holdingsleep pid b.lock)
      || (b.valid && not b.dirty)
      || not (b.dev == 1)
      || leb c.disksize b.blockno
    then none
    else if b.dirty
    then some (record c {
      buf = update c.buf i (record b { dirty = false; valid = true });
      disk = update c.disk b.blockno b.block_data;
    })
    else some (record c {
      buf = update c.buf i (record b { block_data = c.disk b.blockno; valid = true });
    })

-- What a piece of `bread` ends in: the sleep on the lock of the buffer, a panic, or the buffer.
pub data Read : Type 0 where
  sleeps : ℕ → Bcache → Read
  panics : Read
  got : ℕ → Bcache → Read

-- The end of `bread`, with the lock.
pub fill : ℕ → ℕ → Bcache → Read
fill pid i c =
    if (c.buf i).valid then got i c else (elim (iderw pid i c) [ none ↦ panics | some d ↦ got i d ])

-- `bread` from `acquiresleep` on: also what it does when it wakes up.
pub bread_locked : ℕ → ℕ → Bcache → Read
bread_locked pid i c = elim (acquiresleep pid (c.buf i).lock) [
  | none ↦ sleeps i c
  | some l ↦ fill pid i (record c { buf = update c.buf i (record (c.buf i) { lock = l }) })
]

pub bread : ℕ → ℕ → ℕ → Bcache → Read
bread pid dev blockno c = elim (bget dev blockno c) [
  | none ↦ panics
  | some (i, d) ↦ bread_locked pid i d
]

pub bwrite : ℕ → ℕ → Bcache → Option Bcache
bwrite pid i c =
    if holdingsleep pid (c.buf i).lock
    then iderw pid i (record c { buf = update c.buf i (record (c.buf i) { dirty = true }) })
    else none

pub unlink_buf : ℕ → List ℕ → List ℕ
unlink_buf i [] = []
unlink_buf i (j ∷ js) = let rest = unlink_buf i js in if i == j then rest else j ∷ rest

pub brelse : ℕ → ℕ → Bcache → Option Bcache
brelse pid i c =
    if holdingsleep pid (c.buf i).lock
    then (let n = ((c.buf i).refcnt + 2 ^ 32 - 1) % 2 ^ 32 in
        let b = record (c.buf i) { lock = releasesleep (c.buf i).lock; refcnt = n } in
        let d = record c { buf = update c.buf i b } in
        some (if n == 0 then record d { order = i ∷ unlink_buf i c.order } else d))
    else none
