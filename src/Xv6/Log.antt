-- ===== src/Xv6/Log.antt =====
-- xv6/base/log.c: the redo log. A block is its 128 uint words, as a function of the word's index,
-- and the disk is a function of the block number. The buffer cache is seen through `bread`,
-- `bwrite` and the dirty buffers: a clean buffer holds what the disk holds.
pub mod Reserve
pub mod Txn
pub mod Install
pub mod Append
pub mod Header
pub mod Recover
pub mod Atomic
mod Tests
use os_projects.Base.{
  ℕ, zero, suc, ◌+◌, ◌-◌, ◌*◌, ◌%◌, ◌^◌, Bool, true, false, ◌&&◌, ◌||◌, ◌==◌, ltb, leb,
  if◌then◌else◌, List, [], ◌∷◌, Option, none, some, update,
}

abbrev pub maxopblocks : ℕ
maxopblocks = 10

abbrev pub logsize : ℕ
logsize = 30

abbrev pub Block : Type 0
Block = ℕ → ℕ

abbrev pub Disk : Type 0
Disk = ℕ → Block

-- `struct log` with `struct logheader` as `n` and `block`. `outstanding` is the 32-bit pattern of
-- the int. `dirty` holds the buffers that differ from the disk, `history` the disk before each
-- write since the start, newest first, and `wakeups` counts the calls of `wakeup(&log)`.
pub record Log : Type 0 where
  pub start : ℕ
  pub size : ℕ
  pub outstanding : ℕ
  pub committing : Bool
  pub n : ℕ
  pub block : ℕ → ℕ
  pub disk : Disk
  pub dirty : ℕ → Option Block
  pub history : List Disk
  pub wakeups : ℕ

-- `bread(dev, b)->data`
pub bread : Log → ℕ → Block
bread s b = elim (s.dirty b) [ none ↦ s.disk b | some x ↦ x ]

-- `bwrite` of a buffer of block `b` that holds `x`.
pub bwrite : Log → ℕ → Block → Log
bwrite s b x = record s {
  disk = update s.disk b x;
  dirty = update s.dirty b none;
  history = s.disk ∷ s.history;
}

-- `k` rounds of the loop of `install_trans`, from `tail` on.
pub install_from : ℕ → ℕ → Log → Log
install_from zero tail s = s
install_from (suc k) tail s =
    install_from k (tail + 1) (bwrite s (s.block tail) (bread s (s.start + tail + 1)))

pub install_trans : Log → Log
install_trans s = install_from s.n 0 s

-- `k` rounds of a loop that copies `src[i]` to `dst[i]`, with what the index of each array starts at.
pub copy_words : ℕ → (ℕ → ℕ) → ℕ → (ℕ → ℕ) → ℕ → ℕ → ℕ
copy_words zero dst d src o = dst
copy_words (suc k) dst d src o = copy_words k (update dst d (src o)) (d + 1) src (o + 1)

-- The header block is `n` in word 0 and the block numbers in the words after it.
pub read_head : Log → Log
read_head s =
    let lh = bread s s.start in record s { n = lh 0; block = copy_words (lh 0) s.block 0 lh 1 }

pub write_head : Log → Log
write_head s = bwrite s s.start (copy_words s.n (update (bread s s.start) 0 s.n) 1 s.block 0)

pub recover_from_log : Log → Log
recover_from_log s = write_head (record (install_trans (read_head s)) { n = 0 })

-- `initlog`: words 3 and 4 of the super block are `nlog` and `logstart`. Its first test compares
-- two constants, 124 and 512, and is false.
pub initlog : Log → Log
initlog s = let sb = bread s 1 in recover_from_log (record s { start = sb 4; size = sb 3 })

-- One round of the loop of `begin_op`: `none` if the caller sleeps on `&log`.
pub begin_op : Log → Option Log
begin_op s =
    if s.committing
    then none
    else if ltb logsize (s.n + (s.outstanding + 1) * maxopblocks)
    then none
    else some (record s { outstanding = s.outstanding + 1 })

pub write_log_from : ℕ → ℕ → Log → Log
write_log_from zero tail s = s
write_log_from (suc k) tail s =
    write_log_from k (tail + 1) (bwrite s (s.start + tail + 1) (bread s (s.block tail)))

pub write_log : Log → Log
write_log s = write_log_from s.n 0 s

pub commit : Log → Log
commit s =
    if ltb 0 s.n
    then write_head (record (install_trans (write_head (write_log s))) { n = 0 })
    else s

-- What `end_op` does in its first critical section: a panic is `none`, else the new state and
-- `do_commit`.
pub end_op_enter : Log → Option (Log × Bool)
end_op_enter s =
    let out = (s.outstanding + 2 ^ 32 - 1) % 2 ^ 32 in
    let t = record s { outstanding = out } in
    if s.committing
    then none
    else if out == 0
    then some (record t { committing = true }, true)
    else some (record t { wakeups = s.wakeups + 1 }, false)

-- The second part of `end_op`, after `commit()`.
pub end_op_leave : Log → Log
end_op_leave s = let t = commit s in record t { committing = false; wakeups = t.wakeups + 1 }

-- `end_op` by a caller that no other runs between the two parts.
pub end_op : Log → Option Log
end_op s = elim (end_op_enter s) [
  | none ↦ none
  | some (t, true) ↦ some (end_op_leave t)
  | some (t, false) ↦ some t
]

-- The search loop of `log_write`: the first index below `n`, from `i` on, that holds `b`, or `n`.
pub find_slot : ℕ → ℕ → (ℕ → ℕ) → ℕ → ℕ
find_slot zero i block b = i
find_slot (suc k) i block b = if block i == b then i else find_slot k (i + 1) block b

-- `log_write` of a buffer of block `b` that the caller has changed to `x`; `none` is a panic.
pub log_write : Log → ℕ → Block → Option Log
log_write s b x =
    if leb logsize s.n || leb s.size (s.n + 1)
    then none
    else if s.outstanding == 0 || leb (2 ^ 31) s.outstanding
    then none
    else (let i = find_slot s.n 0 s.block b in
        some (record s {
          block = update s.block i b;
          n = if i == s.n then s.n + 1 else s.n;
          dirty = update s.dirty b (some x);
        }))
