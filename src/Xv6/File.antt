-- ===== src/Xv6/File.antt =====
-- xv6/base/file.c: the table of open files. `ref` is an int that stays below its bound; each call is
-- one piece under the lock of the table. The inode layer and the pipes are parameters of the calls that
-- read and write.
pub mod Refs
pub mod Counting
pub mod Chunks
use os_projects.Base.{
  ℕ, zero, suc, ◌+◌, ◌-◌, ◌*◌, ◌/◌, ◌%◌, ◌^◌, Bool, true, false, ◌&&◌, not, ◌==◌, ltb,
  if◌then◌else◌, Option, none, some, update,
}

abbrev pub nfile : ℕ
nfile = 100

pub data FileType : Type 0 where
  fd_none fd_pipe fd_inode : FileType

pub record File : Type 0 where
  pub type : FileType
  pub ref : ℕ
  pub readable : Bool
  pub writable : Bool
  pub pipe : ℕ
  pub ip : ℕ
  pub off : ℕ

abbrev pub Ftable : Type 0
Ftable = ℕ → File

-- The scan of `filealloc` of `k` entries from `i` on.
pub find_file : ℕ → ℕ → Ftable → Option ℕ
find_file zero i t = none
find_file (suc k) i t = let rest = find_file k (i + 1) t in if (t i).ref == 0 then some i else rest

pub filealloc : Ftable → Option ℕ × Ftable
filealloc t = elim (find_file nfile 0 t) [
  | none ↦ (none, t)
  | some i ↦ (some i, update t i (record (t i) { ref = 1 }))
]

-- `filedup`; a panic is `none`.
unfoldable pub filedup : ℕ → Ftable → Option Ftable
filedup i t =
    if ltb (t i).ref 1 then none else some (update t i (record (t i) { ref = (t i).ref + 1 }))

-- What `fileclose` ends in: a panic, a file that is still referenced, or the last close, with what the
-- file was, for the close of its pipe or the release of its inode.
pub data Closed : Type 0 where
  panics : Closed
  still : Ftable → Closed
  last : File → Ftable → Closed

unfoldable pub fileclose : ℕ → Ftable → Closed
fileclose i t =
    let n = (t i).ref - 1 in
    if ltb (t i).ref 1
    then panics
    else if ltb 0 n
    then still (update t i (record (t i) { ref = n }))
    else last (record (t i) { ref = n }) (update t i (record (t i) { ref = 0; type = fd_none }))

-- What a read or a write returns: a count, a negative int or a panic.
pub data Outcome : Type 0 where
  count : ℕ → Outcome
  fails : Outcome
  stops : Outcome

-- `max` of `filewrite`, with 10 for MAXOPBLOCKS
abbrev pub max_bytes : ℕ
max_bytes = (10 - 1 - 1 - 2) / 2 * 512

-- `f->off += r`
pub moved : File → Option ℕ → File
moved f none = f
moved f (some r) = record f { off = (f.off + r) % 2 ^ 32 }

-- `n1` of `filewrite`, with `k` bytes left.
pub chunk : ℕ → ℕ
chunk k = if ltb max_bytes k then max_bytes else k

module _ {ℓ} {S : Type ℓ} (piperead pipewrite : ℕ → ℕ → ℕ → S → Outcome × S)
    (readi writei : ℕ → ℕ → ℕ → ℕ → S → Option ℕ × S) where
  pub fileread : File → ℕ → ℕ → S → Outcome × File × S
  fileread f addr n s = if not f.readable then (fails, f, s) else (elim f.type [
    | fd_pipe ↦ let (r, s') = piperead f.pipe addr n s in (r, f, s')
    | fd_inode ↦
        let (r, s') = readi f.ip addr f.off n s in
        (elim r [ none ↦ fails | some c ↦ count c ], moved f r, s')
    | fd_none ↦ (stops, f, s)
  ])

  -- The loop of `filewrite` from byte `i` on, which goes on if `writei` returns `n1`. Each round that
  -- goes on writes a byte at least, so that `n` rounds, and one for the end, are enough.
  pub write_chunks : ℕ → File → ℕ → ℕ → ℕ → S → Outcome × File × S
  write_chunks zero f addr i n s = (stops, f, s)
  write_chunks (suc fuel) f addr i n s =
      let n1 = chunk (n - i) in
      let (r, s') = writei f.ip (addr + i) f.off n1 s in
      let rest = write_chunks fuel (moved f (some n1)) addr (i + n1) n s' in
      if ltb i n
      then (elim r [
        | none ↦ (fails, f, s')
        | some c ↦ if c == n1 then rest else (stops, moved f (some c), s')
      ])
      else (count n, f, s)

  pub filewrite : File → ℕ → ℕ → S → Outcome × File × S
  filewrite f addr n s = if not f.writable then (fails, f, s) else (elim f.type [
    | fd_pipe ↦ let (r, s') = pipewrite f.pipe addr n s in (r, f, s')
    | fd_inode ↦ write_chunks (n + 1) f addr 0 n s
    | fd_none ↦ (stops, f, s)
  ])
