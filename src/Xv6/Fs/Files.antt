-- ===== src/Xv6/Fs/Files.antt =====
-- xv6/base/fs.c: the contents of an inode. Of a device the functions in `devsw` are parameters.
pub mod Reading
pub mod Writing
use os_projects.Base.{
  ℕ, zero, suc, ◌+◌, ◌-◌, ◌*◌, ◌/◌, ◌%◌, ◌^◌, Bool, true, false, ◌&&◌, ◌||◌, not, ◌==◌, ltb, leb,
  if◌then◌else◌, List, [], ◌∷◌, ◌++◌, Option, none, some, get_or, set, take, drop, length,
}
use os_projects.Memory.{read_bytes, write_bytes, bytes_of, int_at}
use os_projects.Xv6.Fs.{
  Fs, Inode, Res, done, sleeps, panics, M, bind, ◌>>=◌, ◌>>◌, pure, panic, bread, log_write, balloc,
  bsize,
}
use os_projects.Xv6.Fs.Inodes.{put_inode, iupdate}

abbrev pub t_dir : ℕ
t_dir = 1

abbrev pub t_dev : ℕ
t_dev = 3

abbrev pub ndirect : ℕ
ndirect = 12

abbrev pub nindirect : ℕ
nindirect = 128

-- `ip->addrs[n] = addr = balloc(ip->dev)`
pub alloc_addr : ℕ → ℕ → M ℕ
alloc_addr i n f =
    bind (balloc f) (λ (a, g).
      done (a, put_inode i (record (g.icache i) { addrs = set (g.icache i).addrs n a }) g))

-- The number `n` of an inode, which is allocated if it is 0.
pub addr_at : ℕ → ℕ → M ℕ
addr_at i n f =
    let a = get_or (f.icache i).addrs n 0 in if a == 0 then alloc_addr i n f else done (a, f)

-- The number `n` in the indirect block `b`, which is allocated if it is 0.
pub indirect_at : ℕ → ℕ → M ℕ
indirect_at b n f =
    let a = int_at (bread b f) (4 * n) in
    if a == 0
    then bind (balloc f)
        (λ (a', g). done (a', log_write b (write_bytes (bread b g) (4 * n) (bytes_of a')) g))
    else done (a, f)

pub bmap : ℕ → ℕ → M ℕ
bmap i bn f =
    if ltb bn ndirect
    then addr_at i bn f
    else if ltb (bn - ndirect) nindirect
    then bind (addr_at i ndirect f) (λ (b, g). indirect_at b (bn - ndirect) g)
    else panics

-- `struct stat` as `stati` fills it.
pub record Stat : Type 0 where
  pub dev : ℕ
  pub ino : ℕ
  pub type : ℕ
  pub nlink : ℕ
  pub size : ℕ

pub stati : ℕ → Fs → Stat
stati i f =
    let ip = f.icache i in
    record { dev = ip.dev; ino = ip.inum; type = ip.type; nlink = ip.nlink; size = ip.size }

-- What a read or a write returns: -1, or the bytes that it puts at `dst` and the count.
pub data Io : Type 0 where
  fails : Io
  count : List ℕ → ℕ → Io

-- The bytes of a round, `m` of the source.
pub piece : ℕ → ℕ → ℕ
piece left off = if ltb left (bsize - off % bsize) then left else bsize - off % bsize

-- The loop of `readi` with `left` bytes to go. Each round takes a byte at least, so that as many rounds
-- as bytes, and one for the end, are enough.
pub read_loop : ℕ → ℕ → ℕ → ℕ → M (List ℕ)
read_loop zero i off left f = panics
read_loop (suc fuel) i off left f =
    let m = piece left off in
    let round = bind (bmap i (off / bsize) f) (λ (a, g).
      bind (read_loop fuel i (off + m) (left - m) g)
        (λ (bytes, h). done (read_bytes (bread a g) (off % bsize) m ++ bytes, h))) in
    if left == 0 then done ([], f) else round

-- The loop of `writei` over the bytes that are left.
pub write_loop : ℕ → ℕ → ℕ → List ℕ → M (Unit {0})
write_loop zero i off src f = panics
write_loop (suc fuel) i off src f =
    let m = piece (length src) off in
    let round = bind (bmap i (off / bsize) f) (λ (a, g).
      write_loop fuel i (off + m) (drop m src)
        (log_write a (write_bytes (bread a g) (off % bsize) (take m src)) g)) in
    if length src == 0 then done (tt, f) else round

-- The end of `writei`, with the offset after the last byte.
pub grow : ℕ → ℕ → ℕ → Fs → Fs
grow i n off f =
    if ltb 0 n && ltb (f.icache i).size off
    then iupdate i (put_inode i (record (f.icache i) { size = off }) f)
    else f

-- `read` and `write` are those of the device with a major number, if it has them; the majors are less
-- than NDEV, and a negative one is a pattern above 2^15.
module _ (dev_read : ℕ → Option (ℕ → ℕ → M Io)) (dev_write : ℕ → Option (ℕ → List ℕ → M Io)) where
  abbrev device {ℓ} : {A : Type ℓ} → (ℕ → Option A) → ℕ → Option A
  device t major = if leb 10 major then none else t major

  pub readi : ℕ → ℕ → ℕ → M Io
  readi i off n f =
      let ip = f.icache i in
      let n' = if ltb ip.size (off + n) then ip.size - off else n in
      if ip.type == t_dev
      then (elim (device dev_read ip.major) [ none ↦ done (fails, f) | some read ↦ read i n f ])
      else if ltb ip.size off || ltb ((off + n) % 2 ^ 32) off
      then done (fails, f)
      else bind (read_loop (n' + 1) i off n' f) (λ (bytes, g). done (count bytes n', g))

  -- `writei` of the bytes `src`, whose number is `n`.
  pub writei : ℕ → List ℕ → ℕ → M Io
  writei i src off f =
      let ip = f.icache i in
      let n = length src in
      if ip.type == t_dev
      then (elim (device dev_write ip.major) [
        | none ↦ done (fails, f)
        | some write ↦ write i src f
      ])
      else if ltb ip.size off || ltb ((off + n) % 2 ^ 32) off
      then done (fails, f)
      else if ltb ((ndirect + nindirect) * bsize) (off + n)
      then done (fails, f)
      else bind (write_loop (n + 1) i off src f) (λ (_, g). done (count [] n, grow i n (off + n) g))
