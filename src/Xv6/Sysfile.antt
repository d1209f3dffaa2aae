-- ===== src/Xv6/Sysfile.antt =====
-- xv6/base/sysfile.c: the calls on file descriptors, with `pipealloc` of xv6/base/pipe.c and the end of `fileclose`.
-- The state is that of one process that runs: its descriptors, the tables of files, inodes and pipes, and the number
-- of its transactions that are open. A call that sleeps on the lock of an inode is cut there.
pub mod Names
pub mod Rules
pub mod Counts
pub mod Descriptors
pub mod Pipes
pub mod Exec
pub mod Reach
mod Tests
use os_projects.Base.{
  ℕ, zero, suc, ◌+◌, ◌-◌, ◌%◌, ◌^◌, ltb, leb, Bool, true, false, ◌==◌, if◌then◌else◌, Option, none,
  some, update,
}
use os_projects.Memory.{write_bytes, bytes_of}
use os_projects.Xv6.Fs.{Fs, Res, done, sleeps, panics, M, bind}
use os_projects.Xv6.Fs.Inodes.{ilock, iunlock, iput, bytes_of_short}
use os_projects.Xv6.Fs.Files.{Stat, stati}
use os_projects.Xv6.File.{
  File, FileType, fd_none, fd_pipe, fd_inode, Ftable, filealloc, filedup, Closed, fileclose,
}
use os_projects.Xv6.Kalloc.{Kmem, kalloc, kfree}
use os_projects.Xv6.Pipe.{Pipe, fresh, pipeclose}
use os_projects.Xv6.Syscall.{User, argint, argptr}

abbrev pub nofile : ℕ
nofile = 16

-- `ofile` has the index of a file, or null; a pipe is named by its page.
pub record Sys : Type 0 where
  pub fs : Fs
  pub files : Ftable
  pub ofile : ℕ → Option ℕ
  pub cwd : ℕ
  pub ops : ℕ
  pub pipes : ℕ → Pipe
  pub kmem : Kmem
  pub pgdir : ℕ
  pub user : User

abbrev pub SysM : Type 0 → Type 0
SysM A = Sys → Res (A × Sys)

infixl 5 ◌>>=◌ ◌>>◌
pub ◌>>=◌ : {A B : Type 0} → SysM A → (A → SysM B) → SysM B
m >>= k = λ s. bind (m s) (λ (a, t). k a t)

abbrev pub ◌>>◌ : {A B : Type 0} → SysM A → SysM B → SysM B
m >> k = m >>= λ _. k

pub pure : {A : Type 0} → A → SysM A
pure a s = done (a, s)

pub panic : {A : Type 0} → SysM A
panic s = panics

-- What depends on the state, and on a pointer that may be null.
pub with_state : {A : Type 0} → (Sys → SysM A) → SysM A
with_state m s = m s s

pub on_option : {A B : Type 0} → Option A → SysM B → (A → SysM B) → SysM B
on_option none m k = m
on_option (some a) m k = k a

-- A call of the inode layer.
pub lift : {A : Type 0} → M A → SysM A
lift m s = bind (m s.fs) (λ (a, f). done (a, record s { fs = f }))

pub begin_op : SysM (Unit {0})
begin_op s = done (tt, record s { ops = s.ops + 1 })

pub end_op : SysM (Unit {0})
end_op s = done (tt, record s { ops = s.ops - 1 })

-- `argfd`: the descriptor and its file.
pub argfd : ℕ → Sys → Option (ℕ × ℕ)
argfd n s = elim (argint n s.user) [
  | none ↦ none
  | some fd ↦
      if leb nofile fd then none else (elim (s.ofile fd) [ none ↦ none | some f ↦ some (fd, f) ])
]

-- The loop of `fdalloc`, `k` descriptors from `fd` on being left.
pub free_fd : ℕ → ℕ → (ℕ → Option ℕ) → Option ℕ
free_fd zero fd ofile = none
free_fd (suc k) fd ofile =
    let rest = free_fd k (fd + 1) ofile in elim (ofile fd) [ none ↦ some fd | some f ↦ rest ]

-- Here and below `none` is the return of -1.
pub fdalloc : ℕ → SysM (Option ℕ)
fdalloc f s = elim (free_fd nofile 0 s.ofile) [
  | none ↦ done (none, s)
  | some fd ↦ done (some fd, record s { ofile = update s.ofile fd (some f) })
]

pub clear_fd : ℕ → SysM (Unit {0})
clear_fd fd s = done (tt, record s { ofile = update s.ofile fd none })

pub dup_file : ℕ → SysM (Unit {0})
dup_file f s = elim (filedup f s.files) [
  | none ↦ panics
  | some t ↦ done (tt, record s { files = t })
]

pub sys_dup : SysM (Option ℕ)
sys_dup = with_state λ s.
    on_option (argfd 0 s) (pure none)
      (λ (fd, f). do r ← fdalloc f; on_option r (pure none) (λ fd'. do dup_file f; pure (some fd')))

-- `pipeclose` with its `kfree`.
pub close_pipe : ℕ → Bool → SysM (Unit {0})
close_pipe p writable s =
    let q = pipeclose writable (s.pipes p) in
    let t = record s { pipes = update s.pipes p q } in
    if q.freed
    then (elim (kfree p t.kmem) [ none ↦ panics | some k ↦ done (tt, record t { kmem = k }) ])
    else done (tt, t)

-- What `fileclose` does with the file that it closed last, in the process `pid`.
pub release_file : ℕ → File → SysM (Unit {0})
release_file pid ff = elim ff.type [
  | fd_pipe ↦ close_pipe ff.pipe ff.writable
  | fd_inode ↦ (do begin_op; lift (iput pid ff.ip); end_op)
  | fd_none ↦ pure tt
]

pub close_file : ℕ → ℕ → SysM (Unit {0})
close_file pid f s = elim (fileclose f s.files) [
  | Closed.panics ↦ panics
  | Closed.still t ↦ done (tt, record s { files = t })
  | Closed.last ff t ↦ release_file pid ff (record s { files = t })
]

pub sys_close : ℕ → SysM (Option ℕ)
sys_close pid = with_state λ s.
    on_option (argfd 0 s) (pure none) (λ (fd, f). do clear_fd fd; close_file pid f; pure (some 0))

-- The arguments of `sys_read` and `sys_write` for the call of `fileread` or `filewrite`: the file, the address
-- and the number of bytes.
pub rw_args : Sys → Option (ℕ × ℕ × ℕ)
rw_args s = elim (argfd 0 s) [
  | none ↦ none
  | some (fd, f) ↦ elim (argint 2 s.user) [
    | none ↦ none
    | some n ↦ elim (argptr 1 n s.user) [ none ↦ none | some p ↦ some (f, p, n) ]
  ]
]

-- The store of a `struct stat` at an address, whose shorts are followed by two bytes that stay.
pub put_stat : ℕ → Stat → (ℕ → ℕ) → ℕ → ℕ
put_stat a st m =
    let m1 = write_bytes m a (bytes_of_short st.type) in
    let m2 = write_bytes m1 (a + 4) (bytes_of st.dev) in
    let m3 = write_bytes m2 (a + 8) (bytes_of st.ino) in
    let m4 = write_bytes m3 (a + 12) (bytes_of_short st.nlink) in
    write_bytes m4 (a + 16) (bytes_of st.size)

pub store : ((ℕ → ℕ) → ℕ → ℕ) → SysM (Unit {0})
store w s = done (tt, record s { user = record s.user { mem = w s.user.mem } })

pub filestat : ℕ → File → ℕ → SysM (Option ℕ)
filestat pid f a = elim f.type [
  | fd_inode ↦ (do
    lift (ilock pid f.ip)
    st ← lift (λ g. done (stati f.ip g, g))
    store (put_stat a st)
    lift (iunlock pid f.ip)
    pure (some 0))
  | fd_pipe ↦ pure none
  | fd_none ↦ pure none
]

pub sys_fstat : ℕ → SysM (Option ℕ)
sys_fstat pid = with_state λ s.
    on_option (argfd 0 s) (pure none)
      (λ (fd, f). on_option (argptr 1 20 s.user) (pure none) (λ a. filestat pid (s.files f) a))

pub alloc_file : SysM (Option ℕ)
alloc_file s = let (r, t) = filealloc s.files in done (r, record s { files = t })

-- The two files that `pipealloc` sets up on the pipe at `p`, whose bytes are what the page holds.
pub pipe_files : ℕ → ℕ → ℕ → SysM (Unit {0})
pipe_files f0 f1 p s =
    let t0 =
      update s.files f0
        (record (s.files f0) { type = fd_pipe; readable = true; writable = false; pipe = p }) in
    let t1 =
      update t0 f1
        (record (t0 f1) { type = fd_pipe; readable = false; writable = true; pipe = p }) in
    done (tt, record s { files = t1; pipes = update s.pipes p (fresh (s.pipes p).bytes) })

pub alloc_page : SysM ℕ
alloc_page s = let (p, k) = kalloc s.kmem in done (p, record s { kmem = k })

-- The end of `sys_pipe` on its error path, and that of `pipealloc`.
pub drop_pipe : {A : Type 0} → ℕ → ℕ → ℕ → SysM (Option A)
drop_pipe pid rf wf = do close_file pid rf; close_file pid wf; pure none

-- The end of `pipealloc`, with the page or 0.
pub set_pipe : ℕ → ℕ → ℕ → ℕ → SysM (Option (ℕ × ℕ))
set_pipe pid f0 f1 p =
    if p == 0 then drop_pipe pid f0 f1 else (do pipe_files f0 f1 p; pure (some (f0, f1)))

pub pipealloc : ℕ → SysM (Option (ℕ × ℕ))
pipealloc pid = do
  r0 ← alloc_file
  on_option r0 (pure none) (λ f0. do
    r1 ← alloc_file
    on_option r1 (do close_file pid f0; pure none) (λ f1. do p ← alloc_page; set_pipe pid f0 f1 p))

-- `sys_pipe` with the two files and the address for the descriptors.
pub pipe_fds : ℕ → ℕ → ℕ → ℕ → SysM (Option ℕ)
pipe_fds pid rf wf a = do
  r0 ← fdalloc rf
  on_option r0 (drop_pipe pid rf wf) (λ fd0. do
    r1 ← fdalloc wf
    on_option r1 (do clear_fd fd0; drop_pipe pid rf wf)
        (λ fd1. do
          store (λ m. write_bytes m a (bytes_of fd0))
          store (λ m. write_bytes m (a + 4) (bytes_of fd1))
          pure (some 0)))

pub sys_pipe : ℕ → SysM (Option ℕ)
sys_pipe pid = with_state λ s.
    on_option (argptr 0 8 s.user) (pure none)
      (λ a. do r ← pipealloc pid; on_option r (pure none) (λ (rf, wf). pipe_fds pid rf wf a))
