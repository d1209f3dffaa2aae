-- ===== src/Xv6/Sysfile/Tests.antt =====
-- A process with one file, open twice, that duplicates it and closes one descriptor.
use os_projects.Base.{
  ℕ, ◌+◌, ◌<◌, ◌≡◌, ◌≢◌, refl, sym, subst, inl, inr, Bool-cases, true, false, ◌==◌, if◌then◌else◌,
  Option, none, some, List, [], replicate, update, arith,
}
use os_projects.Memory.{int_at}
use os_projects.Xv6.Spinlock.{initsleeplock}
use os_projects.Xv6.Fs.{Inode, M, bind}
use os_projects.Xv6.Fs.Files.{Io}
use os_projects.Xv6.Pipe.{fresh}
use os_projects.Xv6.File.{File, fd_inode, fd_none, Ftable, filealloc, filedup, fileclose}
use os_projects.Xv6.Syscall.{User, fetchint, argint}
use os_projects.Xv6.Sysfile.{
  Sys, ◌>>=◌, pure, with_state, on_option, argfd, free_fd, fdalloc, clear_fd, dup_file, close_file,
  sys_dup, sys_close,
}
use os_projects.Xv6.Sysfile.Rules.{Sound, held}
use os_projects.Xv6.Sysfile.Reach.{
  call_dup, call_close, call_of, run, calls, Reach, here, later, Reach-Sound, Reach-IsReferenced,
}

abbrev shared : File
shared = record {
  type = fd_inode;
  ref = 2;
  readable = true;
  writable = false;
  pipe = 0;
  ip = 7;
  off = 0;
}

abbrev table : Ftable
table i = if i == 5 then shared else record shared { ref = 0; type = fd_none }

abbrev inode : Inode
inode = record {
  dev = 1;
  inum = 1;
  ref = 1;
  lock = initsleeplock;
  valid = true;
  type = 2;
  major = 0;
  minor = 0;
  nlink = 1;
  size = 0;
  addrs = replicate 13 0;
}

abbrev start : Sys
start = record {
  fs = record {
    block = λ b o. 0;
    written = [];
    sb = record {
      size = 100;
      nblocks = 40;
      ninodes = 200;
      nlog = 30;
      logstart = 2;
      inodestart = 32;
      bmapstart = 58;
    };
    icache = λ i. inode;
  };
  files = table;
  ofile = update (λ _. none) 1 (some 5);
  cwd = 0;
  ops = 0;
  pipes = λ p. fresh (λ _. 0);
  kmem = record { use_lock = true; freelist = 0; mem = λ _. 0; end_addr = 0x8010_0000 };
  pgdir = 0x8020_0000;
  user = record { mem = λ _. 0; sz = 4096; esp = 4000 };
}

-- The process has the number 1 as its argument, and another one has the file too.
abbrev with_one : User
with_one = record { mem = λ a. if a == 4004 then 1 else 0; sz = 4096; esp = 4000 }

abbrev others : ℕ → ℕ
others i = if i == 5 then 1 else 0

abbrev dup_done : Sys
dup_done = record start {
  user = with_one;
  ofile = update start.ofile 0 (some 5);
  files = update table 5 (record shared { ref = 3 });
}

abbrev close_done : Sys
close_done = record dup_done {
  ofile = update dup_done.ofile 1 none;
  files = update dup_done.files 5 (record shared { ref = 2 });
}

abbrev no_read : ℕ → Option (ℕ → ℕ → M Io)
no_read major = none

abbrev no_write : ℕ → Option (ℕ → List ℕ → M Io)
no_write major = none

start-Sound : Sound others 0 start
start-Sound = record { counted = at; balanced = refl }
  where
    at : (i : ℕ) → (table i).ref ≡ held 16 start.ofile i + others i
    at i = elim (Bool-cases (i == 5)) [
      | inl e ↦
          let s : i ≡ 5 = ground arith in
          subst (λ j. (table j).ref ≡ held 16 start.ofile j + others j) (sym s) refl
      | inr e ↦ rw e (ground arith)
    ]

dup_and_close : Reach no_read no_write 0x8010_8000 2 start close_done
unfolding run sys_dup sys_close with_state on_option argfd argint fetchint int_at fdalloc free_fd
    dup_file filedup clear_fd close_file fileclose ◌>>=◌ pure bind call_of
dup_and_close =
    later (later here (calls with_one.mem 4000 10 call_dup (some 0) dup_done refl refl))
      (calls with_one.mem 4000 21 call_close (some 0) close_done refl refl)

Reach-Sound_example : Sound others 0 close_done
Reach-Sound_example = Reach-Sound no_read no_write 0x8010_8000 2 others 0 start-Sound dup_and_close

Reach-IsReferenced_example : (0 < 2) × ((filealloc close_done.files).0 ≢ some 5)
Reach-IsReferenced_example =
    Reach-IsReferenced no_read no_write 0x8010_8000 2 others 0 0 5 start-Sound dup_and_close
      (omega arith) refl
