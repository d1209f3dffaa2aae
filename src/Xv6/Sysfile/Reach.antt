-- ===== src/Xv6/Sysfile/Reach.antt =====
-- A process that makes calls on files, one after the other, and the references to its files on the way.
use os_projects.Base.{
  ℕ, zero, suc, ◌+◌, ◌<◌, ◌≡◌, ◌≢◌, sym, ap, subst, ◌==◌, if◌then◌else◌, Option, none, some, List,
  ℕ_discrete, arith,
}
use os_projects.Xv6.Fs.{done, M}
use os_projects.Xv6.Fs.Files.{Io}
use os_projects.Xv6.File.{Ftable, filealloc}
use os_projects.Xv6.File.Refs.{Allocs, filealloc_lem}
use os_projects.Xv6.Sysfile.{Sys, SysM, nofile, sys_dup, sys_close, sys_fstat, sys_pipe}
use os_projects.Xv6.Sysfile.Names.{sys_link, sys_unlink, sys_open, sys_mkdir, sys_mknod, sys_chdir}
use os_projects.Xv6.Sysfile.Names.Calls.{
  sys_link-Keeps, sys_unlink-Keeps, sys_mkdir-Keeps, sys_mknod-Keeps, sys_chdir-Keeps,
}
use os_projects.Xv6.Sysfile.Names.Opens.{sys_open-Keeps}
use os_projects.Xv6.Sysfile.Exec.{call_sys_exec, sys_sbrk}
use os_projects.Xv6.Sysfile.Exec.Keeping.{call_sys_exec-Keeps, sys_sbrk-Keeps}
use os_projects.Xv6.Sysfile.Descriptors.{sys_dup-Keeps, sys_close-Keeps, sys_fstat-Keeps}
use os_projects.Xv6.Sysfile.Pipes.{sys_pipe-Keeps}
use os_projects.Xv6.Sysfile.Rules.{names_file, held, Sound, Post, Keeps}

-- The calls of sysfile.c but the reads and writes, and `sbrk`.
pub data Call : Type 0 where
  call_pipe call_fstat call_chdir call_dup call_open call_mknod call_unlink call_link call_mkdir
        call_close call_exec call_sbrk :
      Call

-- Their places in the array `syscalls`.
unfoldable pub call_of : ℕ → Option Call
call_of num =
    if num == 4
    then some call_pipe
    else if num == 7
    then some call_exec
    else if num == 8
    then some call_fstat
    else if num == 9
    then some call_chdir
    else if num == 10
    then some call_dup
    else if num == 12
    then some call_sbrk
    else if num == 15
    then some call_open
    else if num == 17
    then some call_mknod
    else if num == 18
    then some call_unlink
    else if num == 19
    then some call_link
    else if num == 20
    then some call_mkdir
    else if num == 21
    then some call_close
    else none

module _ (dev_read : ℕ → Option (ℕ → ℕ → M Io)) (dev_write : ℕ → Option (ℕ → List ℕ → M Io))
    (data_addr pid : ℕ) where
  unfoldable pub run : Call → SysM (Option ℕ)
  run call_pipe = sys_pipe pid
  run call_fstat = sys_fstat pid
  run call_chdir = sys_chdir dev_read dev_write pid
  run call_dup = sys_dup
  run call_open = sys_open dev_read dev_write pid
  run call_mknod = sys_mknod dev_read dev_write pid
  run call_unlink = sys_unlink dev_read dev_write pid
  run call_link = sys_link dev_read dev_write pid
  run call_mkdir = sys_mkdir dev_read dev_write pid
  run call_close = sys_close pid
  run call_exec = call_sys_exec dev_read dev_write data_addr pid
  run call_sbrk = sys_sbrk

  -- The process computes, so that its memory and stack pointer are any, and makes the call `num`, which returns.
  pub data Step (s : Sys) : Sys → Type 0 where
    calls :
        (mem : ℕ → ℕ) (esp num : ℕ) (c : Call) (r : Option ℕ) (t : Sys)
        → call_of num ≡ some c
        → run c (record s { user = record s.user { mem = mem; esp = esp } }) ≡ done (r, t)
        → Step s t

  pub data Reach (s : Sys) : Sys → Type 0 where
    here : Reach s s
    later : {t u : Sys} → Reach s t → Step t u → Reach s u

  run-Keeps : (o : ℕ → ℕ) (n : ℕ) (c : Call) → Keeps o n (run c) o n
  unfolding run
  run-Keeps o n call_pipe = sys_pipe-Keeps pid o n
  run-Keeps o n call_fstat = sys_fstat-Keeps pid o n
  run-Keeps o n call_chdir = sys_chdir-Keeps dev_read dev_write pid o n
  run-Keeps o n call_dup = sys_dup-Keeps pid o n
  run-Keeps o n call_open = sys_open-Keeps dev_read dev_write pid o n
  run-Keeps o n call_mknod = sys_mknod-Keeps dev_read dev_write pid o n
  run-Keeps o n call_unlink = sys_unlink-Keeps dev_read dev_write pid o n
  run-Keeps o n call_link = sys_link-Keeps dev_read dev_write pid o n
  run-Keeps o n call_mkdir = sys_mkdir-Keeps dev_read dev_write pid o n
  run-Keeps o n call_close = sys_close-Keeps pid o n
  run-Keeps o n call_exec = call_sys_exec-Keeps dev_read dev_write data_addr pid o n
  run-Keeps o n call_sbrk = sys_sbrk-Keeps o n

  Step-Sound : (o : ℕ → ℕ) (n : ℕ) {s t : Sys} → Step s t → Sound o n s → Sound o n t
  Step-Sound o n {s} (calls mem esp num c r t e d) h =
      let start : Sys = record s { user = record s.user { mem = mem; esp = esp } } in
      subst (Post (λ (x : Option ℕ × Sys). Sound o n x.1)) d
        ((run-Keeps o n c).at start (record { counted = h.counted; balanced = h.balanced }))

  -- Whatever the calls that a process makes and that return, on their error paths too: the count of each file
  -- stays the number of descriptors of the process that name it and of the references that others have, which
  -- does not change, and the process has as many transactions open as at the start.
  pub Reach-Sound : (o : ℕ → ℕ) (n : ℕ) {s t : Sys} → Sound o n s → Reach s t → Sound o n t
  Reach-Sound o n h here = h
  Reach-Sound o n h (later p st) = Step-Sound o n st (Reach-Sound o n h p)

  held-names : (k fd f : ℕ) (O : ℕ → Option ℕ) → fd < k → O fd ≡ some f → 0 < held k O f
  held-names zero fd f O l e = absurd (omega arith)
  held-names (suc k) fd f O l e = elim (ℕ_discrete fd k) [
    | yes s ↦
        let q : O k ≡ some f = subst (λ i. O i ≡ some f) s e in
        subst (λ r. 0 < names_file r f + held k O f) (sym q) (ground arith)
    | no ne ↦ let ih = held-names k fd f O (omega arith) e in omega (arith, ih)
  ]

  -- On the way a file that a descriptor names is referenced, and `filealloc` does not hand it out again.
  pub Reach-IsReferenced :
      (o : ℕ → ℕ) (n : ℕ) {s t : Sys} (fd f : ℕ)
      → Sound o n s
      → Reach s t
      → fd < nofile
      → t.ofile fd ≡ some f
      → (0 < (t.files f).ref) × ((filealloc t.files).0 ≢ some f)
  Reach-IsReferenced o n {s} {t} fd f h p l e =
      let g = Reach-Sound o n h p in
      let pos = held-names nofile fd f t.ofile l e in
      let referenced : 0 < (t.files f).ref = omega (arith, g.counted f, pos) in
      (referenced, other (filealloc t.files) (filealloc_lem t.files) referenced)
    where
      other : (r : Option ℕ × Ftable) → Allocs t.files r → 0 < (t.files f).ref → r.0 ≢ some f
      other (none, u) a pos = λ q. absurd (ground arith)
      other (some i, u) (l, z, a, b) pos = λ q.
          let e : i ≡ f = ground arith in
          absurd (omega (arith, z, pos, ap (λ j. (t.files j).ref) e))
