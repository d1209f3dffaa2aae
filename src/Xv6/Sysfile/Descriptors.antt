-- ===== src/Xv6/Sysfile/Descriptors.antt =====
-- The calls on descriptors keep the references counted, on each way out.
use os_projects.Base.{
  ℕ, ◌<◌, ◌≡◌, inl, inr, refl, ap, ◌∙◌, ◌==◌, leb, if◌then◌else◌, Option, none, some, update,
  Bool-cases, arith,
}
use os_projects.Xv6.Fs.{Res, done, panics, bind}
use os_projects.Xv6.File.{File, FileType, fd_none, fd_pipe, fd_inode, Ftable, filedup}
use os_projects.Xv6.File.Counting.{Dups, filedup-Dups}
use os_projects.Xv6.Syscall.{argint}
use os_projects.Xv6.Fs.Inodes.{ilock, iunlock}
use os_projects.Xv6.Fs.Files.{stati}
use os_projects.Xv6.Sysfile.{
  Sys, SysM, nofile, ◌>>=◌, ◌>>◌, pure, with_state, on_option, lift, store, put_stat, argfd,
  free_fd, fdalloc, clear_fd, dup_file, close_file, sys_dup, sys_close, sys_fstat, filestat,
}
use os_projects.Xv6.Sysfile.Rules.{
  Sound, Post, Post-bind, Keeps, keeps_rules, Keeps-bind, Keeps-pure,
}
use os_projects.Xv6.Sysfile.Counts.{
  plus, held-given, Finds, free_fd_lem, clear_fd-Sound, close_file-Keeps,
}

abbrev IsOpen : Sys → Option (ℕ × ℕ) → Type 0
IsOpen s none = Unit
IsOpen s (some (fd, f)) = (fd < nofile) × (s.ofile fd ≡ some f)

argfd-IsOpen : (n : ℕ) (s : Sys) → IsOpen s (argfd n s)
unfolding argfd
argfd-IsOpen n s = number (argint n s.user)
  where
    file :
        (fd : ℕ) (r : Option ℕ)
        → s.ofile fd ≡ r
        → fd < nofile
        → IsOpen s (elim r [ none ↦ none | some f ↦ some (fd, f) ])
    file fd none e l = tt
    file fd (some f) e l = (l, e)

    number :
        (r : Option ℕ)
        → IsOpen s (elim r as (λ _. Option (ℕ × ℕ)) [
          | none ↦ none
          | some fd ↦
              if leb nofile fd
              then none
              else (elim (s.ofile fd) [ none ↦ none | some f ↦ some (fd, f) ])
        ])
    number none = tt
    number (some fd) = elim (Bool-cases (leb nofile fd)) [
      | inl t ↦ rw t tt
      | inr t ↦ rw t (file fd (s.ofile fd) refl (ground arith))
    ]

-- A write to an entry of the table that keeps its count keeps every count.
pub same_counts :
    (t : Ftable) (f : ℕ) (x : File) → x.ref ≡ (t f).ref → (i : ℕ) → (update t f x i).ref ≡ (t i).ref
same_counts t f x e i = elim (Bool-cases (f == i)) [
  | inl b ↦ let s : f ≡ i = ground arith in rw b (e ∙ ap (λ k. (t k).ref) s)
  | inr b ↦ rw b refl
]

module _ (pid : ℕ) (o : ℕ → ℕ) (n : ℕ) where
  close_then : (f : ℕ) → Keeps (plus f o) n (close_file pid f >> pure {A = Option ℕ} (some 0)) o n
  close_then f =
      Keeps-bind (plus f o) n o n o n (close_file pid f) (λ _. pure (some 0))
        (close_file-Keeps o n pid f) (λ _. Keeps-pure o n (some 0))

  pub sys_close-Keeps : Keeps o n (sys_close pid) o n
  unfolding sys_close with_state on_option ◌>>=◌ pure
  sys_close-Keeps = record { at = λ s h. at s h (argfd 0 s) (argfd-IsOpen 0 s) }
    where
      at :
          (s : Sys)
          → Sound o n s
          → (r : Option (ℕ × ℕ)) → IsOpen s r
          → Post
              (λ (x : Option ℕ × Sys). Sound o n x.1)
              (on_option r
                (pure none)
                (λ (fd, f). clear_fd fd >> (close_file pid f >> pure (some 0)))
                s)
      at s h none i = h
      at s h (some (fd, f)) (l, e) =
          Post-bind (λ (x : Unit {0} × Sys). Sound (plus f o) n x.1)
            (λ (x : Option ℕ × Sys). Sound o n x.1) (clear_fd fd s)
            (λ (_, t). (close_file pid f >> pure (some 0)) t) (clear_fd-Sound o n f fd s l e h)
            (λ (_, t) h'. (close_then f).at t h')

  pub sys_dup-Keeps : Keeps o n sys_dup o n
  unfolding sys_dup with_state on_option ◌>>=◌ pure fdalloc dup_file
  sys_dup-Keeps = record { at = λ s h. at s h (argfd 0 s) }
    where
      copied :
          (s : Sys) (f fd : ℕ)
          → Sound o n s
          → fd < nofile
          → s.ofile fd ≡ none
          → (r : Option Ftable) → Dups f s.files r
          → let t : Sys = record s { ofile = update s.ofile fd (some f) } in
            Post
              (λ (x : Option ℕ × Sys). Sound o n x.1)
              (bind
                (elim r as (λ _. Res (Unit {0} × Sys)) [
                  | none ↦ panics
                  | some u ↦ done (tt, record t { files = u })
                ])
                (λ (_, v). done (some fd, v)))
      copied s f fd h l e none d = tt
      copied s f fd h l e (some u) g = record {
        counted = λ i. omega (arith, h.counted i, g i, held-given fd f s.ofile i l e);
        balanced = h.balanced;
      }

      found :
          (s : Sys) (f : ℕ)
          → Sound o n s
          → (r : Option ℕ) → Finds nofile 0 s.ofile r
          → Post
              (λ (x : Option ℕ × Sys). Sound o n x.1)
              (bind
                (elim r as (λ _. Res (Option ℕ × Sys)) [
                  | none ↦ done (none, s)
                  | some fd ↦ done (some fd, record s { ofile = update s.ofile fd (some f) })
                ])
                (λ (a, t). on_option a (pure none) (λ fd'. dup_file f >> pure (some fd')) t))
      found s f h none g = h
      found s f h (some fd) (l, l', z, g) =
          copied s f fd h (omega arith) z (filedup f s.files) (filedup-Dups f s.files)

      at :
          (s : Sys)
          → Sound o n s
          → (r : Option (ℕ × ℕ))
          → Post
              (λ (x : Option ℕ × Sys). Sound o n x.1)
              (on_option r
                (pure none)
                (λ (fd, f). do
                  r' ← fdalloc f
                  on_option r' (pure none) (λ fd'. do dup_file f; pure (some fd')))
                s)
      at s h none = h
      at s h (some (fd, f)) = found s f h (free_fd nofile 0 s.ofile) (free_fd_lem nofile 0 s.ofile)

  filestat-Keeps : (f : File) (a : ℕ) → Keeps o n (filestat pid f a) o n
  unfolding filestat
  filestat-Keeps f a = at f.type
    where
      at :
          (t : FileType)
          → Keeps o n
              (elim t as (λ _. SysM (Option ℕ)) [
                | fd_inode ↦ (do
                  lift (ilock pid f.ip)
                  st ← lift (λ g. done (stati f.ip g, g))
                  store (put_stat a st)
                  lift (iunlock pid f.ip)
                  pure (some 0))
                | fd_pipe ↦ pure none
                | fd_none ↦ pure none
              ])
              o
              n
      at fd_inode = search keeps_rules depth 10
      at fd_pipe = Keeps-pure o n none
      at fd_none = Keeps-pure o n none

  pub sys_fstat-Keeps : Keeps o n (sys_fstat pid) o n
  unfolding sys_fstat
  sys_fstat-Keeps = search (keeps_rules, filestat-Keeps) depth 10
