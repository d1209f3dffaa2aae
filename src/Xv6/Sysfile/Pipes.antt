-- ===== src/Xv6/Sysfile/Pipes.antt =====
-- `pipealloc` and `sys_pipe` give back each reference that they took, or leave it to a descriptor.
use os_projects.Base.{
  ℕ, ◌+◌, ◌<◌, ◌≡◌, inl, inr, refl, ap, subst, ◌∙◌, true, false, ◌==◌, Option, none, some, update,
  update_self, Bool-cases, arith,
}
use os_projects.Memory.{write_bytes, bytes_of}
use os_projects.Xv6.Fs.{Res, done, bind}
use os_projects.Xv6.File.{File, fd_pipe, Ftable, filealloc}
use os_projects.Xv6.File.Counting.{Takes, filealloc-Takes}
use os_projects.Xv6.Sysfile.{
  Sys, SysM, nofile, ◌>>=◌, ◌>>◌, pure, on_option, store, free_fd, fdalloc, clear_fd, close_file,
  alloc_file, alloc_page, pipe_files, set_pipe, drop_pipe, pipealloc, pipe_fds, sys_pipe,
}
use os_projects.Xv6.Sysfile.Rules.{
  Sound, Post, Post-bind, Keeps, keeps_rules, Keeps-bind, Keeps-pure, Keeps-with_state,
  Keeps-on_option,
}
use os_projects.Xv6.Sysfile.Counts.{
  plus, plus-plus, Finds, free_fd_lem, gained, given, clear_fd-Sound, close_file-Keeps,
}
use os_projects.Xv6.Sysfile.Descriptors.{same_counts}

module _ (pid : ℕ) (o : ℕ → ℕ) (n : ℕ) where
  -- Both files are closed.
  drop_pipe-Keeps :
      {A : Type 0} (rf wf : ℕ) → Keeps (plus wf (plus rf o)) n (drop_pipe {A = A} pid rf wf) o n
  unfolding drop_pipe
  drop_pipe-Keeps {A} rf wf =
      subst (λ q. Keeps q n (drop_pipe {A = A} pid rf wf) o n) (plus-plus rf wf o)
        (Keeps-bind (plus rf (plus wf o)) n (plus wf o) n o n (close_file pid rf) _
          (close_file-Keeps (plus wf o) n pid rf)
          (λ _.
            Keeps-bind (plus wf o) n o n o n (close_file pid wf) _ (close_file-Keeps o n pid wf)
              (λ _. Keeps-pure o n none)))

  drop_one-Keeps :
      {A : Type 0} (f : ℕ) → Keeps (plus f o) n (close_file pid f >> pure {A = Option A} none) o n
  drop_one-Keeps f =
      Keeps-bind (plus f o) n o n o n (close_file pid f) (λ _. pure none)
        (close_file-Keeps o n pid f) (λ _. Keeps-pure o n none)

-- The two references that `pipealloc` returns.
abbrev pub Allocated : (ℕ → ℕ) → ℕ → Option (ℕ × ℕ) × Sys → Type 0
Allocated o n (none, s) = Sound o n s
Allocated o n (some (rf, wf), s) = Sound (plus wf (plus rf o)) n s

module _ (pid : ℕ) (o : ℕ → ℕ) (n : ℕ) where
  closed :
      (f : ℕ) (s : Sys)
      → Sound (plus f o) n s
      → Post (Allocated o n) ((close_file pid f >> pure none) s)
  unfolding ◌>>=◌ pure
  closed f s h =
      Post-bind (λ (x : Unit {0} × Sys). Sound o n x.1) (Allocated o n) (close_file pid f s)
        (λ (_, t). done (none, t)) ((close_file-Keeps o n pid f).at s h) (λ (_, t) h'. h')

  both_closed :
      (rf wf : ℕ) (s : Sys)
      → Sound (plus wf (plus rf o)) n s
      → Post (Allocated o n) (drop_pipe pid rf wf s)
  unfolding drop_pipe ◌>>=◌
  both_closed rf wf s h =
      let h' = subst (λ q. Sound q n s) (plus-plus wf rf o) h in
      Post-bind (λ (x : Unit {0} × Sys). Sound (plus wf o) n x.1) (Allocated o n)
        (close_file pid rf s) (λ (_, t). (close_file pid wf >> pure none) t)
        ((close_file-Keeps (plus wf o) n pid rf).at s h') (λ (_, t) g. closed wf t g)

  set_up :
      (rf wf p : ℕ) (s : Sys)
      → Sound (plus wf (plus rf o)) n s
      → Post (Allocated o n) (set_pipe pid rf wf p s)
  unfolding set_pipe pipe_files ◌>>=◌ pure
  set_up rf wf p s h = elim (Bool-cases (p == 0)) [
    | inl t ↦ rw t (both_closed rf wf s h)
    | inr t ↦ rw t (record { counted = λ i. kept i ∙ h.counted i; balanced = h.balanced })
  ]
    where
      r : File
      r = record (s.files rf) { type = fd_pipe; readable = true; writable = false; pipe = p }

      t0 : Ftable
      t0 = update s.files rf r

      kept :
          (i : ℕ)
          → (update t0 wf
              (record (t0 wf) { type = fd_pipe; readable = false; writable = true; pipe = p })
              i).ref
            ≡ (s.files i).ref
      kept i = same_counts t0 wf _ refl i ∙ same_counts s.files rf r refl i

  pipealloc-Allocated : (s : Sys) → Sound o n s → Post (Allocated o n) (pipealloc pid s)
  unfolding pipealloc ◌>>=◌ alloc_file on_option alloc_page pure
  pipealloc-Allocated s h = first (filealloc s.files) (filealloc-Takes s.files)
    where
      second :
          (f0 : ℕ) (t : Sys)
          → Sound (plus f0 o) n t
          → (r : Option ℕ × Ftable) → Takes t.files r
          → Post (Allocated o n) (
              on_option r.0
                (do close_file pid f0; pure none)
                (λ f1. do p ← alloc_page; set_pipe pid f0 f1 p)
                (record t { files = r.1 }))
      second f0 t g (none, u) e = closed f0 _ (record {
        counted = λ i. ap (λ (v : Ftable). (v i).ref) e ∙ g.counted i;
        balanced = g.balanced;
      })
      second f0 t g (some f1, u) e =
          let g' = gained (plus f0 o) n f1 t u g e in
          set_up f0 f1 _ _ (record { counted = g'.counted; balanced = g'.balanced })

      first :
          (r : Option ℕ × Ftable)
          → Takes s.files r
          → Post (Allocated o n) (
              on_option r.0
                (pure none)
                (λ f0. do
                  r1 ← alloc_file
                  on_option r1
                      (do close_file pid f0; pure none)
                      (λ f1. do p ← alloc_page; set_pipe pid f0 f1 p))
                (record s { files = r.1 }))
      first (none, t) e = record {
        counted = λ i. ap (λ (v : Ftable). (v i).ref) e ∙ h.counted i;
        balanced = h.balanced;
      }
      first (some f0, t) g = second f0 _ (gained o n f0 s t h g) (filealloc t) (filealloc-Takes t)

  -- Back out of a descriptor for the reading end.
  cleared-Post :
      (rf wf fd : ℕ) (s : Sys)
      → fd < nofile
      → s.ofile fd ≡ some rf
      → Sound (plus wf o) n s
      → Post (λ (x : Option ℕ × Sys). Sound o n x.1) ((clear_fd fd >> drop_pipe pid rf wf) s)
  unfolding ◌>>=◌
  cleared-Post rf wf fd s l e h =
      let back =
        subst (λ q. Post (λ (x : Unit {0} × Sys). Sound q n x.1) (clear_fd fd s))
          (plus-plus rf wf o) (clear_fd-Sound (plus wf o) n rf fd s l e h) in
      Post-bind (λ (x : Unit {0} × Sys). Sound (plus wf (plus rf o)) n x.1)
        (λ (x : Option ℕ × Sys). Sound o n x.1) (clear_fd fd s) (λ (_, t). drop_pipe pid rf wf t)
        back (λ (_, t) g. (drop_pipe-Keeps pid o n rf wf).at t g)

  abbrev written : ℕ → ℕ → ℕ → SysM (Option ℕ)
  written a fd0 fd1 = do
    store (λ m. write_bytes m a (bytes_of fd0))
    store (λ m. write_bytes m (a + 4) (bytes_of fd1))
    pure (some 0)

  pipe_fds-Keeps : (rf wf a : ℕ) → Keeps (plus wf (plus rf o)) n (pipe_fds pid rf wf a) o n
  unfolding pipe_fds ◌>>=◌ fdalloc on_option
  pipe_fds-Keeps rf wf a = record {
    at = λ s h. first s h (free_fd nofile 0 s.ofile) (free_fd_lem nofile 0 s.ofile);
  }
    where
      second :
          (fd0 : ℕ) (s : Sys)
          → fd0 < nofile
          → s.ofile fd0 ≡ some rf
          → Sound (plus wf o) n s
          → (r : Option ℕ) → Finds nofile 0 s.ofile r
          → Post
              (λ (x : Option ℕ × Sys). Sound o n x.1)
              (bind
                (elim r as (λ _. Res (Option ℕ × Sys)) [
                  | none ↦ done (none, s)
                  | some fd ↦ done (some fd, record s { ofile = update s.ofile fd (some wf) })
                ])
                (λ (b, t). on_option b (clear_fd fd0 >> drop_pipe pid rf wf) (written a fd0) t))
      second fd0 s l e h none g = cleared-Post rf wf fd0 s l e h
      second fd0 s l e h (some fd1) (m, m', z, g) =
          let k : Keeps o n (written a fd0 fd1) o n = search (keeps_rules) depth 6 in
          k.at _ (given o n wf fd1 s (omega arith) z h)

      first :
          (s : Sys)
          → Sound (plus wf (plus rf o)) n s
          → (r : Option ℕ) → Finds nofile 0 s.ofile r
          → Post
              (λ (x : Option ℕ × Sys). Sound o n x.1)
              (bind
                (elim r as (λ _. Res (Option ℕ × Sys)) [
                  | none ↦ done (none, s)
                  | some fd ↦ done (some fd, record s { ofile = update s.ofile fd (some rf) })
                ])
                (λ (b, t).
                  on_option b
                    (drop_pipe pid rf wf)
                    (λ fd0. do
                      r1 ← fdalloc wf
                      on_option r1 (clear_fd fd0 >> drop_pipe pid rf wf) (written a fd0))
                    t))
      first s h none g = (drop_pipe-Keeps pid o n rf wf).at s h
      first s h (some fd0) (l, l', z, g) =
          let t : Sys = record s { ofile = update s.ofile fd0 (some rf) } in
          let h' = subst (λ q. Sound q n s) (plus-plus wf rf o) h in
          second fd0 t (omega arith) (update_self s.ofile fd0 (some rf))
            (given (plus wf o) n rf fd0 s (omega arith) z h') (free_fd nofile 0 t.ofile)
            (free_fd_lem nofile 0 t.ofile)

  pub sys_pipe-Keeps : Keeps o n (sys_pipe pid) o n
  unfolding sys_pipe ◌>>=◌ on_option pure
  sys_pipe-Keeps =
      Keeps-with_state o n o n _ (λ s. Keeps-on_option o n o n _ _ _ (Keeps-pure o n none) at)
    where
      rest :
          (a : ℕ) (r : Option (ℕ × ℕ)) (t : Sys)
          → Allocated o n (r, t)
          → Post
              (λ (x : Option ℕ × Sys). Sound o n x.1)
              (on_option r (pure none) (λ (rf, wf). pipe_fds pid rf wf a) t)
      rest a none t h = h
      rest a (some (rf, wf)) t h = (pipe_fds-Keeps rf wf a).at t h

      at :
          (a : ℕ)
          → Keeps o n
              (pipealloc pid >>= (λ r. on_option r (pure none) (λ (rf, wf). pipe_fds pid rf wf a)))
              o
              n
      at a = record {
        at = λ s h.
            Post-bind (Allocated o n) (λ (x : Option ℕ × Sys). Sound o n x.1) (pipealloc pid s) _
              (pipealloc-Allocated s h) (λ (r, t) g. rest a r t g);
      }
