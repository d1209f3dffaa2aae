-- ===== src/Xv6/Sysfile/Counts.antt =====
-- The references that a process holds by its descriptors, through the calls that move them.
use os_projects.Base.{
  ℕ, zero, suc, ◌+◌, ◌<◌, ◌≤◌, ◌≡◌, ◌≢◌, refl, ap, subst, ◌∙◌, fun_ext, Bool, true, false,
  if◌then◌else◌, Option, none, some, update, update_self, update_ne, arith, ℕ_discrete,
}
use os_projects.Xv6.Fs.{Res, done, panics, bind}
use os_projects.Xv6.Fs.Inodes.{iput}
use os_projects.Xv6.Kalloc.{Kmem, kfree}
use os_projects.Xv6.Pipe.{pipeclose}
use os_projects.Xv6.File.{
  File, FileType, fd_none, fd_pipe, fd_inode, Ftable, filealloc, Closed, fileclose,
}
use os_projects.Xv6.File.Counting.{one, Gains, Takes, Drops, filealloc-Takes, fileclose-Drops}
use os_projects.Xv6.Sysfile.{
  Sys, SysM, nofile, ◌>>=◌, ◌>>◌, pure, on_option, lift, begin_op, end_op, free_fd, fdalloc,
  clear_fd, close_pipe, release_file, close_file, alloc_file,
}
use os_projects.Xv6.Sysfile.Rules.{
  names_file, held, Sound, Post, Keeps, keeps_rules, Keeps-pure, Keeps-end_op,
}

-- With one reference to `f` in hand.
abbrev pub plus : ℕ → (ℕ → ℕ) → ℕ → ℕ
plus f o i = o i + one f i

pub plus-plus : (f g : ℕ) (o : ℕ → ℕ) → plus f (plus g o) ≡ plus g (plus f o)
plus-plus f g o = fun_ext λ i. omega arith

-- A change of one descriptor changes the counts of the file that it had and of that which it gets.
held-update :
    (k fd : ℕ) (O : ℕ → Option ℕ) (r : Option ℕ) (i : ℕ)
    → fd < k
    → held k (update O fd r) i + names_file (O fd) i ≡ held k O i + names_file r i
held-update zero fd O r i l = absurd (omega arith)
held-update (suc k) fd O r i l = elim (ℕ_discrete fd k) [
  | yes e ↦
      let same = held-above k fd O r i (omega arith) in
      let self : update O fd r k ≡ r = subst (λ m. update O fd r m ≡ r) e (update_self O fd r) in
      let old : O fd ≡ O k = ap O e in rw (self, same, old) (omega arith)
  | no ne ↦
      let other : update O fd r k ≡ O k = update_ne O fd k r ne in
      let ih = held-update k fd O r i (omega arith) in rw other (omega (arith, ih))
]
  where
    held-above :
        (k fd : ℕ) (O : ℕ → Option ℕ) (r : Option ℕ) (i : ℕ)
        → k ≤ fd
        → held k (update O fd r) i ≡ held k O i
    held-above zero fd O r i l = refl
    held-above (suc k) fd O r i l =
        let other : update O fd r k ≡ O k = update_ne O fd k r (omega arith) in
        rw (other, held-above k fd O r i (omega arith)) refl

-- A free descriptor gets a file.
pub held-given :
    (fd f : ℕ) (O : ℕ → Option ℕ) (i : ℕ)
    → fd < nofile
    → O fd ≡ none
    → held nofile (update O fd (some f)) i ≡ held nofile O i + one f i
held-given fd f O i l e =
    let c : held nofile (update O fd (some f)) i + 0 ≡ held nofile O i + one f i =
      subst (λ x. held nofile (update O fd (some f)) i + names_file x i ≡ held nofile O i + one f i)
        e (held-update nofile fd O (some f) i l) in
    omega (arith, c)

-- What the search of `fdalloc` finds.
abbrev pub Finds : ℕ → ℕ → (ℕ → Option ℕ) → Option ℕ → Type 0
Finds k a O none = (j : ℕ) → a ≤ j → j < a + k → O j ≢ none
Finds k a O (some fd) =
    (a ≤ fd) × (fd < a + k) × (O fd ≡ none) × ((j : ℕ) → a ≤ j → j < fd → O j ≢ none)

pub free_fd_lem : (k a : ℕ) (O : ℕ → Option ℕ) → Finds k a O (free_fd k a O)
unfolding free_fd
free_fd_lem zero a O = λ j l l'. absurd (omega arith)
free_fd_lem (suc k) a O = at (O a) refl (free_fd k (a + 1) O) (free_fd_lem k (a + 1) O)
  where
    first :
        (f j : ℕ) → O a ≡ some f → ((i : ℕ) → a + 1 ≤ i → i ≤ j → O i ≢ none) → a ≤ j → O j ≢ none
    first f j e h l = elim (ℕ_discrete a j) [
      | yes s ↦ λ z. let p : O a ≡ O j = ap O s in absurd (ground arith)
      | no ne ↦ h j (omega arith) (omega arith)
    ]

    at :
        (x : Option ℕ)
        → O a ≡ x
        → (r : Option ℕ) → Finds k (a + 1) O r
        → Finds (suc k) a O (elim x [ none ↦ some a | some f ↦ r ])
    at none e r h = (omega arith, omega arith, e, λ j l l'. absurd (omega arith))
    at (some f) e none h = λ j l l'. first f j e (λ i m m'. h i m (omega arith)) l
    at (some f) e (some fd) (l, l', z, h) =
        (omega arith, omega arith, z, λ j m m'. first f j e (λ i p p'. h i p (omega arith)) m)

module _ (o : ℕ → ℕ) (n : ℕ) where
  pub gained :
      (f : ℕ) (s : Sys) (t : Ftable)
      → Sound o n s
      → Gains f s.files t
      → Sound (plus f o) n (record s { files = t })
  gained f s t h g = record {
    counted = λ i. omega (arith, g i, h.counted i);
    balanced = h.balanced;
  }

  -- A file that is allocated is in hand.
  pub Keeps-alloc_then :
      {B : Type 0} (o' : ℕ → ℕ) (n' : ℕ) (m : SysM B) (k : ℕ → SysM B)
      → Keeps o n m o' n'
      → ((f : ℕ) → Keeps (plus f o) n (k f) o' n')
      → Keeps o n (alloc_file >>= (λ r. on_option r m k)) o' n'
  unfolding ◌>>=◌ alloc_file on_option
  Keeps-alloc_then {B} o' n' m k km kk = record {
    at = λ s h. at s h (filealloc s.files) (filealloc-Takes s.files);
  }
    where
      at :
          (s : Sys)
          → Sound o n s
          → (r : Option ℕ × Ftable) → Takes s.files r
          → Post (λ (x : B × Sys). Sound o' n' x.1) (on_option r.0 m k (record s { files = r.1 }))
      at s h (none, t) e =
          km.at (record s { files = t })
            (record {
              counted = λ i. ap (λ (u : Ftable). (u i).ref) e ∙ h.counted i;
              balanced = h.balanced;
            })
      at s h (some f, t) g = (kk f).at (record s { files = t }) (gained f s t h g)

  pub given :
      (f fd : ℕ) (s : Sys)
      → fd < nofile
      → s.ofile fd ≡ none
      → Sound (plus f o) n s
      → Sound o n (record s { ofile = update s.ofile fd (some f) })
  given f fd s l e h = record {
    counted = λ i. omega (arith, h.counted i, held-given fd f s.ofile i l e);
    balanced = h.balanced;
  }

  -- `fdalloc` takes the reference over from the caller.
  pub Keeps-fdalloc_then :
      {B : Type 0} (o' : ℕ → ℕ) (n' f : ℕ) (m : SysM B) (k : ℕ → SysM B)
      → Keeps (plus f o) n m o' n'
      → ((fd : ℕ) → Keeps o n (k fd) o' n')
      → Keeps (plus f o) n (fdalloc f >>= (λ r. on_option r m k)) o' n'
  unfolding ◌>>=◌ fdalloc on_option
  Keeps-fdalloc_then {B} o' n' f m k km kk = record {
    at = λ s h. at s h (free_fd nofile 0 s.ofile) (free_fd_lem nofile 0 s.ofile);
  }
    where
      at :
          (s : Sys)
          → Sound (plus f o) n s
          → (r : Option ℕ) → Finds nofile 0 s.ofile r
          → Post
              (λ (x : B × Sys). Sound o' n' x.1)
              (bind
                (elim r as (λ _. Res (Option ℕ × Sys)) [
                  | none ↦ done (none, s)
                  | some fd ↦ done (some fd, record s { ofile = update s.ofile fd (some f) })
                ])
                (λ (a, t). on_option a m k t))
      at s h none g = km.at s h
      at s h (some fd) (l, l', z, g) = (kk fd).at _ (given f fd s (omega arith) z h)

  -- A descriptor that is cleared leaves its reference in hand.
  pub clear_fd-Sound :
      (f fd : ℕ) (s : Sys)
      → fd < nofile
      → s.ofile fd ≡ some f
      → Sound o n s
      → Post (λ (x : Unit {0} × Sys). Sound (plus f o) n x.1) (clear_fd fd s)
  unfolding clear_fd
  clear_fd-Sound f fd s l e h = record {
    counted = λ i.
        let c : held nofile (update s.ofile fd none) i + one f i ≡ held nofile s.ofile i + 0 =
          subst
            (λ x.
              held nofile (update s.ofile fd none) i + names_file x i ≡ held nofile s.ofile i + 0)
            e (held-update nofile fd s.ofile none i l) in
        omega (arith, h.counted i, c);
    balanced = h.balanced;
  }

  close_pipe-Keeps : (p : ℕ) (w : Bool) → Keeps o n (close_pipe p w) o n
  unfolding close_pipe
  close_pipe-Keeps p w = record {
    at = λ s h. at s h (pipeclose w (s.pipes p)).freed (kfree p s.kmem);
  }
    where
      at :
          (s : Sys)
          → Sound o n s
          → (b : Bool) (r : Option Kmem)
          → let t : Sys = record s { pipes = update s.pipes p (pipeclose w (s.pipes p)) } in
            Post
              (λ (x : Unit {0} × Sys). Sound o n x.1)
              (if b
                then (elim r as (λ _. Res (Unit {0} × Sys)) [
                  | none ↦ panics
                  | some k ↦ done (tt, record t { kmem = k })
                ])
                else done (tt, t))
      at s h true none = tt
      at s h true (some k) = record { counted = h.counted; balanced = h.balanced }
      at s h false r = record { counted = h.counted; balanced = h.balanced }

  release_file-Keeps : (pid : ℕ) (ff : File) → Keeps o n (release_file pid ff) o n
  unfolding release_file
  release_file-Keeps pid ff = at ff.type
    where
      at :
          (t : FileType)
          → Keeps o n
              (elim t as (λ _. SysM (Unit {0})) [
                | fd_pipe ↦ close_pipe ff.pipe ff.writable
                | fd_inode ↦ (do begin_op; lift (iput pid ff.ip); end_op)
                | fd_none ↦ pure tt
              ])
              o
              n
      at fd_pipe = close_pipe-Keeps ff.pipe ff.writable
      at fd_inode = search (keeps_rules, Keeps-end_op)
      at fd_none = Keeps-pure o n tt

  -- `fileclose` of a reference in hand.
  pub close_file-Keeps : (pid f : ℕ) → Keeps (plus f o) n (close_file pid f) o n
  unfolding close_file
  close_file-Keeps pid f = record {
    at = λ s h. at s h (fileclose f s.files) (fileclose-Drops f s.files);
  }
    where
      lost :
          (s : Sys) (t : Ftable)
          → Sound (plus f o) n s
          → Gains f t s.files
          → Sound o n (record s { files = t })
      lost s t h g = record {
        counted = λ i. omega (arith, g i, h.counted i);
        balanced = h.balanced;
      }

      at :
          (s : Sys)
          → Sound (plus f o) n s
          → (r : Closed) → Drops f s.files r
          → Post
              (λ (x : Unit {0} × Sys). Sound o n x.1)
              (elim r as (λ _. Res (Unit {0} × Sys)) [
                | Closed.panics ↦ panics
                | Closed.still t ↦ done (tt, record s { files = t })
                | Closed.last ff t ↦ release_file pid ff (record s { files = t })
              ])
      at s h Closed.panics d = tt
      at s h (Closed.still t) d = lost s t h d
      at s h (Closed.last ff t) d =
          (release_file-Keeps pid ff).at (record s { files = t }) (lost s t h d)
