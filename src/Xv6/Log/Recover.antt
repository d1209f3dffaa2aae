-- ===== src/Xv6/Log/Recover.antt =====
-- `recover_from_log` and `initlog` after a crash.
use os_projects.Base.{
  ℕ, suc, ◌+◌, ◌≡◌, refl, ap, sym, ◌∙◌, subst, false, none, [], ◌∷◌, All, update, update_ne,
  update_self, arith,
}
use os_projects.Xv6.Log.{
  Log, Disk, Block, bread, bwrite, install_from, install_trans, read_head, write_head,
  recover_from_log, initlog,
}
use os_projects.Xv6.Log.Txn.{Txn, Outside, IsWellFormed, IsOld, IsCommitted, IsNew}
use os_projects.Xv6.Log.Install.{IsLoaded, install_from_lem}
use os_projects.Xv6.Log.Header.{header, header-zero, read_names}

-- The kernel's log before `initlog`, with an empty cache over the disk `d`.
unfoldable pub cold : Disk → Log
cold d = record {
  start = 0;
  size = 0;
  outstanding = 0;
  committing = false;
  n = 0;
  block = λ _. 0;
  disk = d;
  dirty = λ _. none;
  history = [];
  wakeups = 0;
}

-- A restart on the disk `d`, with recovery.
unfoldable pub reboot : Disk → Log
reboot d = initlog (cold d)

-- Where a disk stands between the old state and the new.
pub data Phase (t : Txn) (d : Disk) : Type 0 where
  old : IsOld t d → Phase t d
  committed : IsCommitted t d → Phase t d
  done : IsNew t d → Phase t d

-- With `n` zero, `write_head` empties the log and leaves all blocks outside of it.
pub write_head_empty :
    (s : Log) (start : ℕ)
    → s.start ≡ start
    → s.n ≡ 0
    → ((write_head s).disk start 0 ≡ 0)
      × ((b : ℕ) → Outside start b → (write_head s).disk b ≡ s.disk b)
      × ((write_head s).history ≡ s.disk ∷ s.history)
unfolding write_head bwrite
write_head_empty s start e z =
    let hd = header s.n s.block (bread s s.start) in
    (
      ap (λ c. update s.disk c hd start 0) e
          ∙ ap (λ (f : Block). f 0) (update_self s.disk start hd)
          ∙ header-zero s.n s.block (bread s s.start)
          ∙ z,
      λ b o. update_ne s.disk s.start b hd (omega (arith, e, o)),
      refl,
    )

module _ (t : Txn) (w : IsWellFormed t) (s : Log) (start_eq : s.start ≡ t.start)
    (clean : (b : ℕ) → s.dirty b ≡ none) where
  bread-clean : (b : ℕ) → bread s b ≡ s.disk b
  unfolding bread
  bread-clean b = rw (clean b, bread)

  -- An empty log changes nothing outside of it.
  pub recover_empty :
      s.disk t.start 0 ≡ 0
      → let r = recover_from_log s in
        (r.disk t.start 0 ≡ 0)
        × ((b : ℕ) → Outside t.start b → r.disk b ≡ s.disk b)
        × (r.history ≡ s.disk ∷ s.history)
  unfolding recover_from_log install_trans read_head install_from
  recover_empty z =
      let zero_n : bread s s.start 0 ≡ 0 =
        ap (λ (f : Block). f 0) (bread-clean s.start) ∙ ap (λ c. s.disk c 0) start_eq ∙ z in
      let m = read_head s in
      let none_in : install_from (bread s s.start 0) 0 m ≡ m =
        ap (λ k. install_from k 0 m) zero_n in
      let e : record m { n = 0 } ≡ record (install_from (bread s s.start 0) 0 m) { n = 0 } =
        ap (λ (u : Log). record u { n = 0 }) (sym none_in) in
      subst
        (λ (u : Log).
          ((write_head u).disk t.start 0 ≡ 0)
          × ((b : ℕ) → Outside t.start b → (write_head u).disk b ≡ s.disk b)
          × ((write_head u).history ≡ s.disk ∷ s.history))
        e (write_head_empty (record m { n = 0 }) t.start start_eq refl)

  read_head-IsLoaded : IsCommitted t s.disk → IsLoaded t w (read_head s)
  unfolding read_head
  read_head-IsLoaded c =
      let lh : bread s s.start ≡ s.disk t.start = bread-clean s.start ∙ ap s.disk start_eq in
      let count : bread s s.start 0 ≡ t.n = ap (λ (f : Block). f 0) lh ∙ c.head in
      record {
        start_eq = start_eq;
        n_eq = count;
        names_eq = λ i h.
            read_names (bread s s.start 0) s.block (bread s s.start) i (rw count h)
            ∙ ap (λ (f : Block). f (suc i)) lh
            ∙ c.names i h;
        clean = λ j h. clean (t.start + j);
      }

  -- A committed transaction comes home whole; every disk on the way is committed.
  pub recover_committed :
      (P : Disk → Type 0)
      → ((d : Disk) → IsCommitted t d → P d)
      → IsCommitted t s.disk
      → All P s.history
      → let r = recover_from_log s in IsNew t r.disk × All P r.history
  unfolding recover_from_log install_trans
  recover_committed P keep c h =
      let m = read_head s in
      let l = read_head-IsLoaded c in
      let (lr, cr, ir, hr) =
        install_from_lem t w P keep m.n 0 m (omega (arith, l.n_eq)) l (unfold read_head in c)
          (λ i lt. absurd (omega arith)) (unfold read_head in h) in
      let r = install_from m.n 0 m in
      let (z, same, hist) = write_head_empty (record r { n = 0 }) t.start lr.start_eq refl in
      (
        (z, (λ b o u. same b o ∙ cr.rest b o u), (λ i lt. same (t.ids i) (w.home i lt) ∙ ir i lt)),
        subst (λ hs. All P hs) (sym hist) (keep r.disk cr, hr),
      )
