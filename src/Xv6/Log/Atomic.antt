-- ===== src/Xv6/Log/Atomic.antt =====
-- Crashes: at any write of `commit`, and at any write of the recovery after it.
use os_projects.Base.{
  ℕ, zero, suc, ◌+◌, ◌≤◌, ◌<◌, ◌≡◌, ◌≢◌, ◌⊎◌, inl, inr, refl, ap, sym, ◌∙◌, subst, Bool, true,
  false, ◌==◌, if◌then◌else◌, none, List, [], ◌∷◌, All, update, update_ne, update_self, Bool-cases,
  ==_iff, arith, dec_lt, ◌||◌, lt→ltb,
}
use os_projects.Xv6.Log.{
  Log, Disk, Block, logsize, bread, bwrite, install_from, install_trans, write_log, write_log_from,
  write_head, recover_from_log, initlog, commit,
}
use os_projects.Xv6.Log.Txn.{
  Txn, Outside, Unlogged, IsWellFormed, Logs, IsOld, IsCommitted, IsNew, Throughout,
}
use os_projects.Xv6.Log.Install.{IsLoaded, IsLoaded-bwrite, install_from_lem}
use os_projects.Xv6.Log.Append.{write_log_from_lem}
use os_projects.Xv6.Log.Header.{header, header-zero, header-suc}
use os_projects.Xv6.Log.Recover.{
  Phase, old, committed, done, cold, reboot, write_head_empty, recover_empty, recover_committed,
}

-- The transaction that the log in memory holds.
abbrev pub txn : Log → Txn
txn s = record {
  start = s.start;
  n = s.n;
  ids = s.block;
  content = λ i. bread s (s.block i);
  base = s.disk;
}

-- The super block names the start of the log, and lies outside of it and of the transaction.
abbrev pub HasSuper : Txn → Type 0
HasSuper t = (t.base 1 4 ≡ t.start) × Outside t.start 1 × Unlogged t 1

-- What `commit` needs of its caller: an empty log on the disk, and no dirty block of the log.
pub record CanCommit (s : Log) : Type 0 where
  pub well_formed : IsWellFormed (txn s)
  pub empty : s.disk s.start 0 ≡ 0
  pub clean : (j : ℕ) → j ≤ logsize → s.dirty (s.start + j) ≡ none

-- The disk on which every block of the transaction, and no other, has what the cache holds.
is_logged : ℕ → (ℕ → ℕ) → ℕ → Bool
is_logged zero ids b = false
is_logged (suc k) ids b = ids k == b || is_logged k ids b

pub after : Log → Disk
after s b = if is_logged s.n s.block b then bread s b else s.disk b

is_logged-true :
    (k : ℕ) (ids : ℕ → ℕ) (b : ℕ) → is_logged k ids b ≡ true → (i : ℕ) × (i < k) × (ids i ≡ b)
unfolding is_logged
is_logged-true zero ids b h = absurd (ground arith)
is_logged-true (suc k) ids b h = elim (Bool-cases (ids k == b)) [
  | inl e ↦ (k, omega arith, (==_iff (ids k) b).0 e)
  | inr e ↦ let (i, lt, q) = is_logged-true k ids b (ground arith) in (i, omega arith, q)
]

is_logged-false :
    (k : ℕ) (ids : ℕ → ℕ) (b : ℕ) → is_logged k ids b ≡ false → (i : ℕ) → i < k → ids i ≢ b
unfolding is_logged
is_logged-false zero ids b h i lt = elim lt [ ]
is_logged-false (suc k) ids b h i lt = elim (dec_lt i k) [
  | yes below ↦ is_logged-false k ids b (ground arith) i below
  | no last ↦ let e : i ≡ k = omega arith in subst (λ m. ids m ≢ b) (sym e) (ground arith)
]

IsNew-after : (s : Log) (d : Disk) → IsNew (txn s) d → (b : ℕ) → Outside s.start b → d b ≡ after s b
unfolding after
IsNew-after s d (z, rest, inst) b o = elim (Bool-cases (is_logged s.n s.block b)) [
  | inl e ↦
      let (i, lt, q) = is_logged-true s.n s.block b e in
      rw e (ap d (sym q) ∙ inst i lt ∙ ap (bread s) q)
  | inr e ↦ rw e (rest b o (is_logged-false s.n s.block b e))
]

-- Recovery on a disk of any phase ends with the old blocks or with the new ones, outside of the log.
abbrev pub Ends : Log → Disk → Type 0
Ends s r =
    ((b : ℕ) → Outside s.start b → r b ≡ s.disk b) ⊎ ((b : ℕ) → Outside s.start b → r b ≡ after s b)

super_of_Phase : (t : Txn) (d : Disk) → HasSuper t → Phase t d → d 1 4 ≡ t.start
super_of_Phase t d (e, o, u) (old (z, r)) = ap (λ (f : Block). f 4) (r 1 o) ∙ e
super_of_Phase t d (e, o, u) (committed c) = ap (λ (f : Block). f 4) (c.rest 1 o u) ∙ e
super_of_Phase t d (e, o, u) (done (z, r, i)) = ap (λ (f : Block). f 4) (r 1 o u) ∙ e

-- What a restart does in each phase: the phase that it ends in, and those of the disks on the way.
abbrev Restarts : Txn → Disk → Log → Type 0
Restarts t d r =
    (IsOld t d × IsOld t r.disk ⊎ (IsCommitted t d ⊎ IsNew t d) × IsNew t r.disk)
    × Throughout (Phase t) r

-- The state in which `initlog` calls `recover_from_log`.
abbrev loaded : Disk → Log
loaded d = record (cold d) { start = d 1 4; size = d 1 3 }

-- On a new disk recovery changes nothing outside the log.
restart_done :
    (t : Txn)
    → IsWellFormed t
    → (d : Disk) → d 1 4 ≡ t.start
    → IsNew t d
    → IsNew t (recover_from_log (loaded d)).disk
unfolding cold
restart_done t w d e (z, r, i) =
    let (z', same, hist) = recover_empty t w (loaded d) e (λ b. refl) z in
    (z', (λ b o u. same b o ∙ r b o u), (λ k lt. same (t.ids k) (w.home k lt) ∙ i k lt))

restart :
    (t : Txn)
    → IsWellFormed t
    → (d : Disk) → d 1 4 ≡ t.start
    → Phase t d
    → Restarts t d (recover_from_log (loaded d))
unfolding cold
restart t w d e (old (z, r)) =
    let (z', same, hist) = recover_empty t w (loaded d) e (λ b. refl) z in
    let after_old : IsOld t (recover_from_log (loaded d)).disk = (z', λ b o. same b o ∙ r b o) in
    (
      inl ((z, r), after_old),
      (old after_old, subst (λ hs. All (Phase t) hs) (sym hist) (old (z, r), tt)),
    )
restart t w d e (committed c) =
    let (new, hist) =
      recover_committed t w (loaded d) e (λ b. refl) (Phase t) (λ x p. committed p) c tt in
    (inr (inl c, new), (done new, hist))
restart t w d e (done (z, r, i)) =
    let (z', same, hist) = recover_empty t w (loaded d) e (λ b. refl) z in
    let after_new = restart_done t w d e (z, r, i) in
    (
      inr (inr (z, r, i), after_new),
      (done after_new, subst (λ hs. All (Phase t) hs) (sym hist) (done (z, r, i), tt)),
    )

initlog-cold : (d : Disk) → initlog (cold d) ≡ recover_from_log (loaded d)
unfolding initlog bread cold
initlog-cold d = refl

reboot-Restarts :
    (t : Txn) → IsWellFormed t → HasSuper t → (d : Disk) → Phase t d → Restarts t d (reboot d)
unfolding reboot
reboot-Restarts t w h d p =
    subst (Restarts t d) (sym (initlog-cold d)) (restart t w d (super_of_Phase t d h p) p)

-- The header that `commit` writes after the log makes the transaction committed.
commit_header :
    (t : Txn) (w : IsWellFormed t) (s : Log)
    → IsLoaded t w s
    → IsOld t s.disk
    → Logs t t.n s.disk
    → IsCommitted t (write_head s).disk
unfolding write_head bwrite
commit_header t w s l (z, r) logs =
    let hd = header s.n s.block (bread s s.start) in
    let here : update s.disk s.start hd t.start ≡ hd =
      ap (update s.disk s.start hd) (sym l.start_eq) ∙ update_self s.disk s.start hd in
    record {
      head = ap (λ (f : Block). f 0) here ∙ header-zero s.n s.block (bread s s.start) ∙ l.n_eq;
      names = λ i h.
          ap (λ (f : Block). f (suc i)) here
          ∙ header-suc s.n s.block (bread s s.start) i (omega (arith, l.n_eq))
          ∙ l.names_eq i h;
      logs = λ i h.
          update_ne s.disk s.start (t.start + i + 1) hd (omega (arith, l.start_eq)) ∙ logs i h;
      rest = λ b o u. update_ne s.disk s.start b hd (omega (arith, l.start_eq)) ∙ r b o;
    }

-- Each disk of a commit is in some phase, and the last one is new.
commit_phases :
    (s : Log)
    → CanCommit s
    → 0 < s.n
    → s.history ≡ []
    → Throughout (Phase (txn s)) (commit s) × IsNew (txn s) (commit s).disk
unfolding commit write_log install_trans
commit_phases s c pos hist =
    let t = txn s in
    let w = c.well_formed in
    let start_log : IsLoaded t w s = record {
      start_eq = refl;
      n_eq = refl;
      names_eq = λ i h. refl;
      clean = c.clean;
    } in
    let (l1, o1, g1, h1) =
      write_log_from_lem t w (Phase t) (λ d p. old p) s.n 0 s (omega arith) start_log
        (c.empty, λ b o. refl) (λ i h. refl) (λ i lt. absurd (omega arith))
        (subst (λ hs. All (Phase t) hs) (sym hist) tt) in
    let s1 = write_log_from s.n 0 s in
    let c2 = commit_header t w s1 l1 o1 g1 in
    let s2 = write_head s1 in
    let l2 : IsLoaded t w s2 = unfold write_head in IsLoaded-bwrite t w s1 _ _ l1 in
    let h2 : All (Phase t) s2.history = unfold write_head bwrite in (old o1, h1) in
    let (l3, c3, i3, h3) =
      install_from_lem t w (Phase t) (λ d p. committed p) s2.n 0 s2 (omega (arith, l2.n_eq)) l2 c2
        (λ i lt. absurd (omega arith)) h2 in
    let s3 = install_from s2.n 0 s2 in
    let (z, same, hs) = write_head_empty (record s3 { n = 0 }) t.start l3.start_eq refl in
    let new : IsNew t (write_head (record s3 { n = 0 })).disk =
      (z, (λ b o u. same b o ∙ c3.rest b o u), (λ i lt. same (t.ids i) (w.home i lt) ∙ i3 i lt)) in
    rw (lt→ltb 0 s.n pos)
      ((done new, subst (λ h. All (Phase t) h) (sym hs) (committed c3, h3)), new)

All-map : (P Q : Disk → Type 0) → ((d : Disk) → P d → Q d) → (ds : List Disk) → All P ds → All Q ds
All-map P Q f [] a = tt
All-map P Q f (d ∷ ds) a = (f d a.0, All-map P Q f ds a.1)

Phase-Ends :
    (s : Log)
    → CanCommit s
    → HasSuper (txn s)
    → (d : Disk) → Phase (txn s) d
    → Ends s (reboot d).disk
Phase-Ends s c h d p = elim ((reboot-Restarts (txn s) c.well_formed h d p).0) [
  | inl (o, (z, same)) ↦ inl same
  | inr (before, new) ↦ inr (IsNew-after s (reboot d).disk new)
]

-- If the machine stops before or after any disk write of a commit, the restart leaves the blocks
-- outside the log as they were before the commit, or as the whole transaction makes them.
pub commit_atomic :
    (s : Log)
    → CanCommit s
    → HasSuper (txn s)
    → 0 < s.n
    → s.history ≡ []
    → Throughout (λ d. Ends s (reboot d).disk) (commit s)
commit_atomic s c h pos e =
    let ((last, before), new) = commit_phases s c pos e in
    (
      Phase-Ends s c h (commit s).disk last,
      All-map (Phase (txn s)) (λ d. Ends s (reboot d).disk) (Phase-Ends s c h) (commit s).history
          before,
    )

-- A commit that is not interrupted puts every block of the transaction home, changes no other block
-- outside the log, and leaves an empty log on the disk.
pub commit_lem :
    (s : Log)
    → CanCommit s
    → 0 < s.n
    → s.history ≡ []
    → ((b : ℕ) → Outside s.start b → (commit s).disk b ≡ after s b)
      × ((commit s).disk s.start 0 ≡ 0)
commit_lem s c pos e =
    let (phases, new) = commit_phases s c pos e in (IsNew-after s (commit s).disk new, new.0)

-- On a committed disk the restart ends new, and each disk on the way is committed or new.
IsCommitted-restart :
    (t : Txn)
    → IsWellFormed t
    → HasSuper t
    → (d : Disk) → IsCommitted t d
    → Throughout (λ e. IsCommitted t e ⊎ IsNew t e) (reboot d)
unfolding reboot
IsCommitted-restart t w h d c =
    let (new, before) =
      recover_committed t w (loaded d) (super_of_Phase t d h (committed c))
        (λ b. unfold cold in refl) (λ e. IsCommitted t e ⊎ IsNew t e) (λ e p. inl p)
        (unfold cold in c) (unfold cold in tt) in
    rw (initlog-cold d) (inr new, before)

late_restart :
    (t : Txn)
    → IsWellFormed t
    → HasSuper t
    → (e : Disk) → IsCommitted t e ⊎ IsNew t e
    → IsNew t (reboot e).disk
unfolding reboot
late_restart t w h e (inl p) =
    rw (initlog-cold e)
      (recover_committed t w (loaded e) (super_of_Phase t e h (committed p))
        (λ b. unfold cold in refl) (Phase t) (λ x q. committed q) (unfold cold in p)
        (unfold cold in tt)).0
late_restart t w h e (inr p) =
    rw (initlog-cold e) (restart_done t w e (super_of_Phase t e h (done p)) p)

late-after :
    (s : Log)
    → CanCommit s
    → HasSuper (txn s)
    → (e : Disk) → IsCommitted (txn s) e ⊎ IsNew (txn s) e
    → (b : ℕ) → Outside s.start b
    → (reboot e).disk b ≡ after s b
late-after s c h e p = IsNew-after s (reboot e).disk (late_restart (txn s) c.well_formed h e p)

-- Once the log on a disk holds the whole transaction, recovery itself may be stopped before or after
-- any of its writes: the restart after that leaves every block outside the log as the transaction
-- makes it.
pub recovery_restarts :
    (s : Log)
    → CanCommit s
    → HasSuper (txn s)
    → (d : Disk) → IsCommitted (txn s) d
    → Throughout (λ e. (b : ℕ) → Outside s.start b → (reboot e).disk b ≡ after s b) (reboot d)
recovery_restarts s c h d p =
    let (last, before) = IsCommitted-restart (txn s) c.well_formed h d p in
    (
      late-after s c h (reboot d).disk last,
      All-map (λ e. IsCommitted (txn s) e ⊎ IsNew (txn s) e)
          (λ e. (b : ℕ) → Outside s.start b → (reboot e).disk b ≡ after s b) (late-after s c h)
          (reboot d).history before,
    )
