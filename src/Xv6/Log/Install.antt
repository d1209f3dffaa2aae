-- ===== src/Xv6/Log/Install.antt =====
-- `install_trans` and the loop of `write_log` on the disk.
use os_projects.Base.{
  ℕ, zero, suc, ◌+◌, ◌≤◌, ◌<◌, ◌≡◌, ◌≢◌, ap, sym, ◌∙◌, subst, none, All, update, update_ne,
  update_self, arith, dec_lt,
}
use os_projects.Xv6.Log.{Log, Disk, Block, logsize, bread, bwrite, install_from}
use os_projects.Xv6.Log.Txn.{Txn, IsWellFormed, Logs, Installed, IsCommitted}

module _ (t : Txn) (w : IsWellFormed t) where
  -- A write at home of a logged block leaves the log and its header, and the other blocks.
  home-ne-log : (k j : ℕ) → k < t.n → j ≤ logsize → t.ids k ≢ t.start + j
  home-ne-log k j h l = omega (arith, w.home k h)

  update-home : (d : Disk) (k b : ℕ) (x : Block) → t.ids k ≢ b → update d (t.ids k) x b ≡ d b
  update-home d k b x = update_ne d (t.ids k) b x

  IsCommitted-update :
      (d : Disk) (k : ℕ) (x : Block)
      → k < t.n
      → IsCommitted t d
      → IsCommitted t (update d (t.ids k) x)
  IsCommitted-update d k x h c =
      let same = update-home d k t.start x (omega (arith, w.home k h)) in
      record {
        head = ap (λ (f : Block). f 0) same ∙ c.head;
        names = λ i lt. ap (λ (f : Block). f (suc i)) same ∙ c.names i lt;
        logs = λ i lt.
            update-home d k (t.start + i + 1) x (omega (arith, w.home k h, w.small)) ∙ c.logs i lt;
        rest = λ b o u. update-home d k b x (u k h) ∙ c.rest b o u;
      }

  Installed-update :
      (d : Disk) (k : ℕ) (x : Block)
      → k < t.n
      → x ≡ t.content k
      → Installed t k d
      → Installed t (suc k) (update d (t.ids k) x)
  Installed-update d k x h e p i lt = elim (dec_lt i k) [
    | yes below ↦ update-home d k (t.ids i) x (λ q. w.distinct i k below h (sym q)) ∙ p i below
    | no last ↦
        let same : k ≡ i = omega arith in
        ap (update d (t.ids k) x) (ap t.ids (sym same))
        ∙ update_self d (t.ids k) x
        ∙ e
        ∙ ap t.content same
  ]

  -- What the loops need of the log in memory: its header, and that no block of the log is dirty.
  pub record IsLoaded (s : Log) : Type 0 where
    pub start_eq : s.start ≡ t.start
    pub n_eq : s.n ≡ t.n
    pub names_eq : (i : ℕ) → i < t.n → s.block i ≡ t.ids i
    pub clean : (j : ℕ) → j ≤ logsize → s.dirty (t.start + j) ≡ none

  pub IsLoaded-bwrite : (s : Log) (b : ℕ) (x : Block) → IsLoaded s → IsLoaded (bwrite s b x)
  unfolding bwrite
  IsLoaded-bwrite s b x l = record {
    start_eq = l.start_eq;
    n_eq = l.n_eq;
    names_eq = l.names_eq;
    clean = λ j h. ground (arith, l.clean j h);
  }

  bread-log :
      (s : Log) (j : ℕ) → IsLoaded s → j ≤ logsize → bread s (t.start + j) ≡ s.disk (t.start + j)
  unfolding bread
  bread-log s j l h = rw (l.clean j h, bread)

  read_content :
      (s : Log) (k : ℕ)
      → IsLoaded s
      → k < t.n
      → Logs t t.n s.disk
      → bread s (s.start + k + 1) ≡ t.content k
  read_content s k l h logs =
      let e : s.start + k + 1 ≡ t.start + (k + 1) = omega (arith, l.start_eq) in
      let f : t.start + (k + 1) ≡ t.start + k + 1 = omega arith in
      ap (bread s) e ∙ bread-log s (k + 1) l (omega (arith, w.small)) ∙ ap s.disk f ∙ logs k h

  -- From a committed disk `install_trans` brings every block home, and each disk on the way is
  -- committed, so that it satisfies whatever a committed disk does.
  pub install_from_lem :
      (P : Disk → Type 0)
      → ((d : Disk) → IsCommitted t d → P d)
      → (k tail : ℕ) (s : Log) → tail + k ≡ t.n
      → IsLoaded s
      → IsCommitted t s.disk
      → Installed t tail s.disk
      → All P s.history
      → let r = install_from k tail s in
        IsLoaded r × IsCommitted t r.disk × Installed t t.n r.disk × All P r.history
  unfolding install_from bwrite
  install_from_lem P keep zero tail s e l c p h = (l, c, (λ i lt. p i (omega arith)), h)
  install_from_lem P keep (suc k) tail s e l c p h =
      let lt : tail < t.n = omega arith in
      let x = bread s (s.start + tail + 1) in
      let here : update s.disk (t.ids tail) x ≡ update s.disk (s.block tail) x =
        ap (λ b. update s.disk b x) (sym (l.names_eq tail lt)) in
      install_from_lem P keep k (tail + 1) (bwrite s (s.block tail) x) (omega arith)
        (IsLoaded-bwrite s (s.block tail) x l)
        (subst (IsCommitted t) here (IsCommitted-update s.disk tail x lt c))
        (subst (λ d. Installed t (tail + 1) d) here
          (subst (λ m. Installed t m (update s.disk (t.ids tail) x)) (omega arith)
            (Installed-update s.disk tail x lt (read_content s tail l lt c.logs) p)))
        (keep s.disk c, h)
