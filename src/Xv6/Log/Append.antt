-- ===== src/Xv6/Log/Append.antt =====
-- The loop of `write_log`: the new contents go to the log, and the blocks at home stay as they are.
use os_projects.Base.{
  ℕ, zero, suc, ◌+◌, ◌<◌, ◌≡◌, ◌≢◌, ap, sym, ◌∙◌, subst, All, update, update_ne, update_self, arith,
  dec_lt,
}
use os_projects.Xv6.Log.{Log, Disk, Block, bread, bwrite, write_log_from}
use os_projects.Xv6.Log.Txn.{Txn, IsWellFormed, Logs, IsOld}
use os_projects.Xv6.Log.Install.{IsLoaded, IsLoaded-bwrite}

bread-bwrite_ne : (s : Log) (b j : ℕ) (x : Block) → b ≢ j → bread (bwrite s b x) j ≡ bread s j
unfolding bread bwrite
bread-bwrite_ne s b j x h = ground arith

module _ (t : Txn) (w : IsWellFormed t) where
  abbrev pub Reads : Log → Type 0
  Reads s = (i : ℕ) → i < t.n → bread s (t.ids i) ≡ t.content i

  IsOld-update :
      (d : Disk) (k : ℕ) (x : Block) → k < t.n → IsOld t d → IsOld t (update d (t.start + k + 1) x)
  IsOld-update d k x h (e, r) = (
    ap (λ (f : Block). f 0) (update_ne d (t.start + k + 1) t.start x (omega arith)) ∙ e,
    λ b o. update_ne d (t.start + k + 1) b x (omega (arith, w.small)) ∙ r b o,
  )

  Logs-update :
      (d : Disk) (k : ℕ) (x : Block)
      → x ≡ t.content k
      → Logs t k d
      → Logs t (suc k) (update d (t.start + k + 1) x)
  Logs-update d k x e p i lt = elim (dec_lt i k) [
    | yes below ↦ update_ne d (t.start + k + 1) (t.start + i + 1) x (omega arith) ∙ p i below
    | no last ↦
        let same : i ≡ k = omega arith in
        ap (λ m. update d (t.start + k + 1) x (t.start + m + 1)) same
        ∙ update_self d (t.start + k + 1) x
        ∙ e
        ∙ ap t.content (sym same)
  ]

  pub write_log_from_lem :
      (P : Disk → Type 0)
      → ((d : Disk) → IsOld t d → P d)
      → (k tail : ℕ) (s : Log) → tail + k ≡ t.n
      → IsLoaded t w s
      → IsOld t s.disk
      → Reads s
      → Logs t tail s.disk
      → All P s.history
      → let r = write_log_from k tail s in
        IsLoaded t w r × IsOld t r.disk × Logs t t.n r.disk × All P r.history
  unfolding write_log_from
  write_log_from_lem P keep zero tail s e l c q p h = (l, c, (λ i lt. p i (omega arith)), h)
  write_log_from_lem P keep (suc k) tail s e l c q p h =
      let lt : tail < t.n = omega arith in
      let b = s.start + tail + 1 in
      let x = bread s (s.block tail) in
      let value : x ≡ t.content tail = ap (bread s) (l.names_eq tail lt) ∙ q tail lt in
      let here : t.start + tail + 1 ≡ b = omega (arith, l.start_eq) in
      let next : suc tail ≡ tail + 1 = omega arith in
      let log_next : Logs t (tail + 1) (update s.disk b x) =
        subst (λ m. Logs t m (update s.disk b x)) next
          (subst (λ c. Logs t (suc tail) (update s.disk c x)) here
            (Logs-update s.disk tail x value p)) in
      write_log_from_lem P keep k (tail + 1) (bwrite s b x) (omega arith)
        (IsLoaded-bwrite t w s b x l)
        (unfold bwrite in
          subst (λ c. IsOld t (update s.disk c x)) here (IsOld-update s.disk tail x lt c))
        (λ i h.
          bread-bwrite_ne s b (t.ids i) x (omega (arith, w.home i h, w.small, l.start_eq)) ∙ q i h)
        (unfold bwrite in log_next) (unfold bwrite in (keep s.disk c, h))
