-- ===== src/Xv6/Sysfile/Names/Opens.antt =====
-- `sys_open` keeps the references counted and closes the transaction that it opens, on each way out.
use os_projects.Base.{ℕ, suc, ◌∙◌, refl, Option, none, some, List}
use os_projects.Xv6.Fs.{M}
use os_projects.Xv6.Fs.Files.{Io}
use os_projects.Xv6.Fs.Inodes.{iunlock, iunlockput}
use os_projects.Xv6.Sysfile.{◌>>◌, pure, lift, end_op, close_file}
use os_projects.Xv6.Sysfile.Names.{set_file, open_inode, open_old, sys_open}
use os_projects.Xv6.Sysfile.Names.Calls.{create-Keeps}
use os_projects.Xv6.Sysfile.Rules.{Keeps, keeps_rules, Keeps-bind}
use os_projects.Xv6.Sysfile.Counts.{plus, Keeps-alloc_then, Keeps-fdalloc_then, close_file-Keeps}
use os_projects.Xv6.Sysfile.Descriptors.{same_counts}

module _ (dev_read : ℕ → Option (ℕ → ℕ → M Io)) (dev_write : ℕ → Option (ℕ → List ℕ → M Io))
    (pid : ℕ) (o : ℕ → ℕ) (n : ℕ) where
  set_file-Keeps : (f ip omode : ℕ) → Keeps o n (set_file dev_read dev_write pid f ip omode) o n
  unfolding set_file
  set_file-Keeps f ip omode = record {
    at = λ s h. record {
      counted = λ i. same_counts s.files f _ refl i ∙ h.counted i;
      balanced = h.balanced;
    };
  }

  given_up :
      (f ip : ℕ)
      → Keeps
          (plus f o)
          (suc n)
          (do close_file pid f; lift (iunlockput pid ip); end_op; pure {A = Option ℕ} none)
          o
          n
  given_up f ip =
      Keeps-bind (plus f o) (suc n) o (suc n) o n (close_file pid f) _
        (close_file-Keeps o (suc n) pid f) (λ _. search keeps_rules depth 8)

  opened :
      (f ip omode fd : ℕ)
      → Keeps o
          (suc n)
          (do
            lift (iunlock pid ip)
            end_op
            set_file dev_read dev_write pid f ip omode
            pure (some fd))
          o
          n
  opened f ip omode fd = search (keeps_rules, set_file-Keeps) depth 10

  open_inode-Keeps :
      (ip omode : ℕ) → Keeps o (suc n) (open_inode dev_read dev_write pid ip omode) o n
  unfolding open_inode
  open_inode-Keeps ip omode =
      Keeps-alloc_then o (suc n) o n _ _ (search keeps_rules depth 10)
        (λ f. Keeps-fdalloc_then o (suc n) o n f _ _ (given_up f ip) (opened f ip omode))

  open_old-Keeps :
      (path : List ℕ) (omode : ℕ) → Keeps o (suc n) (open_old dev_read dev_write pid path omode) o n
  unfolding open_old
  open_old-Keeps path omode = search (keeps_rules, open_inode-Keeps) depth 12

  pub sys_open-Keeps : Keeps o n (sys_open dev_read dev_write pid) o n
  unfolding sys_open
  sys_open-Keeps = search (keeps_rules, create-Keeps, open_inode-Keeps, open_old-Keeps) depth 12
