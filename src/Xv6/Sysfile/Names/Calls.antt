-- ===== src/Xv6/Sysfile/Names/Calls.antt =====
-- The calls on paths keep the references counted and close the transaction that they open, on each way out.
use os_projects.Base.{ℕ, suc, Option, List}
use os_projects.Xv6.Fs.{M}
use os_projects.Xv6.Fs.Files.{Io}
use os_projects.Xv6.Sysfile.Names.{
  link_bad, link_parent, link_inode, sys_link, unlink_bad, unlink_entry, unlink_inode,
  unlink_parent, sys_unlink, must_link, create_old, create_new, create, made, sys_mkdir, sys_mknod,
  set_cwd, change_dir, sys_chdir,
}
use os_projects.Xv6.Sysfile.Rules.{Keeps, keeps_rules}

module _ (dev_read : ℕ → Option (ℕ → ℕ → M Io)) (dev_write : ℕ → Option (ℕ → List ℕ → M Io))
    (pid : ℕ) (o : ℕ → ℕ) (n : ℕ) where
  link_bad-Keeps : (ip : ℕ) → Keeps o (suc n) (link_bad dev_read dev_write pid ip) o n
  unfolding link_bad
  link_bad-Keeps ip = search (keeps_rules) depth 12

  link_parent-Keeps :
      (ip dp : ℕ) (name : List ℕ)
      → Keeps o (suc n) (link_parent dev_read dev_write pid ip dp name) o n
  unfolding link_parent
  link_parent-Keeps ip dp name = search (keeps_rules, link_bad-Keeps) depth 12

  link_inode-Keeps :
      (ip : ℕ) (new : List ℕ) → Keeps o (suc n) (link_inode dev_read dev_write pid ip new) o n
  unfolding link_inode
  link_inode-Keeps ip new = search (keeps_rules, link_bad-Keeps, link_parent-Keeps) depth 12

  pub sys_link-Keeps : Keeps o n (sys_link dev_read dev_write pid) o n
  unfolding sys_link
  sys_link-Keeps = search (keeps_rules, link_inode-Keeps) depth 12

  unlink_bad-Keeps : (dp : ℕ) → Keeps o (suc n) (unlink_bad dev_read dev_write pid dp) o n
  unfolding unlink_bad
  unlink_bad-Keeps dp = search (keeps_rules) depth 12

  unlink_entry-Keeps :
      (dp ip off : ℕ) → Keeps o (suc n) (unlink_entry dev_read dev_write pid dp ip off) o n
  unfolding unlink_entry
  unlink_entry-Keeps dp ip off = search (keeps_rules) depth 12

  unlink_inode-Keeps :
      (dp ip off : ℕ) → Keeps o (suc n) (unlink_inode dev_read dev_write pid dp ip off) o n
  unfolding unlink_inode
  unlink_inode-Keeps dp ip off = search (keeps_rules, unlink_bad-Keeps, unlink_entry-Keeps) depth 12

  unlink_parent-Keeps :
      (dp : ℕ) (name : List ℕ) → Keeps o (suc n) (unlink_parent dev_read dev_write pid dp name) o n
  unfolding unlink_parent
  unlink_parent-Keeps dp name = search (keeps_rules, unlink_bad-Keeps, unlink_inode-Keeps) depth 12

  pub sys_unlink-Keeps : Keeps o n (sys_unlink dev_read dev_write pid) o n
  unfolding sys_unlink
  sys_unlink-Keeps = search (keeps_rules, unlink_parent-Keeps) depth 12

  must_link-Keeps :
      (dp : ℕ) (name : List ℕ) (inum : ℕ)
      → Keeps o (suc n) (must_link dev_read dev_write pid dp name inum) o (suc n)
  unfolding must_link
  must_link-Keeps dp name inum = search (keeps_rules) depth 12

  create_old-Keeps :
      (dp ip type : ℕ) → Keeps o (suc n) (create_old dev_read dev_write pid dp ip type) o (suc n)
  unfolding create_old
  create_old-Keeps dp ip type = search (keeps_rules) depth 12

  create_new-Keeps :
      (dp : ℕ) (name : List ℕ) (ip type major minor : ℕ)
      → Keeps o (suc n) (create_new dev_read dev_write pid dp name ip type major minor) o (suc n)
  unfolding create_new
  create_new-Keeps dp name ip type major minor = search (keeps_rules, must_link-Keeps) depth 12

  pub create-Keeps :
      (path : List ℕ) (type major minor : ℕ)
      → Keeps o (suc n) (create dev_read dev_write pid path type major minor) o (suc n)
  unfolding create
  create-Keeps path type major minor =
      search (keeps_rules, create_old-Keeps, create_new-Keeps) depth 12

  made-Keeps : (r : Option ℕ) → Keeps o (suc n) (made dev_read dev_write pid r) o n
  unfolding made
  made-Keeps r = search (keeps_rules) depth 12

  pub sys_mkdir-Keeps : Keeps o n (sys_mkdir dev_read dev_write pid) o n
  unfolding sys_mkdir
  sys_mkdir-Keeps = search (keeps_rules, create-Keeps, made-Keeps) depth 12

  pub sys_mknod-Keeps : Keeps o n (sys_mknod dev_read dev_write pid) o n
  unfolding sys_mknod
  sys_mknod-Keeps = search (keeps_rules, create-Keeps, made-Keeps) depth 12

  set_cwd-Keeps : (ip : ℕ) → Keeps o n (set_cwd ip) o n
  unfolding set_cwd
  set_cwd-Keeps ip = record { at = λ s h. record { counted = h.counted; balanced = h.balanced } }

  change_dir-Keeps : (ip : ℕ) → Keeps o (suc n) (change_dir dev_read dev_write pid ip) o n
  unfolding change_dir
  change_dir-Keeps ip = search (keeps_rules, set_cwd-Keeps) depth 12

  pub sys_chdir-Keeps : Keeps o n (sys_chdir dev_read dev_write pid) o n
  unfolding sys_chdir
  sys_chdir-Keeps = search (keeps_rules, change_dir-Keeps) depth 12
