-- ===== src/Xv6/Sysfile/Names.antt =====
-- xv6/base/sysfile.c: the calls on paths. Those on inodes that the source writes out after `bad` are functions of
-- their own. `pid` is the process, and the device functions are parameters.
pub mod Calls
pub mod Opens
use os_projects.Base.{
  ℕ, zero, suc, ◌+◌, ◌-◌, ◌*◌, ◌/◌, ◌%◌, ◌^◌, ltb, leb, Bool, true, false, not, ◌&&◌, ◌||◌, ◌==◌,
  if◌then◌else◌, Option, none, some, List, [], ◌∷◌, update, replicate,
}
use os_projects.Xv6.Fs.{Fs, Inode, Res, done, panics, M, bind}
use os_projects.Xv6.Fs.Inodes.{put_inode, iupdate, ialloc, ilock, iunlock, iput, iunlockput}
use os_projects.Xv6.Fs.Files.{Io, fails, count, t_dir, writei}
use os_projects.Xv6.Fs.Dirs.{namecmp, ent_inum, read_ent, dirlookup, dirlink}
use os_projects.Xv6.Fs.Paths.{namei, nameiparent}
use os_projects.Xv6.File.{File, FileType, fd_inode, filealloc}
use os_projects.Xv6.Syscall.{argint, argtext}
use os_projects.Xv6.Sysfile.{
  Sys, SysM, ◌>>=◌, ◌>>◌, pure, panic, with_state, on_option, lift, begin_op, end_op, fdalloc,
  close_file, alloc_file,
}

abbrev pub t_file : ℕ
t_file = 2

abbrev pub with_inode : ℕ → (Inode → Inode) → M (Unit {0})
with_inode i h f = done (tt, put_inode i (h (f.icache i)) f)

abbrev pub update_inode : ℕ → M (Unit {0})
update_inode i f = done (tt, iupdate i f)

-- `nlink++` and `nlink--` of a short, and the `iupdate` after them.
pub add_link : ℕ → M (Unit {0})
add_link i f =
    update_inode i
      (put_inode i (record (f.icache i) { nlink = ((f.icache i).nlink + 1) % 65536 }) f)

pub drop_link : ℕ → M (Unit {0})
drop_link i f =
    update_inode i
      (put_inode i (record (f.icache i) { nlink = ((f.icache i).nlink + 65535) % 65536 }) f)

-- `end_op(); return -1;`
abbrev pub fail_op : {A : Type 0} → SysM (Option A)
fail_op = do end_op; pure none

pub set_cwd : ℕ → SysM (Unit {0})
set_cwd ip s = done (tt, record s { cwd = ip })

abbrev pub inode_of : ℕ → Sys → Inode
inode_of i s = s.fs.icache i

module _ (dev_read : ℕ → Option (ℕ → ℕ → M Io)) (dev_write : ℕ → Option (ℕ → List ℕ → M Io))
    (pid : ℕ) where
  abbrev lookup : List ℕ → SysM (Option (ℕ × List ℕ))
  lookup path = with_state λ s. lift (namei dev_read pid path s.cwd)

  abbrev lookup_parent : List ℕ → SysM (Option (ℕ × List ℕ))
  lookup_parent path = with_state λ s. lift (nameiparent dev_read pid path s.cwd)

  -- `sys_link` after `bad`.
  pub link_bad : ℕ → SysM (Option ℕ)
  link_bad ip = do lift (ilock pid ip); lift (drop_link ip); lift (iunlockput pid ip); fail_op

  -- `sys_link` from the parent of the new name on.
  pub link_parent : ℕ → ℕ → List ℕ → SysM (Option ℕ)
  link_parent ip dp name = do
    lift (ilock pid dp)
    ok ← with_state λ s.
        if not ((inode_of dp s).dev == (inode_of ip s).dev)
        then pure false
        else lift (dirlink dev_read dev_write pid dp name (inode_of ip s).inum)
    lift (iunlockput pid dp)
    if ok then (do lift (iput pid ip); end_op; pure (some 0)) else (link_bad ip)

  pub link_inode : ℕ → List ℕ → SysM (Option ℕ)
  link_inode ip new = do
    lift (ilock pid ip)
    with_state λ s.
        if (inode_of ip s).type == t_dir then (do lift (iunlockput pid ip); fail_op) else (do
          lift (add_link ip)
          lift (iunlock pid ip)
          r ← lookup_parent new
          on_option r (link_bad ip) (λ (dp, name). link_parent ip dp name))

  pub sys_link : SysM (Option ℕ)
  sys_link = with_state λ s. on_option (argtext 0 s.user) (pure none) (λ old.
      on_option (argtext 1 s.user) (pure none)
        (λ new. do begin_op; r ← lookup old; on_option r fail_op (λ (ip, name). link_inode ip new)))

  -- The loop of `isdirempty` from `off` on, `k` rounds being left.
  pub empty_from : ℕ → ℕ → ℕ → M Bool
  empty_from zero dp off f = panics
  empty_from (suc k) dp off f =
      let round = bind (read_ent dev_read dp off f) (λ (e, g).
        let rest = empty_from k dp (off + 16) g in
        if not (ent_inum e == 0) then done (false, g) else rest) in
      if ltb off (f.icache dp).size then round else done (true, f)

  pub isdirempty : ℕ → M Bool
  isdirempty dp f = empty_from ((f.icache dp).size / 16 + 2) dp 32 f

  -- `sys_unlink` after `bad`.
  pub unlink_bad : ℕ → SysM (Option ℕ)
  unlink_bad dp = do lift (iunlockput pid dp); fail_op

  -- The entry at `off` is written over with zeros.
  pub clear_ent : ℕ → ℕ → M (Unit {0})
  clear_ent dp off f = bind (writei dev_read dev_write dp (replicate 16 0) off f) (λ (r, g).
      elim r [ fails ↦ panics | count bytes n ↦ if n == 16 then done (tt, g) else panics ])

  -- `sys_unlink` once the entry and its inode are found and not refused.
  pub unlink_entry : ℕ → ℕ → ℕ → SysM (Option ℕ)
  unlink_entry dp ip off = do
    lift (clear_ent dp off)
    with_state λ s. if (inode_of ip s).type == t_dir then lift (drop_link dp) else pure tt
    lift (iunlockput pid dp)
    lift (drop_link ip)
    lift (iunlockput pid ip)
    end_op
    pure (some 0)

  pub unlink_inode : ℕ → ℕ → ℕ → SysM (Option ℕ)
  unlink_inode dp ip off = do
    lift (ilock pid ip)
    with_state λ s.
        if ltb (inode_of ip s).nlink 1 || leb (2 ^ 15) (inode_of ip s).nlink then panic else pure tt
    ok ← with_state λ s. if (inode_of ip s).type == t_dir then lift (isdirempty ip) else pure true
    if ok then unlink_entry dp ip off else (do lift (iunlockput pid ip); unlink_bad dp)

  pub unlink_parent : ℕ → List ℕ → SysM (Option ℕ)
  unlink_parent dp name = do
    lift (ilock pid dp)
    if namecmp name (b'.' ∷ []) || namecmp name (b'.' ∷ b'.' ∷ []) then unlink_bad dp else (do
      r ← lift (dirlookup dev_read dp name)
      on_option r (unlink_bad dp) (λ (ip, off). unlink_inode dp ip off))

  pub sys_unlink : SysM (Option ℕ)
  sys_unlink = with_state λ s. on_option (argtext 0 s.user) (pure none) (λ path. do
    begin_op
    r ← lookup_parent path
    on_option r fail_op (λ (dp, name). unlink_parent dp name))

  -- A link that has to be made.
  pub must_link : ℕ → List ℕ → ℕ → SysM (Unit {0})
  must_link dp name inum = do
    ok ← lift (dirlink dev_read dev_write pid dp name inum)
    if ok then pure tt else panic

  -- `create` where the name is there.
  pub create_old : ℕ → ℕ → ℕ → SysM (Option ℕ)
  create_old dp ip type = do
    lift (iunlockput pid dp)
    lift (ilock pid ip)
    with_state λ s.
        if (type == t_file) && ((inode_of ip s).type == t_file)
        then pure (some ip)
        else (do lift (iunlockput pid ip); pure none)

  -- `create` with the inode that it has allocated.
  pub create_new : ℕ → List ℕ → ℕ → ℕ → ℕ → ℕ → SysM (Option ℕ)
  create_new dp name ip type major minor = do
    lift (ilock pid ip)
    lift (with_inode ip (λ n. record n { major = major; minor = minor; nlink = 1 }))
    lift (update_inode ip)
    if type == t_dir
        then (do
          lift (add_link dp)
          with_state λ s. must_link ip (b'.' ∷ []) (inode_of ip s).inum
          with_state λ s. must_link ip (b'.' ∷ b'.' ∷ []) (inode_of dp s).inum)
        else pure tt
    with_state λ s. must_link dp name (inode_of ip s).inum
    lift (iunlockput pid dp)
    pure (some ip)

  -- `create`: the inode, which the process has locked.
  pub create : List ℕ → ℕ → ℕ → ℕ → SysM (Option ℕ)
  create path type major minor = do
    r ← lookup_parent path
    on_option r (pure none) (λ (dp, name). do
      lift (ilock pid dp)
      found ← lift (dirlookup dev_read dp name)
      on_option found
          (do
            ip ← with_state λ s. lift (ialloc (inode_of dp s).dev type)
            create_new dp name ip type major minor)
          (λ (ip, off). create_old dp ip type))

  -- The fields that `sys_open` sets; `omode` has O_WRONLY as its bit 0 and O_RDWR as bit 1.
  pub set_file : ℕ → ℕ → ℕ → SysM (Unit {0})
  set_file f ip omode s =
      let wronly = omode % 2 == 1 in
      done (
        tt,
        record s {
          files = update s.files f (record (s.files f) {
            type = fd_inode;
            ip = ip;
            off = 0;
            readable = not wronly;
            writable = wronly || (omode / 2 % 2 == 1);
          });
        },
      )

  -- `sys_open` with the inode, which is locked.
  pub open_inode : ℕ → ℕ → SysM (Option ℕ)
  open_inode ip omode = do
    r ← alloc_file
    on_option r (do lift (iunlockput pid ip); fail_op)
        (λ f. do
          r' ← fdalloc f
          on_option r' (do close_file pid f; lift (iunlockput pid ip); fail_op)
              (λ fd. do lift (iunlock pid ip); end_op; set_file f ip omode; pure (some fd)))

  -- `sys_open` of a name that is there.
  pub open_old : List ℕ → ℕ → SysM (Option ℕ)
  open_old path omode = do
    r ← lookup path
    on_option r fail_op (λ (ip, name). do
      lift (ilock pid ip)
      with_state λ s.
          if ((inode_of ip s).type == t_dir) && not (omode == 0)
          then (do lift (iunlockput pid ip); fail_op)
          else open_inode ip omode)

  pub sys_open : SysM (Option ℕ)
  sys_open = with_state λ s. on_option (argtext 0 s.user) (pure none) (λ path.
      on_option (argint 1 s.user) (pure none) (λ omode. do
        begin_op
        if omode / 512 % 2 == 1
            then (do r ← create path t_file 0 0; on_option r fail_op (λ ip. open_inode ip omode))
            else open_old path omode))

  -- The end of `sys_mkdir` and `sys_mknod`.
  pub made : Option ℕ → SysM (Option ℕ)
  made r = on_option r fail_op (λ ip. do lift (iunlockput pid ip); end_op; pure (some 0))

  pub sys_mkdir : SysM (Option ℕ)
  sys_mkdir = do
    begin_op
    with_state
        λ s. on_option (argtext 0 s.user) fail_op (λ path. do r ← create path t_dir 0 0; made r)

  pub sys_mknod : SysM (Option ℕ)
  sys_mknod = do
    begin_op
    with_state λ s. on_option (argtext 0 s.user) fail_op (λ path.
        on_option (argint 1 s.user) fail_op (λ major.
          on_option (argint 2 s.user) fail_op
            (λ minor. do r ← create path 3 (major % 65536) (minor % 65536); made r)))

  -- `sys_chdir` with the inode of the path.
  pub change_dir : ℕ → SysM (Option ℕ)
  change_dir ip = do
    lift (ilock pid ip)
    with_state λ s.
        if not ((inode_of ip s).type == t_dir) then (do lift (iunlockput pid ip); fail_op) else (do
          lift (iunlock pid ip)
          with_state λ s. lift (iput pid s.cwd)
          end_op
          set_cwd ip
          pure (some 0))

  pub sys_chdir : SysM (Option ℕ)
  sys_chdir = do
    begin_op
    with_state λ s.
        on_option (argtext 0 s.user) fail_op
          (λ path. do r ← lookup path; on_option r fail_op (λ (ip, name). change_dir ip))
