-- ===== src/Xv6/Sysfile/Exec.antt =====
-- xv6/base/exec.c, with `loaduvm` of xv6/base/vm.c, and the calls `sys_exec` and `sys_sbrk`. The program counter and
-- the name of the process are not in the state, and its memory is seen through its new page table from then on.
pub mod Keeping
use os_projects.Base.{
  ℕ, zero, suc, ◌+◌, ◌-◌, ◌*◌, ◌/◌, ◌%◌, ◌^◌, ltb, leb, Bool, true, false, not, ◌==◌, if◌then◌else◌,
  Option, none, some, List, [], ◌∷◌, ◌++◌, map, length, get_or,
}
use os_projects.Memory.{int_at, read_bytes, bytes_of, bytes_of_ints}
use os_projects.Xv6.Fs.{done, panics, M}
use os_projects.Xv6.Fs.Inodes.{ilock, iunlockput}
use os_projects.Xv6.Fs.Files.{Io, fails, count, readi}
use os_projects.Xv6.Fs.Paths.{namei}
use os_projects.Xv6.Kalloc.{Kmem, pgsize, pgroundup}
use os_projects.Xv6.Vm.{Run, and_then, p2v, pte_addr, walkpgdir, allocuvm, freevm, clearpteu}
use os_projects.Xv6.Vm.Spaces.{put_bytes, setupkvm, copyout, growproc}
use os_projects.Xv6.Syscall.{argint, sys_exec}
use os_projects.Xv6.Sysfile.{
  Sys, SysM, ◌>>=◌, ◌>>◌, pure, panic, with_state, on_option, lift, begin_op, end_op,
}

-- A call of vm.c, whose loops do not run out of rounds.
pub on_pages : {A : Type 0} → (Kmem → Run (A × Kmem)) → SysM A
on_pages m s = elim (m s.kmem) [
  | Run.done (a, k) ↦ done (a, record s { kmem = k })
  | Run.panics ↦ panics
  | Run.out_of_fuel ↦ panics
]

abbrev pub no_value : (Kmem → Run Kmem) → SysM (Unit {0})
no_value m = on_pages (λ k. and_then (m k) (λ k1. Run.done (tt, k1)))

pub put_page : ℕ → List ℕ → SysM (Unit {0})
put_page a bytes s =
    done (tt, record s { kmem = record s.kmem { mem = put_bytes s.kmem.mem a bytes } })

pub set_size : ℕ → SysM (Unit {0})
set_size sz s = done (tt, record s { user = record s.user { sz = sz } })

-- "Commit to the user image."
pub commit_image : ℕ → ℕ → ℕ → SysM (Unit {0})
commit_image pgdir sz sp s =
    done (tt, record s { pgdir = pgdir; user = record s.user { sz = sz; esp = sp } })

-- An uint field of a header, at its offset, and `elf.phnum`.
abbrev field : List ℕ → ℕ → ℕ
field h a = int_at (λ i. get_or h i 0) a

abbrev short_field : List ℕ → ℕ → ℕ
short_field h a = get_or h a 0 + 256 * get_or h (a + 1) 0

module _ (dev_read : ℕ → Option (ℕ → ℕ → M Io)) (dev_write : ℕ → Option (ℕ → List ℕ → M Io))
    (data_addr pid : ℕ) where
  -- `readi` of a header, whole.
  pub read_header : ℕ → ℕ → ℕ → SysM (Option (List ℕ))
  read_header ip off n = do
    r ← lift (readi dev_read dev_write ip off n)
    pure (elim r [ fails ↦ none | count bytes m ↦ if m == n then some bytes else none ])

  -- A page of `loaduvm`, with what follows it.
  pub load_page : ℕ → ℕ → ℕ → ℕ → SysM Bool → SysM Bool
  load_page a ip off n rest = do
    r ← lift (readi dev_read dev_write ip off n)
    elim r [
      | fails ↦ pure false
      | count bytes m ↦ (do put_page a bytes; if m == n then rest else pure false)
    ]

  pub load_from : ℕ → ℕ → ℕ → ℕ → ℕ → ℕ → ℕ → SysM Bool
  load_from zero pgdir addr ip offset i sz = panic
  load_from (suc fuel) pgdir addr ip offset i sz =
      let rest = load_from fuel pgdir addr ip offset ((i + pgsize) % 2 ^ 32) sz in
      let n = if ltb (sz - i) pgsize then sz - i else pgsize in
      if ltb i sz
      then with_state (λ s.
        on_option (walkpgdir pgdir ((addr + i) % 2 ^ 32) false s.kmem).0 panic
          (λ pte. load_page (p2v (pte_addr (s.kmem.mem pte))) ip ((offset + i) % 2 ^ 32) n rest))
      else pure true

  pub loaduvm : ℕ → ℕ → ℕ → ℕ → ℕ → SysM Bool
  loaduvm pgdir addr ip offset sz =
      if not (addr % pgsize == 0)
      then panic
      else load_from (sz / pgsize + 2) pgdir addr ip offset 0 sz

  -- A program header of the type ELF_PROG_LOAD: the new size, or `bad`.
  pub load_segment : ℕ → ℕ → List ℕ → ℕ → SysM (Option ℕ)
  load_segment ip pgdir ph sz =
      let vaddr = field ph 8 in
      let end_addr = (vaddr + field ph 20) % 2 ^ 32 in
      if ltb (field ph 20) (field ph 16)
      then pure none
      else if ltb end_addr vaddr
      then pure none
      else (do
        sz' ← on_pages (allocuvm pgdir sz end_addr)
        if (sz' == 0) then pure none else if not (vaddr % pgsize == 0) then pure none else (do
          ok ← loaduvm pgdir vaddr ip (field ph 4) (field ph 16)
          if ok then pure (some sz') else pure none))

  -- The loop over `k` program headers from the offset `off` on.
  pub load_segments : ℕ → ℕ → ℕ → ℕ → ℕ → SysM (Option ℕ)
  load_segments zero ip pgdir off sz = pure (some sz)
  load_segments (suc k) ip pgdir off sz =
      let rest = load_segments k ip pgdir ((off + 32) % 2 ^ 32) in
      do
        r ← read_header ip off 32
        on_option r (pure none) (λ ph.
            if not (field ph 0 == 1)
            then rest sz
            else (do r' ← load_segment ip pgdir ph sz; on_option r' (pure none) rest))

  -- The loop over the arguments: the stack pointer and their addresses, `pushed` being those so far.
  pub push_args : List (List ℕ) → ℕ → ℕ → List ℕ → SysM (Option (ℕ × List ℕ))
  push_args [] pgdir sp pushed = pure (some (sp, pushed))
  push_args (arg ∷ args) pgdir sp pushed =
      let sp' = (sp + 2 ^ 32 - (length arg + 1)) % 2 ^ 32 / 4 * 4 in
      let rest = push_args args pgdir sp' (pushed ++ sp' ∷ []) in
      if leb 32 (length pushed)
      then pure none
      else (do ok ← on_pages (copyout pgdir sp' (arg ++ 0 ∷ [])); if ok then rest else pure none)

  -- `bad`, before and after the inode is released.
  pub bad_inode : ℕ → ℕ → SysM (Option ℕ)
  bad_inode ip pgdir = do
    if pgdir == 0 then pure tt else no_value (freevm pgdir)
    lift (iunlockput pid ip)
    end_op
    pure none

  pub bad_space : ℕ → SysM (Option ℕ)
  bad_space pgdir = do no_value (freevm pgdir); pure none

  -- `ustack` with the addresses of the arguments, and the end of `exec`.
  pub enter_image : ℕ → ℕ → ℕ → List ℕ → SysM (Option ℕ)
  enter_image pgdir sz sp args =
      let argc = length args in
      let ustack =
        (2 ^ 32 - 1) ∷ argc ∷ ((sp + 2 ^ 32 - (argc + 1) * 4) % 2 ^ 32) ∷ (args ++ 0 ∷ []) in
      let sp' = (sp + 2 ^ 32 - (3 + argc + 1) * 4) % 2 ^ 32 in
      do
        ok ← on_pages (copyout pgdir sp' (bytes_of_ints ustack))
        if ok
            then with_state
                (λ s. do commit_image pgdir sz sp'; no_value (freevm s.pgdir); pure (some 0))
            else bad_space pgdir

  -- `exec` from the stack on.
  pub build_stack : ℕ → ℕ → List (List ℕ) → SysM (Option ℕ)
  build_stack pgdir sz0 argv = do
    let start = pgroundup sz0 % 2 ^ 32
    sz ← on_pages (allocuvm pgdir start ((start + 2 * pgsize) % 2 ^ 32))
    if sz == 0 then bad_space pgdir else (do
      no_value (clearpteu pgdir ((sz + 2 ^ 32 - 2 * pgsize) % 2 ^ 32))
      r ← push_args argv pgdir sz []
      on_option r (bad_space pgdir) (λ (sp, args). enter_image pgdir sz sp args))

  -- `exec` with the inode, which is locked.
  pub load_image : ℕ → List (List ℕ) → SysM (Option ℕ)
  load_image ip argv = do
    h ← read_header ip 0 52
    on_option h (bad_inode ip 0) (λ elf.
        if not (field elf 0 == 0x464c_457f) then bad_inode ip 0 else (do
          r ← on_pages (setupkvm data_addr)
          on_option r (bad_inode ip 0) (λ pgdir. do
            r' ← load_segments (short_field elf 44) ip pgdir (field elf 28) 0
            on_option r' (bad_inode ip pgdir)
                (λ sz. do lift (iunlockput pid ip); end_op; build_stack pgdir sz argv))))

  pub exec : List ℕ → List (List ℕ) → SysM (Option ℕ)
  exec path argv = do
    begin_op
    r ← with_state λ s. lift (namei dev_read pid path s.cwd)
    on_option r (do end_op; pure none) (λ (ip, name). do lift (ilock pid ip); load_image ip argv)

  -- The call `sys_exec`.
  pub call_sys_exec : SysM (Option ℕ)
  call_sys_exec = with_state λ s. on_option (sys_exec s.user) (pure none) (λ (path, args).
      exec (read_bytes s.user.mem path.0 path.1) (map (λ (a, n). read_bytes s.user.mem a n) args))

pub sys_sbrk : SysM (Option ℕ)
sys_sbrk = with_state λ s. on_option (argint 0 s.user) (pure none) (λ n. do
  r ← on_pages (growproc s.pgdir s.user.sz n)
  on_option r (pure none) (λ sz. do set_size sz; pure (some s.user.sz)))
