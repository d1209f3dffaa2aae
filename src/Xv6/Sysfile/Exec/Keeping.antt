-- ===== src/Xv6/Sysfile/Exec/Keeping.antt =====
-- `exec` and `sys_sbrk` keep the references counted, and `exec` closes its transaction, on each way out.
use os_projects.Base.{
  ◌^◌, ◌%◌, ◌/◌, ◌*◌, length, ◌++◌, true, false, ℕ, zero, suc, ◌+◌, ◌-◌, ◌==◌, ltb, leb, Bool,
  Option, none, List, [], ◌∷◌, if◌then◌else◌,
}
use os_projects.Xv6.Fs.{Res, done, panics, M}
use os_projects.Xv6.Fs.Files.{Io, fails, count, readi}
use os_projects.Xv6.Kalloc.{Kmem}
use os_projects.Xv6.Vm.{Run}
use os_projects.Xv6.Vm.Spaces.{copyout}
use os_projects.Xv6.Sysfile.{Sys, SysM, ◌>>◌, pure, lift}
use os_projects.Xv6.Sysfile.Exec.{
  on_pages, put_page, set_size, commit_image, read_header, load_page, load_from, loaduvm,
  load_segment, load_segments, push_args, bad_inode, bad_space, enter_image, build_stack,
  load_image, exec, call_sys_exec, sys_sbrk,
}
use os_projects.Xv6.Sysfile.Rules.{
  Sound, Post, Keeps, keeps_rules, Keeps-then, Keeps-pure, Keeps-lift, Keeps-if, Keeps-panic,
  Keeps-with_state, Keeps-on_option,
}

on_pages-Keeps :
    {A : Type 0} (o : ℕ → ℕ) (n : ℕ) (m : Kmem → Run (A × Kmem)) → Keeps o n (on_pages m) o n
unfolding on_pages
on_pages-Keeps {A} o n m = record { at = λ s h. at s h (m s.kmem) }
  where
    at :
        (s : Sys)
        → Sound o n s
        → (r : Run (A × Kmem))
        → Post
            (λ (x : A × Sys). Sound o n x.1)
            (elim r as (λ _. Res (A × Sys)) [
              | Run.done (a, k) ↦ done (a, record s { kmem = k })
              | Run.panics ↦ panics
              | Run.out_of_fuel ↦ panics
            ])
    at s h (Run.done (a, k)) = record { counted = h.counted; balanced = h.balanced }
    at s h Run.panics = tt
    at s h Run.out_of_fuel = tt

put_page-Keeps : (o : ℕ → ℕ) (n a : ℕ) (bytes : List ℕ) → Keeps o n (put_page a bytes) o n
unfolding put_page
put_page-Keeps o n a bytes = record {
  at = λ s h. record { counted = h.counted; balanced = h.balanced };
}

set_size-Keeps : (o : ℕ → ℕ) (n sz : ℕ) → Keeps o n (set_size sz) o n
unfolding set_size
set_size-Keeps o n sz = record { at = λ s h. record { counted = h.counted; balanced = h.balanced } }

commit_image-Keeps : (o : ℕ → ℕ) (n pgdir sz sp : ℕ) → Keeps o n (commit_image pgdir sz sp) o n
unfolding commit_image
commit_image-Keeps o n pgdir sz sp = record {
  at = λ s h. record { counted = h.counted; balanced = h.balanced };
}

ruleset exec_rules =
    (keeps_rules, on_pages-Keeps, put_page-Keeps, set_size-Keeps, commit_image-Keeps)

module _ (dev_read : ℕ → Option (ℕ → ℕ → M Io)) (dev_write : ℕ → Option (ℕ → List ℕ → M Io))
    (data_addr pid : ℕ) (o : ℕ → ℕ) (n : ℕ) where
  read_header-Keeps :
      (ip off m : ℕ) → Keeps o n (read_header dev_read dev_write data_addr pid ip off m) o n
  unfolding read_header
  read_header-Keeps ip off m = search exec_rules depth 6

  load_page-Keeps :
      (a ip off m : ℕ) (rest : SysM Bool)
      → Keeps o n rest o n
      → Keeps o n (load_page dev_read dev_write data_addr pid a ip off m rest) o n
  unfolding load_page
  load_page-Keeps a ip off m rest k =
      Keeps-then o n o n (lift (readi dev_read dev_write ip off m)) _ (Keeps-lift o n _) at
    where
      at :
          (r : Io)
          → Keeps o n
              (elim r as (λ _. SysM Bool) [
                | fails ↦ pure false
                | count bytes j ↦ (do put_page a bytes; if j == m then rest else pure false)
              ])
              o
              n
      at fails = Keeps-pure o n false
      at (count bytes j) =
          Keeps-then o n o n (put_page a bytes) _ (put_page-Keeps o n a bytes)
            (λ u. Keeps-if o n o n (j == m) rest (pure false) k (Keeps-pure o n false))

  load_from-Keeps :
      (fuel pgdir addr ip offset i sz : ℕ)
      → Keeps o n (load_from dev_read dev_write data_addr pid fuel pgdir addr ip offset i sz) o n
  unfolding load_from
  load_from-Keeps zero pgdir addr ip offset i sz = search exec_rules depth 4
  load_from-Keeps (suc fuel) pgdir addr ip offset i sz =
      let rest = load_from-Keeps fuel pgdir addr ip offset ((i + 4096) % 2 ^ 32) sz in
      Keeps-if o n o n (ltb i sz) _ (pure true)
        (Keeps-with_state o n o n _ (λ s.
          Keeps-on_option o n o n _ _ _ (Keeps-panic o n o n)
            (λ pte. load_page-Keeps _ _ _ _ _ rest)))
        (Keeps-pure o n true)

  loaduvm-Keeps :
      (pgdir addr ip offset sz : ℕ)
      → Keeps o n (loaduvm dev_read dev_write data_addr pid pgdir addr ip offset sz) o n
  unfolding loaduvm
  loaduvm-Keeps pgdir addr ip offset sz = search (exec_rules, load_from-Keeps) depth 6

  load_segment-Keeps :
      (ip pgdir : ℕ) (ph : List ℕ) (sz : ℕ)
      → Keeps o n (load_segment dev_read dev_write data_addr pid ip pgdir ph sz) o n
  unfolding load_segment
  load_segment-Keeps ip pgdir ph sz = search (exec_rules, loaduvm-Keeps) depth 14

  load_segments-Keeps :
      (k ip pgdir off sz : ℕ)
      → Keeps o n (load_segments dev_read dev_write data_addr pid k ip pgdir off sz) o n
  unfolding load_segments
  load_segments-Keeps zero ip pgdir off sz = search exec_rules depth 4
  load_segments-Keeps (suc k) ip pgdir off sz =
      let rest = load_segments-Keeps k ip pgdir ((off + 32) % 2 ^ 32) in
      search (exec_rules, read_header-Keeps, load_segment-Keeps, rest) depth 10

  push_args-Keeps :
      (args : List (List ℕ)) (pgdir sp : ℕ) (pushed : List ℕ)
      → Keeps o n (push_args dev_read dev_write data_addr pid args pgdir sp pushed) o n
  unfolding push_args
  push_args-Keeps [] pgdir sp pushed = search exec_rules depth 4
  push_args-Keeps (arg ∷ args) pgdir sp pushed =
      let sp' = (sp + 2 ^ 32 - (length arg + 1)) % 2 ^ 32 / 4 * 4 in
      let rest = push_args-Keeps args pgdir sp' (pushed ++ sp' ∷ []) in
      Keeps-if o n o n (leb 32 (length pushed)) (pure none) _ (Keeps-pure o n none) (
        Keeps-then o n o n (on_pages (copyout pgdir sp' (arg ++ 0 ∷ []))) _ (on_pages-Keeps o n _)
          (λ ok. Keeps-if o n o n ok _ (pure none) rest (Keeps-pure o n none)))

  bad_inode-Keeps :
      (ip pgdir : ℕ) → Keeps o (suc n) (bad_inode dev_read dev_write data_addr pid ip pgdir) o n
  unfolding bad_inode
  bad_inode-Keeps ip pgdir = search exec_rules depth 10

  bad_space-Keeps : (pgdir : ℕ) → Keeps o n (bad_space dev_read dev_write data_addr pid pgdir) o n
  unfolding bad_space
  bad_space-Keeps pgdir = search exec_rules depth 6

  enter_image-Keeps :
      (pgdir sz sp : ℕ) (args : List ℕ)
      → Keeps o n (enter_image dev_read dev_write data_addr pid pgdir sz sp args) o n
  unfolding enter_image
  enter_image-Keeps pgdir sz sp args = search (exec_rules, bad_space-Keeps) depth 12

  build_stack-Keeps :
      (pgdir sz : ℕ) (argv : List (List ℕ))
      → Keeps o n (build_stack dev_read dev_write data_addr pid pgdir sz argv) o n
  unfolding build_stack
  build_stack-Keeps pgdir sz argv =
      search (exec_rules, bad_space-Keeps, push_args-Keeps, enter_image-Keeps) depth 12

module _ (dev_read : ℕ → Option (ℕ → ℕ → M Io)) (dev_write : ℕ → Option (ℕ → List ℕ → M Io))
    (data_addr pid : ℕ) (o : ℕ → ℕ) (n : ℕ) where
  load_image-Keeps :
      (ip : ℕ) (argv : List (List ℕ))
      → Keeps o (suc n) (load_image dev_read dev_write data_addr pid ip argv) o n
  unfolding load_image
  load_image-Keeps ip argv =
      search
        (exec_rules, read_header-Keeps, load_segments-Keeps, bad_inode-Keeps, build_stack-Keeps)
        depth 16

  exec-Keeps :
      (path : List ℕ) (argv : List (List ℕ))
      → Keeps o n (exec dev_read dev_write data_addr pid path argv) o n
  unfolding exec
  exec-Keeps path argv = search (exec_rules, load_image-Keeps) depth 12

  pub call_sys_exec-Keeps : Keeps o n (call_sys_exec dev_read dev_write data_addr pid) o n
  unfolding call_sys_exec
  call_sys_exec-Keeps = search (exec_rules, exec-Keeps) depth 6

pub sys_sbrk-Keeps : (o : ℕ → ℕ) (n : ℕ) → Keeps o n sys_sbrk o n
unfolding sys_sbrk
sys_sbrk-Keeps o n = search exec_rules depth 10
