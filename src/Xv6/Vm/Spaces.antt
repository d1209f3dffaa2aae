-- ===== src/Xv6/Vm/Spaces.antt =====
-- xv6/base/vm.c: the page table of a process, from its kernel part to copies into it, and `growproc` of
-- xv6/base/proc.c.
pub mod Sizes
pub mod Copies
use os_projects.Base.{
  ℕ, zero, suc, ◌+◌, ◌-◌, ◌*◌, ◌/◌, ◌%◌, ◌^◌, ltb, leb, Bool, true, false, not, ◌&&◌, ◌==◌,
  if◌then◌else◌, Option, none, some, List, [], ◌∷◌, update, length, take, drop,
}
use os_projects.Xv6.Kalloc.{Kmem, pgsize, kernbase, phystop, v2p, kalloc}
use os_projects.Xv6.Vm.{
  Run, done, panics, out_of_fuel, and_then, release_page, devspace, p2v, pgrounddown, pte_addr,
  pte_flags, pte_p, zero_page, copy_page, walkpgdir, mappages, deallocuvm, allocuvm, freevm, uva2ka,
}

-- `memmove` of bytes into the words of the memory.
pub put_byte : (ℕ → ℕ) → ℕ → ℕ → ℕ → ℕ
put_byte mem a b =
    let w = a / 4 * 4 in
    let unit = 256 ^ (a % 4) in
    let old = mem w / unit % 256 in update mem w (mem w + b * unit - old * unit)

pub put_bytes : (ℕ → ℕ) → ℕ → List ℕ → ℕ → ℕ
put_bytes mem a [] = mem
put_bytes mem a (b ∷ bs) = put_bytes (put_byte mem a b) (a + 1) bs

-- A row of `kmap`: `virt`, `phys_start`, `phys_end` and `perm`.
pub record Kmap : Type 0 where
  pub virt : ℕ
  pub phys_start : ℕ
  pub phys_end : ℕ
  pub perm : ℕ

-- `kmap` with the linker's address `data`.
pub kmap : ℕ → List Kmap
kmap data_addr =
    record { virt = kernbase; phys_start = 0; phys_end = 0x10_0000; perm = 2 }
    ∷ record {
      virt = kernbase + 0x10_0000;
      phys_start = v2p (kernbase + 0x10_0000);
      phys_end = v2p data_addr;
      perm = 0;
    }
    ∷ record { virt = data_addr; phys_start = v2p data_addr; phys_end = phystop; perm = 2 }
    ∷ record { virt = devspace; phys_start = devspace; phys_end = 0; perm = 2 }
    ∷ []

-- The loop of `setupkvm`, which returns null after a failure.
pub map_all : ℕ → List Kmap → Kmem → Run (Option ℕ × Kmem)
map_all pgdir [] k = done (some pgdir, k)
map_all pgdir (r ∷ rs) k =
    and_then
      (mappages pgdir r.virt ((r.phys_end + 2 ^ 32 - r.phys_start) % 2 ^ 32) r.phys_start r.perm k)
      (λ (ok, k1).
        let rest = map_all pgdir rs k1 in
        if ok then rest else and_then (freevm pgdir k1) (λ k2. done (none, k2)))

pub setupkvm : ℕ → Kmem → Run (Option ℕ × Kmem)
setupkvm data_addr k =
    let (pgdir, k1) = kalloc k in
    let k2 = record k1 { mem = zero_page pgdir k1.mem } in
    if pgdir == 0
    then done (none, k1)
    else if ltb devspace (p2v phystop)
    then panics
    else map_all pgdir (kmap data_addr) k2

-- `inituvm`, with the bytes of `init`; what `mappages` returns is not looked at.
pub inituvm : ℕ → List ℕ → Kmem → Run Kmem
inituvm pgdir init k =
    let (page, k1) = kalloc k in
    if leb pgsize (length init)
    then panics
    else (and_then
        (mappages pgdir 0 pgsize (v2p page) 6 (record k1 { mem = zero_page page k1.mem }))
        (λ (ok, k2). done (record k2 { mem = put_bytes k2.mem page init })))

-- `bad` of `copyuvm`
abbrev pub drop_copy : ℕ → Kmem → Run (Option ℕ × Kmem)
drop_copy d k = and_then (freevm d k) (λ k1. done (none, k1))

-- The loop of `copyuvm` into the directory `d`, from the page `i` on.
pub copy_pages : ℕ → ℕ → ℕ → ℕ → ℕ → Kmem → Run (Option ℕ × Kmem)
copy_pages zero pgdir d i sz k = out_of_fuel
copy_pages (suc n) pgdir d i sz k =
    let (page, k1) = kalloc k in
    let round = elim (walkpgdir pgdir i false k).0 as (λ _. Run (Option ℕ × Kmem)) [
      | none ↦ panics
      | some pte ↦
          let w = k.mem pte in
          let k2 = record k1 { mem = copy_page page (p2v (pte_addr w)) k1.mem } in
          let copied = and_then (mappages d i pgsize (v2p page) (pte_flags w) k2) (λ (ok, k3).
            let rest = copy_pages n pgdir d ((i + pgsize) % 2 ^ 32) sz k3 in
            if ok then rest else and_then (release_page page k3) (drop_copy d)) in
          if not (pte_p w) then panics else if page == 0 then drop_copy d k1 else copied
    ] in
    if ltb i sz then round else done (some d, k)

-- `copyuvm`: the new directory or null.
pub copyuvm : ℕ → ℕ → ℕ → Kmem → Run (Option ℕ × Kmem)
copyuvm data_addr pgdir sz k = and_then (setupkvm data_addr k) (λ (r, k1). elim r [
  | none ↦ done (none, k1)
  | some d ↦ copy_pages (sz / pgsize + 2) pgdir d 0 sz k1
])

-- The loop of `copyout`; `false` is the return of -1. A round copies a byte at least.
pub copy_to : ℕ → ℕ → ℕ → List ℕ → Kmem → Run (Bool × Kmem)
copy_to zero pgdir va buf k = out_of_fuel
copy_to (suc fuel) pgdir va buf k =
    let va0 = pgrounddown va in
    let room = pgsize - (va - va0) in
    let n = if ltb (length buf) room then length buf else room in
    let round = elim (uva2ka pgdir va0 k) as (λ _. Run (Bool × Kmem)) [
      | none ↦ done (false, k)
      | some p ↦
          copy_to fuel pgdir ((va0 + pgsize) % 2 ^ 32) (drop n buf)
            (record k { mem = put_bytes k.mem (p + (va - va0)) (take n buf) })
    ] in
    if ltb 0 (length buf) then round else done (true, k)

pub copyout : ℕ → ℕ → List ℕ → Kmem → Run (Bool × Kmem)
copyout pgdir va buf k = copy_to (length buf + 1) pgdir va buf k

-- A return of 0 is a failure, and the process keeps its size.
abbrev pub resized : Run (ℕ × Kmem) → Run (Option ℕ × Kmem)
resized r = and_then r (λ (sz, k). done (if sz == 0 then none else some sz, k))

-- `growproc` of a process with the directory and the size: its new size, or -1. `n` is an int.
pub growproc : ℕ → ℕ → ℕ → Kmem → Run (Option ℕ × Kmem)
growproc pgdir sz n k =
    if ltb 0 n && ltb n (2 ^ 31)
    then resized (allocuvm pgdir sz ((sz + n) % 2 ^ 32) k)
    else if leb (2 ^ 31) n
    then resized (deallocuvm pgdir sz ((sz + n) % 2 ^ 32) k)
    else done (some sz, k)
