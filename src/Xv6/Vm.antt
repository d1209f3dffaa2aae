-- ===== src/Xv6/Vm.antt =====
-- xv6/base/vm.c: page tables, and `growproc` of xv6/base/proc.c. A page table is 1024 words of the memory of
-- kalloc.c, an entry of it a word; a pointer is its address.
pub mod Spaces
pub mod Ends
pub mod Bits
pub mod Tables
mod Tests
use os_projects.Base.{
  ℕ, zero, suc, ◌+◌, ◌-◌, ◌*◌, ◌/◌, ◌%◌, ◌^◌, ltb, leb, Bool, true, false, not, ◌&&◌, ◌||◌, ◌==◌,
  if◌then◌else◌, Option, none, some, List, [], ◌∷◌, update,
}
use os_projects.Xv6.Kalloc.{Kmem, pgsize, kernbase, phystop, v2p, kfree, kalloc, pgroundup}

-- What a call comes to. The rounds of a loop are counted, with a result of its own for too few.
pub data Run {ℓ} (A : Type ℓ) : Type ℓ where
  done : A → Run A
  panics : Run A
  out_of_fuel : Run A

abbrev pub and_then {ℓ} : {A B : Type ℓ} → Run A → (A → Run B) → Run B
and_then (done a) f = f a
and_then panics f = panics
and_then out_of_fuel f = out_of_fuel

-- `kfree`
abbrev pub release_page : ℕ → Kmem → Run Kmem
release_page v k = elim (kfree v k) [ none ↦ panics | some k' ↦ done k' ]

abbrev pub devspace : ℕ
devspace = 0xfe00_0000

-- `P2V`, by uint addition
abbrev pub p2v : ℕ → ℕ
p2v a = (a + kernbase) % 2 ^ 32

-- `PDX`, `PTX`, `PTE_ADDR`, `PTE_FLAGS` and `PGROUNDDOWN`
abbrev pub pdx : ℕ → ℕ
pdx va = va / 2 ^ 22 % 1024

abbrev pub ptx : ℕ → ℕ
ptx va = va / 2 ^ 12 % 1024

abbrev pub pte_addr : ℕ → ℕ
pte_addr pte = pte / pgsize * pgsize

abbrev pub pte_flags : ℕ → ℕ
pte_flags pte = pte % pgsize

abbrev pub pgrounddown : ℕ → ℕ
pgrounddown a = a / pgsize * pgsize

-- The bits 0 and 2 of an entry.
abbrev pub pte_p : ℕ → Bool
pte_p pte = pte % 2 == 1

abbrev pub pte_u : ℕ → Bool
pte_u pte = pte / 4 % 2 == 1

-- `a | b` on `w` bits
pub bit_or : ℕ → ℕ → ℕ → ℕ
bit_or zero a b = 0
bit_or (suc w) a b = (if (a % 2 == 1) || (b % 2 == 1) then 1 else 0) + 2 * bit_or w (a / 2) (b / 2)

-- `memset(v, 0, PGSIZE)`
abbrev pub zero_page : ℕ → (ℕ → ℕ) → ℕ → ℕ
zero_page v mem a = if leb v a && ltb a (v + pgsize) then 0 else mem a

-- `memmove(v, w, PGSIZE)` of a page to another one
abbrev pub copy_page : ℕ → ℕ → (ℕ → ℕ) → ℕ → ℕ
copy_page v w mem a = if leb v a && ltb a (v + pgsize) then mem (w + (a - v)) else mem a

abbrev pub poke : ℕ → ℕ → Kmem → Kmem
poke a w k = record k { mem = update k.mem a w }

-- `walkpgdir`: the address of the entry, or null.
pub walkpgdir : ℕ → ℕ → Bool → Kmem → Option ℕ × Kmem
walkpgdir pgdir va alloc k =
    let pde = pgdir + 4 * pdx va in
    let (pgtab, k1) = kalloc k in
    if pte_p (k.mem pde)
    then (some (p2v (pte_addr (k.mem pde)) + 4 * ptx va), k)
    else if not alloc
    then (none, k)
    else if pgtab == 0
    then (none, k1)
    else (
      some (pgtab + 4 * ptx va),
      record k1 { mem = update (zero_page pgtab k1.mem) pde (bit_or 32 (v2p pgtab) 7) },
    )

-- The loop of `mappages` from the page `a` on; `false` is the return of -1.
pub map_from : ℕ → ℕ → ℕ → ℕ → ℕ → ℕ → Kmem → Run (Bool × Kmem)
map_from zero pgdir a last pa perm k = out_of_fuel
map_from (suc n) pgdir a last pa perm k =
    let (r, k1) = walkpgdir pgdir a true k in
    elim r [
      | none ↦ done (false, k1)
      | some pte ↦
          let k2 = poke pte (bit_or 32 (bit_or 32 pa perm) 1) k1 in
          let rest =
            map_from n pgdir ((a + pgsize) % 2 ^ 32) last ((pa + pgsize) % 2 ^ 32) perm k2 in
          if pte_p (k1.mem pte) then panics else if a == last then done (true, k2) else rest
    ]

-- `mappages`; the rounds are the pages from the first to the last, which is reached by uint addition.
pub mappages : ℕ → ℕ → ℕ → ℕ → ℕ → Kmem → Run (Bool × Kmem)
mappages pgdir va size pa perm k =
    let a = pgrounddown va in
    let last = pgrounddown ((va + size + 2 ^ 32 - 1) % 2 ^ 32) in
    map_from ((last + 2 ^ 32 - a) % 2 ^ 32 / pgsize + 1) pgdir a last pa perm k

-- The loop of `deallocuvm` from `a` on.
pub unmap_from : ℕ → ℕ → ℕ → ℕ → Kmem → Run Kmem
unmap_from zero pgdir a oldsz k = out_of_fuel
unmap_from (suc n) pgdir a oldsz k =
    let skip =
      unmap_from n pgdir (((pdx a + 1) * 2 ^ 22 + 2 ^ 32 - pgsize + pgsize) % 2 ^ 32) oldsz k in
    let next = unmap_from n pgdir ((a + pgsize) % 2 ^ 32) oldsz in
    let round = elim (walkpgdir pgdir a false k).0 as (λ _. Run Kmem) [
      | none ↦ skip
      | some pte ↦
          let pa = pte_addr (k.mem pte) in
          let freed = and_then (release_page (p2v pa) k) (λ k1. next (poke pte 0 k1)) in
          if pte_p (k.mem pte) then if pa == 0 then panics else freed else next k
    ] in
    if ltb a oldsz then round else done k

-- `deallocuvm`: the new size. A round goes on by a page at least.
pub deallocuvm : ℕ → ℕ → ℕ → Kmem → Run (ℕ × Kmem)
deallocuvm pgdir oldsz newsz k =
    if leb oldsz newsz
    then done (oldsz, k)
    else (and_then (unmap_from (oldsz / pgsize + 2) pgdir (pgroundup newsz % 2 ^ 32) oldsz k)
        (λ k1. done (newsz, k1)))

-- `allocuvm` without the memory for a page: the return of 0, after what was added is taken away.
abbrev pub give_up : ℕ → ℕ → ℕ → Kmem → Run (ℕ × Kmem)
give_up pgdir oldsz newsz k = and_then (deallocuvm pgdir newsz oldsz k) (λ (r, k1). done (0, k1))

-- The loop of `allocuvm` from the page `a` on.
pub add_from : ℕ → ℕ → ℕ → ℕ → ℕ → Kmem → Run (ℕ × Kmem)
add_from zero pgdir a oldsz newsz k = out_of_fuel
add_from (suc n) pgdir a oldsz newsz k =
    let (page, k1) = kalloc k in
    let k2 = record k1 { mem = zero_page page k1.mem } in
    let round =
      if page == 0
      then give_up pgdir oldsz newsz k1
      else and_then (mappages pgdir a pgsize (v2p page) 6 k2) (λ (ok, k3).
        let rest = add_from n pgdir ((a + pgsize) % 2 ^ 32) oldsz newsz k3 in
        if ok
        then rest
        else and_then (give_up pgdir oldsz newsz k3)
            (λ (r, k4). and_then (release_page page k4) (λ k5. done (0, k5)))) in
    if ltb a newsz then round else done (newsz, k)

-- `allocuvm`: the new size, or 0. The sizes are less than KERNBASE where the loop runs.
pub allocuvm : ℕ → ℕ → ℕ → Kmem → Run (ℕ × Kmem)
allocuvm pgdir oldsz newsz k =
    if leb kernbase newsz
    then done (0, k)
    else if ltb newsz oldsz
    then done (oldsz, k)
    else add_from (newsz / pgsize + 2) pgdir (pgroundup oldsz) oldsz newsz k

-- The loop of `freevm` over `n` entries of the directory from `i` on.
pub free_tables : ℕ → ℕ → ℕ → Kmem → Run Kmem
free_tables zero i pgdir k = done k
free_tables (suc n) i pgdir k =
    let pde = k.mem (pgdir + 4 * i) in
    let freed = and_then (release_page (p2v (pte_addr pde)) k) (free_tables n (i + 1) pgdir) in
    let rest = free_tables n (i + 1) pgdir k in if pte_p pde then freed else rest

pub freevm : ℕ → Kmem → Run Kmem
freevm pgdir k =
    if pgdir == 0
    then panics
    else (and_then (deallocuvm pgdir kernbase 0 k)
        (λ (r, k1). and_then (free_tables 1024 0 pgdir k1) (λ k2. release_page pgdir k2)))

-- `clearpteu`: the bit 2 of the entry is cleared.
pub clearpteu : ℕ → ℕ → Kmem → Run Kmem
clearpteu pgdir uva k = elim (walkpgdir pgdir uva false k).0 [
  | none ↦ panics
  | some pte ↦ let w = k.mem pte in done (poke pte (if pte_u w then w - 4 else w) k)
]

-- `uva2ka`: the kernel's address of the page, or null. A null entry is read all the same, at the address 0.
pub uva2ka : ℕ → ℕ → Kmem → Option ℕ
uva2ka pgdir uva k =
    let w = k.mem (elim (walkpgdir pgdir uva false k).0 [ none ↦ 0 | some pte ↦ pte ]) in
    if not (pte_p w) then none else if not (pte_u w) then none else some (p2v (pte_addr w))
