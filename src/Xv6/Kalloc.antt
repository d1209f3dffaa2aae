-- ===== src/Xv6/Kalloc.antt =====
-- xv6/base/kalloc.c: the allocator of physical pages. Memory is a function of the address into
-- 32-bit words (an aligned address holds its word), and the free list is linked through the first
-- word of each page. Each call runs under `kmem.lock` once `use_lock` is set.
pub mod FreeList
mod Tests
use os_projects.Base.{
  ℕ, zero, suc, ◌+◌, ◌-◌, ◌*◌, ◌/◌, ◌%◌, ◌^◌, Bool, true, false, ◌&&◌, ◌||◌, not, ◌==◌, ltb, leb,
  if◌then◌else◌, Option, none, some, update,
}

abbrev pub pgsize : ℕ
pgsize = 4096

abbrev pub kernbase : ℕ
kernbase = 0x8000_0000

abbrev pub phystop : ℕ
phystop = 0x0e00_0000

-- `kmem`, with the memory and the address `end` of the kernel's end.
pub record Kmem : Type 0 where
  pub use_lock : Bool
  pub freelist : ℕ
  pub mem : ℕ → ℕ
  pub end_addr : ℕ

-- `V2P`, by uint subtraction
abbrev pub v2p : ℕ → ℕ
v2p a = (a + 2 ^ 32 - kernbase) % 2 ^ 32

-- `memset(v, 1, PGSIZE)`
pub fill_junk : ℕ → (ℕ → ℕ) → ℕ → ℕ
fill_junk v mem a = if leb v a && ltb a (v + pgsize) then 0x0101_0101 else mem a

-- `kfree`; a panic is `none`.
pub kfree : ℕ → Kmem → Option Kmem
kfree v k =
    if not (v % pgsize == 0) || ltb v k.end_addr || leb phystop (v2p v)
    then none
    else some (record k { mem = update (fill_junk v k.mem) v k.freelist; freelist = v })

-- `kalloc`: the page, 0 if there is none, and the new state.
unfoldable pub kalloc : Kmem → ℕ × Kmem
kalloc k =
    let r = k.freelist in (r, record k { freelist = if not (r == 0) then k.mem r else k.freelist })

-- `PGROUNDUP`
abbrev pub pgroundup : ℕ → ℕ
pgroundup a = (a + pgsize - 1) / pgsize * pgsize

-- The loop of `freerange` from the page `p` on, for at most `fuel` rounds.
pub free_from : ℕ → ℕ → ℕ → Kmem → Option Kmem
free_from zero p vend k = some k
free_from (suc fuel) p vend k =
    if leb (p + pgsize) vend
    then (elim (kfree p k) [ none ↦ none | some k' ↦ free_from fuel (p + pgsize) vend k' ])
    else some k

-- `freerange`; a round frees a page, so the number of pages below `vend` is fuel enough.
pub freerange : ℕ → ℕ → Kmem → Option Kmem
freerange vstart vend k = free_from (vend / pgsize) (pgroundup vstart) vend k

pub kinit1 : ℕ → ℕ → Kmem → Option Kmem
kinit1 vstart vend k = freerange vstart vend (record k { use_lock = false })

pub kinit2 : ℕ → ℕ → Kmem → Option Kmem
kinit2 vstart vend k = elim (freerange vstart vend k) [
  | none ↦ none
  | some k' ↦ some (record k' { use_lock = true })
]
