-- ===== src/Xv6/Kalloc/Tests.antt =====
-- Runs of the page allocator, and its theorems at concrete states.
use os_projects.Base.{◌≡◌, refl, false, some, [], ◌∷◌, arith}
use os_projects.Xv6.Kalloc.{Kmem, freerange}
use os_projects.Xv6.Kalloc.FreeList.{Chain, freerange_lem, pages}

-- The kernel ends below its first free page.
abbrev empty : Kmem
empty = record { use_lock = false; freelist = 0; mem = λ _. 0; end_addr = 0x8010_0000 }

freerange_lem_example :
    (k : Kmem) × (freerange 0x8010_0001 0x8010_3fff empty ≡ some k)
    × Chain k.mem k.freelist (0x8010_2000 ∷ 0x8010_1000 ∷ [])
unfolding pages
freerange_lem_example =
    freerange_lem 2 0x8010_0001 0x8010_3fff empty [] (omega arith) (omega arith) (omega arith)
      (omega arith) (omega arith) refl tt
