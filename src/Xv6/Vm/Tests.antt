-- ===== src/Xv6/Vm/Tests.antt =====
-- A directory with one table, and a free page.
use os_projects.Base.{ℕ, ◌-◌, ◌^◌, ◌≡◌, inr, refl, sym, ◌∙◌, true, ◌==◌, if◌then◌else◌, some, arith}
use os_projects.Xv6.Kalloc.{Kmem, kalloc}
use os_projects.Xv6.Vm.{p2v, walkpgdir, map_from, mappages, bit_or, poke, uva2ka}
use os_projects.Xv6.Vm.Ends.{Ends, Any}
use os_projects.Xv6.Vm.Spaces.{growproc, copyuvm}
use os_projects.Xv6.Vm.Spaces.Sizes.{Resizes, growproc_lem}
use os_projects.Xv6.Vm.Spaces.Copies.{copyuvm-Ends}
use os_projects.Xv6.Vm.Tables.{IsDirectory, present}
use os_projects.Xv6.Vm.Tables.Maps.{Maps, mappages_lem, uva2ka-mappages}

abbrev directory : ℕ
directory = 0x8020_0000

-- The table is for the second four megabytes.
abbrev memory : Kmem
memory = record {
  use_lock = true;
  freelist = 0x8030_0000;
  mem = λ a. if a == 0x8020_0004 then 0x40_0007 else 0;
  end_addr = 0x8010_0000;
}

one_table : (i : ℕ) → present directory memory i ≡ true → i ≡ 1
one_table i t = ground arith

memory-IsDirectory : IsDirectory directory memory
memory-IsDirectory = record {
  aligned = omega arith;
  free = inr (omega arith, omega arith, omega arith);
  apart = λ e. absurd (omega arith);
  tables =
      λ i l t. let e = one_table i t in (λ q. absurd (ground arith), λ q. absurd (ground arith));
  distinct = λ i j l m t u ne. absurd (ne (one_table i t ∙ sym (one_table j u)));
}

mappages_lem_example :
    Maps directory 0x1000 0x50_0000 6 memory (mappages directory 0x1000 4096 0x50_0000 6 memory)
mappages_lem_example =
    mappages_lem directory 0x1000 0x50_0000 6 memory memory-IsDirectory (omega arith) (omega arith)

-- The word of the second table's entry.
abbrev after : Kmem
after = poke 0x8040_0004 0x50_0007 memory

uva2ka-mappages_example : uva2ka directory 0x40_1000 after ≡ some (p2v 0x50_0000)
unfolding mappages map_from walkpgdir kalloc bit_or
uva2ka-mappages_example =
    uva2ka-mappages directory 0x40_1000 0x50_0000 6 memory after memory-IsDirectory (omega arith)
      (omega arith) (omega arith) (omega arith) (omega arith) refl refl

growproc_lem_example :
    Ends (Resizes 8192 (2 ^ 32 - 4096)) (growproc directory 8192 (2 ^ 32 - 4096) memory)
growproc_lem_example =
    growproc_lem directory 8192 (2 ^ 32 - 4096) memory (omega arith) (omega arith)

copyuvm-Ends_example : Ends Any (copyuvm 0x8010_8000 directory 8192 memory)
copyuvm-Ends_example = copyuvm-Ends 0x8010_8000 directory 8192 memory (omega arith) (omega arith)
