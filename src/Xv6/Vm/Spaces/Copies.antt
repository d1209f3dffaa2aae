-- ===== src/Xv6/Vm/Spaces/Copies.antt =====
-- The calls that build, copy and free whole address spaces end.
use os_projects.Base.{
  ℕ, zero, suc, ◌+◌, ◌-◌, ◌*◌, ◌/◌, ◌%◌, ◌^◌, ◌≤◌, ◌<◌, ltb, false, not, ◌==◌, if◌then◌else◌,
  Option, none, some, List, [], ◌∷◌, All, arith,
}
use os_projects.Xv6.Kalloc.{Kmem, pgsize, kernbase, phystop, v2p, kalloc}
use os_projects.Xv6.Vm.{
  Run, done, panics, and_then, release_page, devspace, p2v, pte_addr, pte_flags, pte_p, zero_page,
  copy_page, walkpgdir, mappages, deallocuvm, free_tables, freevm,
}
use os_projects.Xv6.Vm.Spaces.{Kmap, kmap, map_all, setupkvm, drop_copy, copy_pages, copyuvm}
use os_projects.Xv6.Vm.Ends.{
  Ends, Ends-and_then, Ends-if, Any, release_page-Ends, mappages-Ends, deallocuvm-Ends,
}

free_tables-Ends : (n i pgdir : ℕ) (k : Kmem) → Ends Any (free_tables n i pgdir k)
unfolding free_tables
free_tables-Ends zero i pgdir k = tt
free_tables-Ends (suc n) i pgdir k =
    let pde = k.mem (pgdir + 4 * i) in
    Ends-if Any (pte_p pde) _ _
      (λ b.
        Ends-and_then Any Any (release_page (p2v (pte_addr pde)) k) _ (release_page-Ends _ k)
          (λ k1 u. free_tables-Ends n (i + 1) pgdir k1))
      (λ b. free_tables-Ends n (i + 1) pgdir k)

freevm-Ends : (pgdir : ℕ) (k : Kmem) → Ends Any (freevm pgdir k)
unfolding freevm
freevm-Ends pgdir k =
    Ends-if Any (pgdir == 0) panics _ (λ b. tt)
      (λ b.
        Ends-and_then _ Any (deallocuvm pgdir kernbase 0 k) _
          (deallocuvm-Ends pgdir kernbase 0 k (omega arith))
          (λ (r, k1) e.
            Ends-and_then Any Any (free_tables 1024 0 pgdir k1) _ (free_tables-Ends 1024 0 pgdir k1)
              (λ k2 u. release_page-Ends pgdir k2)))

map_all-Ends :
    (pgdir : ℕ) (rs : List Kmap) (k : Kmem)
    → All (λ (r : Kmap). r.virt < 2 ^ 32) rs
    → Ends Any (map_all pgdir rs k)
unfolding map_all
map_all-Ends pgdir [] k h = tt
map_all-Ends pgdir (r ∷ rs) k (l, h) =
    Ends-and_then Any Any (mappages pgdir r.virt _ r.phys_start r.perm k) _
      (mappages-Ends pgdir r.virt _ r.phys_start r.perm k l)
      (λ (ok, k1) u.
        Ends-if Any ok _ _ (λ o. map_all-Ends pgdir rs k1 h)
          (λ o. Ends-and_then Any Any (freevm pgdir k1) _ (freevm-Ends pgdir k1) (λ k2 u'. tt)))

rows : (data_addr : ℕ) → data_addr < 2 ^ 32 → All (λ (r : Kmap). r.virt < 2 ^ 32) (kmap data_addr)
unfolding kmap
rows data_addr l = (omega arith, (omega arith, (l, (omega arith, tt))))

setupkvm-Ends : (data_addr : ℕ) (k : Kmem) → data_addr < 2 ^ 32 → Ends Any (setupkvm data_addr k)
unfolding setupkvm kmap
setupkvm-Ends data_addr k l = at (kalloc k)
  where
    at :
        (r : ℕ × Kmem)
        → Ends {A = Option ℕ × Kmem} Any (
            if r.0 == 0
            then done (none, r.1)
            else if ltb devspace (p2v phystop)
            then panics
            else map_all r.0 (kmap data_addr) (record r.1 { mem = zero_page r.0 r.1.mem }))
    at (pgdir, k1) =
        Ends-if Any (pgdir == 0) _ _ (λ b. tt)
          (λ b.
            Ends-if Any (ltb devspace (p2v phystop)) panics _ (λ c. tt)
              (λ c.
                map_all-Ends pgdir (kmap data_addr) (record k1 { mem = zero_page pgdir k1.mem })
                  (rows data_addr l)))

copy_pages-Ends :
    (n pgdir d i sz : ℕ) (k : Kmem)
    → sz ≤ 2 ^ 32 - pgsize
    → 0 < n
    → sz + pgsize ≤ i + pgsize * n
    → Ends Any (copy_pages n pgdir d i sz k)
unfolding copy_pages
copy_pages-Ends zero pgdir d i sz k top p l = absurd (omega arith)
copy_pages-Ends (suc n) pgdir d i sz k top p l =
    Ends-if Any (ltb i sz) _ (done (some d, k))
      (λ b.
        let lt : i < sz = ground arith in
        round lt
          (λ k1.
            copy_pages-Ends n pgdir d ((i + pgsize) % 2 ^ 32) sz k1 top (omega arith) (omega arith))
          (walkpgdir pgdir i false k).0 (kalloc k))
      (λ b. tt)
  where
    dropped : (k : Kmem) → Ends Any (drop_copy d k)
    dropped k = Ends-and_then Any Any (freevm d k) _ (freevm-Ends d k) (λ k1 u. tt)

    round :
        i < sz
        → ((k : Kmem) → Ends Any (copy_pages n pgdir d ((i + pgsize) % 2 ^ 32) sz k))
        → (r : Option ℕ) (a : ℕ × Kmem)
        → Ends Any (elim r as (λ _. Run (Option ℕ × Kmem)) [
          | none ↦ panics
          | some pte ↦
              let w = k.mem pte in
              if not (pte_p w)
              then panics
              else if a.0 == 0
              then drop_copy d a.1
              else and_then
                  (mappages d i pgsize
                    (v2p a.0)
                    (pte_flags w)
                    (record a.1 { mem = copy_page a.0 (p2v (pte_addr w)) a.1.mem }))
                  (λ (ok, k3).
                    if ok
                    then copy_pages n pgdir d ((i + pgsize) % 2 ^ 32) sz k3
                    else and_then (release_page a.0 k3) (drop_copy d))
        ])
    round lt ih none a = tt
    round lt ih (some pte) (page, k1) =
        Ends-if Any (not (pte_p (k.mem pte))) panics _ (λ b. tt)
          (λ b.
            Ends-if Any (page == 0) _ _ (λ c. dropped k1)
              (λ c.
                Ends-and_then Any Any (mappages d i pgsize (v2p page) (pte_flags (k.mem pte)) _) _
                  (mappages-Ends d i pgsize (v2p page) (pte_flags (k.mem pte)) _ (omega arith))
                  (λ (ok, k3) u.
                    Ends-if Any ok _ _ (λ o. ih k3)
                      (λ o.
                        Ends-and_then Any Any (release_page page k3) _ (release_page-Ends page k3)
                          (λ k4 u'. dropped k4)))))

-- `copyuvm` ends, whatever the page tables hold, in a panic or a return, if the linker's address is a
-- 32-bit one and the size at most 2^32 - PGSIZE. With a larger size the counter of the loop wraps to 0.
pub copyuvm-Ends :
    (data_addr pgdir sz : ℕ) (k : Kmem)
    → data_addr < 2 ^ 32
    → sz ≤ 2 ^ 32 - pgsize
    → Ends Any (copyuvm data_addr pgdir sz k)
unfolding copyuvm
copyuvm-Ends data_addr pgdir sz k l top =
    Ends-and_then Any Any (setupkvm data_addr k) _ (setupkvm-Ends data_addr k l)
      (λ (r, k1) u. at r k1)
  where
    at :
        (r : Option ℕ) (k : Kmem)
        → Ends Any (elim r as (λ _. Run (Option ℕ × Kmem)) [
          | none ↦ done (none, k)
          | some d ↦ copy_pages (sz / pgsize + 2) pgdir d 0 sz k
        ])
    at none k = tt
    at (some d) k =
        copy_pages-Ends (sz / pgsize + 2) pgdir d 0 sz k (omega arith) (omega arith) (omega arith)
