-- ===== src/Xv6/Vm/Spaces/Sizes.antt =====
-- The size that a process has after `growproc`.
use os_projects.Base.{
  ℕ, zero, suc, ◌+◌, ◌-◌, ◌*◌, ◌/◌, ◌%◌, ◌^◌, ◌≤◌, ◌<◌, ◌≡◌, ◌⊎◌, inl, inr, refl, ltb, leb, false,
  ◌&&◌, ◌==◌, if◌then◌else◌, Option, none, some, Bool-cases, arith,
}
use os_projects.Xv6.Kalloc.{Kmem, pgsize, kernbase, v2p, kalloc, pgroundup}
use os_projects.Xv6.Vm.{
  Run, done, panics, out_of_fuel, and_then, release_page, zero_page, mappages, deallocuvm, give_up,
  add_from, allocuvm,
}
use os_projects.Xv6.Vm.Spaces.{growproc}
use os_projects.Xv6.Vm.Ends.{
  Ends, Ends-and_then, Ends-if, Any, release_page-Ends, mappages-Ends, deallocuvm-Ends,
}

-- The size that `allocuvm` returns, or 0.
abbrev IsGrown : ℕ → ℕ × Kmem → Type 0
IsGrown newsz (r, k) = (r ≡ 0) ⊎ (r ≡ newsz)

give_up-Ends :
    (pgdir oldsz newsz : ℕ) (k : Kmem)
    → newsz ≤ kernbase
    → Ends (λ (r : ℕ × Kmem). r.0 ≡ 0) (give_up pgdir oldsz newsz k)
give_up-Ends pgdir oldsz newsz k top =
    Ends-and_then _ (λ (r : ℕ × Kmem). r.0 ≡ 0) (deallocuvm pgdir newsz oldsz k) _
      (deallocuvm-Ends pgdir newsz oldsz k top) (λ (r, k1) e. refl)

add_from-Ends :
    (n pgdir a oldsz newsz : ℕ) (k : Kmem)
    → newsz < kernbase
    → 0 < n
    → newsz + pgsize ≤ a + pgsize * n
    → Ends (IsGrown newsz) (add_from n pgdir a oldsz newsz k)
unfolding add_from
add_from-Ends zero pgdir a oldsz newsz k top p l = absurd (omega arith)
add_from-Ends (suc n) pgdir a oldsz newsz k top p l =
    Ends-if (IsGrown newsz) (ltb a newsz) _ (done (newsz, k))
      (λ b.
        let lt : a < newsz = ground arith in
        round lt
          (λ k1.
            add_from-Ends n pgdir ((a + pgsize) % 2 ^ 32) oldsz newsz k1 top (omega arith)
              (omega arith))
          (kalloc k))
      (λ b. inr refl)
  where
    taken :
        (page : ℕ) (k : Kmem)
        → Ends (IsGrown newsz) (
            and_then
              (give_up pgdir oldsz newsz k)
              (λ (r, k4). and_then (release_page page k4) (λ k5. done (0, k5))))
    taken page k =
        Ends-and_then _ (IsGrown newsz) (give_up pgdir oldsz newsz k) _
          (give_up-Ends pgdir oldsz newsz k (omega arith))
          (λ (r, k4) e.
            Ends-and_then Any (IsGrown newsz) (release_page page k4) _ (release_page-Ends page k4)
              (λ k5 u. inl refl))

    round :
        a < newsz
        → ((k : Kmem)
            → Ends (IsGrown newsz) (add_from n pgdir ((a + pgsize) % 2 ^ 32) oldsz newsz k))
        → (r : ℕ × Kmem)
        → Ends (IsGrown newsz) (
            if r.0 == 0
            then give_up pgdir oldsz newsz r.1
            else and_then
                (mappages pgdir a pgsize (v2p r.0) 6 (record r.1 { mem = zero_page r.0 r.1.mem }))
                (λ (ok, k3).
                  if ok
                  then add_from n pgdir ((a + pgsize) % 2 ^ 32) oldsz newsz k3
                  else and_then
                      (give_up pgdir oldsz newsz k3)
                      (λ (r', k4). and_then (release_page r.0 k4) (λ k5. done (0, k5)))))
    round lt ih (page, k1) =
        Ends-if (IsGrown newsz) (page == 0) _ _
          (λ e.
            Ends-map (give_up pgdir oldsz newsz k1)
              (give_up-Ends pgdir oldsz newsz k1 (omega arith)))
          (λ e.
            Ends-and_then Any (IsGrown newsz)
              (mappages pgdir a pgsize (v2p page) 6 (record k1 { mem = zero_page page k1.mem })) _
              (mappages-Ends pgdir a pgsize (v2p page) 6 _ (omega arith))
              (λ (ok, k3) u. Ends-if (IsGrown newsz) ok _ _ (λ o. ih k3) (λ o. taken page k3)))
      where
        Ends-map :
            (r : Run (ℕ × Kmem)) → Ends (λ (r : ℕ × Kmem). r.0 ≡ 0) r → Ends (IsGrown newsz) r
        Ends-map (done (r, k)) e = inl e
        Ends-map panics e = tt
        Ends-map out_of_fuel e = e

-- What `allocuvm` returns for two sizes.
abbrev Allocs : ℕ → ℕ → ℕ × Kmem → Type 0
Allocs oldsz newsz (r, k) =
    (r ≡ 0) ⊎ ((newsz < kernbase) × (r ≡ (if ltb newsz oldsz then oldsz else newsz)))

allocuvm-Ends :
    (pgdir oldsz newsz : ℕ) (k : Kmem) → Ends (Allocs oldsz newsz) (allocuvm pgdir oldsz newsz k)
unfolding allocuvm
allocuvm-Ends pgdir oldsz newsz k =
    Ends-if (Allocs oldsz newsz) (leb kernbase newsz) _ _ (λ b. inl refl)
      (λ b.
        Ends-if (Allocs oldsz newsz) (ltb newsz oldsz) _ _ (λ c. inr (ground arith, rw c refl))
          (λ c.
            Ends-and (add_from (newsz / pgsize + 2) pgdir (pgroundup oldsz) oldsz newsz k)
              (ground arith) c
              (add_from-Ends (newsz / pgsize + 2) pgdir (pgroundup oldsz) oldsz newsz k
                (ground arith) (omega arith) (omega arith))))
  where
    Ends-and :
        (r : Run (ℕ × Kmem))
        → newsz < kernbase
        → ltb newsz oldsz ≡ false
        → Ends (IsGrown newsz) r
        → Ends (Allocs oldsz newsz) r
    Ends-and (done (r, k)) l c (inl e) = inl e
    Ends-and (done (r, k)) l c (inr e) = inr (l, rw c e)
    Ends-and panics l c e = tt
    Ends-and out_of_fuel l c e = e

-- The sizes that `growproc` returns for an int `n`; -1 is `none`.
abbrev pub Resizes : ℕ → ℕ → Option ℕ × Kmem → Type 0
Resizes sz n (some s, k) =
    (s < kernbase)
    × ((n ≡ 0) ⊎ (0 < s))
    × (s ≡ (
        if ltb n (2 ^ 31) then sz + n else if ltb (sz + n) (2 ^ 32) then sz else sz + n - 2 ^ 32))
Resizes sz n (none, k) = (0 < n) × ((n < 2 ^ 31) ⊎ ((sz ≡ 0) ⊎ (sz + n ≡ 2 ^ 32)))

-- `growproc` of a process of less than KERNBASE bytes ends, in a panic or a return. The size that it returns is
-- less than KERNBASE, not 0 unless `n` is, and the sum of the old size and the int `n`, unless that is negative,
-- where it is the old size. It returns -1 only for a positive `n`, or for a negative one in a process that has no
-- memory or would have none left.
pub growproc_lem :
    (pgdir sz n : ℕ) (k : Kmem)
    → sz < kernbase
    → n < 2 ^ 32
    → Ends (Resizes sz n) (growproc pgdir sz n k)
unfolding growproc
growproc_lem pgdir sz n k l w =
    Ends-if (Resizes sz n) (ltb 0 n && ltb n (2 ^ 31)) _ _
      (λ b.
        Ends-and_then (Allocs sz ((sz + n) % 2 ^ 32)) (Resizes sz n)
          (allocuvm pgdir sz ((sz + n) % 2 ^ 32) k) _ (allocuvm-Ends pgdir sz ((sz + n) % 2 ^ 32) k)
          (λ (r, k1) h. grown (ground arith) (ground arith) r k1 h))
      (λ b.
        Ends-if (Resizes sz n) (leb (2 ^ 31) n) _ _
          (λ c.
            Ends-and_then _ (Resizes sz n) (deallocuvm pgdir sz ((sz + n) % 2 ^ 32) k) _
              (deallocuvm-Ends pgdir sz ((sz + n) % 2 ^ 32) k (omega arith))
              (λ (r, k1) h. shrunk (ground arith) r k1 h))
          (λ c. (l, inl (ground arith), ground arith)))
  where
    grown :
        0 < n
        → n < 2 ^ 31
        → (r : ℕ) (k : Kmem) → Allocs sz ((sz + n) % 2 ^ 32) (r, k)
        → Resizes sz n (if r == 0 then none else some r, k)
    grown p m r k h = elim (Bool-cases (r == 0)) [
      | inl e ↦ rw e (p, inl m)
      | inr e ↦ rw e (ground arith, inr (ground arith), ground arith)
    ]

    shrunk :
        2 ^ 31 ≤ n
        → (r : ℕ) (k : Kmem) → r ≡ (if leb sz ((sz + n) % 2 ^ 32) then sz else (sz + n) % 2 ^ 32)
        → Resizes sz n (if r == 0 then none else some r, k)
    shrunk m r k h = elim (Bool-cases (r == 0)) [
      | inl e ↦ rw e (omega arith, ground arith)
      | inr e ↦ rw e (ground arith, inr (ground arith), ground arith)
    ]
