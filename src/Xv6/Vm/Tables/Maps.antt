-- ===== src/Xv6/Vm/Tables/Maps.antt =====
-- What `mappages` of one page adds to an address space.
use os_projects.Base.{
  ℕ, zero, suc, ◌+◌, ◌-◌, ◌*◌, ◌/◌, ◌%◌, ◌^◌, ◌<◌, ◌≡◌, ◌≢◌, ◌⊎◌, inl, inr, refl, sym, ap, subst,
  ◌∙◌, Bool, true, false, ◌==◌, if◌then◌else◌, Option, none, some, update, update_self, update_ne,
  Bool-cases, arith,
}
use os_projects.Xv6.Kalloc.{Kmem, pgsize}
use os_projects.Xv6.Vm.{
  Run, done, panics, out_of_fuel, pgrounddown, p2v, pdx, ptx, pte_addr, pte_p, pte_u, poke,
  walkpgdir, map_from, mappages, uva2ka,
}
use os_projects.Xv6.Vm.Bits.{mapped, mapped-pte_p, mapped-pte_addr, mapped-pte_u}
use os_projects.Xv6.Vm.Tables.{IsDirectory, present, entry, page_of, Stays, Walks, walkpgdir_lem}

-- The word of the entry for an address, where its table is there.
abbrev pub pte_of : ℕ → Kmem → ℕ → Option ℕ
pte_of pgdir k va = elim (entry pgdir k va) [ none ↦ none | some e ↦ some (k.mem e) ]

-- What `mappages` comes to for the page of an address.
abbrev pub Maps : ℕ → ℕ → ℕ → ℕ → Kmem → Run (Bool × Kmem) → Type 0
Maps pgdir va pa perm k (done (true, k')) =
    (pte_of pgdir k' va ≡ some (mapped pa perm))
    × ((va' w : ℕ)
        → page_of va' ≢ page_of va
        → pte_of pgdir k va' ≡ some w
        → pte_of pgdir k' va' ≡ some w)
Maps pgdir va pa perm k (done (false, k')) = (pte_of pgdir k va ≡ none) × (k'.mem ≡ k.mem)
Maps pgdir va pa perm k panics = (w : ℕ) × (pte_of pgdir k va ≡ some w) × (pte_p w ≡ true)
Maps pgdir va pa perm k out_of_fuel = ⊥

-- The one round.
abbrev round : ℕ → ℕ → ℕ → ℕ → Option ℕ × Kmem → Run (Bool × Kmem)
round pgdir va pa perm (r, k1) = elim r as (λ _. Run (Bool × Kmem)) [
  | none ↦ done (false, k1)
  | some pte ↦ if pte_p (k1.mem pte) then panics else done (true, poke pte (mapped pa perm) k1)
]

one_round :
    (n pgdir a last pa perm : ℕ) (k : Kmem)
    → (a == last) ≡ true
    → map_from (suc n) pgdir a last pa perm k ≡ round pgdir a pa perm (walkpgdir pgdir a true k)
unfolding map_from
one_round n pgdir a last pa perm k e = at (walkpgdir pgdir a true k)
  where
    at :
        (r : Option ℕ × Kmem)
        → elim r.0 as (λ _. Run (Bool × Kmem)) [
          | none ↦ done (false, r.1)
          | some pte ↦
              let k2 = poke pte (mapped pa perm) r.1 in
              if pte_p (r.1.mem pte)
              then panics
              else if a == last
              then done (true, k2)
              else map_from n pgdir ((a + pgsize) % 2 ^ 32) last ((pa + pgsize) % 2 ^ 32) perm k2
        ]
          ≡ round pgdir a pa perm r
    at (none, k1) = refl
    at (some pte, k1) = rw e refl

mappages-round :
    (pgdir va pa perm : ℕ) (k : Kmem)
    → va % pgsize ≡ 0
    → va < 2 ^ 32
    → mappages pgdir va pgsize pa perm k ≡ round pgdir va pa perm (walkpgdir pgdir va true k)
unfolding mappages
mappages-round pgdir va pa perm k d l =
    let first : pgrounddown va ≡ va = omega arith in
    let last : pgrounddown ((va + pgsize + 2 ^ 32 - 1) % 2 ^ 32) ≡ va = omega arith in
    let one : (va + 2 ^ 32 - va) % 2 ^ 32 / pgsize + 1 ≡ suc zero = omega arith in
    rw (first, last, one) (one_round zero pgdir va va pa perm k (ground arith))

-- A word of an entry.
pte_of-eq :
    (pgdir : ℕ) (k : Kmem) (va e : ℕ)
    → entry pgdir k va ≡ some e
    → pte_of pgdir k va ≡ some (k.mem e)
pte_of-eq pgdir k va e h = rw (h, pte_of) refl

eq-pte_of :
    (pgdir : ℕ) (k : Kmem) (va w : ℕ)
    → pte_of pgdir k va ≡ some w
    → (e : ℕ) × (entry pgdir k va ≡ some e) × (k.mem e ≡ w)
eq-pte_of pgdir k va w h = at (entry pgdir k va) h
  where
    at :
        (r : Option ℕ)
        → elim r as (λ _. Option ℕ) [ none ↦ none | some e ↦ some (k.mem e) ] ≡ some w
        → (e : ℕ) × (r ≡ some e) × (k.mem e ≡ w)
    at none h = absurd (ground arith)
    at (some e) h = (e, refl, ground arith)

-- A write to a word outside of the directory moves no entry.
entry-poke :
    (pgdir pte w : ℕ) (k : Kmem) (va : ℕ)
    → ((i : ℕ) → i < 1024 → pgdir + 4 * i ≢ pte)
    → entry pgdir (poke pte w k) va ≡ entry pgdir k va
entry-poke pgdir pte w k va away =
    let pde : update k.mem pte w (pgdir + 4 * pdx va) ≡ k.mem (pgdir + 4 * pdx va) =
      update_ne k.mem pte (pgdir + 4 * pdx va) w (λ s. away (pdx va) (omega arith) (sym s)) in
    ap (λ x. if pte_p x then some (p2v (pte_addr x) + 4 * ptx va) else none) pde

poked :
    (pgdir va pte pa perm : ℕ) (k k1 : Kmem)
    → Walks pgdir va k (some pte, k1)
    → Maps pgdir va pa perm k (done (true, poke pte (mapped pa perm) k1))
poked pgdir va pte pa perm k k1 (e, f, stays, away) = (
  pte_of-eq pgdir k2 va pte (entry-poke pgdir pte (mapped pa perm) k1 va away ∙ e)
      ∙ ap some (update_self k1.mem pte (mapped pa perm)),
  λ va' w ne h. other va' w ne (eq-pte_of pgdir k va' w h),
)
  where
    k2 : Kmem
    k2 = poke pte (mapped pa perm) k1

    other :
        (va' w : ℕ)
        → page_of va' ≢ page_of va
        → (e : ℕ) × (entry pgdir k va' ≡ some e) × (k.mem e ≡ w)
        → pte_of pgdir k2 va' ≡ some w
    other va' w ne (e', h, q) =
        let (a, b, c) = stays va' e' h in
        pte_of-eq pgdir k2 va' e' (entry-poke pgdir pte (mapped pa perm) k1 va' away ∙ a)
        ∙ ap some (update_ne k1.mem pte e' (mapped pa perm) (λ s. c ne (sym s)) ∙ b ∙ q)

-- `mappages` of one page on a directory whose tables are apart, for an address of a page: if it succeeds, the entry
-- of the address is the physical address with the permissions and PTE_P, and every other page that had an entry
-- keeps it. It fails only if the page has no entry and no table can be added, changing no word, and panics only if
-- the entry is present.
pub mappages_lem :
    (pgdir va pa perm : ℕ) (k : Kmem)
    → IsDirectory pgdir k
    → va % pgsize ≡ 0
    → va < 2 ^ 32
    → Maps pgdir va pa perm k (mappages pgdir va pgsize pa perm k)
mappages_lem pgdir va pa perm k d a l =
    subst (Maps pgdir va pa perm k) (sym (mappages-round pgdir va pa perm k a l))
      (at (walkpgdir pgdir va true k) (walkpgdir_lem pgdir va k d))
  where
    remap :
        (pte : ℕ) (k1 : Kmem)
        → pte_p (k1.mem pte) ≡ true
        → Stays pgdir k k1 va pte
        → (entry pgdir k va ≡ some pte) ⊎ ((entry pgdir k va ≡ none) × (k1.mem pte ≡ 0))
        → (w : ℕ) × (pte_of pgdir k va ≡ some w) × (pte_p w ≡ true)
    remap pte k1 t stays (inl h) =
        let (a, b, c) = stays va pte h in
        (k.mem pte, pte_of-eq pgdir k va pte h, ap pte_p (sym b) ∙ t)
    remap pte k1 t stays (inr (h, z)) = absurd (ground arith)

    at :
        (r : Option ℕ × Kmem)
        → Walks pgdir va k r
        → Maps pgdir va pa perm k (round pgdir va pa perm r)
    at (none, k1) (e, m) = (rw (e, pte_of) refl, m)
    at (some pte, k1) (e, f, stays, away) = elim (Bool-cases (pte_p (k1.mem pte))) [
      | inl t ↦ rw t (remap pte k1 t stays f)
      | inr t ↦ rw t (poked pgdir va pte pa perm k k1 (e, f, stays, away))
    ]

walkpgdir-entry : (pgdir va : ℕ) (k : Kmem) → (walkpgdir pgdir va false k).0 ≡ entry pgdir k va
unfolding walkpgdir
walkpgdir-entry pgdir va k = elim (Bool-cases (present pgdir k (pdx va))) [
  | inl t ↦ rw t refl
  | inr t ↦ rw t refl
]

-- The address of a page that has just been mapped for the user, at a physical page's address, is found by `uva2ka`.
pub uva2ka-mappages :
    (pgdir va pa perm : ℕ) (k k' : Kmem)
    → IsDirectory pgdir k
    → va % pgsize ≡ 0
    → va < 2 ^ 32
    → pa % pgsize ≡ 0
    → pa < 2 ^ 32
    → perm < pgsize
    → pte_u perm ≡ true
    → mappages pgdir va pgsize pa perm k ≡ done (true, k')
    → uva2ka pgdir va k' ≡ some (p2v pa)
unfolding uva2ka
uva2ka-mappages pgdir va pa perm k k' d a l a' l' m u e =
    let maps = subst (Maps pgdir va pa perm k) e (mappages_lem pgdir va pa perm k d a l) in
    at (eq-pte_of pgdir k' va (mapped pa perm) maps.0)
  where
    at :
        (e : ℕ) × (entry pgdir k' va ≡ some e) × (k'.mem e ≡ mapped pa perm)
        → uva2ka pgdir va k' ≡ some (p2v pa)
    at (e, h, q) =
        let addr : pte_addr (mapped pa perm) ≡ pa = mapped-pte_addr pa perm l' m ∙ omega arith in
        rw (walkpgdir-entry pgdir va k', h, q, mapped-pte_p pa perm, mapped-pte_u pa perm u, addr)
          refl
