-- ===== src/Xv6/Vm/Tables.antt =====
-- The entries of a page table, and what `walkpgdir` and `mappages` make of them.
pub mod Maps
use os_projects.Base.{
  ℕ, zero, suc, ◌+◌, ◌-◌, ◌*◌, ◌/◌, ◌%◌, ◌^◌, ◌≤◌, ◌<◌, ◌≡◌, ◌≢◌, ◌⊎◌, inl, inr, refl, sym, ap,
  subst, ◌∙◌, ltb, leb, Bool, true, false, not, ◌&&◌, ◌||◌, ◌==◌, if◌then◌else◌, Option, none, some,
  update, update_self, update_ne, Bool-cases, ℕ_discrete, arith,
}
use os_projects.Xv6.Kalloc.{Kmem, pgsize, kernbase, v2p, kalloc}
use os_projects.Xv6.Vm.{p2v, pdx, ptx, pte_addr, pte_p, bit_or, zero_page, walkpgdir}
use os_projects.Xv6.Vm.Bits.{pte_addr-bit_or, bit_or_low}

-- The directory has its tables in pages of their own, none of which is the next free page.
abbrev pub table : ℕ → Kmem → ℕ → ℕ
table pgdir k i = p2v (pte_addr (k.mem (pgdir + 4 * i)))

abbrev pub present : ℕ → Kmem → ℕ → Bool
present pgdir k i = pte_p (k.mem (pgdir + 4 * i))

abbrev pub IsFreePage : ℕ → Type 0
IsFreePage p = (p % pgsize ≡ 0) × (kernbase ≤ p) × (p < 2 ^ 32)

pub record IsDirectory (pgdir : ℕ) (k : Kmem) : Type 0 where
  pub aligned : pgdir % pgsize ≡ 0
  pub free : (k.freelist ≡ 0) ⊎ IsFreePage k.freelist
  pub apart : k.freelist ≢ pgdir
  pub tables :
      (i : ℕ)
      → i < 1024
      → present pgdir k i ≡ true
      → (table pgdir k i ≢ pgdir) × (table pgdir k i ≢ k.freelist)
  pub distinct :
      (i j : ℕ)
      → i < 1024
      → j < 1024
      → present pgdir k i ≡ true
      → present pgdir k j ≡ true
      → i ≢ j
      → table pgdir k i ≢ table pgdir k j

-- The address of the entry of an address.
abbrev pub entry : ℕ → Kmem → ℕ → Option ℕ
entry pgdir k va =
    if present pgdir k (pdx va) then some (table pgdir k (pdx va) + 4 * ptx va) else none

abbrev pub page_of : ℕ → ℕ
page_of va = va / pgsize % 2 ^ 20

-- What holds of an entry that was there for an address of another page.
abbrev pub Stays : ℕ → Kmem → Kmem → ℕ → ℕ → Type 0
Stays pgdir k k1 va pte =
    (va' e : ℕ)
    → entry pgdir k va' ≡ some e
    → (entry pgdir k1 va' ≡ some e) × (k1.mem e ≡ k.mem e) × (page_of va' ≢ page_of va → e ≢ pte)

-- What `walkpgdir` comes to for an address.
abbrev pub Walks : ℕ → ℕ → Kmem → Option ℕ × Kmem → Type 0
Walks pgdir va k (none, k1) = (entry pgdir k va ≡ none) × (k1.mem ≡ k.mem)
Walks pgdir va k (some pte, k1) =
    (entry pgdir k1 va ≡ some pte)
    × ((entry pgdir k va ≡ some pte) ⊎ ((entry pgdir k va ≡ none) × (k1.mem pte ≡ 0)))
    × Stays pgdir k k1 va pte
    × ((i : ℕ) → i < 1024 → pgdir + 4 * i ≢ pte)

-- The directory entry of a new table.
abbrev new_table : ℕ → ℕ → Kmem → Kmem
new_table pgdir i k = record k {
  mem = update (zero_page k.freelist k.mem) (pgdir + 4 * i) (bit_or 32 (v2p k.freelist) 7);
  freelist = k.mem k.freelist;
}

walks_found :
    (pgdir va : ℕ) (k : Kmem)
    → present pgdir k (pdx va) ≡ true
    → walkpgdir pgdir va true k ≡ (some (table pgdir k (pdx va) + 4 * ptx va), k)
unfolding walkpgdir kalloc
walks_found pgdir va k t = rw t refl

walks_out :
    (pgdir va : ℕ) (k : Kmem)
    → present pgdir k (pdx va) ≡ false
    → (k.freelist == 0) ≡ true
    → walkpgdir pgdir va true k ≡ (none, k)
unfolding walkpgdir kalloc
walks_out pgdir va k t z = rw (t, z) refl

walks_new :
    (pgdir va : ℕ) (k : Kmem)
    → present pgdir k (pdx va) ≡ false
    → (k.freelist == 0) ≡ false
    → walkpgdir pgdir va true k ≡ (some (k.freelist + 4 * ptx va), new_table pgdir (pdx va) k)
unfolding walkpgdir kalloc
walks_new pgdir va k t z = rw (t, z) refl

-- An entry that is there.
entry-eq :
    (pgdir : ℕ) (k : Kmem) (va e : ℕ)
    → entry pgdir k va ≡ some e
    → (present pgdir k (pdx va) ≡ true) × (e ≡ table pgdir k (pdx va) + 4 * ptx va)
entry-eq pgdir k va e h = at (present pgdir k (pdx va)) h
  where
    at :
        (b : Bool)
        → (if b then some (table pgdir k (pdx va) + 4 * ptx va) else none) ≡ some e
        → (b ≡ true) × (e ≡ table pgdir k (pdx va) + 4 * ptx va)
    at true h = (refl, ground arith)
    at false h = absurd (ground arith)

eq-entry :
    (pgdir : ℕ) (k : Kmem) (va : ℕ)
    → present pgdir k (pdx va) ≡ true
    → entry pgdir k va ≡ some (table pgdir k (pdx va) + 4 * ptx va)
eq-entry pgdir k va t = rw t refl

found :
    (pgdir va : ℕ) (k : Kmem)
    → IsDirectory pgdir k
    → present pgdir k (pdx va) ≡ true
    → Walks pgdir va k (some (table pgdir k (pdx va) + 4 * ptx va), k)
found pgdir va k d t = (
  eq-entry pgdir k va t,
  inl (eq-entry pgdir k va t),
  (λ va' e h.
      let (t', q) = entry-eq pgdir k va' e h in
      (h, refl, λ ne. other va' e q t' ne (ℕ_discrete (pdx va') (pdx va)))),
  λ i l q. let (o, o') = d.tables (pdx va) (omega arith) t in o (let a = d.aligned in omega arith),
)
  where
    other :
        (va' e : ℕ)
        → e ≡ table pgdir k (pdx va') + 4 * ptx va'
        → present pgdir k (pdx va') ≡ true
        → page_of va' ≢ page_of va
        → Dec (pdx va' ≡ pdx va)
        → e ≢ table pgdir k (pdx va) + 4 * ptx va
    other va' e q t' ne (yes s) = λ r.
        let same : table pgdir k (pdx va') ≡ table pgdir k (pdx va) = ap (table pgdir k) s in
        ne (omega arith)
    other va' e q t' ne (no n) =
        λ r. d.distinct (pdx va') (pdx va) (omega arith) (omega arith) t' t n (omega arith)

new_self :
    (pgdir i : ℕ) (k : Kmem)
    → (new_table pgdir i k).mem (pgdir + 4 * i) ≡ bit_or 32 (v2p k.freelist) 7
new_self pgdir i k =
    update_self (zero_page k.freelist k.mem) (pgdir + 4 * i) (bit_or 32 (v2p k.freelist) 7)

new_other :
    (pgdir i : ℕ) (k : Kmem) (x : ℕ)
    → (x < k.freelist) ⊎ (k.freelist + pgsize ≤ x)
    → pgdir + 4 * i ≢ x
    → (new_table pgdir i k).mem x ≡ k.mem x
new_other pgdir i k x out ne =
    update_ne (zero_page k.freelist k.mem) (pgdir + 4 * i) x (bit_or 32 (v2p k.freelist) 7) ne
    ∙ zeroed out
  where
    zeroed : (x < k.freelist) ⊎ (k.freelist + pgsize ≤ x) → zero_page k.freelist k.mem x ≡ k.mem x
    zeroed (inl l) = ground arith
    zeroed (inr l) = ground arith

-- A place in a page of its own.
outside :
    (p q x : ℕ)
    → p % pgsize ≡ 0
    → q % pgsize ≡ 0
    → q ≢ p
    → x < pgsize
    → (q + x < p) ⊎ (p + pgsize ≤ q + x)
outside p q x a b ne l = omega arith

added :
    (pgdir va : ℕ) (k : Kmem)
    → IsDirectory pgdir k
    → present pgdir k (pdx va) ≡ false
    → IsFreePage k.freelist
    → Walks pgdir va k (some (k.freelist + 4 * ptx va), new_table pgdir (pdx va) k)
added pgdir va k d t (a, b, c) = (
  eq-entry pgdir new va there ∙ ap (λ x. some (x + 4 * ptx va)) table_new,
  inr (rw t refl, zero),
  stay,
  λ i l q. d.apart (let g = d.aligned in omega arith),
)
  where
    new : Kmem
    new = new_table pgdir (pdx va) k

    there : present pgdir new (pdx va) ≡ true
    there =
        let o = bit_or_low 31 (v2p k.freelist) 7 (omega arith) in
        rw (new_self pgdir (pdx va) k) (ground arith)

    table_new : table pgdir new (pdx va) ≡ k.freelist
    table_new =
        let o = pte_addr-bit_or (v2p k.freelist) 7 (omega arith) (omega arith) in
        rw (new_self pgdir (pdx va) k) (omega (arith, o))

    zero : new.mem (k.freelist + 4 * ptx va) ≡ 0
    zero = let ap = d.apart in let g = d.aligned in ground arith

    clash : (va' : ℕ) → pdx va ≡ pdx va' → present pgdir k (pdx va') ≡ true → ⊥
    clash va' i t' =
        let f : present pgdir k (pdx va') ≡ false = subst (λ j. present pgdir k j ≡ false) i t in
        ground arith

    stay : Stays pgdir k new va (k.freelist + 4 * ptx va)
    stay va' e h = at (entry-eq pgdir k va' e h)
      where
        at :
            (present pgdir k (pdx va') ≡ true) × (e ≡ table pgdir k (pdx va') + 4 * ptx va')
            → (entry pgdir new va' ≡ some e)
              × (new.mem e ≡ k.mem e)
              × (page_of va' ≢ page_of va → e ≢ k.freelist + 4 * ptx va)
        at (t', q) =
            let (o, o') = d.tables (pdx va') (omega arith) t' in
            let g = d.aligned in
            let ap' = d.apart in
            let other : pgdir + 4 * pdx va ≢ pgdir + 4 * pdx va' =
              λ s. let i : pdx va ≡ pdx va' = omega arith in clash va' i t' in
            let pde : new.mem (pgdir + 4 * pdx va') ≡ k.mem (pgdir + 4 * pdx va') =
              new_other pgdir (pdx va) k (pgdir + 4 * pdx va')
                (outside k.freelist pgdir (4 * pdx va') a g (λ s. ap' (sym s)) (omega arith))
                other in
            let far : (e < k.freelist) ⊎ (k.freelist + pgsize ≤ e) = omega arith in
            (
              ap (λ w. if pte_p w then some (p2v (pte_addr w) + 4 * ptx va') else none) pde ∙ h,
              new_other pgdir (pdx va) k e far (λ s. o (omega arith)),
              λ ne s. o' (omega arith),
            )

-- `walkpgdir` with `alloc` on a directory whose tables are apart: it finds the entry of the address, or adds a table
-- of zeros for it, in which case the entry is zero; or it fails, changing no word, if there is neither a table nor a
-- free page. Every entry that was there stays where and as it was, and is not the one for another page.
pub walkpgdir_lem :
    (pgdir va : ℕ) (k : Kmem) → IsDirectory pgdir k → Walks pgdir va k (walkpgdir pgdir va true k)
walkpgdir_lem pgdir va k d = elim (Bool-cases (present pgdir k (pdx va))) [
  | inl t ↦ subst (Walks pgdir va k) (sym (walks_found pgdir va k t)) (found pgdir va k d t)
  | inr t ↦ elim (Bool-cases (k.freelist == 0)) [
    | inl z ↦ subst (Walks pgdir va k) (sym (walks_out pgdir va k t z)) (rw t refl, refl)
    | inr z ↦
        subst (Walks pgdir va k) (sym (walks_new pgdir va k t z))
          (added pgdir va k d t (free d.free (ground arith)))
  ]
]
  where
    free : (k.freelist ≡ 0) ⊎ IsFreePage k.freelist → k.freelist ≢ 0 → IsFreePage k.freelist
    free (inl e) n = absurd (n e)
    free (inr p) n = p
