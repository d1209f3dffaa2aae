-- ===== src/Xv6/Vm/Ends.antt =====
-- The loops over page tables end.

use os_projects.Base.{
  ℕ, zero, suc, ◌+◌, ◌-◌, ◌*◌, ◌/◌, ◌%◌, ◌^◌, ◌≤◌, ◌<◌, ◌≡◌, inl, inr, refl, ltb, leb, Bool, true,
  false, ◌==◌, if◌then◌else◌, Option, none, some, Bool-cases, arith,
}
use os_projects.Xv6.Kalloc.{Kmem, pgsize, kernbase, kfree, pgroundup}
use os_projects.Xv6.Vm.{
  Run, done, panics, out_of_fuel, and_then, release_page, p2v, pdx, pte_addr, pte_p, poke, bit_or,
  walkpgdir, map_from, mappages, unmap_from, deallocuvm,
}

-- The run ends, in a panic or in a result with the property.
abbrev pub Ends {ℓ} : {A : Type ℓ} → (A → Type 0) → Run A → Type 0
Ends P (done a) = P a
Ends P panics = Unit
Ends P out_of_fuel = ⊥

pub Ends-and_then {ℓ} :
    {A B : Type ℓ} (P : A → Type 0) (Q : B → Type 0) (r : Run A) (f : A → Run B)
    → Ends P r
    → ((a : A) → P a → Ends Q (f a))
    → Ends Q (and_then r f)
Ends-and_then P Q (done a) f h k = k a h
Ends-and_then P Q panics f h k = tt
Ends-and_then P Q out_of_fuel f h k = h

pub Ends-if {ℓ} :
    {A : Type ℓ} (P : A → Type 0) (b : Bool) (r s : Run A)
    → (b ≡ true → Ends P r)
    → (b ≡ false → Ends P s)
    → Ends P (if b then r else s)
Ends-if P true r s h k = h refl
Ends-if P false r s h k = k refl

abbrev pub Any {ℓ} : {A : Type ℓ} → A → Type 0
Any a = Unit

pub release_page-Ends : (v : ℕ) (k : Kmem) → Ends Any (release_page v k)
release_page-Ends v k = at (kfree v k)
  where
    at :
        (r : Option Kmem)
        → Ends Any (elim r as (λ _. Run Kmem) [ none ↦ panics | some k' ↦ done k' ])
    at none = tt
    at (some k') = tt

-- From a page on, `n` rounds reach the end and see it.
unmap_from-Ends :
    (n pgdir a oldsz : ℕ) (k : Kmem)
    → oldsz ≤ kernbase
    → a % pgsize ≡ 0
    → 0 < n
    → oldsz + pgsize ≤ a + pgsize * n
    → Ends Any (unmap_from n pgdir a oldsz k)
unfolding unmap_from
unmap_from-Ends zero pgdir a oldsz k top d p l = absurd (omega arith)
unmap_from-Ends (suc n) pgdir a oldsz k top d p l =
    let next = (a + pgsize) % 2 ^ 32 in
    let skip = ((pdx a + 1) * 2 ^ 22 + 2 ^ 32 - pgsize + pgsize) % 2 ^ 32 in
    Ends-if Any (ltb a oldsz) _ (done k)
      (λ b.
        let lt : a < oldsz = ground arith in
        round
          (λ k1.
            unmap_from-Ends n pgdir next oldsz k1 top (omega arith) (omega arith) (omega arith))
          (unmap_from-Ends n pgdir skip oldsz k top (omega arith) (omega arith) (omega arith))
          (walkpgdir pgdir a false k).0)
      (λ b. tt)
  where
    round :
        ((k : Kmem) → Ends Any (unmap_from n pgdir ((a + pgsize) % 2 ^ 32) oldsz k))
        → Ends Any (
            unmap_from n pgdir (((pdx a + 1) * 2 ^ 22 + 2 ^ 32 - pgsize + pgsize) % 2 ^ 32) oldsz k)
        → (r : Option ℕ)
        → Ends Any (elim r as (λ _. Run Kmem) [
          | none ↦
              unmap_from n pgdir
                (((pdx a + 1) * 2 ^ 22 + 2 ^ 32 - pgsize + pgsize) % 2 ^ 32)
                oldsz
                k
          | some pte ↦
              if pte_p (k.mem pte)
              then if pte_addr (k.mem pte) == 0
                then panics
                else (and_then
                    (release_page (p2v (pte_addr (k.mem pte))) k)
                    (λ k1. unmap_from n pgdir ((a + pgsize) % 2 ^ 32) oldsz (poke pte 0 k1)))
              else unmap_from n pgdir ((a + pgsize) % 2 ^ 32) oldsz k
        ])
    round next skip none = skip
    round next skip (some pte) =
        Ends-if Any (pte_p (k.mem pte)) _ _
          (λ b.
            Ends-if Any (pte_addr (k.mem pte) == 0) panics _ (λ c. tt)
              (λ c.
                Ends-and_then Any Any (release_page (p2v (pte_addr (k.mem pte))) k) _
                  (release_page-Ends _ k) (λ k1 u. next (poke pte 0 k1))))
          (λ b. next k)

pub deallocuvm-Ends :
    (pgdir oldsz newsz : ℕ) (k : Kmem)
    → oldsz ≤ kernbase
    → Ends
        (λ (r : ℕ × Kmem). r.0 ≡ (if leb oldsz newsz then oldsz else newsz))
        (deallocuvm pgdir oldsz newsz k)
unfolding deallocuvm
deallocuvm-Ends pgdir oldsz newsz k top = elim (Bool-cases (leb oldsz newsz)) [
  | inl b ↦ rw b refl
  | inr b ↦ rw b (
      Ends-and_then Any (λ (r : ℕ × Kmem). r.0 ≡ newsz)
        (unmap_from (oldsz / pgsize + 2) pgdir (pgroundup newsz % 2 ^ 32) oldsz k)
        (λ k1. done (newsz, k1))
        (unmap_from-Ends (oldsz / pgsize + 2) pgdir (pgroundup newsz % 2 ^ 32) oldsz k top
          (omega arith) (omega arith) (ground arith))
        (λ k1 u. refl))
]

-- Rounds for the pages from `a` to `last`, by uint addition.
map_from-Ends :
    (n pgdir a last pa perm : ℕ) (k : Kmem)
    → a % pgsize ≡ 0
    → last % pgsize ≡ 0
    → a < 2 ^ 32
    → last < 2 ^ 32
    → (last + 2 ^ 32 - a) % 2 ^ 32 < pgsize * n
    → Ends Any (map_from n pgdir a last pa perm k)
unfolding map_from
map_from-Ends zero pgdir a last pa perm k d d' b b' l = absurd (omega arith)
map_from-Ends (suc n) pgdir a last pa perm k d d' b b' l =
    let next = (a + pgsize) % 2 ^ 32 in
    round
      (λ ne k1.
        map_from-Ends n pgdir next last ((pa + pgsize) % 2 ^ 32) perm k1 (omega arith) d'
          (omega arith) b' (ground arith))
      (walkpgdir pgdir a true k)
  where
    round :
        ((a == last) ≡ false
          → (k : Kmem)
          → Ends Any
              (map_from n pgdir ((a + pgsize) % 2 ^ 32) last ((pa + pgsize) % 2 ^ 32) perm k))
        → (r : Option ℕ × Kmem)
        → Ends Any (elim r.0 as (λ _. Run (Bool × Kmem)) [
          | none ↦ done (false, r.1)
          | some pte ↦
              let k2 = poke pte (bit_or 32 (bit_or 32 pa perm) 1) r.1 in
              if pte_p (r.1.mem pte)
              then panics
              else if a == last
              then done (true, k2)
              else map_from n pgdir ((a + pgsize) % 2 ^ 32) last ((pa + pgsize) % 2 ^ 32) perm k2
        ])
    round ih (none, k1) = tt
    round ih (some pte, k1) =
        Ends-if Any (pte_p (k1.mem pte)) panics _ (λ c. tt)
          (λ c.
            Ends-if Any (a == last) (done (true, poke pte (bit_or 32 (bit_or 32 pa perm) 1) k1)) _
              (λ e. tt) (λ e. ih e _))

pub mappages-Ends :
    (pgdir va size pa perm : ℕ) (k : Kmem)
    → va < 2 ^ 32
    → Ends Any (mappages pgdir va size pa perm k)
unfolding mappages
mappages-Ends pgdir va size pa perm k b =
    map_from-Ends _ pgdir _ _ pa perm k (omega arith) (omega arith) (omega arith) (omega arith)
      (omega arith)
