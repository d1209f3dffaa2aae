-- ===== src/Xv6/Kalloc/FreeList.antt =====
-- The free list as a list of pages.
use os_projects.Base.{
  ℕ, zero, suc, ◌+◌, ◌*◌, ◌/◌, ◌%◌, ◌≤◌, ◌<◌, ◌≡◌, ◌≢◌, refl, ap, sym, subst, not, some, update,
  update_self, ◌==◌, if◌then◌else◌, arith, List, [], ◌∷◌, All,
}
use os_projects.Xv6.Kalloc.{
  Kmem, pgsize, kernbase, phystop, fill_junk, kfree, kalloc, pgroundup, free_from, freerange,
}

-- From the address `a` the links of the memory run through the pages of the list, then to null.
abbrev pub Chain : (ℕ → ℕ) → ℕ → List ℕ → Type 0
Chain mem a [] = a ≡ 0
Chain mem a (x ∷ xs) = (a ≡ x) × (0 < x) × (x % pgsize ≡ 0) × Chain mem (mem x) xs

Fresh : ℕ → List ℕ → Type 0
Fresh v = All (λ x. x ≢ v)

-- A write to a page that is not on the list leaves the list.
Chain-kfree :
    (mem : ℕ → ℕ) (v w a : ℕ) (xs : List ℕ)
    → v % pgsize ≡ 0
    → All (λ x. x ≢ v) xs
    → Chain mem a xs
    → Chain (update (fill_junk v mem) v w) a xs
Chain-kfree mem v w a [] h f c = c
Chain-kfree mem v w a (x ∷ xs) h f (e, p, d, c) = (
  e,
  p,
  d,
  subst (λ b. Chain (update (fill_junk v mem) v w) b xs) (sym (link_kept mem v w x h d f.0))
      (Chain-kfree mem v w (mem x) xs h f.1 c),
)
  where
    link_kept :
        (mem : ℕ → ℕ) (v w x : ℕ)
        → v % pgsize ≡ 0
        → x % pgsize ≡ 0
        → x ≢ v
        → update (fill_junk v mem) v w x ≡ mem x
    link_kept mem v w x h d ne = unfold fill_junk in ground arith

-- If `kfree(v)` does not panic and `v` is not on the free list, it puts `v` first on the list.
kfree_lem :
    (v : ℕ) (k k' : Kmem) (xs : List ℕ)
    → Chain k.mem k.freelist xs
    → All (λ x. x ≢ v) xs
    → 0 < v
    → kfree v k ≡ some k'
    → Chain k'.mem k'.freelist (v ∷ xs)
kfree_lem v k k' xs c f pos e =
    let (aligned, mem_eq, list_eq) = kfree-eq v k k' e in
    subst (λ (m : ℕ → ℕ). Chain m k'.freelist (v ∷ xs)) (sym mem_eq)
      (
        list_eq,
        pos,
        aligned,
        subst (λ b. Chain (update (fill_junk v k.mem) v k.freelist) b xs)
            (sym (update_self (fill_junk v k.mem) v k.freelist))
            (Chain-kfree k.mem v k.freelist k.freelist xs aligned f c),
      )
  where
    kfree-eq :
        (v : ℕ) (k k' : Kmem)
        → kfree v k ≡ some k'
        → (v % pgsize ≡ 0) × (k'.mem ≡ update (fill_junk v k.mem) v k.freelist) × (k'.freelist ≡ v)
    kfree-eq v k k' e = unfold kfree in ground arith

abbrev pub Allocs : Kmem → List ℕ → ℕ × Kmem → Type 0
Allocs k [] (r, k') = (r ≡ 0) × (k' ≡ k)
Allocs k (x ∷ xs) (r, k') = (r ≡ x) × (k'.mem ≡ k.mem) × Chain k'.mem k'.freelist xs

-- From a free list with these pages `kalloc` returns the first and takes it off, leaving the memory as
-- it is; from an empty list it returns 0 and changes nothing.
kalloc_lem : (k : Kmem) (xs : List ℕ) → Chain k.mem k.freelist xs → Allocs k xs (kalloc k)
unfolding kalloc
kalloc_lem k [] e =
    let f : (if not (k.freelist == 0) then k.mem k.freelist else k.freelist) ≡ k.freelist =
      ground arith in
    (e, ap (λ a. record k { freelist = a }) f)
kalloc_lem k (x ∷ xs) (e, p, d, c) =
    let f : k.mem x ≡ (if not (k.freelist == 0) then k.mem k.freelist else k.freelist) =
      ground arith in
    (e, refl, subst (λ a. Chain k.mem a xs) f c)

-- `kalloc` after `kfree(v)` returns `v` and leaves the free list as it was before.
kalloc-kfree :
    (v : ℕ) (k k' : Kmem) (xs : List ℕ)
    → Chain k.mem k.freelist xs
    → All (λ x. x ≢ v) xs
    → 0 < v
    → kfree v k ≡ some k'
    → ((kalloc k').0 ≡ v) × Chain (kalloc k').1.mem (kalloc k').1.freelist xs
kalloc-kfree v k k' xs c f pos e =
    let (a, b, d) = kalloc_lem k' (v ∷ xs) (kfree_lem v k k' xs c f pos e) in (a, d)

-- The `n` pages from `p` on, in front of `acc`, the last one first.
unfoldable pub pages : ℕ → ℕ → List ℕ → List ℕ
pages zero p acc = acc
pages (suc n) p acc = pages n (p + pgsize) (p ∷ acc)

kfree-total :
    (v : ℕ) (k : Kmem)
    → v % pgsize ≡ 0
    → k.end_addr ≤ v
    → kernbase ≤ v
    → v < kernbase + phystop
    → (k' : Kmem) × (kfree v k ≡ some k') × (k'.end_addr ≡ k.end_addr)
unfolding kfree
kfree-total v k a b c d =
    (record k { mem = update (fill_junk v k.mem) v k.freelist; freelist = v }, ground arith, refl)

below-ne : (p : ℕ) (xs : List ℕ) → All (λ x. x < p) xs → All (λ x. x ≢ p) xs
below-ne p [] a = tt
below-ne p (x ∷ xs) a = (omega arith, below-ne p xs a.1)

below_mono : (p q : ℕ) (xs : List ℕ) → p ≤ q → All (λ x. x < p) xs → All (λ x. x < q) xs
below_mono p q [] h a = tt
below_mono p q (x ∷ xs) h a = (omega arith, below_mono p q xs h a.1)

-- From a page of the kernel's map above every free page, the loop of `freerange` frees each whole
-- page below `vend` once, without a panic, if it has fuel for that many.
free_from_lem :
    (n fuel p vend : ℕ) (k : Kmem) (xs : List ℕ)
    → n ≤ fuel
    → n * pgsize + p ≤ vend
    → vend < n * pgsize + p + pgsize
    → p % pgsize ≡ 0
    → (0 < p) × (k.end_addr ≤ p) × (kernbase ≤ p) × (vend ≤ kernbase + phystop)
    → Chain k.mem k.freelist xs
    → All (λ x. x < p) xs
    → (k' : Kmem) × (free_from fuel p vend k ≡ some k') × Chain k'.mem k'.freelist (pages n p xs)
unfolding free_from pages
free_from_lem zero zero p vend k xs le lo hi al r c a = (k, refl, c)
free_from_lem zero (suc fuel) p vend k xs le lo hi al r c a = (k, ground arith, c)
free_from_lem (suc n) zero p vend k xs le lo hi al r c a = absurd (omega arith)
free_from_lem (suc n) (suc fuel) p vend k xs le lo hi al r c a =
    let (k1, e, same) = kfree-total p k al (r.1) (r.2) (omega arith) in
    let (k2, f, c2) =
      free_from_lem n fuel (p + pgsize) vend k1 (p ∷ xs) (omega arith) (omega arith) (omega arith)
        (omega arith) (omega arith) (kfree_lem p k k1 xs c (below-ne p xs a) (r.0) e)
        (omega arith, below_mono p (p + pgsize) xs (omega arith) a) in
    (k2, ground arith, c2)

-- From an address whose page and all later ones lie in the kernel's map, above the kernel and above
-- every free page, `freerange` does not panic, and puts each of the `n` whole pages between its two
-- addresses on the free list once, in front of the pages that were there.
pub freerange_lem :
    (n vstart vend : ℕ) (k : Kmem) (xs : List ℕ)
    → n * pgsize + pgroundup vstart ≤ vend
    → vend < n * pgsize + pgroundup vstart + pgsize
    → k.end_addr ≤ pgroundup vstart
    → kernbase ≤ pgroundup vstart
    → vend ≤ kernbase + phystop
    → Chain k.mem k.freelist xs
    → All (λ x. x < pgroundup vstart) xs
    → (k' : Kmem) × (freerange vstart vend k ≡ some k')
      × Chain k'.mem k'.freelist (pages n (pgroundup vstart) xs)
unfolding freerange
freerange_lem n vstart vend k xs lo hi e kb top c a =
    free_from_lem n (vend / pgsize) (pgroundup vstart) vend k xs (omega arith) lo hi
      (pgroundup-mod vstart) (omega arith, e, kb, top) c a
  where
    pgroundup-mod : (a : ℕ) → pgroundup a % pgsize ≡ 0
    pgroundup-mod a = omega arith
