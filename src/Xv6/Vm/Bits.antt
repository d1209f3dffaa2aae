-- ===== src/Xv6/Vm/Bits.antt =====
-- The flags and the address in an entry of a page table.
use os_projects.Base.{
  ℕ, zero, suc, ◌*◌, ◌/◌, ◌%◌, ◌^◌, ◌<◌, ◌≡◌, inl, inr, refl, sym, ap, ◌∙◌, true, ◌||◌, ◌==◌,
  Bool-cases, arith,
}
use os_projects.Xv6.Kalloc.{pgsize}
use os_projects.Xv6.Vm.{bit_or, pte_addr, pte_p, pte_u}

-- `a >> j`, and `j` more than `w`, bit by bit.
halve : ℕ → ℕ → ℕ
halve zero a = a
halve (suc j) a = halve j (a / 2)

more : ℕ → ℕ → ℕ
more zero w = w
more (suc j) w = suc (more j w)

pub bit_or_low : (w a b : ℕ) → b % 2 ≡ 1 → bit_or (suc w) a b % 2 ≡ 1
unfolding bit_or
bit_or_low w a b e =
    let o : (b % 2 == 1) ≡ true = ground arith in
    elim (Bool-cases (a % 2 == 1)) [ inl t ↦ rw t (omega arith) | inr t ↦ rw (t, o) (omega arith) ]

-- A bit of the first one.
bit_or_left : (w a b : ℕ) → a % 2 ≡ 1 → bit_or (suc w) a b % 2 ≡ 1
unfolding bit_or
bit_or_left w a b e = let o : (a % 2 == 1) ≡ true = ground arith in rw o (omega arith)

bit_or_half : (w a b : ℕ) → bit_or (suc w) a b / 2 ≡ bit_or w (a / 2) (b / 2)
unfolding bit_or
bit_or_half w a b = elim (Bool-cases ((a % 2 == 1) || (b % 2 == 1))) [
  | inl t ↦ rw t (omega arith)
  | inr t ↦ rw t (omega arith)
]

halve-bit_or : (j w a b : ℕ) → halve j (bit_or (more j w) a b) ≡ bit_or w (halve j a) (halve j b)
unfolding halve more
halve-bit_or zero w a b = refl
halve-bit_or (suc j) w a b =
    ap (halve j) (bit_or_half (more j w) a b) ∙ halve-bit_or j w (a / 2) (b / 2)

bit_or_zero : (w a : ℕ) → halve w a ≡ 0 → bit_or w a 0 ≡ a
unfolding bit_or halve
bit_or_zero zero a e = sym e
bit_or_zero (suc w) a e =
    let ih : bit_or w (a / 2) 0 ≡ a / 2 = bit_or_zero w (a / 2) e in
    elim (Bool-cases (a % 2 == 1)) [
      | inl t ↦ rw t (let o : a % 2 ≡ 1 = ground arith in omega (arith, ih, o))
      | inr t ↦ rw t (let o : a % 2 ≡ 0 = ground arith in omega (arith, ih, o))
    ]

-- The address of the page keeps its place in an or with flags.
pub pte_addr-bit_or : (a b : ℕ) → a < 2 ^ 32 → b < pgsize → pte_addr (bit_or 32 a b) ≡ pte_addr a
unfolding halve more
pte_addr-bit_or a b l m =
    let shift : halve 12 (bit_or 32 a b) ≡ bit_or 20 (halve 12 a) (halve 12 b) =
      halve-bit_or 12 20 a b in
    let none_left : halve 12 b ≡ 0 = omega arith in
    let small : halve 20 (halve 12 a) ≡ 0 = omega arith in
    let high : bit_or 20 (halve 12 a) (halve 12 b) ≡ halve 12 a =
      ap (bit_or 20 (halve 12 a)) none_left ∙ bit_or_zero 20 (halve 12 a) small in
    omega (arith, shift, high)

top : ℕ → ℕ
top zero = 1
top (suc w) = 2 * top w

bit_or-top : (w a b : ℕ) → bit_or w a b < top w
unfolding bit_or top
bit_or-top zero a b = omega arith
bit_or-top (suc w) a b =
    let ih = bit_or-top w (a / 2) (b / 2) in
    elim (Bool-cases ((a % 2 == 1) || (b % 2 == 1))) [
      | inl t ↦ rw t (omega (arith, ih))
      | inr t ↦ rw t (omega (arith, ih))
    ]

bit_or_bound : (a b : ℕ) → bit_or 32 a b < 2 ^ 32
unfolding top
bit_or_bound a b = bit_or-top 32 a b

-- The entry that `mappages` stores.
abbrev pub mapped : ℕ → ℕ → ℕ
mapped pa perm = bit_or 32 (bit_or 32 pa perm) 1

pub mapped-pte_p : (pa perm : ℕ) → pte_p (mapped pa perm) ≡ true
mapped-pte_p pa perm = let o = bit_or_low 31 (bit_or 32 pa perm) 1 (omega arith) in ground arith

pub mapped-pte_addr :
    (pa perm : ℕ) → pa < 2 ^ 32 → perm < pgsize → pte_addr (mapped pa perm) ≡ pte_addr pa
mapped-pte_addr pa perm l m =
    pte_addr-bit_or (bit_or 32 pa perm) 1 (bit_or_bound pa perm) (omega arith)
    ∙ pte_addr-bit_or pa perm l m

pub mapped-pte_u : (pa perm : ℕ) → pte_u perm ≡ true → pte_u (mapped pa perm) ≡ true
unfolding halve more
mapped-pte_u pa perm e =
    let o : halve 2 perm % 2 ≡ 1 = ground arith in
    let inner : halve 2 (bit_or 32 pa perm) ≡ bit_or 30 (halve 2 pa) (halve 2 perm) =
      halve-bit_or 2 30 pa perm in
    let outer : halve 2 (mapped pa perm) ≡ bit_or 30 (halve 2 (bit_or 32 pa perm)) 0 =
      halve-bit_or 2 30 (bit_or 32 pa perm) 1 in
    let low = bit_or_low 29 (halve 2 pa) (halve 2 perm) o in
    let odd = bit_or_left 29 (halve 2 (bit_or 32 pa perm)) 0 (ap (λ x. x % 2) inner ∙ low) in
    ground arith
