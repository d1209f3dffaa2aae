-- ===== src/Sort/Split.antt =====
-- `find_split_point`: where the pivot goes among the elements of a sorted part, and where it fails.
use os_projects.Base.{
  ℕ, zero, suc, ◌+◌, ◌-◌, ◌/◌, ◌^◌, ◌≤◌, ◌<◌, ◌≡◌, arith, dec_lt, Bool-cases, ltb, inl, inr,
}
use os_projects.Sort.{Elem, Array, greater, split_loop, find_split_point}
use os_projects.Sort.Insertion.{greater-eq-ltb}

-- The keys of the indices from `l` to `r`, `r` included, are sorted and not negative.
pub record IsPart (arr : Array) (l r : ℕ) : Type 0 where
  pub sorted : (i j : ℕ) → l ≤ i → i ≤ j → j ≤ r → (arr i).key ≤ (arr j).key
  pub small : (i : ℕ) → l ≤ i → i ≤ r → (arr i).key < 2 ^ 31

-- `s` splits the indices from `l` up to `r`, `r` excluded, at the key of `p`.
abbrev pub Splits : Array → ℕ → ℕ → Elem → ℕ → Type 0
Splits arr l r p s =
    (l ≤ s)
    × (s ≤ r)
    × ((i : ℕ) → l ≤ i → i < s → (arr i).key < p.key)
    × ((i : ℕ) → s ≤ i → i < r → p.key ≤ (arr i).key)

module _ (arr : Array) (l r : ℕ) (p : Elem) (part : IsPart arr l r) (small : p.key < 2 ^ 31) where
  split_loop-Splits :
      (fuel low high : ℕ)
      → high - low < fuel
      → l ≤ low
      → low ≤ high
      → high ≤ r
      → ((i : ℕ) → l ≤ i → i < low → (arr i).key < p.key)
      → ((i : ℕ) → high ≤ i → i < r → p.key ≤ (arr i).key)
      → Splits arr l r p (split_loop fuel arr low high p)
  unfolding split_loop
  split_loop-Splits zero low high f a b c below above = absurd (omega arith)
  split_loop-Splits (suc fuel) low high f a b c below above =
      let mid = low + (high - low) / 2 in
      let left = split_loop-Splits fuel low mid in
      let right = split_loop-Splits fuel (mid + 1) high in
      elim (Bool-cases (ltb low high)) [
        | inl t ↦
            let lt : low < high = ground arith in
            let test =
              greater-eq-ltb p (arr mid) small (part.small mid (omega arith) (omega arith)) in
            elim (Bool-cases (greater p (arr mid))) [
              | inl g ↦
                  let less : (arr mid).key < p.key = ground arith in
                  rw (t, g)
                    (right (omega arith) (omega arith) (omega arith) c
                      (λ i h k. omega (arith, part.sorted i mid h (omega arith) (omega arith)))
                      above)
              | inr g ↦
                  let more : p.key ≤ (arr mid).key = ground arith in
                  rw (t, g)
                    (left (omega arith) a (omega arith) (omega arith) below
                      (λ i h k. omega (arith, part.sorted mid i (omega arith) h (omega arith))))
            ]
        | inr t ↦
            let e : low ≡ high = ground arith in
            rw t (a, omega arith, below, λ i h k. above i (omega arith) k)
      ]

  -- On a sorted part `find_split_point` ends, and returns an index up to `r` below which all keys are
  -- less than the pivot's, and from which on, `r` excluded, none is.
  find_split_point-Splits : l ≤ r → Splits arr l r p (find_split_point arr l r p)
  unfolding find_split_point
  find_split_point-Splits h =
      split_loop-Splits (r + 1 - l) l r (omega arith) (omega arith) h (omega arith)
        (λ i a b. absurd (omega arith)) (λ i a b. absurd (omega arith))

  -- If every key of the part, the last one included, is less than the pivot's, then
  -- `find_split_point` returns `r`, the index of a smaller element, and not the index after it.
  find_split_point-last : l ≤ r → (arr r).key < p.key → find_split_point arr l r p ≡ r
  find_split_point-last h lt =
      let (a, b, c, d) = find_split_point-Splits h in
      elim (dec_lt (find_split_point arr l r p) r) [
        | yes q ↦ absurd (
            omega (
              arith,
              d (find_split_point arr l r p) (omega arith) q,
              part.sorted (find_split_point arr l r p) r a (omega arith) (omega arith),
            ))
        | no q ↦ omega arith
      ]
