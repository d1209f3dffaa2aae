-- ===== src/Sort/Weight.antt =====
-- The elements of a stretch of an array, as a multiset: two stretches hold the same elements, as
-- often, if every weighting of elements has the same total on both.
use os_projects.Base.{ℕ, zero, suc, ◌+◌, ◌≤◌, ◌<◌, ◌≡◌, refl, ap, update, arith, dec_lt}
use os_projects.Sort.{Elem, Array}

-- The sum of the weights of the first `n` elements.
abbrev pub total : (Elem → ℕ) → ℕ → Array → ℕ
total w zero arr = 0
total w (suc n) arr = total w n arr + w (arr n)

-- The first `n` elements of both arrays are the same, in some order.
abbrev pub SameElems : ℕ → Array → Array → Type 0
SameElems n a b = (w : Elem → ℕ) → total w n a ≡ total w n b

pub total-update_above :
    (w : Elem → ℕ) (n i : ℕ) (arr : Array) (x : Elem)
    → n ≤ i
    → total w n (update arr i x) ≡ total w n arr
total-update_above w zero i arr x h = refl
total-update_above w (suc n) i arr x h =
    let e = total-update_above w n i arr x in ground (arith, e (omega arith))

total-update :
    (w : Elem → ℕ) (n i : ℕ) (arr : Array) (x : Elem)
    → i < n
    → total w n (update arr i x) + w (arr i) ≡ total w n arr + w x
total-update w zero i arr x h = elim h [ ]
total-update w (suc n) i arr x h = elim (dec_lt i n) [
  | yes p ↦ ground (arith, total-update w n i arr x p)
  | no p ↦
      let e : i ≡ n = omega arith in
      ground (arith, total-update_above w n i arr x (omega arith), ap arr e)
]
