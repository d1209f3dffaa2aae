-- ===== src/Sort/Insertion.antt =====
-- `insertion_sort` sorts, and keeps the elements.
use os_projects.Base.{
  ℕ, zero, suc, ◌+◌, ◌-◌, ◌^◌, ◌≤◌, ◌<◌, ◌≡◌, refl, ap, ◌∙◌, subst, update, update_ne, update_self,
  arith, dec_lt, Bool-cases, ltb, inl, inr,
}
use os_projects.Sort.{Elem, Array, compare_elem, greater, shift, insert_from, insertion_sort}
use os_projects.Sort.Weight.{total, SameElems, total-update_above}

-- Keys that are not negative as ints: their differences do not overflow.
abbrev pub SmallKeys : ℕ → Array → Type 0
SmallKeys n arr = (i : ℕ) → i < n → (arr i).key < 2 ^ 31

abbrev pub IsSorted : ℕ → Array → Type 0
IsSorted n arr = (i j : ℕ) → i ≤ j → j < n → (arr i).key ≤ (arr j).key

pub greater-eq-ltb : (a b : Elem) → a.key < 2 ^ 31 → b.key < 2 ^ 31 → greater a b ≡ ltb b.key a.key
unfolding compare_elem
greater-eq-ltb a b h k = ground arith

-- What `shift` leaves alone.
shift_above : (k : ℕ) (temp : Elem) (arr : Array) (i : ℕ) → k < i → shift k temp arr i ≡ arr i
unfolding shift
shift_above zero temp arr i h = update_ne arr 0 i temp (omega arith)
shift_above (suc j) temp arr i h =
    let rest = shift_above j temp (update arr (suc j) (arr j)) i (omega arith) in
    elim (Bool-cases (greater (arr j) temp)) [
      | inl e ↦ rw e (rest ∙ update_ne arr (suc j) i (arr j) (omega arith))
      | inr e ↦ rw e (update_ne arr (suc j) i temp (omega arith))
    ]

-- A bound on the keys is kept.
shift_below :
    (k b : ℕ) (temp : Elem) (arr : Array)
    → ((i : ℕ) → i < k → (arr i).key ≤ b)
    → temp.key ≤ b
    → (i : ℕ) → i ≤ k
    → (shift k temp arr i).key ≤ b
unfolding shift
shift_below zero b temp arr h t i le = ground arith
shift_below (suc j) b temp arr h t i le =
    let rest = shift_below j b temp (update arr (suc j) (arr j)) in
    let kept = shift_above j temp (update arr (suc j) (arr j)) i in
    elim (Bool-cases (greater (arr j) temp)) [
      | inl e ↦ rw e (elim (dec_lt j i) [
        | yes p ↦ ground (arith, kept p, h j)
        | no p ↦ rest (λ m lt. ground (arith, h m)) t i (omega arith)
      ])
      | inr e ↦ rw e (ground (arith, h i))
    ]

-- The elements are those that were there, with the new one.
total-shift :
    (w : Elem → ℕ) (k : ℕ) (temp : Elem) (arr : Array)
    → total w (suc k) (shift k temp arr) ≡ total w k arr + w temp
unfolding shift
total-shift w zero temp arr = refl
total-shift w (suc j) temp arr =
    let moved = update arr (suc j) (arr j) in
    let rest = total-shift w j temp moved in
    let same = total-update_above w j (suc j) arr (arr j) (omega arith) in
    let last : shift j temp moved (suc j) ≡ arr j =
      shift_above j temp moved (suc j) (omega arith) ∙ update_self arr (suc j) (arr j) in
    let same' = total-update_above w j (suc j) arr temp (omega arith) in
    elim (Bool-cases (greater (arr j) temp)) [
      | inl e ↦ rw e (omega (arith, rest, same, ap w last))
      | inr e ↦ rw e (
          omega (
            arith,
            same',
            ap w (update_ne arr (suc j) j temp (omega arith)),
            ap w (update_self arr (suc j) temp),
          ))
    ]

-- `shift` puts an element into the sorted elements below its place.
shift-IsSorted :
    (k : ℕ) (temp : Elem) (arr : Array)
    → SmallKeys k arr
    → temp.key < 2 ^ 31
    → IsSorted k arr
    → IsSorted (suc k) (shift k temp arr)
unfolding shift
shift-IsSorted zero temp arr sm t s i j le lt =
    let e : i ≡ j = omega arith in
    subst (λ m. (shift 0 temp arr i).key ≤ (shift 0 temp arr m).key) e (omega arith)
shift-IsSorted (suc k) temp arr sm t s i j le lt =
    let moved = update arr (suc k) (arr k) in
    let rest =
      shift-IsSorted k temp moved (λ m h. ground (arith, sm m)) t
        (λ m n h l. ground (arith, s m n h)) in
    let bound = shift_below k (arr k).key temp moved (λ m h. ground (arith, s m k)) in
    let test = greater-eq-ltb (arr k) temp (sm k (omega arith)) t in
    elim (Bool-cases (greater (arr k) temp)) [
      | inl e ↦ rw e (elim (dec_lt k j) [
        | yes p ↦ moved_last k temp arr i j le lt p (bound (ground arith))
        | no p ↦ rest i j le (omega arith)
      ])
      | inr e ↦ rw e (put_last k temp arr i j le lt s (ground arith))
    ]
  where
    moved_last :
        (k : ℕ) (temp : Elem) (arr : Array) (i j : ℕ)
        → i ≤ j
        → j < suc (suc k)
        → k < j
        → ((m : ℕ) → m ≤ k → (shift k temp (update arr (suc k) (arr k)) m).key ≤ (arr k).key)
        → (shift k temp (update arr (suc k) (arr k)) i).key
          ≤ (shift k temp (update arr (suc k) (arr k)) j).key
    moved_last k temp arr i j le lt p b =
        let e : j ≡ suc k = omega arith in
        let last : shift k temp (update arr (suc k) (arr k)) j ≡ arr k =
          shift_above k temp (update arr (suc k) (arr k)) j p
          ∙ ap (update arr (suc k) (arr k)) e
          ∙ update_self arr (suc k) (arr k) in
        elim (dec_lt k i) [
          | yes q ↦
              (let f : i ≡ j = omega arith in
                subst
                  (λ m.
                    (shift k temp (update arr (suc k) (arr k)) i).key
                    ≤ (shift k temp (update arr (suc k) (arr k)) m).key)
                  f (omega arith))
          | no q ↦ omega (arith, b i (omega arith), ap (λ (x : Elem). x.key) last)
        ]

    put_last :
        (k : ℕ) (temp : Elem) (arr : Array) (i j : ℕ)
        → i ≤ j
        → j < suc (suc k)
        → IsSorted (suc k) arr
        → (arr k).key ≤ temp.key
        → (update arr (suc k) temp i).key ≤ (update arr (suc k) temp j).key
    put_last k temp arr i j le lt s h = ground (arith, s i j le, s i k)

-- The outer loop: the first `i` elements are sorted before, and the first `i + k` after.
insert_from_lem :
    (k i : ℕ) (arr : Array)
    → SmallKeys (i + k) arr
    → IsSorted i arr
    → IsSorted (i + k) (insert_from k i arr)
unfolding insert_from
insert_from_lem zero i arr sm s = λ a b h l. s a b h (omega arith)
insert_from_lem (suc k) i arr sm s =
    let next = shift i (arr i) arr in
    let sorted : IsSorted (suc i) next =
      shift-IsSorted i (arr i) arr (λ m h. sm m (omega arith)) (sm i (omega arith)) s in
    let small : SmallKeys ((i + 1) + k) next =
      λ m h. shifted_small i (i + suc k) arr sm (omega arith) m (omega arith) in
    λ a b h l.
      insert_from_lem k (i + 1) next small (λ c d p q. sorted c d p (omega arith)) a b h
        (omega arith)
  where
    shifted_small :
        (i n : ℕ) (arr : Array) → SmallKeys n arr → i < n → SmallKeys n (shift i (arr i) arr)
    shifted_small i n arr sm lt m h = elim (dec_lt i m) [
      | yes p ↦ ground (arith, shift_above i (arr i) arr m p, sm m h)
      | no p ↦ omega (
        arith,
        shift_below i (2 ^ 31 - 1) (arr i) arr (λ c q. omega (arith, sm c (omega arith)))
            (omega (arith, sm i lt)) m (omega arith),
      )
    ]

shift-SameElems : (k n : ℕ) (arr : Array) → k < n → SameElems n (shift k (arr k) arr) arr
shift-SameElems k zero arr h w = elim h [ ]
shift-SameElems k (suc n) arr h w = elim (dec_lt k n) [
  | yes p ↦ omega (arith, shift-SameElems k n arr p w, ap w (shift_above k (arr k) arr n p))
  | no p ↦
      let e : k ≡ n = omega arith in
      subst (λ m. total w (suc m) (shift k (arr k) arr) ≡ total w (suc m) arr) e
        (total-shift w k (arr k) arr)
]

insert_from-SameElems :
    (k i n : ℕ) (arr : Array) → i + k ≤ n → SameElems n (insert_from k i arr) arr
unfolding insert_from
insert_from-SameElems zero i n arr h w = refl
insert_from-SameElems (suc k) i n arr h w =
    insert_from-SameElems k (i + 1) n (shift i (arr i) arr) (omega arith) w
    ∙ shift-SameElems i n arr (omega arith) w

-- On an array whose first `n` keys are not negative, `insertion_sort` of `n` elements leaves them in
-- the order of their keys, and the same elements as before, as often.
pub insertion_sort_lem :
    (n : ℕ) (arr : Array)
    → SmallKeys n arr
    → IsSorted n (insertion_sort arr n) × SameElems n (insertion_sort arr n) arr
unfolding insertion_sort
insertion_sort_lem zero arr sm = ((λ i j h l. absurd (omega arith)), λ w. refl)
insertion_sort_lem (suc n) arr sm =
    let e : suc n - 1 ≡ n = omega arith in
    rw e (
      (λ i j h l.
          insert_from_lem n 1 arr (λ m q. sm m (omega arith)) (λ a b p q. at_zero arr a b p q) i j h
            (omega arith)),
      λ w. insert_from-SameElems n 1 (suc n) arr (omega arith) w,
    )
  where
    at_zero : (arr : Array) → IsSorted 1 arr
    at_zero arr a b p q =
        let e : a ≡ b = omega arith in subst (λ m. (arr a).key ≤ (arr m).key) e (omega arith)
