-- ===== src/Xv6/Proc/Search.antt =====
-- The scan of `wait` over the table.
use os_projects.Base.{
  ℕ, zero, suc, ◌+◌, ◌≤◌, ◌<◌, ◌≡◌, ◌⊎◌, inl, inr, refl, subst, Bool, true, false, Bool-cases,
  if◌then◌else◌, arith, ℕ_discrete,
}
use os_projects.Xv6.Proc.{Proc, is_child, is_zombie, Scan, found, kids, no_kids, scan_children}

-- What the scan of `wait` finds in the entries from `i` to `i + k`.
abbrev pub Scanned : ℕ → ℕ → ℕ → Bool → (ℕ → Proc) → Scan → Type 0
Scanned k i c seen ps (found m) =
    (i ≤ m) × (m < i + k) × (is_child c (ps m) ≡ true) × (is_zombie (ps m).state ≡ true)
Scanned k i c seen ps kids =
    ((j : ℕ) → i ≤ j → j < i + k → is_child c (ps j) ≡ true → is_zombie (ps j).state ≡ false)
    × ((seen ≡ true) ⊎ ((m : ℕ) × (i ≤ m) × (m < i + k) × (is_child c (ps m) ≡ true)))
Scanned k i c seen ps no_kids =
    ((j : ℕ) → i ≤ j → j < i + k → is_child c (ps j) ≡ false) × (seen ≡ false)

Scanned-skip :
    (k i c : ℕ) (seen : Bool) (ps : ℕ → Proc) (r : Scan)
    → is_child c (ps i) ≡ false
    → Scanned k (i + 1) c seen ps r
    → Scanned (suc k) i c seen ps r
Scanned-skip k i c seen ps (found m) e (a, b, x, y) = (omega arith, omega arith, x, y)
Scanned-skip k i c seen ps kids e (a, b) = (
  (λ j h l x. at j h l x),
  elim b [ inl s ↦ inl s | inr (m, p, q, x) ↦ inr (m, omega arith, omega arith, x) ],
)
  where
    at : (j : ℕ) → i ≤ j → j < i + suc k → is_child c (ps j) ≡ true → is_zombie (ps j).state ≡ false
    at j h l x = elim (ℕ_discrete i j) [
      | yes p ↦ let f = subst (λ m. is_child c (ps m) ≡ false) p e in cc
      | no p ↦ a j (omega arith) (omega arith) x
    ]
Scanned-skip k i c seen ps no_kids e (a, b) = ((λ j h l. at j h l), b)
  where
    at : (j : ℕ) → i ≤ j → j < i + suc k → is_child c (ps j) ≡ false
    at j h l = elim (ℕ_discrete i j) [
      | yes p ↦ subst (λ m. is_child c (ps m) ≡ false) p e
      | no p ↦ a j (omega arith) (omega arith)
    ]

Scanned-alive :
    (k i c : ℕ) (seen : Bool) (ps : ℕ → Proc) (r : Scan)
    → is_child c (ps i) ≡ true
    → is_zombie (ps i).state ≡ false
    → Scanned k (i + 1) c true ps r
    → Scanned (suc k) i c seen ps r
Scanned-alive k i c seen ps (found m) e z (a, b, x, y) = (omega arith, omega arith, x, y)
Scanned-alive k i c seen ps kids e z (a, b) =
    ((λ j h l x. at j h l x), inr (i, omega arith, omega arith, e))
  where
    at : (j : ℕ) → i ≤ j → j < i + suc k → is_child c (ps j) ≡ true → is_zombie (ps j).state ≡ false
    at j h l x = elim (ℕ_discrete i j) [
      | yes p ↦ subst (λ m. is_zombie (ps m).state ≡ false) p z
      | no p ↦ a j (omega arith) (omega arith) x
    ]
Scanned-alive k i c seen ps no_kids e z (a, b) = cc

scan-end :
    (i c : ℕ) (seen : Bool) (ps : ℕ → Proc) → Scanned 0 i c seen ps (if seen then kids else no_kids)
scan-end i c true ps = ((λ j h l. absurd (omega arith)), inl refl)
scan-end i c false ps = ((λ j h l. absurd (omega arith)), refl)

pub scan_children-Scanned :
    (k i c : ℕ) (seen : Bool) (ps : ℕ → Proc) → Scanned k i c seen ps (scan_children k i c seen ps)
unfolding scan_children
scan_children-Scanned zero i c seen ps = scan-end i c seen ps
scan_children-Scanned (suc k) i c seen ps =
    let skip = scan_children-Scanned k (i + 1) c seen ps in
    let alive = scan_children-Scanned k (i + 1) c true ps in
    elim (Bool-cases (is_child c (ps i))) [
      | inl e ↦ elim (Bool-cases (is_zombie (ps i).state)) [
        | inl z ↦ rw (e, z) (omega arith, omega arith, e, z)
        | inr z ↦ rw (e, z) (Scanned-alive k i c seen ps _ e z alive)
      ]
      | inr e ↦ rw e (Scanned-skip k i c seen ps _ e skip)
    ]
