-- ===== src/Ring.antt =====
-- Rings of bytes that the kernel indexes by uint counters modulo their size: the bytes from a counter on.
use os_projects.Base.{
  ℕ, zero, suc, ◌+◌, ◌-◌, ◌%◌, ◌^◌, ◌≤◌, ◌<◌, ◌≡◌, ◌≢◌, refl, ap, ap₂, ◌∙◌, List, [], ◌∷◌, ◌++◌,
  length, take, update, update_self, update_ne, arith,
}

-- uint arithmetic
abbrev pub uint_mod : ℕ
uint_mod = 2 ^ 32

-- The number of steps from one counter to another, by uint subtraction.
abbrev pub distance : ℕ → ℕ → ℕ
distance h t = (t + uint_mod - h) % uint_mod

-- The `n` bytes from the counter `h` on.
abbrev pub window : ℕ → (ℕ → ℕ) → ℕ → ℕ → List ℕ
window size b h zero = []
window size b h (suc n) = b (h % size) ∷ window size b ((h + 1) % uint_mod) n

pub length-window : (size : ℕ) (b : ℕ → ℕ) (h n : ℕ) → length (window size b h n) ≡ n
length-window size b h zero = refl
length-window size b h (suc n) = ap suc (length-window size b ((h + 1) % uint_mod) n)

pub take-window :
    (size : ℕ) (b : ℕ → ℕ) (h m n : ℕ) → m ≤ n → take m (window size b h n) ≡ window size b h m
take-window size b h zero n l = refl
take-window size b h (suc m) zero l = absurd (omega arith)
take-window size b h (suc m) (suc n) l =
    ap (◌∷◌ (b (h % size))) (take-window size b ((h + 1) % uint_mod) m n (omega arith))

slot-shift : (h n : ℕ) → (h + suc n) % uint_mod ≡ ((h + 1) % uint_mod + n) % uint_mod
slot-shift h n = omega arith

-- For a size by which slots of a ring less than the size apart differ.
module _ (size : ℕ)
    (apart : (h n : ℕ) → suc n < size → (h + suc n) % uint_mod % size ≢ h % size) where
  -- A write just past a window that leaves room extends it by that byte.
  pub window-update :
      (b : ℕ → ℕ) (x n h i : ℕ)
      → h < uint_mod
      → n < size
      → i ≡ (h + n) % uint_mod
      → window size (update b (i % size) x) h (suc n) ≡ window size b h n ++ x ∷ []
  window-update b x zero h i hh hn e =
      let i' : i ≡ h = omega arith in ap (λ y. y ∷ []) (rw i' (update_self b (h % size) x))
  window-update b x (suc n) h i hh hn e =
      ap₂ ◌∷◌ (update_ne b (i % size) (h % size) x (rw e (apart h n hn))) (
        window-update b x n ((h + 1) % uint_mod) i (omega arith) (omega arith) (e ∙ slot-shift h n))
