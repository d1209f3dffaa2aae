-- ===== src/Xv6/Console/Output/Digits.antt =====
-- The digits of `printint`, against the number that they stand for.
use os_projects.Base.{
  ℕ, zero, suc, ◌+◌, ◌*◌, ◌/◌, ◌%◌, ◌^◌, ◌≤◌, ◌<◌, ◌≡◌, inl, inr, sym, ap, ◌∙◌, true, ◌==◌, List,
  [], ◌∷◌, length, All, Bool-cases, arith,
}
use os_projects.Xv6.Console.Output.{digits_of, buf_size}

-- The number of which these are the digits, the last first.
abbrev pub value : ℕ → List ℕ → ℕ
value base [] = 0
value base (d ∷ ds) = d + base * value base ds

-- A base, with what division by it does.
module _ (base : ℕ) (splits : (x : ℕ) → x % base + base * (x / base) ≡ x)
    (is_digit : (x : ℕ) → x % base < base) (shrinks : (x n : ℕ) → x < base * n → x / base < n) where
  abbrev below : ℕ → ℕ
  below zero = 1
  below (suc fuel) = base * below fuel

  -- Of a number below a power of the base, the digits stand for it, and are no more than the exponent.
  digits_of-value :
      (n fuel x : ℕ)
      → x < base * below n
      → n < fuel
      → (value base (digits_of fuel base x) ≡ x)
        × (All (λ d. d < base) (digits_of fuel base x) × (length (digits_of fuel base x) ≤ suc n))
  unfolding digits_of
  digits_of-value n zero x l h = absurd (omega arith)
  digits_of-value zero (suc fuel) x l h =
      let q : x / base ≡ 0 = omega (arith, shrinks x 1 l) in
      let t : (x / base == 0) ≡ true = ground arith in
      rw t (ap (λ q. x % base + base * q) (sym q) ∙ splits x, ((is_digit x, tt), omega arith))
  digits_of-value (suc n) (suc fuel) x l h =
      let (v, (a, m)) =
        digits_of-value n fuel (x / base) (shrinks x (base * below n) l) (omega arith) in
      elim (Bool-cases (x / base == 0)) [
        | inl t ↦
            let q : x / base ≡ 0 = ground arith in
            rw t (ap (λ q. x % base + base * q) (sym q) ∙ splits x, ((is_digit x, tt), omega arith))
        | inr t ↦ rw (t, v) (splits x, ((is_digit x, a), omega (arith, m)))
      ]

-- The decimal digits of a uint, which are at most 10.
pub decimal :
    (x : ℕ)
    → x < 2 ^ 32
    → (value 10 (digits_of buf_size 10 x) ≡ x)
      × (All (λ d. d < 10) (digits_of buf_size 10 x) × (length (digits_of buf_size 10 x) ≤ 10))
decimal x l =
    digits_of-value 10 (λ x. omega arith) (λ x. omega arith) (λ x n h. omega arith) 9 buf_size x
      (omega arith) (omega arith)
