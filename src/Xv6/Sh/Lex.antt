-- ===== src/Xv6/Sh/Lex.antt =====
-- How far `gettoken` gets.
use os_projects.Base.{
  ℕ, ◌≤◌, ◌<◌, ◌≡◌, refl, inl, inr, Bool, true, false, ◌||◌, ◌==◌, List, [], ◌∷◌, length, arith,
  Bool-cases,
}
use os_projects.Xv6.Sh.{
  is_space, is_symbol, skip_space, take_word, angle, token_at, gettoken, starts, is_end,
}

pub length-skip_space : (s : List ℕ) → length (skip_space s) ≤ length s
unfolding skip_space
length-skip_space [] = omega arith
length-skip_space (c ∷ cs) = elim (Bool-cases (is_space c)) [
  | inl t ↦ rw t (omega (arith, length-skip_space cs))
  | inr t ↦ rw t (omega arith)
]

pub skip_space-skip_space : (s : List ℕ) → skip_space (skip_space s) ≡ skip_space s
unfolding skip_space
skip_space-skip_space [] = refl
skip_space-skip_space (c ∷ cs) = elim (Bool-cases (is_space c)) [
  | inl t ↦ rw t (skip_space-skip_space cs)
  | inr t ↦ rw t (rw t refl)
]

starts-skip_space : (s : List ℕ) → starts is_space (skip_space s) ≡ false
unfolding skip_space
starts-skip_space [] = refl
starts-skip_space (c ∷ cs) = elim (Bool-cases (is_space c)) [
  | inl t ↦ rw t (starts-skip_space cs)
  | inr t ↦ rw t t
]

length-take_word : (s : List ℕ) → length (take_word s).1 ≤ length s
unfolding take_word
length-take_word [] = omega arith
length-take_word (c ∷ cs) = elim (Bool-cases (is_space c || is_symbol c)) [
  | inl t ↦ rw t (omega arith)
  | inr t ↦ rw t (omega (arith, length-take_word cs))
]

length-angle : (s : List ℕ) → length (angle s).1 ≤ length s
unfolding angle
length-angle [] = omega arith
length-angle (c ∷ cs) = elim (Bool-cases (c == b'>')) [
  | inl t ↦ rw t (omega arith)
  | inr t ↦ rw t (omega arith)
]

-- A token that starts with a character takes it.
length-token_at :
    (c : ℕ) (cs : List ℕ) → is_space c ≡ false → length (token_at (c ∷ cs)).1 ≤ length cs
unfolding token_at take_word
length-token_at c cs n = elim (Bool-cases (c == b'>')) [
  | inl t ↦ rw t (length-angle cs)
  | inr t ↦ elim (Bool-cases (is_symbol c)) [
    | inl u ↦ rw (t, u) (omega arith)
    | inr u ↦ rw (t, u, n) (length-take_word cs)
  ]
]

length-token_at_any : (s : List ℕ) → starts is_space s ≡ false → length (token_at s).1 ≤ length s
unfolding token_at
length-token_at_any [] n = omega arith
length-token_at_any (c ∷ cs) n = omega (arith, length-token_at c cs n)

pub length-gettoken : (s : List ℕ) → length (gettoken s).1 ≤ length s
unfolding gettoken
length-gettoken s = omega (
  arith,
  length-skip_space (token_at (skip_space s)).1,
  length-skip_space s,
  length-token_at_any (skip_space s) (starts-skip_space s),
)

-- If a test of the next character succeeds, a token is taken.
pub length-gettoken_lt :
    (test : ℕ → Bool) (s : List ℕ)
    → starts test (skip_space s) ≡ true
    → length (gettoken (skip_space s)).1 < length s
unfolding gettoken
length-gettoken_lt test s t = rw (skip_space-skip_space s) (
    omega (
      arith,
      length-skip_space (token_at (skip_space s)).1,
      length-skip_space s,
      taken (skip_space s) t (starts-skip_space s),
    ))
  where
    taken :
        (r : List ℕ)
        → starts test r ≡ true
        → starts is_space r ≡ false
        → length (token_at r).1 < length r
    taken [] t n = absurd (ground arith)
    taken (c ∷ cs) t n = omega (arith, length-token_at c cs n)

-- So it is if the token is not the end.
pub length-gettoken_ne :
    (s : List ℕ)
    → is_end (gettoken (skip_space s)).0 ≡ false
    → length (gettoken (skip_space s)).1 < length s
unfolding gettoken token_at skip_space
length-gettoken_ne s t =
    length-gettoken_lt (λ c. true) s (left s (skip_space s) (skip_space-skip_space s) t)
  where
    left :
        (s r : List ℕ)
        → skip_space r ≡ r
        → is_end (gettoken r).0 ≡ false
        → starts (λ c. true) r ≡ true
    left s [] e t = absurd (ground arith)
    left s (c ∷ cs) e t = refl
