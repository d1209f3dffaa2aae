-- ===== src/Xv6/Sh/Words.antt =====
-- Words, and what may stand after them.
use os_projects.Base.{
  ℕ, ◌≤◌, ◌≡◌, refl, ap, subst, inl, inr, Bool, true, false, ◌||◌, ◌==◌, if◌then◌else◌, List, [],
  ◌∷◌, ◌++◌, length, All, arith, Bool-cases,
}
use os_projects.Xv6.Sh.{
  is_space, is_symbol, skip_space, take_word, token_at, gettoken, starts, Token, word,
}

abbrev pub IsChar : ℕ → Type 0
IsChar c = (is_space c ≡ false) × (is_symbol c ≡ false)

-- A word of the shell: characters that are no spaces and no symbols, at least one.
abbrev pub IsWord : List ℕ → Type 0
IsWord w = (1 ≤ length w) × All IsChar w

-- There is no character, or the first one passes a test.
abbrev pub ends : (ℕ → Bool) → List ℕ → Bool
ends test [] = true
ends test (c ∷ cs) = test c

-- So it is after the spaces.
abbrev pub Follows : (ℕ → Bool) → List ℕ → Type 0
Follows test s = ends test (skip_space s) ≡ true

abbrev pub EndsWord : List ℕ → Type 0
EndsWord s = ends (λ c. is_space c || is_symbol c) s ≡ true

pub Follows-weaken :
    (test test' : ℕ → Bool) (s : List ℕ)
    → ((c : ℕ) → test c ≡ true → test' c ≡ true)
    → Follows test s
    → Follows test' s
Follows-weaken test test' s f h = after (skip_space s) h
  where
    after : (r : List ℕ) → ends test r ≡ true → ends test' r ≡ true
    after [] h = refl
    after (c ∷ cs) h = f c h

pub Follows-starts :
    (test test' : ℕ → Bool) (s : List ℕ)
    → ((c : ℕ) → test c ≡ true → test' c ≡ false)
    → Follows test s
    → starts test' (skip_space s) ≡ false
Follows-starts test test' s f h = after (skip_space s) h
  where
    after : (r : List ℕ) → ends test r ≡ true → starts test' r ≡ false
    after [] h = refl
    after (c ∷ cs) h = f c h

pub Follows-EndsWord :
    (test : ℕ → Bool) (s : List ℕ)
    → ((c : ℕ) → test c ≡ true → is_symbol c ≡ true)
    → Follows test s
    → EndsWord s
unfolding skip_space
Follows-EndsWord test [] f h = refl
Follows-EndsWord test (c ∷ cs) f h = elim (Bool-cases (is_space c)) [
  | inl t ↦ rw t refl
  | inr t ↦
      let u : is_symbol c ≡ true =
        f c (subst (λ (b : Bool). ends test (if b then skip_space cs else c ∷ cs) ≡ true) t h) in
      ground arith
]

take_word-word : (w r : List ℕ) → All IsChar w → EndsWord r → take_word (w ++ r) ≡ (w, r)
unfolding take_word
take_word-word [] [] a e = refl
take_word-word [] (c ∷ cs) a e = rw e refl
take_word-word (c ∷ cs) r ((s, y), a) e = rw (s, y, take_word-word cs r a e) refl

pub skip_space-word : (w r : List ℕ) → IsWord w → skip_space (w ++ r) ≡ w ++ r
unfolding skip_space
skip_space-word [] r (l, a) = absurd (omega arith)
skip_space-word (c ∷ cs) r (l, ((s, y), a)) = rw s refl

pub starts-word :
    (test : ℕ → Bool) (w r : List ℕ)
    → ((c : ℕ) → is_symbol c ≡ false → test c ≡ false)
    → IsWord w
    → starts test (w ++ r) ≡ false
starts-word test [] r f (l, a) = absurd (omega arith)
starts-word test (c ∷ cs) r f (l, ((s, y), a)) = f c y

symbol-angle : (c : ℕ) → is_symbol c ≡ false → (c == b'>') ≡ false
unfolding is_symbol
symbol-angle c h = ground arith

pub gettoken-word :
    (w r : List ℕ) → IsWord w → EndsWord r → gettoken (w ++ r) ≡ (word w, skip_space r)
unfolding gettoken token_at
gettoken-word w r i e =
    rw (skip_space-word w r i) (ap (λ (p : Token × List ℕ). (p.0, skip_space p.1)) (token w i))
  where
    token : (w : List ℕ) → IsWord w → token_at (w ++ r) ≡ (word w, r)
    token [] (l, a) = absurd (omega arith)
    token (c ∷ cs) (l, ((s, y), a)) =
        let ne : (c == b'>') ≡ false = symbol-angle c y in
        rw (ne, y)
          (ap (λ (p : List ℕ × List ℕ). (word p.0, p.1)) (take_word-word (c ∷ cs) r ((s, y), a) e))
