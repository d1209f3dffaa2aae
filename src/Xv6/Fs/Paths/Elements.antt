-- ===== src/Xv6/Fs/Paths/Elements.antt =====
-- The names that `skipelem` cuts off a path, one after the other.
use os_projects.Base.{
  ℕ, zero, suc, ◌≤◌, ◌<◌, ◌≡◌, inl, inr, refl, ap, sym, ◌∙◌, subst, Bool, true, false, ◌==◌,
  if◌then◌else◌, List, [], ◌∷◌, Option, none, some, take, length, arith, Bool-cases,
}
use os_projects.Xv6.Fs.Dirs.{dirsiz}
use os_projects.Xv6.Fs.Paths.{skip_slashes, take_elem, cut_elem, skipelem}

-- The names in the order in which the loop of `namex` gets them.
pub elements : ℕ → List ℕ → Option (List (List ℕ))
elements zero path = none
elements (suc fuel) path = elim (skipelem path) [
  | none ↦ some []
  | some (name, rest) ↦ elim (elements fuel rest) [ none ↦ none | some names ↦ some (name ∷ names) ]
]

-- A character is put in front of the first part.
abbrev pub onto : ℕ → List (List ℕ) → List (List ℕ)
onto c [] = (c ∷ []) ∷ []
onto c (p ∷ ps) = (c ∷ p) ∷ ps

-- The parts between the slashes of a path, which may be empty.
pub parts : List ℕ → List (List ℕ)
parts [] = [] ∷ []
parts (c ∷ cs) = let rest = parts cs in if c == b'/' then [] ∷ rest else onto c rest

abbrev pub is_nil : List ℕ → Bool
is_nil [] = true
is_nil (c ∷ cs) = false

-- The parts that are not empty, cut to DIRSIZ characters.
pub names_of : List (List ℕ) → List (List ℕ)
names_of [] = []
names_of (p ∷ ps) = if is_nil p then names_of ps else take dirsiz p ∷ names_of ps

names_of-skip_slashes :
    (path : List ℕ) → names_of (parts (skip_slashes path)) ≡ names_of (parts path)
unfolding names_of parts skip_slashes
names_of-skip_slashes [] = refl
names_of-skip_slashes (c ∷ cs) = elim (Bool-cases (c == b'/')) [
  | inl s ↦ rw s (names_of-skip_slashes cs)
  | inr o ↦ rw o (rw o refl)
]

-- The parts that are left after the first.
abbrev later : List ℕ → List (List ℕ)
later [] = []
later (s ∷ r) = parts r

parts-take_elem : (cs : List ℕ) → parts cs ≡ (take_elem cs).0 ∷ later (take_elem cs).1
unfolding parts take_elem
parts-take_elem [] = refl
parts-take_elem (c ∷ cs) = elim (Bool-cases (c == b'/')) [
  | inl s ↦ rw s refl
  | inr o ↦ rw o (ap (onto c) (parts-take_elem cs))
]

names_of-later :
    (cs : List ℕ) → names_of (later (take_elem cs).1) ≡ names_of (parts (take_elem cs).1)
unfolding names_of take_elem parts
names_of-later [] = refl
names_of-later (c ∷ cs) = elim (Bool-cases (c == b'/')) [
  | inl s ↦ rw s (rw s refl)
  | inr o ↦ rw o (names_of-later cs)
]

length-take_elem : (cs : List ℕ) → length (take_elem cs).1 ≤ length cs
unfolding take_elem
length-take_elem [] = omega arith
length-take_elem (c ∷ cs) = elim (Bool-cases (c == b'/')) [
  | inl s ↦ rw s (omega arith)
  | inr o ↦ rw o (omega (arith, length-take_elem cs))
]

length-skip_slashes : (cs : List ℕ) → length (skip_slashes cs) ≤ length cs
unfolding skip_slashes
length-skip_slashes [] = omega arith
length-skip_slashes (c ∷ cs) = elim (Bool-cases (c == b'/')) [
  | inl s ↦ rw s (omega (arith, length-skip_slashes cs))
  | inr o ↦ rw o (omega arith)
]

cons_head : (d c : ℕ) (cs r : List ℕ) → d ∷ cs ≡ c ∷ r → d ≡ c
cons_head d c cs r e = cc

-- What is left after the leading slashes starts with no slash.
no_slash : (cs : List ℕ) (c : ℕ) (r : List ℕ) → skip_slashes cs ≡ c ∷ r → (c == b'/') ≡ false
unfolding skip_slashes
no_slash [] c r e = cc
no_slash (d ∷ cs) c r e = elim (Bool-cases (d == b'/')) [
  | inl s ↦ no_slash cs c r (rw s at e)
  | inr o ↦ subst (λ b. (b == b'/') ≡ false) (cons_head d c cs r (rw o at e)) o
]

-- A name that starts with no slash is not empty, and what is left after it is shorter.
cut_elem_lem :
    (c : ℕ) (cs : List ℕ)
    → (c == b'/') ≡ false
    → (name : List ℕ) × (rest : List ℕ) × (cut_elem (c ∷ cs) ≡ some (name, skip_slashes rest))
      × (length rest ≤ length cs)
      × (names_of (parts (c ∷ cs)) ≡ name ∷ names_of (parts rest))
unfolding cut_elem take_elem names_of
cut_elem_lem c cs o = (
  take dirsiz (c ∷ (take_elem cs).0),
  (take_elem cs).1,
  rw o refl,
  length-take_elem cs,
  ap names_of (parts-take_elem (c ∷ cs))
      ∙ (rw o (ap (◌∷◌ (take dirsiz (c ∷ (take_elem cs).0))) (names_of-later cs))),
)

elements-suc :
    (fuel : ℕ) (path name rest : List ℕ) (names : List (List ℕ))
    → skipelem path ≡ some (name, rest)
    → elements fuel rest ≡ some names
    → elements (suc fuel) path ≡ some (name ∷ names)
unfolding elements
elements-suc fuel path name rest names e h =
    ap
      (λ o. elim o [
        | none ↦ some []
        | some (n, r) ↦ elim (elements fuel r) [ none ↦ none | some ns ↦ some (n ∷ ns) ]
      ])
      e
    ∙ ap (λ o. elim o [ none ↦ none | some ns ↦ some (name ∷ ns) ]) h

elements-none :
    (fuel : ℕ) (path : List ℕ) → skipelem path ≡ none → elements (suc fuel) path ≡ some []
unfolding elements
elements-none fuel path e =
    ap
      (λ o. elim o [
        | none ↦ some []
        | some (n, r) ↦ elim (elements fuel r) [ none ↦ none | some ns ↦ some (n ∷ ns) ]
      ])
      e

elements_step :
    (fuel : ℕ) (path p : List ℕ)
    → ((r : List ℕ) → length r < fuel → elements fuel r ≡ some (names_of (parts r)))
    → length path < suc fuel
    → skip_slashes path ≡ p
    → elements (suc fuel) path ≡ some (names_of (parts p))
unfolding skipelem
elements_step fuel path [] ih h e =
    elements-none fuel path (ap cut_elem e ∙ (unfold cut_elem in refl))
    ∙ (unfold names_of parts in refl)
elements_step fuel path (c ∷ cs) ih h e =
    let (name, rest, cut, shorter, eq) = cut_elem_lem c cs (no_slash path c cs e) in
    let short : length (skip_slashes rest) < fuel =
      omega (arith, length-skip_slashes rest, length-skip_slashes path, ap length e) in
    elements-suc fuel path name (skip_slashes rest) (names_of (parts (skip_slashes rest)))
      (ap cut_elem e ∙ cut) (ih (skip_slashes rest) short)
    ∙ ap (λ ns. some (name ∷ ns)) (names_of-skip_slashes rest)
    ∙ ap some (sym eq)

-- `skipelem`, called until it returns null, ends in no more calls than the path has characters and one,
-- and cuts off the parts of the path between its slashes that are not empty, in order, each up to
-- DIRSIZ characters.
pub elements_lem :
    (fuel : ℕ) (path : List ℕ)
    → length path < fuel
    → elements fuel path ≡ some (names_of (parts path))
elements_lem zero path h = absurd (omega arith)
elements_lem (suc fuel) path h =
    elements_step fuel path (skip_slashes path) (λ r l. elements_lem fuel r l) h refl
    ∙ ap some (names_of-skip_slashes path)
