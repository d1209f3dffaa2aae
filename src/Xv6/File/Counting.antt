-- ===== src/Xv6/File/Counting.antt =====
-- How each call changes the reference counts.
use os_projects.Base.{
  ℕ, ◌+◌, ◌-◌, ◌≡◌, inl, inr, refl, sym, ap, ◌∙◌, ◌⊎◌, true, false, ◌==◌, ltb, if◌then◌else◌,
  Option, none, some, update, arith, Bool-cases,
}
use os_projects.Xv6.File.{
  File, fd_none, nfile, Ftable, find_file, filealloc, filedup, Closed, panics, still, last,
  fileclose,
}
use os_projects.Xv6.File.Refs.{Searched, find_file_lem}

-- One reference to the file `f`, as a count for each file.
abbrev pub one : ℕ → ℕ → ℕ
one f i = if f == i then 1 else 0

-- `u` has one reference more than `t`, to the file `i`.
abbrev pub Gains : ℕ → Ftable → Ftable → Type 0
Gains i t u = (j : ℕ) → (u j).ref ≡ (t j).ref + one i j

Gains-update : (i : ℕ) (t : Ftable) (x : File) → x.ref ≡ (t i).ref + 1 → Gains i t (update t i x)
Gains-update i t x e = λ j. at j (Bool-cases (i == j))
  where
    at :
        (j : ℕ)
        → ((i == j) ≡ true) ⊎ ((i == j) ≡ false)
        → (update t i x j).ref ≡ (t j).ref + one i j
    at j (inl b) = let s : i ≡ j = ground arith in rw b (e ∙ ap (λ k. (t k).ref + 1) s)
    at j (inr b) = rw b (omega arith)

Loses-update : (i : ℕ) (t : Ftable) (x : File) → x.ref + 1 ≡ (t i).ref → Gains i (update t i x) t
Loses-update i t x e = λ j. at j (Bool-cases (i == j))
  where
    at :
        (j : ℕ)
        → ((i == j) ≡ true) ⊎ ((i == j) ≡ false)
        → (t j).ref ≡ (update t i x j).ref + one i j
    at j (inl b) = let s : i ≡ j = ground arith in rw b (ap (λ k. (t k).ref) (sym s) ∙ sym e)
    at j (inr b) = rw b (omega arith)

abbrev pub Takes : Ftable → Option ℕ × Ftable → Type 0
Takes t (none, u) = u ≡ t
Takes t (some i, u) = Gains i t u

pub filealloc-Takes : (t : Ftable) → Takes t (filealloc t)
unfolding filealloc
filealloc-Takes t = after (find_file nfile 0 t) (find_file_lem nfile 0 t)
  where
    after :
        (r : Option ℕ)
        → Searched nfile 0 t r
        → Takes t
            (elim r [ none ↦ (none, t) | some i ↦ (some i, update t i (record (t i) { ref = 1 })) ])
    after none h = refl
    after (some i) (a, b, z) = Gains-update i t (record (t i) { ref = 1 }) (omega (arith, z))

abbrev pub Dups : ℕ → Ftable → Option Ftable → Type 0
Dups i t none = Unit
Dups i t (some u) = Gains i t u

pub filedup-Dups : (i : ℕ) (t : Ftable) → Dups i t (filedup i t)
unfolding filedup
filedup-Dups i t = elim (Bool-cases (ltb (t i).ref 1)) [
  | inl b ↦ rw b tt
  | inr b ↦ rw b (Gains-update i t (record (t i) { ref = (t i).ref + 1 }) refl)
]

abbrev pub Drops : ℕ → Ftable → Closed → Type 0
Drops i t panics = Unit
Drops i t (still u) = Gains i u t
Drops i t (last f u) = Gains i u t

pub fileclose-Drops : (i : ℕ) (t : Ftable) → Drops i t (fileclose i t)
unfolding fileclose
fileclose-Drops i t = elim (Bool-cases (ltb (t i).ref 1)) [
  | inl b ↦ rw b tt
  | inr b ↦ elim (Bool-cases (ltb 0 ((t i).ref - 1))) [
    | inl c ↦ rw (b, c) (Loses-update i t (record (t i) { ref = (t i).ref - 1 }) (ground arith))
    | inr c ↦ rw (b, c) (Loses-update i t (record (t i) { ref = 0; type = fd_none }) (ground arith))
  ]
]
