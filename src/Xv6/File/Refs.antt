-- ===== src/Xv6/File/Refs.antt =====
-- The references to the entries of the file table.
use os_projects.Base.{
  ℕ, zero, suc, ◌+◌, ◌-◌, ◌<◌, ◌≤◌, ◌≡◌, ◌≢◌, inl, inr, refl, ap, sym, ◌∙◌, subst, true, false,
  ◌==◌, ltb, Option, none, some, update, update_ne, update_self, update-update_back, arith,
  Bool-cases, ℕ_discrete,
}
use os_projects.Xv6.File.{
  nfile, Ftable, find_file, filealloc, filedup, Closed, panics, still, last, fileclose,
}

-- What a search of `k` entries from `i` on finds.
abbrev pub Searched : ℕ → ℕ → Ftable → Option ℕ → Type 0
Searched k i t none = (j : ℕ) → i ≤ j → j < i + k → (t j).ref ≢ 0
Searched k i t (some m) = (i ≤ m) × (m < i + k) × ((t m).ref ≡ 0)

Searched-skip :
    (k i : ℕ) (t : Ftable) (r : Option ℕ)
    → (t i).ref ≢ 0
    → Searched k (i + 1) t r
    → Searched (suc k) i t r
Searched-skip k i t (some m) e (a, b, z) = (omega arith, omega arith, z)
Searched-skip k i t none e h = at
  where
    at : (j : ℕ) → i ≤ j → j < i + suc k → (t j).ref ≢ 0
    at j a b = elim (ℕ_discrete i j) [
      | yes p ↦ subst (λ m. (t m).ref ≢ 0) p e
      | no ne ↦ h j (omega arith) (omega arith)
    ]

pub find_file_lem : (k i : ℕ) (t : Ftable) → Searched k i t (find_file k i t)
unfolding find_file
find_file_lem zero i t = λ j a b. absurd (omega arith)
find_file_lem (suc k) i t = elim (Bool-cases ((t i).ref == 0)) [
  | inl e ↦ rw e (omega arith, omega arith, ground arith)
  | inr e ↦
      rw e (
        Searched-skip k i t (find_file k (i + 1) t) (λ z. ground arith) (find_file_lem k (i + 1) t))
]

abbrev pub Allocs : Ftable → Option ℕ × Ftable → Type 0
Allocs t (none, u) = ((j : ℕ) → j < nfile → (t j).ref ≢ 0) × (u ≡ t)
Allocs t (some i, u) =
    (i < nfile) × ((t i).ref ≡ 0) × ((u i).ref ≡ 1) × ((j : ℕ) → i ≢ j → u j ≡ t j)

-- `filealloc` takes an entry without references and gives it one, changing no other entry; it fails,
-- changing nothing, only if every entry is referenced.
pub filealloc_lem : (t : Ftable) → Allocs t (filealloc t)
unfolding filealloc
filealloc_lem t = after (find_file nfile 0 t) (find_file_lem nfile 0 t)
  where
    after :
        (r : Option ℕ)
        → Searched nfile 0 t r
        → Allocs t
            (elim r [ none ↦ (none, t) | some i ↦ (some i, update t i (record (t i) { ref = 1 })) ])
    after none h = ((λ j l. h j (omega arith) (omega arith)), refl)
    after (some i) (a, b, z) = (
      omega arith,
      z,
      ap (λ f. f.ref) (update_self t i (record (t i) { ref = 1 })),
      λ j ne. update_ne t i j (record (t i) { ref = 1 }) ne,
    )

pub dup_times : ℕ → ℕ → Ftable → Option Ftable
dup_times zero i t = some t
dup_times (suc k) i t = elim (filedup i t) [ none ↦ none | some u ↦ dup_times k i u ]

abbrev pub not_last : Closed → Option Ftable
not_last (still u) = some u
not_last (last f u) = none
not_last panics = none

-- `k` closes, none of which is the last.
pub close_times : ℕ → ℕ → Ftable → Option Ftable
close_times zero i t = some t
close_times (suc k) i t = elim (close_times k i t) [
  | none ↦ none
  | some u ↦ not_last (fileclose i u)
]

abbrev duped : ℕ → Ftable → Ftable
duped i t = update t i (record (t i) { ref = (t i).ref + 1 })

filedup-some : (i : ℕ) (t : Ftable) → 0 < (t i).ref → filedup i t ≡ some (duped i t)
unfolding filedup
filedup-some i t h = let e : ltb (t i).ref 1 ≡ false = ground arith in rw e refl

fileclose-still :
    (i n : ℕ) (u : Ftable)
    → (u i).ref ≡ n + 1
    → 0 < n
    → fileclose i u ≡ still (update u i (record (u i) { ref = n }))
unfolding fileclose
fileclose-still i n u e h =
    let a : ltb (u i).ref 1 ≡ false = ground arith in
    let b : ltb 0 ((u i).ref - 1) ≡ true = ground arith in
    let c : (u i).ref - 1 ≡ n = omega arith in
    rw (a, b) (ap (λ k. still (update u i (record (u i) { ref = k }))) c)

fileclose-duped : (i : ℕ) (t : Ftable) → 0 < (t i).ref → fileclose i (duped i t) ≡ still t
fileclose-duped i t h =
    let u = duped i t in
    let x = record (t i) { ref = (t i).ref + 1 } in
    let e : u i ≡ x = update_self t i x in
    let back : record (u i) { ref = (t i).ref } ≡ t i =
      subst (λ f. record f { ref = (t i).ref } ≡ t i) (sym e) refl in
    fileclose-still i (t i).ref u (ap (λ f. f.ref) e) h
    ∙ ap still (update-update_back t i x (record (u i) { ref = (t i).ref }) back)

dup_times-suc :
    (k i : ℕ) (t u : Ftable) → filedup i t ≡ some u → dup_times (suc k) i t ≡ dup_times k i u
unfolding dup_times
dup_times-suc k i t u e = ap (λ o. elim o [ none ↦ none | some v ↦ dup_times k i v ]) e

close_times-suc :
    (k i : ℕ) (u v w : Ftable)
    → close_times k i u ≡ some v
    → fileclose i v ≡ still w
    → close_times (suc k) i u ≡ some w
unfolding close_times
close_times-suc k i u v w e h =
    ap (λ o. elim o [ none ↦ none | some x ↦ not_last (fileclose i x) ]) e ∙ ap not_last h

-- After `k` calls of `filedup` on a referenced file, `k` calls of `fileclose` are not the last, and
-- leave the table as it was.
fileclose-filedup :
    (k i : ℕ) (t : Ftable)
    → 0 < (t i).ref
    → (u : Ftable) × (dup_times k i t ≡ some u) × (close_times k i u ≡ some t)
unfolding dup_times
fileclose-filedup zero i t h = (t, refl, unfold close_times in refl)
fileclose-filedup (suc k) i t h =
    let t1 = duped i t in
    let more : 0 < (t1 i).ref =
      subst (λ f. 0 < f.ref) (sym (update_self t i (record (t i) { ref = (t i).ref + 1 })))
        (omega arith) in
    let (u, d, c) = fileclose-filedup k i t1 more in
    (
      u,
      dup_times-suc k i t t1 (filedup-some i t h) ∙ d,
      close_times-suc k i u t1 t c (fileclose-duped i t h),
    )
