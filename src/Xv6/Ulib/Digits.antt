-- ===== src/Xv6/Ulib/Digits.antt =====
-- `atoi` of a string of digits.
use os_projects.Base.{
  ℕ, suc, ◌+◌, ◌-◌, ◌*◌, ◌%◌, ◌^◌, ◌<◌, ◌≤◌, ◌≡◌, ◌⊎◌, refl, sym, subst, true, false, ◌&&◌, leb,
  List, [], ◌∷◌, length, some, arith,
}
use os_projects.Xv6.Ulib.{atoi_from, atoi}

-- The number that digits stand for, after a number already read.
unfoldable pub value : ℕ → List ℕ → ℕ
value n [] = n
value n (d ∷ ds) = value (n * 10 + d) ds

-- The characters of the digits stand from an address on, and after them one that is no digit.
abbrev pub HasDigits : ℕ → List ℕ → (ℕ → ℕ) → Type 0
HasDigits s [] m = (m s < 48) ⊎ (57 < m s)
HasDigits s (d ∷ ds) m = (d < 10) × (m s ≡ 48 + d) × HasDigits (s + 1) ds m

value_le : (n : ℕ) (ds : List ℕ) → n ≤ value n ds
unfolding value
value_le n [] = omega arith
value_le n (d ∷ ds) = omega (arith, value_le (n * 10 + d) ds)

atoi_from_lem :
    (n s : ℕ) (ds : List ℕ) (m : ℕ → ℕ)
    → HasDigits s ds m
    → value n ds < 2 ^ 32
    → atoi_from (length ds + 1) n s m ≡ some (value n ds)
unfolding atoi_from value
atoi_from_lem n s [] m h b =
    let t : (leb 48 (m s) && leb (m s) 57) ≡ false = ground arith in rw t refl
atoi_from_lem n s (d ∷ ds) m (l, e, h) b =
    let t : (leb 48 (m s) && leb (m s) 57) ≡ true = ground arith in
    let small : n * 10 + d < 2 ^ 32 = omega (arith, value_le (n * 10 + d) ds) in
    let next : (n * 10 + m s + 2 ^ 32 - 48) % 2 ^ 32 ≡ n * 10 + d = omega arith in
    let fuel : suc (length ds) + 1 ≡ suc (length ds + 1) = omega arith in
    subst (λ k. atoi_from k n s m ≡ some (value (n * 10 + d) ds)) (sym fuel)
      (rw (t, next) (atoi_from_lem (n * 10 + d) (s + 1) ds m h b))

-- `atoi` of a string of digits, with a character after them that is none, returns in a round for each
-- digit and one for the end the number that they stand for in base ten, if that is below 2^31.
atoi_lem :
    (s : ℕ) (ds : List ℕ) (m : ℕ → ℕ)
    → HasDigits s ds m
    → value 0 ds < 2 ^ 31
    → atoi (length ds + 1) s m ≡ some (value 0 ds)
unfolding atoi
atoi_lem s ds m h b = atoi_from_lem 0 s ds m h (omega arith)
