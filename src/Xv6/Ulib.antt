-- ===== src/Xv6/Ulib.antt =====
-- xv6/base/ulib.c: the user library's functions on strings, over memory as a function of the address,
-- of bytes below 256. An int that a function returns is its 32-bit pattern. A loop to the end of a string
-- has fuel, and is `none` if the end is not met in as many rounds.
pub mod Digits
use os_projects.Base.{
  ℕ, zero, suc, ◌+◌, ◌-◌, ◌*◌, ◌%◌, ◌^◌, Bool, true, false, ◌&&◌, not, ◌==◌, leb, if◌then◌else◌,
  Option, none, some, update,
}

-- `strcpy`
pub strcpy : ℕ → ℕ → ℕ → (ℕ → ℕ) → Option (ℕ → ℕ)
strcpy zero s t m = none
strcpy (suc fuel) s t m =
    let m' = update m s (m t) in
    let rest = strcpy fuel (s + 1) (t + 1) m' in if m t == 0 then some m' else rest

-- `strcmp`
pub strcmp : ℕ → ℕ → ℕ → (ℕ → ℕ) → Option ℕ
strcmp zero p q m = none
strcmp (suc fuel) p q m =
    let rest = strcmp fuel (p + 1) (q + 1) m in
    if not (m p == 0) && (m p == m q) then rest else some ((m p + 2 ^ 32 - m q) % 2 ^ 32)

-- `strchr`: the address, 0 if the character is not in the string.
pub strchr : ℕ → ℕ → ℕ → (ℕ → ℕ) → Option ℕ
strchr zero s c m = none
strchr (suc fuel) s c m =
    let rest = strchr fuel (s + 1) c m in
    if m s == 0 then some 0 else if m s == c then some s else rest

-- The loop of `atoi`, which adds as the machine does, without regard to the sign.
pub atoi_from : ℕ → ℕ → ℕ → (ℕ → ℕ) → Option ℕ
atoi_from zero n s m = none
atoi_from (suc fuel) n s m =
    let rest = atoi_from fuel ((n * 10 + m s + 2 ^ 32 - 48) % 2 ^ 32) (s + 1) m in
    if leb 48 (m s) && leb (m s) 57 then rest else some n

pub atoi : ℕ → ℕ → (ℕ → ℕ) → Option ℕ
atoi fuel s m = atoi_from fuel 0 s m
