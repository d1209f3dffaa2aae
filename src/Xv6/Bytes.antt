-- ===== src/Xv6/Bytes.antt =====
-- xv6/base/string.c: memory is a function of the address, of bytes below 256. The range of a call does
-- not go round the end of the address space. An int that a function returns is its 32-bit pattern.
pub mod Move
pub mod Compare
mod Tests
use os_projects.Base.{
  ℕ, zero, suc, ◌+◌, ◌-◌, ◌*◌, ◌/◌, ◌%◌, ◌^◌, Bool, true, false, ◌&&◌, not, ◌==◌, ltb,
  if◌then◌else◌, Option, none, some, update,
}

-- `stosb` of x86.h: `n` times the low byte of `c`.
pub stosb : ℕ → ℕ → ℕ → (ℕ → ℕ) → ℕ → ℕ
stosb addr c zero m = m
stosb addr c (suc n) m = stosb (addr + 1) c n (update m addr (c % 256))

pub put_int : ℕ → ℕ → (ℕ → ℕ) → ℕ → ℕ
put_int addr w m =
    update
      (update (update (update m addr (w % 256)) (addr + 1) (w / 256 % 256)) (addr + 2)
        (w / 65536 % 256))
      (addr + 3) (w / 16777216 % 256)

-- `stosl` of x86.h: `n` times an int.
pub stosl : ℕ → ℕ → ℕ → (ℕ → ℕ) → ℕ → ℕ
stosl addr w zero m = m
stosl addr w (suc n) m = stosl (addr + 4) w n (put_int addr w m)

-- `memset`; the shifted bytes do not overlap, so that their `|` is their sum.
pub memset : ℕ → ℕ → ℕ → (ℕ → ℕ) → ℕ → ℕ
memset dst c n m =
    if (dst % 4 == 0) && (n % 4 == 0)
    then (let b = c % 256 in stosl dst (b * 2 ^ 24 + b * 2 ^ 16 + b * 2 ^ 8 + b) (n / 4) m)
    else stosb dst c n m

pub memcmp : ℕ → ℕ → ℕ → (ℕ → ℕ) → ℕ
memcmp v1 v2 zero m = 0
memcmp v1 v2 (suc n) m =
    let rest = memcmp (v1 + 1) (v2 + 1) n m in
    if not (m v1 == m v2) then (m v1 + 2 ^ 32 - m v2) % 2 ^ 32 else rest

-- The loop of `memmove` from the last byte down to the first.
pub move_down : ℕ → ℕ → ℕ → (ℕ → ℕ) → ℕ → ℕ
move_down dst src zero m = m
move_down dst src (suc n) m = move_down dst src n (update m (dst + n) (m (src + n)))

-- The loop from the first byte up.
pub move_up : ℕ → ℕ → ℕ → (ℕ → ℕ) → ℕ → ℕ
move_up dst src zero m = m
move_up dst src (suc n) m = move_up (dst + 1) (src + 1) n (update m dst (m src))

pub memmove : ℕ → ℕ → ℕ → (ℕ → ℕ) → ℕ → ℕ
memmove dst src n m =
    if ltb src dst && ltb dst (src + n) then move_down dst src n m else move_up dst src n m

pub memcpy : ℕ → ℕ → ℕ → (ℕ → ℕ) → ℕ → ℕ
memcpy dst src n m = memmove dst src n m

pub strncmp : ℕ → ℕ → ℕ → (ℕ → ℕ) → ℕ
strncmp p q zero m = 0
strncmp p q (suc n) m =
    let rest = strncmp (p + 1) (q + 1) n m in
    if not (m p == 0) && (m p == m q) then rest else (m p + 2 ^ 32 - m q) % 2 ^ 32

-- The second loop of `strncpy`.
pub pad : ℕ → ℕ → (ℕ → ℕ) → ℕ → ℕ
pad s zero m = m
pad s (suc n) m = pad (s + 1) n (update m s 0)

-- `strncpy`; a negative `n` is 0.
pub strncpy : ℕ → ℕ → ℕ → (ℕ → ℕ) → ℕ → ℕ
strncpy s t zero m = m
strncpy s t (suc n) m =
    let m' = update m s (m t) in
    let rest = strncpy (s + 1) (t + 1) n m' in if m t == 0 then pad (s + 1) n m' else rest

-- `safestrcpy` of at most `n` characters and the end.
pub copy_chars : ℕ → ℕ → ℕ → (ℕ → ℕ) → ℕ → ℕ
copy_chars s t zero m = update m s 0
copy_chars s t (suc n) m =
    let m' = update m s (m t) in
    let rest = copy_chars (s + 1) (t + 1) n m' in if m t == 0 then update m' (s + 1) 0 else rest

-- `safestrcpy`; a negative `n` is 0.
pub safestrcpy : ℕ → ℕ → ℕ → (ℕ → ℕ) → ℕ → ℕ
safestrcpy s t zero m = m
safestrcpy s t (suc n) m = copy_chars s t n m

-- `strlen`, from the character `n` on; `none` if no end is found in `fuel` characters.
pub strlen_from : ℕ → ℕ → ℕ → (ℕ → ℕ) → Option ℕ
strlen_from zero s n m = none
strlen_from (suc fuel) s n m =
    let rest = strlen_from fuel s (n + 1) m in if m (s + n) == 0 then some n else rest

pub strlen : ℕ → ℕ → (ℕ → ℕ) → Option ℕ
strlen fuel s m = strlen_from fuel s 0 m
