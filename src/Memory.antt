-- ===== src/Memory.antt =====
-- Bytes and little-endian ints in a memory, as the programs' pointers and file offsets see them, and
-- what is read back of what was written.
use os_projects.Base.{
  ℕ, zero, suc, ◌+◌, ◌*◌, ◌/◌, ◌%◌, ◌^◌, ◌≤◌, ◌<◌, ◌≡◌, ◌⊎◌, refl, ap, ap₂, ◌∙◌, List, [], ◌∷◌,
  ◌++◌, update, update_ne, update_self, length, All, arith,
}

unfoldable pub read_bytes : (ℕ → ℕ) → ℕ → ℕ → List ℕ
read_bytes m a zero = []
read_bytes m a (suc n) = m a ∷ read_bytes m (a + 1) n

unfoldable pub write_bytes : (ℕ → ℕ) → ℕ → List ℕ → ℕ → ℕ
write_bytes m a [] = m
write_bytes m a (x ∷ xs) = write_bytes (update m a x) (a + 1) xs

-- The four bytes of an int, least first.
unfoldable pub bytes_of : ℕ → List ℕ
bytes_of w = w % 256 ∷ w / 256 % 256 ∷ w / 65536 % 256 ∷ w / 16777216 % 256 ∷ []

-- The int at an address.
unfoldable pub int_at : (ℕ → ℕ) → ℕ → ℕ
int_at m a = m a + 256 * m (a + 1) + 65536 * m (a + 2) + 16777216 * m (a + 3)

unfoldable pub read_ints : ℕ → ℕ → (ℕ → ℕ) → List ℕ
read_ints zero a m = []
read_ints (suc n) a m = int_at m a ∷ read_ints n (a + 4) m

unfoldable pub bytes_of_ints : List ℕ → List ℕ
bytes_of_ints [] = []
bytes_of_ints (w ∷ ws) = bytes_of w ++ bytes_of_ints ws

-- Writing leaves the addresses outside of its range.
pub write_bytes_outside :
    (m : ℕ → ℕ) (a : ℕ) (xs : List ℕ) (j : ℕ)
    → (j < a) ⊎ (a + length xs ≤ j)
    → write_bytes m a xs j ≡ m j
unfolding write_bytes
write_bytes_outside m a [] j h = refl
write_bytes_outside m a (x ∷ xs) j h =
    write_bytes_outside (update m a x) (a + 1) xs j (omega arith) ∙ update_ne m a j x (omega arith)

pub write_bytes-append :
    (m : ℕ → ℕ) (a : ℕ) (xs ys : List ℕ)
    → write_bytes m a (xs ++ ys) ≡ write_bytes (write_bytes m a xs) (a + length xs) ys
unfolding write_bytes
write_bytes-append m a [] ys = let e : a ≡ a + 0 = omega arith in ap (λ b. write_bytes m b ys) e
write_bytes-append m a (x ∷ xs) ys =
    let e : a + 1 + length xs ≡ a + suc (length xs) = omega arith in
    write_bytes-append (update m a x) (a + 1) xs ys
    ∙ ap (λ b. write_bytes (write_bytes (update m a x) (a + 1) xs) b ys) e

-- What is written is what is read back.
pub read_bytes-write_bytes :
    (m : ℕ → ℕ) (a : ℕ) (xs : List ℕ) → read_bytes (write_bytes m a xs) a (length xs) ≡ xs
unfolding read_bytes write_bytes
read_bytes-write_bytes m a [] = refl
read_bytes-write_bytes m a (x ∷ xs) =
    ap₂ ◌∷◌ (write_bytes_outside (update m a x) (a + 1) xs a (omega arith) ∙ update_self m a x)
      (read_bytes-write_bytes (update m a x) (a + 1) xs)

pub int_at_outside :
    (m : ℕ → ℕ) (a : ℕ) (xs : List ℕ) (j : ℕ)
    → (j + 4 ≤ a) ⊎ (a + length xs ≤ j)
    → int_at (write_bytes m a xs) j ≡ int_at m j
unfolding int_at
int_at_outside m a xs j h = omega (
  arith,
  write_bytes_outside m a xs j (omega arith),
  write_bytes_outside m a xs (j + 1) (omega arith),
  write_bytes_outside m a xs (j + 2) (omega arith),
  write_bytes_outside m a xs (j + 3) (omega arith),
)

-- An int below 2^32 is read back from its four bytes.
pub int_at-bytes_of :
    (m : ℕ → ℕ) (a w : ℕ) → w < 2 ^ 32 → int_at (write_bytes m a (bytes_of w)) a ≡ w
unfolding int_at bytes_of write_bytes
int_at-bytes_of m a w h = ground arith

pub read_ints-bytes_of_ints :
    (m : ℕ → ℕ) (a : ℕ) (ws : List ℕ)
    → All (λ w. w < 2 ^ 32) ws
    → read_ints (length ws) a (write_bytes m a (bytes_of_ints ws)) ≡ ws
unfolding read_ints bytes_of_ints
read_ints-bytes_of_ints m a [] h = refl
read_ints-bytes_of_ints m a (w ∷ ws) h =
    let m' = write_bytes m a (bytes_of w) in
    let split : write_bytes m a (bytes_of w ++ bytes_of_ints ws)
        ≡ write_bytes m' (a + 4) (bytes_of_ints ws) =
      write_bytes-append m a (bytes_of w) (bytes_of_ints ws) ∙ (unfold bytes_of in refl) in
    rw split (
      ap₂ ◌∷◌
        (int_at_outside m' (a + 4) (bytes_of_ints ws) a (omega arith) ∙ int_at-bytes_of m a w h.0)
        (read_ints-bytes_of_ints m' (a + 4) ws h.1))

pub length-bytes_of_ints : (ws : List ℕ) → length (bytes_of_ints ws) ≡ 4 * length ws
unfolding bytes_of_ints bytes_of
length-bytes_of_ints [] = refl
length-bytes_of_ints (w ∷ ws) = omega (arith, length-bytes_of_ints ws)

pub read_bytes-append :
    (m : ℕ → ℕ) (a j k : ℕ) → read_bytes m a (j + k) ≡ read_bytes m a j ++ read_bytes m (a + j) k
unfolding read_bytes
read_bytes-append m a zero k =
    let e : a ≡ a + 0 = omega arith in
    let e' : 0 + k ≡ k = omega arith in ap (read_bytes m a) e' ∙ ap (λ b. read_bytes m b k) e
read_bytes-append m a (suc j) k =
    let e : suc j + k ≡ suc (j + k) = omega arith in
    let e' : a + 1 + j ≡ a + suc j = omega arith in
    ap (read_bytes m a) e
    ∙ ap (◌∷◌ (m a))
        (read_bytes-append m (a + 1) j k ∙ ap (λ b. read_bytes m (a + 1) j ++ read_bytes m b k) e')

-- Two memories that agree on a range, at addresses that differ by a constant, give the same bytes.
pub read_bytes_shift :
    (m m' : ℕ → ℕ) (a b n : ℕ)
    → ((j : ℕ) → j < n → m (a + j) ≡ m' (b + j))
    → read_bytes m a n ≡ read_bytes m' b n
unfolding read_bytes
read_bytes_shift m m' a b zero h = refl
read_bytes_shift m m' a b (suc n) h =
    let e : a ≡ a + 0 = omega arith in
    let e' : b + 0 ≡ b = omega arith in
    let next : (j : ℕ) → a + 1 + j ≡ a + suc j = λ j. omega arith in
    let next' : (j : ℕ) → b + suc j ≡ b + 1 + j = λ j. omega arith in
    ap₂ ◌∷◌ (ap m e ∙ h 0 (omega arith) ∙ ap m' e') (
      read_bytes_shift m m' (a + 1) (b + 1) n
        (λ j l. ap m (next j) ∙ h (suc j) (omega arith) ∙ ap m' (next' j)))

-- A write into two memories that agree at a place, seen from there.
pub write_bytes_shift :
    (m m' : ℕ → ℕ) (a b : ℕ) (xs : List ℕ) (j k : ℕ)
    → j + b ≡ k + a
    → m j ≡ m' k
    → write_bytes m a xs j ≡ write_bytes m' b xs k
unfolding write_bytes
write_bytes_shift m m' a b [] j k e h = h
write_bytes_shift m m' a b (x ∷ xs) j k e h =
    write_bytes_shift (update m a x) (update m' b x) (a + 1) (b + 1) xs j k (omega arith)
      (ground arith)
