-- ===== src/Xv6/Fs/Bits.antt =====
-- The bits of a byte.
use os_projects.Base.{ℕ, zero, suc, ◌<◌, ◌≡◌, ◌≢◌, true, false, arith}
use os_projects.Xv6.Fs.{has_bit, set_bit, clear_bit}

below_8 {ℓ} :
    (P : ℕ → Type ℓ) → P 0 → P 1 → P 2 → P 3 → P 4 → P 5 → P 6 → P 7 → (k : ℕ) → k < 8 → P k
below_8 P a b c d e f g h zero l = a
below_8 P a b c d e f g h (suc zero) l = b
below_8 P a b c d e f g h (suc (suc zero)) l = c
below_8 P a b c d e f g h (suc (suc (suc zero))) l = d
below_8 P a b c d e f g h (suc (suc (suc (suc zero)))) l = e
below_8 P a b c d e f g h (suc (suc (suc (suc (suc zero))))) l = f
below_8 P a b c d e f g h (suc (suc (suc (suc (suc (suc zero)))))) l = g
below_8 P a b c d e f g h (suc (suc (suc (suc (suc (suc (suc zero))))))) l = h
below_8 P a b c d e f g h (suc (suc (suc (suc (suc (suc (suc (suc k)))))))) l = absurd (omega arith)

pub has_bit-set_bit_self : (x k : ℕ) → k < 8 → has_bit (set_bit x k) k ≡ true
unfolding set_bit
has_bit-set_bit_self x =
    below_8 (λ k. has_bit (set_bit x k) k ≡ true) (ground arith) (ground arith) (ground arith)
      (ground arith) (ground arith) (ground arith) (ground arith) (ground arith)

pub has_bit-clear_bit_self : (x k : ℕ) → k < 8 → has_bit (clear_bit x k) k ≡ false
unfolding clear_bit
has_bit-clear_bit_self x =
    below_8 (λ k. has_bit (clear_bit x k) k ≡ false) (ground arith) (ground arith) (ground arith)
      (ground arith) (ground arith) (ground arith) (ground arith) (ground arith)

pub has_bit-set_bit_ne :
    (x k : ℕ) → k < 8 → (j : ℕ) → j < 8 → k ≢ j → has_bit (set_bit x k) j ≡ has_bit x j
unfolding set_bit
has_bit-set_bit_ne x =
    below_8 (λ k. (j : ℕ) → j < 8 → k ≢ j → has_bit (set_bit x k) j ≡ has_bit x j)
      (below_8 (λ j. 0 ≢ j → has_bit (set_bit x 0) j ≡ has_bit x j) (λ h. ground arith)
        (λ h. ground arith) (λ h. ground arith) (λ h. ground arith) (λ h. ground arith)
        (λ h. ground arith) (λ h. ground arith) (λ h. ground arith))
      (below_8 (λ j. 1 ≢ j → has_bit (set_bit x 1) j ≡ has_bit x j) (λ h. ground arith)
        (λ h. ground arith) (λ h. ground arith) (λ h. ground arith) (λ h. ground arith)
        (λ h. ground arith) (λ h. ground arith) (λ h. ground arith))
      (below_8 (λ j. 2 ≢ j → has_bit (set_bit x 2) j ≡ has_bit x j) (λ h. ground arith)
        (λ h. ground arith) (λ h. ground arith) (λ h. ground arith) (λ h. ground arith)
        (λ h. ground arith) (λ h. ground arith) (λ h. ground arith))
      (below_8 (λ j. 3 ≢ j → has_bit (set_bit x 3) j ≡ has_bit x j) (λ h. ground arith)
        (λ h. ground arith) (λ h. ground arith) (λ h. ground arith) (λ h. ground arith)
        (λ h. ground arith) (λ h. ground arith) (λ h. ground arith))
      (below_8 (λ j. 4 ≢ j → has_bit (set_bit x 4) j ≡ has_bit x j) (λ h. ground arith)
        (λ h. ground arith) (λ h. ground arith) (λ h. ground arith) (λ h. ground arith)
        (λ h. ground arith) (λ h. ground arith) (λ h. ground arith))
      (below_8 (λ j. 5 ≢ j → has_bit (set_bit x 5) j ≡ has_bit x j) (λ h. ground arith)
        (λ h. ground arith) (λ h. ground arith) (λ h. ground arith) (λ h. ground arith)
        (λ h. ground arith) (λ h. ground arith) (λ h. ground arith))
      (below_8 (λ j. 6 ≢ j → has_bit (set_bit x 6) j ≡ has_bit x j) (λ h. ground arith)
        (λ h. ground arith) (λ h. ground arith) (λ h. ground arith) (λ h. ground arith)
        (λ h. ground arith) (λ h. ground arith) (λ h. ground arith))
      (below_8 (λ j. 7 ≢ j → has_bit (set_bit x 7) j ≡ has_bit x j) (λ h. ground arith)
        (λ h. ground arith) (λ h. ground arith) (λ h. ground arith) (λ h. ground arith)
        (λ h. ground arith) (λ h. ground arith) (λ h. ground arith))

pub has_bit-clear_bit_ne :
    (x k : ℕ) → k < 8 → (j : ℕ) → j < 8 → k ≢ j → has_bit (clear_bit x k) j ≡ has_bit x j
unfolding clear_bit
has_bit-clear_bit_ne x =
    below_8 (λ k. (j : ℕ) → j < 8 → k ≢ j → has_bit (clear_bit x k) j ≡ has_bit x j)
      (below_8 (λ j. 0 ≢ j → has_bit (clear_bit x 0) j ≡ has_bit x j) (λ h. ground arith)
        (λ h. ground arith) (λ h. ground arith) (λ h. ground arith) (λ h. ground arith)
        (λ h. ground arith) (λ h. ground arith) (λ h. ground arith))
      (below_8 (λ j. 1 ≢ j → has_bit (clear_bit x 1) j ≡ has_bit x j) (λ h. ground arith)
        (λ h. ground arith) (λ h. ground arith) (λ h. ground arith) (λ h. ground arith)
        (λ h. ground arith) (λ h. ground arith) (λ h. ground arith))
      (below_8 (λ j. 2 ≢ j → has_bit (clear_bit x 2) j ≡ has_bit x j) (λ h. ground arith)
        (λ h. ground arith) (λ h. ground arith) (λ h. ground arith) (λ h. ground arith)
        (λ h. ground arith) (λ h. ground arith) (λ h. ground arith))
      (below_8 (λ j. 3 ≢ j → has_bit (clear_bit x 3) j ≡ has_bit x j) (λ h. ground arith)
        (λ h. ground arith) (λ h. ground arith) (λ h. ground arith) (λ h. ground arith)
        (λ h. ground arith) (λ h. ground arith) (λ h. ground arith))
      (below_8 (λ j. 4 ≢ j → has_bit (clear_bit x 4) j ≡ has_bit x j) (λ h. ground arith)
        (λ h. ground arith) (λ h. ground arith) (λ h. ground arith) (λ h. ground arith)
        (λ h. ground arith) (λ h. ground arith) (λ h. ground arith))
      (below_8 (λ j. 5 ≢ j → has_bit (clear_bit x 5) j ≡ has_bit x j) (λ h. ground arith)
        (λ h. ground arith) (λ h. ground arith) (λ h. ground arith) (λ h. ground arith)
        (λ h. ground arith) (λ h. ground arith) (λ h. ground arith))
      (below_8 (λ j. 6 ≢ j → has_bit (clear_bit x 6) j ≡ has_bit x j) (λ h. ground arith)
        (λ h. ground arith) (λ h. ground arith) (λ h. ground arith) (λ h. ground arith)
        (λ h. ground arith) (λ h. ground arith) (λ h. ground arith))
      (below_8 (λ j. 7 ≢ j → has_bit (clear_bit x 7) j ≡ has_bit x j) (λ h. ground arith)
        (λ h. ground arith) (λ h. ground arith) (λ h. ground arith) (λ h. ground arith)
        (λ h. ground arith) (λ h. ground arith) (λ h. ground arith))
