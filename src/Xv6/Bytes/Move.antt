-- ===== src/Xv6/Bytes/Move.antt =====
-- `memmove` and `memset`.
use os_projects.Base.{
  ℕ, zero, suc, ◌+◌, ◌*◌, ◌/◌, ◌%◌, ◌^◌, ◌<◌, ◌≤◌, ◌≡◌, ◌⊎◌, inl, inr, refl, ap, sym, ◌∙◌, subst,
  ◌==◌, ◌&&◌, ltb, update, update_ne, update_self, arith, Bool-cases, ℕ_discrete, dec_lt,
}
use os_projects.Xv6.Bytes.{stosb, stosl, put_int, memset, move_down, move_up, memmove}

move_up_outside :
    (dst src n : ℕ) (m : ℕ → ℕ) (j : ℕ) → (j < dst) ⊎ (dst + n ≤ j) → move_up dst src n m j ≡ m j
unfolding move_up
move_up_outside dst src zero m j h = refl
move_up_outside dst src (suc n) m j h =
    move_up_outside (dst + 1) (src + 1) n (update m dst (m src)) j (omega arith)
    ∙ update_ne m dst j (m src) (omega arith)

move_down_outside :
    (dst src n : ℕ) (m : ℕ → ℕ) (j : ℕ) → (j < dst) ⊎ (dst + n ≤ j) → move_down dst src n m j ≡ m j
unfolding move_down
move_down_outside dst src zero m j h = refl
move_down_outside dst src (suc n) m j h =
    move_down_outside dst src n (update m (dst + n) (m (src + n))) j (omega arith)
    ∙ update_ne m (dst + n) j (m (src + n)) (omega arith)

move_up_lem :
    (dst src n : ℕ) (m : ℕ → ℕ) (j : ℕ)
    → (dst ≤ src) ⊎ (src + n ≤ dst)
    → j < n
    → move_up dst src n m (dst + j) ≡ m (src + j)
unfolding move_up
move_up_lem dst src zero m j h l = absurd (omega arith)
move_up_lem dst src (suc n) m zero h l =
    let e : dst + 0 ≡ dst = omega arith in
    let e' : src ≡ src + 0 = omega arith in
    ap (move_up (dst + 1) (src + 1) n (update m dst (m src))) e
    ∙ move_up_outside (dst + 1) (src + 1) n (update m dst (m src)) dst (omega arith)
    ∙ update_self m dst (m src)
    ∙ ap m e'
move_up_lem dst src (suc n) m (suc j) h l =
    let e : dst + suc j ≡ dst + 1 + j = omega arith in
    let e' : src + 1 + j ≡ src + suc j = omega arith in
    ap (move_up (dst + 1) (src + 1) n (update m dst (m src))) e
    ∙ move_up_lem (dst + 1) (src + 1) n (update m dst (m src)) j (omega arith) (omega arith)
    ∙ update_ne m dst (src + 1 + j) (m src) (omega arith)
    ∙ ap m e'

move_down_lem :
    (dst src n : ℕ) (m : ℕ → ℕ) (j : ℕ)
    → src < dst
    → j < n
    → move_down dst src n m (dst + j) ≡ m (src + j)
unfolding move_down
move_down_lem dst src zero m j h l = absurd (omega arith)
move_down_lem dst src (suc n) m j h l = elim (ℕ_discrete j n) [
  | yes e ↦
      ap (λ k. move_down dst src n (update m (dst + n) (m (src + n))) (dst + k)) e
      ∙ move_down_outside dst src n (update m (dst + n) (m (src + n))) (dst + n) (omega arith)
      ∙ update_self m (dst + n) (m (src + n))
      ∙ ap (λ k. m (src + k)) (sym e)
  | no ne ↦
      move_down_lem dst src n (update m (dst + n) (m (src + n))) j h (omega arith)
      ∙ update_ne m (dst + n) (src + j) (m (src + n)) (omega arith)
]

-- `memmove` copies the range as it was before the call, also if the two ranges overlap, and changes
-- no other byte.
pub memmove_lem :
    (dst src n : ℕ) (m : ℕ → ℕ)
    → ((j : ℕ) → j < n → memmove dst src n m (dst + j) ≡ m (src + j))
      × ((j : ℕ) → (j < dst) ⊎ (dst + n ≤ j) → memmove dst src n m j ≡ m j)
unfolding memmove
memmove_lem dst src n m = elim (Bool-cases (ltb src dst && ltb dst (src + n))) [
  | inl t ↦ rw t (
    (λ j l. move_down_lem dst src n m j (ground arith) l),
    λ j h. move_down_outside dst src n m j h,
  )
  | inr f ↦
      rw f (
        (λ j l. move_up_lem dst src n m j (ground arith) l),
        λ j h. move_up_outside dst src n m j h,
      )
]

stosb_outside : (a c n : ℕ) (m : ℕ → ℕ) (j : ℕ) → (j < a) ⊎ (a + n ≤ j) → stosb a c n m j ≡ m j
unfolding stosb
stosb_outside a c zero m j h = refl
stosb_outside a c (suc n) m j h =
    stosb_outside (a + 1) c n (update m a (c % 256)) j (omega arith)
    ∙ update_ne m a j (c % 256) (omega arith)

stosb_lem : (a c n : ℕ) (m : ℕ → ℕ) (j : ℕ) → a ≤ j → j < a + n → stosb a c n m j ≡ c % 256
unfolding stosb
stosb_lem a c zero m j h l = absurd (omega arith)
stosb_lem a c (suc n) m j h l = elim (ℕ_discrete a j) [
  | yes e ↦
      stosb_outside (a + 1) c n (update m a (c % 256)) j (omega arith)
      ∙ subst (λ k. update m a (c % 256) k ≡ c % 256) e (update_self m a (c % 256))
  | no ne ↦ stosb_lem (a + 1) c n (update m a (c % 256)) j (omega arith) l'
]
  where
    l' : j < a + 1 + n
    l' = omega arith

-- The int of four equal bytes.
abbrev four : ℕ → ℕ
four b = b * 2 ^ 24 + b * 2 ^ 16 + b * 2 ^ 8 + b

put_int_outside : (a w : ℕ) (m : ℕ → ℕ) (j : ℕ) → (j < a) ⊎ (a + 4 ≤ j) → put_int a w m j ≡ m j
unfolding put_int
put_int_outside a w m j h = ground arith

put_int_lem :
    (a b : ℕ) (m : ℕ → ℕ) (j : ℕ) → b < 256 → a ≤ j → j < a + 4 → put_int a (four b) m j ≡ b
unfolding put_int
put_int_lem a b m j h l l' = ground arith

stosl_outside : (a w n : ℕ) (m : ℕ → ℕ) (j : ℕ) → (j < a) ⊎ (a + 4 * n ≤ j) → stosl a w n m j ≡ m j
unfolding stosl
stosl_outside a w zero m j h = refl
stosl_outside a w (suc n) m j h =
    stosl_outside (a + 4) w n (put_int a w m) j (omega arith)
    ∙ put_int_outside a w m j (omega arith)

stosl_lem :
    (a b n : ℕ) (m : ℕ → ℕ) (j : ℕ) → b < 256 → a ≤ j → j < a + 4 * n → stosl a (four b) n m j ≡ b
unfolding stosl
stosl_lem a b zero m j s h l = absurd (omega arith)
stosl_lem a b (suc n) m j s h l = elim (dec_lt j (a + 4)) [
  | yes e ↦
      stosl_outside (a + 4) (four b) n (put_int a (four b) m) j (omega arith)
      ∙ put_int_lem a b m j s h e
  | no ne ↦ stosl_lem (a + 4) b n (put_int a (four b) m) j s (omega arith) (omega arith)
]

-- `memset` sets each byte of the range to the low byte of `c`, by bytes or by ints, and changes no
-- other byte.
pub memset_lem :
    (dst c n : ℕ) (m : ℕ → ℕ)
    → ((j : ℕ) → dst ≤ j → j < dst + n → memset dst c n m j ≡ c % 256)
      × ((j : ℕ) → (j < dst) ⊎ (dst + n ≤ j) → memset dst c n m j ≡ m j)
unfolding memset
memset_lem dst c n m = elim (Bool-cases ((dst % 4 == 0) && (n % 4 == 0))) [
  | inl t ↦
      let whole : 4 * (n / 4) ≡ n = ground arith in
      rw t (
        (λ j h l. stosl_lem dst (c % 256) (n / 4) m j (omega arith) h (omega arith)),
        λ j h. stosl_outside dst (four (c % 256)) (n / 4) m j (omega arith),
      )
  | inr f ↦ rw f ((λ j h l. stosb_lem dst c n m j h l), λ j h. stosb_outside dst c n m j h)
]
