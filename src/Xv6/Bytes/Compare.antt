-- ===== src/Xv6/Bytes/Compare.antt =====
-- `memcmp`, `safestrcpy` and `strlen`.
use os_projects.Base.{
  ℕ, zero, suc, ◌+◌, ◌-◌, ◌<◌, ◌≤◌, ◌≡◌, ◌≢◌, ◌⊎◌, ◌↔◌, inl, inr, refl, ap, sym, ◌∙◌, subst, true,
  false, ◌==◌, some, update, update_ne, update_self, arith, Bool-cases, ℕ_discrete,
}
use os_projects.Xv6.Bytes.{memcmp, copy_chars, safestrcpy, strlen_from, strlen}

memcmp-equal :
    (v1 v2 n : ℕ) (m : ℕ → ℕ) → ((j : ℕ) → j < n → m (v1 + j) ≡ m (v2 + j)) → memcmp v1 v2 n m ≡ 0
unfolding memcmp
memcmp-equal v1 v2 zero m h = refl
memcmp-equal v1 v2 (suc n) m h =
    let first : m v1 ≡ m v2 =
      subst (λ i. m i ≡ m v2) (omega arith) (h 0 (omega arith) ∙ ap m (omega arith)) in
    let same : (m v1 == m v2) ≡ true = ground arith in
    let shift1 : (j : ℕ) → v1 + suc j ≡ v1 + 1 + j = λ j. omega arith in
    let shift2 : (j : ℕ) → v2 + suc j ≡ v2 + 1 + j = λ j. omega arith in
    rw same (
      memcmp-equal (v1 + 1) (v2 + 1) n m
        (λ j l. ap m (sym (shift1 j)) ∙ h (suc j) (omega arith) ∙ ap m (shift2 j)))

memcmp-differs :
    (v1 v2 n : ℕ) (m : ℕ → ℕ)
    → ((a : ℕ) → m a < 256)
    → memcmp v1 v2 n m ≡ 0
    → (j : ℕ) → j < n
    → m (v1 + j) ≡ m (v2 + j)
unfolding memcmp
memcmp-differs v1 v2 zero m b h j l = absurd (omega arith)
memcmp-differs v1 v2 (suc n) m b h j l =
    let b1 = b v1 in
    let b2 = b v2 in
    let first : m v1 ≡ m v2 = ground arith in
    let rest : memcmp (v1 + 1) (v2 + 1) n m ≡ 0 = ground arith in
    elim (ℕ_discrete j 0) [
      | yes e ↦ ap m (omega arith) ∙ first ∙ ap m (omega arith)
      | no ne ↦
          let s1 : v1 + j ≡ v1 + 1 + (j - 1) = omega arith in
          let s2 : v2 + 1 + (j - 1) ≡ v2 + j = omega arith in
          ap m s1 ∙ memcmp-differs (v1 + 1) (v2 + 1) n m b rest (j - 1) (omega arith) ∙ ap m s2
    ]

-- `memcmp` of two ranges of bytes returns 0 exactly if they are equal.
memcmp_lem :
    (v1 v2 n : ℕ) (m : ℕ → ℕ)
    → ((a : ℕ) → m a < 256)
    → (memcmp v1 v2 n m ≡ 0) ↔ ((j : ℕ) → j < n → m (v1 + j) ≡ m (v2 + j))
memcmp_lem v1 v2 n m b = ((λ h. memcmp-differs v1 v2 n m b h), (λ h. memcmp-equal v1 v2 n m h))

copy_chars_outside :
    (s t n : ℕ) (m : ℕ → ℕ) (j : ℕ) → (j < s) ⊎ (s + n < j) → copy_chars s t n m j ≡ m j
unfolding copy_chars
copy_chars_outside s t zero m j h = update_ne m s j 0 (omega arith)
copy_chars_outside s t (suc n) m j h =
    let m' = update m s (m t) in
    let e : m' j ≡ m j = update_ne m s j (m t) (omega arith) in
    let e' : update m' (s + 1) 0 j ≡ m' j = update_ne m' (s + 1) j 0 (omega arith) in
    elim (Bool-cases (m t == 0)) [
      | inl z ↦ rw z (e' ∙ e)
      | inr f ↦ rw f (copy_chars_outside (s + 1) (t + 1) n m' j (omega arith) ∙ e)
    ]

-- A string of `k` characters at `s` of one memory, which are those at `t` of another.
abbrev pub IsCopy : ℕ → ℕ → ℕ → (ℕ → ℕ) → (ℕ → ℕ) → Type 0
IsCopy k s t m' m =
    ((j : ℕ) → j < k → (m' (s + j) ≡ m (t + j)) × (m (t + j) ≢ 0)) × (m' (s + k) ≡ 0)

IsCopy-suc :
    (k s t : ℕ) (r m : ℕ → ℕ)
    → r s ≡ m t
    → m t ≢ 0
    → ((j : ℕ) → j < k → (r (s + 1 + j) ≡ m (t + 1 + j)) × (m (t + 1 + j) ≢ 0))
    → r (s + 1 + k) ≡ 0
    → IsCopy (suc k) s t r m
IsCopy-suc k s t r m e nz h z = (at, subst (λ i. r i ≡ 0) (omega arith) z)
  where
    at : (j : ℕ) → j < suc k → (r (s + j) ≡ m (t + j)) × (m (t + j) ≢ 0)
    at zero l =
        let e1 : s ≡ s + 0 = omega arith in
        let e2 : t ≡ t + 0 = omega arith in (ap r (sym e1) ∙ e ∙ ap m e2, λ y. nz (ap m e2 ∙ y))
    at (suc j) l =
        let e1 : s + suc j ≡ s + 1 + j = omega arith in
        let e2 : t + 1 + j ≡ t + suc j = omega arith in
        let g = h j (omega arith) in (ap r e1 ∙ g.0 ∙ ap m e2, λ y. g.1 (ap m e2 ∙ y))

copy_chars_lem :
    (s t n : ℕ) (m : ℕ → ℕ)
    → (s + n < t) ⊎ (t + n < s)
    → (k : ℕ) × (k ≤ n) × IsCopy k s t (copy_chars s t n m) m × ((k ≡ n) ⊎ (m (t + k) ≡ 0))
unfolding copy_chars
copy_chars_lem s t zero m h =
    let at : s ≡ s + 0 = omega arith in
    (
      0,
      omega arith,
      ((λ j l. absurd (omega arith)), subst (λ i. update m s 0 i ≡ 0) at (update_self m s 0)),
      inl refl,
    )
copy_chars_lem s t (suc n) m h = elim (Bool-cases (m t == 0)) [
  | inl z ↦
      let m' = update m s (m t) in
      let at : s ≡ s + 0 = omega arith in
      let at' : t ≡ t + 0 = omega arith in
      let ends : m t ≡ 0 = ground arith in
      let e : update m' (s + 1) 0 s ≡ 0 =
        update_ne m' (s + 1) s 0 (omega arith) ∙ update_self m s (m t) ∙ ends in
      rw z (
        0,
        omega arith,
        ((λ j l. absurd (omega arith)), subst (λ i. update m' (s + 1) 0 i ≡ 0) at e),
        inr (subst (λ i. m i ≡ 0) at' ends),
      )
  | inr f ↦
      let m' = update m s (m t) in
      let r = copy_chars (s + 1) (t + 1) n m' in
      let (k, l, (chars, end), why) = copy_chars_lem (s + 1) (t + 1) n m' (omega arith) in
      let first : r s ≡ m t =
        copy_chars_outside (s + 1) (t + 1) n m' s (omega arith) ∙ update_self m s (m t) in
      let same : (j : ℕ) → j ≤ n → m' (t + 1 + j) ≡ m (t + 1 + j) =
        λ j lj. update_ne m s (t + 1 + j) (m t) (omega arith) in
      let nz : m t ≢ 0 = λ z. ground arith in
      let at : t + 1 + k ≡ t + suc k = omega arith in
      rw f (
        suc k,
        omega arith,
        IsCopy-suc k s t r m first nz
            (λ j lj.
              let e = same j (omega arith) in ((chars j lj).0 ∙ e, λ z. (chars j lj).1 (e ∙ z)))
            end,
        elim why [
          | inl e ↦ inl (ap suc e)
          | inr z ↦ inr (subst (λ i. m i ≡ 0) at (sym (same k l) ∙ z))
        ],
      )
]

strlen_from_lem :
    (fuel s n k : ℕ) (m : ℕ → ℕ)
    → n ≤ k
    → k < n + fuel
    → ((j : ℕ) → j < k → m (s + j) ≢ 0)
    → m (s + k) ≡ 0
    → strlen_from fuel s n m ≡ some k
unfolding strlen_from
strlen_from_lem zero s n k m l f ne z = absurd (omega arith)
strlen_from_lem (suc fuel) s n k m l f ne z = elim (ℕ_discrete n k) [
  | yes e ↦
      let at : m (s + n) ≡ 0 = ap (λ i. m (s + i)) e ∙ z in
      let t : (m (s + n) == 0) ≡ true = ground arith in rw t (ap some e)
  | no d ↦
      let at = ne n (omega arith) in
      let t : (m (s + n) == 0) ≡ false = ground arith in
      rw t (strlen_from_lem fuel s (n + 1) k m (omega arith) (omega arith) ne z)
]

-- `safestrcpy` with a positive `n` leaves at `s` the longest start of the string at `t` that has fewer
-- than `n` characters, with its end, if the two ranges of `n` bytes do not overlap, and `strlen` then returns its
-- length; no byte outside of the `n` at `s` is changed.
safestrcpy_lem :
    (s t n : ℕ) (m : ℕ → ℕ)
    → 0 < n
    → (s + n ≤ t) ⊎ (t + n ≤ s)
    → ((k : ℕ) × (k < n)
        × IsCopy k s t (safestrcpy s t n m) m
        × ((k + 1 ≡ n) ⊎ (m (t + k) ≡ 0))
        × (strlen n s (safestrcpy s t n m) ≡ some k))
      × ((j : ℕ) → (j < s) ⊎ (s + n ≤ j) → safestrcpy s t n m j ≡ m j)
unfolding safestrcpy strlen
safestrcpy_lem s t zero m p h = absurd (omega arith)
safestrcpy_lem s t (suc n) m p h =
    let (k, l, (chars, end), why) = copy_chars_lem s t n m (omega arith) in
    let r = copy_chars s t n m in
    let nz : (j : ℕ) → j < k → r (s + j) ≢ 0 = λ j lj z. (chars j lj).1 (sym (chars j lj).0 ∙ z) in
    (
      (
        k,
        omega arith,
        (chars, end),
        elim why [ inl e ↦ inl (omega arith) | inr z ↦ inr z ],
        strlen_from_lem (suc n) s 0 k r (omega arith) (omega arith) nz end,
      ),
      λ j o. copy_chars_outside s t n m j (omega arith),
    )
