-- ===== src/Xv6/Fs/Bitmap.antt =====
-- `balloc` and `bfree` over the bitmap of blocks in use.
use os_projects.Base.{
  ℕ, zero, suc, ◌+◌, ◌-◌, ◌*◌, ◌/◌, ◌%◌, ◌≤◌, ◌<◌, ◌≡◌, ◌≢◌, inl, inr, refl, ap, sym, ◌∙◌, subst,
  Bool, true, false, ltb, if◌then◌else◌, Option, none, some, update, update_ne, update_self, arith,
  Bool-cases, ℕ_discrete, dec_lt,
}
use os_projects.Xv6.Fs.Bits.{
  has_bit-set_bit_self, has_bit-set_bit_ne, has_bit-clear_bit_self, has_bit-clear_bit_ne,
}
use os_projects.Xv6.Fs.{
  Fs, Res, done, sleeps, panics, bread, log_write, bzero, bpb, bsize, bblock, has_bit, set_bit,
  clear_bit, find_clear, take_block, balloc_from, balloc, bfree,
}

-- The bit of a block in the bitmap.
abbrev pub used : Fs → ℕ → Bool
used f n = has_bit (bread (bblock n f) f (n % bpb / 8)) (n % bpb % 8)

-- The blocks of the bitmap are themselves blocks in use.
abbrev pub IsMarked : Fs → Type 0
IsMarked f = (n : ℕ) → n < f.sb.size → (bblock n f < f.sb.size) × (used f (bblock n f) ≡ true)

-- The state after a byte of the bitmap is written, the one with the bit of `n`.
abbrev marked : ℕ → ℕ → Fs → Fs
marked n y f = log_write (bblock n f) (update (bread (bblock n f) f) (n % bpb / 8) y) f

marked_self : (n y : ℕ) (f : Fs) → used (marked n y f) n ≡ has_bit y (n % bpb % 8)
unfolding log_write
marked_self n y f =
    let m = update (bread (bblock n f) f) (n % bpb / 8) y in
    ap (λ g. has_bit (g (n % bpb / 8)) (n % bpb % 8)) (update_self f.block (bblock n f) m)
    ∙ ap (λ z. has_bit z (n % bpb % 8)) (update_self (bread (bblock n f) f) (n % bpb / 8) y)

marked_ne :
    (n y : ℕ) (f : Fs)
    → ((j : ℕ)
        → j < 8
        → n % bpb % 8 ≢ j
        → has_bit y j ≡ has_bit (bread (bblock n f) f (n % bpb / 8)) j)
    → (k : ℕ) → n ≢ k
    → used (marked n y f) k ≡ used f k
unfolding log_write
marked_ne n y f same k ne = elim (ℕ_discrete (bblock n f) (bblock k f)) [
  | no other ↦
      ap (λ g. has_bit (g (k % bpb / 8)) (k % bpb % 8))
        (update_ne f.block (bblock n f) (bblock k f) m other)
  | yes e ↦
      ap (λ b. has_bit (update f.block (bblock n f) m b (k % bpb / 8)) (k % bpb % 8)) (sym e)
      ∙ ap (λ g. has_bit (g (k % bpb / 8)) (k % bpb % 8)) (update_self f.block (bblock n f) m)
      ∙ at e
      ∙ ap (λ b. has_bit (f.block b (k % bpb / 8)) (k % bpb % 8)) e
]
  where
    m : ℕ → ℕ
    m = update (bread (bblock n f) f) (n % bpb / 8) y

    at :
        bblock n f ≡ bblock k f
        → has_bit (m (k % bpb / 8)) (k % bpb % 8)
          ≡ has_bit (bread (bblock n f) f (k % bpb / 8)) (k % bpb % 8)
    at e = elim (ℕ_discrete (n % bpb / 8) (k % bpb / 8)) [
      | no other ↦
          ap (λ z. has_bit z (k % bpb % 8))
            (update_ne (bread (bblock n f) f) (n % bpb / 8) (k % bpb / 8) y other)
      | yes byte ↦
          ap (λ b. has_bit (m b) (k % bpb % 8)) (sym byte)
          ∙ ap (λ z. has_bit z (k % bpb % 8)) (update_self (bread (bblock n f) f) (n % bpb / 8) y)
          ∙ same (k % bpb % 8) (omega arith) (omega arith)
          ∙ ap (λ b. has_bit (bread (bblock n f) f b) (k % bpb % 8)) byte
    ]

-- What the search for a clear bit finds.
abbrev Clear : ℕ → ℕ → ℕ → ℕ → (ℕ → ℕ) → Option ℕ → Type 0
Clear k bi b size m none =
    (i : ℕ) → bi ≤ i → i < bi + k → b + i < size → has_bit (m (i / 8)) (i % 8) ≡ true
Clear k bi b size m (some j) =
    (bi ≤ j)
    × (j < bi + k)
    × (b + j < size)
    × (has_bit (m (j / 8)) (j % 8) ≡ false)
    × ((i : ℕ) → bi ≤ i → i < j → has_bit (m (i / 8)) (i % 8) ≡ true)

Clear-skip :
    (k bi b size : ℕ) (m : ℕ → ℕ) (r : Option ℕ)
    → has_bit (m (bi / 8)) (bi % 8) ≡ true
    → Clear k (bi + 1) b size m r
    → Clear (suc k) bi b size m r
Clear-skip k bi b size m none t h = at
  where
    at : (i : ℕ) → bi ≤ i → i < bi + suc k → b + i < size → has_bit (m (i / 8)) (i % 8) ≡ true
    at i l l' s = elim (ℕ_discrete bi i) [
      | yes e ↦ subst (λ i. has_bit (m (i / 8)) (i % 8) ≡ true) e t
      | no ne ↦ h i (omega arith) (omega arith) s
    ]
Clear-skip k bi b size m (some j) t (a, c, d, z, before) = (omega arith, omega arith, d, z, at)
  where
    at : (i : ℕ) → bi ≤ i → i < j → has_bit (m (i / 8)) (i % 8) ≡ true
    at i l l' = elim (ℕ_discrete bi i) [
      | yes e ↦ subst (λ i. has_bit (m (i / 8)) (i % 8) ≡ true) e t
      | no ne ↦ before i (omega arith) l'
    ]

find_clear_lem : (k bi b size : ℕ) (m : ℕ → ℕ) → Clear k bi b size m (find_clear k bi b size m)
unfolding find_clear
find_clear_lem zero bi b size m = λ i l l' s. absurd (omega arith)
find_clear_lem (suc k) bi b size m = elim (Bool-cases (ltb (b + bi) size)) [
  | inr out ↦ rw out (λ i l l' s. absurd (ground arith))
  | inl inside ↦ elim (Bool-cases (has_bit (m (bi / 8)) (bi % 8))) [
    | inl t ↦
        rw (inside, t)
          (Clear-skip k bi b size m (find_clear k (bi + 1) b size m) t
            (find_clear_lem k (bi + 1) b size m))
    | inr z ↦
        rw (inside, z) (omega arith, omega arith, ground arith, z, λ i l l'. absurd (omega arith))
  ]
]

used-bzero : (n k : ℕ) (f : Fs) → n ≢ bblock k f → used (bzero n f) k ≡ used f k
unfolding bzero log_write
used-bzero n k f ne =
    ap (λ g. has_bit (g (k % bpb / 8)) (k % bpb % 8))
      (update_ne f.block n (bblock k f) (λ i. if ltb i bsize then 0 else bread n f i) ne)

-- The block `n` was free in `f`, and is in use and zero in `g`; no other block has changed but that of
-- its bit, nor whether another is in use.
pub record Takes (f : Fs) (n : ℕ) (g : Fs) : Type 0 where
  pub inside : n < f.sb.size
  pub free : used f n ≡ false
  pub in_use : used g n ≡ true
  pub same_use : (k : ℕ) → k < f.sb.size → n ≢ k → used g k ≡ used f k
  pub zeroed : (i : ℕ) → i < bsize → g.block n i ≡ 0
  pub same_block : (b : ℕ) → n ≢ b → bblock n f ≢ b → g.block b ≡ f.block b
  pub same_sb : g.sb ≡ f.sb

abbrev bit_set : ℕ → Fs → Fs
bit_set n f = marked n (set_bit (bread (bblock n f) f (n % bpb / 8)) (n % bpb % 8)) f

bit_set-Takes :
    (n : ℕ) (f : Fs)
    → IsMarked f
    → n < f.sb.size
    → used f n ≡ false
    → Takes f n (bzero n (bit_set n f))
unfolding bzero log_write
bit_set-Takes n f marks l free = record {
  inside = l;
  free = free;
  in_use =
      used-bzero n n g (apart n l)
      ∙ marked_self n y f
      ∙ has_bit-set_bit_self (bread (bblock n f) f (n % bpb / 8)) (n % bpb % 8) (omega arith);
  same_use = λ k lk ne.
      used-bzero n k g (apart k lk)
      ∙ marked_ne n y f
          (λ j lj d.
            has_bit-set_bit_ne (bread (bblock n f) f (n % bpb / 8)) (n % bpb % 8) (omega arith) j lj
              d)
          k ne;
  zeroed = λ i li. zero_at i li;
  same_block = λ b d d'. other b d d';
  same_sb = refl;
}
  where
    y : ℕ
    y = set_bit (bread (bblock n f) f (n % bpb / 8)) (n % bpb % 8)

    g : Fs
    g = bit_set n f

    apart : (k : ℕ) → k < f.sb.size → n ≢ bblock k g
    apart k lk e =
        let t = (marks k lk).1 in
        let t' : used f n ≡ true = subst (λ b. used f b ≡ true) (sym e) t in cc

    zero_at : (i : ℕ) → i < bsize → (bzero n g).block n i ≡ 0
    zero_at i li =
        ap (λ h. h i) (update_self g.block n (λ i. if ltb i bsize then 0 else bread n g i))
        ∙ (let t : ltb i bsize ≡ true = ground arith in rw t refl)

    other : (b : ℕ) → n ≢ b → bblock n f ≢ b → (bzero n g).block b ≡ f.block b
    other b d d' =
        update_ne g.block n b (λ i. if ltb i bsize then 0 else bread n g i) d
        ∙ update_ne f.block (bblock n f) b (update (bread (bblock n f) f) (n % bpb / 8) y) d'

take_block-eq :
    (b bi : ℕ) (f : Fs)
    → b % bpb ≡ 0
    → bi < bpb
    → take_block b bi f ≡ (b + bi, bzero (b + bi) (bit_set (b + bi) f))
unfolding take_block
take_block-eq b bi f h l =
    let e1 : (b + bi) / bpb ≡ b / bpb = omega arith in
    let e2 : (b + bi) % bpb ≡ bi = omega arith in rw (e1, e2) refl

-- What `balloc` ends in.
abbrev pub Allocs : Fs → Res (ℕ × Fs) → Type 0
Allocs f (done (n, g)) = Takes f n g × ((k : ℕ) → k < n → used f k ≡ true)
Allocs f sleeps = ⊥
Allocs f panics = (k : ℕ) → k < f.sb.size → used f k ≡ true

taken-Allocs :
    (n : ℕ) (f : Fs)
    → IsMarked f
    → n < f.sb.size
    → used f n ≡ false
    → ((k : ℕ) → k < n → used f k ≡ true)
    → Allocs f (done (n, bzero n (bit_set n f)))
taken-Allocs n f marks l free before = (bit_set-Takes n f marks l free, before)

-- The bit at `bi` of the block of the bitmap for the blocks from `b` on.
used-bit :
    (b bi : ℕ) (f : Fs)
    → b % bpb ≡ 0
    → bi < bpb
    → used f (b + bi) ≡ has_bit (bread (bblock b f) f (bi / 8)) (bi % 8)
used-bit b bi f h l =
    let e1 : (b + bi) / bpb ≡ b / bpb = omega arith in
    let e2 : (b + bi) % bpb ≡ bi = omega arith in rw (e1, e2) refl

balloc_from_lem :
    (k b : ℕ) (f : Fs)
    → IsMarked f
    → b % bpb ≡ 0
    → f.sb.size ≤ b + bpb * k
    → ((j : ℕ) → j < b → j < f.sb.size → used f j ≡ true)
    → Allocs f (balloc_from k b f)
unfolding balloc_from
balloc_from_lem zero b f marks h l before = λ j lj. before j (omega arith) lj
balloc_from_lem (suc k) b f marks h l before = elim (Bool-cases (ltb b f.sb.size)) [
  | inr out ↦ rw out (λ j lj. before j (ground arith) lj)
  | inl inside ↦ rw inside (
      searched (find_clear bpb 0 b f.sb.size (bread (bblock b f) f))
        (find_clear_lem bpb 0 b f.sb.size (bread (bblock b f) f))
        (λ all. balloc_from_lem k (b + bpb) f marks (omega arith) (omega arith) all))
]
  where
    searched :
        (r : Option ℕ)
        → Clear bpb 0 b f.sb.size (bread (bblock b f) f) r
        → (((j : ℕ) → j < b + bpb → j < f.sb.size → used f j ≡ true)
            → Allocs f (balloc_from k (b + bpb) f))
        → Allocs f
            (elim r [ none ↦ balloc_from k (b + bpb) f | some bi ↦ done (take_block b bi f) ])
    searched none c rest = rest (λ j lj ls. elim (dec_lt j b) [
      | yes lt ↦ before j lt ls
      | no ge ↦
          let e : b + (j - b) ≡ j = omega arith in
          subst (λ j. used f j ≡ true) e
            (used-bit b (j - b) f h (omega arith)
              ∙ c (j - b) (omega arith) (omega arith) (omega arith))
    ])
    searched (some bi) (a, c, d, z, earlier) rest =
        subst (λ p. Allocs f (done p)) (sym (take_block-eq b bi f h c))
          (taken-Allocs (b + bi) f marks d (used-bit b bi f h c ∙ z) (λ j lj. elim (dec_lt j b) [
            | yes lt ↦ before j lt (omega arith)
            | no ge ↦
                let e : b + (j - b) ≡ j = omega arith in
                subst (λ j. used f j ≡ true) e
                  (used-bit b (j - b) f h (omega arith)
                    ∙ earlier (j - b) (omega arith) (omega arith))
          ]))

-- `balloc` takes the first block that is free, and marks it and zeroes it, changing no other block but
-- that of its bit, and no other bit; it panics only if every block is in use. The blocks of the bitmap
-- are themselves marked.
pub balloc_lem : (f : Fs) → IsMarked f → Allocs f (balloc f)
unfolding balloc
balloc_lem f marks =
    balloc_from_lem (f.sb.size / bpb + 1) 0 f marks refl (omega arith) (λ j l. absurd (omega arith))

abbrev bit_cleared : ℕ → Fs → Fs
bit_cleared n f = marked n (clear_bit (bread (bblock n f) f (n % bpb / 8)) (n % bpb % 8)) f

bfree-used : (n : ℕ) (f : Fs) → used f n ≡ true → bfree n f ≡ done (tt, bit_cleared n f)
unfolding bfree
bfree-used n f t = rw t refl

bfree-Takes :
    (f : Fs) (n : ℕ) (g : Fs)
    → Takes f n g
    → (h : Fs) × (bfree n g ≡ done (tt, h)) × ((k : ℕ) → k < f.sb.size → used h k ≡ used f k)
bfree-Takes f n g t = (bit_cleared n g, bfree-used n g t.in_use, same)
  where
    y : ℕ
    y = clear_bit (bread (bblock n g) g (n % bpb / 8)) (n % bpb % 8)

    same : (k : ℕ) → k < f.sb.size → used (bit_cleared n g) k ≡ used f k
    same k l = elim (ℕ_discrete n k) [
      | yes eq ↦
          subst (λ k. used (bit_cleared n g) k ≡ used f k) eq
            (marked_self n y g
              ∙ has_bit-clear_bit_self (bread (bblock n g) g (n % bpb / 8)) (n % bpb % 8)
                  (omega arith)
              ∙ sym t.free)
      | no ne ↦
          marked_ne n y g
            (λ j lj d.
              has_bit-clear_bit_ne (bread (bblock n g) g (n % bpb / 8)) (n % bpb % 8) (omega arith)
                j lj d)
            k ne
          ∙ t.same_use k l ne
    ]

-- If some block is free, `balloc` returns a block, and `bfree` of it does not panic and leaves every
-- block in use exactly if it was before.
bfree-balloc :
    (f : Fs) (b : ℕ)
    → IsMarked f
    → b < f.sb.size
    → used f b ≡ false
    → (n : ℕ) × (g : Fs) × (h : Fs) × (balloc f ≡ done (n, g))
      × (bfree n g ≡ done (tt, h))
      × ((k : ℕ) → k < f.sb.size → used h k ≡ used f k)
bfree-balloc f b marks l free = after (balloc f) refl (balloc_lem f marks)
  where
    after :
        (r : Res (ℕ × Fs))
        → balloc f ≡ r
        → Allocs f r
        → (n : ℕ) × (g : Fs) × (h : Fs) × (balloc f ≡ done (n, g))
          × (bfree n g ≡ done (tt, h))
          × ((k : ℕ) → k < f.sb.size → used h k ≡ used f k)
    after (done (n, g)) e (t, before) =
        let (h, e', same) = bfree-Takes f n g t in (n, g, h, e, e', same)
    after sleeps e h = absurd h
    after panics e h = let t = h b l in cc
