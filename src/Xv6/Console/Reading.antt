-- ===== src/Xv6/Console/Reading.antt =====
-- What `consoleread` takes out of the ring.
use os_projects.Base.{
  ℕ, zero, suc, ◌+◌, ◌-◌, ◌%◌, ◌≤◌, ◌<◌, ltb, ◌≡◌, ◌≢◌, ◌⊎◌, refl, ap, subst, ◌∙◌, inl, inr, Bool,
  true, false, ◌==◌, if◌then◌else◌, List, [], ◌∷◌, ◌++◌, length, All, Bool-cases, arith,
}
use os_projects.Ring.{uint_mod, window}
use os_projects.Xv6.Console.{
  Console, input_buf, before, Read, fails, sleeps, returns, onto, consoleread,
}
use os_projects.Xv6.Console.Editing.{total, ready, text, IsValid}

-- The characters `cs` have gone from a console, all of them ready, which leaves `t`.
pub record Takes (cs : List ℕ) (s t : Console) : Type 0 where
  pub valid : IsValid t
  pub front : text s ≡ cs ++ text t
  pub of_lines : ready s ≡ length cs + ready t

-- Characters that a read goes on after: no newline and no ^D.
abbrev Plain : List ℕ → Type 0
Plain = All (λ c. (c ≢ 10) × (c ≢ 4))

-- Where a read that returns `k` stops: all of the `n` bytes are there, or the first newline ends them, or the
-- first ^D is next, which stays in the ring since the caller gets something.
abbrev Stops : ℕ → ℕ → List ℕ → Console → Type 0
Stops n k cs t =
    (Plain cs × (length cs ≡ n))
    ⊎ (((pre : List ℕ) × Plain pre × (cs ≡ pre ++ 10 ∷ []))
        ⊎ (Plain cs × (0 < k) × (t.r ≢ t.w) × (t.bytes (t.r % input_buf) ≡ 4)))

Stops-onto :
    (n k c : ℕ) (cs : List ℕ) (t : Console)
    → c ≢ 10
    → c ≢ 4
    → Stops n k cs t
    → Stops (suc n) k (c ∷ cs) t
Stops-onto n k c cs t p q (inl (a, e)) = inl (((p, q), a), ap suc e)
Stops-onto n k c cs t p q (inr (inl (pre, a, e))) = inr (inl (c ∷ pre, ((p, q), a), ap (◌∷◌ c) e))
Stops-onto n k c cs t p q (inr (inr (a, l, ne, e))) = inr (inr (((p, q), a), l, ne, e))

-- What a piece of `consoleread` with `n` bytes to go of `target` does, by its outcome. At ^D it returns what
-- the call has so far, and takes the ^D out of the ring only if that is nothing.
pub data Reads (killed : Bool) (target n : ℕ) (s : Console) : Read → Type 0 where
  failed :
      (cs : List ℕ) (t : Console)
      → Takes cs s t
      → ready t ≡ 0
      → killed ≡ true
      → length cs < n
      → Plain cs
      → Reads killed target n s (fails cs t)
  slept :
      (cs : List ℕ) (m : ℕ) (t : Console)
      → Takes cs s t
      → ready t ≡ 0
      → killed ≡ false
      → length cs + m ≡ n
      → 0 < m
      → Plain cs
      → Reads killed target n s (sleeps cs m t)
  returned :
      (cs : List ℕ) (k : ℕ) (t : Console)
      → Takes cs s t
      → k ≡ target - n + length cs
      → length cs ≤ n
      → Stops n k cs t
      → Reads killed target n s (returns cs k t)
  ended : (t : Console) → Takes (4 ∷ []) s t → n ≡ target → Reads killed target n s (returns [] 0 t)

abbrev next : Console → Console
next s = record s { r = (s.r + 1) % uint_mod }

next-Takes :
    (s : Console) → IsValid s → s.r ≢ s.w → Takes (s.bytes (s.r % input_buf) ∷ []) s (next s)
next-Takes s v ne =
    let d : s.r < uint_mod
        × s.w < uint_mod
        × s.e < uint_mod
        × ready s ≤ total s
        × total s ≤ input_buf =
      (v.r_uint, v.w_uint, v.e_uint, v.ordered, v.fits) in
    let n : total s ≡ suc (total (next s)) = omega arith in
    record {
      valid = record {
        r_uint = omega arith;
        w_uint = v.w_uint;
        e_uint = v.e_uint;
        ordered = omega arith;
        fits = omega arith;
        no_newline = λ j a b.
            subst (λ i. s.bytes (i % input_buf) ≢ 10) (shift j)
              (v.no_newline (suc j) (omega (arith, a)) (omega (arith, b)));
      };
      front = ap (window input_buf s.bytes s.r) n;
      of_lines = omega arith;
    }
  where
    shift : (j : ℕ) → (s.r + suc j) % uint_mod ≡ ((s.r + 1) % uint_mod + j) % uint_mod
    shift j = omega arith

Takes-onto :
    (c : ℕ) (cs : List ℕ) (s t u : Console) → Takes (c ∷ []) s t → Takes cs t u → Takes (c ∷ cs) s u
Takes-onto c cs s t u a b = record {
  valid = b.valid;
  front = a.front ∙ ap (◌∷◌ c) b.front;
  of_lines = omega (arith, a.of_lines, b.of_lines);
}

Takes-none : (s : Console) → IsValid s → Takes [] s s
Takes-none s v = record { valid = v; front = refl; of_lines = omega arith }

Reads-onto :
    (killed : Bool) (target n c : ℕ) (s t : Console) (r : Read)
    → suc n ≤ target
    → c ≢ 10
    → c ≢ 4
    → Takes (c ∷ []) s t
    → Reads killed target n t r
    → Reads killed target (suc n) s (onto c r)
Reads-onto killed target n c s t (fails cs u) l p q a (failed cs' u' b e k h z) =
    failed (c ∷ cs) u (Takes-onto c cs s t u a b) e k (omega arith) ((p, q), z)
Reads-onto killed target n c s t (sleeps cs m u) l p q a (slept cs' m' u' b e k h x z) =
    slept (c ∷ cs) m u (Takes-onto c cs s t u a b) e k (omega arith) x ((p, q), z)
Reads-onto killed target n c s t (returns cs k u) l p q a (returned cs' k' u' b e h z) =
    returned (c ∷ cs) k u (Takes-onto c cs s t u a b) (omega arith) (omega arith)
      (Stops-onto n k c cs u p q z)
Reads-onto killed target n c s t (returns cs k u) l p q a (ended u' b e) = absurd (omega arith)

-- A piece of `consoleread` of a valid ring takes the first characters that are ready, at most as many as asked
-- for, and none after a newline. It sleeps, or fails in a killed process, only when it has taken all that are ready
-- and they have no newline and no ^D; it returns when it has all, after the first newline, or before the first ^D if
-- the call has read something, and with 0 after a ^D that comes first of all.
pub consoleread_lem :
    (killed : Bool) (target n : ℕ) (s : Console)
    → IsValid s
    → n ≤ target
    → Reads killed target n s (consoleread killed target n s)
unfolding consoleread
consoleread_lem killed target zero s v l =
    returned [] target s (Takes-none s v) (omega arith) (omega arith) (inl (tt, refl))
consoleread_lem killed target (suc n) s v l =
    let rest = consoleread_lem killed target n (next s) in
    elim (Bool-cases (s.r == s.w)) [
      | inl t ↦ rw t (empty killed (omega (arith, v.w_uint, same t)))
      | inr t ↦
          let ne : s.r ≢ s.w = ground arith in
          let a = next-Takes s v ne in
          rw t (
            at ne (s.bytes (s.r % input_buf)) refl (Bool-cases (s.bytes (s.r % input_buf) == 4))
              (Bool-cases (s.bytes (s.r % input_buf) == 10)) a (rest a.valid (omega arith)))
    ]
  where
    same : (s.r == s.w) ≡ true → s.r ≡ s.w
    same t = ground arith

    empty :
        (k : Bool)
        → ready s ≡ 0
        → Reads k target (suc n) s (if k then fails [] s else sleeps [] (suc n) s)
    empty true e = failed [] s (Takes-none s v) e refl (omega arith) tt
    empty false e = slept [] (suc n) s (Takes-none s v) e refl (omega arith) (omega arith) tt

    back : before ((s.r + 1) % uint_mod) ≡ s.r
    back = omega (arith, v.r_uint)

    newline : (c : ℕ) → (c == 10) ≡ true → c ≡ 10
    newline c y = ground arith

    eof :
        s.r ≢ s.w
        → (c : ℕ) → s.bytes (s.r % input_buf) ≡ c
        → (c == 4) ≡ true
        → Takes (c ∷ []) s (next s)
        → (ltb (suc n) target ≡ true) ⊎ (ltb (suc n) target ≡ false)
        → Reads killed target (suc n) s (
            if ltb (suc n) target
            then returns [] (target - suc n) (record (next s) { r = before (next s).r })
            else returns [] (target - suc n) (next s))
    eof ne c q t a (inl x) =
        rw (x, back)
          (returned [] (target - suc n) s (Takes-none s v) (omega arith) (omega arith)
            (inr (inr (tt, ground arith, ne, (let c4 : c ≡ 4 = ground arith in q ∙ c4)))))
    eof ne c q t a (inr x) =
        let e : suc n ≡ target = ground arith in
        let z : target - suc n ≡ 0 = omega arith in
        let c4 : c ≡ 4 = ground arith in
        rw (x, z) (ended (next s) (subst (λ c. Takes (c ∷ []) s (next s)) c4 a) e)

    at :
        s.r ≢ s.w
        → (c : ℕ) → s.bytes (s.r % input_buf) ≡ c
        → ((c == 4) ≡ true) ⊎ ((c == 4) ≡ false)
        → ((c == 10) ≡ true) ⊎ ((c == 10) ≡ false)
        → Takes (c ∷ []) s (next s)
        → Reads killed target n (next s) (consoleread killed target n (next s))
        → Reads killed target (suc n) s (
            if c == 4
            then if ltb (suc n) target
              then returns [] (target - suc n) (record (next s) { r = before (next s).r })
              else returns [] (target - suc n) (next s)
            else if c == 10
            then returns (c ∷ []) (target - n) (next s)
            else onto c (consoleread killed target n (next s)))
    at ne c q (inl t) y a r = rw t (eof ne c q t a (Bool-cases (ltb (suc n) target)))
    at ne c q (inr t) (inl y) a r =
        rw (t, y)
          (returned (c ∷ []) (target - n) (next s) a (omega arith) (omega arith)
            (inr (inl ([], tt, ap (λ c. c ∷ []) (newline c y)))))
    at ne c q (inr t) (inr y) a r =
        rw (t, y)
          (Reads-onto killed target n c s (next s) (consoleread killed target n (next s)) l
            (ground arith) (ground arith) a r)
