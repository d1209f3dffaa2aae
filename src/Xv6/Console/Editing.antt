-- ===== src/Xv6/Console/Editing.antt =====
-- The editing of a line, against the same on a list of characters.
use os_projects.Base.{
  ℕ, zero, suc, ◌+◌, ◌-◌, ◌%◌, ◌≤◌, ◌<◌, ltb, ◌≡◌, ◌≢◌, refl, sym, ap, ap₂, subst, ◌∙◌, inl, inr,
  ◌⊎◌, Bool, true, false, not, ◌&&◌, ◌||◌, ◌==◌, if◌then◌else◌, List, [], ◌∷◌, ◌++◌, length,
  length-append, take, update, update_self, update_ne, All, Bool-cases, arith,
}
use os_projects.Ring.{uint_mod, distance, window, length-window, take-window, window-update}
use os_projects.Xv6.Console.{
  Console, input_buf, consputc, before, erase, kill_line, put, intr, intr_chars, consoleintr,
}

-- The characters in the ring, and how many of them are those of whole lines, which a reader may take.
abbrev pub total : Console → ℕ
total s = distance s.r s.e

abbrev pub ready : Console → ℕ
ready s = distance s.r s.w

abbrev pub text : Console → List ℕ
text s = window input_buf s.bytes s.r (total s)

-- The counters are uints in their order, the ring does not overflow, and the line that is edited has no newline.
pub record IsValid (s : Console) : Type 0 where
  pub r_uint : s.r < uint_mod
  pub w_uint : s.w < uint_mod
  pub e_uint : s.e < uint_mod
  pub ordered : ready s ≤ total s
  pub fits : total s ≤ input_buf
  pub no_newline :
      (j : ℕ) → ready s ≤ j → j < total s → s.bytes ((s.r + j) % uint_mod % input_buf) ≢ 10

-- The same on the characters and the number of those that are ready. A line is ready when it ends, in a
-- newline or ^D, or when there is no room for more.
abbrev pub Line : Type 0
Line = List ℕ × ℕ

pub push : ℕ → Line → Line
push c (cs, k) =
    let cs' = cs ++ c ∷ [] in
    (cs', if (c == 10) || ((c == 4) || (length cs' == input_buf)) then length cs' else k)

pub edit : ℕ → Line → Line
edit c (cs, k) =
    if c == 16
    then (cs, k)
    else if c == 21
    then (take k cs, k)
    else if (c == 8) || (c == 127)
    then (if length cs == k then cs else take (length cs - 1) cs, k)
    else if not (c == 0) && ltb (length cs) input_buf
    then push (if c == 13 then 10 else c) (cs, k)
    else (cs, k)

abbrev pub line : Console → Line
line s = (text s, ready s)

record Edits (l : Line) (t : Console) : Type 0 where
  valid : IsValid t
  same : line t ≡ l

erase-Edits :
    (s : Console) → IsValid s → s.e ≢ s.w → Edits (take (total s - 1) (text s), ready s) (erase s)
unfolding erase consputc
erase-Edits s v ne =
    let d : s.r < uint_mod
        × s.w < uint_mod
        × s.e < uint_mod
        × ready s ≤ total s
        × total s ≤ input_buf =
      (v.r_uint, v.w_uint, v.e_uint, v.ordered, v.fits) in
    let n : distance s.r (before s.e) ≡ total s - 1 = omega arith in
    record {
      valid = record {
        r_uint = v.r_uint;
        w_uint = v.w_uint;
        e_uint = omega arith;
        ordered = omega arith;
        fits = omega arith;
        no_newline = λ j a b. v.no_newline j a (omega arith);
      };
      same =
          ap (λ cs. (cs, ready s))
            (ap (window input_buf s.bytes s.r) n
              ∙ sym (take-window input_buf s.bytes s.r (total s - 1) (total s) (omega arith)));
    }

Edits-subst : (l l' : Line) (t : Console) → l ≡ l' → Edits l t → Edits l' t
Edits-subst l l' t e d = record { valid = d.valid; same = d.same ∙ e }

take-text : (s : Console) (k : ℕ) → k ≤ total s → take k (text s) ≡ window input_buf s.bytes s.r k
take-text s k l = take-window input_buf s.bytes s.r k (total s) l

-- Nothing of the line is left.
ends-Edits :
    (s : Console) → IsValid s → total s ≡ ready s → Edits (take (ready s) (text s), ready s) s
ends-Edits s v e = record {
  valid = v;
  same =
      ap (λ cs. (cs, ready s))
        (ap (window input_buf s.bytes s.r) e ∙ sym (take-text s (ready s) v.ordered));
}

erase-text :
    (s : Console)
    → IsValid s
    → s.e ≢ s.w
    → take (ready s) (text (erase s)) ≡ take (ready s) (text s)
unfolding erase consputc
erase-text s v ne =
    let l : ready s ≤ distance s.r (before s.e) =
      omega (arith, v.ordered, v.fits, v.r_uint, v.w_uint, v.e_uint) in
    take-window input_buf s.bytes s.r (ready s) (distance s.r (before s.e)) l
    ∙ sym (take-text s (ready s) v.ordered)

-- The loop of `kill_line` erases the characters of the line, none of which is a newline.
kill_line-Edits :
    (fuel : ℕ) (s : Console)
    → IsValid s
    → total s ≤ fuel + ready s
    → Edits (take (ready s) (text s), ready s) (kill_line fuel s)
unfolding kill_line erase consputc
kill_line-Edits zero s v l = ends-Edits s v (omega (arith, v.ordered))
kill_line-Edits (suc fuel) s v l = elim (Bool-cases (s.e == s.w)) [
  | inl t ↦ let e : s.e ≡ s.w = ground arith in rw t (ends-Edits s v (ap (distance s.r) e))
  | inr t ↦
      let ne : s.e ≢ s.w = ground arith in
      let at : (s.r + (total s - 1)) % uint_mod ≡ before s.e =
        omega (arith, v.ordered, v.fits, v.r_uint, v.w_uint, v.e_uint) in
      let last : s.bytes (before s.e % input_buf) ≢ 10 =
        subst (λ i. s.bytes (i % input_buf) ≢ 10) at
          (v.no_newline (total s - 1)
            (omega (arith, v.ordered, v.fits, v.r_uint, v.w_uint, v.e_uint))
            (omega (arith, v.ordered, v.fits, v.r_uint, v.w_uint, v.e_uint))) in
      let n : (s.bytes (before s.e % input_buf) == 10) ≡ false = ground arith in
      let d = erase-Edits s v ne in
      let bound : total (erase s) ≤ fuel + ready (erase s) =
        omega (arith, l, ne, v.ordered, v.fits, v.r_uint, v.w_uint, v.e_uint) in
      rw (t, n)
        (Edits-subst (take (ready s) (text (erase s)), ready s) (take (ready s) (text s), ready s)
          (kill_line fuel (erase s)) (ap (λ cs. (cs, ready s)) (erase-text s v ne))
          (kill_line-Edits fuel (erase s) d.valid bound))
]

slot-apart : (h n : ℕ) → suc n < input_buf → (h + suc n) % uint_mod % input_buf ≢ h % input_buf
slot-apart h n l = omega arith

-- The state with the new character, before it is seen whether the line ends.
abbrev with_char : ℕ → Console → Console
with_char c s =
    consputc c
      (record s { bytes = update s.bytes (s.e % input_buf) (c % 256); e = (s.e + 1) % uint_mod })

with_char-text :
    (c : ℕ) (s : Console)
    → IsValid s
    → total s < input_buf
    → c < 256
    → text (with_char c s) ≡ text s ++ c ∷ []
unfolding consputc
with_char-text c s v l lc =
    let n : distance s.r ((s.e + 1) % uint_mod) ≡ suc (total s) =
      omega (arith, v.r_uint, v.e_uint) in
    let byte : c % 256 ≡ c = omega arith in
    ap₂ (λ x k. window input_buf (update s.bytes (s.e % input_buf) x) s.r k) byte n
    ∙ window-update input_buf slot-apart s.bytes c (total s) s.r s.e v.r_uint l
        (omega (arith, v.r_uint, v.e_uint))

-- The test of `put` for a full ring.
full-length :
    (c : ℕ) (s : Console)
    → IsValid s
    → total s < input_buf
    → ((s.e + 1) % uint_mod == ((s.r + input_buf) % uint_mod))
      ≡ (length (text s ++ c ∷ []) == input_buf)
full-length c s v l =
    let n : length (text s ++ c ∷ []) ≡ total s + 1 =
      length-append (text s) (c ∷ [])
      ∙ ap (λ k. k + 1) (length-window input_buf s.bytes s.r (total s)) in
    rw n (elim (Bool-cases (total s + 1 == input_buf)) [
      | inl t ↦
          let e : ((s.e + 1) % uint_mod == ((s.r + input_buf) % uint_mod)) ≡ true =
            ground (arith, t, l, v.r_uint, v.e_uint) in
          rw (e, t) refl
      | inr t ↦
          let e : ((s.e + 1) % uint_mod == ((s.r + input_buf) % uint_mod)) ≡ false =
            ground (arith, t, l, v.r_uint, v.e_uint) in
          rw (e, t) refl
    ])

-- The line goes on.
with_char-IsValid :
    (c : ℕ) (s : Console)
    → IsValid s
    → total s < input_buf
    → c < 256
    → c ≢ 10
    → IsValid (with_char c s)
unfolding consputc
with_char-IsValid c s v l lc ne =
    let d : s.r < uint_mod
        × s.w < uint_mod
        × s.e < uint_mod
        × ready s ≤ total s
        × total s ≤ input_buf =
      (v.r_uint, v.w_uint, v.e_uint, v.ordered, v.fits) in
    let n : distance s.r ((s.e + 1) % uint_mod) ≡ suc (total s) =
      omega (arith, v.r_uint, v.e_uint) in
    record {
      r_uint = v.r_uint;
      w_uint = v.w_uint;
      e_uint = omega arith;
      ordered = omega arith;
      fits = omega arith;
      no_newline = λ j a b. no_newline_at j (Bool-cases (j == total s)) a (omega (arith, n, b));
    }
  where
    no_newline_at :
        (j : ℕ)
        → ((j == total s) ≡ true) ⊎ ((j == total s) ≡ false)
        → ready s ≤ j
        → j ≤ total s
        → update s.bytes (s.e % input_buf) (c % 256) ((s.r + j) % uint_mod % input_buf) ≢ 10
    no_newline_at j (inl t) a b =
        let e : (s.r + j) % uint_mod ≡ s.e =
          let e' : j ≡ total s = ground arith in omega (arith, e', v.r_uint, v.e_uint) in
        let byte : c % 256 ≡ c = omega arith in
        rw (e, update_self s.bytes (s.e % input_buf) (c % 256), byte) ne
    no_newline_at j (inr t) a b =
        let lt : j < total s = ground arith in
        let apart : s.e % input_buf ≢ (s.r + j) % uint_mod % input_buf =
          omega (arith, lt, l, v.r_uint, v.e_uint) in
        rw (update_ne s.bytes (s.e % input_buf) ((s.r + j) % uint_mod % input_buf) (c % 256) apart)
          (v.no_newline j a lt)

put-Edits :
    (c : ℕ) (s : Console)
    → IsValid s
    → total s < input_buf
    → c < 256
    → Edits (push c (line s)) (put c s)
unfolding put push consputc
put-Edits c s v l lc =
    let text' = with_char-text c s v l lc in
    let n : distance s.r ((s.e + 1) % uint_mod) ≡ suc (total s) =
      omega (arith, v.r_uint, v.e_uint) in
    let full : length (text s ++ c ∷ []) ≡ suc (total s) =
      length-append (text s) (c ∷ []) ∙ len (length-window input_buf s.bytes s.r (total s)) in
    rw (full-length c s v l)
      (elim (Bool-cases ((c == 10) || ((c == 4) || (length (text s ++ c ∷ []) == input_buf)))) [
        | inl t ↦ rw t (record {
          valid = record {
            r_uint = v.r_uint;
            w_uint = omega arith;
            e_uint = omega arith;
            ordered = omega arith;
            fits = omega (arith, n, l);
            no_newline = λ j a b. absurd (omega (arith, a, b));
          };
          same = ap₂ (λ cs k. (cs, k)) text' (n ∙ sym full);
        })
        | inr t ↦ rw t (record {
          valid = with_char-IsValid c s v l lc (ground arith);
          same = ap (λ cs. (cs, ready s)) text';
        })
      ])
  where
    len : length (text s) ≡ total s → length (text s) + 1 ≡ suc (total s)
    len e = omega (arith, e)

flagged : (s : Console) (b : Bool) → IsValid s → Edits (line s) (record s { dump = b })
flagged s b v = record {
  valid = record {
    r_uint = v.r_uint;
    w_uint = v.w_uint;
    e_uint = v.e_uint;
    ordered = v.ordered;
    fits = v.fits;
    no_newline = v.no_newline;
  };
  same = refl;
}

backspace-Edits :
    (s : Console)
    → IsValid s
    → Edits
        (if total s == ready s then text s else take (total s - 1) (text s), ready s)
        (if s.e == s.w then s else erase s)
backspace-Edits s v = elim (Bool-cases (s.e == s.w)) [
  | inl t ↦
      let e : s.e ≡ s.w = ground arith in
      let same : (total s == ready s) ≡ true = ground (arith, ap (distance s.r) e) in
      rw (t, same) (record { valid = v; same = refl })
  | inr t ↦
      let ne : s.e ≢ s.w = ground arith in
      let more : total s ≢ ready s = omega (arith, ne, v.r_uint, v.w_uint, v.e_uint) in
      let differ : (total s == ready s) ≡ false = ground arith in
      rw (t, differ) (erase-Edits s v ne)
]

char-Edits :
    (c : ℕ) (s : Console)
    → IsValid s
    → c < 256
    → Edits
        (if not (c == 0) && ltb (total s) input_buf
          then push (if c == 13 then 10 else c) (line s)
          else line s)
        (if not (c == 0) && ltb (total s) input_buf then put (if c == 13 then 10 else c) s else s)
char-Edits c s v lc = elim (Bool-cases (not (c == 0) && ltb (total s) input_buf)) [
  | inl t ↦
      let l : total s < input_buf = ground arith in
      let lc' : (if c == 13 then 10 else c) < 256 = ground arith in
      rw t (put-Edits (if c == 13 then 10 else c) s v l lc')
  | inr t ↦ rw t (record { valid = v; same = refl })
]

intr-Edits : (c : ℕ) (s : Console) → IsValid s → c < 256 → Edits (edit c (line s)) (intr c s)
unfolding intr edit
intr-Edits c s v lc = elim (Bool-cases (c == 16)) [
  | inl t ↦ rw t (flagged s true v)
  | inr t ↦ elim (Bool-cases (c == 21)) [
    | inl u ↦ rw (t, u) (kill_line-Edits input_buf s v (omega (arith, v.fits)))
    | inr u ↦ elim (Bool-cases ((c == 8) || (c == 127))) [
      | inl x ↦ rw (t, u, x, length-window input_buf s.bytes s.r (total s)) (backspace-Edits s v)
      | inr x ↦ rw (t, u, x, length-window input_buf s.bytes s.r (total s)) (char-Edits c s v lc)
    ]
  ]
]

abbrev pub edits : List ℕ → Line → Line
edits [] l = l
edits (c ∷ cs) l = edits cs (edit c l)

intr_chars-Edits :
    (cs : List ℕ) (s : Console)
    → IsValid s
    → All (λ c. c < 256) cs
    → Edits (edits cs (line s)) (intr_chars cs s)
unfolding intr_chars
intr_chars-Edits [] s v a = record { valid = v; same = refl }
intr_chars-Edits (c ∷ cs) s v (l, a) =
    let d = intr-Edits c s v l in
    let e = intr_chars-Edits cs (intr c s) d.valid a in
    record { valid = e.valid; same = e.same ∙ ap (edits cs) d.same }

-- From a valid ring, `consoleintr` leaves a valid one, whose line is edited by each of the bytes in turn as
-- a list of characters is.
pub consoleintr-edits :
    (cs : List ℕ) (s : Console)
    → IsValid s
    → All (λ c. c < 256) cs
    → IsValid (consoleintr cs s) × (line (consoleintr cs s) ≡ edits cs (line s))
unfolding consoleintr
consoleintr-edits cs s v a =
    let d = intr_chars-Edits cs (record s { dump = false }) (flagged s false v).valid a in
    (d.valid, d.same)
