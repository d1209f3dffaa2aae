-- ===== src/Xv6/Sh/Rejects.antt =====
-- Lines that the parser panics on.
use os_projects.Base.{
  ℕ, zero, suc, ◌+◌, ◌≤◌, ◌<◌, ◌≡◌, refl, sym, ap, ◌∙◌, true, false, ◌==◌, leb, List, [], ◌∷◌, ◌++◌,
  length, length-append, arith, Bool-cases, inl, inr,
}
use os_projects.Xv6.Sh.{
  SyntaxError, exec, panics, too_many_args, skip_space, starts, maxargs, ends_args, is_redirection,
  bind, parseredirs, parse_args, parseexec, parsepipe, parseline, parsecmd,
}
use os_projects.Xv6.Sh.Lex.{length-skip_space}
use os_projects.Xv6.Sh.Words.{IsWord, EndsWord, skip_space-word, starts-word, gettoken-word}
use os_projects.Xv6.Sh.Steps.{
  plain-is_redirection, plain-ends_args, parseredirs_none, parseexec_plain,
}
use os_projects.Xv6.Sh.Commands.{word-step, plain-opens}

-- A line starts with a number of words, each with any blanks or none in front of it. What stands after
-- a word ends it: a blank, a symbol or the end of the line.
abbrev pub StartsWords : ℕ → List ℕ → Type 0
StartsWords zero s = Unit
StartsWords (suc n) s =
    (w : List ℕ) × (r : List ℕ) × (skip_space s ≡ w ++ r) × IsWord w × EndsWord r × StartsWords n r

-- The argument that would be the tenth.
parse_args_full :
    (fuel argc : ℕ) (ps : List (List ℕ)) (w rest : List ℕ)
    → IsWord w
    → EndsWord rest
    → maxargs ≤ argc + 1
    → parse_args (suc fuel) argc (exec ps) (w ++ rest) ≡ panics too_many_args
unfolding parse_args
parse_args_full fuel argc ps w rest i e l =
    let full : leb maxargs (argc + 1) ≡ true = ground arith in
    rw
      (
        skip_space-word w rest i,
        starts-word ends_args w rest plain-ends_args i,
        gettoken-word w rest i e,
        full,
      )
      refl

words_full :
    (n k1 k2 : ℕ) (ps : List (List ℕ)) (s : List ℕ)
    → length ps < maxargs
    → maxargs ≤ length ps + n
    → StartsWords n s
    → length s < k1
    → length s < k2
    → bind (parseredirs k1 (exec ps) s) (λ (c, s). parse_args k2 (length ps) c s)
      ≡ panics too_many_args
words_full zero k1 k2 ps s l l' a h1 h2 = absurd (omega arith)
words_full (suc n) k1 zero ps s l l' a h1 h2 = absurd (omega arith)
words_full (suc n) k1 (suc k2) ps s l l' (w, r, q, i, e, a) h1 h2 =
    let m : length (w ++ r) ≡ length w + length r = length-append w r in
    let m' : length (ps ++ (w ∷ [])) ≡ length ps + 1 = length-append ps (w ∷ []) in
    let shorter : length r < length s = omega (arith, m, i.0, ap length q, length-skip_space s) in
    let none : starts is_redirection (skip_space s) ≡ false =
      rw q (starts-word is_redirection w r plain-is_redirection i) in
    elim (Bool-cases (leb maxargs (length ps + 1))) [
      | inr few ↦
          let lt : length ps + 1 < maxargs = ground arith in
          word-step k1 k2 ps w r s q i e lt h1
          ∙ ap
              (λ n. bind (parseredirs k2 (exec (ps ++ (w ∷ []))) r) (λ (c, s). parse_args k2 n c s))
              (sym m')
          ∙ words_full n k2 k2 (ps ++ (w ∷ [])) r (omega arith) (omega arith) a (omega arith)
              (omega arith)
      | inl many ↦
          rw (parseredirs_none k1 (exec ps) s h1 none, q)
            (parse_args_full k2 (length ps) ps w r i e (ground arith))
    ]

line_panics :
    (fuel : ℕ) (s : List ℕ) (e : SyntaxError)
    → parseexec (parseline (suc fuel)) fuel s ≡ panics e
    → parseline (suc (suc fuel)) s ≡ panics e
unfolding parseline parsepipe
line_panics fuel s e h = rw h refl

-- A line that starts with MAXARGS words or more, with any blanks between them, makes `parsecmd` panic
-- with "too many args", whatever follows them.
pub parsecmd-StartsWords :
    (n : ℕ) (s : List ℕ) → maxargs ≤ n → StartsWords n s → parsecmd s ≡ panics too_many_args
unfolding parsecmd
parsecmd-StartsWords zero s l a = absurd (omega arith)
parsecmd-StartsWords (suc n) s l (w, r, q, i, e, a) =
    let plain : starts (λ c. c == b'(') (skip_space s) ≡ false =
      rw q (starts-word (λ c. c == b'(') w r plain-opens i) in
    let k : length s + 3 ≡ suc (suc (length s + 1)) = omega arith in
    rw k (
      rw
        (line_panics (length s + 1) s too_many_args (
          parseexec_plain (parseline (suc (length s + 1))) (length s + 1) s plain
          ∙ words_full (suc n) (length s + 1) (length s + 1) [] s (omega arith) (omega arith)
              (w, r, q, i, e, a) (omega arith) (omega arith)))
        refl)
