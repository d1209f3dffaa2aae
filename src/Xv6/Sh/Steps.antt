-- ===== src/Xv6/Sh/Steps.antt =====
-- One round of each loop of the parser.
use os_projects.Base.{
  ℕ, zero, suc, ◌+◌, ◌-◌, leb, ◌<◌, ◌≡◌, ◌⊎◌, refl, ap, ◌∙◌, inl, inr, Bool, true, false, ◌||◌,
  ◌==◌, if◌then◌else◌, List, [], ◌∷◌, ◌++◌, length, arith,
}
use os_projects.Xv6.Sh.{
  Cmd, exec, redir, ok, Parsed, bind, is_space, is_symbol, skip_space, token_at, angle, gettoken,
  starts, symbol, is_end, panics, syntax, too_many_args, maxargs, add_arg, with_word,
  is_redirection, ends_args, redirected, parseredirs, parse_args, parseexec, parsepipe, parse_backs,
  parseline, o_rdonly, o_wronly_create,
}
use os_projects.Xv6.Sh.Lex.{skip_space-skip_space}
use os_projects.Xv6.Sh.Words.{
  IsWord, EndsWord, ends, Follows, Follows-EndsWord, skip_space-word, starts-word, gettoken-word,
}
use os_projects.Xv6.Sh.Printer.{print_redir}

-- Spaces in front of what is left do not matter.
pub parseredirs-skip_space :
    (fuel : ℕ) (c : Cmd) (s : List ℕ) → parseredirs fuel c (skip_space s) ≡ parseredirs fuel c s
unfolding parseredirs
parseredirs-skip_space zero c s = refl
parseredirs-skip_space (suc fuel) c s = rw (skip_space-skip_space s) refl

parseexec-skip_space :
    (line : List ℕ → Parsed) (fuel : ℕ) (s : List ℕ)
    → parseexec line fuel (skip_space s) ≡ parseexec line fuel s
unfolding parseexec
parseexec-skip_space line fuel s = rw (skip_space-skip_space s) refl

pub parsepipe-skip_space :
    (line : List ℕ → Parsed) (fuel : ℕ) (s : List ℕ)
    → parsepipe line fuel (skip_space s) ≡ parsepipe line fuel s
unfolding parsepipe
parsepipe-skip_space line zero s = refl
parsepipe-skip_space line (suc fuel) s = rw (parseexec-skip_space line fuel s) refl

pub parseline-skip_space :
    (fuel : ℕ) (s : List ℕ) → parseline fuel (skip_space s) ≡ parseline fuel s
unfolding parseline
parseline-skip_space zero s = refl
parseline-skip_space (suc fuel) s = rw (parsepipe-skip_space (parseline fuel) fuel s) refl

pub parse_backs-skip_space :
    (fuel : ℕ) (c : Cmd) (s : List ℕ) → parse_backs fuel c (skip_space s) ≡ parse_backs fuel c s
unfolding parse_backs
parse_backs-skip_space zero c s = refl
parse_backs-skip_space (suc fuel) c s = rw (skip_space-skip_space s) refl

-- What may follow an argument, a command of a pipe, a pipe, and a line.
abbrev pub after_arg : ℕ → Bool
after_arg c = is_redirection c || ends_args c

abbrev pub after_pipe : ℕ → Bool
after_pipe c = (c == b'&') || ((c == b';') || (c == b')'))

abbrev pub after_backs : ℕ → Bool
after_backs c = (c == b';') || (c == b')')

abbrev pub after_line : ℕ → Bool
after_line c = c == b')'

after_arg-is_symbol : (c : ℕ) → after_arg c ≡ true → is_symbol c ≡ true
unfolding is_redirection ends_args is_symbol
after_arg-is_symbol c h = ground arith

pub ends_args-is_redirection : (c : ℕ) → ends_args c ≡ true → is_redirection c ≡ false
unfolding is_redirection ends_args
ends_args-is_redirection c h = ground arith

-- A word after a space.
pub skip_space_word : (w s : List ℕ) → IsWord w → skip_space (32 ∷ (w ++ s)) ≡ w ++ s
unfolding skip_space is_space
skip_space_word w s h = skip_space-word w s h

-- No redirection follows.
pub parseredirs_none :
    (fuel : ℕ) (c : Cmd) (s : List ℕ)
    → length s < fuel
    → starts is_redirection (skip_space s) ≡ false
    → parseredirs fuel c s ≡ ok (c, skip_space s)
unfolding parseredirs
parseredirs_none zero c s l h = absurd (omega arith)
parseredirs_none (suc fuel) c s l h = rw h refl

symbol-space : (c : ℕ) → is_symbol c ≡ true → is_space c ≡ false
unfolding is_space is_symbol
symbol-space c h = ground arith

-- A symbol after a space.
pub skip_space_symbol : (c : ℕ) (s : List ℕ) → is_symbol c ≡ true → skip_space (32 ∷ c ∷ s) ≡ c ∷ s
unfolding skip_space is_space
skip_space_symbol c s h = rw (symbol-space c h) refl

pub gettoken_symbol :
    (c : ℕ) (s : List ℕ)
    → is_symbol c ≡ true
    → (c == b'>') ≡ false
    → gettoken (c ∷ s) ≡ (symbol c, skip_space s)
unfolding gettoken token_at skip_space
gettoken_symbol c s h n = rw (symbol-space c h, n, h) refl

gettoken_angle : (s : List ℕ) → gettoken (b'>' ∷ 32 ∷ s) ≡ (symbol b'>', skip_space s)
unfolding gettoken token_at angle skip_space is_space
gettoken_angle s = refl

pub EndsWord-after_arg : (s : List ℕ) → Follows after_arg s → EndsWord s
EndsWord-after_arg s f = Follows-EndsWord after_arg s after_arg-is_symbol f

pub plain-ends_args : (c : ℕ) → is_symbol c ≡ false → ends_args c ≡ false
unfolding is_symbol ends_args
plain-ends_args c h = ground arith

pub plain-is_redirection : (c : ℕ) → is_symbol c ≡ false → is_redirection c ≡ false
unfolding is_symbol is_redirection
plain-is_redirection c h = ground arith

pub suc-pred : (k : ℕ) → k ≡ suc k - 1
suc-pred k = omega arith

-- A redirection follows, and after it no more of its file's name.
pub parseredirs_one :
    (fuel : ℕ) (c : Cmd) (file : List ℕ) (mode fd : ℕ) (rest : List ℕ)
    → IsWord file
    → ((mode ≡ o_rdonly) × (fd ≡ 0)) ⊎ ((mode ≡ o_wronly_create) × (fd ≡ 1))
    → Follows after_arg rest
    → length (print_redir file fd rest) < fuel
    → parseredirs fuel c (print_redir file fd rest)
      ≡ parseredirs (fuel - 1) (redir c file mode fd) rest
unfolding parseredirs is_redirection is_symbol redirected
parseredirs_one zero c file mode fd rest w h f l = absurd (omega arith)
parseredirs_one (suc fuel) c file mode fd rest w (inl (m, d)) f l =
    rw
      (
        d,
        m,
        skip_space_symbol b'<' (32 ∷ (file ++ rest)) refl,
        gettoken_symbol b'<' (32 ∷ (file ++ rest)) refl refl,
        skip_space_word file rest w,
        gettoken-word file rest w (EndsWord-after_arg rest f),
      )
      (parseredirs-skip_space fuel (redir c file o_rdonly 0) rest
        ∙ ap (λ k. parseredirs k (redir c file o_rdonly 0) rest) (suc-pred fuel))
parseredirs_one (suc fuel) c file mode fd rest w (inr (m, d)) f l =
    rw
      (
        d,
        m,
        skip_space_symbol b'>' (32 ∷ (file ++ rest)) refl,
        gettoken_angle (file ++ rest),
        skip_space-word file rest w,
        gettoken-word file rest w (EndsWord-after_arg rest f),
      )
      (parseredirs-skip_space fuel (redir c file o_wronly_create 1) rest
        ∙ ap (λ k. parseredirs k (redir c file o_wronly_create 1) rest) (suc-pred fuel))

-- An argument, and after it no more of its characters.
pub parse_args_one :
    (fuel argc : ℕ) (c : Cmd) (w rest : List ℕ)
    → IsWord w
    → EndsWord rest
    → argc + 1 < maxargs
    → parse_args (suc fuel) argc c (w ++ rest)
      ≡ bind (parseredirs fuel (add_arg w c) rest) (λ (d, s). parse_args fuel (argc + 1) d s)
unfolding parse_args
parse_args_one fuel argc c w rest i e l =
    let few : leb maxargs (argc + 1) ≡ false = ground arith in
    rw
      (
        skip_space-word w rest i,
        starts-word ends_args w rest plain-ends_args i,
        gettoken-word w rest i e,
        few,
        parseredirs-skip_space fuel (add_arg w c) rest,
      )
      refl

-- The arguments end.
pub parse_args_none :
    (fuel argc : ℕ) (c : Cmd) (s : List ℕ)
    → 0 < fuel
    → Follows ends_args s
    → parse_args fuel argc c s ≡ ok (c, skip_space s)
unfolding parse_args gettoken token_at skip_space
parse_args_none zero argc c s l f = absurd (omega arith)
parse_args_none (suc fuel) argc c s l f = after (skip_space s) f
  where
    after :
        (r : List ℕ)
        → ends ends_args r ≡ true
        → (if starts ends_args r
            then ok (c, r)
            else if is_end (gettoken r).0
            then ok (c, (gettoken r).1)
            else with_word (gettoken r).0 syntax (λ w.
              if leb maxargs (argc + 1)
              then panics too_many_args
              else bind
                  (parseredirs fuel (add_arg w c) (gettoken r).1)
                  (λ (d, s3). parse_args fuel (argc + 1) d s3)))
          ≡ ok (c, r)
    after [] f = refl
    after (x ∷ xs) f = rw f refl

-- A command that is not a block.
pub parseexec_plain :
    (line : List ℕ → Parsed) (fuel : ℕ) (s : List ℕ)
    → starts (λ c. c == b'(') (skip_space s) ≡ false
    → parseexec line fuel s
      ≡ bind (parseredirs fuel (exec []) s) (λ (c, s2). parse_args fuel 0 c s2)
unfolding parseexec
parseexec_plain line fuel s h = rw (h, parseredirs-skip_space fuel (exec []) s) refl
