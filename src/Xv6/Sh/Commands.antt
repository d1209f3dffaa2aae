-- ===== src/Xv6/Sh/Commands.antt =====
-- The parse of one command of a pipe: arguments, redirections and blocks.
use os_projects.Base.{
  ℕ, zero, suc, ◌+◌, ◌-◌, ◌≤◌, ◌<◌, ◌≡◌, ◌⊎◌, refl, sym, ap, subst, ◌∙◌, inl, inr, true, false,
  ◌==◌, List, [], ◌∷◌, ◌++◌, length, length-append, All, arith, Bool-cases,
}
use os_projects.Xv6.Sh.{
  Cmd, exec, redir, ok, panics, out_of_fuel, Parsed, bind, is_space, is_symbol, skip_space, starts,
  maxargs, ends_args, is_redirection, parseredirs, parse_args, parseblock, parseexec, parseline,
  o_rdonly, o_wronly_create, add_arg,
}
use os_projects.Xv6.Sh.Lex.{skip_space-skip_space}
use os_projects.Xv6.Sh.Words.{
  IsWord, EndsWord, Follows, Follows-weaken, Follows-starts, starts-word,
}
use os_projects.Xv6.Sh.Printer.{print_words, print_redir, print_block, Grows}
use os_projects.Xv6.Sh.Steps.{
  parseredirs-skip_space, parseline-skip_space, after_arg, after_line, ends_args-is_redirection,
  EndsWord-after_arg, skip_space_word, plain-is_redirection, parseredirs_none, parseredirs_one,
  parse_args_one, parse_args_none, parseexec_plain, skip_space_symbol, gettoken_symbol,
}
use mathlib.Core.List.{append-nil, append_assoc}

-- A parse that goes on with the redirections of a command, and then ends it.
pub record Opens (c : Cmd) (rest : List ℕ) (r : Parsed) : Type 0 where
  fuel : ℕ
  next : Cmd × List ℕ → Parsed
  enough : length rest < fuel
  opens : r ≡ bind (parseredirs fuel c rest) next
  closes :
      (d : Cmd) (s : List ℕ) → Follows ends_args s → next (d, skip_space s) ≡ ok (d, skip_space s)

-- What the parser does with a command that a printer `p` writes, at each level of the grammar.
abbrev pub ReadsExec : (List ℕ → List ℕ) → Cmd → Type 0
ReadsExec p c =
    (fuel k : ℕ) (rest : List ℕ)
    → Follows after_arg rest
    → length (p rest) < k
    → length (p rest) + 2 ≤ fuel
    → Opens c rest (parseexec (parseline fuel) k (p rest))

abbrev pub ReadsLine : (List ℕ → List ℕ) → Cmd → Type 0
ReadsLine p c =
    (fuel : ℕ) (rest : List ℕ)
    → Follows after_line rest
    → length (p rest) + 3 ≤ fuel
    → parseline fuel (p rest) ≡ ok (c, skip_space rest)

print_words-EndsWord :
    (ws : List (List ℕ)) (rest : List ℕ) → Follows after_arg rest → EndsWord (print_words ws rest)
unfolding is_space
print_words-EndsWord [] rest f = EndsWord-after_arg rest f
print_words-EndsWord (w ∷ ws) rest f = refl

pub word-step :
    (k1 k2 : ℕ) (ps : List (List ℕ)) (w rest line : List ℕ)
    → skip_space line ≡ w ++ rest
    → IsWord w
    → EndsWord rest
    → length ps + 1 < maxargs
    → length line < k1
    → bind (parseredirs k1 (exec ps) line) (λ (c, s). parse_args (suc k2) (length ps) c s)
      ≡ bind
          (parseredirs k2 (exec (ps ++ (w ∷ []))) rest)
          (λ (c, s). parse_args k2 (length ps + 1) c s)
unfolding add_arg
word-step k1 k2 ps w rest line q i e l h =
    let none : starts is_redirection (skip_space line) ≡ false =
      rw q (starts-word is_redirection w rest plain-is_redirection i) in
    rw (parseredirs_none k1 (exec ps) line h none, q)
      (parse_args_one k2 (length ps) (exec ps) w rest i e l)

parse_args_skipped :
    (fuel argc : ℕ) (c : Cmd) (s : List ℕ)
    → 0 < fuel
    → Follows ends_args s
    → parse_args fuel argc c (skip_space s) ≡ ok (c, skip_space s)
parse_args_skipped fuel argc c s l f =
    let e = skip_space-skip_space s in
    parse_args_none fuel argc c (skip_space s) l (rw e f) ∙ ap (λ r. ok (c, r)) e

words-Opens :
    (k1 k2 : ℕ) (ps ws : List (List ℕ)) (rest : List ℕ)
    → length ps + length ws < maxargs
    → All IsWord ws
    → Follows after_arg rest
    → length (print_words ws rest) < k1
    → length (print_words ws rest) < k2
    → Opens (exec (ps ++ ws)) rest (
        bind
          (parseredirs k1 (exec ps) (print_words ws rest))
          (λ (c, s). parse_args k2 (length ps) c s))
words-Opens k1 k2 ps [] rest l a f h1 h2 =
    subst
      (λ ws.
        Opens (exec ws) rest
          (bind (parseredirs k1 (exec ps) rest) (λ (c, s). parse_args k2 (length ps) c s)))
      (sym (append-nil ps))
      (record {
        fuel = k1;
        next = λ (c, s). parse_args k2 (length ps) c s;
        enough = h1;
        opens = refl;
        closes = λ d s f'. parse_args_skipped k2 (length ps) d s (omega arith) f';
      })
words-Opens k1 zero ps (w ∷ ws) rest l a f h1 h2 = absurd (omega arith)
words-Opens k1 (suc k2) ps (w ∷ ws) rest l (i, a) f h1 h2 =
    let r = print_words ws rest in
    let n : length (w ++ r) ≡ length w + length r = length-append w r in
    let n' : length (ps ++ (w ∷ [])) ≡ length ps + 1 = length-append ps (w ∷ []) in
    let o =
      words-Opens k2 k2 (ps ++ (w ∷ [])) ws rest (omega arith) a f (omega arith) (omega arith) in
    let step =
      word-step k1 k2 ps w r (32 ∷ (w ++ r)) (skip_space_word w r i) i
        (print_words-EndsWord ws rest f) (omega arith) h1 in
    subst
      (λ vs. Opens (exec vs) rest (
        bind (parseredirs k1 (exec ps) (32 ∷ (w ++ r)))
          (λ (c, s). parse_args (suc k2) (length ps) c s)))
      (append_assoc ps (w ∷ []) ws)
      (subst (Opens (exec ((ps ++ (w ∷ [])) ++ ws)) rest)
        (ap (λ n. bind (parseredirs k2 (exec (ps ++ (w ∷ []))) r) (λ (c, s). parse_args k2 n c s))
            n'
          ∙ sym step)
        o)

after_arg-opens : (c : ℕ) → after_arg c ≡ true → (c == b'(') ≡ false
unfolding is_redirection ends_args
after_arg-opens c h = ground arith

pub plain-opens : (c : ℕ) → is_symbol c ≡ false → (c == b'(') ≡ false
unfolding is_symbol
plain-opens c h = ground arith

print_words-plain :
    (ws : List (List ℕ)) (rest : List ℕ)
    → All IsWord ws
    → Follows after_arg rest
    → starts (λ c. c == b'(') (skip_space (print_words ws rest)) ≡ false
print_words-plain [] rest a f = Follows-starts after_arg (λ c. c == b'(') rest after_arg-opens f
print_words-plain (w ∷ ws) rest (i, a) f =
    rw (skip_space_word w (print_words ws rest) i)
      (starts-word (λ c. c == b'(') w (print_words ws rest) plain-opens i)

pub exec-ReadsExec :
    (ws : List (List ℕ))
    → length ws < maxargs
    → All IsWord ws
    → ReadsExec (print_words ws) (exec ws)
exec-ReadsExec ws l a fuel k rest f h h' =
    subst (Opens (exec ws) rest)
      (sym
        (parseexec_plain (parseline fuel) k (print_words ws rest) (print_words-plain ws rest a f)))
      (words-Opens k k [] ws rest (omega arith) a f h h)

print_redir-Follows :
    (file : List ℕ) (fd : ℕ) (rest : List ℕ) → Follows after_arg (print_redir file fd rest)
unfolding skip_space is_space is_redirection
print_redir-Follows file fd rest = elim (Bool-cases (fd == 0)) [
  | inl t ↦ rw t refl
  | inr t ↦ rw t refl
]

pub redir-ReadsExec :
    (p : List ℕ → List ℕ) (c : Cmd) (file : List ℕ) (mode fd : ℕ)
    → IsWord file
    → ((mode ≡ o_rdonly) × (fd ≡ 0)) ⊎ ((mode ≡ o_wronly_create) × (fd ≡ 1))
    → ReadsExec p c
    → ReadsExec (λ rest. p (print_redir file fd rest)) (redir c file mode fd)
redir-ReadsExec p c file mode fd i m reads fuel k rest f h h' =
    let o = reads fuel k (print_redir file fd rest) (print_redir-Follows file fd rest) h h' in
    record {
      fuel = o.fuel - 1;
      next = o.next;
      enough = omega (arith, o.enough, length-append file rest);
      opens =
          o.opens
          ∙ ap (λ r. bind r o.next) (parseredirs_one o.fuel c file mode fd rest i m f o.enough);
      closes = o.closes;
    }

bind-ok : (r : Parsed) → bind r ok ≡ r
bind-ok (ok a) = refl
bind-ok (panics e) = refl
bind-ok out_of_fuel = refl

closes-Follows : (rest : List ℕ) → Follows after_line (32 ∷ b')' ∷ rest)
unfolding skip_space is_space
closes-Follows rest = refl

parseexec_block :
    (fuel k : ℕ) (c : Cmd) (r rest : List ℕ)
    → parseline fuel r ≡ ok (c, skip_space (32 ∷ b')' ∷ rest))
    → parseexec (parseline fuel) k (32 ∷ b'(' ∷ r) ≡ parseredirs k c rest
unfolding parseexec parseblock is_symbol
parseexec_block fuel k c r rest e =
    rw
      (
        skip_space-skip_space (32 ∷ b'(' ∷ r),
        skip_space_symbol b'(' r refl,
        gettoken_symbol b'(' r refl refl,
        parseline-skip_space fuel r,
        e,
        skip_space-skip_space (32 ∷ b')' ∷ rest),
        skip_space_symbol b')' rest refl,
        gettoken_symbol b')' rest refl refl,
      )
      (parseredirs-skip_space k c rest)

-- A block of a command that reads as a line.
pub block-ReadsExec :
    (p : List ℕ → List ℕ) (c : Cmd) → Grows p → ReadsLine p c → ReadsExec (print_block p) c
block-ReadsExec p c g reads fuel k rest f h h' =
    let r = p (32 ∷ b')' ∷ rest) in
    let l = reads fuel (32 ∷ b')' ∷ rest) (closes-Follows rest) (omega arith) in
    record {
      fuel = k;
      next = ok;
      enough = omega (arith, g (32 ∷ b')' ∷ rest));
      opens = parseexec_block fuel k c r rest l ∙ sym (bind-ok (parseredirs k c rest));
      closes = λ d s f'. refl;
    }

ends_args-after_arg : (c : ℕ) → ends_args c ≡ true → after_arg c ≡ true
ends_args-after_arg c h = ground arith

-- Where nothing of the command follows, its parse is done.
pub ReadsExec-ends :
    (p : List ℕ → List ℕ) (c : Cmd) (fuel k : ℕ) (rest : List ℕ)
    → ReadsExec p c
    → Follows ends_args rest
    → length (p rest) < k
    → length (p rest) + 2 ≤ fuel
    → parseexec (parseline fuel) k (p rest) ≡ ok (c, skip_space rest)
ReadsExec-ends p c fuel k rest reads f h h' =
    let o =
      reads fuel k rest (Follows-weaken ends_args after_arg rest ends_args-after_arg f) h h' in
    o.opens
    ∙ ap (λ r. bind r o.next)
        (parseredirs_none o.fuel c rest o.enough
          (Follows-starts ends_args is_redirection rest ends_args-is_redirection f))
    ∙ o.closes c rest f
