-- ===== src/Xv6/Sh/Lines.antt =====
-- The parse of pipes, of pipes with '&' after them, and of lines.
use os_projects.Base.{
  ℕ, zero, suc, ◌+◌, ◌-◌, ◌≤◌, ◌<◌, ◌≡◌, refl, sym, ap, ◌∙◌, true, false, ◌==◌, if◌then◌else◌, List,
  ◌∷◌, length, arith,
}
use os_projects.Xv6.Sh.{
  Cmd, pipe, list, back, ok, panics, out_of_fuel, Parsed, bind, is_space, is_symbol, skip_space,
  gettoken, peek, ends_args, parsepipe, parse_backs, parseline,
}
use os_projects.Xv6.Sh.Lex.{skip_space-skip_space}
use os_projects.Xv6.Sh.Words.{Follows, Follows-weaken, Follows-starts}
use os_projects.Xv6.Sh.Printer.{Grows}
use os_projects.Xv6.Sh.Steps.{
  parsepipe-skip_space, parseline-skip_space, parse_backs-skip_space, after_pipe, after_backs,
  after_line, skip_space_symbol, gettoken_symbol, suc-pred,
}
use os_projects.Xv6.Sh.Commands.{ReadsExec, ReadsLine, ReadsExec-ends}

abbrev pub ReadsPipe : (List ℕ → List ℕ) → Cmd → Type 0
ReadsPipe p c =
    (fuel k : ℕ) (rest : List ℕ)
    → Follows after_pipe rest
    → length (p rest) + 2 ≤ k
    → length (p rest) + 2 ≤ fuel
    → parsepipe (parseline fuel) k (p rest) ≡ ok (c, skip_space rest)

abbrev then_backs : ℕ → ℕ → List ℕ → Parsed
then_backs fuel k s = bind (parsepipe (parseline fuel) k s) (λ (c, s1). parse_backs k c s1)

abbrev pub ReadsBacks : (List ℕ → List ℕ) → Cmd → Type 0
ReadsBacks p c =
    (fuel k : ℕ) (rest : List ℕ)
    → Follows after_pipe rest
    → length (p rest) + 2 ≤ k
    → length (p rest) + 2 ≤ fuel
    → (j : ℕ) × (length rest < j) × (then_backs fuel k (p rest) ≡ parse_backs j c rest)

after_pipe-ends_args : (c : ℕ) → after_pipe c ≡ true → ends_args c ≡ true
unfolding ends_args
after_pipe-ends_args c h = ground arith

after_pipe-bar : (c : ℕ) → after_pipe c ≡ true → (c == b'|') ≡ false
after_pipe-bar c h = ground arith

after_backs-after_pipe : (c : ℕ) → after_backs c ≡ true → after_pipe c ≡ true
after_backs-after_pipe c h = ground arith

after_backs-and : (c : ℕ) → after_backs c ≡ true → (c == b'&') ≡ false
after_backs-and c h = ground arith

after_line-after_backs : (c : ℕ) → after_line c ≡ true → after_backs c ≡ true
after_line-after_backs c h = ground arith

after_line-semi : (c : ℕ) → after_line c ≡ true → (c == b';') ≡ false
after_line-semi c h = ground arith

bar-Follows : (rest : List ℕ) → Follows ends_args (32 ∷ b'|' ∷ rest)
unfolding skip_space is_space ends_args
bar-Follows rest = refl

and-Follows : (rest : List ℕ) → Follows after_pipe (32 ∷ b'&' ∷ rest)
unfolding skip_space is_space
and-Follows rest = refl

semi-Follows : (rest : List ℕ) → Follows after_backs (32 ∷ b';' ∷ rest)
unfolding skip_space is_space
semi-Follows rest = refl

-- A command of a pipe, without a pipe after it.
pub exec-ReadsPipe : (p : List ℕ → List ℕ) (c : Cmd) → ReadsExec p c → ReadsPipe p c
unfolding parsepipe
exec-ReadsPipe p c reads fuel zero rest f h h' = absurd (omega arith)
exec-ReadsPipe p c reads fuel (suc k) rest f h h' =
    rw
      (
        ReadsExec-ends p c fuel k rest reads
            (Follows-weaken after_pipe ends_args rest after_pipe-ends_args f) (omega arith) h',
        skip_space-skip_space rest,
        Follows-starts after_pipe (λ c. c == b'|') rest after_pipe-bar f,
      )
      refl

pub pipe-ReadsPipe :
    (p q : List ℕ → List ℕ) (c d : Cmd)
    → Grows p
    → ReadsExec p c
    → ReadsPipe q d
    → ReadsPipe (λ r. p (32 ∷ b'|' ∷ q r)) (pipe c d)
unfolding parsepipe is_symbol
pipe-ReadsPipe p q c d g reads reads' fuel zero rest f h h' = absurd (omega arith)
pipe-ReadsPipe p q c d g reads reads' fuel (suc k) rest f h h' =
    let grown = g (32 ∷ b'|' ∷ q rest) in
    rw
      (
        ReadsExec-ends p c fuel k (32 ∷ b'|' ∷ q rest) reads (bar-Follows (q rest)) (omega arith)
            h',
        skip_space-skip_space (32 ∷ b'|' ∷ q rest),
        skip_space_symbol b'|' (q rest) refl,
        gettoken_symbol b'|' (q rest) refl refl,
        parsepipe-skip_space (parseline fuel) k (q rest),
        reads' fuel k rest f (omega arith) (omega arith),
      )
      refl

pub pipe-ReadsBacks : (p : List ℕ → List ℕ) (c : Cmd) → Grows p → ReadsPipe p c → ReadsBacks p c
pipe-ReadsBacks p c g reads fuel k rest f h h' = (
  k,
  omega (arith, g rest),
  ap (λ r. bind r (λ (c, s1). parse_backs k c s1)) (reads fuel k rest f h h')
      ∙ parse_backs-skip_space k c rest,
)

parse_backs_one :
    (fuel : ℕ) (c : Cmd) (rest : List ℕ)
    → 0 < fuel
    → parse_backs fuel c (32 ∷ b'&' ∷ rest) ≡ parse_backs (fuel - 1) (back c) rest
unfolding parse_backs is_symbol
parse_backs_one zero c rest l = absurd (omega arith)
parse_backs_one (suc fuel) c rest l =
    rw (skip_space_symbol b'&' rest refl, gettoken_symbol b'&' rest refl refl)
      (parse_backs-skip_space fuel (back c) rest
        ∙ ap (λ k. parse_backs k (back c) rest) (suc-pred fuel))

parse_backs_none :
    (fuel : ℕ) (c : Cmd) (rest : List ℕ)
    → 0 < fuel
    → Follows after_backs rest
    → parse_backs fuel c rest ≡ ok (c, skip_space rest)
unfolding parse_backs
parse_backs_none zero c rest l f = absurd (omega arith)
parse_backs_none (suc fuel) c rest l f =
    rw (Follows-starts after_backs (λ c. c == b'&') rest after_backs-and f) refl

pub back-ReadsBacks :
    (p : List ℕ → List ℕ) (c : Cmd) → ReadsBacks p c → ReadsBacks (λ r. p (32 ∷ b'&' ∷ r)) (back c)
back-ReadsBacks p c reads fuel k rest f h h' =
    let (j, l, e) = reads fuel k (32 ∷ b'&' ∷ rest) (and-Follows rest) h h' in
    (j - 1, omega (arith, l), e ∙ parse_backs_one j c rest (omega arith))

bind-bind :
    (r : Parsed) (f g : Cmd × List ℕ → Parsed) → bind (bind r f) g ≡ bind r (λ a. bind (f a) g)
bind-bind (ok a) f g = refl
bind-bind (panics e) f g = refl
bind-bind out_of_fuel f g = refl

-- The rest of `parseline` after its first loop.
abbrev then_list : ℕ → Cmd × List ℕ → Parsed
then_list fuel (c, s2) =
    let (more, s3) = peek (λ c. c == b';') s2 in
    let rest = bind (parseline fuel (gettoken s3).1) (λ (d, s4). ok (list c d, s4)) in
    if more then rest else ok (c, s3)

-- `parseline` up to the end of its first loop.
line-backs :
    (p : List ℕ → List ℕ) (c : Cmd) (fuel : ℕ) (rest : List ℕ)
    → ReadsBacks p c
    → Follows after_backs rest
    → length (p rest) + 2 ≤ fuel
    → parseline (suc fuel) (p rest) ≡ then_list fuel (c, skip_space rest)
unfolding parseline
line-backs p c fuel rest reads f h =
    let (j, l, e) =
      reads fuel fuel rest (Follows-weaken after_backs after_pipe rest after_backs-after_pipe f) h
        h in
    sym (
      bind-bind (parsepipe (parseline fuel) fuel (p rest)) (λ (c, s1). parse_backs fuel c s1)
        (then_list fuel))
    ∙ ap (λ r. bind r (then_list fuel)) (e ∙ parse_backs_none j c rest (omega arith) f)

pub backs-ReadsLine : (p : List ℕ → List ℕ) (c : Cmd) → ReadsBacks p c → ReadsLine p c
backs-ReadsLine p c reads zero rest f h = absurd (omega arith)
backs-ReadsLine p c reads (suc fuel) rest f h =
    line-backs p c fuel rest reads
      (Follows-weaken after_line after_backs rest after_line-after_backs f) (omega arith)
    ∙ rw
        (
          skip_space-skip_space rest,
          Follows-starts after_line (λ c. c == b';') rest after_line-semi f,
        )
        refl

pub list-ReadsLine :
    (p q : List ℕ → List ℕ) (c d : Cmd)
    → Grows p
    → ReadsBacks p c
    → ReadsLine q d
    → ReadsLine (λ r. p (32 ∷ b';' ∷ q r)) (list c d)
unfolding is_symbol
list-ReadsLine p q c d g reads reads' zero rest f h = absurd (omega arith)
list-ReadsLine p q c d g reads reads' (suc fuel) rest f h =
    let grown = g (32 ∷ b';' ∷ q rest) in
    line-backs p c fuel (32 ∷ b';' ∷ q rest) reads (semi-Follows (q rest)) (omega arith)
    ∙ rw
        (
          skip_space-skip_space (32 ∷ b';' ∷ q rest),
          skip_space_symbol b';' (q rest) refl,
          gettoken_symbol b';' (q rest) refl refl,
          parseline-skip_space fuel (q rest),
          reads' fuel rest f (omega arith),
        )
        refl
