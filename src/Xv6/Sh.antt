-- ===== src/Xv6/Sh.antt =====
-- The parser of the shell, xv6/base/sh.c. A pointer into the command line is the list of the characters
-- from there up to the terminating 0, none of which is 0. A word is the list of its characters, where
-- the source has its two ends and `nulterminate` at last puts a 0 at the second. The parse functions
-- return the command with the characters that are left.
pub mod Lex
pub mod Fuel
pub mod Words
pub mod Printer
pub mod Steps
pub mod Commands
pub mod Lines
pub mod RoundTrip
pub mod Rejects
mod Tests
use os_projects.Base.{
  ℕ, zero, suc, ◌+◌, Bool, true, false, ◌||◌, not, ◌==◌, leb, if◌then◌else◌, List, [], ◌∷◌, ◌++◌,
  length,
}

-- The file of a redirection is opened with a mode, on a descriptor.
pub data Cmd : Type 0 where
  exec : List (List ℕ) → Cmd
  redir : Cmd → List ℕ → ℕ → ℕ → Cmd
  pipe : Cmd → Cmd → Cmd
  list : Cmd → Cmd → Cmd
  back : Cmd → Cmd

-- What the parser gives to `panic`: "missing file for redirection", "parseblock", "syntax - missing )",
-- "syntax" and "too many args", and "leftovers".
pub data SyntaxError : Type 0 where
  missing_file : SyntaxError
  parseblock_called : SyntaxError
  missing_paren : SyntaxError
  syntax : SyntaxError
  too_many_args : SyntaxError
  leftovers : List ℕ → SyntaxError

pub data Result {ℓ} (A : Type ℓ) : Type ℓ where
  ok : A → Result A
  panics : SyntaxError → Result A
  out_of_fuel : Result A

abbrev pub Parsed : Type 0
Parsed = Result (Cmd × List ℕ)

abbrev pub bind {ℓ κ} : {A : Type ℓ} {B : Type κ} → Result A → (A → Result B) → Result B
bind (ok a) k = k a
bind (panics e) k = panics e
bind out_of_fuel k = out_of_fuel

abbrev pub maxargs : ℕ
maxargs = 10

-- `strchr(whitespace, c)`: a space, a tab, a return, a newline and a vertical tab.
pub is_space : ℕ → Bool
is_space c = (c == 32) || ((c == 9) || ((c == 13) || ((c == 10) || (c == 11))))

-- `strchr(symbols, c)`
pub is_symbol : ℕ → Bool
is_symbol c =
    (c == b'<')
    || ((c == b'|')
        || ((c == b'>') || ((c == b'&') || ((c == b';') || ((c == b'(') || (c == b')'))))))

pub skip_space : List ℕ → List ℕ
skip_space [] = []
skip_space (c ∷ cs) = let rest = skip_space cs in if is_space c then rest else c ∷ cs

-- The characters up to a space or a symbol, and what follows.
pub take_word : List ℕ → List ℕ × List ℕ
take_word [] = ([], [])
take_word (c ∷ cs) =
    let (word, rest) = take_word cs in
    if is_space c || is_symbol c then ([], c ∷ cs) else (c ∷ word, rest)

-- What `gettoken` returns: `at_end` is 0, `symbol c` the character itself, `append` '+' and `word` 'a',
-- with the characters of the word.
pub data Token : Type 0 where
  at_end : Token
  symbol : ℕ → Token
  append : Token
  word : List ℕ → Token

-- The case of `gettoken` for '>', with the characters after it.
pub angle : List ℕ → Token × List ℕ
angle [] = (symbol b'>', [])
angle (c ∷ cs) = if c == b'>' then (append, cs) else (symbol b'>', c ∷ cs)

-- The switch of `gettoken`.
pub token_at : List ℕ → Token × List ℕ
token_at [] = (at_end, [])
token_at (c ∷ cs) =
    if c == b'>'
    then angle cs
    else if is_symbol c
    then (symbol c, cs)
    else (let (w, rest) = take_word (c ∷ cs) in (word w, rest))

pub gettoken : List ℕ → Token × List ℕ
gettoken s = let (t, rest) = token_at (skip_space s) in (t, skip_space rest)

-- The first character is there and passes a test.
abbrev pub starts : (ℕ → Bool) → List ℕ → Bool
starts test [] = false
starts test (c ∷ cs) = test c

-- `peek`, where the test is `strchr(toks, c)`.
abbrev pub peek : (ℕ → Bool) → List ℕ → Bool × List ℕ
peek test s = (starts test (skip_space s), skip_space s)

-- The sets "<>" and "|)&;" that `peek` is called with.
pub is_redirection : ℕ → Bool
is_redirection c = (c == b'<') || (c == b'>')

pub ends_args : ℕ → Bool
ends_args c = (c == b'|') || ((c == b')') || ((c == b'&') || (c == b';')))

-- O_RDONLY, and O_WRONLY | O_CREATE.
abbrev pub o_rdonly : ℕ
o_rdonly = 0

abbrev pub o_wronly_create : ℕ
o_wronly_create = 513

-- `if(tok != 'a') panic(e)`, and then `k` of the word.
abbrev pub with_word : Token → SyntaxError → (List ℕ → Parsed) → Parsed
with_word at_end e k = panics e
with_word (symbol t) e k = panics e
with_word append e k = panics e
with_word (word w) e k = k w

abbrev pub is_end : Token → Bool
is_end at_end = true
is_end (symbol t) = false
is_end append = false
is_end (word w) = false

-- The switch of `parseredirs`.
pub redirected : Token → List ℕ → Cmd → Cmd
redirected at_end file c = c
redirected (symbol t) file c =
    if t == b'<'
    then redir c file o_rdonly 0
    else if t == b'>'
    then redir c file o_wronly_create 1
    else c
redirected append file c = redir c file o_wronly_create 1
redirected (word w) file c = c

pub parseredirs : ℕ → Cmd → List ℕ → Parsed
parseredirs zero c s = out_of_fuel
parseredirs (suc fuel) c s =
    let (found, s1) = peek is_redirection s in
    let (tok, s2) = gettoken s1 in
    let (file, s3) = gettoken s2 in
    if found
    then with_word file missing_file (λ w. parseredirs fuel (redirected tok w c) s3)
    else ok (c, s1)

-- `argv` of the `execcmd` that `parseexec` made gets a word; the redirections stand above it.
pub add_arg : List ℕ → Cmd → Cmd
add_arg w (exec ws) = exec (ws ++ (w ∷ []))
add_arg w (redir c file mode fd) = redir (add_arg w c) file mode fd
add_arg w (pipe c d) = pipe c d
add_arg w (list c d) = list c d
add_arg w (back c) = back c

-- The loop of `parseexec`, after `argc` words.
pub parse_args : ℕ → ℕ → Cmd → List ℕ → Parsed
parse_args zero argc c s = out_of_fuel
parse_args (suc fuel) argc c s =
    let (ended, s1) = peek ends_args s in
    let (tok, s2) = gettoken s1 in
    let round = λ (w : List ℕ).
      bind (parseredirs fuel (add_arg w c) s2) (λ (d, s3). parse_args fuel (argc + 1) d s3) in
    if ended
    then ok (c, s1)
    else if is_end tok
    then ok (c, s2)
    else with_word tok syntax
        (λ w. if leb maxargs (argc + 1) then panics too_many_args else round w)

-- `parseblock`, where `line` is `parseline`.
pub parseblock : (List ℕ → Parsed) → ℕ → List ℕ → Parsed
parseblock line fuel s =
    let (opened, s1) = peek (λ c. c == b'(') s in
    if not opened
    then panics parseblock_called
    else bind (line (gettoken s1).1) (λ (c, s2).
      let (closed, s3) = peek (λ c. c == b')') s2 in
      if not closed then panics missing_paren else parseredirs fuel c (gettoken s3).1)

pub parseexec : (List ℕ → Parsed) → ℕ → List ℕ → Parsed
parseexec line fuel s =
    let (opened, s1) = peek (λ c. c == b'(') s in
    if opened
    then parseblock line fuel s1
    else bind (parseredirs fuel (exec []) s1) (λ (c, s2). parse_args fuel 0 c s2)

pub parsepipe : (List ℕ → Parsed) → ℕ → List ℕ → Parsed
parsepipe line zero s = out_of_fuel
parsepipe line (suc fuel) s = bind (parseexec line fuel s) (λ (c, s1).
    let (more, s2) = peek (λ c. c == b'|') s1 in
    let rest = bind (parsepipe line fuel (gettoken s2).1) (λ (d, s3). ok (pipe c d, s3)) in
    if more then rest else ok (c, s2))

-- The loop of `parseline` over each '&'.
pub parse_backs : ℕ → Cmd → List ℕ → Parsed
parse_backs zero c s = out_of_fuel
parse_backs (suc fuel) c s =
    let (more, s1) = peek (λ c. c == b'&') s in
    let rest = parse_backs fuel (back c) (gettoken s1).1 in if more then rest else ok (c, s1)

-- A call from inside a block or after a ';' has one round less.
pub parseline : ℕ → List ℕ → Parsed
parseline zero s = out_of_fuel
parseline (suc fuel) s = bind (parsepipe (parseline fuel) fuel s) (λ (c, s1).
    bind (parse_backs fuel c s1) (λ (c', s2).
      let (more, s3) = peek (λ c. c == b';') s2 in
      let rest = bind (parseline fuel (gettoken s3).1) (λ (d, s4). ok (list c' d, s4)) in
      if more then rest else ok (c', s3)))

-- `parsecmd`, in which each round takes a character.
pub parsecmd : List ℕ → Result Cmd
parsecmd s =
    bind (parseline (length s + 3) s)
      (λ (c, s1). let s2 = skip_space s1 in if length s2 == 0 then ok c else panics (leftovers s2))
