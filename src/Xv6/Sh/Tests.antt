-- ===== src/Xv6/Sh/Tests.antt =====
-- Runs of the parser.
use os_projects.Base.{ℕ, zero, suc, ◌≡◌, ◌≢◌, refl, inr, false, List, [], ◌∷◌, arith}
use os_projects.Xv6.Sh.Words.{IsWord, EndsWord}
use os_projects.Xv6.Sh.Printer.{print, IsPrintable}
use os_projects.Xv6.Sh.RoundTrip.{parsecmd-print}
use os_projects.Xv6.Sh.Rejects.{StartsWords, parsecmd-StartsWords}
use os_projects.Xv6.Sh.Fuel.{parsecmd-ne-out_of_fuel}
use os_projects.Xv6.Sh.{
  Cmd, exec, redir, pipe, list, back, ok, panics, too_many_args, out_of_fuel, parsecmd, is_space,
  is_symbol, is_redirection, ends_args, skip_space, take_word, angle, token_at, gettoken,
  redirected, parseredirs, add_arg, parse_args, parseblock, parseexec, parsepipe, parse_backs,
  parseline,
}

-- "a b>f|(c;d)&"
abbrev line : List ℕ
line = b'a' ∷ 32 ∷ b'b' ∷ b'>' ∷ b'f' ∷ b'|' ∷ b'(' ∷ b'c' ∷ b';' ∷ b'd' ∷ b')' ∷ b'&' ∷ []

parsecmd_run :
    parsecmd line
    ≡ ok (
        back (
          pipe
            (redir (exec ((b'a' ∷ []) ∷ (b'b' ∷ []) ∷ [])) (b'f' ∷ []) 513 1)
            (list (exec ((b'c' ∷ []) ∷ [])) (exec ((b'd' ∷ []) ∷ [])))))
unfolding is_space is_symbol is_redirection ends_args parsecmd skip_space take_word angle token_at
    gettoken redirected parseredirs add_arg parse_args parseblock parseexec parsepipe parse_backs
    parseline
parsecmd_run = refl

-- "( c ; d )", "a b > f | ( c ; d ) &"
abbrev command : Cmd
command = back (
    pipe (redir (exec ((b'a' ∷ []) ∷ (b'b' ∷ []) ∷ [])) (b'f' ∷ []) 513 1)
      (list (exec ((b'c' ∷ []) ∷ [])) (exec ((b'd' ∷ []) ∷ []))))

letter : (c : ℕ) → is_space c ≡ false → is_symbol c ≡ false → IsWord (c ∷ [])
letter c s y = (omega arith, ((s, y), tt))

command-IsPrintable : IsPrintable command
unfolding is_space is_symbol
command-IsPrintable =
    let a : IsWord (b'a' ∷ []) = letter b'a' refl refl in
    let b : IsWord (b'b' ∷ []) = letter b'b' refl refl in
    let c : IsWord (b'c' ∷ []) = letter b'c' refl refl in
    let d : IsWord (b'd' ∷ []) = letter b'd' refl refl in
    let f : IsWord (b'f' ∷ []) = letter b'f' refl refl in
    (
      ((omega arith, (a, (b, tt))), (f, inr (refl, refl))),
      ((omega arith, (c, tt)), (omega arith, (d, tt))),
    )

parsecmd-print_example : parsecmd (print command 0 (32 ∷ 10 ∷ [])) ≡ ok command
unfolding skip_space is_space
parsecmd-print_example = parsecmd-print command (32 ∷ 10 ∷ []) command-IsPrintable refl

parsecmd-ne-out_of_fuel_example : parsecmd line ≢ out_of_fuel
parsecmd-ne-out_of_fuel_example = parsecmd-ne-out_of_fuel line

-- A number of times a blank and "b", with "&" after them.
abbrev bs : ℕ → List ℕ
bs zero = b'&' ∷ []
bs (suc n) = 32 ∷ b'b' ∷ bs n

-- "a\t b b b b b b b b b&", with no blank in front
abbrev ten : List ℕ
ten = b'a' ∷ 9 ∷ bs 9

bs-EndsWord : (n : ℕ) → EndsWord (bs n)
unfolding is_space is_symbol
bs-EndsWord zero = refl
bs-EndsWord (suc n) = refl

bs-StartsWords : (n : ℕ) → StartsWords n (bs n)
unfolding is_space is_symbol skip_space
bs-StartsWords zero = tt
bs-StartsWords (suc n) =
    (b'b' ∷ [], bs n, refl, letter b'b' refl refl, bs-EndsWord n, bs-StartsWords n)

ten-StartsWords : StartsWords 10 ten
unfolding is_space is_symbol skip_space
ten-StartsWords =
    let b : StartsWords 9 (9 ∷ bs 9) =
      (b'b' ∷ [], bs 8, refl, letter b'b' refl refl, bs-EndsWord 8, bs-StartsWords 8) in
    (b'a' ∷ [], 9 ∷ bs 9, refl, letter b'a' refl refl, refl, b)

parsecmd-StartsWords_example : parsecmd ten ≡ panics too_many_args
parsecmd-StartsWords_example = parsecmd-StartsWords 10 ten (omega arith) ten-StartsWords
