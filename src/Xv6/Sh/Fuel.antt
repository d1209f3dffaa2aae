-- ===== src/Xv6/Sh/Fuel.antt =====
-- The rounds of the parser: each takes a character, so that `parsecmd` has enough of them.
use os_projects.Base.{
  ℕ, zero, suc, ◌+◌, ◌≤◌, ◌<◌, ◌≡◌, ◌≢◌, refl, Bool, true, false, not, ◌==◌, leb, if◌then◌else◌,
  List, [], ◌∷◌, length, arith,
}
use os_projects.Xv6.Sh.{
  Cmd, exec, pipe, list, back, SyntaxError, ok, panics, out_of_fuel, missing_file, syntax,
  too_many_args, missing_paren, parseblock_called, leftovers, Parsed, bind, maxargs, skip_space,
  gettoken, starts, is_redirection, ends_args, Token, at_end, symbol, append, word, with_word,
  is_end, redirected, parseredirs, add_arg, parse_args, parseblock, parseexec, parsepipe,
  parse_backs, parseline, parsecmd,
}
use os_projects.Xv6.Sh.Lex.{
  length-skip_space, length-gettoken, length-gettoken_lt, length-gettoken_ne,
}

-- A parse ends, with an error or with at most `n` characters left.
data Fits (n : ℕ) : Parsed → Type 0 where
  parsed : (c : Cmd) (s : List ℕ) → length s ≤ n → Fits n (ok (c, s))
  fails : (e : SyntaxError) → Fits n (panics e)

Fits-weaken : (m n : ℕ) (r : Parsed) → m ≤ n → Fits m r → Fits n r
Fits-weaken m n (ok (c, s)) l (parsed c' s' h) = parsed c s (omega arith)
Fits-weaken m n out_of_fuel l f = elim f [ ]
Fits-weaken m n (panics e) l (fails e') = fails e

Fits-bind :
    (m n : ℕ) (r : Parsed) (k : Cmd × List ℕ → Parsed)
    → Fits m r
    → ((c : Cmd) (s : List ℕ) → length s ≤ m → Fits n (k (c, s)))
    → Fits n (bind r k)
Fits-bind m n (ok (c, s)) k (parsed c' s' h) f = f c s h
Fits-bind m n (panics e) k (fails e') f = fails e
Fits-bind m n out_of_fuel k f g = elim f [ ]

Fits-with_word :
    (n : ℕ) (t : Token) (e : SyntaxError) (k : List ℕ → Parsed)
    → ((w : List ℕ) → Fits n (k w))
    → Fits n (with_word t e k)
Fits-with_word n at_end e k f = fails e
Fits-with_word n (symbol t) e k f = fails e
Fits-with_word n append e k f = fails e
Fits-with_word n (word w) e k f = f w

Fits-if :
    (n : ℕ) (b : Bool) (r r' : Parsed)
    → (b ≡ true → Fits n r)
    → (b ≡ false → Fits n r')
    → Fits n (if b then r else r')
Fits-if n true r r' f g = f refl
Fits-if n false r r' f g = g refl

parseredirs-Fits :
    (fuel : ℕ) (c : Cmd) (s : List ℕ) → length s < fuel → Fits (length s) (parseredirs fuel c s)
unfolding parseredirs
parseredirs-Fits zero c s h = absurd (omega arith)
parseredirs-Fits (suc fuel) c s h =
    let s1 = skip_space s in
    let s2 = (gettoken s1).1 in
    let s3 = (gettoken s2).1 in
    Fits-if (length s) (starts is_redirection s1) _ _
      (λ t.
        let l : length s3 < length s =
          omega (arith, length-gettoken_lt is_redirection s t, length-gettoken s2) in
        Fits-with_word (length s) (gettoken s2).0 missing_file _ (λ w.
          Fits-weaken (length s3) (length s) _ (omega arith)
            (parseredirs-Fits fuel (redirected (gettoken s1).0 w c) s3 (omega arith))))
      (λ t. parsed c s1 (length-skip_space s))

parse_args-Fits :
    (fuel argc : ℕ) (c : Cmd) (s : List ℕ)
    → length s < fuel
    → Fits (length s) (parse_args fuel argc c s)
unfolding parse_args
parse_args-Fits zero argc c s h = absurd (omega arith)
parse_args-Fits (suc fuel) argc c s h =
    let s1 = skip_space s in
    let s2 = (gettoken s1).1 in
    let l : length s2 ≤ length s = omega (arith, length-gettoken s1, length-skip_space s) in
    Fits-if (length s) (starts ends_args s1) _ _ (λ t. parsed c s1 (length-skip_space s))
      (λ t.
        Fits-if (length s) (is_end (gettoken s1).0) _ _ (λ u. parsed c s2 l)
          (λ u. Fits-with_word (length s) (gettoken s1).0 syntax _ (λ w.
            Fits-if (length s) (leb maxargs (argc + 1)) _ _ (λ v. fails too_many_args)
              (λ v.
                Fits-bind (length s2) (length s) (parseredirs fuel (add_arg w c) s2) _
                  (parseredirs-Fits fuel (add_arg w c) s2 (omega (arith, length-gettoken_ne s u)))
                  (λ d s3 l3. Fits-weaken (length s3) (length s) _ (omega arith) (
                    parse_args-Fits fuel (argc + 1) d s3
                      (omega (arith, length-gettoken_ne s u))))))))

parse_backs-Fits :
    (fuel : ℕ) (c : Cmd) (s : List ℕ) → length s < fuel → Fits (length s) (parse_backs fuel c s)
unfolding parse_backs
parse_backs-Fits zero c s h = absurd (omega arith)
parse_backs-Fits (suc fuel) c s h =
    let s1 = skip_space s in
    let s2 = (gettoken s1).1 in
    Fits-if (length s) (starts (λ c. c == b'&') s1) _ _
      (λ t.
        let l : length s2 < length s = length-gettoken_lt (λ c. c == b'&') s t in
        Fits-weaken (length s2) (length s) _ (omega arith)
          (parse_backs-Fits fuel (back c) s2 (omega arith)))
      (λ t. parsed c s1 (length-skip_space s))

-- `parseline` of the strings that a block or a list may call it for.
module _ (n : ℕ) (line : List ℕ → Parsed)
    (line-Fits : (s : List ℕ) → length s < n → Fits (length s) (line s)) where
  parseblock-Fits :
      (fuel : ℕ) (s : List ℕ)
      → length s ≤ n
      → length s < fuel
      → Fits (length s) (parseblock line fuel s)
  unfolding parseblock
  parseblock-Fits fuel s h h' =
      let s1 = skip_space s in
      let s2 = (gettoken s1).1 in
      Fits-if (length s) (not (starts (λ c. c == b'(') s1)) _ _ (λ t. fails parseblock_called)
        (λ t.
          let l : length s2 < length s = length-gettoken_lt (λ c. c == b'(') s (ground arith) in
          Fits-bind (length s2) (length s) (line s2) _ (line-Fits s2 (omega arith)) (λ c s3 l3.
            let s4 = skip_space s3 in
            let s5 = (gettoken s4).1 in
            let l5 : length s5 < length s =
              omega (arith, length-skip_space s3, length-gettoken s4) in
            Fits-if (length s) (not (starts (λ c. c == b')') s4)) _ _ (λ u. fails missing_paren)
              (λ u.
                Fits-weaken (length s5) (length s) _ (omega arith)
                  (parseredirs-Fits fuel c s5 (omega arith)))))

  parseexec-Fits :
      (fuel : ℕ) (s : List ℕ)
      → length s ≤ n
      → length s < fuel
      → Fits (length s) (parseexec line fuel s)
  unfolding parseexec
  parseexec-Fits fuel s h h' =
      let s1 = skip_space s in
      let l : length s1 ≤ length s = length-skip_space s in
      Fits-if (length s) (starts (λ c. c == b'(') s1) _ _
        (λ t.
          Fits-weaken (length s1) (length s) _ (omega arith)
            (parseblock-Fits fuel s1 (omega arith) (omega arith)))
        (λ t.
          Fits-bind (length s1) (length s) (parseredirs fuel (exec []) s1) _
            (parseredirs-Fits fuel (exec []) s1 (omega arith))
            (λ c s2 l2.
              Fits-weaken (length s2) (length s) _ (omega arith)
                (parse_args-Fits fuel 0 c s2 (omega arith))))

  parsepipe-Fits :
      (fuel : ℕ) (s : List ℕ)
      → length s ≤ n
      → length s + 1 < fuel
      → Fits (length s) (parsepipe line fuel s)
  unfolding parsepipe
  parsepipe-Fits zero s h h' = absurd (omega arith)
  parsepipe-Fits (suc fuel) s h h' =
      Fits-bind (length s) (length s) (parseexec line fuel s) _
        (parseexec-Fits fuel s h (omega arith))
        (λ c s1 l1.
          let s2 = skip_space s1 in
          let s3 = (gettoken s2).1 in
          let l2 : length s2 ≤ length s1 = length-skip_space s1 in
          Fits-if (length s) (starts (λ c. c == b'|') s2) _ _
            (λ t.
              let l3 : length s3 < length s1 = length-gettoken_lt (λ c. c == b'|') s1 t in
              Fits-bind (length s3) (length s) (parsepipe line fuel s3) _
                (parsepipe-Fits fuel s3 (omega arith) (omega arith))
                (λ d s4 l4. parsed (pipe c d) s4 (omega arith)))
            (λ t. parsed c s2 (omega arith)))

parseline-Fits : (fuel : ℕ) (s : List ℕ) → length s + 2 < fuel → Fits (length s) (parseline fuel s)
unfolding parseline
parseline-Fits zero s h = absurd (omega arith)
parseline-Fits (suc fuel) s h =
    Fits-bind (length s) (length s) (parsepipe (parseline fuel) fuel s) _
      (parsepipe-Fits (length s) (parseline fuel) (λ s' l. parseline-Fits fuel s' (omega arith))
        fuel s (omega arith) (omega arith))
      (λ c s1 l1.
        Fits-bind (length s1) (length s) (parse_backs fuel c s1) _
          (parse_backs-Fits fuel c s1 (omega arith))
          (λ c' s2 l2.
            let s3 = skip_space s2 in
            let s4 = (gettoken s3).1 in
            let l3 : length s3 ≤ length s2 = length-skip_space s2 in
            Fits-if (length s) (starts (λ c. c == b';') s3) _ _
              (λ t.
                let l4 : length s4 < length s2 = length-gettoken_lt (λ c. c == b';') s2 t in
                Fits-bind (length s4) (length s) (parseline fuel s4) _
                  (parseline-Fits fuel s4 (omega arith))
                  (λ d s5 l5. parsed (list c' d) s5 (omega arith)))
              (λ t. parsed c' s3 (omega arith))))

-- `parsecmd` ends for every line: it returns a command or panics.
pub parsecmd-ne-out_of_fuel : (s : List ℕ) → parsecmd s ≢ out_of_fuel
unfolding parsecmd
parsecmd-ne-out_of_fuel s =
    after (parseline (length s + 3) s) (parseline-Fits (length s + 3) s (omega arith))
  where
    ends :
        (s2 : List ℕ) (c : Cmd)
        → (if length s2 == 0 then ok c else panics (leftovers s2)) ≢ out_of_fuel
    ends [] c e = absurd (ground arith)
    ends (x ∷ xs) c e = absurd (ground arith)

    after :
        (r : Parsed)
        → Fits (length s) r
        → bind r (λ (c, s1).
          let s2 = skip_space s1 in if length s2 == 0 then ok c else panics (leftovers s2))
          ≢ out_of_fuel
    after (ok (c, s1)) f e = ends (skip_space s1) c e
    after (panics x) f e = absurd (ground arith)
    after out_of_fuel f e = elim f [ ]
