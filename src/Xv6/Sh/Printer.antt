-- ===== src/Xv6/Sh/Printer.antt =====
-- A printer of commands, against which the parser is read.
use os_projects.Base.{
  ℕ, ◌≤◌, ◌<◌, ◌≡◌, ◌⊎◌, Bool, true, false, ◌==◌, ltb, if◌then◌else◌, List, [], ◌∷◌, ◌++◌, length,
  length-append, All, arith,
}
use os_projects.Xv6.Sh.{Cmd, exec, redir, pipe, list, back, maxargs, o_rdonly, o_wronly_create}
use os_projects.Xv6.Sh.Words.{IsWord}

-- Every printer puts its text in front of what is to follow.
abbrev pub print_words : List (List ℕ) → List ℕ → List ℕ
print_words [] rest = rest
print_words (w ∷ ws) rest = 32 ∷ (w ++ print_words ws rest)

abbrev pub print_redir : List ℕ → ℕ → List ℕ → List ℕ
print_redir file fd rest = 32 ∷ (if fd == 0 then b'<' else b'>') ∷ 32 ∷ (file ++ rest)

abbrev pub print_block : (List ℕ → List ℕ) → List ℕ → List ℕ
print_block p rest = 32 ∷ b'(' ∷ p (32 ∷ b')' ∷ rest)

-- A command where the grammar has, by the level, 0: a line, 1: a pipe with '&' after it, 2: a pipe, or
-- 3: one command of a pipe. Where a command stands for which there is no place, it is put in a block.
abbrev pub print : Cmd → ℕ → List ℕ → List ℕ
print (exec ws) level rest = print_words ws rest
print (redir c file mode fd) level rest = print c 3 (print_redir file fd rest)
print (pipe c d) level rest =
    let p = λ (r : List ℕ). print c 3 (32 ∷ b'|' ∷ print d 2 r) in
    if ltb 2 level then print_block p rest else p rest
print (list c d) level rest =
    let p = λ (r : List ℕ). print c 1 (32 ∷ b';' ∷ print d 0 r) in
    if ltb 0 level then print_block p rest else p rest
print (back c) level rest =
    let p = λ (r : List ℕ). print c 1 (32 ∷ b'&' ∷ r) in
    if ltb 1 level then print_block p rest else p rest

-- The commands that some line stands for: fewer than MAXARGS arguments, words as arguments and files,
-- and the modes and descriptors of '<' and '>'.
abbrev pub IsPrintable : Cmd → Type 0
IsPrintable (exec ws) = (length ws < maxargs) × All IsWord ws
IsPrintable (redir c file mode fd) =
    IsPrintable c
    × (IsWord file × (((mode ≡ o_rdonly) × (fd ≡ 0)) ⊎ ((mode ≡ o_wronly_create) × (fd ≡ 1))))
IsPrintable (pipe c d) = IsPrintable c × IsPrintable d
IsPrintable (list c d) = IsPrintable c × IsPrintable d
IsPrintable (back c) = IsPrintable c

abbrev pub Grows : (List ℕ → List ℕ) → Type 0
Grows p = (rest : List ℕ) → length rest ≤ length (p rest)

pub print_words-Grows : (ws : List (List ℕ)) → Grows (print_words ws)
print_words-Grows [] rest = omega arith
print_words-Grows (w ∷ ws) rest =
    omega (arith, length-append w (print_words ws rest), print_words-Grows ws rest)

block-Grows :
    (p : List ℕ → List ℕ) (b : Bool)
    → Grows p
    → Grows (λ rest. if b then print_block p rest else p rest)
block-Grows p true g rest = omega (arith, g (32 ∷ b')' ∷ rest))
block-Grows p false g rest = g rest

pub print-Grows : (c : Cmd) (level : ℕ) → Grows (print c level)
print-Grows (exec ws) level = print_words-Grows ws
print-Grows (redir c file mode fd) level =
    λ rest. omega (arith, print-Grows c 3 (print_redir file fd rest), length-append file rest)
print-Grows (pipe c d) level =
    block-Grows (λ r. print c 3 (32 ∷ b'|' ∷ print d 2 r)) (ltb 2 level)
      (λ r. omega (arith, print-Grows c 3 (32 ∷ b'|' ∷ print d 2 r), print-Grows d 2 r))
print-Grows (list c d) level =
    block-Grows (λ r. print c 1 (32 ∷ b';' ∷ print d 0 r)) (ltb 0 level)
      (λ r. omega (arith, print-Grows c 1 (32 ∷ b';' ∷ print d 0 r), print-Grows d 0 r))
print-Grows (back c) level =
    block-Grows (λ r. print c 1 (32 ∷ b'&' ∷ r)) (ltb 1 level)
      (λ r. omega (arith, print-Grows c 1 (32 ∷ b'&' ∷ r)))
