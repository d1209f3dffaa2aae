-- ===== src/Xv6/Console/Tests.antt =====
-- Runs of the console's input.
use os_projects.Base.{ℕ, ◌<◌, ◌≡◌, false, List, [], ◌∷◌, All, arith}
use os_projects.Xv6.Console.{Console, consoleintr, consoleread}
use os_projects.Xv6.Console.Editing.{IsValid, line, edits, consoleintr-edits}
use os_projects.Xv6.Console.Reading.{Reads, consoleread_lem}

-- An empty ring whose counters are about to wrap.
abbrev empty : Console
empty = record {
  bytes = λ i. 0;
  r = 4294967294;
  w = 4294967294;
  e = 4294967294;
  out = [];
  wakeups = 0;
  dump = false;
}

empty-IsValid : IsValid empty
empty-IsValid = record {
  r_uint = omega arith;
  w_uint = omega arith;
  e_uint = omega arith;
  ordered = omega arith;
  fits = omega arith;
  no_newline = λ j a b. absurd (omega (arith, b));
}

-- "x", ^U, "ab", a backspace, "c" and a return.
abbrev keys : List ℕ
keys = b'x' ∷ 21 ∷ b'a' ∷ b'b' ∷ 8 ∷ b'c' ∷ 13 ∷ []

keys-bytes : All (λ c. c < 256) keys
keys-bytes = (
  omega arith,
  (omega arith, (omega arith, (omega arith, (omega arith, (omega arith, (omega arith, tt)))))),
)

consoleintr-edits_example :
    IsValid (consoleintr keys empty) × (line (consoleintr keys empty) ≡ edits keys (line empty))
consoleintr-edits_example = consoleintr-edits keys empty empty-IsValid keys-bytes

consoleread_lem_example :
    Reads false 100 100
      (consoleintr keys empty)
      (consoleread false 100 100 (consoleintr keys empty))
consoleread_lem_example =
    consoleread_lem false 100 100 (consoleintr keys empty)
      (consoleintr-edits keys empty empty-IsValid keys-bytes).0 (omega arith)
