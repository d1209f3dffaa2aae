-- ===== src/Xv6/Console.antt =====
-- The input and output of lines of xv6/base/console.c: `input`, the ring that the interrupt handler edits and
-- `consoleread` takes lines from. A call runs under `cons.lock`, and `consoleread` is cut where it sleeps.
-- `getc`, the keyboard or the serial line, is the list of the characters that it returns up to -1.
pub mod Editing
pub mod Reading
pub mod Output
mod Tests
use os_projects.Base.{
  ℕ, zero, suc, ◌+◌, ◌-◌, ◌%◌, ◌<◌, ltb, leb, Bool, true, false, not, ◌&&◌, ◌||◌, ◌==◌,
  if◌then◌else◌, List, [], ◌∷◌, update,
}
use os_projects.Ring.{uint_mod, distance}

abbrev pub input_buf : ℕ
input_buf = 128

-- `BACKSPACE`
abbrev pub backspace : ℕ
backspace = 256

-- `input`, with the characters given to `consputc` and the number of calls of `wakeup`, and whether
-- `procdump` is to be called.
pub record Console : Type 0 where
  pub bytes : ℕ → ℕ
  pub r : ℕ
  pub w : ℕ
  pub e : ℕ
  pub out : List ℕ
  pub wakeups : ℕ
  pub dump : Bool

pub consputc : ℕ → Console → Console
consputc c s = record s { out = c ∷ s.out }

-- `input.e - 1`, of a uint.
abbrev pub before : ℕ → ℕ
before e = (e + uint_mod - 1) % uint_mod

pub erase : Console → Console
erase s = consputc backspace (record s { e = before s.e })

-- The loop that kills the line. The ring has INPUT_BUF characters, so that as many rounds are enough.
pub kill_line : ℕ → Console → Console
kill_line zero s = s
kill_line (suc fuel) s =
    let rest = kill_line fuel (erase s) in
    if s.e == s.w || (s.bytes (before s.e % input_buf) == 10) then s else rest

-- A character that is put at the end of the line, `c` not being '\r'.
pub put : ℕ → Console → Console
put c s =
    let t =
      consputc c (record s {
        bytes = update s.bytes (s.e % input_buf) (c % 256);
        e = (s.e + 1) % uint_mod;
      }) in
    if (c == 10) || ((c == 4) || (t.e == ((t.r + input_buf) % uint_mod)))
    then record t { w = t.e; wakeups = t.wakeups + 1 }
    else t

-- One round of the loop of `consoleintr`.
pub intr : ℕ → Console → Console
intr c s =
    if c == 16
    then record s { dump = true }
    else if c == 21
    then kill_line input_buf s
    else if (c == 8) || (c == 127)
    then (if s.e == s.w then s else erase s)
    else if not (c == 0) && ltb (distance s.r s.e) input_buf
    then put (if c == 13 then 10 else c) s
    else s

pub intr_chars : List ℕ → Console → Console
intr_chars [] s = s
intr_chars (c ∷ cs) s = intr_chars cs (intr c s)

-- `consoleintr`, up to the call of `procdump` when the flag is set at the end.
pub consoleintr : List ℕ → Console → Console
consoleintr cs s = intr_chars cs (record s { dump = false })

-- What a piece of `consoleread` ends in: the return of -1, a sleep on `&input.r` with `n` bytes to go, or the
-- return of `target - n`; with the bytes that it has put at `dst` from there on.
pub data Read : Type 0 where
  fails : List ℕ → Console → Read
  sleeps : List ℕ → ℕ → Console → Read
  returns : List ℕ → ℕ → Console → Read

abbrev pub onto : ℕ → Read → Read
onto c (fails cs s) = fails (c ∷ cs) s
onto c (sleeps cs n s) = sleeps (c ∷ cs) n s
onto c (returns cs n s) = returns (c ∷ cs) n s

-- The loop of `consoleread` with `n` bytes to go; it goes on from a wakeup in the same way.
pub consoleread : Bool → ℕ → ℕ → Console → Read
consoleread killed target zero s = returns [] target s
consoleread killed target (suc n) s =
    let c = s.bytes (s.r % input_buf) in
    let t = record s { r = (s.r + 1) % uint_mod } in
    let rest = onto c (consoleread killed target n t) in
    if s.r == s.w
    then if killed then fails [] s else sleeps [] (suc n) s
    else if c == 4
    then if ltb (suc n) target
      then returns [] (target - suc n) (record t { r = before t.r })
      else returns [] (target - suc n) t
    else if c == 10
    then returns (c ∷ []) (target - n) t
    else rest

pub consolewrite : List ℕ → Console → Console
consolewrite [] s = s
consolewrite (c ∷ cs) s = consolewrite cs (consputc (c % 256) s)
