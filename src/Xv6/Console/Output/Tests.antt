-- ===== src/Xv6/Console/Output/Tests.antt =====
-- Runs of the output.
use os_projects.Base.{◌+◌, ◌<◌, ◌≡◌, refl, true, [], ◌∷◌, length, some, if◌then◌else◌, arith}
use os_projects.Xv6.Console.Output.{
  digits_of, buf_size, is_negative, magnitude, printint, num, convert, cprintf,
}
use os_projects.Xv6.Console.Output.Printint.{int_of, int_of-printint}

-- "n %d%%" of -12
cprintf_run :
    cprintf (b'n' ∷ 32 ∷ b'%' ∷ b'd' ∷ b'%' ∷ b'%' ∷ []) (num 4294967284 ∷ [])
    ≡ some (b'n' ∷ 32 ∷ b'-' ∷ b'1' ∷ b'2' ∷ b'%' ∷ [])
unfolding cprintf convert printint digits_of
cprintf_run = refl

int_of-printint_example :
    (int_of (printint 4294967284 10 true) ≡ 4294967284)
    × (length (digits_of buf_size 10 (magnitude 4294967284 true))
          + (if is_negative 4294967284 true then 1 else 0)
        < buf_size)
int_of-printint_example = int_of-printint 4294967284 (omega arith)
