-- ===== src/Xv6/Console/Output.antt =====
-- `printint` and `cprintf` of xv6/base/console.c: the characters that they give to `consputc`, in order. A number is
-- its 32-bit pattern.
pub mod Digits
pub mod Printint
mod Tests
use os_projects.Base.{
  ℕ, zero, suc, ◌+◌, ◌-◌, ◌*◌, ◌/◌, ◌%◌, ◌^◌, leb, Bool, true, false, ◌&&◌, ◌||◌, ◌==◌,
  if◌then◌else◌, List, [], ◌∷◌, ◌++◌, map, Option, none, some, get_or,
}
use mathlib.Core.List.{reverse}

-- `digits`, the string "0123456789abcdef".
abbrev pub hex : List ℕ
hex = 48 ∷ 49 ∷ 50 ∷ 51 ∷ 52 ∷ 53 ∷ 54 ∷ 55 ∷ 56 ∷ 57 ∷ 97 ∷ 98 ∷ 99 ∷ 100 ∷ 101 ∷ 102 ∷ []

-- The loop that divides by the base: the digits in `buf`, the last of the number first.
pub digits_of : ℕ → ℕ → ℕ → List ℕ
digits_of zero base x = []
digits_of (suc fuel) base x =
    let rest = digits_of fuel base (x / base) in x % base ∷ (if x / base == 0 then [] else rest)

-- `buf` has room for 16 characters.
abbrev pub buf_size : ℕ
buf_size = 16

abbrev pub is_negative : ℕ → Bool → Bool
is_negative xx sign = sign && leb (2 ^ 31) xx

abbrev pub magnitude : ℕ → Bool → ℕ
magnitude xx sign = if is_negative xx sign then 2 ^ 32 - xx else xx

pub printint : ℕ → ℕ → Bool → List ℕ
printint xx base sign = reverse (
    map (λ d. get_or hex d 0) (digits_of buf_size base (magnitude xx sign))
    ++ (if is_negative xx sign then b'-' ∷ [] else []))

-- What stands on the stack for a conversion: a number, or a string, which may be null.
pub data Arg : Type 0 where
  num : ℕ → Arg
  str : Option (List ℕ) → Arg

-- "(null)"
abbrev pub null_text : List ℕ
null_text = 40 ∷ 110 ∷ 117 ∷ 108 ∷ 108 ∷ 41 ∷ []

-- What a conversion prints, and the arguments that it leaves; `none` if there is no argument for it.
pub convert : ℕ → List Arg → Option (List ℕ × List Arg)
convert c [] =
    if c == b'%'
    then some (b'%' ∷ [], [])
    else if (c == b'd') || ((c == b'x') || ((c == b'p') || (c == b's')))
    then none
    else some (b'%' ∷ c ∷ [], [])
convert c (num n ∷ args) =
    if c == b'd'
    then some (printint n 10 true, args)
    else if (c == b'x') || (c == b'p')
    then some (printint n 16 false, args)
    else if c == b's'
    then none
    else if c == b'%'
    then some (b'%' ∷ [], num n ∷ args)
    else some (b'%' ∷ c ∷ [], num n ∷ args)
convert c (str s ∷ args) =
    if c == b's'
    then some (elim s [ none ↦ null_text | some cs ↦ cs ], args)
    else if (c == b'd') || ((c == b'x') || (c == b'p'))
    then none
    else if c == b'%'
    then some (b'%' ∷ [], str s ∷ args)
    else some (b'%' ∷ c ∷ [], str s ∷ args)

-- `cprintf` of a format, which is not null; `none` where an argument is missing or of the other kind.
pub cprintf : List ℕ → List Arg → Option (List ℕ)
cprintf [] args = some []
cprintf (c ∷ []) args = some (if c == b'%' then [] else c ∷ [])
cprintf (c ∷ d ∷ cs) args =
    let plain = cprintf (d ∷ cs) args in
    let converted = λ (out : List ℕ) (args' : List Arg). cprintf cs args' in
    if c == b'%'
    then (elim (convert d args) [
      | none ↦ none
      | some (out, args') ↦ elim (converted out args') [
        | none ↦ none
        | some rest ↦ some (out ++ rest)
      ]
    ])
    else (elim plain [ none ↦ none | some rest ↦ some (c ∷ rest) ])
