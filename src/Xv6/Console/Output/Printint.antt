-- ===== src/Xv6/Console/Output/Printint.antt =====
-- `printint` read back.
use os_projects.Base.{
  ℕ, zero, suc, ◌+◌, ◌-◌, ◌*◌, ◌%◌, ◌^◌, ◌≤◌, ◌<◌, ◌≡◌, refl, ap, ◌∙◌, Bool, true, false, ◌==◌,
  if◌then◌else◌, List, [], ◌∷◌, ◌++◌, map, get_or, length, All, arith,
}
use mathlib.Core.List.{reverse, reverse-reverse}
use os_projects.Xv6.Console.Output.{hex, digits_of, buf_size, is_negative, magnitude, printint}
use os_projects.Xv6.Console.Output.Digits.{value, decimal}

-- The number and the sign of decimal characters, the last first.
abbrev pub chars_value : List ℕ → ℕ × Bool
chars_value [] = (0, false)
chars_value (c ∷ cs) =
    let (v, s) = chars_value cs in if c == b'-' then (0, true) else ((c - 48) + 10 * v, s)

-- The 32-bit pattern of the integer that a text stands for.
abbrev pub int_of : List ℕ → ℕ
int_of text = let (v, s) = chars_value (reverse text) in if s then (2 ^ 32 - v) % 2 ^ 32 else v

hex_digit : (d : ℕ) → d < 10 → get_or hex d 0 ≡ 48 + d
hex_digit zero l = refl
hex_digit (suc zero) l = refl
hex_digit (suc (suc zero)) l = refl
hex_digit (suc (suc (suc zero))) l = refl
hex_digit (suc (suc (suc (suc zero)))) l = refl
hex_digit (suc (suc (suc (suc (suc zero))))) l = refl
hex_digit (suc (suc (suc (suc (suc (suc zero)))))) l = refl
hex_digit (suc (suc (suc (suc (suc (suc (suc zero))))))) l = refl
hex_digit (suc (suc (suc (suc (suc (suc (suc (suc zero)))))))) l = refl
hex_digit (suc (suc (suc (suc (suc (suc (suc (suc (suc zero))))))))) l = refl
hex_digit (suc (suc (suc (suc (suc (suc (suc (suc (suc (suc d)))))))))) l = absurd (omega arith)

chars_value-map :
    (ds tail : List ℕ)
    → All (λ d. d < 10) ds
    → (s : Bool) → chars_value tail ≡ (0, s)
    → chars_value (map (λ d. get_or hex d 0) ds ++ tail) ≡ (value 10 ds, s)
chars_value-map [] tail a s e = e
chars_value-map (d ∷ ds) tail (l, a) s e =
    let n : (48 + d == b'-') ≡ false = ground arith in
    let m : 48 + d - 48 ≡ d = omega arith in
    rw (hex_digit d l, n, chars_value-map ds tail a s e, m) refl

-- What `printint` prints in decimal of a signed number stands for the number, and `buf` has room for it.
pub int_of-printint :
    (xx : ℕ)
    → xx < 2 ^ 32
    → (int_of (printint xx 10 true) ≡ xx)
      × (length (digits_of buf_size 10 (magnitude xx true)) + (if is_negative xx true then 1 else 0)
          < buf_size)
unfolding printint
int_of-printint xx l =
    let x = magnitude xx true in
    let neg = is_negative xx true in
    let lx : x < 2 ^ 32 = ground arith in
    let (v, (a, m)) = decimal x lx in
    let ds = digits_of buf_size 10 x in
    let tail = if neg then b'-' ∷ [] else [] in
    (
      ap pattern (
            ap chars_value (reverse-reverse (map (λ d. get_or hex d 0) ds ++ tail))
            ∙ chars_value-map ds tail a neg (sign neg)
            ∙ ap (λ n. (n, neg)) v)
          ∙ pattern-magnitude,
      room (length ds) neg m,
    )
  where
    room : (n : ℕ) (b : Bool) → n ≤ 10 → n + (if b then 1 else 0) < buf_size
    room n true h = omega arith
    room n false h = omega arith

    pattern : ℕ × Bool → ℕ
    pattern (v, s) = if s then (2 ^ 32 - v) % 2 ^ 32 else v

    sign : (b : Bool) → chars_value (if b then b'-' ∷ [] else []) ≡ (0, b)
    sign true = refl
    sign false = refl

    pattern-magnitude : pattern (magnitude xx true, is_negative xx true) ≡ xx
    pattern-magnitude = ground arith
