-- ===== src/Xv6/Pipe/Fifo.antt =====
-- A pipe as the queue of the bytes between `nread` and `nwrite`, counters that wrap at 2^32.
use os_projects.Base.{
  ℕ, suc, ◌+◌, ◌-◌, ◌%◌, ◌≤◌, ◌<◌, ◌≡◌, ◌≢◌, refl, ap, true, false, List, [], ◌∷◌, ◌++◌, length,
  arith,
}
use os_projects.Ring.{window, length-window, window-update}
use os_projects.Xv6.Pipe.{Pipe, pipe_size, uint_mod, full, put, is_empty, advance}

-- The number of bytes in the pipe, by uint subtraction.
abbrev pub count : Pipe → ℕ
count p = (p.nwrite + uint_mod - p.nread) % uint_mod

-- The counters are uints, and the pipe holds at most `PIPESIZE` bytes.
abbrev pub IsValid : Pipe → Type 0
IsValid p = (p.nread < uint_mod) × (p.nwrite < uint_mod) × (count p ≤ pipe_size)

abbrev pub contents : Pipe → List ℕ
contents p = window pipe_size p.bytes p.nread (count p)

length-contents : (p : Pipe) → length (contents p) ≡ count p
length-contents p = length-window pipe_size p.bytes p.nread (count p)

slot-ne : (h n : ℕ) → suc n < pipe_size → (h + suc n) % uint_mod % pipe_size ≢ h % pipe_size
slot-ne h n lt = omega arith

full-count : (p : Pipe) → IsValid p → full p ≡ false → count p < pipe_size
unfolding full
full-count p v h = ground arith

pub count-full : (p : Pipe) → IsValid p → full p ≡ true → count p ≡ pipe_size
unfolding full
count-full p v h = ground arith

pub put-IsValid : (x : ℕ) (p : Pipe) → IsValid p → full p ≡ false → IsValid (put x p)
unfolding put
put-IsValid x p v h = omega (arith, full-count p v h)

count-put : (x : ℕ) (p : Pipe) → IsValid p → full p ≡ false → count (put x p) ≡ suc (count p)
unfolding put
count-put x p v h = omega (arith, full-count p v h)

pub contents-put :
    (x : ℕ) (p : Pipe) → IsValid p → full p ≡ false → contents (put x p) ≡ contents p ++ x ∷ []
contents-put x p v h = rw (count-put x p v h) (
    unfold put in
    window-update pipe_size slot-ne p.bytes x (count p) p.nread p.nwrite v.0 (full-count p v h)
      (omega arith))

pub advance-IsValid : (p : Pipe) → IsValid p → is_empty p ≡ false → IsValid (advance p)
unfolding advance is_empty
advance-IsValid p v h = ground arith

count-advance : (p : Pipe) → IsValid p → is_empty p ≡ false → count p ≡ suc (count (advance p))
unfolding advance is_empty
count-advance p v h = ground arith

pub contents-advance :
    (p : Pipe)
    → IsValid p
    → is_empty p ≡ false
    → contents p ≡ p.bytes (p.nread % pipe_size) ∷ contents (advance p)
contents-advance p v h = rw (count-advance p v h) (unfold advance in refl)

pub contents-empty : (p : Pipe) → IsValid p → is_empty p ≡ true → contents p ≡ []
unfolding is_empty
contents-empty p v h = let e : count p ≡ 0 = ground arith in ap (window pipe_size p.bytes p.nread) e
