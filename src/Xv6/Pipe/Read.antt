-- ===== src/Xv6/Pipe/Read.antt =====
-- What `piperead` takes from the queue, on each way out of it.
use os_projects.Base.{
  ℕ, zero, suc, ◌≡◌, refl, sym, ap, ◌∙◌, Bool, true, false, ◌&&◌, ◌%◌, if◌then◌else◌, inl, inr,
  List, [], ◌∷◌, take, drop, Bool-cases,
}
use os_projects.Xv6.Pipe.{Pipe, pipe_size, wakeup, is_empty, advance, copy_out, piperead, Got}
use os_projects.Xv6.Pipe.Fifo.{IsValid, contents, contents-advance, advance-IsValid, contents-empty}

-- The copy loop takes the first `n` bytes of the queue, or all of them.
abbrev Copies : ℕ → Pipe → List ℕ × Pipe → Type 0
Copies n p (xs, q) = (xs ≡ take n (contents p)) × (contents q ≡ drop n (contents p)) × IsValid q

Copies-nil : (n : ℕ) (p : Pipe) → IsValid p → contents p ≡ [] → Copies (suc n) p ([], p)
Copies-nil n p v e = (ap (take (suc n)) (sym e), e ∙ ap (drop (suc n)) (sym e), v)

Copies-cons :
    (n : ℕ) (p : Pipe) (r : List ℕ × Pipe)
    → IsValid p
    → is_empty p ≡ false
    → Copies n (advance p) r
    → Copies (suc n) p (p.bytes (p.nread % pipe_size) ∷ r.0, r.1)
Copies-cons n p r v e (a, b, c) =
    let f = contents-advance p v e in
    (
      ap (◌∷◌ (p.bytes (p.nread % pipe_size))) a ∙ ap (take (suc n)) (sym f),
      b ∙ ap (drop (suc n)) (sym f),
      c,
    )

copy_out_lem : (n : ℕ) (p : Pipe) → IsValid p → Copies n p (copy_out n p)
unfolding copy_out
copy_out_lem zero p v = (refl, refl, v)
copy_out_lem (suc n) p v =
    let rest = copy_out_lem n (advance p) in
    elim (Bool-cases (is_empty p)) [
      | inl e ↦ rw e (Copies-nil n p v (contents-empty p v e))
      | inr e ↦ rw e (Copies-cons n p (copy_out n (advance p)) v e (rest (advance-IsValid p v e)))
    ]

-- What a piece of `piperead` of `n` bytes does to the queue, by the outcome.
abbrev pub Reads : Bool → ℕ → Pipe → Got → Type 0
Reads killed n p (Got.waits q) =
    (q ≡ p) × (contents p ≡ []) × (p.writeopen ≡ true) × (killed ≡ false)
Reads killed n p (Got.fails q) =
    (q ≡ p) × (contents p ≡ []) × (p.writeopen ≡ true) × (killed ≡ true)
Reads killed n p (Got.got xs q) =
    (xs ≡ take n (contents p)) × (contents q ≡ drop n (contents p)) × IsValid q

Reads-copy :
    (killed : Bool) (n : ℕ) (p : Pipe)
    → IsValid p
    → (is_empty p && p.writeopen) ≡ false
    → Reads killed n p (piperead killed n p)
unfolding piperead wakeup
Reads-copy killed n p v e = rw e (copy_out_lem n p v)

Reads-wait :
    (killed : Bool) (n : ℕ) (p : Pipe)
    → contents p ≡ []
    → p.writeopen ≡ true
    → Reads killed n p (if killed then Got.fails p else Got.waits p)
Reads-wait true n p e o = (refl, e, o, refl)
Reads-wait false n p e o = (refl, e, o, refl)

-- From a valid pipe, a piece of `piperead` returns the first `n` bytes of the queue (all of them, if
-- there are fewer), and takes just these out; it sleeps or fails only at an empty pipe whose writer
-- is there, changing nothing, and fails only if the caller is killed.
pub piperead_lem :
    (killed : Bool) (n : ℕ) (p : Pipe) → IsValid p → Reads killed n p (piperead killed n p)
piperead_lem killed n p v = elim (Bool-cases (is_empty p)) [
  | inl e ↦ elim (Bool-cases p.writeopen) [
    | inl o ↦ unfold piperead in simp (e, o) (Reads-wait killed n p (contents-empty p v e) o)
    | inr o ↦ Reads-copy killed n p v (rw (e, o))
  ]
  | inr e ↦ Reads-copy killed n p v (rw e)
]
