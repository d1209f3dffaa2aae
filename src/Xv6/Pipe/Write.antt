-- ===== src/Xv6/Pipe/Write.antt =====
-- What `pipewrite` adds to the queue, on each way out of its loop.
use os_projects.Base.{
  ℕ, ◌≡◌, refl, sym, ap, ◌∙◌, Bool, true, false, not, ◌||◌, if◌then◌else◌, ◌⊎◌, inl, inr, List, [],
  ◌∷◌, ◌++◌, Bool-cases,
}
use mathlib.Core.List.{append-nil, append_assoc}
use os_projects.Xv6.Pipe.{Pipe, nread_chan, pipe_size, wakeup, full, put, pipewrite, Wrote}
use os_projects.Xv6.Pipe.Fifo.{IsValid, count, contents, contents-put, put-IsValid, count-full}

-- What a piece of `pipewrite` of the bytes `xs` does to the queue, by the outcome.
abbrev pub Writes : Bool → List ℕ → Pipe → Wrote → Type 0
Writes killed xs p (Wrote.waits rest q) =
    (done : List ℕ) × (xs ≡ done ++ rest)
    × (contents q ≡ contents p ++ done)
    × (count q ≡ pipe_size)
    × IsValid q
    × (killed ≡ false)
    × (q.readopen ≡ true)
Writes killed xs p (Wrote.fails rest q) =
    (done : List ℕ) × (xs ≡ done ++ rest)
    × (contents q ≡ contents p ++ done)
    × (count q ≡ pipe_size)
    × IsValid q
    × ((killed ≡ true) ⊎ (q.readopen ≡ false))
Writes killed xs p (Wrote.wrote q) = (contents q ≡ contents p ++ xs) × IsValid q

Writes-put :
    (killed : Bool) (x : ℕ) (xs : List ℕ) (p : Pipe) (r : Wrote)
    → contents (put x p) ≡ contents p ++ x ∷ []
    → Writes killed xs (put x p) r
    → Writes killed (x ∷ xs) p r
Writes-put killed x xs p (Wrote.waits rest q) e (done, a, b, c, d, v, k) =
    (x ∷ done, ap (◌∷◌ x) a, b ∙ rw e (append_assoc (contents p) (x ∷ []) done), c, d, v, k)
Writes-put killed x xs p (Wrote.fails rest q) e (done, a, b, c, v, k) =
    (x ∷ done, ap (◌∷◌ x) a, b ∙ rw e (append_assoc (contents p) (x ∷ []) done), c, v, k)
Writes-put killed x xs p (Wrote.wrote q) e (b, c) =
    (b ∙ rw e (append_assoc (contents p) (x ∷ []) xs), c)

-- At a full pipe the call sleeps or fails, by `readopen` and `killed`.
Writes-full :
    (killed is_open : Bool) (x : ℕ) (xs : List ℕ) (p : Pipe)
    → p.readopen ≡ is_open
    → IsValid p
    → full p ≡ true
    → Writes killed (x ∷ xs) p (
        if not is_open || killed
        then Wrote.fails (x ∷ xs) p
        else Wrote.waits (x ∷ xs) (wakeup nread_chan p))
unfolding wakeup
Writes-full true true x xs p o v f =
    ([], refl, sym (append-nil (contents p)), count-full p v f, v, inl refl)
Writes-full true false x xs p o v f =
    ([], refl, sym (append-nil (contents p)), count-full p v f, v, inl refl)
Writes-full false true x xs p o v f =
    ([], refl, sym (append-nil (contents p)), count-full p v f, v, refl, o)
Writes-full false false x xs p o v f =
    ([], refl, sym (append-nil (contents p)), count-full p v f, v, inr o)

-- With room in the pipe the next byte goes in.
pipewrite-put :
    (killed : Bool) (x : ℕ) (xs : List ℕ) (p : Pipe)
    → full p ≡ false
    → pipewrite killed (x ∷ xs) p ≡ pipewrite killed xs (put x p)
unfolding pipewrite
pipewrite-put killed x xs p f = rw f

-- From a valid pipe, a piece of `pipewrite` puts some first bytes of its list, in order, at the end
-- of the queue, and leaves a valid pipe: all of the bytes if it returns `n`, and otherwise only as
-- many as fill the pipe; it fails only if the reader is gone or the caller is killed, and sleeps
-- only if neither holds.
pub pipewrite_lem :
    (killed : Bool) (xs : List ℕ) (p : Pipe)
    → IsValid p
    → Writes killed xs p (pipewrite killed xs p)
pipewrite_lem killed [] p v = unfold pipewrite wakeup in (sym (append-nil (contents p)), v)
pipewrite_lem killed (x ∷ xs) p v =
    let next = pipewrite_lem killed xs (put x p) in
    elim (Bool-cases (full p)) [
      | inl f ↦ unfold pipewrite in rw f (Writes-full killed p.readopen x xs p refl v f)
      | inr f ↦ rw (pipewrite-put killed x xs p f) (
          Writes-put killed x xs p (pipewrite killed xs (put x p)) (contents-put x p v f)
            (next (put-IsValid x p v f)))
    ]
