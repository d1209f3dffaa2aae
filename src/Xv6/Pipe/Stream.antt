-- ===== src/Xv6/Pipe/Stream.antt =====
-- Any interleaving of writers, readers and closes at one pipe, each piece under the pipe's lock.
use os_projects.Base.{
  ℕ, suc, ◌-◌, ◌≡◌, refl, sym, ap, ◌∙◌, Bool, true, false, not, ◌&&◌, if◌then◌else◌, List, [], ◌∷◌,
  ◌++◌, length, length-append, take, take-append-drop, arith,
}
use mathlib.Core.List.{append_assoc}
use os_projects.Xv6.Pipe.{
  Pipe, fresh, wakeup, close_end, pipeclose, pipewrite, piperead, Wrote, Got,
}
use os_projects.Xv6.Pipe.Fifo.{IsValid, contents}
use os_projects.Xv6.Pipe.Write.{Writes, pipewrite_lem}
use os_projects.Xv6.Pipe.Read.{Reads, piperead_lem}

-- One piece of a call: the bytes still to be written, or the number wanted.
pub data Call : Type 0 where
  writes : Bool → List ℕ → Call
  reads : Bool → ℕ → Call
  closes : Bool → Call

-- The pipe, with all the bytes that went in and all that came out, oldest first.
pub record Sys : Type 0 where
  pub pipe : Pipe
  pub sent : List ℕ
  pub received : List ℕ

-- The bytes that a piece of `pipewrite` put into the pipe: those it does not leave over.
pub accepted : List ℕ → Wrote → List ℕ
accepted xs (Wrote.waits rest q) = take (length xs - length rest) xs
accepted xs (Wrote.fails rest q) = take (length xs - length rest) xs
accepted xs (Wrote.wrote q) = xs

pub after_write : Wrote → Pipe
after_write (Wrote.waits rest q) = q
after_write (Wrote.fails rest q) = q
after_write (Wrote.wrote q) = q

pub returned : Got → List ℕ
returned (Got.waits q) = []
returned (Got.fails q) = []
returned (Got.got xs q) = xs

pub after_read : Got → Pipe
after_read (Got.waits q) = q
after_read (Got.fails q) = q
after_read (Got.got xs q) = q

pub step : Sys → Call → Sys
step s (writes killed xs) =
    let r = pipewrite killed xs s.pipe in
    record s { pipe = after_write r; sent = s.sent ++ accepted xs r }
step s (reads killed n) =
    let r = piperead killed n s.pipe in
    record s { pipe = after_read r; received = s.received ++ returned r }
step s (closes writable) = record s { pipe = pipeclose writable s.pipe }

pub run : Sys → List Call → Sys
run s [] = s
run s (c ∷ cs) = run (step s c) cs

pub start : (ℕ → ℕ) → Sys
start junk = record { pipe = fresh junk; sent = []; received = [] }

-- Nothing is lost, made up or reordered: what went in is what came out, then what is in the pipe.
abbrev pub Kept : Sys → Type 0
Kept s = (s.sent ≡ s.received ++ contents s.pipe) × IsValid s.pipe

take-append-length : (xs ys : List ℕ) → take (length (xs ++ ys) - length ys) (xs ++ ys) ≡ xs
take-append-length [] ys = let e : length ys - length ys ≡ 0 = omega arith in ap (λ n. take n ys) e
take-append-length (x ∷ xs) ys =
    let e : suc (length (xs ++ ys)) - length ys ≡ suc (length (xs ++ ys) - length ys) =
      omega (arith, length-append xs ys) in
    ap (λ n. take n (x ∷ (xs ++ ys))) e ∙ ap (◌∷◌ x) (take-append-length xs ys)

accepted-done :
    (done rest xs : List ℕ) → xs ≡ done ++ rest → take (length xs - length rest) xs ≡ done
accepted-done done rest xs e = rw e (take-append-length done rest)

Writes-accepted :
    (killed : Bool) (xs : List ℕ) (p : Pipe) (r : Wrote)
    → Writes killed xs p r
    → (contents (after_write r) ≡ contents p ++ accepted xs r) × IsValid (after_write r)
unfolding accepted after_write
Writes-accepted killed xs p (Wrote.waits rest q) (done, a, b, c, v, k, o) =
    (rw (accepted-done done rest xs a) b, v)
Writes-accepted killed xs p (Wrote.fails rest q) (done, a, b, c, v, k) =
    (rw (accepted-done done rest xs a) b, v)
Writes-accepted killed xs p (Wrote.wrote q) (b, v) = (b, v)

Reads-returned :
    (killed : Bool) (n : ℕ) (p : Pipe) (r : Got)
    → IsValid p
    → Reads killed n p r
    → (contents p ≡ returned r ++ contents (after_read r)) × IsValid (after_read r)
unfolding returned after_read
Reads-returned killed n p (Got.waits q) v (a, b, c, d) = (ap contents (sym a), rw a v)
Reads-returned killed n p (Got.fails q) v (a, b, c, d) = (ap contents (sym a), rw a v)
Reads-returned killed n p (Got.got xs q) v (a, b, c) =
    (rw (a, b) (sym (take-append-drop n (contents p))), c)

-- Closing an end leaves the bytes in the pipe.
freed-Kept :
    (b : Bool) (s : Sys) (q : Pipe)
    → Kept (record s { pipe = q })
    → Kept (record s { pipe = if b then record q { freed = true } else q })
freed-Kept true s q k = k
freed-Kept false s q k = k

close-Kept : (w : Bool) (s : Sys) → Kept s → Kept (step s (closes w))
unfolding step pipeclose close_end wakeup
close-Kept true s k = freed-Kept (not s.pipe.readopen && not false) s (close_end true s.pipe) k
close-Kept false s k = freed-Kept (not false && not s.pipe.writeopen) s (close_end false s.pipe) k

step-Kept : (s : Sys) (c : Call) → Kept s → Kept (step s c)
step-Kept s (writes killed xs) (e, v) =
    let (a, w) =
      Writes-accepted killed xs s.pipe (pipewrite killed xs s.pipe)
        (pipewrite_lem killed xs s.pipe v) in
    unfold step in (rw (a, e) (append_assoc s.received (contents s.pipe) _), w)
step-Kept s (reads killed n) (e, v) =
    let (a, w) =
      Reads-returned killed n s.pipe (piperead killed n s.pipe) v
        (piperead_lem killed n s.pipe v) in
    unfold step in (rw e (rw a (sym (append_assoc s.received _ _))), w)
step-Kept s (closes w) k = close-Kept w s k

run_from : (s : Sys) (cs : List Call) → Kept s → Kept (run s cs)
unfolding run
run_from s [] k = k
run_from s (c ∷ cs) k = run_from (step s c) cs (step-Kept s c k)

-- From a fresh pipe, under any interleaving of calls of `pipewrite`, `piperead` and `pipeclose`, by
-- live or killed callers, the bytes that went in are those that came out, in the same order,
-- followed by those in the pipe, and the pipe stays valid, though its counters wrap.
pub run-Kept : (junk : ℕ → ℕ) (cs : List Call) → Kept (run (start junk) cs)
unfolding start fresh
run-Kept junk cs = run_from (start junk) cs (refl, omega arith)
