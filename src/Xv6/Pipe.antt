-- ===== src/Xv6/Pipe.antt =====
-- xv6/base/pipe.c: `struct pipe`, with the loops of `pipewrite` and `piperead` cut where they sleep.
-- A call runs under `p->lock` from its entry, or from a wakeup, to its return or to `sleep`, which
-- releases the lock: each such piece is one function here, and what the caller sees is an outcome.
pub mod Fifo
pub mod Write
pub mod Read
pub mod Stream
mod Tests
use os_projects.Base.{
  ℕ, ◌+◌, ◌%◌, ◌^◌, Bool, true, false, not, ◌&&◌, ◌||◌, ◌==◌, if◌then◌else◌, List, [], ◌∷◌, update,
}

abbrev pub pipe_size : ℕ
pipe_size = 512

-- uint arithmetic
abbrev pub uint_mod : ℕ
uint_mod = 2 ^ 32

-- The two addresses that the pipe's sleepers wait on.
pub data Chan : Type 0 where
  nread_chan nwrite_chan : Chan

-- `data` is the array as a function of its index; `woken` records the calls of `wakeup`, newest
-- first, and `freed` the call `kfree(p)`.
pub record Pipe : Type 0 where
  pub bytes : ℕ → ℕ
  pub nread : ℕ
  pub nwrite : ℕ
  pub readopen : Bool
  pub writeopen : Bool
  pub woken : List Chan
  pub freed : Bool

-- The fields that `pipealloc` sets.
pub fresh : (ℕ → ℕ) → Pipe
fresh junk = record {
  bytes = junk;
  nread = 0;
  nwrite = 0;
  readopen = true;
  writeopen = true;
  woken = [];
  freed = false;
}

pub wakeup : Chan → Pipe → Pipe
wakeup c p = record p { woken = c ∷ p.woken }

pub close_end : Bool → Pipe → Pipe
close_end true p = wakeup nread_chan (record p { writeopen = false })
close_end false p = wakeup nwrite_chan (record p { readopen = false })

pub pipeclose : Bool → Pipe → Pipe
pipeclose writable p =
    let q = close_end writable p in
    if not q.readopen && not q.writeopen then record q { freed = true } else q

-- What a piece of `pipewrite` ends in: a sleep on `&p->nwrite` with the bytes still to be written,
-- the return of -1 with them, or the return of n.
pub data Wrote : Type 0 where
  waits : List ℕ → Pipe → Wrote
  fails : List ℕ → Pipe → Wrote
  wrote : Pipe → Wrote

pub full : Pipe → Bool
full p = p.nwrite == ((p.nread + pipe_size) % uint_mod)

-- `p->data[p->nwrite++ % PIPESIZE] = x`
pub put : ℕ → Pipe → Pipe
put x p = record p {
  bytes = update p.bytes (p.nwrite % pipe_size) x;
  nwrite = (p.nwrite + 1) % uint_mod;
}

-- The loop of `pipewrite` from any round, `addr[i..n)` being the list, to a sleep or the return.
-- A sleeper that is woken enters it again. `killed` is `myproc()->killed`.
pub pipewrite : Bool → List ℕ → Pipe → Wrote
pipewrite killed [] p = wrote (wakeup nread_chan p)
pipewrite killed (x ∷ xs) p =
    if full p
    then (if not p.readopen || killed
        then fails (x ∷ xs) p
        else waits (x ∷ xs) (wakeup nread_chan p))
    else pipewrite killed xs (put x p)

-- What a piece of `piperead` ends in: a sleep on `&p->nread`, the return of -1, or the bytes copied
-- to `addr`, whose number it returns.
pub data Got : Type 0 where
  waits : Pipe → Got
  fails : Pipe → Got
  got : List ℕ → Pipe → Got

pub is_empty : Pipe → Bool
is_empty p = p.nread == p.nwrite

-- `p->nread++`
pub advance : Pipe → Pipe
advance p = record p { nread = (p.nread + 1) % uint_mod }

-- The copy loop, for at most `n` bytes.
pub copy_out : ℕ → Pipe → List ℕ × Pipe
copy_out ℕ.zero p = ([], p)
copy_out (ℕ.suc n) p =
    let (xs, q) = copy_out n (advance p) in
    if is_empty p then ([], p) else (p.bytes (p.nread % pipe_size) ∷ xs, q)

pub piperead : Bool → ℕ → Pipe → Got
piperead killed n p =
    if is_empty p && p.writeopen
    then (if killed then fails p else waits p)
    else (let (xs, q) = copy_out n p in got xs (wakeup nwrite_chan q))
