-- ===== src/Xv6/Proc.antt =====
-- xv6/base/proc.c: the process table and the operations on it. Each runs under `ptable.lock`, from
-- its acquire to its release or to the switch away. A process pointer is an index of the table.
pub mod Wakeup
pub mod Schedule
pub mod Pids
pub mod Family
pub mod Search
pub mod Exit
mod Tests
use os_projects.Base.{
  ℕ, zero, suc, ◌+◌, ◌%◌, ◌^◌, Bool, true, false, ◌&&◌, ◌||◌, not, ◌==◌, if◌then◌else◌, List, [],
  ◌∷◌, map, Option, none, some, update, replicate,
}

abbrev pub nproc : ℕ
nproc = 64

abbrev pub nofile : ℕ
nofile = 16

-- `enum procstate`
pub data ProcState : Type 0 where
  unused embryo sleeping runnable running zombie : ProcState

-- What a process sleeps on: the address of a table entry, or another address.
pub data Chan : Type 0 where
  of_proc : ℕ → Chan
  of_other : ℕ → Chan

-- `struct proc`. A null pointer to a process is `none`, and so is the null channel; other pointers
-- are numbers, with 0 for null. `tf` has the registers, `eax` apart.
pub record Proc : Type 0 where
  pub sz : ℕ
  pub pgdir : ℕ
  pub kstack : ℕ
  pub state : ProcState
  pub pid : ℕ
  pub parent : Option ℕ
  pub eax : ℕ
  pub tf : ℕ → ℕ
  pub chan : Option Chan
  pub killed : Bool
  pub ofile : List ℕ
  pub cwd : ℕ
  pub name : List ℕ

-- `ptable.proc`, `nextpid` and the index `initproc`. An int is its 32-bit pattern.
pub record Ptable : Type 0 where
  pub proc : ℕ → Proc
  pub nextpid : ℕ
  pub initproc : ℕ

abbrev pub is_unused : ProcState → Bool
is_unused ProcState.unused = true
is_unused _ = false

abbrev pub is_sleeping : ProcState → Bool
is_sleeping ProcState.sleeping = true
is_sleeping _ = false

abbrev pub is_runnable : ProcState → Bool
is_runnable ProcState.runnable = true
is_runnable _ = false

abbrev pub is_zombie : ProcState → Bool
is_zombie ProcState.zombie = true
is_zombie _ = false

abbrev pub chan_eq : Chan → Chan → Bool
chan_eq (of_proc i) (of_proc j) = i == j
chan_eq (of_other a) (of_other b) = a == b
chan_eq _ _ = false

abbrev pub same_chan : Option Chan → Option Chan → Bool
same_chan none none = true
same_chan (some c) (some d) = chan_eq c d
same_chan _ _ = false

abbrev pub is_child : ℕ → Proc → Bool
is_child c p = elim p.parent [ none ↦ false | some i ↦ i == c ]

-- The body of the loop of `wakeup1`.
pub wake : Option Chan → Proc → Proc
wake c p = if is_sleeping p.state && same_chan p.chan c then record p { state = runnable } else p

-- `wakeup1`: `k` rounds of its loop, from index `i` on.
pub wakeup_from : ℕ → ℕ → Option Chan → (ℕ → Proc) → ℕ → Proc
wakeup_from zero i c ps = ps
wakeup_from (suc k) i c ps = wakeup_from k (i + 1) c (update ps i (wake c (ps i)))

pub wakeup1 : Option Chan → (ℕ → Proc) → ℕ → Proc
wakeup1 c ps = wakeup_from nproc 0 c ps

pub wakeup : Option Chan → Ptable → Ptable
wakeup c t = record t { proc = wakeup1 c t.proc }

-- The search loop of `allocproc`.
pub find_unused : ℕ → ℕ → (ℕ → Proc) → Option ℕ
find_unused zero i ps = none
find_unused (suc k) i ps =
    let rest = find_unused k (i + 1) ps in if is_unused (ps i).state then some i else rest

-- `nextpid++` of an int.
abbrev pid_after : ℕ → ℕ
pid_after n = (n + 1) % 2 ^ 32

-- `allocproc` after its search, with what `kalloc` returns (0 if there is no page): the entry, if
-- there is one, and the new table. The layout of the kernel stack's words is left out.
pub alloc_at : ℕ → Ptable → Option ℕ → Option ℕ × Ptable
alloc_at page t none = (none, t)
alloc_at page t (some i) =
    let p = record (t.proc i) { state = embryo; pid = t.nextpid; kstack = page } in
    let q = record p { state = unused } in
    if page == 0
    then (none, record t { proc = update t.proc i q; nextpid = pid_after t.nextpid })
    else (some i, record t { proc = update t.proc i p; nextpid = pid_after t.nextpid })

pub allocproc : ℕ → Ptable → Option ℕ × Ptable
allocproc page t = alloc_at page t (find_unused nproc 0 t.proc)

-- What a call of `fork` returns, with the files of which it takes a reference.
pub data Forked : Type 0 where
  fails : Ptable → Forked
  forked : ℕ → List ℕ → Ptable → Forked

-- `filedup` on each open file of the list.
pub open_files : List ℕ → List ℕ
open_files [] = []
open_files (f ∷ fs) = let rest = open_files fs in if f == 0 then rest else f ∷ rest

-- The loop of `fork` over `ofile`: an entry that is closed in the parent is left as it was.
pub dup_files : List ℕ → List ℕ → List ℕ
dup_files (f ∷ fs) (g ∷ gs) = (if f == 0 then g else f) ∷ dup_files fs gs
dup_files _ gs = gs

-- `*s = 0`
abbrev pub zero_first : List ℕ → List ℕ
zero_first [] = []
zero_first (d ∷ ds) = 0 ∷ ds

-- `safestrcpy` to an array `ds`, `k` being `n - 1`: it writes a 0 after the character that it copied last.
copy_name : ℕ → List ℕ → List ℕ → List ℕ
copy_name zero cs ds = zero_first ds
copy_name (suc k) (c ∷ cs) (d ∷ ds) =
    let rest = copy_name k cs ds in c ∷ (if c == 0 then zero_first ds else rest)
copy_name (suc k) _ ds = ds

-- `fork` by the process `c` once it has the new entry `n`; `name` has 16 characters.
pub fork_into : ℕ → ℕ → ℕ → Ptable → Forked
fork_into c n copied u =
    let cur = u.proc c in
    let np = u.proc n in
    if copied == 0
    then fails
        (record u { proc = update u.proc n (record np { pgdir = 0; kstack = 0; state = unused }) })
    else forked np.pid (open_files cur.ofile) (record u {
      proc = update u.proc n (record np {
        pgdir = copied;
        sz = cur.sz;
        parent = some c;
        tf = cur.tf;
        eax = 0;
        ofile = dup_files cur.ofile np.ofile;
        cwd = cur.cwd;
        name = copy_name 15 cur.name np.name;
        state = runnable;
      });
    })

-- `fork` by the process `c` after `allocproc`.
pub fork_with : ℕ → ℕ → Option ℕ × Ptable → Forked
fork_with c copied (none, u) = fails u
fork_with c copied (some n, u) = fork_into c n copied u

-- `fork` by the process `c`, with what `kalloc` and `copyuvm` return.
pub fork : ℕ → ℕ → ℕ → Ptable → Forked
fork c page copied t = fork_with c copied (allocproc page t)

abbrev pub chan_of : Option ℕ → Option Chan
chan_of none = none
chan_of (some i) = some (of_proc i)

-- What the loop of `exit` that passes the children of `c` to `init` does at index `i`.
pub reparent : ℕ → ℕ → ℕ → (ℕ → Proc) → ℕ → Proc
reparent i c init ps =
    let p = ps i in
    let qs = update ps i (record p { parent = some init }) in
    if is_child c p
    then (if is_zombie p.state then wakeup1 (some (of_proc init)) qs else qs)
    else ps

pub reparent_from : ℕ → ℕ → ℕ → ℕ → (ℕ → Proc) → ℕ → Proc
reparent_from zero i c init ps = ps
reparent_from (suc k) i c init ps = reparent_from k (i + 1) c init (reparent i c init ps)

-- What `exit` by the process `c` does under `ptable.lock`, up to the switch to the scheduler.
pub exit_locked : ℕ → Ptable → Ptable
exit_locked c t =
    let qs = wakeup1 (chan_of (t.proc c).parent) t.proc in
    let rs = reparent_from nproc 0 c t.initproc qs in
    record t { proc = update rs c (record (rs c) { state = zombie }) }

-- `exit` by the process `c` before it takes the lock: the files that it closes, by calls that may sleep or panic
-- for themselves, and its entry after them; the panic of `init` is `none`.
pub exit_start : ℕ → Ptable → Option (List ℕ × Ptable)
exit_start c t =
    let cur = t.proc c in
    let ps = update t.proc c (record cur { ofile = map (λ _. 0) cur.ofile; cwd = 0 }) in
    if c == t.initproc then none else some (open_files cur.ofile, record t { proc = ps })

-- `exit` where the calls that close return, and the table is as it was when it takes the lock.
pub exit : ℕ → Ptable → Option (List ℕ × Ptable)
exit c t = elim (exit_start c t) [ none ↦ none | some (fs, u) ↦ some (fs, exit_locked c u) ]

-- The scan of `wait`: the first zombie child, or whether there was a child at all.
pub data Scan : Type 0 where
  found : ℕ → Scan
  kids : Scan
  no_kids : Scan

pub scan_children : ℕ → ℕ → ℕ → Bool → (ℕ → Proc) → Scan
scan_children zero i c havekids ps = if havekids then kids else no_kids
scan_children (suc k) i c havekids ps =
    let none_here = scan_children k (i + 1) c havekids ps in
    let alive_here = scan_children k (i + 1) c true ps in
    if is_child c (ps i)
    then (if is_zombie (ps i).state then found i else alive_here)
    else none_here

-- What one round of the loop of `wait` ends in.
pub data Waited : Type 0 where
  reaped : ℕ → Ptable → Waited
  no_child : Waited
  sleeps : Ptable → Waited

-- `sleep` by the process `c`, up to the switch away.
pub sleep : ℕ → Chan → Ptable → Ptable
sleep c chan t = record t {
  proc = update t.proc c (record (t.proc c) { chan = some chan; state = sleeping });
}

-- What `wait` does to the entry of a zombie child.
pub reap : ℕ → Ptable → Ptable
reap i t =
    let p = t.proc i in
    record t {
      proc = update t.proc i (record p {
        kstack = 0;
        pid = 0;
        parent = none;
        name = zero_first p.name;
        killed = false;
        state = unused;
      });
    }

-- What `wait` does after the scan.
pub after_scan : ℕ → Ptable → Scan → Waited
after_scan c t (found i) = reaped (t.proc i).pid (reap i t)
after_scan c t kids = if (t.proc c).killed then no_child else sleeps (sleep c (of_proc c) t)
after_scan c t no_kids = no_child

-- One round of `wait` by the process `c`; after `sleeps` it is entered again.
pub wait : ℕ → Ptable → Waited
wait c t = after_scan c t (scan_children nproc 0 c false t.proc)

-- After a sleep, `p->chan = 0`.
pub sleep_return : ℕ → Ptable → Ptable
sleep_return c t = record t { proc = update t.proc c (record (t.proc c) { chan = none }) }

-- `yield` by the process `c`, up to the switch away.
pub yield : ℕ → Ptable → Ptable
yield c t = record t { proc = update t.proc c (record (t.proc c) { state = runnable }) }

-- The scan of `scheduler`, from index `i` on: the process that it runs next, if any is runnable.
pub next_runnable : ℕ → ℕ → (ℕ → Proc) → Option ℕ
next_runnable zero i ps = none
next_runnable (suc k) i ps =
    let rest = next_runnable k (i + 1) ps in if is_runnable (ps i).state then some i else rest

-- The body of the loop of `scheduler` at the index of a runnable process, up to the switch to it.
pub run_at : Ptable → Option ℕ → Option (ℕ × Ptable)
run_at t none = none
run_at t (some j) =
    some (j, record t { proc = update t.proc j (record (t.proc j) { state = running }) })

-- One step of the scan of `scheduler`, over `k` entries from `i` on.
pub schedule : ℕ → ℕ → Ptable → Option (ℕ × Ptable)
schedule k i t = run_at t (next_runnable k i t.proc)

-- The loop of `kill`.
pub find_pid : ℕ → ℕ → ℕ → (ℕ → Proc) → Option ℕ
find_pid zero i pid ps = none
find_pid (suc k) i pid ps =
    let rest = find_pid k (i + 1) pid ps in if (ps i).pid == pid then some i else rest

-- `kill` after its search.
pub kill_at : Ptable → Option ℕ → Bool × Ptable
kill_at t none = (false, t)
kill_at t (some i) =
    let p = t.proc i in
    let st = if is_sleeping p.state then runnable else p.state in
    (true, record t { proc = update t.proc i (record p { killed = true; state = st }) })

-- `kill`: whether it returns 0, and the table.
pub kill : ℕ → Ptable → Bool × Ptable
kill pid t = kill_at t (find_pid nproc 0 pid t.proc)
