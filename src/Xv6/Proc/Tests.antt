-- ===== src/Xv6/Proc/Tests.antt =====
-- Runs of the process table, and its theorems at a concrete table.
use os_projects.Base.{
  ℕ, ◌<◌, ◌≡◌, ◌≢◌, refl, true, false, none, some, List, [], ◌==◌, if◌then◌else◌, arith, ◌&&◌,
}
use os_projects.Xv6.Proc.{
  unused, sleeping, runnable, running, zombie, of_proc, Proc, Ptable, nproc, is_sleeping, same_chan,
  is_child, wakeup, wait, exit, exit_locked, is_zombie, reaped,
}
use os_projects.Xv6.Proc.Wakeup.{wakeup_lem}
use os_projects.Xv6.Proc.Family.{Passed, Awake}
use os_projects.Xv6.Proc.Exit.{exit_lem, exit-wait, Waits, wait_lem}

abbrev blank : Proc
blank = record {
  sz = 0;
  pgdir = 0;
  kstack = 0;
  state = unused;
  pid = 0;
  parent = none;
  eax = 0;
  tf = λ _. 0;
  chan = none;
  killed = false;
  ofile = [];
  cwd = 0;
  name = [];
}

-- init waits for a child; its child at 1 runs, and has a child at 2.
abbrev three : Ptable
three = record {
  proc = λ i.
      if i == 0
      then record blank { state = sleeping; pid = 1; chan = some (of_proc 0) }
      else if i == 1
      then record blank { state = running; pid = 2; parent = some 0 }
      else if i == 2
      then record blank { state = runnable; pid = 3; parent = some 1 }
      else blank;
  nextpid = 4;
  initproc = 0;
}

wakeup_lem_example :
    let p = three.proc 0 in
    let q = (wakeup (some (of_proc 0)) three).proc 0 in
    ((is_sleeping q.state && same_chan q.chan (some (of_proc 0))) ≡ false)
    × ((is_sleeping p.state && same_chan p.chan (some (of_proc 0))) ≡ true
        → q ≡ record p { state = runnable })
    × ((is_sleeping p.state && same_chan p.chan (some (of_proc 0))) ≡ false → q ≡ p)
wakeup_lem_example = wakeup_lem (some (of_proc 0)) three 0 (omega arith)

exit_lem_example :
    (((exit_locked 1 three).proc 1).state ≡ zombie)
    × ((j : ℕ) → j < nproc → 1 ≢ j → Passed 1 0 (three.proc j) ((exit_locked 1 three).proc j))
    × ((j : ℕ) → j < nproc → 1 ≢ j → is_child 1 ((exit_locked 1 three).proc j) ≡ false)
    × ((j : ℕ) → j < nproc → Awake (some (of_proc 0)) ((exit_locked 1 three).proc j))
    × ((m : ℕ)
        → m < nproc
        → is_child 1 (three.proc m) ≡ true
        → is_zombie (three.proc m).state ≡ true
        → (j : ℕ) → j < nproc
        → Awake (some (of_proc 0)) ((exit_locked 1 three).proc j))
exit_lem_example = exit_lem 1 three (omega arith)

exit-wait_example :
    (fs : List ℕ) × (u : Ptable) × (pid : ℕ) × (v : Ptable) × (exit 1 three ≡ some (fs, u))
    × (wait 0 u ≡ reaped pid v)
exit-wait_example = exit-wait 1 0 three (omega arith) (omega arith) (omega arith) refl

wait_lem_example : Waits 1 three (wait 1 three)
wait_lem_example = wait_lem 1 three
