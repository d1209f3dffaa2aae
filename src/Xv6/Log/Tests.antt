-- ===== src/Xv6/Log/Tests.antt =====
-- Runs of the log, and its theorems at concrete states.
use os_projects.Base.{
  ℕ, ◌≡◌, inl, inr, refl, false, none, some, [], ◌∷◌, ◌==◌, if◌then◌else◌, arith,
}
use os_projects.Xv6.Log.{
  Log, Disk, Block, log_write, bread, bwrite, commit, write_head, install_from, install_trans,
  write_log, write_log_from, copy_words,
}
use os_projects.Xv6.Log.Txn.{Outside, IsCommitted, Throughout}
use os_projects.Xv6.Log.Recover.{reboot}
use os_projects.Xv6.Log.Atomic.{
  txn, CanCommit, Ends, after, commit_atomic, commit_lem, recovery_restarts,
}
use os_projects.Xv6.Log.Reserve.{Ops, here, log_write-none, sum}

-- Block 1 is the super block: 31 log blocks from block 2 on. Every other word is 0.
abbrev empty_disk : Disk
empty_disk b w = if b == 1 then (if w == 3 then 31 else if w == 4 then 2 else 0) else 0

abbrev sevens : Block
sevens w = 7

-- One operation has put block 40 into the log.
abbrev pending : Log
pending = record {
  start = 2;
  size = 31;
  outstanding = 0;
  committing = false;
  n = 1;
  block = λ _. 40;
  disk = empty_disk;
  dirty = λ b. if b == 40 then some sevens else none;
  history = [];
  wakeups = 0;
}

abbrev one_name : Block
one_name w = if w == 0 then 1 else if w == 1 then 40 else 0

-- A commit that ran to its second write: block 3 is the log's copy, block 2 its header.
abbrev committed_disk : Disk
committed_disk b = if b == 2 then one_name else if b == 3 then sevens else empty_disk b

commit_runs : (commit pending).disk 40 5 ≡ 7
unfolding commit write_log write_log_from write_head install_trans install_from copy_words bread
    bwrite
commit_runs = refl

pending-CanCommit : CanCommit pending
pending-CanCommit = record {
  well_formed = record {
    small = omega arith;
    home = λ i h. inr (omega arith);
    distinct = λ i j h k. absurd (omega arith);
  };
  empty = refl;
  clean = λ j h. ground arith;
}

commit_atomic_example : Throughout (λ d. Ends pending (reboot d).disk) (commit pending)
commit_atomic_example =
    commit_atomic pending pending-CanCommit (refl, inl (omega arith), λ i h. omega arith)
      (omega arith) refl

commit_lem_example :
    ((b : ℕ) → Outside 2 b → (commit pending).disk b ≡ after pending b)
    × ((commit pending).disk 2 0 ≡ 0)
commit_lem_example = commit_lem pending pending-CanCommit (omega arith) refl

committed_disk-IsCommitted : IsCommitted (txn pending) committed_disk
unfolding bread
committed_disk-IsCommitted = record {
  head = refl;
  names = λ i h. ground arith;
  logs = λ i h. (let e : i ≡ 0 = omega arith in rw e refl);
  rest = λ b o u. ground arith;
}

recovery_restarts_example :
    Throughout
      (λ e. (b : ℕ) → Outside 2 b → (reboot e).disk b ≡ after pending b)
      (reboot committed_disk)
recovery_restarts_example =
    recovery_restarts pending pending-CanCommit (refl, inl (omega arith), λ i h. omega arith)
      committed_disk committed_disk-IsCommitted

-- The log of mkfs, nearly full: of three operations the last has one write left.
abbrev nearly_full : Ops
nearly_full = record {
  log = record pending { size = 30; n = 29; outstanding = 3 };
  left = 0 ∷ 0 ∷ 1 ∷ [];
}

log_write-none_example :
    (log_write nearly_full.log 40 sevens ≡ none
      → (nearly_full.log.size ≡ 30) × (nearly_full.log.n ≡ 29) × (sum nearly_full.left ≡ 1))
    × ((nearly_full.log.size ≡ 30) × (nearly_full.log.n ≡ 29)
        → log_write nearly_full.log 40 sevens ≡ none)
log_write-none_example =
    log_write-none nearly_full nearly_full (0 ∷ 0 ∷ []) [] 0 40 sevens (omega arith) here refl
