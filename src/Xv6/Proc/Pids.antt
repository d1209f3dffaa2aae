-- ===== src/Xv6/Proc/Pids.antt =====
-- Pids: each live process has its own, and `fork` and `kill` by pid.
use os_projects.Base.{
  ℕ, zero, suc, ◌+◌, ◌≤◌, ◌<◌, ◌≡◌, ◌≢◌, ◌⊎◌, refl, ap, ◌∙◌, subst, Bool, true, false, none, some,
  update, update_ne, update_self, if◌then◌else◌, arith, Option, ℕ_discrete,
}
use os_projects.Xv6.Proc.{
  ProcState, sleeping, runnable, Proc, Ptable, nproc, is_sleeping, is_unused, Forked, fails, forked,
  find_pid, kill, kill_at,
}

-- The live entries have different pids, all below `nextpid` and none of them 0.
pub record IsNumbered (t : Ptable) : Type 0 where
  pub distinct :
      (i j : ℕ)
      → i < nproc
      → j < nproc
      → i ≢ j
      → is_unused (t.proc i).state ≡ false
      → is_unused (t.proc j).state ≡ false
      → (t.proc i).pid ≢ (t.proc j).pid
  pub below : (i : ℕ) → i < nproc → is_unused (t.proc i).state ≡ false → (t.proc i).pid < t.nextpid

find_pid_lem :
    (k i m pid : ℕ) (ps : ℕ → Proc)
    → find_pid k i pid ps ≡ some m
    → (i ≤ m) × (m < i + k) × ((ps m).pid ≡ pid)
unfolding find_pid
find_pid_lem zero i m pid ps e = cc
find_pid_lem (suc k) i m pid ps e = ground (arith, find_pid_lem k (i + 1) m pid ps)

find_pid-none :
    (k i pid : ℕ) (ps : ℕ → Proc)
    → find_pid k i pid ps ≡ none
    → (j : ℕ) → i ≤ j
    → j < i + k
    → (ps j).pid ≢ pid
unfolding find_pid
find_pid-none zero i pid ps e j h l = absurd (omega arith)
find_pid-none (suc k) i pid ps e j h l = elim (ℕ_discrete i j) [
  | yes p ↦ subst (λ m. (ps m).pid ≢ pid) p (ground arith)
  | no p ↦ find_pid-none k (i + 1) pid ps (ground arith) j (omega arith) (omega arith)
]

-- A table in which one entry changed, but for its pid, and is alive only if it was.
IsNumbered-same :
    (t : Ptable) (m : ℕ) (p : Proc)
    → IsNumbered t
    → p.pid ≡ (t.proc m).pid
    → (is_unused (t.proc m).state ≡ false) ⊎ (is_unused p.state ≡ true)
    → IsNumbered (record t { proc = update t.proc m p })
IsNumbered-same t m p v e o = record {
  distinct = λ i j hi hj ne si sj. ground (arith, v.distinct i j hi hj ne);
  below = λ i hi si. ground (arith, v.below i hi);
}

-- What `fork` by `c` does: if it returns a pid, that pid is the next one and differs from those of
-- the live entries, one unused entry becomes a runnable child of `c` with it, and the others stay;
-- if it fails, no entry that was alive has changed. Pids stay distinct either way.
abbrev pub Forks : ℕ → Ptable → Forked → Type 0
Forks c t (fails u) =
    IsNumbered u × ((j : ℕ) → is_unused (t.proc j).state ≡ false → u.proc j ≡ t.proc j)
Forks c t (forked pid fs u) =
    IsNumbered u
    × (pid ≡ t.nextpid)
    × ((j : ℕ) → j < nproc → is_unused (t.proc j).state ≡ false → (t.proc j).pid ≢ pid)
    × ((m : ℕ) × (m < nproc)
        × (is_unused (t.proc m).state ≡ true)
        × ((u.proc m).state ≡ runnable)
        × ((u.proc m).pid ≡ pid)
        × ((u.proc m).parent ≡ some c)
        × ((u.proc m).eax ≡ 0)
        × ((j : ℕ) → m ≢ j → u.proc j ≡ t.proc j))

-- The table in which an unused entry was taken, with the next pid.
abbrev taken : ℕ → Proc → Ptable → Ptable
taken m p t = record t { proc = update t.proc m p; nextpid = t.nextpid + 1 }

-- What `kill` of `pid` does: the first entry with that pid is marked killed and does not sleep, and
-- the others stay; or no entry has it, and nothing changes.
abbrev pub Kills : ℕ → Ptable → Bool × Ptable → Type 0
Kills pid t (true, u) =
    (m : ℕ) × (m < nproc)
    × ((t.proc m).pid ≡ pid)
    × ((u.proc m).killed ≡ true)
    × (is_sleeping (u.proc m).state ≡ false)
    × ((j : ℕ) → m ≢ j → u.proc j ≡ t.proc j)
Kills pid t (false, u) = (u ≡ t) × ((j : ℕ) → j < nproc → (t.proc j).pid ≢ pid)

awake : (s : ProcState) → is_sleeping (if is_sleeping s then runnable else s) ≡ false
awake sleeping = refl
awake _ = refl

kill-found :
    (pid m : ℕ) (t : Ptable) (p : Proc)
    → m < nproc
    → (t.proc m).pid ≡ pid
    → p.killed ≡ true
    → is_sleeping p.state ≡ false
    → Kills pid t (true, record t { proc = update t.proc m p })
kill-found pid m t p lt e k s = (
  m,
  lt,
  e,
  ap (λ (q : Proc). q.killed) here ∙ k,
  ap (λ (q : Proc). is_sleeping q.state) here ∙ s,
  λ j ne. update_ne t.proc m j p ne,
)
  where
    here : update t.proc m p m ≡ p
    here = update_self t.proc m p

-- `kill(pid)` returns 0 exactly if some entry of the table has that pid, and then marks the first
-- such entry killed, takes it out of any sleep and changes no other entry; else it changes nothing.
kill_lem : (pid : ℕ) (t : Ptable) → Kills pid t (kill pid t)
unfolding kill
kill_lem pid t = search_pid (find_pid nproc 0 pid t.proc) refl
  where
    search_pid : (o : Option ℕ) → find_pid nproc 0 pid t.proc ≡ o → Kills pid t (kill_at t o)
    search_pid none e =
        unfold kill_at in
        (refl, λ j h. find_pid-none nproc 0 pid t.proc e j (omega arith) (omega arith))
    search_pid (some m) e =
        let (a, b, p) = find_pid_lem nproc 0 m pid t.proc e in
        unfold kill_at in kill-found pid m t _ (omega arith) p refl (awake (t.proc m).state)
