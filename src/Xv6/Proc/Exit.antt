-- ===== src/Xv6/Proc/Exit.antt =====
-- What `exit` leaves in the table, and that the parent's `wait` then finds it.
use os_projects.Base.{
  ℕ, ◌<◌, ◌≡◌, ◌≢◌, ◌⊎◌, inl, inr, refl, ap, sym, ◌∙◌, subst, Bool, true, false, none, some, update,
  update_ne, update_self, ◌==◌, if◌then◌else◌, arith, List, map,
}
use os_projects.Xv6.Proc.{
  unused, sleeping, zombie, zero_first, of_proc, Proc, Ptable, nproc, is_child, is_zombie, wakeup1,
  exit_locked, reparent_from, exit, exit_start, chan_of, Scan, found, kids, no_kids, scan_children,
  wait, reap, Waited, after_scan, reaped, no_child, sleeps, sleep, open_files,
}
use os_projects.Xv6.Proc.Wakeup.{Woke, wakeup1-Woke}
use os_projects.Xv6.Proc.Family.{
  Awake, exit_locked-Awake, exit_locked-init, Passed, reparent_from-Passed, exit_locked-Passed,
}
use os_projects.Xv6.Proc.Search.{Scanned, scan_children-Scanned}

-- The table when `exit` takes the lock.
abbrev closed : ℕ → Ptable → Ptable
closed c t = record t {
  proc = update t.proc c (record (t.proc c) { ofile = map (λ _. 0) (t.proc c).ofile; cwd = 0 });
}

exit-eq :
    (c : ℕ) (t : Ptable) (fs : List ℕ) (u : Ptable)
    → exit c t ≡ some (fs, u)
    → (u ≡ exit_locked c (closed c t)) × (c ≢ t.initproc)
unfolding exit exit_start
exit-eq c t fs u e = ground arith

zombie_here : (c : ℕ) (t : Ptable) → ((exit_locked c t).proc c).state ≡ zombie
unfolding exit_locked
zombie_here c t =
    let rs = reparent_from nproc 0 c t.initproc (wakeup1 (chan_of (t.proc c).parent) t.proc) in
    ap (λ (p : Proc). p.state) (update_self rs c (record (rs c) { state = zombie }))

-- The exiting process keeps its parent, unless it is its own.
parent_here :
    (c q : ℕ) (t : Ptable)
    → c < nproc
    → c ≢ q
    → (t.proc c).parent ≡ some q
    → ((exit_locked c t).proc c).parent ≡ some q
unfolding exit_locked
parent_here c q t h ne e =
    let qs = wakeup1 (chan_of (t.proc c).parent) t.proc in
    let rs = reparent_from nproc 0 c t.initproc qs in
    let w : Woke (t.proc c) (qs c) = wakeup1-Woke (chan_of (t.proc c).parent) t.proc c in
    let p = reparent_from-Passed nproc 0 c t.initproc qs c (omega arith) (omega arith) in
    let before : (qs c).parent ≡ some q = w.same_parent ∙ e in
    ap (λ (p : Proc). p.parent) (update_self rs c (record (rs c) { state = zombie }))
    ∙ p.new_parent
    ∙ ground arith

not_child : (c init : ℕ) (p q : Proc) → c ≢ init → Passed c init p q → is_child c q ≡ false
not_child c init p q ne s = ground (arith, s.new_parent)

exit_facts :
    (c : ℕ) (t : Ptable) (fs : List ℕ) (u : Ptable)
    → exit c t ≡ some (fs, u)
    → ((u.proc c).state ≡ zombie)
      × ((j : ℕ) → j < nproc → c ≢ j → Passed c t.initproc (t.proc j) (u.proc j))
      × ((j : ℕ) → j < nproc → c ≢ j → is_child c (u.proc j) ≡ false)
exit_facts c t fs u e =
    let (same, ne) = exit-eq c t fs u e in
    let passed : (j : ℕ) → j < nproc → c ≢ j → Passed c t.initproc (t.proc j) (u.proc j) = λ j h k.
      subst (λ (v : Ptable). Passed c t.initproc (t.proc j) (v.proc j)) (sym same)
        (subst (λ p. Passed c t.initproc p ((exit_locked c (closed c t)).proc j))
          (update_ne t.proc c j _ k) (exit_locked-Passed c (closed c t) j h k)) in
    (
      ap (λ (v : Ptable). (v.proc c).state) same ∙ zombie_here c (closed c t),
      passed,
      λ j h k. not_child c t.initproc (t.proc j) (u.proc j) ne (passed j h k),
    )

true-ne-false : {b : Bool} → b ≡ true → b ≡ false → ⊥
true-ne-false p q = cc

-- With a zombie child in the table the scan finds one.
wait-reaped :
    (q c : ℕ) (u : Ptable) (r : Scan)
    → c < nproc
    → is_child q (u.proc c) ≡ true
    → is_zombie (u.proc c).state ≡ true
    → scan_children nproc 0 q false u.proc ≡ r
    → Scanned nproc 0 q false u.proc r
    → (pid : ℕ) × (v : Ptable) × (wait q u ≡ reaped pid v)
unfolding wait after_scan
wait-reaped q c u (found m) h x z e s = ((u.proc m).pid, reap m u, rw e)
wait-reaped q c u kids h x z e s = absurd (true-ne-false z (s.0 c (omega arith) (omega arith) x))
wait-reaped q c u no_kids h x z e s = absurd (true-ne-false x (s.0 c (omega arith) (omega arith)))

exit-some :
    (c : ℕ) (t : Ptable) → c ≢ t.initproc → (fs : List ℕ) × (u : Ptable) × (exit c t ≡ some (fs, u))
unfolding exit exit_start
exit-some c t ne =
    let f : (c == t.initproc) ≡ false = ground arith in
    (open_files (t.proc c).ofile, exit_locked c (closed c t), rw (exit, exit_start, f) refl)

-- After what `exit` by `c`, which is not `init`, does under the lock: `c` is a zombie; every other entry of the table
-- keeps its pid and channel, has `init` as parent if `c` was its parent and its own parent otherwise, and is in its
-- own state or was woken; `c` is nobody else's parent any more; no process sleeps on the entry of the parent of `c`,
-- nor, if `c` had a zombie as a child, on that of `init`.
pub exit_lem :
    (c : ℕ) (t : Ptable)
    → c ≢ t.initproc
    → (((exit_locked c t).proc c).state ≡ zombie)
      × ((j : ℕ) → j < nproc → c ≢ j → Passed c t.initproc (t.proc j) ((exit_locked c t).proc j))
      × ((j : ℕ) → j < nproc → c ≢ j → is_child c ((exit_locked c t).proc j) ≡ false)
      × ((j : ℕ) → j < nproc → Awake (chan_of (t.proc c).parent) ((exit_locked c t).proc j))
      × ((m : ℕ)
          → m < nproc
          → is_child c (t.proc m) ≡ true
          → is_zombie (t.proc m).state ≡ true
          → (j : ℕ) → j < nproc
          → Awake (some (of_proc t.initproc)) ((exit_locked c t).proc j))
exit_lem c t ne = (
  zombie_here c t,
  exit_locked-Passed c t,
  (λ j h k.
      not_child c t.initproc (t.proc j) ((exit_locked c t).proc j) ne
        (exit_locked-Passed c t j h k)),
  exit_locked-Awake c t,
  exit_locked-init c t,
)

exit_then_wait :
    (c q : ℕ) (t : Ptable) (fs : List ℕ) (u : Ptable)
    → c < nproc
    → c ≢ q
    → (t.proc c).parent ≡ some q
    → exit c t ≡ some (fs, u)
    → (pid : ℕ) × (v : Ptable) × (wait q u ≡ reaped pid v)
exit_then_wait c q t fs u h ne p e =
    let (same, other) = exit-eq c t fs u e in
    let child : is_child q (u.proc c) ≡ true =
      let up : (u.proc c).parent ≡ some q =
        ap (λ (v : Ptable). (v.proc c).parent) same
        ∙ parent_here c q (closed c t) h ne
            (ap (λ (r : Proc). r.parent) (update_self t.proc c _) ∙ p) in
      ground arith in
    let dead : is_zombie (u.proc c).state ≡ true = ap is_zombie ((exit_facts c t fs u e).0) in
    wait-reaped q c u (scan_children nproc 0 q false u.proc) h child dead refl
      (scan_children-Scanned nproc 0 q false u.proc)

-- If the parent of an exiting process, which is not `init`, waits next, it reaps a child at once.
pub exit-wait :
    (c q : ℕ) (t : Ptable)
    → c < nproc
    → c ≢ q
    → c ≢ t.initproc
    → (t.proc c).parent ≡ some q
    → (fs : List ℕ) × (u : Ptable) × (pid : ℕ) × (v : Ptable) × (exit c t ≡ some (fs, u))
      × (wait q u ≡ reaped pid v)
exit-wait c q t h ne ni p =
    let (fs, u, e) = exit-some c t ni in
    let (pid, v, w) = exit_then_wait c q t fs u h ne p e in (fs, u, pid, v, e, w)

-- The entry `m` is free for the next process, and the others are as they were.
abbrev Freed : Ptable → Ptable → ℕ → Type 0
Freed t u m =
    ((u.proc m).state ≡ unused)
    × ((u.proc m).pid ≡ 0)
    × ((u.proc m).parent ≡ none)
    × ((u.proc m).killed ≡ false)
    × ((u.proc m).kstack ≡ 0)
    × (u.nextpid ≡ t.nextpid)
    × ((j : ℕ) → m ≢ j → u.proc j ≡ t.proc j)

reap-Freed : (m : ℕ) (t : Ptable) → Freed t (reap m t) m
unfolding reap
reap-Freed m t = (
  ap (λ (p : Proc). p.state) here,
  ap (λ (p : Proc). p.pid) here,
  ap (λ (p : Proc). p.parent) here,
  ap (λ (p : Proc). p.killed) here,
  ap (λ (p : Proc). p.kstack) here,
  refl,
  λ j ne. update_ne t.proc m j _ ne,
)
  where
    q : Proc
    q = record (t.proc m) {
      kstack = 0;
      pid = 0;
      parent = none;
      name = zero_first (t.proc m).name;
      killed = false;
      state = unused;
    }

    here : update t.proc m q m ≡ q
    here = update_self t.proc m q

-- What a round of `wait` by `c` ends in.
abbrev pub Waits : ℕ → Ptable → Waited → Type 0
Waits c t (reaped pid u) =
    (m : ℕ) × (m < nproc)
    × (is_child c (t.proc m) ≡ true)
    × (is_zombie (t.proc m).state ≡ true)
    × (pid ≡ (t.proc m).pid)
    × Freed t u m
Waits c t no_child =
    ((j : ℕ) → j < nproc → is_child c (t.proc j) ≡ false)
    ⊎ (((t.proc c).killed ≡ true)
        × ((j : ℕ) → j < nproc → is_child c (t.proc j) ≡ true → is_zombie (t.proc j).state ≡ false))
Waits c t (sleeps u) =
    ((m : ℕ) × (m < nproc) × (is_child c (t.proc m) ≡ true))
    × ((j : ℕ) → j < nproc → is_child c (t.proc j) ≡ true → is_zombie (t.proc j).state ≡ false)
    × ((t.proc c).killed ≡ false)
    × ((u.proc c).state ≡ sleeping)
    × ((u.proc c).chan ≡ some (of_proc c))
    × ((j : ℕ) → c ≢ j → u.proc j ≡ t.proc j)

Waits-kids :
    (c : ℕ) (t : Ptable) (killed : Bool)
    → (t.proc c).killed ≡ killed
    → Scanned nproc 0 c false t.proc kids
    → Waits c t (if killed then no_child else sleeps (sleep c (of_proc c) t))
Waits-kids c t true k (a, b) = inr (k, λ j h x. a j (omega arith) (omega arith) x)
Waits-kids c t false k (a, inl f) = absurd (cc)
Waits-kids c t false k (a, inr (m, p, q, x)) = (
  (m, omega arith, x),
  (λ j h y. a j (omega arith) (omega arith) y),
  k,
  unfold sleep in ap (λ (p : Proc). p.state) (update_self t.proc c _),
  unfold sleep in ap (λ (p : Proc). p.chan) (update_self t.proc c _),
  λ j ne. unfold sleep in update_ne t.proc c j _ ne,
)

Waits-scan :
    (c : ℕ) (t : Ptable) (r : Scan)
    → Scanned nproc 0 c false t.proc r
    → Waits c t (after_scan c t r)
unfolding after_scan
Waits-scan c t (found m) (a, b, x, z) = (m, omega arith, x, z, refl, reap-Freed m t)
Waits-scan c t kids s = Waits-kids c t (t.proc c).killed refl s
Waits-scan c t no_kids s = inl (λ j h. s.0 j (omega arith) (omega arith))

-- A round of `wait` by `c` returns the pid of an entry that is a child of `c` and a zombie, and makes it unused, with
-- no pid, parent, mark or kernel stack, changing no other entry;
-- or it returns -1, if no entry is a child of `c`, or if `c` is killed and no child is a zombie; or
-- `c` sleeps on its own entry, if it is not killed and has children, none of them a zombie, and no other entry changes.
pub wait_lem : (c : ℕ) (t : Ptable) → Waits c t (wait c t)
unfolding wait
wait_lem c t =
    Waits-scan c t (scan_children nproc 0 c false t.proc)
      (scan_children-Scanned nproc 0 c false t.proc)
