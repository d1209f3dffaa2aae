-- ===== src/Xv6/Proc/Schedule.antt =====
-- The choice of `scheduler`, and what `kill` of pid 0 does to a later process.
use os_projects.Base.{
  ℕ, zero, suc, ◌+◌, ◌≤◌, ◌<◌, ◌≡◌, ◌≢◌, inl, inr, refl, ap, ◌∙◌, subst, Bool, true, false, none,
  some, update, update_ne, update_self, Bool-cases, if◌then◌else◌, arith, Option, ℕ_discrete,
}
use os_projects.Xv6.Proc.{
  unused, runnable, running, Proc, Ptable, nproc, is_sleeping, is_runnable, find_unused, alloc_at,
  allocproc, find_pid, kill, kill_at, next_runnable, schedule, run_at,
}

abbrev Next : ℕ → ℕ → (ℕ → Proc) → Option ℕ → Type 0
Next k i ps none = (j : ℕ) → i ≤ j → j < i + k → is_runnable (ps j).state ≡ false
Next k i ps (some m) =
    (i ≤ m)
    × (m < i + k)
    × (is_runnable (ps m).state ≡ true)
    × ((j : ℕ) → i ≤ j → j < m → is_runnable (ps j).state ≡ false)

Next-skip :
    (k i : ℕ) (ps : ℕ → Proc) (r : Option ℕ)
    → is_runnable (ps i).state ≡ false
    → Next k (i + 1) ps r
    → Next (suc k) i ps r
Next-skip k i ps none e a = λ j h l. elim (ℕ_discrete i j) [
  | yes p ↦ subst (λ m. is_runnable (ps m).state ≡ false) p e
  | no p ↦ a j (omega arith) (omega arith)
]
Next-skip k i ps (some m) e (a, b, x, f) = (omega arith, omega arith, x, λ j h l. at j h l)
  where
    at : (j : ℕ) → i ≤ j → j < m → is_runnable (ps j).state ≡ false
    at j h l = elim (ℕ_discrete i j) [
      | yes p ↦ subst (λ m. is_runnable (ps m).state ≡ false) p e
      | no p ↦ f j (omega arith) l
    ]

next_runnable-Next : (k i : ℕ) (ps : ℕ → Proc) → Next k i ps (next_runnable k i ps)
unfolding next_runnable
next_runnable-Next zero i ps = λ j h l. absurd (omega arith)
next_runnable-Next (suc k) i ps =
    let rest = next_runnable-Next k (i + 1) ps in
    elim (Bool-cases (is_runnable (ps i).state)) [
      | inl e ↦ rw e (omega arith, omega arith, e, λ j h l. absurd (omega arith))
      | inr e ↦ rw e (Next-skip k i ps (next_runnable k (i + 1) ps) e rest)
    ]

-- What one step of the scan of `scheduler`, over `k` entries from `i` on, ends in.
abbrev pub Schedules : ℕ → ℕ → Ptable → Option (ℕ × Ptable) → Type 0
Schedules k i t none = (j : ℕ) → i ≤ j → j < i + k → is_runnable (t.proc j).state ≡ false
Schedules k i t (some (m, u)) =
    (i ≤ m)
    × (m < i + k)
    × (is_runnable (t.proc m).state ≡ true)
    × ((j : ℕ) → i ≤ j → j < m → is_runnable (t.proc j).state ≡ false)
    × ((u.proc m).state ≡ running)
    × ((j : ℕ) → m ≢ j → u.proc j ≡ t.proc j)

Schedules-run :
    (k i : ℕ) (t : Ptable) (r : Option ℕ) → Next k i t.proc r → Schedules k i t (run_at t r)
unfolding run_at
Schedules-run k i t none a = a
Schedules-run k i t (some m) (a, b, x, f) = (
  a,
  b,
  x,
  f,
  ap (λ (p : Proc). p.state) (update_self t.proc m _),
  λ j ne. update_ne t.proc m j _ ne,
)

-- The scheduler's scan from an index on runs the first process from there that is runnable, and
-- changes no other entry; it passes to the end of the table only if none of them is runnable.
schedule_lem : (k i : ℕ) (t : Ptable) → Schedules k i t (schedule k i t)
unfolding schedule
schedule_lem k i t = Schedules-run k i t (next_runnable k i t.proc) (next_runnable-Next k i t.proc)

find_unused-congr :
    (k i : ℕ) (ps qs : ℕ → Proc)
    → ((j : ℕ) → (ps j).state ≡ (qs j).state)
    → find_unused k i ps ≡ find_unused k i qs
unfolding find_unused
find_unused-congr zero i ps qs h = refl
find_unused-congr (suc k) i ps qs h = rw (h i, find_unused-congr k (i + 1) ps qs h)

-- The table after `kill` marked an unused entry.
abbrev marked : ℕ → Ptable → Ptable
marked m t = record t { proc = update t.proc m (record (t.proc m) { killed = true }) }

alloc_at-killed :
    (t : Ptable) (m page : ℕ)
    → 0 < page
    → ((alloc_at page (marked m t) (some m)).0 ≡ some m)
      × (((alloc_at page (marked m t) (some m)).1.proc m).killed ≡ true)
unfolding alloc_at
alloc_at-killed t m page h = ground arith

kill_at-unused :
    (t : Ptable) (m : ℕ) → (t.proc m).state ≡ unused → kill_at t (some m) ≡ (true, marked m t)
unfolding kill_at
kill_at-unused t m s =
    let p = t.proc m in
    let e : (if is_sleeping p.state then runnable else p.state) ≡ p.state = ground arith in
    ap {B = Bool × Ptable}
      (λ st. (true, record t { proc = update t.proc m (record p { killed = true; state = st }) })) e

marked-state : (m : ℕ) (t : Ptable) (j : ℕ) → ((marked m t).proc j).state ≡ (t.proc j).state
marked-state m t j = elim (ℕ_discrete m j) [
  | yes p ↦
      subst (λ i. ((marked m t).proc i).state ≡ (t.proc i).state) p
        (ap (λ (q : Proc). q.state) (update_self t.proc m _))
  | no p ↦ ap (λ (q : Proc). q.state) (update_ne t.proc m j _ p)
]

-- If the first entry with pid 0 is also the first unused one, then `kill(0)` returns 0 and marks that
-- entry killed, and `allocproc` does not clear the mark: the next process starts out killed.
kill-allocproc :
    (t : Ptable) (m page : ℕ)
    → find_pid nproc 0 0 t.proc ≡ some m
    → find_unused nproc 0 t.proc ≡ some m
    → (t.proc m).state ≡ unused
    → 0 < page
    → ((kill 0 t).0 ≡ true)
      × ((allocproc page (kill 0 t).1).0 ≡ some m)
      × (((allocproc page (kill 0 t).1).1.proc m).killed ≡ true)
unfolding kill allocproc
kill-allocproc t m page e f s h =
    let here : kill_at t (find_pid nproc 0 0 t.proc) ≡ (true, marked m t) =
      ap (kill_at t) e ∙ kill_at-unused t m s in
    let slot : find_unused nproc 0 (marked m t).proc ≡ some m =
      find_unused-congr nproc 0 (marked m t).proc t.proc (marked-state m t) ∙ f in
    let (got, mark) = alloc_at-killed t m page h in rw (here, slot) (refl, got, mark)
