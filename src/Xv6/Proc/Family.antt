-- ===== src/Xv6/Proc/Family.antt =====
-- `exit` and `wait`: parents, children and zombies.
use os_projects.Base.{
  ℕ, zero, suc, ◌+◌, ◌≤◌, ◌<◌, ◌≡◌, ◌≢◌, ◌⊎◌, inl, inr, refl, sym, ◌∙◌, subst, true, some, update,
  update_ne, update_self, Bool-cases, if◌then◌else◌, arith, dec_lt, ℕ_discrete, ◌&&◌, false, Option,
}
use os_projects.Xv6.Proc.{
  sleeping, runnable, zombie, of_proc, Chan, Proc, Ptable, nproc, is_child, is_sleeping, same_chan,
  is_zombie, wakeup1, exit_locked, reparent, reparent_from, chan_of,
}
use os_projects.Xv6.Proc.Wakeup.{Woke, Woke-refl, Woke-trans, wakeup1-Woke, wakeup1_lem, wake_cases}

-- The entry `q` is the entry `p`, passed to `init` if it was a child of `c`, and perhaps woken.
pub record Passed (c init : ℕ) (p q : Proc) : Type 0 where
  pub new_parent : q.parent ≡ (if is_child c p then some init else p.parent)
  pub same_pid : q.pid ≡ p.pid
  pub same_chan_field : q.chan ≡ p.chan
  pub moved : (q.state ≡ p.state) ⊎ ((p.state ≡ sleeping) × (q.state ≡ runnable))

Woke-Passed : {c init : ℕ} (p q r : Proc) → Woke p q → Passed c init q r → Passed c init p r
Woke-Passed p q r w s = record {
  new_parent = ground arith;
  same_pid = s.same_pid ∙ w.same_pid;
  same_chan_field = s.same_chan_field ∙ w.same_chan_field;
  moved = ground arith;
}

Passed-Woke : {c init : ℕ} (p q r : Proc) → Passed c init p q → Woke q r → Passed c init p r
Passed-Woke p q r s w = record {
  new_parent = w.same_parent ∙ s.new_parent;
  same_pid = w.same_pid ∙ s.same_pid;
  same_chan_field = w.same_chan_field ∙ s.same_chan_field;
  moved = ground arith;
}

-- The body of the loop leaves the other entries, but for waking them.
reparent-Woke :
    (i c init : ℕ) (ps : ℕ → Proc) (j : ℕ) → i ≢ j → Woke (ps j) (reparent i c init ps j)
unfolding reparent
reparent-Woke i c init ps j h =
    let p = ps i in
    let qs = update ps i (record p { parent = some init }) in
    let same : qs j ≡ ps j = update_ne ps i j (record p { parent = some init }) h in
    let woken : Woke (ps j) (wakeup1 (some (of_proc init)) qs j) =
      subst (λ (p' : Proc). Woke p' (wakeup1 (some (of_proc init)) qs j)) same
        (wakeup1-Woke (some (of_proc init)) qs j) in
    elim (Bool-cases (is_child c p)) [
      | inl e ↦ elim (Bool-cases (is_zombie p.state)) [
        | inl z ↦ rw (e, z) woken
        | inr z ↦ rw (e, z, same) (Woke-refl (ps j))
      ]
      | inr e ↦ rw e (Woke-refl (ps j))
    ]

reparent-Passed : (i c init : ℕ) (ps : ℕ → Proc) → Passed c init (ps i) (reparent i c init ps i)
unfolding reparent
reparent-Passed i c init ps =
    let p = ps i in
    let qs = update ps i (record p { parent = some init }) in
    let here : qs i ≡ record p { parent = some init } =
      update_self ps i (record p { parent = some init }) in
    let child : is_child c p ≡ true → Passed c init p (qs i) = λ e.
      rw here
        (record { new_parent = rw e; same_pid = refl; same_chan_field = refl; moved = inl refl }) in
    elim (Bool-cases (is_child c p)) [
      | inl e ↦ elim (Bool-cases (is_zombie p.state)) [
        | inl z ↦
            rw (e, z)
              (Passed-Woke p (qs i) (wakeup1 (some (of_proc init)) qs i) (child e)
                (wakeup1-Woke _ qs i))
        | inr z ↦ rw (e, z) (child e)
      ]
      | inr e ↦
          rw e (record {
            new_parent = rw e;
            same_pid = refl;
            same_chan_field = refl;
            moved = inl refl;
          })
    ]

reparent_from_below :
    (k i c init : ℕ) (ps : ℕ → Proc) (j : ℕ) → j < i → Woke (ps j) (reparent_from k i c init ps j)
unfolding reparent_from
reparent_from_below zero i c init ps j h = Woke-refl (ps j)
reparent_from_below (suc k) i c init ps j h =
    Woke-trans (reparent-Woke i c init ps j (omega arith))
      (reparent_from_below k (i + 1) c init (reparent i c init ps) j (omega arith))

pub reparent_from-Passed :
    (k i c init : ℕ) (ps : ℕ → Proc) (j : ℕ)
    → i ≤ j
    → j < i + k
    → Passed c init (ps j) (reparent_from k i c init ps j)
unfolding reparent_from
reparent_from-Passed zero i c init ps j h l = absurd (omega arith)
reparent_from-Passed (suc k) i c init ps j h l =
    let qs = reparent i c init ps in
    let r = reparent_from k (i + 1) c init qs j in
    let rest = reparent_from-Passed k (i + 1) c init qs j in
    let below = reparent_from_below k (i + 1) c init qs j in
    elim (dec_lt i j) [
      | yes p ↦
          Woke-Passed (ps j) (qs j) r (reparent-Woke i c init ps j (omega arith))
            (rest (omega arith) (omega arith))
      | no p ↦
          let e : i ≡ j = omega arith in
          Passed-Woke (ps j) (qs j) r
            (subst (λ m. Passed c init (ps m) (qs m)) e (reparent-Passed i c init ps))
            (below (omega arith))
    ]

-- What `exit` does under the lock to the other entries.
pub exit_locked-Passed :
    (c : ℕ) (t : Ptable) (j : ℕ)
    → j < nproc
    → c ≢ j
    → Passed c t.initproc (t.proc j) ((exit_locked c t).proc j)
unfolding exit_locked
exit_locked-Passed c t j h ne =
    let qs = wakeup1 (chan_of (t.proc c).parent) t.proc in
    let rs = reparent_from nproc 0 c t.initproc qs in
    let other : update rs c (record (rs c) { state = zombie }) j ≡ rs j =
      update_ne rs c j (record (rs c) { state = zombie }) ne in
    subst (Passed c t.initproc (t.proc j)) (sym other) (
      Woke-Passed (t.proc j) (qs j) (rs j) (wakeup1-Woke (chan_of (t.proc c).parent) t.proc j)
        (reparent_from-Passed nproc 0 c t.initproc qs j (omega arith) (omega arith)))

-- A process does not sleep on a channel.
abbrev pub Awake : Option Chan → Proc → Type 0
Awake d p = (is_sleeping p.state && same_chan p.chan d) ≡ false

still-Awake :
    (d : Option Chan) (p q : Proc)
    → q.chan ≡ p.chan
    → (q.state ≡ p.state) ⊎ ((p.state ≡ sleeping) × (q.state ≡ runnable))
    → Awake d p
    → Awake d q
still-Awake d p q e (inl s) a = rw (s, e) a
still-Awake d p q e (inr (s, r)) a = rw r refl

wakeup1-Awake : (d : Option Chan) (ps : ℕ → Proc) (j : ℕ) → j < nproc → Awake d (wakeup1 d ps j)
wakeup1-Awake d ps j h = rw (wakeup1_lem d ps j h) (wake_cases d (ps j)).0

-- The loop that passes the children on wakes nobody who was awake.
reparent_from-keeps :
    (k i c init : ℕ) (d : Option Chan) (ps : ℕ → Proc) (j : ℕ)
    → j < i + k
    → Awake d (ps j)
    → Awake d (reparent_from k i c init ps j)
reparent_from-keeps k i c init d ps j l a = elim (dec_lt j i) [
  | yes p ↦
      let w = reparent_from_below k i c init ps j p in
      still-Awake d (ps j) (reparent_from k i c init ps j) w.same_chan_field w.moved a
  | no p ↦
      let w = reparent_from-Passed k i c init ps j (omega arith) l in
      still-Awake d (ps j) (reparent_from k i c init ps j) w.same_chan_field w.moved a
]

-- A zombie stays the child that it is.
Woke-zombie :
    (c : ℕ) (p q : Proc)
    → Woke p q
    → is_child c p ≡ true
    → is_zombie p.state ≡ true
    → (is_child c q ≡ true) × (is_zombie q.state ≡ true)
Woke-zombie c p q w x z = (rw w.same_parent x, at w.moved)
  where
    at :
        (q.state ≡ p.state) ⊎ ((p.state ≡ sleeping) × (q.state ≡ runnable))
        → is_zombie q.state ≡ true
    at (inl e) = rw e z
    at (inr (s, r)) = let f : is_zombie p.state ≡ false = rw s refl in cc

-- A zombie that is passed on wakes `init`.
reparent-Awake :
    (i c init : ℕ) (ps : ℕ → Proc)
    → is_child c (ps i) ≡ true
    → is_zombie (ps i).state ≡ true
    → (j : ℕ) → j < nproc
    → Awake (some (of_proc init)) (reparent i c init ps j)
unfolding reparent
reparent-Awake i c init ps x z j h = rw (x, z) (wakeup1-Awake (some (of_proc init)) _ j h)

reparent_from-Awake :
    (k i c init : ℕ) (ps : ℕ → Proc) (m : ℕ)
    → i + k ≡ nproc
    → i ≤ m
    → m < i + k
    → is_child c (ps m) ≡ true
    → is_zombie (ps m).state ≡ true
    → (j : ℕ) → j < nproc
    → Awake (some (of_proc init)) (reparent_from k i c init ps j)
unfolding reparent_from
reparent_from-Awake zero i c init ps m e a b x z j h = absurd (omega arith)
reparent_from-Awake (suc k) i c init ps m e a b x z j h =
    let qs = reparent i c init ps in
    elim (ℕ_discrete i m) [
      | no ne ↦
          let (x', z') = Woke-zombie c (ps m) (qs m) (reparent-Woke i c init ps m ne) x z in
          reparent_from-Awake k (i + 1) c init qs m (omega arith) (omega arith) (omega arith) x' z'
            j h
      | yes s ↦ reparent_from-keeps k (i + 1) c init (some (of_proc init)) qs j (omega arith) (
          reparent-Awake i c init ps (subst (λ n. is_child c (ps n) ≡ true) (sym s) x)
            (subst (λ n. is_zombie (ps n).state ≡ true) (sym s) z) j h)
    ]

-- What `exit` does under the lock leaves a process awake that was, for a channel.
zombie-Awake :
    (c : ℕ) (t : Ptable) (d : Option Chan) (j : ℕ)
    → Awake d (reparent_from nproc 0 c t.initproc (wakeup1 (chan_of (t.proc c).parent) t.proc) j)
    → Awake d ((exit_locked c t).proc j)
unfolding exit_locked
zombie-Awake c t d j a =
    let rs = reparent_from nproc 0 c t.initproc (wakeup1 (chan_of (t.proc c).parent) t.proc) in
    elim (ℕ_discrete c j) [
      | yes s ↦
          subst (λ n. Awake d (update rs c (record (rs c) { state = zombie }) n)) s
            (rw (update_self rs c (record (rs c) { state = zombie })) refl)
      | no ne ↦ rw (update_ne rs c j (record (rs c) { state = zombie }) ne) a
    ]

pub exit_locked-Awake :
    (c : ℕ) (t : Ptable) (j : ℕ)
    → j < nproc
    → Awake (chan_of (t.proc c).parent) ((exit_locked c t).proc j)
exit_locked-Awake c t j h =
    let d = chan_of (t.proc c).parent in
    zombie-Awake c t d j (
      reparent_from-keeps nproc 0 c t.initproc d (wakeup1 d t.proc) j (omega arith)
        (wakeup1-Awake d t.proc j h))

pub exit_locked-init :
    (c : ℕ) (t : Ptable) (m : ℕ)
    → m < nproc
    → is_child c (t.proc m) ≡ true
    → is_zombie (t.proc m).state ≡ true
    → (j : ℕ) → j < nproc
    → Awake (some (of_proc t.initproc)) ((exit_locked c t).proc j)
exit_locked-init c t m l x z j h =
    let d = chan_of (t.proc c).parent in
    let qs = wakeup1 d t.proc in
    let (x', z') = Woke-zombie c (t.proc m) (qs m) (wakeup1-Woke d t.proc m) x z in
    zombie-Awake c t (some (of_proc t.initproc)) j (
      reparent_from-Awake nproc 0 c t.initproc qs m (omega arith) (omega arith) (omega arith) x' z'
        j h)
