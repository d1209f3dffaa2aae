-- ===== src/Xv6/Proc/Wakeup.antt =====
-- `wakeup1`, entry by entry, and what it leaves asleep.
use os_projects.Base.{
  ℕ, zero, suc, ◌+◌, ◌≤◌, ◌<◌, ◌≡◌, ◌⊎◌, inl, inr, refl, ap, sym, ◌∙◌, true, false, update,
  update_ne, update_self, Bool-cases, ◌&&◌, arith, dec_lt, Option,
}
use os_projects.Xv6.Proc.{
  ProcState, sleeping, runnable, Chan, Proc, Ptable, nproc, is_sleeping, same_chan, wake,
  wakeup_from, wakeup1, wakeup,
}

wakeup_from_below :
    (k i : ℕ) (c : Option Chan) (ps : ℕ → Proc) (j : ℕ) → j < i → wakeup_from k i c ps j ≡ ps j
unfolding wakeup_from
wakeup_from_below zero i c ps j h = refl
wakeup_from_below (suc k) i c ps j h =
    wakeup_from_below k (i + 1) c (update ps i (wake c (ps i))) j (omega arith)
    ∙ update_ne ps i j (wake c (ps i)) (omega arith)

wakeup_from_in :
    (k i : ℕ) (c : Option Chan) (ps : ℕ → Proc) (j : ℕ)
    → i ≤ j
    → j < i + k
    → wakeup_from k i c ps j ≡ wake c (ps j)
unfolding wakeup_from
wakeup_from_in zero i c ps j h l = absurd (omega arith)
wakeup_from_in (suc k) i c ps j h l =
    let qs = update ps i (wake c (ps i)) in
    let rest = wakeup_from_in k (i + 1) c qs j in
    elim (dec_lt i j) [
      | yes p ↦
          rest (omega arith) (omega arith)
          ∙ ap (wake c) (update_ne ps i j (wake c (ps i)) (omega arith))
      | no p ↦
          let e : i ≡ j = omega arith in
          wakeup_from_below k (i + 1) c qs j (omega arith)
          ∙ ap qs (sym e)
          ∙ update_self ps i (wake c (ps i))
          ∙ ap (λ m. wake c (ps m)) e
    ]

-- The loop of `wakeup1` does its body's work at every entry of the table, and nothing outside.
pub wakeup1_lem :
    (c : Option Chan) (ps : ℕ → Proc) (j : ℕ) → j < nproc → wakeup1 c ps j ≡ wake c (ps j)
unfolding wakeup1
wakeup1_lem c ps j h = wakeup_from_in nproc 0 c ps j (omega arith) (omega arith)

wakeup_from_above :
    (k i : ℕ) (c : Option Chan) (ps : ℕ → Proc) (j : ℕ) → i + k ≤ j → wakeup_from k i c ps j ≡ ps j
unfolding wakeup_from
wakeup_from_above zero i c ps j h = refl
wakeup_from_above (suc k) i c ps j h =
    wakeup_from_above k (i + 1) c (update ps i (wake c (ps i))) j (omega arith)
    ∙ update_ne ps i j (wake c (ps i)) (omega arith)

-- At every index, `wakeup1` does the body's work or nothing.
wakeup1-cases :
    (c : Option Chan) (ps : ℕ → Proc) (j : ℕ)
    → (wakeup1 c ps j ≡ wake c (ps j)) ⊎ (wakeup1 c ps j ≡ ps j)
unfolding wakeup1
wakeup1-cases c ps j = elim (dec_lt j nproc) [
  | yes p ↦ inl (wakeup1_lem c ps j p)
  | no p ↦ inr (wakeup_from_above nproc 0 c ps j (omega arith))
]

-- What the body of the loop does to a process.
pub wake_cases :
    (c : Option Chan) (p : Proc)
    → ((is_sleeping (wake c p).state && same_chan (wake c p).chan c) ≡ false)
      × ((is_sleeping p.state && same_chan p.chan c) ≡ true
          → wake c p ≡ record p { state = runnable })
      × ((is_sleeping p.state && same_chan p.chan c) ≡ false → wake c p ≡ p)
unfolding wake
wake_cases c p = elim (Bool-cases (is_sleeping p.state && same_chan p.chan c)) [
  | inl e ↦ (rw e, (λ _. rw e), (λ f. cc))
  | inr e ↦ (rw e e, (λ f. cc), (λ _. rw e))
]

-- After `wakeup(c)` no process of the table sleeps on `c`; a process that slept on it is runnable,
-- and each other process is as before.
pub wakeup_lem :
    (c : Option Chan) (t : Ptable) (j : ℕ)
    → j < nproc
    → let p = t.proc j in
      let q = (wakeup c t).proc j in
      ((is_sleeping q.state && same_chan q.chan c) ≡ false)
      × (((is_sleeping p.state && same_chan p.chan c) ≡ true) → q ≡ record p { state = runnable })
      × (((is_sleeping p.state && same_chan p.chan c) ≡ false) → q ≡ p)
unfolding wakeup
wakeup_lem c t j h = rw (wakeup1_lem c t.proc j h) (wake_cases c (t.proc j))

-- The entry `q` is the entry `p`, or `p` woken.
pub record Woke (p q : Proc) : Type 0 where
  pub same_parent : q.parent ≡ p.parent
  pub same_pid : q.pid ≡ p.pid
  pub same_chan_field : q.chan ≡ p.chan
  pub same_killed : q.killed ≡ p.killed
  pub moved : (q.state ≡ p.state) ⊎ ((p.state ≡ sleeping) × (q.state ≡ runnable))

pub Woke-refl : (p : Proc) → Woke p p
Woke-refl p = record {
  same_parent = refl;
  same_pid = refl;
  same_chan_field = refl;
  same_killed = refl;
  moved = inl refl;
}

is_sleeping-eq : (s : ProcState) → is_sleeping s ≡ true → s ≡ sleeping
is_sleeping-eq sleeping h = refl
is_sleeping-eq _ h = cc

wake-Woke : (c : Option Chan) (p : Proc) → Woke p (wake c p)
wake-Woke c p = elim (Bool-cases (is_sleeping p.state && same_chan p.chan c)) [
  | inl e ↦ rw ((wake_cases c p).1 e) (record {
    same_parent = refl;
    same_pid = refl;
    same_chan_field = refl;
    same_killed = refl;
    moved = inr (is_sleeping-eq p.state (ground arith), refl);
  })
  | inr e ↦ rw ((wake_cases c p).2 e) (Woke-refl p)
]

pub wakeup1-Woke : (c : Option Chan) (ps : ℕ → Proc) (j : ℕ) → Woke (ps j) (wakeup1 c ps j)
wakeup1-Woke c ps j = elim (wakeup1-cases c ps j) [
  | inl e ↦ rw e (wake-Woke c (ps j))
  | inr e ↦ rw e (Woke-refl (ps j))
]

pub Woke-trans : {p q r : Proc} → Woke p q → Woke q r → Woke p r
Woke-trans a b = record {
  same_parent = b.same_parent ∙ a.same_parent;
  same_pid = b.same_pid ∙ a.same_pid;
  same_chan_field = b.same_chan_field ∙ a.same_chan_field;
  same_killed = b.same_killed ∙ a.same_killed;
  moved = ground arith;
}
