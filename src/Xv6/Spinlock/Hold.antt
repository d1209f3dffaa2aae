-- ===== src/Xv6/Spinlock/Hold.antt =====
-- `acquire`, `release` and the sleep lock.
use os_projects.Base.{
  ℕ, ◌+◌, ◌-◌, ◌<◌, ◌≡◌, refl, ap, ◌∙◌, Bool, true, false, ◌==◌, ◌&&◌, if◌then◌else◌, arith, Option,
  none, some,
}
use os_projects.Xv6.Spinlock.{
  Cpu, Lock, pushcli, popcli, holding, held_by, acquire, release, try_xchg, panics, spins, acquired,
}
use os_projects.Xv6.Spinlock.Cli.{IsNested}

-- Inside a `pushcli`, `holding` answers and leaves the processor as it was.
holding_inside :
    (me : ℕ) (l : Lock) (c : Cpu)
    → 0 < c.ncli
    → c.flag_if ≡ false
    → holding me l c ≡ some (held_by me l, c)
unfolding holding pushcli popcli
holding_inside me l c h f = ground arith

-- `acquire` on a processor that holds the lock panics; else it takes a free lock, with interrupts off
-- one level deeper, and spins on a lock that is taken.
acquire_lem :
    (me : ℕ) (l : Lock) (c : Cpu)
    → acquire me l c ≡ (
        if held_by me l
        then panics
        else if l.locked
        then spins (pushcli c)
        else acquired (record { locked = true; cpu = some me }) (pushcli c))
unfolding acquire try_xchg
acquire_lem me l c =
    let h : holding me l (pushcli c) ≡ some (held_by me l, pushcli c) =
      holding_inside me l (pushcli c) (unfold pushcli in omega arith) (unfold pushcli in refl) in
    ground (arith, h)

acquire-eq :
    (me : ℕ) (l m : Lock) (c d : Cpu)
    → acquire me l c ≡ acquired m d
    → (m.locked ≡ true) × (held_by me m ≡ true) × (d ≡ pushcli c)
unfolding acquire try_xchg
acquire-eq me l m c d e =
    let h : holding me l (pushcli c) ≡ some (held_by me l, pushcli c) =
      holding_inside me l (pushcli c) (unfold pushcli in omega arith) (unfold pushcli in refl) in
    ground (arith, h)

popcli-pushcli :
    (c : Cpu)
    → IsNested c
    → (u : Cpu) × (popcli (pushcli c) ≡ some u) × (u.ncli ≡ c.ncli) × (u.flag_if ≡ c.flag_if)
unfolding popcli pushcli
popcli-pushcli c v = (
  record c {
    ncli = c.ncli + 1 - 1;
    intena = if c.ncli == 0 then c.flag_if else c.intena;
    flag_if =
        if (c.ncli + 1 - 1 == 0) && (if c.ncli == 0 then c.flag_if else c.intena)
        then true
        else false;
  },
  ground arith,
  omega arith,
  ground arith,
)

release_after :
    (me : ℕ) (m : Lock) (d u : Cpu)
    → holding me m d ≡ some (true, d)
    → popcli d ≡ some u
    → release me m d ≡ some (record { locked = false; cpu = none }, u)
unfolding release
release_after me m d u h p = rw (h, release) (rw (p))

-- Releasing a lock just acquired frees it, and restores the depth and the interrupt flag.
release-acquire :
    (me : ℕ) (l m : Lock) (c d : Cpu)
    → IsNested c
    → acquire me l c ≡ acquired m d
    → (u : Lock) × (e : Cpu) × (release me m d ≡ some (u, e))
      × (u.locked ≡ false)
      × (e.ncli ≡ c.ncli)
      × (e.flag_if ≡ c.flag_if)
release-acquire me l m c d v e =
    let (locked_eq, held, depth) = acquire-eq me l m c d e in
    let h : holding me m d ≡ some (true, d) =
      ap {B = Option (Bool × Cpu)} (λ x. x)
        (holding_inside me m d (rw depth (unfold pushcli in omega arith))
          (rw depth (unfold pushcli in refl)))
      ∙ ap (λ b. some (b, d)) held in
    let (u, p, q, r) = popcli-pushcli c v in
    (record { locked = false; cpu = none }, u, release_after me m d u h (rw depth p), refl, q, r)
