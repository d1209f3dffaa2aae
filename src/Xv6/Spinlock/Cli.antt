-- ===== src/Xv6/Spinlock/Cli.antt =====
-- The interrupt flag across nested locks.
use os_projects.Base.{
  ℕ, zero, suc, ◌+◌, ◌-◌, ◌<◌, ◌≡◌, refl, true, false, ◌==◌, ◌&&◌, if◌then◌else◌, arith, Option,
  none, some,
}
use os_projects.Xv6.Spinlock.{Cpu, pushcli, popcli}

-- Inside a `pushcli` interrupts are off, and outside of all the saved flag is the present one.
abbrev pub IsNested : Cpu → Type 0
IsNested c = (0 < c.ncli → c.flag_if ≡ false)

-- `n` calls of `pushcli`, then as many of `popcli`.
pub push_times : ℕ → Cpu → Cpu
push_times zero c = c
push_times (suc n) c = push_times n (pushcli c)

pub pop_times : ℕ → Cpu → Option Cpu
pop_times zero c = some c
pop_times (suc n) c = elim (popcli c) [ none ↦ none | some d ↦ pop_times n d ]

-- The processor after `n` more calls of `pushcli`, `n` positive.
pub pushed : ℕ → Cpu → Cpu
pushed n c = record c {
  ncli = c.ncli + n;
  intena = if c.ncli == 0 then c.flag_if else c.intena;
  flag_if = false;
}

push_times-pushed : (n : ℕ) (c : Cpu) → IsNested c → push_times (suc n) c ≡ pushed (suc n) c
unfolding push_times pushed pushcli
push_times-pushed zero c v = ground arith
push_times-pushed (suc n) c v = ground (arith, push_times-pushed n (pushcli c) (λ _. refl))

popcli-pushed : (n : ℕ) (c : Cpu) → popcli (pushed (suc (suc n)) c) ≡ some (pushed (suc n) c)
unfolding popcli pushed
popcli-pushed n c =
    let e : c.ncli + suc (suc n) - 1 ≡ c.ncli + suc n = omega arith in ground (arith, e)

pop_times-pushed :
    (n : ℕ) (c : Cpu)
    → IsNested c
    → (d : Cpu) × (pop_times (suc n) (pushed (suc n) c) ≡ some d)
      × (d.ncli ≡ c.ncli)
      × (d.flag_if ≡ c.flag_if)
unfolding pop_times
pop_times-pushed zero c v =
    unfold pushed popcli in
    (
      record c {
        intena = if c.ncli == 0 then c.flag_if else c.intena;
        flag_if =
            if (c.ncli + 1 - 1 == 0) && (if c.ncli == 0 then c.flag_if else c.intena)
            then true
            else false;
      },
      ground arith,
      refl,
      ground arith,
    )
pop_times-pushed (suc n) c v =
    let (d, e, f, g) = pop_times-pushed n c v in (d, ground (arith, popcli-pushed n c), f, g)

-- On a processor whose interrupts are off inside every `pushcli`, `n` calls of `pushcli` and then `n`
-- of `popcli` do not panic, and restore the depth and the interrupt flag.
pop_times-push_times :
    (n : ℕ) (c : Cpu)
    → IsNested c
    → (d : Cpu) × (pop_times n (push_times n c) ≡ some d)
      × (d.ncli ≡ c.ncli)
      × (d.flag_if ≡ c.flag_if)
pop_times-push_times zero c v = unfold push_times pop_times in (c, refl, refl, refl)
pop_times-push_times (suc n) c v = rw (push_times-pushed n c v) (pop_times-pushed n c v)
