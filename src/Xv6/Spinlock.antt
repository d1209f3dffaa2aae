-- ===== src/Xv6/Spinlock.antt =====
-- xv6/base/spinlock.c and sleeplock.c: the locks, with each processor's interrupt bookkeeping.
pub mod Cli
pub mod Hold
use os_projects.Base.{
  ℕ, zero, suc, ◌+◌, ◌-◌, Bool, true, false, ◌&&◌, ◌||◌, not, ◌==◌, if◌then◌else◌, Option, none,
  some, update,
}

-- `struct cpu`, as far as locks use it: `flag_if` is the interrupt flag of the processor.
pub record Cpu : Type 0 where
  pub ncli : ℕ
  pub intena : Bool
  pub flag_if : Bool

-- `struct spinlock`; `cpu` is the index of the holder, and `none` for null.
pub record Lock : Type 0 where
  pub locked : Bool
  pub cpu : Option ℕ

pub initlock : Lock
initlock = record { locked = false; cpu = none }

pub pushcli : Cpu → Cpu
pushcli c = record c {
  ncli = c.ncli + 1;
  intena = if c.ncli == 0 then c.flag_if else c.intena;
  flag_if = false;
}

-- A panic is `none`. `ncli` is never below 0 before the call.
pub popcli : Cpu → Option Cpu
popcli c =
    if c.flag_if
    then none
    else if c.ncli == 0
    then none
    else some (record c {
      ncli = c.ncli - 1;
      flag_if = if (c.ncli - 1 == 0) && c.intena then true else c.flag_if;
    })

-- `lock->locked && lock->cpu == mycpu()` on the processor `me`.
abbrev pub held_by : ℕ → Lock → Bool
held_by me l = l.locked && elim l.cpu [ none ↦ false | some i ↦ i == me ]

-- `holding` by the processor `me`: the answer, and the processor after its pushcli and popcli.
pub holding : ℕ → Lock → Cpu → Option (Bool × Cpu)
holding me l c = elim (popcli (pushcli c)) [ none ↦ none | some d ↦ some (held_by me l, d) ]

-- What one try of `acquire` ends in: a panic, another turn of the spin loop, or the lock.
pub data Acquired : Type 0 where
  panics : Acquired
  spins : Cpu → Acquired
  acquired : Lock → Cpu → Acquired

-- The spin loop of `acquire` once: `xchg` of the lock word with 1.
pub try_xchg : ℕ → Lock → Cpu → Acquired
try_xchg me l c = if l.locked then spins c else acquired (record { locked = true; cpu = some me }) c

-- `acquire` up to its first try; after `spins` it tries again by `try_xchg`.
pub acquire : ℕ → Lock → Cpu → Acquired
acquire me l c = elim (holding me l (pushcli c)) [
  | none ↦ panics
  | some (held, d) ↦ if held then panics else try_xchg me l d
]

pub release : ℕ → Lock → Cpu → Option (Lock × Cpu)
release me l c = elim (holding me l c) [
  | none ↦ none
  | some (held, d) ↦
      if held
      then (elim (popcli d) [
        | none ↦ none
        | some e ↦ some (record { locked = false; cpu = none }, e)
      ])
      else none
]

-- `struct sleeplock` apart from its spin lock, under which each of the calls below runs.
pub record SleepLock : Type 0 where
  pub locked : Bool
  pub pid : ℕ

pub initsleeplock : SleepLock
initsleeplock = record { locked = false; pid = 0 }

-- One turn of the loop of `acquiresleep` by the process `pid`: `none` if it sleeps.
unfoldable pub acquiresleep : ℕ → SleepLock → Option SleepLock
acquiresleep pid l = if l.locked then none else some (record { locked = true; pid = pid })

-- `releasesleep`; all that sleep on the lock are woken.
pub releasesleep : SleepLock → SleepLock
releasesleep l = record { locked = false; pid = 0 }

unfoldable pub holdingsleep : ℕ → SleepLock → Bool
holdingsleep pid l = l.locked && (l.pid == pid)
