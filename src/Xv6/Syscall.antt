-- ===== src/Xv6/Syscall.antt =====
-- xv6/base/syscall.c and xv6/base/sysproc.c: the arguments that a system call fetches from the memory of its
-- process, and the calls that pass them on. An int is its 32-bit pattern, and an int that is negative is one from
-- 2^31 on; `none` is the return of -1.
pub mod Args
mod Tests
use os_projects.Base.{
  ℕ, zero, suc, ◌+◌, ◌-◌, ◌*◌, ◌%◌, ◌^◌, ltb, leb, Bool, true, false, not, ◌&&◌, ◌||◌, ◌==◌,
  if◌then◌else◌, Option, none, some, List, [], ◌∷◌,
}
use os_projects.Memory.{int_at, read_bytes}
use os_projects.Xv6.Proc.{Ptable, kill}

-- What the kernel sees of a process that called it: its memory by the byte, `sz` and the stack pointer.
pub record User : Type 0 where
  pub mem : ℕ → ℕ
  pub sz : ℕ
  pub esp : ℕ

unfoldable pub fetchint : ℕ → User → Option ℕ
fetchint addr u =
    if leb u.sz addr || ltb u.sz ((addr + 4) % 2 ^ 32) then none else some (int_at u.mem addr)

-- The loop of `fetchstr` with `k` bytes up to the end of the memory.
pub string_length : ℕ → ℕ → (ℕ → ℕ) → Option ℕ
string_length zero s mem = none
string_length (suc k) s mem =
    let rest = string_length k (s + 1) mem in
    if mem s == 0 then some 0 else (elim rest [ none ↦ none | some n ↦ some (suc n) ])

-- `fetchstr`: the length of the string.
pub fetchstr : ℕ → User → Option ℕ
fetchstr addr u = if leb u.sz addr then none else string_length (u.sz - addr) addr u.mem

unfoldable pub argint : ℕ → User → Option ℕ
argint n u = fetchint ((u.esp + 4 + 4 * n) % 2 ^ 32) u

-- The test of `argptr` for the block of `size` bytes at `i`.
abbrev pub block_at : ℕ → User → ℕ → Option ℕ
block_at size u i =
    if leb (2 ^ 31) size || (leb u.sz i || ltb u.sz ((i + size) % 2 ^ 32)) then none else some i

pub argptr : ℕ → ℕ → User → Option ℕ
argptr n size u = elim (argint n u) [ none ↦ none | some i ↦ block_at size u i ]

-- `argstr`: the address and the length of the string.
pub argstr : ℕ → User → Option (ℕ × ℕ)
argstr n u = elim (argint n u) [
  | none ↦ none
  | some addr ↦ elim (fetchstr addr u) [ none ↦ none | some len ↦ some (addr, len) ]
]

-- The characters of that string.
abbrev pub argtext : ℕ → User → Option (List ℕ)
argtext n u = elim (argstr n u) [
  | none ↦ none
  | some (addr, len) ↦ some (read_bytes u.mem addr len)
]

-- The loop of `sys_exec` over the arguments, `k` of MAXARG being left.
pub exec_args : ℕ → ℕ → ℕ → User → Option (List (ℕ × ℕ))
exec_args zero i uargv u = none
exec_args (suc k) i uargv u =
    let rest = exec_args k (i + 1) uargv u in
    elim (fetchint ((uargv + 4 * i) % 2 ^ 32) u) [
      | none ↦ none
      | some uarg ↦ if uarg == 0 then some [] else (elim (fetchstr uarg u) [
        | none ↦ none
        | some len ↦ elim rest [ none ↦ none | some args ↦ some ((uarg, len) ∷ args) ]
      ])
    ]

-- `sys_exec` up to the call of `exec`: the path and the arguments.
pub sys_exec : User → Option ((ℕ × ℕ) × List (ℕ × ℕ))
sys_exec u = elim (argstr 0 u) [
  | none ↦ none
  | some path ↦ elim (argint 1 u) [
    | none ↦ none
    | some uargv ↦ elim (exec_args 32 0 uargv u) [ none ↦ none | some args ↦ some (path, args) ]
  ]
]

-- `sys_kill`: whether it returns 0, and the table. A pid is an int, as the argument is.
pub sys_kill : User → Ptable → Bool × Ptable
sys_kill u t = elim (argint 0 u) [ none ↦ (false, t) | some pid ↦ kill pid t ]

-- `sys_getpid` of the process with the entry `c`.
pub sys_getpid : ℕ → Ptable → ℕ
sys_getpid c t = (t.proc c).pid

-- A piece of `sys_sleep`, from its start or a wakeup, at the time `ticks`: the return of 0 or of -1, or a sleep
-- on `&ticks`.
pub data Slept : Type 0 where
  wakes : Slept
  fails : Slept
  waits : Slept

pub sleep_on : Bool → ℕ → ℕ → ℕ → Slept
sleep_on killed n ticks0 ticks =
    if ltb ((ticks + 2 ^ 32 - ticks0) % 2 ^ 32) n then if killed then fails else waits else wakes

-- `syscall`: the number in `eax` picks one of the 21 calls, which returns what goes to `eax`; else that is -1.
pub syscall : {S : Type 0} → (ℕ → S → ℕ × S) → ℕ → S → ℕ × S
syscall calls num s =
    if (not (num == 0) && ltb num (2 ^ 31)) && ltb num 22 then calls num s else (2 ^ 32 - 1, s)
