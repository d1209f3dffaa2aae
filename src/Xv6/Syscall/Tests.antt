-- ===== src/Xv6/Syscall/Tests.antt =====
-- Arguments of a process of 4096 bytes.
use os_projects.Base.{ℕ, ◌+◌, ◌≤◌, ◌<◌, ◌≡◌, refl, ◌==◌, if◌then◌else◌, some, [], ◌∷◌, arith}
use os_projects.Memory.{int_at}
use os_projects.Xv6.Syscall.{
  User, fetchint, string_length, fetchstr, argint, argptr, argstr, exec_args, sys_exec,
}
use os_projects.Xv6.Syscall.Args.{argptr-inside, Execs, sys_exec_lem}

-- The stack at 4000 has a return address, the path at 100 and `argv` at 200, which has one argument at 300.
abbrev memory : ℕ → ℕ
memory a =
    if a == 4004
    then 100
    else if a == 4008
    then 200
    else if a == 200
    then 44
    else if a == 201
    then 1
    else if a == 100
    then 115
    else if a == 101
    then 104
    else if a == 300
    then 120
    else 0

abbrev caller : User
caller = record { mem = memory; sz = 4096; esp = 4000 }

argptr-inside_example : (100 < 4096) × (100 + 3000 ≤ 4096)
unfolding argptr argint fetchint int_at
argptr-inside_example = argptr-inside 0 3000 100 caller (omega arith) (omega arith) refl

sys_exec_lem_example : Execs caller (sys_exec caller)
sys_exec_lem_example = sys_exec_lem caller

exec_sh : sys_exec caller ≡ some ((100, 2), (300, 1) ∷ [])
unfolding sys_exec argstr argint fetchint fetchstr string_length exec_args int_at
exec_sh = refl
