-- ===== src/Xv6/Syscall/Args.antt =====
-- What fetched arguments are: they lie in the memory of the process.
use os_projects.Base.{
  ℕ, zero, suc, ◌+◌, ◌-◌, ◌*◌, ◌%◌, ◌^◌, ◌≤◌, ◌<◌, ◌≡◌, ◌≢◌, ltb, leb, inl, inr, refl, sym, subst,
  ◌∙◌, true, ◌||◌, ◌==◌, if◌then◌else◌, Option, none, some, Bool-cases, Option-cases, arith, List,
  [], ◌∷◌, length, All,
}
use os_projects.Xv6.Syscall.{
  User, fetchint, string_length, fetchstr, block_at, argint, argptr, argstr, exec_args, sys_exec,
}

-- A pointer that `argptr` accepts for an int `size` starts a block of that size inside the process, if the
-- memory of the process ends at the kernel's base or before, however large the numbers on the stack are.
pub argptr-inside :
    (n size i : ℕ) (u : User)
    → u.sz ≤ 2 ^ 31
    → size < 2 ^ 32
    → argptr n size u ≡ some i
    → (i < u.sz) × (i + size ≤ u.sz)
unfolding argptr
argptr-inside n size i u top w e = elim (Option-cases (argint n u)) [
  | inl q ↦ absurd (ground arith)
  | inr (j, q) ↦ inside j (sym (branch (argint n u) j q) ∙ e)
]
  where
    branch :
        (r : Option ℕ) (j : ℕ)
        → r ≡ some j
        → elim r as (λ _. Option ℕ) [ none ↦ none | some i ↦ block_at size u i ] ≡ block_at size u j
    branch r j q = rw q refl

    inside : (j : ℕ) → block_at size u j ≡ some i → (i < u.sz) × (i + size ≤ u.sz)
    inside j b =
        elim (Bool-cases (leb (2 ^ 31) size || (leb u.sz j || ltb u.sz ((j + size) % 2 ^ 32)))) [
          | inl t ↦ absurd (ground arith)
          | inr t ↦ let same : j ≡ i = ground arith in (ground arith, ground arith)
        ]

-- What `fetchstr` says of the string at an address.
abbrev pub IsString : (ℕ → ℕ) → ℕ → ℕ → ℕ → Type 0
IsString mem a end n = (a + n < end) × (mem (a + n) ≡ 0) × ((j : ℕ) → j < n → mem (a + j) ≢ 0)

abbrev pub Fetches : ℕ → User → Option ℕ → Type 0
Fetches a u none = (j : ℕ) → a ≤ j → j < u.sz → u.mem j ≢ 0
Fetches a u (some n) = IsString u.mem a u.sz n

string_length_lem : (k a : ℕ) (u : User) → a + k ≡ u.sz → Fetches a u (string_length k a u.mem)
unfolding string_length
string_length_lem zero a u e = λ j l l'. absurd (omega arith)
string_length_lem (suc k) a u e = elim (Bool-cases (u.mem a == 0)) [
  | inl t ↦ rw t (omega arith, zero_at (a + 0) t (omega arith), λ j l. absurd (omega arith))
  | inr t ↦ rw t (
      longer (string_length k (a + 1) u.mem) (ground arith)
        (string_length_lem k (a + 1) u (omega arith)))
]
  where
    nonzero :
        (n j : ℕ)
        → j < suc n
        → u.mem a ≢ 0
        → ((j : ℕ) → j < n → u.mem (a + 1 + j) ≢ 0)
        → u.mem (a + j) ≢ 0
    nonzero n zero l z h = subst (λ i. u.mem i ≢ 0) (let e : a ≡ a + 0 = omega arith in e) z
    nonzero n (suc j) l z h =
        subst (λ i. u.mem i ≢ 0) (let e : a + 1 + j ≡ a + suc j = omega arith in e)
          (h j (omega arith))

    zero_at : (b : ℕ) → (u.mem a == 0) ≡ true → a ≡ b → u.mem b ≡ 0
    zero_at b t e = let z : u.mem a ≡ 0 = ground arith in subst (λ i. u.mem i ≡ 0) e z

    longer :
        (r : Option ℕ)
        → u.mem a ≢ 0
        → Fetches (a + 1) u r
        → Fetches a u (elim r [ none ↦ none | some n ↦ some (suc n) ])
    longer none z h = λ j l l'. elim (Bool-cases (a == j)) [
      | inl t ↦ subst (λ i. u.mem i ≢ 0) (let e : a ≡ j = ground arith in e) z
      | inr t ↦ h j (ground arith) l'
    ]
    longer (some n) z (l, m, h) =
        let shift : (j : ℕ) → a + 1 + j ≡ a + suc j = λ j. omega arith in
        (omega arith, subst (λ i. u.mem i ≡ 0) (shift n) m, λ j lt. nonzero n j lt z h)

-- `fetchstr` of an address in the process returns the length of the string there, which ends inside the
-- process, and fails only if no byte from there to the end of the process is 0; from outside it fails.
fetchstr_lem : (a : ℕ) (u : User) → Fetches a u (fetchstr a u)
unfolding fetchstr
fetchstr_lem a u = elim (Bool-cases (leb u.sz a)) [
  | inl t ↦ rw t (λ j l l'. absurd (ground arith))
  | inr t ↦ rw t (string_length_lem (u.sz - a) a u (ground arith))
]

abbrev pub IsArgument : User → ℕ × ℕ → Type 0
IsArgument u (a, n) = IsString u.mem a u.sz n

-- What `k` rounds of `sys_exec` fetch.
abbrev Arguments : ℕ → User → Option (List (ℕ × ℕ)) → Type 0
Arguments k u none = Unit
Arguments k u (some args) = (length args < k) × All (IsArgument u) args

exec_args_lem : (k i uargv : ℕ) (u : User) → Arguments k u (exec_args k i uargv u)
unfolding exec_args
exec_args_lem zero i uargv u = tt
exec_args_lem (suc k) i uargv u =
    round (fetchint ((uargv + 4 * i) % 2 ^ 32) u) (exec_args_lem k (i + 1) uargv u)
  where
    joined :
        (uarg n : ℕ) (r : Option (List (ℕ × ℕ)))
        → IsArgument u (uarg, n)
        → Arguments k u r
        → Arguments (suc k) u (elim r [ none ↦ none | some args ↦ some ((uarg, n) ∷ args) ])
    joined uarg n none a h = tt
    joined uarg n (some args) a (l, h) = (omega arith, (a, h))

    string :
        (uarg : ℕ) (s : Option ℕ)
        → Fetches uarg u s
        → Arguments k u (exec_args k (i + 1) uargv u)
        → Arguments (suc k) u (elim s [
          | none ↦ none
          | some len ↦ elim (exec_args k (i + 1) uargv u) [
            | none ↦ none
            | some args ↦ some ((uarg, len) ∷ args)
          ]
        ])
    string uarg none a h = tt
    string uarg (some n) a h = joined uarg n (exec_args k (i + 1) uargv u) a h

    round :
        (r : Option ℕ)
        → Arguments k u (exec_args k (i + 1) uargv u)
        → Arguments (suc k) u (elim r [
          | none ↦ none
          | some uarg ↦ if uarg == 0 then some [] else (elim (fetchstr uarg u) [
            | none ↦ none
            | some len ↦ elim (exec_args k (i + 1) uargv u) [
              | none ↦ none
              | some args ↦ some ((uarg, len) ∷ args)
            ]
          ])
        ])
    round none h = tt
    round (some uarg) h = elim (Bool-cases (uarg == 0)) [
      | inl t ↦ rw t (omega arith, tt)
      | inr t ↦ rw t (string uarg (fetchstr uarg u) (fetchstr_lem uarg u) h)
    ]

abbrev pub Execs : User → Option ((ℕ × ℕ) × List (ℕ × ℕ)) → Type 0
Execs u none = Unit
Execs u (some (path, args)) = IsArgument u path × ((length args < 32) × All (IsArgument u) args)

-- What `sys_exec` gives to `exec` are strings that end inside the process, the path and fewer than MAXARG
-- arguments, so that `argv` has room for the null pointer after them.
pub sys_exec_lem : (u : User) → Execs u (sys_exec u)
unfolding sys_exec argstr
sys_exec_lem u = path (argint 0 u)
  where
    all :
        (p : ℕ × ℕ) (r : Option (List (ℕ × ℕ)))
        → IsArgument u p
        → Arguments 32 u r
        → Execs u (elim r [ none ↦ none | some args ↦ some (p, args) ])
    all p none a h = tt
    all p (some args) a h = (a, h)

    array :
        (p : ℕ × ℕ) (r : Option ℕ)
        → IsArgument u p
        → Execs u (elim r [
          | none ↦ none
          | some uargv ↦ elim (exec_args 32 0 uargv u) [ none ↦ none | some args ↦ some (p, args) ]
        ])
    array p none a = tt
    array p (some uargv) a = all p (exec_args 32 0 uargv u) a (exec_args_lem 32 0 uargv u)

    text :
        (addr : ℕ) (s : Option ℕ)
        → Fetches addr u s
        → Execs u
            (elim (elim s as (λ _. Option (ℕ × ℕ)) [ none ↦ none | some len ↦ some (addr, len) ]) [
              | none ↦ none
              | some path ↦ elim (argint 1 u) [
                | none ↦ none
                | some uargv ↦ elim (exec_args 32 0 uargv u) [
                  | none ↦ none
                  | some args ↦ some (path, args)
                ]
              ]
            ])
    text addr none a = tt
    text addr (some n) a = array (addr, n) (argint 1 u) a

    path :
        (r : Option ℕ)
        → Execs u
            (elim (elim r as (λ _. Option (ℕ × ℕ)) [
              | none ↦ none
              | some addr ↦ elim (fetchstr addr u) as (λ _. Option (ℕ × ℕ)) [
                | none ↦ none
                | some len ↦ some (addr, len)
              ]
            ]) [
              | none ↦ none
              | some path ↦ elim (argint 1 u) [
                | none ↦ none
                | some uargv ↦ elim (exec_args 32 0 uargv u) [
                  | none ↦ none
                  | some args ↦ some (path, args)
                ]
              ]
            ])
    path none = tt
    path (some addr) = text addr (fetchstr addr u) (fetchstr_lem addr u)
