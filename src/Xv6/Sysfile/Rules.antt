-- ===== src/Xv6/Sysfile/Rules.antt =====
-- What holds of a call that returns: one rule for each way to build a call.
use os_projects.Base.{
  ℕ, zero, suc, ◌+◌, ◌≡◌, Bool, true, false, ◌==◌, if◌then◌else◌, Option, none, some, arith,
}
use os_projects.Xv6.Fs.{Fs, Res, done, sleeps, panics, M, bind}
use os_projects.Xv6.Sysfile.{
  Sys, SysM, nofile, ◌>>=◌, pure, panic, with_state, on_option, lift, begin_op, end_op, store,
}

-- Whether a descriptor has a file, as a number, and in how many of the first `k` descriptors it is.
abbrev pub names_file : Option ℕ → ℕ → ℕ
names_file none i = 0
names_file (some j) i = if j == i then 1 else 0

abbrev pub held : ℕ → (ℕ → Option ℕ) → ℕ → ℕ
held zero ofile i = 0
held (suc k) ofile i = names_file (ofile k) i + held k ofile i

-- The process holds its references by its descriptors; `others` are those of the rest of the kernel, and those that a
-- call has in hand. `n` transactions of the process are open.
pub record Sound (others : ℕ → ℕ) (n : ℕ) (s : Sys) : Type 0 where
  pub counted : (i : ℕ) → (s.files i).ref ≡ held nofile s.ofile i + others i
  pub balanced : s.ops ≡ n

-- A result that is a return satisfies a predicate.
abbrev pub Post {ℓ} : {A : Type ℓ} → (A → Type 0) → Res A → Type 0
Post P (done a) = P a
Post P sleeps = Unit
Post P panics = Unit

pub Post-bind {ℓ} :
    {A B : Type ℓ} (P : A → Type 0) (Q : B → Type 0) (r : Res A) (k : A → Res B)
    → Post P r
    → ((a : A) → P a → Post Q (k a))
    → Post Q (bind r k)
Post-bind P Q (done a) k p f = f a p
Post-bind P Q sleeps k p f = tt
Post-bind P Q panics k p f = tt

-- `m` leads from a sound state to a sound state, where it returns.
pub record Keeps {A : Type 0} (o : ℕ → ℕ) (n : ℕ) (m : SysM A) (o' : ℕ → ℕ) (n' : ℕ) : Type 0 where
  pub at : (s : Sys) → Sound o n s → Post (λ (r : A × Sys). Sound o' n' r.1) (m s)

module _ {A : Type 0} (o : ℕ → ℕ) (n : ℕ) where
  pub Keeps-pure : (a : A) → Keeps o n (pure a) o n
  unfolding pure
  Keeps-pure a = record { at = λ s h. h }

  pub Keeps-panic : (o' : ℕ → ℕ) (n' : ℕ) → Keeps {A = A} o n panic o' n'
  unfolding panic
  Keeps-panic o' n' = record { at = λ s h. tt }

  pub Keeps-lift : (m : M A) → Keeps o n (lift m) o n
  unfolding lift
  Keeps-lift m = record {
    at = λ s h.
        Post-bind (λ _. Unit) (λ (r : A × Sys). Sound o n r.1) (m s.fs)
          (λ (a, f). done (a, record s { fs = f })) (any (m s.fs))
          (λ (a, f) _. record { counted = h.counted; balanced = h.balanced });
  }
    where
      any : (r : Res (A × Fs)) → Post (λ _. Unit) r
      any (done a) = tt
      any sleeps = tt
      any panics = tt

module _ {A : Type 0} (o : ℕ → ℕ) (n : ℕ) (o' : ℕ → ℕ) (n' : ℕ) where
  pub Keeps-if :
      (b : Bool) (m m' : SysM A)
      → Keeps o n m o' n'
      → Keeps o n m' o' n'
      → Keeps o n (if b then m else m') o' n'
  Keeps-if true m m' k k' = k
  Keeps-if false m m' k k' = k'

  pub Keeps-with_state :
      (m : Sys → SysM A) → ((s : Sys) → Keeps o n (m s) o' n') → Keeps o n (with_state m) o' n'
  unfolding with_state
  Keeps-with_state m k = record { at = λ s h. (k s).at s h }

  pub Keeps-on_option :
      {B : Type 0} (r : Option B) (m : SysM A) (f : B → SysM A)
      → Keeps o n m o' n'
      → ((b : B) → Keeps o n (f b) o' n')
      → Keeps o n (on_option r m f) o' n'
  unfolding on_option
  Keeps-on_option none m f k k' = k
  Keeps-on_option (some b) m f k k' = k' b

pub Keeps-bind :
    {A B : Type 0} (o : ℕ → ℕ) (n : ℕ) (o' : ℕ → ℕ) (n' : ℕ) (o'' : ℕ → ℕ) (n'' : ℕ) (m : SysM A)
    (f : A → SysM B)
    → Keeps o n m o' n'
    → ((a : A) → Keeps o' n' (f a) o'' n'')
    → Keeps o n (m >>= f) o'' n''
unfolding ◌>>=◌
Keeps-bind {A} {B} o n o' n' o'' n'' m f k k' = record {
  at = λ s h.
      Post-bind (λ (r : A × Sys). Sound o' n' r.1) (λ (r : B × Sys). Sound o'' n'' r.1) (m s)
        (λ (a, t). f a t) (k.at s h) (λ (a, t) h'. (k' a).at t h');
}

pub Keeps-begin_op : (o : ℕ → ℕ) (n : ℕ) → Keeps o n begin_op o (suc n)
unfolding begin_op
Keeps-begin_op o n = record {
  at = λ s h. record { counted = h.counted; balanced = omega (arith, h.balanced) };
}

pub Keeps-end_op : (o : ℕ → ℕ) (n : ℕ) → Keeps o (suc n) end_op o n
unfolding end_op
Keeps-end_op o n = record {
  at = λ s h. record { counted = h.counted; balanced = omega (arith, h.balanced) };
}

pub Keeps-store : (o : ℕ → ℕ) (n : ℕ) (w : (ℕ → ℕ) → ℕ → ℕ) → Keeps o n (store w) o n
unfolding store
Keeps-store o n w = record { at = λ s h. record { counted = h.counted; balanced = h.balanced } }

-- The rules for a block, by its first call.
module _ {B : Type 0} (o : ℕ → ℕ) (n : ℕ) (o' : ℕ → ℕ) (n' : ℕ) where
  pub Keeps-then :
      {A : Type 0} (m : SysM A) (f : A → SysM B)
      → Keeps o n m o n
      → ((a : A) → Keeps o n (f a) o' n')
      → Keeps o n (m >>= f) o' n'
  Keeps-then m f = Keeps-bind o n o n o' n' m f

  pub Keeps-begin_then :
      (f : Unit {0} → SysM B)
      → ((a : Unit {0}) → Keeps o (suc n) (f a) o' n')
      → Keeps o n (begin_op >>= f) o' n'
  Keeps-begin_then f = Keeps-bind o n o (suc n) o' n' begin_op f (Keeps-begin_op o n)

  pub Keeps-end_then :
      (f : Unit {0} → SysM B)
      → ((a : Unit {0}) → Keeps o n (f a) o' n')
      → Keeps o (suc n) (end_op >>= f) o' n'
  Keeps-end_then f = Keeps-bind o (suc n) o n o' n' end_op f (Keeps-end_op o n)

pub ruleset keeps_rules = (
  Keeps-pure, Keeps-panic, Keeps-lift, Keeps-if, Keeps-with_state, Keeps-on_option,
  Keeps-begin_then, Keeps-end_then, Keeps-then, Keeps-store,
)
