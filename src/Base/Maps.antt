-- ===== src/Base/Maps.antt =====
-- Maps from numbers: a C array, a disk or a memory, as a function of the index.
use Prim.Native.Nat.{ℕ}
use mathlib.Core.Path.{◌≡◌, ◌∙◌, subst, fun_ext}
use native.Mathlib.Decide.{ℕ_discrete}
use mathlib.Core.Logic.{◌≢◌}
use native.Mathlib.Omega.{arith}
use os_projects.Base.Tests.{◌==◌, if◌then◌else◌}

module _ {ℓ} {A : Type ℓ} where
  -- `f[i] = v`
  abbrev pub update : (ℕ → A) → ℕ → A → ℕ → A
  update f i v j = if i == j then v else f j

  pub update_self : (f : ℕ → A) (i : ℕ) (v : A) → update f i v i ≡ v
  update_self f i v = ground arith

  pub update_ne : (f : ℕ → A) (i j : ℕ) (v : A) → i ≢ j → update f i v j ≡ f j
  update_ne f i j v h = ground arith

  -- What was there is put back.
  pub update-update_back : (f : ℕ → A) (i : ℕ) (x y : A) → y ≡ f i → update (update f i x) i y ≡ f
  update-update_back f i x y e = fun_ext (λ j. elim (ℕ_discrete i j) [
    | yes p ↦ subst (λ m. update (update f i x) i y m ≡ f m) p (update_self (update f i x) i y ∙ e)
    | no ne ↦ update_ne (update f i x) i j y ne ∙ update_ne f i j x ne
  ])
