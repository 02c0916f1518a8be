-- ===== src/Base/Arrays.antt =====
-- A C++ array is a function of the index; a write returns the changed array.
use Prim.Native.Nat.{ℕ}
use mathlib.Core.Path.{◌≡◌}
use mathlib.Core.Logic.{◌≢◌}
use native.Mathlib.Omega.{arith}
use swift_srt.Base.Tests.{◌==◌, if◌then◌else◌}

module _ {ℓ} {A : Type ℓ} where
  -- `a[i] = v`
  abbrev pub set : (ℕ → A) → ℕ → A → ℕ → A
  set a i v j = if i == j then v else a j

  pub get-set_self : (a : ℕ → A) (i : ℕ) (v : A) → set a i v i ≡ v
  get-set_self a i v = ground arith

  pub get-set_ne : (a : ℕ → A) (i j : ℕ) (v : A) → i ≢ j → set a i v j ≡ a j
  get-set_ne a i j v h = ground arith
