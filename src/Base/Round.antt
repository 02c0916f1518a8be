-- ===== src/Base/Round.antt =====
-- Indices that go round a circular array.
use native.Mathlib.Nat.{mod-eq_of_lt, mod-eq-sub-mod}
use Prim.Native.Nat.{ℕ, ◌+◌, ◌-◌, ◌%◌, ◌<◌}
use mathlib.Core.Path.{◌≡◌, ◌∙◌}
use native.Mathlib.Omega.{arith}
use native.Mathlib.Decide.{dec_lt}
use swift_srt.Base.Tests.{ltb, if◌then◌else◌}

-- An index less than twice round.
pub mod_once : (n m : ℕ) → n < m + m → n % m ≡ (if ltb n m then n else n - m)
mod_once n m h = elim (dec_lt n m) [
  | yes p ↦ mod-eq_of_lt p ∙ ground arith
  | no p ↦
      mod-eq-sub-mod {n = n} {m = m} (omega arith)
      ∙ (mod-eq_of_lt {n = n - m} {m = m} (omega arith) ∙ ground arith)
]
