-- ===== src/Base/Xor.antt =====
-- The exclusive or of machine words: a group in which every element is its own inverse.
use Prim.Native.Nat.{
  ℕ, zero, suc, ◌+◌, ◌*◌, ◌/◌, ◌%◌, ◌≤◌, ◌<◌, digits, differ, bit_xor, bit_xor-bitwise,
}
use mathlib.Core.Path.{◌≡◌, refl, sym, ap, ◌∙◌}
use native.Mathlib.Omega.{arith}

-- The first `n` binary digits of an exclusive or.
abbrev parities : ℕ → ℕ → ℕ → ℕ
parities zero a b = 0
parities (suc n) a b = parities n (a / 2) (b / 2) * 2 + (a + b) % 2

differ_parity : (x y : ℕ) → x < 2 → y < 2 → differ x y ≡ (x + y) % 2
differ_parity zero zero h k = refl
differ_parity zero (suc zero) h k = refl
differ_parity zero (suc (suc y)) h k = absurd (omega arith)
differ_parity (suc zero) zero h k = refl
differ_parity (suc zero) (suc zero) h k = refl
differ_parity (suc zero) (suc (suc y)) h k = absurd (omega arith)
differ_parity (suc (suc x)) y h k = absurd (omega arith)

parities_zero : (n b : ℕ) → b ≤ n → parities n 0 b ≡ b
parities_zero zero b h = omega arith
parities_zero (suc n) b h = omega (arith, parities_zero n (b / 2) (omega arith))

parities-digits : (n m a b : ℕ) → a ≤ m → a + b ≤ n → digits (λ y. y) differ m a b ≡ parities n a b
parities-digits n zero zero b h k = sym (parities_zero n b (omega arith))
parities-digits n zero (suc a) b h k = absurd (omega arith)
parities-digits n (suc m) zero b h k = sym (parities_zero n b (omega arith))
parities-digits zero (suc m) (suc a) b h k = absurd (omega arith)
parities-digits (suc n) (suc m) (suc a) b h k = omega (
  arith,
  parities-digits n m (suc a / 2) (b / 2) (omega arith) (omega arith),
  differ_parity (suc a % 2) (b % 2) (omega arith) (omega arith),
)

bit_xor-parities : (n a b : ℕ) → a + b ≤ n → bit_xor a b ≡ parities n a b
bit_xor-parities n a b h = simp bit_xor-bitwise (parities-digits n a a b (omega arith) h)

parities_le : (n a b : ℕ) → parities n a b ≤ a + b
parities_le zero a b = omega arith
parities_le (suc n) a b = omega (arith, parities_le n (a / 2) (b / 2))

parities_self : (n a : ℕ) → parities n a a ≡ 0
parities_self zero a = refl
parities_self (suc n) a = omega (arith, parities_self n (a / 2))

parities_comm : (n a b : ℕ) → parities n a b ≡ parities n b a
parities_comm zero a b = refl
parities_comm (suc n) a b = omega (arith, parities_comm n (a / 2) (b / 2))

parities_half : (n a b : ℕ) → parities (suc n) a b / 2 ≡ parities n (a / 2) (b / 2)
parities_half n a b = omega arith

parities_assoc : (n a b c : ℕ) → parities n (parities n a b) c ≡ parities n a (parities n b c)
parities_assoc zero a b c = refl
parities_assoc (suc n) a b c = omega (
  arith,
  ap (λ t. parities n t (c / 2)) (parities_half n a b),
  ap (λ t. parities n (a / 2) t) (parities_half n b c),
  parities_assoc n (a / 2) (b / 2) (c / 2),
)

pub bit_xor_zero : (b : ℕ) → bit_xor 0 b ≡ b
bit_xor_zero b = bit_xor-parities b 0 b (omega arith) ∙ parities_zero b b (omega arith)

pub bit_xor_self : (a : ℕ) → bit_xor a a ≡ 0
bit_xor_self a = bit_xor-parities (a + a) a a (omega arith) ∙ parities_self (a + a) a

pub bit_xor_comm : (a b : ℕ) → bit_xor a b ≡ bit_xor b a
bit_xor_comm a b =
    bit_xor-parities (a + b) a b (omega arith)
    ∙ parities_comm (a + b) a b
    ∙ sym (bit_xor-parities (a + b) b a (omega arith))

-- Two exclusive ors, at as many digits as the three numbers can have.
bit_xor_left :
    (n a b c : ℕ) → a + b + c ≤ n → bit_xor (bit_xor a b) c ≡ parities n (parities n a b) c
bit_xor_left n a b c h =
    ap (λ t. bit_xor t c) (bit_xor-parities n a b (omega arith))
    ∙ bit_xor-parities n (parities n a b) c (omega (arith, parities_le n a b))

pub bit_xor_assoc : (a b c : ℕ) → bit_xor (bit_xor a b) c ≡ bit_xor a (bit_xor b c)
bit_xor_assoc a b c =
    let n : ℕ = a + b + c in
    bit_xor_left n a b c (omega arith)
    ∙ parities_assoc n a b c
    ∙ parities_comm n a (parities n b c)
    ∙ sym (bit_xor_left n b c a (omega arith))
    ∙ bit_xor_comm (bit_xor b c) a
