-- ===== src/Rendezvous/Cookies.antt =====
-- The contest gives the two peers their roles.
use swift_srt.Base.{
  ◌+◌, ◌^◌, ◌<◌, ◌≤◌, ◌≡◌, ◌≢◌, ◌⊎◌, inl, inr, arith, ℤ, pos, pos_part, neg_part, ltb_ℤ, Bool-cases,
}
use swift_srt.Rendezvous.{HandshakeSide, draw, initiator, responder, sub_int32, cookie_contest}

-- The values of an `int32_t`.
abbrev pub InInt32 : ℤ → Type 0
InInt32 a = (pos_part a < 2 ^ 31) × (neg_part a ≤ 2 ^ 31)

abbrev pub Opposite : HandshakeSide → HandshakeSide → Type 0
Opposite x y = (x ≡ initiator × y ≡ responder) ⊎ (x ≡ responder × y ≡ initiator)

-- The cookies are 2^31 apart.
abbrev pub HalfApart : ℤ → ℤ → Type 0
HalfApart a b =
    (pos_part a + neg_part b ≡ pos_part b + neg_part a + 2 ^ 31)
    ⊎ (pos_part b + neg_part a ≡ pos_part a + neg_part b + 2 ^ 31)

-- The contest between two peers of which each sees the other's cookie, neither of them 0: with equal
-- cookies it stays a draw for both, with cookies exactly 2^31 apart both become responder, and in all
-- other cases one becomes initiator and the other responder.
pub cookie_contest_roles :
    (a b : ℤ)
    → InInt32 a
    → InInt32 b
    → a ≢ pos 0
    → b ≢ pos 0
    → (a ≡ b → (cookie_contest draw a b ≡ draw) × (cookie_contest draw b a ≡ draw))
      × (HalfApart a b
          → (cookie_contest draw a b ≡ responder) × (cookie_contest draw b a ≡ responder))
      × (a ≢ b → ¬ HalfApart a b → Opposite (cookie_contest draw a b) (cookie_contest draw b a))
unfolding cookie_contest
cookie_contest_roles a b ra rb na nb = (
  λ e. ground arith,
  λ h. ground arith,
  λ ne h. elim (Bool-cases (ltb_ℤ (pos 0) (sub_int32 a b))) [
    | inl e ↦ inl (ground (arith, e), ground (arith, e))
    | inr e ↦ inr (ground (arith, e), ground (arith, e))
  ],
)
