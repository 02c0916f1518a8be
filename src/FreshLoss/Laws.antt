-- ===== src/FreshLoss/Laws.antt =====
-- What is left of a range of losses, in the numbers of a stream that never wraps.
use swift_srt.Base.{
  ℕ, ◌+◌, ◌-◌, ◌<◌, ◌≤◌, ◌≡◌, ◌≢◌, ◌↔◌, ◌⊎◌, arith, ltb, ◌==◌, if◌then◌else◌, ◌||◌,
}
use swift_srt.SeqNo.{wrap}
use swift_srt.SeqNo.Unwrapped.{incseq-wrap, decseq_of_pos}
use swift_srt.SeqNo.Compare.{Near, seqcmp-lt, seqcmp-gt, seqcmp-eq}
use swift_srt.FreshLoss.{FreshLoss, Emod, stripped, split, delete, revoke, revoke_range}

-- The record of the losses from packet `u` to packet `v`.
abbrev pub span : FreshLoss → ℕ → ℕ → FreshLoss
span f u v = record f { seq0 = wrap u; seq1 = wrap v }

-- The code of `revoke` over unwrapped numbers.
revoke_plain : FreshLoss → ℕ → ℕ → ℕ → Emod × FreshLoss
revoke_plain f u v s =
    if ltb s u || ltb v s
    then (Emod.none, span f u v)
    else if s == u
    then (if s == v then (delete, span f u v) else (stripped, span f (u + 1) v))
    else if s == v
    then (stripped, span f u (v - 1))
    else (split, span f u v)

revoke-eq :
    (f : FreshLoss) (u v s : ℕ)
    → Near s u
    → Near s v
    → u ≤ v
    → revoke (span f u v) (wrap s) ≡ revoke_plain f u v s
unfolding revoke revoke_plain
revoke-eq f u v s a b h =
    rw (seqcmp-lt s u a, seqcmp-gt s v b, seqcmp-eq s u a, seqcmp-eq s v b, incseq-wrap u)
      (ground (arith, decseq_of_pos v))

revoke_range_plain : FreshLoss → ℕ → ℕ → ℕ → ℕ → Emod × FreshLoss
revoke_range_plain f u v lo hi =
    if ltb v lo
    then (delete, span f u v)
    else if ltb hi u
    then (Emod.none, span f u v)
    else if ltb hi v
    then (stripped, span f (hi + 1) v)
    else (delete, span f u v)

revoke_range-eq :
    (f : FreshLoss) (u v lo hi : ℕ)
    → Near lo v
    → Near hi u
    → Near hi v
    → revoke_range (span f u v) (wrap lo) (wrap hi) ≡ revoke_range_plain f u v lo hi
unfolding revoke_range revoke_range_plain
revoke_range-eq f u v lo hi a b c =
    rw (seqcmp-gt lo v a, seqcmp-lt hi u b, seqcmp-lt hi v c, incseq-wrap hi)

-- On a record of the packets `u` to `v` the arrival of packet `s` is reported as `none` exactly when
-- `s` is not in the record, as `delete` exactly when it is all of it, as `split` exactly when it lies
-- strictly inside, and otherwise as `stripped`; then a record remains of exactly the packets of the
-- old one other than `s`. In the other three cases the record is unchanged.
pub revoke_outcome :
    (f : FreshLoss) (u v s : ℕ)
    → Near s u
    → Near s v
    → u ≤ v
    → let (e, g) = revoke (span f u v) (wrap s) in
      (e ≡ Emod.none ↔ ((s < u) ⊎ (v < s)))
      × (e ≡ delete ↔ (u ≡ s) × (s ≡ v))
      × (e ≡ split ↔ (u < s) × (s < v))
      × (e ≢ stripped → g ≡ span f u v)
      × (e ≡ stripped
          → (u' : ℕ) × (v' : ℕ) × (g ≡ span f u' v')
            × ((t : ℕ) → (u' ≤ t) × (t ≤ v') ↔ (u ≤ t) × (t ≤ v) × (t ≢ s)))
unfolding revoke_plain
revoke_outcome f u v s a b h = rw (revoke-eq f u v s a b h) (
  ground arith,
  ground arith,
  ground arith,
  ground arith,
  λ e. (
    if s == u then u + 1 else u,
    if s == u then v else v - 1,
    ground arith,
    λ t. (ground arith, ground arith),
  ),
)

-- Giving up the packets `lo` to `hi` gives up all older ones too: the report is `none` exactly when
-- the record starts after `hi`, `delete` exactly when it ends by `hi`, and otherwise `stripped`, with
-- a record of exactly the packets after `hi` left.
pub revoke_range_outcome :
    (f : FreshLoss) (u v lo hi : ℕ)
    → Near lo v
    → Near hi u
    → Near hi v
    → u ≤ v
    → lo ≤ hi
    → let (e, g) = revoke_range (span f u v) (wrap lo) (wrap hi) in
      (e ≡ Emod.none ↔ hi < u)
      × (e ≡ delete ↔ v ≤ hi)
      × (e ≡ stripped ↔ (u ≤ hi) × (hi < v))
      × (g ≡ (if ltb hi u then span f u v else if ltb hi v then span f (hi + 1) v else span f u v))
unfolding revoke_range_plain
revoke_range_outcome f u v lo hi a b c h k = rw (revoke_range-eq f u v lo hi a b c) (ground arith)
