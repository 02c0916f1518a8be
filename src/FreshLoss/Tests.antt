-- ===== src/FreshLoss/Tests.antt =====
-- Instances of the laws of a fresh loss record, across the wrap of the sequence numbers.
use swift_srt.Base.{
  ℕ, ◌+◌, ◌-◌, ◌^◌, ◌<◌, ◌≤◌, ◌≡◌, refl, ◌≢◌, ◌↔◌, ◌⊎◌, arith, pos, ltb, if◌then◌else◌,
}
use swift_srt.SeqNo.{wrap, seqcmp, decseq}
use swift_srt.FreshLoss.{FreshLoss, Emod, stripped, split, delete, fresh_loss, revoke, revoke_range}
use swift_srt.FreshLoss.Laws.{span, revoke_outcome, revoke_range_outcome}

abbrev blank : FreshLoss
blank = record { seq0 = pos 0; seq1 = pos 0; ttl = pos 10; timestamp = 77 }

abbrev start : ℕ
start = 2 ^ 31 - 2

fresh_run :
    revoke (fresh_loss (pos 0x7FFFFFFE) (pos 3) (pos 10) 77) (pos 3)
    ≡ (stripped, fresh_loss (pos 0x7FFFFFFE) (pos 2) (pos 10) 77)
unfolding revoke fresh_loss seqcmp decseq
fresh_run = refl

revoke_outcome_example :
    let (e, g) = revoke (span blank start (start + 5)) (wrap (start + 5)) in
    (e ≡ Emod.none ↔ ((start + 5 < start) ⊎ (start + 5 < start + 5)))
    × (e ≡ delete ↔ (start ≡ start + 5) × (start + 5 ≡ start + 5))
    × (e ≡ split ↔ (start < start + 5) × (start + 5 < start + 5))
    × (e ≢ stripped → g ≡ span blank start (start + 5))
    × (e ≡ stripped
        → (u' : ℕ) × (v' : ℕ) × (g ≡ span blank u' v')
          × ((t : ℕ) → (u' ≤ t) × (t ≤ v') ↔ (start ≤ t) × (t ≤ start + 5) × (t ≢ start + 5)))
revoke_outcome_example =
    revoke_outcome blank start (start + 5) (start + 5) (omega arith) (omega arith) (omega arith)

revoke_range_outcome_example :
    let (e, g) =
      revoke_range (span blank start (start + 5)) (wrap (start + 1)) (wrap (start + 3)) in
    (e ≡ Emod.none ↔ start + 3 < start)
    × (e ≡ delete ↔ start + 5 ≤ start + 3)
    × (e ≡ stripped ↔ (start ≤ start + 3) × (start + 3 < start + 5))
    × (g ≡ (
        if ltb (start + 3) start
        then span blank start (start + 5)
        else if ltb (start + 3) (start + 5)
        then span blank (start + 3 + 1) (start + 5)
        else span blank start (start + 5)))
revoke_range_outcome_example =
    revoke_range_outcome blank start (start + 5) (start + 1) (start + 3) (omega arith) (omega arith)
      (omega arith) (omega arith) (omega arith)
