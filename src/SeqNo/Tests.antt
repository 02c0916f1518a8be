-- ===== src/SeqNo/Tests.antt =====
-- Instances and runs of the sequence number theorems.
use swift_srt.Base.{
  ◌≡◌, ◌≢◌, refl, arith, ◌+◌, ◌-◌, ◌^◌, ◌<◌, ◌↔◌, ◌≤ℤ◌, ◌<ℤ◌, pos, negsuc, sub_ℕ, neg, abs_ℤ, ◌≤◌,
}
use swift_srt.SeqNo.{
  seqcmp, seqlen, seqoff, incseq, decseq, incseq_by, decseq_by, incack, wrap, max_seq_no,
}
use swift_srt.SeqNo.Unwrapped.{seqoff-wrap, seqcmp-wrap, step_by-wrap, seqlen-wrap, step-wrap}
use swift_srt.SeqNo.Range.{InRange, step-InRange, incseq_by-seqoff, seqoff_bounds, seqcmp-neg}

-- At the threshold itself the distance is already taken for a wrapped one.
seqoff_at_threshold : seqoff (pos 0) (pos 0x3FFFFFFF) ≡ negsuc 0x40000000
unfolding seqoff
seqoff_at_threshold = refl

seqoff-wrap_example :
    seqoff (wrap (2 ^ 31 - 2)) (wrap (2 ^ 31 + 3)) ≡ sub_ℕ (2 ^ 31 + 3) (2 ^ 31 - 2)
seqoff-wrap_example = seqoff-wrap (2 ^ 31 - 2) (2 ^ 31 + 3) (omega arith) (omega arith)

seqcmp-wrap_example :
    (seqcmp (wrap (2 ^ 31 - 2)) (wrap (2 ^ 31 + 3)) <ℤ pos 0 ↔ 2 ^ 31 - 2 < 2 ^ 31 + 3)
    × (pos 0 <ℤ seqcmp (wrap (2 ^ 31 - 2)) (wrap (2 ^ 31 + 3)) ↔ 2 ^ 31 + 3 < 2 ^ 31 - 2)
    × (seqcmp (wrap (2 ^ 31 - 2)) (wrap (2 ^ 31 + 3)) ≡ pos 0 ↔ 2 ^ 31 - 2 ≡ 2 ^ 31 + 3)
seqcmp-wrap_example = seqcmp-wrap (2 ^ 31 - 2) (2 ^ 31 + 3) (omega arith) (omega arith)

step-wrap_example :
    (incseq (wrap (2 ^ 31 - 1)) ≡ wrap (2 ^ 31 - 1 + 1))
    × (decseq (wrap (2 ^ 31 - 1 + 1)) ≡ wrap (2 ^ 31 - 1))
step-wrap_example = step-wrap (2 ^ 31 - 1)

step_by-wrap_example :
    (incseq_by (wrap (2 ^ 31 - 2)) (pos 5) ≡ wrap (2 ^ 31 - 2 + 5))
    × (decseq_by (wrap (2 ^ 31 - 2 + 5)) (pos 5) ≡ wrap (2 ^ 31 - 2))
step_by-wrap_example = step_by-wrap (2 ^ 31 - 2) 5 (omega arith)

seqlen-wrap_example :
    seqlen (wrap (2 ^ 31 - 2)) (wrap (2 ^ 31 + 3)) ≡ pos (2 ^ 31 + 3 - (2 ^ 31 - 2) + 1)
seqlen-wrap_example = seqlen-wrap (2 ^ 31 - 2) (2 ^ 31 + 3) (omega arith) (omega arith)

step-InRange_example :
    InRange (incseq (pos max_seq_no))
    × InRange (decseq (pos max_seq_no))
    × InRange (incack (pos max_seq_no))
    × (decseq (incseq (pos max_seq_no)) ≡ pos max_seq_no)
    × (incseq (decseq (pos max_seq_no)) ≡ pos max_seq_no)
step-InRange_example = step-InRange (pos max_seq_no) (omega arith)

incseq_by-seqoff_example :
    (pos 0 ≤ℤ seqoff (pos max_seq_no) (pos 4)
      → incseq_by (pos max_seq_no) (seqoff (pos max_seq_no) (pos 4)) ≡ pos 4)
    × (seqoff (pos max_seq_no) (pos 4) ≤ℤ pos 0
        → decseq_by (pos max_seq_no) (neg (seqoff (pos max_seq_no) (pos 4))) ≡ pos 4)
incseq_by-seqoff_example = incseq_by-seqoff (pos max_seq_no) (pos 4) (omega arith) (omega arith)

seqoff_bounds_example :
    (abs_ℤ (seqoff (pos 7) (pos max_seq_no)) ≤ 2 ^ 30 + 1)
    × (abs_ℤ (seqcmp (pos 7) (pos max_seq_no)) ≤ max_seq_no)
    × (pos max_seq_no ≢ decseq (pos 7)
        → (pos 1 ≤ℤ seqlen (pos 7) (pos max_seq_no))
          × (seqlen (pos 7) (pos max_seq_no) ≤ℤ pos max_seq_no))
    × (pos max_seq_no ≡ decseq (pos 7) → seqlen (pos 7) (pos max_seq_no) ≡ neg (pos (2 ^ 31)))
    × InRange (incseq_by (pos 7) (pos max_seq_no))
    × InRange (decseq_by (pos 7) (pos max_seq_no))
seqoff_bounds_example = seqoff_bounds (pos 7) (pos max_seq_no) (omega arith) (omega arith)

seqcmp-neg_example : seqcmp (pos 4) (pos 9) ≡ neg (seqcmp (pos 9) (pos 4))
seqcmp-neg_example = seqcmp-neg (pos 9) (pos 4)

-- The length of the range of all numbers does not fit.
seqlen_overflows : seqlen (pos 0) (pos max_seq_no) ≡ neg (pos (2 ^ 31))
unfolding seqlen
seqlen_overflows = refl
