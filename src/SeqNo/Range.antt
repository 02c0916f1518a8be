-- ===== src/SeqNo/Range.antt =====
-- The results of `CSeqNo` on numbers in range: their ranges, and that steps and distances fit together.
use swift_srt.Base.{
  ℕ, ◌+◌, ◌^◌, ◌≤◌, ◌<◌, dec_lt, ◌≡◌, ◌≢◌, arith, ℤ, pos, negsuc, neg, ◌≤ℤ◌, ◌<ℤ◌, abs_ℤ, ◌↔◌,
}
use swift_srt.SeqNo.{
  seqcmp, seqoff, seqlen, incseq, decseq, incseq_by, decseq_by, incack, max_seq_no,
}

-- The values of a sequence number on the wire.
abbrev pub InRange : ℤ → Type 0
InRange s = (pos 0 ≤ℤ s) × (s ≤ℤ pos max_seq_no)

-- The number after the other stepping functions.
pub step-InRange :
    (s : ℤ)
    → InRange s
    → InRange (incseq s)
      × InRange (decseq s)
      × InRange (incack s)
      × (decseq (incseq s) ≡ s)
      × (incseq (decseq s) ≡ s)
unfolding incseq decseq incack
step-InRange s h = ground arith

forward :
    (a b : ℕ)
    → a ≤ max_seq_no
    → b ≤ max_seq_no
    → pos 0 ≤ℤ seqoff (pos a) (pos b)
    → incseq_by (pos a) (seqoff (pos a) (pos b)) ≡ pos b
unfolding seqoff incseq_by
forward a b h k f = ground arith

backward_of_le :
    (a b : ℕ)
    → b ≤ a
    → a ≤ max_seq_no
    → seqoff (pos a) (pos b) ≤ℤ pos 0
    → decseq_by (pos a) (neg (seqoff (pos a) (pos b))) ≡ pos b
unfolding seqoff decseq_by
backward_of_le a b h k f = ground arith

backward_of_lt :
    (a b : ℕ)
    → a < b
    → b ≤ max_seq_no
    → seqoff (pos a) (pos b) ≤ℤ pos 0
    → decseq_by (pos a) (neg (seqoff (pos a) (pos b))) ≡ pos b
unfolding seqoff decseq_by
backward_of_lt a b h k f = ground arith

backward :
    (a b : ℕ)
    → a ≤ max_seq_no
    → b ≤ max_seq_no
    → seqoff (pos a) (pos b) ≤ℤ pos 0
    → decseq_by (pos a) (neg (seqoff (pos a) (pos b))) ≡ pos b
backward a b h k f = elim (dec_lt a b) [
  | yes p ↦ backward_of_lt a b p k f
  | no p ↦ backward_of_le a b (omega arith) h f
]

-- `seqoff` leads from its first argument to its second: stepping by it, forwards or backwards, gives
-- the second number back, for any two numbers in range.
pub incseq_by-seqoff :
    (s t : ℤ)
    → InRange s
    → InRange t
    → (pos 0 ≤ℤ seqoff s t → incseq_by s (seqoff s t) ≡ t)
      × (seqoff s t ≤ℤ pos 0 → decseq_by s (neg (seqoff s t)) ≡ t)
incseq_by-seqoff (pos a) (pos b) h k =
    (forward a b (omega arith) (omega arith), backward a b (omega arith) (omega arith))
incseq_by-seqoff (pos a) (negsuc b) h k = absurd (omega arith)
incseq_by-seqoff (negsuc a) t h k = absurd (omega arith)

-- Comparing and measuring in the other direction changes the sign only, for all arguments.
pub seqcmp-neg : (s t : ℤ) → seqcmp t s ≡ neg (seqcmp s t)
unfolding seqcmp
seqcmp-neg s t = ground arith

-- The sign of `seqcmp` and the sign of `seqoff` are opposite, for all numbers in range: the doc's
-- statement that the one is `seq1 - seq2` and the other `seq2 - seq1`.
pub seqcmp-seqoff :
    (s t : ℤ)
    → InRange s
    → InRange t
    → (seqcmp s t <ℤ pos 0 ↔ pos 0 <ℤ seqoff s t) × (pos 0 <ℤ seqcmp s t ↔ seqoff s t <ℤ pos 0)
unfolding seqcmp seqoff
seqcmp-seqoff s t h k = ground arith

distance_bounds :
    (s t : ℤ)
    → InRange s
    → InRange t
    → (abs_ℤ (seqoff s t) ≤ 2 ^ 30 + 1)
      × (abs_ℤ (seqcmp s t) ≤ max_seq_no)
      × (t ≢ decseq s → (pos 1 ≤ℤ seqlen s t) × (seqlen s t ≤ℤ pos max_seq_no))
      × (t ≡ decseq s → seqlen s t ≡ neg (pos (2 ^ 31)))
unfolding seqcmp seqoff seqlen decseq
distance_bounds s t h k = ground arith

step_by-InRange :
    (s t : ℤ) → InRange s → InRange t → InRange (incseq_by s t) × InRange (decseq_by s t)
unfolding incseq_by decseq_by
step_by-InRange s t h k = ground arith

-- For numbers in range, `seqoff` is at most `2 ^ 30 + 1` and `seqcmp` at most `max_seq_no` in absolute
-- value. `seqlen` lies between 1 and `max_seq_no` unless the range is of all numbers, from `s` to the
-- one before it; then it has overflowed to `-2 ^ 31`. Steps by a count in range, `incseq` and `decseq`
-- with two arguments, give numbers in range.
pub seqoff_bounds :
    (s t : ℤ)
    → InRange s
    → InRange t
    → (abs_ℤ (seqoff s t) ≤ 2 ^ 30 + 1)
      × (abs_ℤ (seqcmp s t) ≤ max_seq_no)
      × (t ≢ decseq s → (pos 1 ≤ℤ seqlen s t) × (seqlen s t ≤ℤ pos max_seq_no))
      × (t ≡ decseq s → seqlen s t ≡ neg (pos (2 ^ 31)))
      × InRange (incseq_by s t)
      × InRange (decseq_by s t)
seqoff_bounds s t h k =
    let (d, c, l, o) = distance_bounds s t h k in
    (d, c, l, o, (step_by-InRange s t h k).0, (step_by-InRange s t h k).1)
