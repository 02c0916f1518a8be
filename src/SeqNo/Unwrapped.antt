-- ===== src/SeqNo/Unwrapped.antt =====
-- The operations of `CSeqNo` on wrapped sequence numbers against plain arithmetic on the numbers of
-- a stream that never wraps.
use swift_srt.Base.{ℕ, ◌+◌, ◌-◌, ◌<◌, ◌≤◌, ◌≡◌, arith, pos, sub_ℕ, ◌<ℤ◌, ◌↔◌}
use swift_srt.SeqNo.{
  seqcmp, seqlen, seqoff, incseq, decseq, incseq_by, decseq_by, wrap, seq_no_th, max_seq_no,
}

-- For packets `u` and `v` less than `seq_no_th` apart, `seqoff` is their exact signed distance.
pub seqoff-wrap :
    (u v : ℕ) → u < v + seq_no_th → v < u + seq_no_th → seqoff (wrap u) (wrap v) ≡ sub_ℕ v u
unfolding seqoff
seqoff-wrap u v h k = ground arith

-- For such packets the sign of `seqcmp` orders them as the stream does: negative exactly when `u` is
-- earlier, positive exactly when it is later, and zero exactly when they are the same packet.
pub seqcmp-wrap :
    (u v : ℕ)
    → u < v + seq_no_th
    → v < u + seq_no_th
    → (seqcmp (wrap u) (wrap v) <ℤ pos 0 ↔ u < v)
      × (pos 0 <ℤ seqcmp (wrap u) (wrap v) ↔ v < u)
      × (seqcmp (wrap u) (wrap v) ≡ pos 0 ↔ u ≡ v)
unfolding seqcmp
seqcmp-wrap u v h k = ground arith

-- `incseq` steps to the next packet, and `decseq` steps back, also over the wrap.
pub step-wrap : (v : ℕ) → (incseq (wrap v) ≡ wrap (v + 1)) × (decseq (wrap (v + 1)) ≡ wrap v)
unfolding incseq decseq
step-wrap v = ground arith

pub incseq-wrap : (v : ℕ) → incseq (wrap v) ≡ wrap (v + 1)
incseq-wrap v = (step-wrap v).0

pub decseq-wrap : (v : ℕ) → decseq (wrap (v + 1)) ≡ wrap v
decseq-wrap v = (step-wrap v).1

pub decseq_of_pos : (v : ℕ) → 0 < v → decseq (wrap v) ≡ wrap (v - 1)
unfolding decseq
decseq_of_pos v h = ground arith

-- A step by any `int32_t` count goes that many packets on, or back.
pub step_by-wrap :
    (v n : ℕ)
    → n ≤ max_seq_no
    → (incseq_by (wrap v) (pos n) ≡ wrap (v + n)) × (decseq_by (wrap (v + n)) (pos n) ≡ wrap v)
unfolding incseq_by decseq_by
step_by-wrap v n h = ground arith

-- `seqlen` counts the packets from `u` to `v`, both included, where they are at most `max_seq_no`.
pub seqlen-wrap :
    (u v : ℕ) → u ≤ v → v < u + max_seq_no → seqlen (wrap u) (wrap v) ≡ pos (v - u + 1)
unfolding seqlen
seqlen-wrap u v h k = ground arith
