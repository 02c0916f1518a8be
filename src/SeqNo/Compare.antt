-- ===== src/SeqNo/Compare.antt =====
-- The tests that the code makes on `seqcmp` and on equality, as tests on the unwrapped numbers: rules
-- that rewrite the code of the components to plain arithmetic.
use swift_srt.Base.{ℕ, ◌+◌, ◌<◌, ◌≡◌, arith, ltb, leb, ◌==◌, pos, ltb_ℤ, leb_ℤ, eqb_ℤ}
use swift_srt.SeqNo.{seqcmp, wrap, seq_no_th}

-- Two packets that the comparison of their numbers can tell apart.
abbrev pub Near : ℕ → ℕ → Type 0
Near u v = (u < v + seq_no_th) × (v < u + seq_no_th)

pub seqcmp-lt : (u v : ℕ) → Near u v → ltb_ℤ (seqcmp (wrap u) (wrap v)) (pos 0) ≡ ltb u v
unfolding seqcmp
seqcmp-lt u v h = ground arith

pub seqcmp-gt : (u v : ℕ) → Near u v → ltb_ℤ (pos 0) (seqcmp (wrap u) (wrap v)) ≡ ltb v u
unfolding seqcmp
seqcmp-gt u v h = ground arith

pub seqcmp-le : (u v : ℕ) → Near u v → leb_ℤ (seqcmp (wrap u) (wrap v)) (pos 0) ≡ leb u v
unfolding seqcmp
seqcmp-le u v h = ground arith

pub seqcmp-ge : (u v : ℕ) → Near u v → leb_ℤ (pos 0) (seqcmp (wrap u) (wrap v)) ≡ leb v u
unfolding seqcmp
seqcmp-ge u v h = ground arith

pub seqcmp-eq : (u v : ℕ) → Near u v → eqb_ℤ (seqcmp (wrap u) (wrap v)) (pos 0) ≡ (u == v)
unfolding seqcmp
seqcmp-eq u v h = ground arith

pub wrap-eq : (u v : ℕ) → Near u v → eqb_ℤ (wrap u) (wrap v) ≡ (u == v)
wrap-eq u v h = ground arith
