-- ===== src/FreshLoss.antt =====
-- `CRcvFreshLoss` of Sources/CSRT/list.cpp and include/list.h: a range of freshly detected losses,
-- and what is left of it when packets arrive or are given up. The time stamp of the constructor is
-- an argument.
pub mod Laws
mod Tests
use swift_srt.Base.{ℕ, Bool, ◌&&◌, ◌||◌, if◌then◌else◌, ℤ, pos, ltb_ℤ, eqb_ℤ}
use swift_srt.SeqNo.{seqcmp, incseq, decseq}

pub record FreshLoss : Type 0 where
  pub seq0 : ℤ
  pub seq1 : ℤ
  pub ttl : ℤ
  pub timestamp : ℕ

pub data Emod : Type 0 where
  none stripped split delete : Emod

unfoldable pub fresh_loss : ℤ → ℤ → ℤ → ℕ → FreshLoss
fresh_loss seqlo seqhi initial_age now = record {
  seq0 = seqlo;
  seq1 = seqhi;
  ttl = initial_age;
  timestamp = now;
}

-- `revoke(sequence)`
unfoldable pub revoke : FreshLoss → ℤ → Emod × FreshLoss
revoke f sequence =
    let diffbegin = seqcmp sequence f.seq0 in
    let diffend = seqcmp sequence f.seq1 in
    if ltb_ℤ diffbegin (pos 0) || ltb_ℤ (pos 0) diffend
    then (Emod.none, f)
    else if eqb_ℤ diffbegin (pos 0)
    then (if eqb_ℤ diffend (pos 0)
        then (delete, f)
        else (stripped, record f { seq0 = incseq f.seq0 }))
    else if eqb_ℤ diffend (pos 0)
    then (stripped, record f { seq1 = decseq f.seq1 })
    else (split, f)

-- `revoke(lo, hi)`
unfoldable pub revoke_range : FreshLoss → ℤ → ℤ → Emod × FreshLoss
revoke_range f lo hi =
    if ltb_ℤ (pos 0) (seqcmp lo f.seq1)
    then (delete, f)
    else if ltb_ℤ (seqcmp hi f.seq0) (pos 0)
    then (Emod.none, f)
    else if ltb_ℤ (seqcmp hi f.seq1) (pos 0)
    then (stripped, record f { seq0 = incseq hi })
    else (delete, f)
