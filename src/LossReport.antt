-- ===== src/LossReport.antt =====
-- The loss report of Sources/CSRT/core.cpp: what `CUDT::processCtrl` does with the words of a
-- UMSG_LOSSREPORT packet. The state it reads is `m_iSndLastAck` and `m_iSndCurrSeqNo`; what it does to
-- the sender's loss list is given as the pairs it calls `insert` with, in their order. The word behind
-- the message, which is read when a range has no second word, is a parameter.
pub mod Delivers
mod Tests
use swift_srt.Base.{
  ◌+◌, ◌^◌, Bool, true, false, ◌||◌, Option, none, some, List, [], ◌∷◌, ◌++◌, if◌then◌else◌, ℤ, pos,
  ◌+ℤ◌, ltb_ℤ, leb_ℤ,
}
use swift_srt.SeqNo.{seqcmp}

-- A call of `CSndLossList::insert`.
abbrev pub Request : Type 0
Request = ℤ × ℤ

-- `IsSet(word, LOSSDATA_SEQNO_RANGE_FIRST)`: the sign bit of an `int32_t`.
abbrev pub is_range_first : ℤ → Bool
is_range_first w = ltb_ℤ w (pos 0)

-- `SEQNO_VALUE::unwrap`, which clears that bit.
abbrev pub seqno_value : ℤ → ℤ
seqno_value w = if ltb_ℤ w (pos 0) then w +ℤ pos (2 ^ 31) else w

-- One range; `none` is the exit with `secure = false`.
unfoldable pub report_range : ℤ → ℤ → ℤ → ℤ → Option (List Request)
report_range last_ack curr lo hi =
    if ltb_ℤ (pos 0) (seqcmp lo hi) || ltb_ℤ (pos 0) (seqcmp hi curr)
    then none
    else if leb_ℤ (pos 0) (seqcmp lo last_ack)
    then some ((lo, hi) ∷ [])
    else if leb_ℤ (pos 0) (seqcmp hi last_ack)
    then some ((last_ack, hi) ∷ [])
    else some []

unfoldable pub report_single : ℤ → ℤ → ℤ → Option (List Request)
report_single last_ack curr s =
    if leb_ℤ (pos 0) (seqcmp s last_ack)
    then (if ltb_ℤ (pos 0) (seqcmp s curr) then none else some ((s, s) ∷ []))
    else some []

-- The requests of one item, then those of the rest of the message, which is left unread after a
-- number that is wrong. The second part is `wrong_loss` when `secure` is false.
unfoldable pub and_then :
    ℤ → Option (List Request) → List Request × Option ℤ → List Request × Option ℤ
and_then wrong none rest = ([], some wrong)
and_then wrong (some rs) rest = (rs ++ rest.0, rest.1)

unfoldable pub loss_report : ℤ → ℤ → ℤ → List ℤ → List Request × Option ℤ
loss_report last_ack curr beyond [] = ([], none)
loss_report last_ack curr beyond (w ∷ []) =
    if is_range_first w
    then and_then beyond (report_range last_ack curr (seqno_value w) beyond) ([], none)
    else and_then w (report_single last_ack curr w) ([], none)
loss_report last_ack curr beyond (w ∷ x ∷ ws) =
    let after_range = loss_report last_ack curr beyond ws in
    let after_single = loss_report last_ack curr beyond (x ∷ ws) in
    if is_range_first w
    then and_then x (report_range last_ack curr (seqno_value w) x) after_range
    else and_then w (report_single last_ack curr w) after_single
