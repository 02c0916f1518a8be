-- ===== src/SeqNo.antt =====
-- `CSeqNo` and `CAckNo` of Sources/CSRT/include/common.h: 31-bit sequence numbers that wrap. An
-- `int32_t` is a `ℤ`; a sequence number on the wire is `pos n` with `n < 2 ^ 31`.
pub mod Unwrapped
pub mod Range
pub mod Compare
mod Tests
use swift_srt.Base.{
  ℕ, ◌+◌, ◌-◌, ◌%◌, ◌^◌, ◌<◌, Bool, if◌then◌else◌, ltb, leb, ℤ, pos, negsuc, ◌+ℤ◌, ◌-ℤ◌, abs_ℤ,
  ltb_ℤ, leb_ℤ, eqb_ℤ,
}

abbrev pub seq_no_th : ℕ
seq_no_th = 0x3FFFFFFF

abbrev pub max_seq_no : ℕ
max_seq_no = 0x7FFFFFFF

-- Only the sign of the result has a meaning.
unfoldable pub seqcmp : ℤ → ℤ → ℤ
seqcmp seq1 seq2 = if ltb (abs_ℤ (seq1 -ℤ seq2)) seq_no_th then seq1 -ℤ seq2 else seq2 -ℤ seq1

-- A sum of two's complement that is past the greatest `int32_t`. C++ does not define it.
abbrev pub wrap_int32 : ℤ → ℤ
wrap_int32 n = if leb_ℤ (pos (2 ^ 31)) n then n -ℤ pos (2 ^ 32) else n

-- The range of all numbers has `2 ^ 31`, which is too great.
unfoldable pub seqlen : ℤ → ℤ → ℤ
seqlen seq1 seq2 =
    wrap_int32
      (if leb_ℤ seq1 seq2 then seq2 -ℤ seq1 +ℤ pos 1 else seq2 -ℤ seq1 +ℤ pos max_seq_no +ℤ pos 2)

unfoldable pub seqoff : ℤ → ℤ → ℤ
seqoff seq1 seq2 =
    if ltb (abs_ℤ (seq1 -ℤ seq2)) seq_no_th
    then seq2 -ℤ seq1
    else if ltb_ℤ seq1 seq2
    then seq2 -ℤ seq1 -ℤ pos max_seq_no -ℤ pos 1
    else seq2 -ℤ seq1 +ℤ pos max_seq_no +ℤ pos 1

unfoldable pub incseq : ℤ → ℤ
incseq seq = if eqb_ℤ seq (pos max_seq_no) then pos 0 else seq +ℤ pos 1

unfoldable pub decseq : ℤ → ℤ
decseq seq = if eqb_ℤ seq (pos 0) then pos max_seq_no else seq -ℤ pos 1

-- `incseq(seq, inc)`
unfoldable pub incseq_by : ℤ → ℤ → ℤ
incseq_by seq inc =
    if leb_ℤ inc (pos max_seq_no -ℤ seq) then seq +ℤ inc else seq -ℤ pos max_seq_no +ℤ inc -ℤ pos 1

-- `decseq(seq, dec)`
unfoldable pub decseq_by : ℤ → ℤ → ℤ
decseq_by seq dec = if ltb_ℤ seq dec then pos max_seq_no -ℤ (dec -ℤ seq) +ℤ pos 1 else seq -ℤ dec

unfoldable pub incack : ℤ → ℤ
incack ackno = if eqb_ℤ ackno (pos 0x7FFFFFFF) then pos 0 else ackno +ℤ pos 1

-- The sequence number of the packet that is `v`-th in a stream that never wraps.
abbrev pub wrap : ℕ → ℤ
wrap v = pos (v % 2 ^ 31)
