-- ===== src/AckWindow/Contents.antt =====
-- The window as a list: the ACK packets that are still awaited, oldest first.
use swift_srt.Base.{
  ℕ, zero, suc, ◌+◌, ◌-◌, ◌%◌, ◌<◌, Option, none, some, List, [], ◌∷◌, if◌then◌else◌, leb, ℤ, eqb_ℤ,
}
use swift_srt.AckWindow.{Seq, AckWindow}

module _ (size : ℕ) where
  -- The `n` entries from index `i` on, going round.
  abbrev pub entries : (ℕ → Seq) → ℕ → ℕ → List Seq
  entries a i zero = []
  entries a i (suc n) = a i ∷ entries a ((i + 1) % size) n

  -- The number of entries from `tail` to `head`.
  abbrev pub count : AckWindow → ℕ
  count w = if leb w.tail w.head then w.head - w.tail else w.head + size - w.tail

  abbrev pub awaited : AckWindow → List Seq
  awaited w = entries w.seq w.tail (count w)

  pub record IsValid (w : AckWindow) : Type 0 where
    pub head_in : w.head < size
    pub tail_in : w.tail < size

-- What ACK-2 number `seq_no` answers: its entry, and the entries younger than that.
unfoldable pub answer : ℤ → List Seq → Option (Seq × List Seq)
answer seq_no [] = none
answer seq_no (r ∷ rs) = if eqb_ℤ seq_no r.ack_seq_no then some (r, rs) else answer seq_no rs
