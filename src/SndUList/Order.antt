-- ===== src/SndUList/Order.antt =====
-- The heap order, and what it gives.
use swift_srt.Base.{ℕ, ◌-◌, ◌/◌, ◌<◌, ◌≤◌}
use swift_srt.SndUList.{SndUList}

-- No node is due before its parent.
abbrev pub IsHeap : SndUList → Type 0
IsHeap l =
    (i : ℕ) → 0 < i → i < l.count → l.time_stamp (l.heap ((i - 1) / 2)) ≤ l.time_stamp (l.heap i)
