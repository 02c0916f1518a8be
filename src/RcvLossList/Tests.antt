-- ===== src/RcvLossList/Tests.antt =====
-- Runs of the receiver's loss list.
use swift_srt.Base.{ℕ, ◌≤◌, ◌≡◌, ◌⊎◌, ◌↔◌, arith, [], ◌∷◌, true, none, pos}
use swift_srt.SeqNo.{wrap}
use swift_srt.RcvLossList.{Node, RcvLossList, rcv_loss_list, insert, insert_first, find}
use swift_srt.RcvLossList.Ranges.{push, Lost}
use swift_srt.RcvLossList.Layout.{Holds}
use swift_srt.RcvLossList.Insert.{rcv_loss_list-Holds, insert_first-Holds, insert_adds}
use swift_srt.RcvLossList.Find.{find_iff}

abbrev pub raw_node : ℕ → Node
raw_node i = record { data1 = pos i; data2 = pos 7; next = none; prior = none }

-- A list of eight places with the losses 5 and 6, then 9 besides.
abbrev pub two_lost : RcvLossList
two_lost = insert (rcv_loss_list raw_node 8) (wrap 5) (wrap 6)

pub two_lost-Holds : Holds two_lost 3 5 ((5, 6) ∷ [])
unfolding rcv_loss_list
two_lost-Holds =
    insert_first-Holds (rcv_loss_list raw_node 8) 0 5 5 6
      (rcv_loss_list-Holds raw_node 8 0 5 (omega arith)) (omega arith) (omega arith) (omega arith)

insert_adds_example :
    Holds (insert two_lost (wrap 9) (wrap 9)) 3 5 (push ((5, 6) ∷ []) 9 9)
    × ((q : ℕ) → Lost (push ((5, 6) ∷ []) 9 9) q ↔ (Lost ((5, 6) ∷ []) q ⊎ ((9 ≤ q) × (q ≤ 9))))
unfolding rcv_loss_list insert insert_first
insert_adds_example =
    insert_adds two_lost 3 5 ((5, 6) ∷ []) 9 9 (λ e. cc) two_lost-Holds (omega arith, tt)
      (omega arith) (omega arith) (omega arith)

find_iff_example :
    (find two_lost (wrap 6) (wrap 8) ≡ true) ↔ ((q : ℕ) × (6 ≤ q) × (q ≤ 8) × Lost ((5, 6) ∷ []) q)
find_iff_example =
    find_iff two_lost 3 5 ((5, 6) ∷ []) 6 8 two_lost-Holds (omega arith) (omega arith) (omega arith)
