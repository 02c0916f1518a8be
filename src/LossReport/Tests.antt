-- ===== src/LossReport/Tests.antt =====
-- A loss report of a list of one range.
use swift_srt.Base.{ℕ, ◌≤◌, ◌≡◌, ◌↔◌, arith, List, [], ◌∷◌, none, pos}
use swift_srt.SeqNo.{wrap}
use swift_srt.RcvLossList.{get_loss_array}
use swift_srt.RcvLossList.Ranges.{Range, Ascends, Lost}
use swift_srt.RcvLossList.Tests.{two_lost, two_lost-Holds}
use swift_srt.LossReport.{loss_report}
use swift_srt.LossReport.Delivers.{requests, report_delivers}

report_delivers_example :
    (ys : List Range) × (loss_report (wrap 6) (wrap 7) (pos 0) (get_loss_array two_lost 10)
      ≡ (requests ys, none))
    × Ascends 5 ys
    × ((q : ℕ) → Lost ys q ↔ (Lost ((5, 6) ∷ []) q × (6 ≤ q)))
report_delivers_example =
    report_delivers two_lost 3 5 5 6 7 10 (pos 0) ((5, 6) ∷ []) two_lost-Holds (omega arith)
      (omega arith, tt) (omega arith) (omega arith) (omega arith) (omega arith)
