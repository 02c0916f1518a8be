-- ===== src/AckWindow/Tests.antt =====
-- Runs of the ACK window, and instances of its refinement of a list.
use swift_srt.Base.{
  ℕ, ◌+◌, ◌-◌, ◌≡◌, refl, arith, [], ◌∷◌, ◌++◌, if◌then◌else◌, ◌==◌, pos, minus_one, drop,
}
use swift_srt.AckWindow.{
  Seq, AckWindow, ack_window, store, acknowledge, scan_wrapped, take_wrapped, answered,
}
use swift_srt.AckWindow.Contents.{awaited, count, IsValid, answer}
use swift_srt.AckWindow.Refine.{Acknowledged, acknowledge_refines, store_refines}

abbrev entry : ℕ → Seq
entry n = record { ack_seq_no = pos n; ack = pos (100 + n); time_stamp = 1000 + n }

-- A window of four places that holds the ACK packets 3, 4 and 5, round the end.
abbrev full : AckWindow
full = record {
  seq = λ i. if i == 2 then entry 3 else if i == 3 then entry 4 else entry 5;
  head = 1;
  tail = 2;
}

awaited-full : awaited 4 full ≡ entry 3 ∷ entry 4 ∷ entry 5 ∷ []
awaited-full = refl

acknowledge_run : (acknowledge 4 full 1010 (pos 4) minus_one).1 ≡ pos 104
unfolding acknowledge scan_wrapped answered
acknowledge_run = refl

acknowledge_run_rest : awaited 4 (acknowledge 4 full 1010 (pos 4) minus_one).2 ≡ entry 5 ∷ []
unfolding acknowledge scan_wrapped answered take_wrapped
acknowledge_run_rest = refl

first_run : awaited 4 (store 4 (ack_window (λ i. entry i)) 1007 (pos 7) (pos 107)) ≡ entry 7 ∷ []
unfolding store ack_window
first_run = refl

acknowledge_refines_example :
    Acknowledged 4 full 1010 minus_one
      (answer (pos 5) (awaited 4 full))
      (acknowledge 4 full 1010 (pos 5) minus_one)
acknowledge_refines_example = acknowledge_refines 4 full 1010 (pos 5) minus_one (omega arith)

store_refines_example :
    let w' = store 4 full 1006 (pos 6) (pos 106) in
    let r : Seq = record { ack_seq_no = pos 6; ack = pos 106; time_stamp = 1006 } in
    IsValid 4 w'
    × (awaited 4 w' ≡ (
        if count 4 full == 4 - 1
        then drop 1 (awaited 4 full ++ (r ∷ []))
        else awaited 4 full ++ (r ∷ [])))
store_refines_example = store_refines 4 full 1006 (pos 6) (pos 106) (omega arith) (omega arith)
