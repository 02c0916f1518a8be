-- ===== src/SndLossList/Tests.antt =====
-- Runs of the sender's loss list.
use swift_srt.Base.{ℕ, ◌≤◌, ◌≡◌, ◌≢◌, ◌⊎◌, ◌↔◌, refl, arith, List, [], ◌∷◌, none, pos, minus_one}
use swift_srt.SeqNo.{wrap, seqcmp, seqoff, seqlen, incseq}
use swift_srt.SndLossList.{
  Node, SndLossList, snd_loss_list, insert, pop_lost_seq, remove, get_loss_length, insert_first,
  insert_behind, insert_at, insert_head, insert_before, search_next, search_start, coalesce, absorb,
  after_branch, remove_head, cut_start, cut_inside, clear_until, clear_node, pop_single, pop_range,
}
use swift_srt.RcvLossList.Ranges.{Range, Lost}
use swift_srt.SndLossList.Layout.{Holds}
use swift_srt.SndLossList.Fill.{snd_loss_list-Holds, insert_empty}
use swift_srt.SndLossList.Pop.{pop_lost_seq_first}

abbrev raw_node : ℕ → Node
raw_node i = record { data1 = pos i; data2 = pos 7; next = none }

-- A list of eight places with the losses 5 to 7.
abbrev three_lost : SndLossList
three_lost = (insert (snd_loss_list raw_node 8) (wrap 5) (wrap 7)).1

three_lost-Holds : Holds three_lost 3 5 ((5, 7) ∷ [])
unfolding snd_loss_list
three_lost-Holds =
    (insert_empty (snd_loss_list raw_node 8) 0 5 5 7
      (snd_loss_list-Holds raw_node 8 0 5 (omega arith)) (omega arith) (omega arith)
      (omega arith)).1

pop_lost_seq_first_example :
    ((pop_lost_seq three_lost ≡ (minus_one, three_lost)) × ((q : ℕ) → ¬ Lost ((5, 7) ∷ []) q))
    ⊎ ((s : ℕ) × (ys : List Range) × ((pop_lost_seq three_lost).0 ≡ wrap s)
        × Lost ((5, 7) ∷ []) s
        × Holds (pop_lost_seq three_lost).1 3 5 ys
        × ((q : ℕ) → Lost ys q ↔ (Lost ((5, 7) ∷ []) q × (q ≢ s)))
        × ((q : ℕ) → Lost ((5, 7) ∷ []) q → s ≤ q))
pop_lost_seq_first_example = pop_lost_seq_first three_lost 3 5 ((5, 7) ∷ []) three_lost-Holds

-- 9 to 10 join 5 to 7 when 8 comes, and all up to 9 leave.
abbrev joined : SndLossList
joined = (insert (insert three_lost (wrap 9) (wrap 10)).1 (wrap 6) (wrap 8)).1

joined_length :
    (get_loss_length joined ≡ pos 6)
    × (get_loss_length (remove joined (wrap 9)) ≡ pos 1)
    × ((pop_lost_seq (remove joined (wrap 9))).0 ≡ wrap 10)
unfolding snd_loss_list insert insert_first insert_behind insert_at insert_head insert_before
    search_next search_start coalesce absorb after_branch remove remove_head cut_start cut_inside
    clear_until clear_node get_loss_length pop_lost_seq pop_single pop_range seqcmp seqoff seqlen
    incseq
joined_length = (refl, refl, refl)
