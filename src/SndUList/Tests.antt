-- ===== src/SndUList/Tests.antt =====
-- Runs of the sender's list, and instances of its theorems.
use swift_srt.Base.{
  ℕ, ◌+◌, ◌≤◌, ◌≡◌, ◌≢◌, ◌↔◌, refl, arith, true, none, some, pos, ◌==◌, if◌then◌else◌, ltb,
}
use swift_srt.SndUList.{
  SndUList, snd_u_list, insert, insert_norealloc, settle, sift_up, append_node, remove, sift_down,
  fill_place, smaller_child, detach, wake_last, pop,
}
use swift_srt.SndUList.Order.{IsHeap}
use swift_srt.SndUList.Locations.{IsPlaced}
use swift_srt.SndUList.Insert.{Inserted, insert_norealloc_lem}
use swift_srt.SndUList.Remove.{Removed, Fits, remove-Removed, remove-IsHeap_iff}
use swift_srt.SndUList.Pop.{pop-IsHeap, pop_first}

-- Sockets 0 to 5 at the places 0 to 5, due at 1, 10, 2, 11, 12, 3.
abbrev six : SndUList
six = record {
  heap = λ i. i;
  heap_loc = λ n. if ltb n 6 then some n else none;
  time_stamp = λ n.
      if n == 0
      then 1
      else if n == 1
      then 10
      else if n == 2
      then 2
      else if n == 3
      then 11
      else if n == 4
      then 12
      else 3;
  count = 6;
  array_length = 512;
  interrupts = 0;
  signals = 0;
}

-- Removing socket 3 puts socket 5, due at 3, below socket 1, due at 10.
remove_run : (remove 3 six).heap 3 ≡ 5
unfolding remove sift_down fill_place smaller_child detach wake_last
remove_run = refl

pop_run : (pop (λ u. true) (λ u ts. (pos 1, ts + 20)) 5 six).0 ≡ some 0
unfolding pop
pop_run = refl

insert_run : (insert 4 9 (insert 7 8 (snd_u_list (λ i. 0)))).heap 0 ≡ 9
unfolding insert insert_norealloc settle sift_up append_node snd_u_list
insert_run = refl

six-IsHeap : IsHeap six
six-IsHeap i a b = ground arith

six-IsPlaced : IsPlaced six
six-IsPlaced = record { placed = λ i a. ground arith; present = λ n i e. ground arith }

insert_norealloc_lem_example : Inserted 4 9 six (insert_norealloc 4 9 six)
insert_norealloc_lem_example =
    insert_norealloc_lem 4 9 six six-IsHeap six-IsPlaced refl (omega arith)

remove-Removed_example : Removed 3 six (remove 3 six)
remove-Removed_example = remove-Removed 3 3 six six-IsPlaced refl

remove-IsHeap_iff_example : IsHeap (remove 3 six) ↔ Fits six 3
remove-IsHeap_iff_example = remove-IsHeap_iff 3 3 six six-IsPlaced six-IsHeap refl

pop-IsHeap_example :
    let l' = (pop (λ u. true) (λ u ts. (pos 1, ts + 20)) 5 six).1 in IsHeap l' × IsPlaced l'
pop-IsHeap_example = pop-IsHeap (λ u. true) (λ u ts. (pos 1, ts + 20)) 5 six six-IsHeap six-IsPlaced

pop_first_example :
    (six.heap_loc 0 ≢ none)
    × (six.time_stamp 0 ≤ 5)
    × (true ≡ true)
    × ((m : ℕ) → six.heap_loc m ≢ none → six.time_stamp 0 ≤ six.time_stamp m)
pop_first_example =
    pop_first (λ u. true) (λ u ts. (pos 1, ts + 20)) 5 0 six six-IsHeap six-IsPlaced pop_run
