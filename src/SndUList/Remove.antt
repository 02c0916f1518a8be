-- ===== src/SndUList/Remove.antt =====
-- What `remove_` makes of the list.
use swift_srt.Base.{
  ℕ, zero, suc, ◌+◌, ◌-◌, ◌*◌, ◌/◌, ◌<◌, ◌≤◌, ◌≡◌, ◌≢◌, ◌↔◌, ◌⊎◌, inl, inr, refl, none, some, arith,
  ltb, leb, Bool-cases, subst, le→ltb,
}
use swift_srt.SndUList.{SndUList, sift_down, smaller_child, fill_place, detach, wake_last, remove}
use swift_srt.SndUList.Order.{IsHeap}
use swift_srt.SndUList.Locations.{IsPlaced}
use swift_srt.SndUList.Down.{IsSinking, sink, smaller_child_lem, sift_down-IsHeap}

-- Every node but `n`, which is no longer in the array, knows its place; the others that are in the
-- heap are those of `l`.
record IsParting (n : ℕ) (l l' : SndUList) : Type 0 where
  placed : (i : ℕ) → i < l'.count → (l'.heap_loc (l'.heap i) ≡ some i) × (l'.heap i ≢ n)
  present : (m i : ℕ) → m ≢ n → l'.heap_loc m ≡ some i → (i < l'.count) × (l'.heap i ≡ m)
  absent : (m : ℕ) → m ≢ n → l'.heap_loc m ≡ none ↔ l.heap_loc m ≡ none
  count_eq : l'.count ≡ l.count - 1
  time_eq : l'.time_stamp ≡ l.time_stamp

sink-IsParting :
    (n : ℕ) (l l' : SndUList) (q p : ℕ)
    → p < l'.count
    → q < p
    → IsParting n l l'
    → IsParting n l (sink l' q p)
sink-IsParting n l l' q p b c v = record {
  placed = λ i x. ground (arith, v.placed i, v.placed p, v.placed q);
  present = λ m i x y. ground (arith, v.present m i, v.placed p, v.placed q);
  absent = λ m h. (
    λ e. ground (arith, v.absent m h, v.placed p, v.placed q),
    λ e. ground (arith, v.absent m h, v.placed p, v.placed q),
  );
  count_eq = v.count_eq;
  time_eq = v.time_eq;
}

sift_down-IsParting :
    (n : ℕ) (l : SndUList) (fuel : ℕ) (l' : SndUList) (q : ℕ)
    → IsParting n l l'
    → IsParting n l (sift_down fuel l' q)
unfolding sift_down
sift_down-IsParting n l zero l' q v = v
sift_down-IsParting n l (suc fuel) l' q v = elim (Bool-cases (leb (q * 2 + 2) l'.count)) [
  | inr low ↦ rw low v
  | inl more ↦
      let c = smaller_child_lem l' q (ground arith) in
      rw more
        (elim (Bool-cases
          (ltb (l'.time_stamp (l'.heap (smaller_child l' q))) (l'.time_stamp (l'.heap q)))) [
            | inr fits ↦ rw fits v
            | inl late ↦ rw late (
                sift_down-IsParting n l fuel (sink l' q (smaller_child l' q)) (smaller_child l' q)
                  (sink-IsParting n l l' q (smaller_child l' q) c.1 c.3 v))
          ])
]

fill_place-IsParting :
    (n i : ℕ) (l : SndUList) → IsPlaced l → l.heap_loc n ≡ some i → IsParting n l (fill_place l i)
unfolding fill_place
fill_place-IsParting n i l v e = record {
  placed = λ j x. ground (arith, v.placed j, v.placed (l.count - 1), v.present n i e);
  present =
      λ m j x y. ground (arith, v.present m j, v.placed (l.count - 1), v.present n i e, v.placed i);
  absent = λ m h. (
    λ y. ground (arith, v.placed (l.count - 1), v.present n i e),
    λ y. ground (arith, v.placed (l.count - 1), v.present n i e, v.placed i),
  );
  count_eq = refl;
  time_eq = refl;
}

-- The node that takes the place `i` of the removed one is not due before its new parent.
abbrev pub Fits : SndUList → ℕ → Type 0
Fits l i =
    (i ≡ 0)
    ⊎ ((i ≡ l.count - 1)
        ⊎ (l.time_stamp (l.heap ((i - 1) / 2)) ≤ l.time_stamp (l.heap (l.count - 1))))

fill_place-IsSinking :
    (n i : ℕ) (l : SndUList)
    → IsPlaced l
    → IsHeap l
    → l.heap_loc n ≡ some i
    → Fits l i
    → IsSinking (fill_place l i) i
unfolding fill_place
fill_place-IsSinking n i l v o e f = record {
  almost = λ j x y z. ground (arith, o j, v.present n i e);
  grand = λ j x y z w. ground (arith, o j, o i, v.present n i e);
}

-- A socket has left the heap: every node in it knows its place, the number of nodes has fallen by one,
-- the other sockets are in it exactly if they were before, and no time has changed.
pub record Removed (n : ℕ) (l l' : SndUList) : Type 0 where
  pub places : IsPlaced l'
  pub count_eq : l'.count ≡ l.count - 1
  pub outside : l'.heap_loc n ≡ none
  pub others : (m : ℕ) → m ≢ n → l'.heap_loc m ≡ none ↔ l.heap_loc m ≡ none
  pub time_eq : l'.time_stamp ≡ l.time_stamp

detach-Removed :
    (n : ℕ) (l l' : SndUList) → IsParting n l l' → Removed n l (wake_last (detach n l'))
unfolding wake_last detach
detach-Removed n l l' v = record {
  places = record {
    placed = λ i x. ground (arith, v.placed i);
    present = λ m i x. ground (arith, v.present m i);
  };
  count_eq = v.count_eq;
  outside = ground arith;
  others = λ m h. (λ e. (v.absent m h).0 (ground arith), λ e. ground (arith, (v.absent m h).1 e));
  time_eq = v.time_eq;
}

-- Removing any socket that is in the heap gives `Removed`.
pub remove-Removed :
    (n i : ℕ) (l : SndUList) → IsPlaced l → l.heap_loc n ≡ some i → Removed n l (remove n l)
unfolding remove
remove-Removed n i l v e =
    rw (e, remove)
      (detach-Removed n l (sift_down (l.count - 1 - i) (fill_place l i) i) (
        sift_down-IsParting n l (l.count - 1 - i) (fill_place l i) i
          (fill_place-IsParting n i l v e)))

removed-IsHeap :
    (n i : ℕ) (l : SndUList)
    → IsPlaced l
    → IsHeap l
    → l.heap_loc n ≡ some i
    → Fits l i
    → IsHeap (sift_down (l.count - 1 - i) (fill_place l i) i)
unfolding fill_place
removed-IsHeap n i l v o e f =
    sift_down-IsHeap (l.count - 1 - i) (fill_place l i) i (omega arith)
      (fill_place-IsSinking n i l v o e f)

-- A node that is due before its children does not sink.
sift_down_stays :
    (fuel : ℕ) (l : SndUList) (q : ℕ)
    → ((j : ℕ)
        → 0 < j
        → j < l.count
        → (j - 1) / 2 ≡ q
        → l.time_stamp (l.heap q) ≤ l.time_stamp (l.heap j))
    → sift_down fuel l q ≡ l
unfolding sift_down
sift_down_stays zero l q h = refl
sift_down_stays (suc fuel) l q h = elim (Bool-cases (leb (q * 2 + 2) l.count)) [
  | inr low ↦ rw low
  | inl more ↦
      let c = smaller_child_lem l q (ground arith) in
      rw more (
        rw (
          le→ltb (l.time_stamp (l.heap (smaller_child l q))) (l.time_stamp (l.heap q))
            (h (smaller_child l q) c.0 c.1 c.2)))
]

abbrev Misfits : SndUList → ℕ → Type 0
Misfits l i =
    (0 < i)
    × (i ≢ l.count - 1)
    × (l.time_stamp (l.heap (l.count - 1)) < l.time_stamp (l.heap ((i - 1) / 2)))

Fits-or : (l : SndUList) (i : ℕ) → Fits l i ⊎ Misfits l i
Fits-or l i = grind arith

-- The last node, put into a place whose parent is due later, does not rise, and the order is lost.
misfit :
    (n i : ℕ) (l : SndUList)
    → IsPlaced l
    → IsHeap l
    → l.heap_loc n ≡ some i
    → Misfits l i
    → ¬ IsHeap (sift_down (l.count - 1 - i) (fill_place l i) i)
unfolding fill_place
misfit n i l v o e (f, g, k) h = ground (arith, v.present n i e, stays i)
  where
    stays : IsHeap (fill_place l i)
    stays =
        subst IsHeap
          (sift_down_stays (l.count - 1 - i) (fill_place l i) i
            λ j x y z. ground (arith, o j, o i, v.present n i e))
          h

-- After the removal of a socket from an ordered heap the heap is ordered exactly if the last node is
-- not due before the parent of the place that it takes (`Fits`): it is never moved up.
pub remove-IsHeap_iff :
    (n i : ℕ) (l : SndUList)
    → IsPlaced l
    → IsHeap l
    → l.heap_loc n ≡ some i
    → IsHeap (remove n l) ↔ Fits l i
unfolding remove detach wake_last
remove-IsHeap_iff n i l v o e =
    rw (e, remove)
      (
        λ h. elim (Fits-or l i) [ inl f ↦ f | inr m ↦ absurd (misfit n i l v o e m h) ],
        λ f. removed-IsHeap n i l v o e f,
      )
