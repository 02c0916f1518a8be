-- ===== src/SndUList/Insert.antt =====
-- What `insert_norealloc_` makes of the list.
use swift_srt.Base.{ℕ, ◌+◌, ◌-◌, ◌/◌, ◌<◌, ◌≤◌, ◌≡◌, ◌≢◌, ◌↔◌, inl, inr, none, arith, Option-cases}
use swift_srt.SndUList.{SndUList, sift_up, settle, append_node, insert_norealloc}
use swift_srt.SndUList.Locations.{IsPlaced}
use swift_srt.SndUList.Order.{IsHeap}
use swift_srt.SndUList.Up.{IsRising, sift_up-IsHeap}
use swift_srt.SndUList.Placing.{IsPlacing, SameNodes, sift_up-IsPlacing, sift_up-SameNodes}

append_node-IsPlacing :
    (ts n : ℕ) (l : SndUList)
    → IsPlaced l
    → l.heap_loc n ≡ none
    → IsPlacing n (append_node ts l n) l.count
unfolding append_node
append_node-IsPlacing ts n l v e = record {
  within = omega arith;
  here = ground arith;
  placed = λ i x y. ground (arith, v.placed i);
  present = λ m i x y. ground (arith, v.present m i);
}

append_node-IsRising :
    (ts n : ℕ) (l : SndUList)
    → IsPlaced l
    → IsHeap l
    → l.heap_loc n ≡ none
    → IsRising (append_node ts l n) l.count
unfolding append_node
append_node-IsRising ts n l v o e = record {
  almost = λ i x y z. ground (arith, o i, v.placed i, v.placed ((i - 1) / 2));
  grand = λ i x y z w. absurd (omega arith);
}

settle-IsPlaced : (n q : ℕ) (l : SndUList) → IsPlacing n l q → IsPlaced (settle n (l, q))
unfolding settle
settle-IsPlaced n q l v = record {
  placed = λ i x. ground (arith, v.placed i, v.here);
  present = λ m i x. ground (arith, v.present m i, v.here, v.within);
}

settle-inside : (n : ℕ) (r : SndUList × ℕ) → (settle n r).heap_loc n ≢ none
unfolding settle
settle-inside n r = ground arith

-- A socket that was outside the heap is put in, due at `ts`: the heap stays ordered and every node
-- in it knows its place; the number of nodes grows by one, the socket is in the heap, the other
-- sockets are in it exactly if they were before, and their times stay. The nodes fit the array, which is
-- as long as before.
pub record Inserted (ts n : ℕ) (l l' : SndUList) : Type 0 where
  pub ordered : IsHeap l'
  pub places : IsPlaced l'
  pub count_eq : l'.count ≡ l.count + 1
  pub in_array : l'.count ≤ l'.array_length
  pub same_array : l'.array_length ≡ l.array_length
  pub inside : l'.heap_loc n ≢ none
  pub due : l'.time_stamp n ≡ ts
  pub others :
      (m : ℕ)
      → m ≢ n
      → (l'.heap_loc m ≡ none ↔ l.heap_loc m ≡ none) × (l'.time_stamp m ≡ l.time_stamp m)

-- The parts of `Inserted`, from the facts on the loop.
settle-Inserted :
    (ts n : ℕ) (l : SndUList) (r : SndUList × ℕ)
    → l.count < l.array_length
    → IsHeap r.0
    → IsPlacing n r.0 r.1
    → SameNodes n (append_node ts l n) r.0
    → Inserted ts n l (settle n r)
unfolding settle append_node
settle-Inserted ts n l r room o v s = record {
  ordered = o;
  places = settle-IsPlaced n r.1 r.0 v;
  count_eq = s.count_eq;
  in_array = omega (arith, room, s.count_eq, s.array_eq);
  same_array = s.array_eq;
  inside = ground arith;
  due = rw (s.time_eq) (ground arith);
  others = λ m h. (
    (λ e. (s.absent m h).0 (ground arith), λ e. ground (arith, (s.absent m h).1 e)),
    rw (s.time_eq) (ground arith),
  );
}

-- The order alone, which does not depend on the room in the array.
pub insert_norealloc-IsHeap :
    (ts n : ℕ) (l : SndUList)
    → IsHeap l
    → IsPlaced l
    → l.heap_loc n ≡ none
    → IsHeap (insert_norealloc ts n l)
unfolding insert_norealloc settle append_node
insert_norealloc-IsHeap ts n l o v e =
    rw (e, insert_norealloc)
      (sift_up-IsHeap l.count (append_node ts l n) l.count (omega arith) (omega arith)
        (append_node-IsRising ts n l v o e))

-- Inserting a socket that is outside an ordered heap, in which every node knows its place and whose
-- array has room for one more node, gives `Inserted`.
pub insert_norealloc_lem :
    (ts n : ℕ) (l : SndUList)
    → IsHeap l
    → IsPlaced l
    → l.heap_loc n ≡ none
    → l.count < l.array_length
    → Inserted ts n l (insert_norealloc ts n l)
unfolding insert_norealloc append_node
insert_norealloc_lem ts n l o v e room =
    let a = append_node-IsPlacing ts n l v e in
    rw (e, insert_norealloc)
      (settle-Inserted ts n l (sift_up l.count (append_node ts l n) l.count) room
        (sift_up-IsHeap l.count (append_node ts l n) l.count (omega arith) (omega arith)
          (append_node-IsRising ts n l v o e))
        (sift_up-IsPlacing n l.count (append_node ts l n) l.count a)
        (sift_up-SameNodes n l.count (append_node ts l n) l.count a))

-- Whatever the order, an insertion leaves every node of the heap at the place that it knows, with the
-- socket in the heap.
pub insert_norealloc-IsPlaced :
    (ts n : ℕ) (l : SndUList)
    → IsPlaced l
    → IsPlaced (insert_norealloc ts n l) × ((insert_norealloc ts n l).heap_loc n ≢ none)
unfolding insert_norealloc
insert_norealloc-IsPlaced ts n l v = elim (Option-cases (l.heap_loc n)) [
  | inr (i, e) ↦ rw (e, insert_norealloc) (v, ground arith)
  | inl e ↦
      let p =
        sift_up-IsPlacing n l.count (append_node ts l n) l.count
          (append_node-IsPlacing ts n l v e) in
      let r = sift_up l.count (append_node ts l n) l.count in
      rw (e, insert_norealloc) (settle-IsPlaced n r.1 r.0 p, settle-inside n r)
]
