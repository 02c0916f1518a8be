-- ===== src/SndUList/Pop.antt =====
-- `pop` takes the socket that is due first.
use native.Mathlib.Nat.{le_refl}
use swift_srt.Base.{
  ℕ, zero, suc, ◌-◌, ◌*◌, ◌/◌, ◌<◌, ◌≤◌, ◌≡◌, ◌≢◌, inl, inr, refl, Option, none, some, arith, ltb,
  ◌==◌, Bool, true, false, Bool-cases, Option-cases, ℤ, pos, leb_ℤ,
}
use swift_srt.SndUList.{
  SndUList, remove, insert, realloc, insert_norealloc, update, pop, get_next_proc_time,
}
use swift_srt.SndUList.Order.{IsHeap}
use swift_srt.SndUList.Locations.{IsPlaced}
use swift_srt.SndUList.Insert.{insert_norealloc-IsHeap, insert_norealloc-IsPlaced}
use swift_srt.SndUList.Remove.{Removed, remove-Removed, remove-IsHeap_iff}

-- No node is due before the root.
root_least_fuel :
    (l : SndUList)
    → IsHeap l
    → (k i : ℕ) → i ≤ k
    → i < l.count
    → l.time_stamp (l.heap 0) ≤ l.time_stamp (l.heap i)
root_least_fuel l o zero i f b = let e : i ≡ 0 = omega arith in rw e (le_refl _)
root_least_fuel l o (suc k) i f b = elim (Bool-cases (i == 0)) [
  | inl top ↦ let e : i ≡ 0 = ground arith in rw e (le_refl _)
  | inr low ↦ ground (arith, o i, root_least_fuel l o k ((i - 1) / 2))
]

-- The time that the sending thread waits for is the earliest of all the sockets in the heap.
pub get_next_proc_time_least :
    (l : SndUList) (m : ℕ)
    → IsHeap l
    → IsPlaced l
    → l.heap_loc m ≢ none
    → get_next_proc_time l ≤ l.time_stamp m
unfolding get_next_proc_time
get_next_proc_time_least l m o v h = elim (Option-cases (l.heap_loc m)) [
  | inl e ↦ absurd (h e)
  | inr (i, e) ↦ let p = v.present m i e in ground (arith, root_least_fuel l o i i (le_refl i) p.0)
]

after_remove :
    (l : SndUList)
    → IsHeap l
    → IsPlaced l
    → 0 < l.count
    → IsHeap (remove (l.heap 0) l) × Removed (l.heap 0) l (remove (l.heap 0) l)
after_remove l o v c =
    let e = v.placed 0 c in
    ((remove-IsHeap_iff (l.heap 0) 0 l v o e).1 (inl refl), remove-Removed (l.heap 0) 0 l v e)

after_insert :
    (next : ℕ) (l : SndUList)
    → IsHeap l
    → IsPlaced l
    → 0 < l.count
    → let l' = insert_norealloc next (l.heap 0) (remove (l.heap 0) l) in IsHeap l' × IsPlaced l'
after_insert next l o v c =
    let (a, r) = after_remove l o v c in
    (
      insert_norealloc-IsHeap next (l.heap 0) (remove (l.heap 0) l) a r.places r.outside,
      (insert_norealloc-IsPlaced next (l.heap 0) (remove (l.heap 0) l) r.places).0,
    )

-- `pop` keeps an ordered heap ordered and its nodes at their places, whatever the packing returns.
pub pop-IsHeap :
    (ready : ℕ → Bool) (pack : ℕ → ℕ → ℤ × ℕ) (now : ℕ) (l : SndUList)
    → IsHeap l
    → IsPlaced l
    → IsHeap (pop ready pack now l).1 × IsPlaced (pop ready pack now l).1
unfolding pop
pop-IsHeap ready pack now l o v = elim (Bool-cases (l.count == 0)) [
  | inl e ↦ rw e (o, v)
  | inr c ↦
      let r = after_remove l o v (ground arith) in
      let i = after_insert (pack (l.heap 0) now).1 l o v (ground arith) in
      rw c (elim (Bool-cases (ltb now (l.time_stamp (l.heap 0)))) [
        | inl early ↦ rw early (o, v)
        | inr due ↦ rw due (elim (Bool-cases (ready (l.heap 0))) [
          | inr off ↦ rw off (r.0, r.1.places)
          | inl on ↦ rw on (elim (Bool-cases (leb_ℤ (pack (l.heap 0) now).0 (pos 0))) [
            | inl nothing ↦ rw nothing (r.0, r.1.places)
            | inr packed ↦ rw packed (elim (Bool-cases (ltb 0 (pack (l.heap 0) now).1)) [
              | inl again ↦ rw again i
              | inr last ↦ rw last (r.0, r.1.places)
            ])
          ])
        ])
      ])
]

-- The socket that `pop` hands to the sender was in the heap, was due, was due no later than any other
-- in the heap, and is ready.
pub pop_first :
    (ready : ℕ → Bool) (pack : ℕ → ℕ → ℤ × ℕ) (now u : ℕ) (l : SndUList)
    → IsHeap l
    → IsPlaced l
    → (pop ready pack now l).0 ≡ some u
    → (l.heap_loc u ≢ none)
      × (l.time_stamp u ≤ now)
      × (ready u ≡ true)
      × ((m : ℕ) → l.heap_loc m ≢ none → l.time_stamp u ≤ l.time_stamp m)
unfolding pop get_next_proc_time
pop_first ready pack now u l o v e = (
  ground (arith, v.placed 0),
  ground arith,
  ground arith,
  λ m h. ground (arith, get_next_proc_time_least l m o v h),
)

insert-IsPlaced :
    (ts n : ℕ) (l : SndUList)
    → IsPlaced l
    → IsPlaced (insert ts n l) × ((insert ts n l).heap_loc n ≢ none)
unfolding insert realloc
insert-IsPlaced ts n l v = elim (Bool-cases (l.count == l.array_length)) [
  | inl full ↦ rw full (
      insert_norealloc-IsPlaced ts n (record l { array_length = 2 * l.array_length })
        (record { placed = v.placed; present = v.present }))
  | inr room ↦ rw room (insert_norealloc-IsPlaced ts n l v)
]

update_cases :
    (n : ℕ) (reschedule : Bool) (l : SndUList) (o : Option ℕ)
    → l.heap_loc n ≡ o
    → IsPlaced l
    → IsPlaced (update n reschedule l) × ((update n reschedule l).heap_loc n ≢ none)
unfolding update
update_cases n r l none e v = rw (e, update) (insert-IsPlaced 1 n l v)
update_cases n false l (some zero) e v = rw (e, update) (v, ground arith)
update_cases n true l (some zero) e v =
    rw (e, update) (record { placed = v.placed; present = v.present }, ground arith)
update_cases n false l (some (suc i)) e v = rw (e, update) (v, ground arith)
update_cases n true l (some (suc i)) e v =
    rw (e, update)
      (insert_norealloc-IsPlaced 1 n (remove n l) (remove-Removed n (suc i) l v e).places)

-- `update` leaves the socket in the heap and every node of the heap at the place that it knows.
pub update_lem :
    (n : ℕ) (reschedule : Bool) (l : SndUList)
    → IsPlaced l
    → IsPlaced (update n reschedule l) × ((update n reschedule l).heap_loc n ≢ none)
update_lem n reschedule l v = update_cases n reschedule l (l.heap_loc n) refl v
