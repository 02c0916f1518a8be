-- ===== src/SndUList.antt =====
-- `CSndUList` of Sources/CSRT/queue.cpp and include/queue.h: the sockets that have something to send,
-- in a binary heap by the time of their next sending. A socket (with its `CSNode`) is a number;
-- `count` is `m_iLastEntry + 1`, and `heap_loc` is `m_iHeapLoc`, with `none` for -1. The wake-ups of
-- the timer and of the sending thread are counted. The current time is an argument.
pub mod Locations
pub mod Up
pub mod Placing
pub mod Insert
pub mod Down
pub mod Remove
pub mod Pop
pub mod Order
mod Tests
use swift_srt.Base.{
  ℕ, zero, suc, ◌+◌, ◌-◌, ◌*◌, ◌/◌, Bool, true, false, ◌&&◌, Option, none, some, if◌then◌else◌, ltb,
  leb, ◌==◌, set, ℤ, pos, minus_one, leb_ℤ,
}

pub record SndUList : Type 0 where
  pub heap : ℕ → ℕ
  pub heap_loc : ℕ → Option ℕ
  pub time_stamp : ℕ → ℕ
  pub count : ℕ
  pub array_length : ℕ
  pub interrupts : ℕ
  pub signals : ℕ

-- The constructor: every socket starts outside the heap.
unfoldable pub snd_u_list : (ℕ → ℕ) → SndUList
snd_u_list raw = record {
  heap = raw;
  heap_loc = λ n. none;
  time_stamp = λ n. 0;
  count = 0;
  array_length = 512;
  interrupts = 0;
  signals = 0;
}

-- `swap(m_pHeap[p], m_pHeap[q])`
abbrev pub swap : (ℕ → ℕ) → ℕ → ℕ → ℕ → ℕ
swap h p q = set (set h p (h q)) q (h p)

-- The loop of `insert_norealloc_`, from index `q`; it ends after at most `q` rounds. The result is
-- the list and the last `q`.
unfoldable pub sift_up : ℕ → SndUList → ℕ → SndUList × ℕ
sift_up zero l q = (l, q)
sift_up (suc fuel) l q =
    let p = (q - 1) / 2 in
    let h = swap l.heap p q in
    let rest = sift_up fuel (record l { heap = h; heap_loc = set l.heap_loc (h q) (some q) }) p in
    if q == 0
    then (l, q)
    else if leb (l.time_stamp (l.heap p)) (l.time_stamp (l.heap q))
    then (l, q)
    else rest

-- The end of `insert_norealloc_`: the place of the node, and the two wake-ups.
unfoldable pub settle : ℕ → SndUList × ℕ → SndUList
settle n (l, q) = record l {
  heap_loc = set l.heap_loc n (some q);
  interrupts = if q == 0 then l.interrupts + 1 else l.interrupts;
  signals = if l.count == 1 then l.signals + 1 else l.signals;
}

-- The new node at the end of the array, before the loop.
unfoldable pub append_node : ℕ → SndUList → ℕ → SndUList
append_node ts l n = record l {
  heap = set l.heap l.count n;
  time_stamp = set l.time_stamp n ts;
  count = l.count + 1;
}

-- The caller guarantees that the array has room for one more node, which the code asserts.
unfoldable pub insert_norealloc : ℕ → ℕ → SndUList → SndUList
insert_norealloc ts n l = elim (l.heap_loc n) [
  | some i ↦ l
  | none ↦ settle n (sift_up l.count (append_node ts l n) l.count)
]

unfoldable pub realloc : SndUList → SndUList
realloc l = record l { array_length = 2 * l.array_length }

unfoldable pub insert : ℕ → ℕ → SndUList → SndUList
insert ts n l = insert_norealloc ts n (if l.count == l.array_length then realloc l else l)

-- The smaller child of `q`, where `q` has one.
unfoldable pub smaller_child : SndUList → ℕ → ℕ
smaller_child l q =
    let p = q * 2 + 1 in
    if leb (p + 2) l.count && ltb (l.time_stamp (l.heap (p + 1))) (l.time_stamp (l.heap p))
    then p + 1
    else p

-- The loop of `remove_`, from index `q`; it ends after at most `count - q` rounds.
unfoldable pub sift_down : ℕ → SndUList → ℕ → SndUList
sift_down zero l q = l
sift_down (suc fuel) l q =
    let p = smaller_child l q in
    let h = swap l.heap p q in
    let rest =
      sift_down fuel
        (record l { heap = h; heap_loc = set (set l.heap_loc (h p) (some p)) (h q) (some q) }) p in
    if leb (q * 2 + 2) l.count
    then (if ltb (l.time_stamp (l.heap p)) (l.time_stamp (l.heap q)) then rest else l)
    else l

-- The last node put in the place `i` of the removed one, before the loop.
unfoldable pub fill_place : SndUList → ℕ → SndUList
fill_place l i =
    let h = set l.heap i (l.heap (l.count - 1)) in
    record l { heap = h; heap_loc = set l.heap_loc (h i) (some i); count = l.count - 1 }

-- The end of `remove_`: with one node left the timer is interrupted.
unfoldable pub wake_last : SndUList → SndUList
wake_last l = record l { interrupts = if l.count == 1 then l.interrupts + 1 else l.interrupts }

-- After the loop, `n` is outside the heap.
unfoldable pub detach : ℕ → SndUList → SndUList
detach n l = record l { heap_loc = set l.heap_loc n none }

-- `remove_`, and so `remove`
unfoldable pub remove : ℕ → SndUList → SndUList
remove n l = wake_last (elim (l.heap_loc n) [
  | none ↦ l
  | some i ↦ detach n (sift_down (l.count - 1 - i) (fill_place l i) i)
])

unfoldable pub update : ℕ → Bool → SndUList → SndUList
update n reschedule l = elim (l.heap_loc n) [
  | none ↦ insert 1 n l
  | some zero ↦
      if reschedule
      then record l { time_stamp = set l.time_stamp n 1; interrupts = l.interrupts + 1 }
      else l
  | some (suc i) ↦ if reschedule then insert_norealloc 1 n (remove n l) else l
]

unfoldable pub get_next_proc_time : SndUList → ℕ
get_next_proc_time l = if l.count == 0 then 0 else l.time_stamp (l.heap 0)

-- `pop`, where `ready u` says that the socket is connected and not broken, and `pack u ts` is what
-- `packData` returns and the next time that it sets. The result is the socket whose packet is sent.
unfoldable pub pop : (ℕ → Bool) → (ℕ → ℕ → ℤ × ℕ) → ℕ → SndUList → Option ℕ × SndUList
pop ready pack ts l =
    let u = l.heap 0 in
    let l' = remove u l in
    let (done, next) = pack u ts in
    if l.count == 0
    then (none, l)
    else if ltb ts (l.time_stamp (l.heap 0))
    then (none, l)
    else if ready u
    then (if leb_ℤ done (pos 0)
        then (none, l')
        else (some u, if ltb 0 next then insert_norealloc next u l' else l'))
    else (none, l')
