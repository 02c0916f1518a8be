-- ===== src/AckWindow.antt =====
-- `ACKWindowTools` and `CACKWindow` of Sources/CSRT/window.cpp and include/window.h: a circular
-- window of the ACK packets sent, each with the time of its sending. `size` is the template argument
-- `SIZE`; the clock (microseconds, 64 bits) is an argument.
pub mod Contents
pub mod Refine
mod Tests
use swift_srt.Base.{
  ℕ, zero, suc, ◌+◌, ◌-◌, ◌%◌, ◌^◌, Option, none, some, if◌then◌else◌, ltb, leb, ◌==◌, ℤ, pos,
  negsuc, minus_one, eqb_ℤ, set,
}

-- `ACKWindowTools::Seq`
pub record Seq : Type 0 where
  pub ack_seq_no : ℤ
  pub ack : ℤ
  pub time_stamp : ℕ

pub record AckWindow : Type 0 where
  pub seq : ℕ → Seq
  pub head : ℕ
  pub tail : ℕ

-- `int(...)` of a 64-bit number keeps the low 32 bits.
unfoldable pub int_of_u64 : ℕ → ℤ
int_of_u64 x =
    let low = x % 2 ^ 32 in if ltb low (2 ^ 31) then pos low else negsuc (2 ^ 32 - low - 1)

-- `int(CTimer::getTime() - timestamp)`
unfoldable pub elapsed : ℕ → ℕ → ℤ
unfolding int_of_u64
elapsed now stamp = int_of_u64 ((now + 2 ^ 64 - stamp) % 2 ^ 64)

-- The constructor; the array starts with whatever it holds.
unfoldable pub ack_window : (ℕ → Seq) → AckWindow
ack_window raw = record {
  seq = set raw 0 (record (raw 0) { ack_seq_no = minus_one });
  head = 0;
  tail = 0;
}

-- The search of the first loop, from index `i` for `rounds` rounds.
unfoldable pub scan_straight : (ℕ → Seq) → ℤ → ℕ → ℕ → Option ℕ
scan_straight a seq_no zero i = none
scan_straight a seq_no (suc rounds) i =
    let rest = scan_straight a seq_no rounds (i + 1) in
    if eqb_ℤ seq_no (a i).ack_seq_no then some i else rest

unfoldable pub reset : AckWindow → AckWindow
reset w = record w {
  seq = set w.seq 0 (record (w.seq 0) { ack_seq_no = minus_one });
  head = 0;
  tail = 0;
}

-- The body that both loops run on a hit, with the window that they leave, and `return -1`.
unfoldable pub answered : AckWindow → ℕ → ℤ → (ℕ → AckWindow) → Option ℕ → ℤ × ℤ × AckWindow
answered w now r_ack take none = (minus_one, r_ack, w)
answered w now r_ack take (some i) = (elapsed now (w.seq i).time_stamp, (w.seq i).ack, take i)

module _ (size : ℕ) where
  unfoldable pub store : AckWindow → ℕ → ℤ → ℤ → AckWindow
  store w now seq_no ack_no =
      let entry : Seq = record { ack_seq_no = seq_no; ack = ack_no; time_stamp = now } in
      let head' = (w.head + 1) % size in
      record {
        seq = set w.seq w.head entry;
        head = head';
        tail = if head' == w.tail then (w.tail + 1) % size else w.tail;
      }

  -- The search of the second loop, where the index goes round; the result is `j % size`.
  unfoldable pub scan_wrapped : (ℕ → Seq) → ℤ → ℕ → ℕ → Option ℕ
  scan_wrapped a seq_no zero j = none
  scan_wrapped a seq_no (suc rounds) j =
      let rest = scan_wrapped a seq_no rounds (j + 1) in
      if eqb_ℤ seq_no (a (j % size)).ack_seq_no then some (j % size) else rest

  unfoldable pub take_straight : AckWindow → ℕ → AckWindow
  unfolding reset
  take_straight w i = if i + 1 == w.head then reset w else record w { tail = (i + 1) % size }

  unfoldable pub take_wrapped : AckWindow → ℕ → AckWindow
  unfolding reset
  take_wrapped w j = if j == w.head then reset w else record w { tail = (j + 1) % size }

  -- The result is the return value, the new value of `r_ack`, and the window.
  unfoldable pub acknowledge : AckWindow → ℕ → ℤ → ℤ → ℤ × ℤ × AckWindow
  unfolding answered
  acknowledge w now seq_no r_ack =
      if leb w.tail w.head
      then answered w now r_ack (take_straight w)
          (scan_straight w.seq seq_no (w.head - w.tail) w.tail)
      else answered w now r_ack (take_wrapped w)
          (scan_wrapped w.seq seq_no (w.head + size - w.tail) w.tail)
