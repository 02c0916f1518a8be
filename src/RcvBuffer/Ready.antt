-- ===== src/RcvBuffer/Ready.antt =====
-- Delivery at play time: `getRcvReadyMsg` of `CRcvBuffer`, and `readMsg` with delivery times.
use swift_srt.Base.{
  ℕ, zero, suc, ◌+◌, ◌%◌, Bool, true, false, Option, none, some, List, [], if◌then◌else◌, ltb, ◌==◌,
  set, length, take, pos, neg, ◌-ℤ◌, ltb_ℤ,
}
use swift_srt.PlayTime.{get_pkt_tsbpd_time, diff_int64}
use swift_srt.RcvBuffer.{Flag, good, RcvUnit, RcvBuffer, count_acked, next_place, get_rcv_data_size}

-- What a turn of the loop does: it goes on with the next place, or returns false or true.
pub data ReadyTurn : Type 0 where
  skip not_due due : ReadyTurn

-- A place that is passed.
abbrev pub pass_place : RcvBuffer → RcvBuffer
pass_place b = record b { start_pos = next_place b.size b.start_pos }

-- A unit that is given back with its bytes.
abbrev pub free_unit : ℕ → RcvBuffer → RcvBuffer
free_unit bytes b =
    let c = count_acked (neg (pos 1)) (neg (pos bytes)) b in
    pass_place (record c { unit = set b.unit b.start_pos none; good_count = b.good_count -ℤ pos 1 })

-- A good unit: its time, and whether it is to wait.
unfoldable pub good_turn : ℕ → RcvUnit → RcvBuffer → ReadyTurn × ℕ × RcvBuffer
good_turn now u b =
    let (time, c) = get_pkt_tsbpd_time u.timestamp b.play_time in
    let d = record b { play_time = c } in
    if ltb_ℤ (pos 0) (diff_int64 time now)
    then (not_due, time, d)
    else if u.encrypted
    then (skip, time, free_unit (length u.data_bytes) d)
    else (due, time, d)

-- A turn of the loop at the place `start_pos`, which moves along with the index of the loop; `time` is
-- what `tsbpdtime` has been set to so far.
unfoldable pub flag_turn : Flag → ℕ → ℕ → RcvUnit → RcvBuffer → ReadyTurn × ℕ × RcvBuffer
unfolding good_turn
flag_turn good now time u b = good_turn now u b
flag_turn f now time u b = (skip, time, free_unit (length u.data_bytes) b)

unfoldable pub ready_turn : ℕ → ℕ → Option RcvUnit → RcvBuffer → ReadyTurn × ℕ × RcvBuffer
unfolding flag_turn
ready_turn now time none b = (skip, time, pass_place b)
ready_turn now time (some u) b = flag_turn u.flag now time u b

-- What the loop returns after a turn, where `rest` is what the remaining loop does.
abbrev pub after_ready : ReadyTurn → ℕ → RcvBuffer → Bool × ℕ × RcvBuffer → Bool × ℕ × RcvBuffer
after_ready skip time b rest = rest
after_ready not_due time b rest = (false, time, b)
after_ready due time b rest = (true, time, b)

-- The loop, for as many turns as there are acknowledged places; `clock k` is the time of the turn
-- before which `k` more may follow.
unfoldable pub ready_loop : ℕ → (ℕ → ℕ) → ℕ → RcvBuffer → Bool × ℕ × RcvBuffer
unfolding ready_turn
ready_loop zero clock time b = (false, time, b)
ready_loop (suc n) clock time b =
    let (turn, at, c) = ready_turn (clock n) time (b.unit b.start_pos) b in
    let rest = ready_loop n clock at c in
    if b.start_pos == b.last_ack_pos then (false, time, b) else after_ready turn at c rest

-- `getRcvReadyMsg`, with the play time that it reports.
unfoldable pub get_rcv_ready_msg : (ℕ → ℕ) → RcvBuffer → Bool × ℕ × RcvBuffer
unfolding ready_loop
get_rcv_ready_msg clock b = ready_loop (get_rcv_data_size b) clock 0 b

-- The packet at the start of the buffer, which `readMsg` gives out whole or in part.
unfoldable pub give_out : ℕ → Option RcvUnit → RcvBuffer → List ℕ × RcvBuffer
give_out len none b = ([], b)
give_out len (some u) b =
    let c =
      if ltb 0 (length u.data_bytes)
      then count_acked (neg (pos 1)) (neg (pos (length u.data_bytes))) b
      else b in
    (
      take len u.data_bytes,
      record c {
        unit = set b.unit b.start_pos none;
        good_count = b.good_count -ℤ pos 1;
        start_pos = (b.start_pos + 1) % b.size;
      },
    )

-- `readMsg` with delivery times, of a buffer of more than one place: the bytes, whose number it returns.
unfoldable pub read_msg : (ℕ → ℕ) → ℕ → RcvBuffer → List ℕ × RcvBuffer
unfolding get_rcv_ready_msg give_out
read_msg clock len b =
    let (ready, time, c) = get_rcv_ready_msg clock b in
    if ready then give_out len (c.unit c.start_pos) c else ([], c)
