-- ===== src/RcvBuffer.antt =====
-- `CRcvBuffer` of Sources/CSRT/buffer.cpp and include/buffer.h: the units received, on a circular array.
-- Of a unit there is its flag, and of its packet the timestamp, whether it is still encrypted, and the
-- bytes. The delivery times are those of `PlayTime`. Reading by messages without delivery times, the
-- search for lost packets in front of a packet that is ready, the averages of the buffered data and
-- reading to a file are left out.
pub mod Contents
pub mod Turns
pub mod Advance
pub mod Read
pub mod Fill
pub mod Stream
pub mod Ready
pub mod Ring
pub mod Emptied
pub mod Shortened
pub mod Search
pub mod Due
mod Tests
use swift_srt.Base.{
  ℕ, zero, suc, ◌+◌, ◌-◌, ◌*◌, ◌/◌, ◌%◌, Bool, true, false, not, ◌&&◌, ◌||◌, Option, none, some,
  List, [], ◌∷◌, ◌++◌, if◌then◌else◌, ltb, leb, ◌==◌, set, length, take, drop, ℤ, pos, ◌+ℤ◌, ◌-ℤ◌,
  neg, minus_one, ltb_ℤ,
}
use swift_srt.PlayTime.{PlayTime, get_pkt_tsbpd_time}

pub data Flag : Type 0 where
  free good passack dropped : Flag

-- `CUnit`
pub record RcvUnit : Type 0 where
  pub flag : Flag
  pub timestamp : ℕ
  pub encrypted : Bool
  pub data_bytes : List ℕ

-- `max_pos` is never negative; `good_count` is `m_iCount` of the unit queue.
pub record RcvBuffer : Type 0 where
  pub unit : ℕ → Option RcvUnit
  pub size : ℕ
  pub start_pos : ℕ
  pub last_ack_pos : ℕ
  pub max_pos : ℕ
  pub notch : ℕ
  pub bytes_count : ℤ
  pub acked_pkts_count : ℤ
  pub acked_bytes_count : ℤ
  pub avg_payload_size : ℕ
  pub good_count : ℤ
  pub play_time : PlayTime

-- The constructor.
abbrev pub rcv_buffer : ℕ → PlayTime → ℤ → RcvBuffer
rcv_buffer bufsize_pkts play_time good_count = record {
  unit = λ i. none;
  size = bufsize_pkts;
  start_pos = 0;
  last_ack_pos = 0;
  max_pos = 0;
  notch = 0;
  bytes_count = pos 0;
  acked_pkts_count = pos 0;
  acked_bytes_count = pos 0;
  avg_payload_size = 7 * 188;
  good_count = good_count;
  play_time = play_time;
}

-- `countBytes` of bytes that are added.
abbrev pub count_added : ℕ → RcvBuffer → RcvBuffer
count_added bytes b = record b {
  bytes_count = b.bytes_count +ℤ pos bytes;
  avg_payload_size =
      if ltb 0 bytes then (b.avg_payload_size * (100 - 1) + bytes) / 100 else b.avg_payload_size;
}

-- `countBytes` of packets that are acknowledged or, with negative numbers, removed.
abbrev pub count_acked : ℤ → ℤ → RcvBuffer → RcvBuffer
count_acked pkts bytes b = record b {
  acked_pkts_count = b.acked_pkts_count +ℤ pkts;
  acked_bytes_count = b.acked_bytes_count +ℤ bytes;
  bytes_count = if ltb_ℤ bytes (pos 0) then b.bytes_count +ℤ bytes else b.bytes_count;
}

-- `getRcvDataSize`
abbrev pub get_rcv_data_size : RcvBuffer → ℕ
get_rcv_data_size b =
    if leb b.start_pos b.last_ack_pos
    then b.last_ack_pos - b.start_pos
    else b.size + b.last_ack_pos - b.start_pos

-- `getAvailBufSize`
abbrev pub get_avail_buf_size : RcvBuffer → ℕ
get_avail_buf_size b = b.size - get_rcv_data_size b - 1

-- The end of `addData`, with the place of the unit.
unfoldable pub add_at : RcvUnit → ℕ → Option RcvUnit → RcvBuffer → ℤ × RcvBuffer
add_at u p (some old) b = (minus_one, b)
add_at u p none b =
    let c = count_added (length u.data_bytes) b in
    (
      pos 0,
      record c {
        unit = set b.unit p (some (record u { flag = good }));
        good_count = b.good_count +ℤ pos 1;
      },
    )

-- `addData`, with the result that it returns.
unfoldable pub add_data : RcvUnit → ℕ → RcvBuffer → ℤ × RcvBuffer
unfolding add_at
add_data u offset b =
    let p = (b.last_ack_pos + offset) % b.size in
    if leb (get_avail_buf_size b) offset
    then (minus_one, b)
    else add_at u p (b.unit p)
        (record b { max_pos = if leb b.max_pos offset then offset + 1 else b.max_pos })

abbrev pub ack_unit : Option RcvUnit → ℕ → ℕ → ℕ × ℕ
ack_unit none pkts bytes = (pkts, bytes)
ack_unit (some u) pkts bytes = (pkts + 1, bytes + length u.data_bytes)

-- The packets and bytes in `n` places from `i` on, which the loop of `ackData` counts.
unfoldable pub ack_loop : ℕ → RcvBuffer → ℕ → ℕ × ℕ
ack_loop zero b i = (0, 0)
ack_loop (suc n) b i =
    let (pkts, bytes) = ack_loop n b ((i + 1) % b.size) in ack_unit (b.unit i) pkts bytes

-- `ackData`; its loop stops at the place where the new acknowledged position is.
unfoldable pub ack_data : ℕ → RcvBuffer → RcvBuffer
unfolding ack_loop
ack_data len b =
    let (pkts, bytes) = ack_loop (len % b.size) b b.last_ack_pos in
    let c = if ltb 0 pkts then count_acked (pos pkts) (pos bytes) b else b in
    record c { last_ack_pos = (b.last_ack_pos + len) % b.size; max_pos = b.max_pos - len }

-- `skipData`
unfoldable pub skip_data : ℕ → RcvBuffer → RcvBuffer
skip_data len b = record b {
  start_pos = if b.start_pos == b.last_ack_pos then (b.start_pos + len) % b.size else b.start_pos;
  last_ack_pos = (b.last_ack_pos + len) % b.size;
  max_pos = b.max_pos - len;
}

-- The variables of `readBuffer`: `p`, `rs` and the bytes copied.
pub record Reading : Type 0 where
  pub buffer : RcvBuffer
  pub place : ℕ
  pub rest : ℕ
  pub copied : List ℕ

pub data Turn : Type 0 where
  go_on stop fail : Turn

abbrev pub next_place : ℕ → ℕ → ℕ
next_place size p = if p + 1 == size then 0 else p + 1

-- The copying of a unit's bytes, from the notch on.
unfoldable pub copy_unit : RcvUnit → Reading → Reading
copy_unit u s =
    let b = s.buffer in
    let left = length u.data_bytes - b.notch in
    let unit_size = if ltb s.rest left then s.rest else left in
    let copied = s.copied ++ take unit_size (drop b.notch u.data_bytes) in
    if ltb unit_size s.rest || s.rest == left
    then record {
      buffer = record b {
        unit = set b.unit s.place none;
        good_count = b.good_count -ℤ pos 1;
        notch = 0;
      };
      place = next_place b.size s.place;
      rest = s.rest - unit_size;
      copied = copied;
    }
    else record {
      buffer = record b { notch = b.notch + s.rest };
      place = s.place;
      rest = s.rest - unit_size;
      copied = copied;
    }

-- One turn of the loop, at a place that holds `u`.
unfoldable pub read_turn : ℕ → Option RcvUnit → Reading → Turn × Reading
unfolding copy_unit
read_turn now none s = (fail, s)
read_turn now (some u) s =
    let (time, c) = get_pkt_tsbpd_time u.timestamp s.buffer.play_time in
    let t = record s { buffer = record s.buffer { play_time = c } } in
    if s.buffer.play_time.tsbpd_mode
    then if ltb now time then (stop, t) else (go_on, copy_unit u t)
    else (go_on, copy_unit u s)

-- What the loop gives: whether it went through, and its variables; `rest` is the remaining loop.
abbrev pub after_turn : Turn → Reading → Bool × Reading → Bool × Reading
after_turn go_on s rest = rest
after_turn stop s rest = (true, s)
after_turn fail s rest = (false, s)

-- The loop of `readBuffer`, for as many turns as there are acknowledged places.
unfoldable pub read_loop : ℕ → ℕ → Reading → Bool × Reading
unfolding read_turn
read_loop zero now s = (true, s)
read_loop (suc n) now s =
    let (turn, t) = read_turn now (s.buffer.unit s.place) s in
    let rest = read_loop n now t in
    if s.place == s.buffer.last_ack_pos || s.rest == 0 then (true, s) else after_turn turn t rest

-- `readBuffer`: the number that it returns, the bytes copied, and the buffer.
unfoldable pub read_buffer : ℕ → ℕ → RcvBuffer → ℤ × List ℕ × RcvBuffer
unfolding read_loop
read_buffer now len b =
    let (through, s) =
      read_loop (get_rcv_data_size b) now
        (record { buffer = b; place = b.start_pos; rest = len; copied = [] }) in
    if through
    then (
      pos (len - s.rest),
      s.copied,
      record (count_acked (neg (pos 1)) (neg (pos (len - s.rest))) s.buffer) {
        start_pos = s.place;
      },
    )
    else (minus_one, s.copied, s.buffer)
