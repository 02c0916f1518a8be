-- ===== src/SndBuffer.antt =====
-- `CSndBuffer` of Sources/CSRT/buffer.cpp and include/buffer.h: the sender's packets, in blocks on a
-- ring. A pointer to a block is a number, and `block` is the memory; `allocated` is the first number
-- not in use. Each block has memory of its own for its bytes, `content`. The flags and the number of a
-- message, which the source keeps in one word, are fields. The input rate and the moving averages are
-- left out, and so is the second `readData`.
pub mod Ack
pub mod Late
mod Tests
use swift_srt.Base.{
  ℕ, zero, suc, ◌+◌, ◌-◌, ◌*◌, ◌/◌, ◌%◌, ◌^◌, Bool, true, false, not, ◌&&◌, ◌||◌, Option, none,
  some, List, [], ◌∷◌, if◌then◌else◌, ltb, leb, ◌==◌, set, ℤ, pos, ◌+ℤ◌, ◌-ℤ◌, minus_one, eqb_ℤ,
  leb_ℤ, ltb_ℤ, pos_part,
}

pub record MsgNo : Type 0 where
  pub first : Bool
  pub last : Bool
  pub in_order : Bool
  pub even_key : Bool
  pub odd_key : Bool
  pub seq : ℕ

pub record Block : Type 0 where
  pub content : List ℕ
  pub length : ℕ
  pub msg_no : MsgNo
  pub origin_time : ℕ
  pub source_time : ℕ
  pub ttl : ℤ
  pub next : ℕ

pub record SndBuffer : Type 0 where
  pub block : ℕ → Block
  pub allocated : ℕ
  pub unit_size : ℕ
  pub first_block : ℕ
  pub curr_block : ℕ
  pub last_block : ℕ
  pub next_msg_no : ℕ
  pub size : ℕ
  pub mss : ℕ
  pub count : ℤ
  pub bytes_count : ℤ
  pub last_origin_time : ℕ

-- The word 0.
abbrev pub no_msg : MsgNo
no_msg = record {
  first = false;
  last = false;
  in_order = false;
  even_key = false;
  odd_key = false;
  seq = 0;
}

-- The constructor; `raw` is the memory of new blocks.
unfoldable pub snd_buffer : (ℕ → Block) → ℕ → ℕ → SndBuffer
snd_buffer raw size mss = record {
  block = λ i.
      if ltb (i + 1) size
      then record (raw i) { next = i + 1; msg_no = no_msg }
      else if i + 1 == size
      then record (raw i) { next = 0 }
      else raw i;
  allocated = size;
  unit_size = size;
  first_block = 0;
  curr_block = 0;
  last_block = 0;
  next_msg_no = 1;
  size = size;
  mss = mss;
  count = pos 0;
  bytes_count = pos 0;
  last_origin_time = 0;
}

-- `increase`: as many new blocks as the first buffer has, behind the last one.
unfoldable pub increase : SndBuffer → SndBuffer
increase s =
    let n = s.allocated in
    let end = n + s.unit_size in
    let behind = (s.block s.last_block).next in
    record s {
      block = λ i.
          if leb n i && ltb i end
          then record (s.block i) { next = if i + 1 == end then behind else i + 1 }
          else if i == s.last_block
          then record (s.block i) { next = n }
          else s.block i;
      allocated = end;
      size = s.size + s.unit_size;
    }

-- The loop of `addBuffer` that calls it; every round adds a block or more.
unfoldable pub ensure_room : ℕ → ℕ → SndBuffer → SndBuffer
ensure_room zero size s = s
ensure_room (suc fuel) size s =
    let rest = ensure_room fuel size (increase s) in
    if leb_ℤ (pos s.size) (pos size +ℤ s.count) then rest else s

abbrev pub take : ℕ → List ℕ → List ℕ
take zero xs = []
take (suc n) [] = []
take (suc n) (x ∷ xs) = x ∷ take n xs

abbrev pub drop : ℕ → List ℕ → List ℕ
drop zero xs = xs
drop (suc n) [] = []
drop (suc n) (x ∷ xs) = drop n xs

abbrev pub min : ℕ → ℕ → ℕ
min a b = if ltb b a then b else a

-- What `addBuffer` puts into the block of packet `i` of `size`.
unfoldable pub write_packet : SndBuffer → List ℕ → ℕ → ℤ → Bool → ℕ → ℕ → ℕ → ℕ → Block → Block
write_packet s content len ttl order src_time time size i b =
    let packet_len = min (len - i * s.mss) s.mss in
    record b {
      content = take packet_len (drop (i * s.mss) content);
      length = packet_len;
      msg_no = record {
        first = i == 0;
        last = i + 1 == size;
        in_order = order;
        even_key = false;
        odd_key = false;
        seq = s.next_msg_no;
      };
      source_time = src_time;
      origin_time = time;
      ttl = ttl;
    }

-- The loop over the packets, `rounds` of them from packet `i` on at block `p`.
unfoldable pub fill : SndBuffer → (ℕ → Block → Block) → ℕ → ℕ → ℕ → (ℕ → Block) → (ℕ → Block) × ℕ
fill s write zero i p block = (block, p)
fill s write (suc rounds) i p block =
    fill s write rounds (i + 1) (block p).next (set block p (write i (block p)))

-- The number of packets of a message.
abbrev pub packet_count : ℕ → ℕ → ℕ
packet_count len mss = if len % mss == 0 then len / mss else len / mss + 1

-- `addBuffer`, where the clock gives `time`; the first part is the number of the message.
unfoldable pub add_buffer : SndBuffer → List ℕ → ℕ → ℤ → Bool → ℕ → ℕ → ℕ × SndBuffer
add_buffer s0 content len ttl order src_time time =
    let size = packet_count len s0.mss in
    let s = ensure_room (suc (pos_part (pos size +ℤ s0.count))) size s0 in
    let (block, p) =
      fill s (write_packet s content len ttl order src_time time size) size 0 s.last_block
        s.block in
    let following = s.next_msg_no + 1 in
    (
      s.next_msg_no,
      record s {
        block = block;
        last_block = p;
        count = s.count +ℤ pos size;
        bytes_count = s.bytes_count +ℤ pos len;
        last_origin_time = time;
        next_msg_no = if following == 2 ^ 26 - 1 then 1 else following;
      },
    )

pub record Read : Type 0 where
  pub content : List ℕ
  pub length : ℕ
  pub msg_no : MsgNo
  pub src_time : ℕ

-- `MSGNO_ENCKEYSPEC::wrap(kflgs)`, or-ed to the word.
abbrev pub with_key : ℕ → MsgNo → MsgNo
with_key k m = record m {
  even_key = m.even_key || k % 2 == 1;
  odd_key = m.odd_key || (k / 2) % 2 == 1;
}

-- The first `readData`, with `none` for `kflgs == -1`. The result is `none` for `return 0` at the end
-- of the data.
unfoldable pub read_data : SndBuffer → Option ℕ → Option Read × SndBuffer
read_data s key_flags =
    let p = s.curr_block in
    let b = s.block p in if p == s.last_block then (none, s) else go b key_flags
  where
    source : Block → ℕ
    source b = if b.source_time == 0 then b.origin_time else b.source_time

    go : Block → Option ℕ → Option Read × SndBuffer
    go b none = (
      some (record { content = b.content; length = 0; msg_no = b.msg_no; src_time = source b }),
      record s { curr_block = b.next },
    )
    go b (some k) =
        let m = with_key k b.msg_no in
        (
          some (record { content = b.content; length = b.length; msg_no = m; src_time = source b }),
          record s {
            block = set s.block s.curr_block (record b { msg_no = m });
            curr_block = b.next;
          },
        )

-- The loop of `ackData`; the parts are the pointer `m_pFirstBlock`, the bytes let go, and `move`.
unfoldable pub pass : SndBuffer → ℕ → ℕ → ℤ → Bool → ℕ × ℤ × Bool
pass s zero p bytes move = (p, bytes, move)
pass s (suc rounds) p bytes move =
    pass s rounds (s.block p).next (bytes +ℤ pos (s.block p).length) (move || p == s.curr_block)

unfoldable pub ack_data : SndBuffer → ℕ → SndBuffer
ack_data s offset =
    let (p, bytes, move) = pass s offset s.first_block (pos 0) false in
    record s {
      first_block = p;
      curr_block = if move then p else s.curr_block;
      count = s.count -ℤ pos offset;
      bytes_count = s.bytes_count -ℤ bytes;
    }

-- The loop of `dropLateData`, with the number of packets dropped so far, their bytes, and `move`.
unfoldable pub late_from : SndBuffer → ℕ → ℕ → ℕ → ℕ → ℤ → Bool → ℕ × ℕ × ℤ × Bool
late_from s late_time zero p packets bytes move = (p, packets, bytes, move)
late_from s late_time (suc rounds) p packets bytes move =
    let rest =
      late_from s late_time rounds (s.block p).next (packets + 1) (bytes +ℤ pos (s.block p).length)
        (move || p == s.curr_block) in
    if ltb (s.block p).origin_time late_time then rest else (p, packets, bytes, move)

-- `dropLateData`: the number of packets dropped, their bytes, and the buffer.
unfoldable pub drop_late_data : SndBuffer → ℕ → ℕ × ℤ × SndBuffer
drop_late_data s late_time =
    let (p, packets, bytes, move) =
      late_from s late_time (pos_part s.count) s.first_block 0 (pos 0) false in
    (
      packets,
      bytes,
      record s {
        first_block = p;
        curr_block = if move then p else s.curr_block;
        count = s.count -ℤ pos packets;
        bytes_count = s.bytes_count -ℤ bytes;
      },
    )
