-- ===== src/Fec.antt =====
-- `FECFilterBuiltin` of Sources/CSRT/fec.cpp and include/fec.h: a control packet for every row of
-- packets, and for every column, from which one lost packet can be made again. This file has the packets,
-- the groups and the sender; `Fec.Receiver` and `Fec.Receive` have the receiver for a filter with rows only. Words are
-- stored as on a little-endian machine, so `htons` swaps two bytes.
pub mod Receiver
pub mod Receive
pub mod Clips
pub mod Sums
pub mod Sends
pub mod Hang
pub mod Arrivals
pub mod Rows
pub mod Rebuild
pub mod Recovers
pub mod GivenUp
mod Tests
use Prim.Native.Nat.{bit_xor}
use swift_srt.Base.{
  ℕ, zero, suc, ◌+◌, ◌-◌, ◌*◌, ◌/◌, ◌%◌, ◌^◌, Bool, true, false, not, ◌&&◌, ◌||◌, Option, none,
  some, List, [], ◌∷◌, if◌then◌else◌, ltb, leb, ◌==◌, set, length, ℤ, pos, negsuc, minus_one,
  pos_part, ltb_ℤ, leb_ℤ,
}
use swift_srt.SeqNo.{seqoff, incseq_by, max_seq_no}

-- A data packet: the key flags are `getMsgCryptoFlags`, of two bits.
pub record SourcePacket : Type 0 where
  pub seq_no : ℤ
  pub key_flags : ℕ
  pub timestamp : ℕ
  pub payload : List ℕ
  pub in_order : Bool

-- The fields `length_clip`, `flag_clip`, `timestamp_clip` and `payload_clip` of a group.
pub record Clip : Type 0 where
  pub length : ℕ
  pub flag : ℕ
  pub timestamp : ℕ
  pub payload : ℕ → ℕ

pub record Group : Type 0 where
  pub base : ℤ
  pub step : ℕ
  pub drop : ℕ
  pub collected : ℕ
  pub clip : Clip

-- A control packet: its payload has the index of the group, -1 for a row, at the bytes 0, the flags at 1,
-- the length at 2 and the clip of the payloads from 4 on; `payload_size` is the size of the clip.
pub record ControlPacket : Type 0 where
  pub seq_no : ℤ
  pub index : ℤ
  pub clip : Clip
  pub payload_size : ℕ
  pub in_order : Bool

-- `m_number_cols`, `m_number_rows`, `m_cols_only`, `payloadSize()`, and whether `m_fallback_level` is
-- SRT_ARQ_ONREQ.
pub record Config : Type 0 where
  pub number_cols : ℕ
  pub number_rows : ℕ
  pub cols_only : Bool
  pub payload_size : ℕ
  pub on_request : Bool

abbrev pub no_clip : Clip
no_clip = record { length = 0; flag = 0; timestamp = 0; payload = λ i. 0 }

-- `ConfigureGroup`, of a group whose vector is new.
unfoldable pub configure_group : ℤ → ℕ → ℕ → Group
configure_group seqno gstep drop = record {
  base = seqno;
  step = gstep;
  drop = drop;
  collected = 0;
  clip = no_clip;
}

-- `ResetGroup`
unfoldable pub reset_group : Group → Group
reset_group g = record g { base = incseq_by g.base (pos g.drop); collected = 0; clip = no_clip }

-- A byte of a buffer, 0 behind its end.
abbrev pub byte : List ℕ → ℕ → ℕ
byte [] i = 0
byte (x ∷ xs) zero = x
byte (x ∷ xs) (suc i) = byte xs i

-- `htons` and `ntohs`
abbrev pub swap16 : ℕ → ℕ
swap16 v = v % 256 * 256 + v / 256 % 256

-- `ClipData`: `payload` and its size.
unfoldable pub clip_data : Config → Clip → ℕ → ℕ → ℕ → (ℕ → ℕ) → ℕ → Clip
clip_data cfg g length_net kflg timestamp_hw payload size = record {
  length = bit_xor g.length length_net;
  flag = bit_xor g.flag kflg;
  timestamp = bit_xor g.timestamp timestamp_hw;
  payload = λ i.
      if ltb i size
      then bit_xor (g.payload i) (payload i)
      else if ltb i cfg.payload_size
      then bit_xor (g.payload i) 0
      else g.payload i;
}

-- `ClipPacket`
unfoldable pub clip_packet : Config → Group → SourcePacket → Group
unfolding clip_data
clip_packet cfg g p = record g {
  clip =
      clip_data cfg g.clip (swap16 (length p.payload)) p.key_flags p.timestamp (byte p.payload)
        (length p.payload);
}

-- `ClipControlPacket`
unfoldable pub clip_control_packet : Config → Group → ControlPacket → Group
unfolding clip_data
clip_control_packet cfg g c = record g {
  clip =
      clip_data cfg g.clip c.clip.length c.clip.flag c.clip.timestamp c.clip.payload c.payload_size;
}

-- An `int` as a `size_t`.
abbrev pub size_of_int : ℤ → ℕ
size_of_int (pos n) = n
size_of_int (negsuc n) = 2 ^ 64 - (n + 1)

-- `CheckGroupClose`: the group, and whether it was closed.
unfoldable pub check_group_close : Group → ℕ → ℕ → Group × Bool
unfolding reset_group
check_group_close g place size = if ltb place size then (g, false) else (reset_group g, true)

-- A packet clipped into the group that is open for it, with the count.
unfoldable pub feed_group : Config → Group → ℕ → ℕ → SourcePacket → Group
unfolding check_group_close clip_packet
feed_group cfg g place size p =
    let h = clip_packet cfg (check_group_close g place size).0 p in
    record h { collected = h.collected + 1 }

pub record Sender : Type 0 where
  pub row : Group
  pub cols : ℕ → Group

-- The part of `feedSource` for the column `gx`.
unfoldable pub feed_column : Config → SourcePacket → ℕ → Sender → Sender
unfolding feed_group
feed_column cfg p gx s =
    let off = seqoff (s.cols gx).base p.seq_no in
    if ltb_ℤ off (pos 0)
    then s
    else if not (pos_part off % cfg.number_cols == 0)
    then s
    else record s {
      cols =
          set s.cols gx
            (feed_group cfg (s.cols gx) (pos_part off / cfg.number_cols) cfg.number_rows p);
    }

-- `feedSource`
unfoldable pub feed_source : Config → SourcePacket → Sender → Sender
unfolding feed_group feed_column
feed_source cfg p s =
    let off = seqoff s.row.base p.seq_no in
    let t = record s { row = feed_group cfg s.row (size_of_int off) cfg.number_cols p } in
    if ltb cfg.number_rows 2 then t else feed_column cfg p (size_of_int off % cfg.number_cols) t

-- `PackControl`; the flag of the order is not set.
unfoldable pub pack_control : Config → Group → ℤ → ℤ → ControlPacket
pack_control cfg g index seq = record {
  seq_no = seq;
  index = index;
  clip = g.clip;
  payload_size = cfg.payload_size;
  in_order = false;
}

-- The part of `packControlPacket` for the row.
unfoldable pub pack_row : Config → ℤ → Sender → Option ControlPacket × Sender
unfolding pack_control reset_group
pack_row cfg seq s =
    if leb cfg.number_cols s.row.collected
    then (
      if cfg.cols_only then none else some (pack_control cfg s.row minus_one seq),
      record s { row = reset_group s.row },
    )
    else (none, s)

-- `packControlPacket`, after the packet with the number `seq`: the control packet if there is one.
unfoldable pub pack_control_packet : Config → ℤ → Sender → Option ControlPacket × Sender
unfolding pack_row pack_control reset_group
pack_control_packet cfg seq s =
    let off = seqoff s.row.base seq in
    let gx = (size_of_int off + cfg.number_cols) % 2 ^ 64 % cfg.number_cols in
    if ltb 1 cfg.number_rows && leb_ℤ (pos 0) off && leb cfg.number_rows (s.cols gx).collected
    then (
      some (pack_control cfg (s.cols gx) (pos gx) seq),
      record s { cols = set s.cols gx (reset_group (s.cols gx)) },
    )
    else pack_row cfg seq s
