-- ===== src/SndBuffer/Tests.antt =====
-- Runs of the send buffer.
use swift_srt.Base.{
  ℕ, zero, suc, ◌-◌, ◌≤◌, ◌≡◌, refl, arith, sym, ◌∙◌, true, false, [], ◌∷◌, some, minus_one,
}
use swift_srt.SndBuffer.{
  Block, SndBuffer, snd_buffer, add_buffer, ensure_room, increase, fill, write_packet, read_data,
  ack_data, late_from, drop_late_data,
}
use swift_srt.SndBuffer.Ack.{walk, Valid, ack_data-Valid}
use swift_srt.SndBuffer.Late.{Late, drop_late_data-ack_data}

abbrev raw_block : ℕ → Block
raw_block i = record {
  content = [];
  length = 0;
  msg_no = record {
    first = false;
    last = false;
    in_order = false;
    even_key = false;
    odd_key = false;
    seq = 0;
  };
  origin_time = 0;
  source_time = 0;
  ttl = minus_one;
  next = 0;
}

-- A message of five bytes in a buffer of four blocks for two bytes each.
abbrev three_packets : SndBuffer
three_packets =
    (add_buffer (snd_buffer raw_block 4 2) (1 ∷ 2 ∷ 3 ∷ 4 ∷ 5 ∷ []) 5 minus_one true 0 10).1

walk_three : (i : ℕ) → i ≤ 3 → walk three_packets.block i three_packets.first_block ≡ i
unfolding snd_buffer add_buffer ensure_room increase fill write_packet
walk_three zero h = refl
walk_three (suc zero) h = refl
walk_three (suc (suc zero)) h = refl
walk_three (suc (suc (suc zero))) h = refl
walk_three (suc (suc (suc (suc i)))) h = absurd (omega (arith, h))

three_packets-Valid : Valid three_packets 3 0
unfolding snd_buffer add_buffer ensure_room increase fill write_packet
three_packets-Valid = record {
  sent = omega arith;
  last_eq = refl;
  curr_eq = refl;
  distinct = λ i j lt le q.
      omega (arith, lt, sym (walk_three i (omega (arith, lt, le))) ∙ q ∙ walk_three j le);
  count_eq = refl;
  bytes_eq = refl;
}

ack_data-Valid_example :
    Valid (ack_data three_packets 2) (3 - 2) (0 - 2)
    × ((ack_data three_packets 2).first_block
        ≡ walk three_packets.block 2 three_packets.first_block)
    × ((ack_data three_packets 2).block ≡ three_packets.block)
ack_data-Valid_example = ack_data-Valid three_packets 3 0 2 three_packets-Valid (omega arith)

drop_late_data-ack_data_example :
    (r : ℕ) × Late three_packets.block 11 3 three_packets.first_block r
    × ((drop_late_data three_packets 11).0 ≡ r)
    × ((drop_late_data three_packets 11).2 ≡ ack_data three_packets r)
    × Valid (ack_data three_packets r) (3 - r) (0 - r)
drop_late_data-ack_data_example = drop_late_data-ack_data three_packets 3 0 11 three_packets-Valid

-- The first packet read from the buffer, and all of them dropped as late.
reads :
    (read_data three_packets (some 1)).0
    ≡ some (record {
      content = 1 ∷ 2 ∷ [];
      length = 2;
      msg_no = record {
        first = true;
        last = false;
        in_order = true;
        even_key = true;
        odd_key = false;
        seq = 1;
      };
      src_time = 10;
    })
unfolding snd_buffer add_buffer ensure_room increase fill write_packet read_data
reads = refl

drops : (drop_late_data three_packets 11).0 ≡ 3
unfolding snd_buffer add_buffer ensure_room increase fill write_packet drop_late_data late_from
drops = refl
