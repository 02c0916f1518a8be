-- ===== src/Fec/Tests.antt =====
-- Rows of three packets through the filter.
use swift_srt.Base.{
  false, not, ◌==◌, ℕ, zero, suc, ◌+◌, ◌-◌, ◌≤◌, ◌<◌, ◌≡◌, refl, ap, true, Option, some, none, List,
  [], ◌∷◌, length, arith, pos,
}
use swift_srt.SeqNo.{wrap}
use swift_srt.Fec.{SourcePacket, Group, configure_group, pack_control_packet}
use swift_srt.Fec.Sends.{rows_config, feed, control_packet, pack_control_packet-row}
use swift_srt.Fec.Rows.{after, came, all_but}
use swift_srt.Fec.Rebuild.{restored}
use swift_srt.Fec.Receiver.{Receiver, new_row}
use swift_srt.Fec.Receive.{collect_irrecover_row}
use swift_srt.Fec.GivenUp.{covers, wrap_ranges, reported, collect_irrecover_row-reported}
use swift_srt.Fec.Recovers.{after-restored}

-- The numbers wrap behind the second packet.
abbrev start : ℕ
start = 0x7FFFFFFE

abbrev bytes : ℕ → List ℕ
bytes zero = 1 ∷ 2 ∷ 3 ∷ []
bytes (suc zero) = 200 ∷ 100 ∷ []
bytes (suc (suc i)) = 7 ∷ []

abbrev packet : ℕ → SourcePacket
packet i = record {
  seq_no = wrap (start + i);
  key_flags = 1;
  timestamp = 1000 + i;
  payload = bytes i;
  in_order = true;
}

abbrev no_cols : ℕ → Group
no_cols i = configure_group (pos 0) 0 0

fitting : (i : ℕ) → i < 3 → length (bytes i) ≤ 4
fitting zero h = omega arith
fitting (suc zero) h = omega arith
fitting (suc (suc i)) h = omega arith

pack_control_packet-row_example :
    pack_control_packet (rows_config 3 4 true) (wrap (start + (3 - 1))) (
      feed
        (rows_config 3 4 true)
        packet
        3
        (record { row = configure_group (wrap start) 1 3; cols = no_cols }))
    ≡ (
      some (control_packet 3 4 start packet),
      record { row = configure_group (wrap (start + 3)) 1 3; cols = no_cols },
    )
pack_control_packet-row_example =
    pack_control_packet-row 3 4 true start packet no_cols (omega arith) (λ i h. refl) (omega arith)

-- The third packet twice, the control packet, and the first packet.
abbrev seen : List (Option ℕ)
seen = some 2 ∷ none ∷ some 2 ∷ []

seen-all_but : (i : ℕ) → came (some 0 ∷ seen) i ≡ all_but 3 1 i
seen-all_but i = ground arith

after-restored_example :
    ((after
        (rows_config 3 4 true)
        (wrap start)
        packet
        (control_packet 3 4 start packet)
        seen).rebuilt
      ≡ [])
    × ((after
          (rows_config 3 4 true)
          (wrap start)
          packet
          (control_packet 3 4 start packet)
          (some 0 ∷ seen)).rebuilt
        ≡ restored true (packet 1) ∷ [])
after-restored_example =
    after-restored 3 4 start true packet (omega arith) (omega arith) (λ i h. refl) fitting 1 no_cols
      (control_packet 3 4 start packet) seen (some 0) (omega arith) (omega arith) (omega arith)
      (ap (λ t. t.0)
        (pack_control_packet-row 3 4 true start packet no_cols (omega arith) (λ i h. refl)
          (omega arith)))
      seen-all_but refl refl

-- A row of three packets of which the second is lost; the third is reported as well.
abbrev one_lost : Receiver
one_lost = record {
  rowq = [];
  cell_base = wrap 10;
  cells = λ i. not (i == 1);
  cell_count = 3;
  order_required = false;
  rebuilt = [];
}

collect_irrecover_row-reported_example :
    ((collect_irrecover_row
        (rows_config 3 4 true)
        one_lost
        (new_row (rows_config 3 4 true) (wrap 10))).0
      ≡ record (new_row (rows_config 3 4 true) (wrap 10)) { dismissed = true })
    × (ys : List (ℕ × ℕ)) × ((collect_irrecover_row
          (rows_config 3 4 true)
          one_lost
          (new_row (rows_config 3 4 true) (wrap 10))).1
        ≡ wrap_ranges 10 ys)
    × ((j : ℕ) → covers ys j ≡ reported 0 3 (λ i. not (i == 1)) j)
unfolding configure_group
collect_irrecover_row-reported_example =
    collect_irrecover_row-reported (rows_config 3 4 true) one_lost
      (new_row (rows_config 3 4 true) (wrap 10)) 10 0 refl refl refl (omega arith) (omega arith)
