-- ===== src/Fec/Receive.antt =====
-- `receive` of `FECFilterBuiltin` for a filter with rows only, with `HangHorizontal` and the losses that are
-- given up.
use swift_srt.Base.{
  ℕ, zero, suc, ◌+◌, ◌-◌, ◌*◌, ◌/◌, Bool, true, false, not, ◌&&◌, ◌||◌, Option, none, some, List,
  [], ◌∷◌, ◌++◌, if◌then◌else◌, ltb, ◌==◌, length, drop, ℤ, pos, ◌-ℤ◌, minus_one, pos_part, ltb_ℤ,
  leb_ℤ, eqb_ℤ,
}
use swift_srt.SeqNo.{seqoff, incseq_by}
use swift_srt.Fec.{SourcePacket, ControlPacket, Config, clip_packet, clip_control_packet}
use swift_srt.Fec.Receiver.{
  RcvGroup, Receiver, Arrival, source, control, new_row, row_base, mark_cell_received,
  rcv_get_loss_seq_horiz, rcv_rebuild, rcv_get_row_group_index, set_row, get_row,
}

-- The first part of `HangHorizontal`: the arrival clipped into its row.
unfoldable pub clip_arrival : Config → Arrival → RcvGroup → RcvGroup
unfolding clip_packet clip_control_packet
clip_arrival cfg (source p) g =
    let h = clip_packet cfg g.group p in
    record g { group = record h { collected = h.collected + 1 } }
clip_arrival cfg (control c) g =
    if g.fec then g else record g { group = clip_control_packet cfg g.group c; fec = true }

-- The second part: with the control packet and all packets but one, the last one is made again.
unfoldable pub try_rebuild : Config → RcvGroup → Receiver → Receiver
unfolding rcv_get_loss_seq_horiz rcv_rebuild
try_rebuild cfg g r =
    let (seq, s) = rcv_get_loss_seq_horiz cfg g.group r in
    if g.fec && (g.group.collected + 1) == cfg.number_cols then rcv_rebuild cfg g.group seq s else r

-- The losses of a row that are given up. `gone` is `last` before the cell `i`, and `first` where the
-- losses being passed start.
unfoldable pub irrecover_loop : ℕ → ℕ → Receiver → Bool → ℤ → List (ℤ × ℤ)
irrecover_loop zero i r last first =
    if last then [] else (first, incseq_by r.cell_base (pos i -ℤ pos 1)) ∷ []
irrecover_loop (suc n) i r gone first =
    let here = r.cells i in
    let at = incseq_by r.cell_base (pos i) in
    let rest = irrecover_loop n (i + 1) r here (if gone && not here then at else first) in
    if here && not gone then (first, at) ∷ rest else rest

-- `CollectIrrecoverRow`: the row, and what is added to `irrecover`.
unfoldable pub collect_irrecover_row : Config → Receiver → RcvGroup → RcvGroup × List (ℤ × ℤ)
unfolding irrecover_loop
collect_irrecover_row cfg r g =
    let off = seqoff r.cell_base g.group.base in
    let found = irrecover_loop cfg.number_cols (pos_part off) r true (pos 0) in
    if g.dismissed
    then (g, [])
    else if ltb_ℤ off (pos 0)
    then (g, [])
    else if ltb r.cell_count (pos_part off + cfg.number_cols)
    then (g, [])
    else (record g { dismissed = true }, found)

-- The losses of the first `n` rows.
unfoldable pub collect_rows : ℕ → Config → Receiver → List RcvGroup → List (ℤ × ℤ)
unfolding collect_irrecover_row
collect_rows zero cfg r gs = []
collect_rows (suc n) cfg r [] = []
collect_rows (suc n) cfg r (g ∷ gs) = (collect_irrecover_row cfg r g).1 ++ collect_rows n cfg r gs

-- The oldest `n` rows are removed with their cells.
unfoldable pub remove_rows : Config → ℕ → Receiver → Receiver
remove_rows cfg n r =
    let rows = drop n r.rowq in
    let wanted = cfg.number_cols * n in
    let erased = if ltb r.cell_count wanted then r.cell_count else wanted in
    record r {
      rowq = rows;
      cells = λ i. r.cells (i + erased);
      cell_count = r.cell_count - erased;
      cell_base = row_base rows;
    }

-- The number of rows that the last part of `HangHorizontal` removes: `1 + past`, or 0.
unfoldable pub rows_to_remove : Config → ℤ → List RcvGroup → ℕ
rows_to_remove cfg seq rows =
    let n = length rows in
    if ltb n 3
    then 0
    else if ltb 3 n
    then n - 3
    else if leb_ℤ (seqoff (get_row cfg 1 rows).group.base seq) (pos (cfg.number_cols / 3))
    then 0
    else 1

abbrev pub arrival_seq : Arrival → ℤ
arrival_seq (source p) = p.seq_no
arrival_seq (control c) = c.seq_no

-- `HangHorizontal` behind the index of the row: the receiver, and the losses that are given up.
unfoldable pub hang_row : Config → Arrival → ℕ → Receiver → Receiver × List (ℤ × ℤ)
unfolding clip_arrival try_rebuild collect_rows remove_rows rows_to_remove
hang_row cfg a rowx r =
    let g = clip_arrival cfg a (get_row cfg rowx r.rowq) in
    let s = try_rebuild cfg g (record r { rowq = set_row rowx g r.rowq }) in
    let n = rows_to_remove cfg (arrival_seq a) s.rowq in
    if n == 0 then (s, []) else (remove_rows cfg n s, collect_rows n cfg s s.rowq)

abbrev pub hang_found : Config → Arrival → Option ℕ × Receiver → Receiver × List (ℤ × ℤ)
hang_found cfg a (none, r) = (r, [])
hang_found cfg a (some x, r) = hang_row cfg a x r

-- `HangHorizontal`
unfoldable pub hang_horizontal : Config → Arrival → Receiver → Receiver × List (ℤ × ℤ)
unfolding hang_row rcv_get_row_group_index
hang_horizontal cfg a r = hang_found cfg a (rcv_get_row_group_index cfg (arrival_seq a) r)

-- `CheckLargeDrop`
unfoldable pub check_large_drop : Config → ℤ → Receiver → Receiver
check_large_drop cfg seqno r =
    let off = seqoff (row_base r.rowq) seqno in
    let newbase =
      incseq_by (row_base r.rowq) (pos (pos_part off / cfg.number_cols * cfg.number_cols)) in
    if ltb_ℤ (pos (5 * cfg.number_cols)) off
    then record r { rowq = new_row cfg newbase ∷ []; cells = λ i. false; cell_count = 0 }
    else r

-- What `receive` gives: whether the packet is wanted, and the losses reported.
pub record Received : Type 0 where
  pub receiver : Receiver
  pub want_packet : Bool
  pub loss_seqs : List (ℤ × ℤ)

abbrev pub order_flag : Arrival → Bool
order_flag (source p) = p.in_order
order_flag (control c) = c.in_order

-- The packet hung into its row.
unfoldable pub receive_row : Config → Arrival → Bool → Receiver → Received
unfolding hang_horizontal
receive_row cfg a want r =
    let (s, lost) = hang_horizontal cfg a (record r { order_required = order_flag a }) in
    record { receiver = s; want_packet = want; loss_seqs = if cfg.on_request then lost else [] }

-- A data packet, which is not hung again when it is there.
unfoldable pub receive_source : Config → SourcePacket → Receiver → Received
unfolding receive_row mark_cell_received
receive_source cfg p r =
    let off = seqoff r.cell_base p.seq_no in
    let past = ltb_ℤ off (pos 0) in
    let exists = ltb_ℤ off (pos r.cell_count) && not past && r.cells (pos_part off) in
    if past || exists
    then record { receiver = r; want_packet = true; loss_seqs = [] }
    else receive_row cfg (source p) true (mark_cell_received p.seq_no r)

-- A control packet of a column is left aside, where there are rows only.
unfoldable pub receive_control : Config → ControlPacket → Receiver → Received
unfolding receive_row
receive_control cfg c r =
    if eqb_ℤ c.index minus_one then receive_row cfg (control c) false r else record {
      receiver = record r { order_required = c.in_order };
      want_packet = false;
      loss_seqs = [];
    }

-- `receive`
unfoldable pub receive : Config → Arrival → Receiver → Received
unfolding receive_source receive_control check_large_drop
receive cfg (source p) r = receive_source cfg p (check_large_drop cfg p.seq_no r)
receive cfg (control c) r = receive_control cfg c (check_large_drop cfg c.seq_no r)
