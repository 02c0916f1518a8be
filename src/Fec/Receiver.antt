-- ===== src/Fec/Receiver.antt =====
-- The receiver of `FECFilterBuiltin` for a filter with rows only (`m_number_rows` is 1): its cells and
-- rows, and a packet made again. `Fec.Receive` has `receive`.
use swift_srt.Base.{
  ℕ, zero, suc, ◌+◌, ◌-◌, ◌*◌, ◌/◌, ◌%◌, Bool, true, false, ◌||◌, Option, none, some, List, [], ◌∷◌,
  ◌++◌, if◌then◌else◌, ltb, leb, set, length, drop, ℤ, pos, minus_one, pos_part, ltb_ℤ, eqb_ℤ,
}
use swift_srt.SeqNo.{seqoff, incseq_by, max_seq_no}
use swift_srt.Fec.{SourcePacket, ControlPacket, Group, Config, configure_group, swap16}

pub record RcvGroup : Type 0 where
  pub group : Group
  pub fec : Bool
  pub dismissed : Bool

-- A packet made again. The fields of the message number word that are the same for all are left out:
-- number 1, PB_SOLO and the mark of a retransmission. `buffer` is the whole payload clip.
pub record Rebuilt : Type 0 where
  pub seq_no : ℤ
  pub in_order : Bool
  pub key_flags : ℕ
  pub timestamp : ℕ
  pub size : ℕ
  pub buffer : ℕ → ℕ

-- `rcv`, of which `cells` has `cell_count` values.
pub record Receiver : Type 0 where
  pub rowq : List RcvGroup
  pub cell_base : ℤ
  pub cells : ℕ → Bool
  pub cell_count : ℕ
  pub order_required : Bool
  pub rebuilt : List Rebuilt

-- What comes in: `getMsgSeq` is 0 for a control packet.
pub data Arrival : Type 0 where
  source : SourcePacket → Arrival
  control : ControlPacket → Arrival

abbrev pub new_row : Config → ℤ → RcvGroup
new_row cfg base = record {
  group = configure_group base 1 cfg.number_cols;
  fec = false;
  dismissed = false;
}

-- The receiver that the constructor of the filter makes.
abbrev pub receiver : Config → ℤ → Receiver
receiver cfg isn = record {
  rowq = new_row cfg isn ∷ [];
  cell_base = isn;
  cells = λ i. false;
  cell_count = cfg.number_rows * cfg.number_cols;
  order_required = false;
  rebuilt = [];
}

-- `rcv.rowq[0].base`; a group is constructed with the number m_iMaxSeqNo.
abbrev pub row_base : List RcvGroup → ℤ
row_base [] = pos max_seq_no
row_base (g ∷ gs) = g.group.base

-- `cells.resize(n, false)`, to a larger size.
abbrev pub resize_cells : ℕ → Receiver → Receiver
resize_cells n r = record r {
  cells = λ i. if ltb i r.cell_count then r.cells i else false;
  cell_count = n;
}

-- `CellAt`
unfoldable pub cell_at : ℕ → Receiver → Bool × Receiver
cell_at i r = if leb r.cell_count i then (false, resize_cells (i + 1) r) else (r.cells i, r)

-- `MarkCellReceived`
unfoldable pub mark_cell_received : ℤ → Receiver → Receiver
mark_cell_received seq r =
    let off = pos_part (seqoff r.cell_base seq) in
    let s = if leb r.cell_count off then resize_cells (off + 1) r else r in
    record s { cells = set s.cells off true }

-- The loop of `RcvGetLossSeqHoriz`, from the cell `i` on.
unfoldable pub find_loss : ℕ → ℕ → Receiver → Option ℕ × Receiver
unfolding cell_at
find_loss zero i r = (none, r)
find_loss (suc n) i r =
    let (there, s) = cell_at i r in
    let rest = find_loss n (i + 1) s in if there then rest else (some i, s)

-- A loss as a sequence number, -1 for none.
abbrev pub loss_seq : Receiver → Option ℕ → ℤ
loss_seq r none = minus_one
loss_seq r (some i) = incseq_by r.cell_base (pos i)

-- `RcvGetLossSeqHoriz`
unfoldable pub rcv_get_loss_seq_horiz : Config → Group → Receiver → ℤ × Receiver
unfolding find_loss
rcv_get_loss_seq_horiz cfg g r =
    let off = seqoff r.cell_base g.base in
    let (found, s) = find_loss cfg.number_cols (pos_part off) r in
    if ltb_ℤ off (pos 0) then (minus_one, r) else (loss_seq s found, s)

-- `RcvRebuild` with the type `SINGLE`. The flags are cut to two bits.
unfoldable pub rcv_rebuild : Config → Group → ℤ → Receiver → Receiver
rcv_rebuild cfg g seqno r =
    let length_hw = swap16 g.clip.length in
    if eqb_ℤ seqno minus_one || ltb cfg.payload_size length_hw then r else record r {
      rebuilt =
          r.rebuilt
          ++ record {
            seq_no = seqno;
            in_order = r.order_required;
            key_flags = g.clip.flag % 4;
            timestamp = g.clip.timestamp;
            size = length_hw;
            buffer = g.clip.payload;
          }
            ∷ [];
    }

-- The new rows of `ExtendRows`, from the one with the index `i` on.
abbrev pub more_rows : ℕ → Config → ℤ → ℕ → List RcvGroup
more_rows zero cfg base i = []
more_rows (suc n) cfg base i =
    new_row cfg (incseq_by base (pos (i * cfg.number_cols))) ∷ more_rows n cfg base (i + 1)

-- The part of `ExtendRows` for too many rows: the oldest rows and their cells are removed.
unfoldable pub shrink_rows : Config → Receiver → Receiver
shrink_rows cfg r =
    let rows = drop cfg.number_cols r.rowq in
    let off = pos_part (seqoff r.cell_base (row_base rows)) in
    let erased = if ltb off r.cell_count then off else r.cell_count in
    record r {
      rowq = rows;
      cells = λ i. r.cells (i + erased);
      cell_count = r.cell_count - erased;
      cell_base = row_base rows;
    }

-- `ExtendRows`
unfoldable pub extend_rows : Config → ℕ → Receiver → ℕ × Receiver
unfolding shrink_rows
extend_rows cfg rowx r =
    let large = ltb (cfg.number_cols * 3) rowx in
    let s = if large then shrink_rows cfg r else r in
    let x = if large then rowx - cfg.number_cols else rowx in
    let old = length s.rowq in
    (x, record s { rowq = s.rowq ++ more_rows (x + 1 - old) cfg (row_base s.rowq) old })

-- `RcvGetRowGroupIndex`; `none` is -1.
unfoldable pub rcv_get_row_group_index : Config → ℤ → Receiver → Option ℕ × Receiver
unfolding extend_rows
rcv_get_row_group_index cfg seq r =
    let off = seqoff (row_base r.rowq) seq in
    let rowx = pos_part off / cfg.number_cols in
    let (x, s) = extend_rows cfg rowx r in
    if ltb_ℤ off (pos 0)
    then (none, r)
    else if leb (length r.rowq) rowx
    then (some x, s)
    else (some rowx, r)

-- `rcv.rowq[i]` changed.
abbrev pub set_row : ℕ → RcvGroup → List RcvGroup → List RcvGroup
set_row i g [] = []
set_row zero g (h ∷ hs) = g ∷ hs
set_row (suc i) g (h ∷ hs) = h ∷ set_row i g hs

abbrev pub get_row : Config → ℕ → List RcvGroup → RcvGroup
get_row cfg i [] = new_row cfg (pos max_seq_no)
get_row cfg zero (h ∷ hs) = h
get_row cfg (suc i) (h ∷ hs) = get_row cfg i hs
