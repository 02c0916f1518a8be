-- ===== src/Fec/Sends.antt =====
-- The sender of `FECFilterBuiltin` for a filter with rows only: what it holds after some packets of a row.
use swift_srt.Base.{
  ℕ, zero, suc, ◌+◌, ◌-◌, ◌≤◌, ◌<◌, ◌≡◌, refl, ap, ◌∙◌, Bool, true, false, some, length, arith, pos,
  minus_one, lt→ltb, leb_of_le,
}
use swift_srt.SeqNo.{seqoff, wrap, seq_no_th}
use swift_srt.SeqNo.Unwrapped.{seqoff-wrap, step_by-wrap}
use swift_srt.Fec.{
  SourcePacket, Clip, Group, ControlPacket, Config, Sender, configure_group, reset_group,
  clip_packet, check_group_close, feed_group, feed_source, pack_control_packet, pack_row,
  pack_control,
}
use swift_srt.Fec.Clips.{merge, clip_of, clip_data-merge, byte_behind}
use swift_srt.Fec.Sums.{sum_below}

-- The configuration of a filter with rows of `n` packets.
abbrev pub rows_config : ℕ → ℕ → Bool → Config
rows_config n size req = record {
  number_cols = n;
  number_rows = 1;
  cols_only = false;
  payload_size = size;
  on_request = req;
}

abbrev pub all : ℕ → Bool
all i = true

-- The clips of the packets of a stream.
abbrev pub clips : (ℕ → SourcePacket) → ℕ → Clip
clips p i = clip_of (p i)

-- The first packets of a stream fed to the sender in their order.
abbrev pub feed : Config → (ℕ → SourcePacket) → ℕ → Sender → Sender
feed cfg p zero s = s
feed cfg p (suc i) s = feed_source cfg (p i) (feed cfg p i s)

-- The group of a row that starts with the packet `b`, with `count` packets and a clip.
abbrev pub row_of : ℕ → ℕ → ℕ → Clip → Group
row_of n b count c = record { base = wrap b; step = 1; drop = n; collected = count; clip = c }

pub seqoff_ahead : (b i : ℕ) → i < seq_no_th → seqoff (wrap b) (wrap (b + i)) ≡ pos i
seqoff_ahead b i h = seqoff-wrap b (b + i) (omega arith) (omega arith) ∙ ground arith

pub clip_packet_lem :
    (cfg : Config) (g : Group) (p : SourcePacket)
    → clip_packet cfg g p ≡ record g { clip = merge g.clip (clip_of p) }
unfolding clip_packet
clip_packet_lem cfg g p =
    ap (λ (c : Clip). record g { clip = c })
      (clip_data-merge cfg g.clip (clip_of p) (length p.payload) (byte_behind p.payload))

feed_group_lem :
    (cfg : Config) (g : Group) (place size : ℕ) (p : SourcePacket)
    → place < size
    → feed_group cfg g place size p
      ≡ record g { clip = merge g.clip (clip_of p); collected = g.collected + 1 }
unfolding feed_group check_group_close
feed_group_lem cfg g place size p h =
    rw (lt→ltb place size h)
      (ap (λ (h : Group). record h { collected = h.collected + 1 }) (clip_packet_lem cfg g p))

suc_eq : (i : ℕ) → i + 1 ≡ suc i
suc_eq i = omega arith

-- The control packet of a row of `n` packets.
abbrev pub control_packet : ℕ → ℕ → ℕ → (ℕ → SourcePacket) → ControlPacket
control_packet n size b p = record {
  seq_no = wrap (b + (n - 1));
  index = minus_one;
  clip = sum_below (clips p) all n;
  payload_size = size;
  in_order = false;
}

module _ (n size : ℕ) (req : Bool) (b : ℕ) (p : ℕ → SourcePacket) (cols : ℕ → Group)
    (small : n ≤ seq_no_th) (seqs : (i : ℕ) → i < n → (p i).seq_no ≡ wrap (b + i)) where
  pub feed_row :
      (i : ℕ)
      → i ≤ n
      → feed
          (rows_config n size req)
          p
          i
          (record { row = configure_group (wrap b) 1 n; cols = cols })
        ≡ record { row = row_of n b i (sum_below (clips p) all i); cols = cols }
  unfolding feed_source configure_group
  feed_row zero h = refl
  feed_row (suc i) h =
      rw
        (
          feed_row i (omega arith),
          seqs i (omega arith),
          seqoff_ahead b i (omega arith),
          feed_group_lem (rows_config n size req) (row_of n b i (sum_below (clips p) all i)) i n
              (p i) (omega arith),
        )
        (ap (λ t. record { row = row_of n b t (sum_below (clips p) all (suc i)); cols = cols })
          (suc_eq i))

  -- After the packets `b` to `b + n - 1` are fed to a sender at that row of 1 to 0x3FFFFFFF packets, the control
  -- packet has the exclusive or of their lengths, key flags, timestamps and bytes, the index -1 and the
  -- number of the last, and the sender is at the row from `b + n` on.
  pub pack_control_packet-row :
      0 < n
      → let cfg = rows_config n size req in
        pack_control_packet cfg
          (wrap (b + (n - 1)))
          (feed cfg p n (record { row = configure_group (wrap b) 1 n; cols = cols }))
        ≡ (
          some (control_packet n size b p),
          record { row = configure_group (wrap (b + n)) 1 n; cols = cols },
        )
  unfolding pack_control_packet pack_row pack_control reset_group configure_group
  pack_control_packet-row h =
      rw (feed_row n (omega arith), leb_of_le n n (omega arith), (step_by-wrap b n (omega arith)).0)
        refl
