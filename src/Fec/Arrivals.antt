-- ===== src/Fec/Arrivals.antt =====
-- The receiver of `FECFilterBuiltin` for a filter with rows only, while the packets of its first row come in.
use swift_srt.Base.{
  if_false, if_true, ℕ, ◌+◌, ◌-◌, ◌*◌, ◌≤◌, ◌<◌, ◌≡◌, refl, sym, ap, ap₂, ◌∙◌, ◌&&◌, ◌||◌, not,
  Bool, true, false, some, List, [], ◌∷◌, arith, ℤ, pos, minus_one, pos_part, ltb_ℤ, ◌==◌,
  if◌then◌else◌, set, leb_of_lt,
}
use native.Mathlib.Nat.{div-eq_of_lt}
use swift_srt.SeqNo.{seqoff, wrap}
use swift_srt.Fec.{Config, SourcePacket, Clip, Group, ControlPacket, clip_control_packet}
use swift_srt.Fec.Clips.{merge, merge_right, clip_of, clip_data-merge, Within}
use swift_srt.Fec.Sums.{sum_below, count_below, sum_set, count_set}
use swift_srt.Fec.Sends.{rows_config, clips, row_of, clip_packet_lem, seqoff_ahead}
use swift_srt.Fec.Receiver.{
  RcvGroup, Receiver, Arrival, mark_cell_received, rcv_get_row_group_index,
}
use swift_srt.Fec.Receive.{
  Received, clip_arrival, try_rebuild, hang_row, hang_horizontal, hang_found, check_large_drop,
  receive_row, receive_source, receive_control, receive, arrival_seq, order_flag,
}
use swift_srt.Fec.Hang.{ltb_pos, known_test, hang_single}

module _ (n size b : ℕ) (req : Bool) (p : ℕ → SourcePacket) (c : ControlPacket)
    (small : n ≤ 0x1FFFFFF) (seqs : (i : ℕ) → i < n → (p i).seq_no ≡ wrap (b + i))
    (ctl_seq : c.seq_no ≡ wrap (b + (n - 1))) (ctl_index : c.index ≡ minus_one)
    (ctl_within : Within c.payload_size c.clip) where
  abbrev cfg : Config
  cfg = rows_config n size req

  abbrev total : (ℕ → Bool) → Bool → Clip
  total f ctl = let s = sum_below (clips p) f n in if ctl then merge s c.clip else s

  -- The row after the packets that `f` chooses, and after the control packet if `ctl` is set.
  abbrev pub row_after : (ℕ → Bool) → Bool → RcvGroup
  row_after f ctl = record {
    group = row_of n b (count_below f n) (total f ctl);
    fec = ctl;
    dismissed = false;
  }

  -- A receiver with one row, before anything is made again.
  abbrev pub one_row : Bool → (ℕ → Bool) → RcvGroup → Receiver
  one_row o cells g = record {
    rowq = g ∷ [];
    cell_base = wrap b;
    cells = cells;
    cell_count = n;
    order_required = o;
    rebuilt = [];
  }

  no_drop :
      (o : Bool) (f : ℕ → Bool) (ctl : Bool) (i : ℕ)
      → i < n
      → check_large_drop cfg (wrap (b + i)) (one_row o f (row_after f ctl))
        ≡ one_row o f (row_after f ctl)
  unfolding check_large_drop
  no_drop o f ctl i h =
      rw (seqoff_ahead b i (omega arith)) (if_false _ _ (ltb_pos (5 * n) i (omega arith)))

  first_row :
      (o : Bool) (cells f : ℕ → Bool) (ctl : Bool) (i : ℕ)
      → i < n
      → rcv_get_row_group_index cfg (wrap (b + i)) (one_row o cells (row_after f ctl))
        ≡ (some 0, one_row o cells (row_after f ctl))
  unfolding rcv_get_row_group_index
  first_row o cells f ctl i lt =
      rw (seqoff_ahead b i (omega arith), div-eq_of_lt lt)
        (if_false _ _ (ltb_pos i 0 (omega arith)))

  total-set :
      (f : ℕ → Bool) (ctl : Bool) (i : ℕ)
      → i < n
      → f i ≡ false
      → merge (total f ctl) (clip_of (p i)) ≡ total (set f i true) ctl
  total-set f true i lt h =
      merge_right (sum_below (clips p) f n) c.clip (clip_of (p i))
      ∙ ap (λ s. merge s c.clip) (sym (sum_set (clips p) f n i lt h))
  total-set f false i lt h = sym (sum_set (clips p) f n i lt h)

  hang_source :
      (f : ℕ → Bool) (ctl : Bool) (i : ℕ)
      → i < n
      → f i ≡ false
      → clip_arrival cfg (Arrival.source (p i)) (row_after f ctl) ≡ row_after (set f i true) ctl
  unfolding clip_arrival
  hang_source f ctl i lt h =
      ap
        (λ (g : Group). record {
          group = record g { collected = g.collected + 1 };
          fec = ctl;
          dismissed = false;
        })
        (clip_packet_lem cfg (row_after f ctl).group (p i))
      ∙ ap₂ (λ k s. record { group = row_of n b k s; fec = ctl; dismissed = false })
          (sym (count_set f n i lt h)) (total-set f ctl i lt h)

  hang_control :
      (f : ℕ → Bool) (ctl : Bool)
      → clip_arrival cfg (Arrival.control c) (row_after f ctl) ≡ row_after f true
  unfolding clip_arrival clip_control_packet
  hang_control f true = refl
  hang_control f false =
      ap (λ s. record { group = row_of n b (count_below f n) s; fec = true; dismissed = false })
        (clip_data-merge cfg (sum_below (clips p) f n) c.clip c.payload_size ctl_within)

  hang_first :
      (a : Arrival) (o : Bool) (cells f : ℕ → Bool) (ctl : Bool) (i : ℕ)
      → i < n
      → arrival_seq a ≡ wrap (b + i)
      → hang_horizontal cfg a (one_row o cells (row_after f ctl))
        ≡ hang_row cfg a 0 (one_row o cells (row_after f ctl))
  unfolding hang_horizontal
  hang_first a o cells f ctl i lt e =
      ap (λ s. hang_found cfg a (rcv_get_row_group_index cfg s (one_row o cells (row_after f ctl))))
        e
      ∙ ap (hang_found cfg a) (first_row o cells f ctl i lt)

  receive_first :
      (a : Arrival) (want o : Bool) (cells f : ℕ → Bool) (ctl : Bool) (i : ℕ)
      → i < n
      → arrival_seq a ≡ wrap (b + i)
      → let h = clip_arrival cfg a (row_after f ctl) in
        (receive_row cfg a want (one_row o cells (row_after f ctl))).receiver
        ≡ try_rebuild cfg h (one_row (order_flag a) cells h)
  unfolding receive_row
  receive_first a want o cells f ctl i lt e =
      ap (λ (x : Receiver × List (ℤ × ℤ)). x.0)
        (hang_first a (order_flag a) cells f ctl i lt e
          ∙ hang_single cfg a (row_after f ctl) (one_row (order_flag a) cells (row_after f ctl))
              refl)

  mark_lem :
      (o : Bool) (f : ℕ → Bool) (g : RcvGroup) (i : ℕ)
      → i < n
      → mark_cell_received (wrap (b + i)) (one_row o f g) ≡ one_row o (set f i true) g
  unfolding mark_cell_received
  mark_lem o f g i lt = rw (seqoff_ahead b i (omega arith), leb_of_lt n i lt) refl

  -- A receiver after the packets that `f` chooses, in which the last one may be made again.
  abbrev pub hung : Bool → (ℕ → Bool) → Bool → Receiver
  hung o f ctl = try_rebuild cfg (row_after f ctl) (one_row o f (row_after f ctl))

  -- The test of `receive_source` for a packet of the row.
  known_eq :
      (f : ℕ → Bool) (i : ℕ)
      → i < n
      → let off = seqoff (wrap b) (p i).seq_no in
        (ltb_ℤ off (pos 0) || (ltb_ℤ off (pos n) && not (ltb_ℤ off (pos 0)) && f (pos_part off)))
        ≡ f i
  known_eq f i lt =
      ap
        (λ off.
          ltb_ℤ off (pos 0) || (ltb_ℤ off (pos n) && not (ltb_ℤ off (pos 0)) && f (pos_part off)))
        (ap (seqoff (wrap b)) (seqs i lt) ∙ seqoff_ahead b i (omega arith))
      ∙ known_test i n (f i) lt

  receive_source-fresh :
      (o : Bool) (f : ℕ → Bool) (ctl : Bool) (i : ℕ)
      → i < n
      → f i ≡ false
      → (receive_source cfg (p i) (one_row o f (row_after f ctl))).receiver
        ≡ hung (p i).in_order (set f i true) ctl
  unfolding receive_source
  receive_source-fresh o f ctl i lt h =
      ap (λ (x : Received). x.receiver) (if_false _ _ (known_eq f i lt ∙ h))
      ∙ ap (λ r. (receive_row cfg (Arrival.source (p i)) true r).receiver)
          (ap (λ s. mark_cell_received s (one_row o f (row_after f ctl))) (seqs i lt)
            ∙ mark_lem o f (row_after f ctl) i lt)
      ∙ receive_first (Arrival.source (p i)) true o (set f i true) f ctl i lt (seqs i lt)
      ∙ ap (λ g. try_rebuild cfg g (one_row (p i).in_order (set f i true) g))
          (hang_source f ctl i lt h)

  receive_source-again :
      (o : Bool) (f : ℕ → Bool) (ctl : Bool) (i : ℕ)
      → i < n
      → f i ≡ true
      → (receive_source cfg (p i) (one_row o f (row_after f ctl))).receiver
        ≡ one_row o f (row_after f ctl)
  unfolding receive_source
  receive_source-again o f ctl i lt h =
      ap (λ (x : Received). x.receiver) (if_true _ _ (known_eq f i lt ∙ h))

  receive_control_lem :
      (o : Bool) (f : ℕ → Bool) (ctl : Bool)
      → 0 < n
      → (receive_control cfg c (one_row o f (row_after f ctl))).receiver ≡ hung c.in_order f true
  unfolding receive_control
  receive_control_lem o f ctl h = rw (ctl_index) (
      receive_first (Arrival.control c) false o f f ctl (n - 1) (omega arith) ctl_seq
      ∙ ap (λ g. try_rebuild cfg g (one_row c.in_order f g)) (hang_control f ctl))

  -- A data packet that has not come in before.
  pub receive-fresh :
      (o : Bool) (f : ℕ → Bool) (ctl : Bool) (i : ℕ)
      → i < n
      → f i ≡ false
      → (receive cfg (Arrival.source (p i)) (one_row o f (row_after f ctl))).receiver
        ≡ hung (p i).in_order (set f i true) ctl
  unfolding receive
  receive-fresh o f ctl i lt h =
      ap
        (λ s.
          (receive_source cfg (p i)
            (check_large_drop cfg s (one_row o f (row_after f ctl)))).receiver)
        (seqs i lt)
      ∙ ap (λ r. (receive_source cfg (p i) r).receiver) (no_drop o f ctl i lt)
      ∙ receive_source-fresh o f ctl i lt h

  -- A data packet that has come in before.
  pub receive-again :
      (o : Bool) (f : ℕ → Bool) (ctl : Bool) (i : ℕ)
      → i < n
      → f i ≡ true
      → (receive cfg (Arrival.source (p i)) (one_row o f (row_after f ctl))).receiver
        ≡ one_row o f (row_after f ctl)
  unfolding receive
  receive-again o f ctl i lt h =
      ap
        (λ s.
          (receive_source cfg (p i)
            (check_large_drop cfg s (one_row o f (row_after f ctl)))).receiver)
        (seqs i lt)
      ∙ ap (λ r. (receive_source cfg (p i) r).receiver) (no_drop o f ctl i lt)
      ∙ receive_source-again o f ctl i lt h

  -- The control packet.
  pub receive-check :
      (o : Bool) (f : ℕ → Bool) (ctl : Bool)
      → 0 < n
      → (receive cfg (Arrival.control c) (one_row o f (row_after f ctl))).receiver
        ≡ hung c.in_order f true
  unfolding receive
  receive-check o f ctl h =
      ap
        (λ s.
          (receive_control cfg c (check_large_drop cfg s (one_row o f (row_after f ctl)))).receiver)
        ctl_seq
      ∙ ap (λ r. (receive_control cfg c r).receiver) (no_drop o f ctl (n - 1) (omega arith))
      ∙ receive_control_lem o f ctl h

  -- With a packet missing beside the one or without the control packet nothing is made again.
  pub hung-incomplete :
      (o : Bool) (f : ℕ → Bool) (ctl : Bool)
      → (ctl && ((count_below f n + 1) == n)) ≡ false
      → hung o f ctl ≡ one_row o f (row_after f ctl)
  unfolding try_rebuild
  hung-incomplete o f ctl h = rw h refl
