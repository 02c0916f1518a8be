-- ===== src/Fec/Recovers.antt =====
-- A packet that is lost from a row is made again by `FECFilterBuiltin` from the others and the control packet.
use mathlib.Core.Path.{fun_ext}
use mathlib.Core.Option.{some-injective}
use swift_srt.Base.{
  ℕ, ◌+◌, ◌-◌, ◌≤◌, ◌<◌, ◌≡◌, refl, sym, ap, ap₂, subst, ◌∙◌, ◌&&◌, Bool, true, false, Option, some,
  none, List, [], ◌∷◌, length, arith, ℤ, leb, set, leb_of_lt, ==_of_eq, Bool-cases, inl, inr,
  get-set_self,
}
use swift_srt.SeqNo.{wrap}
use swift_srt.SeqNo.Unwrapped.{step_by-wrap}
use swift_srt.Fec.{
  Config, SourcePacket, Clip, Group, ControlPacket, configure_group, pack_control_packet,
}
use swift_srt.Fec.Clips.{Within, byte_behind}
use swift_srt.Fec.Sums.{
  sum_below, count_below, count_set, count_cong, sum-Within, count_none, sum_none,
}
use swift_srt.Fec.Sends.{
  rows_config, clips, row_of, all, feed, control_packet, pack_control_packet-row,
}
use swift_srt.Fec.Receiver.{RcvGroup, Receiver, receiver, rcv_get_loss_seq_horiz, rcv_rebuild}
use swift_srt.Fec.Receive.{receive, try_rebuild, order_flag}
use swift_srt.Fec.Hang.{find_first}
use swift_srt.Fec.Arrivals.{
  row_after, one_row, hung, receive-fresh, receive-again, receive-check, hung-incomplete,
}
use swift_srt.Fec.Rows.{
  arrival, after, came, checked, arrived, set_known, one_mul, came_later, incomplete_eq,
  incomplete_before, all_but, all_but_self, all_but_before, count_all_but, sum_all_but, all_but_lt,
  test_off,
}
use swift_srt.Fec.Rebuild.{restored, rebuild_restored, seqoff_self}

module _ (n size b : ℕ) (req : Bool) (p : ℕ → SourcePacket) (small : n ≤ 0x1FFFFFF)
    (some_cols : 0 < n) (seqs : (i : ℕ) → i < n → (p i).seq_no ≡ wrap (b + i))
    (fits : (i : ℕ) → i < n → length (p i).payload ≤ size) where
  sum_fits : Within size (sum_below (clips p) all n)
  sum_fits =
      sum-Within (clips p) all n size
        (λ i lt j le. byte_behind (p i).payload j (omega (arith, fits i lt)))

  abbrev check : ControlPacket
  check = control_packet n size b p

  abbrev cfg : Config
  cfg = rows_config n size req

  abbrev one : Bool → (ℕ → Bool) → RcvGroup → Receiver
  one = one_row n size b req p check small seqs refl refl sum_fits

  abbrev row : (ℕ → Bool) → Bool → RcvGroup
  row = row_after n size b req p check small seqs refl refl sum_fits

  abbrev ready : Bool → (ℕ → Bool) → Bool → Receiver
  ready = hung n size b req p check small seqs refl refl sum_fits

  -- The receiver after arrivals that do not yet make a packet again.
  abbrev waiting : Bool → List (Option ℕ) → Receiver
  waiting o xs = one o (came xs) (row (came xs) (checked xs))

  waiting_zero : receiver cfg (wrap b) ≡ waiting false []
  unfolding configure_group
  waiting_zero = rw (count_none n, sum_none (clips p) n, one_mul n) refl

  -- One more arrival, behind which still nothing is made again.
  next_waiting :
      (x : Option ℕ) (xs : List (Option ℕ)) (o : Bool)
      → ((i : ℕ) → came (x ∷ xs) i ≡ true → i < n)
      → (checked (x ∷ xs) && leb n (count_below (came (x ∷ xs)) n + 1)) ≡ false
      → (q : Bool) × ((receive cfg (arrival p check x) (waiting o xs)).receiver
          ≡ waiting q (x ∷ xs))
  next_waiting none xs o h e = (
    false,
    receive-check n size b req p check small seqs refl refl sum_fits o (came xs) (checked xs)
          some_cols
        ∙ hung-incomplete n size b req p check small seqs refl refl sum_fits false (came xs) true
            (incomplete_eq true (count_below (came xs) n + 1) n e),
  )
  next_waiting (some i) xs o h e = elim (Bool-cases (came xs i)) [
    | inl known ↦ (
      o,
      receive-again n size b req p check small seqs refl refl sum_fits o (came xs) (checked xs) i
            (h i (get-set_self (came xs) i true)) known
          ∙ ap (λ f. one o f (row f (checked xs))) (set_known (came xs) i known),
    )
    | inr fresh ↦ (
      (p i).in_order,
      receive-fresh n size b req p check small seqs refl refl sum_fits o (came xs) (checked xs) i
            (h i (get-set_self (came xs) i true)) fresh
          ∙ hung-incomplete n size b req p check small seqs refl refl sum_fits (p i).in_order
              (set (came xs) i true) (checked xs)
              (incomplete_eq (checked xs) (count_below (set (came xs) i true) n + 1) n e),
    )
  ]

  after-waiting :
      (xs : List (Option ℕ))
      → ((i : ℕ) → came xs i ≡ true → i < n)
      → (checked xs && leb n (count_below (came xs) n + 1)) ≡ false
      → (o : Bool) × (after cfg (wrap b) p check xs ≡ waiting o xs)
  after-waiting [] h e = (false, waiting_zero)
  after-waiting (x ∷ xs) h e =
      let (o, r) =
        after-waiting xs (λ i t. h i (came_later x xs i t)) (incomplete_before n x xs h e) in
      let (q, s) = next_waiting x xs o h e in
      (q, ap (λ t. (receive cfg (arrival p check x) t).receiver) r ∙ s)

  loss_at :
      (k cnt : ℕ) (o : Bool) (s : Clip) (g : RcvGroup)
      → k < n
      → rcv_get_loss_seq_horiz cfg (row_of n b cnt s) (one o (all_but n k) g)
        ≡ (wrap (b + k), one o (all_but n k) g)
  unfolding rcv_get_loss_seq_horiz
  loss_at k cnt o s g lt =
      rw
        (
          seqoff_self b,
          find_first (all_but n k) k (all_but_self n k) (one o (all_but n k) g) refl lt n 0
              (omega arith) (omega arith) (λ j l. all_but_before n k j lt l),
        )
        (ap (λ t. (t, one o (all_but n k) g)) ((step_by-wrap b k (omega arith)).0))

  -- The row with everything but the packet `k`.
  complete :
      (k : ℕ) (o : Bool)
      → k < n
      → size < 65536
      → (p k).key_flags < 4
      → (ready o (all_but n k) true).rebuilt ≡ restored o (p k) ∷ []
  unfolding try_rebuild
  complete k o lt small_size flags =
      let g = row (all_but n k) true in
      let r = one o (all_but n k) g in
      rw (==_of_eq (count_below (all_but n k) n + 1) n (count_all_but n k lt)) (
        ap (λ (t : ℤ × Receiver). (rcv_rebuild cfg g.group t.0 t.1).rebuilt)
          (loss_at k (count_below (all_but n k) n) o g.group.clip g lt)
        ∙ rebuild_restored cfg g.group (b + k) (p k) r (sum_all_but (clips p) n k lt) (seqs k lt)
            (fits k lt) (omega (arith, fits k lt)) flags refl)

  -- Nothing is made again before the last arrival.
  not_before :
      (k : ℕ) (seen : List (Option ℕ)) (x : Option ℕ)
      → k < n
      → ((i : ℕ) → came (x ∷ seen) i ≡ all_but n k i)
      → arrived seen x ≡ false
      → (checked seen && leb n (count_below (came seen) n + 1)) ≡ false
  not_before k seen none lt h e = rw e refl
  not_before k seen (some j) lt h e =
      let c : count_below (set (came seen) j true) n ≡ count_below (all_but n k) n =
        count_cong (set (came seen) j true) (all_but n k) n (λ i l. h i) in
      let j_lt : j < n = all_but_lt n k j (sym (h j) ∙ get-set_self (came seen) j true) in
      test_off (checked seen) (leb n (count_below (came seen) n + 1)) (
        leb_of_lt n (count_below (came seen) n + 1)
          (omega (arith, c, count_all_but n k lt, count_set (came seen) n j j_lt e)))

  in_row :
      (k : ℕ) (seen : List (Option ℕ)) (x : Option ℕ)
      → ((i : ℕ) → came (x ∷ seen) i ≡ all_but n k i)
      → (i : ℕ) → came (x ∷ seen) i ≡ true
      → i < n
  in_row k seen x h i e = all_but_lt n k i (sym (h i) ∙ e)

  last_arrival :
      (k : ℕ) (seen : List (Option ℕ)) (x : Option ℕ) (o : Bool)
      → k < n
      → size < 65536
      → (p k).key_flags < 4
      → ((i : ℕ) → came (x ∷ seen) i ≡ all_but n k i)
      → checked (x ∷ seen) ≡ true
      → arrived seen x ≡ false
      → ((receive cfg (arrival p check x) (waiting o seen)).receiver).rebuilt
        ≡ restored (order_flag (arrival p check x)) (p k) ∷ []
  last_arrival k seen none o lt w f h e q =
      ap (λ (r : Receiver). r.rebuilt)
        (receive-check n size b req p check small seqs refl refl sum_fits o (came seen)
            (checked seen) some_cols
          ∙ ap (λ g. ready false g true) (fun_ext h))
      ∙ complete k false lt w f
  last_arrival k seen (some i) o lt w f h e q =
      let lt_n : i < n = all_but_lt n k i (sym (h i) ∙ get-set_self (came seen) i true) in
      ap (λ (r : Receiver). r.rebuilt)
        (receive-fresh n size b req p check small seqs refl refl sum_fits o (came seen)
            (checked seen) i lt_n q
          ∙ ap₂ (λ g t. ready (p i).in_order g t) (fun_ext h) e)
      ∙ complete k (p i).in_order lt w f

  -- In a filter with rows of `n` packets only, 1 to 0x1FFFFFF, and a clip of fewer than 65536 bytes, the
  -- packets `b` to `b + n - 1`, which fit the clip, are fed to a sender that makes the control packet `c`, and
  -- all but the packet `k`, whose key flags have two bits, reach a new receiver with `c` in any order, also
  -- repeatedly. Before the last of them comes nothing is made again; then exactly the packet `k` is, with
  -- its number, key flags, timestamp, length and bytes, and the order flag of the last arrival.
  pub after-restored :
      (k : ℕ) (cols : ℕ → Group) (c : ControlPacket) (seen : List (Option ℕ)) (x : Option ℕ)
      → k < n
      → size < 65536
      → (p k).key_flags < 4
      → (pack_control_packet cfg
          (wrap (b + (n - 1)))
          (feed cfg p n (record { row = configure_group (wrap b) 1 n; cols = cols }))).0
        ≡ some c
      → ((i : ℕ) → came (x ∷ seen) i ≡ all_but n k i)
      → checked (x ∷ seen) ≡ true
      → arrived seen x ≡ false
      → ((after cfg (wrap b) p c seen).rebuilt ≡ [])
        × ((after cfg (wrap b) p c (x ∷ seen)).rebuilt
            ≡ restored (order_flag (arrival p c x)) (p k) ∷ [])
  after-restored k cols c seen x lt w f sent h e q =
      let c_eq : check ≡ c = some-injective check c (
        sym
          (ap (λ t. t.0) (pack_control_packet-row n size req b p cols (omega arith) seqs some_cols))
        ∙ sent) in
      let (o, r) =
        after-waiting seen (λ i t. in_row k seen x h i (came_later x seen i t))
          (not_before k seen x lt h q) in
      subst
        (λ c.
          ((after cfg (wrap b) p c seen).rebuilt ≡ [])
          × ((after cfg (wrap b) p c (x ∷ seen)).rebuilt
              ≡ restored (order_flag (arrival p c x)) (p k) ∷ []))
        c_eq
        (
          ap (λ (t : Receiver). t.rebuilt) r,
          ap (λ (t : Receiver). (receive cfg (arrival p check x) t).receiver.rebuilt) r
              ∙ last_arrival k seen x o lt w f h e q,
        )
