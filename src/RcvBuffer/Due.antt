-- ===== src/RcvBuffer/Due.antt =====
-- What `readMsg` with delivery times gives out: the first unit that is good, due and readable.
use swift_srt.Base.{
  ℕ, suc, ap, ℤ, pos, ◌-ℤ◌, ◌+◌, ◌%◌, ◌≡◌, inl, inr, refl, ◌∙◌, Bool, true, false, Option, some,
  List, [], ◌∷◌, if◌then◌else◌, ltb, length, take, arith, Bool-cases,
}
use swift_srt.Base.Round.{mod_once}
use swift_srt.PlayTime.{PlayTime, get_pkt_tsbpd_time}
use swift_srt.RcvBuffer.{RcvUnit, RcvBuffer, next_place, get_rcv_data_size}
use swift_srt.RcvBuffer.Ready.{ready_loop, get_rcv_ready_msg, give_out, read_msg}
use swift_srt.RcvBuffer.Ring.{
  Places, Ring, Skipped, Verdict, clock_after, cleared-Ring, ended, waits, ready,
}
use swift_srt.RcvBuffer.Emptied.{
  units, bytes_in, one_place, minus_one_more, minus_one_more_sub, minus_more, minus_some,
}
use swift_srt.RcvBuffer.Shortened.{Shortened, Shortened-trans, one_unit_less}
use swift_srt.RcvBuffer.Search.{found}

-- The acknowledged packets that are counted after `u` is given out; one without bytes stays counted.
abbrev still_counted : RcvUnit → List (Option RcvUnit) → ℕ
still_counted u ys = if ltb 0 (length u.data_bytes) then units ys else suc (units ys)

-- What `readMsg` with delivery times makes of a buffer with the acknowledged places `xs`.
pub data Delivered (clock : ℕ → ℕ) (len : ℕ) (b : RcvBuffer) (xs : List (Option RcvUnit))
    (r : List ℕ × RcvBuffer) : Type 0 where
  nothing :
      (d : PlayTime) (ys : List (Option RcvUnit))
      → Skipped clock b.play_time xs d ys
      → Verdict clock d ys false
      → r.0 ≡ []
      → Ring r.1 ys
      → Shortened b r.1 xs ys (units ys)
      → r.1.play_time ≡ clock_after d ys
      → Delivered clock len b xs r
  message :
      (d : PlayTime) (u : RcvUnit) (ys : List (Option RcvUnit))
      → Skipped clock b.play_time xs d (some u ∷ ys)
      → Verdict clock d (some u ∷ ys) true
      → r.0 ≡ take len u.data_bytes
      → Ring r.1 ys
      → Shortened b r.1 xs ys (still_counted u ys)
      → r.1.play_time ≡ (get_pkt_tsbpd_time u.timestamp d).1
      → Delivered clock len b xs r

data_size-eq_places :
    (b : RcvBuffer) (xs : List (Option RcvUnit)) → Ring b xs → get_rcv_data_size b ≡ length xs
data_size-eq_places b xs v = ground arith

unfoldable handed : ℕ → Bool × ℕ × RcvBuffer → List ℕ × RcvBuffer
handed len r = if r.0 then give_out len (r.2.unit r.2.start_pos) r.2 else ([], r.2)

give_out-Ring :
    (len : ℕ) (b : RcvBuffer) (u : RcvUnit) (ys : List (Option RcvUnit))
    → Ring b (some u ∷ ys)
    → ((give_out len (b.unit b.start_pos) b).0 ≡ take len u.data_bytes)
      × Ring (give_out len (b.unit b.start_pos) b).1 ys
unfolding give_out Places
give_out-Ring len b u ys v =
    let m : (b.start_pos + 1) % b.size ≡ next_place b.size b.start_pos =
      mod_once (b.start_pos + 1) b.size (omega (arith, v.started, v.room))
      ∙ ground (arith, v.started) in
    rw v.places.0 (elim (Bool-cases (ltb 0 (length u.data_bytes))) [
      | inl e ↦ rw e (refl, cleared-Ring b _ (some u) ys v refl refl refl m)
      | inr e ↦ rw e (refl, cleared-Ring b _ (some u) ys v refl refl refl m)
    ])

no_bytes : (z : ℤ) (n k : ℕ) → ltb 0 n ≡ false → z -ℤ pos k ≡ z -ℤ pos (n + k)
no_bytes z n k e = ap (λ i. z -ℤ pos i) (ground (arith, e))

give_out-Shortened :
    (len : ℕ) (b : RcvBuffer) (u : RcvUnit) (ys : List (Option RcvUnit))
    → Ring b (some u ∷ ys)
    → Shortened b (give_out len (b.unit b.start_pos) b).1 (some u ∷ ys) ys (still_counted u ys)
      × ((give_out len (b.unit b.start_pos) b).1.play_time ≡ b.play_time)
unfolding give_out Places
give_out-Shortened len b u ys v =
    let m : (b.start_pos + 1) % b.size ≡ next_place b.size b.start_pos =
      mod_once (b.start_pos + 1) b.size (omega (arith, v.started, v.room))
      ∙ ground (arith, v.started) in
    rw v.places.0 (elim (Bool-cases (ltb 0 (length u.data_bytes))) [
      | inl e ↦ rw e (
        one_unit_less b _ u ys (units ys) (one_place b _ v.started refl m refl) (record {
          good_units = minus_one_more_sub b.good_count (units ys);
          bytes = minus_some b.bytes_count (length u.data_bytes) (bytes_in ys);
          acked_bytes = minus_more b.acked_bytes_count (length u.data_bytes) (bytes_in ys);
          packets = minus_one_more b.acked_pkts_count (units ys);
        }),
        refl,
      )
      | inr e ↦ rw e (
        one_unit_less b _ u ys (suc (units ys)) (one_place b _ v.started refl m refl) (record {
          good_units = minus_one_more_sub b.good_count (units ys);
          bytes = no_bytes b.bytes_count (length u.data_bytes) (bytes_in ys) e;
          acked_bytes = no_bytes b.acked_bytes_count (length u.data_bytes) (bytes_in ys) e;
          packets = refl;
        }),
        refl,
      )
    ])

verdict-Delivered :
    (clock : ℕ → ℕ) (len : ℕ) (b : RcvBuffer) (xs : List (Option RcvUnit)) (time : ℕ)
    (c : RcvBuffer) (d : PlayTime) (ys : List (Option RcvUnit)) (result : Bool)
    → Ring b xs
    → Skipped clock b.play_time xs d ys
    → Ring c ys
    → Shortened b c xs ys (units ys)
    → c.play_time ≡ clock_after d ys
    → Verdict clock d ys result
    → Delivered clock len b xs (handed len (result, time, c))
unfolding handed
verdict-Delivered clock len b xs time c d ys result w s v x t ended =
    nothing d [] s ended refl v x t
verdict-Delivered clock len b xs time c d zs result w s v x t (waits u ys g h) =
    nothing d (some u ∷ ys) s (waits u ys g h) refl v x t
verdict-Delivered clock len b xs time c d zs result w s v x t (ready u ys g e h) =
    let (o, r) = give_out-Ring len c u ys v in
    let (y, k) = give_out-Shortened len c u ys v in
    message d u ys s (ready u ys g e h) o r
      (Shortened-trans b c (give_out len (c.unit c.start_pos) c).1 xs (some u ∷ ys) ys
        (still_counted u ys) w.started w.room x y)
      (k ∙ t)

-- `readMsg` with delivery times, of a buffer whose acknowledged places, of which some may be empty, are
-- `xs`: it passes over places that are empty, have a unit that is not good, or a good one that is due
-- but encrypted. Behind them there is nothing left or a good unit that is not due, and no byte is
-- read; or there is a good, readable unit that is due, and it is given out, cut to `len` bytes. The
-- acknowledged places left are exactly those behind, from the new start on: the places passed over and
-- that of the unit given out are empty, and no other place is changed. The units of those places, and
-- their bytes, are taken off the counts, but for a unit without bytes, which stays in the count of
-- acknowledged packets; the clock has seen the times of the good units that were looked at, and the
-- other fields are as before.
pub read_msg-Delivered :
    (clock : ℕ → ℕ) (len : ℕ) (b : RcvBuffer) (xs : List (Option RcvUnit))
    → Ring b xs
    → Delivered clock len b xs (read_msg clock len b)
unfolding read_msg get_rcv_ready_msg handed
read_msg-Delivered clock len b xs v =
    let f = found xs clock 0 b v in
    rw (data_size-eq_places b xs v) (
      verdict-Delivered clock len b xs (ready_loop (length xs) clock 0 b).1
        (ready_loop (length xs) clock 0 b).2 f.last f.rest (ready_loop (length xs) clock 0 b).0 v
        f.skipped f.ring f.shorter f.timed f.verdict)
