-- ===== src/RcvBuffer/Tests.antt =====
-- A buffer of four places that is filled out of order, acknowledged and read in pieces.
use swift_srt.Base.{
  ℕ, ◌≡◌, inl, refl, arith, true, false, Option, none, some, List, [], ◌∷◌, if◌then◌else◌, ◌==◌,
  pos,
}
use swift_srt.PlayTime.{PlayTime, drift_tracer, get_pkt_tsbpd_time}
use swift_srt.RcvBuffer.{
  Flag, free, good, dropped, RcvUnit, RcvBuffer, rcv_buffer, add_data, ack_data, read_buffer,
}
use swift_srt.RcvBuffer.Ready.{read_msg}
use swift_srt.RcvBuffer.Ring.{Places, Ring}
use swift_srt.RcvBuffer.Due.{Delivered, read_msg-Delivered}
use swift_srt.RcvBuffer.Contents.{Holds, Valid}
use swift_srt.RcvBuffer.Read.{Reads, read_buffer-Reads}
use swift_srt.RcvBuffer.Stream.{Reach, new, add, ack, read, Streamed, Reach-Streamed}

abbrev clock : PlayTime
clock = record {
  tsbpd_mode = false;
  wrap_check = false;
  time_base = 0;
  delay = 0;
  tracer = drift_tracer;
}

abbrev unit_of : Flag → List ℕ → RcvUnit
unit_of f xs = record { flag = f; timestamp = 0; encrypted = false; data_bytes = xs }

-- The second unit comes first; both are acknowledged.
abbrev filled : RcvBuffer
filled =
    (add_data (unit_of free (1 ∷ 2 ∷ [])) 0
      (add_data (unit_of free (3 ∷ 4 ∷ 5 ∷ [])) 1 (rcv_buffer 4 clock (pos 0))).1).1

abbrev both : List RcvUnit
both = unit_of good (1 ∷ 2 ∷ []) ∷ unit_of good (3 ∷ 4 ∷ 5 ∷ []) ∷ []

abbrev acked : RcvBuffer
acked = ack_data 2 filled

acked-Reach : Reach 4 clock (pos 0) acked [] both
unfolding add_data Holds
acked-Reach =
    ack both (add (unit_of free (1 ∷ 2 ∷ [])) 0 (add (unit_of free (3 ∷ 4 ∷ 5 ∷ [])) 1 new))
      (refl, (refl, _)) (omega arith)

abbrev after_three : RcvBuffer
after_three = (read_buffer 0 3 acked).2

three : (read_buffer 0 3 acked).1 ≡ 1 ∷ 2 ∷ 3 ∷ []
unfolding add_data ack_data read_buffer
three = refl

Reach-Streamed_example : Streamed after_three ((read_buffer 0 3 acked).1) both
Reach-Streamed_example = Reach-Streamed 4 clock (pos 0) (omega arith) refl (read 0 3 acked-Reach)

acked-Valid : Valid acked both
unfolding add_data ack_data Holds
acked-Valid = record {
  started = omega arith;
  room = omega arith;
  last_eq = refl;
  holds = (refl, (refl, _));
  notch_fits = inl refl;
}

acked-Off : acked.play_time.tsbpd_mode ≡ false
unfolding add_data ack_data
acked-Off = refl

read_buffer-Reads_example :
    (left : List RcvUnit) × Reads 3 acked
      (read_buffer 0 3 acked).2
      both
      left
      (read_buffer 0 3 acked).0
      (read_buffer 0 3 acked).1
read_buffer-Reads_example = read_buffer-Reads 0 3 acked both acked-Valid acked-Off

-- With delivery times: an empty place, a dropped unit, an encrypted one, and one to give out.
abbrev timed : RcvBuffer
timed = record (rcv_buffer 8 clock (pos 3)) {
  unit = λ i.
      if i == 2
      then some (unit_of dropped (7 ∷ []))
      else if i == 3
      then some (record { flag = good; timestamp = 0; encrypted = true; data_bytes = 8 ∷ [] })
      else if i == 4
      then some (unit_of good (1 ∷ 2 ∷ 3 ∷ []))
      else none;
  start_pos = 1;
  last_ack_pos = 5;
}

abbrev places : List (Option RcvUnit)
places = none ∷ timed.unit 2 ∷ timed.unit 3 ∷ timed.unit 4 ∷ []

timed-Ring : Ring timed places
unfolding Places
timed-Ring = record {
  started = omega arith;
  room = omega arith;
  last_eq = refl;
  places = (refl, (refl, (refl, (refl, _))));
}

given : (read_msg (λ k. 1000) 2 timed).0 ≡ 1 ∷ 2 ∷ []
unfolding read_msg get_pkt_tsbpd_time
given = refl

read_msg-Delivered_example : Delivered (λ k. 1000) 2 timed places (read_msg (λ k. 1000) 2 timed)
read_msg-Delivered_example = read_msg-Delivered (λ k. 1000) 2 timed places timed-Ring
