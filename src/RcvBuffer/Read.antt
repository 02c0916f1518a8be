-- ===== src/RcvBuffer/Read.antt =====
-- `readBuffer` without delivery times reads bytes off the front of the acknowledged units.
use swift_srt.Base.{
  ℕ, none, ◌-◌, ◌<◌, ◌≤◌, ◌≡◌, ◌≢◌, refl, sym, ap, subst, ◌∙◌, true, false, List, [], if◌then◌else◌,
  length, drop, take, length-take, arith, ℤ, pos, neg, ltb_ℤ, ◌-ℤ◌, ◌+ℤ◌,
}
use swift_srt.RcvBuffer.{RcvUnit, RcvBuffer, Reading, read_loop, read_buffer, count_acked}
use swift_srt.RcvBuffer.Contents.{place_at, Valid, content, data_size-eq}
use swift_srt.RcvBuffer.Turns.{Advances, ended}
use swift_srt.RcvBuffer.Advance.{read_loop-Advances}

-- What `readBuffer` of `len` bytes makes of a buffer with the acknowledged units `us`: `left` are the
-- units that stay.
pub record Reads (len : ℕ) (b b' : RcvBuffer) (us left : List RcvUnit) (result : ℤ) (out : List ℕ)
    : Type 0 where
  pub returned : result ≡ pos (length out)
  pub front : out ≡ take len (content b us)
  pub valid : Valid b' left
  pub rest : content b' left ≡ drop len (content b us)
  pub counted : b'.bytes_count ≡ b.bytes_count -ℤ pos (length out)
  pub fewer : length left ≤ length us
  pub freed : b'.good_count ≡ b.good_count -ℤ pos (length us - length left)
  pub emptied :
      (i : ℕ) → i < length us - length left → b'.unit (place_at b.size b.start_pos i) ≡ none
  pub one_packet : b'.acked_pkts_count ≡ b.acked_pkts_count -ℤ pos 1
  pub same_last : b'.last_ack_pos ≡ b.last_ack_pos
  pub same_size : b'.size ≡ b.size
  pub same_play_time : b'.play_time ≡ b.play_time
  pub others :
      (q : ℕ) → ((i : ℕ) → i < length us → place_at b.size b.start_pos i ≢ q) → b'.unit q ≡ b.unit q

less : (z : ℤ) (k : ℕ) → (if ltb_ℤ (neg (pos k)) (pos 0) then z +ℤ neg (pos k) else z) ≡ z -ℤ pos k
less (pos n) k = ground arith
less (ℤ.negsuc n) k = ground arith

less_one : (z : ℤ) → z +ℤ neg (pos 1) ≡ z -ℤ pos 1
less_one (pos n) = ground arith
less_one (ℤ.negsuc n) = ground arith

-- The variables at the start.
abbrev begin : ℕ → RcvBuffer → Reading
begin len b = record { buffer = b; place = b.start_pos; rest = len; copied = [] }

-- The buffer that `readBuffer` leaves.
abbrev finish : ℕ → Reading → RcvBuffer
finish len s = record (count_acked (neg (pos 1)) (neg (pos (len - s.rest))) s.buffer) {
  start_pos = s.place;
}

abbrev answer : ℕ → Reading → ℤ × List ℕ × RcvBuffer
answer len s = (pos (len - s.rest), s.copied, finish len s)

read_buffer-eq :
    (now len : ℕ) (b : RcvBuffer) (us : List RcvUnit) (t : Reading)
    → Valid b us
    → read_loop (length us) now (begin len b) ≡ ended true t
    → read_buffer now len b ≡ answer len t
unfolding read_buffer
read_buffer-eq now len b us t v e = rw (data_size-eq b us v, e) refl

finish-Reads :
    (len : ℕ) (b : RcvBuffer) (us left : List RcvUnit) (t : Reading)
    → Advances (begin len b) t us left
    → Reads len b (finish len t) us left (pos (len - t.rest)) t.copied
finish-Reads len b us left t a =
    let out : len - t.rest ≡ length t.copied =
      omega (arith, a.rest_eq, ap length a.copied_eq, length-take len (content b us)) in
    record {
      returned = ap pos out;
      front = a.copied_eq;
      valid = record {
        started = a.loop.inside;
        room = a.loop.room;
        last_eq = a.loop.last_eq;
        holds = a.loop.holds;
        notch_fits = a.loop.notch_fits;
      };
      rest = a.left_eq;
      counted =
          less t.buffer.bytes_count (len - t.rest)
          ∙ ap (λ c. c.bytes_count -ℤ pos (len - t.rest)) a.same_rest
          ∙ ap (λ k. b.bytes_count -ℤ pos k) out;
      fewer = a.fewer;
      freed = a.freed;
      emptied = a.emptied;
      one_packet =
          less_one t.buffer.acked_pkts_count ∙ ap (λ c. c.acked_pkts_count -ℤ pos 1) a.same_rest;
      same_last = ap (λ c. c.last_ack_pos) a.same_rest;
      same_size = ap (λ c. c.size) a.same_rest;
      same_play_time = ap (λ c. c.play_time) a.same_rest;
      others = a.same_units;
    }

-- `readBuffer` without delivery times, of a valid buffer whose acknowledged units are all there: it
-- returns the first `len` bytes that can be read, or all, and their number; the buffer is valid with
-- the other bytes, in the units not used up, and its count of bytes is less by those read. The units
-- used up are given back: their places are empty, and the count of good units is less by their number.
-- The acknowledged position and the places behind the acknowledged ones are as before, and the count
-- of acknowledged packets is less by one, however many were read.
pub read_buffer-Reads :
    (now len : ℕ) (b : RcvBuffer) (us : List RcvUnit)
    → Valid b us
    → b.play_time.tsbpd_mode ≡ false
    → (left : List RcvUnit) × Reads len b
        (read_buffer now len b).2
        us
        left
        (read_buffer now len b).0
        (read_buffer now len b).1
read_buffer-Reads now len b us v off =
    let (t, left, e, a) = read_loop-Advances now us (begin len b) (record {
      off = off;
      inside = v.started;
      room = v.room;
      last_eq = v.last_eq;
      holds = v.holds;
      notch_fits = v.notch_fits;
    }) in
    (
      left,
      subst (λ r. Reads len b r.2 us left r.0 r.1) (sym (read_buffer-eq now len b us t v e))
          (finish-Reads len b us left t a),
    )
