-- ===== src/RcvBuffer/Stream.antt =====
-- A buffer that is filled, acknowledged and read in any order: what the reader gets.
use swift_srt.Base.{
  ℕ, ◌<◌, ◌≤◌, ◌≡◌, refl, sym, ap, ◌∙◌, false, List, [], ◌++◌, length, drop, take, take-drop,
  append_assoc, arith, ℤ,
}
use swift_srt.PlayTime.{PlayTime}
use swift_srt.RcvBuffer.{
  RcvUnit, RcvBuffer, rcv_buffer, add_data, ack_data, read_buffer, get_avail_buf_size,
}
use swift_srt.RcvBuffer.Contents.{Holds, bytes_of, Valid, content}
use swift_srt.RcvBuffer.Read.{read_buffer-Reads}
use swift_srt.RcvBuffer.Fill.{
  add_data-Valid, add_data-same, bytes_of-append, content-append, ack_data-Valid, ack_data-same,
}

-- From a new buffer of `size` places: `out` is all that was read, `acked` all the units acknowledged.
-- Units are acknowledged where they have come in and the buffer has room for them.
pub data Reach (size : ℕ) (play_time : PlayTime) (good : ℤ)
    : RcvBuffer → List ℕ → List RcvUnit → Type 0 where
  new : Reach size play_time good (rcv_buffer size play_time good) [] []
  add :
      {b : RcvBuffer} {out : List ℕ} {acked : List RcvUnit} (u : RcvUnit) (offset : ℕ)
      → Reach size play_time good b out acked
      → Reach size play_time good (add_data u offset b).1 out acked
  ack :
      {b : RcvBuffer} {out : List ℕ} {acked : List RcvUnit} (vs : List RcvUnit)
      → Reach size play_time good b out acked
      → Holds b.unit b.size b.last_ack_pos vs
      → length vs ≤ get_avail_buf_size b
      → Reach size play_time good (ack_data (length vs) b) out (acked ++ vs)
  read :
      {b : RcvBuffer} {out : List ℕ} {acked : List RcvUnit} (now len : ℕ)
      → Reach size play_time good b out acked
      → Reach size play_time good (read_buffer now len b).2 (out ++ (read_buffer now len b).1) acked

-- The buffer is valid, and what was read and what can be read are the bytes of the units acknowledged.
pub record Streamed (b : RcvBuffer) (out : List ℕ) (acked : List RcvUnit) : Type 0 where
  pub units : List RcvUnit
  pub valid : Valid b units
  pub off : b.play_time.tsbpd_mode ≡ false
  pub whole : out ++ content b units ≡ bytes_of acked

add-Streamed :
    (u : RcvUnit) (offset : ℕ) (b : RcvBuffer) (out : List ℕ) (acked : List RcvUnit)
    → Streamed b out acked
    → Streamed (add_data u offset b).1 out acked
add-Streamed u offset b out acked s =
    let (e, f) = add_data-same u offset b in
    record {
      units = s.units;
      valid = add_data-Valid u offset b s.units s.valid;
      off = ap (λ c. c.tsbpd_mode) e ∙ s.off;
      whole = ap (λ n. out ++ drop n (bytes_of s.units)) f ∙ s.whole;
    }

ack-Streamed :
    (vs : List RcvUnit) (b : RcvBuffer) (out : List ℕ) (acked : List RcvUnit)
    → Streamed b out acked
    → Holds b.unit b.size b.last_ack_pos vs
    → length vs ≤ get_avail_buf_size b
    → Streamed (ack_data (length vs) b) out (acked ++ vs)
ack-Streamed vs b out acked s w h =
    let (e, f) = ack_data-same (length vs) b in
    record {
      units = s.units ++ vs;
      valid = ack_data-Valid b s.units vs s.valid w h;
      off = ap (λ c. c.tsbpd_mode) e ∙ s.off;
      whole =
          ap (λ n. out ++ drop n (bytes_of (s.units ++ vs))) f
          ∙ ap (λ xs. out ++ xs) (content-append b.notch s.units vs s.valid.notch_fits)
          ∙ sym (append_assoc out (content b s.units) (bytes_of vs))
          ∙ ap (λ xs. xs ++ bytes_of vs) s.whole
          ∙ sym (bytes_of-append acked vs);
    }

read-Streamed :
    (now len : ℕ) (b : RcvBuffer) (out : List ℕ) (acked : List RcvUnit)
    → Streamed b out acked
    → Streamed (read_buffer now len b).2 (out ++ (read_buffer now len b).1) acked
read-Streamed now len b out acked s =
    let (left, r) = read_buffer-Reads now len b s.units s.valid s.off in
    record {
      units = left;
      valid = r.valid;
      off = ap (λ c. c.tsbpd_mode) r.same_play_time ∙ s.off;
      whole =
          append_assoc out (read_buffer now len b).1 (content (read_buffer now len b).2 left)
          ∙ ap (λ xs. out ++ (xs ++ content (read_buffer now len b).2 left)) r.front
          ∙ ap (λ xs. out ++ (take len (content b s.units) ++ xs)) r.rest
          ∙ ap (λ xs. out ++ xs) (take-drop len (content b s.units))
          ∙ s.whole;
    }

new-Valid : (size : ℕ) (c : PlayTime) (good : ℤ) → 0 < size → Valid (rcv_buffer size c good) []
unfolding Holds
new-Valid size c good h = record {
  started = h;
  room = h;
  last_eq = ground (arith, h);
  holds = _;
  notch_fits = refl;
}

-- In a buffer of at least one place without delivery times that units are added to, acknowledged and
-- read from in any order, where only units that came in are acknowledged and the buffer has room for
-- them: it is valid, and all that was read, followed by what can be read, is the bytes of the units
-- acknowledged, in their order.
pub Reach-Streamed :
    (size : ℕ) (c : PlayTime) (good : ℤ) {b : RcvBuffer} {out : List ℕ} {acked : List RcvUnit}
    → 0 < size
    → c.tsbpd_mode ≡ false
    → Reach size c good b out acked
    → Streamed b out acked
Reach-Streamed size c good h off new = record {
  units = [];
  valid = new-Valid size c good h;
  off = off;
  whole = refl;
}
Reach-Streamed size c good h off (add {b} {out} {acked} u offset r) =
    add-Streamed u offset b out acked (Reach-Streamed size c good h off r)
Reach-Streamed size c good h off (ack {b} {out} {acked} vs r w l) =
    ack-Streamed vs b out acked (Reach-Streamed size c good h off r) w l
Reach-Streamed size c good h off (read {b} {out} {acked} now len r) =
    read-Streamed now len b out acked (Reach-Streamed size c good h off r)
