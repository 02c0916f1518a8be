-- ===== src/PlayTime.antt =====
-- When a packet is to be delivered: the parts of `CRcvBuffer` of Sources/CSRT/buffer.cpp that turn the
-- 32-bit timestamp of a packet into local time, and `DriftTracer` of Sources/CSRT/include/utilities.h.
-- A time is a number of microseconds, of 64 bits. The sums of `int64_t` are exact here.
pub mod Unwrapped
pub mod Drift
mod Tests
use swift_srt.Base.{
  ℕ, zero, suc, ◌+◌, ◌-◌, ◌*◌, ◌/◌, ◌%◌, ◌^◌, Bool, true, false, not, ◌&&◌, if◌then◌else◌, ltb, leb,
  ℤ, pos, negsuc, ◌+ℤ◌, ◌-ℤ◌, pos_part, neg_part, abs_ℤ, neg, ltb_ℤ,
}

pub record DriftTracer : Type 0 where
  pub drift : ℤ
  pub overdrift : ℤ
  pub drift_sum : ℤ
  pub drift_span : ℕ

-- The constructor.
abbrev pub drift_tracer : DriftTracer
drift_tracer = record { drift = pos 0; overdrift = pos 0; drift_sum = pos 0; drift_span = 0 }

-- Division, which rounds towards 0.
abbrev pub div_ℤ : ℤ → ℕ → ℤ
div_ℤ (pos n) d = pos (n / d)
div_ℤ (negsuc n) d = neg (pos (suc n / d))

-- The end of `update`, with the average: what is too much goes to `overdrift`.
unfoldable pub split_drift : ℕ → ℤ → DriftTracer
split_drift max_drift average =
    let over = if ltb_ℤ average (pos 0) then neg (pos max_drift) else pos max_drift in
    if ltb max_drift (abs_ℤ average)
    then record { drift = average -ℤ over; overdrift = over; drift_sum = pos 0; drift_span = 0 }
    else record { drift = average; overdrift = pos 0; drift_sum = pos 0; drift_span = 0 }

-- `update`, which clears `overdrift`, and whether it made an average.
unfoldable pub update : ℕ → ℕ → DriftTracer → ℤ → DriftTracer × Bool
unfolding split_drift
update max_span max_drift d value =
    let sum = d.drift_sum +ℤ value in
    let span = d.drift_span + 1 in
    if ltb span max_span
    then (record d { drift_sum = sum; drift_span = span }, false)
    else (split_drift max_drift (div_ℤ sum span), true)

-- The fields `m_bTsbPdMode`, `m_bTsbPdWrapCheck`, `m_ullTsbPdTimeBase`, `m_uTsbPdDelay` and
-- `m_DriftTracer` of the buffer.
pub record PlayTime : Type 0 where
  pub tsbpd_mode : Bool
  pub wrap_check : Bool
  pub time_base : ℕ
  pub delay : ℕ
  pub tracer : DriftTracer

-- 30 seconds
abbrev pub wrap_period : ℕ
wrap_period = 30 * 1000000

abbrev pub max_timestamp : ℕ
max_timestamp = 2 ^ 32 - 1

abbrev pub drift_max_value : ℕ
drift_max_value = 5000

abbrev pub drift_max_samples : ℕ
drift_max_samples = 1000

-- `x + z` of a `uint64_t` and an `int64_t`
abbrev pub add_int64 : ℕ → ℤ → ℕ
add_int64 x z = (x + pos_part z + (2 ^ 64 - neg_part z % 2 ^ 64)) % 2 ^ 64

-- `int64_t(x - y)`
abbrev pub diff_int64 : ℕ → ℕ → ℤ
diff_int64 x y =
    let d = (x + (2 ^ 64 - y % 2 ^ 64)) % 2 ^ 64 in
    if ltb d (2 ^ 63) then pos d else pos d -ℤ pos (2 ^ 64)

-- `setRcvTsbPdMode`
abbrev pub set_rcv_tsbpd_mode : ℕ → ℕ → PlayTime → PlayTime
set_rcv_tsbpd_mode timebase delay c = record c {
  tsbpd_mode = true;
  wrap_check = false;
  time_base = timebase;
  delay = delay;
}

-- `getTsbPdTimeBase`
unfoldable pub get_tsbpd_time_base : ℕ → PlayTime → ℕ × PlayTime
get_tsbpd_time_base timestamp c =
    if c.wrap_check
    then if ltb timestamp wrap_period
      then ((c.time_base + (max_timestamp + 1)) % 2 ^ 64, c)
      else if leb timestamp (wrap_period * 2)
      then (
        (c.time_base + (max_timestamp + 1)) % 2 ^ 64,
        record c { wrap_check = false; time_base = (c.time_base + (max_timestamp + 1)) % 2 ^ 64 },
      )
      else (c.time_base, c)
    else if ltb (max_timestamp - wrap_period) timestamp
    then (c.time_base, record c { wrap_check = true })
    else (c.time_base, c)

-- `getPktTsbPdTime`
unfoldable pub get_pkt_tsbpd_time : ℕ → PlayTime → ℕ × PlayTime
unfolding get_tsbpd_time_base
get_pkt_tsbpd_time timestamp c =
    let (base, c') = get_tsbpd_time_base timestamp c in
    (add_int64 (base + c'.delay + timestamp) c'.tracer.drift, c')

-- `addRcvTsbPdDriftSample`, where the clock gives `now`.
unfoldable pub add_rcv_tsbpd_drift_sample : ℕ → ℕ → PlayTime → PlayTime
unfolding get_tsbpd_time_base update
add_rcv_tsbpd_drift_sample now timestamp c =
    let (base, c') = get_tsbpd_time_base timestamp c in
    let drift = diff_int64 now ((base + timestamp) % 2 ^ 64) in
    let (d, updated) = update drift_max_samples drift_max_value c'.tracer drift in
    if c.tsbpd_mode
    then record c' {
      tracer = d;
      time_base = if updated then add_int64 c'.time_base d.overdrift else c'.time_base;
    }
    else c
