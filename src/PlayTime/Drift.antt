-- ===== src/PlayTime/Drift.antt =====
-- What a full round of drift samples leaves in `DriftTracer`.
use swift_srt.Base.{
  ℕ, suc, ◌+◌, ◌≤◌, ◌≡◌, refl, Bool, true, false, List, [], ◌∷◌, ltb, length, ℤ, pos, negsuc, ◌+ℤ◌,
  abs_ℤ, arith, ◌<◌, if◌then◌else◌, ltb_ℤ, neg,
}
use swift_srt.PlayTime.{DriftTracer, split_drift, update, div_ℤ}

-- The samples one after the other, and whether the last one made an average.
unfoldable pub updates : ℕ → ℕ → DriftTracer → List ℤ → DriftTracer × Bool
unfolding update
updates max_span max_drift d [] = (d, false)
updates max_span max_drift d (v ∷ []) = update max_span max_drift d v
updates max_span max_drift d (v ∷ w ∷ vs) =
    updates max_span max_drift (update max_span max_drift d v).0 (w ∷ vs)

abbrev pub sum_from : ℤ → List ℤ → ℤ
sum_from z [] = z
sum_from z (v ∷ vs) = sum_from (z +ℤ v) vs

-- The tracer has the average: all of it as its drift where that is within `max_drift`, and otherwise
-- `max_drift`, with the sign of the average, is moved to the overdrift.
pub record Averaged (max_drift : ℕ) (average : ℤ) (d : DriftTracer) : Type 0 where
  pub whole : d.drift +ℤ d.overdrift ≡ average
  pub within : abs_ℤ average ≤ max_drift → d.overdrift ≡ pos 0
  pub beyond :
      max_drift < abs_ℤ average
      → d.overdrift ≡ (if ltb_ℤ average (pos 0) then neg (pos max_drift) else pos max_drift)
  pub cleared : d.drift_sum ≡ pos 0
  pub restarted : d.drift_span ≡ 0

split_drift-Averaged :
    (max_drift : ℕ) (average : ℤ) → Averaged max_drift average (split_drift max_drift average)
unfolding split_drift
split_drift-Averaged max_drift (pos n) = ground arith
split_drift-Averaged max_drift (negsuc n) = ground arith

updates_lem :
    (max_span max_drift n : ℕ) (d : DriftTracer) (v : ℤ) (vs : List ℤ)
    → length vs ≡ n
    → d.drift_span + suc n ≡ max_span
    → updates max_span max_drift d (v ∷ vs)
      ≡ (split_drift max_drift (div_ℤ (sum_from d.drift_sum (v ∷ vs)) max_span), true)
unfolding updates update
updates_lem max_span max_drift n d v [] e h =
    let f : d.drift_span + 1 ≡ max_span = omega (arith, e, h) in rw (f, ltb_same max_span) refl
  where
    ltb_same : (k : ℕ) → ltb k k ≡ false
    ltb_same k = ground arith
updates_lem max_span max_drift n d v (w ∷ vs) e h =
    let f : ltb (d.drift_span + 1) max_span ≡ true = ground (arith, e, h) in
    rw f (
      updates_lem max_span max_drift (length vs)
        (record d { drift_sum = d.drift_sum +ℤ v; drift_span = d.drift_span + 1 }) w vs refl
        (omega (arith, e, h)))

-- From a tracer without samples, `max_span` samples make an average, which is their sum divided by
-- their number. An average of at most `max_drift`, in absolute value, is the new drift, with no
-- overdrift. Of a greater one, the overdrift is `max_drift` with the sign of the average, and the drift
-- is the rest of it. No sample is left.
pub updates-Averaged :
    (max_span max_drift : ℕ) (d : DriftTracer) (v : ℤ) (vs : List ℤ)
    → d.drift_sum ≡ pos 0
    → d.drift_span ≡ 0
    → length (v ∷ vs) ≡ max_span
    → ((updates max_span max_drift d (v ∷ vs)).1 ≡ true)
      × Averaged max_drift
          (div_ℤ (sum_from (pos 0) (v ∷ vs)) max_span)
          (updates max_span max_drift d (v ∷ vs)).0
updates-Averaged max_span max_drift d v vs s n l =
    let e = updates_lem max_span max_drift (length vs) d v vs refl (omega (arith, n, l)) in
    rw (e, s) (refl, split_drift-Averaged max_drift (div_ℤ (sum_from (pos 0) (v ∷ vs)) max_span))
