-- ===== src/PlayTime/Tests.antt =====
-- A clock over a wrap of the timestamps, with a drift sample, and a tracer of three samples.
use swift_srt.Base.{◌+◌, ◌-◌, ◌^◌, ◌≡◌, refl, arith, true, false, List, [], ◌∷◌, pos, negsuc}
use swift_srt.PlayTime.{PlayTime, drift_tracer, set_rcv_tsbpd_mode}
use swift_srt.PlayTime.Unwrapped.{
  Event, packet, sample, play_times, true_times, Steady, play_times-true_times,
}
use swift_srt.PlayTime.Drift.{updates, Averaged, updates-Averaged}

abbrev clock : PlayTime
clock = record {
  tsbpd_mode = false;
  wrap_check = false;
  time_base = 0;
  delay = 0;
  tracer = drift_tracer;
}

-- One minute before the wrap, then close to it, behind it, before it again, and well behind it.
abbrev events : List Event
events =
    packet (2 ^ 32 - 45000000)
    ∷ packet (2 ^ 32 - 20000000)
    ∷ packet (2 ^ 32 + 5)
    ∷ sample (2 ^ 32 - 3) (2 ^ 32 + 500)
    ∷ packet (2 ^ 32 + 29000000)
    ∷ packet (2 ^ 32 + 50000000)
    ∷ []

events-Steady : Steady (2 ^ 32 - 60000000) events
unfolding Steady
events-Steady = ground arith

delivered :
    play_times (set_rcv_tsbpd_mode 100 120000 clock) events
    ≡ (2 ^ 32 - 44879900)
      ∷ (2 ^ 32 - 19879900)
      ∷ (2 ^ 32 + 120105)
      ∷ (2 ^ 32 + 29120100)
      ∷ (2 ^ 32 + 50120100)
      ∷ []
unfolding play_times
delivered = refl

play_times-true_times_example :
    play_times (set_rcv_tsbpd_mode 100 120000 clock) events
    ≡ true_times 100 120000 drift_tracer events
play_times-true_times_example =
    play_times-true_times events clock 100 120000 (2 ^ 32 - 60000000) (omega arith) (omega arith)
      events-Steady

updates-Averaged_example :
    ((updates 3 5000 drift_tracer (pos 9000 ∷ pos 7000 ∷ negsuc 0 ∷ [])).1 ≡ true)
    × Averaged 5000 (pos 5333) (updates 3 5000 drift_tracer (pos 9000 ∷ pos 7000 ∷ negsuc 0 ∷ [])).0
updates-Averaged_example =
    updates-Averaged 3 5000 drift_tracer (pos 9000) (pos 7000 ∷ negsuc 0 ∷ []) refl refl refl

averaged : (updates 3 5000 drift_tracer (pos 9000 ∷ pos 7000 ∷ negsuc 0 ∷ [])).0.drift ≡ pos 333
unfolding updates
averaged = refl
