-- ===== src/HandShake/Tests.antt =====
-- Round trips of a handshake and of an extension.
use swift_srt.Base.{ℕ, ◌+◌, ◌<◌, ◌≤◌, ◌≡◌, ◌⊎◌, arith, true, false, ℤ, pos, negsuc, minus_one}
use swift_srt.HandShake.{
  HandShake, SrtHsRequest, hand_shake, store_to, load_from, serialize, deserialize,
}
use swift_srt.HandShake.RoundTrip.{Agrees, load_from-store_to, deserialize-serialize}

abbrev conclusion : HandShake
conclusion = record {
  version = pos 5;
  type = pos 1;
  isn = pos 1234;
  mss = pos 1500;
  flight_flag_size = pos 8192;
  req_type = negsuc 0;
  id = pos 77;
  cookie = negsuc 41;
  peer_ip = λ i. 3232235777 + i;
  extension = true;
}

abbrev zeros : ℕ → ℤ
zeros i = pos 0

load_from-store_to_example :
    ((48 ≤ 60)
      × ((store_to conclusion zeros 60).0 ≡ pos 0)
      × ((store_to conclusion zeros 60).1 ≡ 48)
      × ((i : ℕ) → 12 ≤ i → (store_to conclusion zeros 60).2 i ≡ zeros i)
      × ((load_from hand_shake (store_to conclusion zeros 60).2 48).0 ≡ pos 0)
      × Agrees conclusion (load_from hand_shake (store_to conclusion zeros 60).2 48).1
      × ((load_from hand_shake (store_to conclusion zeros 60).2 48).1.extension
          ≡ hand_shake.extension))
    ⊎ ((60 < 48)
        × (store_to conclusion zeros 60 ≡ (minus_one, 60, zeros))
        × (load_from hand_shake zeros 60 ≡ (minus_one, hand_shake)))
load_from-store_to_example =
    load_from-store_to conclusion hand_shake zeros 60 (λ i b. omega (arith, b))

abbrev request : SrtHsRequest
request = record { srt_version = 66560; srt_flags = 191; srt_tsbpd = 4026531960; srt_reserved = 9 }

deserialize-serialize_example :
    ((16 ≤ 20)
      × ((serialize request zeros 20).0 ≡ true)
      × (deserialize request (serialize request zeros 20).1 20
          ≡ (true, record request { srt_reserved = 0 })))
    ⊎ ((20 < 16)
        × (serialize request zeros 20 ≡ (false, zeros))
        × (deserialize request zeros 20 ≡ (false, record request { srt_version = 0 })))
deserialize-serialize_example =
    deserialize-serialize request request zeros 20 (omega arith) (omega arith) (omega arith)
