-- ===== src/HandShake.antt =====
-- `CHandShake` and `SrtHSRequest` of Sources/CSRT/handshake.cpp and include/handshake.h: the handshake
-- as 12 words of a buffer, and the SRT extension as 4. A buffer is a function from the index of a
-- 32-bit word to its `int32_t`; its size is in bytes. The request type is the number of its
-- enumerator.
pub mod RoundTrip
mod Tests
use swift_srt.Base.{
  ℕ, ◌+◌, ◌-◌, ◌*◌, ◌%◌, ◌^◌, Bool, true, false, if◌then◌else◌, ltb, set, ℤ, pos, negsuc, minus_one,
  sub_ℕ,
}

pub record HandShake : Type 0 where
  pub version : ℤ
  pub type : ℤ
  pub isn : ℤ
  pub mss : ℤ
  pub flight_flag_size : ℤ
  pub req_type : ℤ
  pub id : ℤ
  pub cookie : ℤ
  pub peer_ip : ℕ → ℕ
  pub extension : Bool

-- The constructor; `URQ_WAVEAHAND` is 0.
unfoldable pub hand_shake : HandShake
hand_shake = record {
  version = pos 0;
  type = pos 0;
  isn = pos 0;
  mss = pos 0;
  flight_flag_size = pos 0;
  req_type = pos 0;
  id = pos 0;
  cookie = pos 0;
  peer_ip = λ i. 0;
  extension = false;
}

abbrev pub content_size : ℕ
content_size = 48

-- The conversions between `uint32_t` and `int32_t`.
unfoldable pub to_int32 : ℕ → ℤ
to_int32 n = if ltb n (2 ^ 31) then pos n else sub_ℕ n (2 ^ 32)

unfoldable pub to_uint32 : ℤ → ℕ
to_uint32 (pos n) = n % 2 ^ 32
to_uint32 (negsuc n) = 2 ^ 32 - 1 - n % 2 ^ 32

-- The result is the return value, the new value of `r_size`, and the buffer.
unfoldable pub store_to : HandShake → (ℕ → ℤ) → ℕ → ℤ × ℕ × (ℕ → ℤ)
store_to s buf size =
    let w0 = set buf 0 s.version in
    let w1 = set w0 1 s.type in
    let w2 = set w1 2 s.isn in
    let w3 = set w2 3 s.mss in
    let w4 = set w3 4 s.flight_flag_size in
    let w5 = set w4 5 s.req_type in
    let w6 = set w5 6 s.id in
    let w7 = set w6 7 s.cookie in
    let w8 = set w7 8 (to_int32 (s.peer_ip 0)) in
    let w9 = set w8 9 (to_int32 (s.peer_ip 1)) in
    let w10 = set w9 10 (to_int32 (s.peer_ip 2)) in
    let w11 = set w10 11 (to_int32 (s.peer_ip 3)) in
    if ltb size content_size then (minus_one, size, buf) else (pos 0, content_size, w11)

unfoldable pub load_from : HandShake → (ℕ → ℤ) → ℕ → ℤ × HandShake
load_from s buf size =
    let ip0 = set s.peer_ip 0 (to_uint32 (buf 8)) in
    let ip1 = set ip0 1 (to_uint32 (buf 9)) in
    let ip2 = set ip1 2 (to_uint32 (buf 10)) in
    let ip3 = set ip2 3 (to_uint32 (buf 11)) in
    if ltb size content_size then (minus_one, s) else (
      pos 0,
      record {
        version = buf 0;
        type = buf 1;
        isn = buf 2;
        mss = buf 3;
        flight_flag_size = buf 4;
        req_type = buf 5;
        id = buf 6;
        cookie = buf 7;
        peer_ip = ip3;
        extension = s.extension;
      },
    )

pub record SrtHsRequest : Type 0 where
  pub srt_version : ℕ
  pub srt_flags : ℕ
  pub srt_tsbpd : ℕ
  pub srt_reserved : ℕ

abbrev pub srt_hs_size : ℕ
srt_hs_size = 16

unfoldable pub serialize : SrtHsRequest → (ℕ → ℤ) → ℕ → Bool × (ℕ → ℤ)
serialize r buf size =
    let w0 = set buf 0 (to_int32 r.srt_version) in
    let w1 = set w0 1 (to_int32 r.srt_flags) in
    let w2 = set w1 2 (to_int32 r.srt_tsbpd) in
    let w3 = set w2 3 (pos 0) in if ltb size srt_hs_size then (false, buf) else (true, w3)

unfoldable pub deserialize : SrtHsRequest → (ℕ → ℤ) → ℕ → Bool × SrtHsRequest
deserialize r buf size = if ltb size srt_hs_size then (false, record r { srt_version = 0 }) else (
  true,
  record {
    srt_version = to_uint32 (buf 0);
    srt_flags = to_uint32 (buf 1);
    srt_tsbpd = to_uint32 (buf 2);
    srt_reserved = to_uint32 (buf 3);
  },
)
