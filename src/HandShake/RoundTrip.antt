-- ===== src/HandShake/RoundTrip.antt =====
-- What is stored is loaded again.
use swift_srt.Base.{
  ℕ, zero, suc, ◌^◌, ◌<◌, ◌≤◌, ◌≡◌, ◌⊎◌, inl, inr, refl, arith, true, false, le→ltb, lt→ltb, ℤ, pos,
  minus_one, set, dec_lt,
}
use swift_srt.HandShake.{
  HandShake, SrtHsRequest, to_int32, to_uint32, store_to, load_from, serialize, deserialize,
}

to_uint32-to_int32 : (n : ℕ) → n < 2 ^ 32 → to_uint32 (to_int32 n) ≡ n
unfolding to_uint32 to_int32
to_uint32-to_int32 n h = ground arith

to_uint32_zero : to_uint32 (pos 0) ≡ 0
unfolding to_uint32
to_uint32_zero = refl

-- The fields that go over the wire are the same.
pub record Agrees (s t : HandShake) : Type 0 where
  pub version_eq : t.version ≡ s.version
  pub type_eq : t.type ≡ s.type
  pub isn_eq : t.isn ≡ s.isn
  pub mss_eq : t.mss ≡ s.mss
  pub flight_eq : t.flight_flag_size ≡ s.flight_flag_size
  pub req_type_eq : t.req_type ≡ s.req_type
  pub id_eq : t.id ≡ s.id
  pub cookie_eq : t.cookie ≡ s.cookie
  pub peer_ip_eq : (i : ℕ) → i < 4 → t.peer_ip i ≡ s.peer_ip i

store_to-small :
    (s : HandShake) (buf : ℕ → ℤ) (size : ℕ)
    → size < 48
    → store_to s buf size ≡ (minus_one, size, buf)
unfolding store_to
store_to-small s buf size h = rw (lt→ltb size 48 h) refl

load_from-small :
    (t : HandShake) (buf : ℕ → ℤ) (size : ℕ) → size < 48 → load_from t buf size ≡ (minus_one, t)
unfolding load_from
load_from-small t buf size h = rw (lt→ltb size 48 h) refl

store_to-rest :
    (s : HandShake) (buf : ℕ → ℤ) (size i : ℕ)
    → 48 ≤ size
    → 12 ≤ i
    → (store_to s buf size).2 i ≡ buf i
unfolding store_to
store_to-rest s buf size i h k = rw (le→ltb size 48 h) (ground (arith, k))

store_to-ok :
    (s : HandShake) (buf : ℕ → ℤ) (size : ℕ)
    → 48 ≤ size
    → ((store_to s buf size).0 ≡ pos 0) × ((store_to s buf size).1 ≡ 48)
unfolding store_to
store_to-ok s buf size h = rw (le→ltb size 48 h) (refl, refl)

-- The address words as the two conversions leave them.
loaded_words :
    (p q : ℕ → ℕ)
    → ((i : ℕ) → i < 4 → q i < 2 ^ 32)
    → (i : ℕ) → i < 4
    → set
        (set
          (set (set p 0 (to_uint32 (to_int32 (q 0)))) 1 (to_uint32 (to_int32 (q 1))))
          2
          (to_uint32 (to_int32 (q 2))))
        3
        (to_uint32 (to_int32 (q 3)))
        i
      ≡ q i
loaded_words p q k zero b = to_uint32-to_int32 (q 0) (k 0 b)
loaded_words p q k (suc zero) b = to_uint32-to_int32 (q 1) (k 1 b)
loaded_words p q k (suc (suc zero)) b = to_uint32-to_int32 (q 2) (k 2 b)
loaded_words p q k (suc (suc (suc zero))) b = to_uint32-to_int32 (q 3) (k 3 b)
loaded_words p q k (suc (suc (suc (suc i)))) b = absurd (omega (arith, b))

loaded :
    (s t : HandShake) (buf : ℕ → ℤ) (size : ℕ)
    → 48 ≤ size
    → ((i : ℕ) → i < 4 → s.peer_ip i < 2 ^ 32)
    → ((load_from t (store_to s buf size).2 48).0 ≡ pos 0)
      × Agrees s (load_from t (store_to s buf size).2 48).1
      × ((load_from t (store_to s buf size).2 48).1.extension ≡ t.extension)
unfolding store_to load_from
loaded s t buf size h k = rw (le→ltb size 48 h) (
  refl,
  record {
    version_eq = refl;
    type_eq = refl;
    isn_eq = refl;
    mss_eq = refl;
    flight_eq = refl;
    req_type_eq = refl;
    id_eq = refl;
    cookie_eq = refl;
    peer_ip_eq = loaded_words t.peer_ip s.peer_ip k;
  },
  refl,
)

-- A handshake whose address words fit 32 bits, stored to a buffer of at least 48 bytes, which leaves
-- the words behind them as they were, and loaded from there into any handshake `t`: both succeed, and
-- the result has the fields of the first and the extension mark of `t`. With a smaller buffer both fail
-- and change nothing.
pub load_from-store_to :
    (s t : HandShake) (buf : ℕ → ℤ) (size : ℕ)
    → ((i : ℕ) → i < 4 → s.peer_ip i < 2 ^ 32)
    → ((48 ≤ size)
        × ((store_to s buf size).0 ≡ pos 0)
        × ((store_to s buf size).1 ≡ 48)
        × ((i : ℕ) → 12 ≤ i → (store_to s buf size).2 i ≡ buf i)
        × ((load_from t (store_to s buf size).2 48).0 ≡ pos 0)
        × Agrees s (load_from t (store_to s buf size).2 48).1
        × ((load_from t (store_to s buf size).2 48).1.extension ≡ t.extension))
      ⊎ ((size < 48)
          × (store_to s buf size ≡ (minus_one, size, buf))
          × (load_from t buf size ≡ (minus_one, t)))
load_from-store_to s t buf size h = elim (dec_lt size 48) [
  | yes k ↦ inr (k, store_to-small s buf size k, load_from-small t buf size k)
  | no k ↦
      let b : 48 ≤ size = omega arith in
      let (e1, e2) = store_to-ok s buf size b in
      let (l1, l2, l3) = loaded s t buf size b h in
      inl (b, e1, e2, λ i j. store_to-rest s buf size i b j, l1, l2, l3)
]

-- An SRT extension of 32-bit words, written and read with room for 16 bytes, comes back with its
-- reserved word 0; without that room nothing is written, and the one read into is left with version 0.
pub deserialize-serialize :
    (r t : SrtHsRequest) (buf : ℕ → ℤ) (size : ℕ)
    → r.srt_version < 2 ^ 32
    → r.srt_flags < 2 ^ 32
    → r.srt_tsbpd < 2 ^ 32
    → ((16 ≤ size)
        × ((serialize r buf size).0 ≡ true)
        × (deserialize t (serialize r buf size).1 size ≡ (true, record r { srt_reserved = 0 })))
      ⊎ ((size < 16)
          × (serialize r buf size ≡ (false, buf))
          × (deserialize t buf size ≡ (false, record t { srt_version = 0 })))
unfolding serialize deserialize
deserialize-serialize r t buf size h1 h2 h3 = elim (dec_lt size 16) [
  | yes k ↦ inr (k, rw (lt→ltb size 16 k) refl, rw (lt→ltb size 16 k) refl)
  | no k ↦ inl (
    omega arith,
    rw (le→ltb size 16 (omega arith)) refl,
    rw
        (
          le→ltb size 16 (omega arith),
          to_uint32-to_int32 r.srt_version h1,
          to_uint32-to_int32 r.srt_flags h2,
          to_uint32-to_int32 r.srt_tsbpd h3,
          to_uint32_zero,
        )
        refl,
  )
]
