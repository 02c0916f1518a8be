-- ===== src/RcvBuffer/Fill.antt =====
-- `addData` and `ackData` keep a buffer valid.
use swift_srt.Base.{
  ℕ, suc, ◌+◌, ◌-◌, ◌%◌, ◌<◌, ◌≤◌, ◌≡◌, ◌≢◌, inl, inr, refl, sym, ap, subst, ◌∙◌, Option, none,
  some, List, [], ◌∷◌, ◌++◌, if◌then◌else◌, ltb, leb, length, length-append, drop, drop_append,
  append_assoc, arith, Bool-cases,
}
use swift_srt.Base.Round.{mod_once}
use swift_srt.RcvBuffer.{
  RcvUnit, RcvBuffer, next_place, add_data, add_at, ack_data, ack_loop, get_avail_buf_size,
}
use swift_srt.RcvBuffer.Contents.{
  place_at, Holds, bytes_of, NotchFits, Valid, data_size-eq, place_at-next, next_place_lt,
  set-Holds,
}

free_place :
    (b : RcvBuffer) (us : List RcvUnit) (offset i : ℕ)
    → Valid b us
    → offset < get_avail_buf_size b
    → i < length us
    → place_at b.size b.start_pos i ≢ (b.last_ack_pos + offset) % b.size
free_place b us offset i v h k e =
    let s = data_size-eq b us v in
    let m =
      mod_once (b.last_ack_pos + offset) b.size (ground (arith, v.last_eq, v.started, v.room, h)) in
    ground (arith, s, m, e, v.last_eq, v.started, v.room, h, k)

add_at-Valid :
    (u : RcvUnit) (p : ℕ) (x : Option RcvUnit) (b : RcvBuffer) (us : List RcvUnit)
    → Valid b us
    → ((i : ℕ) → i < length us → place_at b.size b.start_pos i ≢ p)
    → Valid (add_at u p x b).1 us
unfolding add_at
add_at-Valid u p (some old) b us v f = v
add_at-Valid u p none b us v f = record {
  started = v.started;
  room = v.room;
  last_eq = v.last_eq;
  holds = set-Holds b.unit b.size b.start_pos p _ us v.started (omega (arith, v.room)) f v.holds;
  notch_fits = v.notch_fits;
}

Holds-append :
    (unit : ℕ → Option RcvUnit) (size p : ℕ) (us vs : List RcvUnit)
    → p < size
    → length us < size
    → Holds unit size p us
    → Holds unit size (place_at size p (length us)) vs
    → Holds unit size p (us ++ vs)
unfolding Holds
Holds-append unit size p [] vs h k v w = subst (λ q. Holds unit size q vs) (ground arith) w
Holds-append unit size p (u ∷ us) vs h k (e, v) w = (
  e,
  Holds-append unit size (next_place size p) us vs (next_place_lt size p h) (omega (arith, k)) v (
      subst (λ q. Holds unit size q vs)
        (ap (place_at size p) (one_behind (length us))
          ∙ sym (place_at-next size p (length us) h (omega (arith, k))))
        w),
)
  where
    one_behind : (n : ℕ) → suc n ≡ n + 1
    one_behind n = omega arith

pub add_data-Valid :
    (u : RcvUnit) (offset : ℕ) (b : RcvBuffer) (us : List RcvUnit)
    → Valid b us
    → Valid (add_data u offset b).1 us
unfolding add_data
add_data-Valid u offset b us v = elim (Bool-cases (leb (get_avail_buf_size b) offset)) [
  | inl e ↦ rw e v
  | inr e ↦ rw e (
      add_at-Valid u ((b.last_ack_pos + offset) % b.size)
        (b.unit ((b.last_ack_pos + offset) % b.size))
        (record b { max_pos = if leb b.max_pos offset then offset + 1 else b.max_pos }) us
        (record {
          started = v.started;
          room = v.room;
          last_eq = v.last_eq;
          holds = v.holds;
          notch_fits = v.notch_fits;
        })
        (λ i k. free_place b us offset i v (ground (arith, e)) k))
]

add_at-same :
    (u : RcvUnit) (p : ℕ) (x : Option RcvUnit) (b : RcvBuffer)
    → ((add_at u p x b).1.play_time ≡ b.play_time) × ((add_at u p x b).1.notch ≡ b.notch)
unfolding add_at
add_at-same u p none b = (refl, refl)
add_at-same u p (some y) b = (refl, refl)

pub add_data-same :
    (u : RcvUnit) (offset : ℕ) (b : RcvBuffer)
    → ((add_data u offset b).1.play_time ≡ b.play_time) × ((add_data u offset b).1.notch ≡ b.notch)
unfolding add_data
add_data-same u offset b = elim (Bool-cases (leb (get_avail_buf_size b) offset)) [
  | inl e ↦ rw e (refl, refl)
  | inr e ↦ rw e (
      add_at-same u ((b.last_ack_pos + offset) % b.size)
        (b.unit ((b.last_ack_pos + offset) % b.size))
        (record b { max_pos = if leb b.max_pos offset then offset + 1 else b.max_pos }))
]

NotchFits-append : (n : ℕ) (us vs : List RcvUnit) → NotchFits n us → NotchFits n (us ++ vs)
NotchFits-append n [] [] h = h
NotchFits-append n [] (v ∷ vs) h = inl h
NotchFits-append n (u ∷ us) vs h = h

pub bytes_of-append : (us vs : List RcvUnit) → bytes_of (us ++ vs) ≡ bytes_of us ++ bytes_of vs
bytes_of-append [] vs = refl
bytes_of-append (u ∷ us) vs =
    ap (λ xs. u.data_bytes ++ xs) (bytes_of-append us vs)
    ∙ sym (append_assoc u.data_bytes (bytes_of us) (bytes_of vs))

notch_le : (n : ℕ) (us : List RcvUnit) → NotchFits n us → n ≤ length (bytes_of us)
notch_le n [] h = omega (arith, h)
notch_le n (u ∷ us) h = let l = length-append u.data_bytes (bytes_of us) in ground (arith, h, l)

-- The content grows by the bytes acknowledged.
pub content-append :
    (n : ℕ) (us vs : List RcvUnit)
    → NotchFits n us
    → drop n (bytes_of (us ++ vs)) ≡ drop n (bytes_of us) ++ bytes_of vs
content-append n us vs h =
    let z : n - length (bytes_of us) ≡ 0 = omega (arith, notch_le n us h) in
    ap (drop n) (bytes_of-append us vs)
    ∙ drop_append n (bytes_of us) (bytes_of vs)
    ∙ ap (λ k. drop n (bytes_of us) ++ drop k (bytes_of vs)) z

pub ack_data-Valid :
    (b : RcvBuffer) (us vs : List RcvUnit)
    → Valid b us
    → Holds b.unit b.size b.last_ack_pos vs
    → length vs ≤ get_avail_buf_size b
    → Valid (ack_data (length vs) b) (us ++ vs)
unfolding ack_data
ack_data-Valid b us vs v w h =
    let s = data_size-eq b us v in
    let l = length-append us vs in
    let m =
      mod_once (b.last_ack_pos + length vs) b.size
        (ground (arith, v.last_eq, v.started, v.room, h, s)) in
    let c =
      Holds-append b.unit b.size b.start_pos us vs v.started v.room v.holds
        (subst (λ q. Holds b.unit b.size q vs) v.last_eq w) in
    let last : (b.last_ack_pos + length vs) % b.size
        ≡ place_at b.size b.start_pos (length (us ++ vs)) =
      ground (arith, m, l, v.last_eq, v.started, v.room, h, s) in
    elim (Bool-cases (ltb 0 (ack_loop (length vs % b.size) b b.last_ack_pos).0)) [
      | inl e ↦ rw e (record {
        started = v.started;
        room = omega (arith, l, h, s, v.room);
        last_eq = last;
        holds = c;
        notch_fits = NotchFits-append b.notch us vs v.notch_fits;
      })
      | inr e ↦ rw e (record {
        started = v.started;
        room = omega (arith, l, h, s, v.room);
        last_eq = last;
        holds = c;
        notch_fits = NotchFits-append b.notch us vs v.notch_fits;
      })
    ]

pub ack_data-same :
    (n : ℕ) (b : RcvBuffer)
    → ((ack_data n b).play_time ≡ b.play_time) × ((ack_data n b).notch ≡ b.notch)
unfolding ack_data
ack_data-same n b = elim (Bool-cases (ltb 0 (ack_loop (n % b.size) b b.last_ack_pos).0)) [
  | inl e ↦ rw e (refl, refl)
  | inr e ↦ rw e (refl, refl)
]
