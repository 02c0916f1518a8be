-- ===== src/RcvBuffer/Ring.antt =====
-- The acknowledged places, of which some may be empty, and what a search for a unit to give out finds.
use swift_srt.Base.{
  ℕ, ◌+◌, ◌<◌, ◌≤◌, ◌≡◌, ◌≢◌, sym, ap, ◌∙◌, Bool, true, false, Option, none, some, List, [], ◌∷◌,
  set, get-set_ne, length, arith, pos, ltb_ℤ,
}
use swift_srt.PlayTime.{PlayTime, get_pkt_tsbpd_time, diff_int64}
use swift_srt.RcvBuffer.{good, RcvUnit, RcvBuffer, next_place}
use swift_srt.RcvBuffer.Contents.{place_at, place_at-next, next_place_lt}
use swift_srt.RcvBuffer.Ready.{pass_place}
use swift_srt.RcvBuffer.Emptied.{units}
use swift_srt.RcvBuffer.Shortened.{Shortened}

-- The places from `p` on, of which some may be empty.
unfoldable pub Places : (ℕ → Option RcvUnit) → ℕ → ℕ → List (Option RcvUnit) → Type 0
Places unit size p [] = Unit {0}
Places unit size p (x ∷ xs) = (unit p ≡ x) × Places unit size (next_place size p) xs

-- The acknowledged places are `xs`.
pub record Ring (b : RcvBuffer) (xs : List (Option RcvUnit)) : Type 0 where
  pub started : b.start_pos < b.size
  pub room : length xs < b.size
  pub last_eq : b.last_ack_pos ≡ place_at b.size b.start_pos (length xs)
  pub places : Places b.unit b.size b.start_pos xs

-- The play time of the unit has come, for a clock of the buffer as in `c`.
abbrev pub IsDue : ℕ → RcvUnit → PlayTime → Type 0
IsDue now u c = ltb_ℤ (pos 0) (diff_int64 (get_pkt_tsbpd_time u.timestamp c).0 now) ≡ false

-- The places passed over: empty, with a unit that is not good, or with one that is due and could not be
-- decrypted.
pub data Skipped (clock : ℕ → ℕ)
    : PlayTime → List (Option RcvUnit) → PlayTime → List (Option RcvUnit) → Type 0 where
  stay : {c : PlayTime} {xs : List (Option RcvUnit)} → Skipped clock c xs c xs
  empty :
      {c d : PlayTime} {xs ys : List (Option RcvUnit)}
      → Skipped clock c xs d ys
      → Skipped clock c (none ∷ xs) d ys
  not_good :
      {c d : PlayTime} {xs ys : List (Option RcvUnit)} (u : RcvUnit)
      → u.flag ≢ good
      → Skipped clock c xs d ys
      → Skipped clock c (some u ∷ xs) d ys
  unreadable :
      {c d : PlayTime} {xs ys : List (Option RcvUnit)} (u : RcvUnit)
      → u.encrypted ≡ true
      → IsDue (clock (length xs)) u c
      → Skipped clock (get_pkt_tsbpd_time u.timestamp c).1 xs d ys
      → Skipped clock c (some u ∷ xs) d ys

-- What is left after the places passed over: nothing, a good unit that is to wait, or one to give out.
pub data Verdict (clock : ℕ → ℕ) (d : PlayTime) : List (Option RcvUnit) → Bool → Type 0 where
  ended : Verdict clock d [] false
  waits :
      (u : RcvUnit) (ys : List (Option RcvUnit))
      → u.flag ≡ good
      → ¬ IsDue (clock (length ys)) u d
      → Verdict clock d (some u ∷ ys) false
  ready :
      (u : RcvUnit) (ys : List (Option RcvUnit))
      → u.flag ≡ good
      → u.encrypted ≡ false
      → IsDue (clock (length ys)) u d
      → Verdict clock d (some u ∷ ys) true

-- The clock at the end of the search: the time of a good unit that it found is looked at.
abbrev pub clock_after : PlayTime → List (Option RcvUnit) → PlayTime
clock_after d [] = d
clock_after d (none ∷ xs) = d
clock_after d (some u ∷ xs) = (get_pkt_tsbpd_time u.timestamp d).1

-- What a search of the acknowledged places `xs` finds: the places `rest` behind those passed over.
pub record Found (clock : ℕ → ℕ) (b : RcvBuffer) (xs : List (Option RcvUnit))
    (r : Bool × ℕ × RcvBuffer) : Type 0 where
  pub rest : List (Option RcvUnit)
  pub last : PlayTime
  pub skipped : Skipped clock b.play_time xs last rest
  pub ring : Ring r.2 rest
  pub verdict : Verdict clock last rest r.0
  pub shorter : Shortened b r.2 xs rest (units rest)
  pub timed : r.2.play_time ≡ clock_after last rest

pub pass_place-Ring :
    (b : RcvBuffer) (x : Option RcvUnit) (xs : List (Option RcvUnit))
    → Ring b (x ∷ xs)
    → Ring (pass_place b) xs
unfolding Places
pass_place-Ring b x xs v = record {
  started = next_place_lt b.size b.start_pos v.started;
  room = omega (arith, v.room);
  last_eq =
      v.last_eq
      ∙ ap (place_at b.size b.start_pos) (omega arith)
      ∙ sym (place_at-next b.size b.start_pos (length xs) v.started (omega (arith, v.room)));
  places = v.places.1;
}

set-Places :
    (unit : ℕ → Option RcvUnit) (size p q : ℕ) (y : Option RcvUnit) (xs : List (Option RcvUnit))
    → p < size
    → length xs ≤ size
    → ((i : ℕ) → i < length xs → place_at size p i ≢ q)
    → Places unit size p xs
    → Places (set unit q y) size p xs
unfolding Places
set-Places unit size p q y [] h k f v = v
set-Places unit size p q y (x ∷ xs) h k f (e, v) = (
  get-set_ne unit q p y (λ z. f 0 (omega arith) (ground (arith, z, h))) ∙ e,
  set-Places unit size (next_place size p) q y xs (next_place_lt size p h) (omega (arith, k))
      (λ i l z. f (i + 1) (omega arith) (sym (place_at-next size p i h (omega (arith, k, l))) ∙ z))
      v,
)

not_first : (size p i : ℕ) → p < size → i + 1 < size → place_at size (next_place size p) i ≢ p
not_first size p i h k e = ground arith

-- A unit taken out of the first place.
pub cleared-Ring :
    (b c : RcvBuffer) (x : Option RcvUnit) (xs : List (Option RcvUnit))
    → Ring b (x ∷ xs)
    → c.unit ≡ set b.unit b.start_pos none
    → c.size ≡ b.size
    → c.last_ack_pos ≡ b.last_ack_pos
    → c.start_pos ≡ next_place b.size b.start_pos
    → Ring c xs
cleared-Ring b c x xs v e f g h =
    let w = pass_place-Ring b x xs v in
    let q =
      set-Places b.unit b.size (next_place b.size b.start_pos) b.start_pos none xs
        (next_place_lt b.size b.start_pos v.started) (omega (arith, v.room))
        (λ i l. not_first b.size b.start_pos i v.started (omega (arith, v.room))) w.places in
    record {
      started = rw (f, h) w.started;
      room = rw f w.room;
      last_eq = rw (g, f, h) w.last_eq;
      places = rw (e, f, h) q;
    }
