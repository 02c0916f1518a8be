-- ===== src/RcvBuffer/Search.antt =====
-- The loop of `getRcvReadyMsg` finds the first unit that is good and, when it is due, readable.
use swift_srt.Base.{
  ℕ, suc, ◌≡◌, ◌≢◌, ◌⊎◌, inl, inr, refl, sym, subst, Bool, true, false, Option, none, some, List,
  [], ◌∷◌, ◌==◌, length, arith, Bool-cases, pos, ltb_ℤ,
}
use swift_srt.PlayTime.{PlayTime, get_pkt_tsbpd_time, diff_int64}
use swift_srt.RcvBuffer.{Flag, free, good, passack, dropped, RcvUnit, RcvBuffer}
use swift_srt.RcvBuffer.Ready.{
  ReadyTurn, skip, not_due, due, pass_place, free_unit, good_turn, flag_turn, ready_turn,
  after_ready, ready_loop,
}
use swift_srt.RcvBuffer.Emptied.{units}
use swift_srt.RcvBuffer.Shortened.{
  Shortened, Shortened-trans, Shortened-refl, pass_place-Shortened, free_unit-Shortened,
}
use swift_srt.RcvBuffer.Ring.{
  Places, Ring, Skipped, Found, pass_place-Ring, cleared-Ring, stay, empty, not_good, unreadable,
  ended, waits, ready,
}

extend :
    (clock : ℕ → ℕ) (b c : RcvBuffer) (x : Option RcvUnit) (xs : List (Option RcvUnit))
    (r : Bool × ℕ × RcvBuffer)
    → ((d : PlayTime) (ys : List (Option RcvUnit))
        → Skipped clock c.play_time xs d ys
        → Skipped clock b.play_time (x ∷ xs) d ys)
    → Ring b (x ∷ xs)
    → Shortened b c (x ∷ xs) xs (units xs)
    → Found clock c xs r
    → Found clock b (x ∷ xs) r
extend clock b c x xs r f w s v = record {
  rest = v.rest;
  last = v.last;
  skipped = f v.last v.rest v.skipped;
  ring = v.ring;
  verdict = v.verdict;
  shorter = Shortened-trans b c r.2 (x ∷ xs) xs v.rest (units v.rest) w.started w.room s v.shorter;
  timed = v.timed;
}

flag-cases : (f : Flag) → (f ≡ good) ⊎ (f ≢ good)
flag-cases free = inr (λ e. cc (e))
flag-cases good = inl refl
flag-cases passack = inr (λ e. cc (e))
flag-cases dropped = inr (λ e. cc (e))

abbrev turned : ReadyTurn → ℕ → RcvBuffer → ReadyTurn × ℕ × RcvBuffer
turned k time b = (k, time, b)

flag_turn_bad :
    (f : Flag) (now time : ℕ) (u : RcvUnit) (b : RcvBuffer)
    → f ≢ good
    → flag_turn f now time u b ≡ turned skip time (free_unit (length u.data_bytes) b)
unfolding flag_turn
flag_turn_bad free now time u b h = refl
flag_turn_bad good now time u b h = absurd (h refl)
flag_turn_bad passack now time u b h = refl
flag_turn_bad dropped now time u b h = refl

abbrev result_of : ℕ → (ℕ → ℕ) → ReadyTurn × ℕ × RcvBuffer → Bool × ℕ × RcvBuffer
result_of n clock t = after_ready t.0 t.1 t.2 (ready_loop n clock t.1 t.2)

one_turn :
    (clock : ℕ → ℕ) (time : ℕ) (b : RcvBuffer) (x : Option RcvUnit) (xs : List (Option RcvUnit))
    → Ring b (x ∷ xs)
    → ready_loop (suc (length xs)) clock time b
      ≡ result_of (length xs) clock (ready_turn (clock (length xs)) time x b)
unfolding ready_loop Places
one_turn clock time b x xs v =
    let f : b.start_pos == b.last_ack_pos ≡ false = ground (arith, v.last_eq, v.room, v.started) in
    rw (f, v.places.0) refl

-- The buffer after a look at a unit's time.
abbrev looked : RcvUnit → RcvBuffer → RcvBuffer
looked u b = record b { play_time = (get_pkt_tsbpd_time u.timestamp b.play_time).1 }

abbrev time_of : RcvUnit → RcvBuffer → ℕ
time_of u b = (get_pkt_tsbpd_time u.timestamp b.play_time).0

good_turn_waits :
    (now : ℕ) (u : RcvUnit) (b : RcvBuffer)
    → ltb_ℤ (pos 0) (diff_int64 (time_of u b) now) ≡ true
    → good_turn now u b ≡ turned not_due (time_of u b) (looked u b)
unfolding good_turn
good_turn_waits now u b e = rw e refl

good_turn_skips :
    (now : ℕ) (u : RcvUnit) (b : RcvBuffer)
    → ltb_ℤ (pos 0) (diff_int64 (time_of u b) now) ≡ false
    → u.encrypted ≡ true
    → good_turn now u b ≡ turned skip (time_of u b) (free_unit (length u.data_bytes) (looked u b))
unfolding good_turn
good_turn_skips now u b e c = rw (e, c) refl

good_turn_due :
    (now : ℕ) (u : RcvUnit) (b : RcvBuffer)
    → ltb_ℤ (pos 0) (diff_int64 (time_of u b) now) ≡ false
    → u.encrypted ≡ false
    → good_turn now u b ≡ turned due (time_of u b) (looked u b)
unfolding good_turn
good_turn_due now u b e c = rw (e, c) refl

-- A good unit at the first place, where `next` is for the other places.
first_good :
    (xs : List (Option RcvUnit)) (clock : ℕ → ℕ) (u : RcvUnit) (b : RcvBuffer)
    → Ring b (some u ∷ xs)
    → u.flag ≡ good
    → ((time : ℕ) (c : RcvBuffer)
        → Ring c xs
        → Found clock c xs (ready_loop (length xs) clock time c))
    → Found clock b (some u ∷ xs) (result_of (length xs) clock (good_turn (clock (length xs)) u b))
first_good xs clock u b v g next =
    elim (Bool-cases (ltb_ℤ (pos 0) (diff_int64 (time_of u b) (clock (length xs))))) [
      | inl e ↦
          subst (λ t. Found clock b (some u ∷ xs) (result_of (length xs) clock t))
            (sym (good_turn_waits (clock (length xs)) u b e))
            (record {
              rest = some u ∷ xs;
              last = b.play_time;
              skipped = stay;
              ring = record {
                started = v.started;
                room = v.room;
                last_eq = v.last_eq;
                places = v.places;
              };
              verdict = waits u xs g (λ d. cc (d, e));
              shorter =
                  Shortened-refl b (get_pkt_tsbpd_time u.timestamp b.play_time).1 (some u ∷ xs)
                    v.started;
              timed = refl;
            })
      | inr e ↦ elim (Bool-cases u.encrypted) [
        | inl c ↦
            subst (λ t. Found clock b (some u ∷ xs) (result_of (length xs) clock t))
              (sym (good_turn_skips (clock (length xs)) u b e c))
              (extend clock b (free_unit (length u.data_bytes) (looked u b)) (some u) xs _
                (λ d ys s. unreadable u c e s) v
                (free_unit-Shortened b (get_pkt_tsbpd_time u.timestamp b.play_time).1 u xs
                  v.started)
                (next (time_of u b) (free_unit (length u.data_bytes) (looked u b)) (
                  cleared-Ring b (free_unit (length u.data_bytes) (looked u b)) (some u) xs v refl
                    refl refl refl)))
        | inr c ↦
            subst (λ t. Found clock b (some u ∷ xs) (result_of (length xs) clock t))
              (sym (good_turn_due (clock (length xs)) u b e c))
              (record {
                rest = some u ∷ xs;
                last = b.play_time;
                skipped = stay;
                ring = record {
                  started = v.started;
                  room = v.room;
                  last_eq = v.last_eq;
                  places = v.places;
                };
                verdict = ready u xs g c e;
                shorter =
                    Shortened-refl b (get_pkt_tsbpd_time u.timestamp b.play_time).1 (some u ∷ xs)
                      v.started;
                timed = refl;
              })
      ]
    ]

flag_turn_good :
    (f : Flag) (now time : ℕ) (u : RcvUnit) (b : RcvBuffer)
    → f ≡ good
    → flag_turn f now time u b ≡ good_turn now u b
unfolding flag_turn
flag_turn_good f now time u b h = rw h refl

pub found :
    (xs : List (Option RcvUnit)) (clock : ℕ → ℕ) (time : ℕ) (b : RcvBuffer)
    → Ring b xs
    → Found clock b xs (ready_loop (length xs) clock time b)
unfolding ready_loop ready_turn Places
found [] clock time b v = record {
  rest = [];
  last = b.play_time;
  skipped = stay;
  ring = v;
  verdict = ended;
  shorter = Shortened-refl b b.play_time [] v.started;
  timed = refl;
}
found (none ∷ xs) clock time b v =
    subst (Found clock b (none ∷ xs)) (sym (one_turn clock time b none xs v)) (
      extend clock b (pass_place b) none xs _ (λ d ys s. empty s) v
        (pass_place-Shortened b xs v.started v.places.0)
        (found xs clock time (pass_place b) (pass_place-Ring b none xs v)))
found (some u ∷ xs) clock time b v =
    subst (Found clock b (some u ∷ xs)) (sym (one_turn clock time b (some u) xs v))
      (elim (flag-cases u.flag) [
        | inl g ↦
            subst (λ t. Found clock b (some u ∷ xs) (result_of (length xs) clock t))
              (sym (flag_turn_good u.flag (clock (length xs)) time u b g))
              (first_good xs clock u b v g (λ at c w. found xs clock at c w))
        | inr h ↦
            subst (λ t. Found clock b (some u ∷ xs) (result_of (length xs) clock t))
              (sym (flag_turn_bad u.flag (clock (length xs)) time u b h))
              (extend clock b (free_unit (length u.data_bytes) b) (some u) xs _
                (λ d ys s. not_good u h s) v (free_unit-Shortened b b.play_time u xs v.started)
                (found xs clock time (free_unit (length u.data_bytes) b) (
                  cleared-Ring b (free_unit (length u.data_bytes) b) (some u) xs v refl refl refl
                    refl)))
      ])
