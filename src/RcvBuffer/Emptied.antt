-- ===== src/RcvBuffer/Emptied.antt =====
-- What taking units out at the front changes in `CRcvBuffer`: the places, the counts and the start.
use swift_srt.Base.{
  ℕ, suc, ◌+◌, ◌-◌, ◌<◌, ◌≡◌, ◌≢◌, refl, sym, ap, ◌∙◌, Option, none, some, List, [], ◌∷◌,
  if◌then◌else◌, set, get-set_ne, get-set_self, length, arith, dec_lt, ltb_ℤ, ℤ, pos, neg, ◌+ℤ◌,
  ◌-ℤ◌,
}
use swift_srt.PlayTime.{PlayTime}
use swift_srt.RcvBuffer.{RcvUnit, RcvBuffer, next_place}
use swift_srt.RcvBuffer.Contents.{place_at}
use swift_srt.RcvBuffer.Ready.{pass_place, free_unit}

-- The number of units in the places, and of their bytes.
abbrev pub units : List (Option RcvUnit) → ℕ
units [] = 0
units (none ∷ xs) = units xs
units (some u ∷ xs) = suc (units xs)

abbrev pub bytes_in : List (Option RcvUnit) → ℕ
bytes_in [] = 0
bytes_in (none ∷ xs) = bytes_in xs
bytes_in (some u ∷ xs) = length u.data_bytes + bytes_in xs

-- From `b` to `c` the first `n` places are emptied and the buffer starts behind them. Nothing else
-- is different but counts and the clock.
pub record Emptied (b c : RcvBuffer) (n : ℕ) : Type 0 where
  pub start_eq : c.start_pos ≡ place_at b.size b.start_pos n
  pub emptied : (i : ℕ) → i < n → c.unit (place_at b.size b.start_pos i) ≡ none
  pub others : (q : ℕ) → ((i : ℕ) → i < n → place_at b.size b.start_pos i ≢ q) → c.unit q ≡ b.unit q
  pub same_rest :
      record c {
        unit = b.unit;
        start_pos = b.start_pos;
        good_count = b.good_count;
        bytes_count = b.bytes_count;
        acked_bytes_count = b.acked_bytes_count;
        acked_pkts_count = b.acked_pkts_count;
        play_time = b.play_time;
      }
      ≡ b

-- From `b`, with the places `xs`, to `c`, with `ys`, the counts of good units and of bytes are less by
-- what is not in the places any more; the count of acknowledged packets keeps `k` of those in `xs`.
pub record Uncounted (b c : RcvBuffer) (xs ys : List (Option RcvUnit)) (k : ℕ) : Type 0 where
  pub good_units : c.good_count -ℤ pos (units ys) ≡ b.good_count -ℤ pos (units xs)
  pub bytes : c.bytes_count -ℤ pos (bytes_in ys) ≡ b.bytes_count -ℤ pos (bytes_in xs)
  pub acked_bytes :
      c.acked_bytes_count -ℤ pos (bytes_in ys) ≡ b.acked_bytes_count -ℤ pos (bytes_in xs)
  pub packets : c.acked_pkts_count -ℤ pos k ≡ b.acked_pkts_count -ℤ pos (units xs)

place_at-place_at :
    (size p m i : ℕ)
    → p < size
    → m + i < size
    → place_at size (place_at size p m) i ≡ place_at size p (m + i)
place_at-place_at size p m i h k = ground arith

place_at-ne : (size p i j : ℕ) → p < size → i < j → j < size → place_at size p j ≢ place_at size p i
place_at-ne size p i j h l k e = ground arith

-- No place.
pub no_place :
    (b : RcvBuffer) (t : PlayTime) → b.start_pos < b.size → Emptied b (record b { play_time = t }) 0
no_place b t h = record {
  start_eq = ground arith;
  emptied = λ i k. absurd (omega (arith, k));
  others = λ q f. refl;
  same_rest = refl;
}

module _ (b c d : RcvBuffer) (m n : ℕ) (inside : b.start_pos < b.size) (room : m + n < b.size)
    (x : Emptied b c m) (y : Emptied c d n) where
  size_eq : c.size ≡ b.size
  size_eq = ap (λ (e : RcvBuffer). e.size) x.same_rest

  later : (i : ℕ) → i < n → place_at c.size c.start_pos i ≡ place_at b.size b.start_pos (m + i)
  later i h =
      ap (λ s. place_at s c.start_pos i) size_eq
      ∙ ap (λ p. place_at b.size p i) x.start_eq
      ∙ place_at-place_at b.size b.start_pos m i inside (omega (arith, room, h))

  places_emptied : (i : ℕ) → i < m + n → d.unit (place_at b.size b.start_pos i) ≡ none
  places_emptied i h = elim (dec_lt i m) [
    | yes k ↦
        y.others (place_at b.size b.start_pos i) (λ j l e.
          place_at-ne b.size b.start_pos i (m + j) inside (omega (arith, k))
            (omega (arith, room, l)) (sym (later j l) ∙ e))
        ∙ x.emptied i k
    | no k ↦
        let e : m + (i - m) ≡ i = omega (arith, k) in
        ap d.unit
          (ap (place_at b.size b.start_pos) (sym e) ∙ sym (later (i - m) (omega (arith, h, k))))
        ∙ y.emptied (i - m) (omega (arith, h, k))
  ]

  -- First `m` places, and then `n` more.
  pub Emptied-trans : Emptied b d (m + n)
  Emptied-trans = record {
    start_eq =
        y.start_eq
        ∙ ap (λ s. place_at s c.start_pos n) size_eq
        ∙ ap (λ p. place_at b.size p n) x.start_eq
        ∙ place_at-place_at b.size b.start_pos m n inside room;
    emptied = places_emptied;
    others = λ q f.
        y.others q (λ i h e. f (m + i) (omega (arith, h)) (sym (later i h) ∙ e))
        ∙ x.others q (λ i h. f i (omega (arith, h)));
    same_rest =
        ap
          (λ (e : RcvBuffer). record e {
            unit = b.unit;
            start_pos = b.start_pos;
            good_count = b.good_count;
            bytes_count = b.bytes_count;
            acked_bytes_count = b.acked_bytes_count;
            acked_pkts_count = b.acked_pkts_count;
            play_time = b.play_time;
          })
          y.same_rest
        ∙ x.same_rest;
  }

pub Uncounted-trans :
    (b c d : RcvBuffer) (xs ys zs : List (Option RcvUnit)) (k : ℕ)
    → Uncounted b c xs ys (units ys)
    → Uncounted c d ys zs k
    → Uncounted b d xs zs k
Uncounted-trans b c d xs ys zs k x y = record {
  good_units = y.good_units ∙ x.good_units;
  bytes = y.bytes ∙ x.bytes;
  acked_bytes = y.acked_bytes ∙ x.acked_bytes;
  packets = y.packets ∙ x.packets;
}

pub Uncounted-refl :
    (b : RcvBuffer) (t : PlayTime) (xs : List (Option RcvUnit))
    → Uncounted b (record b { play_time = t }) xs xs (units xs)
Uncounted-refl b t xs = record {
  good_units = refl;
  bytes = refl;
  acked_bytes = refl;
  packets = refl;
}

-- One place, which is cleared.
pub one_place :
    (b c : RcvBuffer)
    → b.start_pos < b.size
    → c.unit ≡ set b.unit b.start_pos none
    → c.start_pos ≡ next_place b.size b.start_pos
    → record c {
      unit = b.unit;
      start_pos = b.start_pos;
      good_count = b.good_count;
      bytes_count = b.bytes_count;
      acked_bytes_count = b.acked_bytes_count;
      acked_pkts_count = b.acked_pkts_count;
      play_time = b.play_time;
    }
      ≡ b
    → Emptied b c 1
one_place b c h e f g =
    let z : place_at b.size b.start_pos 0 ≡ b.start_pos = ground (arith, h) in
    record {
      start_eq = f ∙ ground (arith, h);
      emptied = λ i k.
          let j : i ≡ 0 = omega (arith, k) in
          ap c.unit (ap (place_at b.size b.start_pos) j ∙ z)
          ∙ ap (λ a. a b.start_pos) e
          ∙ get-set_self b.unit b.start_pos none;
      others = λ q w.
          ap (λ a. a q) e ∙ get-set_ne b.unit b.start_pos q none (λ s. w 0 (omega arith) (z ∙ s));
      same_rest = g;
    }

-- A place that was empty.
pub pass_place-Emptied :
    (b : RcvBuffer) → b.start_pos < b.size → b.unit b.start_pos ≡ none → Emptied b (pass_place b) 1
pass_place-Emptied b h e =
    let z : place_at b.size b.start_pos 0 ≡ b.start_pos = ground (arith, h) in
    record {
      start_eq = ground (arith, h);
      emptied = λ i k.
          let j : i ≡ 0 = omega (arith, k) in
          ap b.unit (ap (place_at b.size b.start_pos) j ∙ z) ∙ e;
      others = λ q w. refl;
      same_rest = refl;
    }

pub minus_one_more : (z : ℤ) (k : ℕ) → z +ℤ neg (pos 1) -ℤ pos k ≡ z -ℤ pos (suc k)
minus_one_more (pos n) k = ground arith
minus_one_more (ℤ.negsuc n) k = ground arith

pub minus_one_more_sub : (z : ℤ) (k : ℕ) → z -ℤ pos 1 -ℤ pos k ≡ z -ℤ pos (suc k)
minus_one_more_sub (pos n) k = ground arith
minus_one_more_sub (ℤ.negsuc n) k = ground arith

pub minus_more : (z : ℤ) (n k : ℕ) → z +ℤ neg (pos n) -ℤ pos k ≡ z -ℤ pos (n + k)
minus_more (pos m) n k = ground arith
minus_more (ℤ.negsuc m) n k = ground arith

pub minus_some :
    (z : ℤ) (n k : ℕ)
    → (if ltb_ℤ (neg (pos n)) (pos 0) then z +ℤ neg (pos n) else z) -ℤ pos k ≡ z -ℤ pos (n + k)
minus_some (pos m) n k = ground arith
minus_some (ℤ.negsuc m) n k = ground arith

-- A unit that is given back.
pub free_unit-Uncounted :
    (b : RcvBuffer) (t : PlayTime) (u : RcvUnit) (xs : List (Option RcvUnit))
    → Uncounted b
        (free_unit (length u.data_bytes) (record b { play_time = t }))
        (some u ∷ xs)
        xs
        (units xs)
free_unit-Uncounted b t u xs = record {
  good_units = minus_one_more_sub b.good_count (units xs);
  bytes = minus_some b.bytes_count (length u.data_bytes) (bytes_in xs);
  acked_bytes = minus_more b.acked_bytes_count (length u.data_bytes) (bytes_in xs);
  packets = minus_one_more b.acked_pkts_count (units xs);
}
