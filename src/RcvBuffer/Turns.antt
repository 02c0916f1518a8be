-- ===== src/RcvBuffer/Turns.antt =====
-- The turns of the loop of `readBuffer` without delivery times.
use swift_srt.Base.{
  ℕ, zero, suc, ◌+◌, ◌-◌, ◌<◌, ◌≤◌, ◌≡◌, ◌≢◌, inl, refl, sym, ap, ◌∙◌, Bool, true, false, ◌||◌,
  none, List, [], ◌∷◌, ◌++◌, ltb, ◌==◌, set, length, drop, take, drop_append, drop_nil, take_all,
  append_nil, length-drop, arith, ℤ, pos, ◌-ℤ◌,
}
use swift_srt.RcvBuffer.{RcvUnit, Reading, Turn, next_place, copy_unit}
use swift_srt.RcvBuffer.Contents.{
  place_at, Holds, bytes_of, NotchFits, place_at-next, next_place_lt, set-Holds,
}

-- The loop has the units `us` in front of it.
pub record Loop (s : Reading) (us : List RcvUnit) : Type 0 where
  pub off : s.buffer.play_time.tsbpd_mode ≡ false
  pub inside : s.place < s.buffer.size
  pub room : length us < s.buffer.size
  pub last_eq : s.buffer.last_ack_pos ≡ place_at s.buffer.size s.place (length us)
  pub holds : Holds s.buffer.unit s.buffer.size s.place us
  pub notch_fits : NotchFits s.buffer.notch us

-- From `s`, with `us` in front, the loop comes to `t`, with `left` in front.
pub record Advances (s t : Reading) (us left : List RcvUnit) : Type 0 where
  pub loop : Loop t left
  pub copied_eq : t.copied ≡ s.copied ++ take s.rest (drop s.buffer.notch (bytes_of us))
  pub left_eq :
      drop t.buffer.notch (bytes_of left) ≡ drop s.rest (drop s.buffer.notch (bytes_of us))
  pub rest_eq : t.rest ≡ s.rest - length (drop s.buffer.notch (bytes_of us))
  pub fewer : length left ≤ length us
  pub freed : t.buffer.good_count ≡ s.buffer.good_count -ℤ pos (length us - length left)
  pub same_place : t.place ≡ place_at s.buffer.size s.place (length us - length left)
  pub emptied :
      (i : ℕ)
      → i < length us - length left
      → t.buffer.unit (place_at s.buffer.size s.place i) ≡ none
  pub same_units :
      (q : ℕ)
      → ((i : ℕ) → i < length us → place_at s.buffer.size s.place i ≢ q)
      → t.buffer.unit q ≡ s.buffer.unit q
  pub same_rest :
      record t.buffer {
        unit = s.buffer.unit;
        good_count = s.buffer.good_count;
        notch = s.buffer.notch;
      }
      ≡ s.buffer

pub sub_none : (z : ℤ) → z ≡ z -ℤ pos 0
sub_none (pos n) = ground arith
sub_none (ℤ.negsuc n) = ground arith

abbrev pub ended : Bool → Reading → Bool × Reading
ended b s = (b, s)

abbrev pub turned : Turn → Reading → Turn × Reading
turned k s = (k, s)

-- No turn, at the end or with nothing more to read.
stay :
    (s : Reading) (us : List RcvUnit)
    → Loop s us
    → take s.rest (drop s.buffer.notch (bytes_of us)) ≡ []
    → drop s.rest (drop s.buffer.notch (bytes_of us)) ≡ drop s.buffer.notch (bytes_of us)
    → s.rest ≡ s.rest - length (drop s.buffer.notch (bytes_of us))
    → Advances s s us us
stay s us v e f g = record {
  loop = v;
  copied_eq = sym (append_nil s.copied) ∙ ap (λ xs. s.copied ++ xs) (sym e);
  left_eq = sym f;
  rest_eq = g;
  fewer = omega arith;
  freed = sub_none s.buffer.good_count ∙ ap (λ k. s.buffer.good_count -ℤ pos k) (omega arith);
  same_place = ground (arith, v.inside);
  emptied = λ i h. absurd (omega (arith, h));
  same_units = λ q h. refl;
  same_rest = refl;
}

pub stay_empty : (s : Reading) → Loop s [] → Advances s s [] []
stay_empty s v =
    let e : drop s.buffer.notch (bytes_of []) ≡ [] = drop_nil s.buffer.notch in
    stay s [] v (ap (take s.rest) e ∙ take_nil s.rest)
      (ap (drop s.rest) e ∙ drop_nil s.rest ∙ sym e) (rw e (omega arith))
  where
    take_nil : (n : ℕ) → take {A = ℕ} n [] ≡ []
    take_nil zero = refl
    take_nil (suc n) = refl

pub stay_done : (s : Reading) (us : List RcvUnit) → Loop s us → s.rest ≡ 0 → Advances s s us us
stay_done s us v e =
    stay s us v (ap (λ k. take k (drop s.buffer.notch (bytes_of us))) e)
      (ap (λ k. drop k (drop s.buffer.notch (bytes_of us))) e) (omega (arith, e))

-- The bytes left of a unit.
abbrev pub left_of : RcvUnit → Reading → ℕ
left_of u s = length u.data_bytes - s.buffer.notch

abbrev pub consumed : RcvUnit → Reading → Reading
consumed u s = record {
  buffer = record s.buffer {
    unit = set s.buffer.unit s.place none;
    good_count = s.buffer.good_count -ℤ pos 1;
    notch = 0;
  };
  place = next_place s.buffer.size s.place;
  rest = s.rest - left_of u s;
  copied = s.copied ++ drop s.buffer.notch u.data_bytes;
}

abbrev pub part_read : RcvUnit → Reading → Reading
part_read u s = record {
  buffer = record s.buffer { notch = s.buffer.notch + s.rest };
  place = s.place;
  rest = s.rest - s.rest;
  copied = s.copied ++ take s.rest (drop s.buffer.notch u.data_bytes);
}

pub copy_unit-consumed :
    (u : RcvUnit) (s : Reading) → left_of u s ≤ s.rest → copy_unit u s ≡ consumed u s
unfolding copy_unit
copy_unit-consumed u s h =
    let e : ltb s.rest (left_of u s) ≡ false = ground arith in
    let f : (ltb (left_of u s) s.rest || s.rest == left_of u s) ≡ true = ground arith in
    rw
      (
        e,
        f,
        take_all (left_of u s) (drop s.buffer.notch u.data_bytes)
            (omega (arith, length-drop s.buffer.notch u.data_bytes)),
      )
      refl

pub copy_unit-part_read :
    (u : RcvUnit) (s : Reading) → s.rest < left_of u s → copy_unit u s ≡ part_read u s
unfolding copy_unit
copy_unit-part_read u s h =
    let e : ltb s.rest (left_of u s) ≡ true = ground arith in
    let f : (ltb s.rest s.rest || s.rest == left_of u s) ≡ false = ground arith in rw (e, f) refl

notch_le :
    (n : ℕ) (u : RcvUnit) (us : List RcvUnit) → NotchFits n (u ∷ us) → n ≤ length u.data_bytes
notch_le n u us h = ground arith

-- The content starts with the bytes left of the first unit.
pub content-eq :
    (n : ℕ) (u : RcvUnit) (us : List RcvUnit)
    → NotchFits n (u ∷ us)
    → drop n (bytes_of (u ∷ us)) ≡ drop n u.data_bytes ++ bytes_of us
content-eq n u us h =
    let z : n - length u.data_bytes ≡ 0 = omega (arith, notch_le n u us h) in
    drop_append n u.data_bytes (bytes_of us)
    ∙ ap (λ k. drop n u.data_bytes ++ drop k (bytes_of us)) z

pub apart : (size p i : ℕ) → p < size → i + 1 < size → place_at size (next_place size p) i ≢ p
apart size p i h k e = ground arith

pub consumed-Loop :
    (u : RcvUnit) (us : List RcvUnit) (s : Reading) → Loop s (u ∷ us) → Loop (consumed u s) us
unfolding Holds
consumed-Loop u us s v = record {
  off = v.off;
  inside = next_place_lt s.buffer.size s.place v.inside;
  room = omega (arith, v.room);
  last_eq =
      v.last_eq
      ∙ ap (place_at s.buffer.size s.place) (omega arith)
      ∙ sym (place_at-next s.buffer.size s.place (length us) v.inside (omega (arith, v.room)));
  holds =
      set-Holds s.buffer.unit s.buffer.size (next_place s.buffer.size s.place) s.place none us
        (next_place_lt s.buffer.size s.place v.inside) (omega (arith, v.room))
        (λ i l. apart s.buffer.size s.place i v.inside (omega (arith, v.room))) v.holds.1;
  notch_fits = zero_fits us;
}
  where
    zero_fits : (xs : List RcvUnit) → NotchFits 0 xs
    zero_fits [] = refl
    zero_fits (x ∷ xs) = inl refl
