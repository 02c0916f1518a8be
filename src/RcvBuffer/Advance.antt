-- ===== src/RcvBuffer/Advance.antt =====
-- The whole loop of `readBuffer` without delivery times.
use swift_srt.Base.{
  ℕ, zero, suc, ◌+◌, ◌-◌, ◌<◌, ◌≤◌, ◌≡◌, ◌≢◌, inr, refl, sym, ap, ◌∙◌, true, false, ◌||◌, none,
  some, List, [], ◌∷◌, ◌++◌, ◌==◌, get-set_ne, get-set_self, length, drop, take, take_append,
  drop_append, drop-drop, take_all, drop_all, append_nil, append_assoc, length-drop, length-append,
  arith, dec_lt, ℕ_discrete, ℤ, pos, ◌-ℤ◌,
}
use swift_srt.RcvBuffer.{RcvUnit, RcvBuffer, Reading, go_on, copy_unit, read_turn, read_loop}
use swift_srt.RcvBuffer.Contents.{place_at, Holds, bytes_of, place_at-next}
use swift_srt.RcvBuffer.Turns.{
  sub_none, ended, turned, stay_empty, stay_done, left_of, consumed, part_read, copy_unit-consumed,
  copy_unit-part_read, content-eq, consumed-Loop, apart, Loop, Advances,
}

-- More than one unit at a time: all of `xs` and then some of `ys`.
take_whole :
    (n : ℕ) (xs ys : List ℕ) → length xs ≤ n → take n (xs ++ ys) ≡ xs ++ take (n - length xs) ys
take_whole n xs ys h =
    take_append n xs ys ∙ ap (λ zs. zs ++ take (n - length xs) ys) (take_all n xs h)

drop_whole : (n : ℕ) (xs ys : List ℕ) → length xs ≤ n → drop n (xs ++ ys) ≡ drop (n - length xs) ys
drop_whole n xs ys h =
    drop_append n xs ys ∙ ap (λ zs. zs ++ drop (n - length xs) ys) (drop_all n xs h)

-- The buffer with the changed fields as in the first one.
abbrev back : RcvBuffer → RcvBuffer → RcvBuffer
back b c = record c { unit = b.unit; good_count = b.good_count; notch = b.notch }

sub_more : (z : ℤ) (m n : ℕ) → n ≤ m → z -ℤ pos 1 -ℤ pos (m - n) ≡ z -ℤ pos (suc m - n)
sub_more (pos k) m n h = ground arith
sub_more (ℤ.negsuc k) m n h = ground arith

one_more : (m n : ℕ) → n ≤ m → m - n + 1 ≡ suc m - n
one_more m n h = omega arith

place_at_zero : (size p : ℕ) → p < size → place_at size p 0 ≡ p
place_at_zero size p h = ground arith

-- The place of the unit just used up, and those that the rest of the loop empties.
consumed_places :
    (u : RcvUnit) (us left : List RcvUnit) (s t : Reading)
    → Loop s (u ∷ us)
    → Advances (consumed u s) t us left
    → (i : ℕ) → i < suc (length us) - length left
    → t.buffer.unit (place_at s.buffer.size s.place i) ≡ none
consumed_places u us left s t v a zero h =
    ap t.buffer.unit (place_at_zero s.buffer.size s.place v.inside)
    ∙ a.same_units s.place
        (λ j k. apart s.buffer.size s.place j v.inside (omega (arith, k, v.room)))
    ∙ get-set_self s.buffer.unit s.place none
consumed_places u us left s t v a (suc i) h =
    ap t.buffer.unit (
      ap (place_at s.buffer.size s.place) (omega arith)
      ∙ sym (place_at-next s.buffer.size s.place i v.inside (omega (arith, h, v.room))))
    ∙ a.emptied i (omega (arith, h))

consumed_then :
    (u : RcvUnit) (us left : List RcvUnit) (s t : Reading)
    → Loop s (u ∷ us)
    → left_of u s ≤ s.rest
    → Advances (consumed u s) t us left
    → Advances s t (u ∷ us) left
consumed_then u us left s t v h a =
    let x = drop s.buffer.notch u.data_bytes in
    let l = length-drop s.buffer.notch u.data_bytes in
    let e = content-eq s.buffer.notch u us v.notch_fits in
    record {
      loop = a.loop;
      copied_eq =
          a.copied_eq
          ∙ append_assoc s.copied x (take (s.rest - left_of u s) (bytes_of us))
          ∙ ap (λ zs. s.copied ++ zs)
              (sym (
                ap (take s.rest) e
                ∙ take_whole s.rest x (bytes_of us) (omega (arith, l, h))
                ∙ ap (λ k. x ++ take (s.rest - k) (bytes_of us)) l));
      left_eq =
          a.left_eq
          ∙ sym (
              ap (drop s.rest) e
              ∙ drop_whole s.rest x (bytes_of us) (omega (arith, l, h))
              ∙ ap (λ k. drop (s.rest - k) (bytes_of us)) l);
      rest_eq = omega (arith, a.rest_eq, ap length e, length-append x (bytes_of us), l);
      fewer = omega (arith, a.fewer);
      freed = a.freed ∙ sub_more s.buffer.good_count (length us) (length left) a.fewer;
      same_place =
          a.same_place
          ∙ place_at-next s.buffer.size s.place (length us - length left) v.inside
              (omega (arith, v.room))
          ∙ ap (place_at s.buffer.size s.place) (one_more (length us) (length left) a.fewer);
      emptied = consumed_places u us left s t v a;
      same_units = λ q f.
          a.same_units q (λ i k y.
            f (i + 1) (omega arith)
              (sym (place_at-next s.buffer.size s.place i v.inside (omega (arith, v.room))) ∙ y))
          ∙ get-set_ne s.buffer.unit s.place q none
              (λ y. f 0 (omega arith) (place_at_zero s.buffer.size s.place v.inside ∙ y));
      same_rest = ap (back s.buffer) a.same_rest;
    }

part_then :
    (u : RcvUnit) (us : List RcvUnit) (s : Reading)
    → Loop s (u ∷ us)
    → s.rest < left_of u s
    → Advances s (part_read u s) (u ∷ us) (u ∷ us)
part_then u us s v h =
    let x = drop s.buffer.notch u.data_bytes in
    let l = length-drop s.buffer.notch u.data_bytes in
    let e = content-eq s.buffer.notch u us v.notch_fits in
    record {
      loop = record {
        off = v.off;
        inside = v.inside;
        room = v.room;
        last_eq = v.last_eq;
        holds = v.holds;
        notch_fits = inr (omega arith);
      };
      copied_eq =
          ap (λ zs. s.copied ++ zs)
            (sym (
              ap (take s.rest) e
              ∙ take_append s.rest x (bytes_of us)
              ∙ ap (λ k. take s.rest x ++ take k (bytes_of us))
                  (none_over s.rest (length x) (omega (arith, l)))
              ∙ append_nil (take s.rest x)));
      left_eq = sym (drop-drop s.rest s.buffer.notch (bytes_of (u ∷ us)));
      rest_eq = omega (arith, ap length e, length-append x (bytes_of us), l);
      fewer = omega arith;
      freed = sub_none s.buffer.good_count ∙ ap (λ k. s.buffer.good_count -ℤ pos k) (omega arith);
      same_place = ground (arith, v.inside);
      emptied = λ i f. absurd (omega (arith, f));
      same_units = λ q f. refl;
      same_rest = refl;
    }
  where
    none_over : (m n : ℕ) → m < n → m - n ≡ 0
    none_over m n h = omega arith

turn_off :
    (now : ℕ) (u : RcvUnit) (s : Reading)
    → s.buffer.play_time.tsbpd_mode ≡ false
    → read_turn now (some u) s ≡ turned go_on (copy_unit u s)
unfolding read_turn
turn_off now u s e = rw e refl

-- The loop with nothing more to read.
nothing_left : (n now : ℕ) (s : Reading) → s.rest ≡ 0 → read_loop n now s ≡ ended true s
unfolding read_loop
nothing_left zero now s e = refl
nothing_left (suc n) now s e =
    let f : (s.place == s.buffer.last_ack_pos || s.rest == 0) ≡ true = ground (arith, e) in
    rw f refl

one_turn :
    (n now : ℕ) (u : RcvUnit) (us : List RcvUnit) (s : Reading)
    → Loop s (u ∷ us)
    → s.rest ≢ 0
    → read_loop (suc n) now s ≡ read_loop n now (copy_unit u s)
unfolding read_loop Holds
one_turn n now u us s v h =
    let f : (s.place == s.buffer.last_ack_pos || s.rest == 0) ≡ false =
      ground (arith, v.last_eq, v.room, v.inside, h) in
    rw (f, v.holds.0, turn_off now u s v.off) refl

end_of_units : (now : ℕ) (s : Reading) → read_loop 0 now s ≡ ended true s
unfolding read_loop
end_of_units now s = refl

-- The loop, with a turn for every unit: it goes through.
pub read_loop-Advances :
    (now : ℕ) (us : List RcvUnit) (s : Reading)
    → Loop s us
    → (t : Reading) × (left : List RcvUnit) × (read_loop (length us) now s ≡ ended true t)
      × Advances s t us left
read_loop-Advances now [] s v = (s, [], end_of_units now s, stay_empty s v)
read_loop-Advances now (u ∷ us) s v = elim (ℕ_discrete s.rest 0) [
  | yes z ↦ (s, u ∷ us, nothing_left (suc (length us)) now s z, stay_done s (u ∷ us) v z)
  | no z ↦ elim (dec_lt s.rest (left_of u s)) [
    | yes l ↦ (
      part_read u s,
      u ∷ us,
      one_turn (length us) now u us s v z
          ∙ ap (read_loop (length us) now) (copy_unit-part_read u s l)
          ∙ nothing_left (length us) now (part_read u s) (omega arith),
      part_then u us s v l,
    )
    | no l ↦
        let (t, left, e, a) = read_loop-Advances now us (consumed u s) (consumed-Loop u us s v) in
        (
          t,
          left,
          one_turn (length us) now u us s v z
              ∙ ap (read_loop (length us) now) (copy_unit-consumed u s (omega arith))
              ∙ e,
          consumed_then u us left s t v (omega arith) a,
        )
  ]
]
