-- ===== src/RcvBuffer/Shortened.antt =====
-- The acknowledged places of `CRcvBuffer` with some taken off at the front, by a turn of the loop of
-- `getRcvReadyMsg` or by several.
use swift_srt.Base.{
  ℕ, ◌+◌, ◌-◌, ◌<◌, ◌≤◌, ◌≡◌, refl, subst, Option, none, some, List, ◌∷◌, length, arith,
}
use swift_srt.PlayTime.{PlayTime}
use swift_srt.RcvBuffer.{RcvUnit, RcvBuffer}
use swift_srt.RcvBuffer.Ready.{pass_place, free_unit}
use swift_srt.RcvBuffer.Emptied.{
  units, Emptied, Uncounted, no_place, Emptied-trans, Uncounted-trans, Uncounted-refl, one_place,
  pass_place-Emptied, free_unit-Uncounted,
}

-- From `b`, with the places `xs`, to `c`, with the last of them, `ys`: both of the above.
pub record Shortened (b c : RcvBuffer) (xs ys : List (Option RcvUnit)) (k : ℕ) : Type 0 where
  pub fewer : length ys ≤ length xs
  pub cleared : Emptied b c (length xs - length ys)
  pub counted : Uncounted b c xs ys k

pub Shortened-trans :
    (b c d : RcvBuffer) (xs ys zs : List (Option RcvUnit)) (k : ℕ)
    → b.start_pos < b.size
    → length xs < b.size
    → Shortened b c xs ys (units ys)
    → Shortened c d ys zs k
    → Shortened b d xs zs k
Shortened-trans b c d xs ys zs k h r x y =
    let e : length xs - length ys + (length ys - length zs) ≡ length xs - length zs =
      omega (arith, x.fewer, y.fewer) in
    record {
      fewer = omega (arith, x.fewer, y.fewer);
      cleared = subst (Emptied b d) e (
          Emptied-trans b c d (length xs - length ys) (length ys - length zs) h
            (omega (arith, e, r)) x.cleared y.cleared);
      counted = Uncounted-trans b c d xs ys zs k x.counted y.counted;
    }

none_less : (xs : List (Option RcvUnit)) → 0 ≡ length xs - length xs
none_less xs = omega arith

one_less : (x : Option RcvUnit) (xs : List (Option RcvUnit)) → 1 ≡ length (x ∷ xs) - length xs
one_less x xs = omega arith

pub Shortened-refl :
    (b : RcvBuffer) (t : PlayTime) (xs : List (Option RcvUnit))
    → b.start_pos < b.size
    → Shortened b (record b { play_time = t }) xs xs (units xs)
Shortened-refl b t xs h = record {
  fewer = omega arith;
  cleared = subst (Emptied b (record b { play_time = t })) (none_less xs) (no_place b t h);
  counted = Uncounted-refl b t xs;
}

pub pass_place-Shortened :
    (b : RcvBuffer) (xs : List (Option RcvUnit))
    → b.start_pos < b.size
    → b.unit b.start_pos ≡ none
    → Shortened b (pass_place b) (none ∷ xs) xs (units xs)
pass_place-Shortened b xs h e = record {
  fewer = omega arith;
  cleared = subst (Emptied b (pass_place b)) (one_less none xs) (pass_place-Emptied b h e);
  counted = record { good_units = refl; bytes = refl; acked_bytes = refl; packets = refl };
}

pub one_unit_less :
    (b c : RcvBuffer) (u : RcvUnit) (xs : List (Option RcvUnit)) (k : ℕ)
    → Emptied b c 1
    → Uncounted b c (some u ∷ xs) xs k
    → Shortened b c (some u ∷ xs) xs k
one_unit_less b c u xs k x y = record {
  fewer = omega arith;
  cleared = subst (Emptied b c) (one_less (some u) xs) x;
  counted = y;
}

pub free_unit-Shortened :
    (b : RcvBuffer) (t : PlayTime) (u : RcvUnit) (xs : List (Option RcvUnit))
    → b.start_pos < b.size
    → Shortened b
        (free_unit (length u.data_bytes) (record b { play_time = t }))
        (some u ∷ xs)
        xs
        (units xs)
free_unit-Shortened b t u xs h = record {
  fewer = omega arith;
  cleared =
      subst (Emptied b (free_unit (length u.data_bytes) (record b { play_time = t })))
        (one_less (some u) xs)
        (one_place b (free_unit (length u.data_bytes) (record b { play_time = t })) h refl refl
          refl);
  counted = free_unit-Uncounted b t u xs;
}
