-- ===== src/UnitQueue/Steps.antt =====
-- The life of a unit queue.
use swift_srt.Base.{ℕ, ◌<◌, ◌≡◌, Bool, true, false, Option, some, ap, ◌∙◌, sym, subst, arith}
use mathlib.Core.Option.{some-injective}
use swift_srt.RcvBuffer.{Flag}
use swift_srt.UnitQueue.{
  UnitQueue, unit_queue, init, is_free, get_next_avail_unit, make_unit_free, make_unit_good,
}
use swift_srt.UnitQueue.Count.{used_none}
use swift_srt.UnitQueue.Valid.{Valid, make_unit_free-Valid, make_unit_good-Valid}
use swift_srt.UnitQueue.Next.{get_next_avail_unit-Given}

-- A queue that `init` has made, of which units are asked for, taken if they are free, and given back if
-- they are in use.
pub data Reach (size : ℕ) : UnitQueue → Type 0 where
  made : Reach size (init true size unit_queue).1
  asked :
      (q : UnitQueue) (memory memory' : Bool) (o : Option (ℕ × ℕ)) (r : UnitQueue)
      → Reach size q
      → get_next_avail_unit memory memory' q ≡ some (o, r)
      → Reach size r
  taken :
      (q : UnitQueue) (k i : ℕ)
      → Reach size q
      → k < q.entries
      → i < q.entry_size
      → q.flag k i ≡ Flag.free
      → Reach size (make_unit_good k i q)
  returned :
      (q : UnitQueue) (k i : ℕ)
      → Reach size q
      → k < q.entries
      → i < q.entry_size
      → is_free (q.flag k i) ≡ false
      → Reach size (make_unit_free k i q)

init-Valid : (size : ℕ) → 0 < size → Valid (init true size unit_queue).1
unfolding init
init-Valid size h = record {
  entry_pos = h;
  curr_lt = omega arith;
  avail_lt = h;
  size_eq = omega arith;
  count_eq = omega (arith, used_none size);
}

-- A queue of at least one unit always stands at one of its units, its size is the number of its units, and
-- its count the number of those that are not free, however units are asked for, taken and given back.
pub Reach-Valid : (size : ℕ) (q : UnitQueue) → 0 < size → Reach size q → Valid q
Reach-Valid size q h Reach.made = init-Valid size h
Reach-Valid size w h (Reach.asked q memory memory' o r s e) =
    let (o', t, x, v, g) = get_next_avail_unit-Given memory memory' q (Reach-Valid size q h s) in
    subst Valid (ap (λ y. y.1) (some-injective (o', t) (o, r) (sym x ∙ e))) v
Reach-Valid size q h (Reach.taken p k i s a b e) =
    make_unit_good-Valid p k i (Reach-Valid size p h s) a b e
Reach-Valid size q h (Reach.returned p k i s a b e) =
    make_unit_free-Valid p k i (Reach-Valid size p h s) a b e
