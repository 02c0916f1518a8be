-- ===== src/UnitQueue/Tests.antt =====
-- A unit queue of three units.
use swift_srt.Base.{ℕ, ◌≡◌, refl, true, Option, some, none, arith}
use swift_srt.RcvBuffer.{Flag}
use swift_srt.UnitQueue.{
  UnitQueue, unit_queue, init, scan, find_unit, make_room, increase, get_next_avail_unit,
  make_unit_good, after_find,
}
use swift_srt.UnitQueue.Valid.{Valid}
use swift_srt.UnitQueue.Next.{Given, get_next_avail_unit-Given}
use swift_srt.UnitQueue.Steps.{Reach, Reach-Valid}

abbrev three : UnitQueue
three = record {
  entries = 1;
  entry_size = 3;
  flag = λ k i. Flag.free;
  curr = 0;
  avail = 0;
  size = 3;
  count = 0;
}

three-Valid : Valid three
three-Valid = record {
  entry_pos = omega arith;
  curr_lt = omega arith;
  avail_lt = omega arith;
  size_eq = refl;
  count_eq = refl;
}

get_next_avail_unit-Given_example :
    (o : Option (ℕ × ℕ)) × (r : UnitQueue) × (get_next_avail_unit true true three ≡ some (o, r))
    × Valid r
    × Given three o r
get_next_avail_unit-Given_example = get_next_avail_unit-Given true true three three-Valid

-- The first unit and then the second are taken.
one_taken : Reach 3 (make_unit_good 0 0 (init true 3 unit_queue).1)
unfolding init
one_taken = Reach.taken (init true 3 unit_queue).1 0 0 Reach.made (omega arith) (omega arith) refl

two_taken : Reach 3 (make_unit_good 0 1 (make_unit_good 0 0 (init true 3 unit_queue).1))
unfolding init make_unit_good
two_taken =
    Reach.taken (make_unit_good 0 0 (init true 3 unit_queue).1) 0 1 one_taken (omega arith)
      (omega arith) refl

Reach-Valid_example : Valid (make_unit_good 0 1 (make_unit_good 0 0 (init true 3 unit_queue).1))
Reach-Valid_example =
    Reach-Valid 3 (make_unit_good 0 1 (make_unit_good 0 0 (init true 3 unit_queue).1)) (omega arith)
      two_taken

-- With the first two units in use the third is free, and none is given out.
last_kept :
    get_next_avail_unit true true (make_unit_good 0 1 (make_unit_good 0 0 three))
    ≡ some (none, record (make_unit_good 0 1 (make_unit_good 0 0 three)) { curr = 0; avail = 0 })
unfolding get_next_avail_unit make_room find_unit scan after_find increase make_unit_good
last_kept = refl
