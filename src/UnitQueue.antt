-- ===== src/UnitQueue.antt =====
-- `CUnitQueue` of Sources/CSRT/queue.cpp: the units for packets that come in, in a ring of queues of the
-- same size.
pub mod Find
pub mod Count
pub mod Valid
pub mod Next
pub mod Steps
mod Tests
use swift_srt.Base.{
  ℕ, zero, suc, ◌+◌, ◌-◌, ◌*◌, Bool, true, false, not, Option, none, some, if◌then◌else◌, ltb, leb,
  ◌==◌, set, ℤ, pos, minus_one,
}
use swift_srt.RcvBuffer.{Flag}

-- The entries have the numbers from 0 (`m_pQEntry`) to `entries - 1` (`m_pLastQueue`), and `m_pNext` of
-- the last is the first. The unit `m_pAvailUnit` is the one at `avail` of the entry `curr`.
pub record UnitQueue : Type 0 where
  pub entries : ℕ
  pub entry_size : ℕ
  pub flag : ℕ → ℕ → Flag
  pub curr : ℕ
  pub avail : ℕ
  pub size : ℕ
  pub count : ℕ

-- `CUnitQueue`
abbrev pub unit_queue : UnitQueue
unit_queue = record {
  entries = 0;
  entry_size = 0;
  flag = λ q i. Flag.free;
  curr = 0;
  avail = 0;
  size = 0;
  count = 0;
}

-- `init`; `memory` says whether the allocation succeeds.
unfoldable pub init : Bool → ℕ → UnitQueue → ℤ × UnitQueue
init memory size q =
    if memory
    then (
      pos 0,
      record q {
        entries = 1;
        entry_size = size;
        flag = λ k i. Flag.free;
        curr = 0;
        avail = 0;
        size = size;
      },
    )
    else (minus_one, q)

abbrev pub is_free : Flag → Bool
is_free Flag.free = true
is_free Flag.good = false
is_free Flag.passack = false
is_free Flag.dropped = false

-- The units of one entry that are not free.
abbrev pub used_in : (ℕ → Flag) → ℕ → ℕ
used_in f zero = 0
used_in f (suc n) = let rest = used_in f n in if is_free (f n) then rest else rest + 1

-- The first loop of `increase`, over `m` entries of `n` units.
abbrev pub real_count : (ℕ → ℕ → Flag) → ℕ → ℕ → ℕ
real_count f n zero = 0
real_count f n (suc m) = real_count f n m + used_in (f m) n

-- `increase`. The quotient of doubles is less than 0.9 exactly when the one of the numbers is.
unfoldable pub increase : Bool → UnitQueue → ℤ × UnitQueue
increase memory q =
    let c = real_count q.flag q.entry_size q.entries in
    let r = record q { count = c } in
    if ltb (c * 10) (q.size * 9) then (minus_one, r) else if not memory then (minus_one, r) else (
      pos 0,
      record r {
        entries = q.entries + 1;
        flag = set q.flag q.entries (λ i. Flag.free);
        size = q.size + q.entry_size;
      },
    )

-- The inner loop of `getNextAvailUnit`: whether it finds a free unit, and where it stops.
unfoldable pub scan : ℕ → (ℕ → Flag) → ℕ → Bool × ℕ
scan zero f i = (false, i)
scan (suc n) f i = let rest = scan n f (i + 1) in if is_free (f i) then (true, i) else rest

-- `m_pNext`
abbrev pub next_entry : UnitQueue → ℕ
next_entry q = if q.curr + 1 == q.entries then 0 else q.curr + 1

-- The outer loop of `getNextAvailUnit`, with fuel: the unit, as its entry and place, and the queue.
unfoldable pub find_unit : ℕ → ℕ → UnitQueue → Option (Option (ℕ × ℕ) × UnitQueue)
unfolding scan
find_unit zero entrance q = none
find_unit (suc n) entrance q =
    let (found, i) = scan (q.entry_size - 1 - q.avail) (q.flag q.curr) q.avail in
    let next = record q { curr = next_entry q; avail = 0 } in
    let rest = find_unit n entrance next in
    if found
    then some (some (q.curr, i), record q { avail = i })
    else if is_free (q.flag q.curr 0)
    then some (some (q.curr, 0), record q { avail = 0 })
    else if next.curr == entrance
    then some (none, next)
    else rest

-- `getNextAvailUnit` behind its loop.
unfoldable pub after_find :
    Bool → Option (Option (ℕ × ℕ) × UnitQueue) → Option (Option (ℕ × ℕ) × UnitQueue)
unfolding increase
after_find memory none = none
after_find memory (some (some u, q)) = some (some u, q)
after_find memory (some (none, q)) = some (none, (increase memory q).1)

-- The first statement of `getNextAvailUnit`.
unfoldable pub make_room : Bool → UnitQueue → UnitQueue
unfolding increase
make_room memory q = if ltb (q.size * 9) (q.count * 10) then (increase memory q).1 else q

-- `getNextAvailUnit`; the two flags say whether the allocations of `increase` would succeed. The fuel is
-- the number of entries.
unfoldable pub get_next_avail_unit : Bool → Bool → UnitQueue → Option (Option (ℕ × ℕ) × UnitQueue)
unfolding make_room find_unit after_find
get_next_avail_unit memory memory' q =
    let r = make_room memory q in
    if leb r.size r.count then some (none, r) else after_find memory' (find_unit r.entries r.curr r)

-- A unit of an entry with another flag.
abbrev pub with_flag : (ℕ → ℕ → Flag) → ℕ → ℕ → Flag → ℕ → ℕ → Flag
with_flag f k i v = set f k (set (f k) i v)

-- `makeUnitFree`, of a unit in use, so that the count is not 0.
unfoldable pub make_unit_free : ℕ → ℕ → UnitQueue → UnitQueue
make_unit_free k i q = record q { flag = with_flag q.flag k i Flag.free; count = q.count - 1 }

-- `makeUnitGood`
unfoldable pub make_unit_good : ℕ → ℕ → UnitQueue → UnitQueue
make_unit_good k i q = record q { flag = with_flag q.flag k i Flag.good; count = q.count + 1 }
