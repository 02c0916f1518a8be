-- ===== src/UnitQueue/Valid.antt =====
-- The operations of `CUnitQueue` keep its count, its size and its place.
use swift_srt.Base.{
  ℕ, zero, suc, ◌+◌, ◌*◌, ◌≤◌, ◌<◌, ◌≡◌, refl, sym, ap, Bool, false, not, if◌then◌else◌, ltb, set,
  arith, Bool-cases, inl, inr, get-set_ne,
}
use swift_srt.RcvBuffer.{Flag}
use swift_srt.UnitQueue.{UnitQueue, is_free, real_count, increase, make_unit_free, make_unit_good}
use swift_srt.UnitQueue.Count.{weight, count_set, new_entry, add_mul}

-- The count is the number of units that are not free, and the size the number of all; the unit
-- `m_pAvailUnit` is one of them.
pub record Valid (q : UnitQueue) : Type 0 where
  pub entry_pos : 0 < q.entry_size
  pub curr_lt : q.curr < q.entries
  pub avail_lt : q.avail < q.entry_size
  pub size_eq : q.size ≡ q.entries * q.entry_size
  pub count_eq : q.count ≡ real_count q.flag q.entry_size q.entries

pub make_unit_good-Valid :
    (q : UnitQueue) (k i : ℕ)
    → Valid q
    → k < q.entries
    → i < q.entry_size
    → q.flag k i ≡ Flag.free
    → Valid (make_unit_good k i q)
unfolding make_unit_good
make_unit_good-Valid q k i v a b e = record {
  entry_pos = v.entry_pos;
  curr_lt = v.curr_lt;
  avail_lt = v.avail_lt;
  size_eq = v.size_eq;
  count_eq =
      omega
        (arith, v.count_eq, count_set q.flag q.entry_size q.entries k i Flag.good a b, ap weight e);
}

pub make_unit_free-Valid :
    (q : UnitQueue) (k i : ℕ)
    → Valid q
    → k < q.entries
    → i < q.entry_size
    → is_free (q.flag k i) ≡ false
    → Valid (make_unit_free k i q)
unfolding make_unit_free
make_unit_free-Valid q k i v a b e = record {
  entry_pos = v.entry_pos;
  curr_lt = v.curr_lt;
  avail_lt = v.avail_lt;
  size_eq = v.size_eq;
  count_eq = omega (
    arith,
    v.count_eq,
    count_set q.flag q.entry_size q.entries k i Flag.free a b,
    ap (λ (t : Bool). if t then zero else suc zero) e,
  );
}

counted-Valid :
    (q : UnitQueue)
    → Valid q
    → Valid (record q { count = real_count q.flag q.entry_size q.entries })
counted-Valid q v = record {
  entry_pos = v.entry_pos;
  curr_lt = v.curr_lt;
  avail_lt = v.avail_lt;
  size_eq = v.size_eq;
  count_eq = refl;
}

grown-Valid :
    (q : UnitQueue)
    → Valid q
    → Valid (record q {
      entries = q.entries + 1;
      flag = set q.flag q.entries (λ i. Flag.free);
      size = q.size + q.entry_size;
      count = real_count q.flag q.entry_size q.entries;
    })
grown-Valid q v = record {
  entry_pos = v.entry_pos;
  curr_lt = omega (arith, v.curr_lt);
  avail_lt = v.avail_lt;
  size_eq = omega (arith, v.size_eq, add_mul q.entries q.entry_size);
  count_eq = sym (new_entry q.flag q.entry_size q.entries);
}

pub increase-Valid : (memory : Bool) (q : UnitQueue) → Valid q → Valid (increase memory q).1
unfolding increase
increase-Valid memory q v =
    elim (Bool-cases (ltb (real_count q.flag q.entry_size q.entries * 10) (q.size * 9))) [
      | inl e ↦ rw e (counted-Valid q v)
      | inr e ↦ elim (Bool-cases (not memory)) [
        | inl f ↦ rw (e, f) (counted-Valid q v)
        | inr f ↦ rw (e, f) (grown-Valid q v)
      ]
    ]

-- What a new entry leaves as it is.
pub record Grown (q r : UnitQueue) : Type 0 where
  pub curr_eq : r.curr ≡ q.curr
  pub avail_eq : r.avail ≡ q.avail
  pub entry_size_eq : r.entry_size ≡ q.entry_size
  pub entries_le : q.entries ≤ r.entries
  pub flag_eq : (k : ℕ) → k < q.entries → r.flag k ≡ q.flag k

pub increase-Grown : (memory : Bool) (q : UnitQueue) → Grown q (increase memory q).1
unfolding increase
increase-Grown memory q =
    elim (Bool-cases (ltb (real_count q.flag q.entry_size q.entries * 10) (q.size * 9))) [
      | inl e ↦ rw e (record {
        curr_eq = refl;
        avail_eq = refl;
        entry_size_eq = refl;
        entries_le = omega arith;
        flag_eq = λ k l. refl;
      })
      | inr e ↦ elim (Bool-cases (not memory)) [
        | inl f ↦
            rw (e, f)
              (record {
                curr_eq = refl;
                avail_eq = refl;
                entry_size_eq = refl;
                entries_le = omega arith;
                flag_eq = λ k l. refl;
              })
        | inr f ↦
            rw (e, f)
              (record {
                curr_eq = refl;
                avail_eq = refl;
                entry_size_eq = refl;
                entries_le = omega arith;
                flag_eq =
                    λ k l. get-set_ne q.flag q.entries k (λ i. Flag.free) (λ p. omega (arith, p));
              })
      ]
    ]
