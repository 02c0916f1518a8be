-- ===== src/UnitQueue/Next.antt =====
-- What `getNextAvailUnit` gives, and that it does.
use swift_srt.Base.{
  ℕ, ◌*◌, ◌≤◌, ◌<◌, ◌≡◌, refl, sym, ap, ◌∙◌, subst, Bool, true, false, Option, none, some, ltb, leb,
  arith, Bool-cases, inl, inr, if_true, if_false,
}
use swift_srt.RcvBuffer.{Flag}
use swift_srt.UnitQueue.{
  UnitQueue, is_free, real_count, increase, make_room, after_find, get_next_avail_unit,
}
use swift_srt.UnitQueue.Find.{Looked, Ahead, Outcome, find_unit-Outcome}
use swift_srt.UnitQueue.Count.{all_used}
use swift_srt.UnitQueue.Valid.{Valid, Grown, increase-Valid, increase-Grown}

make_room-Valid : (memory : Bool) (q : UnitQueue) → Valid q → Valid (make_room memory q)
unfolding make_room
make_room-Valid memory q v = elim (Bool-cases (ltb (q.size * 9) (q.count * 10))) [
  | inl e ↦ subst Valid (sym (if_true _ _ e)) (increase-Valid memory q v)
  | inr e ↦ subst Valid (sym (if_false _ _ e)) v
]

make_room-Grown : (memory : Bool) (q : UnitQueue) → Grown q (make_room memory q)
unfolding make_room
make_room-Grown memory q = elim (Bool-cases (ltb (q.size * 9) (q.count * 10))) [
  | inl e ↦ subst (Grown q) (sym (if_true _ _ e)) (increase-Grown memory q)
  | inr e ↦ subst (Grown q) (sym (if_false _ _ e)) (record {
    curr_eq = refl;
    avail_eq = refl;
    entry_size_eq = refl;
    entries_le = omega arith;
    flag_eq = λ k l. refl;
  })
]

-- A unit that is given out is a free one, at which the queue stands. Where none is, every unit of `q` is in
-- use, but for the last one of an entry and those before `m_pAvailUnit` in its entry.
abbrev pub Given : UnitQueue → Option (ℕ × ℕ) → UnitQueue → Type 0
Given q (some (k, i)) r =
    (k < r.entries) × (i < r.entry_size) × (r.flag k i ≡ Flag.free) × (r.curr ≡ k) × (r.avail ≡ i)
Given q none r =
    (k i : ℕ)
    → k < q.entries
    → i < q.entry_size
    → Looked q.entry_size q.curr q.avail k i
    → is_free (q.flag k i) ≡ false

at_unit :
    (q : UnitQueue) (k i : ℕ)
    → Valid q
    → k < q.entries
    → i < q.entry_size
    → Valid (record q { curr = k; avail = i })
at_unit q k i v a b = record {
  entry_pos = v.entry_pos;
  curr_lt = a;
  avail_lt = b;
  size_eq = v.size_eq;
  count_eq = v.count_eq;
}

leb_le : (a b : ℕ) → leb a b ≡ true → a ≤ b
leb_le a b h = ground arith

-- The units of the queue before it grew.
before :
    (q r : UnitQueue)
    → Grown q r
    → ((k i : ℕ)
        → k < r.entries
        → i < r.entry_size
        → Looked r.entry_size r.curr r.avail k i
        → is_free (r.flag k i) ≡ false)
    → Given q none r
before q r g h k i a b look =
    subst (λ f. is_free (f i) ≡ false) (g.flag_eq k a)
      (h k i (omega (arith, a, g.entries_le)) (omega (arith, b, g.entry_size_eq)) (
        subst (λ n. Looked n r.curr r.avail k i) (sym g.entry_size_eq)
          (subst (λ c. Looked q.entry_size c r.avail k i) (sym g.curr_eq)
            (subst (λ t. Looked q.entry_size q.curr t k i) (sym g.avail_eq) look))))

full_count :
    (r : UnitQueue)
    → Valid r
    → leb r.size r.count ≡ true
    → r.entries * r.entry_size ≤ real_count r.flag r.entry_size r.entries
full_count r w e = omega (arith, w.size_eq, w.count_eq, leb_le r.size r.count e)

all-Ahead : (e c k : ℕ) → k < e → c < e → Ahead e c e k
all-Ahead e c k a b = (a, ground arith)

found-Given :
    (memory : Bool) (q r : UnitQueue) (o : Option (ℕ × ℕ)) (s : UnitQueue)
    → Grown q r
    → Valid r
    → Outcome r r.entries o s
    → (t : UnitQueue) × (after_find memory (some (o, s)) ≡ some (o, t)) × Valid t × Given q o t
unfolding after_find
found-Given memory q r o s g v (Outcome.found k i a b e) =
    (record r { curr = k; avail = i }, refl, at_unit r k i v a b, (a, b, e, refl, refl))
found-Given memory q r o s g v (Outcome.full c a u) = (
  (increase memory (record r { curr = c; avail = 0 })).1,
  refl,
  increase-Valid memory (record r { curr = c; avail = 0 }) (at_unit r c 0 v a v.entry_pos),
  before q r g (λ k i x y look. u k i (all-Ahead r.entries r.curr k x v.curr_lt) look),
)

-- `getNextAvailUnit` of a valid queue ends, with as many rounds as there are entries, and leaves a valid
-- queue. Either it gives a unit that is free, at which the queue then stands; or it gives none, and then
-- every unit is in use, but for the last unit of an entry of several and, in the entry where it started,
-- those before `m_pAvailUnit` behind the first.
pub get_next_avail_unit-Given :
    (memory memory' : Bool) (q : UnitQueue)
    → Valid q
    → (o : Option (ℕ × ℕ)) × (r : UnitQueue) × (get_next_avail_unit memory memory' q ≡ some (o, r))
      × Valid r
      × Given q o r
unfolding get_next_avail_unit
get_next_avail_unit-Given memory memory' q v =
    let r = make_room memory q in
    let w = make_room-Valid memory q v in
    let g = make_room-Grown memory q in
    elim (Bool-cases (leb r.size r.count)) [
      | inl e ↦ (
        none,
        r,
        if_true _ _ e,
        w,
        before q r g
            (λ k i a b look. all_used r.flag r.entry_size r.entries k i (full_count r w e) a b),
      )
      | inr e ↦
          let (o, s, x, y) =
            find_unit-Outcome r.entries r.curr r w.curr_lt w.avail_lt w.curr_lt
              (omega (arith, w.curr_lt)) (omega arith) (inr refl) in
          let (t, z, u, d) = found-Given memory' q r o s g w y in
          (o, t, if_false _ _ e ∙ ap (after_find memory') x ∙ z, u, d)
    ]
