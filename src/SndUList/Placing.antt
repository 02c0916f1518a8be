-- ===== src/SndUList/Placing.antt =====
-- The places of the nodes during the loop of `insert_norealloc_`.
use swift_srt.Base.{
  ℕ, zero, suc, ◌-◌, ◌/◌, ◌<◌, ◌≡◌, ◌≢◌, ◌↔◌, inl, inr, refl, none, some, arith, leb, ◌==◌,
  Bool-cases, ◌∙◌,
}
use swift_srt.SndUList.{SndUList, sift_up}
use swift_srt.SndUList.Up.{raise}

-- Every node but `n`, which is at `q`, knows its place.
pub record IsPlacing (n : ℕ) (l : SndUList) (q : ℕ) : Type 0 where
  pub within : q < l.count
  pub here : l.heap q ≡ n
  pub placed : (i : ℕ) → i < l.count → i ≢ q → (l.heap_loc (l.heap i) ≡ some i) × (l.heap i ≢ n)
  pub present : (m i : ℕ) → m ≢ n → l.heap_loc m ≡ some i → (i < l.count) × (i ≢ q) × (l.heap i ≡ m)

raise-IsPlacing :
    (n : ℕ) (l : SndUList) (q : ℕ) → 0 < q → IsPlacing n l q → IsPlacing n (raise l q) ((q - 1) / 2)
raise-IsPlacing n l q a v = record {
  within = ground (arith, v.within);
  here = ground (arith, v.here);
  placed = λ i x y. ground (arith, v.placed i, v.placed ((q - 1) / 2), v.here, v.within);
  present = λ m i x y. ground (arith, v.present m i, v.placed ((q - 1) / 2), v.here, v.within);
}

pub sift_up-IsPlacing :
    (n fuel : ℕ) (l : SndUList) (q : ℕ)
    → IsPlacing n l q
    → let (l', q') = sift_up fuel l q in IsPlacing n l' q'
unfolding sift_up
sift_up-IsPlacing n zero l q v = v
sift_up-IsPlacing n (suc fuel) l q v = elim (Bool-cases (q == 0)) [
  | inl top ↦ rw top v
  | inr low ↦
      rw low
        (elim (Bool-cases (leb (l.time_stamp (l.heap ((q - 1) / 2))) (l.time_stamp (l.heap q)))) [
          | inl fits ↦ rw fits v
          | inr early ↦ rw early (
              sift_up-IsPlacing n fuel (raise l q) ((q - 1) / 2)
                (raise-IsPlacing n l q (ground arith) v))
        ])
]

-- The loop leaves the other fields alone, and who is in the heap.
pub record SameNodes (n : ℕ) (l l' : SndUList) : Type 0 where
  pub count_eq : l'.count ≡ l.count
  pub time_eq : l'.time_stamp ≡ l.time_stamp
  pub array_eq : l'.array_length ≡ l.array_length
  pub absent : (m : ℕ) → m ≢ n → l'.heap_loc m ≡ none ↔ l.heap_loc m ≡ none

SameNodes-refl : (n : ℕ) (l : SndUList) → SameNodes n l l
SameNodes-refl n l = record {
  count_eq = refl;
  time_eq = refl;
  array_eq = refl;
  absent = λ m h. (λ e. e, λ e. e);
}

SameNodes-trans : (n : ℕ) (a b c : SndUList) → SameNodes n a b → SameNodes n b c → SameNodes n a c
SameNodes-trans n a b c x y = record {
  count_eq = y.count_eq ∙ x.count_eq;
  time_eq = y.time_eq ∙ x.time_eq;
  array_eq = y.array_eq ∙ x.array_eq;
  absent = λ m h.
      (λ e. (x.absent m h).0 ((y.absent m h).0 e), λ e. (y.absent m h).1 ((x.absent m h).1 e));
}

raise-SameNodes :
    (n : ℕ) (l : SndUList) (q : ℕ) → 0 < q → IsPlacing n l q → SameNodes n l (raise l q)
raise-SameNodes n l q a v = record {
  count_eq = refl;
  time_eq = refl;
  array_eq = refl;
  absent = λ m h. (
    λ e. ground (arith, v.placed ((q - 1) / 2), v.within),
    λ e. ground (arith, v.placed ((q - 1) / 2), v.within),
  );
}

pub sift_up-SameNodes :
    (n fuel : ℕ) (l : SndUList) (q : ℕ) → IsPlacing n l q → SameNodes n l (sift_up fuel l q).0
unfolding sift_up
sift_up-SameNodes n zero l q v = SameNodes-refl n l
sift_up-SameNodes n (suc fuel) l q v = elim (Bool-cases (q == 0)) [
  | inl top ↦ rw top (SameNodes-refl n l)
  | inr low ↦
      rw low
        (elim (Bool-cases (leb (l.time_stamp (l.heap ((q - 1) / 2))) (l.time_stamp (l.heap q)))) [
          | inl fits ↦ rw fits (SameNodes-refl n l)
          | inr early ↦ rw early (
              SameNodes-trans n l (raise l q) _ (raise-SameNodes n l q (ground arith) v) (
                sift_up-SameNodes n fuel (raise l q) ((q - 1) / 2)
                  (raise-IsPlacing n l q (ground arith) v)))
        ])
]
