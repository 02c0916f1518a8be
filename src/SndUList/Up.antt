-- ===== src/SndUList/Up.antt =====
-- `insert_norealloc_`: the new node rises to its place.
use swift_srt.Base.{
  ℕ, zero, suc, ◌-◌, ◌/◌, ◌<◌, ◌≤◌, ◌≡◌, ◌≢◌, inl, inr, some, arith, leb, ◌==◌, set, Bool-cases,
}
use swift_srt.SndUList.{SndUList, swap, sift_up}
use swift_srt.SndUList.Order.{IsHeap}

-- The order but for node `q`, which may be due before its parent; its children are not due before
-- that parent.
pub record IsRising (l : SndUList) (q : ℕ) : Type 0 where
  pub almost :
      (i : ℕ)
      → 0 < i
      → i < l.count
      → i ≢ q
      → l.time_stamp (l.heap ((i - 1) / 2)) ≤ l.time_stamp (l.heap i)
  pub grand :
      (i : ℕ)
      → 0 < i
      → i < l.count
      → (i - 1) / 2 ≡ q
      → 0 < q
      → l.time_stamp (l.heap ((q - 1) / 2)) ≤ l.time_stamp (l.heap i)

-- One round of the loop.
abbrev pub raise : SndUList → ℕ → SndUList
raise l q =
    let p = (q - 1) / 2 in
    let h = swap l.heap p q in record l { heap = h; heap_loc = set l.heap_loc (h q) (some q) }

raise-IsRising :
    (l : SndUList) (q : ℕ)
    → 0 < q
    → q < l.count
    → l.time_stamp (l.heap q) < l.time_stamp (l.heap ((q - 1) / 2))
    → IsRising l q
    → IsRising (raise l q) ((q - 1) / 2)
raise-IsRising l q a b c r = record {
  almost = λ i x y z. ground (arith, r.almost i, r.grand i);
  grand = λ i x y z w. ground (arith, r.almost i, r.almost ((q - 1) / 2));
}

pub sift_up-IsHeap :
    (fuel : ℕ) (l : SndUList) (q : ℕ)
    → q ≤ fuel
    → q < l.count
    → IsRising l q
    → IsHeap (sift_up fuel l q).0
unfolding sift_up
sift_up-IsHeap zero l q f b r = λ i x y. r.almost i x y (omega arith)
sift_up-IsHeap (suc fuel) l q f b r = elim (Bool-cases (q == 0)) [
  | inl top ↦ rw top (λ i x y. r.almost i x y (ground arith))
  | inr low ↦
      rw low
        (elim (Bool-cases (leb (l.time_stamp (l.heap ((q - 1) / 2))) (l.time_stamp (l.heap q)))) [
          | inl fits ↦ rw fits (λ i x y. ground (arith, r.almost i))
          | inr early ↦ rw early (
              sift_up-IsHeap fuel (raise l q) ((q - 1) / 2) (ground arith) (ground arith)
                (raise-IsRising l q (ground arith) b (ground arith) r))
        ])
]
