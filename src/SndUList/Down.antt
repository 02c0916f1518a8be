-- ===== src/SndUList/Down.antt =====
-- The loop of `remove_`: the node put in the free place sinks.
use swift_srt.Base.{
  ℕ, zero, suc, ◌+◌, ◌-◌, ◌*◌, ◌/◌, ◌<◌, ◌≤◌, ◌≡◌, ◌≢◌, ◌⊎◌, inl, inr, some, arith, ltb, leb, set,
  Bool-cases,
}
use swift_srt.SndUList.{SndUList, swap, sift_down, smaller_child}
use swift_srt.SndUList.Order.{IsHeap}

-- The order but for the children of `q`, which may be due before `q`, and not before its parent.
pub record IsSinking (l : SndUList) (q : ℕ) : Type 0 where
  pub almost :
      (i : ℕ)
      → 0 < i
      → i < l.count
      → (i - 1) / 2 ≢ q
      → l.time_stamp (l.heap ((i - 1) / 2)) ≤ l.time_stamp (l.heap i)
  pub grand :
      (i : ℕ)
      → 0 < i
      → i < l.count
      → (i - 1) / 2 ≡ q
      → 0 < q
      → l.time_stamp (l.heap ((q - 1) / 2)) ≤ l.time_stamp (l.heap i)

pub smaller_child_lem :
    (l : SndUList) (q : ℕ)
    → q * 2 + 2 ≤ l.count
    → let p = smaller_child l q in
      (0 < p)
      × (p < l.count)
      × ((p - 1) / 2 ≡ q)
      × (q < p)
      × ((i : ℕ)
          → 0 < i
          → i < l.count
          → (i - 1) / 2 ≡ q
          → l.time_stamp (l.heap p) ≤ l.time_stamp (l.heap i))
unfolding smaller_child
smaller_child_lem l q h =
    (ground arith, ground arith, ground arith, ground arith, λ i x y z. child i (either i x z) y)
  where
    either : (i : ℕ) → 0 < i → (i - 1) / 2 ≡ q → (i ≡ q * 2 + 1) ⊎ (i ≡ q * 2 + 1 + 1)
    either i x z = omega arith

    child :
        (i : ℕ)
        → ((i ≡ q * 2 + 1) ⊎ (i ≡ q * 2 + 1 + 1))
        → i < l.count
        → l.time_stamp (l.heap (smaller_child l q)) ≤ l.time_stamp (l.heap i)
    child i (inl e) y = rw e (ground arith)
    child i (inr e) y = rw e (ground arith)

-- One round of the loop, for the child `p`.
abbrev pub sink : SndUList → ℕ → ℕ → SndUList
sink l q p =
    let h = swap l.heap p q in
    record l { heap = h; heap_loc = set (set l.heap_loc (h p) (some p)) (h q) (some q) }

sink-IsSinking :
    (l : SndUList) (q : ℕ)
    → q * 2 + 2 ≤ l.count
    → l.time_stamp (l.heap (smaller_child l q)) < l.time_stamp (l.heap q)
    → IsSinking l q
    → IsSinking (sink l q (smaller_child l q)) (smaller_child l q)
sink-IsSinking l q b c s = go (smaller_child l q) (smaller_child_lem l q b) c
  where
    go :
        (p : ℕ)
        → (0 < p)
          × (p < l.count)
          × ((p - 1) / 2 ≡ q)
          × (q < p)
          × ((i : ℕ)
              → 0 < i
              → i < l.count
              → (i - 1) / 2 ≡ q
              → l.time_stamp (l.heap p) ≤ l.time_stamp (l.heap i))
        → l.time_stamp (l.heap p) < l.time_stamp (l.heap q)
        → IsSinking (sink l q p) p
    go p (p0, pc, pq, qp, least) c' = record {
      almost = λ i x y z. ground (arith, s.almost i, s.grand p, least i);
      grand = λ i x y z w. ground (arith, s.almost i);
    }

pub sift_down-IsHeap :
    (fuel : ℕ) (l : SndUList) (q : ℕ)
    → l.count ≤ q + fuel
    → IsSinking l q
    → IsHeap (sift_down fuel l q)
unfolding sift_down
sift_down-IsHeap zero l q f s = λ i x y. s.almost i x y (omega arith)
sift_down-IsHeap (suc fuel) l q f s = elim (Bool-cases (leb (q * 2 + 2) l.count)) [
  | inr low ↦ rw low (λ i x y. s.almost i x y (ground arith))
  | inl more ↦
      let c = smaller_child_lem l q (ground arith) in
      rw more
        (elim (Bool-cases
          (ltb (l.time_stamp (l.heap (smaller_child l q))) (l.time_stamp (l.heap q)))) [
            | inr fits ↦ rw fits (λ i x y. ground (arith, s.almost i, c.4 i))
            | inl late ↦ rw late (
                sift_down-IsHeap fuel (sink l q (smaller_child l q)) (smaller_child l q)
                  (omega (arith, c.3)) (sink-IsSinking l q (ground arith) (ground arith) s))
          ])
]
