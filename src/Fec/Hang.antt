-- ===== src/Fec/Hang.antt =====
-- `HangHorizontal` with one row, and the tests of the receiver.
use swift_srt.Base.{
  ℕ, zero, suc, ◌+◌, ◌≤◌, ◌<◌, ◌≡◌, refl, ap, ◌∙◌, ◌&&◌, ◌||◌, not, Bool, true, false, some, [],
  ◌∷◌, arith, ℤ, pos, pos_part, ltb_ℤ, leb, ◌==◌, leb_of_lt, Bool-cases, inl, inr, ℕ_discrete,
}
use swift_srt.SeqNo.{seqoff}
use swift_srt.Fec.{Group, Config}
use swift_srt.Fec.Receiver.{
  RcvGroup, Receiver, Arrival, cell_at, find_loss, rcv_get_loss_seq_horiz, rcv_rebuild,
}
use swift_srt.Fec.Receive.{clip_arrival, try_rebuild, rows_to_remove, hang_row}

pub find_loss-rowq : (m i : ℕ) (r : Receiver) → (find_loss m i r).1.rowq ≡ r.rowq
unfolding find_loss cell_at
find_loss-rowq zero i r = refl
find_loss-rowq (suc m) i r = elim (Bool-cases (leb r.cell_count i)) [
  | inl e ↦ rw e refl
  | inr e ↦ elim (Bool-cases (r.cells i)) [
    | inl q ↦ rw (e, q) (find_loss-rowq m (i + 1) r)
    | inr q ↦ rw (e, q) refl
  ]
]

pub rebuild-rowq :
    (cfg : Config) (g : Group) (seq : ℤ) (r : Receiver) → (rcv_rebuild cfg g seq r).rowq ≡ r.rowq
unfolding rcv_rebuild
rebuild-rowq cfg g seq r = ground arith

pub loss_seq-rowq :
    (cfg : Config) (g : Group) (r : Receiver) → (rcv_get_loss_seq_horiz cfg g r).1.rowq ≡ r.rowq
unfolding rcv_get_loss_seq_horiz
loss_seq-rowq cfg g r = elim (Bool-cases (ltb_ℤ (seqoff r.cell_base g.base) (pos 0))) [
  | inl e ↦ rw e refl
  | inr e ↦ rw e (find_loss-rowq cfg.number_cols (pos_part (seqoff r.cell_base g.base)) r)
]

pub try_rebuild-rowq :
    (cfg : Config) (g : RcvGroup) (r : Receiver) → (try_rebuild cfg g r).rowq ≡ r.rowq
unfolding try_rebuild
try_rebuild-rowq cfg g r =
    elim (Bool-cases (g.fec && ((g.group.collected + 1) == cfg.number_cols))) [
      | inl e ↦ rw e (
          rebuild-rowq cfg g.group (rcv_get_loss_seq_horiz cfg g.group r).0
            (rcv_get_loss_seq_horiz cfg g.group r).1
          ∙ loss_seq-rowq cfg g.group r)
      | inr e ↦ rw e refl
    ]

-- With one row nothing is given up.
pub hang_single :
    (cfg : Config) (a : Arrival) (g : RcvGroup) (r : Receiver)
    → r.rowq ≡ g ∷ []
    → let h = clip_arrival cfg a g in
      hang_row cfg a 0 r ≡ (try_rebuild cfg h (record r { rowq = h ∷ [] }), [])
unfolding hang_row rows_to_remove
hang_single cfg a g r e =
    rw
      (
        e,
        try_rebuild-rowq cfg (clip_arrival cfg a g) (record r { rowq = clip_arrival cfg a g ∷ [] }),
      )
      refl

pub ltb_pos : (i m : ℕ) → m ≤ i → ltb_ℤ (pos i) (pos m) ≡ false
ltb_pos i m h = ground arith

-- The first cell that is not set.
pub find_first :
    (f : ℕ → Bool) (k : ℕ)
    → f k ≡ false
    → (r : Receiver) → r.cells ≡ f
    → k < r.cell_count
    → (m i : ℕ) → i ≤ k
    → k < i + m
    → ((j : ℕ) → j < k → f j ≡ true)
    → find_loss m i r ≡ (some k, r)
unfolding find_loss cell_at
find_first f k fk r e lt zero i le h there = absurd (omega arith)
find_first f k fk r e lt (suc m) i le h there = elim (ℕ_discrete i k) [
  | yes q ↦ rw (leb_of_lt r.cell_count i (omega (arith, q)), ap (λ g. g i) e ∙ ap f q ∙ fk, q) refl
  | no q ↦
      rw (leb_of_lt r.cell_count i (omega (arith, q)), ap (λ g. g i) e ∙ there i (omega (arith, q)))
        (find_first f k fk r e lt m (i + 1) (omega (arith, q)) (omega arith) there)
]

-- The test of `receive` for a packet that is not wanted again.
pub known_test :
    (i n : ℕ) (known : Bool)
    → i < n
    → (ltb_ℤ (pos i) (pos 0) || (ltb_ℤ (pos i) (pos n) && not (ltb_ℤ (pos i) (pos 0)) && known))
      ≡ known
known_test i n known h = ground arith
