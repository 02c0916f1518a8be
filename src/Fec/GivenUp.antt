-- ===== src/Fec/GivenUp.antt =====
-- The losses that `CollectIrrecoverRow` reports.
use swift_srt.Base.{
  ℕ, zero, suc, ◌+◌, ◌-◌, ◌≤◌, ◌<◌, ◌≡◌, ◌≢◌, refl, ap, ap₂, ◌∙◌, ◌&&◌, ◌||◌, not, Bool, true,
  false, List, [], ◌∷◌, ℤ, pos, ◌-ℤ◌, pos_part, ltb_ℤ, if◌then◌else◌, ltb, leb, ◌==◌, arith,
  Bool-cases, inl, inr, ℕ_discrete, if_false, le→ltb,
}
use swift_srt.SeqNo.{seqoff, incseq_by, wrap, max_seq_no, seq_no_th}
use swift_srt.SeqNo.Unwrapped.{step_by-wrap}
use swift_srt.Fec.{Config}
use swift_srt.Fec.Sends.{seqoff_ahead}
use swift_srt.Fec.Hang.{ltb_pos}
use swift_srt.Fec.Receiver.{RcvGroup, Receiver}
use swift_srt.Fec.Receive.{irrecover_loop, collect_irrecover_row}

-- Whether one of the ranges has the number `j`.
abbrev pub covers : List (ℕ × ℕ) → ℕ → Bool
covers [] j = false
covers ((x, y) ∷ ys) j = (leb x j && leb j y) || covers ys j

-- The ranges as offsets.
abbrev spans : ℕ → ℕ → (ℕ → Bool) → Bool → ℕ → List (ℕ × ℕ)
spans zero i f last first = if last then [] else (first, i - 1) ∷ []
spans (suc n) i f gone first =
    let rest = spans n (i + 1) f (f i) (if gone && not (f i) then i else first) in
    if f i && not gone then (first, i) ∷ rest else rest

-- Ranges of a stream as sequence numbers, from the packet `b` on.
abbrev pub wrap_ranges : ℕ → List (ℕ × ℕ) → List (ℤ × ℤ)
wrap_ranges b [] = []
wrap_ranges b ((x, y) ∷ ys) = (wrap (b + x), wrap (b + y)) ∷ wrap_ranges b ys

-- A lost packet from `i` on, or one behind a lost packet; `gone` is whether the one before `i` is there.
abbrev hit : ℕ → ℕ → (ℕ → Bool) → Bool → ℕ → Bool
hit i n f gone j =
    leb i j && ltb j (i + n) && (not (f j) || (if j == i then not gone else not (f (j - 1))))

before : {j i : ℕ} → j ≡ i + 1 → j - 1 ≡ i
before h = omega (arith, h)

hit_next :
    (i n : ℕ) (f : ℕ → Bool) (gone t : Bool) (j : ℕ)
    → j ≢ i
    → f i ≡ t
    → hit i (suc n) f gone j ≡ hit (i + 1) n f t j
hit_next i n f gone t j h e = elim (ℕ_discrete j (i + 1)) [
  | yes q ↦ ground (arith, ap f (before q) ∙ e)
  | no d ↦ ground arith
]

hit_here :
    (i n : ℕ) (f : ℕ → Bool) (gone t : Bool) (j : ℕ)
    → j ≡ i
    → f i ≡ t
    → (hit i (suc n) f gone j ≡ (not t || not gone)) × (hit (i + 1) n f t j ≡ false)
hit_here i n f gone t j h e = ground (arith, ap f h ∙ e)

covers-spans :
    (n i : ℕ) (f : ℕ → Bool) (gone : Bool) (first j : ℕ)
    → (gone ≡ false → first < i)
    → covers (spans n i f gone first) j ≡ ((not gone && leb first j && ltb j i) || hit i n f gone j)
covers-spans zero i f true first j h = ground arith
covers-spans zero i f false first j h = ground arith
covers-spans (suc n) i f true first j h = elim (Bool-cases (f i)) [
  | inl e ↦ rw e elim (ℕ_discrete j i) [
    | yes q ↦ ground (
      arith,
      covers-spans n (i + 1) f true first j (λ u. ground arith),
      hit_here i n f true true j q e,
      h,
    )
    | no q ↦ ground (
      arith,
      covers-spans n (i + 1) f true first j (λ u. ground arith),
      hit_next i n f true true j q e,
      h,
    )
  ]
  | inr e ↦ rw e elim (ℕ_discrete j i) [
    | yes q ↦ ground (
      arith,
      covers-spans n (i + 1) f false i j (λ u. omega arith),
      hit_here i n f true false j q e,
      h,
    )
    | no q ↦ ground (
      arith,
      covers-spans n (i + 1) f false i j (λ u. omega arith),
      hit_next i n f true false j q e,
      h,
    )
  ]
]
covers-spans (suc n) i f false first j h = elim (Bool-cases (f i)) [
  | inl e ↦ rw e elim (ℕ_discrete j i) [
    | yes q ↦ ground (
      arith,
      covers-spans n (i + 1) f true first j (λ u. omega (arith, h refl)),
      hit_here i n f false true j q e,
      h,
    )
    | no q ↦ ground (
      arith,
      covers-spans n (i + 1) f true first j (λ u. omega (arith, h refl)),
      hit_next i n f false true j q e,
      h,
    )
  ]
  | inr e ↦ rw e elim (ℕ_discrete j i) [
    | yes q ↦ ground (
      arith,
      covers-spans n (i + 1) f false first j (λ u. omega (arith, h refl)),
      hit_here i n f false false j q e,
      h,
    )
    | no q ↦ ground (
      arith,
      covers-spans n (i + 1) f false first j (λ u. omega (arith, h refl)),
      hit_next i n f false false j q e,
      h,
    )
  ]
]

less_one : (i : ℕ) → 0 < i → pos i -ℤ pos 1 ≡ pos (i - 1)
less_one i h = ground arith

place :
    (i b : ℕ) (r : Receiver)
    → r.cell_base ≡ wrap b
    → i ≤ max_seq_no
    → incseq_by r.cell_base (pos i) ≡ wrap (b + i)
place i b r e h = ap (λ c. incseq_by c (pos i)) e ∙ (step_by-wrap b i h).0

loop-spans :
    (n i b : ℕ) (r : Receiver) (gone : Bool) (first : ℕ) (at : ℤ)
    → r.cell_base ≡ wrap b
    → i + n ≤ max_seq_no
    → (gone ≡ false → (at ≡ wrap (b + first)) × (0 < i))
    → irrecover_loop n i r gone at ≡ wrap_ranges b (spans n i r.cells gone first)
unfolding irrecover_loop
loop-spans zero i b r true first at e l h = refl
loop-spans zero i b r false first at e l h =
    ap₂ (λ x y. (x, y) ∷ []) (h refl).0
      (ap₂ (λ c d. incseq_by c d) e (less_one i (h refl).1)
        ∙ (step_by-wrap b (i - 1) (omega arith)).0)
loop-spans (suc n) i b r true first at e l h = elim (Bool-cases (r.cells i)) [
  | inl q ↦
      rw q (loop-spans n (i + 1) b r true first at e (omega arith) (λ u. absurd (ground arith)))
  | inr q ↦ rw q (
      loop-spans n (i + 1) b r false i (incseq_by r.cell_base (pos i)) e (omega arith)
        (λ u. (place i b r e (omega arith), omega arith)))
]
loop-spans (suc n) i b r false first at e l h = elim (Bool-cases (r.cells i)) [
  | inl q ↦ rw q (
      ap₂ (λ x ys. x ∷ ys) (ap₂ (λ x y. (x, y)) (h refl).0 (place i b r e (omega arith)))
        (loop-spans n (i + 1) b r true first at e (omega arith) (λ u. absurd (ground arith))))
  | inr q ↦
      rw q
        (loop-spans n (i + 1) b r false first at e (omega arith) (λ u. ((h refl).0, omega arith)))
]

-- A packet of a row that is reported: it is lost, or the one before it in the row is.
abbrev pub reported : ℕ → ℕ → (ℕ → Bool) → ℕ → Bool
reported a n cells j =
    leb a j && ltb j (a + n) && (not (cells j) || (not (j == a) && not (cells (j - 1))))

hit-reported : (a n : ℕ) (f : ℕ → Bool) (j : ℕ) → hit a n f true j ≡ reported a n f j
hit-reported a n f j = ground arith

collect_all :
    (cfg : Config) (r : Receiver) (g : RcvGroup) (a : ℕ)
    → g.dismissed ≡ false
    → seqoff r.cell_base g.group.base ≡ pos a
    → a + cfg.number_cols ≤ r.cell_count
    → collect_irrecover_row cfg r g
      ≡ (record g { dismissed = true }, irrecover_loop cfg.number_cols a r true (pos 0))
unfolding collect_irrecover_row
collect_all cfg r g a d off c =
    if_false _ _ d
    ∙ if_false _ _ (ap (λ t. ltb_ℤ t (pos 0)) off ∙ ltb_pos a 0 (omega arith))
    ∙ if_false _ _ (
        ap (λ t. ltb r.cell_count (pos_part t + cfg.number_cols)) off
        ∙ le→ltb r.cell_count (a + cfg.number_cols) c)
    ∙ ap
        (λ t. (
          record g { dismissed = true },
          irrecover_loop cfg.number_cols (pos_part t) r true (pos 0),
        ))
        off

-- For a row of packets that starts `a` behind the first cell, whose cells are all there, and which has not
-- been given up before, `CollectIrrecoverRow` reports ranges with exactly the packets of the row that are
-- lost and those whose predecessor in the row is lost, and gives the row up.
pub collect_irrecover_row-reported :
    (cfg : Config) (r : Receiver) (g : RcvGroup) (b a : ℕ)
    → r.cell_base ≡ wrap b
    → g.group.base ≡ wrap (b + a)
    → g.dismissed ≡ false
    → a + cfg.number_cols ≤ r.cell_count
    → a + cfg.number_cols < seq_no_th
    → ((collect_irrecover_row cfg r g).0 ≡ record g { dismissed = true })
      × (ys : List (ℕ × ℕ)) × ((collect_irrecover_row cfg r g).1 ≡ wrap_ranges b ys)
      × ((j : ℕ) → covers ys j ≡ reported a cfg.number_cols r.cells j)
collect_irrecover_row-reported cfg r g b a e h d c l =
    let x =
      collect_all cfg r g a d (ap₂ (λ x y. seqoff x y) e h ∙ seqoff_ahead b a (omega arith)) c in
    let n = cfg.number_cols in
    (
      ap (λ (t : RcvGroup × List (ℤ × ℤ)). t.0) x,
      spans n a r.cells true 0,
      ap (λ (t : RcvGroup × List (ℤ × ℤ)). t.1) x
          ∙ loop-spans n a b r true 0 (pos 0) e (omega arith) (λ u. absurd (ground arith)),
      λ j.
          covers-spans n a r.cells true 0 j (λ u. absurd (ground arith))
          ∙ hit-reported a n r.cells j,
    )
