-- ===== src/LossReport/Delivers.antt =====
-- A loss report made of the receiver's loss list, as the sender reads it.
use swift_srt.Base.{
  ℕ, zero, suc, ◌+◌, ◌<◌, ◌≤◌, ◌≡◌, ◌↔◌, inl, inr, refl, ap, ◌∙◌, arith, true, false, List, [], ◌∷◌,
  ◌++◌, if◌then◌else◌, leb, ◌==◌, Option, none, some, ℤ, minus_one, Bool-cases, eqb_ℤ, lt→ltb,
}
use swift_srt.SeqNo.{wrap, seq_no_th}
use swift_srt.SeqNo.Compare.{seqcmp-gt, seqcmp-ge}
use swift_srt.RcvLossList.{RcvLossList, get_loss_array, loss_array_from, range_first}
use swift_srt.RcvLossList.Ranges.{Range, Ascends, Below, Lost}
use swift_srt.RcvLossList.Layout.{at, first, Seg, Holds}
use swift_srt.LossReport.{
  Request, report_range, report_single, and_then, loss_report, seqno_value, is_range_first,
}

-- The words of a report on the ranges.
abbrev pub words : List Range → List ℤ
words [] = []
words ((u, v) ∷ xs) = if u == v then wrap u ∷ words xs else range_first (wrap u) ∷ wrap v ∷ words xs

abbrev pub word_count : List Range → ℕ
word_count [] = 0
word_count ((u, v) ∷ xs) = (if u == v then 1 else 2) + word_count xs

-- The ranges without the packets before `a`.
abbrev pub since : ℕ → List Range → List Range
since a [] = []
since a ((u, v) ∷ xs) =
    if leb a u then (u, v) ∷ since a xs else if leb a v then (a, v) ∷ since a xs else since a xs

abbrev pub requests : List Range → List Request
requests [] = []
requests ((u, v) ∷ xs) = (wrap u, wrap v) ∷ requests xs

single_word : (u : ℕ) → is_range_first (wrap u) ≡ false
single_word u = ground arith

range_word :
    (u : ℕ)
    → (is_range_first (range_first (wrap u)) ≡ true) × (seqno_value (range_first (wrap u)) ≡ wrap u)
range_word u = (ground arith, ground arith)

report_range-wrap :
    (w a z u v : ℕ)
    → w ≤ a
    → w ≤ u
    → u ≤ v
    → v ≤ z
    → a ≤ z
    → z < w + seq_no_th
    → report_range (wrap a) (wrap z) (wrap u) (wrap v) ≡ some (requests (since a ((u, v) ∷ [])))
unfolding report_range
report_range-wrap w a z u v h1 h2 h3 h4 h5 h6 =
    rw
      (
        seqcmp-gt u v (omega arith, omega arith),
        seqcmp-gt v z (omega arith, omega arith),
        seqcmp-ge u a (omega arith, omega arith),
        seqcmp-ge v a (omega arith, omega arith),
      )
      (ground arith)

report_single-wrap :
    (w a z u : ℕ)
    → w ≤ a
    → w ≤ u
    → u ≤ z
    → a ≤ z
    → z < w + seq_no_th
    → report_single (wrap a) (wrap z) (wrap u) ≡ some (requests (since a ((u, u) ∷ [])))
unfolding report_single
report_single-wrap w a z u h2 h3 h4 h5 h6 =
    rw (seqcmp-gt u z (omega arith, omega arith), seqcmp-ge u a (omega arith, omega arith))
      (ground arith)

words_cons : (u v : ℕ) (xs : List Range) → 0 < word_count ((u, v) ∷ xs)
words_cons u v xs = elim (Bool-cases (u == v)) [
  | inl e ↦ rw e (omega arith)
  | inr e ↦ rw e (omega arith)
]

no_last : (v : ℕ) → eqb_ℤ minus_one (wrap v) ≡ false
no_last v = ground arith

-- The words of the list, when the buffer has room for one more.
loss_array_from-eq :
    (fuel limit len c : ℕ) (l : RcvLossList) (xs : List Range) (p : Option ℕ)
    → Seg c l.size l.seq p xs none
    → word_count xs ≤ fuel
    → len + word_count xs < limit
    → loss_array_from fuel l limit len (first c l.size xs none) ≡ words xs
unfolding loss_array_from
loss_array_from-eq zero limit len c l [] p g h k = refl
loss_array_from-eq (suc fuel) limit len c l [] p g h k = refl
loss_array_from-eq zero limit len c l ((u, v) ∷ xs) p g h k =
    absurd (omega (arith, words_cons u v xs, h))
loss_array_from-eq (suc fuel) limit len c l ((u, v) ∷ xs) p g h k =
    rw (g.0, lt→ltb (len + 1) limit (omega (arith, words_cons u v xs, k)))
      (elim (Bool-cases (u == v)) [
        | inl e ↦
            let r =
              loss_array_from-eq fuel limit (len + 1) c l xs (some (at c l.size u)) g.1
                (ground (arith, h, e)) (ground (arith, k, e)) in
            rw (e, r) refl
        | inr e ↦
            let r =
              loss_array_from-eq fuel limit (len + 2) c l xs (some (at c l.size u)) g.1
                (ground (arith, h, e)) (ground (arith, k, e)) in
            rw (e, no_last v, r) refl
      ])

module _ (last_ack curr beyond : ℤ) where
  loss_report-single :
      (w : ℤ) (ws : List ℤ)
      → is_range_first w ≡ false
      → loss_report last_ack curr beyond (w ∷ ws)
        ≡ and_then w (report_single last_ack curr w) (loss_report last_ack curr beyond ws)
  unfolding loss_report
  loss_report-single w [] e = rw e refl
  loss_report-single w (x ∷ ws) e = rw e refl

  loss_report-range :
      (w x : ℤ) (ws : List ℤ)
      → is_range_first w ≡ true
      → loss_report last_ack curr beyond (w ∷ x ∷ ws)
        ≡ and_then x
            (report_range last_ack curr (seqno_value w) x)
            (loss_report last_ack curr beyond ws)
  unfolding loss_report
  loss_report-range w x ws e = rw e refl

requests-since :
    (a u v : ℕ) (xs : List Range)
    → requests (since a ((u, v) ∷ [])) ++ requests (since a xs) ≡ requests (since a ((u, v) ∷ xs))
requests-since a u v xs = elim (Bool-cases (leb a u)) [
  | inl e ↦ rw e refl
  | inr e ↦ elim (Bool-cases (leb a v)) [ inl f ↦ rw (e, f) refl | inr f ↦ rw (e, f) refl ]
]

abbrev accepted : List Request → List Request × Option ℤ
accepted rs = (rs, none)

and_then-since :
    (wrong : ℤ) (a u v : ℕ) (xs : List Range)
    → and_then wrong (some (requests (since a ((u, v) ∷ [])))) (requests (since a xs), none)
      ≡ (requests (since a ((u, v) ∷ xs)), none)
unfolding and_then
and_then-since wrong a u v xs = ap (λ rs. accepted rs) (requests-since a u v xs)

loss_report-words :
    (w a z b : ℕ) (beyond : ℤ) (xs : List Range)
    → w ≤ a
    → a ≤ z
    → z < w + seq_no_th
    → w ≤ b
    → Ascends b xs
    → Below (z + 1) xs
    → loss_report (wrap a) (wrap z) beyond (words xs) ≡ (requests (since a xs), none)
unfolding loss_report
loss_report-words w a z b beyond [] h1 h2 h3 h4 o l = refl
loss_report-words w a z b beyond ((u, v) ∷ xs) h1 h2 h3 h4 o l =
    let rest = loss_report-words w a z (v + 1) beyond xs h1 h2 h3 (omega arith) o.2 l.1 in
    elim (Bool-cases (u == v)) [
      | inl e ↦
          rw
            (
              e,
              loss_report-single (wrap a) (wrap z) beyond (wrap u) (words xs) (single_word u),
              rest,
              report_single-wrap w a z u h1 (omega arith) (omega arith) h2 h3,
            )
            ((and_then-since (wrap u) a u u xs)
              ∙ ap (λ k. accepted (requests (since a ((u, k) ∷ xs)))) (ground (arith, e)))
      | inr e ↦
          rw
            (
              e,
              loss_report-range (wrap a) (wrap z) beyond (range_first (wrap u)) (wrap v) (words xs)
                  (range_word u).0,
              rest,
              (range_word u).1,
              report_range-wrap w a z u v h1 (omega arith) o.1 (omega arith) h2 h3,
            )
            (and_then-since (wrap v) a u v xs)
    ]

-- A packet is lost and not acknowledged exactly if a request of the report has it.
Lost-since : (a t : ℕ) (xs : List Range) → Lost (since a xs) t ↔ (Lost xs t × (a ≤ t))
Lost-since a t [] = (λ h. absurd h, λ h. absurd h.0)
Lost-since a t ((u, v) ∷ xs) =
    let r = Lost-since a t xs in
    elim (Bool-cases (leb a u)) [
      | inl e ↦ rw e (
        λ h. elim h [
          | inl y ↦ (inl y, ground (arith, e, y.0))
          | inr y ↦ let p = r.0 y in (inr p.0, p.1)
        ],
        λ h. elim h.0 [ inl y ↦ inl y | inr y ↦ inr (r.1 (y, h.1)) ],
      )
      | inr e ↦ elim (Bool-cases (leb a v)) [
        | inl f ↦
            rw (e, f)
              (
                λ h. elim h [
                  | inl y ↦ (inl (ground (arith, e, y.0), y.1), y.0)
                  | inr y ↦ let p = r.0 y in (inr p.0, p.1)
                ],
                λ h. elim h.0 [ inl y ↦ inl (h.1, y.1) | inr y ↦ inr (r.1 (y, h.1)) ],
              )
        | inr f ↦
            rw (e, f)
              (
                λ h. let p = r.0 h in (inr p.0, p.1),
                λ h. elim h.0 [
                  | inl y ↦ absurd (ground (arith, f, y.1, h.1))
                  | inr y ↦ r.1 (y, h.1)
                ],
              )
      ]
    ]

report_words :
    (l : RcvLossList) (c b w a z limit : ℕ) (beyond : ℤ) (xs : List Range)
    → Holds l c b xs
    → word_count xs < limit
    → Below (z + 1) xs
    → a ≤ z
    → w ≤ a
    → w ≤ b
    → z < w + seq_no_th
    → loss_report (wrap a) (wrap z) beyond (get_loss_array l limit) ≡ (requests (since a xs), none)
unfolding get_loss_array
report_words l c b w a z limit beyond xs h k sent az wa wb near =
    ap (loss_report (wrap a) (wrap z) beyond) (
      ap (loss_array_from limit l limit 0) h.head_eq
      ∙ loss_array_from-eq limit limit 0 c l xs none h.chain (omega (arith, k)) (omega (arith, k)))
    ∙ loss_report-words w a z b beyond xs wa az near wb h.ascends sent

Ascends-mono : (a b : ℕ) (xs : List Range) → a ≤ b → Ascends b xs → Ascends a xs
Ascends-mono a b [] h o = tt
Ascends-mono a b ((u, v) ∷ xs) h o = (omega arith, o.1, o.2)

since-Ascends : (a b : ℕ) (xs : List Range) → Ascends b xs → Ascends b (since a xs)
since-Ascends a b [] o = tt
since-Ascends a b ((u, v) ∷ xs) o =
    let r = since-Ascends a (v + 1) xs o.2 in
    let k = Ascends-mono b (v + 1) (since a xs) (omega arith) r in
    elim (Bool-cases (leb a u)) [
      | inl e ↦ rw e (o.0, o.1, r)
      | inr e ↦ elim (Bool-cases (leb a v)) [
        | inl f ↦ rw (e, f) (ground (arith, e, o.0), ground (arith, f), r)
        | inr f ↦ rw (e, f) k
      ]
    ]

-- The words that the receiver's list gives for a report, when the buffer has room for one more, read by
-- a sender whose packets before `a` are acknowledged and up to `z` sent, all of them within half the
-- sequence space from `w` on, and `z` the last that may be lost: they are taken as correct, and the
-- ranges requested ascend and have exactly the packets that are lost and not acknowledged.
pub report_delivers :
    (l : RcvLossList) (c b w a z limit : ℕ) (beyond : ℤ) (xs : List Range)
    → Holds l c b xs
    → word_count xs < limit
    → Below (z + 1) xs
    → a ≤ z
    → w ≤ a
    → w ≤ b
    → z < w + seq_no_th
    → (ys : List Range) × (loss_report (wrap a) (wrap z) beyond (get_loss_array l limit)
        ≡ (requests ys, none))
      × Ascends b ys
      × ((q : ℕ) → Lost ys q ↔ (Lost xs q × (a ≤ q)))
report_delivers l c b w a z limit beyond xs h k sent az wa wb near = (
  since a xs,
  report_words l c b w a z limit beyond xs h k sent az wa wb near,
  since-Ascends a b xs h.ascends,
  λ q. Lost-since a q xs,
)
