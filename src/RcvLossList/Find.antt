-- ===== src/RcvLossList/Find.antt =====
-- `find` and what else only reads the list.
use swift_srt.Base.{
  ℕ, zero, suc, ◌+◌, ◌<◌, ◌≤◌, ◌≡◌, ◌⊎◌, ◌↔◌, inl, inr, refl, sym, ap, ◌∙◌, arith, Bool, true,
  false, ◌&&◌, ◌||◌, List, [], ◌∷◌, if◌then◌else◌, leb, ◌==◌, Option, none, some, pos, minus_one,
  Bool-cases, eqb_ℤ, dec_le,
}
use swift_srt.SeqNo.{wrap, seq_no_th}
use swift_srt.SeqNo.Compare.{Near, seqcmp-eq, seqcmp-lt, seqcmp-gt, seqcmp-le, seqcmp-ge}
use swift_srt.RcvLossList.{
  Node, RcvLossList, find, find_from, hits, get_loss_length, get_first_lost_seq, place,
}
use swift_srt.RcvLossList.Ranges.{Range, Ascends, Below, Lost, total, Below-mono}
use swift_srt.RcvLossList.Layout.{at, node, first, Seg, Holds}

-- The ranges have a packet from `s` to `t`.
abbrev meets : List Range → ℕ → ℕ → Bool
meets [] s t = false
meets ((u, v) ∷ xs) s t = (leb u t && leb s v) || meets xs s t

no_last : (v : ℕ) → eqb_ℤ (wrap v) minus_one ≡ false
no_last v = ground arith

hits-eq :
    (c m u v s t : ℕ) (p n : Option ℕ)
    → u ≤ v
    → s ≤ t
    → Near u s
    → Near u t
    → Near v s
    → hits (node c m u v p n) (wrap s) (wrap t) ≡ (leb u t && leb s v)
hits-eq c m u v s t p n o k h1 h2 h3 =
    rw (seqcmp-eq u s h1, seqcmp-gt u s h1, seqcmp-lt u s h1, seqcmp-le u t h2)
      (elim (Bool-cases (u == v)) [
        | inl e ↦ rw e (ground arith)
        | inr e ↦ rw (e, no_last v, seqcmp-ge v s h3) (ground arith)
      ])

-- The walk, for packets of half the sequence space from `w` on.
find_from-eq :
    (fuel c b w : ℕ) (l : RcvLossList) (xs : List Range) (p : Option ℕ) (s t : ℕ)
    → Ascends b xs
    → Below (b + fuel) xs
    → Seg c l.size l.seq p xs none
    → s ≤ t
    → w ≤ s
    → w ≤ b
    → t < w + seq_no_th
    → Below (w + seq_no_th) xs
    → find_from fuel l (wrap s) (wrap t) (first c l.size xs none) ≡ meets xs s t
unfolding find_from
find_from-eq zero c b w l [] p s t o bd g k ws wb h n = refl
find_from-eq (suc fuel) c b w l [] p s t o bd g k ws wb h n = refl
find_from-eq zero c b w l ((u, v) ∷ xs) p s t o bd g k ws wb h n = absurd (omega arith)
find_from-eq (suc fuel) c b w l ((u, v) ∷ xs) p s t o bd g k ws wb h n =
    let rest =
      find_from-eq fuel c (v + 1) w l xs (some (at c l.size u)) s t o.2
        (Below-mono (b + suc fuel) (v + 1 + fuel) xs (omega arith) bd.1) g.1 k ws (omega arith) h
        n.1 in
    rw
      (
        g.0,
        hits-eq c l.size u v s t p (first c l.size xs none) o.1 k (omega arith, omega arith)
            (omega arith, omega arith) (omega arith, omega arith),
        rest,
      )
      (or_form (leb u t && leb s v) (meets xs s t))
  where
    or_form : (x y : Bool) → (if x then true else y) ≡ (x || y)
    or_form true y = refl
    or_form false y = refl

meets_iff :
    (xs : List Range) (b s t : ℕ)
    → Ascends b xs
    → s ≤ t
    → (meets xs s t ≡ true) ↔ ((q : ℕ) × (s ≤ q) × (q ≤ t) × Lost xs q)
meets_iff [] b s t o k = (λ e. cc, λ h. absurd h.3)
meets_iff ((u, v) ∷ xs) b s t o k =
    let r = meets_iff xs (v + 1) s t o.2 k in
    (
      λ e. elim (Bool-cases (leb u t && leb s v)) [
        | inl y ↦ elim (dec_le s u) [
          | yes z ↦ (u, z, ground (arith, y), inl (omega arith, o.1))
          | no z ↦ (s, omega arith, k, inl (ground (arith, z), ground (arith, y)))
        ]
        | inr y ↦
            let (q, a1, a2, a3) = r.0 (sym (ap (λ z. z || meets xs s t) y) ∙ e) in
            (q, a1, a2, inr a3)
      ],
      λ h. elim h.3 [
        | inl y ↦ ground (arith, h.1, h.2, y.0, y.1)
        | inr y ↦ or_right (leb u t && leb s v) (meets xs s t) (r.1 (h.0, h.1, h.2, y))
      ],
    )
  where
    or_right : (x y : Bool) → y ≡ true → (x || y) ≡ true
    or_right true y e = refl
    or_right false y e = e

pub nonzero : (n : ℕ) → 0 < n → eqb_ℤ (pos n) (pos 0) ≡ false
nonzero n h = ground arith

not_empty :
    (l : RcvLossList) (c b : ℕ) (xs : List Range)
    → Holds l c b xs
    → 0 < total xs
    → eqb_ℤ l.length (pos 0) ≡ false
not_empty l c b xs h p = ap (λ n. eqb_ℤ n (pos 0)) h.length_eq ∙ nonzero (total xs) p

find-eq :
    (l : RcvLossList) (c b : ℕ) (xs : List Range) (s t : ℕ)
    → Holds l c b xs
    → s ≤ t
    → b ≤ s
    → t < b + seq_no_th
    → find l (wrap s) (wrap t) ≡ meets xs s t
unfolding find
find-eq l c b [] s t h k bs near = rw h.length_eq refl
find-eq l c b ((u, v) ∷ xs) s t h k bs near = rw (not_empty l c b ((u, v) ∷ xs) h (omega arith)) (
    ap (find_from l.size l (wrap s) (wrap t)) h.head_eq
    ∙ find_from-eq l.size c b b l ((u, v) ∷ xs) none s t h.ascends h.span h.chain k bs (omega arith)
        near h.near)

-- `find` says whether a packet from `s` to `t` is lost.
pub find_iff :
    (l : RcvLossList) (c b : ℕ) (xs : List Range) (s t : ℕ)
    → Holds l c b xs
    → s ≤ t
    → b ≤ s
    → t < b + seq_no_th
    → (find l (wrap s) (wrap t) ≡ true) ↔ ((q : ℕ) × (s ≤ q) × (q ≤ t) × Lost xs q)
find_iff l c b xs s t h k bs near =
    let r = meets_iff xs b s t h.ascends k in
    let e = find-eq l c b xs s t h k bs near in (λ f. r.0 (sym e ∙ f), λ q. e ∙ r.1 q)

-- The list counts its lost packets, and names the first.
pub get_loss_length-Holds :
    (l : RcvLossList) (c b : ℕ) (xs : List Range)
    → Holds l c b xs
    → get_loss_length l ≡ pos (total xs)
unfolding get_loss_length
get_loss_length-Holds l c b xs h = h.length_eq

pub get_first_lost_seq-Holds :
    (l : RcvLossList) (c b : ℕ) (xs : List Range)
    → Holds l c b xs
    → (get_first_lost_seq l ≡ minus_one × ((q : ℕ) → ¬ Lost xs q))
      ⊎ ((q : ℕ) × (get_first_lost_seq l ≡ wrap q) × Lost xs q × ((r : ℕ) → Lost xs r → q ≤ r))
unfolding get_first_lost_seq
get_first_lost_seq-Holds l c b [] h = inl (rw h.length_eq refl, λ q x. x)
get_first_lost_seq-Holds l c b ((u, v) ∷ xs) h = inr (
  u,
  rw (not_empty l c b ((u, v) ∷ xs) h (omega arith))
      (ap (λ i. (l.seq (place i)).data1) h.head_eq ∙ ap (λ (n : Node). n.data1) h.chain.0),
  inl (omega arith, h.ascends.1),
  λ r y. lost_ge ((u, v) ∷ xs) u r (omega arith, h.ascends.1, h.ascends.2) y,
)
  where
    lost_ge : (ys : List Range) (lo r : ℕ) → Ascends lo ys → Lost ys r → lo ≤ r
    lost_ge [] lo r o y = absurd y
    lost_ge ((p, q) ∷ ys) lo r o y = elim y [
      | inl z ↦ omega (arith, z.0, o.0)
      | inr z ↦ omega (arith, lost_ge ys (q + 1) r o.2 z, o.0, o.1)
    ]
