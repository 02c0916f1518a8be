-- ===== src/SndLossList/Pop.antt =====
-- `popLostSeq` takes the earliest lost packet out.
use native.Mathlib.Nat.{mod-add-mod, mod-lt}
use swift_srt.Base.{
  ℕ, ◌+◌, ◌%◌, ◌<◌, ◌≤◌, ◌≡◌, ◌≢◌, ◌⊎◌, ◌↔◌, inl, inr, refl, sym, ap, ap₂, subst, ◌∙◌, arith, false,
  List, [], ◌∷◌, if◌then◌else◌, ◌==◌, ltb, ==_of_ne, ==_of_eq, ℕ_discrete, Bool-cases, Option-cases,
  none, some, ℤ, pos, minus_one, set, get-set_ne, get-set_self, eqb_ℤ, ltb_ℤ,
}
use swift_srt.SeqNo.{wrap, seqcmp, incseq}
use swift_srt.SeqNo.Unwrapped.{incseq-wrap}
use swift_srt.SeqNo.Compare.{seqcmp-gt}
use swift_srt.SndLossList.{Node, SndLossList, pop_lost_seq, pop_single, pop_range, forget}
use swift_srt.RcvLossList.{place}
use swift_srt.RcvLossList.Ranges.{Range, Ascends, Below, Lost, total}
use swift_srt.RcvLossList.Layout.{at, first, Avoids, at-ne}
use swift_srt.RcvLossList.Find.{nonzero}
use swift_srt.SndLossList.Layout.{node, Seg, Seg-set, Holds}

-- The ranges without their first packet.
abbrev pub rest : List Range → List Range
rest [] = []
rest ((u, v) ∷ xs) = if u == v then xs else (u + 1, v) ∷ xs

no_last : (v : ℕ) → eqb_ℤ minus_one (wrap v) ≡ false
no_last v = ground arith

single_test : (u v : ℕ) → eqb_ℤ minus_one (if u == v then minus_one else wrap v) ≡ (u == v)
single_test u v = elim (Bool-cases (u == v)) [ inl e ↦ rw e refl | inr e ↦ rw (e, no_last v) refl ]

-- The place of a packet before the ranges.
earlier-Avoids :
    (c m b w lo : ℕ) (ys : List Range)
    → b ≤ w
    → w < lo
    → Ascends lo ys
    → Below (b + m) ys
    → Avoids c m (at c m w) ys
earlier-Avoids c m b w lo [] h k o s = tt
earlier-Avoids c m b w lo ((p, q) ∷ ys) h k o s = (
  λ e. at-ne c m w p (omega arith) (omega (arith, o.0)) (sym e),
  earlier-Avoids c m b w (q + 1) ys h (omega arith) o.2 s.1,
)

Ascends-mono : (a b : ℕ) (xs : List Range) → a ≤ b → Ascends b xs → Ascends a xs
Ascends-mono a b [] h o = tt
Ascends-mono a b ((u, v) ∷ xs) h o = (omega arith, o.1, o.2)

module _ (l : SndLossList) (c b u v : ℕ) (xs : List Range) (h : Holds l c b ((u, v) ∷ xs)) where
  abbrev p : ℕ
  p = at c l.size u

  head_place : place l.head ≡ p
  head_place = ap place h.head_eq

  avoids : Avoids c l.size p xs
  avoids =
      earlier-Avoids c l.size b u (v + 1) xs h.ascends.0 (omega (arith, h.ascends.1)) h.ascends.2
        h.span.1

  not_empty : eqb_ℤ l.length (pos 0) ≡ false
  not_empty = ap (λ n. eqb_ℤ n (pos 0)) h.length_eq ∙ nonzero (total ((u, v) ∷ xs)) (omega arith)

  -- Another place that no range has is free.
  free_ne :
      (q : ℕ)
      → q < l.size
      → p ≢ q
      → Avoids c l.size q xs
      → ((l.seq q).data1 ≡ minus_one) × ((l.seq q).data2 ≡ minus_one)
  free_ne q hq ne av = h.free q hq (ne, av)

  single_free :
      u ≡ v
      → (q : ℕ) → q < l.size
      → Avoids c l.size q xs
      → ((set l.seq p (record (l.seq p) { data1 = minus_one }) q).data1 ≡ minus_one)
        × ((set l.seq p (record (l.seq p) { data1 = minus_one }) q).data2 ≡ minus_one)
  single_free e q hq av = elim (ℕ_discrete p q) [
    | yes k ↦
        subst
          (λ i.
            ((set l.seq p (record (l.seq p) { data1 = minus_one }) i).data1 ≡ minus_one)
            × ((set l.seq p (record (l.seq p) { data1 = minus_one }) i).data2 ≡ minus_one))
          k
          (rw (get-set_self l.seq p (record (l.seq p) { data1 = minus_one }))
            (refl, ap (λ (x : Node). x.data2) h.chain.0 ∙ rw (==_of_eq u v e) refl))
    | no k ↦
        rw (get-set_ne l.seq p q (record (l.seq p) { data1 = minus_one }) k) (free_ne q hq k av)
  ]

  -- The place of the head is forgotten, so that what is kept is the place of another range.
  forgotten : (q : ℕ) → forget l.last_insert_pos p ≡ some q → ¬ Avoids c l.size q xs
  forgotten q e av = elim (Option-cases l.last_insert_pos) [
    | inl k ↦ none-some (subst (λ o. forget o p ≡ some q) k e)
    | inr (i, k) ↦
        let f = subst (λ o. forget o p ≡ some q) k e in
        h.hint q (k ∙ ap some (kept i q f).0) ((kept i q f).1, av)
  ]
    where
      kept : (i q : ℕ) → forget (some i) p ≡ some q → (i ≡ q) × (p ≢ q)
      kept i q f = ground (arith, f)

      none-some : none ≢ some q
      none-some z = cc (z)

  single : u ≡ v → Holds (pop_single l p) c b xs
  unfolding pop_single
  single e = record {
    size_pos = h.size_pos;
    ascends = Ascends-mono b (v + 1) xs (omega (arith, h.ascends.0, h.ascends.1)) h.ascends.2;
    span = h.span.1;
    near = h.near.1;
    chain = Seg-set c l.size l.seq p (record (l.seq p) { data1 = minus_one }) xs avoids h.chain.1;
    free = single_free e;
    head_eq = ap (λ (x : Node). x.next) h.chain.0;
    length_eq = rw h.length_eq (ground (arith, e));
    hint = forgotten;
  }

  -- The head has several packets.
  module _ (longer : u < v) where
    abbrev loc : ℕ
    loc = at c l.size (u + 1)

    loc_eq : (p + 1) % l.size ≡ loc
    loc_eq = mod-add-mod (c + u) l.size 1 ∙ ap (λ x. x % l.size) (omega arith)

    loc_ne : p ≢ loc
    loc_ne = at-ne c l.size u (u + 1) (omega arith) (omega (arith, h.span.0, h.ascends.0))

    loc-Avoids : Avoids c l.size loc xs
    loc-Avoids =
        earlier-Avoids c l.size b (u + 1) (v + 1) xs (omega (arith, h.ascends.0)) (omega arith)
          h.ascends.2 h.span.1

    loc_free : ((l.seq loc).data1 ≡ minus_one) × ((l.seq loc).data2 ≡ minus_one)
    loc_free = h.free loc (mod-lt (c + (u + 1)) h.size_pos) (loc_ne, loc-Avoids)

    abbrev x1 : Node
    x1 = record (l.seq loc) {
      data1 = incseq (l.seq p).data1;
      data2 =
          if ltb_ℤ (pos 0) (seqcmp (l.seq p).data2 (incseq (l.seq p).data1))
          then (l.seq p).data2
          else (l.seq loc).data2;
    }

    abbrev a1 : ℕ → Node
    a1 = set l.seq loc x1

    abbrev x2 : Node
    x2 = record (a1 p) { data1 = minus_one; data2 = minus_one }

    abbrev a2 : ℕ → Node
    a2 = set a1 p x2

    abbrev x3 : Node
    x3 = record (a2 loc) { next = (a2 p).next }

    pop_seq : (pop_range l p).seq ≡ set a2 loc x3
    unfolding pop_range
    pop_seq = rw loc_eq refl

    head_data : ((l.seq p).data1 ≡ wrap u) × ((l.seq p).data2 ≡ wrap v)
    head_data = (
      ap (λ (x : Node). x.data1) h.chain.0,
      ap (λ (x : Node). x.data2) h.chain.0 ∙ rw (==_of_ne u v (λ e. omega (arith, e))) refl,
    )

    x1_data : (x1.data1 ≡ wrap (u + 1)) × (x1.data2 ≡ (if u + 1 == v then minus_one else wrap v))
    x1_data =
        rw
          (
            head_data.0,
            head_data.1,
            incseq-wrap u,
            seqcmp-gt v (u + 1) (omega (arith, h.near.0, h.ascends.0), omega (arith, h.near.0)),
            loc_free.1,
          )
          (refl, swap_test (wrap v))
      where
        swap_test :
            (d : ℤ)
            → (if ltb (u + 1) v then d else minus_one) ≡ (if u + 1 == v then minus_one else d)
        swap_test d = ground (arith, longer)

    x3-node : x3 ≡ node c l.size (u + 1) v (first c l.size xs none)
    x3-node =
        ap (λ (y : Node). record y { next = (a2 p).next })
          (get-set_ne a1 p loc x2 loc_ne ∙ get-set_self l.seq loc x1)
        ∙ ap (λ n. record x1 { next = n })
            (ap (λ (y : Node). y.next) (get-set_self a1 p x2)
              ∙ ap (λ (y : Node). y.next) (get-set_ne l.seq loc p x1 (λ e. loc_ne (sym e)))
              ∙ ap (λ (y : Node). y.next) h.chain.0)
        ∙ ap₂ (λ d e. record { data1 = d; data2 = e; next = first c l.size xs none }) x1_data.0
            x1_data.1

    abbrev a3 : ℕ → Node
    a3 = set a2 loc x3

    range_chain : Seg c l.size a3 ((u + 1, v) ∷ xs)
    range_chain = (
      get-set_self a2 loc x3 ∙ x3-node,
      Seg-set c l.size a2 loc x3 xs loc-Avoids (
          Seg-set c l.size a1 p x2 xs avoids
            (Seg-set c l.size l.seq loc x1 xs loc-Avoids h.chain.1)),
    )

    range_free :
        (q : ℕ)
        → q < l.size
        → Avoids c l.size q ((u + 1, v) ∷ xs)
        → ((a3 q).data1 ≡ minus_one) × ((a3 q).data2 ≡ minus_one)
    range_free q hq av = elim (ℕ_discrete p q) [
      | yes k ↦
          subst (λ i. ((a3 i).data1 ≡ minus_one) × ((a3 i).data2 ≡ minus_one)) k
            (rw (get-set_ne a2 loc p x3 (λ e. loc_ne (sym e)), get-set_self a1 p x2) (refl, refl))
      | no k ↦
          rw (get-set_ne a2 loc q x3 av.0 ∙ get-set_ne a1 p q x2 k ∙ get-set_ne l.seq loc q x1 av.0)
            (free_ne q hq k av.1)
    ]

    range : Holds (pop_range l p) c b ((u + 1, v) ∷ xs)
    unfolding pop_range
    range = record {
      size_pos = h.size_pos;
      ascends = (omega (arith, h.ascends.0), omega arith, h.ascends.2);
      span = h.span;
      near = h.near;
      chain = subst (λ a. Seg c l.size a ((u + 1, v) ∷ xs)) (sym pop_seq) range_chain;
      free =
          subst
            (λ a.
              (q : ℕ)
              → q < l.size
              → Avoids c l.size q ((u + 1, v) ∷ xs)
              → ((a q).data1 ≡ minus_one) × ((a q).data2 ≡ minus_one))
            (sym pop_seq) range_free;
      head_eq = ap some loc_eq;
      length_eq = rw h.length_eq (ground (arith, longer));
      hint = λ q e av. forgotten q e (av.1);
    }

  pop-eq : pop_lost_seq l ≡ (wrap u, if u == v then pop_single l p else pop_range l p)
  unfolding pop_lost_seq
  pop-eq =
      rw
        (
          not_empty,
          head_place,
          ap (λ (x : Node). x.data2) h.chain.0,
          single_test u v,
          ap (λ (x : Node). x.data1) h.chain.0,
        )
        (elim (Bool-cases (u == v)) [ inl e ↦ rw e refl | inr e ↦ rw e refl ])

  pop-Holds : Holds (if u == v then pop_single l p else pop_range l p) c b (rest ((u, v) ∷ xs))
  pop-Holds = elim (Bool-cases (u == v)) [
    | inl e ↦ rw e (single (ground (arith, e)))
    | inr e ↦ rw e (range (ground (arith, e, h.ascends.1)))
  ]

Lost-ge : (ys : List Range) (lo r : ℕ) → Ascends lo ys → Lost ys r → lo ≤ r
Lost-ge [] lo r o y = absurd y
Lost-ge ((p, q) ∷ ys) lo r o y = elim y [
  | inl z ↦ omega (arith, z.0, o.0)
  | inr z ↦ omega (arith, Lost-ge ys (q + 1) r o.2 z, o.0, o.1)
]

Lost-rest :
    (b u v q : ℕ) (xs : List Range)
    → Ascends b ((u, v) ∷ xs)
    → Lost (rest ((u, v) ∷ xs)) q ↔ (Lost ((u, v) ∷ xs) q × (u < q))
Lost-rest b u v q xs o = elim (Bool-cases (u == v)) [
  | inl e ↦ rw e (
    λ y. (inr y, omega (arith, o.1, Lost-ge xs (v + 1) q o.2 y)),
    λ y. elim y.0 [ inl z ↦ absurd (ground (arith, e, y.1, z.0, z.1)) | inr z ↦ z ],
  )
  | inr e ↦ rw e (
    λ y. elim y [
      | inl z ↦ (inl (omega (arith, z.0), z.1), omega (arith, z.0))
      | inr z ↦ (inr z, omega (arith, o.1, Lost-ge xs (v + 1) q o.2 z))
    ],
    λ y. elim y.0 [ inl z ↦ inl (omega (arith, y.1), z.1) | inr z ↦ inr z ],
  )
]

-- `popLostSeq` of a valid list gives -1 and changes nothing where no packet is lost. Otherwise it gives
-- the earliest lost packet, and leaves a valid list of exactly the lost packets after it.
pub pop_lost_seq_first :
    (l : SndLossList) (c b : ℕ) (xs : List Range)
    → Holds l c b xs
    → ((pop_lost_seq l ≡ (minus_one, l)) × ((q : ℕ) → ¬ Lost xs q))
      ⊎ ((s : ℕ) × (ys : List Range) × ((pop_lost_seq l).0 ≡ wrap s)
          × Lost xs s
          × Holds (pop_lost_seq l).1 c b ys
          × ((q : ℕ) → Lost ys q ↔ (Lost xs q × (q ≢ s)))
          × ((q : ℕ) → Lost xs q → s ≤ q))
unfolding pop_lost_seq
pop_lost_seq_first l c b [] h = inl (rw h.length_eq refl, λ q y. y)
pop_lost_seq_first l c b ((u, v) ∷ xs) h =
    let e = pop-eq l c b u v xs h in
    inr (
      u,
      rest ((u, v) ∷ xs),
      ap (λ r. r.0) e,
      inl (omega arith, h.ascends.1),
      subst (λ k. Holds k c b (rest ((u, v) ∷ xs))) (sym (ap (λ r. r.1) e))
          (pop-Holds l c b u v xs h),
      λ q. (
        λ y. let z = (Lost-rest b u v q xs h.ascends).0 y in (z.0, λ k. omega (arith, z.1, k)),
        λ y. (Lost-rest b u v q xs h.ascends).1 (
          y.0,
          omega (arith, Lost-ge ((u, v) ∷ xs) u q (omega arith, h.ascends.1, h.ascends.2) y.0, y.1),
        ),
      ),
      λ q y. Lost-ge ((u, v) ∷ xs) u q (omega arith, h.ascends.1, h.ascends.2) y,
    )
