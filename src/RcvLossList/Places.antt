-- ===== src/RcvLossList/Places.antt =====
-- The place of a packet, as `insert` and `remove` compute it from the head.
use native.Mathlib.Nat.{mod-add-mod, mod-lt}
use swift_srt.Base.Round.{mod_once}
use swift_srt.Base.{
  ℕ, ◌+◌, ◌-◌, ◌%◌, ◌<◌, ◌≤◌, ◌≡◌, ◌≢◌, inl, inr, refl, sym, ap, ◌∙◌, arith, not, ◌&&◌, List, [],
  ◌∷◌, if◌then◌else◌, ltb, ◌==◌, Option, none, some, ℤ, pos, minus_one, ◌+ℤ◌, sub_ℕ, eqb_ℤ,
  Bool-cases, le→ltb, lt→ltb,
}
use swift_srt.SeqNo.{wrap, seq_no_th, seqoff, incseq}
use swift_srt.SeqNo.Unwrapped.{seqoff-wrap, incseq-wrap}
use swift_srt.SeqNo.Compare.{Near, wrap-eq}
use swift_srt.RcvLossList.{Node, index, write_range}
use swift_srt.RcvLossList.Ranges.{Range, Ascends, Below, total}
use swift_srt.RcvLossList.Layout.{at, node, first, Seg}

pub index_add : (p d m : ℕ) → index (pos p +ℤ pos d) m ≡ (p + d) % m
index_add p d m = ground arith

sub_of_le : (s f : ℕ) → f ≤ s → sub_ℕ s f ≡ pos (s - f)
sub_of_le s f h = ground arith

-- The place of packet `s`, found from the node of the first packet `f`.
pub place_of :
    (c m f s : ℕ)
    → f ≤ s
    → s < f + seq_no_th
    → index (pos (at c m f) +ℤ seqoff (wrap f) (wrap s)) m ≡ at c m s
place_of c m f s h k =
    rw
      (seqoff-wrap f s (omega arith) (omega arith), sub_of_le s f h, index_add (at c m f) (s - f) m)
      (mod-add-mod (c + f) m (s - f) ∙ ap (λ x. x % m) (omega arith))

-- The first node of a list that is not empty.
pub first_node :
    (c m b top : ℕ) (a : ℕ → Node) (xs : List Range)
    → xs ≢ []
    → Ascends b xs
    → Below top xs
    → Seg c m a none xs none
    → (f : ℕ) × (first c m xs none ≡ some (at c m f))
      × (b ≤ f)
      × (f < top)
      × ((a (at c m f)).data1 ≡ wrap f)
first_node c m b top a [] h o l g = absurd (h refl)
first_node c m b top a ((u, v) ∷ xs) h o l g =
    (u, refl, o.0, omega arith, ap (λ (n : Node). n.data1) g.0)

-- The test for a last range of several packets that ends just before `s`.
pub prolongs_last :
    (u v s : ℕ)
    → u ≤ v
    → Near (v + 1) s
    → (not (eqb_ℤ minus_one (if u == v then minus_one else wrap v))
        && eqb_ℤ (incseq (if u == v then minus_one else wrap v)) (wrap s))
      ≡ (ltb u v && v + 1 == s)
prolongs_last u v s h k = elim (Bool-cases (u == v)) [
  | inl e ↦ rw (e, le→ltb u v (ground arith))
  | inr n ↦ rw (n, lt→ltb u v (ground arith), incseq-wrap v, wrap-eq (v + 1) s k) (ground arith)
]

pub total_pos : (b : ℕ) (xs : List Range) → xs ≢ [] → 0 < total xs
total_pos b [] h = absurd (h refl)
total_pos b ((u, v) ∷ xs) h = omega arith

-- A range written to a node that is free.
pub write_fresh :
    (c m s t : ℕ) (n : Node) (p nx : Option ℕ)
    → Near t s
    → n.data2 ≡ minus_one
    → record (write_range (wrap s) (wrap t) n) { prior = p; next = nx } ≡ node c m s t p nx
write_fresh c m s t n p nx k e =
    rw (wrap-eq t s k, e)
      (ap (λ d. record { data1 = wrap s; data2 = d; next = nx; prior = p }) (swap_test (wrap t)))
  where
    swap_test : (d : ℤ) → (if t == s then minus_one else d) ≡ (if s == t then minus_one else d)
    swap_test d = ground arith

-- The offset by which packet `s` has place 0.
pub first_place : (m s : ℕ) → 0 < m → at (m - s % m) m s ≡ 0
first_place m s h =
    ap (λ x. x % m) (omega arith)
    ∙ sym (mod-add-mod s m (m - s % m))
    ∙ ap (λ x. x % m) (omega (arith, mod-lt s h))
    ∙ mod_self m h
  where
    mod_self : (k : ℕ) → 0 < k → k % k ≡ 0
    mod_self k hk = ground (arith, mod_once k k)
