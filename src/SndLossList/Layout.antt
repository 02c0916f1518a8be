-- ===== src/SndLossList/Layout.antt =====
-- How the array of the sender's list holds its ranges.
use swift_srt.Base.{
  ℕ, ◌+◌, ◌<◌, ◌≡◌, sym, ◌∙◌, List, [], ◌∷◌, if◌then◌else◌, ◌==◌, Option, none, some, pos,
  minus_one, set, get-set_ne,
}
use swift_srt.SeqNo.{wrap, seq_no_th}
use swift_srt.SndLossList.{Node, SndLossList}
use swift_srt.RcvLossList.Ranges.{Range, Ascends, Below, total}
use swift_srt.RcvLossList.Layout.{at, first, Avoids}

module _ (c m : ℕ) where
  abbrev pub node : ℕ → ℕ → Option ℕ → Node
  node u v n = record { data1 = wrap u; data2 = if u == v then minus_one else wrap v; next = n }

  abbrev pub Seg : (ℕ → Node) → List Range → Type 0
  Seg a [] = Unit
  Seg a ((u, v) ∷ xs) = (a (at c m u) ≡ node u v (first c m xs none)) × Seg a xs

  pub Seg-set :
      (a : ℕ → Node) (q : ℕ) (x : Node) (xs : List Range)
      → Avoids c m q xs
      → Seg a xs
      → Seg (set a q x) xs
  Seg-set a q x [] h s = tt
  Seg-set a q x ((u, v) ∷ xs) h s =
      (get-set_ne a q (at c m u) x (λ e. h.0 (sym e)) ∙ s.0, Seg-set a q x xs h.1 s.1)

-- The list `l` holds the ranges `xs`, all of packets from `b` on that are close enough to it for the
-- array and for the comparison of sequence numbers, all other places are empty, and the place that is
-- kept of the last insertion, if there is one, is that of a range.
pub record Holds (l : SndLossList) (c b : ℕ) (xs : List Range) : Type 0 where
  pub size_pos : 0 < l.size
  pub ascends : Ascends b xs
  pub span : Below (b + l.size) xs
  pub near : Below (b + seq_no_th) xs
  pub chain : Seg c l.size l.seq xs
  pub free :
      (q : ℕ)
      → q < l.size
      → Avoids c l.size q xs
      → ((l.seq q).data1 ≡ minus_one) × ((l.seq q).data2 ≡ minus_one)
  pub head_eq : l.head ≡ first c l.size xs none
  pub length_eq : l.length ≡ pos (total xs)
  pub hint : (q : ℕ) → l.last_insert_pos ≡ some q → ¬ Avoids c l.size q xs
