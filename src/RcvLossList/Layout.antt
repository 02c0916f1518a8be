-- ===== src/RcvLossList/Layout.antt =====
-- How the array of the list holds its ranges.
use native.Mathlib.Nat.{mod-add-mod, mod-lt}
use swift_srt.Base.{
  ℕ, ◌+◌, ◌-◌, ◌%◌, ◌<◌, ◌≡◌, ◌≢◌, sym, ap, ◌∙◌, arith, List, [], ◌∷◌, if◌then◌else◌, ◌==◌, Option,
  none, some, pos, minus_one, set, get-set_ne,
}
use swift_srt.SeqNo.{wrap, seq_no_th}
use swift_srt.Base.Round.{mod_once}
use swift_srt.RcvLossList.{Node, RcvLossList}
use swift_srt.RcvLossList.Ranges.{Range, Ascends, Below, total}

-- `c` says which packet has place 0; `m` is the size of the array.
module _ (c m : ℕ) where
  abbrev pub at : ℕ → ℕ
  at u = (c + u) % m

  -- The node of the range from `u` to `v`.
  abbrev pub node : ℕ → ℕ → Option ℕ → Option ℕ → Node
  node u v p n = record {
    data1 = wrap u;
    data2 = if u == v then minus_one else wrap v;
    next = n;
    prior = p;
  }

  abbrev pub first : List Range → Option ℕ → Option ℕ
  first [] n = n
  first ((u, v) ∷ xs) n = some (at u)

  abbrev pub last : Option ℕ → List Range → Option ℕ
  last p [] = p
  last p ((u, v) ∷ xs) = last (some (at u)) xs

  -- The nodes of the ranges, linked from `p` before them to `n` behind them.
  abbrev pub Seg : (ℕ → Node) → Option ℕ → List Range → Option ℕ → Type 0
  Seg a p [] n = Unit
  Seg a p ((u, v) ∷ xs) n = (a (at u) ≡ node u v p (first xs n)) × Seg a (some (at u)) xs n

  -- No range has its node at place `q`.
  abbrev pub Avoids : ℕ → List Range → Type 0
  Avoids q [] = Unit
  Avoids q ((u, v) ∷ xs) = (at u ≢ q) × Avoids q xs

  pub Seg-set :
      (a : ℕ → Node) (q : ℕ) (x : Node) (p : Option ℕ) (xs : List Range) (n : Option ℕ)
      → Avoids q xs
      → Seg a p xs n
      → Seg (set a q x) p xs n
  Seg-set a q x p [] n h s = tt
  Seg-set a q x p ((u, v) ∷ xs) n h s =
      (get-set_ne a q (at u) x (λ e. h.0 (sym e)) ∙ s.0, Seg-set a q x (some (at u)) xs n h.1 s.1)

  -- Two packets less than the size of the array apart have different places.
  pub at-ne : (u w : ℕ) → u < w → w < u + m → at u ≢ at w
  at-ne u w h k e =
      differ (at u) (w - u) (mod-lt (c + u) (omega arith)) (omega arith) (omega arith)
        ((mod-add-mod (c + u) m (w - u) ∙ ap (λ x. x % m) (omega arith)) ∙ sym e)
    where
      differ : (x d : ℕ) → x < m → 0 < d → d < m → (x + d) % m ≢ x
      differ x d hx hd hm q = ground (arith, mod_once (x + d) m)

  -- A packet after all the ranges has a place of its own.
  pub Avoids-at :
      (b s : ℕ) (xs : List Range) → Ascends b xs → Below s xs → s < b + m → Avoids (at s) xs
  Avoids-at b s [] o l k = tt
  Avoids-at b s ((u, v) ∷ xs) o l k =
      (at-ne u s (omega arith) (omega arith), Avoids-at (v + 1) s xs o.2 l.1 (omega arith))

-- The list `l` holds the ranges `xs`, all of packets from `b` on that are close enough to it for the
-- array and for the comparison of sequence numbers.
pub record Holds (l : RcvLossList) (c b : ℕ) (xs : List Range) : Type 0 where
  pub size_pos : 0 < l.size
  pub ascends : Ascends b xs
  pub span : Below (b + l.size) xs
  pub near : Below (b + seq_no_th) xs
  pub chain : Seg c l.size l.seq none xs none
  pub free :
      (q : ℕ)
      → q < l.size
      → Avoids c l.size q xs
      → ((l.seq q).data1 ≡ minus_one) × ((l.seq q).data2 ≡ minus_one)
  pub head_eq : l.head ≡ first c l.size xs none
  pub tail_eq : xs ≢ [] → l.tail ≡ last c l.size none xs
  pub length_eq : l.length ≡ pos (total xs)
