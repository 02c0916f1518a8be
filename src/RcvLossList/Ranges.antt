-- ===== src/RcvLossList/Ranges.antt =====
-- The contents of a loss list: ascending ranges of packets of a stream that never wraps.
use swift_srt.Base.{
  ℕ, ◌+◌, ◌-◌, ◌<◌, ◌≤◌, ◌⊎◌, arith, ◌&&◌, List, [], ◌∷◌, if◌then◌else◌, ltb, ◌==◌,
}

abbrev pub Range : Type 0
Range = ℕ × ℕ

-- The ranges ascend from `lo` on, and do not overlap.
abbrev pub Ascends : ℕ → List Range → Type 0
Ascends lo [] = Unit
Ascends lo ((u, v) ∷ xs) = (lo ≤ u) × (u ≤ v) × Ascends (v + 1) xs

abbrev pub Below : ℕ → List Range → Type 0
Below top [] = Unit
Below top ((u, v) ∷ xs) = (v < top) × Below top xs

-- Packet `t` is lost.
abbrev pub Lost : List Range → ℕ → Type 0
Lost [] t = ⊥
Lost ((u, v) ∷ xs) t = ((u ≤ t) × (t ≤ v)) ⊎ Lost xs t

abbrev pub total : List Range → ℕ
total [] = 0
total ((u, v) ∷ xs) = (v - u + 1) + total xs

-- The ranges after new losses: they prolong a last range of several packets that ends just before
-- them, and else are a range of their own.
unfoldable pub push : List Range → ℕ → ℕ → List Range
push [] s t = (s, t) ∷ []
push ((u, v) ∷ []) s t = if ltb u v && v + 1 == s then (u, t) ∷ [] else (u, v) ∷ (s, t) ∷ []
push (x ∷ y ∷ xs) s t = x ∷ push (y ∷ xs) s t

pub Below-mono : (a b : ℕ) (xs : List Range) → a ≤ b → Below a xs → Below b xs
Below-mono a b [] h l = tt
Below-mono a b ((u, v) ∷ xs) h l = (omega arith, Below-mono a b xs h l.1)
