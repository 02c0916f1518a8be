-- ===== src/RcvBuffer/Contents.antt =====
-- The receive buffer as a queue of the acknowledged units, and the places behind them.
use swift_srt.Base.{
  ℕ, ◌+◌, ◌-◌, ◌<◌, ◌≤◌, ◌≡◌, ◌≢◌, ◌⊎◌, sym, ◌∙◌, Option, some, List, [], ◌∷◌, ◌++◌, if◌then◌else◌,
  ltb, set, get-set_ne, length, drop, arith,
}
use swift_srt.RcvBuffer.{RcvUnit, RcvBuffer, get_rcv_data_size, next_place}

-- The place `i` places behind `p`, once round at most.
abbrev pub place_at : ℕ → ℕ → ℕ → ℕ
place_at size p i = if ltb (p + i) size then p + i else p + i - size

-- The units, from `p` on.
unfoldable pub Holds : (ℕ → Option RcvUnit) → ℕ → ℕ → List RcvUnit → Type 0
Holds unit size p [] = Unit {0}
Holds unit size p (u ∷ us) = (unit p ≡ some u) × Holds unit size (next_place size p) us

abbrev pub bytes_of : List RcvUnit → List ℕ
bytes_of [] = []
bytes_of (u ∷ us) = u.data_bytes ++ bytes_of us

-- The notch is inside the first unit.
abbrev pub NotchFits : ℕ → List RcvUnit → Type 0
NotchFits n [] = n ≡ 0
NotchFits n (u ∷ us) = (n ≡ 0) ⊎ (n < length u.data_bytes)

-- The acknowledged units are `us`.
pub record Valid (b : RcvBuffer) (us : List RcvUnit) : Type 0 where
  pub started : b.start_pos < b.size
  pub room : length us < b.size
  pub last_eq : b.last_ack_pos ≡ place_at b.size b.start_pos (length us)
  pub holds : Holds b.unit b.size b.start_pos us
  pub notch_fits : NotchFits b.notch us

-- The bytes that can be read.
abbrev pub content : RcvBuffer → List RcvUnit → List ℕ
content b us = drop b.notch (bytes_of us)

pub data_size-eq :
    (b : RcvBuffer) (us : List RcvUnit) → Valid b us → get_rcv_data_size b ≡ length us
data_size-eq b us v = ground arith

pub place_at-next :
    (size p i : ℕ)
    → p < size
    → i + 1 < size
    → place_at size (next_place size p) i ≡ place_at size p (i + 1)
place_at-next size p i h k = ground arith

pub next_place_lt : (size p : ℕ) → p < size → next_place size p < size
next_place_lt size p h = ground arith

-- A place not among those of the units may change.
pub set-Holds :
    (unit : ℕ → Option RcvUnit) (size p q : ℕ) (x : Option RcvUnit) (us : List RcvUnit)
    → p < size
    → length us ≤ size
    → ((i : ℕ) → i < length us → place_at size p i ≢ q)
    → Holds unit size p us
    → Holds (set unit q x) size p us
unfolding Holds
set-Holds unit size p q x [] h k f v = v
set-Holds unit size p q x (u ∷ us) h k f (e, v) = (
  get-set_ne unit q p x (λ y. f 0 (omega arith) (ground (arith, y, h))) ∙ e,
  set-Holds unit size (next_place size p) q x us (next_place_lt size p h) (omega arith)
      (λ i l y. f (i + 1) (omega arith) (sym (place_at-next size p i h (omega (arith, k, l))) ∙ y))
      v,
)
