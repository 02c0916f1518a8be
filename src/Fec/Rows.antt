-- ===== src/Fec/Rows.antt =====
-- The arrivals of a row, and what is left of it without one packet.
use mathlib.Core.Path.{fun_ext}
use swift_srt.Base.{
  ℕ, zero, suc, ◌+◌, ◌*◌, ◌≤◌, ◌<◌, ◌≡◌, refl, sym, ap, subst, ◌∙◌, ◌&&◌, not, Bool, true, false,
  Option, some, none, List, [], ◌∷◌, arith, ℤ, ltb, leb, ◌==◌, set, Bool-cases, inl, inr,
  get-set_self, get-set_ne, ℕ_discrete,
}
use swift_srt.Fec.{SourcePacket, Clip, ControlPacket, Config}
use swift_srt.Fec.Clips.{merge, merge_back}
use swift_srt.Fec.Sums.{sum_below, count_below, sum_set, count_set, sum_cong, count_cong}
use swift_srt.Fec.Sends.{all}
use swift_srt.Fec.Receiver.{Receiver, Arrival, receiver}
use swift_srt.Fec.Receive.{receive}

-- What comes in: a data packet of the stream `p` by its place, or the control packet.
abbrev pub arrival : (ℕ → SourcePacket) → ControlPacket → Option ℕ → Arrival
arrival p c none = Arrival.control c
arrival p c (some i) = Arrival.source (p i)

-- A new receiver after some arrivals, of which the last is the first of the list.
abbrev pub after : Config → ℤ → (ℕ → SourcePacket) → ControlPacket → List (Option ℕ) → Receiver
after cfg isn p c [] = receiver cfg isn
after cfg isn p c (x ∷ xs) = (receive cfg (arrival p c x) (after cfg isn p c xs)).receiver

-- Whether a data packet is among the arrivals, and whether the control packet is.
abbrev pub came : List (Option ℕ) → ℕ → Bool
came [] i = false
came (none ∷ xs) i = came xs i
came (some j ∷ xs) i = set (came xs) j true i

abbrev pub checked : List (Option ℕ) → Bool
checked [] = false
checked (none ∷ xs) = true
checked (some j ∷ xs) = checked xs

abbrev pub arrived : List (Option ℕ) → Option ℕ → Bool
arrived xs none = checked xs
arrived xs (some i) = came xs i

pub set_known : (f : ℕ → Bool) (i : ℕ) → f i ≡ true → f ≡ set f i true
set_known f i h = fun_ext (λ j. elim (ℕ_discrete i j) [
  | yes q ↦ ap f (sym q) ∙ h ∙ subst (λ t. true ≡ set f i true t) q (sym (get-set_self f i true))
  | no q ↦ sym (get-set_ne f i j true q)
])

pub one_mul : (n : ℕ) → 1 * n ≡ n
one_mul n = omega arith

pub count_all : (n : ℕ) → count_below all n ≡ n
count_all zero = refl
count_all (suc n) = omega (arith, count_all n)

pub came_later :
    (x : Option ℕ) (xs : List (Option ℕ)) (i : ℕ) → came xs i ≡ true → came (x ∷ xs) i ≡ true
came_later none xs i h = h
came_later (some j) xs i h = ground arith

pub incomplete_eq : (ctl : Bool) (k n : ℕ) → (ctl && leb n k) ≡ false → (ctl && (k == n)) ≡ false
incomplete_eq true k n h = ground arith
incomplete_eq false k n h = refl

pub incomplete_le :
    (ctl : Bool) (j k n : ℕ) → j ≤ k → (ctl && leb n k) ≡ false → (ctl && leb n j) ≡ false
incomplete_le true j k n l h = ground arith
incomplete_le false j k n l h = refl

pub incomplete_before :
    (n : ℕ) (x : Option ℕ) (xs : List (Option ℕ))
    → ((i : ℕ) → came (x ∷ xs) i ≡ true → i < n)
    → (checked (x ∷ xs) && leb n (count_below (came (x ∷ xs)) n + 1)) ≡ false
    → (checked xs && leb n (count_below (came xs) n + 1)) ≡ false
incomplete_before n none xs h e = elim (Bool-cases (checked xs)) [
  | inl q ↦ rw q e
  | inr q ↦ rw q refl
]
incomplete_before n (some i) xs h e = elim (Bool-cases (came xs i)) [
  | inl known ↦
      subst (λ f. (checked xs && leb n (count_below f n + 1)) ≡ false)
        (sym (set_known (came xs) i known)) e
  | inr fresh ↦
      incomplete_le (checked xs) (count_below (came xs) n + 1)
        (count_below (set (came xs) i true) n + 1) n
        (omega (arith, count_set (came xs) n i (h i (get-set_self (came xs) i true)) fresh)) e
]

-- All packets below `n` but `k`.
abbrev pub all_but : ℕ → ℕ → ℕ → Bool
all_but n k i = ltb i n && not (i == k)

pub test_off : (s t : Bool) → t ≡ false → (s && t) ≡ false
test_off true t h = h
test_off false t h = refl

pub all_but_lt : (n k i : ℕ) → all_but n k i ≡ true → i < n
all_but_lt n k i h = ground arith

pub set-all_but : (n k i : ℕ) → i < n → set (all_but n k) k true i ≡ true
set-all_but n k i h = ground arith

pub all_but_self : (n k : ℕ) → all_but n k k ≡ false
all_but_self n k = ground arith

pub all_but_before : (n k j : ℕ) → k < n → j < k → all_but n k j ≡ true
all_but_before n k j h l = ground arith

pub count_all_but : (n k : ℕ) → k < n → count_below (all_but n k) n + 1 ≡ n
count_all_but n k h =
    sym (count_set (all_but n k) n k h (all_but_self n k))
    ∙ count_cong (set (all_but n k) k true) all n (set-all_but n k)
    ∙ count_all n

-- The clip of all packets takes those of all but one away.
pub sum_all_but :
    (c : ℕ → Clip) (n k : ℕ) → k < n → merge (sum_below c (all_but n k) n) (sum_below c all n) ≡ c k
sum_all_but c n k h =
    ap (merge (sum_below c (all_but n k) n)) (
      sym (sum_cong c (set (all_but n k) k true) all n (set-all_but n k))
      ∙ sum_set c (all_but n k) n k h (all_but_self n k))
    ∙ merge_back (sum_below c (all_but n k) n) (c k)
