-- ===== src/Fec/Sums.antt =====
-- The clip and the number of the packets that a test chooses.
use swift_srt.Base.{
  ℕ, zero, suc, ◌+◌, ◌≤◌, ◌<◌, ◌≡◌, refl, sym, Bool, true, false, if◌then◌else◌, set, arith,
  Bool-cases, get-set_self, get-set_ne, inl, inr, ℕ_discrete, subst,
}
use swift_srt.Base.Xor.{bit_xor_zero}
use swift_srt.Fec.{Clip, no_clip}
use swift_srt.Fec.Clips.{merge, merge_right, Within}

abbrev pub sum_below : (ℕ → Clip) → (ℕ → Bool) → ℕ → Clip
sum_below c f zero = no_clip
sum_below c f (suc n) = let rest = sum_below c f n in if f n then merge rest (c n) else rest

abbrev pub count_below : (ℕ → Bool) → ℕ → ℕ
count_below f zero = 0
count_below f (suc n) = let rest = count_below f n in if f n then rest + 1 else rest

pub sum_cong :
    (c : ℕ → Clip) (f g : ℕ → Bool) (n : ℕ)
    → ((i : ℕ) → i < n → f i ≡ g i)
    → sum_below c f n ≡ sum_below c g n
sum_cong c f g zero h = refl
sum_cong c f g (suc n) h = rw (h n (omega arith), sum_cong c f g n (λ i lt. h i (omega arith))) refl

pub count_cong :
    (f g : ℕ → Bool) (n : ℕ) → ((i : ℕ) → i < n → f i ≡ g i) → count_below f n ≡ count_below g n
count_cong f g zero h = refl
count_cong f g (suc n) h = rw (h n (omega arith), count_cong f g n (λ i lt. h i (omega arith))) refl

set_below : (f : ℕ → Bool) (n k : ℕ) → n ≤ k → (i : ℕ) → i < n → set f k true i ≡ f i
set_below f n k h i lt = get-set_ne f k i true (λ e. omega (arith, e))

merge_if :
    (b : Bool) (s c d : Clip)
    → (if b then merge (merge s d) c else merge s d) ≡ merge (if b then merge s c else s) d
merge_if true s c d = merge_right s d c
merge_if false s c d = refl

count_if : (b : Bool) (n : ℕ) → (if b then n + 1 + 1 else n + 1) ≡ (if b then n + 1 else n) + 1
count_if true n = refl
count_if false n = refl

pub sum_set :
    (c : ℕ → Clip) (f : ℕ → Bool) (n k : ℕ)
    → k < n
    → f k ≡ false
    → sum_below c (set f k true) n ≡ merge (sum_below c f n) (c k)
sum_set c f zero k h e = absurd (omega arith)
sum_set c f (suc n) k h e = elim (ℕ_discrete k n) [
  | yes q ↦
      subst (λ j. sum_below c (set f j true) (suc n) ≡ merge (sum_below c f (suc n)) (c j)) (sym q)
        (rw
          (
            get-set_self f n true,
            sum_cong c (set f n true) f n (set_below f n n (omega arith)),
            subst (λ j. f j ≡ false) q e,
          )
          refl)
  | no q ↦
      rw (get-set_ne f k n true q, sum_set c f n k (omega (arith, q)) e)
        (merge_if (f n) (sum_below c f n) (c n) (c k))
]

pub count_set :
    (f : ℕ → Bool) (n k : ℕ)
    → k < n
    → f k ≡ false
    → count_below (set f k true) n ≡ count_below f n + 1
count_set f zero k h e = absurd (omega arith)
count_set f (suc n) k h e = elim (ℕ_discrete k n) [
  | yes q ↦
      subst (λ j. count_below (set f j true) (suc n) ≡ count_below f (suc n) + 1) (sym q)
        (rw
          (
            get-set_self f n true,
            count_cong (set f n true) f n (set_below f n n (omega arith)),
            subst (λ j. f j ≡ false) q e,
          )
          refl)
  | no q ↦
      rw (get-set_ne f k n true q, count_set f n k (omega (arith, q)) e)
        (count_if (f n) (count_below f n))
]

pub count_le : (f : ℕ → Bool) (n : ℕ) → count_below f n ≤ n
count_le f zero = omega arith
count_le f (suc n) = ground (arith, count_le f n)

-- A packet below `n` that is not chosen.
pub count_lt : (f : ℕ → Bool) (n k : ℕ) → k < n → f k ≡ false → count_below f n < n
count_lt f n k h e = omega (arith, count_set f n k h e, count_le (set f k true) n)

pub sum-Within :
    (c : ℕ → Clip) (f : ℕ → Bool) (n size : ℕ)
    → ((i : ℕ) → i < n → Within size (c i))
    → Within size (sum_below c f n)
sum-Within c f zero size h i le = refl
sum-Within c f (suc n) size h i le = elim (Bool-cases (f n)) [
  | inl q ↦
      rw (q, sum-Within c f n size (λ j lt. h j (omega arith)) i le, h n (omega arith) i le)
        (bit_xor_zero 0)
  | inr q ↦ rw (q, sum-Within c f n size (λ j lt. h j (omega arith)) i le) refl
]

pub count_none : (n : ℕ) → count_below (λ i. false) n ≡ 0
count_none zero = refl
count_none (suc n) = count_none n

pub sum_none : (c : ℕ → Clip) (n : ℕ) → sum_below c (λ i. false) n ≡ no_clip
sum_none c zero = refl
sum_none c (suc n) = sum_none c n
