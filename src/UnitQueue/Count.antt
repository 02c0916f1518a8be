-- ===== src/UnitQueue/Count.antt =====
-- The count of the units in use.
use swift_srt.Base.{
  ℕ, zero, suc, ◌+◌, ◌*◌, ◌≤◌, ◌<◌, ◌≡◌, refl, ap, ◌∙◌, subst, Bool, true, false, if◌then◌else◌,
  set, arith, Bool-cases, inl, inr, ℕ_discrete, get-set_self, get-set_ne,
}
use swift_srt.RcvBuffer.{Flag}
use swift_srt.UnitQueue.{is_free, used_in, real_count, with_flag}

used_cong : (f g : ℕ → Flag) (n : ℕ) → ((i : ℕ) → i < n → f i ≡ g i) → used_in f n ≡ used_in g n
used_cong f g zero h = refl
used_cong f g (suc n) h = rw (h n (omega arith), used_cong f g n (λ i l. h i (omega arith))) refl

count_cong :
    (f g : ℕ → ℕ → Flag) (n m : ℕ)
    → ((k : ℕ) → k < m → f k ≡ g k)
    → real_count f n m ≡ real_count g n m
count_cong f g n zero h = refl
count_cong f g n (suc m) h =
    rw (h m (omega arith), count_cong f g n m (λ i l. h i (omega arith))) refl

weigh : (t : Bool) (u : ℕ) → (if t then u else u + 1) ≡ u + (if t then 0 else 1)
weigh true u = omega arith
weigh false u = refl

pub used_none : (n : ℕ) → used_in (λ i. Flag.free) n ≡ 0
used_none zero = refl
used_none (suc n) = used_none n

used_le : (f : ℕ → Flag) (n : ℕ) → used_in f n ≤ n
used_le f zero = omega arith
used_le f (suc n) = ground (arith, used_le f n)

suc_add : (m : ℕ) → suc m ≡ m + 1
suc_add m = omega arith

pub add_mul : (m n : ℕ) → (m + 1) * n ≡ m * n + n
add_mul m n = omega arith

suc_mul : (m n : ℕ) → suc m * n ≡ m * n + n
suc_mul m n = omega arith

pub count_le : (f : ℕ → ℕ → Flag) (n m : ℕ) → real_count f n m ≤ m * n
count_le f n zero = omega arith
count_le f n (suc m) = omega (arith, suc_mul m n, count_le f n m, used_le (f m) n)

-- What a unit weighs.
abbrev pub weight : Flag → ℕ
weight v = if is_free v then 0 else 1

used-suc : (f : ℕ → Flag) (n : ℕ) → used_in f (suc n) ≡ used_in f n + weight (f n)
used-suc f n = weigh (is_free (f n)) (used_in f n)

used_set :
    (f : ℕ → Flag) (n i : ℕ) (v : Flag)
    → i < n
    → used_in (set f i v) n + weight (f i) ≡ used_in f n + weight v
used_set f zero i v h = absurd (omega arith)
used_set f (suc n) i v h = elim (ℕ_discrete i n) [
  | yes q ↦ omega (
    arith,
    used-suc (set f i v) n,
    used-suc f n,
    ap (λ t. weight (f t)) q,
    used_cong (set f i v) f n (λ j l. get-set_ne f i j v (λ e. omega (arith, e, q))),
    subst (λ t. weight (set f i v t) ≡ weight v) q (ap weight (get-set_self f i v)),
  )
  | no q ↦ omega (
    arith,
    used-suc (set f i v) n,
    used-suc f n,
    used_set f n i v (omega (arith, q)),
    ap weight (get-set_ne f i n v q),
  )
]

pub count_set :
    (f : ℕ → ℕ → Flag) (n m k i : ℕ) (v : Flag)
    → k < m
    → i < n
    → real_count (with_flag f k i v) n m + weight (f k i) ≡ real_count f n m + weight v
count_set f n zero k i v a b = absurd (omega arith)
count_set f n (suc m) k i v a b = elim (ℕ_discrete k m) [
  | yes q ↦ omega (
    arith,
    used_set (f k) n i v b,
    ap (λ t. used_in (f t) n) q,
    count_cong (with_flag f k i v) f n m
        (λ j l. get-set_ne f k j (set (f k) i v) (λ e. omega (arith, e, q))),
    subst (λ t. used_in (with_flag f k i v t) n ≡ used_in (set (f k) i v) n) q
        (ap (λ g. used_in g n) (get-set_self f k (set (f k) i v))),
  )
  | no q ↦ omega (
    arith,
    count_set f n m k i v (omega (arith, q)) b,
    ap (λ g. used_in g n) (get-set_ne f k m (set (f k) i v) q),
  )
]

pub new_entry :
    (f : ℕ → ℕ → Flag) (n m : ℕ)
    → real_count (set f m (λ i. Flag.free)) n (m + 1) ≡ real_count f n m
new_entry f n m =
    let e : real_count (set f m (λ i. Flag.free)) n m ≡ real_count f n m =
      count_cong (set f m (λ i. Flag.free)) f n m
        (λ k l. get-set_ne f m k (λ i. Flag.free) (λ q. omega (arith, q))) in
    let u : used_in (set f m (λ i. Flag.free) m) n ≡ 0 =
      ap (λ g. used_in g n) (get-set_self f m (λ i. Flag.free)) ∙ used_none n in
    subst (λ t. real_count (set f m (λ i. Flag.free)) n t ≡ real_count f n m) (suc_add m)
      (omega (arith, e, u))

-- With as many units in use as there are, none is free.
pub all_used :
    (f : ℕ → ℕ → Flag) (n m k i : ℕ)
    → m * n ≤ real_count f n m
    → k < m
    → i < n
    → is_free (f k i) ≡ false
all_used f n m k i h a b = elim (Bool-cases (is_free (f k i))) [
  | inl e ↦ absurd (
      omega (
        arith,
        count_set f n m k i Flag.good a b,
        count_le (with_flag f k i Flag.good) n m,
        ap (λ (t : Bool). if t then zero else suc zero) e,
      ))
  | inr e ↦ e
]
