-- ===== src/UnitQueue/Find.antt =====
-- What the loops of `getNextAvailUnit` find.
use swift_srt.Base.{
  if_true, if_false, ℕ, zero, suc, ◌+◌, ◌-◌, ◌≤◌, ◌<◌, ◌≡◌, ◌≢◌, refl, sym, ◌∙◌, subst, true, false,
  Option, none, some, if◌then◌else◌, ◌==◌, arith, Bool-cases, ◌⊎◌, inl, inr, ==_of_ne, ==_of_eq,
  ℕ_discrete,
}
use swift_srt.RcvBuffer.{Flag}
use swift_srt.UnitQueue.{UnitQueue, is_free, scan, next_entry, find_unit}

is_free-eq : (f : Flag) → is_free f ≡ true → f ≡ Flag.free
is_free-eq Flag.free h = refl
is_free-eq Flag.good h = absurd (ground arith)
is_free-eq Flag.passack h = absurd (ground arith)
is_free-eq Flag.dropped h = absurd (ground arith)

no_truth : true ≡ false → suc zero ≤ zero
no_truth h = absurd (ground arith)

scan_found :
    (n : ℕ) (f : ℕ → Flag) (i : ℕ)
    → (scan n f i).0 ≡ true
    → ((scan n f i).1 < i + n) × (is_free (f (scan n f i).1) ≡ true)
unfolding scan
scan_found zero f i h = absurd (ground arith)
scan_found (suc n) f i h = elim (Bool-cases (is_free (f i))) [
  | inl e ↦ rw e (omega arith, e)
  | inr e ↦
      let r =
        scan_found n f (i + 1)
          (subst (λ t. (if t then (true, i) else scan n f (i + 1)).0 ≡ true) e h) in
      rw e (omega (arith, r.0), r.1)
]

scan_missed :
    (n : ℕ) (f : ℕ → Flag) (i : ℕ)
    → (scan n f i).0 ≡ false
    → (j : ℕ) → i ≤ j
    → j < i + n
    → is_free (f j) ≡ false
unfolding scan
scan_missed zero f i h j a b = absurd (omega arith)
scan_missed (suc n) f i h j a b = elim (Bool-cases (is_free (f i))) [
  | inl e ↦ absurd (
      omega
        (arith, no_truth (subst (λ t. (if t then (true, i) else scan n f (i + 1)).0 ≡ false) e h)))
  | inr e ↦ elim (ℕ_discrete i j) [
    | yes q ↦ subst (λ t. is_free (f t) ≡ false) q e
    | no q ↦
        scan_missed n f (i + 1)
          (subst (λ t. (if t then (true, i) else scan n f (i + 1)).0 ≡ false) e h) j
          (omega (arith, q)) (omega arith)
  ]
]

-- The entries from `c` on, `n` of a ring of `e`.
abbrev pub Ahead : ℕ → ℕ → ℕ → ℕ → Type 0
Ahead e c n k = (k < e) × ((c ≤ k × k < c + n) ⊎ (k + e < c + n))

-- The units that the loop looks at, but for those before `m_pAvailUnit` in its entry.
abbrev pub Looked : ℕ → ℕ → ℕ → ℕ → ℕ → Type 0
Looked size c avail k i = ((i + 1 < size) ⊎ (i ≡ 0)) × (k ≡ c → (avail ≤ i) ⊎ (i ≡ 0))

-- What the loop gives, after `n` entries at most.
pub data Outcome (q : UnitQueue) (n : ℕ) : Option (ℕ × ℕ) → UnitQueue → Type 0 where
  found :
      (k i : ℕ)
      → k < q.entries
      → i < q.entry_size
      → q.flag k i ≡ Flag.free
      → Outcome q n (some (k, i)) (record q { curr = k; avail = i })
  full :
      (c : ℕ)
      → c < q.entries
      → ((k i : ℕ)
          → Ahead q.entries q.curr n k
          → Looked q.entry_size q.curr q.avail k i
          → is_free (q.flag k i) ≡ false)
      → Outcome q n none (record q { curr = c; avail = 0 })

-- Before the last `n` entries up to the one that the loop started from.
abbrev pub Rest : ℕ → ℕ → ℕ → ℕ → Type 0
Rest e c entrance n = (c + n ≡ entrance) ⊎ (c + n ≡ entrance + e)

abbrev step_to : ℕ → ℕ → ℕ
step_to e c = if c + 1 == e then 0 else c + 1

step_lt : (e c : ℕ) → c < e → step_to e c < e
step_lt e c h = ground arith

step-Rest :
    (e c t n : ℕ)
    → c < e
    → t < e
    → suc n ≤ e
    → Rest e c t (suc n)
    → step_to e c ≢ t
    → Rest e (step_to e c) t n × (0 < n)
step-Rest e c t n a b d r h = ground arith

step_done : (e c t n : ℕ) → c < e → t < e → suc n ≤ e → Rest e c t (suc n) → step_to e c ≡ t → n ≡ 0
step_done e c t n a b d r h = ground arith

step-Ahead : (e c n k : ℕ) → c < e → Ahead e c (suc n) k → k ≢ c → Ahead e (step_to e c) n k
step-Ahead e c n k a (b, h) d = (b, ground arith)

one-Ahead : (e c k : ℕ) → c < e → Ahead e c 1 k → k ≡ c
one-Ahead e c k a (b, inl h) = omega (arith, h.0, h.1)
one-Ahead e c k a (b, inr h) = absurd (omega arith)

other {ℓ} : {A B : Type ℓ} → A ⊎ B → ¬ B → A
other (inl a) h = a
other (inr b) h = absurd (h b)

-- The units of the entry at hand.
curr_used :
    (q : UnitQueue) (i : ℕ)
    → (scan (q.entry_size - 1 - q.avail) (q.flag q.curr) q.avail).0 ≡ false
    → is_free (q.flag q.curr 0) ≡ false
    → q.avail < q.entry_size
    → Looked q.entry_size q.curr q.avail q.curr i
    → is_free (q.flag q.curr i) ≡ false
curr_used q i h z a (l, f) = elim (ℕ_discrete i 0) [
  | yes e ↦ subst (λ t. is_free (q.flag q.curr t) ≡ false) (sym e) z
  | no n ↦
      scan_missed (q.entry_size - 1 - q.avail) (q.flag q.curr) q.avail h i (other (f refl) n)
        (omega (arith, other l n))
]

at_curr :
    (q : UnitQueue) (i k : ℕ)
    → k ≡ q.curr
    → (scan (q.entry_size - 1 - q.avail) (q.flag q.curr) q.avail).0 ≡ false
    → is_free (q.flag q.curr 0) ≡ false
    → q.avail < q.entry_size
    → Looked q.entry_size q.curr q.avail k i
    → is_free (q.flag k i) ≡ false
at_curr q i k e h z a look =
    subst (λ t. is_free (q.flag t i) ≡ false) (sym e) (curr_used q i h z a (look.0, λ p. look.1 e))

further :
    (q : UnitQueue) (n : ℕ)
    → q.curr < q.entries
    → q.avail < q.entry_size
    → (scan (q.entry_size - 1 - q.avail) (q.flag q.curr) q.avail).0 ≡ false
    → is_free (q.flag q.curr 0) ≡ false
    → (o : Option (ℕ × ℕ)) (r : UnitQueue)
    → Outcome (record q { curr = next_entry q; avail = 0 }) n o r
    → Outcome q (suc n) o r
further q n c a h z o r (Outcome.found k i x y e) = Outcome.found k i x y e
further q n c a h z o r (Outcome.full t x u) = Outcome.full t x (λ k i ahead look.
    elim (ℕ_discrete k q.curr) [
      | yes e ↦ at_curr q i k e h z a look
      | no d ↦ u k i (step-Ahead q.entries q.curr n k c ahead d) (look.0, λ p. inl (omega arith))
    ])

pub find_unit-Outcome :
    (n entrance : ℕ) (q : UnitQueue)
    → q.curr < q.entries
    → q.avail < q.entry_size
    → entrance < q.entries
    → 0 < n
    → n ≤ q.entries
    → Rest q.entries q.curr entrance n
    → (o : Option (ℕ × ℕ)) × (r : UnitQueue) × (find_unit n entrance q ≡ some (o, r))
      × Outcome q n o r
unfolding find_unit
find_unit-Outcome zero t q c a d p l r = absurd (omega arith)
find_unit-Outcome (suc n) t q c a d p l r =
    let s = scan (q.entry_size - 1 - q.avail) (q.flag q.curr) q.avail in
    elim (Bool-cases s.0) [
      | inl e ↦
          let m = scan_found (q.entry_size - 1 - q.avail) (q.flag q.curr) q.avail e in
          (
            some (q.curr, s.1),
            record q { avail = s.1 },
            if_true _ _ e,
            Outcome.found q.curr s.1 c (omega (arith, m.0)) (is_free-eq _ m.1),
          )
      | inr e ↦ elim (Bool-cases (is_free (q.flag q.curr 0))) [
        | inl f ↦ (
          some (q.curr, 0),
          record q { avail = 0 },
          if_false _ _ e ∙ if_true _ _ f,
          Outcome.found q.curr 0 c (omega arith) (is_free-eq _ f),
        )
        | inr f ↦ elim (ℕ_discrete (next_entry q) t) [
          | yes g ↦ (
            none,
            record q { curr = next_entry q; avail = 0 },
            if_false _ _ e ∙ if_false _ _ f ∙ if_true _ _ (==_of_eq (next_entry q) t g),
            Outcome.full (next_entry q) (step_lt q.entries q.curr c) (λ k i ahead look.
                at_curr q i k
                  (one-Ahead q.entries q.curr k c (
                    subst (λ j. Ahead q.entries q.curr (suc j) k)
                      (step_done q.entries q.curr t n c d l r g) ahead))
                  e f a look),
          )
          | no g ↦
              let u = step-Rest q.entries q.curr t n c d l r g in
              let (o, q', x, y) =
                find_unit-Outcome n t (record q { curr = next_entry q; avail = 0 })
                  (step_lt q.entries q.curr c) (omega arith) d u.1 (omega arith) u.0 in
              (
                o,
                q',
                if_false _ _ e ∙ if_false _ _ f ∙ if_false _ _ (==_of_ne (next_entry q) t g) ∙ x,
                further q n c a e f o q' y,
              )
        ]
      ]
    ]
