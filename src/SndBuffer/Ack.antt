-- ===== src/SndBuffer/Ack.antt =====
-- `ackData` and `dropLateData` let blocks go from the front of the buffer.
use swift_srt.Base.{
  ℕ, zero, suc, ◌+◌, ◌-◌, ◌<◌, ◌≤◌, ◌≡◌, ◌≢◌, refl, sym, ap, ap₂, dec_lt, ◌∙◌, arith, Bool, true,
  false, ◌&&◌, ◌||◌, ltb, leb, ◌==◌, if◌then◌else◌, ==_of_eq, ==_of_ne, ℤ, pos, ◌+ℤ◌, ◌-ℤ◌, lt→ltb,
  le→ltb, ℕ_discrete,
}
use swift_srt.SndBuffer.{Block, SndBuffer, pass, ack_data}

-- The block that is `k` steps behind `p`.
abbrev pub walk : (ℕ → Block) → ℕ → ℕ → ℕ
walk a zero p = p
walk a (suc k) p = walk a k (a p).next

-- The bytes of `k` blocks from `p` on.
abbrev pub bytes : (ℕ → Block) → ℕ → ℕ → ℕ
bytes a zero p = 0
bytes a (suc k) p = (a p).length + bytes a k (a p).next

-- The buffer has `n` packets in a row of blocks from the first up to the last, which is not in use; `k`
-- of them are sent.
pub record Valid (s : SndBuffer) (n k : ℕ) : Type 0 where
  pub sent : k ≤ n
  pub last_eq : s.last_block ≡ walk s.block n s.first_block
  pub curr_eq : s.curr_block ≡ walk s.block k s.first_block
  pub distinct :
      (i j : ℕ) → i < j → j ≤ n → walk s.block i s.first_block ≢ walk s.block j s.first_block
  pub count_eq : s.count ≡ pos n
  pub bytes_eq : s.bytes_count ≡ pos (bytes s.block n s.first_block)

walk_add : (a : ℕ → Block) (i j p : ℕ) → walk a i (walk a j p) ≡ walk a (j + i) p
walk_add a i zero p = let e : i ≡ 0 + i = omega arith in ap (λ k. walk a k p) e
walk_add a i (suc j) p =
    let e : suc (j + i) ≡ suc j + i = omega arith in
    walk_add a i j (a p).next ∙ ap (λ k. walk a k p) e

bytes_add : (a : ℕ → Block) (i j p : ℕ) → bytes a (j + i) p ≡ bytes a j p + bytes a i (walk a j p)
bytes_add a i zero p = let e : 0 + i ≡ i = omega arith in ap (λ k. bytes a k p) e ∙ omega arith
bytes_add a i (suc j) p =
    let e : suc j + i ≡ suc (j + i) = omega arith in
    let r = bytes_add a i j (a p).next in ap (λ k. bytes a k p) e ∙ omega (arith, r)

-- Some of `r` blocks from `p` on is the current one.
abbrev meets : SndBuffer → ℕ → ℕ → Bool
meets s zero p = false
meets s (suc r) p = (p == s.curr_block) || meets s r (s.block p).next

abbrev passed : ℕ → ℤ → Bool → ℕ × ℤ × Bool
passed p b m = (p, b, m)

pass-eq :
    (s : SndBuffer) (r p : ℕ) (b : ℕ) (m : Bool)
    → pass s r p (pos b) m ≡ (walk s.block r p, pos (b + bytes s.block r p), m || meets s r p)
unfolding pass
pass-eq s zero p b m = ap₂ (λ x y. passed p (pos x) y) (omega arith) (or_false m)
  where
    or_false : (x : Bool) → x ≡ (x || false)
    or_false true = refl
    or_false false = refl
pass-eq s (suc r) p b m =
    ap (λ x. pass s r (s.block p).next x (m || p == s.curr_block)) (pos_add b (s.block p).length)
    ∙ pass-eq s r (s.block p).next (b + (s.block p).length) (m || p == s.curr_block)
    ∙ ap₂ (λ x y. passed (walk s.block r (s.block p).next) (pos x) y) (omega arith)
        (or_assoc m (p == s.curr_block) (meets s r (s.block p).next))
  where
    pos_add : (x y : ℕ) → pos x +ℤ pos y ≡ pos (x + y)
    pos_add x y = ground arith

    or_assoc : (x y z : Bool) → ((x || y) || z) ≡ (x || (y || z))
    or_assoc true y z = refl
    or_assoc false y z = refl

-- Among the first blocks of a valid buffer, the current one is met after the `k` packets sent.
meets-eq :
    (s : SndBuffer) (n k r j : ℕ)
    → Valid s n k
    → j + r ≤ n
    → meets s r (walk s.block j s.first_block) ≡ (leb j k && ltb k (j + r))
meets-eq s n k zero j v h = ground arith
meets-eq s n k (suc r) j v h =
    let step : walk s.block 1 (walk s.block j s.first_block) ≡ walk s.block (j + 1) s.first_block =
      walk_add s.block 1 j s.first_block in
    let rest = meets-eq s n k r (j + 1) v (omega arith) in
    elim (ℕ_discrete j k) [
      | yes e ↦
          rw
            (==_of_eq (walk s.block j s.first_block) s.curr_block
              (ap (λ i. walk s.block i s.first_block) e ∙ sym v.curr_eq))
            (ground (arith, e))
      | no e ↦
          rw
            (
              ==_of_ne (walk s.block j s.first_block) s.curr_block (λ q. apart e (q ∙ v.curr_eq)),
              step,
              rest,
            )
            (ground (arith, e))
    ]
  where
    apart : j ≢ k → walk s.block j s.first_block ≢ walk s.block k s.first_block
    apart e q = elim (dec_lt j k) [
      | yes l ↦ v.distinct j k l v.sent q
      | no l ↦ v.distinct k j (omega (arith, e)) (omega arith) (sym q)
    ]

-- The buffer with `p` as its first block.
abbrev released : SndBuffer → ℕ → ℕ → Bool → ℕ → SndBuffer
released s r p m b = record s {
  first_block = p;
  curr_block = if m then p else s.curr_block;
  count = s.count -ℤ pos r;
  bytes_count = s.bytes_count -ℤ pos b;
}

ack_data-eq :
    (s : SndBuffer) (n k r : ℕ)
    → Valid s n k
    → r ≤ n
    → ack_data s r
      ≡ released s r (walk s.block r s.first_block) (ltb k r) (bytes s.block r s.first_block)
unfolding ack_data
ack_data-eq s n k r v h =
    let e = pass-eq s r s.first_block 0 false in
    let m = meets-eq s n k r 0 v (omega arith) in
    rw (e, m)
      (ap₂ (released s r (walk s.block r s.first_block)) (tests k r)
        (zero_left (bytes s.block r s.first_block)))
  where
    tests : (x y : ℕ) → (leb 0 x && ltb x (0 + y)) ≡ ltb x y
    tests x y = ground arith

    zero_left : (x : ℕ) → 0 + x ≡ x
    zero_left x = omega arith

walk_split : (a : ℕ → Block) (n r p : ℕ) → r ≤ n → walk a n p ≡ walk a (n - r) (walk a r p)
walk_split a n r p h =
    let e : n ≡ r + (n - r) = omega arith in ap (λ k. walk a k p) e ∙ sym (walk_add a (n - r) r p)

bytes_split :
    (a : ℕ → Block) (n r p : ℕ) → r ≤ n → bytes a n p ≡ bytes a r p + bytes a (n - r) (walk a r p)
bytes_split a n r p h =
    let e : n ≡ r + (n - r) = omega arith in ap (λ k. bytes a k p) e ∙ bytes_add a (n - r) r p

curr_split :
    (s : SndBuffer) (n k r : ℕ)
    → Valid s n k
    → (if ltb k r then walk s.block r s.first_block else s.curr_block)
      ≡ walk s.block (k - r) (walk s.block r s.first_block)
curr_split s n k r v = elim (dec_lt k r) [
  | yes l ↦
      let e : 0 ≡ k - r = omega arith in
      rw (lt→ltb k r l) (ap (λ i. walk s.block i (walk s.block r s.first_block)) e)
  | no l ↦
      rw (le→ltb k r (omega arith)) (v.curr_eq ∙ walk_split s.block k r s.first_block (omega arith))
]

-- `ackData` of at most as many packets as a valid buffer has leaves a valid buffer with that many
-- packets and bytes fewer, at the front. Its blocks are as they were, and the next packet to send is
-- the same, or the new first one where packets not sent are acknowledged.
pub ack_data-Valid :
    (s : SndBuffer) (n k r : ℕ)
    → Valid s n k
    → r ≤ n
    → Valid (ack_data s r) (n - r) (k - r)
      × ((ack_data s r).first_block ≡ walk s.block r s.first_block)
      × ((ack_data s r).block ≡ s.block)
ack_data-Valid s n k r v h = rw (ack_data-eq s n k r v h) (
  record {
    sent = omega (arith, v.sent);
    last_eq = v.last_eq ∙ walk_split s.block n r s.first_block h;
    curr_eq = curr_split s n k r v;
    distinct = λ i j lt le q.
        v.distinct (r + i) (r + j) (omega arith) (omega arith)
          (sym (walk_add s.block i r s.first_block) ∙ q ∙ walk_add s.block j r s.first_block);
    count_eq = rw v.count_eq (ground arith);
    bytes_eq = rw v.bytes_eq (ground (arith, bytes_split s.block n r s.first_block h));
  },
  refl,
  refl,
)
