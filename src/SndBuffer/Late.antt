-- ===== src/SndBuffer/Late.antt =====
-- `dropLateData` acknowledges the packets at the front that are too old.
use swift_srt.Base.{
  ℕ, zero, suc, ◌+◌, ◌-◌, ◌<◌, ◌≤◌, ◌≡◌, ◌⊎◌, inl, inr, refl, ap, subst, ◌∙◌, arith, Bool, false,
  ◌||◌, ◌==◌, if◌then◌else◌, dec_lt, lt→ltb, le→ltb, ℤ, pos, ◌+ℤ◌, ◌-ℤ◌, pos_part,
}
use swift_srt.SndBuffer.{Block, SndBuffer, pass, ack_data, late_from, drop_late_data}
use swift_srt.SndBuffer.Ack.{walk, Valid, ack_data-Valid}

-- `r` of the `n` packets from block `p` on, those at the front, are older than `t`, and the next, if
-- there is one, is not.
pub record Late (a : ℕ → Block) (t n p r : ℕ) : Type 0 where
  pub within : r ≤ n
  pub late : (i : ℕ) → i < r → (a (walk a i p)).origin_time < t
  pub next_on_time : r ≡ n ⊎ (t ≤ (a (walk a r p)).origin_time)

abbrev with_count : ℕ → ℕ × ℤ × Bool → ℕ × ℕ × ℤ × Bool
with_count k (p, b, m) = (p, k, b, m)

Late-step :
    (a : ℕ → Block) (t n p r : ℕ)
    → (a p).origin_time < t
    → Late a t n (a p).next r
    → Late a t (suc n) p (suc r)
Late-step a t n p r h v = record {
  within = omega (arith, v.within);
  late = older;
  next_on_time = elim v.next_on_time [ inl e ↦ inl (ap suc e) | inr l ↦ inr l ];
}
  where
    older : (i : ℕ) → i < suc r → (a (walk a i p)).origin_time < t
    older zero l = h
    older (suc i) l = v.late i (omega arith)

late_from-pass :
    (s : SndBuffer) (t n p k : ℕ) (b : ℤ) (m : Bool)
    → (r : ℕ) × Late s.block t n p r
      × (late_from s t n p k b m ≡ with_count (k + r) (pass s r p b m))
unfolding late_from pass
late_from-pass s t zero p k b m = (
  0,
  record { within = omega arith; late = λ i l. absurd (omega (arith, l)); next_on_time = inl refl },
  ap (λ x. with_count x (pass s 0 p b m)) (zero_right k),
)
  where
    zero_right : (x : ℕ) → x ≡ x + 0
    zero_right x = omega arith
late_from-pass s t (suc n) p k b m = elim (dec_lt (s.block p).origin_time t) [
  | yes l ↦
      let (r, v, e) =
        late_from-pass s t n (s.block p).next (k + 1) (b +ℤ pos (s.block p).length)
          (m || p == s.curr_block) in
      (
        suc r,
        Late-step s.block t n p r l v,
        rw (lt→ltb (s.block p).origin_time t l)
            (e ∙ ap (λ x. with_count x (pass s (suc r) p b m)) (shift k r)),
      )
  | no l ↦ (
    0,
    record {
      within = omega arith;
      late = λ i j. absurd (omega (arith, j));
      next_on_time = inr (omega arith);
    },
    rw (le→ltb (s.block p).origin_time t (omega arith))
        (ap (λ x. with_count x (pass s 0 p b m)) (zero_right k)),
  )
]
  where
    zero_right : (x : ℕ) → x ≡ x + 0
    zero_right x = omega arith

    shift : (x y : ℕ) → x + 1 + y ≡ x + suc y
    shift x y = omega arith

abbrev settled : SndBuffer → ℕ × ℕ × ℤ × Bool → SndBuffer
settled s q = record s {
  first_block = q.0;
  curr_block = if q.3 then q.0 else s.curr_block;
  count = s.count -ℤ pos q.1;
  bytes_count = s.bytes_count -ℤ q.2;
}

-- `dropLateData` of a valid buffer drops packets from the front exactly as long as they are older than
-- the given time, reports their number, and leaves the buffer that `ackData` of that number leaves,
-- which is valid.
pub drop_late_data-ack_data :
    (s : SndBuffer) (n k late_time : ℕ)
    → Valid s n k
    → (r : ℕ) × Late s.block late_time n s.first_block r
      × ((drop_late_data s late_time).0 ≡ r)
      × ((drop_late_data s late_time).2 ≡ ack_data s r)
      × Valid (ack_data s r) (n - r) (k - r)
unfolding drop_late_data ack_data
drop_late_data-ack_data s n k t v =
    let (r, l, e) = late_from-pass s t (pos_part s.count) s.first_block 0 (pos 0) false in
    let c : pos_part s.count ≡ n = ap pos_part v.count_eq in
    let l' = subst (λ i. Late s.block t i s.first_block r) c l in
    let z : 0 + r ≡ r = omega arith in
    let e' = e ∙ ap (λ i. with_count i (pass s r s.first_block (pos 0) false)) z in
    (r, l', ap (λ q. q.1) e', ap (settled s) e', (ack_data-Valid s n k r v l'.within).0)
