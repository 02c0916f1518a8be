-- ===== src/PlayTime/Unwrapped.antt =====
-- The receiver's times against those of a clock whose timestamps never wrap.
use swift_srt.Base.{
  ℕ, ◌+◌, ◌-◌, ◌*◌, ◌/◌, ◌%◌, ◌^◌, ◌<◌, ◌≤◌, ◌≡◌, ◌⊎◌, inl, inr, refl, ap, ap₂, ◌∙◌, Bool, true,
  false, List, [], ◌∷◌, if◌then◌else◌, ltb, leb, ℤ, arith, Bool-cases, subst,
}
use swift_srt.PlayTime.{
  DriftTracer, update, PlayTime, wrap_period, max_timestamp, drift_max_value, drift_max_samples,
  add_int64, diff_int64, set_rcv_tsbpd_mode, get_tsbpd_time_base, get_pkt_tsbpd_time,
  add_rcv_tsbpd_drift_sample,
}

-- A packet that was sent at the time, or a drift sample of a control packet sent at the first time and
-- taken at the second. The times sent count from the start of the peer and do not wrap.
pub data Event : Type 0 where
  packet : ℕ → Event
  sample : ℕ → ℕ → Event

-- The times of delivery of the packets, from their 32-bit timestamps.
unfoldable pub play_times : PlayTime → List Event → List ℕ
unfolding get_pkt_tsbpd_time add_rcv_tsbpd_drift_sample
play_times c [] = []
play_times c (packet t ∷ es) =
    let (x, c') = get_pkt_tsbpd_time (t % 2 ^ 32) c in x ∷ play_times c' es
play_times c (sample t now ∷ es) = play_times (add_rcv_tsbpd_drift_sample now (t % 2 ^ 32) c) es

-- The same from the times themselves: with a base that only drift changes.
unfoldable pub true_times : ℕ → ℕ → DriftTracer → List Event → List ℕ
unfolding update
true_times base delay d [] = []
true_times base delay d (packet t ∷ es) =
    add_int64 (base + delay + t) d.drift ∷ true_times base delay d es
true_times base delay d (sample t now ∷ es) =
    let (d', updated) =
      update drift_max_samples drift_max_value d (diff_int64 now ((base + t) % 2 ^ 64)) in
    true_times (if updated then add_int64 base d'.overdrift else base) delay d' es

abbrev max : ℕ → ℕ → ℕ
max a b = if ltb a b then b else a

-- Every time is within 30 seconds of the latest one before it, which is `m` at first.
unfoldable pub Steady : ℕ → List Event → Type 0
Steady m [] = Unit {0}
Steady m (packet t ∷ es) = (t ≤ m + wrap_period) × (m ≤ t + wrap_period) × Steady (max m t) es
Steady m (sample t now ∷ es) = (t ≤ m + wrap_period) × (m ≤ t + wrap_period) × Steady (max m t) es

-- The clock after the latest time `m`, `e` wraps after its start with the base `b`.
record Phase (c : PlayTime) (b m e : ℕ) : Type 0 where
  on : c.tsbpd_mode ≡ true
  base : c.time_base ≡ (b + e * 2 ^ 32) % 2 ^ 64
  started :
      c.wrap_check ≡ false
      → ((e ≡ 0) ⊎ (e * 2 ^ 32 + wrap_period ≤ m)) × (m + wrap_period < (e + 1) * 2 ^ 32)
  near :
      c.wrap_check ≡ true
      → ((e + 1) * 2 ^ 32 ≤ m + wrap_period) × (m < (e + 1) * 2 ^ 32 + wrap_period)

-- Where a steady time is, by wraps `q` and timestamp `r`.
before_wrap :
    (c : PlayTime) (b m e q r : ℕ)
    → Phase c b m e
    → c.wrap_check ≡ false
    → r < 2 ^ 32
    → q * 2 ^ 32 + r ≤ m + wrap_period
    → m ≤ q * 2 ^ 32 + r + wrap_period
    → q ≡ e
before_wrap c b m e q r v f l h k = let x = v.started f in omega arith

near_wrap :
    (c : PlayTime) (b m e q r : ℕ)
    → Phase c b m e
    → c.wrap_check ≡ true
    → r < 2 ^ 32
    → q * 2 ^ 32 + r ≤ m + wrap_period
    → m ≤ q * 2 ^ 32 + r + wrap_period
    → (q ≡ e × 2 * wrap_period < r) ⊎ (q ≡ e + 1 × r < 2 * wrap_period)
near_wrap c b m e q r v f l h k = let x = v.near f in ground arith

carry :
    (b e q r : ℕ)
    → q ≡ e
    → ((b + e * 2 ^ 32) % 2 ^ 64 + r) % 2 ^ 64 ≡ (b + (q * 2 ^ 32 + r)) % 2 ^ 64
carry b e q r h = omega arith

carry_one :
    (b e q r : ℕ)
    → q ≡ e + 1
    → (((b + e * 2 ^ 32) % 2 ^ 64 + 2 ^ 32) % 2 ^ 64 + r) % 2 ^ 64 ≡ (b + (q * 2 ^ 32 + r)) % 2 ^ 64
carry_one b e q r h = omega arith

abbrev looked : ℕ → PlayTime → ℕ × PlayTime
looked x c = (x, c)

-- What a look at a timestamp leaves.
record Looked (c c' : PlayTime) (b m r t x : ℕ) : Type 0 where
  right : (x + r) % 2 ^ 64 ≡ (b + t) % 2 ^ 64
  wraps : ℕ
  phase : Phase c' b (max m t) wraps
  same_delay : c'.delay ≡ c.delay
  same_tracer : c'.tracer ≡ c.tracer

look_before :
    (c : PlayTime) (b m e q r : ℕ)
    → Phase c b m e
    → c.wrap_check ≡ false
    → r < 2 ^ 32
    → q * 2 ^ 32 + r ≤ m + wrap_period
    → m ≤ q * 2 ^ 32 + r + wrap_period
    → Looked c (get_tsbpd_time_base r c).1 b m r (q * 2 ^ 32 + r) (get_tsbpd_time_base r c).0
unfolding get_tsbpd_time_base
look_before c b m e q r v f l h k =
    let i = before_wrap c b m e q r v f l h k in
    let (y, z) = v.started f in
    elim (Bool-cases (ltb (max_timestamp - wrap_period) r)) [
      | inl n ↦
          rw (f, n)
            (record {
              right = rw v.base (carry b e q r i);
              wraps = e;
              phase = record {
                on = v.on;
                base = v.base;
                started = λ x. cc (x);
                near = λ x. ground arith;
              };
              same_delay = refl;
              same_tracer = refl;
            })
      | inr n ↦
          rw (f, n)
            (record {
              right = rw v.base (carry b e q r i);
              wraps = e;
              phase = record {
                on = v.on;
                base = v.base;
                started = λ x. ground arith;
                near = λ x. cc (x);
              };
              same_delay = refl;
              same_tracer = refl;
            })
    ]

look_near :
    (c : PlayTime) (b m e q r : ℕ)
    → Phase c b m e
    → c.wrap_check ≡ true
    → r < 2 ^ 32
    → q * 2 ^ 32 + r ≤ m + wrap_period
    → m ≤ q * 2 ^ 32 + r + wrap_period
    → Looked c (get_tsbpd_time_base r c).1 b m r (q * 2 ^ 32 + r) (get_tsbpd_time_base r c).0
unfolding get_tsbpd_time_base
look_near c b m e q r v f l h k =
    let i = near_wrap c b m e q r v f l h k in
    let (y, z) = v.near f in
    elim (Bool-cases (ltb r wrap_period)) [
      | inl n ↦
          rw (f, n)
            (record {
              right = rw v.base (carry_one b e q r (ground (arith, i, n)));
              wraps = e;
              phase = record {
                on = v.on;
                base = v.base;
                started = λ x. cc (x);
                near = λ x. ground (arith, i, n);
              };
              same_delay = refl;
              same_tracer = refl;
            })
      | inr n ↦ elim (Bool-cases (leb r (wrap_period * 2))) [
        | inl o ↦
            let j : q ≡ e + 1 = ground (arith, i, o) in
            rw (f, n, o)
              (record {
                right = rw v.base (carry_one b e q r j);
                wraps = e + 1;
                phase = record {
                  on = v.on;
                  base = rw v.base (omega arith);
                  started = λ x. ground (arith, j, n, o);
                  near = λ x. cc (x);
                };
                same_delay = refl;
                same_tracer = refl;
              })
        | inr o ↦
            let j : q ≡ e = ground (arith, i, o) in
            rw (f, n, o)
              (record {
                right = rw v.base (carry b e q r j);
                wraps = e;
                phase = record {
                  on = v.on;
                  base = v.base;
                  started = λ x. cc (x);
                  near = λ x. ground (arith, j);
                };
                same_delay = refl;
                same_tracer = refl;
              })
      ]
    ]

look :
    (c : PlayTime) (b m e t : ℕ)
    → Phase c b m e
    → t ≤ m + wrap_period
    → m ≤ t + wrap_period
    → Looked c
        (get_tsbpd_time_base (t % 2 ^ 32) c).1
        b
        m
        (t % 2 ^ 32)
        t
        (get_tsbpd_time_base (t % 2 ^ 32) c).0
look c b m e t v h k =
    let s : t / 2 ^ 32 * 2 ^ 32 + t % 2 ^ 32 ≡ t = omega arith in
    subst
      (λ u.
        Looked c (get_tsbpd_time_base (t % 2 ^ 32) c).1 b m (t % 2 ^ 32) u
          (get_tsbpd_time_base (t % 2 ^ 32) c).0)
      s
      (elim (Bool-cases c.wrap_check) [
        | inl f ↦
            look_near c b m e (t / 2 ^ 32) (t % 2 ^ 32) v f (omega arith) (omega arith)
              (omega arith)
        | inr f ↦
            look_before c b m e (t / 2 ^ 32) (t % 2 ^ 32) v f (omega arith) (omega arith)
              (omega arith)
      ])

deliver :
    (b d r t x : ℕ) (z : ℤ)
    → (x + r) % 2 ^ 64 ≡ (b + t) % 2 ^ 64
    → add_int64 (x + d + r) z ≡ add_int64 (b + d + t) z
deliver b d r t x z h = omega arith

drift_base :
    (b e x : ℕ) (z : ℤ)
    → x ≡ (b + e * 2 ^ 32) % 2 ^ 64
    → add_int64 x z ≡ (add_int64 b z + e * 2 ^ 32) % 2 ^ 64
drift_base b e x z h = omega arith

-- The clock after a drift sample, `c` being as the look at its timestamp left it.
abbrev sampled : PlayTime → DriftTracer → Bool → PlayTime
sampled c d updated = record c {
  tracer = d;
  time_base = if updated then add_int64 c.time_base d.overdrift else c.time_base;
}

sampled-Phase :
    (c : PlayTime) (b m e : ℕ) (d : DriftTracer) (u : Bool)
    → Phase c b m e
    → Phase (sampled c d u) (if u then add_int64 b d.overdrift else b) m e
sampled-Phase c b m e d true v = record {
  on = v.on;
  base = drift_base b e c.time_base d.overdrift v.base;
  started = v.started;
  near = v.near;
}
sampled-Phase c b m e d false v = record {
  on = v.on;
  base = v.base;
  started = v.started;
  near = v.near;
}

sample-eq :
    (now : ℕ) (c : PlayTime) (b m t r x : ℕ) (c' : PlayTime)
    → c.tsbpd_mode ≡ true
    → get_tsbpd_time_base r c ≡ looked x c'
    → Looked c c' b m r t x
    → add_rcv_tsbpd_drift_sample now r c
      ≡ sampled c'
          (update drift_max_samples drift_max_value c.tracer (diff_int64 now ((b + t) % 2 ^ 64))).0
          (update drift_max_samples drift_max_value c.tracer (diff_int64 now ((b + t) % 2 ^ 64))).1
unfolding add_rcv_tsbpd_drift_sample
sample-eq now c b m t r x c' on e g = rw (e, on, g.right, g.same_tracer) refl

times_eq :
    (es : List Event) (c : PlayTime) (b m e : ℕ)
    → Phase c b m e
    → Steady m es
    → play_times c es ≡ true_times b c.delay c.tracer es
unfolding Steady play_times true_times get_pkt_tsbpd_time
times_eq [] c b m e v s = refl
times_eq (packet t ∷ es) c b m e v (h, k, s) =
    let r = t % 2 ^ 32 in
    let x = (get_tsbpd_time_base r c).0 in
    let c' = (get_tsbpd_time_base r c).1 in
    let g = look c b m e t v h k in
    let rest = times_eq es c' b (max m t) g.wraps g.phase s in
    ap₂ (λ y ys. y ∷ ys)
      (ap₂ (λ d z. add_int64 (x + d + r) z) g.same_delay (ap (λ z. z.drift) g.same_tracer)
        ∙ deliver b c.delay r t x c.tracer.drift g.right)
      (rest ∙ ap₂ (λ d z. true_times b d z es) g.same_delay g.same_tracer)
times_eq (sample t now ∷ es) c b m e v (h, k, s) =
    let r = t % 2 ^ 32 in
    let c' = (get_tsbpd_time_base r c).1 in
    let g = look c b m e t v h k in
    let u = update drift_max_samples drift_max_value c.tracer (diff_int64 now ((b + t) % 2 ^ 64)) in
    let p = sampled-Phase c' b (max m t) g.wraps u.0 u.1 g.phase in
    let rest =
      times_eq es (sampled c' u.0 u.1) (if u.1 then add_int64 b u.0.overdrift else b) (max m t)
        g.wraps p s in
    ap (λ y. play_times y es) (sample-eq now c b m t r (get_tsbpd_time_base r c).0 c' v.on refl g)
    ∙ rest
    ∙ ap (λ d. true_times (if u.1 then add_int64 b u.0.overdrift else b) d u.0 es) g.same_delay

-- From a clock that is set to a base with no drift, at a peer time more than 30 seconds before the first
-- wrap of the timestamps: where every packet and control packet that is looked at was sent within 30
-- seconds of the latest one before, every packet is delivered at the time that a clock with times that
-- do not wrap gives, whatever drift is measured.
pub play_times-true_times :
    (es : List Event) (c : PlayTime) (base delay start : ℕ)
    → base < 2 ^ 64
    → start + wrap_period < 2 ^ 32
    → Steady start es
    → play_times (set_rcv_tsbpd_mode base delay c) es ≡ true_times base delay c.tracer es
play_times-true_times es c base delay start h k s =
    times_eq es (set_rcv_tsbpd_mode base delay c) base start 0
      (record {
        on = refl;
        base = omega arith;
        started = λ x. (inl refl, omega arith);
        near = λ x. cc (x);
      })
      s
