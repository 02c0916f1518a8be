-- ===== src/TxKeys/Changes.antt =====
-- The change of the key in use in `manage_keys`, the first part of hcryptCtx_Tx_ManageKM.
use swift_srt.Base.{
  ℕ, ◌+◌, ◌^◌, ◌<◌, ◌≤◌, ◌≡◌, ◌≢◌, ◌⊎◌, inl, inr, refl, ap, ◌∙◌, Bool, true, not, ◌||◌, some, ltb,
  ◌==◌, arith,
}
use swift_srt.TxKeys.{
  Session, Provider, ctx, alt, refresh, pre_switch, switch, post_switch, manage_keys, tx_data,
  create,
}
use swift_srt.TxKeys.Valid.{HasKey, Announced, Valid, either}
use swift_srt.TxKeys.Steps.{Reach, Reach-Valid, create-Valid}
use swift_srt.TxKeys.Sent.{IsSent, sent, Reach-sent, create-silent}

refresh-current : (p : Provider) (c : Session) → (refresh p c).current ≡ c.current
unfolding refresh
refresh-current p =
    either (λ c. (refresh p c).current ≡ c.current) (λ c. ground arith) (λ c. ground arith)

pre_switch-current : (c : Session) → (pre_switch c).current ≡ c.current
unfolding pre_switch
pre_switch-current =
    either (λ c. (pre_switch c).current ≡ c.current) (λ c. ground arith) (λ c. ground arith)

post_switch-current : (p : Provider) (c : Session) → (post_switch p c).current ≡ c.current
unfolding post_switch
post_switch-current p =
    either (λ c. (post_switch p c).current ≡ c.current) (λ c. ground arith) (λ c. ground arith)

-- `manage_keys` changes the key in use only by `switch`.
manage_keys-switches :
    (p : Provider) (c : Session)
    → ((manage_keys p c ≡ switch c)
        × (ltb c.refresh_rate (ctx c).pkt_cnt || (ctx c).pkt_cnt == 0 ≡ true))
      ⊎ ((manage_keys p c).current ≡ c.current)
unfolding manage_keys
manage_keys-switches p c =
    ground (arith, refresh-current p c, pre_switch-current (refresh p c), post_switch-current p c)

manage_keys-switch :
    (p : Provider) (c : Session)
    → ltb c.refresh_rate (ctx c).pkt_cnt || (ctx c).pkt_cnt == 0 ≡ true
    → manage_keys p c ≡ switch c
unfolding manage_keys
manage_keys-switch p c e = rw e refl

-- The context that was not in use is.
switch_lem :
    (c : Session)
    → ((switch c).current ≡ not c.current)
      × ((ctx (switch c)).sek ≡ (alt c).sek)
      × ((ctx (switch c)).pkt_cnt ≡ (alt c).pkt_cnt)
unfolding switch
switch_lem =
    either
      (λ c.
        ((switch c).current ≡ not c.current)
        × ((ctx (switch c)).sek ≡ (alt c).sek)
        × ((ctx (switch c)).pkt_cnt ≡ (alt c).pkt_cnt))
      (λ c. (refl, refl, refl)) (λ c. (refl, refl, refl))

switch_twice :
    (c : Session)
    → ((switch (switch c)).current ≡ c.current)
      × ((tx_data true (switch (switch c))).0 ≡ some (ctx c).sek)
unfolding switch tx_data
switch_twice =
    either
      (λ c.
        ((switch (switch c)).current ≡ c.current)
        × ((tx_data true (switch (switch c))).0 ≡ some (ctx c).sek))
      (λ c. (refl, refl)) (λ c. (refl, refl))

over-rate :
    (g : ℕ) (c : Session)
    → Valid c g
    → 0 < g
    → ltb c.refresh_rate (ctx c).pkt_cnt || (ctx c).pkt_cnt == 0 ≡ true
    → c.refresh_rate < (ctx c).pkt_cnt
over-rate g c v g0 t = ground arith

over-Announced :
    (g : ℕ) (c : Session)
    → Valid c g
    → g ≤ c.pre_announce
    → c.refresh_rate < (ctx c).pkt_cnt
    → Announced c.refresh_rate g (ctx c) (alt c)
over-Announced g c v gp h = elim v.phase [
  | inl s ↦ absurd (omega (arith, s.early, v.period))
  | inr a ↦ a
]

-- The session may change its key in use: `manage_keys` does it only by a switch to the announced one.
change-Announced :
    (p : Provider) (g : ℕ) (c : Session)
    → Valid c g
    → 0 < g
    → g ≤ c.pre_announce
    → (manage_keys p c).current ≢ c.current
    → Announced c.refresh_rate g (ctx c) (alt c) × (manage_keys p c ≡ switch c)
change-Announced p g c v g0 gp ne = elim (manage_keys-switches p c) [
  | inr e ↦ absurd (ne e)
  | inl (e, t) ↦ (over-Announced g c v gp (over-rate g c v g0 t), e)
]

-- In a session that `create` has made, with an announcement period shorter than the refresh period and
-- the two together fitting 32 bits, kept by providers that work and managed in time, `manage_keys`
-- after at least one packet changes the key in use only to one for which a keying material message, that
-- of the other context, was sent before in the session, with that key and the current one.
pub manage_keys_announced :
    (has_password : Bool) (r : Provider) (rate pre period : ℕ) {c d : Session} {g : ℕ}
    (p : Provider)
    → create has_password r rate pre period ≡ some c
    → pre < rate
    → rate + pre < 2 ^ 32
    → (s : Reach c d g) → 0 < g
    → (manage_keys p d).current ≢ d.current
    → IsSent (alt d).km (sent s)
      × HasKey (alt d).sek (alt d).km.keys
      × HasKey (ctx d).sek (alt d).km.keys
      × ((ctx (manage_keys p d)).sek ≡ (alt d).sek)
manage_keys_announced has_password r rate pre period {c} {d} {g} p e h k s g0 ne =
    let (v, b) = Reach-Valid s (create-Valid has_password r rate pre period c e h k) in
    let (a, f) = change-Announced p g d v g0 b ne in
    (
      Reach-sent s (create-Valid has_password r rate pre period c e h k)
          (create-silent has_password r rate pre period c e) a.announced,
      a.has_next,
      a.has_key,
      ap (λ x. (ctx x).sek) f ∙ (switch_lem d).1,
    )

twice_lem :
    (p q : Provider) (g : ℕ) (c : Session)
    → Valid c g
    → c.refresh_rate < (ctx c).pkt_cnt
    → g ≤ c.pre_announce
    → ((manage_keys p c).current ≡ not c.current)
      × ((manage_keys q (manage_keys p c)).current ≡ c.current)
      × ((tx_data true (manage_keys q (manage_keys p c))).0 ≡ some (ctx c).sek)
twice_lem p q g c v h gp =
    let a = over-Announced g c v gp h in
    let first = manage_keys-switch p c (ground (arith, h)) in
    let unused = (switch_lem c).2 ∙ a.unused in
    let second = manage_keys-switch q (switch c) (ground (arith, unused)) in
    rw first (rw second ((switch_lem c).0, (switch_twice c).0, (switch_twice c).1))

-- In such a session, when the key in use has encrypted more than `refresh_rate` packets, the first of
-- two calls of `manage_keys` with no packet between them changes the key and the second goes back to
-- the old one, which the next packet is encrypted with.
manage_keys_twice :
    (has_password : Bool) (r : Provider) (rate pre period : ℕ) {c d : Session} {g : ℕ}
    (p q : Provider)
    → create has_password r rate pre period ≡ some c
    → pre < rate
    → rate + pre < 2 ^ 32
    → Reach c d g
    → d.refresh_rate < (ctx d).pkt_cnt
    → ((manage_keys p d).current ≡ not d.current)
      × ((manage_keys q (manage_keys p d)).current ≡ d.current)
      × ((tx_data true (manage_keys q (manage_keys p d))).0 ≡ some (ctx d).sek)
manage_keys_twice has_password r rate pre period {c} {d} {g} p q e h k s o =
    let (v, b) = Reach-Valid s (create-Valid has_password r rate pre period c e h k) in
    twice_lem p q g d v o b
