-- ===== src/TxKeys/Valid.antt =====
-- What holds of the two contexts while keys change.
use swift_srt.Base.{
  ℕ, ◌+◌, ◌-◌, ◌^◌, ◌<◌, ◌≤◌, ◌≡◌, ◌⊎◌, inl, inr, Bool, true, false, some, List, [], ◌∷◌, arith,
}
use swift_srt.TxKeys.{
  Status, sardy, keyed, active, deprecated, Context, Session, Provider, ctx, alt, refresh,
  pre_switch, switch, post_switch, manage_keys, tx_data, is_deprecated, refresh_point,
}

-- The message has the key.
abbrev pub HasKey : ℕ → List ℕ → Type 0
HasKey k [] = ⊥
HasKey k (x ∷ xs) = (x ≡ k) ⊎ HasKey k xs

-- The contexts `x`, in use, and `y`, `g` packets after keys were last managed. Between two changes, `x`
-- alone is announced, with its key.
pub record Settled (rate pre g : ℕ) (x y : Context) : Type 0 where
  pub at_rest : (y.status ≡ sardy) ⊎ (y.status ≡ deprecated)
  pub announced : x.announce ≡ true
  pub silent : y.announce ≡ false
  pub has_key : HasKey x.sek x.km.keys
  pub early : x.pkt_cnt ≤ rate - pre + g

-- Before a change `y` is announced, with both keys.
pub record Announced (rate g : ℕ) (x y : Context) : Type 0 where
  pub ready : y.status ≡ keyed
  pub announced : y.announce ≡ true
  pub silent : x.announce ≡ false
  pub both : y.km.has_both ≡ true
  pub has_key : HasKey x.sek y.km.keys
  pub has_next : HasKey y.sek y.km.keys
  pub unused : y.pkt_cnt ≡ 0
  pub in_time : x.pkt_cnt ≤ rate + g

pub record Valid (c : Session) (g : ℕ) : Type 0 where
  pub period : c.pre_announce ≤ c.refresh_rate
  pub fits : c.refresh_rate + c.pre_announce < 2 ^ 32
  pub in_use : (ctx c).status ≡ active
  pub used : (0 < (ctx c).pkt_cnt) ⊎ (g ≡ 0)
  pub phase :
      Settled c.refresh_rate c.pre_announce g (ctx c) (alt c)
      ⊎ Announced c.refresh_rate g (ctx c) (alt c)

-- The provider does what it is asked.
pub record Works (p : Provider) (k : ℕ) : Type 0 where
  pub random : p.random_key ≡ some k
  pub sets : p.sets_key ≡ true
  pub wraps_keys : p.wraps ≡ true

-- Either context may be the current one.
pub either :
    (P : Session → Type 0)
    → ((c : Session) → P (record c { current = true }))
    → ((c : Session) → P (record c { current = false }))
    → (c : Session) → P c
either P odd even c = go c.current
  where
    go : (b : Bool) → P (record c { current = b })
    go true = odd c
    go false = even c

pub tx_data-Valid :
    (g : ℕ) (c : Session) → Valid c g → g < c.pre_announce → Valid (tx_data true c).1 (g + 1)
unfolding tx_data
tx_data-Valid g =
    either (λ c. Valid c g → g < c.pre_announce → Valid (tx_data true c).1 (g + 1))
      (λ c v h. ground arith) (λ c v h. ground arith)

pub switch-Valid :
    (g : ℕ) (c : Session)
    → Valid c g
    → g ≤ c.pre_announce
    → c.refresh_rate < (ctx c).pkt_cnt
    → Valid (switch c) 0
unfolding switch
switch-Valid g =
    either
      (λ c. Valid c g → g ≤ c.pre_announce → c.refresh_rate < (ctx c).pkt_cnt → Valid (switch c) 0)
      (λ c v k h. ground arith) (λ c v k h. ground arith)

-- A refresh and the announcement, between two changes.
pub announce-Valid :
    (p : Provider) (k g : ℕ) (c : Session)
    → Works p k
    → Valid c g
    → g ≤ c.pre_announce
    → (alt c).announce ≡ false
    → 0 < (ctx c).pkt_cnt
    → Valid (pre_switch (refresh p c)) 0
unfolding pre_switch refresh
announce-Valid p k g =
    either
      (λ c.
        Works p k
        → Valid c g
        → g ≤ c.pre_announce
        → (alt c).announce ≡ false
        → 0 < (ctx c).pkt_cnt
        → Valid (pre_switch (refresh p c)) 0)
      (λ c w v h a n. rw (w.random, w.sets, w.wraps_keys) (ground arith))
      (λ c w v h a n. rw (w.random, w.sets, w.wraps_keys) (ground arith))

pub post_switch-Valid :
    (p : Provider) (k g : ℕ) (c : Session)
    → Works p k
    → Valid c g
    → g ≤ c.pre_announce
    → (alt c).status ≡ deprecated
    → (ctx c).pkt_cnt ≤ c.refresh_rate - c.pre_announce
    → Valid (post_switch p c) 0
unfolding post_switch
post_switch-Valid p k g =
    either
      (λ c.
        Works p k
        → Valid c g
        → g ≤ c.pre_announce
        → (alt c).status ≡ deprecated
        → (ctx c).pkt_cnt ≤ c.refresh_rate - c.pre_announce
        → Valid (post_switch p c) 0)
      (λ c w v h a n. ground (arith, w.wraps_keys)) (λ c w v h a n. ground (arith, w.wraps_keys))

refresh_point-eq :
    (c : Session) (g : ℕ) → Valid c g → refresh_point c ≡ c.refresh_rate - c.pre_announce
refresh_point-eq c g v = ground arith

-- Nothing to do.
wait-Valid :
    (g : ℕ) (c : Session)
    → Valid c g
    → 0 < (ctx c).pkt_cnt
    → (ctx c).pkt_cnt ≤ c.refresh_rate
    → ((ctx c).pkt_cnt ≤ c.refresh_rate - c.pre_announce) ⊎ ((alt c).announce ≡ true)
    → Valid c 0
wait-Valid g =
    either
      (λ c.
        Valid c g
        → 0 < (ctx c).pkt_cnt
        → (ctx c).pkt_cnt ≤ c.refresh_rate
        → ((ctx c).pkt_cnt ≤ c.refresh_rate - c.pre_announce) ⊎ ((alt c).announce ≡ true)
        → Valid c 0)
      (λ c v n h k. ground arith) (λ c v n h k. ground arith)

deprecated-silent :
    (g : ℕ) (c : Session) → Valid c g → (alt c).status ≡ deprecated → (alt c).announce ≡ false
deprecated-silent g c v e = elim v.phase [ inl s ↦ s.silent | inr a ↦ cc (a.ready) ]

is_deprecated-eq : (s : Status) → is_deprecated s ≡ true → s ≡ deprecated
is_deprecated-eq s h = ground arith

-- Managing the keys at most `pre_announce` packets after the last time, and at least one.
pub manage_keys-Valid :
    (p : Provider) (k g : ℕ) (c : Session)
    → Works p k
    → Valid c g
    → 0 < g
    → g ≤ c.pre_announce
    → Valid (manage_keys p c) 0
unfolding manage_keys
manage_keys-Valid p k g c w v g0 gp = ground (
  arith,
  switch-Valid g c v gp,
  announce-Valid p k g c w v gp,
  post_switch-Valid p k g c w v gp,
  wait-Valid g c v,
  refresh_point-eq c g v,
  deprecated-silent g c v,
  is_deprecated-eq (alt c).status,
)
