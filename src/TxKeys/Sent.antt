-- ===== src/TxKeys/Sent.antt =====
-- The keying material messages that a session sends, by hcryptCtx_Tx_InjectKM.
use swift_srt.Base.{
  ℕ, ◌+◌, ◌<◌, ◌≤◌, ◌≡◌, ◌⊎◌, inl, inr, refl, sym, subst, ◌∙◌, Bool, true, false, not, ◌&&◌, some,
  List, [], ◌∷◌, ◌++◌, ltb, ◌==◌, arith, Bool-cases,
}
use swift_srt.TxKeys.{
  KeyMessage, Context, Session, Provider, ctx, alt, refresh, pre_switch, switch, post_switch,
  manage_keys, manage_km, manage_key_messages, inject_km, tx_data, create, rekey, due_to_send,
}
use swift_srt.TxKeys.Valid.{Valid, either}
use swift_srt.TxKeys.Steps.{Step, encrypt, manage, Reach, here, next, Reach-Valid}

-- The message is one of those.
abbrev pub IsSent : KeyMessage → List KeyMessage → Type 0
IsSent m [] = ⊥
IsSent m (x ∷ xs) = (x ≡ m) ⊎ IsSent m xs

abbrev pub sent_in : {c d : Session} {g h : ℕ} → Step c g d h → List KeyMessage
sent_in (encrypt l) = []
sent_in {c} (manage p k now w l) = (manage_key_messages p now c).0

-- The messages of a session, the latest first.
abbrev pub sent : {c d : Session} {g : ℕ} → Reach c d g → List KeyMessage
sent here = []
sent (next r s) = sent_in s ++ sent r

IsSent-left : (m : KeyMessage) (xs ys : List KeyMessage) → IsSent m xs → IsSent m (xs ++ ys)
IsSent-left m [] ys h = absurd h
IsSent-left m (x ∷ xs) ys (inl e) = inl e
IsSent-left m (x ∷ xs) ys (inr h) = inr (IsSent-left m xs ys h)

IsSent-right : (m : KeyMessage) (xs ys : List KeyMessage) → IsSent m ys → IsSent m (xs ++ ys)
IsSent-right m [] ys h = h
IsSent-right m (x ∷ xs) ys h = inr (IsSent-right m xs ys h)

-- The other context `y` is announced only if it is to be sent, or was announced as `x`.
abbrev Kept : Context → Context → Type 0
Kept x y = y.announce ≡ true → (y.tt_send ≡ true) ⊎ ((x.announce ≡ true) × (x.km ≡ y.km))

pre_switch-tt_send : (c : Session) → (alt (pre_switch c)).tt_send ≡ true
unfolding pre_switch
pre_switch-tt_send =
    either (λ c. (alt (pre_switch c)).tt_send ≡ true) (λ c. ground arith) (λ c. ground arith)

announce-Kept : (p : Provider) (c : Session) → Kept (alt c) (alt (pre_switch (refresh p c)))
announce-Kept p c e = inl (pre_switch-tt_send (refresh p c))

switch-Kept :
    (g : ℕ) (c : Session)
    → Valid c g
    → g ≤ c.pre_announce
    → c.refresh_rate < (ctx c).pkt_cnt
    → Kept (alt c) (alt (switch c))
unfolding switch
switch-Kept g =
    either
      (λ c.
        Valid c g
        → g ≤ c.pre_announce
        → c.refresh_rate < (ctx c).pkt_cnt
        → Kept (alt c) (alt (switch c)))
      (λ c v k h e. ground arith) (λ c v k h e. ground arith)

post_switch-Kept : (p : Provider) (c : Session) → Kept (alt c) (alt (post_switch p c))
unfolding post_switch
post_switch-Kept p =
    either (λ c. Kept (alt c) (alt (post_switch p c))) (λ c e. ground arith) (λ c e. ground arith)

manage_keys-Kept :
    (p : Provider) (g : ℕ) (c : Session)
    → Valid c g
    → 0 < g
    → g ≤ c.pre_announce
    → Kept (alt c) (alt (manage_keys p c))
unfolding manage_keys
manage_keys-Kept p g c v g0 gp =
    ground (arith, switch-Kept g c v gp, announce-Kept p c, post_switch-Kept p c)

abbrev again : Session → Session
again c = record c { even_ctx = due_to_send c.even_ctx; odd_ctx = due_to_send c.odd_ctx }

-- The context after `manage_km`, where `d` is before its end.
abbrev Resent : Session → Session → Type 0
Resent d e =
    ((alt e).announce ≡ (alt d).announce)
    × ((alt e).km ≡ (alt d).km)
    × ((alt d).tt_send ≡ true → (alt e).tt_send ≡ true)

again-Resent : (c : Session) → Resent c (again c)
again-Resent =
    either (λ c. Resent c (again c)) (λ c. (refl, refl, λ e. ground (arith, e)))
      (λ c. (refl, refl, λ e. ground (arith, e)))

-- Sending again changes no message and forgets none.
manage_km-alt :
    (p : Provider) (now : ℕ) (c : Session) → Resent (manage_keys p c) (manage_km p now c)
unfolding manage_km
manage_km-alt p now c =
    elim (Bool-cases (
      not ((manage_keys p c).tx_period == 0)
      && ltb ((manage_keys p c).tx_last + (manage_keys p c).tx_period) now)) [
        | inl e ↦ rw e (again-Resent (manage_keys p c))
        | inr e ↦ rw e (refl, refl, λ t. t)
      ]

inject_km-alt :
    (now : ℕ) (c : Session)
    → ((alt (inject_km now c).1).announce ≡ (alt c).announce)
      × ((alt (inject_km now c).1).km ≡ (alt c).km)
      × ((alt c).tt_send ≡ true → IsSent (alt c).km (inject_km now c).0)
unfolding inject_km
inject_km-alt now =
    either
      (λ c.
        ((alt (inject_km now c).1).announce ≡ (alt c).announce)
        × ((alt (inject_km now c).1).km ≡ (alt c).km)
        × ((alt c).tt_send ≡ true → IsSent (alt c).km (inject_km now c).0))
      (λ c. (refl, refl, λ e. rw e (inl refl)))
      (λ c. (refl, refl, λ e. rw e (IsSent-right c.odd_ctx.km _ (c.odd_ctx.km ∷ []) (inl refl))))

-- Managing keys sends the message of the other context, where it is announced after it, or has had it
-- announced before.
manage-Sent :
    (p : Provider) (now g : ℕ) (c : Session)
    → Valid c g
    → 0 < g
    → g ≤ c.pre_announce
    → let (out, d) = manage_key_messages p now c in
      (alt d).announce ≡ true
      → IsSent (alt d).km out ⊎ ((alt c).announce ≡ true × ((alt c).km ≡ (alt d).km))
unfolding manage_key_messages
manage-Sent p now g c v g0 gp e =
    let (a, k, t) = manage_km-alt p now c in
    let (a', k', s) = inject_km-alt now (manage_km p now c) in
    elim (manage_keys-Kept p g c v g0 gp (sym a ∙ sym a' ∙ e)) [
      | inl f ↦ inl (subst (λ m. IsSent m (inject_km now (manage_km p now c)).0) (sym k') (s (t f)))
      | inr (f, h) ↦ inr (f, h ∙ sym k ∙ sym k')
    ]

tx_data-alt :
    (c : Session)
    → ((alt (tx_data true c).1).announce ≡ (alt c).announce)
      × ((alt (tx_data true c).1).km ≡ (alt c).km)
unfolding tx_data
tx_data-alt =
    either
      (λ c.
        ((alt (tx_data true c).1).announce ≡ (alt c).announce)
        × ((alt (tx_data true c).1).km ≡ (alt c).km))
      (λ c. (refl, refl)) (λ c. (refl, refl))

-- If the other context is announced, then its message has been sent.
abbrev AnnouncedIsSent : Session → List KeyMessage → Type 0
AnnouncedIsSent d out = (alt d).announce ≡ true → IsSent (alt d).km out

Step-sent :
    {c d : Session} {g h : ℕ} (s : Step c g d h) (out : List KeyMessage)
    → Valid c g
    → g ≤ c.pre_announce
    → AnnouncedIsSent c out
    → AnnouncedIsSent d (sent_in s ++ out)
Step-sent {c} (encrypt l) out v b f e =
    let (a, k) = tx_data-alt c in subst (λ m. IsSent m out) (sym k) (f (sym a ∙ e))
Step-sent {c} {g = g} (manage p k now w l) out v b f e =
    let m = (alt (manage_key_messages p now c).1).km in
    let new = (manage_key_messages p now c).0 in
    elim (manage-Sent p now g c v l b e) [
      | inl h ↦ IsSent-left m new out h
      | inr (a, q) ↦ IsSent-right m new out (subst (λ x. IsSent x out) q (f a))
    ]

pub Reach-sent :
    {c d : Session} {g : ℕ} (r : Reach c d g)
    → Valid c 0
    → (alt c).announce ≡ false
    → AnnouncedIsSent d (sent r)
Reach-sent here v a e = absurd (cc (a, e))
Reach-sent (next r s) v a e =
    let (w, b) = Reach-Valid r v in Step-sent s (sent r) w b (Reach-sent r v a) e

pub create-silent :
    (has_password : Bool) (p : Provider) (rate pre period : ℕ) (c : Session)
    → create has_password p rate pre period ≡ some c
    → (alt c).announce ≡ false
unfolding create rekey
create-silent has_password p rate pre period c e = ground arith
