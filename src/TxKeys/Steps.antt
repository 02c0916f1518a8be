-- ===== src/TxKeys/Steps.antt =====
-- The life of a session: packets are encrypted, and keys are managed after every so many packets.
use swift_srt.Base.{
  ℕ, ◌+◌, ◌^◌, ◌<◌, ◌≤◌, ◌≡◌, ◌⊎◌, inl, inr, refl, Bool, true, not, ◌&&◌, some, ltb, ◌==◌, arith,
  Bool-cases,
}
use swift_srt.TxKeys.{
  Session, Provider, ctx, alt, manage_keys, manage_km, manage_key_messages, inject_km, tx_data,
  create, rekey, due_to_send,
}
use swift_srt.TxKeys.Valid.{HasKey, Valid, Works, either, tx_data-Valid, manage_keys-Valid}

-- The session goes on for `g` packets since keys were last managed. Every change finds a provider that
-- works; between two of them there is a packet, and there are at most `pre_announce`.
pub data Step (c : Session) (g : ℕ) : Session → ℕ → Type 0 where
  encrypt : g < c.pre_announce → Step c g (tx_data true c).1 (g + 1)
  manage :
      (p : Provider) (k now : ℕ) → Works p k → 0 < g → Step c g (manage_key_messages p now c).1 0

pub data Reach (c : Session) : Session → ℕ → Type 0 where
  here : Reach c c 0
  next : {d e : Session} {g h : ℕ} → Reach c d g → Step d g e h → Reach c e h

due-Valid :
    (g : ℕ) (c : Session)
    → Valid c g
    → Valid (record c { even_ctx = due_to_send c.even_ctx; odd_ctx = due_to_send c.odd_ctx }) g
due-Valid g =
    either
      (λ c.
        Valid c g
        → Valid (record c { even_ctx = due_to_send c.even_ctx; odd_ctx = due_to_send c.odd_ctx }) g)
      (λ c v. ground arith) (λ c v. ground arith)

inject_km-Valid : (now g : ℕ) (c : Session) → Valid c g → Valid (inject_km now c).1 g
unfolding inject_km
inject_km-Valid now g =
    either (λ c. Valid c g → Valid (inject_km now c).1 g) (λ c v. ground arith)
      (λ c v. ground arith)

manage_km-Valid :
    (p : Provider) (now g : ℕ) (c : Session)
    → Valid (manage_keys p c) g
    → Valid (manage_km p now c) g
unfolding manage_km
manage_km-Valid p now g c v =
    elim (Bool-cases (
      not ((manage_keys p c).tx_period == 0)
      && ltb ((manage_keys p c).tx_last + (manage_keys p c).tx_period) now)) [
        | inl e ↦ rw e (due-Valid g (manage_keys p c) v)
        | inr e ↦ rw e v
      ]

pub manage_key_messages-Valid :
    (p : Provider) (k now g : ℕ) (c : Session)
    → Works p k
    → Valid c g
    → 0 < g
    → g ≤ c.pre_announce
    → Valid (manage_key_messages p now c).1 0
unfolding manage_key_messages
manage_key_messages-Valid p k now g c w v g0 gp =
    inject_km-Valid now 0 (manage_km p now c)
      (manage_km-Valid p now 0 c (manage_keys-Valid p k g c w v g0 gp))

tx_data-pre_announce : (c : Session) → (tx_data true c).1.pre_announce ≡ c.pre_announce
unfolding tx_data
tx_data-pre_announce =
    either (λ c. (tx_data true c).1.pre_announce ≡ c.pre_announce) (λ c. refl) (λ c. refl)

Step-Valid :
    {c d : Session} {g h : ℕ}
    → Step c g d h
    → Valid c g
    → g ≤ c.pre_announce
    → Valid d h × (h ≤ d.pre_announce)
Step-Valid {c} {g = g} (encrypt l) v b =
    (tx_data-Valid g c v l, omega (arith, tx_data-pre_announce c))
Step-Valid {c} {g = g} (manage p k now w l) v b =
    (manage_key_messages-Valid p k now g c w v l b, omega arith)

pub Reach-Valid :
    {c d : Session} {g : ℕ} → Reach c d g → Valid c 0 → Valid d g × (g ≤ d.pre_announce)
Reach-Valid here v = (v, omega arith)
Reach-Valid (next r s) v = let (w, b) = Reach-Valid r v in Step-Valid s w b

pub create-Valid :
    (has_password : Bool) (p : Provider) (rate pre period : ℕ) (c : Session)
    → create has_password p rate pre period ≡ some c
    → pre < rate
    → rate + pre < 2 ^ 32
    → Valid c 0
unfolding create rekey
create-Valid has_password p rate pre period c e h k = ground arith

-- The key in use has encrypted at most `refresh_rate + pre_announce` packets, and is in the keying
-- material of a context that is announced.
pub record KeySafe (c : Session) : Type 0 where
  pub bounded : (ctx c).pkt_cnt ≤ c.refresh_rate + c.pre_announce
  pub known :
      ((ctx c).announce ≡ true × HasKey (ctx c).sek (ctx c).km.keys)
      ⊎ ((alt c).announce ≡ true × HasKey (ctx c).sek (alt c).km.keys)
