-- ===== src/TxKeys.antt =====
-- The sender's keys: Sources/CSRT/hcrypt_ctx_tx.c, and what Sources/CSRT/hcrypt.c and hcrypt_tx.c do
-- with them. Two contexts, for the even and the odd key, take turns. A key is a number; what the
-- crypto provider does is left out, but for the random values that it gives and whether it succeeds.
pub mod Valid
pub mod Steps
pub mod Sent
pub mod Changes
mod Tests
use swift_srt.Base.{
  ℕ, zero, suc, ◌+◌, ◌-◌, ◌%◌, ◌^◌, Bool, true, false, not, ◌&&◌, ◌||◌, Option, none, some, List,
  [], ◌∷◌, ◌++◌, if◌then◌else◌, ltb, ◌==◌,
}

-- `HCRYPT_CTX_S_...`
pub data Status : Type 0 where
  init sardy keyed active deprecated : Status

abbrev pub rank : Status → ℕ
rank init = 1
rank sardy = 2
rank keyed = 3
rank active = 4
rank deprecated = 5

-- A keying material message: whether it has both keys, and the keys wrapped in it, the even one
-- first. It has none when wrapping failed.
pub record KeyMessage : Type 0 where
  pub has_both : Bool
  pub keys : List ℕ

-- The flags HCRYPT_CTX_F_ANNOUNCE and HCRYPT_CTX_F_TTSEND are fields.
pub record Context : Type 0 where
  pub status : Status
  pub announce : Bool
  pub tt_send : Bool
  pub salt : ℕ
  pub sek : ℕ
  pub pkt_cnt : ℕ
  pub km : KeyMessage

-- `current` is true for the odd context. Times are in microseconds; a period of 0 is one not set.
pub record Session : Type 0 where
  pub even_ctx : Context
  pub odd_ctx : Context
  pub current : Bool
  pub refresh_rate : ℕ
  pub pre_announce : ℕ
  pub tx_period : ℕ
  pub tx_last : ℕ

-- What the provider answers: `prng` for a salt and for a key, and whether `ms_setkey`, the derivation
-- of the key encrypting key and `km_wrap` succeed.
pub record Provider : Type 0 where
  pub random_salt : Option ℕ
  pub random_key : Option ℕ
  pub sets_key : Bool
  pub derives : Bool
  pub wraps : Bool

abbrev pub context : Bool → Session → Context
context true c = c.odd_ctx
context false c = c.even_ctx

abbrev pub put : Bool → Context → Session → Session
put true x c = record c { odd_ctx = x }
put false x c = record c { even_ctx = x }

-- `crypto->ctx` and `crypto->ctx->alt`
abbrev pub ctx : Session → Context
ctx c = context c.current c

abbrev pub alt : Session → Context
alt c = context (not c.current) c

-- `hcryptCtx_Tx_AsmKM` for the odd or the even context: the context, and whether it succeeded.
unfoldable pub asm_km : Bool → Provider → Context → Option ℕ → Context × Bool
asm_km odd p x none = (
  record x { km = record { has_both = false; keys = if p.wraps then x.sek ∷ [] else [] } },
  p.wraps,
)
asm_km odd p x (some alt_sek) =
    let seks = if odd then alt_sek ∷ x.sek ∷ [] else x.sek ∷ alt_sek ∷ [] in
    (record x { km = record { has_both = true; keys = if p.wraps then seks else [] } }, p.wraps)

-- The end of `hcryptCtx_Tx_Rekey`: the other context's message no longer has this one's key.
unfoldable pub reassemble_alt : Bool → Provider → Session → Session
unfolding asm_km
reassemble_alt odd p c =
    let other = context (not odd) c in
    if not (ltb (rank other.status) (rank keyed)) && other.km.has_both
    then put (not odd) (asm_km (not odd) p other none).0 c
    else c

-- `hcryptCtx_Tx_Rekey` with the context that has its new salt, and the new key; the second part is
-- whether it returns 0. `has_password` is `0 < pwd_len`.
unfoldable pub rekey_with : Bool → Bool → Provider → Session → Context → ℕ → Session × Bool
unfolding reassemble_alt
rekey_with has_password odd p c x k =
    let y = record x { sek = k } in
    let (z, wrapped) = asm_km odd p y none in
    let c' = reassemble_alt odd p (put odd z c) in
    if not p.sets_key
    then (put odd y c, false)
    else if has_password && not p.derives
    then (put odd y c, false)
    else if not wrapped
    then (put odd z c, false)
    else (put odd (record (context odd c') { pkt_cnt = 1; status = keyed }) c', true)

-- The same with what `prng` gives.
unfoldable pub rekey_random :
    Bool → Bool → Provider → Session → Option ℕ → Option ℕ → Session × Bool
unfolding rekey_with
rekey_random has_password odd p c none key = (c, false)
rekey_random has_password odd p c (some s) none =
    (put odd (record (context odd c) { salt = s }) c, false)
rekey_random has_password odd p c (some s) (some k) =
    rekey_with has_password odd p c (record (context odd c) { salt = s }) k

unfoldable pub rekey : Bool → Bool → Provider → Session → Session × Bool
unfolding rekey_random
rekey has_password odd p c = rekey_random has_password odd p c p.random_salt p.random_key

-- The new keyless session of `HaiCrypt_Create`, after `hcryptCtx_Tx_Init` of both contexts.
abbrev pub fresh_context : Context
fresh_context = record {
  status = sardy;
  announce = false;
  tt_send = false;
  salt = 0;
  sek = 0;
  pkt_cnt = 0;
  km = record { has_both = false; keys = [] };
}

-- `HaiCrypt_Create` for a sender, from a valid configuration; `none` for an error.
unfoldable pub create : Bool → Provider → ℕ → ℕ → ℕ → Option Session
unfolding rekey
create has_password p refresh_rate pre_announce tx_period =
    let (c, done) = rekey has_password false p (record {
      even_ctx = fresh_context;
      odd_ctx = fresh_context;
      current = false;
      refresh_rate = refresh_rate;
      pre_announce = pre_announce;
      tx_period = tx_period;
      tx_last = 0;
    }) in
    if done
    then some (record c {
      even_ctx = record c.even_ctx { announce = true; tt_send = true; status = active };
    })
    else none

-- `hcryptCtx_Tx_Refresh`: a new key for the other context, with the salt of the current one. The
-- caller does not look whether it succeeds. The context `x` has its new salt.
unfoldable pub refresh_with : Provider → Session → Context → Option ℕ → Session
unfolding asm_km
refresh_with p c x none = put (not c.current) x c
refresh_with p c x (some k) =
    let y = record x { sek = k } in
    let (z, wrapped) = asm_km (not c.current) p y (some (ctx c).sek) in
    if not p.sets_key
    then put (not c.current) y c
    else if not wrapped
    then put (not c.current) z c
    else put (not c.current) (record z { pkt_cnt = 0; status = keyed }) c

unfoldable pub refresh : Provider → Session → Session
unfolding refresh_with
refresh p c = refresh_with p c (record (alt c) { salt = (ctx c).salt }) p.random_key

-- `hcryptCtx_Tx_PreSwitch`
unfoldable pub pre_switch : Session → Session
pre_switch c =
    let c' = put (not c.current) (record (alt c) { announce = true; tt_send = true }) c in
    if (alt c).km.has_both then put c.current (record (ctx c) { announce = false }) c' else c'

-- `hcryptCtx_Tx_Switch`
unfoldable pub switch : Session → Session
switch c =
    let c' = put c.current (record (ctx c) { status = deprecated }) c in
    record (put (not c.current) (record (alt c) { status = active; announce = true }) c') {
      current = not c.current;
    }

-- `hcryptCtx_Tx_PostSwitch`
unfoldable pub post_switch : Provider → Session → Session
unfolding asm_km
post_switch p c =
    let c' = put (not c.current) (record (alt c) { announce = false; status = sardy }) c in
    if (ctx c).km.has_both then put c.current (asm_km c.current p (ctx c) none).0 c' else c'

abbrev pub is_deprecated : Status → Bool
is_deprecated deprecated = true
is_deprecated s = false

-- `crypto->km.refresh_rate - crypto->km.pre_announce`, of `unsigned int`
abbrev pub refresh_point : Session → ℕ
refresh_point c = (c.refresh_rate + 2 ^ 32 - c.pre_announce) % 2 ^ 32

-- The first part of `hcryptCtx_Tx_ManageKM`.
unfoldable pub manage_keys : Provider → Session → Session
unfolding refresh pre_switch switch post_switch
manage_keys p c =
    let n = (ctx c).pkt_cnt in
    if ltb c.refresh_rate n || n == 0
    then switch c
    else if ltb (refresh_point c) n && not (alt c).announce
    then pre_switch (refresh p c)
    else if is_deprecated (alt c).status && ltb c.pre_announce n
    then post_switch p c
    else c

abbrev pub due_to_send : Context → Context
due_to_send x = record x { tt_send = x.tt_send || x.announce }

-- `hcryptCtx_Tx_ManageKM`, where the clock gives `now`.
unfoldable pub manage_km : Provider → ℕ → Session → Session
unfolding manage_keys
manage_km p now c =
    let c' = manage_keys p c in
    if not (c'.tx_period == 0) && ltb (c'.tx_last + c'.tx_period) now
    then record c' { even_ctx = due_to_send c'.even_ctx; odd_ctx = due_to_send c'.odd_ctx }
    else c'

-- `hcryptCtx_Tx_InjectKM`: the messages to send.
unfoldable pub inject_km : ℕ → Session → List KeyMessage × Session
inject_km now c =
    let out =
      (if c.even_ctx.tt_send then c.even_ctx.km ∷ [] else [])
      ++ (if c.odd_ctx.tt_send then c.odd_ctx.km ∷ [] else []) in
    let sent = c.even_ctx.tt_send || c.odd_ctx.tt_send in
    (
      out,
      record c {
        even_ctx = record c.even_ctx { tt_send = false };
        odd_ctx = record c.odd_ctx { tt_send = false };
        tx_last = if sent then now else c.tx_last;
      },
    )

-- `HaiCrypt_Tx_ManageKeys`, with valid arguments.
unfoldable pub manage_key_messages : Provider → ℕ → Session → List KeyMessage × Session
unfolding manage_km inject_km
manage_key_messages p now c = inject_km now (manage_km p now c)

-- `HaiCrypt_Tx_Data`, which counts a packet if it is encrypted; the first part is the key used.
unfoldable pub tx_data : Bool → Session → Option ℕ × Session
tx_data encrypts c =
    if encrypts
    then (
      some (ctx c).sek,
      put c.current (record (ctx c) { pkt_cnt = ((ctx c).pkt_cnt + 1) % 2 ^ 32 }) c,
    )
    else (none, c)
