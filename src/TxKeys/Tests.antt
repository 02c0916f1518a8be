-- ===== src/TxKeys/Tests.antt =====
-- A session through a change of its key.
use swift_srt.Base.{ℕ, ◌≡◌, ◌≢◌, refl, arith, true, false, some, [], ◌∷◌}
use swift_srt.TxKeys.{
  active, Session, Provider, ctx, alt, create, fresh_context, manage_keys, manage_key_messages,
  tx_data,
}
use swift_srt.TxKeys.Valid.{HasKey, Works}
use swift_srt.TxKeys.Steps.{encrypt, manage, Reach, here, next}
use swift_srt.TxKeys.Sent.{IsSent, sent}
use swift_srt.TxKeys.Changes.{manage_keys_announced}

abbrev provider : ℕ → Provider
provider k = record {
  random_salt = some 5;
  random_key = some k;
  sets_key = true;
  derives = true;
  wraps = true;
}

provider-Works : (k : ℕ) → Works (provider k) k
provider-Works k = record { random = refl; sets = refl; wraps_keys = refl }

-- A new session, which refreshes after two packets and announces one before.
abbrev made : Session
made = record {
  even_ctx = record fresh_context {
    salt = 5;
    sek = 7;
    pkt_cnt = 1;
    status = active;
    announce = true;
    tt_send = true;
    km = record { has_both = false; keys = 7 ∷ [] };
  };
  odd_ctx = fresh_context;
  current = false;
  refresh_rate = 2;
  pre_announce = 1;
  tx_period = 0;
  tx_last = 0;
}

created : create true (provider 7) 2 1 0 ≡ some made
unfolding create
created = refl

-- One packet, the announcement of the next key, and a packet over the period.
abbrev announced : Session
announced = (manage_key_messages (provider 9) 10 (tx_data true made).1).1

abbrev over : Session
over = (tx_data true announced).1

before : Reach made over 1
unfolding tx_data manage_key_messages
before =
    next
      (next (next here (encrypt (omega arith)))
        (manage (provider 9) 9 10 (provider-Works 9) (omega arith)))
      (encrypt (omega arith))

over_count : (ctx over).pkt_cnt ≡ 3
unfolding tx_data manage_key_messages
over_count = refl

changed : (manage_keys (provider 11) over).current ≡ true
unfolding tx_data manage_key_messages manage_keys
changed = refl

over-Changes : (manage_keys (provider 11) over).current ≢ over.current
unfolding tx_data manage_key_messages manage_keys
over-Changes = λ e. cc (e)

manage_keys_announced_example :
    IsSent (alt over).km (sent before)
    × HasKey (alt over).sek (alt over).km.keys
    × HasKey (ctx over).sek (alt over).km.keys
    × ((ctx (manage_keys (provider 11) over)).sek ≡ (alt over).sek)
manage_keys_announced_example =
    manage_keys_announced true (provider 7) 2 1 0 (provider 11) created (omega arith) (omega arith)
      before (omega arith) over-Changes
