-- ===== src/Rendezvous/Checked.antt =====
-- What `processRendezvous` does where one of the local steps that it checks fails.
use swift_srt.Base.{◌≡◌, refl, Bool, true, false, not, ◌&&◌, Option, none, some, ℕ, pos, arith}
use swift_srt.Rendezvous.{
  RendezvousState, RequestType, conclusion, HandshakeSide, initiator, responder, Message, Checks,
  Outcome, has_response_data, is_connected, process_rendezvous,
}
use swift_srt.Rendezvous.Peers.{Kind, message, agent, is_reject}
use swift_srt.Rendezvous.Tables.{
  implies, every_bool, every_state, every_kind, every_bool_sound, every_state_sound,
  every_kind_sound,
}

abbrev pub is_sent : Option Message → Bool
is_sent none = false
is_sent (some m) = true

abbrev is_conclusion : RequestType → Bool
is_conclusion conclusion = true
is_conclusion r = false

-- An URQ_CONCLUSION with an extension.
abbrev pub is_full : Option Message → Bool
is_full none = false
is_full (some m) = is_conclusion m.req_type && m.extension

abbrev pub is_responder : HandshakeSide → Bool
is_responder responder = true
is_responder s = false

-- The outcome `o` in the state `before`, with the checks `x`: a peer that is not connected and cannot
-- prepare the connection rejects; a message is sent only if it was created, by a peer that does not
-- reject; a responder sends an URQ_CONCLUSION with an extension only if it has the data for it; and a
-- peer that gets connected has posted it or rejects.
pub record Checked (x : Checks) (before : RendezvousState) (side : HandshakeSide) (o : Outcome)
    : Type 0 where
  pub unprepared : is_connected before ≡ false → x.prepared ≡ false → is_reject o.status ≡ true
  pub created_first : is_sent o.sent ≡ true → x.created ≡ true
  pub reject_silent : is_reject o.status ≡ true → is_sent o.sent ≡ false
  pub has_data : is_responder side ≡ true → is_full o.sent ≡ true → has_response_data x ≡ true
  pub posted_first :
      is_connected before ≡ false
      → is_connected o.agent.rdv_state ≡ true
      → is_reject o.status ≡ false
      → x.posted ≡ true

abbrev checks : Bool → Bool → Bool → Bool → Bool → Bool → Bool → Bool → ℕ → Checks
checks a b c d e f g h n = record {
  received = a;
  prepared = b;
  interpreted = c;
  key_request = d;
  recorded = e;
  no_secret = f;
  created = g;
  posted = h;
  reason = n;
}

abbrev test : Checks → RendezvousState → HandshakeSide → Outcome → Bool
test x s side o =
    implies (not (is_connected s)) (implies (not x.prepared) (is_reject o.status))
    && implies (is_sent o.sent) x.created
    && implies (is_reject o.status) (not (is_sent o.sent))
    && implies (is_responder side) (implies (is_full o.sent) (has_response_data x))
    && implies (not (is_connected s))
        (implies (is_connected o.agent.rdv_state) (implies (not (is_reject o.status)) x.posted))

abbrev outcome : Checks → RendezvousState → HandshakeSide → Kind → Outcome
outcome x s side k = process_rendezvous x (agent s side) (message k) (pos 1)

abbrev test_all : HandshakeSide → Checks → Bool
test_all side x = every_state λ s. every_kind λ k. test x s side (outcome x s side k)

abbrev test_at : HandshakeSide → ℕ → Bool → Bool → Bool → Bool → Bool → Bool → Bool → Bool → Bool
test_at side n a b c d e f g h = test_all side (checks a b c d e f g h n)

abbrev table : HandshakeSide → ℕ → Bool
table side n = every_bool λ a. every_bool λ b. every_bool λ c. every_bool λ d.
    every_bool λ e. every_bool λ f. every_bool λ g. every_bool λ h. test_at side n a b c d e f g h

winner_table : (n : ℕ) → table initiator n ≡ true
unfolding process_rendezvous
winner_table n = refl

loser_table : (n : ℕ) → table responder n ≡ true
unfolding process_rendezvous
loser_table n = refl

in_table : (side : HandshakeSide) (x : Checks) → table side x.reason ≡ true → test_all side x ≡ true
in_table side x t =
    every_bool_sound
      (λ h.
        test_at side x.reason x.received x.prepared x.interpreted x.key_request x.recorded
          x.no_secret x.created h)
      x.posted
      (every_bool_sound
        (λ g. every_bool λ h.
          test_at side x.reason x.received x.prepared x.interpreted x.key_request x.recorded
            x.no_secret g h)
        x.created
        (every_bool_sound
          (λ f. every_bool λ g. every_bool λ h.
            test_at side x.reason x.received x.prepared x.interpreted x.key_request x.recorded f g
              h)
          x.no_secret
          (every_bool_sound
            (λ e. every_bool λ f. every_bool λ g.
              every_bool λ h.
                test_at side x.reason x.received x.prepared x.interpreted x.key_request e f g h)
            x.recorded
            (every_bool_sound
              (λ d. every_bool λ e. every_bool λ f. every_bool λ g.
                every_bool λ h. test_at side x.reason x.received x.prepared x.interpreted d e f g h)
              x.key_request
              (every_bool_sound
                (λ c. every_bool λ d. every_bool λ e. every_bool λ f.
                  every_bool
                    λ g. every_bool λ h. test_at side x.reason x.received x.prepared c d e f g h)
                x.interpreted
                (every_bool_sound
                  (λ b. every_bool λ c. every_bool λ d. every_bool λ e. every_bool λ f.
                    every_bool λ g. every_bool λ h. test_at side x.reason x.received b c d e f g h)
                  x.prepared
                  (every_bool_sound
                    (λ a. every_bool λ b. every_bool λ c. every_bool λ d. every_bool λ e.
                      every_bool
                        λ f. every_bool λ g. every_bool λ h. test_at side x.reason a b c d e f g h)
                    x.received t)))))))

test-Checked :
    (x : Checks) (s : RendezvousState) (side : HandshakeSide) (o : Outcome)
    → test x s side o ≡ true
    → Checked x s side o
test-Checked x s side o h = record {
  unprepared = ground arith;
  created_first = ground arith;
  reject_silent = ground arith;
  has_data = ground arith;
  posted_first = ground arith;
}

table-Checked :
    (x : Checks) (s : RendezvousState) (side : HandshakeSide) (k : Kind)
    → table side x.reason ≡ true
    → Checked x s side (outcome x s side k)
table-Checked x s side k t = test-Checked x s side (outcome x s side k) (
    every_kind_sound (λ i. test x s side (outcome x s side i)) k
      (every_state_sound (λ r. every_kind λ i. test x r side (outcome x r side i)) s
        (in_table side x t)))

-- Whatever fails, for both roles.
pub process_rendezvous-Checked :
    (x : Checks) (s : RendezvousState) (k : Kind)
    → Checked x s initiator (process_rendezvous x (agent s initiator) (message k) (pos 1))
      × Checked x s responder (process_rendezvous x (agent s responder) (message k) (pos 1))
process_rendezvous-Checked x s k = (
  table-Checked x s initiator k (winner_table x.reason),
  table-Checked x s responder k (loser_table x.reason),
)
