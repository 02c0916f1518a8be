-- ===== src/Rendezvous/Peers.antt =====
-- Two peers, whose roles the contest has settled, and the messages that they have sent. All that they
-- do besides succeeds: preparing the connection, interpreting and making extensions, posting. A step
-- delivers one of the messages sent so far, so a message may come late, in any order, several times or
-- not at all; but none is lost in the sense that it can no longer come. Only a URQ_WAVEAHAND does not
-- arrive so late that the receiver has left WAVING and ATTENTION. Each peer starts by waving.
use swift_srt.Base.{◌≡◌, Bool, true, false, ◌||◌, Option, none, some, if◌then◌else◌, pos}
use swift_srt.Rendezvous.{
  RendezvousState, waving, attention, RequestType, waveahand, conclusion, agreement, HandshakeSide,
  initiator, responder, Message, Agent, Checks, Outcome, ConnectStatus, reject, process_rendezvous,
}

-- Nothing fails.
abbrev pub all_pass : Checks
all_pass = record {
  received = true;
  prepared = true;
  interpreted = true;
  key_request = false;
  recorded = false;
  no_secret = false;
  created = true;
  posted = true;
  reason = 0;
}

-- The messages of a peer besides URQ_WAVEAHAND.
pub record Sent : Type 0 where
  pub plain_conclusion : Bool
  pub full_conclusion : Bool
  pub agreed : Bool

pub record System : Type 0 where
  pub winner : RendezvousState
  pub loser : RendezvousState
  pub from_winner : Sent
  pub from_loser : Sent
  pub failed : Bool

abbrev pub nothing : Sent
nothing = record { plain_conclusion = false; full_conclusion = false; agreed = false }

abbrev pub start : System
start = record {
  winner = waving;
  loser = waving;
  from_winner = nothing;
  from_loser = nothing;
  failed = false;
}

pub data Kind : Type 0 where
  wave plain_kind full_kind agree_kind : Kind

abbrev pub message : Kind → Message
message wave = record { req_type = waveahand; extension = false }
message plain_kind = record { req_type = conclusion; extension = false }
message full_kind = record { req_type = conclusion; extension = true }
message agree_kind = record { req_type = agreement; extension = false }

-- A URQ_WAVEAHAND is not late for a receiver in this state.
abbrev pub awaits_wave : RendezvousState → Bool
awaits_wave waving = true
awaits_wave attention = true
awaits_wave s = false

-- A message of the kind can be delivered to a receiver in this state.
abbrev pub can_arrive : Sent → RendezvousState → Kind → Bool
can_arrive s r wave = awaits_wave r
can_arrive s r plain_kind = s.plain_conclusion
can_arrive s r full_kind = s.full_conclusion
can_arrive s r agree_kind = s.agreed

abbrev pub record_request : RequestType → Bool → Sent → Sent
record_request conclusion true s = record s { full_conclusion = true }
record_request conclusion false s = record s { plain_conclusion = true }
record_request agreement e s = record s { agreed = true }
record_request r e s = s

abbrev pub add_sent : Option Message → Sent → Sent
add_sent none s = s
add_sent (some m) s = record_request m.req_type m.extension s

abbrev pub is_reject : ConnectStatus → Bool
is_reject (reject n) = true
is_reject s = false

-- A peer with its role; the cookies do not count any more.
abbrev pub agent : RendezvousState → HandshakeSide → Agent
agent s side = record { rdv_state = s; side = side; cookie = pos 1; request = message wave }

unfoldable pub at_winner : System → Kind → Outcome
at_winner s k = process_rendezvous all_pass (agent s.winner initiator) (message k) (pos 1)

unfoldable pub at_loser : System → Kind → Outcome
at_loser s k = process_rendezvous all_pass (agent s.loser responder) (message k) (pos 1)

-- A message of the loser arrives at the winner, or the other way.
unfoldable pub to_winner : Kind → System → System
unfolding at_winner
to_winner k s =
    let o = at_winner s k in
    record s {
      winner = o.agent.rdv_state;
      from_winner = add_sent o.sent s.from_winner;
      failed = s.failed || is_reject o.status;
    }

unfoldable pub to_loser : Kind → System → System
unfolding at_loser
to_loser k s =
    let o = at_loser s k in
    record s {
      loser = o.agent.rdv_state;
      from_loser = add_sent o.sent s.from_loser;
      failed = s.failed || is_reject o.status;
    }

pub data Step (s : System) : System → Type 0 where
  winner_gets : (k : Kind) → can_arrive s.from_loser s.winner k ≡ true → Step s (to_winner k s)
  loser_gets : (k : Kind) → can_arrive s.from_winner s.loser k ≡ true → Step s (to_loser k s)

pub data Reach (s : System) : System → Type 0 where
  here : Reach s s
  next : {t u : System} → Reach s t → Step t u → Reach s u

-- The deliveries as a function, which does nothing where the message cannot arrive.
unfoldable pub try_winner : Kind → System → System
try_winner k s = if can_arrive s.from_loser s.winner k then to_winner k s else s

unfoldable pub try_loser : Kind → System → System
try_loser k s = if can_arrive s.from_winner s.loser k then to_loser k s else s
