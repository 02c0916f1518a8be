-- ===== src/Rendezvous.antt =====
-- The rendezvous connection of Sources/CSRT/core.cpp: `CUDT::cookieContest`,
-- `CUDT::rendezvousSwitchState` and `CUDT::processRendezvous`. A handshake that comes in is its
-- request type and whether it has extension flags; what the extensions hold, and the objects and
-- packets that are made of them, is left out, but for whether making them succeeds.
pub mod Cookies
pub mod Peers
pub mod Tables
pub mod Checked
pub mod Safe
pub mod Connects
mod Tests
use swift_srt.Base.{
  ℕ, zero, suc, ◌+◌, ◌-◌, ◌^◌, Bool, true, false, ◌||◌, not, ◌&&◌, Option, none, some,
  if◌then◌else◌, ℤ, pos, ◌+ℤ◌, ◌-ℤ◌, eqb_ℤ, ltb_ℤ, leb_ℤ,
}

pub data RendezvousState : Type 0 where
  invalid waving attention fine initiated connected : RendezvousState

-- `UDTRequestType`; `failure n` is `URQ_FAILURE_TYPES + n`.
pub data RequestType : Type 0 where
  induction waveahand conclusion agreement done : RequestType
  failure : ℕ → RequestType

pub data HandshakeSide : Type 0 where
  draw initiator responder : HandshakeSide

-- `int32_t` subtraction, which wraps.
abbrev pub sub_int32 : ℤ → ℤ → ℤ
sub_int32 a b =
    let d = a -ℤ b in
    if leb_ℤ (pos (2 ^ 31)) d
    then d -ℤ pos (2 ^ 32)
    else if ltb_ℤ d (pos 0 -ℤ pos (2 ^ 31))
    then d +ℤ pos (2 ^ 32)
    else d

-- `cookieContest`, of the agent's cookie and the peer's.
unfoldable pub cookie_contest : HandshakeSide → ℤ → ℤ → HandshakeSide
cookie_contest initiator own peer = initiator
cookie_contest responder own peer = responder
cookie_contest draw own peer =
    let better_cookie = sub_int32 own peer in
    if eqb_ℤ own (pos 0) || eqb_ℤ peer (pos 0)
    then draw
    else if ltb_ℤ (pos 0) better_cookie
    then initiator
    else if ltb_ℤ better_cookie (pos 0)
    then responder
    else draw

-- What `rendezvousSwitchState` leaves: the state, `rsptype`, `needs_extension` and `needs_hsrsp`.
pub record Switch : Type 0 where
  pub state : RendezvousState
  pub response : RequestType
  pub needs_extension : Bool
  pub needs_hsrsp : Bool

-- A response with no extension.
abbrev pub plain : RendezvousState → RequestType → Switch
plain s r = record { state = s; response = r; needs_extension = false; needs_hsrsp = false }

abbrev pub with_hsreq : RendezvousState → Switch
with_hsreq s = record {
  state = s;
  response = conclusion;
  needs_extension = true;
  needs_hsrsp = false;
}

abbrev pub with_hsrsp : RendezvousState → Switch
with_hsrsp s = record {
  state = s;
  response = conclusion;
  needs_extension = true;
  needs_hsrsp = true;
}

-- The end of the function, for all other requests: SRT_REJ_ROGUE is 4.
abbrev pub rogue : Switch
rogue = plain waving (failure 4)

unfoldable pub switch_waving : HandshakeSide → RequestType → Switch
switch_waving initiator waveahand = with_hsreq attention
switch_waving side waveahand = plain attention conclusion
switch_waving responder conclusion = with_hsrsp fine
switch_waving side conclusion = with_hsreq fine
switch_waving side req = rogue

-- SRT_REJ_RDVCOOKIE is 9.
unfoldable pub switch_attention : HandshakeSide → RequestType → Bool → Switch
switch_attention initiator waveahand flags = with_hsreq attention
switch_attention side waveahand flags = plain attention conclusion
switch_attention initiator conclusion false = with_hsreq attention
switch_attention initiator conclusion true = plain connected agreement
switch_attention responder conclusion false = plain attention conclusion
switch_attention responder conclusion true = with_hsrsp initiated
switch_attention draw conclusion flags = plain invalid (failure 9)
switch_attention initiator agreement flags = plain connected done
switch_attention responder agreement flags = with_hsrsp attention
switch_attention side req flags = rogue

unfoldable pub switch_fine : HandshakeSide → RequestType → Bool → Switch
switch_fine initiator conclusion false = with_hsreq fine
switch_fine responder conclusion flags = with_hsrsp fine
switch_fine side conclusion flags = plain connected agreement
switch_fine side agreement flags = plain connected done
switch_fine side req flags = rogue

unfoldable pub switch_initiated : RequestType → Switch
switch_initiated agreement = plain connected done
switch_initiated conclusion = with_hsrsp initiated
switch_initiated req = rogue

-- `rendezvousSwitchState`; `response` is the value that `rsptype` comes with, which the state
-- RDV_INVALID leaves.
unfoldable pub switch_state :
    RendezvousState → HandshakeSide → RequestType → Bool → RequestType → Switch
unfolding switch_waving switch_attention switch_fine switch_initiated
switch_state invalid side req flags response = plain invalid response
switch_state waving side req flags response = switch_waving side req
switch_state attention side req flags response = switch_attention side req flags
switch_state fine side req flags response = switch_fine side req flags
switch_state initiated side req flags response = switch_initiated req
switch_state connected side req flags response = plain connected done

-- A handshake message: `m_iReqType`, and whether it has extensions.
pub record Message : Type 0 where
  pub req_type : RequestType
  pub extension : Bool

-- The part of a socket that takes part: `m_RdvState`, `m_SrtHsSide`, the cookie of `m_ConnReq`, and
-- the message that `m_ConnReq` now stands for.
pub record Agent : Type 0 where
  pub rdv_state : RendezvousState
  pub side : HandshakeSide
  pub cookie : ℤ
  pub request : Message

pub data ConnectStatus : Type 0 where
  accept keep_on : ConnectStatus
  reject : ℕ → ConnectStatus

-- `received` is whether a packet has just come in (RST_OK); otherwise the call is a periodic one, which
-- processes the last handshake again. `prepared`, `interpreted`, `created` and `posted` are whether
-- `prepareConnectionObjects`, `interpretSrtHandshake`, `createSrtHandshake` and `postConnect` succeed.
-- For the periodic call, `key_request` is whether the handshake has the flag HS_EXT_KMREQ, `recorded`
-- whether its key message is on record, and `no_secret` whether the key exchange has failed for want of
-- the right secret. `reason` is the reject reason where one of the calls fails. A packet of length -1,
-- an internal error for the source, is left out.
pub record Checks : Type 0 where
  pub received : Bool
  pub prepared : Bool
  pub interpreted : Bool
  pub key_request : Bool
  pub recorded : Bool
  pub no_secret : Bool
  pub created : Bool
  pub posted : Bool
  pub reason : ℕ

-- Whether there is the data for the response to an HSREQ extension.
abbrev pub has_response_data : Checks → Bool
has_response_data checks =
    if checks.received
    then checks.interpreted
    else not checks.key_request || checks.recorded || checks.no_secret

-- The result, the socket, and the message sent, here or by the caller when it is told to keep on.
pub record Outcome : Type 0 where
  pub status : ConnectStatus
  pub agent : Agent
  pub sent : Option Message

abbrev pub with_request : Agent → RequestType → Bool → Agent
with_request a r e = record a { request = record { req_type = r; extension = e } }

abbrev pub continues : Agent → Outcome
continues a = record { status = keep_on; agent = a; sent = some a.request }

abbrev pub rejects : Agent → Checks → Outcome
rejects a checks = record { status = reject checks.reason; agent = a; sent = none }

-- The case that the handshake brought an HSREQ extension, which the HSRSP extension answers.
unfoldable pub answer_hsreq : Agent → Checks → Outcome
answer_hsreq a checks =
    if has_response_data checks && checks.created
    then continues (with_request a a.request.req_type true)
    else rejects a checks

-- An initiator that sends URQ_AGREEMENT interprets the HSRSP extension of a packet first.
unfoldable pub interpret_hsrsp : HandshakeSide → RequestType → Agent → Checks → Agent
interpret_hsrsp initiator agreement a checks =
    if not checks.received || checks.interpreted
    then a
    else with_request a (failure checks.reason) a.request.extension
interpret_hsrsp side r a checks = a

abbrev pub is_connected : RendezvousState → Bool
is_connected connected = true
is_connected s = false

abbrev pub is_rejection : RequestType → Bool
is_rejection (failure (suc n)) = true
is_rejection r = false

-- The end, for the response `r`.
unfoldable pub send_response : RequestType → Agent → Checks → Outcome
send_response done a checks = record { status = accept; agent = a; sent = none }
send_response agreement a checks =
    if not checks.created
    then rejects a checks
    else if is_connected a.rdv_state
    then record { status = accept; agent = a; sent = some a.request }
    else continues a
send_response r a checks = if checks.created then continues a else rejects a checks

-- What follows the switch.
unfoldable pub after_switch : Agent → Checks → Switch → Outcome
unfolding answer_hsreq interpret_hsrsp send_response
after_switch a checks w =
    let ready = with_request (record a { rdv_state = w.state }) w.response w.needs_extension in
    let told = interpret_hsrsp a.side w.response ready checks in
    if not checks.prepared
    then rejects ready checks
    else if w.needs_hsrsp
    then answer_hsreq ready checks
    else if is_connected w.state && not checks.posted
    then rejects told checks
    else send_response w.response told checks

abbrev pub reject_reason : RequestType → ℕ
reject_reason (failure n) = n
reject_reason r = 0

-- What follows the cookie contest.
unfoldable pub resolve : HandshakeSide → Checks → Agent → Switch → Outcome
unfolding after_switch
resolve draw checks a w = record { status = reject 9; agent = a; sent = none }
resolve side checks a w =
    if is_rejection w.response
    then record {
      status = reject (reject_reason w.response);
      agent = record a { rdv_state = w.state };
      sent = none;
    }
    else after_switch a checks w

-- `processRendezvous` of a handshake with the peer's cookie.
unfoldable pub process_rendezvous : Checks → Agent → Message → ℤ → Outcome
unfolding resolve switch_state cookie_contest
process_rendezvous checks a m peer_cookie =
    let side = cookie_contest a.side a.cookie peer_cookie in
    let w = switch_state a.rdv_state side m.req_type m.extension (failure 0) in
    if is_connected a.rdv_state
    then record { status = accept; agent = a; sent = none }
    else resolve side checks (record a { side = side }) w
