-- ===== src/Rendezvous/Connects.antt =====
-- From every state that the peers can come to, both can still be connected, if every message that was
-- sent can still be delivered. This leaves the case out in which the URQ_AGREEMENT, which the winner
-- sends only once, is lost for good.
use swift_srt.Base.{Bool, true, not, ◌&&◌}
use swift_srt.Rendezvous.{connected}
use swift_srt.Rendezvous.Peers.{
  System, Kind, wave, plain_kind, full_kind, agree_kind, to_loser, try_winner, try_loser,
}
use swift_srt.Rendezvous.Tables.{implies, every_kind}
use swift_srt.Rendezvous.Safe.{is_state, invariant}

-- One exchange: everything that can arrive arrives at the loser, and then at the winner.
exchange : System → System
exchange s = try_winner agree_kind (
    try_winner full_kind (
      try_winner plain_kind (
        try_winner wave
          (try_loser agree_kind (try_loser full_kind (try_loser plain_kind (try_loser wave s)))))))

abbrev both_connected : System → Bool
both_connected s = is_state s.winner connected && is_state s.loser connected

finishes : System → Bool
finishes s = implies (invariant s) (both_connected (exchange (exchange (exchange s))))

-- No message but a URQ_AGREEMENT connects the loser.
abbrev stays_at : Kind → System → Bool
stays_at agree_kind s = true
stays_at k s = not (is_state (to_loser k s).loser connected)

stays : System → Bool
stays s =
    implies (invariant s)
      (implies (not (is_state s.loser connected)) (every_kind λ k. stays_at k s))
