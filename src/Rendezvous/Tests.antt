-- ===== src/Rendezvous/Tests.antt =====
-- Runs of the rendezvous, and the roles of two cookies.
use swift_srt.Base.{◌-◌, ◌^◌, ◌≡◌, ◌≢◌, refl, arith, pos, negsuc}
use swift_srt.Rendezvous.{
  Checks, initiator, connected, draw, responder, cookie_contest, process_rendezvous,
}
use swift_srt.Rendezvous.Cookies.{Opposite, HalfApart, cookie_contest_roles}
use swift_srt.Rendezvous.Peers.{
  agent, message, Kind, System, start, wave, full_kind, to_winner, to_loser, winner_gets,
  loser_gets, Reach, here, next,
}
use swift_srt.Rendezvous.Checked.{Checked}
use swift_srt.Rendezvous.Safe.{Safe, Reach-Safe}

-- The loser's URQ_WAVEAHAND arrives first, and the winner's URQ_CONCLUSION at the waving loser.
abbrev attended : System
attended = to_winner wave start

abbrev answered : System
answered = to_loser full_kind attended

serial : Reach start answered
unfolding to_winner process_rendezvous
serial = next (next here (winner_gets wave refl)) (loser_gets full_kind refl)

serial_end : (to_winner full_kind answered).winner ≡ connected
unfolding to_winner to_loser process_rendezvous
serial_end = refl

Reach-Safe_example :
    Safe answered
    × ((x : Checks) (k : Kind)
        → Checked x answered.winner initiator
            (process_rendezvous x (agent answered.winner initiator) (message k) (pos 1))
          × Checked x answered.loser responder
              (process_rendezvous x (agent answered.loser responder) (message k) (pos 1)))
Reach-Safe_example = Reach-Safe serial

cookie_contest_roles_example :
    (pos (2 ^ 30) ≡ negsuc (2 ^ 30 - 1)
      → (cookie_contest draw (pos (2 ^ 30)) (negsuc (2 ^ 30 - 1)) ≡ draw)
        × (cookie_contest draw (negsuc (2 ^ 30 - 1)) (pos (2 ^ 30)) ≡ draw))
    × (HalfApart (pos (2 ^ 30)) (negsuc (2 ^ 30 - 1))
        → (cookie_contest draw (pos (2 ^ 30)) (negsuc (2 ^ 30 - 1)) ≡ responder)
          × (cookie_contest draw (negsuc (2 ^ 30 - 1)) (pos (2 ^ 30)) ≡ responder))
    × (pos (2 ^ 30) ≢ negsuc (2 ^ 30 - 1)
        → ¬ HalfApart (pos (2 ^ 30)) (negsuc (2 ^ 30 - 1))
        → Opposite
            (cookie_contest draw (pos (2 ^ 30)) (negsuc (2 ^ 30 - 1)))
            (cookie_contest draw (negsuc (2 ^ 30 - 1)) (pos (2 ^ 30))))
cookie_contest_roles_example =
    cookie_contest_roles (pos (2 ^ 30)) (negsuc (2 ^ 30 - 1)) (omega arith) (omega arith) (λ e. cc)
      (λ e. cc)
