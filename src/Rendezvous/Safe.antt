-- ===== src/Rendezvous/Safe.antt =====
-- What holds of the two peers at all times, found by going through all states.
use swift_srt.Base.{◌≡◌, ◌≢◌, ◌⊎◌, refl, Bool, true, false, not, ◌||◌, ◌&&◌, arith, pos}
use swift_srt.Rendezvous.Checked.{Checked, process_rendezvous-Checked}
use swift_srt.Rendezvous.{
  Checks, initiator, responder, RendezvousState, invalid, waving, attention, fine, initiated,
  connected, process_rendezvous,
}
use swift_srt.Rendezvous.Tables.{
  implies, every_bool, every_state, every_kind, &&-left, &&-right, implies-elim, every_bool_sound,
  every_state_sound, every_kind_sound,
}
use swift_srt.Rendezvous.Peers.{
  agent, message, Sent, System, start, Kind, can_arrive, to_winner, to_loser, Step, winner_gets,
  loser_gets, Reach, here, next,
}

abbrev pub is_state : RendezvousState → RendezvousState → Bool
is_state invalid invalid = true
is_state waving waving = true
is_state attention attention = true
is_state fine fine = true
is_state initiated initiated = true
is_state connected connected = true
is_state s t = false

-- The loser has answered the HSREQ extension.
abbrev answered : RendezvousState → Bool
answered s = is_state s fine || is_state s initiated || is_state s connected

abbrev pub invariant : System → Bool
invariant s =
    not s.failed
    && not (is_state s.winner invalid)
    && not (is_state s.winner initiated)
    && not (is_state s.loser invalid)
    && not s.from_winner.plain_conclusion
    && not s.from_loser.agreed
    && implies s.from_winner.agreed (is_state s.winner connected)
    && implies (is_state s.winner connected) (s.from_winner.agreed && answered s.loser)
    && implies (is_state s.loser connected) (is_state s.winner connected)
    && implies (not (is_state s.winner waving)) s.from_winner.full_conclusion
    && implies s.from_winner.full_conclusion (not (is_state s.winner waving))
    && implies s.from_loser.full_conclusion (answered s.loser)
    && implies (answered s.loser) s.from_loser.full_conclusion
    && implies s.from_loser.plain_conclusion (not (is_state s.loser waving))
    && implies (is_state s.loser attention) s.from_loser.plain_conclusion
    && implies (is_state s.loser fine)
        (not (is_state s.winner waving) && not (is_state s.winner fine))
    && implies (is_state s.winner fine) (not (is_state s.loser waving))

-- Quantifiers over the systems.
abbrev every_sent : (Sent → Bool) → Bool
every_sent p = every_bool λ x.
    every_bool
      λ y. every_bool λ z. p (record { plain_conclusion = x; full_conclusion = y; agreed = z })

unfoldable pub every_system : (System → Bool) → Bool
every_system p = every_state λ w. every_state λ l. every_sent λ x. every_sent λ y.
    every_bool
      λ f. p (record { winner = w; loser = l; from_winner = x; from_loser = y; failed = f })

abbrev keeps_at : System → Kind → Bool
keeps_at s k =
    implies (can_arrive s.from_loser s.winner k) (invariant (to_winner k s))
    && implies (can_arrive s.from_winner s.loser k) (invariant (to_loser k s))

keeps : System → Bool
keeps s = implies (invariant s) (every_kind (keeps_at s))

keeps_table : every_system keeps ≡ true
unfolding every_system keeps to_winner to_loser process_rendezvous
keeps_table = refl

abbrev sent : Bool → Bool → Bool → Sent
sent x y z = record { plain_conclusion = x; full_conclusion = y; agreed = z }

every_sent_sound : (p : Sent → Bool) (s : Sent) → every_sent p ≡ true → p s ≡ true
every_sent_sound p s h =
    every_bool_sound (λ z. p (sent s.plain_conclusion s.full_conclusion z)) s.agreed
      (every_bool_sound (λ y. every_bool λ z. p (sent s.plain_conclusion y z)) s.full_conclusion
        (every_bool_sound (λ x. every_bool λ y. every_bool λ z. p (sent x y z)) s.plain_conclusion
          h))

abbrev system : RendezvousState → RendezvousState → Sent → Sent → Bool → System
system w l x y f = record { winner = w; loser = l; from_winner = x; from_loser = y; failed = f }

pub every_system_sound : (p : System → Bool) (s : System) → every_system p ≡ true → p s ≡ true
unfolding every_system
every_system_sound p s h =
    every_bool_sound (λ f. p (system s.winner s.loser s.from_winner s.from_loser f)) s.failed
      (every_sent_sound (λ y. every_bool λ f. p (system s.winner s.loser s.from_winner y f))
        s.from_loser
        (every_sent_sound (λ x. every_sent λ y. every_bool λ f. p (system s.winner s.loser x y f))
          s.from_winner
          (every_state_sound
            (λ l. every_sent λ x. every_sent λ y. every_bool λ f. p (system s.winner l x y f))
            s.loser
            (every_state_sound
              (λ w.
                every_state
                  λ l. every_sent λ x. every_sent λ y. every_bool λ f. p (system w l x y f))
              s.winner h))))

kept : (s : System) (k : Kind) → invariant s ≡ true → keeps_at s k ≡ true
unfolding keeps
kept s k h = every_kind_sound (keeps_at s) k (
    implies-elim (invariant s) (every_kind (keeps_at s)) (every_system_sound keeps s keeps_table) h)

Step-invariant : {s t : System} → Step s t → invariant s ≡ true → invariant t ≡ true
Step-invariant {s} (winner_gets k c) h =
    implies-elim (can_arrive s.from_loser s.winner k) (invariant (to_winner k s))
      (&&-left _ (implies (can_arrive s.from_winner s.loser k) (invariant (to_loser k s)))
        (kept s k h))
      c
Step-invariant {s} (loser_gets k c) h =
    implies-elim (can_arrive s.from_winner s.loser k) (invariant (to_loser k s))
      (&&-right (implies (can_arrive s.from_loser s.winner k) (invariant (to_winner k s))) _
        (kept s k h))
      c

pub Reach-invariant : {s : System} → Reach start s → invariant s ≡ true
Reach-invariant here = refl
Reach-invariant (next r st) = Step-invariant st (Reach-invariant r)

-- What the invariant says.
pub record Safe (s : System) : Type 0 where
  pub never_rejected : s.failed ≡ false
  pub not_both_fine : s.winner ≡ fine → s.loser ≢ fine
  pub loser_last : s.loser ≡ connected → s.winner ≡ connected
  pub winner_answered :
      s.winner ≡ connected → (s.loser ≡ fine) ⊎ (s.loser ≡ initiated) ⊎ (s.loser ≡ connected)

invariant-Safe : (s : System) → invariant s ≡ true → Safe s
invariant-Safe s h = record {
  never_rejected = ground arith;
  not_both_fine = λ e f. ground arith;
  loser_last = λ e. ground arith;
  winner_answered = λ e. ground arith;
}

-- However the messages of two waving peers with settled roles, at which all local steps succeed, are
-- delivered, a URQ_WAVEAHAND not late: neither peer ever rejects, they are never both in FINE, the loser
-- is connected only if the winner is, and the winner only if the loser has answered its extension.
-- Where, in such a state, local steps fail as a message is handled: a peer that is not connected and
-- cannot prepare the connection rejects; no message is sent that could not be created, or by a peer that
-- rejects; the loser sends no URQ_CONCLUSION with an extension without the data for it; and a peer
-- that would get connected but cannot post it rejects.
pub Reach-Safe :
    {s : System}
    → Reach start s
    → Safe s
      × ((x : Checks) (k : Kind)
          → Checked x s.winner initiator
              (process_rendezvous x (agent s.winner initiator) (message k) (pos 1))
            × Checked x s.loser responder
                (process_rendezvous x (agent s.loser responder) (message k) (pos 1)))
Reach-Safe {s} r = (
  invariant-Safe s (Reach-invariant r),
  λ x k. ((process_rendezvous-Checked x s.winner k).0, (process_rendezvous-Checked x s.loser k).1),
)
