-- ===== src/Rendezvous/Tables.antt =====
-- Tests of all states, kinds of messages and truth values of a rendezvous, by going through them.
use swift_srt.Base.{◌≡◌, refl, Bool, true, false, ◌&&◌, arith}
use swift_srt.Rendezvous.{RendezvousState, invalid, waving, attention, fine, initiated, connected}
use swift_srt.Rendezvous.Peers.{Kind, wave, plain_kind, full_kind, agree_kind}

abbrev pub implies : Bool → Bool → Bool
implies true b = b
implies false b = true

-- Quantifiers over the finite types.
abbrev pub every_bool : (Bool → Bool) → Bool
every_bool p = p true && p false

abbrev pub every_state : (RendezvousState → Bool) → Bool
every_state p = p invalid && p waving && p attention && p fine && p initiated && p connected

abbrev pub every_kind : (Kind → Bool) → Bool
every_kind p = p wave && p plain_kind && p full_kind && p agree_kind

pub &&-left : (a b : Bool) → (a && b) ≡ true → a ≡ true
&&-left true b h = refl
&&-left false b h = cc

pub &&-right : (a b : Bool) → (a && b) ≡ true → b ≡ true
&&-right true b h = h
&&-right false b h = cc

pub implies-elim : (a b : Bool) → implies a b ≡ true → a ≡ true → b ≡ true
implies-elim true b h e = h
implies-elim false b h e = cc

pub every_bool_sound : (p : Bool → Bool) (x : Bool) → every_bool p ≡ true → p x ≡ true
every_bool_sound p true h = &&-left (p true) (p false) h
every_bool_sound p false h = &&-right (p true) (p false) h

pub every_state_sound :
    (p : RendezvousState → Bool) (x : RendezvousState) → every_state p ≡ true → p x ≡ true
every_state_sound p invalid h = ground arith
every_state_sound p waving h = ground arith
every_state_sound p attention h = ground arith
every_state_sound p fine h = ground arith
every_state_sound p initiated h = ground arith
every_state_sound p connected h = ground arith

pub every_kind_sound : (p : Kind → Bool) (x : Kind) → every_kind p ≡ true → p x ≡ true
every_kind_sound p wave h = ground arith
every_kind_sound p plain_kind h = ground arith
every_kind_sound p full_kind h = ground arith
every_kind_sound p agree_kind h = ground arith
