-- ===== src/Fec/Rebuild.antt =====
-- What `RcvRebuild` makes of a group whose clip is the one of a packet.
use swift_srt.Base.{
  if_false, ℕ, ◌%◌, ◌≤◌, ◌<◌, ◌≡◌, refl, sym, ap, ◌∙◌, ◌||◌, Bool, false, [], ◌∷◌, ◌++◌, length,
  arith, ℤ, pos, minus_one, eqb_ℤ, ltb, le→ltb,
}
use swift_srt.SeqNo.{seqoff, wrap}
use swift_srt.Fec.{SourcePacket, Clip, Group, Config, swap16, byte}
use swift_srt.Fec.Clips.{clip_of}
use swift_srt.Fec.Receiver.{Receiver, Rebuilt, rcv_rebuild}

-- A packet as it is made again.
abbrev pub restored : Bool → SourcePacket → Rebuilt
restored o p = record {
  seq_no = p.seq_no;
  in_order = o;
  key_flags = p.key_flags;
  timestamp = p.timestamp;
  size = length p.payload;
  buffer = byte p.payload;
}

pub swap16_twice : (v : ℕ) → v < 65536 → swap16 (swap16 v) ≡ v
swap16_twice v h = omega arith

pub seqoff_self : (b : ℕ) → seqoff (wrap b) (wrap b) ≡ pos 0
unfolding seqoff
seqoff_self b = ground arith

pub not_absent : (v : ℕ) → eqb_ℤ (wrap v) minus_one ≡ false
not_absent v = ground arith

abbrev pub made : ℤ → Bool → Clip → Rebuilt
made seq o c = record {
  seq_no = seq;
  in_order = o;
  key_flags = c.flag % 4;
  timestamp = c.timestamp;
  size = swap16 c.length;
  buffer = c.payload;
}

pub made-restored :
    (o : Bool) (v : ℕ) (q : SourcePacket)
    → q.seq_no ≡ wrap v
    → length q.payload < 65536
    → q.key_flags < 4
    → made (wrap v) o (clip_of q) ≡ restored o q
made-restored o v q s w f =
    let x : q.key_flags % 4 ≡ q.key_flags = omega (arith, f) in
    let y = swap16_twice (length q.payload) w in
    λ i. record {
      seq_no = sym s i;
      in_order = o;
      key_flags = x i;
      timestamp = q.timestamp;
      size = y i;
      buffer = byte q.payload;
    }

pub fits_test :
    (cfg : Config) (g : Group) (v : ℕ) (q : SourcePacket)
    → g.clip ≡ clip_of q
    → length q.payload ≤ cfg.payload_size
    → length q.payload < 65536
    → (eqb_ℤ (wrap v) minus_one || ltb cfg.payload_size (swap16 g.clip.length)) ≡ false
fits_test cfg g v q c l w =
    ap (λ (t : Clip). eqb_ℤ (wrap v) minus_one || ltb cfg.payload_size (swap16 t.length)) c
    ∙ ap (λ t. eqb_ℤ (wrap v) minus_one || ltb cfg.payload_size t)
        (swap16_twice (length q.payload) w)
    ∙ rw (not_absent v, le→ltb cfg.payload_size (length q.payload) l) refl

pub rebuild_restored :
    (cfg : Config) (g : Group) (v : ℕ) (q : SourcePacket) (r : Receiver)
    → g.clip ≡ clip_of q
    → q.seq_no ≡ wrap v
    → length q.payload ≤ cfg.payload_size
    → length q.payload < 65536
    → q.key_flags < 4
    → r.rebuilt ≡ []
    → (rcv_rebuild cfg g (wrap v) r).rebuilt ≡ restored r.order_required q ∷ []
unfolding rcv_rebuild
rebuild_restored cfg g v q r c s l w f e =
    ap (λ (t : Receiver). t.rebuilt) (if_false _ _ (fits_test cfg g v q c l w))
    ∙ ap (λ xs. xs ++ made (wrap v) r.order_required g.clip ∷ []) e
    ∙ ap (λ t. made (wrap v) r.order_required t ∷ []) c
    ∙ ap (λ t. t ∷ []) (made-restored r.order_required v q s w f)
