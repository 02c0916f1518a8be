-- ===== src/Fec/Clips.antt =====
-- The clips of groups of packets: merging them is commutative and associative, and every clip is its
-- own inverse, so that what is clipped does not depend on the order.
use Prim.Native.Nat.{bit_xor}
use swift_srt.Base.{
  ℕ, zero, suc, ◌≤◌, ◌≡◌, refl, sym, ap, ◌∙◌, Bool, true, false, List, [], ◌∷◌, if◌then◌else◌, ltb,
  length, arith,
}
use swift_srt.Base.Xor.{bit_xor_zero, bit_xor_self, bit_xor_comm, bit_xor_assoc}
use swift_srt.Fec.{SourcePacket, Clip, Config, no_clip, byte, swap16, clip_data}

abbrev pub merge : Clip → Clip → Clip
merge a b = record {
  length = bit_xor a.length b.length;
  flag = bit_xor a.flag b.flag;
  timestamp = bit_xor a.timestamp b.timestamp;
  payload = λ i. bit_xor (a.payload i) (b.payload i);
}

clip_eq :
    (a b : Clip)
    → a.length ≡ b.length
    → a.flag ≡ b.flag
    → a.timestamp ≡ b.timestamp
    → ((i : ℕ) → a.payload i ≡ b.payload i)
    → a ≡ b
clip_eq a b p q r s =
    λ t. record { length = p t; flag = q t; timestamp = r t; payload = λ i. s i t }

pub merge_comm : (a b : Clip) → merge a b ≡ merge b a
merge_comm a b =
    clip_eq (merge a b) (merge b a) (bit_xor_comm _ _) (bit_xor_comm _ _) (bit_xor_comm _ _)
      (λ i. bit_xor_comm _ _)

pub merge_assoc : (a b c : Clip) → merge (merge a b) c ≡ merge a (merge b c)
merge_assoc a b c =
    clip_eq (merge (merge a b) c) (merge a (merge b c)) (bit_xor_assoc _ _ _) (bit_xor_assoc _ _ _)
      (bit_xor_assoc _ _ _) (λ i. bit_xor_assoc _ _ _)

pub merge_self : (a : Clip) → merge a a ≡ no_clip
merge_self a =
    clip_eq (merge a a) no_clip (bit_xor_self _) (bit_xor_self _) (bit_xor_self _)
      (λ i. bit_xor_self _)

pub no_clip-merge : (a : Clip) → merge no_clip a ≡ a
no_clip-merge a =
    clip_eq (merge no_clip a) a (bit_xor_zero _) (bit_xor_zero _) (bit_xor_zero _)
      (λ i. bit_xor_zero _)

pub merge-no_clip : (a : Clip) → merge a no_clip ≡ a
merge-no_clip a = merge_comm a no_clip ∙ no_clip-merge a

pub merge_right : (a b c : Clip) → merge (merge a b) c ≡ merge (merge a c) b
merge_right a b c = merge_assoc a b c ∙ ap (merge a) (merge_comm b c) ∙ sym (merge_assoc a c b)

pub merge_back : (a b : Clip) → merge a (merge a b) ≡ b
merge_back a b = sym (merge_assoc a a b) ∙ ap (λ c. merge c b) (merge_self a) ∙ no_clip-merge b

-- The clip of one packet.
abbrev pub clip_of : SourcePacket → Clip
clip_of p = record {
  length = swap16 (length p.payload);
  flag = p.key_flags;
  timestamp = p.timestamp;
  payload = byte p.payload;
}

pub byte_behind : (xs : List ℕ) (i : ℕ) → length xs ≤ i → byte xs i ≡ 0
byte_behind [] i h = refl
byte_behind (x ∷ xs) zero h = absurd (omega arith)
byte_behind (x ∷ xs) (suc i) h = byte_behind xs i (omega arith)

-- A clip whose bytes end at `n`.
abbrev pub Within : ℕ → Clip → Type 0
Within n c = (i : ℕ) → n ≤ i → c.payload i ≡ 0

pub bit_xor_zero_right : (a : ℕ) → bit_xor a 0 ≡ a
bit_xor_zero_right a = bit_xor_comm a 0 ∙ bit_xor_zero a

-- One byte of `ClipData`.
byte_step :
    (a b : ℕ) (inside behind : Bool)
    → (inside ≡ false → b ≡ 0)
    → (if inside then bit_xor a b else if behind then bit_xor a 0 else a) ≡ bit_xor a b
byte_step a b true behind h = refl
byte_step a b false true h = rw (h refl) refl
byte_step a b false false h = rw (h refl) (sym (bit_xor_zero_right a))

pub clip_data-merge :
    (cfg : Config) (g c : Clip) (size : ℕ)
    → Within size c
    → clip_data cfg g c.length c.flag c.timestamp c.payload size ≡ merge g c
unfolding clip_data
clip_data-merge cfg g c size h =
    clip_eq (clip_data cfg g c.length c.flag c.timestamp c.payload size) (merge g c) refl refl refl
      (λ i.
        byte_step (g.payload i) (c.payload i) (ltb i size) (ltb i cfg.payload_size)
          (λ e. h i (ground arith)))
