-- ===== src/AckWindow/Refine.antt =====
-- The window refines its list of awaited ACK packets.
use native.Mathlib.Nat.{mod-add-mod, mod-eq_of_lt}
use swift_srt.Base.{
  ℕ, zero, suc, ◌+◌, ◌-◌, ◌%◌, ◌<◌, ◌≤◌, ◌≡◌, ◌≢◌, refl, ap, ap₂, arith, Option, none, some, List,
  [], ◌∷◌, ◌++◌, if◌then◌else◌, ◌==◌, ℤ, eqb_ℤ, set, get-set_ne, get-set_self, ◌⊎◌, inl, inr,
  Bool-cases, ◌∙◌, sym, drop, dec_le, ℕ_discrete, minus_one, leb_of_le, leb_of_lt, ==_of_ne,
  ==_of_eq,
}
use swift_srt.Base.Round.{mod_once}
use swift_srt.AckWindow.{
  Seq, AckWindow, store, scan_straight, scan_wrapped, acknowledge, take_straight, take_wrapped,
  elapsed, answered,
}
use swift_srt.AckWindow.Contents.{entries, count, awaited, IsValid, answer}

module _ (size : ℕ) where
  -- The first loop is the second one where no index reaches the end of the array.
  scan_straight-eq :
      (a : ℕ → Seq) (s : ℤ) (k i : ℕ)
      → i + k ≤ size
      → scan_straight a s k i ≡ scan_wrapped size a s k i
  unfolding scan_straight scan_wrapped
  scan_straight-eq a s zero i h = refl
  scan_straight-eq a s (suc k) i h =
      rw (
        mod-eq_of_lt {n = i} {m = size} (omega arith),
        scan_straight-eq a s k (i + 1) (omega arith),
      )

  -- What a search over `k` entries from `i` on finds.
  abbrev Finds : (ℕ → Seq) → ℤ → ℕ → ℕ → Option ℕ → Type 0
  Finds a s k i o =
      ((o ≡ none) × (answer s (entries size a (i % size) k) ≡ none))
      ⊎ ((j : ℕ) × (m : ℕ) × (o ≡ some (j % size))
          × (j + suc m ≡ i + k)
          × (i ≤ j)
          × (answer s (entries size a (i % size) k)
              ≡ some (a (j % size), entries size a ((j + 1) % size) m)))

  scan-Finds : (a : ℕ → Seq) (s : ℤ) (k i : ℕ) → Finds a s k i (scan_wrapped size a s k i)
  unfolding scan_wrapped answer
  scan-Finds a s zero i = inl (refl, refl)
  scan-Finds a s (suc k) i = elim (Bool-cases (eqb_ℤ s (a (i % size)).ack_seq_no)) [
    | inl hit ↦ inr (i, k, rw hit, refl, omega arith, rw (hit, mod-add-mod))
    | inr miss ↦
        rw (miss, mod-add-mod)
          (elim (scan-Finds a s k (i + 1)) [
            | inl (e, f) ↦ inl (e, f)
            | inr (j, m, e, q, l, f) ↦ inr (j, m, e, omega arith, omega arith, f)
          ])
  ]

  -- What `acknowledge` has to do with the awaited packets: with no entry of that number it returns -1
  -- and changes nothing, and else it returns the time since the entry was sent and the data number
  -- that the entry carries, and leaves the entries younger than that.
  abbrev pub Acknowledged : AckWindow → ℕ → ℤ → Option (Seq × List Seq) → ℤ × ℤ × AckWindow → Type 0
  Acknowledged w now r_ack none (rtt, ack', w') = (rtt ≡ minus_one) × (ack' ≡ r_ack) × (w' ≡ w)
  Acknowledged w now r_ack (some (r, rest)) (rtt, ack', w') =
      (rtt ≡ elapsed now r.time_stamp) × (ack' ≡ r.ack) × (awaited size w' ≡ rest) × IsValid size w'

  moved :
      (w : AckWindow) (t n : ℕ)
      → count size (record w { tail = t }) ≡ n
      → awaited size (record w { tail = t }) ≡ entries size w.seq t n
  moved w t n e = ap (entries size w.seq t) e

  take_straight_lem :
      (w : AckWindow) (j m : ℕ)
      → IsValid size w
      → w.tail ≤ j
      → j + suc m ≡ w.head
      → (awaited size (take_straight size w j) ≡ entries size w.seq ((j + 1) % size) m)
        × IsValid size (take_straight size w j)
  unfolding take_straight
  take_straight_lem w j zero v l e = rw (==_of_eq (j + 1) w.head (omega arith)) (refl, omega arith)
  take_straight_lem w j (suc m) v l e = rw (==_of_ne (j + 1) w.head (omega arith)) (
    moved w ((j + 1) % size) (suc m)
        (rw (mod-eq_of_lt {n = j + 1} {m = size} (omega arith)) (ground arith)),
    omega arith,
  )

  take_wrapped_lem :
      (w : AckWindow) (j m : ℕ)
      → IsValid size w
      → w.head < w.tail
      → w.tail ≤ j
      → j + suc m ≡ w.head + size
      → (awaited size (take_wrapped size w (j % size)) ≡ entries size w.seq ((j + 1) % size) m)
        × IsValid size (take_wrapped size w (j % size))
  unfolding take_wrapped
  take_wrapped_lem w j m v lt l e =
      rw (==_of_ne (j % size) w.head (ground (arith, mod_once j size)), mod-add-mod)
        (moved w ((j + 1) % size) m (ground (arith, mod_once (j + 1) size)), omega arith)

  answered_lem :
      (w : AckWindow) (now : ℕ) (s r_ack : ℤ) (k i : ℕ) (o : Option ℕ) (take : ℕ → AckWindow)
      → i < size
      → Finds w.seq s k i o
      → ((j m : ℕ)
          → i ≤ j
          → j + suc m ≡ i + k
          → (awaited size (take (j % size)) ≡ entries size w.seq ((j + 1) % size) m)
            × IsValid size (take (j % size)))
      → Acknowledged w now r_ack (answer s (entries size w.seq i k)) (answered w now r_ack take o)
  unfolding answered
  answered_lem w now s r_ack k i o take b (inl (e, f)) h =
      rw (e, rw (mod-eq_of_lt {n = i} {m = size} b) at f) (refl, refl, refl)
  answered_lem w now s r_ack k i o take b (inr (j, m, e, q, l, f)) h =
      rw (e, rw (mod-eq_of_lt {n = i} {m = size} b) at f) (refl, refl, (h j m l q).0, (h j m l q).1)

  -- `acknowledge` looks an ACK packet up in the list of those awaited: see `Acknowledged`.
  pub acknowledge_refines :
      (w : AckWindow) (now : ℕ) (s r_ack : ℤ)
      → IsValid size w
      → Acknowledged w now r_ack (answer s (awaited size w)) (acknowledge size w now s r_ack)
  unfolding acknowledge
  acknowledge_refines w now s r_ack v = elim (dec_le w.tail w.head) [
    | yes p ↦
        rw (leb_of_le _ _ p, scan_straight-eq w.seq s (w.head - w.tail) w.tail (omega arith))
          (answered_lem w now s r_ack (w.head - w.tail) w.tail _ (take_straight size w) v.tail_in
            (scan-Finds w.seq s (w.head - w.tail) w.tail)
            λ j m l q.
              rw (mod-eq_of_lt {n = j} {m = size} (omega arith))
                (take_straight_lem w j m v l (omega arith)))
    | no p ↦ rw (leb_of_lt w.tail w.head (omega arith)) (
        answered_lem w now s r_ack (w.head + size - w.tail) w.tail _ (take_wrapped size w) v.tail_in
          (scan-Finds w.seq s (w.head + size - w.tail) w.tail)
          λ j m l q. take_wrapped_lem w j m v (omega arith) l (omega arith))
  ]

  entries-append :
      (a : ℕ → Seq) (n i : ℕ)
      → i < size
      → entries size a i (suc n) ≡ entries size a i n ++ (a ((i + n) % size) ∷ [])
  entries-append a zero i b =
      ap (λ j. a j ∷ []) (sym (ap (λ j. j % size) (omega arith) ∙ mod-eq_of_lt b))
  entries-append a (suc n) i b = ap (◌∷◌ (a i)) (
      entries-append a n ((i + 1) % size) (omega arith)
      ∙ ap (λ j. entries size a ((i + 1) % size) n ++ (a j ∷ []))
          (mod-add-mod (i + 1) size n ∙ ap (λ j. j % size) (omega arith)))

  entries-set :
      (a : ℕ → Seq) (r : Seq) (p n i : ℕ)
      → ((k : ℕ) → k < n → (i + k) % size ≢ p)
      → i < size
      → entries size (set a p r) i n ≡ entries size a i n
  entries-set a r p zero i h b = refl
  entries-set a r p (suc n) i h b =
      ap₂ ◌∷◌ (get-set_ne a p i r at_start)
        (entries-set a r p n ((i + 1) % size) later (omega arith))
    where
      at_start : p ≢ i
      at_start e = h 0 (omega arith) (ap (λ j. j % size) (omega arith) ∙ (mod-eq_of_lt b ∙ sym e))

      later : (k : ℕ) → k < n → ((i + 1) % size + k) % size ≢ p
      later k l e =
          h (suc k) (omega arith)
            (ap (λ j. j % size) (omega arith) ∙ (sym (mod-add-mod (i + 1) size k) ∙ e))

  -- Where the next entry goes, and that no awaited entry is there.
  head-eq : (w : AckWindow) → IsValid size w → (w.tail + count size w) % size ≡ w.head
  head-eq w v = ground (arith, mod_once (w.tail + count size w) size)

  head-ne :
      (w : AckWindow) → IsValid size w → (k : ℕ) → k < count size w → (w.tail + k) % size ≢ w.head
  head-ne w v k l e = ground (arith, mod_once (w.tail + k) size)

  entries-store :
      (w : AckWindow) (r : Seq)
      → IsValid size w
      → entries size (set w.seq w.head r) w.tail (suc (count size w)) ≡ awaited size w ++ (r ∷ [])
  entries-store w r v =
      entries-append (set w.seq w.head r) (count size w) w.tail v.tail_in
      ∙ (ap (λ x. entries size (set w.seq w.head r) w.tail (count size w) ++ (x ∷ []))
            (ap (set w.seq w.head r) (head-eq w v) ∙ get-set_self w.seq w.head r)
          ∙ ap (λ x. x ++ (r ∷ []))
              (entries-set w.seq r w.head (count size w) w.tail (head-ne w v) v.tail_in))

  counted :
      (a : ℕ → Seq) (h t n : ℕ)
      → count size (record { seq = a; head = h; tail = t }) ≡ n
      → awaited size (record { seq = a; head = h; tail = t }) ≡ entries size a t n
  counted a h t n e = ap (entries size a t) e

  -- `store` puts the new ACK packet behind those awaited. Where the window is full, that is at
  -- `size - 1` packets, the oldest one is no longer awaited.
  pub store_refines :
      (w : AckWindow) (now : ℕ) (s a : ℤ)
      → IsValid size w
      → 1 < size
      → let w' = store size w now s a in
        let r : Seq = record { ack_seq_no = s; ack = a; time_stamp = now } in
        IsValid size w'
        × (awaited size w' ≡ (
            if count size w == size - 1
            then drop 1 (awaited size w ++ (r ∷ []))
            else awaited size w ++ (r ∷ [])))
  unfolding store
  store_refines w now s a v h = elim (ℕ_discrete (count size w) (size - 1)) [
    | yes full ↦
        rw
          (
            ==_of_eq (count size w) (size - 1) full,
            ==_of_eq ((w.head + 1) % size) w.tail (ground (arith, mod_once (w.head + 1) size)),
          )
          (
            omega arith,
            counted (set w.seq w.head r) ((w.head + 1) % size) ((w.tail + 1) % size) (count size w)
                  (ground (arith, mod_once (w.head + 1) size, mod_once (w.tail + 1) size))
                ∙ ap (drop 1) (entries-store w r v),
          )
    | no room ↦
        rw
          (
            ==_of_ne (count size w) (size - 1) room,
            ==_of_ne ((w.head + 1) % size) w.tail (ground (arith, mod_once (w.head + 1) size)),
          )
          (
            omega arith,
            counted (set w.seq w.head r) ((w.head + 1) % size) w.tail (suc (count size w))
                  (ground (arith, mod_once (w.head + 1) size))
                ∙ entries-store w r v,
          )
  ]
    where
      r : Seq
      r = record { ack_seq_no = s; ack = a; time_stamp = now }
