-- ===== src/SndLossList/Fill.antt =====
-- A new list, and `insert` into an empty one.
use swift_srt.Base.{
  ℕ, ◌+◌, ◌-◌, ◌%◌, ◌<◌, ◌≤◌, ◌≡◌, ◌≢◌, refl, sym, ap, ◌∙◌, arith, [], ◌∷◌, if◌then◌else◌, ◌==◌,
  lt→ltb, Option, none, some, ℤ, pos, minus_one, set, get-set_ne, get-set_self, ◌+ℤ◌,
}
use swift_srt.SeqNo.{wrap, seq_no_th, seqlen}
use swift_srt.SeqNo.Unwrapped.{seqlen-wrap}
use swift_srt.SeqNo.Compare.{Near, wrap-eq}
use swift_srt.SndLossList.{Node, SndLossList, snd_loss_list, insert, insert_first, write_range}
use swift_srt.RcvLossList.Layout.{at}
use swift_srt.RcvLossList.Places.{first_place}
use swift_srt.SndLossList.Layout.{node, Holds}

-- A new list of one node or more is empty.
pub snd_loss_list-Holds :
    (raw : ℕ → Node) (size c b : ℕ) → 0 < size → Holds (snd_loss_list raw size) c b []
unfolding snd_loss_list
snd_loss_list-Holds raw size c b h = record {
  size_pos = h;
  ascends = tt;
  span = tt;
  near = tt;
  chain = tt;
  free = λ q hq av. rw (lt→ltb q size hq) (refl, refl);
  head_eq = refl;
  length_eq = refl;
  hint = λ q e av. cc (e);
}

-- A range written to a node that is free.
pub write_fresh :
    (c m s t : ℕ) (x : Node) (n : Option ℕ)
    → Near t s
    → x.data2 ≡ minus_one
    → write_range (wrap s) (wrap t) n x ≡ node c m s t n
write_fresh c m s t x n k e =
    rw (wrap-eq t s k, e)
      (ap (λ d. record { data1 = wrap s; data2 = d; next = n }) (swap_test (wrap t)))
  where
    swap_test : (d : ℤ) → (if t == s then minus_one else d) ≡ (if s == t then minus_one else d)
    swap_test d = ground arith

module _ (l : SndLossList) (c b s t : ℕ) (h : Holds l c b []) (order : s ≤ t)
    (fits : t < s + l.size) (close : t < s + seq_no_th) where
  abbrev offset : ℕ
  offset = l.size - s % l.size

  abbrev value : Node
  value = write_range (wrap s) (wrap t) none (l.seq 0)

  at_zero : at offset l.size s ≡ 0
  at_zero = first_place l.size s h.size_pos

  fresh_chain : set l.seq 0 value (at offset l.size s) ≡ node offset l.size s t none
  fresh_chain =
      ap (set l.seq 0 value) at_zero
      ∙ get-set_self l.seq 0 value
      ∙ write_fresh offset l.size s t (l.seq 0) none (omega arith, omega arith)
          (h.free 0 h.size_pos tt).1

  fresh_free :
      (q : ℕ)
      → q < l.size
      → at offset l.size s ≢ q
      → ((set l.seq 0 value q).data1 ≡ minus_one) × ((set l.seq 0 value q).data2 ≡ minus_one)
  fresh_free q hq ne = rw (get-set_ne l.seq 0 q value (λ e. ne (at_zero ∙ e))) (h.free q hq tt)

  fresh_length : l.length +ℤ seqlen (wrap s) (wrap t) ≡ pos (t - s + 1)
  fresh_length = rw (h.length_eq, seqlen-wrap s t order (omega arith)) (ground arith)

  first-Holds : Holds (insert_first l (wrap s) (wrap t)) offset s ((s, t) ∷ [])
  unfolding insert_first
  first-Holds = record {
    size_pos = h.size_pos;
    ascends = (omega arith, order, tt);
    span = (fits, tt);
    near = (close, tt);
    chain = (fresh_chain, tt);
    free = λ q hq av. fresh_free q hq av.0;
    head_eq = ap some (sym at_zero);
    length_eq = fresh_length ∙ ap pos (omega arith);
    hint = λ q e av. av.0 (at_zero ∙ cc (e));
  }

  first_length : (insert_first l (wrap s) (wrap t)).length ≡ pos (t - s + 1)
  unfolding insert_first
  first_length = fresh_length

  insert-eq :
      insert l (wrap s) (wrap t)
      ≡ ((insert_first l (wrap s) (wrap t)).length, insert_first l (wrap s) (wrap t))
  unfolding insert
  insert-eq = rw h.length_eq refl

  -- `insert` of losses `s` to `t` into an empty list, which are fewer than the size of its array and half
  -- the sequence space: they are its one range, and their number is returned.
  pub insert_empty :
      ((insert l (wrap s) (wrap t)).0 ≡ pos (t - s + 1))
      × Holds (insert l (wrap s) (wrap t)).1 offset s ((s, t) ∷ [])
  insert_empty = rw insert-eq (first_length, first-Holds)
