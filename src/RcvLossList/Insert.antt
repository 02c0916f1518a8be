-- ===== src/RcvLossList/Insert.antt =====
-- `insert` of losses that are newer than all in the list.
use native.Mathlib.Nat.{mod-lt}
use swift_srt.Base.{
  ℕ, ◌+◌, ◌-◌, ◌%◌, ◌<◌, ◌≤◌, ◌≡◌, ◌≢◌, ◌⊎◌, ◌↔◌, inl, inr, refl, sym, ap, ◌∙◌, arith, false, not,
  ◌&&◌, List, [], ◌∷◌, ◌++◌, if◌then◌else◌, ltb, ◌==◌, subst, Option, none, some, ℤ, pos, minus_one,
  set, get-set_ne, get-set_self, ◌+ℤ◌, eqb_ℤ, Bool-cases, lt→ltb, ==_of_ne,
}
use swift_srt.SeqNo.{wrap, seq_no_th, seqoff, seqlen, incseq}
use swift_srt.SeqNo.Unwrapped.{seqlen-wrap}
use swift_srt.RcvLossList.{
  Node, RcvLossList, rcv_loss_list, insert, insert_first, extend_tail, append_node, place, index,
  write_range,
}
use swift_srt.RcvLossList.Ranges.{Range, Ascends, Below, Lost, total, push, Below-mono}
use swift_srt.RcvLossList.Layout.{at, node, last, Seg, Avoids, Holds, Seg-set, Avoids-at}
use swift_srt.RcvLossList.Places.{
  write_fresh, first_place, place_of, first_node, prolongs_last, total_pos,
}
use swift_srt.RcvLossList.Append.{
  snoc_of_ne, Ascends-append, Below-append, total-append, push-snoc, Avoids-append, first-append,
  last-append, Seg-append,
}

module _ (l : RcvLossList) (c b : ℕ) (ys : List Range) (u v s t : ℕ)
    (h : Holds l c b (ys ++ ((u, v) ∷ []))) (fresh : v < s) (order : s ≤ t) (fits : t < b + l.size)
    (close : t < b + seq_no_th) where
  abbrev xs : List Range
  xs = ys ++ ((u, v) ∷ [])

  xs-ne-nil : xs ≢ []
  xs-ne-nil e = snoc_ne ys e
    where
      snoc_ne : (zs : List Range) → zs ++ ((u, v) ∷ []) ≢ []
      snoc_ne [] e = cc
      snoc_ne (z ∷ zs) e = cc

  parts : Ascends b ys × Below u ys × (b ≤ u) × (u ≤ v) × Unit {0}
  parts = (Ascends-append b u v ys []).0 h.ascends

  tail_place : l.tail ≡ some (at c l.size u)
  tail_place = h.tail_eq xs-ne-nil ∙ last-append c l.size none ys ((u, v) ∷ [])

  tail_node : l.seq (at c l.size u) ≡ node c l.size u v (last c l.size none ys) none
  tail_node = ((Seg-append c l.size l.seq none ys ((u, v) ∷ []) none).0 h.chain).1.0

  init_chain : Seg c l.size l.seq none ys (some (at c l.size u))
  init_chain = ((Seg-append c l.size l.seq none ys ((u, v) ∷ []) none).0 h.chain).0

  below_s : Below s xs
  below_s =
      (Below-append s ys ((u, v) ∷ [])).1
        (Below-mono u s ys (omega (arith, parts.3)) parts.1, (fresh, tt))

  not_empty : eqb_ℤ l.length (pos 0) ≡ false
  not_empty = ground (arith, h.length_eq, total_pos b xs xs-ne-nil)

  new_place :
      index (pos (place l.head) +ℤ seqoff (l.seq (place l.head)).data1 (wrap s)) l.size
      ≡ at c l.size s
  new_place =
      let (f, e, lo, hi, d) =
        first_node c l.size b s l.seq xs xs-ne-nil h.ascends below_s h.chain in
      let p : place l.head ≡ at c l.size f = ap place (h.head_eq ∙ e) in
      rw (p, d) (place_of c l.size f s (omega arith) (omega arith))

  prolongs :
      (not (eqb_ℤ minus_one (l.seq (place l.tail)).data2)
        && eqb_ℤ (incseq (l.seq (place l.tail)).data2) (wrap s))
      ≡ (ltb u v && v + 1 == s)
  prolongs =
      let p : place l.tail ≡ at c l.size u = ap place tail_place in
      let d : (l.seq (at c l.size u)).data2 ≡ (if u == v then minus_one else wrap v) =
        ap (λ (n : Node). n.data2) tail_node in
      rw (p, d) (prolongs_last u v s parts.3 (omega (arith, parts.2, parts.3)))

  pub insert-eq : insert l (wrap s) (wrap t) ≡ (
      if ltb u v && v + 1 == s
      then extend_tail l (wrap s) (wrap t)
      else append_node l (wrap s) (wrap t) (at c l.size s))
  unfolding insert
  insert-eq = rw (not_empty, prolongs, new_place)

  u_lt : u < t
  u_lt = omega (arith, parts.3)

  avoid_u : Avoids c l.size (at c l.size u) ys
  avoid_u = Avoids-at c l.size b u ys parts.0 parts.1 (omega (arith, parts.3))

  -- The old tail, with other values in two of its fields.
  tail_with :
      (d : ℤ) (n : Option ℕ)
      → record (l.seq (at c l.size u)) { data2 = d; next = n }
        ≡ record { data1 = wrap u; data2 = d; next = n; prior = last c l.size none ys }
  tail_with d n = ap (λ (x : Node). record x { data2 = d; next = n }) tail_node

  tail_next : (l.seq (at c l.size u)).next ≡ none
  tail_next = ap (λ (x : Node). x.next) tail_node

  extended_seq :
      (extend_tail l (wrap s) (wrap t)).seq
      ≡ set l.seq (at c l.size u) (node c l.size u t (last c l.size none ys) none)
  unfolding extend_tail
  extended_seq = rw (ap place tail_place) (
      ap (set l.seq (at c l.size u))
        (ap (λ (x : Node). record x { data2 = wrap t }) tail_node ∙ whole))
    where
      whole :
          record (node c l.size u v (last c l.size none ys) none) { data2 = wrap t }
          ≡ node c l.size u t (last c l.size none ys) none
      whole = rw (==_of_ne u t (λ q. omega (arith, u_lt, q))) refl

  extended_chain :
      (x : Node)
      → x ≡ node c l.size u t (last c l.size none ys) none
      → Seg c l.size (set l.seq (at c l.size u) x) none (ys ++ ((u, t) ∷ [])) none
  extended_chain x e =
      (Seg-append c l.size (set l.seq (at c l.size u) x) none ys ((u, t) ∷ []) none).1 (
        Seg-set c l.size l.seq (at c l.size u) x none ys (some (at c l.size u)) avoid_u init_chain,
        (get-set_self l.seq (at c l.size u) x ∙ e, tt),
      )

  extended_free :
      (x : Node) (q : ℕ)
      → q < l.size
      → Avoids c l.size q (ys ++ ((u, t) ∷ []))
      → ((set l.seq (at c l.size u) x q).data1 ≡ minus_one)
        × ((set l.seq (at c l.size u) x q).data2 ≡ minus_one)
  extended_free x q hq av =
      let p = (Avoids-append c l.size q ys ((u, t) ∷ [])).0 av in
      rw (get-set_ne l.seq (at c l.size u) q x p.1.0)
        (h.free q hq ((Avoids-append c l.size q ys ((u, v) ∷ [])).1 p))

  extended_length :
      v + 1 ≡ s → l.length +ℤ seqlen (wrap s) (wrap t) ≡ pos (total (ys ++ ((u, t) ∷ [])))
  extended_length e =
      rw
        (
          seqlen-wrap s t order (omega (arith, parts.2, parts.3)),
          h.length_eq,
          total-append ys ((u, v) ∷ []),
          total-append ys ((u, t) ∷ []),
        )
        (ground (arith, parts.3))

  pub extended : v + 1 ≡ s → Holds (extend_tail l (wrap s) (wrap t)) c b (ys ++ ((u, t) ∷ []))
  unfolding extend_tail
  extended e = record {
    size_pos = h.size_pos;
    ascends = (Ascends-append b u t ys []).1 (parts.0, parts.1, parts.2, omega (arith, u_lt), tt);
    span =
        (Below-append (b + l.size) ys ((u, t) ∷ [])).1
          (((Below-append (b + l.size) ys ((u, v) ∷ [])).0 h.span).0, (fits, tt));
    near =
        (Below-append (b + seq_no_th) ys ((u, t) ∷ [])).1
          (((Below-append (b + seq_no_th) ys ((u, v) ∷ [])).0 h.near).0, (close, tt));
    chain =
        subst (λ a. Seg c l.size a none (ys ++ ((u, t) ∷ [])) none) (sym extended_seq)
          (extended_chain (node c l.size u t (last c l.size none ys) none) refl);
    free =
        subst
          (λ a.
            (q : ℕ)
            → q < l.size
            → Avoids c l.size q (ys ++ ((u, t) ∷ []))
            → ((a q).data1 ≡ minus_one) × ((a q).data2 ≡ minus_one))
          (sym extended_seq) (extended_free (node c l.size u t (last c l.size none ys) none));
    head_eq =
        h.head_eq
        ∙ first-append c l.size ys ((u, v) ∷ []) none
        ∙ sym (first-append c l.size ys ((u, t) ∷ []) none);
    tail_eq = λ q. tail_place ∙ sym (last-append c l.size none ys ((u, t) ∷ []));
    length_eq = extended_length e;
  }

  avoid_s : Avoids c l.size (at c l.size s) xs
  avoid_s = Avoids-at c l.size b s xs h.ascends below_s (omega arith)

  avoid_s_parts : Avoids c l.size (at c l.size s) ys × Avoids c l.size (at c l.size s) ((u, v) ∷ [])
  avoid_s_parts = (Avoids-append c l.size (at c l.size s) ys ((u, v) ∷ [])).0 avoid_s

  places_differ : at c l.size s ≢ at c l.size u
  places_differ e = avoid_s_parts.1.0 (sym e)

  -- The arrays as `append_node` stores its three values.
  abbrev with_new : Node → ℕ → Node
  with_new x = set l.seq (at c l.size s) x

  abbrev with_tail : Node → Node → ℕ → Node
  with_tail x y = set (with_new x) (at c l.size u) y

  abbrev grown : Node → Node → Node → ℕ → Node
  grown x y z = set (with_tail x y) (at c l.size s) z

  blank : ((l.seq (at c l.size s)).data1 ≡ minus_one) × ((l.seq (at c l.size s)).data2 ≡ minus_one)
  blank = h.free (at c l.size s) (mod-lt (c + s) h.size_pos) avoid_s

  written :
      record (write_range (wrap s) (wrap t) (l.seq (at c l.size s))) {
        prior = some (at c l.size u);
        next = none;
      }
      ≡ node c l.size s t (some (at c l.size u)) none
  written =
      write_fresh c l.size s t (l.seq (at c l.size s)) (some (at c l.size u)) none
        (omega (arith, parts.2, parts.3), omega arith) blank.1

  relinked :
      (x : Node)
      → record (set l.seq (at c l.size s) x (at c l.size u)) { next = some (at c l.size s) }
        ≡ node c l.size u v (last c l.size none ys) (some (at c l.size s))
  relinked x =
      ap (λ (y : Node). record y { next = some (at c l.size s) })
        (get-set_ne l.seq (at c l.size s) (at c l.size u) x places_differ ∙ tail_node)

  grown_chain :
      (x y z : Node)
      → y ≡ node c l.size u v (last c l.size none ys) (some (at c l.size s))
      → z ≡ node c l.size s t (some (at c l.size u)) none
      → Seg c l.size (grown x y z) none (ys ++ ((u, v) ∷ (s, t) ∷ [])) none
  grown_chain x y z ey ez =
      (Seg-append c l.size (grown x y z) none ys ((u, v) ∷ (s, t) ∷ []) none).1 (
        Seg-set c l.size (with_tail x y) (at c l.size s) z none ys (some (at c l.size u))
            avoid_s_parts.0
            (Seg-set c l.size (with_new x) (at c l.size u) y none ys (some (at c l.size u)) avoid_u
              (Seg-set c l.size l.seq (at c l.size s) x none ys (some (at c l.size u))
                avoid_s_parts.0 init_chain)),
        (
          get-set_ne (with_tail x y) (at c l.size s) (at c l.size u) z places_differ
              ∙ get-set_self (with_new x) (at c l.size u) y
              ∙ ey,
          (get-set_self (with_tail x y) (at c l.size s) z ∙ ez, tt),
        ),
      )

  grown_free :
      (x y z : Node) (q : ℕ)
      → q < l.size
      → Avoids c l.size q (ys ++ ((u, v) ∷ (s, t) ∷ []))
      → ((grown x y z q).data1 ≡ minus_one) × ((grown x y z q).data2 ≡ minus_one)
  grown_free x y z q hq av =
      let p = (Avoids-append c l.size q ys ((u, v) ∷ (s, t) ∷ [])).0 av in
      let e : grown x y z q ≡ l.seq q =
        get-set_ne (with_tail x y) (at c l.size s) q z (λ e. p.1.1.0 e)
        ∙ get-set_ne (with_new x) (at c l.size u) q y p.1.0
        ∙ get-set_ne l.seq (at c l.size s) q x (λ e. p.1.1.0 e) in
      rw e (h.free q hq ((Avoids-append c l.size q ys ((u, v) ∷ [])).1 (p.0, (p.1.0, tt))))

  abbrev new_value : Node
  new_value = write_range (wrap s) (wrap t) (l.seq (at c l.size s))

  abbrev tail_value : Node
  tail_value = record (with_new new_value (at c l.size u)) { next = some (at c l.size s) }

  abbrev linked_value : Node
  linked_value = record (with_tail new_value tail_value (at c l.size s)) {
    prior = some (at c l.size u);
    next = none;
  }

  appended_seq :
      (append_node l (wrap s) (wrap t) (at c l.size s)).seq
      ≡ grown new_value tail_value linked_value
  unfolding append_node
  appended_seq = rw tail_place refl

  linked_value-eq : linked_value ≡ node c l.size s t (some (at c l.size u)) none
  linked_value-eq =
      ap (λ (x : Node). record x { prior = some (at c l.size u); next = none })
        (get-set_ne (with_new new_value) (at c l.size u) (at c l.size s) tail_value
            (λ e. places_differ (sym e))
          ∙ get-set_self l.seq (at c l.size s) new_value)
      ∙ written

  appended_length :
      l.length +ℤ seqlen (wrap s) (wrap t) ≡ pos (total (ys ++ ((u, v) ∷ (s, t) ∷ [])))
  appended_length =
      rw
        (
          seqlen-wrap s t order (omega (arith, parts.2, parts.3)),
          h.length_eq,
          total-append ys ((u, v) ∷ []),
          total-append ys ((u, v) ∷ (s, t) ∷ []),
        )
        (ground (arith, parts.3))

  pub appended :
      Holds (append_node l (wrap s) (wrap t) (at c l.size s)) c b (ys ++ ((u, v) ∷ (s, t) ∷ []))
  unfolding append_node
  appended = record {
    size_pos = h.size_pos;
    ascends =
        (Ascends-append b u v ys ((s, t) ∷ [])).1
          (parts.0, parts.1, parts.2, parts.3, (omega arith, order, tt));
    span =
        (Below-append (b + l.size) ys ((u, v) ∷ (s, t) ∷ [])).1
          (((Below-append (b + l.size) ys ((u, v) ∷ [])).0 h.span).0, (omega arith, (fits, tt)));
    near =
        (Below-append (b + seq_no_th) ys ((u, v) ∷ (s, t) ∷ [])).1 (
          ((Below-append (b + seq_no_th) ys ((u, v) ∷ [])).0 h.near).0,
          (omega arith, (close, tt)),
        );
    chain =
        subst (λ a. Seg c l.size a none (ys ++ ((u, v) ∷ (s, t) ∷ [])) none) (sym appended_seq)
          (grown_chain new_value tail_value linked_value (relinked new_value) linked_value-eq);
    free =
        subst
          (λ a.
            (q : ℕ)
            → q < l.size
            → Avoids c l.size q (ys ++ ((u, v) ∷ (s, t) ∷ []))
            → ((a q).data1 ≡ minus_one) × ((a q).data2 ≡ minus_one))
          (sym appended_seq) (grown_free new_value tail_value linked_value);
    head_eq =
        h.head_eq
        ∙ first-append c l.size ys ((u, v) ∷ []) none
        ∙ sym (first-append c l.size ys ((u, v) ∷ (s, t) ∷ []) none);
    tail_eq = λ q. sym (last-append c l.size none ys ((u, v) ∷ (s, t) ∷ []));
    length_eq = appended_length;
  }

  pub insert_last :
      Holds
        (insert l (wrap s) (wrap t))
        c
        b
        (ys ++ (if ltb u v && v + 1 == s then (u, t) ∷ [] else (u, v) ∷ (s, t) ∷ []))
  insert_last = rw insert-eq (elim (Bool-cases (ltb u v && v + 1 == s)) [
    | inl e ↦ rw e (extended (ground (arith, e)))
    | inr e ↦ rw e appended
  ])

insert-Holds :
    (l : RcvLossList) (c b : ℕ) (xs : List Range) (s t : ℕ)
    → xs ≢ []
    → Holds l c b xs
    → Below s xs
    → s ≤ t
    → t < b + l.size
    → t < b + seq_no_th
    → Holds (insert l (wrap s) (wrap t)) c b (push xs s t)
insert-Holds l c b xs s t ne h new order fits close =
    let (ys, u, v, e) = snoc_of_ne xs ne in
    let h1 = subst (Holds l c b) e h in
    let below : Below s (ys ++ ((u, v) ∷ [])) = subst (Below s) e new in
    subst (Holds (insert l (wrap s) (wrap t)) c b)
      (sym (push-snoc ys u v s t) ∙ ap (λ z. push z s t) (sym e))
      (insert_last l c b ys u v s t h1 ((Below-append s ys ((u, v) ∷ [])).0 below).1.0 order fits
        close)

Lost-push :
    (xs : List Range) (b s t q : ℕ)
    → Ascends b xs
    → s ≤ t
    → Lost (push xs s t) q ↔ (Lost xs q ⊎ ((s ≤ q) × (q ≤ t)))
unfolding push
Lost-push [] b s t q o k = (
  λ h. elim h [ inl y ↦ inr y | inr y ↦ absurd y ],
  λ h. elim h [ inl y ↦ absurd y | inr y ↦ inl y ],
)
Lost-push ((u, v) ∷ []) b s t q o k = elim (Bool-cases (ltb u v && v + 1 == s)) [
  | inl e ↦ rw e (ground (arith, e, o.1))
  | inr e ↦ rw e (ground (arith, o.1))
]
Lost-push ((u, v) ∷ y ∷ xs) b s t q o k =
    let r = Lost-push (y ∷ xs) (v + 1) s t q o.2 k in
    (
      λ h. elim h [
        | inl z ↦ inl (inl z)
        | inr z ↦ elim (r.0 z) [ inl x ↦ inl (inr x) | inr x ↦ inr x ]
      ],
      λ h. elim h [
        | inl z ↦ elim z [ inl x ↦ inl x | inr x ↦ inr (r.1 (inl x)) ]
        | inr z ↦ inr (r.1 (inr z))
      ],
    )

-- `insert` of losses `s` to `t` that are newer than all in a list that is not empty, and within the
-- size of its array and half the sequence space from `b`: the result is a list again, its ranges are
-- the ones before with the last prolonged or one more, and exactly those packets are lost besides.
pub insert_adds :
    (l : RcvLossList) (c b : ℕ) (xs : List Range) (s t : ℕ)
    → xs ≢ []
    → Holds l c b xs
    → Below s xs
    → s ≤ t
    → t < b + l.size
    → t < b + seq_no_th
    → Holds (insert l (wrap s) (wrap t)) c b (push xs s t)
      × ((q : ℕ) → Lost (push xs s t) q ↔ (Lost xs q ⊎ ((s ≤ q) × (q ≤ t))))
insert_adds l c b xs s t ne h new order fits close =
    (insert-Holds l c b xs s t ne h new order fits close, λ q. Lost-push xs b s t q h.ascends order)

insert_empty-eq :
    (l : RcvLossList) (s1 s2 : ℤ) → l.length ≡ pos 0 → insert l s1 s2 ≡ insert_first l s1 s2
unfolding insert
insert_empty-eq l s1 s2 e = rw e refl

-- `insert` into an empty list.
module _ (l : RcvLossList) (c b s t : ℕ) (h : Holds l c b []) (order : s ≤ t)
    (fits : t < s + l.size) (close : t < s + seq_no_th) where
  abbrev offset : ℕ
  offset = l.size - s % l.size

  abbrev value : Node
  value = record (write_range (wrap s) (wrap t) (l.seq 0)) { next = none; prior = none }

  at_zero : at offset l.size s ≡ 0
  at_zero = first_place l.size s h.size_pos

  fresh_node : value ≡ node offset l.size s t none none
  fresh_node =
      write_fresh offset l.size s t (l.seq 0) none none (omega arith, omega arith)
        (h.free 0 h.size_pos tt).1

  fresh_chain : set l.seq 0 value (at offset l.size s) ≡ node offset l.size s t none none
  fresh_chain = ap (set l.seq 0 value) at_zero ∙ get-set_self l.seq 0 value ∙ fresh_node

  fresh_free :
      (q : ℕ)
      → q < l.size
      → at offset l.size s ≢ q
      → ((set l.seq 0 value q).data1 ≡ minus_one) × ((set l.seq 0 value q).data2 ≡ minus_one)
  fresh_free q hq ne = rw (get-set_ne l.seq 0 q value (λ e. ne (at_zero ∙ e))) (h.free q hq tt)

  fresh_length : l.length +ℤ seqlen (wrap s) (wrap t) ≡ pos (total ((s, t) ∷ []))
  fresh_length = rw (h.length_eq, seqlen-wrap s t order (omega arith)) (ground arith)

  insert_first-eq : Holds (insert_first l (wrap s) (wrap t)) offset s ((s, t) ∷ [])
  unfolding insert_first
  insert_first-eq = record {
    size_pos = h.size_pos;
    ascends = (omega arith, order, tt);
    span = (fits, tt);
    near = (close, tt);
    chain = (fresh_chain, tt);
    free = λ q hq av. fresh_free q hq av.0;
    head_eq = ap some (sym at_zero);
    tail_eq = λ e. ap some (sym at_zero);
    length_eq = fresh_length;
  }

  -- `insert` of losses `s` to `t` into an empty list, which are fewer than the size of its array and half
  -- the sequence space: they are its one range, at place 0.
  pub insert_first-Holds : Holds (insert l (wrap s) (wrap t)) offset s ((s, t) ∷ [])
  insert_first-Holds = rw (insert_empty-eq l (wrap s) (wrap t) h.length_eq) insert_first-eq

-- A new list of one node or more is empty.
pub rcv_loss_list-Holds :
    (raw : ℕ → Node) (size c b : ℕ) → 0 < size → Holds (rcv_loss_list raw size) c b []
unfolding rcv_loss_list
rcv_loss_list-Holds raw size c b h = record {
  size_pos = h;
  ascends = tt;
  span = tt;
  near = tt;
  chain = tt;
  free = λ q hq av. rw (lt→ltb q size hq) (refl, refl);
  head_eq = refl;
  tail_eq = λ e. absurd (e refl);
  length_eq = refl;
}
