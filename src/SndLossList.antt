-- ===== src/SndLossList.antt =====
-- `CSndLossList` of Sources/CSRT/list.cpp and include/list.h: the sender's losses, as ranges of
-- sequence numbers in a singly linked list whose nodes lie in a circular array, each at the place of
-- its first number. Pointers and indices are as in `RcvLossList`; the lock is left out.
pub mod Layout
pub mod Fill
pub mod Pop
mod Tests
use swift_srt.Base.{
  ℕ, zero, suc, ◌+◌, ◌-◌, ◌%◌, Bool, true, false, not, ◌&&◌, ◌||◌, Option, none, some,
  if◌then◌else◌, ltb, ◌==◌, set, ℤ, pos, ◌+ℤ◌, ◌-ℤ◌, minus_one, eqb_ℤ, ltb_ℤ, leb_ℤ,
}
use swift_srt.SeqNo.{seqcmp, seqoff, seqlen, incseq}
use swift_srt.RcvLossList.{place, index, is_none, same}

pub record Node : Type 0 where
  pub data1 : ℤ
  pub data2 : ℤ
  pub next : Option ℕ

pub record SndLossList : Type 0 where
  pub seq : ℕ → Node
  pub head : Option ℕ
  pub length : ℤ
  pub size : ℕ
  pub last_insert_pos : Option ℕ

-- The constructor.
unfoldable pub snd_loss_list : (ℕ → Node) → ℕ → SndLossList
snd_loss_list raw size = record {
  seq = λ i. if ltb i size then record (raw i) { data1 = minus_one; data2 = minus_one } else raw i;
  head = none;
  length = pos 0;
  size = size;
  last_insert_pos = none;
}

-- `data1 = seqno1; if (seqno2 != seqno1) data2 = seqno2; next = n`
abbrev pub write_range : ℤ → ℤ → Option ℕ → Node → Node
write_range s1 s2 n x = record { data1 = s1; data2 = if eqb_ℤ s2 s1 then x.data2 else s2; next = n }

unfoldable pub insert_first : SndLossList → ℤ → ℤ → SndLossList
insert_first l s1 s2 = record l {
  head = some 0;
  seq = set l.seq 0 (write_range s1 s2 none (l.seq 0));
  last_insert_pos = some 0;
  length = l.length +ℤ seqlen s1 s2;
}

-- A branch of `insert`: the list, and the node from which to coalesce, or `none` for `return 0`.
abbrev pub Branch : Type 0
Branch = SndLossList × Option ℕ

unfoldable pub insert_before : SndLossList → ℕ → ℤ → ℤ → Branch
insert_before l loc s1 s2 = (
  record l {
    seq = set l.seq loc (write_range s1 s2 l.head (l.seq loc));
    head = some loc;
    last_insert_pos = some loc;
    length = l.length +ℤ seqlen s1 s2;
  },
  some loc,
)

-- `m_iLength += seqlen(from, seqno2) - 1; m_caSeq[i].data2 = seqno2;`
abbrev pub lengthen : SndLossList → ℕ → ℤ → ℤ → SndLossList
lengthen l i from s2 = record l {
  seq = set l.seq i (record (l.seq i) { data2 = s2 });
  length = l.length +ℤ (seqlen from s2 -ℤ pos 1);
}

-- A node that starts with `seqno1` already, behind the head:
unfoldable pub insert_at : SndLossList → ℕ → ℤ → ℤ → Branch
insert_at l0 loc s1 s2 =
    let l = record l0 { last_insert_pos = some loc } in
    if eqb_ℤ minus_one (l.seq loc).data2
    then ((if eqb_ℤ s2 s1 then l else lengthen l loc s1 s2), some loc)
    else if ltb_ℤ (pos 0) (seqcmp s2 (l.seq loc).data2)
    then (lengthen l loc (l.seq loc).data2 s2, some loc)
    else (l, none)

-- The same for the head:
unfoldable pub insert_head : SndLossList → ℕ → ℤ → ℤ → Branch
insert_head l0 loc s1 s2 =
    let l = record l0 { last_insert_pos = l0.head } in
    if eqb_ℤ s2 s1
    then (l, none)
    else if eqb_ℤ minus_one (l.seq loc).data2
    then (lengthen l loc s1 s2, some loc)
    else if ltb_ℤ (pos 0) (seqcmp s2 (l.seq loc).data2)
    then (lengthen l loc (l.seq loc).data2 s2, some loc)
    else (l, none)

-- The walk to the last node from `i` on that starts before `s`. A list has at most `m_iSize` nodes.
unfoldable pub search_next : ℕ → SndLossList → ℤ → ℕ → ℕ
search_next zero l s i = i
search_next (suc fuel) l s i =
    let n = (l.seq i).next in
    let rest = search_next fuel l s (place n) in
    if not (is_none n) && ltb_ℤ (seqcmp (l.seq (place n)).data1 s) (pos 0) then rest else i

-- The node from which that walk starts.
unfoldable pub search_start : SndLossList → ℤ → ℕ
search_start l s =
    if not (is_none l.last_insert_pos)
      && ltb_ℤ (seqcmp (l.seq (place l.last_insert_pos)).data1 s) (pos 0)
    then place l.last_insert_pos
    else place l.head

-- `i` is the node before the place `loc`.
unfoldable pub insert_behind : SndLossList → ℕ → ℕ → ℤ → ℤ → Branch
insert_behind l i loc s1 s2 =
    let a = set l.seq loc (write_range s1 s2 (l.seq i).next (l.seq loc)) in
    let l' = record l { last_insert_pos = some i } in
    if eqb_ℤ minus_one (l.seq i).data2 || ltb_ℤ (seqcmp (l.seq i).data2 s1) (pos 0)
    then (
      record l {
        last_insert_pos = some loc;
        seq = set a i (record (a i) { next = some loc });
        length = l.length +ℤ seqlen s1 s2;
      },
      some loc,
    )
    else if ltb_ℤ (seqcmp (l.seq i).data2 s2) (pos 0)
    then (lengthen l' i (l.seq i).data2 s2, some i)
    else (l', none)

-- One round of the last loop of `insert`: node `loc` takes the node `i` behind it in.
unfoldable pub absorb : SndLossList → ℕ → ℕ → SndLossList
absorb l loc i =
    let x = l.seq loc in
    let y = l.seq i in
    let l' =
      if not (eqb_ℤ minus_one y.data2)
      then (if ltb_ℤ (pos 0) (seqcmp y.data2 x.data2)
          then record l {
            length =
                if leb_ℤ (pos 0) (seqcmp x.data2 y.data1)
                then l.length -ℤ seqlen y.data1 x.data2
                else l.length;
            seq = set l.seq loc (record x { data2 = y.data2 });
          }
          else record l { length = l.length -ℤ seqlen y.data1 y.data2 })
      else (if eqb_ℤ y.data1 (incseq x.data2)
          then record l { seq = set l.seq loc (record x { data2 = y.data1 }) }
          else record l { length = l.length -ℤ pos 1 }) in
    let a = set l'.seq i (record (l'.seq i) { data1 = minus_one; data2 = minus_one }) in
    record l' { seq = set a loc (record (a loc) { next = (a i).next }) }

-- The loop, which takes one node out in every round.
unfoldable pub coalesce : ℕ → SndLossList → ℕ → SndLossList
coalesce zero l loc = l
coalesce (suc fuel) l loc =
    let i = place (l.seq loc).next in
    let rest = coalesce fuel (absorb l loc i) loc in
    if is_none (l.seq loc).next || eqb_ℤ minus_one (l.seq loc).data2
    then l
    else if ltb_ℤ (pos 0) (seqcmp (l.seq i).data1 (incseq (l.seq loc).data2))
    then l
    else rest

unfoldable pub after_branch : ℤ → Branch → ℤ × SndLossList
after_branch origlen (l, none) = (pos 0, l)
after_branch origlen (l, some loc) = let l' = coalesce l.size l loc in (l'.length -ℤ origlen, l')

unfoldable pub insert : SndLossList → ℤ → ℤ → ℤ × SndLossList
insert l s1 s2 =
    let h = place l.head in
    let offset = seqoff (l.seq h).data1 s1 in
    let loc = index (pos h +ℤ offset +ℤ pos l.size) l.size in
    let i = search_next l.size l s1 (search_start l s1) in
    let l' = insert_first l s1 s2 in
    if eqb_ℤ l.length (pos 0)
    then (l'.length, l')
    else after_branch l.length (
        if ltb_ℤ offset (pos 0)
        then insert_before l loc s1 s2
        else if ltb_ℤ (pos 0) offset
        then (if eqb_ℤ s1 (l.seq loc).data1
            then insert_at l loc s1 s2
            else insert_behind l i loc s1 s2)
        else insert_head l loc s1 s2)

-- `if (m_iLastInsertPos == i) m_iLastInsertPos = -1;`
abbrev pub forget : Option ℕ → ℕ → Option ℕ
forget p i = if same p i then none else p

-- `loc` gets the rest of the node `i` from `s` on.
abbrev pub write_rest : SndLossList → ℕ → ℕ → ℤ → (ℕ → Node)
write_rest l i loc s = set l.seq loc (record (l.seq loc) {
  data1 = s;
  data2 = if ltb_ℤ (pos 0) (seqcmp (l.seq i).data2 s) then (l.seq i).data2 else (l.seq loc).data2;
})

-- `remove` of the first number of the head
unfoldable pub remove_head : SndLossList → ℤ → SndLossList
remove_head l s =
    let h = place l.head in
    let loc = (h + 1) % l.size in
    let a = write_rest l h loc (incseq s) in
    let b = set a h (record (a h) { data2 = minus_one }) in
    let c = set b loc (record (b loc) { next = (b h).next }) in
    let single = eqb_ℤ minus_one (l.seq h).data2 in
    let d = if single then l.seq else c in
    record l {
      seq = set d h (record (d h) { data1 = minus_one });
      last_insert_pos = forget l.last_insert_pos h;
      head = if single then (l.seq h).next else some loc;
      length = l.length -ℤ pos 1;
    }

-- `remove` where the node at `temp` starts with the number
unfoldable pub cut_start : SndLossList → ℕ → ℤ → SndLossList
cut_start l temp s =
    let loc = (temp + 1) % l.size in
    let a = write_rest l temp loc (incseq s) in
    let b = set a loc (record (a loc) { next = (a temp).next }) in
    if eqb_ℤ minus_one (l.seq temp).data2 then record l { head = (l.seq temp).next } else record l {
      seq = set b temp (record (b temp) { next = some loc; data2 = minus_one });
      head = some loc;
    }

-- `remove` where no node starts with it; `i` is the last node that starts before it, and `loc` its
-- place.
unfoldable pub cut_inside : SndLossList → ℕ → ℕ → ℤ → SndLossList
cut_inside l i loc0 s =
    let loc = (loc0 + 1) % l.size in
    let a = write_rest l i loc (incseq s) in
    let b = set a i (record (a i) { data2 = s }) in
    let c = set b loc (record (b loc) { next = (b i).next }) in
    if eqb_ℤ minus_one (l.seq i).data2
    then record l { head = (l.seq i).next }
    else if ltb_ℤ (pos 0) (seqcmp (l.seq i).data2 s)
    then record l { seq = set c i (record (c i) { next = some loc }); head = some loc }
    else record l { head = (l.seq i).next }

-- The node `h` is emptied.
unfoldable pub clear_node : SndLossList → ℕ → SndLossList
clear_node l h =
    let x = l.seq h in
    let range = not (eqb_ℤ x.data2 minus_one) in
    record l {
      length = if range then l.length -ℤ seqlen x.data1 x.data2 else l.length -ℤ pos 1;
      seq = set l.seq h (record x { data1 = minus_one; data2 = minus_one });
      last_insert_pos = forget l.last_insert_pos h;
    }

-- The last loop of `remove`, from the old head; the nodes up to the new head are at most `m_iSize`.
unfoldable pub clear_until : ℕ → SndLossList → Option ℕ → SndLossList
clear_until fuel l none = l
clear_until zero l (some h) = l
clear_until (suc fuel) l (some h) =
    let rest = clear_until fuel (clear_node l h) (l.seq h).next in if same l.head h then l else rest

-- All numbers up to `seqno` are removed.
unfoldable pub remove : SndLossList → ℤ → SndLossList
remove l s =
    let h = place l.head in
    let offset = seqoff (l.seq h).data1 s in
    let loc = index (pos h +ℤ offset +ℤ pos l.size) l.size in
    let i = search_next l.size l s h in
    if eqb_ℤ l.length (pos 0)
    then l
    else if eqb_ℤ offset (pos 0)
    then remove_head l s
    else if ltb_ℤ (pos 0) offset
    then clear_until l.size
        (if eqb_ℤ s (l.seq loc).data1 then cut_start l loc s else cut_inside l i loc s) l.head
    else l

unfoldable pub get_loss_length : SndLossList → ℤ
get_loss_length l = l.length

-- `popLostSeq` where the head has one number, and where it has several
unfoldable pub pop_single : SndLossList → ℕ → SndLossList
pop_single l h = record l {
  seq = set l.seq h (record (l.seq h) { data1 = minus_one });
  head = (l.seq h).next;
  last_insert_pos = forget l.last_insert_pos h;
  length = l.length -ℤ pos 1;
}

unfoldable pub pop_range : SndLossList → ℕ → SndLossList
pop_range l h =
    let loc = (h + 1) % l.size in
    let a = write_rest l h loc (incseq (l.seq h).data1) in
    let b = set a h (record (a h) { data1 = minus_one; data2 = minus_one }) in
    record l {
      seq = set b loc (record (b loc) { next = (b h).next });
      head = some loc;
      last_insert_pos = forget l.last_insert_pos h;
      length = l.length -ℤ pos 1;
    }

unfoldable pub pop_lost_seq : SndLossList → ℤ × SndLossList
pop_lost_seq l =
    let h = place l.head in
    let s = (l.seq h).data1 in
    if eqb_ℤ l.length (pos 0)
    then (minus_one, l)
    else if eqb_ℤ minus_one (l.seq h).data2
    then (s, pop_single l h)
    else (s, pop_range l h)
