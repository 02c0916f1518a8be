-- ===== src/RcvLossList.antt =====
-- `CRcvLossList` of Sources/CSRT/list.cpp and include/list.h: the receiver's losses, as ranges of
-- sequence numbers in a doubly linked list whose nodes lie in a circular array, each at the place of
-- its first number. A pointer is an index, with `none` for -1; `data1` and `data2` keep their -1.
-- An access through a pointer that is -1, which no valid list makes, goes to place 0 here.
pub mod Ranges
pub mod Layout
pub mod Append
pub mod Places
pub mod Insert
pub mod Find
pub mod Tests
use swift_srt.Base.{
  ℕ, zero, suc, ◌+◌, ◌-◌, ◌%◌, ◌^◌, Bool, true, false, not, ◌&&◌, ◌||◌, Option, none, some, List,
  [], ◌∷◌, if◌then◌else◌, ltb, leb, ◌==◌, set, ℤ, pos, negsuc, ◌+ℤ◌, ◌-ℤ◌, minus_one, eqb_ℤ, ltb_ℤ,
  leb_ℤ, pos_part,
}
use swift_srt.SeqNo.{seqcmp, seqoff, seqlen, incseq, decseq, max_seq_no}

pub record Node : Type 0 where
  pub data1 : ℤ
  pub data2 : ℤ
  pub next : Option ℕ
  pub prior : Option ℕ

pub record RcvLossList : Type 0 where
  pub seq : ℕ → Node
  pub head : Option ℕ
  pub tail : Option ℕ
  pub length : ℤ
  pub size : ℕ

abbrev pub place : Option ℕ → ℕ
place none = 0
place (some i) = i

-- `i % m_iSize` for an `int` that is not negative.
abbrev pub index : ℤ → ℕ → ℕ
index (pos n) m = n % m
index (negsuc n) m = 0

abbrev pub is_none : Option ℕ → Bool
is_none none = true
is_none (some i) = false

abbrev pub same : Option ℕ → ℕ → Bool
same none i = false
same (some j) i = j == i

-- The constructor.
unfoldable pub rcv_loss_list : (ℕ → Node) → ℕ → RcvLossList
rcv_loss_list raw size = record {
  seq = λ i. if ltb i size then record (raw i) { data1 = minus_one; data2 = minus_one } else raw i;
  head = none;
  tail = none;
  length = pos 0;
  size = size;
}

-- `m_caSeq[loc].data1 = seqno1; if (seqno2 != seqno1) m_caSeq[loc].data2 = seqno2;`
abbrev pub write_range : ℤ → ℤ → Node → Node
write_range s1 s2 n = record n { data1 = s1; data2 = if eqb_ℤ s2 s1 then n.data2 else s2 }

-- `insert` into an empty list
unfoldable pub insert_first : RcvLossList → ℤ → ℤ → RcvLossList
insert_first l s1 s2 = record l {
  head = some 0;
  tail = some 0;
  seq = set l.seq 0 (record (write_range s1 s2 (l.seq 0)) { next = none; prior = none });
  length = l.length +ℤ seqlen s1 s2;
}

-- `insert` of a node behind the tail
unfoldable pub append_node : RcvLossList → ℤ → ℤ → ℕ → RcvLossList
append_node l s1 s2 loc =
    let t = place l.tail in
    let a = set l.seq loc (write_range s1 s2 (l.seq loc)) in
    let b = set a t (record (a t) { next = some loc }) in
    record l {
      seq = set b loc (record (b loc) { prior = l.tail; next = none });
      tail = some loc;
      length = l.length +ℤ seqlen s1 s2;
    }

unfoldable pub extend_tail : RcvLossList → ℤ → ℤ → RcvLossList
extend_tail l s1 s2 =
    let t = place l.tail in
    record l {
      seq = set l.seq t (record (l.seq t) { data2 = s2 });
      length = l.length +ℤ seqlen s1 s2;
    }

unfoldable pub insert : RcvLossList → ℤ → ℤ → RcvLossList
insert l s1 s2 =
    let h = place l.head in
    let offset = seqoff (l.seq h).data1 s1 in
    let loc = index (pos h +ℤ offset) l.size in
    let last = (l.seq (place l.tail)).data2 in
    if eqb_ℤ l.length (pos 0)
    then insert_first l s1 s2
    else if not (eqb_ℤ minus_one last) && eqb_ℤ (incseq last) s1
    then extend_tail l s1 s2
    else append_node l s1 s2 loc

-- The cases of `remove(seqno)`. A single loss at `loc`, the head of the list:
unfoldable pub unlink_head : RcvLossList → ℕ → RcvLossList
unlink_head l loc =
    let h = (l.seq loc).next in
    let a =
      if is_none h
      then l.seq
      else set l.seq (place h) (record (l.seq (place h)) { prior = none }) in
    record l { seq = set a loc (record (a loc) { data1 = minus_one }); head = h }

-- A single loss at `loc`, not the head:
unfoldable pub unlink : RcvLossList → ℕ → RcvLossList
unlink l loc =
    let p = (l.seq loc).prior in
    let n = (l.seq loc).next in
    let a = set l.seq (place p) (record (l.seq (place p)) { next = n }) in
    let b = if is_none n then a else set a (place n) (record (a (place n)) { prior = p }) in
    record l {
      seq = set b loc (record (b loc) { data1 = minus_one });
      tail = if is_none n then p else l.tail;
    }

-- The first of several losses at `loc`: the node moves to the next place.
unfoldable pub shift_node : RcvLossList → ℕ → RcvLossList
shift_node l loc =
    let i = (loc + 1) % l.size in
    let s = incseq (l.seq loc).data1 in
    let a = set l.seq i (record (l.seq i) {
      data1 = s;
      data2 =
          if ltb_ℤ (pos 0) (seqcmp (l.seq loc).data2 s) then (l.seq loc).data2 else (l.seq i).data2;
    }) in
    let b = set a loc (record (a loc) { data1 = minus_one; data2 = minus_one }) in
    let c = set b i (record (b i) { next = (b loc).next; prior = (b loc).prior }) in
    let at_head = same l.head loc in
    let at_tail = same l.tail loc in
    let d =
      if at_head
      then c
      else set c (place (c i).prior) (record (c (place (c i).prior)) { next = some i }) in
    let e =
      if at_tail
      then d
      else set d (place (d i).next) (record (d (place (d i).next)) { prior = some i }) in
    record l {
      seq = e;
      head = if at_head then some i else l.head;
      tail = if at_tail then some i else l.tail;
    }

-- The search for a node at `i` or before it; with a node in the array it ends within `m_iSize`
-- rounds.
unfoldable pub search_back : ℕ → RcvLossList → ℕ → ℕ
search_back zero l i = i
search_back (suc fuel) l i =
    let rest = search_back fuel l (index (pos (i + l.size) -ℤ pos 1) l.size) in
    if eqb_ℤ minus_one (l.seq i).data1 then rest else i

-- `m_caSeq[i].data2` after the losses from `seqno` on have left the node `i`.
abbrev pub cut_before : Node → ℤ → Node
cut_before n s = record n { data2 = if eqb_ℤ s (incseq n.data1) then minus_one else decseq s }

-- A loss inside the node `i`: the losses behind it go to a new node at `loc`.
unfoldable pub split_node : RcvLossList → ℕ → ℕ → ℤ → RcvLossList
split_node l i loc s =
    let a = set l.seq loc (record (l.seq loc) {
      data1 = incseq s;
      data2 =
          if ltb_ℤ (pos 0) (seqcmp (l.seq i).data2 (incseq s))
          then (l.seq i).data2
          else (l.seq loc).data2;
    }) in
    let b = set a i (cut_before (a i) s) in
    let c = set b loc (record (b loc) { next = (b i).next }) in
    let d = set c i (record (c i) { next = some loc }) in
    let e = set d loc (record (d loc) { prior = some i }) in
    let at_tail = same l.tail i in
    record l {
      seq =
          if at_tail
          then e
          else set e (place (e loc).next) (record (e (place (e loc).next)) { prior = some loc });
      tail = if at_tail then some loc else l.tail;
    }

-- `-- m_iLength; return true;`
abbrev pub one_less : RcvLossList → Bool × RcvLossList
one_less l = (true, record l { length = l.length -ℤ pos 1 })

-- `remove(seqno)` where `loc`, the place of the number, has a node of that number
unfoldable pub remove_start : RcvLossList → ℕ → Bool × RcvLossList
remove_start l loc =
    if eqb_ℤ minus_one (l.seq loc).data2
    then (if same l.head loc then one_less (unlink_head l loc) else one_less (unlink l loc))
    else one_less (shift_node l loc)

-- `remove(seqno)` where it has none; `i` is the node found before `loc`.
unfoldable pub remove_inside : RcvLossList → ℕ → ℕ → ℤ → Bool × RcvLossList
remove_inside l i loc s =
    if eqb_ℤ minus_one (l.seq i).data2 || ltb_ℤ (pos 0) (seqcmp s (l.seq i).data2)
    then (false, l)
    else if eqb_ℤ s (l.seq i).data2
    then one_less (record l { seq = set l.seq i (cut_before (l.seq i) s) })
    else one_less (split_node l i ((loc + 1) % l.size) s)

unfoldable pub remove : RcvLossList → ℤ → Bool × RcvLossList
remove l s =
    let h = place l.head in
    let offset = seqoff (l.seq h).data1 s in
    let loc = index (pos h +ℤ offset) l.size in
    if eqb_ℤ l.length (pos 0)
    then (false, l)
    else if ltb_ℤ offset (pos 0)
    then (false, l)
    else if eqb_ℤ s (l.seq loc).data1
    then remove_start l loc
    else remove_inside l (search_back l.size l (index (pos (loc + l.size) -ℤ pos 1) l.size)) loc s

-- `for (i = s; ...; ++ i) remove(i)`, for `rounds` rounds
unfoldable pub remove_from : ℕ → ℤ → RcvLossList → RcvLossList
remove_from zero s l = l
remove_from (suc rounds) s l = remove_from rounds (s +ℤ pos 1) (remove l s).1

-- The number of rounds of a loop from `a` to `b`, both included.
abbrev pub rounds : ℤ → ℤ → ℕ
rounds a b = pos_part (b -ℤ a +ℤ pos 1)

-- `remove(seqno1, seqno2)`; `none` where no `int32_t` is past `seqno2`, so that the loop does not end.
unfoldable pub remove_range : RcvLossList → ℤ → ℤ → Option (Bool × RcvLossList)
remove_range l s1 s2 =
    if eqb_ℤ s2 (pos max_seq_no)
    then none
    else if leb_ℤ s1 s2
    then some (true, remove_from (rounds s1 s2) s1 l)
    else some (
      true,
      remove_from (rounds (pos 0) s2) (pos 0)
          (remove_from (rounds s1 (pos max_seq_no -ℤ pos 1)) s1 l),
    )

-- The test of `find` on one node.
abbrev pub hits : Node → ℤ → ℤ → Bool
hits n s1 s2 =
    eqb_ℤ (seqcmp n.data1 s1) (pos 0)
    || (ltb_ℤ (pos 0) (seqcmp n.data1 s1) && leb_ℤ (seqcmp n.data1 s2) (pos 0))
    || (ltb_ℤ (seqcmp n.data1 s1) (pos 0)
        && (not (eqb_ℤ n.data2 minus_one) && leb_ℤ (pos 0) (seqcmp n.data2 s1)))

-- The walk of `find` along the list, which has at most `m_iSize` nodes.
unfoldable pub find_from : ℕ → RcvLossList → ℤ → ℤ → Option ℕ → Bool
find_from fuel l s1 s2 none = false
find_from zero l s1 s2 (some p) = false
find_from (suc fuel) l s1 s2 (some p) =
    let rest = find_from fuel l s1 s2 (l.seq p).next in if hits (l.seq p) s1 s2 then true else rest

unfoldable pub find : RcvLossList → ℤ → ℤ → Bool
find l s1 s2 = if eqb_ℤ l.length (pos 0) then false else find_from l.size l s1 s2 l.head

unfoldable pub get_loss_length : RcvLossList → ℤ
get_loss_length l = l.length

unfoldable pub get_first_lost_seq : RcvLossList → ℤ
get_first_lost_seq l = if eqb_ℤ l.length (pos 0) then minus_one else (l.seq (place l.head)).data1

-- `LOSSDATA_SEQNO_RANGE_FIRST`, set in the first number of a range, as an `int32_t`.
abbrev pub range_first : ℤ → ℤ
range_first s = if ltb_ℤ s (pos 0) then s else s -ℤ pos (2 ^ 31)

-- The loop of `getLossArray` from pointer `i` with `len` words written; it ends as `len` reaches the
-- limit. The result is the words from there on.
unfoldable pub loss_array_from : ℕ → RcvLossList → ℕ → ℕ → Option ℕ → List ℤ
loss_array_from fuel l limit len none = []
loss_array_from zero l limit len (some i) = []
loss_array_from (suc fuel) l limit len (some i) =
    let n = l.seq i in
    let single = loss_array_from fuel l limit (len + 1) n.next in
    let double = loss_array_from fuel l limit (len + 2) n.next in
    if ltb (len + 1) limit
    then (if eqb_ℤ minus_one n.data2
        then n.data1 ∷ single
        else range_first n.data1 ∷ n.data2 ∷ double)
    else []

unfoldable pub get_loss_array : RcvLossList → ℕ → List ℤ
get_loss_array l limit = loss_array_from limit l limit 0 l.head
