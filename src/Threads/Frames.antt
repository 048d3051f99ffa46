-- ===== src/Threads/Frames.antt =====
-- About the writes of the list functions of thread.c: which threads they leave alone.
use vsecplat.Common.{ℕ, false, List, [], ◌∷◌, ◌++◌, Option, none, some, All}
use vsecplat.Common.{◌==◌, ◌≡◌, ◌≢◌, refl, sym, ◌∙◌, ap, subst, arith}
use vsecplat.Threads.{
  Links, Memory, put, ThreadList, thread_list_add, unlink_next, link_prev, thread_list_delete,
  thread_list_add_before,
}
use vsecplat.Threads.Segments.{first, last, IsSeg, IsApart, IsSeg-split}
use vsecplat.Threads.Lists.{Represents, last-some, All-last, IsApart-split, IsDistinct-split}
use vsecplat.Threads.Refinement.{cut, delete_between, add_behind, add_first}
use vsecplat.Threads.Insertion.{add_between}

-- The two memories agree outside the threads.
abbrev pub SameOutside : List ℕ → Memory → Memory → Type 0
SameOutside xs m m' = (z : ℕ) → IsApart z xs → m' z ≡ m z

put_other : (p : ℕ) (l : Links) (m : Memory) (z : ℕ) → z ≢ p → put p l m z ≡ m z
put_other p l m z h = let other : (p == z) ≡ false = ground (arith, h) in rw other refl

pub IsSeg-same :
    (xs : List ℕ) (m m' : Memory) (before : Option ℕ) (zs : List ℕ) (after : Option ℕ)
    → SameOutside xs m m'
    → All (λ z. IsApart z xs) zs
    → IsSeg m before zs after
    → IsSeg m' before zs after
IsSeg-same xs m m' before [] after h g seg = tt
IsSeg-same xs m m' before (z ∷ zs) after h g seg =
    let e = h z g.0 in
    (
      ap (λ (l : Links). l.prev) e ∙ seg.0,
      ap (λ (l : Links). l.next) e ∙ seg.1,
      IsSeg-same xs m m' (some z) zs after h g.1 seg.2,
    )

-- Another list stays as it is.
pub Represents-same :
    (xs : List ℕ) (m m' : Memory) (list : ThreadList) (zs : List ℕ)
    → SameOutside xs m m'
    → All (λ z. IsApart z xs) zs
    → Represents list m zs
    → Represents list m' zs
Represents-same xs m m' list zs h g r = record {
  at_head = r.at_head;
  at_tail = r.at_tail;
  counted = r.counted;
  linked = IsSeg-same xs m m' none zs none h g r.linked;
  distinct = r.distinct;
}

link_prev_other :
    (us : List ℕ) (next head : Option ℕ) (m : Memory) (z : ℕ)
    → IsApart z us
    → (link_prev (last us none) next head m).1 z ≡ m z
link_prev_other [] next head m z h = refl
link_prev_other (u ∷ us) next head m z h =
    let (p, at_end) = last-some u us in
    subst (λ prev. (link_prev prev next head m).1 z ≡ m z) (sym at_end)
      (put_other p _ m z (All-last (λ u. z ≢ u) u us p h at_end))

unlink_next_other :
    (vs : List ℕ) (prev tail : Option ℕ) (m : Memory) (z : ℕ)
    → IsApart z vs
    → (unlink_next (first vs none) prev tail m).1 z ≡ m z
unlink_next_other [] prev tail m z h = refl
unlink_next_other (v ∷ vs) prev tail m z h = put_other v _ m z h.0

pub thread_list_delete-SameOutside :
    (list : ThreadList) (m : Memory) (us vs : List ℕ) (t : ℕ)
    → Represents list m (us ++ t ∷ vs)
    → SameOutside (us ++ t ∷ vs) m (thread_list_delete list t m).1
thread_list_delete-SameOutside list m us vs t r z h =
    let (z_us, z_rest) = IsApart-split z us (t ∷ vs) h in
    let (seg_us, seg_rest) = IsSeg-split m none us (t ∷ vs) none r.linked in
    let (d_us, d_rest, away) = IsDistinct-split us (t ∷ vs) r.distinct in
    let itself = unlink_next_other vs (last us none) list.tail m t d_rest.0 in
    let result =
      delete_between list t m (first vs none) (last us none) seg_rest.1 seg_rest.0 itself in
    let m1 = (unlink_next (first vs none) (last us none) list.tail m).1 in
    let m2 = (link_prev (last us none) (first vs none) list.head m1).1 in
    rw result (
      put_other t cut m2 z z_rest.0
      ∙ link_prev_other us (first vs none) list.head m1 z z_us
      ∙ unlink_next_other vs (last us none) list.tail m z z_rest.1)

pub thread_list_add-SameOutside :
    (list : ThreadList) (m : Memory) (xs : List ℕ) (t : ℕ)
    → Represents list m xs
    → SameOutside (t ∷ xs) m (thread_list_add list t m).1
thread_list_add-SameOutside list m [] t r z h =
    rw (add_first list t m r.at_tail) (put_other t cut m z h.0)
thread_list_add-SameOutside list m (x ∷ xs) t r z h =
    let (p, at_end) = last-some x xs in
    let new : Links = record { next = none; prev = some p } in
    let m1 = put t new m in
    rw (add_behind list t m p (r.at_tail ∙ at_end)) (
      put_other p (record (m1 p) { next = some t }) m1 z (All-last (λ u. z ≢ u) x xs p h.1 at_end)
      ∙ put_other t new m z h.0)

pub thread_list_add_before-SameOutside :
    (list : ThreadList) (m : Memory) (us vs : List ℕ) (p t : ℕ)
    → IsApart t (us ++ p ∷ vs)
    → Represents list m (us ++ p ∷ vs)
    → SameOutside (t ∷ us ++ p ∷ vs) m (thread_list_add_before list p t m).1
thread_list_add_before-SameOutside list m us vs p t new r z h =
    let (z_us, z_rest) = IsApart-split z us (p ∷ vs) h.1 in
    let (t_us, t_rest) = IsApart-split t us (p ∷ vs) new in
    let (seg_us, seg_rest) = IsSeg-split m none us (p ∷ vs) none r.linked in
    let new : Links = record { next = some p; prev = last us none } in
    let m1 = put t new m in
    let m2 = (link_prev (last us none) (some t) list.head m1).1 in
    rw (add_between list p t m (last us none) t_rest.0 seg_rest.0) (
      put_other p (record (m2 p) { prev = some t }) m2 z z_rest.0
      ∙ link_prev_other us (some t) list.head m1 z z_us
      ∙ put_other t new m z h.0)

pub put-SameOutside : (t : ℕ) (l : Links) (m : Memory) → SameOutside (t ∷ []) m (put t l m)
put-SameOutside t l m z h = put_other t l m z h.0
