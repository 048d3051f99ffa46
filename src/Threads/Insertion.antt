-- ===== src/Threads/Insertion.antt =====
-- About `thread_list_add_before` of thread.c, against lists.
use vsecplat.Common.{ℕ, suc, true, false, List, [], ◌∷◌, ◌++◌, Option, none, some, All}
use vsecplat.Common.{◌==◌, ◌≡◌, ◌≢◌, refl, sym, ◌∙◌, subst, arith, length-append}
use vsecplat.Threads.{Links, Memory, put, set_prev, ThreadList, link_prev, thread_list_add_before}
use vsecplat.Threads.Segments.{
  first, last, IsSeg, IsApart, IsDistinct, first-append, last-append, IsSeg-put, IsSeg-split,
  IsSeg-append, IsSeg-set_prev, IsSeg-set_next,
}
use vsecplat.Threads.Lists.{
  Represents, last-some, All-last, IsApart-flip, IsApart-split, IsDistinct-split, IsDistinct-append,
}

-- The threads in front of a place, when the last of them, or the head, gets a new `next`.
link_prev-front :
    (us : List ℕ) (after next : Option ℕ) (head : Option ℕ) (m : Memory)
    → head ≡ first us after
    → IsDistinct us
    → IsSeg m none us after
    → ((link_prev (last us none) next head m).0 ≡ first us next)
      × IsSeg (link_prev (last us none) next head m).1 none us next
link_prev-front [] after next head m e d seg = (refl, tt)
link_prev-front (u ∷ us) after next head m e d seg =
    let (p, at_end) = last-some u us in
    subst
      (λ prev.
        ((link_prev prev next head m).0 ≡ first (u ∷ us) next)
        × IsSeg (link_prev prev next head m).1 none (u ∷ us) next)
      (sym at_end) (e, IsSeg-set_next p next m none u us after d at_end seg)

-- Threads behind the place stay as they are.
link_prev-behind :
    (us zs : List ℕ) (next head before after : Option ℕ) (m : Memory)
    → All (λ u. IsApart u zs) us
    → IsSeg m before zs after
    → IsSeg (link_prev (last us none) next head m).1 before zs after
link_prev-behind [] zs next head before after m away seg = seg
link_prev-behind (u ∷ us) zs next head before after m away seg =
    let (p, at_end) = last-some u us in
    rw at_end
      (IsSeg-put p _ m before zs after (All-last (λ u. IsApart u zs) u us p away at_end) seg)

IsApart-join :
    (t : ℕ) (ys us : List ℕ)
    → IsApart t us
    → All (λ u. IsApart u ys) us
    → All (λ u. IsApart u (t ∷ ys)) us
IsApart-join t ys [] h g = tt
IsApart-join t ys (u ∷ us) h g = ((λ e. h.0 (sym e), g.0), IsApart-join t ys us h.1 g.1)

pub add_between :
    (list : ThreadList) (p t : ℕ) (m : Memory) (prev : Option ℕ)
    → t ≢ p
    → (m p).prev ≡ prev
    → thread_list_add_before list p t m ≡ (
      record {
        head =
            (link_prev prev (some t) list.head (put t (record { next = some p; prev = prev }) m)).0;
        tail = list.tail;
        count = suc list.count;
      },
      set_prev p
          (some t)
          (link_prev prev (some t) list.head (put t (record { next = some p; prev = prev }) m)).1,
    )
unfolding thread_list_add_before
add_between list p t m prev h e =
    let other : (t == p) ≡ false = ground (arith, h) in rw (other, e) refl

-- Adding a thread that is not in a list of the scheduler before one that is leaves in memory a list
-- with the new thread right before it and the others in their order.
pub thread_list_add_before-Represents :
    (list : ThreadList) (m : Memory) (us vs : List ℕ) (p t : ℕ)
    → IsApart t (us ++ p ∷ vs)
    → Represents list m (us ++ p ∷ vs)
    → Represents
        (thread_list_add_before list p t m).0
        (thread_list_add_before list p t m).1
        (us ++ t ∷ p ∷ vs)
thread_list_add_before-Represents list m us vs p t new r =
    let (t_us, t_rest) = IsApart-split t us (p ∷ vs) new in
    let (d_us, d_rest, away) = IsDistinct-split us (p ∷ vs) r.distinct in
    let (seg_us, seg_rest) = IsSeg-split m none us (p ∷ vs) none r.linked in
    let l : Links = record { next = some p; prev = last us none } in
    let m1 = put t l m in
    let front =
      link_prev-front us (some p) (some t) list.head m1 (r.at_head ∙ first-append us (p ∷ vs) none)
        d_us (IsSeg-put t l m none us (some p) t_us seg_us) in
    let m2 = (link_prev (last us none) (some t) list.head m1).1 in
    let rest =
      link_prev-behind us (p ∷ vs) (some t) list.head (last us none) none m1 away
        (IsSeg-put t l m (last us none) (p ∷ vs) none t_rest seg_rest) in
    let same : (t == t) ≡ true = ground arith in
    let itself : IsSeg m1 (last us none) (t ∷ []) (some p) = (rw same refl, rw same refl, tt) in
    let new_one =
      link_prev-behind us (t ∷ []) (some t) list.head (last us none) (some p) m1
        (IsApart-join t [] us t_us (no_others us)) itself in
    let p_us = IsApart-flip p vs us away in
    let p_t : IsApart p (t ∷ []) = (λ e. t_rest.0 (sym e), tt) in
    let m3 = set_prev p (some t) m2 in
    let placed : IsSeg m3 (last us none) (t ∷ []) (some p) =
      IsSeg-put p _ m2 (last us none) (t ∷ []) (some p) p_t new_one in
    rw (add_between list p t m (last us none) t_rest.0 seg_rest.0) (record {
      at_head = front.0 ∙ sym (first-append us (t ∷ p ∷ vs) none);
      at_tail = r.at_tail ∙ last-append us (p ∷ vs) none ∙ sym (last-append us (t ∷ p ∷ vs) none);
      counted = omega (arith, r.counted, length-append us (p ∷ vs), length-append us (t ∷ p ∷ vs));
      linked =
          IsSeg-append m3 none us (t ∷ p ∷ vs) none (IsSeg-put p _ m2 none us (some t) p_us front.1)
            (placed.0, placed.1, IsSeg-set_prev (some t) m2 (last us none) p vs none d_rest.0 rest);
      distinct =
          IsDistinct-append us (t ∷ p ∷ vs) d_us (t_rest, d_rest)
            (IsApart-join t (p ∷ vs) us t_us away);
    })
  where
    no_others : (us : List ℕ) → All (λ u. IsApart u []) us
    no_others [] = tt
    no_others (u ∷ us) = (tt, no_others us)
