-- ===== src/Threads/Refinement.antt =====
-- About `thread_list_add`, `thread_list_delete` and `thread_trim_head` of thread.c, against lists.
use vsecplat.Common.{ℕ, suc, ◌-◌, true, false, List, [], ◌∷◌, ◌++◌, Option, none, some, All}
use vsecplat.Common.{◌==◌, ◌≡◌, ◌≢◌, refl, sym, ◌∙◌, subst, arith, length-append}
use vsecplat.Threads.{
  Links, Memory, put, set_next, ThreadList, thread_list_add, unlink_next, link_prev,
  thread_list_delete, thread_trim_head,
}
use vsecplat.Threads.Segments.{
  first, last, IsApart, first-append, last-append, IsSeg-put, IsSeg-split, IsSeg-append,
  IsSeg-set_next,
}
use vsecplat.Threads.Lists.{
  Represents, last-some, All-last, IsApart-flip, IsApart-rest, IsApart-append, IsDistinct-split,
  IsDistinct-append, unlink_next-Behind, link_prev-Around,
}

abbrev pub cut : Links
cut = record { next = none; prev = none }

-- The deletion, with the neighbours of the thread put in.
pub delete_between :
    (list : ThreadList) (t : ℕ) (m : Memory) (next prev : Option ℕ)
    → (m t).next ≡ next
    → (m t).prev ≡ prev
    → (unlink_next next prev list.tail m).1 t ≡ m t
    → thread_list_delete list t m ≡ (
      record {
        head = (link_prev prev next list.head (unlink_next next prev list.tail m).1).0;
        tail = (unlink_next next prev list.tail m).0;
        count = list.count - 1;
      },
      put t cut (link_prev prev next list.head (unlink_next next prev list.tail m).1).1,
    )
unfolding thread_list_delete
delete_between list t m next prev e f same = rw (e, f) (rw same (rw (e, f) refl))

-- Deleting a thread that is in the list takes it out, and leaves the others in their order.
pub thread_list_delete-Represents :
    (list : ThreadList) (m : Memory) (us vs : List ℕ) (t : ℕ)
    → Represents list m (us ++ t ∷ vs)
    → Represents (thread_list_delete list t m).0 (thread_list_delete list t m).1 (us ++ vs)
thread_list_delete-Represents list m us vs t r =
    let (d_us, d_rest, away) = IsDistinct-split us (t ∷ vs) r.distinct in
    let (seg_us, seg_rest) = IsSeg-split m none us (t ∷ vs) none r.linked in
    let apart = IsApart-rest t vs us away in
    let behind =
      unlink_next-Behind t us vs list.tail m (r.at_tail ∙ last-append us (t ∷ vs) none) d_rest.1
        d_rest.0 apart seg_rest.2 seg_us in
    let around =
      link_prev-Around t us vs list.head (unlink_next (first vs none) (last us none) list.tail m).1
        (r.at_head ∙ first-append us (t ∷ vs) none) d_us apart behind.behind_it behind.before_it in
    let t_us = IsApart-flip t vs us away in
    let result =
      delete_between list t m (first vs none) (last us none) seg_rest.1 seg_rest.0 behind.itself in
    rw result (record {
      at_head = around.head_now ∙ sym (first-append us vs none);
      at_tail = behind.tail_now ∙ sym (last-append us vs none);
      counted = omega (arith, r.counted, length-append us (t ∷ vs), length-append us vs);
      linked =
          IsSeg-put t cut _ none (us ++ vs) none (IsApart-append t us vs t_us d_rest.0)
            (IsSeg-append _ none us vs none around.front_part around.back_part);
      distinct = IsDistinct-append us vs d_us d_rest.1 apart;
    })

IsApart-back : (p : ℕ) (xs : List ℕ) → IsApart p xs → All (λ x. IsApart x (p ∷ [])) xs
IsApart-back p [] h = tt
IsApart-back p (x ∷ xs) h = ((λ e. h.0 (sym e), tt), IsApart-back p xs h.1)

pub add_behind :
    (list : ThreadList) (t : ℕ) (m : Memory) (p : ℕ)
    → list.tail ≡ some p
    → thread_list_add list t m ≡ (
      record { head = list.head; tail = some t; count = suc list.count },
      set_next p (some t) (put t (record { next = none; prev = some p }) m),
    )
unfolding thread_list_add
add_behind list t m p e = rw e refl

pub add_first :
    (list : ThreadList) (t : ℕ) (m : Memory)
    → list.tail ≡ none
    → thread_list_add list t m
      ≡ (record { head = some t; tail = some t; count = suc list.count }, put t cut m)
unfolding thread_list_add
add_first list t m e = rw e refl

-- Adding a thread that is not in the list puts it at its end.
pub thread_list_add-Represents :
    (list : ThreadList) (m : Memory) (xs : List ℕ) (t : ℕ)
    → IsApart t xs
    → Represents list m xs
    → Represents (thread_list_add list t m).0 (thread_list_add list t m).1 (xs ++ t ∷ [])
thread_list_add-Represents list m [] t h r =
    let same : (t == t) ≡ true = ground arith in
    rw (add_first list t m r.at_tail) (record {
      at_head = refl;
      at_tail = refl;
      counted = omega (arith, r.counted);
      linked = (rw same refl, rw same refl, tt);
      distinct = (tt, tt);
    })
thread_list_add-Represents list m (x ∷ xs) t h r =
    let (p, at_end) = last-some x xs in
    let other = All-last (λ y. t ≢ y) x xs p h at_end in
    let same : (t == t) ≡ true = ground arith in
    let apart : (p == t) ≡ false = ground (arith, other) in
    let new : Links = record { next = none; prev = some p } in
    let linked = IsSeg-put t new m none (x ∷ xs) none h r.linked in
    rw (add_behind list t m p (r.at_tail ∙ at_end)) (record {
      at_head = r.at_head;
      at_tail = sym (last-append (x ∷ xs) (t ∷ []) none);
      counted = omega (arith, r.counted, length-append (x ∷ xs) (t ∷ []));
      linked =
          IsSeg-append _ none (x ∷ xs) (t ∷ []) none
            (IsSeg-set_next p (some t) (put t new m) none x xs none r.distinct at_end linked)
            (rw apart (rw same (sym at_end)), rw apart (rw same refl), tt);
      distinct =
          IsDistinct-append (x ∷ xs) (t ∷ []) r.distinct (tt, tt) (IsApart-back t (x ∷ xs) h);
    })

-- What is taken off the front of a list, and the list that is left.
abbrev IsTrimmed : List ℕ → Option ℕ × ThreadList × Memory → Type 0
IsTrimmed [] (t, list, m) = (t ≡ none) × Represents list m []
IsTrimmed (x ∷ xs) (t, list, m) = (t ≡ some x) × Represents list m xs

pub trim_first :
    (list : ThreadList) (m : Memory) (h : Option ℕ)
    → list.head ≡ h
    → thread_trim_head list m ≡ elim h [
      | none ↦ (none, list, m)
      | some t ↦ (some t, (thread_list_delete list t m).0, (thread_list_delete list t m).1)
    ]
unfolding thread_trim_head
trim_first list m h e =
    subst
      (λ h. thread_trim_head list m ≡ elim h [
        | none ↦ (none, list, m)
        | some t ↦ (some t, (thread_list_delete list t m).0, (thread_list_delete list t m).1)
      ])
      e refl

-- Trimming takes the first thread off a list and leaves the others in their order, and gives the null
-- pointer for an empty list.
thread_trim_head-IsTrimmed :
    (list : ThreadList) (m : Memory) (xs : List ℕ)
    → Represents list m xs
    → IsTrimmed xs (thread_trim_head list m)
thread_trim_head-IsTrimmed list m [] r = rw (trim_first list m none r.at_head) (refl, r)
thread_trim_head-IsTrimmed list m (x ∷ xs) r =
    rw (trim_first list m (some x) r.at_head) (refl, thread_list_delete-Represents list m [] xs x r)
