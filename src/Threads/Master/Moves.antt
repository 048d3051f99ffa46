-- ===== src/Threads/Master/Moves.antt =====
-- About threads that leave a list of the scheduler of thread.c, or come between two of them, and
-- about writes to a thread that is in no list.
use vsecplat.Common.{ℕ, false, List, [], ◌∷◌, ◌++◌, All, All-append}
use vsecplat.Common.{◌==◌, ◌≡◌, sym, subst, arith, Bool-cases, inl, inr}
use vsecplat.Threads.{Links, put, thread_list_delete, thread_list_add_before}
use vsecplat.Threads.Segments.{IsApart}
use vsecplat.Threads.Lists.{
  Represents, IsApart-split, IsApart-append, IsDistinct-split, IsApart-flip,
}
use vsecplat.Threads.Refinement.{thread_list_delete-Represents}
use vsecplat.Threads.Insertion.{thread_list_add_before-Represents}
use vsecplat.Threads.Frames.{
  Represents-same, put-SameOutside, thread_list_delete-SameOutside,
  thread_list_add_before-SameOutside,
}
use vsecplat.Threads.Master.{Queue, same, Info, put_info, ThreadMaster, add_before, delete_from}
use vsecplat.Threads.Master.Holds.{
  Queues, with, type_of, Holds, IsLoose, Holds-IsApart, All-IsApart, put_list-Holds,
}

-- The same lists, written otherwise.
pub Holds-same :
    (m : ThreadMaster) (q q' : Queues) → Holds m q → ((p : Queue) → q p ≡ q' p) → Holds m q'
Holds-same m q q' h e = record {
  represents = λ p. subst (λ xs. Represents (m.lists p) m.links xs) (e p) (h.represents p);
  typed = λ p. subst (λ xs. All (λ t. (m.infos t).type ≡ type_of p) xs) (e p) (h.typed p);
}

All-split {ℓ} :
    {A : Type ℓ} (P : A → Type 0) (xs ys : List A) → All P (xs ++ ys) → All P xs × All P ys
All-split P [] ys h = (tt, h)
All-split P (x ∷ xs) ys h = let rest = All-split P xs ys h.1 in ((h.0, rest.0), rest.1)

-- Deletion from the middle, at a list that is known to be two parts and the thread.
pub delete_from-Holds :
    (p : Queue) (t : ℕ) (us vs : List ℕ) (m : ThreadMaster) (q : Queues)
    → q p ≡ us ++ t ∷ vs
    → Holds m q
    → Holds (delete_from p t m) (with p (us ++ vs) q) × IsLoose t (with p (us ++ vs) q)
delete_from-Holds p t us vs m q e h =
    let result = thread_list_delete (m.lists p) t m.links in
    let here = subst (λ xs. Represents (m.lists p) m.links xs) e (h.represents p) in
    let kinds =
      All-split (λ x. (m.infos x).type ≡ type_of p) us (t ∷ vs)
        (subst (λ xs. All (λ x. (m.infos x).type ≡ type_of p) xs) e (h.typed p)) in
    let (d_us, d_rest, away) = IsDistinct-split us (t ∷ vs) here.distinct in
    let others = λ (r : Queue) (other : same p r ≡ false).
      subst (λ xs. All (λ z. IsApart z xs) (q r)) e (Holds-IsApart m q p r h other) in
    (
      put_list-Holds p result.0 result.1 (us ++ vs) (us ++ t ∷ vs) m q h
          (thread_list_delete-Represents (m.lists p) m.links us vs t here)
          (All-append _ us vs kinds.0 kinds.1.1)
          (thread_list_delete-SameOutside (m.lists p) m.links us vs t here) others,
      λ r. elim (Bool-cases (same p r)) [
        | inl at ↦ rw at (IsApart-append t us vs (IsApart-flip t vs us away) d_rest.0)
        | inr at ↦ rw at (not_in us vs t (q r) (others r at))
      ],
    )
  where
    not_in :
        (us vs : List ℕ) (t : ℕ) (zs : List ℕ)
        → All (λ z. IsApart z (us ++ t ∷ vs)) zs
        → IsApart t zs
    not_in us vs t [] g = tt
    not_in us vs t (z ∷ zs) g =
        (λ e. (IsApart-split z us (t ∷ vs) g.0).1.0 (sym e), not_in us vs t zs g.1)

pub add_before-Holds :
    (p : Queue) (t point : ℕ) (us vs : List ℕ) (m : ThreadMaster) (q : Queues)
    → q p ≡ us ++ point ∷ vs
    → Holds m q
    → IsLoose t q
    → (m.infos t).type ≡ type_of p
    → Holds (add_before p point t m) (with p (us ++ t ∷ point ∷ vs) q)
add_before-Holds p t point us vs m q e h loose kind =
    let result = thread_list_add_before (m.lists p) point t m.links in
    let here = subst (λ xs. Represents (m.lists p) m.links xs) e (h.represents p) in
    let new = subst (λ xs. IsApart t xs) e (loose p) in
    let kinds =
      All-split (λ x. (m.infos x).type ≡ type_of p) us (point ∷ vs)
        (subst (λ xs. All (λ x. (m.infos x).type ≡ type_of p) xs) e (h.typed p)) in
    put_list-Holds p result.0 result.1 (us ++ t ∷ point ∷ vs) (t ∷ us ++ point ∷ vs) m q h
      (thread_list_add_before-Represents (m.lists p) m.links us vs point t new here)
      (All-append _ us (t ∷ point ∷ vs) kinds.0 (kind, kinds.1))
      (thread_list_add_before-SameOutside (m.lists p) m.links us vs point t new here)
      (λ r other.
        All-IsApart t (us ++ point ∷ vs) (q r) (loose r)
          (subst (λ xs. All (λ z. IsApart z xs) (q r)) e (Holds-IsApart m q p r h other)))

-- A write to what a thread in no list holds.
pub put_info-Holds :
    (t : ℕ) (i : Info) (m : ThreadMaster) (q : Queues)
    → Holds m q
    → IsLoose t q
    → Holds (record m { infos = put_info t i m.infos }) q
put_info-Holds t i m q h loose = record {
  represents = h.represents;
  typed = λ p. kept p (q p) (loose p) (h.typed p);
}
  where
    kept :
        (p : Queue) (xs : List ℕ)
        → IsApart t xs
        → All (λ x. (m.infos x).type ≡ type_of p) xs
        → All (λ x. (put_info t i m.infos x).type ≡ type_of p) xs
    kept p [] a g = tt
    kept p (x ∷ xs) a g =
        let other : (t == x) ≡ false = let no = a.0 in ground (arith, no) in
        (rw other g.0, kept p xs a.1 g.1)

-- A write to its links.
pub put_links-Holds :
    (t : ℕ) (l : Links) (m : ThreadMaster) (q : Queues)
    → Holds m q
    → IsLoose t q
    → Holds (record m { links = put t l m.links }) q
put_links-Holds t l m q h loose = record {
  represents = λ p.
      Represents-same (t ∷ []) m.links (put t l m.links) (m.lists p) (q p)
        (put-SameOutside t l m.links) (All-IsApart t [] (q p) (loose p) (none_of (q p)))
        (h.represents p);
  typed = h.typed;
}
  where
    none_of : (xs : List ℕ) → All (λ z. IsApart z []) xs
    none_of [] = tt
    none_of (x ∷ xs) = (tt, none_of xs)
