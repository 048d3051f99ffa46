-- ===== src/Threads/Lists.antt =====
-- About the lists of thread.c: what they hold, and in which order.
use vsecplat.Common.{ℕ, false, List, [], ◌∷◌, ◌++◌, Option, none, some, All}
use vsecplat.Common.{◌==◌, ◌≡◌, refl, sym, subst, arith, length}
use vsecplat.Threads.{Memory, ThreadList, unlink_next, link_prev}
use vsecplat.Threads.Segments.{
  first, last, IsSeg, IsApart, IsDistinct, IsSeg-put, IsSeg-set_prev, IsSeg-set_next,
}

-- The list in memory holds these threads, in this order.
pub record Represents (list : ThreadList) (m : Memory) (xs : List ℕ) : Type 0 where
  pub at_head : list.head ≡ first xs none
  pub at_tail : list.tail ≡ last xs none
  pub counted : list.count ≡ length xs
  pub linked : IsSeg m none xs none
  pub distinct : IsDistinct xs

pub last-some : (x : ℕ) (xs : List ℕ) → (p : ℕ) × (last xs (some x) ≡ some p)
last-some x [] = (x, refl)
last-some x (y ∷ xs) = last-some y xs

-- A thread at the end of a list is one of it.
pub All-last :
    (P : ℕ → Type 0) (x : ℕ) (xs : List ℕ) (p : ℕ)
    → All P (x ∷ xs)
    → last xs (some x) ≡ some p
    → P p
All-last P x [] p h e = let same : x ≡ p = cc in subst P same h.0
All-last P x (y ∷ xs) p h e = All-last P y xs p h.1 e

pub IsApart-flip : (p : ℕ) (ys xs : List ℕ) → All (λ x. IsApart x (p ∷ ys)) xs → IsApart p xs
IsApart-flip p ys [] h = tt
IsApart-flip p ys (x ∷ xs) h = (λ e. h.0.0 (sym e), IsApart-flip p ys xs h.1)

pub IsApart-rest :
    (p : ℕ) (ys xs : List ℕ) → All (λ x. IsApart x (p ∷ ys)) xs → All (λ x. IsApart x ys) xs
IsApart-rest p ys [] h = tt
IsApart-rest p ys (x ∷ xs) h = (h.0.1, IsApart-rest p ys xs h.1)

pub IsApart-split : (p : ℕ) (xs ys : List ℕ) → IsApart p (xs ++ ys) → IsApart p xs × IsApart p ys
IsApart-split p [] ys h = (tt, h)
IsApart-split p (x ∷ xs) ys h = let rest = IsApart-split p xs ys h.1 in ((h.0, rest.0), rest.1)

pub IsApart-append : (p : ℕ) (xs ys : List ℕ) → IsApart p xs → IsApart p ys → IsApart p (xs ++ ys)
IsApart-append p [] ys h g = g
IsApart-append p (x ∷ xs) ys h g = (h.0, IsApart-append p xs ys h.1 g)

pub IsDistinct-split :
    (xs ys : List ℕ)
    → IsDistinct (xs ++ ys)
    → IsDistinct xs × IsDistinct ys × All (λ x. IsApart x ys) xs
IsDistinct-split [] ys h = (tt, h, tt)
IsDistinct-split (x ∷ xs) ys h =
    let here = IsApart-split x xs ys h.0 in
    let rest = IsDistinct-split xs ys h.1 in ((here.0, rest.0), rest.1, (here.1, rest.2))

pub IsDistinct-append :
    (xs ys : List ℕ)
    → IsDistinct xs
    → IsDistinct ys
    → All (λ x. IsApart x ys) xs
    → IsDistinct (xs ++ ys)
IsDistinct-append [] ys h g a = g
IsDistinct-append (x ∷ xs) ys h g a =
    (IsApart-append x xs ys h.0 a.0, IsDistinct-append xs ys h.1 g a.1)

-- What comes of the threads behind the one that goes.
pub record Behind (t : ℕ) (us bs : List ℕ) (m : Memory) (r : Option ℕ × Memory) : Type 0 where
  pub tail_now : r.0 ≡ last bs (last us none)
  pub behind_it : IsSeg r.1 (last us none) bs none
  pub before_it : IsSeg r.1 none us (some t)
  pub itself : r.1 t ≡ m t

pub unlink_next-Behind :
    (t : ℕ) (us bs : List ℕ) (tail : Option ℕ) (m : Memory)
    → tail ≡ last bs (some t)
    → IsDistinct bs
    → IsApart t bs
    → All (λ x. IsApart x bs) us
    → IsSeg m (some t) bs none
    → IsSeg m none us (some t)
    → Behind t us bs m (unlink_next (first bs none) (last us none) tail m)
unlink_next-Behind t us [] tail m e d apart away behind before = record {
  tail_now = refl;
  behind_it = tt;
  before_it = before;
  itself = refl;
}
unlink_next-Behind t us (n ∷ bs) tail m e d apart away behind before = record {
  tail_now = e;
  behind_it = IsSeg-set_prev (last us none) m (some t) n bs none d.0 behind;
  before_it = IsSeg-put n _ m none us (some t) (IsApart-flip n bs us away) before;
  itself = let other : (n == t) ≡ false = let no = apart.0 in ground (arith, no) in rw other refl;
}

-- And of those in front of it.
pub record Around (us bs : List ℕ) (r : Option ℕ × Memory) : Type 0 where
  pub head_now : r.0 ≡ first us (first bs none)
  pub front_part : IsSeg r.1 none us (first bs none)
  pub back_part : IsSeg r.1 (last us none) bs none

pub link_prev-Around :
    (t : ℕ) (us bs : List ℕ) (head : Option ℕ) (m : Memory)
    → head ≡ first us (some t)
    → IsDistinct us
    → All (λ x. IsApart x bs) us
    → IsSeg m (last us none) bs none
    → IsSeg m none us (some t)
    → Around us bs (link_prev (last us none) (first bs none) head m)
link_prev-Around t [] bs head m e d away behind before = record {
  head_now = refl;
  front_part = tt;
  back_part = behind;
}
link_prev-Around t (a ∷ us) bs head m e d away behind before =
    let (p, at_end) = last-some a us in
    let apart = All-last (λ x. IsApart x bs) a us p away at_end in
    rw at_end (record {
      head_now = e;
      front_part = IsSeg-set_next p (first bs none) m none a us (some t) d at_end before;
      back_part = rw at_end (IsSeg-put p _ m (some p) bs none apart (rw at_end at behind));
    })
