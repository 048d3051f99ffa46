-- ===== src/Threads/Master/Clock.antt =====
-- About `timeval_cmp` of thread.c, and lists in the order of time.
use vsecplat.Common.{ℕ, ◌+◌, ◌*◌, ◌^◌, ◌≤◌, ◌<◌, List, [], ◌∷◌, ◌++◌, All}
use vsecplat.Common.{◌≡◌, subst, arith, leb, ◌==◌, if◌then◌else◌, to_int}
use vsecplat.Threads.Master.{Timeval, difference, timeval_cmp, not_positive, not_negative}

-- Times as the clock gives them until 2038.
pub record IsTime (a : Timeval) : Type 0 where
  pub seconds : a.tv_sec < 2 ^ 31
  pub micros : a.tv_usec < 1000000

abbrev pub instant : Timeval → ℕ
instant a = a.tv_sec * 1000000 + a.tv_usec

to_int-difference : (n m : ℕ) → n < 2 ^ 31 → m < 2 ^ 31 → to_int (difference n m) ≡ difference n m
to_int-difference n m h g = ground arith

cmp_exact :
    (a b : Timeval)
    → IsTime a
    → IsTime b
    → timeval_cmp a b ≡ (
        if a.tv_sec == b.tv_sec
        then difference a.tv_usec b.tv_usec
        else difference a.tv_sec b.tv_sec)
unfolding timeval_cmp
cmp_exact a b h g =
    ground (arith, to_int-difference a.tv_usec b.tv_usec, to_int-difference a.tv_sec b.tv_sec)

pub cmp-not_positive :
    (a b : Timeval)
    → IsTime a
    → IsTime b
    → not_positive (timeval_cmp a b) ≡ leb (instant a) (instant b)
cmp-not_positive a b h g = rw (cmp_exact a b h g) (ground arith)

pub cmp-not_negative :
    (a b : Timeval)
    → IsTime a
    → IsTime b
    → not_negative (timeval_cmp a b) ≡ leb (instant b) (instant a)
cmp-not_negative a b h g = rw (cmp_exact a b h g) (ground arith)

-- Each is no later than those behind it.
abbrev pub IsOrdered : (ℕ → Timeval) → List ℕ → Type 0
IsOrdered f [] = Unit
IsOrdered f (x ∷ xs) = All (λ y. instant (f x) ≤ instant (f y)) xs × IsOrdered f xs

pub All-le :
    (f : ℕ → Timeval) (n k : ℕ) (xs : List ℕ)
    → n ≤ k
    → All (λ y. k ≤ instant (f y)) xs
    → All (λ y. n ≤ instant (f y)) xs
All-le f n k [] h g = tt
All-le f n k (x ∷ xs) h g = let here = g.0 in (omega arith, All-le f n k xs h g.1)

pub All-insert :
    (P : ℕ → Type 0) (us vs : List ℕ) (t : ℕ) → P t → All P (us ++ vs) → All P (us ++ t ∷ vs)
All-insert P [] vs t h g = (h, g)
All-insert P (u ∷ us) vs t h g = (g.0, All-insert P us vs t h g.1)

-- A thread between those before it and those from its time on.
pub IsOrdered-insert :
    (f : ℕ → Timeval) (t : ℕ) (us vs : List ℕ)
    → All (λ u. instant (f u) ≤ instant (f t)) us
    → All (λ v. instant (f t) ≤ instant (f v)) vs
    → IsOrdered f (us ++ vs)
    → IsOrdered f (us ++ t ∷ vs)
IsOrdered-insert f t [] vs h g o = (g, o)
IsOrdered-insert f t (u ∷ us) vs h g o = (
  All-insert (λ y. instant (f u) ≤ instant (f y)) us vs t h.0 o.0,
  IsOrdered-insert f t us vs h.1 g o.1,
)

pub IsOrdered-from :
    (f : ℕ → Timeval) (n : ℕ) (us vs : List ℕ) (v : ℕ)
    → n ≤ instant (f v)
    → IsOrdered f (us ++ v ∷ vs)
    → All (λ y. n ≤ instant (f y)) (v ∷ vs)
IsOrdered-from f n [] vs v h o = (h, All-le f n (instant (f v)) vs h o.0)
IsOrdered-from f n (u ∷ us) vs v h o = IsOrdered-from f n us vs v h o.1

pub IsOrdered-same :
    (f g : ℕ → Timeval) (xs : List ℕ) → All (λ x. f x ≡ g x) xs → IsOrdered f xs → IsOrdered g xs
IsOrdered-same f g [] e o = tt
IsOrdered-same f g (x ∷ xs) e o = (others xs e.1 o.0, IsOrdered-same f g xs e.1 o.1)
  where
    others :
        (ys : List ℕ)
        → All (λ y. f y ≡ g y) ys
        → All (λ y. instant (f x) ≤ instant (f y)) ys
        → All (λ y. instant (g x) ≤ instant (g y)) ys
    others [] d o = tt
    others (y ∷ ys) d o = (
      subst (λ t. instant t ≤ instant (g y)) e.0 (subst (λ t. instant (f x) ≤ instant t) d.0 o.0),
      others ys d.1 o.1,
    )
