-- ===== src/Threads/Segments.antt =====
-- Chains of links, as the lists of thread.c leave them in memory.
use vsecplat.Common.{ℕ, true, false, List, [], ◌∷◌, ◌++◌, Option, some, All}
use vsecplat.Common.{◌==◌, ◌≡◌, ◌≢◌, refl, sym, ◌∙◌, ap, subst, arith}
use vsecplat.Threads.{Links, Memory, put, set_next, set_prev}

abbrev pub first : List ℕ → Option ℕ → Option ℕ
first [] after = after
first (x ∷ xs) after = some x

abbrev pub last : List ℕ → Option ℕ → Option ℕ
last [] before = before
last (x ∷ xs) before = last xs (some x)

-- The threads of the list are linked in their order, from `before` to `after`.
abbrev pub IsSeg : Memory → Option ℕ → List ℕ → Option ℕ → Type 0
IsSeg m before [] after = Unit
IsSeg m before (x ∷ xs) after =
    ((m x).prev ≡ before) × ((m x).next ≡ first xs after) × IsSeg m (some x) xs after

abbrev pub IsApart : ℕ → List ℕ → Type 0
IsApart p xs = All (λ x. p ≢ x) xs

abbrev pub IsDistinct : List ℕ → Type 0
IsDistinct [] = Unit
IsDistinct (x ∷ xs) = IsApart x xs × IsDistinct xs

pub first-append :
    (xs ys : List ℕ) (after : Option ℕ) → first (xs ++ ys) after ≡ first xs (first ys after)
first-append [] ys after = refl
first-append (x ∷ xs) ys after = refl

pub last-append :
    (xs ys : List ℕ) (before : Option ℕ) → last (xs ++ ys) before ≡ last ys (last xs before)
last-append [] ys before = refl
last-append (x ∷ xs) ys before = last-append xs ys (some x)

-- A write to a thread that is not in the segment.
pub IsSeg-put :
    (p : ℕ) (l : Links) (m : Memory) (before : Option ℕ) (xs : List ℕ) (after : Option ℕ)
    → IsApart p xs
    → IsSeg m before xs after
    → IsSeg (put p l m) before xs after
IsSeg-put p l m before [] after h seg = tt
IsSeg-put p l m before (x ∷ xs) after h seg =
    let other : (p == x) ≡ false = let away = h.0 in ground (arith, away) in
    (rw other seg.0, rw other seg.1, IsSeg-put p l m (some x) xs after h.1 seg.2)

pub IsSeg-split :
    (m : Memory) (before : Option ℕ) (xs ys : List ℕ) (after : Option ℕ)
    → IsSeg m before (xs ++ ys) after
    → IsSeg m before xs (first ys after) × IsSeg m (last xs before) ys after
IsSeg-split m before [] ys after seg = (tt, seg)
IsSeg-split m before (x ∷ xs) ys after seg =
    let rest = IsSeg-split m (some x) xs ys after seg.2 in
    ((seg.0, seg.1 ∙ first-append xs ys after, rest.0), rest.1)

pub IsSeg-append :
    (m : Memory) (before : Option ℕ) (xs ys : List ℕ) (after : Option ℕ)
    → IsSeg m before xs (first ys after)
    → IsSeg m (last xs before) ys after
    → IsSeg m before (xs ++ ys) after
IsSeg-append m before [] ys after h g = g
IsSeg-append m before (x ∷ xs) ys after h g =
    (h.0, h.1 ∙ sym (first-append xs ys after), IsSeg-append m (some x) xs ys after h.2 g)

pub IsSeg-set_prev :
    (v : Option ℕ) (m : Memory) (before : Option ℕ) (x : ℕ) (xs : List ℕ) (after : Option ℕ)
    → IsApart x xs
    → IsSeg m before (x ∷ xs) after
    → IsSeg (set_prev x v m) v (x ∷ xs) after
IsSeg-set_prev v m before x xs after h seg =
    let same : (x == x) ≡ true = ground arith in
    (rw same refl, rw same seg.1, IsSeg-put x _ m (some x) xs after h seg.2)

-- The last thread is one of them.
last-apart : (q p x : ℕ) (xs : List ℕ) → IsApart q (x ∷ xs) → last xs (some x) ≡ some p → q ≢ p
last-apart q p x [] h e = let same : x ≡ p = cc in subst (λ n. q ≢ n) same h.0
last-apart q p x (y ∷ xs) h e = last-apart q p y xs h.1 e

pub IsSeg-set_next :
    (p : ℕ) (v : Option ℕ) (m : Memory) (before : Option ℕ) (x : ℕ) (xs : List ℕ) (after : Option ℕ)
    → IsDistinct (x ∷ xs)
    → last xs (some x) ≡ some p
    → IsSeg m before (x ∷ xs) after
    → IsSeg (set_next p v m) before (x ∷ xs) v
IsSeg-set_next p v m before x [] after h e seg =
    let same : (p == x) ≡ true = let q : x ≡ p = cc in ground (arith, q) in
    let here : p ≡ x = ground (arith, same) in
    (rw same (ap (λ n. (m n).prev) here ∙ seg.0), rw same refl, tt)
IsSeg-set_next p v m before x (y ∷ xs) after h e seg =
    let away = last-apart x p y xs h.0 e in
    let other : (p == x) ≡ false = ground (arith, away) in
    (rw other seg.0, rw other seg.1, IsSeg-set_next p v m (some x) y xs after h.1 e seg.2)
