-- ===== src/Threads/Master/Scan.antt =====
-- About the loops of thread.c that look for a thread in a list.
use vsecplat.Common.{
  ℕ, zero, suc, ◌≤◌, Bool, true, false, List, [], ◌∷◌, ◌++◌, Option, none, some, All,
}
use vsecplat.Common.{◌≡◌, refl, ◌∙◌, ap, subst, arith, length, if◌then◌else◌, Bool-cases, inl, inr}
use vsecplat.Threads.{Memory, ThreadList}
use vsecplat.Threads.Segments.{first, IsSeg}
use vsecplat.Threads.Lists.{Represents}
use vsecplat.Threads.Master.{scan}

-- The first thread that passes the test.
abbrev pub find : (ℕ → Bool) → List ℕ → Option ℕ
find test [] = none
find test (x ∷ xs) = if test x then some x else find test xs

scan-find :
    (f : ℕ) (test : ℕ → Bool) (links : Memory) (before : Option ℕ) (xs : List ℕ)
    → IsSeg links before xs none
    → length xs ≤ f
    → scan f test links (first xs none) ≡ find test xs
unfolding scan
scan-find zero test links before [] seg enough = refl
scan-find (suc f) test links before [] seg enough = refl
scan-find zero test links before (x ∷ xs) seg enough = absurd (omega arith)
scan-find (suc f) test links before (x ∷ xs) seg enough = elim (Bool-cases (test x)) [
  | inl e ↦ rw e refl
  | inr e ↦
      rw e (ap (scan f test links) seg.1 ∙ scan-find f test links (some x) xs seg.2 (omega arith))
]

-- With the count of the list as fuel the loop finds it.
pub scan_lem :
    (list : ThreadList) (test : ℕ → Bool) (links : Memory) (xs : List ℕ)
    → Represents list links xs
    → scan list.count test links list.head ≡ find test xs
scan_lem list test links xs r =
    ap (scan list.count test links) r.at_head
    ∙ scan-find list.count test links none xs r.linked (omega (arith, r.counted))

-- Where it stands in the list, or that there is none.
pub record FoundAt (test : ℕ → Bool) (xs : List ℕ) (t : ℕ) : Type 0 where
  pub before : List ℕ
  pub behind : List ℕ
  pub whole : xs ≡ before ++ t ∷ behind
  pub passed : All (λ x. test x ≡ false) before
  pub at_it : test t ≡ true

pub find-FoundAt :
    (test : ℕ → Bool) (xs : List ℕ) (t : ℕ) → find test xs ≡ some t → FoundAt test xs t
find-FoundAt test [] t e = cc
find-FoundAt test (x ∷ xs) t e = elim (Bool-cases (test x)) [
  | inl yes_it ↦
      let it : x ≡ t = let found = rw yes_it at e in cc in
      record {
        before = [];
        behind = xs;
        whole = ap (λ (y : ℕ). y ∷ xs) it;
        passed = tt;
        at_it = subst (λ y. test y ≡ true) it yes_it;
      }
  | inr not_it ↦
      let rest = find-FoundAt test xs t (rw not_it at e) in
      record {
        before = x ∷ rest.before;
        behind = rest.behind;
        whole = ap (λ ys. x ∷ ys) rest.whole;
        passed = (not_it, rest.passed);
        at_it = rest.at_it;
      }
]

pub find-none : (test : ℕ → Bool) (xs : List ℕ) → find test xs ≡ none → All (λ x. test x ≡ false) xs
find-none test [] e = tt
find-none test (x ∷ xs) e = elim (Bool-cases (test x)) [
  | inl yes_it ↦ let found = rw yes_it at e in cc
  | inr not_it ↦ (not_it, find-none test xs (rw not_it at e))
]
