-- ===== src/Threads/Master/Turn.antt =====
-- About the threads that `thread_fetch` of thread.c can run at once.
use vsecplat.Common.{ℕ, Bool, true, false, List, [], ◌∷◌, ◌++◌, Option, none, some, All}
use vsecplat.Common.{
  ◌==◌, ◌≡◌, refl, sym, ◌∙◌, ap, subst, if◌then◌else◌, ◌⊎◌, inl, inr, Bool-cases, arith,
}
use vsecplat.Threads.Master.{
  readied, unuse, timing, Timeval, timeval_cmp, not_negative, Info, Infos, ThreadMaster, add_to,
  delete_from, set_type, unused,
}
use vsecplat.Threads.Master.Rounds.{thread_run, fetch_timer, run_first, fetch_now}
use vsecplat.Threads.Master.Holds.{Queues, with, Holds}
use vsecplat.Threads.Master.Moves.{delete_from-Holds}
use vsecplat.Threads.Master.Get.{trim_reused, trim_empty}
use vsecplat.Threads.Master.Cancel.{retire-Holds}
use vsecplat.Threads.Master.Scan.{find, scan_lem, find-FoundAt}
use vsecplat.Threads.Master.Clock.{IsTime, cmp-not_negative}
use vsecplat.Threads.Master.Process.{untyped}
use vsecplat.Threads.Master.Plan.{without_first, is_due, turn}

-- The threads hold what they held, but for their types.
abbrev pub Same : Infos → Infos → Type 0
Same infos infos' = (z : ℕ) → untyped (infos' z) ≡ untyped (infos z)

find-same :
    (test test' : ℕ → Bool) (xs : List ℕ)
    → All (λ x. test x ≡ test' x) xs
    → find test xs ≡ find test' xs
find-same test test' [] e = refl
find-same test test' (x ∷ xs) e =
    rw e.0 (ap (λ r. if test' x then some x else r) (find-same test test' xs e.1))

due_at :
    (infos infos' : Infos) (now : Timeval) (xs : List ℕ)
    → Same infos infos'
    → IsTime now
    → All (λ x. IsTime (infos x).sands) xs
    → All (λ x. not_negative (timeval_cmp now (infos' x).sands) ≡ is_due infos now x) xs
due_at infos infos' now [] same clock times = tt
due_at infos infos' now (x ∷ xs) same clock times = (
  ap (λ (i : Info). not_negative (timeval_cmp now i.sands)) (same x)
      ∙ cmp-not_negative now (infos x).sands clock times.0,
  due_at infos infos' now xs same clock times.1,
)

-- The loop over the timers finds the first that is due.
fetch_timer-find :
    (infos : Infos) (now : Timeval) (m : ThreadMaster) (q : Queues)
    → Same infos m.infos
    → IsTime now
    → All (λ x. IsTime (infos x).sands) (q timing)
    → Holds m q
    → fetch_timer now m ≡ find (is_due infos now) (q timing)
fetch_timer-find infos now m q same clock times h =
    scan_lem (m.lists timing) _ m.links (q timing) (h.represents timing)
    ∙ find-same _ _ (q timing) (due_at infos m.infos now (q timing) same clock times)

without-FoundAt :
    (test : ℕ → Bool) (us vs : List ℕ) (t : ℕ)
    → All (λ x. test x ≡ false) us
    → test t ≡ true
    → without_first test (us ++ t ∷ vs) ≡ us ++ vs
without-FoundAt test [] vs t passed at_it = rw at_it refl
without-FoundAt test (u ∷ us) vs t passed at_it =
    rw passed.0 (ap (λ xs. u ∷ xs) (without-FoundAt test us vs t passed.1 at_it))

-- The thread runs, and is unused.
run_timer :
    (due : ℕ → Bool) (t : ℕ) (m : ThreadMaster) (q : Queues)
    → find due (q timing) ≡ some t
    → Holds m q
    → Holds
        (thread_run t (delete_from timing t m)).1
        (with unuse (q unuse ++ t ∷ []) (with timing (without_first due (q timing)) q))
unfolding thread_run
run_timer due t m q e h =
    let at = find-FoundAt due (q timing) t e in
    let left = delete_from-Holds timing t at.before at.behind m q at.whole h in
    let timers =
      ap (without_first due) at.whole
      ∙ without-FoundAt due at.before at.behind t at.passed at.at_it in
    subst
      (λ xs.
        Holds (add_to unuse t (set_type t unused (delete_from timing t m)))
          (with unuse (q unuse ++ t ∷ []) (with timing xs q)))
      (sym timers)
      (retire-Holds t (delete_from timing t m) (with timing (at.before ++ at.behind) q) left.0
        left.1)

run_readied :
    (t : ℕ) (rest : List ℕ) (m : ThreadMaster) (q : Queues)
    → q readied ≡ t ∷ rest
    → Holds m q
    → Holds
        (thread_run t (delete_from readied t m)).1
        (with unuse (q unuse ++ t ∷ []) (with readied rest q))
unfolding thread_run
run_readied t rest m q e h =
    let left = delete_from-Holds readied t [] rest m q e h in
    retire-Holds t (delete_from readied t m) (with readied rest q) left.0 left.1

-- Only its type changes.
pub retyped :
    (t z : ℕ) (m : ThreadMaster) → untyped ((set_type t unused m).infos z) ≡ untyped (m.infos z)
retyped t z m = elim (Bool-cases (t == z)) [
  | inl e ↦ let it : t ≡ z = ground (arith, e) in rw e (ap (λ y. untyped (m.infos y)) it)
  | inr e ↦ rw e refl
]

-- One round, up to the wait.
pub NowFollows : Infos → Option (Info × ThreadMaster) → Option (ℕ × Queues) → Type 0
NowFollows infos (some (copy, m)) (some (t, q)) =
    (untyped copy ≡ untyped (infos t)) × Holds m q × Same infos m.infos
NowFollows infos none none = Unit
NowFollows infos _ _ = ⊥

pub fetch_now-NowFollows :
    (infos : Infos) (now : Timeval) (m : ThreadMaster) (q : Queues)
    → Same infos m.infos
    → IsTime now
    → All (λ x. IsTime (infos x).sands) (q timing)
    → Holds m q
    → NowFollows infos
        (fetch_now now m)
        (turn (find (is_due infos now) (q timing)) (q readied) (is_due infos now) q)
unfolding fetch_now NowFollows thread_run
fetch_now-NowFollows infos now m q same clock times h =
    rw (fetch_timer-find infos now m q same clock times h)
      (by_timer (find due (q timing)) (q readied) refl refl)
  where
    due : ℕ → Bool
    due = is_due infos now

    by_timer :
        (r : Option ℕ) (xs : List ℕ)
        → find (is_due infos now) (q timing) ≡ r
        → q readied ≡ xs
        → NowFollows infos (run_first r m) (turn r xs (is_due infos now) q)
    by_timer (some t) xs e f =
        (same t, run_timer (is_due infos now) t m q e h, λ z. retyped t z m ∙ same z)
    by_timer none (t ∷ rest) e f =
        rw (trim_reused readied m q t rest h f)
          (same t, run_readied t rest m q f h, λ z. retyped t z m ∙ same z)
    by_timer none [] e f = rw (trim_empty readied m q h f) tt

pub now_cases :
    (infos : Infos) (n : Option (Info × ThreadMaster)) (t : Option (ℕ × Queues))
    → NowFollows infos n t
    → ((copy : Info) × (m : ThreadMaster) × (x : ℕ) × (q : Queues) × (n ≡ some (copy, m))
        × (t ≡ some (x, q))
        × (untyped copy ≡ untyped (infos x))
        × Holds m q
        × Same infos m.infos)
      ⊎ ((n ≡ none) × (t ≡ none))
unfolding NowFollows
now_cases infos (some (copy, m)) (some (x, q)) (e, h, same) =
    inl (copy, m, x, q, refl, refl, e, h, same)
now_cases infos none none f = inr (refl, refl)
now_cases infos none (some t) f = elim f [ ]
now_cases infos (some n) none f = elim f [ ]
