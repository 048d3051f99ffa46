-- ===== src/Threads/Master/Reach.antt =====
-- About what the calls of thread.c can make of a scheduler, one after the other.
use vsecplat.Common.{ℕ, ◌+◌, ◌≤◌, Bool, List, [], ◌∷◌, ◌++◌, Option, none, some, All}
use vsecplat.Common.{◌≡◌, ◌⊎◌, inl, inr, refl, subst, Bool-cases}
use vsecplat.Threads.Master.{
  Queue, timing, readied, unuse, Timeval, Infos, ThreadMaster, thread_master_create,
  thread_add_read, thread_add_write, thread_add_timer, thread_cancel,
}
use vsecplat.Threads.Master.Rounds.{
  Selected, timeout, interrupted, broken, descriptors, Round, thread_fetch,
}
use vsecplat.Threads.Master.Holds.{Queues, with, Holds, IsLoose}
use vsecplat.Threads.Master.Cancel.{CanCancel}
use vsecplat.Threads.Master.Clock.{IsTime, instant, IsOrdered}
use vsecplat.Threads.Master.Timer.{sands_of, HasTimers}
use vsecplat.Threads.Master.Scan.{find}
use vsecplat.Threads.Master.Plan.{plan, turn, is_due, without_first, continue_with, wake}
use vsecplat.Threads.Master.Fetch.{thread_fetch-Follows}
use vsecplat.Threads.Master.Sound.{
  IsSound, HasTimers-same, sands-untyped, thread_master_create-IsSound, thread_add_read-IsSound,
  thread_add_write-IsSound, thread_add_timer-IsSound, thread_cancel-IsSound,
}

All-without_first :
    (P : ℕ → Type 0) (test : ℕ → Bool) (xs : List ℕ) → All P xs → All P (without_first test xs)
All-without_first P test [] h = tt
All-without_first P test (x ∷ xs) h = elim (Bool-cases (test x)) [
  | inl e ↦ rw e h.1
  | inr e ↦ rw e (h.0, All-without_first P test xs h.1)
]

IsOrdered-without_first :
    (f : ℕ → Timeval) (test : ℕ → Bool) (xs : List ℕ)
    → IsOrdered f xs
    → IsOrdered f (without_first test xs)
IsOrdered-without_first f test [] o = tt
IsOrdered-without_first f test (x ∷ xs) o = elim (Bool-cases (test x)) [
  | inl e ↦ rw e o.1
  | inr e ↦ rw e (
    All-without_first (λ y. instant (f x) ≤ instant (f y)) test xs o.0,
    IsOrdered-without_first f test xs o.1,
  )
]

HasTimers-without_first :
    (infos : Infos) (test : ℕ → Bool) (xs : List ℕ)
    → HasTimers infos xs
    → HasTimers infos (without_first test xs)
HasTimers-without_first infos test xs h = record {
  ordered = IsOrdered-without_first (sands_of infos) test xs h.ordered;
  times = All-without_first (λ x. IsTime (sands_of infos x)) test xs h.times;
}

turn-HasTimers :
    (infos : Infos) (r : Option ℕ) (xs : List ℕ) (due : ℕ → Bool) (q : Queues) (t : ℕ) (q' : Queues)
    → turn r xs due q ≡ some (t, q')
    → HasTimers infos (q timing)
    → HasTimers infos (q' timing)
turn-HasTimers infos (some x) xs due q t q' e h =
    let left : with unuse (q unuse ++ x ∷ []) (with timing (without_first due (q timing)) q) ≡ q' =
      cc in
    subst (λ (r : Queues). HasTimers infos (r timing)) left
      (HasTimers-without_first infos due (q timing) h)
turn-HasTimers infos none (x ∷ rest) due q t q' e h =
    let left : with unuse (q unuse ++ x ∷ []) (with readied rest q) ≡ q' = cc in
    subst (λ (r : Queues). HasTimers infos (r timing)) left h
turn-HasTimers infos none [] due q t q' e h = cc

continue_with-HasTimers :
    (infos : Infos) (selected : Selected) (q q' : Queues)
    → continue_with infos selected q ≡ some q'
    → HasTimers infos (q timing)
    → HasTimers infos (q' timing)
continue_with-HasTimers infos timeout q q' e h =
    let same : q ≡ q' = cc in subst (λ (r : Queues). HasTimers infos (r timing)) same h
continue_with-HasTimers infos interrupted q q' e h =
    let same : q ≡ q' = cc in subst (λ (r : Queues). HasTimers infos (r timing)) same h
continue_with-HasTimers infos broken q q' e h = cc
continue_with-HasTimers infos (descriptors readfd writefd) q q' e h =
    let same : wake infos readfd writefd q ≡ q' = cc in
    subst (λ (r : Queues). HasTimers infos (r timing)) same h

option_cases {ℓ} : {A : Type ℓ} (o : Option A) → ((x : A) × (o ≡ some x)) ⊎ (o ≡ none)
option_cases none = inr refl
option_cases (some x) = inl (x, refl)

-- The plan keeps the order of the timers.
plan-HasTimers :
    (infos : Infos) (rounds : List Round) (q : Queues)
    → HasTimers infos (q timing)
    → HasTimers infos ((plan infos rounds q).1 timing)
plan-HasTimers infos [] q h = h
plan-HasTimers infos (round ∷ rounds) q h =
    let due = is_due infos round.now in
    elim (option_cases (turn (find due (q timing)) (q readied) due q)) [
      | inl (r, e) ↦
          rw (e, plan) (turn-HasTimers infos (find due (q timing)) (q readied) due q r.0 r.1 e h)
      | inr e ↦
          rw (e, plan)
            (elim (option_cases (continue_with infos round.selected q)) [
              | inl (q', f) ↦ rw f (
                  plan-HasTimers infos rounds q'
                    (continue_with-HasTimers infos round.selected q q' f h))
              | inr f ↦ rw f h
            ])
    ]

thread_fetch-IsSound :
    (rounds : List Round) (m : ThreadMaster)
    → IsSound m
    → All (λ r. IsTime r.now) rounds
    → IsSound (thread_fetch rounds m).1
thread_fetch-IsSound rounds m s clock =
    let f =
      thread_fetch-Follows m.infos rounds m s.queues (λ z. refl) clock s.timers.times s.holds in
    record {
      queues = (plan m.infos rounds s.queues).1;
      holds = f.holds;
      timers =
          HasTimers-same m.infos (thread_fetch rounds m).1.infos
            ((plan m.infos rounds s.queues).1 timing)
            (sands-untyped m.infos (thread_fetch rounds m).1.infos _ f.same)
            (plan-HasTimers m.infos rounds s.queues s.timers);
    }

-- The address is in none of the lists that memory holds.
abbrev pub IsNew : ℕ → ThreadMaster → Type 0
IsNew fresh m = (q : Queues) → Holds m q → IsLoose fresh q

-- The thread is in a list from which it can be cancelled.
abbrev pub Waits : ℕ → ThreadMaster → Type 0
Waits t m =
    (p : Queue) × CanCancel p
    × ((q : Queues) → Holds m q → (us : List ℕ) × (vs : List ℕ) × (q p ≡ us ++ t ∷ vs))

-- A call, with a new address for a thread and times before 2038.
pub data Step (m : ThreadMaster) : ThreadMaster → Type 0 where
  adds_reader :
      (fresh func arg fd : ℕ) → IsNew fresh m → Step m (thread_add_read fresh func arg fd m).1
  adds_writer :
      (fresh func arg fd : ℕ) → IsNew fresh m → Step m (thread_add_write fresh func arg fd m).1
  adds_timer :
      (fresh func arg seconds : ℕ) (now : Timeval)
      → IsNew fresh m
      → IsTime (record now { tv_sec = now.tv_sec + seconds })
      → Step m (thread_add_timer fresh func arg seconds now m).1
  cancels : (t : ℕ) → Waits t m → Step m (thread_cancel (some t) m)
  fetches :
      (rounds : List Round) → All (λ r. IsTime r.now) rounds → Step m (thread_fetch rounds m).1

pub data Reach : ThreadMaster → Type 0 where
  created : Reach thread_master_create
  next : {m n : ThreadMaster} → Reach m → Step m n → Reach n

Step-IsSound : {m n : ThreadMaster} → Step m n → IsSound m → IsSound n
Step-IsSound {m} (adds_reader fresh func arg fd new) s =
    thread_add_read-IsSound fresh func arg fd m s (new s.queues s.holds)
Step-IsSound {m} (adds_writer fresh func arg fd new) s =
    thread_add_write-IsSound fresh func arg fd m s (new s.queues s.holds)
Step-IsSound {m} (adds_timer fresh func arg seconds now new clock) s =
    thread_add_timer-IsSound fresh func arg seconds now m s (new s.queues s.holds) clock
Step-IsSound {m} (cancels t (p, can, among)) s =
    let (us, vs, e) = among s.queues s.holds in thread_cancel-IsSound p t us vs m s can e
Step-IsSound {m} (fetches rounds clock) s = thread_fetch-IsSound rounds m s clock

-- Whatever is added, waited for and, timers apart, cancelled, in whatever order, from the start of the
-- scheduler on, its lists stay sound: linked in memory in both directions, apart from one another, each of
-- threads of its type, and the timers in the order of their times. Addresses of new threads are in no list,
-- and times lie before 2038.
pub Reach-IsSound : (m : ThreadMaster) → Reach m → IsSound m
Reach-IsSound _ created = thread_master_create-IsSound
Reach-IsSound _ (next r step) = Step-IsSound step (Reach-IsSound _ r)
