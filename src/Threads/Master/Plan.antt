-- ===== src/Threads/Master/Plan.antt =====
-- What `thread_fetch` of thread.c promises, on lists of threads: the specification of its rounds.
use vsecplat.Common.{ℕ, Bool, List, [], ◌∷◌, ◌++◌, Option, none, some, leb, if◌then◌else◌, ◌≡◌}
use vsecplat.Threads.Master.{
  reading, writing, timing, readied, unuse, Timeval, Infos, FdSet, ThreadMaster,
}
use vsecplat.Threads.Master.Rounds.{
  Selected, timeout, interrupted, broken, descriptors, Round, Fetched, fetched, null, waits,
}
use vsecplat.Threads.Master.Holds.{Queues, with, Holds}
use vsecplat.Threads.Master.Scan.{find}
use vsecplat.Threads.Master.Clock.{instant}
use vsecplat.Threads.Master.Process.{chosen, left_out, moved, untyped}

pub data Outcome : Type 0 where
  runs : ℕ → Outcome
  fails : Outcome
  stays : Outcome

-- The list without the first thread that passes the test.
abbrev pub without_first : (ℕ → Bool) → List ℕ → List ℕ
without_first test [] = []
without_first test (x ∷ xs) = if test x then xs else x ∷ without_first test xs

abbrev pub is_due : Infos → Timeval → ℕ → Bool
is_due infos now t = leb (instant (infos t).sands) (instant now)

-- Those that wait for one of the descriptors become ready: first the readers, then the writers.
abbrev pub wake : Infos → FdSet → FdSet → Queues → Queues
wake infos readfd writefd q =
    let reads = λ (t : ℕ). readfd (infos t).fd in
    let writes = λ (t : ℕ). writefd (infos t).fd in
    let q1 = moved reading (left_out reads (q reading)) (chosen reads (q reading)) q in
    moved writing (left_out writes (q writing)) (chosen writes (q writing)) q1

abbrev pub turn : Option ℕ → List ℕ → (ℕ → Bool) → Queues → Option (ℕ × Queues)
turn (some t) ready due q =
    some (t, with unuse (q unuse ++ t ∷ []) (with timing (without_first due (q timing)) q))
turn none (t ∷ rest) due q = some (t, with unuse (q unuse ++ t ∷ []) (with readied rest q))
turn none [] due q = none

abbrev pub continue_with : Infos → Selected → Queues → Option Queues
continue_with infos timeout q = some q
continue_with infos interrupted q = some q
continue_with infos broken q = none
continue_with infos (descriptors readfd writefd) q = some (wake infos readfd writefd q)

-- In each round the first timer that is due runs, or else the first thread that is ready, and is unused
-- from then on; where there is neither, those that wait for a descriptor that is reported are ready in
-- the next round.
abbrev pub plan : Infos → List Round → Queues → Outcome × Queues
plan infos [] q = (stays, q)
plan infos (round ∷ rounds) q =
    let due = is_due infos round.now in
    elim (turn (find due (q timing)) (q readied) due q) [
      | some (t, q') ↦ (runs t, q')
      | none ↦ elim (continue_with infos round.selected q) [
        | some q' ↦ plan infos rounds q'
        | none ↦ (fails, q)
      ]
    ]

-- The copy that is returned is that of the thread which runs.
abbrev pub Agrees : Infos → Fetched → Outcome → Type 0
Agrees infos (fetched copy) (runs t) = untyped copy ≡ untyped (infos t)
Agrees infos null fails = Unit
Agrees infos waits stays = Unit
Agrees infos _ _ = ⊥

pub record Follows (infos : Infos) (result : Fetched × ThreadMaster) (planned : Outcome × Queues)
    : Type 0 where
  pub outcome : Agrees infos result.0 planned.0
  pub holds : Holds result.1 planned.1
  pub same : (z : ℕ) → untyped (result.1.infos z) ≡ untyped (infos z)
