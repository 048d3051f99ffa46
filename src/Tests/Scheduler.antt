-- ===== src/Tests/Scheduler.antt =====
-- A scheduler with four threads at samples: one that reads, two timers and an unused one.
use vsecplat.Common.{
  ℕ, true, false, List, All, ◌≢◌, [], ◌∷◌, none, some, ◌==◌, ◌≡◌, if◌then◌else◌, refl, arith,
  length,
}
use vsecplat.Threads.{Memory, ThreadList}
use vsecplat.Threads.Master.{
  read, timer, unused, Queue, reading, writing, timing, readied, unuse, Timeval, Infos,
  ThreadMaster, thread_master_create, thread_add_read, thread_add_timer, thread_cancel,
}
use vsecplat.Threads.Master.Rounds.{descriptors, timeout, Round, thread_fetch}
use vsecplat.Threads.Master.Holds.{Queues, with, type_of, Holds}
use vsecplat.Threads.Segments.{first, last, IsSeg, IsDistinct}
use vsecplat.Threads.Master.Add.{Joined, thread_add_read-Joined}
use vsecplat.Threads.Master.Cancel.{Retired, thread_cancel-Holds, thread_cancel_timer}
use vsecplat.Threads.Master.Timer.{HasTimers, Inserted, thread_add_timer-Inserted}
use vsecplat.Threads.Master.Plan.{plan, Follows}
use vsecplat.Threads.Master.Sound.{IsSound}
use vsecplat.Threads.Master.Reach.{IsNew, created, next, adds_reader, fetches, Reach-IsSound}
use vsecplat.Threads.Master.Fetch.{thread_fetch-Follows}

abbrev at_second : ℕ → Timeval
at_second n = record { tv_sec = n; tv_usec = 0 }

abbrev info : Infos
info t =
    if t == 1
    then record { type = read; func = 10; arg = 0; fd = 4; sands = at_second 0 }
    else (if t == 2
        then record { type = timer; func = 20; arg = 0; fd = 0; sands = at_second 100 }
        else (if t == 3
            then record { type = timer; func = 30; arg = 0; fd = 0; sands = at_second 200 }
            else record { type = unused; func = 0; arg = 0; fd = 0; sands = at_second 0 }))

abbrev link : Memory
link t =
    if t == 2
    then record { next = some 3; prev = none }
    else (if t == 3
        then record { next = none; prev = some 2 }
        else record { next = none; prev = none })

abbrev sample_list : Queue → ThreadList
sample_list reading = record { head = some 1; tail = some 1; count = 1 }
sample_list writing = record { head = none; tail = none; count = 0 }
sample_list timing = record { head = some 2; tail = some 3; count = 2 }
sample_list readied = record { head = none; tail = none; count = 0 }
sample_list unuse = record { head = some 4; tail = some 4; count = 1 }

abbrev scheduler : ThreadMaster
scheduler = record {
  lists = sample_list;
  readfd = λ fd. fd == 4;
  writefd = λ fd. false;
  alloc = 4;
  links = link;
  infos = info;
}

abbrev sample_queues : Queues
sample_queues reading = 1 ∷ []
sample_queues writing = []
sample_queues timing = 2 ∷ 3 ∷ []
sample_queues readied = []
sample_queues unuse = 4 ∷ []

abbrev LinkedDistinct : Queue → Type 0
LinkedDistinct p = IsSeg link none (sample_queues p) none × IsDistinct (sample_queues p)

in_memory : (p : Queue) → LinkedDistinct p
in_memory reading = ((refl, refl, tt), (tt, tt))
in_memory writing = (tt, tt)
in_memory timing = ((refl, refl, (refl, refl, tt)), (omega arith, omega arith))
in_memory readied = (tt, tt)
in_memory unuse = ((refl, refl, tt), (tt, tt))

headed : (p : Queue) → (sample_list p).head ≡ first (sample_queues p) none
headed reading = refl
headed writing = refl
headed timing = refl
headed readied = refl
headed unuse = refl

tailed : (p : Queue) → (sample_list p).tail ≡ last (sample_queues p) none
tailed reading = refl
tailed writing = refl
tailed timing = refl
tailed readied = refl
tailed unuse = refl

counted : (p : Queue) → (sample_list p).count ≡ length (sample_queues p)
counted reading = refl
counted writing = refl
counted timing = refl
counted readied = refl
counted unuse = refl

typed : (p : Queue) → All (λ t. (info t).type ≡ type_of p) (sample_queues p)
typed reading = (refl, tt)
typed writing = tt
typed timing = (refl, (refl, tt))
typed readied = tt
typed unuse = (refl, tt)

scheduler-Holds : Holds scheduler sample_queues
scheduler-Holds = record {
  represents = λ p. record {
    at_head = headed p;
    at_tail = tailed p;
    counted = counted p;
    linked = (in_memory p).0;
    distinct = (in_memory p).1;
  };
  typed = typed;
}

loose : (p : Queue) → All (λ t. 9 ≢ t) (sample_queues p)
loose reading = omega arith
loose writing = tt
loose timing = omega arith
loose readied = tt
loose unuse = omega arith

timers : HasTimers info (2 ∷ 3 ∷ [])
timers = record {
  ordered = omega arith;
  times = (
    record { seconds = omega arith; micros = omega arith },
    (record { seconds = omega arith; micros = omega arith }, tt),
  );
}

thread_add_read-Joined_example :
    (scheduler.readfd 5 ≡ false
      → Joined reading 9 40 0 5 scheduler sample_queues (thread_add_read 9 40 0 5 scheduler)
        × ((thread_add_read 9 40 0 5 scheduler).1.readfd 5 ≡ true))
    × (scheduler.readfd 5 ≡ true → thread_add_read 9 40 0 5 scheduler ≡ (none, scheduler))
thread_add_read-Joined_example =
    thread_add_read-Joined 9 40 0 5 scheduler sample_queues scheduler-Holds loose

thread_add_timer-Inserted_example :
    ((thread_add_timer 9 50 0 60 (at_second 90) scheduler).0 ≡ 4)
    × Inserted sample_queues 4
        (record { type = timer; func = 50; arg = 0; fd = 0; sands = at_second 150 })
        (with unuse [] sample_queues)
        (thread_add_timer 9 50 0 60 (at_second 90) scheduler).1
thread_add_timer-Inserted_example =
    thread_add_timer-Inserted 9 50 0 60 (at_second 90) scheduler sample_queues scheduler-Holds loose
      timers (record { seconds = omega arith; micros = omega arith })

thread_cancel-Holds_example :
    Holds
      (thread_cancel (some 1) scheduler)
      (with unuse (4 ∷ 1 ∷ []) (with reading [] sample_queues))
thread_cancel-Holds_example =
    thread_cancel-Holds reading 1 [] [] scheduler sample_queues tt refl scheduler-Holds

thread_cancel_timer_example :
    ((thread_cancel (some 2) scheduler).lists timing).head ≡ some 2
    × Retired 2 sample_queues scheduler (thread_cancel (some 2) scheduler)
    × ((q' : Queues) → ¬ (Holds (thread_cancel (some 2) scheduler) q'))
thread_cancel_timer_example =
    thread_cancel_timer 2 (3 ∷ []) scheduler sample_queues refl scheduler-Holds

abbrev rounds : List Round
rounds =
    record { now = at_second 50; selected = timeout }
    ∷ record { now = at_second 60; selected = descriptors (λ fd. fd == 4) (λ fd. false) }
    ∷ record { now = at_second 61; selected = timeout }
    ∷ []

thread_fetch-Follows_example :
    Follows info (thread_fetch rounds scheduler) (plan info rounds sample_queues)
thread_fetch-Follows_example =
    thread_fetch-Follows info rounds scheduler sample_queues (λ z. refl)
      (
        record { seconds = omega arith; micros = omega arith },
        (
          record { seconds = omega arith; micros = omega arith },
          (record { seconds = omega arith; micros = omega arith }, tt),
        ),
      )
      timers.times scheduler-Holds

-- A new scheduler has no list with a thread.
IsNew-thread_master_create : IsNew 5 thread_master_create
unfolding thread_master_create
IsNew-thread_master_create q h p = apart (q p) (h.represents p).at_head
  where
    apart : (xs : List ℕ) → none ≡ first xs none → All (λ x. 5 ≢ x) xs
    apart [] e = tt
    apart (x ∷ xs) e = cc

Reach-IsSound_example :
    IsSound (thread_fetch rounds (thread_add_read 5 20 0 4 thread_master_create).1).1
Reach-IsSound_example =
    Reach-IsSound (thread_fetch rounds (thread_add_read 5 20 0 4 thread_master_create).1).1 (
      next (next created (adds_reader 5 20 0 4 IsNew-thread_master_create)) (
        fetches rounds (
          record { seconds = omega arith; micros = omega arith },
          (
            record { seconds = omega arith; micros = omega arith },
            (record { seconds = omega arith; micros = omega arith }, tt),
          ),
        )))
