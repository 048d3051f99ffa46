-- ===== src/Threads/Master/Fetch.antt =====
-- About `thread_fetch` of thread.c, against its specification on lists.
use vsecplat.Common.{ℕ, Bool, List, [], ◌∷◌, Option, none, some, All}
use vsecplat.Common.{◌≡◌, refl, ◌∙◌, ap, subst, ◌⊎◌, inl, inr}
use mathlib.Core.Path.{fun_ext}
use vsecplat.Threads.Master.{
  Queue, reading, writing, readied, timing, Info, Infos, FdSet, ThreadMaster,
}
use vsecplat.Threads.Master.Rounds.{
  thread_process_fd, fetch_now, fetch_wait, thread_fetch, Selected, timeout, interrupted, broken,
  descriptors, Round,
}
use vsecplat.Threads.Master.Holds.{Queues, Holds}
use vsecplat.Threads.Master.Scan.{find}
use vsecplat.Threads.Master.Clock.{IsTime}
use vsecplat.Threads.Master.Process.{
  thread_process_fd-Holds, Waits, chosen, left_out, moved, untyped, thread_process_fd-untyped,
}
use vsecplat.Threads.Master.Plan.{is_due, wake, turn, continue_with, plan, Follows}
use vsecplat.Threads.Master.Turn.{Same, fetch_now-NowFollows, now_cases}

WaitFollows : Infos → Option ThreadMaster → Option Queues → Type 0
WaitFollows infos (some m) (some q) = Same infos m.infos × Holds m q
WaitFollows infos none none = Unit
WaitFollows infos _ _ = ⊥

process-wakes :
    (infos : Infos) (p : Queue) (fdset : FdSet) (m : ThreadMaster) (q : Queues)
    → Waits p
    → Same infos m.infos
    → Holds m q
    → let set = λ (t : ℕ). fdset (infos t).fd in
      Same infos (thread_process_fd p fdset m).infos
      × Holds (thread_process_fd p fdset m) (moved p (left_out set (q p)) (chosen set (q p)) q)
process-wakes infos p fdset m q w same h = (
  λ z. thread_process_fd-untyped p fdset m z ∙ same z,
  subst
      (λ (set : ℕ → Bool).
        Holds (thread_process_fd p fdset m) (moved p (left_out set (q p)) (chosen set (q p)) q))
      (fun_ext (λ t. ap (λ (i : Info). fdset i.fd) (same t)))
      (thread_process_fd-Holds p fdset m q w h),
)

fetch_wait-WaitFollows :
    (infos : Infos) (selected : Selected) (m : ThreadMaster) (q : Queues)
    → Same infos m.infos
    → Holds m q
    → WaitFollows infos (fetch_wait selected m) (continue_with infos selected q)
unfolding fetch_wait WaitFollows
fetch_wait-WaitFollows infos timeout m q same h = (same, h)
fetch_wait-WaitFollows infos interrupted m q same h = (same, h)
fetch_wait-WaitFollows infos broken m q same h = tt
fetch_wait-WaitFollows infos (descriptors readfd writefd) m q same h =
    let reads = λ (t : ℕ). readfd (infos t).fd in
    let (same1, held1) = process-wakes infos reading readfd m q tt same h in
    process-wakes infos writing writefd (thread_process_fd reading readfd m)
      (moved reading (left_out reads (q reading)) (chosen reads (q reading)) q) tt same1 held1

times_stay :
    (infos : Infos) (selected : Selected) (q q' : Queues)
    → continue_with infos selected q ≡ some q'
    → q timing ≡ q' timing
times_stay infos timeout q q' e = let same : q ≡ q' = cc in ap (λ (r : Queues). r timing) same
times_stay infos interrupted q q' e = let same : q ≡ q' = cc in ap (λ (r : Queues). r timing) same
times_stay infos broken q q' e = cc
times_stay infos (descriptors readfd writefd) q q' e =
    let same : wake infos readfd writefd q ≡ q' = cc in ap (λ (r : Queues). r timing) same

wait_cases :
    (infos : Infos) (n : Option ThreadMaster) (t : Option Queues)
    → WaitFollows infos n t
    → ((m : ThreadMaster) × (q : Queues) × (n ≡ some m)
        × (t ≡ some q)
        × Same infos m.infos
        × Holds m q)
      ⊎ ((n ≡ none) × (t ≡ none))
unfolding WaitFollows
wait_cases infos (some m) (some q) (same, h) = inl (m, q, refl, refl, same, h)
wait_cases infos none none f = inr (refl, refl)
wait_cases infos none (some t) f = elim f [ ]
wait_cases infos (some n) none f = elim f [ ]

-- Whatever the clock and `select` say, round by round, the thread that is returned is the one that the
-- specification runs, as a copy of what it held, its type aside; the call fails and waits as the
-- specification does; and the lists in memory are those of the specification. The times of the timers and
-- of the clock lie before 2038.
pub thread_fetch-Follows :
    (infos : Infos) (rounds : List Round) (m : ThreadMaster) (q : Queues)
    → ((z : ℕ) → untyped (m.infos z) ≡ untyped (infos z))
    → All (λ r. IsTime r.now) rounds
    → All (λ t. IsTime (infos t).sands) (q timing)
    → Holds m q
    → Follows infos (thread_fetch rounds m) (plan infos rounds q)
unfolding thread_fetch
thread_fetch-Follows infos [] m q same clock times h = record {
  outcome = tt;
  holds = h;
  same = same;
}
thread_fetch-Follows infos (round ∷ rounds) m q same clock times h =
    let due = is_due infos round.now in
    elim (now_cases infos (fetch_now round.now m) (turn (find due (q timing)) (q readied) due q)
      (fetch_now-NowFollows infos round.now m q same clock.0 times h)) [
        | inl (copy, m', x, q', e, f, copied, held, same') ↦
            rw (e, thread_fetch)
              (rw (f, plan) (record { outcome = copied; holds = held; same = same' }))
        | inr (e, f) ↦
            rw (e, thread_fetch)
              (rw (f, plan)
                (elim (wait_cases infos (fetch_wait round.selected m)
                  (continue_with infos round.selected q)
                  (fetch_wait-WaitFollows infos round.selected m q same h)) [
                    | inl (m', q', e', f', same', held) ↦
                        rw (e', f')
                          (thread_fetch-Follows infos rounds m' q' same' clock.1
                            (subst (λ xs. All (λ t. IsTime (infos t).sands) xs)
                              (times_stay infos round.selected q q' f') times)
                            held)
                    | inr (e', f') ↦ rw (e', f') (record { outcome = tt; holds = h; same = same })
                  ]))
      ]
