-- ===== src/Threads/Master/Timer.antt =====
-- About `thread_add_timer` of thread.c: the order of the timers.
use vsecplat.Common.{
  ℕ, ◌+◌, ◌≤◌, ◌<◌, Bool, true, false, List, [], ◌∷◌, ◌++◌, Option, none, some, All,
}
use vsecplat.Common.{◌≡◌, refl, sym, ◌∙◌, ap, subst, arith, leb, ◌==◌, append-nil}
use vsecplat.Threads.Segments.{IsApart}
use vsecplat.Threads.Master.{
  timer, timing, unuse, Timeval, timeval_cmp, not_positive, Info, Infos, put_info, ThreadMaster,
  thread_get, timer_behind, place, thread_add_timer,
}
use vsecplat.Threads.Master.Holds.{Queues, with, Holds, IsLoose, add_to-Holds}
use vsecplat.Threads.Master.Moves.{put_info-Holds, add_before-Holds}
use vsecplat.Threads.Master.Get.{taken, new_info, put_info_self, thread_get-Got}
use vsecplat.Threads.Master.Scan.{find, scan_lem, FoundAt, find-FoundAt, find-none}
use vsecplat.Threads.Master.Clock.{
  IsTime, instant, All-insert, cmp-not_positive, IsOrdered, IsOrdered-insert, IsOrdered-from,
  IsOrdered-same,
}

abbrev pub sands_of : Infos → ℕ → Timeval
sands_of infos t = (infos t).sands

-- The timers of a scheduler: times of the clock, in their order.
pub record HasTimers (infos : Infos) (xs : List ℕ) : Type 0 where
  pub ordered : IsOrdered (sands_of infos) xs
  pub times : All (λ x. IsTime (sands_of infos x)) xs

put_info-apart :
    (t : ℕ) (i : Info) (infos : Infos) (xs : List ℕ)
    → IsApart t xs
    → All (λ x. (infos x).sands ≡ (put_info t i infos x).sands) xs
put_info-apart t i infos [] h = tt
put_info-apart t i infos (x ∷ xs) h =
    let other : (t == x) ≡ false = let no = h.0 in ground (arith, no) in
    (rw other refl, put_info-apart t i infos xs h.1)

pub times-same :
    (f g : ℕ → Timeval) (xs : List ℕ)
    → All (λ x. f x ≡ g x) xs
    → All (λ x. IsTime (f x)) xs
    → All (λ x. IsTime (g x)) xs
times-same f g [] e h = tt
times-same f g (x ∷ xs) e h = (subst IsTime e.0 h.0, times-same f g xs e.1 h.1)

-- A write to a thread in no list leaves the timers alone.
pub put_info-HasTimers :
    (t : ℕ) (i : Info) (infos : Infos) (xs : List ℕ)
    → IsApart t xs
    → HasTimers infos xs
    → HasTimers (put_info t i infos) xs
put_info-HasTimers t i infos xs h timers =
    let e = put_info-apart t i infos xs h in
    record {
      ordered = IsOrdered-same _ _ xs e timers.ordered;
      times = times-same _ _ xs e timers.times;
    }

-- What the test of the loop says of the threads that it passes over.
passed_over :
    (f : ℕ → Timeval) (new : Timeval) (us vs : List ℕ)
    → IsTime new
    → All (λ x. IsTime (f x)) (us ++ vs)
    → All (λ x. not_positive (timeval_cmp new (f x)) ≡ false) us
    → All (λ u. instant (f u) < instant new) us
passed_over f new [] vs h times g = tt
passed_over f new (u ∷ us) vs h times g =
    let late : leb (instant new) (instant (f u)) ≡ false =
      sym (cmp-not_positive new (f u) h times.0) ∙ g.0 in
    (ground (arith, late), passed_over f new us vs h times.1 g.1)

All-weaken :
    (f : ℕ → Timeval) (n : ℕ) (us : List ℕ)
    → All (λ u. instant (f u) < n) us
    → All (λ u. instant (f u) ≤ n) us
All-weaken f n [] h = tt
All-weaken f n (u ∷ us) h = let here = h.0 in (omega arith, All-weaken f n us h.1)

IsTime-at :
    (f : ℕ → Timeval) (us vs : List ℕ) (t : ℕ)
    → All (λ x. IsTime (f x)) (us ++ t ∷ vs)
    → IsTime (f t)
IsTime-at f [] vs t h = h.0
IsTime-at f (u ∷ us) vs t h = IsTime-at f us vs t h.1

-- The place of a new timer among the others: behind those that are due strictly earlier, and before
-- those that are due at its time or later.
pub record Inserted (q : Queues) (t : ℕ) (i : Info) (left : Queues) (m : ThreadMaster)
    : Type 0 where
  pub before : List ℕ
  pub behind : List ℕ
  pub whole : q timing ≡ before ++ behind
  pub holds : Holds m (with timing (before ++ t ∷ behind) left)
  pub ordered : IsOrdered (sands_of m.infos) (before ++ t ∷ behind)
  pub times : All (λ x. IsTime (sands_of m.infos x)) (before ++ t ∷ behind)
  pub given : m.infos t ≡ i
  pub earlier : All (λ u. instant (sands_of m.infos u) < instant i.sands) before
  pub no_earlier : All (λ v. instant i.sands ≤ instant (sands_of m.infos v)) behind

module _ (q left : Queues) (t : ℕ) (i : Info) (m : ThreadMaster)
    (same_timers : left timing ≡ q timing) (held : Holds m left) (loose : IsLoose t left)
    (kind : (m.infos t).type ≡ timer) (given : m.infos t ≡ i) (clock : IsTime i.sands)
    (timers : HasTimers m.infos (left timing)) where
  at_it : sands_of m.infos t ≡ i.sands
  at_it = ap (λ (j : Info). j.sands) given

  abbrev due : ℕ → Bool
  due x = not_positive (timeval_cmp i.sands (sands_of m.infos x))

  place_before : (tt : ℕ) → FoundAt due (left timing) tt → Inserted q t i left (place (some tt) t m)
  place_before tt found =
      let us = found.before in
      let vs = found.behind in
      let times =
        subst (λ xs. All (λ x. IsTime (sands_of m.infos x)) xs) found.whole timers.times in
      let ordered = subst (IsOrdered (sands_of m.infos)) found.whole timers.ordered in
      let soon : leb (instant i.sands) (instant (sands_of m.infos tt)) ≡ true =
        sym (
          cmp-not_positive i.sands (sands_of m.infos tt) clock
            (IsTime-at (sands_of m.infos) us vs tt times))
        ∙ found.at_it in
      let earlier = passed_over (sands_of m.infos) i.sands us (tt ∷ vs) clock times found.passed in
      let no_earlier =
        IsOrdered-from (sands_of m.infos) (instant i.sands) us vs tt (ground (arith, soon))
          ordered in
      record {
        before = us;
        behind = tt ∷ vs;
        whole = sym same_timers ∙ found.whole;
        holds = add_before-Holds timing t tt us vs m left found.whole held loose kind;
        ordered =
            IsOrdered-insert (sands_of m.infos) t us (tt ∷ vs)
              (subst (λ n. All (λ u. instant (sands_of m.infos u) ≤ instant n) us) (sym at_it)
                (All-weaken (sands_of m.infos) (instant i.sands) us earlier))
              (subst (λ n. All (λ v. instant n ≤ instant (sands_of m.infos v)) (tt ∷ vs))
                (sym at_it) no_earlier)
              ordered;
        times =
            All-insert (λ x. IsTime (sands_of m.infos x)) us (tt ∷ vs) t
              (subst IsTime (sym at_it) clock) times;
        given = given;
        earlier = earlier;
        no_earlier = no_earlier;
      }

  place_last : All (λ x. due x ≡ false) (left timing) → Inserted q t i left (place none t m)
  place_last passed =
      let xs = left timing in
      let nil : xs ++ [] ≡ xs = append-nil xs in
      let earlier =
        passed_over (sands_of m.infos) i.sands xs [] clock
          (subst (λ ys. All (λ x. IsTime (sands_of m.infos x)) ys) (sym nil) timers.times) passed in
      record {
        before = xs;
        behind = [];
        whole = sym same_timers ∙ sym nil;
        holds = add_to-Holds timing t m left held loose kind;
        ordered =
            IsOrdered-insert (sands_of m.infos) t xs []
              (subst (λ n. All (λ u. instant (sands_of m.infos u) ≤ instant n) xs) (sym at_it)
                (All-weaken (sands_of m.infos) (instant i.sands) xs earlier))
              tt (subst (IsOrdered (sands_of m.infos)) (sym nil) timers.ordered);
        times =
            All-insert (λ x. IsTime (sands_of m.infos x)) xs [] t (subst IsTime (sym at_it) clock)
              (subst (λ ys. All (λ x. IsTime (sands_of m.infos x)) ys) (sym nil) timers.times);
        given = given;
        earlier = earlier;
        no_earlier = tt;
      }

  place-Inserted : Inserted q t i left (place (timer_behind i.sands m) t m)
  place-Inserted =
      subst (λ tt. Inserted q t i left (place tt t m))
        (sym (scan_lem (m.lists timing) due m.links (left timing) (held.represents timing)))
        (by_result (find due (left timing)) refl)
    where
      by_result : (r : Option ℕ) → find due (left timing) ≡ r → Inserted q t i left (place r t m)
      by_result none e = place_last (find-none due (left timing) e)
      by_result (some tt) e = place_before tt (find-FoundAt due (left timing) tt e)

-- A new timer is an unused thread, where there is one, and else a new one; it goes behind the timers
-- that are due strictly earlier and before those that are due at its time or later, with what it was
-- given and the time that it waits for, so the timers stay in the order of their times. The other lists hold the threads that they held. The
-- timers are in that order before, their times and the new one lie before 2038.
pub thread_add_timer-Inserted :
    (fresh func arg seconds : ℕ) (now : Timeval) (m : ThreadMaster) (q : Queues)
    → Holds m q
    → IsLoose fresh q
    → HasTimers m.infos (q timing)
    → IsTime (record now { tv_sec = now.tv_sec + seconds })
    → let t = taken fresh (q unuse) in
      ((thread_add_timer fresh func arg seconds now m).0 ≡ t.0)
      × Inserted q t.0
          (record {
            type = timer;
            func = func;
            arg = arg;
            fd = 0;
            sands = record now { tv_sec = now.tv_sec + seconds };
          })
          (with unuse t.1 q)
          (thread_add_timer fresh func arg seconds now m).1
unfolding thread_add_timer
thread_add_timer-Inserted fresh func arg seconds now m q h loose timers clock =
    let got = thread_get fresh timer func arg m in
    let g = thread_get-Got fresh timer func arg m q h (q unuse) refl loose in
    let t = (taken fresh (q unuse)).0 in
    let left = with unuse (taken fresh (q unuse)).1 q in
    let new : Timeval = record now { tv_sec = now.tv_sec + seconds } in
    let i : Info = record (got.1.infos t) { sands = new } in
    let here = put_info_self t i got.1.infos in
    let given =
      here
      ∙ ap (λ (infos : Infos). record (infos t) { sands = new }) g.filled
      ∙ ap (λ (j : Info). record j { sands = new })
          (put_info_self t (new_info timer func arg) m.infos) in
    let filled_timers =
      subst (λ infos. HasTimers infos (q timing)) (sym g.filled)
        (put_info-HasTimers t (new_info timer func arg) m.infos (q timing) (g.loose timing)
          timers) in
    rw g.thread (
      refl,
      place-Inserted q left t (record (new_info timer func arg) { sands = new })
          (record got.1 { infos = put_info t i got.1.infos }) refl
          (put_info-Holds t i got.1 left g.holds g.loose) g.loose (ap (λ (j : Info). j.type) given)
          given clock
          (put_info-HasTimers t i got.1.infos (q timing) (g.loose timing) filled_timers),
    )
