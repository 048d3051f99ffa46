-- ===== src/Threads/Master/Sound.antt =====
-- About a scheduler of thread.c between two calls: its lists and the order of its timers.
use vsecplat.Common.{ℕ, ◌+◌, List, [], ◌∷◌, ◌++◌, Option, some, All}
use vsecplat.Common.{◌≡◌, ◌≢◌, inl, inr, refl, sym, ◌∙◌, ap, subst, Bool-cases}
use vsecplat.Threads.Segments.{IsApart}
use vsecplat.Threads.Master.{
  ThreadType, read, write, timer, ready, unused, event, Queue, reading, writing, timing, readied,
  unuse, Timeval, Info, Infos, ThreadMaster, thread_master_create, thread_add_read,
  thread_add_write, thread_add_timer, cancel_from, thread_cancel,
}
use vsecplat.Threads.Master.Rounds.{}
use vsecplat.Threads.Master.Holds.{
  Queues, with, type_of, Holds, IsLoose, IsApart-type, thread_master_create-Holds,
}
use vsecplat.Threads.Master.Get.{taken}
use vsecplat.Threads.Master.Add.{Joined, thread_add_read-Joined, thread_add_write-Joined}
use vsecplat.Threads.Master.Cancel.{CanCancel, thread_cancel-Holds}
use vsecplat.Threads.Master.Clock.{IsTime, IsOrdered-same}
use vsecplat.Threads.Master.Timer.{sands_of, HasTimers, times-same, thread_add_timer-Inserted}
use vsecplat.Threads.Master.Process.{untyped}
use vsecplat.Threads.Master.Turn.{retyped}

-- Memory holds its lists, of threads of their types, and its timers are in the order of their times.
pub record IsSound (m : ThreadMaster) : Type 0 where
  pub queues : Queues
  pub holds : Holds m queues
  pub timers : HasTimers m.infos (queues timing)

pub thread_master_create-IsSound : IsSound thread_master_create
thread_master_create-IsSound = record {
  queues = λ p. [];
  holds = thread_master_create-Holds;
  timers = record { ordered = tt; times = tt };
}

pub HasTimers-same :
    (infos infos' : Infos) (xs : List ℕ)
    → All (λ x. (infos x).sands ≡ (infos' x).sands) xs
    → HasTimers infos xs
    → HasTimers infos' xs
HasTimers-same infos infos' xs e timers = record {
  ordered = IsOrdered-same (sands_of infos) (sands_of infos') xs e timers.ordered;
  times = times-same (sands_of infos) (sands_of infos') xs e timers.times;
}

pub sands-untyped :
    (infos infos' : Infos) (xs : List ℕ)
    → ((z : ℕ) → untyped (infos' z) ≡ untyped (infos z))
    → All (λ x. (infos x).sands ≡ (infos' x).sands) xs
sands-untyped infos infos' [] same = tt
sands-untyped infos infos' (x ∷ xs) same =
    (ap (λ (i : Info). i.sands) (sym (same x)), sands-untyped infos infos' xs same)

sands-apart :
    (infos infos' : Infos) (t : ℕ) (xs : List ℕ)
    → IsApart t xs
    → ((z : ℕ) → z ≢ t → infos' z ≡ infos z)
    → All (λ x. (infos x).sands ≡ (infos' x).sands) xs
sands-apart infos infos' t [] away same = tt
sands-apart infos infos' t (x ∷ xs) away same = (
  ap (λ (i : Info). i.sands) (sym (same x (λ e. away.0 (sym e)))),
  sands-apart infos infos' t xs away.1 same,
)

-- A thread that joined the readers or the writers is no timer.
Joined-IsSound :
    (p : Queue) (fresh func arg fd : ℕ) (m : ThreadMaster) (q : Queues)
    (result : Option ℕ × ThreadMaster)
    → type_of p ≢ timer
    → q timing
      ≡ with p
          (q p ++ (taken fresh (q unuse)).0 ∷ [])
          (with unuse (taken fresh (q unuse)).1 q)
          timing
    → HasTimers m.infos (q timing)
    → Joined p fresh func arg fd m q result
    → IsSound result.1
Joined-IsSound p fresh func arg fd m q result other stay timers j =
    let t = (taken fresh (q unuse)).0 in
    let kinds =
      subst (λ xs. All (λ x. (result.1.infos x).type ≡ timer) xs) (sym stay)
        (j.holds.typed timing) in
    let away =
      IsApart-type result.1.infos t timing (q timing)
        (λ e. other (sym (ap (λ (i : Info). i.type) j.waits) ∙ e)) kinds in
    record {
      queues = with p (q p ++ t ∷ []) (with unuse (taken fresh (q unuse)).1 q);
      holds = j.holds;
      timers = subst (HasTimers result.1.infos) stay (
          HasTimers-same m.infos result.1.infos (q timing)
            (sands-apart m.infos result.1.infos t (q timing) away j.others) timers);
    }

pub thread_add_read-IsSound :
    (fresh func arg fd : ℕ) (m : ThreadMaster) (s : IsSound m)
    → IsLoose fresh s.queues
    → IsSound (thread_add_read fresh func arg fd m).1
thread_add_read-IsSound fresh func arg fd m s loose =
    let result = thread_add_read-Joined fresh func arg fd m s.queues s.holds loose in
    elim (Bool-cases (m.readfd fd)) [
      | inl busy ↦ subst (λ (r : Option ℕ × ThreadMaster). IsSound r.1) (sym (result.1 busy)) s
      | inr free ↦
          Joined-IsSound reading fresh func arg fd m s.queues _ (λ e. cc) refl s.timers
            (result.0 free).0
    ]

pub thread_add_write-IsSound :
    (fresh func arg fd : ℕ) (m : ThreadMaster) (s : IsSound m)
    → IsLoose fresh s.queues
    → IsSound (thread_add_write fresh func arg fd m).1
thread_add_write-IsSound fresh func arg fd m s loose =
    let result = thread_add_write-Joined fresh func arg fd m s.queues s.holds loose in
    elim (Bool-cases (m.writefd fd)) [
      | inl busy ↦ subst (λ (r : Option ℕ × ThreadMaster). IsSound r.1) (sym (result.1 busy)) s
      | inr free ↦
          Joined-IsSound writing fresh func arg fd m s.queues _ (λ e. cc) refl s.timers
            (result.0 free).0
    ]

pub thread_add_timer-IsSound :
    (fresh func arg seconds : ℕ) (now : Timeval) (m : ThreadMaster) (s : IsSound m)
    → IsLoose fresh s.queues
    → IsTime (record now { tv_sec = now.tv_sec + seconds })
    → IsSound (thread_add_timer fresh func arg seconds now m).1
thread_add_timer-IsSound fresh func arg seconds now m s loose clock =
    let placed =
      (thread_add_timer-Inserted fresh func arg seconds now m s.queues s.holds loose s.timers
        clock).1 in
    record {
      queues = _;
      holds = placed.holds;
      timers = record { ordered = placed.ordered; times = placed.times };
    }

cancel_from-infos :
    (kind : ThreadType) (t : ℕ) (m : ThreadMaster) → (cancel_from kind t m).infos ≡ m.infos
cancel_from-infos read t m = refl
cancel_from-infos write t m = refl
cancel_from-infos ready t m = refl
cancel_from-infos timer t m = refl
cancel_from-infos event t m = refl
cancel_from-infos unused t m = refl

cancel-untyped :
    (t : ℕ) (m : ThreadMaster) (z : ℕ)
    → untyped ((thread_cancel (some t) m).infos z) ≡ untyped (m.infos z)
unfolding thread_cancel
cancel-untyped t m z =
    retyped t z (cancel_from (m.infos t).type t m)
    ∙ ap (λ (infos : Infos). untyped (infos z)) (cancel_from-infos (m.infos t).type t m)

pub thread_cancel-IsSound :
    (p : Queue) (t : ℕ) (us vs : List ℕ) (m : ThreadMaster) (s : IsSound m)
    → CanCancel p
    → s.queues p ≡ us ++ t ∷ vs
    → IsSound (thread_cancel (some t) m)
thread_cancel-IsSound p t us vs m s can e = record {
  queues = with unuse (s.queues unuse ++ t ∷ []) (with p (us ++ vs) s.queues);
  holds = thread_cancel-Holds p t us vs m s.queues can e s.holds;
  timers = subst (HasTimers (thread_cancel (some t) m).infos) (timers_stay p can) (
      HasTimers-same m.infos (thread_cancel (some t) m).infos (s.queues timing)
        (sands-untyped m.infos (thread_cancel (some t) m).infos (s.queues timing)
          (cancel-untyped t m))
        s.timers);
}
  where
    timers_stay : (p : Queue) → CanCancel p → s.queues timing ≡ with p (us ++ vs) s.queues timing
    timers_stay reading can = refl
    timers_stay writing can = refl
    timers_stay readied can = refl
    timers_stay timing can = elim can [ ]
    timers_stay unuse can = elim can [ ]
