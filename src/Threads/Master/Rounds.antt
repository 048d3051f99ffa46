-- ===== src/Threads/Master/Rounds.antt =====
-- The rounds of the scheduler: userspace/daemon/thread.c, lines 274-353.
use vsecplat.Common.{ℕ, zero, suc, Option, none, some, List}
use vsecplat.Common.{[], ◌∷◌, if◌then◌else◌}
use vsecplat.Threads.Master.{
  ready, unused, reading, writing, timing, readied, Queue, Timeval, Info, FdSet, fd_clr,
  ThreadMaster, add_to, delete_from, trim_from, set_type, timeval_cmp, not_negative, scan,
  thread_add_unuse,
}

-- The copy that the caller gets, and the scheduler without the thread.
unfoldable pub thread_run : ℕ → ThreadMaster → Info × ThreadMaster
thread_run t m = (m.infos t, thread_add_unuse t (set_type t unused m))

-- A list, with its set of descriptors.
abbrev pub clear_fd : Queue → ℕ → ThreadMaster → ThreadMaster
clear_fd writing fd m = record m { writefd = fd_clr fd m.writefd }
clear_fd _ fd m = record m { readfd = fd_clr fd m.readfd }

abbrev pub make_ready : Queue → ℕ → ThreadMaster → ThreadMaster
make_ready p t m =
    set_type t ready (add_to readied t (delete_from p t (clear_fd p (m.infos t).fd m)))

unfoldable pub process : ℕ → Queue → FdSet → Option ℕ → ThreadMaster → ThreadMaster
process zero p fdset here m = m
process (suc f) p fdset none m = m
process (suc f) p fdset (some t) m =
    let next = (m.links t).next in
    process f p fdset next (if fdset (m.infos t).fd then make_ready p t m else m)

unfoldable pub thread_process_fd : Queue → FdSet → ThreadMaster → ThreadMaster
unfolding process
thread_process_fd p fdset m = process (m.lists p).count p fdset (m.lists p).head m

-- What `select` returns: no descriptor, a signal, another error, or the descriptors.
pub data Selected : Type 0 where
  timeout interrupted broken : Selected
  descriptors : FdSet → FdSet → Selected

pub record Round : Type 0 where
  pub now : Timeval
  pub selected : Selected

pub data Fetched : Type 0 where
  fetched : Info → Fetched
  null : Fetched
  -- No round is left to wait for.
  waits : Fetched

abbrev pub fetch_timer : Timeval → ThreadMaster → Option ℕ
fetch_timer now m =
    scan (m.lists timing).count (λ t. not_negative (timeval_cmp now (m.infos t).sands)) m.links
      (m.lists timing).head

abbrev pub run_ready : Option ℕ × ThreadMaster → Option (Info × ThreadMaster)
run_ready (some t, m) = some (thread_run t m)
run_ready (none, m) = none

abbrev pub run_first : Option ℕ → ThreadMaster → Option (Info × ThreadMaster)
run_first (some t) m = some (thread_run t (delete_from timing t m))
run_first none m = run_ready (trim_from readied m)

-- A thread that can run now: a timer that is due, or else the first that is ready.
unfoldable pub fetch_now : Timeval → ThreadMaster → Option (Info × ThreadMaster)
fetch_now now m = run_first (fetch_timer now m) m

-- The round goes on, or ends with the null pointer.
unfoldable pub fetch_wait : Selected → ThreadMaster → Option ThreadMaster
fetch_wait timeout m = some m
fetch_wait interrupted m = some m
fetch_wait broken m = none
fetch_wait (descriptors readfd writefd) m =
    some (thread_process_fd writing writefd (thread_process_fd reading readfd m))

unfoldable pub thread_fetch : List Round → ThreadMaster → Fetched × ThreadMaster
thread_fetch [] m = (waits, m)
thread_fetch (round ∷ rounds) m = elim (fetch_now round.now m) [
  | some (copy, m') ↦ (fetched copy, m')
  | none ↦ elim (fetch_wait round.selected m) [
    | some m' ↦ thread_fetch rounds m'
    | none ↦ (null, m)
  ]
]
