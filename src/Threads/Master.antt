-- ===== src/Threads/Master.antt =====
-- The scheduler: userspace/daemon/thread.h, lines 11-42, and userspace/daemon/thread.c, lines 47-61
-- and 121-272. The addresses of threads are numbers; `fresh` is what `malloc` returns.
pub mod Rounds
pub mod Holds
pub mod Moves
pub mod Get
pub mod Add
pub mod Cancel
pub mod Scan
pub mod Clock
pub mod Timer
pub mod Process
pub mod Plan
pub mod Turn
pub mod Fetch
pub mod Sound
pub mod Reach
use vsecplat.Common.{ℕ, zero, suc, ◌+◌, ◌-◌, ◌%◌, ◌^◌, Bool, true, false, Option, none, some, List}
use vsecplat.Common.{[], ◌∷◌, ltb, leb, ◌==◌, if◌then◌else◌, ◌&&◌, not, ℤ, pos, negsuc, to_int}
use vsecplat.Threads.{
  Links, Memory, put, ThreadList, thread_list_add, thread_list_add_before, thread_list_delete,
  thread_trim_head,
}

pub data ThreadType : Type 0 where
  read write timer event ready unused : ThreadType

-- The lists of the scheduler.
pub data Queue : Type 0 where
  reading writing timing readied unuse : Queue

abbrev pub index : Queue → ℕ
index reading = 0
index writing = 1
index timing = 2
index readied = 3
index unuse = 4

abbrev pub same : Queue → Queue → Bool
same p r = index p == index r

pub record Timeval : Type 0 where
  pub tv_sec : ℕ
  pub tv_usec : ℕ

-- What a thread holds beside its links.
pub record Info : Type 0 where
  pub type : ThreadType
  pub func : ℕ
  pub arg : ℕ
  pub fd : ℕ
  pub sands : Timeval

abbrev pub Infos : Type 0
Infos = ℕ → Info

abbrev pub put_info : ℕ → Info → Infos → Infos
put_info p i m q = if p == q then i else m q

abbrev pub FdSet : Type 0
FdSet = ℕ → Bool

abbrev pub fd_set : ℕ → FdSet → FdSet
fd_set fd s x = if fd == x then true else s x

abbrev pub fd_clr : ℕ → FdSet → FdSet
fd_clr fd s x = if fd == x then false else s x

pub record ThreadMaster : Type 0 where
  pub lists : Queue → ThreadList
  pub readfd : FdSet
  pub writefd : FdSet
  pub alloc : ℕ
  pub links : Memory
  pub infos : Infos

-- `memset`.
unfoldable pub thread_master_create : ThreadMaster
thread_master_create = record {
  lists = λ p. record { head = none; tail = none; count = 0 };
  readfd = λ fd. false;
  writefd = λ fd. false;
  alloc = 0;
  links = λ t. record { next = none; prev = none };
  infos = λ t. record {
    type = read;
    func = 0;
    arg = 0;
    fd = 0;
    sands = record { tv_sec = 0; tv_usec = 0 };
  };
}

-- The list functions, at a list of the scheduler.
abbrev pub put_list : Queue → ThreadList × Memory → ThreadMaster → ThreadMaster
put_list p (list, links) m = record m {
  lists = λ r. if same p r then list else m.lists r;
  links = links;
}

abbrev pub add_to : Queue → ℕ → ThreadMaster → ThreadMaster
add_to p t m = put_list p (thread_list_add (m.lists p) t m.links) m

abbrev pub add_before : Queue → ℕ → ℕ → ThreadMaster → ThreadMaster
add_before p point t m = put_list p (thread_list_add_before (m.lists p) point t m.links) m

abbrev pub delete_from : Queue → ℕ → ThreadMaster → ThreadMaster
delete_from p t m = put_list p (thread_list_delete (m.lists p) t m.links) m

abbrev pub trim_from : Queue → ThreadMaster → Option ℕ × ThreadMaster
trim_from p m =
    let trimmed = thread_trim_head (m.lists p) m.links in
    (trimmed.0, put_list p (trimmed.1, trimmed.2) m)

abbrev pub set_type : ℕ → ThreadType → ThreadMaster → ThreadMaster
set_type t kind m = record m { infos = put_info t (record (m.infos t) { type = kind }) m.infos }

-- a - b, as a `long`.
abbrev pub difference : ℕ → ℕ → ℤ
difference a b = if leb b a then pos (a - b) else negsuc (b - a - 1)

-- The result is an `int`.
unfoldable pub timeval_cmp : Timeval → Timeval → ℤ
timeval_cmp a b =
    to_int (
      if a.tv_sec == b.tv_sec then difference a.tv_usec b.tv_usec else difference a.tv_sec b.tv_sec)

abbrev pub not_positive : ℤ → Bool
not_positive (pos n) = n == 0
not_positive (negsuc n) = true

abbrev pub not_negative : ℤ → Bool
not_negative (pos n) = true
not_negative (negsuc n) = false

-- `memset`, and the fields that are set behind it.
abbrev pub fill : ThreadType → ℕ → ℕ → ℕ → ThreadMaster → ThreadMaster
fill type func arg t m = record m {
  links = put t (record { next = none; prev = none }) m.links;
  infos =
      put_info t
        (record {
          type = type;
          func = func;
          arg = arg;
          fd = 0;
          sands = record { tv_sec = 0; tv_usec = 0 };
        })
        m.infos;
}

-- The thread that was trimmed, or a new one.
abbrev pub give : ℕ → ThreadType → ℕ → ℕ → Option ℕ → ThreadMaster → ℕ × ThreadMaster
give fresh type func arg (some t) m = (t, fill type func arg t m)
give fresh type func arg none m =
    (fresh, fill type func arg fresh (record m { alloc = (m.alloc + 1) % 2 ^ 64 }))

unfoldable pub thread_get : ℕ → ThreadType → ℕ → ℕ → ThreadMaster → ℕ × ThreadMaster
thread_get fresh type func arg m =
    let trimmed = trim_from unuse m in give fresh type func arg trimmed.0 trimmed.1

abbrev pub set_fd : ℕ → ℕ → ThreadMaster → ThreadMaster
set_fd t fd m = record m { infos = put_info t (record (m.infos t) { fd = fd }) m.infos }

abbrev pub watch_read : ℕ → ℕ × ThreadMaster → Option ℕ × ThreadMaster
watch_read fd (t, m) =
    (some t, add_to reading t (set_fd t fd (record m { readfd = fd_set fd m.readfd })))

abbrev pub watch_write : ℕ → ℕ × ThreadMaster → Option ℕ × ThreadMaster
watch_write fd (t, m) =
    (some t, add_to writing t (set_fd t fd (record m { writefd = fd_set fd m.writefd })))

unfoldable pub thread_add_read : ℕ → ℕ → ℕ → ℕ → ThreadMaster → Option ℕ × ThreadMaster
thread_add_read fresh func arg fd m =
    if m.readfd fd then (none, m) else watch_read fd (thread_get fresh read func arg m)

unfoldable pub thread_add_write : ℕ → ℕ → ℕ → ℕ → ThreadMaster → Option ℕ × ThreadMaster
thread_add_write fresh func arg fd m =
    if m.writefd fd then (none, m) else watch_write fd (thread_get fresh write func arg m)

-- The loops over a list up to the first thread that passes a test.
unfoldable pub scan : ℕ → (ℕ → Bool) → Memory → Option ℕ → Option ℕ
scan zero test links here = none
scan (suc f) test links none = none
scan (suc f) test links (some t) = elim (test t) [
  | true ↦ some t
  | false ↦ scan f test links (links t).next
]

abbrev pub place : Option ℕ → ℕ → ThreadMaster → ThreadMaster
place (some tt) t m = add_before timing tt t m
place none t m = add_to timing t m

-- The thread that the new one goes before.
abbrev pub timer_behind : Timeval → ThreadMaster → Option ℕ
timer_behind sands m =
    scan (m.lists timing).count (λ tt. not_positive (timeval_cmp sands (m.infos tt).sands)) m.links
      (m.lists timing).head

abbrev pub insert_timer : Timeval → ℕ × ThreadMaster → ℕ × ThreadMaster
insert_timer sands (t, m) =
    let m1 = record m { infos = put_info t (record (m.infos t) { sands = sands }) m.infos } in
    (t, place (timer_behind sands m1) t m1)

unfoldable pub thread_add_timer : ℕ → ℕ → ℕ → ℕ → Timeval → ThreadMaster → ℕ × ThreadMaster
thread_add_timer fresh func arg seconds now m =
    insert_timer (record now { tv_sec = now.tv_sec + seconds }) (thread_get fresh timer func arg m)

abbrev pub thread_add_unuse : ℕ → ThreadMaster → ThreadMaster
thread_add_unuse t m = add_to unuse t m

-- What the type of a thread that is cancelled takes away.
abbrev pub cancel_from : ThreadType → ℕ → ThreadMaster → ThreadMaster
cancel_from read t m = delete_from reading t (record m { readfd = fd_clr (m.infos t).fd m.readfd })
cancel_from write t m =
    delete_from writing t (record m { writefd = fd_clr (m.infos t).fd m.writefd })
cancel_from ready t m = delete_from readied t m
cancel_from timer t m = m
cancel_from event t m = m
cancel_from unused t m = m

unfoldable pub thread_cancel : Option ℕ → ThreadMaster → ThreadMaster
thread_cancel none m = m
thread_cancel (some t) m = thread_add_unuse t (set_type t unused (cancel_from (m.infos t).type t m))
