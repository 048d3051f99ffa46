-- ===== src/Threads.antt =====
-- The lists of the scheduler: userspace/daemon/thread.h, lines 4-35, and userspace/daemon/thread.c,
-- lines 63-119. A pointer to a thread is a number, and `none` the null pointer.
pub mod Segments
pub mod Lists
pub mod Refinement
pub mod Insertion
pub mod Frames
pub mod Master
use vsecplat.Common.{ℕ, suc, ◌-◌, Option, none, some, ◌==◌, if◌then◌else◌}

-- The links of a thread in memory.
pub record Links : Type 0 where
  pub next : Option ℕ
  pub prev : Option ℕ

abbrev pub Memory : Type 0
Memory = ℕ → Links

abbrev pub put : ℕ → Links → Memory → Memory
put p l m q = if p == q then l else m q

abbrev pub set_next : ℕ → Option ℕ → Memory → Memory
set_next p v m = put p (record (m p) { next = v }) m

abbrev pub set_prev : ℕ → Option ℕ → Memory → Memory
set_prev p v m = put p (record (m p) { prev = v }) m

pub record ThreadList : Type 0 where
  pub head : Option ℕ
  pub tail : Option ℕ
  pub count : ℕ

unfoldable pub thread_list_add : ThreadList → ℕ → Memory → ThreadList × Memory
thread_list_add list thread m =
    let m1 = put thread (record { next = none; prev = list.tail }) m in
    elim list.tail [
      | some last ↦ (
        record list { tail = some thread; count = suc list.count },
        set_next last (some thread) m1,
      )
      | none ↦ (record { head = some thread; tail = some thread; count = suc list.count }, m1)
    ]

-- The thread in front of another one, or the list's head, gets a new `next`.
abbrev pub link_prev : Option ℕ → Option ℕ → Option ℕ → Memory → Option ℕ × Memory
link_prev (some prev) next head m = (head, set_next prev next m)
link_prev none next head m = (next, m)

unfoldable pub thread_list_add_before : ThreadList → ℕ → ℕ → Memory → ThreadList × Memory
thread_list_add_before list point thread m =
    let m1 = put thread (record { next = some point; prev = (m point).prev }) m in
    let front = link_prev (m1 point).prev (some thread) list.head m1 in
    (
      record { head = front.0; tail = list.tail; count = suc list.count },
      set_prev point (some thread) front.1,
    )

-- The thread behind the one that goes, or the list's tail, gets its `prev`.
abbrev pub unlink_next : Option ℕ → Option ℕ → Option ℕ → Memory → Option ℕ × Memory
unlink_next (some next) prev tail m = (tail, set_prev next prev m)
unlink_next none prev tail m = (prev, m)

unfoldable pub thread_list_delete : ThreadList → ℕ → Memory → ThreadList × Memory
thread_list_delete list thread m =
    let behind = unlink_next (m thread).next (m thread).prev list.tail m in
    let m1 = behind.1 in
    let front = link_prev (m1 thread).prev (m1 thread).next list.head m1 in
    (
      record { head = front.0; tail = behind.0; count = list.count - 1 },
      put thread (record { next = none; prev = none }) front.1,
    )

-- The thread taken off, where there is one.
unfoldable pub thread_trim_head : ThreadList → Memory → Option ℕ × ThreadList × Memory
unfolding thread_list_delete
thread_trim_head list m = elim list.head [
  | none ↦ (none, list, m)
  | some thread ↦ let rest = thread_list_delete list thread m in (some thread, rest.0, rest.1)
]
