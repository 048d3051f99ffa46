-- ===== src/Threads/Master/Add.antt =====
-- About `thread_add_read` and `thread_add_write` of thread.c: the lists behind them.
use vsecplat.Common.{ℕ, ◌≢◌, true, false, [], ◌∷◌, ◌++◌, Option, none, some}
use vsecplat.Common.{◌==◌, ◌≡◌, refl, sym, ◌∙◌, ap, subst, arith}
use vsecplat.Threads.Master.{
  ThreadType, read, write, Queue, reading, writing, unuse, Info, Infos, put_info, FdSet, fd_set,
  ThreadMaster, add_to, set_fd, thread_get, thread_add_read, thread_add_write,
}
use vsecplat.Threads.Master.Holds.{Queues, with, type_of, Holds, IsLoose}
use vsecplat.Threads.Master.Get.{
  put_info_other, taken, put_info_self, new_info, Got, thread_get-Got, enqueue-Holds,
}

-- What a thread that waits for a descriptor holds.
abbrev pub waiting : ThreadType → ℕ → ℕ → ℕ → Info
waiting type func arg fd = record (new_info type func arg) { fd = fd }

-- The lists behind a thread that was taken and put at the end of a list.
abbrev pub joined : Queue → ℕ → Queues → Queues
joined p fresh q = let t = taken fresh (q unuse) in with p (q p ++ t.0 ∷ []) (with unuse t.1 q)

-- The scheduler behind a thread that was taken for a list and a descriptor.
pub record Joined (p : Queue) (fresh func arg fd : ℕ) (m : ThreadMaster) (q : Queues)
    (result : Option ℕ × ThreadMaster) : Type 0 where
  pub thread : result.0 ≡ some (taken fresh (q unuse)).0
  pub holds : Holds result.1 (joined p fresh q)
  pub waits : result.1.infos (taken fresh (q unuse)).0 ≡ waiting (type_of p) func arg fd
  pub others : (z : ℕ) → z ≢ (taken fresh (q unuse)).0 → result.1.infos z ≡ m.infos z

set_fd_info :
    (type : ThreadType) (func arg t fd : ℕ) (m m1 : ThreadMaster)
    → m1.infos ≡ put_info t (new_info type func arg) m.infos
    → (set_fd t fd m1).infos t ≡ waiting type func arg fd
set_fd_info type func arg t fd m m1 e =
    put_info_self t _ m1.infos
    ∙ ap (λ (infos : Infos). record (infos t) { fd = fd }) e
    ∙ ap (λ (i : Info). record i { fd = fd }) (put_info_self t (new_info type func arg) m.infos)

-- The thread that was taken, with a descriptor, at the end of a list other than that of unused threads.
watch-Joined :
    (p : Queue) (fresh func arg fd : ℕ) (m : ThreadMaster) (q : Queues) (got : ℕ × ThreadMaster)
    (m2 : ThreadMaster)
    → Got
        (type_of p)
        func
        arg
        (taken fresh (q unuse)).0
        m
        (with unuse (taken fresh (q unuse)).1 q)
        got
    → m2.infos ≡ got.1.infos
    → Holds m2 (with unuse (taken fresh (q unuse)).1 q)
    → with unuse (taken fresh (q unuse)).1 q p ≡ q p
    → Joined p fresh func arg fd m q (some got.0, add_to p got.0 (set_fd got.0 fd m2))
watch-Joined p fresh func arg fd m q got m2 g same_infos held other =
    let t = (taken fresh (q unuse)).0 in
    let left = with unuse (taken fresh (q unuse)).1 q in
    let kind = set_fd_info (type_of p) func arg t fd m m2 (same_infos ∙ g.filled) in
    let i : Info = record (m2.infos t) { fd = fd } in
    rw g.thread (record {
      thread = refl;
      holds =
          subst (λ xs. Holds (add_to p t (set_fd t fd m2)) (with p (xs ++ t ∷ []) left)) other
            (enqueue-Holds p t i m2 left held g.loose
              (ap (λ (j : Info). j.type) (sym (put_info_self t i m2.infos) ∙ kind)));
      waits = kind;
      others = λ z far.
          put_info_other t i m2.infos z far
          ∙ ap (λ (infos : Infos). infos z) (same_infos ∙ g.filled)
          ∙ put_info_other t (new_info (type_of p) func arg) m.infos z far;
    })

fd_set_self : (fd : ℕ) (s : FdSet) → fd_set fd s fd ≡ true
fd_set_self fd s = let here : (fd == fd) ≡ true = ground arith in rw here refl

-- A thread that reads a descriptor which no thread reads is an unused one, where there is one, and else
-- a new one; it goes to the end of the threads that read, with what it was given, the other lists hold
-- the threads that they held, the other threads hold what they held, and the descriptor is watched. For a descriptor that a thread reads there
-- is no thread, and nothing changes.
pub thread_add_read-Joined :
    (fresh func arg fd : ℕ) (m : ThreadMaster) (q : Queues)
    → Holds m q
    → IsLoose fresh q
    → (m.readfd fd ≡ false
        → Joined reading fresh func arg fd m q (thread_add_read fresh func arg fd m)
          × ((thread_add_read fresh func arg fd m).1.readfd fd ≡ true))
      × (m.readfd fd ≡ true → thread_add_read fresh func arg fd m ≡ (none, m))
unfolding thread_add_read
thread_add_read-Joined fresh func arg fd m q h loose = (
  (λ free.
      let g = thread_get-Got fresh read func arg m q h (q unuse) refl loose in
      let m1 = (thread_get fresh read func arg m).1 in
      rw free (
        watch-Joined reading fresh func arg fd m q (thread_get fresh read func arg m)
            (record m1 { readfd = fd_set fd m1.readfd }) g refl
            (record { represents = g.holds.represents; typed = g.holds.typed }) refl,
        fd_set_self fd m1.readfd,
      )),
  λ busy. rw busy refl,
)

-- A thread that writes a descriptor which no thread writes is an unused one, where there is one, and else
-- a new one; it goes to the end of the threads that write, with what it was given, the other lists hold
-- the threads that they held, the other threads hold what they held, and the descriptor is watched. For a descriptor that a thread writes there
-- is no thread, and nothing changes.
pub thread_add_write-Joined :
    (fresh func arg fd : ℕ) (m : ThreadMaster) (q : Queues)
    → Holds m q
    → IsLoose fresh q
    → (m.writefd fd ≡ false
        → Joined writing fresh func arg fd m q (thread_add_write fresh func arg fd m)
          × ((thread_add_write fresh func arg fd m).1.writefd fd ≡ true))
      × (m.writefd fd ≡ true → thread_add_write fresh func arg fd m ≡ (none, m))
unfolding thread_add_write
thread_add_write-Joined fresh func arg fd m q h loose = (
  (λ free.
      let g = thread_get-Got fresh write func arg m q h (q unuse) refl loose in
      let m1 = (thread_get fresh write func arg m).1 in
      rw free (
        watch-Joined writing fresh func arg fd m q (thread_get fresh write func arg m)
            (record m1 { writefd = fd_set fd m1.writefd }) g refl
            (record { represents = g.holds.represents; typed = g.holds.typed }) refl,
        fd_set_self fd m1.writefd,
      )),
  λ busy. rw busy refl,
)
