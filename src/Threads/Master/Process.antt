-- ===== src/Threads/Master/Process.antt =====
-- About `thread_process_fd` of thread.c: the threads whose descriptors are set become ready.
use vsecplat.Common.{ℕ, zero, suc, ◌≤◌, Bool, true, false, List, [], ◌∷◌, ◌++◌, Option, none, some}
use vsecplat.Common.{
  ◌≡◌, refl, sym, ◌∙◌, ap, subst, arith, length, ◌==◌, if◌then◌else◌, Bool-cases, inl, inr,
  append_assoc, append-nil,
}
use vsecplat.Threads.Segments.{first, IsSeg-split}
use vsecplat.Threads.Lists.{Represents}
use vsecplat.Threads.Master.{
  ready, unused, Queue, reading, writing, readied, unuse, timing, Info, Infos, FdSet, ThreadMaster,
  delete_from,
}
use vsecplat.Threads.Master.Rounds.{clear_fd, make_ready, process, thread_process_fd}
use vsecplat.Threads.Master.Holds.{Queues, with, Holds}
use vsecplat.Threads.Master.Moves.{Holds-same, delete_from-Holds}
use vsecplat.Threads.Master.Get.{enqueue-Holds}

-- The threads that pass the test, and those that do not.
abbrev pub chosen : (ℕ → Bool) → List ℕ → List ℕ
chosen test [] = []
chosen test (x ∷ xs) = if test x then x ∷ chosen test xs else chosen test xs

abbrev pub left_out : (ℕ → Bool) → List ℕ → List ℕ
left_out test [] = []
left_out test (x ∷ xs) = if test x then left_out test xs else x ∷ left_out test xs

-- The lists of threads that wait for descriptors.
abbrev pub Waits : Queue → Type 0
Waits reading = Unit
Waits writing = Unit
Waits _ = ⊥

abbrev pub moved : Queue → List ℕ → List ℕ → Queues → Queues
moved p stay go q = with readied (q readied ++ go) (with p stay q)

clear_fd-Holds :
    (p : Queue) (fd : ℕ) (m : ThreadMaster) (q : Queues) → Holds m q → Holds (clear_fd p fd m) q
clear_fd-Holds reading fd m q h = record { represents = h.represents; typed = h.typed }
clear_fd-Holds writing fd m q h = record { represents = h.represents; typed = h.typed }
clear_fd-Holds timing fd m q h = record { represents = h.represents; typed = h.typed }
clear_fd-Holds readied fd m q h = record { represents = h.represents; typed = h.typed }
clear_fd-Holds unuse fd m q h = record { represents = h.represents; typed = h.typed }

other_ready : (p : Queue) (xs : List ℕ) (q : Queues) → Waits p → with p xs q readied ≡ q readied
other_ready reading xs q w = refl
other_ready writing xs q w = refl
other_ready timing xs q w = elim w [ ]
other_ready readied xs q w = elim w [ ]
other_ready unuse xs q w = elim w [ ]

make_ready-Holds :
    (p : Queue) (t : ℕ) (us vs : List ℕ) (m : ThreadMaster) (q : Queues)
    → Waits p
    → q p ≡ us ++ t ∷ vs
    → Holds m q
    → Holds (make_ready p t m) (moved p (us ++ vs) (t ∷ []) q)
make_ready-Holds p t us vs m q w e h =
    let cleared = clear_fd p (m.infos t).fd m in
    let gone = delete_from-Holds p t us vs cleared q e (clear_fd-Holds p (m.infos t).fd m q h) in
    subst (λ xs. Holds (make_ready p t m) (with readied (xs ++ t ∷ []) (with p (us ++ vs) q)))
      (other_ready p (us ++ vs) q w)
      (enqueue-Holds readied t (record ((delete_from p t cleared).infos t) { type = ready })
        (delete_from p t cleared) (with p (us ++ vs) q) gone.0 gone.1 refl)

-- What a thread holds but for its type.
abbrev pub untyped : Info → Info
untyped i = record i { type = unused }

make_ready-untyped :
    (p : Queue) (t z : ℕ) (m : ThreadMaster)
    → untyped ((make_ready p t m).infos z) ≡ untyped (m.infos z)
make_ready-untyped p t z m = elim (Bool-cases (t == z)) [
  | inl e ↦
      let it : t ≡ z = ground (arith, e) in
      rw e
        (ap (λ (infos : Infos). untyped (infos t)) (cleared p) ∙ ap (λ y. untyped (m.infos y)) it)
  | inr e ↦ rw e (ap (λ (infos : Infos). untyped (infos z)) (cleared p))
]
  where
    cleared : (p : Queue) → (clear_fd p (m.infos t).fd m).infos ≡ m.infos
    cleared reading = refl
    cleared writing = refl
    cleared timing = refl
    cleared readied = refl
    cleared unuse = refl

process-untyped :
    (f : ℕ) (p : Queue) (fdset : FdSet) (here : Option ℕ) (m : ThreadMaster) (z : ℕ)
    → untyped ((process f p fdset here m).infos z) ≡ untyped (m.infos z)
unfolding process
process-untyped zero p fdset here m z = refl
process-untyped (suc f) p fdset none m z = refl
process-untyped (suc f) p fdset (some t) m z =
    process-untyped f p fdset (m.links t).next _ z ∙ one (fdset (m.infos t).fd)
  where
    one : (b : Bool) → untyped ((if b then make_ready p t m else m).infos z) ≡ untyped (m.infos z)
    one true = make_ready-untyped p t z m
    one false = refl

pub thread_process_fd-untyped :
    (p : Queue) (fdset : FdSet) (m : ThreadMaster) (z : ℕ)
    → untyped ((thread_process_fd p fdset m).infos z) ≡ untyped (m.infos z)
unfolding thread_process_fd
thread_process_fd-untyped p fdset m z =
    process-untyped (m.lists p).count p fdset (m.lists p).head m z

moved_none : (p r : Queue) (xs : List ℕ) (q : Queues) → Waits p → q p ≡ xs → q r ≡ moved p xs [] q r
moved_none reading reading xs q w e = e
moved_none reading writing xs q w e = refl
moved_none reading timing xs q w e = refl
moved_none reading readied xs q w e = sym (append-nil (q readied))
moved_none reading unuse xs q w e = refl
moved_none writing reading xs q w e = refl
moved_none writing writing xs q w e = e
moved_none writing timing xs q w e = refl
moved_none writing readied xs q w e = sym (append-nil (q readied))
moved_none writing unuse xs q w e = refl
moved_none timing r xs q w e = elim w [ ]
moved_none readied r xs q w e = elim w [ ]
moved_none unuse r xs q w e = elim w [ ]

moved_on :
    (p r : Queue) (xs ys : List ℕ) (x : ℕ) (go : List ℕ) (q : Queues)
    → Waits p
    → moved p ys go (moved p xs (x ∷ []) q) r ≡ moved p ys (x ∷ go) q r
moved_on reading reading xs ys x go q w = refl
moved_on reading writing xs ys x go q w = refl
moved_on reading timing xs ys x go q w = refl
moved_on reading readied xs ys x go q w = append_assoc (q readied) (x ∷ []) go
moved_on reading unuse xs ys x go q w = refl
moved_on writing reading xs ys x go q w = refl
moved_on writing writing xs ys x go q w = refl
moved_on writing timing xs ys x go q w = refl
moved_on writing readied xs ys x go q w = append_assoc (q readied) (x ∷ []) go
moved_on writing unuse xs ys x go q w = refl
moved_on timing r xs ys x go q w = elim w [ ]
moved_on readied r xs ys x go q w = elim w [ ]
moved_on unuse r xs ys x go q w = elim w [ ]

moved_at : (p : Queue) (xs go : List ℕ) (q : Queues) → Waits p → moved p xs go q p ≡ xs
moved_at reading xs go q w = refl
moved_at writing xs go q w = refl
moved_at timing xs go q w = elim w [ ]
moved_at readied xs go q w = elim w [ ]
moved_at unuse xs go q w = elim w [ ]

next_in :
    (p : Queue) (t : ℕ) (us vs : List ℕ) (m : ThreadMaster) (q : Queues)
    → q p ≡ us ++ t ∷ vs
    → Holds m q
    → (m.links t).next ≡ first vs none
next_in p t us vs m q e h =
    let here = subst (λ xs. Represents (m.lists p) m.links xs) e (h.represents p) in
    (IsSeg-split m.links none us (t ∷ vs) none here.linked).1.1

module _ (p : Queue) (w : Waits p) (fdset : FdSet) (test : ℕ → Bool) where
  process-Holds :
      (f : ℕ) (us xs : List ℕ) (m : ThreadMaster) (q : Queues)
      → ((z : ℕ) → fdset (m.infos z).fd ≡ test z)
      → q p ≡ us ++ xs
      → length xs ≤ f
      → Holds m q
      → Holds
          (process f p fdset (first xs none) m)
          (moved p (us ++ left_out test xs) (chosen test xs) q)
  unfolding process
  process-Holds zero us [] m q same_test e enough h =
      Holds-same m q _ h (λ r. moved_none p r (us ++ []) q w e)
  process-Holds (suc f) us [] m q same_test e enough h =
      Holds-same m q _ h (λ r. moved_none p r (us ++ []) q w e)
  process-Holds zero us (x ∷ xs) m q same_test e enough h = absurd (omega arith)
  process-Holds (suc f) us (x ∷ xs) m q same_test e enough h = elim (Bool-cases (test x)) [
    | inl set ↦
        let q1 = moved p (us ++ xs) (x ∷ []) q in
        let rest =
          process-Holds f us xs (make_ready p x m) q1
            (λ z. ap (λ (i : Info). fdset i.fd) (make_ready-untyped p x z m) ∙ same_test z)
            (moved_at p (us ++ xs) (x ∷ []) q w) (omega arith)
            (make_ready-Holds p x us xs m q w e h) in
        rw (set, next_in p x us xs m q e h, same_test x, set)
          (Holds-same _ _ _ rest
            (λ r. moved_on p r (us ++ xs) (us ++ left_out test xs) x (chosen test xs) q w))
    | inr unset ↦
        let whole = e ∙ sym (append_assoc us (x ∷ []) xs) in
        let rest = process-Holds f (us ++ x ∷ []) xs m q same_test whole (omega arith) h in
        rw (unset, next_in p x us xs m q e h, same_test x, unset)
          (subst
            (λ stay. Holds (process f p fdset (first xs none) m) (moved p stay (chosen test xs) q))
            (append_assoc us (x ∷ []) (left_out test xs)) rest)
  ]

-- The threads of a list whose descriptors are set go to the end of those that are ready, in their order;
-- the others of the list stay in theirs, and the other lists hold the threads that they held.
pub thread_process_fd-Holds :
    (p : Queue) (fdset : FdSet) (m : ThreadMaster) (q : Queues)
    → Waits p
    → Holds m q
    → let set = λ (t : ℕ). fdset (m.infos t).fd in
      Holds (thread_process_fd p fdset m) (moved p (left_out set (q p)) (chosen set (q p)) q)
unfolding thread_process_fd
thread_process_fd-Holds p fdset m q w h =
    let here = h.represents p in
    subst
      (λ cur. Holds (process (m.lists p).count p fdset cur m) (
        moved p (left_out (λ t. fdset (m.infos t).fd) (q p))
          (chosen (λ t. fdset (m.infos t).fd) (q p)) q))
      (sym here.at_head)
      (process-Holds p w fdset (λ t. fdset (m.infos t).fd) (m.lists p).count [] (q p) m q
        (λ z. refl) refl (omega (arith, here.counted)) h)
