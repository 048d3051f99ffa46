-- ===== src/Threads/Master/Cancel.antt =====
-- About `thread_cancel` and `thread_run` of thread.c: the lists behind them.
use vsecplat.Common.{ℕ, true, false, List, [], ◌∷◌, ◌++◌, none, some, All}
use vsecplat.Common.{◌==◌, ◌≡◌, refl, sym, ◌∙◌, ap, subst, arith}
use vsecplat.Threads.{ThreadList}
use vsecplat.Threads.Segments.{first, IsApart}
use vsecplat.Threads.Lists.{Represents}
use vsecplat.Threads.Refinement.{thread_list_add-Represents}
use vsecplat.Threads.Frames.{SameOutside, thread_list_add-SameOutside}
use vsecplat.Threads.Master.{
  timer, unused, Queue, reading, writing, timing, readied, unuse, put_info, ThreadMaster, add_to,
  set_type, cancel_from, thread_cancel, same, Info,
}
use vsecplat.Threads.Master.Holds.{Queues, with, type_of, Holds, IsLoose, IsApart-type}
use vsecplat.Threads.Master.Moves.{delete_from-Holds}
use vsecplat.Threads.Master.Get.{enqueue-Holds, put_info_self}

-- A thread in a list has the type of the list.
pub type_in :
    (m : ThreadMaster) (q : Queues) (p : Queue) (us vs : List ℕ) (t : ℕ)
    → q p ≡ us ++ t ∷ vs
    → Holds m q
    → (m.infos t).type ≡ type_of p
type_in m q p us vs t e h =
    middle us (subst (λ xs. All (λ x. (m.infos x).type ≡ type_of p) xs) e (h.typed p))
  where
    middle :
        (us : List ℕ)
        → All (λ x. (m.infos x).type ≡ type_of p) (us ++ t ∷ vs)
        → (m.infos t).type ≡ type_of p
    middle [] g = g.0
    middle (u ∷ us) g = middle us g.1

-- A loose thread goes back to the unused ones.
pub retire-Holds :
    (t : ℕ) (m : ThreadMaster) (q : Queues)
    → Holds m q
    → IsLoose t q
    → Holds (add_to unuse t (set_type t unused m)) (with unuse (q unuse ++ t ∷ []) q)
retire-Holds t m q h loose =
    enqueue-Holds unuse t (record (m.infos t) { type = unused }) m q h loose refl

-- The lists from which a thread can be cancelled.
abbrev pub CanCancel : Queue → Type 0
CanCancel reading = Unit
CanCancel writing = Unit
CanCancel readied = Unit
CanCancel timing = ⊥
CanCancel unuse = ⊥

cancel_from-Holds :
    (p : Queue) (t : ℕ) (us vs : List ℕ) (m : ThreadMaster) (q : Queues)
    → CanCancel p
    → q p ≡ us ++ t ∷ vs
    → Holds m q
    → Holds (cancel_from (type_of p) t m) (with p (us ++ vs) q) × IsLoose t (with p (us ++ vs) q)
cancel_from-Holds reading t us vs m q can e h =
    delete_from-Holds reading t us vs _ q e (record { represents = h.represents; typed = h.typed })
cancel_from-Holds writing t us vs m q can e h =
    delete_from-Holds writing t us vs _ q e (record { represents = h.represents; typed = h.typed })
cancel_from-Holds readied t us vs m q can e h = delete_from-Holds readied t us vs m q e h
cancel_from-Holds timing t us vs m q can e h = elim can [ ]
cancel_from-Holds unuse t us vs m q can e h = elim can [ ]

-- A thread that waits to read or to write, or that is ready, is cancelled: it leaves its list, in which
-- the others stay in their order, and is the last of the unused threads. The other lists stay as they are.
pub thread_cancel-Holds :
    (p : Queue) (t : ℕ) (us vs : List ℕ) (m : ThreadMaster) (q : Queues)
    → CanCancel p
    → q p ≡ us ++ t ∷ vs
    → Holds m q
    → Holds (thread_cancel (some t) m) (with unuse (q unuse ++ t ∷ []) (with p (us ++ vs) q))
unfolding thread_cancel
thread_cancel-Holds p t us vs m q can e h =
    let left = cancel_from-Holds p t us vs m q can e h in
    rw (type_in m q p us vs t e h) (
      subst
        (λ (xs : List ℕ).
          Holds (add_to unuse t (set_type t unused (cancel_from (type_of p) t m)))
            (with unuse (xs ++ t ∷ []) (with p (us ++ vs) q)))
        (others p can)
        (retire-Holds t (cancel_from (type_of p) t m) (with p (us ++ vs) q) left.0 left.1))
  where
    others : (p : Queue) → CanCancel p → with p (us ++ vs) q unuse ≡ q unuse
    others reading can = refl
    others writing can = refl
    others readied can = refl
    others timing can = elim can [ ]
    others unuse can = elim can [ ]

-- What is left of a timer that was cancelled: all lists but that of the unused threads keep head, tail
-- and count, and the timer is the last of the unused threads, marked as unused; other threads keep their
-- links, but for the last of the unused ones before it.
pub record Retired (t : ℕ) (q : Queues) (m m' : ThreadMaster) : Type 0 where
  pub kept : (p : Queue) → same p unuse ≡ false → m'.lists p ≡ m.lists p
  pub retired : Represents (m'.lists unuse) m'.links (q unuse ++ t ∷ [])
  pub marked : (m'.infos t).type ≡ unused
  pub others : SameOutside (t ∷ q unuse) m.links m'.links

same_flip : (p r : Queue) → same p r ≡ false → same r p ≡ false
same_flip p r h = ground arith

cancel_timer-Retired :
    (t : ℕ) (rest : List ℕ) (m : ThreadMaster) (q : Queues)
    → q timing ≡ t ∷ rest
    → Holds m q
    → Retired t q m (thread_cancel (some t) m)
unfolding thread_cancel
cancel_timer-Retired t rest m q e h =
    let kind = type_in m q timing [] rest t e h in
    let apart : IsApart t (q unuse) =
      IsApart-type m.infos t unuse (q unuse) (λ same_type. cc) (h.typed unuse) in
    rw kind (record {
      kept = λ p other. rw (same_flip p unuse other) refl;
      retired =
          thread_list_add-Represents (m.lists unuse) m.links (q unuse) t apart (h.represents unuse);
      marked =
          ap (λ (i : Info). i.type)
            (put_info_self t (record (m.infos t) { type = unused }) m.infos);
      others = thread_list_add-SameOutside (m.lists unuse) m.links (q unuse) t (h.represents unuse);
    })

cancel_timer_breaks :
    (t : ℕ) (rest : List ℕ) (m : ThreadMaster) (q : Queues)
    → q timing ≡ t ∷ rest
    → Holds m q
    → (q' : Queues) → ¬ (Holds (thread_cancel (some t) m) q')
unfolding thread_cancel
cancel_timer_breaks t rest m q e h q' broken =
    let kind = type_in m q timing [] rest t e h in
    let head = (h.represents timing).at_head ∙ ap (λ xs. first xs none) e in
    at_head (q' timing) (sym head ∙ (rw kind at (broken.represents timing).at_head))
      (rw kind at (broken.typed timing))
  where
    at_head :
        (xs : List ℕ)
        → some t ≡ first xs none
        → All (λ x. (put_info t (record (m.infos t) { type = unused }) m.infos x).type ≡ timer) xs
        → ⊥
    at_head [] f g = cc
    at_head (x ∷ xs) f g =
        let it : (t == x) ≡ true = let same_one : t ≡ x = cc in ground (arith, same_one) in
        let type_now : unused ≡ timer = rw it at g.0 in cc

-- A timer that stands first in its list and is cancelled stays at its head, as all lists but that of the
-- unused threads keep head, tail and count; it is marked as unused and becomes the last of the unused
-- threads, and the other threads keep their links, but for the last unused one before it. So no lists of
-- threads of the right types are what memory then holds.
pub thread_cancel_timer :
    (t : ℕ) (rest : List ℕ) (m : ThreadMaster) (q : Queues)
    → q timing ≡ t ∷ rest
    → Holds m q
    → ((thread_cancel (some t) m).lists timing).head ≡ some t
      × Retired t q m (thread_cancel (some t) m)
      × ((q' : Queues) → ¬ (Holds (thread_cancel (some t) m) q'))
thread_cancel_timer t rest m q e h =
    let left = cancel_timer-Retired t rest m q e h in
    (
      ap (λ (l : ThreadList). l.head) (left.kept timing refl)
          ∙ ((h.represents timing).at_head ∙ ap (λ xs. first xs none) e),
      left,
      cancel_timer_breaks t rest m q e h,
    )
