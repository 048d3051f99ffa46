-- ===== src/Threads/Master/Holds.antt =====
-- About the lists of the scheduler of thread.c: the threads of each, which have its type.
use vsecplat.Common.{ℕ, true, false, List, [], ◌∷◌, ◌++◌, All, All-append}
use vsecplat.Common.{if◌then◌else◌, ◌≡◌, ◌≢◌, refl, sym, ◌∙◌, ap, subst, Bool-cases, inl, inr}
use vsecplat.Threads.{Memory, ThreadList, thread_list_add}
use vsecplat.Threads.Segments.{IsApart}
use vsecplat.Threads.Lists.{Represents}
use vsecplat.Threads.Refinement.{thread_list_add-Represents}
use vsecplat.Threads.Frames.{SameOutside, Represents-same, thread_list_add-SameOutside}
use vsecplat.Threads.Master.{
  ThreadType, read, write, timer, ready, unused, Queue, reading, writing, timing, readied, unuse,
  same, Infos, ThreadMaster, put_list, thread_master_create, add_to,
}

-- The threads of every list.
abbrev pub Queues : Type 0
Queues = Queue → List ℕ

abbrev pub with : Queue → List ℕ → Queues → Queues
with p xs q r = if same p r then xs else q r

abbrev pub type_of : Queue → ThreadType
type_of reading = read
type_of writing = write
type_of timing = timer
type_of readied = ready
type_of unuse = unused

pub record Holds (m : ThreadMaster) (q : Queues) : Type 0 where
  pub represents : (p : Queue) → Represents (m.lists p) m.links (q p)
  pub typed : (p : Queue) → All (λ t. (m.infos t).type ≡ type_of p) (q p)

-- The thread is in no list.
abbrev pub IsLoose : ℕ → Queues → Type 0
IsLoose t q = (p : Queue) → IsApart t (q p)

pub same-eq : (p r : Queue) → same p r ≡ true → p ≡ r
same-eq reading reading h = refl
same-eq writing writing h = refl
same-eq timing timing h = refl
same-eq readied readied h = refl
same-eq unuse unuse h = refl
same-eq _ _ h = cc

type_of-ne : (p r : Queue) → same p r ≡ false → type_of p ≢ type_of r
type_of-ne reading reading h = cc
type_of-ne writing writing h = cc
type_of-ne timing timing h = cc
type_of-ne readied readied h = cc
type_of-ne unuse unuse h = cc
type_of-ne _ _ h = λ e. cc

-- A thread of another type is apart.
pub IsApart-type :
    (infos : Infos) (t : ℕ) (p : Queue) (xs : List ℕ)
    → (infos t).type ≢ type_of p
    → All (λ x. (infos x).type ≡ type_of p) xs
    → IsApart t xs
IsApart-type infos t p [] h g = tt
IsApart-type infos t p (x ∷ xs) h g =
    (λ e. h (ap (λ y. (infos y).type) e ∙ g.0), IsApart-type infos t p xs h g.1)

pub Holds-IsApart :
    (m : ThreadMaster) (q : Queues) (p r : Queue)
    → Holds m q
    → same p r ≡ false
    → All (λ z. IsApart z (q p)) (q r)
Holds-IsApart m q p r h other = away (q r) (h.typed r)
  where
    away :
        (zs : List ℕ) → All (λ z. (m.infos z).type ≡ type_of r) zs → All (λ z. IsApart z (q p)) zs
    away [] g = tt
    away (z ∷ zs) g = (
      IsApart-type m.infos z p (q p) (λ e. type_of-ne p r other (sym e ∙ g.0)) (h.typed p),
      away zs g.1,
    )

pub All-IsApart :
    (t : ℕ) (xs zs : List ℕ)
    → IsApart t zs
    → All (λ z. IsApart z xs) zs
    → All (λ z. IsApart z (t ∷ xs)) zs
All-IsApart t xs [] h g = tt
All-IsApart t xs (z ∷ zs) h g = ((λ e. h.0 (sym e), g.0), All-IsApart t xs zs h.1 g.1)

-- One list changes, and the memory only at threads that the other lists do not hold.
pub put_list-Holds :
    (p : Queue) (list : ThreadList) (links : Memory) (xs written : List ℕ) (m : ThreadMaster)
    (q : Queues)
    → Holds m q
    → Represents list links xs
    → All (λ t. (m.infos t).type ≡ type_of p) xs
    → SameOutside written m.links links
    → ((r : Queue) → same p r ≡ false → All (λ z. IsApart z written) (q r))
    → Holds (put_list p (list, links) m) (with p xs q)
put_list-Holds p list links xs written m q h r typed frame away = record {
  represents = λ s. elim (Bool-cases (same p s)) [
    | inl e ↦ rw e r
    | inr e ↦
        rw e (
          Represents-same written m.links links (m.lists s) (q s) frame (away s e) (h.represents s))
  ];
  typed = λ s. elim (Bool-cases (same p s)) [
    | inl e ↦ rw e (subst (λ u. All (λ t. (m.infos t).type ≡ type_of u) xs) (same-eq p s e) typed)
    | inr e ↦ rw e (h.typed s)
  ];
}

pub add_to-Holds :
    (p : Queue) (t : ℕ) (m : ThreadMaster) (q : Queues)
    → Holds m q
    → IsLoose t q
    → (m.infos t).type ≡ type_of p
    → Holds (add_to p t m) (with p (q p ++ t ∷ []) q)
add_to-Holds p t m q h loose kind =
    let result = thread_list_add (m.lists p) t m.links in
    put_list-Holds p result.0 result.1 (q p ++ t ∷ []) (t ∷ q p) m q h
      (thread_list_add-Represents (m.lists p) m.links (q p) t (loose p) (h.represents p))
      (All-append _ (q p) (t ∷ []) (h.typed p) (kind, tt))
      (thread_list_add-SameOutside (m.lists p) m.links (q p) t (h.represents p))
      (λ r other. All-IsApart t (q p) (q r) (loose r) (Holds-IsApart m q p r h other))

-- A new scheduler has no threads.
pub thread_master_create-Holds : Holds thread_master_create (λ p. [])
unfolding thread_master_create
thread_master_create-Holds = record {
  represents =
      λ p. record { at_head = refl; at_tail = refl; counted = refl; linked = tt; distinct = tt };
  typed = λ p. tt;
}
