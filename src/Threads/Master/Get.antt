-- ===== src/Threads/Master/Get.antt =====
-- About `thread_get` of thread.c: the thread that it gives, and the lists behind it.
use vsecplat.Common.{ℕ, ◌≢◌, false, true, List, [], ◌∷◌, ◌++◌, Option, none, some, All}
use vsecplat.Common.{◌==◌, ◌≡◌, refl, ◌∙◌, ap, subst, arith, Bool-cases, inl, inr}
use vsecplat.Threads.{Memory, ThreadList}
use vsecplat.Threads.Segments.{first, IsApart}
use vsecplat.Threads.Lists.{Represents}
use vsecplat.Threads.Refinement.{trim_first}
use vsecplat.Threads.Master.{
  ThreadType, Queue, unuse, same, Info, Infos, put_info, ThreadMaster, put_list, add_to,
  delete_from, trim_from, fill, give, thread_get,
}
use vsecplat.Threads.Master.Holds.{
  Queues, with, type_of, Holds, IsLoose, put_list-Holds, add_to-Holds,
}
use vsecplat.Threads.Master.Moves.{delete_from-Holds, put_info-Holds, put_links-Holds}

-- The thread that is taken, and those that stay unused.
abbrev pub taken : ℕ → List ℕ → ℕ × List ℕ
taken fresh [] = (fresh, [])
taken fresh (t ∷ rest) = (t, rest)

pub put_info_self : (t : ℕ) (i : Info) (m : Infos) → put_info t i m t ≡ i
put_info_self t i m = let here : (t == t) ≡ true = ground arith in rw here refl

pub put_info_other : (t : ℕ) (i : Info) (m : Infos) (z : ℕ) → z ≢ t → put_info t i m z ≡ m z
put_info_other t i m z far = let other : (t == z) ≡ false = ground (arith, far) in rw other refl

abbrev pub new_info : ThreadType → ℕ → ℕ → Info
new_info type func arg = record {
  type = type;
  func = func;
  arg = arg;
  fd = 0;
  sands = record { tv_sec = 0; tv_usec = 0 };
}

pub trim_reused :
    (p : Queue) (m : ThreadMaster) (q : Queues) (t : ℕ) (rest : List ℕ)
    → Holds m q
    → q p ≡ t ∷ rest
    → trim_from p m ≡ (some t, delete_from p t m)
trim_reused p m q t rest h e =
    ap (λ (r : Option ℕ × ThreadList × Memory). (r.0, put_list p (r.1, r.2) m))
      (trim_first (m.lists p) m.links (some t)
        ((h.represents p).at_head ∙ ap (λ xs. first xs none) e))

pub trim_empty :
    (p : Queue) (m : ThreadMaster) (q : Queues)
    → Holds m q
    → q p ≡ []
    → trim_from p m ≡ (none, put_list p (m.lists p, m.links) m)
trim_empty p m q h e =
    ap (λ (r : Option ℕ × ThreadList × Memory). (r.0, put_list p (r.1, r.2) m))
      (trim_first (m.lists p) m.links none ((h.represents p).at_head ∙ ap (λ xs. first xs none) e))

-- A thread in no list, with what it holds, over the lists that are left.
pub record Got (type : ThreadType) (func arg t : ℕ) (m : ThreadMaster) (q : Queues)
    (got : ℕ × ThreadMaster) : Type 0 where
  pub thread : got.0 ≡ t
  pub holds : Holds got.1 q
  pub loose : IsLoose t q
  pub filled : got.1.infos ≡ put_info t (new_info type func arg) m.infos
  pub reads : got.1.readfd ≡ m.readfd
  pub writes : got.1.writefd ≡ m.writefd

module _ (fresh : ℕ) (type : ThreadType) (func arg : ℕ) (m : ThreadMaster) (q : Queues)
    (h : Holds m q) where
  fill-Holds :
      (t : ℕ) (m : ThreadMaster) (q : Queues)
      → Holds m q
      → IsLoose t q
      → Holds (fill type func arg t m) q
  fill-Holds t m q h loose =
      put_links-Holds t _ (record m { infos = put_info t (new_info type func arg) m.infos }) q
        (put_info-Holds t (new_info type func arg) m q h loose) loose

  get_reused :
      (t : ℕ) (rest : List ℕ)
      → q unuse ≡ t ∷ rest
      → thread_get fresh type func arg m ≡ (t, fill type func arg t (delete_from unuse t m))
  unfolding thread_get
  get_reused t rest e =
      ap (λ (r : Option ℕ × ThreadMaster). give fresh type func arg r.0 r.1)
        (trim_reused unuse m q t rest h e)

  get_new :
      q unuse ≡ []
      → thread_get fresh type func arg m
        ≡ give fresh type func arg none (put_list unuse (m.lists unuse, m.links) m)
  unfolding thread_get
  get_new e =
      ap (λ (r : Option ℕ × ThreadMaster). give fresh type func arg r.0 r.1)
        (trim_empty unuse m q h e)

  pub thread_get-Got :
      (xs : List ℕ)
      → q unuse ≡ xs
      → IsLoose fresh q
      → Got type func arg
          (taken fresh xs).0
          m
          (with unuse (taken fresh xs).1 q)
          (thread_get fresh type func arg m)
  thread_get-Got [] e loose =
      let here = subst (λ xs. Represents (m.lists unuse) m.links xs) e (h.represents unuse) in
      let kept =
        put_list-Holds unuse (m.lists unuse) m.links [] [] m q h here tt (λ z a. refl)
          (λ r other. none_of (q r)) in
      let loose' = λ (r : Queue).
        elim (Bool-cases (same unuse r)) as (λ _. IsApart fresh (with unuse [] q r)) [
          | inl at ↦ rw at tt
          | inr at ↦ rw at (loose r)
        ] in
      rw (get_new e) (record {
        thread = refl;
        holds =
            fill-Holds fresh _ (with unuse [] q)
              (record { represents = kept.represents; typed = kept.typed }) loose';
        loose = loose';
        filled = refl;
        reads = refl;
        writes = refl;
      })
    where
      none_of : (xs : List ℕ) → All (λ z. IsApart z []) xs
      none_of [] = tt
      none_of (x ∷ xs) = (tt, none_of xs)
  thread_get-Got (t ∷ rest) e loose =
      let left = delete_from-Holds unuse t [] rest m q e h in
      rw (get_reused t rest e) (record {
        thread = refl;
        holds = fill-Holds t (delete_from unuse t m) (with unuse rest q) left.0 left.1;
        loose = left.1;
        filled = refl;
        reads = refl;
        writes = refl;
      })

-- A loose thread, once it has what the list asks for, at the end of the list.
pub enqueue-Holds :
    (p : Queue) (t : ℕ) (i : Info) (m : ThreadMaster) (q : Queues)
    → Holds m q
    → IsLoose t q
    → i.type ≡ type_of p
    → Holds (add_to p t (record m { infos = put_info t i m.infos })) (with p (q p ++ t ∷ []) q)
enqueue-Holds p t i m q h loose kind =
    add_to-Holds p t (record m { infos = put_info t i m.infos }) q (put_info-Holds t i m q h loose)
      loose (ap (λ (j : Info). j.type) (put_info_self t i m.infos) ∙ kind)
