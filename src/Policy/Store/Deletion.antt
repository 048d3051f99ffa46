-- ===== src/Policy/Store/Deletion.antt =====
-- About `vsecplat_del_policy` and `del_recurs_dst_mac` of vsecplat_policy.c.
use vsecplat.Common.{ℕ, suc, ◌≤◌, List, [], ◌∷◌, ◌++◌, Option, none, some}
use vsecplat.Common.{if◌then◌else◌, ◌≡◌, refl, sym, ◌∙◌, ap, All, any, arith, append_assoc}
use vsecplat.Common.{Bool-cases, inl, inr, append-nil, subst, eqb_ℤ, ℤ}
use vsecplat.Common.Run.{ok, Returns}
use vsecplat.Policy.Rules.{RuleEntry}
use vsecplat.Policy.Store.{
  Node, Policies, converts, list_del, del_recurs_dst_mac, del_loop, vsecplat_del_policy,
}
use vsecplat.Policy.Store.Linked.{nodes, node_at, Ties, IsTied, Rising, IsLinked}

-- The rules that are left when those of an id are taken out.
abbrev without : ℤ → List RuleEntry → List RuleEntry
without id [] = []
without id (r ∷ rs) = if eqb_ℤ id r.id then without id rs else r ∷ without id rs

Rising-le : (lo hi : ℕ) (ns : List Node) → Rising lo ns hi → lo ≤ hi
Rising-le lo hi [] h = h
Rising-le lo hi (n ∷ ns) h = omega (arith, Rising-le (suc n.handle) hi ns h.1)

Rising-weaken : (lo lo' hi : ℕ) (ns : List Node) → lo ≤ lo' → Rising lo' ns hi → Rising lo ns hi
Rising-weaken lo lo' hi [] p h = omega arith
Rising-weaken lo lo' hi (n ∷ ns) p h = (omega arith, h.1)

Rising-middle :
    (lo hi : ℕ) (pre : List Node) (n : Node) (ns : List Node)
    → Rising lo (pre ++ n ∷ ns) hi
    → lo ≤ n.handle
Rising-middle lo hi [] n ns h = h.0
Rising-middle lo hi (p ∷ pre) n ns h =
    omega (arith, h.0, Rising-middle (suc p.handle) hi pre n ns h.1)

-- In a rising list the node that is deleted is the one that was meant.
list_del-middle :
    (lo hi : ℕ) (pre : List Node) (n : Node) (ns : List Node)
    → Rising lo (pre ++ n ∷ ns) hi
    → list_del n.handle (pre ++ n ∷ ns) ≡ pre ++ ns
unfolding list_del
list_del-middle lo hi [] n ns h = ground arith
list_del-middle lo hi (m ∷ pre) n ns h = ground (
  arith,
  Rising-middle (suc m.handle) hi pre n ns h.1,
  list_del-middle (suc m.handle) hi pre n ns h.1,
)

Rising-drop :
    (lo hi : ℕ) (pre : List Node) (n : Node) (ns : List Node)
    → Rising lo (pre ++ n ∷ ns) hi
    → Rising lo (pre ++ ns) hi
Rising-drop lo hi [] n ns h = Rising-weaken lo (suc n.handle) hi ns (omega (arith, h.0)) h.1
Rising-drop lo hi (m ∷ pre) n ns h = (h.0, Rising-drop (suc m.handle) hi pre n ns h.1)

module _ (r : RuleEntry) (pre ns : List Node) (hi : ℕ) where
  -- A rule that is deleted takes its node along.
  removed_node :
      (o : Option ℕ)
      → Ties o (converts r)
      → Rising 0 (pre ++ node_at o r ns) hi
      → del_recurs_dst_mac (record r { recurs_dstmac = o }) (pre ++ node_at o r ns) ≡ ok (pre ++ ns)
  unfolding del_recurs_dst_mac
  removed_node none tie h = rw tie
  removed_node (some k) tie h =
      rw (tie, list_del-middle 0 hi pre (record { handle = k; dst_mac = r.dst_mac }) ns h)

  removed-Rising : (o : Option ℕ) → Rising 0 (pre ++ node_at o r ns) hi → Rising 0 (pre ++ ns) hi
  removed-Rising none h = h
  removed-Rising (some k) h = Rising-drop 0 hi pre (record { handle = k; dst_mac = r.dst_mac }) ns h

-- The nodes before those of the rules that are left to visit.
before : Option ℕ → RuleEntry → List Node → List Node
before o r pre = pre ++ node_at o r []

before-append :
    (o : Option ℕ) (r : RuleEntry) (pre ns : List Node)
    → pre ++ node_at o r ns ≡ before o r pre ++ ns
unfolding before
before-append none r pre ns = rw append-nil
before-append (some k) r pre ns =
    sym (append_assoc pre (record { handle = k; dst_mac = r.dst_mac } ∷ []) ns)

abbrev DelLoop : ℤ → List RuleEntry → List Node → ℕ → Type 0
DelLoop id rs pre hi =
    (del_loop id rs (pre ++ nodes rs) ≡ ok (without id rs, pre ++ nodes (without id rs)))
    × Rising 0 (pre ++ nodes (without id rs)) hi

del_loop_lem :
    (id : ℤ) (rs : List RuleEntry) (pre : List Node) (hi : ℕ)
    → All IsTied rs
    → Rising 0 (pre ++ nodes rs) hi
    → DelLoop id rs pre hi
unfolding del_loop
del_loop_lem id [] pre hi tied h = (refl, h)
del_loop_lem id (r ∷ rs) pre hi tied h = elim (Bool-cases (eqb_ℤ id r.id)) [
  | inl e ↦
      let (run, up) =
        del_loop_lem id rs pre hi tied.1 (removed-Rising r pre (nodes rs) hi r.recurs_dstmac h) in
      (rw (e, removed_node r pre (nodes rs) hi r.recurs_dstmac tied.0 h) run, rw e up)
  | inr e ↦
      let at = before-append r.recurs_dstmac r pre in
      let (run, up) =
        del_loop_lem id rs (before r.recurs_dstmac r pre) hi tied.1 (rw (at (nodes rs)) at h) in
      (rw (e, at (nodes rs), run, ← at (nodes (without id rs))), rw (e, at _) up)
]

without-All {ℓ} :
    (P : RuleEntry → Type ℓ) (id : ℤ) (rs : List RuleEntry) → All P rs → All P (without id rs)
without-All P id [] h = h
without-All P id (r ∷ rs) h = elim (Bool-cases (eqb_ℤ id r.id)) [
  | inl e ↦ rw e (without-All P id rs h.1)
  | inr e ↦ rw e (h.0, without-All P id rs h.1)
]

-- The rules whose id is that of no rule of the request.
abbrev pub unnamed : List RuleEntry → List RuleEntry → List RuleEntry
unnamed qs [] = []
unnamed qs (r ∷ rs) = if any (λ q. eqb_ℤ q.id r.id) qs then unnamed qs rs else r ∷ unnamed qs rs

unnamed_none : (rs : List RuleEntry) → unnamed [] rs ≡ rs
unnamed_none [] = refl
unnamed_none (r ∷ rs) = ap (◌∷◌ r) (unnamed_none rs)

unnamed-without :
    (q : RuleEntry) (qs rs : List RuleEntry) → unnamed qs (without q.id rs) ≡ unnamed (q ∷ qs) rs
unnamed-without q qs [] = refl
unnamed-without q qs (r ∷ rs) = elim (Bool-cases (eqb_ℤ q.id r.id)) [
  | inl e ↦ rw e (unnamed-without q qs rs)
  | inr e ↦ rw (e, unnamed-without q qs rs)
]

-- Deleting rules does not fault, takes out the rules that have an id of the request, keeps the
-- others in their order, and leaves the list of converted addresses in step with them.
pub vsecplat_del_policy-IsLinked :
    (qs : List RuleEntry) (s : Policies)
    → IsLinked s
    → Returns
        (vsecplat_del_policy qs s)
        (λ t. (t.rules ≡ unnamed qs s.rules) × (t.next ≡ s.next) × IsLinked t)
unfolding vsecplat_del_policy
vsecplat_del_policy-IsLinked [] s inv = (s, refl, (sym (unnamed_none s.rules), refl, inv))
vsecplat_del_policy-IsLinked (q ∷ qs) s inv =
    let one =
      del_loop_lem q.id s.rules [] s.next inv.tied
        (subst (λ ns. Rising 0 ns s.next) inv.mirrored inv.rising) in
    let rules' = without q.id s.rules in
    let linked : IsLinked (record s { rules = rules'; recurs = nodes rules' }) = record {
      mirrored = refl;
      tied = without-All IsTied q.id s.rules inv.tied;
      rising = one.1;
    } in
    let (t, run, (same, next, inv')) = vsecplat_del_policy-IsLinked qs _ linked in
    (t, rw (inv.mirrored, one.0) run, (same ∙ unnamed-without q qs s.rules, next, inv'))
