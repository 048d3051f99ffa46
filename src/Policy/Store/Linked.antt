-- ===== src/Policy/Store/Linked.antt =====
-- About `vsecplat_add_policy` of vsecplat_policy.c, and when the list of converted addresses is in
-- step with the rules: it holds the nodes that the rules point to, in the rules' order.
use vsecplat.Common.{ℕ, suc, ◌≤◌, Bool, true, false, List, [], ◌∷◌, ◌++◌, Option, none, some}
use vsecplat.Common.{◌≡◌, refl, sym, ◌∙◌, ap, All, All-append, arith}
use vsecplat.Common.{Bool-cases, inl, inr, append-nil}
use vsecplat.Policy.Rules.{RuleEntry}
use vsecplat.Policy.Store.{Node, Policies, converts, add_recurs_dst_mac, vsecplat_add_policy}

abbrev pub node_at : Option ℕ → RuleEntry → List Node → List Node
node_at none r ns = ns
node_at (some h) r ns = record { handle = h; dst_mac = r.dst_mac } ∷ ns

-- The nodes that the rules point to, in the rules' order.
abbrev pub nodes : List RuleEntry → List Node
nodes [] = []
nodes (r ∷ rs) = node_at r.recurs_dstmac r (nodes rs)

-- A rule points to a node exactly if it converts.
abbrev pub Ties : Option ℕ → Bool → Type 0
Ties none converting = converting ≡ false
Ties (some h) converting = converting ≡ true

abbrev pub IsTied : RuleEntry → Type 0
IsTied r = Ties r.recurs_dstmac (converts r)

-- The addresses of the nodes rise from `lo` to below `hi`.
abbrev pub Rising : ℕ → List Node → ℕ → Type 0
Rising lo [] hi = lo ≤ hi
Rising lo (n ∷ ns) hi = (lo ≤ n.handle) × Rising (suc n.handle) ns hi

pub record IsLinked (s : Policies) : Type 0 where
  pub mirrored : s.recurs ≡ nodes s.rules
  pub tied : All IsTied s.rules
  pub rising : Rising 0 s.recurs s.next

node_at-append :
    (o : Option ℕ) (r : RuleEntry) (ns ms : List Node)
    → node_at o r (ns ++ ms) ≡ node_at o r ns ++ ms
node_at-append none r ns ms = refl
node_at-append (some h) r ns ms = refl

nodes-append : (rs qs : List RuleEntry) → nodes (rs ++ qs) ≡ nodes rs ++ nodes qs
nodes-append [] qs = refl
nodes-append (r ∷ rs) qs =
    ap (node_at r.recurs_dstmac r) (nodes-append rs qs)
    ∙ node_at-append r.recurs_dstmac r (nodes rs) (nodes qs)

Rising-append :
    (lo h : ℕ) (ns : List Node) (m : List ℕ)
    → Rising lo ns h
    → Rising lo (ns ++ record { handle = h; dst_mac = m } ∷ []) (suc h)
Rising-append lo h [] m p = (p, omega arith)
Rising-append lo h (n ∷ ns) m p = (p.0, Rising-append (suc n.handle) h ns m p.1)

module _ (s : Policies) (inv : IsLinked s) (r : RuleEntry) where
  -- A rule that does not convert has no node.
  IsLinked-plain :
      r.recurs_dstmac ≡ none
      → converts r ≡ false
      → IsLinked (record s { rules = s.rules ++ r ∷ [] })
  IsLinked-plain unset plain = record {
    mirrored =
        inv.mirrored
        ∙ sym (append-nil (nodes s.rules))
        ∙ ap (λ o. nodes s.rules ++ node_at o r []) (sym unset)
        ∙ sym (nodes-append s.rules (r ∷ []));
    tied = All-append IsTied s.rules (r ∷ []) inv.tied (rw unset plain, tt);
    rising = inv.rising;
  }

  -- The new node stands behind those of the rules before.
  IsLinked-new :
      converts r ≡ true
      → IsLinked (record s {
        rules = s.rules ++ record r { recurs_dstmac = some s.next } ∷ [];
        recurs = s.recurs ++ record { handle = s.next; dst_mac = r.dst_mac } ∷ [];
        next = suc s.next;
      })
  IsLinked-new converting = record {
    mirrored =
        ap (λ ns. ns ++ record { handle = s.next; dst_mac = r.dst_mac } ∷ []) inv.mirrored
        ∙ sym (nodes-append s.rules (record r { recurs_dstmac = some s.next } ∷ []));
    tied = All-append IsTied s.rules _ inv.tied (converting, tt);
    rising = Rising-append 0 s.next s.recurs r.dst_mac inv.rising;
  }

  add_one-IsLinked :
      r.recurs_dstmac ≡ none
      → let (r', s') = add_recurs_dst_mac r s in
        IsLinked (record s' { rules = s'.rules ++ r' ∷ [] })
  add_one-IsLinked unset = elim (Bool-cases (converts r)) [
    | inl e ↦ unfold add_recurs_dst_mac in rw e (IsLinked-new e)
    | inr e ↦ unfold add_recurs_dst_mac in rw e (IsLinked-plain unset e)
  ]

abbrev pub IsUntied : RuleEntry → Type 0
IsUntied r = r.recurs_dstmac ≡ none

-- Adding rules that have no node yet keeps the list of converted addresses in step with them.
pub vsecplat_add_policy-IsLinked :
    (rs : List RuleEntry) (s : Policies)
    → All IsUntied rs
    → IsLinked s
    → IsLinked (vsecplat_add_policy rs s)
unfolding vsecplat_add_policy
vsecplat_add_policy-IsLinked [] s h inv = inv
vsecplat_add_policy-IsLinked (r ∷ rs) s h inv =
    vsecplat_add_policy-IsLinked rs _ h.1 (add_one-IsLinked s inv r h.0)
