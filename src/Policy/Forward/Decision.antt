-- ===== src/Policy/Forward/Decision.antt =====
-- About `get_forward_policy`, `check_duplicate_rule` and `check_recursive_packet` of
-- vsecplat_policy.c.
use vsecplat.Common.{ℕ, Bool, true, false, List, [], ◌∷◌, ◌++◌, if◌then◌else◌, ◌==◌, ◌&&◌, All}
use vsecplat.Common.{any, ◌≡◌, ◌↔◌, ◌⊎◌, refl, ◌∙◌, ap, arith, take, Option, none, some}
use vsecplat.Common.{zero-bit_and, xor}
use vsecplat.Policy.Objects.{AddrObj, AddrType, NumObj}
use vsecplat.Policy.Objects.AddrType.{ip_null}
use vsecplat.Policy.Objects.Match.{check_addr_obj_list, check_num_obj_list}
use vsecplat.Policy.Rules.{
  RuleEntry, rule_not_sip, rule_not_dip, rule_not_sport, rule_not_dport, rule_not_proto,
  rule_not_vlanid, nm_pkt_drop, nm_pkt_forward, nm_pkt_discard,
}
use vsecplat.Policy.Text.{nm_mac_len}
use vsecplat.Policy.Store.{Node, Policies, converts, check_recursive}
use vsecplat.Policy.Store.Linked.{nodes, node_at, Ties, IsTied, IsLinked}
use vsecplat.Policy.Forward.{
  Headers, passes, sport_of, dport_of, rule_matches, get_forward_policy, in_ips, DuplicateRule,
  check_duplicate_rule,
}
use vsecplat.Json.Access.{str_eq}

-- The first rule that matches decides: its verdict is returned, and the destination address is
-- rewritten exactly if that rule forwards and converts. By the rules before it alone, none of which
-- matches, the packet is dropped and left as it is.
pub get_forward_policy-first :
    (pre post : List RuleEntry) (r : RuleEntry) (h : Headers)
    → All (λ q. rule_matches q h ≡ false) pre
    → rule_matches r h ≡ true
    → (get_forward_policy (pre ++ r ∷ post) h
        ≡ (r.forward, if r.forward == nm_pkt_forward && converts r then some r.dst_mac else none))
      × (get_forward_policy pre h ≡ (nm_pkt_drop, none))
unfolding get_forward_policy
get_forward_policy-first [] post r h missed m = (rw m, refl)
get_forward_policy-first (q ∷ pre) post r h missed m =
    let rest = get_forward_policy-first pre post r h missed.1 m in
    (rw missed.0 rest.0, rw missed.0 rest.1)

passes_gap : (bit : ℕ) (c : Bool) → (0 == bit) ≡ false → c ≡ false → passes 0 bit c ≡ false
unfolding passes xor
passes_gap bit c e h = rw (zero-bit_and bit, e, h)

-- A rule that leaves out one of the six criteria.
abbrev pub HasGap : RuleEntry → Type 0
HasGap r =
    (r.sip ≡ []) ⊎ (r.dip ≡ []) ⊎ (r.sport ≡ []) ⊎ (r.dport ≡ []) ⊎ (r.proto ≡ []) ⊎ (r.vlanid ≡ [])

no_addr : (l : List AddrObj) (ip : ℕ) → l ≡ [] → check_addr_obj_list l ip ≡ false
unfolding check_addr_obj_list
no_addr l ip e = rw e

no_num : (l : List NumObj) (n : ℕ) → l ≡ [] → check_num_obj_list l n ≡ false
unfolding check_num_obj_list
no_num l n e = rw e

-- A rule without negated criteria that leaves one of the six out matches no packet.
pub unstated_criterion :
    (r : RuleEntry) (h : Headers) → r.rule_not_flag ≡ 0 → HasGap r → rule_matches r h ≡ false
unstated_criterion r h flag gap = go r.rule_not_flag flag
  where
    go : (f : ℕ) → f ≡ 0 → rule_matches (record r { rule_not_flag = f }) h ≡ false
    go f zeroed = rw zeroed (
        unfold rule_matches in
        ground (
          arith,
          passes_gap rule_not_sip (check_addr_obj_list r.sip h.saddr) refl,
          passes_gap rule_not_dip (check_addr_obj_list r.dip h.daddr) refl,
          passes_gap rule_not_sport (check_num_obj_list r.sport (sport_of h)) refl,
          passes_gap rule_not_dport (check_num_obj_list r.dport (dport_of h)) refl,
          passes_gap rule_not_proto (check_num_obj_list r.proto h.protocol) refl,
          passes_gap rule_not_vlanid (check_num_obj_list r.vlanid h.vlanid) refl,
          no_addr r.sip h.saddr,
          no_addr r.dip h.daddr,
          no_num r.sport (sport_of h),
          no_num r.dport (dport_of h),
          no_num r.proto h.protocol,
          no_num r.vlanid h.vlanid,
        ))

-- The entries of a duplicate array that count: those before the first empty one.
abbrev is_null : AddrType → Bool
is_null ip_null = true
is_null _ = false

abbrev pub used : List AddrObj → List AddrObj
used [] = []
used (o ∷ os) = if is_null o.type then [] else o ∷ used os

in_ips-used : (os : List AddrObj) (ip : ℕ) → in_ips os ip ≡ check_addr_obj_list (used os) ip
unfolding in_ips check_addr_obj_list
in_ips-used [] ip = refl
in_ips-used (o ∷ os) ip = ground (arith, in_ips-used os ip)

-- A packet is a duplicate exactly if its source is one of the watched sources, its destination
-- is one of the watched destinations and is not itself a watched source; only the entries before
-- the first empty one are watched.
pub check_duplicate_rule_iff :
    (d : DuplicateRule) (saddr daddr : ℕ)
    → (check_duplicate_rule d saddr daddr ≡ nm_pkt_discard) ↔ (
        (check_addr_obj_list (used d.src_ip) saddr ≡ true)
        × (check_addr_obj_list (used d.src_ip) daddr ≡ false)
        × (check_addr_obj_list (used d.dst_ip) daddr ≡ true))
unfolding check_duplicate_rule
check_duplicate_rule_iff d saddr daddr =
    rw (in_ips-used d.src_ip saddr, in_ips-used d.src_ip daddr, in_ips-used d.dst_ip daddr)
      (ground arith)

-- Whether a rule that converts has the address at the packet's start for its target.
abbrev pub targeted : List RuleEntry → List ℕ → Bool
targeted rs raw = any (λ r. converts r && str_eq r.dst_mac (take nm_mac_len raw)) rs

recursive-node :
    (r : RuleEntry) (o : Option ℕ) (ns : List Node) (raw : List ℕ)
    → Ties o (converts r)
    → check_recursive (node_at o r ns) raw ≡ (
        if converts r && str_eq r.dst_mac (take nm_mac_len raw)
        then nm_pkt_discard
        else check_recursive ns raw)
unfolding check_recursive
recursive-node r none ns raw tie = rw tie
recursive-node r (some k) ns raw tie = rw tie

recursive-nodes :
    (rs : List RuleEntry) (raw : List ℕ)
    → All IsTied rs
    → check_recursive (nodes rs) raw ≡ (if targeted rs raw then nm_pkt_discard else nm_pkt_forward)
recursive-nodes [] raw tied = unfold check_recursive in refl
recursive-nodes (r ∷ rs) raw tied =
    recursive-node r r.recurs_dstmac (nodes rs) raw tied.0
    ∙ (rw (recursive-nodes rs raw tied.1) (ground arith))

-- Where the list of converted addresses is in step with the rules, a packet is discarded as one
-- that the daemon sent itself exactly if its destination is the target of a rule that converts.
pub check_recursive-targeted :
    (s : Policies) (raw : List ℕ)
    → IsLinked s
    → check_recursive s.recurs raw
      ≡ (if targeted s.rules raw then nm_pkt_discard else nm_pkt_forward)
check_recursive-targeted s raw inv =
    ap (λ ns. check_recursive ns raw) inv.mirrored ∙ recursive-nodes s.rules raw inv.tied
