-- ===== src/Policy/Forward.antt =====
-- What the policy decides for a packet: vsecplat_policy.c, lines 1173-1309.
pub mod Decision
use vsecplat.Common.{ℕ, zero, suc, Bool, true, false, List, [], ◌∷◌, if◌then◌else◌, ◌==◌, ◌&&◌, not}
use vsecplat.Common.{bit_and, xor, eqb_ℤ, pos, ntohs, ◌≡◌, take, drop, ◌++◌, Option, none, some}
use vsecplat.Policy.Objects.{AddrObj, AddrType}
use vsecplat.Policy.Objects.AddrType.{ip_null, ip_host, ip_net_mask, ip_range}
use vsecplat.Policy.Objects.Match.{test_match_addr_obj, check_addr_obj_list, check_num_obj_list}
use vsecplat.Policy.Rules.{
  RuleEntry, rule_not_sip, rule_not_dip, rule_not_sport, rule_not_dport, rule_not_proto,
  rule_not_vlanid, nm_pkt_drop, nm_pkt_forward, nm_pkt_discard,
}
use vsecplat.Policy.Store.{converts}

-- What `get_forward_policy` reads from the headers: the addresses and ports as they stand in
-- memory, in network byte order. For other protocols than TCP and UDP the ports are not read.
pub record Headers : Type 0 where
  pub saddr : ℕ
  pub daddr : ℕ
  pub protocol : ℕ
  pub source : ℕ
  pub dest : ℕ
  pub vlanid : ℕ

abbrev pub ipproto_tcp : ℕ
ipproto_tcp = 6

abbrev pub ipproto_udp : ℕ
ipproto_udp = 17

abbrev pub has_ports : ℕ → Bool
has_ports proto = if proto == ipproto_udp then true else proto == ipproto_tcp

unfoldable pub sport_of : Headers → ℕ
sport_of h = if has_ports h.protocol then ntohs h.source else 0

unfoldable pub dport_of : Headers → ℕ
dport_of h = if has_ports h.protocol then ntohs h.dest else 0

-- `((rule_not_flag & bit) == bit) ^ check`
unfoldable pub passes : ℕ → ℕ → Bool → Bool
passes flag bit check = xor (bit_and flag bit == bit) check

-- The tests of one rule; each that fails goes on with the next rule.
unfoldable pub rule_matches : RuleEntry → Headers → Bool
unfolding passes sport_of dport_of
rule_matches r h =
    if not (passes r.rule_not_flag rule_not_sip (check_addr_obj_list r.sip h.saddr))
    then false
    else if not (passes r.rule_not_flag rule_not_dip (check_addr_obj_list r.dip h.daddr))
    then false
    else if not (passes r.rule_not_flag rule_not_sport (check_num_obj_list r.sport (sport_of h)))
    then false
    else if not (passes r.rule_not_flag rule_not_dport (check_num_obj_list r.dport (dport_of h)))
    then false
    else if not (passes r.rule_not_flag rule_not_proto (check_num_obj_list r.proto h.protocol))
    then false
    else passes r.rule_not_flag rule_not_vlanid (check_num_obj_list r.vlanid h.vlanid)

-- The verdict, and the destination address that the packet's first bytes are overwritten with.
unfoldable pub get_forward_policy : List RuleEntry → Headers → ℕ × Option (List ℕ)
unfolding rule_matches
get_forward_policy [] h = (nm_pkt_drop, none)
get_forward_policy (r ∷ rs) h =
    if rule_matches r h
    then (r.forward, if r.forward == nm_pkt_forward && converts r then some r.dst_mac else none)
    else get_forward_policy rs h

-- One of the three loops of `check_duplicate_rule` over an array of 128 entries, up to the first
-- that is empty.
unfoldable pub in_ips : List AddrObj → ℕ → Bool
in_ips [] ip = false
in_ips (o ∷ os) ip =
    let rest = in_ips os ip in
    elim o.type [ ip_null ↦ false | _ ↦ if test_match_addr_obj o ip then true else rest ]

-- A pointer to a text: the null pointer, a text, or memory that was given back.
pub data TextPtr : Type 0 where
  null_text : TextPtr
  live : List ℕ → TextPtr
  freed : TextPtr

pub record DuplicateRule : Type 0 where
  pub src_ip : List AddrObj
  pub dst_ip : List AddrObj
  pub json_txt : TextPtr

unfoldable pub check_duplicate_rule : DuplicateRule → ℕ → ℕ → ℕ
unfolding in_ips
check_duplicate_rule d saddr daddr =
    let src_in_srcips = in_ips d.src_ip saddr in
    let dst_in_srcips = in_ips d.src_ip daddr in
    let dst_in_dstips = in_ips d.dst_ip daddr in
    if src_in_srcips && not dst_in_srcips && dst_in_dstips then nm_pkt_discard else nm_pkt_forward
