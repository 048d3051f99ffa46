-- ===== src/Tests/Rules.antt =====
-- The rules, the messages and the duplicate rule at samples.
use vsecplat.Common.{ℕ, true, false, [], ◌∷◌, Option, none, some, inl}
use vsecplat.Common.{if◌then◌else◌, ℤ, pos, ◌≡◌, ◌↔◌, refl, ◌==◌, ◌&&◌}
use vsecplat.Common.Run.{Run, ok, fault, ◌>>=◌, Returns}
use vsecplat.Policy.Rules.{
  parse_forward_rules, key_forward_rules, key_id, nm_pkt_drop, nm_pkt_forward, nm_pkt_discard,
}
use vsecplat.Policy.Store.{vsecplat_store_policy, vsecplat_del_policy, converts, check_recursive}
use vsecplat.Policy.Store.Linked.{IsLinked}
use vsecplat.Policy.Store.Deletion.{unnamed, vsecplat_del_policy-IsLinked}
use vsecplat.Policy.Forward.{
  get_forward_policy, rule_matches, check_duplicate_rule, DuplicateRule, live,
}
use vsecplat.Policy.Forward.Decision.{
  get_forward_policy-first, unstated_criterion, check_duplicate_rule_iff, check_recursive-targeted,
  targeted, used,
}
use vsecplat.Policy.Objects.Match.{
  check_addr_obj_list, test_match_addr_obj, check_num_obj_list, test_match_num_obj,
}
use vsecplat.Json.Access.{rte_object_get_item, rte_array_get_size}
use vsecplat.Json.Persist.{rte_persist_json}
unfoldable use vsecplat.Common.{xor}
use vsecplat.Policy.Duplicates.{Duplicates, del_duplicate_rule}
use vsecplat.Policy.Dispatch.{Engine, vsecplat_parse_policy, key_action}
use vsecplat.Policy.Dispatch.Effects.{
  refused-unchanged, vsecplat_parse_policy-IsLinked, del_duplicate_twice,
}
use vsecplat.Json.{Json, integer, object, array, nil, member}
use vsecplat.Tests.Samples.{
  open_rule, tied_rule, blank_rule, two_rules, two_rules-IsLinked, engine, headers, host_obj,
  target_mac, show_sample, aton_sample,
}

-- A message with an action, and nothing else.
abbrev message : ℕ → Option (Json ℕ)
message n = some (object (member (some key_action) (integer (pos n)) nil))

-- A message that deletes rule 7.
abbrev del_message : Option (Json ℕ)
del_message = some (
    object (
      member (some key_action) (integer (pos 2)) (
        member (some key_forward_rules)
          (array (member none (object (member (some key_id) (integer (pos 7)) nil)) nil)) nil)))

abbrev engine_of : Run (Engine × ℤ) → Engine
engine_of (ok (e, code)) = e
engine_of fault = engine

abbrev without_7 : Engine
without_7 = engine_of (vsecplat_parse_policy show_sample aton_sample 0 del_message engine)

vsecplat_parse_policy-IsLinked_example : IsLinked without_7.policies
unfolding vsecplat_parse_policy rte_object_get_item parse_forward_rules vsecplat_del_policy
    vsecplat_store_policy rte_array_get_size rte_persist_json
vsecplat_parse_policy-IsLinked_example =
    vsecplat_parse_policy-IsLinked show_sample aton_sample 0 del_message engine without_7 (pos 0)
      two_rules-IsLinked refl

refused-unchanged_example : engine ≡ engine
unfolding vsecplat_parse_policy rte_object_get_item parse_forward_rules
refused-unchanged_example =
    refused-unchanged show_sample aton_sample 0 (message 1) engine engine refl

vsecplat_del_policy-IsLinked_example :
    Returns (vsecplat_del_policy (open_rule ∷ []) two_rules) (λ t.
      (t.rules ≡ unnamed (open_rule ∷ []) two_rules.rules) × (t.next ≡ two_rules.next) × IsLinked t)
vsecplat_del_policy-IsLinked_example =
    vsecplat_del_policy-IsLinked (open_rule ∷ []) two_rules two_rules-IsLinked

get_forward_policy-first_example :
    (get_forward_policy (blank_rule ∷ tied_rule ∷ []) headers ≡ (
      1,
      if tied_rule.forward == nm_pkt_forward && converts tied_rule then some target_mac else none,
    ))
    × (get_forward_policy (blank_rule ∷ []) headers ≡ (nm_pkt_drop, none))
unfolding rule_matches xor check_addr_obj_list test_match_addr_obj check_num_obj_list
    test_match_num_obj
get_forward_policy-first_example =
    get_forward_policy-first (blank_rule ∷ []) [] tied_rule headers (refl, tt) refl

unstated_criterion_example : rule_matches blank_rule headers ≡ false
unstated_criterion_example = unstated_criterion blank_rule headers refl (inl refl)

-- Watches 10.0.0.1 to 10.0.0.2.
abbrev watching : DuplicateRule
watching = record {
  src_ip = host_obj 0x0100000a ∷ [];
  dst_ip = host_obj 0x0200000a ∷ [];
  json_txt = live (b'{' ∷ b'}' ∷ []);
}

check_duplicate_rule_iff_example :
    (check_duplicate_rule watching 0x0100000a 0x0200000a ≡ nm_pkt_discard) ↔ (
      (check_addr_obj_list (used watching.src_ip) 0x0100000a ≡ true)
      × (check_addr_obj_list (used watching.src_ip) 0x0200000a ≡ false)
      × (check_addr_obj_list (used watching.dst_ip) 0x0200000a ≡ true))
check_duplicate_rule_iff_example = check_duplicate_rule_iff watching 0x0100000a 0x0200000a

check_recursive-targeted_example :
    check_recursive two_rules.recurs target_mac
    ≡ (if targeted two_rules.rules target_mac then nm_pkt_discard else nm_pkt_forward)
check_recursive-targeted_example = check_recursive-targeted two_rules target_mac two_rules-IsLinked

abbrev watched : Duplicates
watched = record { rule = watching; file = none }

del_duplicate_twice_example : (del_duplicate_rule watched >>= del_duplicate_rule) ≡ fault
del_duplicate_twice_example = del_duplicate_twice watched (b'{' ∷ b'}' ∷ []) refl
