-- ===== src/Tests/Exchange.antt =====
-- Texts of messages, answers and files at samples.
use vsecplat.Common.{ℕ, ◌+◌, ◌*◌, Bool, true, false, [], ◌∷◌, none, some, pos, neg, if◌then◌else◌}
use vsecplat.Common.{◌≡◌, ◌≢◌, refl, arith}
use vsecplat.Common.Run.{ok, Returns}
use vsecplat.Policy.Text.{Str}
use vsecplat.Policy.Rules.{
  RuleEntry, init_rule_entry, key_id, key_forward_rules, parse_forward_rules, persist_json_entry,
}
use vsecplat.Policy.Store.{vsecplat_store_policy, vsecplat_add_policy}
use vsecplat.Policy.Duplicates.{
  no_duplicates, key_duplicate_rules, key_src_ips, key_dst_ips, parse_duplicate_rule,
  add_duplicate_rule,
}
use vsecplat.Policy.Dispatch.{Engine, vsecplat_parse_policy, key_action}
use vsecplat.Policy.Load.{
  vsecplat_load_policy, vsecplat_load_duplicate_rule, create_policy_response, key_result,
  key_report_state, key_mirror_state, key_guide_state,
}
use vsecplat.Policy.Load.Restart.{restart}
use vsecplat.Policy.Load.Duplicate.{restart_duplicate}
use vsecplat.Policy.Load.Answer.{read_response}
use vsecplat.Json.{Json, Members, integer, object, array, nil, member}
use vsecplat.Json.Access.{rte_object_get_item, rte_array_get_size}
use vsecplat.Json.Persist.{rte_persist_json, c_string}
use vsecplat.Json.Parse.{out_of_fuel, parsed, rte_parse_json}
use vsecplat.Json.Parse.Total.{rte_parse_json-ends}
use vsecplat.Json.Parse.Number.{FloatOps, ExactBelow}
use vsecplat.Json.Parse.Written.{parse_persisted}
use vsecplat.Json.Parse.Shown.{shown}
use vsecplat.Policy.Forward.{live}
use vsecplat.Tests.Samples.{aton_sample}

-- Integers of any size with a sign: the arithmetic of `float` as far as it is exact.
abbrev pub Signed : Type 0
Signed = Bool × ℕ

abbrev pub signed_ops : FloatOps Signed
signed_ops = record {
  zero_float = (false, 0);
  next_digit = λ n d. (n.0, n.1 * 10 + d);
  scaled = λ negative n scale exponent. (negative, n.1);
  to_int = λ n. if n.0 then neg n.1 else pos n.1;
}

pub signed_exact : ExactBelow signed_ops
signed_exact = record {
  of_nat = λ n. (false, n);
  of_zero = refl;
  exact_digit = λ n d h. refl;
  exact_int = λ negative n h. refl;
}

abbrev pub show_signed : Signed → Str
show_signed n = b'0' ∷ []

rte_parse_json-ends_example :
    rte_parse_json signed_ops (b'[' ∷ b'1' ∷ b',' ∷ b'{' ∷ []) ≢ out_of_fuel
rte_parse_json-ends_example = rte_parse_json-ends signed_ops (b'[' ∷ b'1' ∷ b',' ∷ b'{' ∷ [])

-- The entry of a rule with an id, and a message that adds it.
abbrev entry : Json Signed
entry = object (member (some key_id) (integer (pos 7)) nil)

abbrev add_message : Members Signed
add_message =
    member (some key_action) (integer (pos 1))
      (member (some key_forward_rules) (array (member none entry nil)) nil)

parse_persisted_example :
    Returns
      (rte_persist_json show_signed (object add_message) true)
      (λ bs. rte_parse_json signed_ops (c_string bs) ≡ parsed (object add_message) [])
parse_persisted_example =
    parse_persisted signed_ops signed_exact show_signed (object add_message) true (omega arith)

read_response_example : Returns (create_policy_response show_signed (neg 1) (pos 0)) (λ bs.
    rte_parse_json signed_ops (c_string bs)
    ≡ parsed
        (object (
          member (some key_result) (integer (neg 1)) (
            member (some key_report_state) (integer (pos 0)) (
              member
                (some key_mirror_state)
                (integer (pos 0))
                (member (some key_guide_state) (integer (pos 0)) nil)))))
        [])
read_response_example =
    read_response signed_ops signed_exact show_signed (neg 1) (pos 0) (omega arith) (omega arith)

abbrev idle : Engine
idle = record {
  policies = record { rules = []; recurs = []; next = 0; policy_file = none };
  duplicates = record { rule = no_duplicates; file = none };
  mirror_state = 0;
  guide_state = 0;
}

abbrev entry_text : Str
entry_text = b'{' ∷ b'"' ∷ b'i' ∷ b'd' ∷ b'"' ∷ b':' ∷ b'7' ∷ b'}' ∷ []

abbrev entry_rule : RuleEntry
entry_rule = record init_rule_entry { id = pos 7; json_txt = some entry_text }

abbrev loaded : Engine
loaded = record idle {
  policies = vsecplat_store_policy (vsecplat_add_policy (entry_rule ∷ []) idle.policies);
}

restart_example :
    vsecplat_load_policy signed_ops show_signed aton_sample 0 loaded.policies.policy_file
      (b'x' ∷ [])
      idle
    ≡ ok (loaded, pos 0)
unfolding vsecplat_parse_policy parse_forward_rules rte_object_get_item rte_persist_json c_string
    rte_array_get_size
restart_example =
    restart signed_ops signed_exact show_signed aton_sample 0 add_message (member none entry nil)
      idle loaded (b'x' ∷ []) refl refl (omega arith, tt) refl refl

-- A message that watches no addresses.
abbrev watch_message : Members Signed
watch_message = member (some key_action) (integer (pos 8)) (
    member (some key_duplicate_rules)
      (object (member (some key_src_ips) (array nil) (member (some key_dst_ips) (array nil) nil)))
      nil)

abbrev watching : Engine
watching = record idle {
  duplicates =
      add_duplicate_rule
        (record no_duplicates { json_txt = live (shown false 0 (object watch_message) []) })
        idle.duplicates;
}

restart_duplicate_example :
    vsecplat_load_duplicate_rule signed_ops show_signed aton_sample 0 watching.duplicates.file []
      idle
    ≡ ok (watching, pos 0)
unfolding vsecplat_parse_policy parse_duplicate_rule rte_object_get_item rte_persist_json c_string
    rte_array_get_size persist_json_entry
restart_duplicate_example =
    restart_duplicate signed_ops signed_exact show_signed aton_sample 0 watch_message idle watching
      [] refl (omega arith) refl
