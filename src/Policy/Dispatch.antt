-- ===== src/Policy/Dispatch.antt =====
-- One message of the management platform: `vsecplat_parse_policy` of vsecplat_policy.c, lines
-- 941-1052, from the value that `rte_parse_json` returns on.
pub mod Effects
use vsecplat.Common.{ℕ, zero, suc, Bool, true, false, List, [], ◌∷◌, Option, none, some}
use vsecplat.Common.{if◌then◌else◌, ◌==◌, ℤ, pos, negsuc, to_int, ◌≡◌}
use vsecplat.Common.Run.{Run, ok, fault, ◌>>=◌}
use vsecplat.Policy.Text.{Str}
use vsecplat.Policy.Rules.{RuleEntry, parse_forward_rules}
use vsecplat.Policy.Store.{
  Policies, vsecplat_add_policy, vsecplat_del_policy, vsecplat_store_policy,
}
use vsecplat.Policy.Duplicates.{
  Duplicates, parse_duplicate_rule, add_duplicate_rule, del_duplicate_rule,
}
use vsecplat.Json.{
  Json, Members, null, false_value, true_value, integer, float, string, object, array, nil, member,
}
use vsecplat.Json.Access.{rte_object_get_item}

-- What a message can change: the rules, the duplicate rule, and the two switches of the
-- configuration.
pub record Engine : Type 0 where
  pub policies : Policies
  pub duplicates : Duplicates
  pub mirror_state : ℕ
  pub guide_state : ℕ

-- `NM_ADD_RULES` and the actions behind it; any other number is `other`.
pub data Action : Type 0 where
  add_rules del_rules check_rules disable_mirror enable_mirror disable_guide enable_guide
        add_duplicate del_duplicate other :
      Action

abbrev pub action_of_number : ℕ → Action
action_of_number n =
    if n == 1
    then add_rules
    else if n == 2
    then del_rules
    else if n == 3
    then check_rules
    else if n == 4
    then disable_mirror
    else if n == 5
    then enable_mirror
    else if n == 6
    then disable_guide
    else if n == 7
    then enable_guide
    else if n == 8
    then add_duplicate
    else if n == 9
    then del_duplicate
    else other

unfoldable pub action_of : ℤ → Action
action_of (pos n) = action_of_number n
action_of (negsuc n) = other

abbrev pub key_action : Str
key_action = b'a' ∷ b'c' ∷ b't' ∷ b'i' ∷ b'o' ∷ b'n' ∷ []

-- The result codes 0 and -1.
abbrev pub done : Engine → Run (Engine × ℤ)
done e = ok (e, pos 0)

abbrev pub refused : Engine → Run (Engine × ℤ)
refused e = ok (e, negsuc 0)

module _ {F : Type 0} (show_float : F → Str) (inet_aton : Str → Option ℕ) (addr : ℕ) where
  -- The second `switch`, for an action that comes with rules.
  unfoldable pub apply_rules : Action → List RuleEntry → Engine → Run (Engine × ℤ)
  apply_rules add_rules rs e =
      done (record e { policies = vsecplat_store_policy (vsecplat_add_policy rs e.policies) })
  apply_rules del_rules rs e = vsecplat_del_policy rs e.policies >>= λ p.
      done (record e { policies = vsecplat_store_policy p })
  apply_rules _ rs e = done (record e { policies = vsecplat_store_policy e.policies })

  unfoldable pub with_rules : Action → Json F → Engine → Run (Engine × ℤ)
  unfolding apply_rules
  with_rules a json e = parse_forward_rules show_float inet_aton addr json >>= λ rules. elim rules [
    | none ↦ refused e
    | some rs ↦ apply_rules a rs e
  ]

  unfoldable pub with_duplicate : Json F → Engine → Run (Engine × ℤ)
  with_duplicate json e = parse_duplicate_rule show_float inet_aton addr json >>= λ rule.
      elim rule [
        | none ↦ refused e
        | some d ↦ done (record e { duplicates = add_duplicate_rule d e.duplicates })
      ]

  unfoldable pub dispatch : Action → Json F → Engine → Run (Engine × ℤ)
  unfolding with_rules with_duplicate
  dispatch check_rules json e = done e
  dispatch disable_mirror json e = done (record e { mirror_state = 0 })
  dispatch enable_mirror json e = done (record e { mirror_state = 1 })
  dispatch disable_guide json e = done (record e { guide_state = 0 })
  dispatch enable_guide json e = done (record e { guide_state = 1 })
  dispatch add_duplicate json e = with_duplicate json e
  dispatch del_duplicate json e =
      del_duplicate_rule e.duplicates >>= λ d. done (record e { duplicates = d })
  dispatch add_rules json e = with_rules add_rules json e
  dispatch del_rules json e = with_rules del_rules json e
  dispatch other json e = with_rules other json e

  unfoldable pub vsecplat_parse_policy : Option (Json F) → Engine → Run (Engine × ℤ)
  unfolding dispatch action_of
  vsecplat_parse_policy none e = refused e
  vsecplat_parse_policy (some (object m)) e = rte_object_get_item (object m) key_action >>= λ item.
      elim item [ some (integer n) ↦ dispatch (action_of (to_int n)) (object m) e | _ ↦ refused e ]
  vsecplat_parse_policy (some _) e = refused e
