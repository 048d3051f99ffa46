-- ===== src/Policy/Rules.antt =====
-- Forwarding rules from JSON: `rule_entry` of vsecplat_policy.h, and `parse_forward_rules` of
-- vsecplat_policy.c, lines 356-374 and 491-682.
pub mod Fresh
use vsecplat.Common.{
  negsuc, ℕ, zero, suc, Bool, true, false, List, [], ◌∷◌, Option, none, some, ◌≡◌, refl,
}
use vsecplat.Common.{
  if◌then◌else◌, ltb, ◌==◌, length, replicate, bit_or, ℤ, pos, eqb_ℤ, to_int, map,
}
use vsecplat.Common.Run.{Run, ok, fault, ◌>>=◌}
use vsecplat.Policy.Text.{Str, str_to_mac, nm_mac_len}
use vsecplat.Policy.Objects.{AddrObj, NumObj}
use vsecplat.Policy.Objects.Parse.{parse_addr_objs, parse_num_objs}
use vsecplat.Json.{
  Json, Members, null, false_value, true_value, integer, float, string, object, array, nil, member,
}
use vsecplat.Json.Access.{rte_object_get_item, rte_array_get_size}
use vsecplat.Json.Persist.{rte_persist_json, c_string}

-- `NM_PKT_DROP`, `NM_PKT_FORWARD`, `NM_PKT_DISCARD`.
abbrev pub nm_pkt_drop : ℕ
nm_pkt_drop = 0

abbrev pub nm_pkt_forward : ℕ
nm_pkt_forward = 1

abbrev pub nm_pkt_discard : ℕ
nm_pkt_discard = 2

abbrev pub rule_not_sip : ℕ
rule_not_sip = 1

abbrev pub rule_not_dip : ℕ
rule_not_dip = 2

abbrev pub rule_not_sport : ℕ
rule_not_sport = 4

abbrev pub rule_not_dport : ℕ
rule_not_dport = 8

abbrev pub rule_not_proto : ℕ
rule_not_proto = 16

abbrev pub rule_not_vlanid : ℕ
rule_not_vlanid = 32

-- `recurs_dstmac` is the pointer to the rule's node in the list of converted addresses: the
-- number of that node, or `none` for the null pointer.
pub record RuleEntry : Type 0 where
  pub id : ℤ
  pub forward : ℕ
  pub conversion : ℤ
  pub dst_mac : List ℕ
  pub recurs_dstmac : Option ℕ
  pub rule_not_flag : ℕ
  pub sip : List AddrObj
  pub dip : List AddrObj
  pub sport : List NumObj
  pub dport : List NumObj
  pub proto : List NumObj
  pub vlanid : List NumObj
  pub json_txt : Option Str

-- A rule after `init_rule_entry`.
abbrev pub init_rule_entry : RuleEntry
init_rule_entry = record {
  id = pos 0;
  forward = 0;
  conversion = pos 0;
  dst_mac = replicate nm_mac_len 0;
  recurs_dstmac = none;
  rule_not_flag = 0;
  sip = [];
  dip = [];
  sport = [];
  dport = [];
  proto = [];
  vlanid = [];
  json_txt = none;
}

-- The keys of a rule.
abbrev pub key_id : Str
key_id = b'i' ∷ b'd' ∷ []

abbrev pub key_sip : Str
key_sip = b's' ∷ b'i' ∷ b'p' ∷ []

abbrev pub key_dip : Str
key_dip = b'd' ∷ b'i' ∷ b'p' ∷ []

abbrev pub key_sport : Str
key_sport = b's' ∷ b'p' ∷ b'o' ∷ b'r' ∷ b't' ∷ []

abbrev pub key_dport : Str
key_dport = b'd' ∷ b'p' ∷ b'o' ∷ b'r' ∷ b't' ∷ []

abbrev pub key_proto : Str
key_proto = b'p' ∷ b'r' ∷ b'o' ∷ b't' ∷ b'o' ∷ []

abbrev pub key_vlanid : Str
key_vlanid = b'v' ∷ b'l' ∷ b'a' ∷ b'n' ∷ b'i' ∷ b'd' ∷ []

abbrev pub key_conversion : Str
key_conversion = b'c' ∷ b'o' ∷ b'n' ∷ b'v' ∷ b'e' ∷ b'r' ∷ b's' ∷ b'i' ∷ b'o' ∷ b'n' ∷ []

abbrev pub key_dst_mac : Str
key_dst_mac = b'd' ∷ b's' ∷ b't' ∷ b'_' ∷ b'm' ∷ b'a' ∷ b'c' ∷ []

abbrev pub key_forward : Str
key_forward = b'f' ∷ b'o' ∷ b'r' ∷ b'w' ∷ b'a' ∷ b'r' ∷ b'd' ∷ []

abbrev pub key_forward_rules : Str
key_forward_rules =
    b'f' ∷ b'o' ∷ b'r' ∷ b'w' ∷ b'a' ∷ b'r' ∷ b'd' ∷ b'_' ∷ b'r' ∷ b'u' ∷ b'l' ∷ b'e' ∷ b's' ∷ []

-- A step that can also end in `goto out`, which is `ok none`.
abbrev pub Step : Type 0
Step = Run (Option RuleEntry)

infixl 5 ◌>=>◌
abbrev pub ◌>=>◌ : Step → (RuleEntry → Step) → Step
m >=> f = m >>= λ o. elim o [ none ↦ ok none | some r ↦ f r ]

module _ {F : Type 0} (show_float : F → Str) (inet_aton : Str → Option ℕ) (addr : ℕ) where
  -- `persist_json_entry`, with its buffer of 4096 bytes.
  unfoldable pub persist_json_entry : Json F → Run (Option Str)
  persist_json_entry j = rte_persist_json show_float j false >>= λ bs.
      if ltb 4096 (length bs) then fault else ok (some (c_string bs))

  -- A key that is missing is passed over; one of another type than the code asks for ends the
  -- reading of the rules.
  unfoldable pub on_string : Json F → Str → RuleEntry → (Str → Step) → Step
  on_string entry key r f = rte_object_get_item entry key >>= λ tmp. elim tmp [
    | none ↦ ok (some r)
    | some (string s) ↦ f s
    | some _ ↦ ok none
  ]

  unfoldable pub on_integer : Json F → Str → RuleEntry → (ℤ → RuleEntry) → Step
  on_integer entry key r f = rte_object_get_item entry key >>= λ tmp. elim tmp [
    | none ↦ ok (some r)
    | some (integer n) ↦ ok (some (f n))
    | some _ ↦ ok none
  ]

  -- `rule_not_flag |= bit` where the parser's result is positive.
  abbrev pub set_flag : ℕ → ℕ → ℤ → ℕ
  set_flag flag bit (pos n) = if ltb 0 n then bit_or flag bit else flag
  set_flag flag bit (negsuc n) = flag

  unfoldable pub parse_rule : Json F → Run (Option RuleEntry)
  unfolding persist_json_entry on_string on_integer
  parse_rule entry =
      (persist_json_entry entry >>= λ txt. ok (some (record init_rule_entry { json_txt = txt })))
      >=> (λ r. on_integer entry key_id r (λ n. record r { id = to_int n }))
      >=> (λ r. on_string entry key_sip r (λ s.
          parse_addr_objs inet_aton addr s >>= λ (objs, not_flag). ok (
            some (record r {
              sip = objs;
              rule_not_flag = set_flag r.rule_not_flag rule_not_sip not_flag;
            }))))
      >=> (λ r. on_string entry key_dip r (λ s.
          parse_addr_objs inet_aton addr s >>= λ (objs, not_flag). ok (
            some (record r {
              dip = objs;
              rule_not_flag = set_flag r.rule_not_flag rule_not_dip not_flag;
            }))))
      >=> (λ r. on_string entry key_sport r (λ s.
          let (objs, not_flag) = parse_num_objs s in
          ok (
            some (record r {
              sport = objs;
              rule_not_flag = set_flag r.rule_not_flag rule_not_sport (pos not_flag);
            }))))
      >=> (λ r. on_string entry key_dport r (λ s.
          let (objs, not_flag) = parse_num_objs s in
          ok (
            some (record r {
              dport = objs;
              rule_not_flag = set_flag r.rule_not_flag rule_not_dport (pos not_flag);
            }))))
      >=> (λ r. on_string entry key_proto r (λ s.
          let (objs, not_flag) = parse_num_objs s in
          ok (
            some (record r {
              proto = objs;
              rule_not_flag = set_flag r.rule_not_flag rule_not_proto (pos not_flag);
            }))))
      >=> (λ r. on_string entry key_vlanid r (λ s.
          let (objs, not_flag) = parse_num_objs s in
          ok (
            some (record r {
              vlanid = objs;
              rule_not_flag = set_flag r.rule_not_flag rule_not_vlanid (pos not_flag);
            }))))
      >=> (λ r. on_integer entry key_conversion r (λ n. record r { conversion = to_int n }))
      >=> (λ r.
          if eqb_ℤ r.conversion (pos 0)
          then ok (some r)
          else on_string entry key_dst_mac r
              (λ s. ok (some (record r { dst_mac = str_to_mac s r.dst_mac }))))
      >=> (λ r.
          on_integer entry key_forward r
            (λ n. record r { forward = if eqb_ℤ n (pos 0) then nm_pkt_drop else nm_pkt_forward }))

  unfoldable pub parse_rules : Members F → Run (Option (List RuleEntry))
  unfolding parse_rule
  parse_rules nil = ok (some [])
  parse_rules (member k v m) = parse_rule v >>= λ first. elim first [
    | none ↦ ok none
    | some r ↦ parse_rules m >>= λ rest. ok (elim rest [ none ↦ none | some rs ↦ some (r ∷ rs) ])
  ]

  -- `none` is the null pointer; an empty array gives it too.
  unfoldable pub parse_forward_rules : Json F → Run (Option (List RuleEntry))
  unfolding parse_rules
  parse_forward_rules json = rte_object_get_item json key_forward_rules >>= λ item. elim item [
    | some (array m) ↦ if rte_array_get_size (array m) == 0 then ok none else parse_rules m
    | _ ↦ ok none
  ]
