-- ===== src/Policy/Load/Restart.antt =====
-- About `vsecplat_load_policy` of vsecplat_policy.c on a file that `vsecplat_store_policy` left.
use vsecplat.Common.{ℕ, true, false, List, [], ◌∷◌, ◌++◌, Option, none, some, map}
use vsecplat.Common.{
  ◌==◌, if◌then◌else◌, ◌≡◌, ◌≢◌, refl, sym, ◌∙◌, ap, arith, ℤ, pos, append_assoc, append-nil,
  map-append, Bool-cases, inl, inr,
}
use vsecplat.Common.Run.{Run, ok, fault, ◌>>=◌}
use vsecplat.Policy.Text.{Str}
use vsecplat.Policy.Rules.{RuleEntry, parse_rules, parse_forward_rules, key_forward_rules}
use vsecplat.Policy.Rules.Fresh.{parse_rules-HaveTexts}
use vsecplat.Policy.Store.{
  Policies, vsecplat_store_policy, vsecplat_add_policy, add_recurs_dst_mac, converts,
}
use vsecplat.Policy.Dispatch.{
  apply_rules, add_rules, refused, Engine, key_action, vsecplat_parse_policy,
}
use vsecplat.Policy.Load.{parse_policy_text, vsecplat_load_policy}
use vsecplat.Json.{Json, Members, integer, object, array, nil, member}
use vsecplat.Json.Access.{rte_object_get_item, rte_array_get_size}
use vsecplat.Json.Parse.{parsed, rte_parse_json}
use vsecplat.Json.Parse.Number.{FloatOps, ExactBelow}
use vsecplat.Json.Parse.Shown.{AreItems}
use vsecplat.Json.Parse.Written.{parse_shown_text}
use vsecplat.Policy.Load.Stored.{stored_json, stored_text, store_rules-map}

module _ {F : Type 0} (show_float : F → Str) (inet_aton : Str → Option ℕ) (addr : ℕ) where
  filled :
      (k : Option Str) (v : Json F) (m : Members F)
      → (rte_array_get_size (array (member k v m)) == 0) ≡ false
  unfolding rte_array_get_size
  filled k v m = ground arith

  -- A message that adds rules and is answered with 0 brings at least one.
  accepted :
      (m : Members F) (e e' : Engine)
      → ((if rte_array_get_size (array m) == 0
            then ok none
            else parse_rules show_float inet_aton addr m)
          >>= λ rules. elim rules [
            | none ↦ refused e
            | some rs ↦ apply_rules show_float inet_aton addr add_rules rs e
          ])
        ≡ ok (e', pos 0)
      → (rs : List RuleEntry) × (parse_rules show_float inet_aton addr m ≡ ok (some rs))
        × (m ≢ nil)
        × (e' ≡ record e { policies = vsecplat_store_policy (vsecplat_add_policy rs e.policies) })
  unfolding apply_rules
  accepted nil e e' h =
      let empty : (rte_array_get_size {F = F} (array nil) == 0) ≡ true =
        unfold rte_array_get_size in refl in
      let none_read = rw empty at h in cc
  accepted (member k v m) e e' h =
      read_rules (parse_rules show_float inet_aton addr (member k v m)) (rw (filled k v m) at h)
    where
      read_rules :
          (r : Run (Option (List RuleEntry)))
          → (r >>= λ rules. elim rules [
            | none ↦ refused e
            | some rs ↦ apply_rules show_float inet_aton addr add_rules rs e
          ])
            ≡ ok (e', pos 0)
          → (rs : List RuleEntry) × (r ≡ ok (some rs))
            × (member k v m ≢ nil)
            × (e'
                ≡ record e { policies = vsecplat_store_policy (vsecplat_add_policy rs e.policies) })
      read_rules fault h = cc
      read_rules (ok none) h = cc
      read_rules (ok (some rs)) h = (rs, refl, λ e. cc, cc)

  -- What the file says to do.
  stored_policy :
      (k : Option Str) (v : Json F) (m : Members F) (rs : List RuleEntry) (e : Engine)
      → parse_rules show_float inet_aton addr (member k v m) ≡ ok (some rs)
      → vsecplat_parse_policy show_float inet_aton addr
          (some (object (stored_json (member k v m))))
          e
        ≡ ok (
          record e { policies = vsecplat_store_policy (vsecplat_add_policy rs e.policies) },
          pos 0,
        )
  unfolding vsecplat_parse_policy parse_forward_rules rte_object_get_item
  stored_policy k v m rs e read = rw (filled k v m, read) refl

add-texts :
    (rs : List RuleEntry) (s : Policies)
    → map (λ r. r.json_txt) (vsecplat_add_policy rs s).rules
      ≡ map (λ r. r.json_txt) s.rules ++ map (λ r. r.json_txt) rs
unfolding vsecplat_add_policy
add-texts [] s = sym (append-nil _)
add-texts (r ∷ rs) s =
    let s' = (add_recurs_dst_mac r s).1 in
    let r' = (add_recurs_dst_mac r s).0 in
    add-texts rs (record s' { rules = s'.rules ++ r' ∷ [] })
    ∙ ap (λ ts. ts ++ map (λ r. r.json_txt) rs) (map-append (λ r. r.json_txt) s'.rules (r' ∷ []))
    ∙ append_assoc (map (λ r. r.json_txt) s'.rules) (r'.json_txt ∷ []) _
    ∙ same_node r s
  where
    same_node :
        (r : RuleEntry) (s : Policies)
        → map (λ r. r.json_txt) (add_recurs_dst_mac r s).1.rules
            ++ (add_recurs_dst_mac r s).0.json_txt ∷ map (λ r. r.json_txt) rs
          ≡ map (λ r. r.json_txt) s.rules ++ r.json_txt ∷ map (λ r. r.json_txt) rs
    same_node r s =
        unfold add_recurs_dst_mac in
        elim (Bool-cases (converts r)) [ inl e ↦ rw e refl | inr e ↦ rw e refl ]

module _ {F : Type 0} (ops : FloatOps F) (exact : ExactBelow ops) (show_float : F → Str)
    (inet_aton : Str → Option ℕ) (addr : ℕ) where
  pub text_policy :
      (text : Str) (json : Json F) (e : Engine) (end : Run (Engine × ℤ))
      → rte_parse_json ops text ≡ parsed json []
      → vsecplat_parse_policy show_float inet_aton addr (some json) e ≡ end
      → parse_policy_text ops show_float inet_aton addr text e ≡ end
  unfolding parse_policy_text
  text_policy text json e end read done = rw (read, parse_policy_text) done

  -- Where the rules in force have the texts of rules that were read from storable entries, the file
  -- that `vsecplat_store_policy` writes makes `vsecplat_load_policy` add the rules of these entries
  -- again, whatever lies in memory behind the file's text.
  load_stored :
      (k : Option Str) (v : Json F) (m : Members F) (rs : List RuleEntry) (s : Policies)
      (beyond : Str) (e : Engine)
      → AreItems (member k v m)
      → parse_rules show_float inet_aton addr (member k v m) ≡ ok (some rs)
      → map (λ r. r.json_txt) s.rules ≡ map (λ r. r.json_txt) rs
      → vsecplat_load_policy ops show_float inet_aton addr
          (vsecplat_store_policy s).policy_file
          beyond
          e
        ≡ ok (
          record e { policies = vsecplat_store_policy (vsecplat_add_policy rs e.policies) },
          pos 0,
        )
  unfolding vsecplat_load_policy vsecplat_store_policy
  load_stored k v m rs s beyond e h read same =
      let json = object (stored_json (member k v m)) in
      let text =
        stored_text show_float inet_aton addr k v m s rs beyond h
          (parse_rules-HaveTexts show_float inet_aton addr (member k v m) rs read)
          (store_rules-map s.rules rs same) in
      let plain =
        parse_shown_text ops exact false json beyond
          (omega arith, omega arith, (omega arith, h, tt)) tt in
      rw
        (ap (λ t. parse_policy_text ops show_float inet_aton addr t e) text
          ∙ text_policy _ json e _ plain (stored_policy show_float inet_aton addr k v m rs e read))
        refl

  -- A message that is accepted while no rule is in force, and that adds rules whose entries can be
  -- stored, leaves a file from which the same engine comes to the same state.
  pub restart :
      (j m : Members F) (e e' : Engine) (beyond : Str)
      → rte_object_get_item (object j) key_action ≡ ok (some (integer (pos 1)))
      → rte_object_get_item (object j) key_forward_rules ≡ ok (some (array m))
      → AreItems m
      → e.policies.rules ≡ []
      → vsecplat_parse_policy show_float inet_aton addr (some (object j)) e ≡ ok (e', pos 0)
      → vsecplat_load_policy ops show_float inet_aton addr e'.policies.policy_file beyond e
        ≡ ok (e', pos 0)
  unfolding vsecplat_parse_policy parse_forward_rules
  restart j nil e e' beyond action rules h empty run =
      absurd ((accepted show_float inet_aton addr nil e e' (rw (action, rules) at run)).2 refl)
  restart j (member k v m) e e' beyond action rules h empty run =
      let (rs, read, filled, after) =
        accepted show_float inet_aton addr (member k v m) e e' (rw (action, rules) at run) in
      let added = vsecplat_add_policy rs e.policies in
      let texts =
        add-texts rs e.policies
        ∙ ap (λ l. map (λ (r : RuleEntry). r.json_txt) l ++ map (λ r. r.json_txt) rs) empty in
      rw after (load_stored k v m rs added beyond e h read texts)
