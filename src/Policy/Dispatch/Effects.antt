-- ===== src/Policy/Dispatch/Effects.antt =====
-- About `vsecplat_parse_policy` of vsecplat_policy.c: what a message does to the engine.
use vsecplat.Common.{ℕ, List, Option, none, some}
use vsecplat.Common.{ℤ, to_int, pos, negsuc, ◌≡◌, All, arith}
use vsecplat.Common.Run.{Run, ok, fault, ◌>>=◌}
use vsecplat.Policy.Text.{Str}
use vsecplat.Policy.Rules.{RuleEntry, parse_forward_rules}
use vsecplat.Policy.Rules.Fresh.{AllFresh, parse_forward_rules-Fresh}
use vsecplat.Policy.Store.{Policies, vsecplat_del_policy, vsecplat_store_policy}
use vsecplat.Policy.Store.Linked.{IsLinked, IsUntied, vsecplat_add_policy-IsLinked}
use vsecplat.Policy.Store.Deletion.{vsecplat_del_policy-IsLinked}
use vsecplat.Policy.Duplicates.{Duplicates, parse_duplicate_rule, del_duplicate_rule}
use vsecplat.Policy.Forward.{live}
use vsecplat.Policy.Dispatch.{
  Engine, Action, add_rules, del_rules, add_duplicate, del_duplicate, other, dispatch, with_rules,
  with_duplicate, apply_rules, vsecplat_parse_policy, action_of, key_action, refused,
}
use vsecplat.Json.{Json, integer, object}
use vsecplat.Json.Access.{rte_object_get_item}

-- The engine that a message leaves, if it leaves one, has its addresses in step with its rules.
abbrev Keeps : Run (Engine × ℤ) → Type 0
Keeps fault = Unit
Keeps (ok (e, code)) = IsLinked e.policies

Keeps-bind {ℓ} :
    {A : Type ℓ} (m : Run A) (f : A → Run (Engine × ℤ)) → ((a : A) → Keeps (f a)) → Keeps (m >>= f)
Keeps-bind (ok a) f h = h a
Keeps-bind fault f h = tt

store-IsLinked : (p : Policies) → IsLinked p → IsLinked (vsecplat_store_policy p)
unfolding vsecplat_store_policy
store-IsLinked p inv = record { mirrored = inv.mirrored; tied = inv.tied; rising = inv.rising }

-- A refusal leaves the engine as it was.
abbrev Unchanged : Engine → Run (Engine × ℤ) → Type 0
Unchanged e m = (e' : Engine) → m ≡ ok (e', negsuc 0) → e' ≡ e

Unchanged-done : (e q : Engine) → Unchanged e (ok (q, pos 0))
Unchanged-done e q e' h = ground arith

Unchanged-refused : (e : Engine) → Unchanged e (ok (e, negsuc 0))
Unchanged-refused e e' h = ground arith

Unchanged-bind {ℓ} :
    {A : Type ℓ} (e : Engine) (m : Run A) (f : A → Run (Engine × ℤ))
    → ((a : A) → Unchanged e (f a))
    → Unchanged e (m >>= f)
Unchanged-bind e (ok a) f h e' eq = h a e' eq
Unchanged-bind e fault f h e' eq = cc

module _ {F : Type 0} (show_float : F → Str) (inet_aton : Str → Option ℕ) (addr : ℕ) where
  apply_rules-Unchanged :
      (a : Action) (rs : List RuleEntry) (e : Engine)
      → Unchanged e (apply_rules show_float inet_aton addr a rs e)
  unfolding apply_rules
  apply_rules-Unchanged del_rules rs e =
      Unchanged-bind e (vsecplat_del_policy rs e.policies) _ (λ p. Unchanged-done e _)
  apply_rules-Unchanged _ rs e = Unchanged-done e _

  with_rules-Unchanged :
      (a : Action) (json : Json F) (e : Engine)
      → Unchanged e (with_rules show_float inet_aton addr a json e)
  unfolding with_rules
  with_rules-Unchanged a json e =
      Unchanged-bind e (parse_forward_rules show_float inet_aton addr json) _
        (elim [ none ↦ Unchanged-refused e | some rs ↦ apply_rules-Unchanged a rs e ])

  with_duplicate-Unchanged :
      (json : Json F) (e : Engine) → Unchanged e (with_duplicate show_float inet_aton addr json e)
  unfolding with_duplicate
  with_duplicate-Unchanged json e =
      Unchanged-bind e (parse_duplicate_rule show_float inet_aton addr json) _
        (elim [ none ↦ Unchanged-refused e | some d ↦ Unchanged-done e _ ])

  dispatch-Unchanged :
      (a : Action) (json : Json F) (e : Engine)
      → Unchanged e (dispatch show_float inet_aton addr a json e)
  unfolding dispatch
  dispatch-Unchanged add_rules json e = with_rules-Unchanged add_rules json e
  dispatch-Unchanged del_rules json e = with_rules-Unchanged del_rules json e
  dispatch-Unchanged other json e = with_rules-Unchanged other json e
  dispatch-Unchanged add_duplicate json e = with_duplicate-Unchanged json e
  dispatch-Unchanged del_duplicate json e =
      Unchanged-bind e (del_duplicate_rule e.duplicates) _ (λ d. Unchanged-done e _)
  dispatch-Unchanged _ json e = Unchanged-done e _

  -- A message that is answered with -1 changes neither the rules, nor the duplicate rule, nor
  -- the switches, nor the files.
  pub refused-unchanged :
      (json : Option (Json F)) (e e' : Engine)
      → vsecplat_parse_policy show_float inet_aton addr json e ≡ ok (e', negsuc 0)
      → e' ≡ e
  unfolding vsecplat_parse_policy
  refused-unchanged none e e' h = Unchanged-refused e e' h
  refused-unchanged (some (object m)) e e' h =
      Unchanged-bind e (rte_object_get_item (object m) key_action) _
        (elim [
          | none ↦ Unchanged-refused e
          | some (integer n) ↦ dispatch-Unchanged (action_of (to_int n)) (object m) e
          | some _ ↦ Unchanged-refused e
        ])
        e' h
  refused-unchanged (some _) e e' h = Unchanged-refused e e' h

  apply_rules-Keeps :
      (a : Action) (rs : List RuleEntry) (e : Engine)
      → All IsUntied rs
      → IsLinked e.policies
      → Keeps (apply_rules show_float inet_aton addr a rs e)
  unfolding apply_rules
  apply_rules-Keeps add_rules rs e fresh inv =
      store-IsLinked _ (vsecplat_add_policy-IsLinked rs e.policies fresh inv)
  apply_rules-Keeps del_rules rs e fresh inv =
      let (t, run, (same, next, inv')) = vsecplat_del_policy-IsLinked rs e.policies inv in
      rw run (store-IsLinked t inv')
  apply_rules-Keeps _ rs e fresh inv = store-IsLinked e.policies inv

  with_rules-Keeps :
      (a : Action) (json : Json F) (e : Engine)
      → IsLinked e.policies
      → Keeps (with_rules show_float inet_aton addr a json e)
  unfolding with_rules
  with_rules-Keeps a json e inv =
      go (parse_forward_rules show_float inet_aton addr json)
        (parse_forward_rules-Fresh show_float inet_aton addr json)
    where
      go :
          (m : Run (Option (List RuleEntry)))
          → AllFresh m
          → Keeps (
              m >>= λ rules. elim rules [
                | none ↦ refused e
                | some rs ↦ apply_rules show_float inet_aton addr a rs e
              ])
      go fault h = tt
      go (ok none) h = inv
      go (ok (some rs)) h = apply_rules-Keeps a rs e h inv

  with_duplicate-Keeps :
      (json : Json F) (e : Engine)
      → IsLinked e.policies
      → Keeps (with_duplicate show_float inet_aton addr json e)
  unfolding with_duplicate
  with_duplicate-Keeps json e inv =
      Keeps-bind (parse_duplicate_rule show_float inet_aton addr json) _
        (elim [ none ↦ inv | some d ↦ inv ])

  dispatch-Keeps :
      (a : Action) (json : Json F) (e : Engine)
      → IsLinked e.policies
      → Keeps (dispatch show_float inet_aton addr a json e)
  unfolding dispatch
  dispatch-Keeps add_rules json e inv = with_rules-Keeps add_rules json e inv
  dispatch-Keeps del_rules json e inv = with_rules-Keeps del_rules json e inv
  dispatch-Keeps other json e inv = with_rules-Keeps other json e inv
  dispatch-Keeps add_duplicate json e inv = with_duplicate-Keeps json e inv
  dispatch-Keeps del_duplicate json e inv =
      Keeps-bind (del_duplicate_rule e.duplicates) _ (λ d. inv)
  dispatch-Keeps _ json e inv = inv

  message-Keeps :
      (json : Option (Json F)) (e : Engine)
      → IsLinked e.policies
      → Keeps (vsecplat_parse_policy show_float inet_aton addr json e)
  unfolding vsecplat_parse_policy
  message-Keeps none e inv = inv
  message-Keeps (some (object m)) e inv =
      Keeps-bind (rte_object_get_item (object m) key_action) _ (elim [
        | none ↦ inv
        | some (integer n) ↦ dispatch-Keeps (action_of (to_int n)) (object m) e inv
        | some _ ↦ inv
      ])
  message-Keeps (some _) e inv = inv

  -- Every message, accepted or refused, keeps the list of converted addresses in step with the
  -- rules.
  pub vsecplat_parse_policy-IsLinked :
      (json : Option (Json F)) (e e' : Engine) (code : ℤ)
      → IsLinked e.policies
      → vsecplat_parse_policy show_float inet_aton addr json e ≡ ok (e', code)
      → IsLinked e'.policies
  vsecplat_parse_policy-IsLinked json e e' code inv h = rw h at (message-Keeps json e inv)

-- A second message that deletes the duplicate rule gives the same text back twice, if there was
-- a text and none was added in between.
pub del_duplicate_twice :
    (d : Duplicates) (txt : List ℕ)
    → d.rule.json_txt ≡ live txt
    → (del_duplicate_rule d >>= del_duplicate_rule) ≡ fault
unfolding del_duplicate_rule
del_duplicate_twice d txt h = rw h
