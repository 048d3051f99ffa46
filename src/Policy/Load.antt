-- ===== src/Policy/Load.antt =====
-- A message as text, the rules read back at the start, and the answer to a message:
-- vsecplat_policy.c, lines 684-746, 941-958 and 1344-1411.
pub mod Stored
pub mod Restart
pub mod Duplicate
pub mod Answer
use vsecplat.Common.{ℕ, List, [], ◌++◌, Option, none, some, ◌∷◌, ℤ, pos, false}
use vsecplat.Common.Run.{Run, ok, fault, ◌>>=◌}
use vsecplat.Policy.Text.{Str}
use vsecplat.Policy.Dispatch.{Engine, vsecplat_parse_policy}
use vsecplat.Json.{Json, integer, object, nil}
use vsecplat.Json.Access.{rte_object_add_item}
use vsecplat.Json.Persist.{rte_persist_json}
use vsecplat.Json.Parse.{parsed, failed, faulted, out_of_fuel, rte_parse_json}
use vsecplat.Json.Parse.Number.{FloatOps}

module _ {F : Type 0} (ops : FloatOps F) (show_float : F → Str) (inet_aton : Str → Option ℕ)
    (addr : ℕ) where
  -- `vsecplat_parse_policy` from its text on. Reading the text never runs out of fuel.
  unfoldable pub parse_policy_text : Str → Engine → Run (Engine × ℤ)
  parse_policy_text buf e = elim (rte_parse_json ops buf) [
    | parsed json rest ↦ vsecplat_parse_policy show_float inet_aton addr (some json) e
    | failed ↦ vsecplat_parse_policy show_float inet_aton addr none e
    | faulted ↦ fault
    | out_of_fuel ↦ fault
  ]

  -- The file is read in full into a buffer of its size, with no NUL behind it: `beyond` is what lies
  -- in memory from there to the next NUL. The result of reading the rules is dropped.
  unfoldable pub vsecplat_load_policy : Option Str → Str → Engine → Run (Engine × ℤ)
  unfolding parse_policy_text
  vsecplat_load_policy none beyond e = ok (e, pos 0)
  vsecplat_load_policy (some file) beyond e =
      parse_policy_text (file ++ beyond) e >>= λ (e', code). ok (e', pos 0)

  -- The same code, for the file of the duplicate rule.
  unfoldable pub vsecplat_load_duplicate_rule : Option Str → Str → Engine → Run (Engine × ℤ)
  unfolding parse_policy_text
  vsecplat_load_duplicate_rule none beyond e = ok (e, pos 0)
  vsecplat_load_duplicate_rule (some file) beyond e =
      parse_policy_text (file ++ beyond) e >>= λ (e', code). ok (e', pos 0)

abbrev pub key_result : Str
key_result = b'r' ∷ b'e' ∷ b's' ∷ b'u' ∷ b'l' ∷ b't' ∷ []

abbrev pub key_report_state : Str
key_report_state =
    b'r' ∷ b'e' ∷ b'p' ∷ b'o' ∷ b'r' ∷ b't' ∷ b'_' ∷ b's' ∷ b't' ∷ b'a' ∷ b't' ∷ b'e' ∷ []

abbrev pub key_mirror_state : Str
key_mirror_state =
    b'm' ∷ b'i' ∷ b'r' ∷ b'r' ∷ b'o' ∷ b'r' ∷ b'_' ∷ b's' ∷ b't' ∷ b'a' ∷ b't' ∷ b'e' ∷ []

abbrev pub key_guide_state : Str
key_guide_state = b'g' ∷ b'u' ∷ b'i' ∷ b'd' ∷ b'e' ∷ b'_' ∷ b's' ∷ b't' ∷ b'a' ∷ b't' ∷ b'e' ∷ []

-- The answer as a value.
unfoldable pub response_json : {F : Type 0} → ℤ → ℤ → Json F
unfolding rte_object_add_item
response_json result report_state =
    rte_object_add_item
      (rte_object_add_item
        (rte_object_add_item (rte_object_add_item (object nil) key_result (integer result))
          key_report_state (integer report_state))
        key_mirror_state (integer (pos 0)))
      key_guide_state (integer (pos 0))

-- The bytes of the answer, with the NUL at its end, which the result counts. No write fails.
unfoldable pub create_policy_response : {F : Type 0} → (F → Str) → ℤ → ℤ → Run (List ℕ)
unfolding response_json
create_policy_response show_float result report_state =
    rte_persist_json show_float (response_json result report_state) false
