-- ===== src/Policy/Load/Answer.antt =====
-- About `create_policy_response` of vsecplat_policy.c: the answer as its reader gets it.
use vsecplat.Common.{◌≡◌, [], arith, some, ℤ, pos, false}
use vsecplat.Common.Run.{Returns}
use vsecplat.Policy.Text.{Str}
use vsecplat.Policy.Load.{
  create_policy_response, key_result, key_report_state, key_mirror_state, key_guide_state,
}
use vsecplat.Json.{integer, object, nil, member}
use vsecplat.Json.Persist.{c_string}
use vsecplat.Json.Parse.{parsed, rte_parse_json}
use vsecplat.Json.Parse.Number.{FloatOps, ExactBelow}
use vsecplat.Json.Parse.Number.Written.{IsSmall}
use vsecplat.Json.Parse.Written.{parse_persisted}

-- The answer is a text from which the result code and the report state are read back, with 0 for
-- the states of the mirror and the guide; both numbers lie between -2^24 and 2^24.
pub read_response :
    {F : Type 0} (ops : FloatOps F) (exact : ExactBelow ops) (show_float : F → Str)
    (result report_state : ℤ)
    → IsSmall result
    → IsSmall report_state
    → Returns (create_policy_response show_float result report_state) (λ bs.
      rte_parse_json ops (c_string bs)
      ≡ parsed
          (object (
            member (some key_result) (integer result) (
              member (some key_report_state) (integer report_state) (
                member
                  (some key_mirror_state)
                  (integer (pos 0))
                  (member (some key_guide_state) (integer (pos 0)) nil)))))
          [])
unfolding create_policy_response
read_response ops exact show_float result report_state h g =
    parse_persisted ops exact show_float _ false
      (omega arith, h, (omega arith, g, (omega arith, omega arith, (omega arith, omega arith, tt))))
