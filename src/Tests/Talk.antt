-- ===== src/Tests/Talk.antt =====
-- A message of the platform and its answer at samples.
use vsecplat.Common.{ℕ, ◌+◌, ◌*◌, true, false, List, [], ◌∷◌, none, some, pos}
use vsecplat.Common.{◌≡◌, refl, arith, length}
use vsecplat.Common.Run.{ok, Returns}
use vsecplat.Policy.Text.{Str}
use vsecplat.Policy.Duplicates.{no_duplicates}
use vsecplat.Policy.Dispatch.{Engine, vsecplat_parse_policy}
use vsecplat.Policy.Load.{parse_policy_text, create_policy_response}
use vsecplat.Json.Access.{rte_object_get_item}
use vsecplat.Json.Persist.{rte_persist_json}
use vsecplat.Json.Parse.{after, json_skip, rte_parse_json}
use vsecplat.Json.Parse.Text.{json_parse_string}
use vsecplat.Json.Parse.Number.{FloatOps, json_parse_number}
use vsecplat.Threads.Master.{thread_master_create, thread_add_read}
use vsecplat.Connection.{head_len, Server, received, vsecplat_deal_policy}
use vsecplat.Connection.Framed.{framed}
use vsecplat.Connection.Message.{
  IsReset, vsecplat_deal_policy_answers, vsecplat_deal_policy_partial,
}
use vsecplat.Tests.Samples.{aton_sample}

-- Numbers without a sign.
abbrev plain_ops : FloatOps ℕ
plain_ops = record {
  zero_float = 0;
  next_digit = λ n d. n * 10 + d;
  scaled = λ negative n scale exponent. n;
  to_int = λ n. pos n;
}

abbrev show_plain : ℕ → Str
show_plain n = b'0' ∷ []

abbrev switched_off : Engine
switched_off = record {
  policies = record { rules = []; recurs = []; next = 0; policy_file = none };
  duplicates = record { rule = no_duplicates; file = none };
  mirror_state = 0;
  guide_state = 0;
}

-- Switches the mirror on.
abbrev text : Str
text = b'{' ∷ b'"' ∷ b'a' ∷ b'c' ∷ b't' ∷ b'i' ∷ b'o' ∷ b'n' ∷ b'"' ∷ b':' ∷ b'5' ∷ b'}' ∷ []

abbrev answer_bytes : List ℕ
answer_bytes =
    b'{' ∷ b'"' ∷ b'r' ∷ b'e' ∷ b's' ∷ b'u' ∷ b'l' ∷ b't' ∷ b'"' ∷ b':' ∷ b'0' ∷ b',' ∷ b'"' ∷ b'r'
    ∷ b'e' ∷ b'p' ∷ b'o' ∷ b'r' ∷ b't' ∷ b'_' ∷ b's' ∷ b't' ∷ b'a' ∷ b't' ∷ b'e' ∷ b'"' ∷ b':'
    ∷ b'0' ∷ b',' ∷ b'"' ∷ b'm' ∷ b'i' ∷ b'r' ∷ b'r' ∷ b'o' ∷ b'r' ∷ b'_' ∷ b's' ∷ b't' ∷ b'a'
    ∷ b't' ∷ b'e' ∷ b'"' ∷ b':' ∷ b'0' ∷ b',' ∷ b'"' ∷ b'g' ∷ b'u' ∷ b'i' ∷ b'd' ∷ b'e' ∷ b'_'
    ∷ b's' ∷ b't' ∷ b'a' ∷ b't' ∷ b'e' ∷ b'"' ∷ b':' ∷ b'0' ∷ b'}' ∷ 0 ∷ []

abbrev blank : ℕ → ℕ
blank i = 0

abbrev encrypted_server : Server
encrypted_server = record {
  engine = switched_off;
  conn = record { recv_len = 0; recv_ofs = 0; policy_buf = blank };
  master = thread_master_create;
  isencrypted = true;
}

text_switches :
    parse_policy_text plain_ops show_plain aton_sample 0 text switched_off
    ≡ ok (record switched_off { mirror_state = 1 }, pos 0)
unfolding parse_policy_text rte_parse_json vsecplat_parse_policy rte_object_get_item after json_skip
    json_parse_string json_parse_number
text_switches = refl

answer_shown : create_policy_response show_plain (pos 0) (pos 0) ≡ ok answer_bytes
unfolding create_policy_response rte_persist_json
answer_shown = refl

vsecplat_deal_policy_answers_example :
    Returns
      (vsecplat_deal_policy plain_ops show_plain aton_sample 0 1 20 5
        (received (framed true text))
        encrypted_server)
      (λ d.
        (d.server.engine ≡ record switched_off { mirror_state = 1 })
        × (d.written ≡ some (framed true answer_bytes))
        × (d.closed ≡ false)
        × IsReset (head_len + length text) d.server.conn
        × (d.server.master ≡ (thread_add_read 1 20 0 5 thread_master_create).1))
vsecplat_deal_policy_answers_example =
    vsecplat_deal_policy_answers plain_ops show_plain aton_sample 0 1 20 5 text answer_bytes (pos 0)
      switched_off (record switched_off { mirror_state = 1 }) blank thread_master_create true
      (λ i. refl) (record { plain = omega arith; bytes = omega arith }) (omega arith) text_switches
      answer_shown (omega arith)

-- The head of a message of 20 bytes, and no more.
abbrev head_only : List ℕ
head_only = 20 ∷ 0 ∷ 0 ∷ 0 ∷ 1 ∷ 0 ∷ 0 ∷ 0 ∷ []

vsecplat_deal_policy_partial_example :
    Returns
      (vsecplat_deal_policy plain_ops show_plain aton_sample 0 1 20 5
        (received head_only)
        encrypted_server)
      (λ d. (d.server.engine ≡ switched_off) × (d.written ≡ none) × IsReset 20 d.server.conn)
vsecplat_deal_policy_partial_example =
    vsecplat_deal_policy_partial plain_ops show_plain aton_sample 0 1 20 5 head_only
      encrypted_server (omega arith) (omega arith)
