-- ===== src/Policy/Load/Duplicate.antt =====
-- About the file of the duplicate rule that a message to vsecplat_policy.c leaves.
use vsecplat.Common.{ℕ, false, List, [], Option, none, some}
use vsecplat.Common.{◌≡◌, refl, ◌∙◌, ap, pos}
use vsecplat.Common.Run.{Run, ok, fault, ◌>>=◌}
use vsecplat.Policy.Text.{Str}
use vsecplat.Policy.Rules.{persist_json_entry}
use vsecplat.Policy.Objects.{AddrObj}
use vsecplat.Policy.Forward.{DuplicateRule, TextPtr}
use vsecplat.Policy.Duplicates.{
  parse_duplicate_rule, add_duplicate_rule, text_ptr, key_duplicate_rules,
}
use vsecplat.Policy.Dispatch.{Engine, key_action, vsecplat_parse_policy, done, refused}
use vsecplat.Policy.Load.{vsecplat_load_duplicate_rule}
use vsecplat.Policy.Load.Restart.{text_policy}
use vsecplat.Policy.Load.Stored.{text_shown}
use vsecplat.Json.{Json, Members, integer, object}
use vsecplat.Json.Access.{rte_object_get_item}
use vsecplat.Json.Parse.Number.{FloatOps, ExactBelow}
use vsecplat.Json.Parse.Shown.{IsStorable, shown, shown-append}
use vsecplat.Json.Parse.Written.{parse_shown_text}

module _ (p : TextPtr) where
  -- Whatever rule the step results in has the text.
  abbrev Keeps : Run (Option DuplicateRule) → Type 0
  Keeps m = (d : DuplicateRule) → m ≡ ok (some d) → d.json_txt ≡ p

  Keeps-bind {ℓ} :
      {A : Type ℓ} (m : Run A) (f : A → Run (Option DuplicateRule))
      → ((a : A) → Keeps (f a))
      → Keeps (m >>= f)
  Keeps-bind (ok a) f h d e = h a d e
  Keeps-bind fault f h d e = cc

module _ {F : Type 0} (show_float : F → Str) (inet_aton : Str → Option ℕ) (addr : ℕ) where
  -- What follows once the text is there.
  ips_read-Keeps :
      (json : Json F) (t : Option Str) (first second : Run (Option (List AddrObj)))
      → Keeps (text_ptr show_float inet_aton addr t) (
          first >>= λ src. elim src [
            | none ↦ ok none
            | some src_ip ↦ second >>= λ dst. elim dst [
              | none ↦ ok none
              | some dst_ip ↦ ok (
                  some (record {
                    src_ip = src_ip;
                    dst_ip = dst_ip;
                    json_txt = text_ptr show_float inet_aton addr t;
                  }))
            ]
          ])
  ips_read-Keeps json t first second =
      let p = text_ptr show_float inet_aton addr t in
      Keeps-bind p first _ (elim [
        | none ↦ λ d e. cc
        | some src_ip ↦ Keeps-bind p second _ (elim [ none ↦ λ d e. cc | some dst_ip ↦ λ d e. cc ])
      ])

  parse_duplicate_rule-Keeps :
      (json : Json F) (t : Option Str)
      → persist_json_entry show_float inet_aton addr json ≡ ok t
      → Keeps
          (text_ptr show_float inet_aton addr t)
          (parse_duplicate_rule show_float inet_aton addr json)
  unfolding parse_duplicate_rule
  parse_duplicate_rule-Keeps json t text = rw text (
      Keeps-bind _ (rte_object_get_item json key_duplicate_rules) _ (elim [
        | none ↦ λ d e. cc
        | some (object m) ↦ ips_read-Keeps json t _ _
        | some _ ↦ λ d e. cc
      ]))

  -- A message that sets the duplicate rule and is answered with 0 has a text and gives a rule.
  accepted :
      (r : Run (Option DuplicateRule)) (e e' : Engine)
      → (r >>= λ rule. elim rule [
        | none ↦ refused e
        | some d ↦ done (record e { duplicates = add_duplicate_rule d e.duplicates })
      ])
        ≡ ok (e', pos 0)
      → (d : DuplicateRule) × (r ≡ ok (some d))
        × (e' ≡ record e { duplicates = add_duplicate_rule d e.duplicates })
  accepted fault e e' h = cc
  accepted (ok none) e e' h = cc
  accepted (ok (some d)) e e' h = (d, refl, cc)

  has_text :
      (json : Json F) (d : DuplicateRule)
      → parse_duplicate_rule show_float inet_aton addr json ≡ ok (some d)
      → (t : Option Str) × (persist_json_entry show_float inet_aton addr json ≡ ok t)
  unfolding parse_duplicate_rule
  has_text json d h = first_of (persist_json_entry show_float inet_aton addr json) _ h
    where
      first_of :
          (m : Run (Option Str)) (f : Option Str → Run (Option DuplicateRule))
          → (m >>= f) ≡ ok (some d)
          → (t : Option Str) × (m ≡ ok t)
      first_of (ok t) f h = (t, refl)
      first_of fault f h = cc

  file_shown :
      (json : Json F) (d : DuplicateRule) (e : Engine)
      → IsStorable json
      → parse_duplicate_rule show_float inet_aton addr json ≡ ok (some d)
      → (add_duplicate_rule d e.duplicates).file ≡ some (shown false 0 json [])
  unfolding add_duplicate_rule
  file_shown json d e h read =
      let (t, text) = has_text json d read in
      let kept = parse_duplicate_rule-Keeps json t text d read in
      let shows = text_shown show_float inet_aton addr json t h text in rw kept (rw shows refl)

module _ {F : Type 0} (ops : FloatOps F) (exact : ExactBelow ops) (show_float : F → Str)
    (inet_aton : Str → Option ℕ) (addr : ℕ) where
  -- A message that sets the duplicate rule, that can be stored and that is answered with 0 leaves a
  -- file from which `vsecplat_load_duplicate_rule` brings the same engine to the same state, whatever
  -- lies in memory behind the file's text.
  pub restart_duplicate :
      (j : Members F) (e e' : Engine) (beyond : Str)
      → rte_object_get_item (object j) key_action ≡ ok (some (integer (pos 8)))
      → IsStorable (object j)
      → vsecplat_parse_policy show_float inet_aton addr (some (object j)) e ≡ ok (e', pos 0)
      → vsecplat_load_duplicate_rule ops show_float inet_aton addr e'.duplicates.file beyond e
        ≡ ok (e', pos 0)
  restart_duplicate j e e' beyond action h run =
      let (d, read, after) =
        accepted show_float inet_aton addr
          (parse_duplicate_rule show_float inet_aton addr (object j)) e e'
          (unfold vsecplat_parse_policy in rw action at run) in
      let file =
        ap (λ (e : Engine). e.duplicates.file) after
        ∙ file_shown show_float inet_aton addr (object j) d e h read in
      let text = shown-append show_float 0 (object j) beyond h in
      let plain = parse_shown_text ops exact false (object j) beyond h tt in
      let again = text_policy ops exact show_float inet_aton addr _ (object j) e _ plain run in
      ap (λ f. vsecplat_load_duplicate_rule ops show_float inet_aton addr f beyond e) file
      ∙ (unfold vsecplat_load_duplicate_rule in rw text (rw again refl))
