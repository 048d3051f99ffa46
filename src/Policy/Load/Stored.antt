-- ===== src/Policy/Load/Stored.antt =====
-- About the text of the file that `vsecplat_store_policy` of vsecplat_policy.c leaves.
use vsecplat.Common.{ℕ, ltb, false, List, [], ◌∷◌, ◌++◌, Option, none, some, map}
use vsecplat.Common.{if◌then◌else◌, ◌≡◌, refl, sym, ◌∙◌, ap, arith, pos, length, append_assoc}
use vsecplat.Common.Run.{ok, fault}
use vsecplat.Policy.Text.{Str}
use vsecplat.Policy.Rules.{RuleEntry, persist_json_entry, key_forward_rules}
use vsecplat.Policy.Rules.Fresh.{IsText, HaveTexts}
use vsecplat.Policy.Store.{Policies, store_rules, store_head, text_of}
use vsecplat.Policy.Dispatch.{key_action}
use vsecplat.Json.{Json, Members, integer, object, array, nil, member}
use vsecplat.Json.Persist.{rte_persist_json, c_string, persist_string_ptr, print_long}
use vsecplat.Json.Parse.Shown.{
  IsStorable, AreItems, shown, shown_items, shown-depth, persist_inner-Shows, shown-append,
}
use vsecplat.Json.Parse.Written.{c_string_persisted}

text_in_buffer :
    (bs : List ℕ) (t : Option Str)
    → (if ltb 4096 (length bs) then fault else ok (some (c_string bs))) ≡ ok t
    → t ≡ some (c_string bs)
text_in_buffer bs t e = ground (arith, e)

-- The object that the file of rules holds.
abbrev pub stored_json : {F : Type 0} → Members F → Members F
stored_json m =
    member (some key_action) (integer (pos 1)) (member (some key_forward_rules) (array m) nil)

module _ {F : Type 0} (show_float : F → Str) (inet_aton : Str → Option ℕ) (addr : ℕ) where
  -- The text of an entry that can be stored.
  pub text_shown :
      (v : Json F) (t : Option Str)
      → IsStorable v
      → IsText show_float inet_aton addr v t
      → t ≡ some (shown false 0 v [])
  unfolding persist_json_entry rte_persist_json
  text_shown v t h e =
      let shows = persist_inner-Shows show_float false 0 v h in
      text_in_buffer (shows.0 ++ 0 ∷ []) t (rw shows.1 at e)
      ∙ ap some (c_string_persisted shows.0 false v h shows.2)

  text_front :
      (v : Json F) (t : Option Str) (d : ℕ) (r : Str)
      → IsStorable v
      → IsText show_float inet_aton addr v t
      → text_of t ++ r ≡ shown false d v r
  text_front v t d r h e =
      ap (λ u. text_of u ++ r) (text_shown v t h e)
      ∙ shown-append show_float 0 v r h
      ∙ shown-depth 0 d v r

  -- The texts of the rules, joined as the file joins them.
  store_rules-shown :
      (m : Members F) (rs : List RuleEntry) (d : ℕ) (r : Str)
      → AreItems m
      → HaveTexts show_float inet_aton addr m rs
      → store_rules rs ++ r ≡ shown_items false d m r
  unfolding store_rules
  store_rules-shown nil [] d r h t = refl
  store_rules-shown nil (q ∷ rs) d r h t = elim t [ ]
  store_rules-shown (member k v m) [] d r h t = elim t [ ]
  store_rules-shown (member (some k) v m) (q ∷ rs) d r h t = elim h [ ]
  store_rules-shown (member none v nil) (q ∷ []) d r h t = text_front v q.json_txt d r h.0 t.0
  store_rules-shown (member none v nil) (q ∷ q' ∷ rs) d r h t = elim t.1 [ ]
  store_rules-shown (member none v (member k w m)) (q ∷ []) d r h t = elim t.1 [ ]
  store_rules-shown (member none v (member k w m)) (q ∷ q' ∷ rs) d r h t =
      append_assoc (text_of q.json_txt) _ r
      ∙ text_front v q.json_txt d _ h.0 t.0
      ∙ ap (λ s. shown false d v (b',' ∷ s))
          (store_rules-shown (member k w m) (q' ∷ rs) d r h.1 t.1)

  pub stored_text :
      (k : Option Str) (v : Json F) (m : Members F) (s : Policies) (rs : List RuleEntry)
      (beyond : Str)
      → AreItems (member k v m)
      → HaveTexts show_float inet_aton addr (member k v m) rs
      → store_rules s.rules ≡ store_rules rs
      → (store_head ++ (store_rules s.rules ++ b']' ∷ b'}' ∷ [])) ++ beyond
        ≡ shown false 0 (object (stored_json (member k v m))) beyond
  unfolding persist_string_ptr print_long
  stored_text k v m s rs beyond h t same =
      ap (λ text. store_head ++ text)
        (append_assoc (store_rules s.rules) (b']' ∷ b'}' ∷ []) beyond
          ∙ ap (λ text. text ++ b']' ∷ b'}' ∷ beyond) same
          ∙ store_rules-shown (member k v m) rs 2 (b']' ∷ b'}' ∷ beyond) h t)

-- The rules' texts, which the file is made of.
join_texts : List (Option Str) → Str
join_texts [] = []
join_texts (t ∷ []) = text_of t
join_texts (t ∷ u ∷ ts) = text_of t ++ b',' ∷ join_texts (u ∷ ts)

store_rules_joined : (rs : List RuleEntry) → store_rules rs ≡ join_texts (map (λ r. r.json_txt) rs)
unfolding store_rules join_texts
store_rules_joined [] = refl
store_rules_joined (r ∷ []) = refl
store_rules_joined (r ∷ q ∷ rs) =
    ap (λ s. text_of r.json_txt ++ b',' ∷ s) (store_rules_joined (q ∷ rs))

pub store_rules-map :
    (a b : List RuleEntry)
    → map (λ r. r.json_txt) a ≡ map (λ r. r.json_txt) b
    → store_rules a ≡ store_rules b
store_rules-map a b same = store_rules_joined a ∙ ap join_texts same ∙ sym (store_rules_joined b)
