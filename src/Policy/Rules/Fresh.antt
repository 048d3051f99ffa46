-- ===== src/Policy/Rules/Fresh.antt =====
-- The node pointers of the rules that `parse_forward_rules` of vsecplat_policy.c reads.
use vsecplat.Common.{ℕ, Bool, true, false, List, [], ◌∷◌, Option, none, some, if◌then◌else◌}
use vsecplat.Common.{◌≡◌, refl, subst, All, ℤ}
use vsecplat.Common.Run.{Run, ok, fault, ◌>>=◌}
use vsecplat.Policy.Text.{Str}
use vsecplat.Policy.Objects.{AddrObj}
use vsecplat.Policy.Objects.Parse.{parse_addr_objs}
use vsecplat.Policy.Rules.{
  RuleEntry, ◌>=>◌, on_string, on_integer, persist_json_entry, parse_rule, parse_rules,
  parse_forward_rules, key_forward_rules,
}
use vsecplat.Json.{Json, Members, integer, string, array, nil, member}
use vsecplat.Json.Access.{rte_object_get_item}

-- A rule that points to no node, with a text that has the property.
abbrev IsNew : (Option Str → Type 0) → RuleEntry → Type 0
IsNew Q r = (r.recurs_dstmac ≡ none) × Q r.json_txt

module _ (Q : Option Str → Type 0) where
  -- Whatever rule the step results in is new.
  abbrev Fresh : Run (Option RuleEntry) → Type 0
  Fresh m = (r : RuleEntry) → m ≡ ok (some r) → IsNew Q r

  Fresh-some : (r : RuleEntry) → IsNew Q r → Fresh (ok (some r))
  Fresh-some r h q e = let same : r ≡ q = cc in subst (IsNew Q) same h

  Fresh-none : Fresh (ok none)
  Fresh-none q e = cc

  Fresh-bind :
      (m : Run (Option RuleEntry)) (f : RuleEntry → Run (Option RuleEntry))
      → Fresh m
      → ((r : RuleEntry) → IsNew Q r → Fresh (f r))
      → Fresh (m >=> f)
  Fresh-bind fault f hm hf r e = cc
  Fresh-bind (ok none) f hm hf r e = cc
  Fresh-bind (ok (some q)) f hm hf r e = hf q (hm q refl) r e

  Fresh-ok {ℓ} :
      {A : Type ℓ} (m : Run A) (f : A → Run (Option RuleEntry))
      → ((a : A) → Fresh (f a))
      → Fresh (m >>= f)
  Fresh-ok (ok a) f h r e = h a r e
  Fresh-ok fault f h r e = cc

  -- The same, where the step's result matters.
  Fresh-result {ℓ} :
      {A : Type ℓ} (m : Run A) (f : A → Run (Option RuleEntry))
      → ((a : A) → m ≡ ok a → Fresh (f a))
      → Fresh (m >>= f)
  Fresh-result (ok a) f h r e = h a refl r e
  Fresh-result fault f h r e = cc

  Fresh-if :
      (b : Bool) (m n : Run (Option RuleEntry)) → Fresh m → Fresh n → Fresh (if b then m else n)
  Fresh-if true m n h k = h
  Fresh-if false m n h k = k

-- Whatever rules were read, none points to a node.
abbrev pub AllFresh : Run (Option (List RuleEntry)) → Type 0
AllFresh fault = Unit
AllFresh (ok none) = Unit
AllFresh (ok (some rs)) = All (λ r. r.recurs_dstmac ≡ none) rs

AllFresh-bind :
    (Q : Option Str → Type 0) (m : Run (Option RuleEntry)) (n : Run (Option (List RuleEntry)))
    → Fresh Q m
    → AllFresh n
    → AllFresh (
        m >>= λ first. elim first [
          | none ↦ ok none
          | some r ↦ n >>= λ rest. ok (elim rest [ none ↦ none | some rs ↦ some (r ∷ rs) ])
        ])
AllFresh-bind Q fault n hm hn = tt
AllFresh-bind Q (ok none) n hm hn = tt
AllFresh-bind Q (ok (some r)) fault hm hn = tt
AllFresh-bind Q (ok (some r)) (ok none) hm hn = tt
AllFresh-bind Q (ok (some r)) (ok (some rs)) hm hn = ((hm r refl).0, hn)

module _ {F : Type 0} (show_float : F → Str) (inet_aton : Str → Option ℕ) (addr : ℕ) where
  on_string-Fresh :
      (Q : Option Str → Type 0) (entry : Json F) (key : Str) (r : RuleEntry)
      (f : Str → Run (Option RuleEntry))
      → IsNew Q r
      → ((s : Str) → Fresh Q (f s))
      → Fresh Q (on_string show_float inet_aton addr entry key r f)
  unfolding on_string
  on_string-Fresh Q entry key r f h hf =
      Fresh-ok Q (rte_object_get_item entry key) _
        (elim [ none ↦ Fresh-some Q r h | some (string s) ↦ hf s | some _ ↦ Fresh-none Q ])

  on_integer-Fresh :
      (Q : Option Str → Type 0) (entry : Json F) (key : Str) (r : RuleEntry) (f : ℤ → RuleEntry)
      → IsNew Q r
      → ((n : ℤ) → IsNew Q (f n))
      → Fresh Q (on_integer show_float inet_aton addr entry key r f)
  unfolding on_integer
  on_integer-Fresh Q entry key r f h hf = Fresh-ok Q (rte_object_get_item entry key) _ (elim [
    | none ↦ Fresh-some Q r h
    | some (integer n) ↦ Fresh-some Q (f n) (hf n)
    | some _ ↦ Fresh-none Q
  ])

  on_addrs-Fresh :
      (Q : Option Str → Type 0) (s : Str) (f : List AddrObj × ℤ → RuleEntry)
      → ((p : List AddrObj × ℤ) → IsNew Q (f p))
      → Fresh Q (parse_addr_objs inet_aton addr s >>= λ p. ok (some (f p)))
  on_addrs-Fresh Q s f h =
      Fresh-ok Q (parse_addr_objs inet_aton addr s) _ (λ p. Fresh-some Q (f p) (h p))

  -- The text that `persist_json_entry` gives for the entry.
  abbrev pub IsText : Json F → Option Str → Type 0
  IsText entry t = persist_json_entry show_float inet_aton addr entry ≡ ok t

  parse_rule-Fresh :
      (entry : Json F) → Fresh (IsText entry) (parse_rule show_float inet_aton addr entry)
  unfolding parse_rule
  parse_rule-Fresh entry =
      Fresh-bind (IsText entry) _ _
        (Fresh-bind (IsText entry) _ _
          (Fresh-bind (IsText entry) _ _
            (Fresh-bind (IsText entry) _ _
              (Fresh-bind (IsText entry) _ _
                (Fresh-bind (IsText entry) _ _
                  (Fresh-bind (IsText entry) _ _
                    (Fresh-bind (IsText entry) _ _
                      (Fresh-bind (IsText entry) _ _
                        (Fresh-bind (IsText entry) _ _
                          (Fresh-result (IsText entry)
                            (persist_json_entry show_float inet_aton addr entry) _
                            (λ t e. Fresh-some (IsText entry) _ (refl, e)))
                          (λ r h. on_integer-Fresh (IsText entry) entry _ r _ h (λ n. h)))
                        (λ r h.
                          on_string-Fresh (IsText entry) entry _ r _ h
                            (λ s. on_addrs-Fresh (IsText entry) s _ (λ p. h))))
                      (λ r h.
                        on_string-Fresh (IsText entry) entry _ r _ h
                          (λ s. on_addrs-Fresh (IsText entry) s _ (λ p. h))))
                    (λ r h.
                      on_string-Fresh (IsText entry) entry _ r _ h
                        (λ s. Fresh-some (IsText entry) _ h)))
                  (λ r h.
                    on_string-Fresh (IsText entry) entry _ r _ h
                      (λ s. Fresh-some (IsText entry) _ h)))
                (λ r h.
                  on_string-Fresh (IsText entry) entry _ r _ h
                    (λ s. Fresh-some (IsText entry) _ h)))
              (λ r h.
                on_string-Fresh (IsText entry) entry _ r _ h (λ s. Fresh-some (IsText entry) _ h)))
            (λ r h. on_integer-Fresh (IsText entry) entry _ r _ h (λ n. h)))
          (λ r h.
            Fresh-if (IsText entry) _ _ _ (Fresh-some (IsText entry) r h)
              (on_string-Fresh (IsText entry) entry _ r _ h (λ s. Fresh-some (IsText entry) _ h))))
        (λ r h. on_integer-Fresh (IsText entry) entry _ r _ h (λ n. h))

  parse_rules-Fresh : (m : Members F) → AllFresh (parse_rules show_float inet_aton addr m)
  unfolding parse_rules
  parse_rules-Fresh nil = tt
  parse_rules-Fresh (member k v m) =
      AllFresh-bind (IsText v) (parse_rule show_float inet_aton addr v)
        (parse_rules show_float inet_aton addr m) (parse_rule-Fresh v) (parse_rules-Fresh m)

  AllFresh-guard :
      (b : Bool) (m : Run (Option (List RuleEntry)))
      → AllFresh m
      → AllFresh (if b then ok none else m)
  AllFresh-guard true m h = tt
  AllFresh-guard false m h = h

  AllFresh-ok :
      (m : Run (Option (Json F))) (f : Option (Json F) → Run (Option (List RuleEntry)))
      → ((j : Option (Json F)) → AllFresh (f j))
      → AllFresh (m >>= f)
  AllFresh-ok fault f h = tt
  AllFresh-ok (ok j) f h = h j

  -- Each rule has the text of the entry that it was read from.
  abbrev pub HaveTexts : Members F → List RuleEntry → Type 0
  HaveTexts nil [] = Unit
  HaveTexts nil (r ∷ rs) = ⊥
  HaveTexts (member k v m) [] = ⊥
  HaveTexts (member k v m) (r ∷ rs) = IsText v r.json_txt × HaveTexts m rs

  HaveTexts-first :
      (k : Option Str) (v : Json F) (m : Members F) (first : Run (Option RuleEntry))
      (rest : Run (Option (List RuleEntry))) (rs : List RuleEntry)
      → Fresh (IsText v) first
      → ((rs : List RuleEntry) → rest ≡ ok (some rs) → HaveTexts m rs)
      → (first >>= λ first. elim first [
        | none ↦ ok none
        | some r ↦ rest >>= λ rest. ok (elim rest [ none ↦ none | some rs ↦ some (r ∷ rs) ])
      ])
        ≡ ok (some rs)
      → HaveTexts (member k v m) rs
  HaveTexts-first k v m fault rest rs new more e = cc
  HaveTexts-first k v m (ok none) rest rs new more e = cc
  HaveTexts-first k v m (ok (some r)) fault rs new more e = cc
  HaveTexts-first k v m (ok (some r)) (ok none) rs new more e = cc
  HaveTexts-first k v m (ok (some r)) (ok (some rs')) rs new more e =
      let same : r ∷ rs' ≡ rs = cc in
      subst (HaveTexts (member k v m)) same ((new r refl).1, more rs' refl)

  pub parse_rules-HaveTexts :
      (m : Members F) (rs : List RuleEntry)
      → parse_rules show_float inet_aton addr m ≡ ok (some rs)
      → HaveTexts m rs
  unfolding parse_rules
  parse_rules-HaveTexts nil rs e =
      let none_read : [] ≡ rs = cc in subst (HaveTexts nil) none_read tt
  parse_rules-HaveTexts (member k v m) rs e =
      HaveTexts-first k v m (parse_rule show_float inet_aton addr v)
        (parse_rules show_float inet_aton addr m) rs (parse_rule-Fresh v) (parse_rules-HaveTexts m)
        e

  -- The rules that `parse_forward_rules` returns point to no nodes.
  pub parse_forward_rules-Fresh :
      (json : Json F) → AllFresh (parse_forward_rules show_float inet_aton addr json)
  unfolding parse_forward_rules
  parse_forward_rules-Fresh json =
      AllFresh-ok (rte_object_get_item json key_forward_rules) _ (elim [
        | none ↦ tt
        | some (array m) ↦ AllFresh-guard _ _ (parse_rules-Fresh m)
        | some _ ↦ tt
      ])
