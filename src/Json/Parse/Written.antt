-- ===== src/Json/Parse/Written.antt =====
-- About `rte_parse_json` on a text that `rte_persist_json` of rte_json.c wrote.
use vsecplat.Common.{ℕ, zero, suc, ◌+◌, ◌*◌, ◌≤◌, Bool, false, List, [], ◌∷◌, ◌++◌}
use vsecplat.Common.{Option, none, some, ◌≡◌, refl, sym, ◌∙◌, ap, arith, ℤ}
use vsecplat.Common.{length, replicate, append-nil}
use vsecplat.Common.Run.{Returns}
use vsecplat.Policy.Text.{Str}
use vsecplat.Json.{
  Json, Members, null, false_value, true_value, integer, float, string, object, array, nil, member,
}
use vsecplat.Json.Persist.{print_long, persist_string_ptr, c_string, rte_persist_json}
use vsecplat.Json.Parse.Text.{json_parse_string}
use vsecplat.Json.Parse.Text.Written.{IsBytes, parse_persisted_string}
use vsecplat.Json.Parse.Number.{FloatOps, ExactBelow}
use vsecplat.Json.Parse.Number.Written.{
  IsSmall, IsBreak, parse_persisted_number, starts_number-print_long,
}
use vsecplat.Json.Parse.{
  parsed, json_skip, first_is, json_parse_value, json_parse_array, parse_items, json_parse_object,
  parse_fields, rte_parse_json,
}
use vsecplat.Json.Parse.Steps.{
  value_string, value_number, value_array, value_object, array_items, object_fields, last_item,
  next_item, last_field, next_field,
}
use vsecplat.Json.Parse.Shown.{
  IsStorable, AreItems, AreFields, shown, shown_items, shown_fields, gap, persist_inner-Shows,
}
use vsecplat.Json.Parse.Shown.Size.{c_string-append, need, needs, need-shown, HasNoNul-shown}
use vsecplat.Json.Parse.Front.{
  json_skip_visible, open_visible, twice, json_skip-gap, IsBreak-gap, IsWhite-tabs, IsVisible-shown,
  json_skip-shown, parse_name,
}

pub c_string_persisted :
    {F : Type 0} (bs : List ℕ) (fmt : Bool) (v : Json F)
    → IsStorable v
    → ((r : Str) → bs ++ r ≡ shown fmt 0 v r)
    → c_string (bs ++ 0 ∷ []) ≡ shown fmt 0 v []
c_string_persisted bs fmt v h text =
    let same : bs ≡ shown fmt 0 v [] = sym (append-nil bs) ∙ text [] in
    c_string-append bs (0 ∷ []) (rw same (HasNoNul-shown fmt 0 v [] h tt)) ∙ at_nul ∙ text []
  where
    at_nul : bs ++ c_string (0 ∷ []) ≡ bs ++ []
    at_nul = unfold c_string in refl

-- What may follow a value: behind a number, nothing that could belong to it.
abbrev pub Follows : {F : Type 0} → Json F → Str → Type 0
Follows (integer z) r = IsBreak r
Follows _ r = Unit

IsBreak-Follows : {F : Type 0} (v : Json F) (r : Str) → IsBreak r → Follows v r
IsBreak-Follows (integer z) r h = h
IsBreak-Follows null r h = tt
IsBreak-Follows false_value r h = tt
IsBreak-Follows true_value r h = tt
IsBreak-Follows (float x) r h = tt
IsBreak-Follows (string s) r h = tt
IsBreak-Follows (object m) r h = tt
IsBreak-Follows (array m) r h = tt

module _ {F : Type 0} (ops : FloatOps F) (exact : ExactBelow ops) where
  parse_string_value :
      (f : ℕ) (s r : Str)
      → IsBytes s
      → json_parse_value ops (suc f) (persist_string_ptr (some s) ++ r) ≡ parsed (string s) r
  unfolding persist_string_ptr
  parse_string_value f s r h = value_string ops f _ s r (parse_persisted_string s r h)

  parse_number_value :
      (f : ℕ) (z : ℤ) (r : Str)
      → IsSmall z
      → IsBreak r
      → json_parse_value ops (suc f) (print_long z ++ r) ≡ parsed (integer z) r
  parse_number_value f z r h g =
      value_number ops f (print_long z ++ r) (starts_number-print_long z r h)
      ∙ ap (λ (p : Json F × Str). parsed p.0 p.1) (parse_persisted_number ops exact z r h g)

  empty_array :
      (f : ℕ) (r : Str)
      → json_parse_value ops (suc (suc f)) (b'[' ∷ b']' ∷ r) ≡ parsed (array nil) r
  empty_array f r = value_array ops (suc f) (b']' ∷ r) _ (unfold json_parse_value json_skip in refl)

  close_bracket : (r : Str) → json_skip (b']' ∷ r) ≡ b']' ∷ r
  unfolding json_skip
  close_bracket r = refl

  at_comma : (r : Str) → json_skip (b',' ∷ r) ≡ b',' ∷ r
  unfolding json_skip
  at_comma r = refl

  close_brace :
      (fmt : Bool) (d : ℕ) (r : Str) → json_skip (gap fmt (replicate d 9) (b'}' ∷ r)) ≡ b'}' ∷ r
  close_brace fmt d r = json_skip-gap fmt (replicate d 9) _ (IsWhite-tabs d) ∙ brace
    where
      brace : json_skip (b'}' ∷ r) ≡ b'}' ∷ r
      brace = unfold json_skip in refl

  -- The first name, behind the white space in front of it, opens no empty object.
  skip_to_name :
      (fmt : Bool) (d : ℕ) (k : Str) (v : Json F) (m : Members F) (r : Str)
      → first_is b'}' (json_skip (shown_fields fmt d (member (some k) v m) r)) ≡ false
  unfolding persist_string_ptr json_skip
  skip_to_name fmt d k v m r = rw (json_skip-gap fmt (replicate d 9) _ (IsWhite-tabs d)) refl

  mutual
    parse_shown :
        (fmt : Bool) (d : ℕ) (v : Json F) (r : Str) (f : ℕ)
        → IsStorable v
        → Follows v r
        → need v ≤ f
        → json_parse_value ops f (shown fmt d v r) ≡ parsed v r
    parse_shown fmt d null r zero h g enough = absurd (omega arith)
    parse_shown fmt d false_value r zero h g enough = absurd (omega arith)
    parse_shown fmt d true_value r zero h g enough = absurd (omega arith)
    parse_shown fmt d (float x) r zero h g enough = absurd (omega arith)
    parse_shown fmt d (integer z) r zero h g enough = absurd (omega arith)
    parse_shown fmt d (string s) r zero h g enough = absurd (omega arith)
    parse_shown fmt d (object m) r zero h g enough = absurd (omega arith)
    parse_shown fmt d (array m) r zero h g enough = absurd (omega arith)
    parse_shown fmt d (integer z) r (suc f) h g enough = parse_number_value f z r h g
    parse_shown fmt d (string s) r (suc f) h g enough = parse_string_value f s r h
    parse_shown fmt d null r (suc f) h g enough = elim h [ ]
    parse_shown fmt d false_value r (suc f) h g enough = elim h [ ]
    parse_shown fmt d true_value r (suc f) h g enough = elim h [ ]
    parse_shown fmt d (float x) r (suc f) h g enough = elim h [ ]
    parse_shown fmt d (object nil) r (suc f) h g enough = elim h [ ]
    parse_shown fmt d (array nil) r (suc (suc f)) h g enough = empty_array f r
    parse_shown fmt d (array nil) r (suc zero) h g enough = absurd (omega arith)
    parse_shown fmt d (array (member k v m)) r (suc zero) h g enough = absurd (omega arith)
    parse_shown fmt d (object (member k v m)) r (suc zero) h g enough = absurd (omega arith)
    parse_shown fmt d (array (member (some k) v m)) r (suc (suc f)) h g enough = elim h [ ]
    parse_shown fmt d (array (member none v m)) r (suc (suc f)) h g enough =
        let text = shown_items fmt (d + 1) (member none v m) (b']' ∷ r) in
        let visible = IsVisible-shown fmt (d + 1) v _ h.0 in
        value_array ops (suc f) text _ (
          ap (json_parse_array ops (suc f)) (json_skip_visible text visible)
          ∙ array_items ops f text (member none v m) r (open_visible text visible) (
              parse_shown_items fmt (d + 1) none v m r f text h (json_skip_visible text visible)
                (omega arith)))
    parse_shown fmt d (object (member none v m)) r (suc (suc f)) h g enough = elim h [ ]
    parse_shown fmt d (object (member (some k) v m)) r (suc (suc f)) h g enough =
        let fields =
          shown_fields fmt (d + 1) (member (some k) v m) (gap fmt (replicate d 9) (b'}' ∷ r)) in
        let text = gap fmt (10 ∷ []) fields in
        let skipped = json_skip-gap fmt (10 ∷ []) fields (omega arith) in
        value_object ops (suc f) text _ (
          ap (json_parse_object ops (suc f)) skipped
          ∙ object_fields ops f (json_skip fields) (member (some k) v m) r
              (skip_to_name fmt (d + 1) k v m _)
              (parse_shown_fields fmt (d + 1) d k v m r f (json_skip fields) h (twice fields)
                (omega arith)))

    -- The items from the first on.
    parse_shown_items :
        (fmt : Bool) (d : ℕ) (k : Option Str) (v : Json F) (m : Members F) (r : Str) (f : ℕ)
        (s : Str)
        → AreItems (member k v m)
        → json_skip s ≡ shown_items fmt d (member k v m) (b']' ∷ r)
        → needs (member k v m) ≤ f
        → parse_items ops f s ≡ parsed (member k v m) r
    parse_shown_items fmt d k v m r zero s h e enough = absurd (omega arith)
    parse_shown_items fmt d (some k) v m r (suc f) s h e enough = elim h [ ]
    parse_shown_items fmt d none v nil r (suc f) s h e enough =
        let at_bracket : IsBreak (b']' ∷ r) = (refl, omega arith, omega arith, omega arith) in
        last_item ops f s v (b']' ∷ r) r
          (ap (json_parse_value ops f) e
            ∙ parse_shown fmt d v (b']' ∷ r) f h.0 (IsBreak-Follows v _ at_bracket) (omega arith))
          (close_bracket r)
    parse_shown_items fmt d none v (member (some l) w m) r (suc f) s h e enough = elim h.1 [ ]
    parse_shown_items fmt d none v (member none w m) r (suc f) s h e enough =
        let rest = shown_items fmt d (member none w m) (b']' ∷ r) in
        let more = gap fmt (32 ∷ []) rest in
        let at_more : IsBreak (b',' ∷ more) = (refl, omega arith, omega arith, omega arith) in
        next_item ops f s v (b',' ∷ more) more (member none w m) r
          (ap (json_parse_value ops f) e
            ∙ parse_shown fmt d v (b',' ∷ more) f h.0 (IsBreak-Follows v _ at_more) (omega arith))
          (at_comma more)
          (parse_shown_items fmt d none w m r f more h.1
            (json_skip-gap fmt (32 ∷ []) rest (omega arith)
              ∙ json_skip_visible rest (IsVisible-shown fmt d w _ h.1.0))
            (omega arith))

    -- The fields from the first on; `e` is the depth of the closing brace.
    parse_shown_fields :
        (fmt : Bool) (d e : ℕ) (k : Str) (v : Json F) (m : Members F) (r : Str) (f : ℕ) (s : Str)
        → AreFields (member (some k) v m)
        → json_skip s
          ≡ json_skip
              (shown_fields fmt d (member (some k) v m) (gap fmt (replicate e 9) (b'}' ∷ r)))
        → needs (member (some k) v m) ≤ f
        → parse_fields ops f s ≡ parsed (member (some k) v m) r
    parse_shown_fields fmt d e k v m r zero s h same enough = absurd (omega arith)
    parse_shown_fields fmt d e k v nil r (suc f) s h same enough =
        let close = gap fmt (replicate e 9) (b'}' ∷ r) in
        let rest = gap fmt (10 ∷ []) close in
        let ended : IsBreak close =
          IsBreak-gap fmt (replicate e 9) _ (IsWhite-tabs e)
            (refl, omega arith, omega arith, omega arith) in
        last_field ops f s k (gap fmt (9 ∷ []) (shown fmt d v rest)) v rest r
          (ap json_parse_string same ∙ parse_name fmt d k _ h.0)
          (ap (json_parse_value ops f)
              (json_skip-gap fmt (9 ∷ []) _ (omega arith) ∙ json_skip-shown fmt d v rest h.1)
            ∙ parse_shown fmt d v rest f h.1
                (IsBreak-Follows v _ (IsBreak-gap fmt (10 ∷ []) close (omega arith) ended))
                (omega arith))
          (json_skip-gap fmt (10 ∷ []) close (omega arith) ∙ close_brace fmt e r)
    parse_shown_fields fmt d e k v (member none w m) r (suc f) s h same enough = elim h.2 [ ]
    parse_shown_fields fmt d e k v (member (some l) w m) r (suc f) s h same enough =
        let fields =
          shown_fields fmt d (member (some l) w m) (gap fmt (replicate e 9) (b'}' ∷ r)) in
        let more = gap fmt (10 ∷ []) fields in
        let rest = b',' ∷ more in
        let at_more : IsBreak rest = (refl, omega arith, omega arith, omega arith) in
        next_field ops f s k (gap fmt (9 ∷ []) (shown fmt d v rest)) v rest more
          (member (some l) w m) r (ap json_parse_string same ∙ parse_name fmt d k _ h.0)
          (ap (json_parse_value ops f)
              (json_skip-gap fmt (9 ∷ []) _ (omega arith) ∙ json_skip-shown fmt d v rest h.1)
            ∙ parse_shown fmt d v rest f h.1 (IsBreak-Follows v _ at_more) (omega arith))
          (at_comma more)
          (parse_shown_fields fmt d e l w m r f more h.2
            (json_skip-gap fmt (10 ∷ []) fields (omega arith)) (omega arith))

  -- A value's text at the front of any text.
  pub parse_shown_text :
      (fmt : Bool) (v : Json F) (beyond : Str)
      → IsStorable v
      → Follows v beyond
      → rte_parse_json ops (shown fmt 0 v beyond) ≡ parsed v []
  unfolding rte_parse_json
  parse_shown_text fmt v beyond h g =
      let text = shown fmt 0 v beyond in
      let read =
        parse_shown fmt 0 v beyond (3 * length text + 1) h g
          (omega (arith, need-shown fmt 0 v beyond h)) in
      rw (json_skip-shown fmt 0 v beyond h) (rw read refl)

  -- A value is written, formatted or not, as a text that is read back as the same value: a string of
  -- bytes other than NUL, an integer between -2^24 and 2^24, an array of such values without names, or
  -- an object of at least one such value, each under a name of such bytes. The arithmetic of `float` is
  -- exact below 2^24.
  pub parse_persisted :
      (show_float : F → Str) (v : Json F) (fmt : Bool)
      → IsStorable v
      → Returns
          (rte_persist_json show_float v fmt)
          (λ bs. rte_parse_json ops (c_string bs) ≡ parsed v [])
  unfolding rte_persist_json
  parse_persisted show_float v fmt h =
      let shows = persist_inner-Shows show_float fmt 0 v h in
      (
        shows.0 ++ 0 ∷ [],
        rw shows.1 refl,
        ap (rte_parse_json ops) (c_string_persisted shows.0 fmt v h shows.2)
            ∙ parse_shown_text fmt v [] h (IsBreak-Follows v [] tt),
      )
