-- ===== src/Json/Parse/Steps.antt =====
-- One call of `json_parse_value`, `json_parse_array`, `json_parse_object` and their loops in
-- rte_json.c, from the calls that it makes.
use vsecplat.Common.{ℕ, suc, true, false, [], ◌∷◌, none, some}
use vsecplat.Common.{◌==◌, ◌≡◌, refl, arith}
use vsecplat.Common.Run.{ok}
use vsecplat.Policy.Text.{Str, is_digit}
use vsecplat.Json.{Json, Members, string, object, array, nil, member}
use vsecplat.Json.Parse.Text.{json_parse_string}
use vsecplat.Json.Parse.Number.{FloatOps, json_parse_number}
use vsecplat.Json.Parse.{
  Parse, parsed, json_skip, after, first_is, starts_number, json_parse_value, json_parse_array,
  parse_items, json_parse_object, parse_fields,
}

after_number :
    (k : ℕ) (key s : Str)
    → is_digit k ≡ false
    → (k == b'-') ≡ false
    → starts_number s ≡ true
    → after (k ∷ key) s ≡ none
unfolding after
after_number k key [] d m h = refl
after_number k key (c ∷ s) d m h = ground (arith, d, m, h)

quote_number :
    (c : ℕ) (s : Str)
    → is_digit c ≡ false
    → (c == b'-') ≡ false
    → starts_number s ≡ true
    → first_is c s ≡ false
quote_number c [] d m h = refl
quote_number c (e ∷ s) d m h = ground (arith, d, m, h)

skip_colon : (s : Str) → json_skip (b':' ∷ s) ≡ b':' ∷ s
unfolding json_skip
skip_colon s = refl

module _ {F : Type 0} (ops : FloatOps F) where
  pub value_string :
      (f : ℕ) (s : Str) (t rest : Str)
      → json_parse_string (b'"' ∷ s) ≡ ok (some (t, rest))
      → json_parse_value ops (suc f) (b'"' ∷ s) ≡ parsed (string t) rest
  unfolding json_parse_value after
  value_string f s t rest h = rw h refl

  pub value_number :
      (f : ℕ) (s : Str)
      → starts_number s ≡ true
      → json_parse_value ops (suc f) s
        ≡ parsed (json_parse_number ops s).0 (json_parse_number ops s).1
  unfolding json_parse_value
  value_number f s h =
      rw (after_number b'n' (b'u' ∷ b'l' ∷ b'l' ∷ []) s refl refl h, json_parse_value)
        (rw (after_number b'f' (b'a' ∷ b'l' ∷ b's' ∷ b'e' ∷ []) s refl refl h) (
          rw (after_number b't' (b'r' ∷ b'u' ∷ b'e' ∷ []) s refl refl h)
            (rw (quote_number b'"' s refl refl h, h) refl)))

  pub value_array :
      (f : ℕ) (s : Str) (p : Parse (Json F))
      → json_parse_array ops f (json_skip s) ≡ p
      → json_parse_value ops (suc f) (b'[' ∷ s) ≡ p
  unfolding json_parse_value after
  value_array f s p h = h

  pub value_object :
      (f : ℕ) (s : Str) (p : Parse (Json F))
      → json_parse_object ops f (json_skip s) ≡ p
      → json_parse_value ops (suc f) (b'{' ∷ s) ≡ p
  unfolding json_parse_value after
  value_object f s p h = h

  pub array_items :
      (f : ℕ) (s : Str) (m : Members F) (rest : Str)
      → first_is b']' s ≡ false
      → parse_items ops f s ≡ parsed m rest
      → json_parse_array ops (suc f) s ≡ parsed (array m) rest
  unfolding json_parse_value
  array_items f s m rest h g = rw (h, g) refl

  pub object_fields :
      (f : ℕ) (s : Str) (m : Members F) (rest : Str)
      → first_is b'}' s ≡ false
      → parse_fields ops f s ≡ parsed m rest
      → json_parse_object ops (suc f) s ≡ parsed (object m) rest
  unfolding json_parse_value
  object_fields f s m rest h g = rw (h, g) refl

  pub last_item :
      (f : ℕ) (s : Str) (v : Json F) (rest r : Str)
      → json_parse_value ops f (json_skip s) ≡ parsed v rest
      → json_skip rest ≡ b']' ∷ r
      → parse_items ops (suc f) s ≡ parsed (member none v nil) r
  unfolding json_parse_value
  last_item f s v rest r h g = rw h (rw g refl)

  pub next_item :
      (f : ℕ) (s : Str) (v : Json F) (rest more : Str) (m : Members F) (r : Str)
      → json_parse_value ops f (json_skip s) ≡ parsed v rest
      → json_skip rest ≡ b',' ∷ more
      → parse_items ops f more ≡ parsed m r
      → parse_items ops (suc f) s ≡ parsed (member none v m) r
  unfolding json_parse_value
  next_item f s v rest more m r h g k = rw h (rw g (rw k refl))

  pub last_field :
      (f : ℕ) (s k text : Str) (v : Json F) (rest r : Str)
      → json_parse_string (json_skip s) ≡ ok (some (k, b':' ∷ text))
      → json_parse_value ops f (json_skip text) ≡ parsed v rest
      → json_skip rest ≡ b'}' ∷ r
      → parse_fields ops (suc f) s ≡ parsed (member (some k) v nil) r
  unfolding json_parse_value
  last_field f s k text v rest r e h g = rw e (rw (skip_colon text) (rw h (rw g refl)))

  pub next_field :
      (f : ℕ) (s k text : Str) (v : Json F) (rest more : Str) (m : Members F) (r : Str)
      → json_parse_string (json_skip s) ≡ ok (some (k, b':' ∷ text))
      → json_parse_value ops f (json_skip text) ≡ parsed v rest
      → json_skip rest ≡ b',' ∷ more
      → parse_fields ops f more ≡ parsed m r
      → parse_fields ops (suc f) s ≡ parsed (member (some k) v m) r
  unfolding json_parse_value
  next_field f s k text v rest more m r e h g n =
      rw e (rw (skip_colon text) (rw h (rw g (rw n refl))))
