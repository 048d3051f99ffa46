-- ===== src/Json/Parse.antt =====
-- Reading a value: `json_parse_value` and what it calls, and `rte_parse_json`, of rte_json.c, lines
-- 11-18 and 224-379. Allocation succeeds. Each call costs a unit of fuel.
pub mod Text
pub mod Number
pub mod Total
pub mod Steps
pub mod Shown
pub mod Front
pub mod Written
use vsecplat.Common.{ℕ, zero, suc, ◌+◌, ◌*◌, Bool, true, false, List, [], ◌∷◌, Option, none, some}
use vsecplat.Common.{◌==◌, leb, if◌then◌else◌, ◌&&◌, ◌||◌, length}
use vsecplat.Common.Run.{Run, ok, fault}
use vsecplat.Policy.Text.{Str, is_digit}
use vsecplat.Json.{
  Json, Members, null, false_value, true_value, integer, float, string, object, array, nil, member,
}
use vsecplat.Json.Parse.Text.{json_parse_string}
use vsecplat.Json.Parse.Number.{FloatOps, json_parse_number}

-- `failed` is the null pointer, and `faulted` a read or write out of bounds.
pub data Parse {ℓ} (A : Type ℓ) : Type ℓ where
  parsed : A → Str → Parse A
  failed faulted out_of_fuel : Parse A

abbrev pub and_then {ℓ κ} : {A : Type ℓ} {B : Type κ} → Parse A → (A → Str → Parse B) → Parse B
and_then (parsed a rest) next = next a rest
and_then failed next = failed
and_then faulted next = faulted
and_then out_of_fuel next = out_of_fuel

-- A result of `json_parse_string`.
abbrev pub of_run {ℓ} : {A : Type ℓ} → Run (Option (A × Str)) → Parse A
of_run (ok (some (a, rest))) = parsed a rest
of_run (ok none) = failed
of_run fault = faulted

unfoldable pub json_skip : Str → Str
json_skip [] = []
json_skip (c ∷ s) = let rest = json_skip s in if leb c 32 then rest else c ∷ s

-- `strncmp` with a literal: what follows it, if the text starts with it.
unfoldable pub after : Str → Str → Option Str
after [] s = some s
after (k ∷ key) [] = none
after (k ∷ key) (c ∷ s) = if k == c then after key s else none

-- The byte that a pointer points to, with what follows it; `none` is the NUL.
abbrev pub first_is : ℕ → Str → Bool
first_is c [] = false
first_is c (d ∷ s) = d == c

abbrev pub behind : Str → Str
behind [] = []
behind (c ∷ s) = s

abbrev pub starts_number : Str → Bool
starts_number [] = false
starts_number (c ∷ s) = c == b'-' || is_digit c

module _ {F : Type 0} (ops : FloatOps F) where
  -- `parse_items` and `parse_fields` are the loops of `json_parse_array` and `json_parse_object`,
  -- from where a value or a name is to stand.
  unfoldable mutual
    pub json_parse_value : ℕ → Str → Parse (Json F)
    json_parse_value zero s = out_of_fuel
    json_parse_value (suc f) s =
        let text = and_then (of_run (json_parse_string s)) (λ str rest. parsed (string str) rest) in
        let number = json_parse_number ops s in
        let items = json_parse_array f (json_skip (behind s)) in
        let fields = json_parse_object f (json_skip (behind s)) in
        elim (after (b'n' ∷ b'u' ∷ b'l' ∷ b'l' ∷ []) s) [
          | some rest ↦ parsed null rest
          | none ↦ elim (after (b'f' ∷ b'a' ∷ b'l' ∷ b's' ∷ b'e' ∷ []) s) [
            | some rest ↦ parsed false_value rest
            | none ↦ elim (after (b't' ∷ b'r' ∷ b'u' ∷ b'e' ∷ []) s) [
              | some rest ↦ parsed true_value rest
              | none ↦
                  if first_is b'"' s
                  then text
                  else if starts_number s
                  then parsed number.0 number.1
                  else if first_is b'[' s
                  then items
                  else if first_is b'{' s
                  then fields
                  else failed
            ]
          ]
        ]

    pub json_parse_array : ℕ → Str → Parse (Json F)
    json_parse_array zero s = out_of_fuel
    json_parse_array (suc f) s =
        let some_items = and_then (parse_items f s) (λ m rest. parsed (array m) rest) in
        if first_is b']' s then parsed (array nil) (behind s) else some_items

    pub parse_items : ℕ → Str → Parse (Members F)
    parse_items zero s = out_of_fuel
    parse_items (suc f) s = and_then (json_parse_value f (json_skip s)) λ v rest.
        let next = json_skip rest in
        let more = and_then (parse_items f (behind next)) (λ m end. parsed (member none v m) end) in
        if first_is b',' next
        then more
        else if first_is b']' next
        then parsed (member none v nil) (behind next)
        else failed

    pub json_parse_object : ℕ → Str → Parse (Json F)
    json_parse_object zero s = out_of_fuel
    json_parse_object (suc f) s =
        let some_fields = and_then (parse_fields f s) (λ m rest. parsed (object m) rest) in
        if first_is b'}' s then parsed (object nil) (behind s) else some_fields

    pub parse_fields : ℕ → Str → Parse (Members F)
    parse_fields zero s = out_of_fuel
    parse_fields (suc f) s = and_then (of_run (json_parse_string (json_skip s))) λ name named.
        let colon = json_skip named in
        let valued = and_then (json_parse_value f (json_skip (behind colon))) λ v rest.
          let next = json_skip rest in
          let more =
            and_then (parse_fields f (behind next))
              (λ m end. parsed (member (some name) v m) end) in
          if first_is b',' next
          then more
          else if first_is b'}' next
          then parsed (member (some name) v nil) (behind next)
          else failed in
        if first_is b':' colon then valued else failed

  -- What follows the value is not looked at.
  unfoldable pub rte_parse_json : Str → Parse (Json F)
  unfolding json_parse_value
  rte_parse_json s =
      and_then (json_parse_value (3 * length s + 1) (json_skip s)) (λ json rest. parsed json [])
