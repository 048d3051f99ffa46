-- ===== src/Json/Parse/Front.antt =====
-- About `json_skip` of rte_json.c, in front of what `rte_persist_json` wrote.
use vsecplat.Common.{ℕ, zero, suc, ◌≤◌, ◌<◌, Bool, true, false, [], ◌∷◌, ◌++◌}
use vsecplat.Common.{some, All, ◌≡◌, ◌≢◌, refl, ◌∙◌, ap, arith}
use vsecplat.Common.{replicate}
use vsecplat.Common.Run.{ok}
use vsecplat.Policy.Text.{Str}
use vsecplat.Json.{
  Json, Members, null, false_value, true_value, integer, float, string, object, array, nil, member,
}
use vsecplat.Json.Persist.{persist_string_ptr}
use vsecplat.Json.Parse.Text.{json_parse_string}
use vsecplat.Json.Parse.Text.Written.{IsBytes, parse_persisted_string}
use vsecplat.Json.Parse.Number.Written.{IsBreak, starts_number-print_long}
use vsecplat.Json.Parse.{json_skip, first_is, starts_number}
use vsecplat.Json.Parse.Steps.{}
use vsecplat.Json.Parse.Shown.{IsStorable, shown, comma, gap}

-- White space, and a text that starts with something else.
abbrev pub IsWhite : Str → Type 0
IsWhite s = All (λ c. c ≤ 32) s

abbrev pub IsVisible : Str → Type 0
IsVisible [] = ⊥
IsVisible (c ∷ s) = (32 < c) × (c ≢ b']')

pub json_skip_visible : (s : Str) → IsVisible s → json_skip s ≡ s
unfolding json_skip
json_skip_visible [] h = refl
json_skip_visible (c ∷ s) h = let low = h.0 in ground (arith, low)

pub open_visible : (s : Str) → IsVisible s → first_is b']' s ≡ false
open_visible [] h = refl
open_visible (c ∷ s) h = let other = h.1 in ground (arith, other)

pub twice : (s : Str) → json_skip (json_skip s) ≡ json_skip s
unfolding json_skip
twice [] = refl
twice (c ∷ s) = ground (arith, twice s)

json_skip-append : (bs r : Str) → IsWhite bs → json_skip (bs ++ r) ≡ json_skip r
unfolding json_skip
json_skip-append [] r h = refl
json_skip-append (c ∷ bs) r h = let low = h.0 in ground (arith, low, json_skip-append bs r h.1)

pub json_skip-gap : (fmt : Bool) (bs r : Str) → IsWhite bs → json_skip (gap fmt bs r) ≡ json_skip r
json_skip-gap true bs r h = json_skip-append bs r h
json_skip-gap false bs r h = refl

pub IsBreak-gap : (fmt : Bool) (bs r : Str) → IsWhite bs → IsBreak r → IsBreak (gap fmt bs r)
IsBreak-gap true [] r h g = g
IsBreak-gap true (c ∷ bs) r h g =
    let low = h.0 in (ground (arith, low), omega arith, omega arith, omega arith)
IsBreak-gap false bs r h g = g

pub IsWhite-tabs : (n : ℕ) → IsWhite (replicate n 9)
IsWhite-tabs zero = tt
IsWhite-tabs (suc n) = (omega arith, IsWhite-tabs n)

IsBreak-comma :
    {F : Type 0} (bs : Str) (m : Members F) (r : Str) → IsBreak r → IsBreak (comma bs m r)
IsBreak-comma bs nil r h = h
IsBreak-comma bs (member k v m) r h = (refl, omega arith, omega arith, omega arith)

IsVisible-number : (s : Str) → starts_number s ≡ true → IsVisible s
IsVisible-number [] h = cc
IsVisible-number (c ∷ s) h = (ground (arith, h), ground (arith, h))

pub IsVisible-shown :
    {F : Type 0} (fmt : Bool) (d : ℕ) (v : Json F) (r : Str)
    → IsStorable v
    → IsVisible (shown fmt d v r)
unfolding persist_string_ptr
IsVisible-shown fmt d (integer z) r h = IsVisible-number _ (starts_number-print_long z r h)
IsVisible-shown fmt d (string s) r h = (omega arith, omega arith)
IsVisible-shown fmt d null r h = elim h [ ]
IsVisible-shown fmt d false_value r h = elim h [ ]
IsVisible-shown fmt d true_value r h = elim h [ ]
IsVisible-shown fmt d (float x) r h = elim h [ ]
IsVisible-shown fmt d (object nil) r h = elim h [ ]
IsVisible-shown fmt d (object (member k v m)) r h = (omega arith, omega arith)
IsVisible-shown fmt d (array nil) r h = (omega arith, omega arith)
IsVisible-shown fmt d (array (member k v m)) r h = (omega arith, omega arith)

pub json_skip-shown :
    {F : Type 0} (fmt : Bool) (d : ℕ) (v : Json F) (r : Str)
    → IsStorable v
    → json_skip (shown fmt d v r) ≡ shown fmt d v r
json_skip-shown fmt d v r h = json_skip_visible (shown fmt d v r) (IsVisible-shown fmt d v r h)

-- The name of a field, where one is to stand.
pub parse_name :
    (fmt : Bool) (d : ℕ) (k r : Str)
    → IsBytes k
    → json_parse_string (json_skip (gap fmt (replicate d 9) (persist_string_ptr (some k) ++ r)))
      ≡ ok (some (k, r))
parse_name fmt d k r h =
    ap json_parse_string (json_skip-gap fmt (replicate d 9) _ (IsWhite-tabs d) ∙ skip_quote)
    ∙ parse_persisted_string k r h
  where
    skip_quote : json_skip (persist_string_ptr (some k) ++ r) ≡ persist_string_ptr (some k) ++ r
    skip_quote = unfold persist_string_ptr json_skip in refl
