-- ===== src/Json/Parse/Text/Rest.antt =====
-- About `json_parse_string` of rte_json.c: where the text goes on behind a string.
use vsecplat.Common.{ℕ, suc, ◌≤◌, ◌<◌, ltb, ◌||◌, Option, Bool, true, false, [], ◌∷◌, none, some}
use vsecplat.Common.{if◌then◌else◌, ◌==◌, ◌!=◌, arith, length}
use vsecplat.Common.Run.{Run, ok, fault, ◌>>=◌}
use vsecplat.Policy.Text.{Str}
use vsecplat.Json.Parse.Text.{
  Copied, written, copy_units, copy_escaped, copy_coded, copy_pair, copy_second, count_units,
  json_parse_string, behind_quote, between, parse_hex4, plain_escape, utf8, pair_of,
}

-- The rest, if there is one, is no longer than the bound.
abbrev EndsBy : ℕ → Copied → Type 0
EndsBy n fault = Unit
EndsBy n (ok (out, rest)) = length rest ≤ n

EndsBy-written : (n : ℕ) (out : Str) (m : Copied) → EndsBy n m → EndsBy n (written out m)
EndsBy-written n out (ok r) h = h
EndsBy-written n out fault h = tt

EndsBy-weaken : (n k : ℕ) (m : Copied) → n ≤ k → EndsBy n m → EndsBy k m
EndsBy-weaken n k (ok r) le h = omega arith
EndsBy-weaken n k fault le h = tt

EndsBy-if :
    (n : ℕ) (b : Bool) (m k : Copied) → EndsBy n m → EndsBy n k → EndsBy n (if b then m else k)
EndsBy-if n true m k h g = h
EndsBy-if n false m k h g = g

mutual
  unfolding copy_units

  copy_units-EndsBy : (s : Str) → EndsBy (length s) (copy_units s)
  copy_units-EndsBy [] = omega arith
  copy_units-EndsBy (c ∷ s) =
      let n = suc (length s) in
      let escaped =
        EndsBy-weaken (length s) n (copy_escaped s) (omega arith) (copy_escaped-EndsBy s) in
      let plain = EndsBy-weaken (length s) n (copy_units s) (omega arith) (copy_units-EndsBy s) in
      EndsBy-if n (c == b'"') (ok ([], c ∷ s)) _ (omega arith) (
        EndsBy-if n (c == b'\\') (copy_escaped s) (written (c ∷ []) (copy_units s)) escaped
          (EndsBy-written n (c ∷ []) (copy_units s) plain))

  copy_escaped-EndsBy : (s : Str) → EndsBy (length s) (copy_escaped s)
  copy_escaped-EndsBy [] = tt
  copy_escaped-EndsBy (d ∷ s) =
      let n = suc (length s) in
      let coded = EndsBy-weaken (length s) n (copy_coded s) (omega arith) (copy_coded-EndsBy s) in
      let plain = EndsBy-weaken (length s) n (copy_units s) (omega arith) (copy_units-EndsBy s) in
      EndsBy-if n (d == b'u') (copy_coded s) (written (plain_escape d ∷ []) (copy_units s)) coded
        (EndsBy-written n (plain_escape d ∷ []) (copy_units s) plain)

  copy_coded-EndsBy : (s : Str) → EndsBy (length s) (copy_coded s)
  copy_coded-EndsBy (a ∷ b ∷ c ∷ d ∷ s) =
      let uc = parse_hex4 a b c d in
      let n = suc (suc (suc (suc (length s)))) in
      let pair = copy_pair uc (copy_units s) s in
      let nothing = EndsBy-weaken (length s) n (copy_units s) (omega arith) (copy_units-EndsBy s) in
      EndsBy-if n (between 0xdc00 0xdfff uc || uc == 0) (copy_units s) _ nothing (
        EndsBy-if n (between 0xd800 0xdbff uc) pair (written (utf8 uc) (copy_units s))
          (copy_pair-EndsBy uc (copy_units s) s n (omega arith) nothing)
          (EndsBy-written n (utf8 uc) (copy_units s) nothing))
  copy_coded-EndsBy [] = tt
  copy_coded-EndsBy (a ∷ []) = tt
  copy_coded-EndsBy (a ∷ b ∷ []) = tt
  copy_coded-EndsBy (a ∷ b ∷ c ∷ []) = tt

  copy_pair-EndsBy :
      (uc : ℕ) (unpaired : Copied) (s : Str) (n : ℕ)
      → length s ≤ n
      → EndsBy n unpaired
      → EndsBy n (copy_pair uc unpaired s)
  copy_pair-EndsBy uc unpaired (e ∷ u ∷ s) n le h =
      EndsBy-if n (e != b'\\' || u != b'u') unpaired (copy_second uc s) h
        (EndsBy-weaken (length s) n (copy_second uc s) (omega arith) (copy_second-EndsBy uc s))
  copy_pair-EndsBy uc unpaired [] n le h = h
  copy_pair-EndsBy uc unpaired (e ∷ []) n le h = h

  copy_second-EndsBy : (uc : ℕ) (s : Str) → EndsBy (length s) (copy_second uc s)
  copy_second-EndsBy uc (a ∷ b ∷ c ∷ d ∷ s) =
      let uc2 = parse_hex4 a b c d in
      let n = suc (suc (suc (suc (length s)))) in
      let nothing = EndsBy-weaken (length s) n (copy_units s) (omega arith) (copy_units-EndsBy s) in
      EndsBy-if n (between 0xdc00 0xdfff uc2) (written (utf8 (pair_of uc uc2)) (copy_units s))
        (copy_units s) (EndsBy-written n (utf8 (pair_of uc uc2)) (copy_units s) nothing) nothing
  copy_second-EndsBy uc [] = tt
  copy_second-EndsBy uc (a ∷ []) = tt
  copy_second-EndsBy uc (a ∷ b ∷ []) = tt
  copy_second-EndsBy uc (a ∷ b ∷ c ∷ []) = tt

-- A string that was read leaves less than the text it was read from.
abbrev pub Shorter : ℕ → Run (Option (Str × Str)) → Type 0
Shorter n fault = Unit
Shorter n (ok none) = Unit
Shorter n (ok (some (out, rest))) = length rest < n

length-behind_quote : (s : Str) → length (behind_quote s) ≤ length s
length-behind_quote [] = omega arith
length-behind_quote (c ∷ s) = ground arith

Shorter-second :
    (n : ℕ) (len : ℕ) (m : Copied)
    → EndsBy n m
    → Shorter (suc n) (
        m >>= λ (out, rest).
        if ltb len (length out) then fault else ok (some (out, behind_quote rest)))
Shorter-second n len fault h = tt
Shorter-second n len (ok (out, rest)) h =
    elim (ltb len (length out))
      as (λ b. Shorter (suc n) (if b then fault else ok (some (out, behind_quote rest)))) [
        | true ↦ tt
        | false ↦ omega (arith, length-behind_quote rest)
      ]

Shorter-first :
    (n : ℕ) (len : Run ℕ) (m : Copied)
    → EndsBy n m
    → Shorter (suc n) (
        len >>= λ len. m >>= λ (out, rest).
        if ltb len (length out) then fault else ok (some (out, behind_quote rest)))
Shorter-first n fault m h = tt
Shorter-first n (ok len) m h = Shorter-second n len m h

pub json_parse_string-Shorter : (s : Str) → Shorter (length s) (json_parse_string s)
unfolding json_parse_string
json_parse_string-Shorter [] = tt
json_parse_string-Shorter (c ∷ s) =
    elim (c != b'"')
      as (λ b. Shorter (suc (length s)) (
        if b
        then ok none
        else count_units s >>= λ len. copy_units s >>= λ (out, rest).
            if ltb len (length out) then fault else ok (some (out, behind_quote rest)))) [
              | true ↦ tt
              | false ↦
                  Shorter-first (length s) (count_units s) (copy_units s) (copy_units-EndsBy s)
            ]
