-- ===== src/Json/Parse/Total.antt =====
-- About `rte_parse_json` of rte_json.c: its loops and its recursion end.
use vsecplat.Common.{
  ℕ, zero, suc, ◌+◌, ◌*◌, ◌≤◌, ◌<◌, Bool, true, false, [], ◌∷◌, Option, none, some,
}
use vsecplat.Common.{◌==◌, if◌then◌else◌, ◌≡◌, ◌≢◌, refl, subst, arith, length}
use vsecplat.Common.Run.{Run, ok, fault}
use vsecplat.Policy.Text.{Str}
use vsecplat.Json.{null, false_value, true_value, string, object, array, nil, member}
use vsecplat.Json.Parse.Text.{json_parse_string}
use vsecplat.Json.Parse.Text.Rest.{Shorter, json_parse_string-Shorter}
use vsecplat.Json.Parse.Number.{FloatOps, json_parse_number}
use vsecplat.Json.Parse.Number.Rest.{length-json_parse_number}
use vsecplat.Json.Parse.{
  Parse, parsed, failed, faulted, out_of_fuel, and_then, of_run, json_skip, after, first_is, behind,
  starts_number, json_parse_value, json_parse_array, parse_items, json_parse_object, parse_fields,
  rte_parse_json,
}

-- The fuel was enough, and a value that was read leaves less than the bound.
abbrev Within {ℓ} : {A : Type ℓ} → ℕ → Parse A → Type 0
Within n (parsed a rest) = length rest < n
Within n failed = Unit
Within n faulted = Unit
Within n out_of_fuel = ⊥

Within-and_then {ℓ κ} :
    {A : Type ℓ} {B : Type κ} (n k : ℕ) (m : Parse A) (next : A → Str → Parse B)
    → Within n m
    → ((a : A) (rest : Str) → length rest < n → Within k (next a rest))
    → Within k (and_then m next)
Within-and_then n k (parsed a rest) next h go = go a rest h
Within-and_then n k failed next h go = tt
Within-and_then n k faulted next h go = tt
Within-and_then n k out_of_fuel next h go = elim h [ ]

Within-if {ℓ} :
    {A : Type ℓ} (n : ℕ) (b : Bool) (m k : Parse A)
    → (b ≡ true → Within n m)
    → (b ≡ false → Within n k)
    → Within n (if b then m else k)
Within-if n true m k h g = h refl
Within-if n false m k h g = g refl

Within-of_run : (n k : ℕ) (r : Run (Option (Str × Str))) → n ≤ k → Shorter n r → Within k (of_run r)
Within-of_run n k (ok (some (a, rest))) le h = omega arith
Within-of_run n k (ok none) le h = tt
Within-of_run n k fault le h = tt

length-json_skip : (s : Str) → length (json_skip s) ≤ length s
unfolding json_skip
length-json_skip [] = omega arith
length-json_skip (c ∷ s) = ground (arith, length-json_skip s)

length-behind : (c : ℕ) (s : Str) → first_is c s ≡ true → length (behind s) < length s
length-behind c [] h = cc
length-behind c (d ∷ s) h = omega arith

Within-weaken {ℓ} : {A : Type ℓ} (n k : ℕ) (m : Parse A) → n ≤ k → Within n m → Within k m
Within-weaken n k (parsed a rest) le h = omega arith
Within-weaken n k failed le h = tt
Within-weaken n k faulted le h = tt
Within-weaken n k out_of_fuel le h = elim h [ ]

-- What follows a literal is shorter than the text.
abbrev Behind : ℕ → Option Str → Type 0
Behind n none = Unit
Behind n (some rest) = length rest < n

Behind-suc : (n : ℕ) (o : Option Str) → Behind n o → Behind (suc n) o
Behind-suc n none h = tt
Behind-suc n (some rest) h = omega arith

Behind-after : (k : ℕ) (key s : Str) → Behind (length s) (after (k ∷ key) s)
unfolding after
Behind-after k key [] = tt
Behind-after k [] (c ∷ s) =
    elim (k == c) as (λ b. Behind (suc (length s)) (if b then some s else none)) [
      | true ↦ omega arith
      | false ↦ tt
    ]
Behind-after k (l ∷ key) (c ∷ s) =
    elim (k == c) as (λ b. Behind (suc (length s)) (if b then after (l ∷ key) s else none)) [
      | true ↦ Behind-suc _ (after (l ∷ key) s) (Behind-after l key s)
      | false ↦ tt
    ]

Within-literal {ℓ} :
    {A : Type ℓ} (n : ℕ) (a : A) (o : Option Str) (m : Parse A)
    → Behind n o
    → Within n m
    → Within n (elim o [ some rest ↦ parsed a rest | none ↦ m ])
Within-literal n a none m h g = g
Within-literal n a (some rest) m h g = h

module _ {F : Type 0} (ops : FloatOps F) where
  mutual
    unfolding json_parse_value

    json_parse_value-Within :
        (f : ℕ) (s : Str) → 3 * length s < f → Within (length s) (json_parse_value ops f s)
    json_parse_value-Within zero s enough = absurd (omega arith)
    json_parse_value-Within (suc f) s enough =
        let n = length s in
        let inner = json_skip (behind s) in
        let text = json_parse_string s in
        let number = json_parse_number ops s in
        Within-literal n null (after (b'n' ∷ b'u' ∷ b'l' ∷ b'l' ∷ []) s) _ (Behind-after _ _ s) (
          Within-literal n false_value (after (b'f' ∷ b'a' ∷ b'l' ∷ b's' ∷ b'e' ∷ []) s) _
            (Behind-after _ _ s)
            (Within-literal n true_value (after (b't' ∷ b'r' ∷ b'u' ∷ b'e' ∷ []) s) _
              (Behind-after _ _ s)
              (Within-if n (first_is b'"' s) _ _
                (λ e.
                  Within-and_then n n (of_run text) (λ str rest. parsed (string str) rest)
                    (Within-of_run n n text (omega arith) (json_parse_string-Shorter s))
                    (λ a rest h. h))
                (λ e.
                  Within-if n (starts_number s) (parsed number.0 number.1) _
                    (length-json_parse_number ops s)
                    (λ e.
                      Within-if n (first_is b'[' s) (json_parse_array ops f inner) _
                        (λ e.
                          Within-weaken (length inner) n (json_parse_array ops f inner)
                            (omega (arith, length-behind b'[' s e, length-json_skip (behind s)))
                            (json_parse_array-Within f inner
                              (omega (arith, length-behind b'[' s e, length-json_skip (behind s)))))
                        (λ e.
                          Within-if n (first_is b'{' s) (json_parse_object ops f inner) failed
                            (λ e.
                              Within-weaken (length inner) n (json_parse_object ops f inner)
                                (omega (arith, length-behind b'{' s e, length-json_skip (behind s)))
                                (json_parse_object-Within f inner (
                                  omega
                                    (arith, length-behind b'{' s e, length-json_skip (behind s)))))
                            (λ e. tt)))))))

    json_parse_array-Within :
        (f : ℕ) (s : Str) → 3 * length s + 2 < f → Within (length s) (json_parse_array ops f s)
    json_parse_array-Within zero s enough = absurd (omega arith)
    json_parse_array-Within (suc f) s enough =
        let n = length s in
        Within-if n (first_is b']' s) (parsed (array nil) (behind s)) _ (length-behind b']' s) (λ e.
          Within-and_then n n (parse_items ops f s) (λ m rest. parsed (array m) rest)
            (parse_items-Within f s (omega arith)) (λ m rest h. h))

    parse_items-Within :
        (f : ℕ) (s : Str) → 3 * length s + 1 < f → Within (length s) (parse_items ops f s)
    parse_items-Within zero s enough = absurd (omega arith)
    parse_items-Within (suc f) s enough =
        let n = length s in
        let first = json_skip s in
        Within-and_then n n (json_parse_value ops f first) _
          (Within-weaken (length first) n (json_parse_value ops f first) (length-json_skip s)
            (json_parse_value-Within f first (omega (arith, length-json_skip s))))
          (λ v rest h.
            let next = json_skip rest in
            Within-if n (first_is b',' next) _ _
              (λ e.
                Within-and_then n n (parse_items ops f (behind next)) _
                  (Within-weaken (length (behind next)) n (parse_items ops f (behind next))
                    (omega (arith, length-behind b',' next e, length-json_skip rest))
                    (parse_items-Within f (behind next)
                      (omega (arith, length-behind b',' next e, length-json_skip rest))))
                  (λ m end h. h))
              (λ e.
                Within-if n (first_is b']' next) (parsed (member none v nil) (behind next)) failed
                  (λ e. omega (arith, length-behind b']' next e, length-json_skip rest)) (λ e. tt)))

    json_parse_object-Within :
        (f : ℕ) (s : Str) → 3 * length s + 2 < f → Within (length s) (json_parse_object ops f s)
    json_parse_object-Within zero s enough = absurd (omega arith)
    json_parse_object-Within (suc f) s enough =
        let n = length s in
        Within-if n (first_is b'}' s) (parsed (object nil) (behind s)) _ (length-behind b'}' s)
          (λ e.
            Within-and_then n n (parse_fields ops f s) (λ m rest. parsed (object m) rest)
              (parse_fields-Within f s (omega arith)) (λ m rest h. h))

    parse_fields-Within :
        (f : ℕ) (s : Str) → 3 * length s + 1 < f → Within (length s) (parse_fields ops f s)
    parse_fields-Within zero s enough = absurd (omega arith)
    parse_fields-Within (suc f) s enough =
        let n = length s in
        let first = json_skip s in
        Within-and_then n n (of_run (json_parse_string first)) _
          (Within-of_run (length first) n (json_parse_string first) (length-json_skip s)
            (json_parse_string-Shorter first))
          (λ name named hn.
            let colon = json_skip named in
            let inner = json_skip (behind colon) in
            Within-if n (first_is b':' colon) _ failed
              (λ e.
                let shorter : length inner < n = omega (
                  arith,
                  length-behind b':' colon e,
                  length-json_skip named,
                  length-json_skip (behind colon),
                ) in
                Within-and_then n n (json_parse_value ops f inner) _
                  (Within-weaken (length inner) n (json_parse_value ops f inner) (omega arith)
                    (json_parse_value-Within f inner (omega arith)))
                  (λ v rest h.
                    let next = json_skip rest in
                    Within-if n (first_is b',' next) _ _
                      (λ e.
                        Within-and_then n n (parse_fields ops f (behind next)) _
                          (Within-weaken (length (behind next)) n (parse_fields ops f (behind next))
                            (omega (arith, length-behind b',' next e, length-json_skip rest))
                            (parse_fields-Within f (behind next)
                              (omega (arith, length-behind b',' next e, length-json_skip rest))))
                          (λ m end h. h))
                      (λ e.
                        Within-if n (first_is b'}' next)
                          (parsed (member (some name) v nil) (behind next)) failed
                          (λ e. omega (arith, length-behind b'}' next e, length-json_skip rest))
                          (λ e. tt))))
              (λ e. tt))

  -- Reading any text ends: in a value, in the null pointer or in an access out of bounds, with three
  -- units of fuel for each byte and one more.
  pub rte_parse_json-ends : (s : Str) → rte_parse_json ops s ≢ out_of_fuel
  unfolding rte_parse_json
  rte_parse_json-ends s out =
      let n = length (json_skip s) in
      let text = json_parse_value ops (3 * length s + 1) (json_skip s) in
      subst (Within 1) out (
        Within-and_then n 1 text (λ json rest. parsed json [])
          (json_parse_value-Within (3 * length s + 1) (json_skip s)
            (omega (arith, length-json_skip s)))
          (λ json rest h. omega arith))
