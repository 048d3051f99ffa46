-- ===== src/Json/Parse/Number/Rest.antt =====
-- About `json_parse_number` of rte_json.c: where the text goes on behind a number.
use vsecplat.Common.{ℕ, ◌-◌, ◌*◌, ◌+◌, ◌≤◌, ◌<◌, Bool, true, false, [], ◌∷◌}
use vsecplat.Common.{◌==◌, ◌≡◌, arith, length, Bool-cases, inl, inr}
use vsecplat.Policy.Text.{Str, is_digit}
use vsecplat.Json.Parse.Number.{
  FloatOps, digits_loop, whole_part, skip_zero, fraction_part, exponent_part, exponent_digits,
  signed_exponent, unsigned_number, json_parse_number,
}
use vsecplat.Json.Parse.{starts_number}

module _ {F : Type 0} (ops : FloatOps F) where
  length-digits_loop : (n : F) (s : Str) → length (digits_loop ops n s).2 ≤ length s
  unfolding digits_loop
  length-digits_loop n [] = omega arith
  length-digits_loop n (c ∷ s) = ground (arith, length-digits_loop (ops.next_digit n (c - b'0')) s)

  length-whole_part : (s : Str) → length (whole_part ops s).1 ≤ length s
  unfolding whole_part
  length-whole_part [] = omega arith
  length-whole_part (c ∷ s) = ground (arith, length-digits_loop ops.zero_float (c ∷ s))

  length-skip_zero : (s : Str) → length (skip_zero ops s) ≤ length s
  length-skip_zero [] = omega arith
  length-skip_zero (c ∷ s) = ground arith

  -- A digit is passed over as a leading 0 or as the first digit.
  length-digits :
      (c : ℕ) (s : Str)
      → is_digit c ≡ true
      → length (whole_part ops (skip_zero ops (c ∷ s))).1 ≤ length s
  unfolding whole_part digits_loop
  length-digits c s digit = elim (Bool-cases (c == b'0')) [
    | inl zeroed ↦ rw zeroed (length-whole_part s)
    | inr other ↦
        rw other (ground (arith, length-digits_loop (ops.next_digit ops.zero_float (c - b'0')) s))
  ]

  length-fraction_part : (n : F) (s : Str) → length (fraction_part ops n s).3 ≤ length s
  unfolding fraction_part
  length-fraction_part n (c ∷ d ∷ s) = ground (arith, length-digits_loop n (d ∷ s))
  length-fraction_part n [] = omega arith
  length-fraction_part n (c ∷ []) = omega arith

  length-exponent_digits : (e : ℕ) (s : Str) → length (exponent_digits ops e s).1 ≤ length s
  length-exponent_digits e [] = omega arith
  length-exponent_digits e (c ∷ s) = ground (arith, length-exponent_digits (e * 10 + (c - b'0')) s)

  length-signed_exponent : (s : Str) → length (signed_exponent ops s).1 ≤ length s
  length-signed_exponent [] = omega arith
  length-signed_exponent (c ∷ s) =
      ground (arith, length-exponent_digits 0 s, length-exponent_digits 0 (c ∷ s))

  length-exponent_part : (s : Str) → length (exponent_part ops s).2 ≤ length s
  unfolding exponent_part
  length-exponent_part [] = omega arith
  length-exponent_part (c ∷ s) = ground (arith, length-signed_exponent s)

  length-unsigned_number :
      (negative : Bool) (s : Str)
      → length (unsigned_number ops negative s).1 ≤ length (whole_part ops (skip_zero ops s)).1
  unfolding unsigned_number
  length-unsigned_number negative s =
      let whole = whole_part ops (skip_zero ops s) in
      let fraction = fraction_part ops whole.0 whole.1 in
      omega (arith, length-fraction_part whole.0 whole.1, length-exponent_part fraction.3)

  -- A number that was read leaves less than the text it was read from.
  pub length-json_parse_number :
      (s : Str) → starts_number s ≡ true → length (json_parse_number ops s).1 < length s
  unfolding json_parse_number
  length-json_parse_number [] h = cc
  length-json_parse_number (c ∷ s) h = elim (Bool-cases (c == b'-')) [
    | inl minus ↦ rw minus (
        omega (
          arith,
          length-unsigned_number true s,
          length-whole_part (skip_zero ops s),
          length-skip_zero s,
        ))
    | inr other ↦
        let digit : is_digit c ≡ true = ground (arith, h, other) in
        rw other (omega (arith, length-unsigned_number false (c ∷ s), length-digits c s digit))
  ]
