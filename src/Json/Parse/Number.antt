-- ===== src/Json/Parse/Number.antt =====
-- Reading a number: rte_json.c, lines 172-222. The `float` that the digits are collected in is a
-- parameter with its arithmetic; the count of an exponent's digits is not bounded by `int`.
pub mod Rest
pub mod Written
use vsecplat.Common.{ℕ, zero, suc, ◌+◌, ◌-◌, ◌*◌, ◌^◌, ◌<◌, Bool, true, false, List, [], ◌∷◌, ◌++◌}
use vsecplat.Common.{◌==◌, ltb, leb, if◌then◌else◌, ◌&&◌, ◌||◌, ℤ, pos, neg, negsuc, ◌≡◌}
use vsecplat.Policy.Text.{Str, is_digit}
use vsecplat.Json.{Json, integer, float}

-- `n*10.0 + d`, `sign*n*pow(10.0, scale+exponent)` from the sign, the count of the digits behind the
-- point and the exponent, and `(int)n`.
pub record FloatOps (F : Type 0) : Type 0 where
  pub zero_float : F
  pub next_digit : F → ℕ → F
  pub scaled : Bool → F → ℕ → ℤ → F
  pub to_int : F → ℤ

-- What IEEE single precision promises of integers below 2^24: `of_nat` is the float of a number,
-- and collecting, signing and truncating it is exact.
pub record ExactBelow {F : Type 0} (ops : FloatOps F) : Type 0 where
  pub of_nat : ℕ → F
  pub of_zero : ops.zero_float ≡ of_nat 0
  pub exact_digit :
      (n d : ℕ) → n * 10 + d < 2 ^ 24 → ops.next_digit (of_nat n) d ≡ of_nat (n * 10 + d)
  pub exact_int :
      (negative : Bool) (n : ℕ)
      → n < 2 ^ 24
      → ops.to_int (ops.scaled negative (of_nat n) 0 (pos 0)) ≡ (if negative then neg n else pos n)

-- The digits at the front, collected; their count, and what follows them.
module _ {F : Type 0} (ops : FloatOps F) where
  unfoldable pub digits_loop : F → Str → F × ℕ × Str
  digits_loop n [] = (n, 0, [])
  digits_loop n (c ∷ s) =
      let more = digits_loop (ops.next_digit n (c - b'0')) s in
      if is_digit c then (more.0, suc more.1, more.2) else (n, 0, c ∷ s)

  -- A leading 0 is passed over, and digits start with another one.
  unfoldable pub whole_part : Str → F × Str
  whole_part [] = (ops.zero_float, [])
  whole_part (c ∷ s) =
      let collected = digits_loop ops.zero_float (c ∷ s) in
      if leb b'1' c && leb c b'9' then (collected.0, collected.2) else (ops.zero_float, c ∷ s)

  abbrev pub skip_zero : Str → Str
  skip_zero [] = []
  skip_zero (c ∷ s) = if c == b'0' then s else c ∷ s

  -- The digits behind a point: whether there were any, their count, and what follows.
  unfoldable pub fraction_part : F → Str → Bool × F × ℕ × Str
  fraction_part n (c ∷ d ∷ s) =
      let collected = digits_loop n (d ∷ s) in
      if c == b'.' && is_digit d
      then (true, collected.0, collected.1, collected.2)
      else (false, n, 0, c ∷ d ∷ s)
  fraction_part n s = (false, n, 0, s)

  abbrev exponent_digits : ℕ → Str → ℕ × Str
  exponent_digits e [] = (e, [])
  exponent_digits e (c ∷ s) =
      let more = exponent_digits (e * 10 + (c - b'0')) s in if is_digit c then more else (e, c ∷ s)

  abbrev signed_exponent : Str → ℤ × Str
  signed_exponent [] = (pos 0, [])
  signed_exponent (c ∷ s) =
      let up = exponent_digits 0 s in
      let plain = exponent_digits 0 (c ∷ s) in
      if c == b'+'
      then (pos up.0, up.1)
      else if c == b'-'
      then (neg up.0, up.1)
      else (pos plain.0, plain.1)

  unfoldable pub exponent_part : Str → Bool × ℤ × Str
  exponent_part [] = (false, pos 0, [])
  exponent_part (c ∷ s) =
      let e = signed_exponent s in
      if c == b'e' || c == b'E' then (true, e.0, e.1) else (false, pos 0, c ∷ s)

  unfoldable pub unsigned_number : Bool → Str → Json F × Str
  unfolding digits_loop whole_part fraction_part exponent_part
  unsigned_number negative s =
      let whole = whole_part (skip_zero s) in
      let fraction = fraction_part whole.0 whole.1 in
      let exponent = exponent_part fraction.3 in
      let n = ops.scaled negative fraction.1 fraction.2 exponent.1 in
      (if fraction.0 || exponent.0 then float n else integer (ops.to_int n), exponent.2)

  unfoldable pub json_parse_number : Str → Json F × Str
  unfolding unsigned_number
  json_parse_number [] = unsigned_number false []
  json_parse_number (c ∷ s) =
      if c == b'-' then unsigned_number true s else unsigned_number false (c ∷ s)
