-- ===== src/Json/Parse/Number/Written.antt =====
-- About `json_parse_number` of rte_json.c on a number that `%ld` wrote.
use vsecplat.Common.{
  ℕ, zero, suc, ◌+◌, ◌-◌, ◌*◌, ◌/◌, ◌%◌, ◌^◌, ◌≤◌, ◌<◌, Bool, true, false, [], ◌∷◌, ◌++◌,
}
use vsecplat.Common.{
  ◌==◌, leb, if◌then◌else◌, ◌&&◌, ◌≡◌, ◌≢◌, refl, ◌∙◌, ap, arith, Bool-cases, inl, inr,
}
use vsecplat.Common.{ℤ, pos, neg, negsuc}
use native.Mathlib.Nat.{pow-suc}
use vsecplat.Policy.Text.{Str, is_digit}
use vsecplat.Json.{integer}
use vsecplat.Json.Persist.{decimal_digits, print_long}
use vsecplat.Json.Parse.Text.Written.{HasNoNul}
use vsecplat.Json.Parse.{starts_number}
use vsecplat.Json.Parse.Number.{
  FloatOps, ExactBelow, digits_loop, whole_part, skip_zero, fraction_part, exponent_part,
  unsigned_number, json_parse_number,
}

-- What follows cannot belong to a number.
abbrev pub IsBreak : Str → Type 0
IsBreak [] = Unit
IsBreak (c ∷ s) = (is_digit c ≡ false) × (c ≢ b'.') × (c ≢ b'e') × (c ≢ b'E')

-- A first digit other than 0.
abbrev Leads : Str → Type 0
Leads [] = ⊥
Leads (c ∷ s) = (b'1' ≤ c) × (c ≤ b'9')

Leads-decimal_digits : (f n : ℕ) (out : Str) → 0 < n → n < 10 ^ f → Leads (decimal_digits f n out)
unfolding decimal_digits
Leads-decimal_digits zero n out h fits = absurd (omega arith)
Leads-decimal_digits (suc f) n out h fits = elim (Bool-cases (n / 10 == 0)) [
  | inl small ↦ rw small (ground (arith, small))
  | inr large ↦
      let rest : 0 < n / 10 = ground (arith, large) in
      rw large (Leads-decimal_digits f (n / 10) _ rest (omega (arith, pow-suc 10 f)))
]

-- The collected number, and where the text goes on.
abbrev Same : {F : Type 0} → F × ℕ × Str → F × Str → Type 0
Same a b = (a.0 ≡ b.0) × (a.2 ≡ b.1)

decimal_digits-append :
    (f n : ℕ) (out rest : Str) → decimal_digits f n out ++ rest ≡ decimal_digits f n (out ++ rest)
unfolding decimal_digits
decimal_digits-append zero n out rest = refl
decimal_digits-append (suc f) n out rest =
    ground (arith, decimal_digits-append f (n / 10) ((b'0' + n % 10) ∷ out) rest)

HasNoNul-decimal_digits : (f n : ℕ) (out : Str) → HasNoNul out → HasNoNul (decimal_digits f n out)
unfolding decimal_digits
HasNoNul-decimal_digits zero n out h = h
HasNoNul-decimal_digits (suc f) n out h = elim (Bool-cases (n / 10 == 0)) [
  | inl small ↦ rw small (omega arith, h)
  | inr large ↦ rw large (HasNoNul-decimal_digits f (n / 10) _ (omega arith, h))
]

pub HasNoNul-print_long : (z : ℤ) → HasNoNul (print_long z)
unfolding print_long
HasNoNul-print_long (pos n) = HasNoNul-decimal_digits 19 n [] tt
HasNoNul-print_long (negsuc n) = (omega arith, HasNoNul-decimal_digits 19 (suc n) [] tt)

module _ {F : Type 0} (ops : FloatOps F) (exact : ExactBelow ops) where
  Same-digit :
      (n d : ℕ) (s : Str) (b : F × Str)
      → d < 10
      → n * 10 + d < 2 ^ 24
      → Same (digits_loop ops (exact.of_nat (n * 10 + d)) s) b
      → Same (digits_loop ops (exact.of_nat n) ((b'0' + d) ∷ s)) b
  unfolding digits_loop
  Same-digit n d s b h small same =
      let digit : is_digit (b'0' + d) ≡ true = ground arith in
      let value : b'0' + d - b'0' ≡ d = omega arith in
      rw (digit, value, exact.exact_digit n d small) same

  Same-decimal_digits :
      (f n : ℕ) (out : Str) (b : F × Str)
      → n < 10 ^ f
      → n < 2 ^ 24
      → Same (digits_loop ops (exact.of_nat n) out) b
      → Same (digits_loop ops (exact.of_nat 0) (decimal_digits f n out)) b
  unfolding decimal_digits
  Same-decimal_digits zero n out b fits small same =
      let none : n ≡ 0 = omega arith in ground (arith, same, none)
  Same-decimal_digits (suc f) n out b fits small same =
      let parts : n / 10 * 10 + n % 10 ≡ n = omega arith in
      let step = Same-digit (n / 10) (n % 10) out b (omega arith) (omega arith) (rw parts same) in
      elim (Bool-cases (n / 10 == 0)) [
        | inl last ↦ let zeroed : n / 10 ≡ 0 = ground (arith, last) in rw last (rw zeroed at step)
        | inr more ↦ rw more (
            Same-decimal_digits f (n / 10) ((b'0' + n % 10) ∷ out) b (omega (arith, pow-suc 10 f))
              (omega arith) step)
      ]

  Same-break : (n : F) (rest : Str) → IsBreak rest → Same (digits_loop ops n rest) (n, rest)
  unfolding digits_loop
  Same-break n [] h = (refl, refl)
  Same-break n (c ∷ s) h = rw h.0 (refl, refl)

  whole_part-leading :
      (s : Str) (b : F × Str)
      → Leads s
      → Same (digits_loop ops ops.zero_float s) b
      → whole_part ops (skip_zero ops s) ≡ b
  unfolding whole_part
  whole_part-leading [] b h same = elim h [ ]
  whole_part-leading (c ∷ s) b h same =
      let other : (c == b'0') ≡ false = ground (arith, h.0, h.1) in
      let first : (leb b'1' c && leb c b'9') ≡ true = ground (arith, h.0, h.1) in
      rw (other, first, same.0, same.1)

  whole_part-break : (rest : Str) → IsBreak rest → whole_part ops rest ≡ (ops.zero_float, rest)
  unfolding whole_part
  whole_part-break [] h = refl
  whole_part-break (c ∷ s) h = let other = h.0 in ground (arith, other)

  whole_part-decimal_digits :
      (n : ℕ) (rest : Str)
      → n < 2 ^ 24
      → IsBreak rest
      → whole_part ops (skip_zero ops (decimal_digits 19 n rest)) ≡ (exact.of_nat n, rest)
  unfolding digits_loop
  whole_part-decimal_digits zero rest small h =
      unfold decimal_digits in rw (whole_part-break rest h, exact.of_zero)
  whole_part-decimal_digits (suc n) rest small h =
      let fits : suc n < 10 ^ 19 = omega arith in
      let same =
        Same-decimal_digits 19 (suc n) rest (exact.of_nat (suc n), rest) fits small
          (Same-break (exact.of_nat (suc n)) rest h) in
      whole_part-leading (decimal_digits 19 (suc n) rest) (exact.of_nat (suc n), rest)
        (Leads-decimal_digits 19 (suc n) rest (omega arith) fits) (rw exact.of_zero same)

  fraction_part-break :
      (n : F) (rest : Str) → IsBreak rest → fraction_part ops n rest ≡ (false, n, 0, rest)
  unfolding fraction_part
  fraction_part-break n [] h = refl
  fraction_part-break n (c ∷ []) h = refl
  fraction_part-break n (c ∷ d ∷ s) h = let other = h.1 in ground (arith, other)

  exponent_part-break : (rest : Str) → IsBreak rest → exponent_part ops rest ≡ (false, pos 0, rest)
  unfolding exponent_part
  exponent_part-break [] h = refl
  exponent_part-break (c ∷ s) h = let e = h.2 in let f = h.3 in ground (arith, e, f)

  unsigned_number-decimal_digits :
      (negative : Bool) (n : ℕ) (rest : Str)
      → n < 2 ^ 24
      → IsBreak rest
      → unsigned_number ops negative (decimal_digits 19 n rest)
        ≡ (integer (if negative then neg n else pos n), rest)
  unfolding unsigned_number
  unsigned_number-decimal_digits negative n rest small h = rw (
    whole_part-decimal_digits n rest small h,
    fraction_part-break (exact.of_nat n) rest h,
    exponent_part-break rest h,
    exact.exact_int negative n small,
  )

-- The numbers whose digits a `float` holds.
abbrev pub IsSmall : ℤ → Type 0
IsSmall (pos n) = n < 2 ^ 24
IsSmall (negsuc n) = suc n < 2 ^ 24

-- A first digit.
abbrev IsDigits : Str → Type 0
IsDigits [] = ⊥
IsDigits (c ∷ s) = is_digit c ≡ true

IsDigits-decimal_digits : (n : ℕ) (rest : Str) → n < 10 ^ 19 → IsDigits (decimal_digits 19 n rest)
IsDigits-decimal_digits zero rest fits = unfold decimal_digits in refl
IsDigits-decimal_digits (suc n) rest fits =
    from_leads _ (Leads-decimal_digits 19 (suc n) rest (omega arith) fits)
  where
    from_leads : (s : Str) → Leads s → IsDigits s
    from_leads [] h = h
    from_leads (c ∷ s) h = let low = h.0 in let high = h.1 in ground arith

starts_number-digits : (s : Str) → IsDigits s → starts_number s ≡ true
starts_number-digits [] h = elim h [ ]
starts_number-digits (c ∷ s) h = ground (arith, h)

pub starts_number-print_long :
    (z : ℤ) (rest : Str) → IsSmall z → starts_number (print_long z ++ rest) ≡ true
unfolding print_long
starts_number-print_long (pos n) rest small =
    ap starts_number (decimal_digits-append 19 n [] rest)
    ∙ starts_number-digits _ (IsDigits-decimal_digits n rest (omega arith))
starts_number-print_long (negsuc n) rest small = refl

module _ {F : Type 0} (ops : FloatOps F) (exact : ExactBelow ops) where
  parse_digits : (s : Str) → IsDigits s → json_parse_number ops s ≡ unsigned_number ops false s
  unfolding json_parse_number
  parse_digits [] h = refl
  parse_digits (c ∷ s) h = let other : (c == b'-') ≡ false = ground (arith, h) in rw other refl

  parse_unsigned :
      (n : ℕ) (rest : Str)
      → n < 2 ^ 24
      → IsBreak rest
      → json_parse_number ops (decimal_digits 19 n rest) ≡ (integer (pos n), rest)
  parse_unsigned n rest small h =
      parse_digits _ (IsDigits-decimal_digits n rest (omega arith))
      ∙ unsigned_number-decimal_digits ops exact false n rest small h

  -- An integer of fewer than 24 bits that was written is read back, where what follows it cannot
  -- belong to a number.
  pub parse_persisted_number :
      (z : ℤ) (rest : Str)
      → IsSmall z
      → IsBreak rest
      → json_parse_number ops (print_long z ++ rest) ≡ (integer z, rest)
  unfolding print_long
  parse_persisted_number (pos n) rest small h =
      ap (json_parse_number ops) (decimal_digits-append 19 n [] rest)
      ∙ parse_unsigned n rest small h
  parse_persisted_number (negsuc n) rest small h =
      unfold json_parse_number in
      ap (unsigned_number ops true) (decimal_digits-append 19 (suc n) [] rest)
      ∙ unsigned_number-decimal_digits ops exact true (suc n) rest small h
