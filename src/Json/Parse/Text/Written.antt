-- ===== src/Json/Parse/Text/Written.antt =====
-- About `json_parse_string` of rte_json.c on a text that `json_persist_string_ptr` wrote.
use vsecplat.Common.{ℕ, suc, ◌≤◌, ◌<◌, ◌/◌, ◌%◌, Bool, true, false, [], ◌∷◌, ◌++◌, some, All}
use vsecplat.Common.{
  ◌==◌, if◌then◌else◌, ◌≡◌, ◌≢◌, refl, ◌∙◌, ap, arith, length, Bool-cases, inl, inr,
}
use vsecplat.Common.{each_below, each_below_lem, append_assoc, All-append}
use vsecplat.Common.Run.{ok, Returns}
use vsecplat.Policy.Text.{Str}
use vsecplat.Json.Persist.{escape, escape_all, hex_digit, persist_string_ptr}
use vsecplat.Json.Parse.Text.{
  copy_units, count_units, json_parse_string, parse_hex4, plain_escape, utf8,
}

-- The bytes that a C string can hold.
abbrev pub IsBytes : Str → Type 0
IsBytes s = All (λ c. (0 < c) × (c < 256)) s

-- What a byte is written as: itself, a short escape, or an escape with its number.
data Form : ℕ → Str → Type 0 where
  itself : {c : ℕ} → c ≢ b'"' → c ≢ b'\\' → Form c (c ∷ [])
  short : {c : ℕ} (d : ℕ) → d ≢ b'u' → plain_escape d ≡ c → Form c (b'\\' ∷ d ∷ [])
  coded :
      {c : ℕ} (x y : ℕ)
      → 0 < c
      → c < 32
      → parse_hex4 b'0' b'0' x y ≡ c
      → b'0' ≤ x
      → x ≢ b'\\'
      → b'0' ≤ y
      → y ≢ b'\\'
      → Form c (b'\\' ∷ b'u' ∷ b'0' ∷ b'0' ∷ x ∷ y ∷ [])

hex4_test : ℕ → Bool
hex4_test c = parse_hex4 b'0' b'0' (hex_digit (c / 16)) (hex_digit (c % 16)) == c

hex4_all : each_below hex4_test 32 ≡ true
unfolding each_below hex4_test parse_hex4 hex_digit
hex4_all = refl

hex4_back : (c : ℕ) → c < 32 → parse_hex4 b'0' b'0' (hex_digit (c / 16)) (hex_digit (c % 16)) ≡ c
hex4_back c h =
    let test = each_below_lem hex4_test 32 c h hex4_all in unfold hex4_test in ground (arith, test)

hex_digit_plain : (d : ℕ) → d < 16 → (b'0' ≤ hex_digit d) × (hex_digit d ≢ b'\\')
unfolding hex_digit
hex_digit_plain d h = (ground arith, ground arith)

Form-if :
    (c : ℕ) (b : Bool) (s t : Str)
    → (b ≡ true → Form c s)
    → (b ≡ false → Form c t)
    → Form c (if b then s else t)
Form-if c true s t h g = h refl
Form-if c false s t h g = g refl

Form-short :
    (c d k : ℕ) (t : Str)
    → d ≢ b'u'
    → plain_escape d ≡ k
    → ((c == k) ≡ false → Form c (b'\\' ∷ t))
    → Form c (b'\\' ∷ (if c == k then d ∷ [] else t))
Form-short c d k t h e g = elim (Bool-cases (c == k)) [
  | inl same ↦ rw same (short d h (ground (arith, same, e)))
  | inr other ↦ rw other (g other)
]

escape-Form : (c : ℕ) → 0 < c → c < 256 → Form c (escape c)
unfolding escape plain_escape
escape-Form c h small =
    Form-if c _ (c ∷ []) _ (λ e. itself (ground (arith, e)) (ground (arith, e)))
      (λ control. Form-short c b'\\' b'\\' _ (omega arith) refl (λ e.
        Form-short c b'"' b'"' _ (omega arith) refl (λ e1.
          Form-short c b'b' 8 _ (omega arith) refl (λ e2.
            Form-short c b'f' 12 _ (omega arith) refl (λ e3.
              Form-short c b'n' 10 _ (omega arith) refl (λ e4.
                Form-short c b'r' 13 _ (omega arith) refl (λ e5.
                  Form-short c b't' 9 _ (omega arith) refl (λ e6.
                    let low : c < 32 = ground (arith, control, e, e1) in
                    let x = hex_digit_plain (c / 16) (omega arith) in
                    let y = hex_digit_plain (c % 16) (omega arith) in
                    coded (hex_digit (c / 16)) (hex_digit (c % 16)) h low (hex4_back c low) x.0 x.1
                      y.0 y.1))))))))

copy_units-Form :
    (c : ℕ) (e t out rest : Str)
    → Form c e
    → copy_units t ≡ ok (out, rest)
    → copy_units (e ++ t) ≡ ok (c ∷ out, rest)
unfolding copy_units
copy_units-Form c e t out rest (itself quote slash) h = ground (arith, h)
copy_units-Form c e t out rest (short d plain back) h = ground (arith, h, back)
copy_units-Form c e t out rest (coded x y low small back x1 x2 y1 y2) h =
    unfold utf8 in ground (arith, h, back)

count_units-Form :
    (c : ℕ) (e t : Str) (n : ℕ)
    → Form c e
    → count_units t ≡ ok n
    → Returns (count_units (e ++ t)) (λ k. n < k)
unfolding count_units
count_units-Form c e t n (itself quote slash) h = (suc n, ground (arith, h), omega arith)
count_units-Form c e t n (short d plain back) h = (suc n, ground (arith, h), omega arith)
count_units-Form c e t n (coded x y low small back x1 x2 y1 y2) h =
    (suc (suc (suc (suc (suc n)))), ground (arith, h), omega arith)

copy_units-escape_all :
    (s t : Str) → IsBytes s → copy_units (escape_all s ++ b'"' ∷ t) ≡ ok (s, b'"' ∷ t)
unfolding escape_all
copy_units-escape_all [] t h = unfold copy_units in refl
copy_units-escape_all (c ∷ s) t h =
    let all = escape_all s in
    ap copy_units (append_assoc (escape c) all (b'"' ∷ t))
    ∙ copy_units-Form c (escape c) (all ++ b'"' ∷ t) s (b'"' ∷ t) (escape-Form c h.0.0 h.0.1)
        (copy_units-escape_all s t h.1)

count_units-escape_all :
    (s t : Str) → IsBytes s → Returns (count_units (escape_all s ++ b'"' ∷ t)) (λ n. length s ≤ n)
unfolding escape_all
count_units-escape_all [] t h = unfold count_units in (0, refl, omega arith)
count_units-escape_all (c ∷ s) t h =
    let all = escape_all s in
    let tail = count_units-escape_all s t h.1 in
    let this =
      count_units-Form c (escape c) (all ++ b'"' ∷ t) tail.0 (escape-Form c h.0.0 h.0.1) tail.1 in
    (
      this.0,
      ap count_units (append_assoc (escape c) all (b'"' ∷ t)) ∙ this.1,
      omega (arith, this.2, tail.2),
    )

-- No byte of the text is NUL.
abbrev pub HasNoNul : Str → Type 0
HasNoNul s = All (λ c. 0 < c) s

HasNoNul-Form : (c : ℕ) (e : Str) → 0 < c → Form c e → HasNoNul e
HasNoNul-Form c e h (itself quote slash) = omega arith
HasNoNul-Form c e h (short d plain back) =
    let byte : 0 < d = unfold plain_escape in ground (arith, h, back) in omega arith
HasNoNul-Form c e h (coded x y low small back x1 x2 y1 y2) = omega arith

pub HasNoNul-escape_all : (s : Str) → IsBytes s → HasNoNul (escape_all s)
unfolding escape_all
HasNoNul-escape_all [] h = tt
HasNoNul-escape_all (c ∷ s) h =
    All-append (λ c. 0 < c) (escape c) (escape_all s)
      (HasNoNul-Form c (escape c) h.0.0 (escape-Form c h.0.0 h.0.1)) (HasNoNul-escape_all s h.1)

-- A string of bytes other than NUL that was written is read back, whatever follows it.
pub parse_persisted_string :
    (s rest : Str)
    → IsBytes s
    → json_parse_string (persist_string_ptr (some s) ++ rest) ≡ ok (some (s, rest))
unfolding json_parse_string persist_string_ptr
parse_persisted_string s rest h =
    let count = count_units-escape_all s rest h in
    let text = append_assoc (escape_all s) (b'"' ∷ []) rest in
    rw (text, count.1, copy_units-escape_all s rest h) (ground (arith, count.2))
