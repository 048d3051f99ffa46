-- ===== src/Json/Persist.antt =====
-- Writing a value into a buffer: rte_json.c, lines 875-1119. A result is the bytes stored up to
-- the end pointer; the return value of each function is their number. None of the functions
-- returns a number below 1 here, so the `fail` branches are not taken.
use vsecplat.Common.{ℕ, zero, suc, ◌+◌, ◌-◌, ◌/◌, ◌%◌, Bool, true, false, List, [], ◌∷◌, ◌++◌}
use vsecplat.Common.{Option, none, some, ◌==◌, ◌!=◌, ltb, if◌then◌else◌, length, replicate, ◌&&◌}
use vsecplat.Common.{ℤ, pos, negsuc}
use vsecplat.Common.Run.{Run, ok, fault, ◌>>=◌}
use vsecplat.Policy.Text.{Str}
use vsecplat.Json.{
  Json, Members, null, false_value, true_value, integer, float, string, object, array, nil, member,
}

-- `%ld`; a `long` has at most 19 digits.
unfoldable pub decimal_digits : ℕ → ℕ → Str → Str
decimal_digits zero n out = out
decimal_digits (suc fuel) n out =
    let out' = (b'0' + n % 10) ∷ out in
    let more = decimal_digits fuel (n / 10) out' in if n / 10 == 0 then out' else more

unfoldable pub print_long : ℤ → Str
unfolding decimal_digits
print_long (pos n) = decimal_digits 19 n []
print_long (negsuc n) = b'-' ∷ decimal_digits 19 (suc n) []

-- `%04x` of a byte.
unfoldable pub hex_digit : ℕ → ℕ
hex_digit d = if ltb d 10 then b'0' + d else b'a' + (d - 10)

-- `json_persist_str` copies the NUL too, and counts it.
json_persist_str : Str → List ℕ
json_persist_str s = s ++ 0 ∷ []

-- One byte of a string, and what stands for it between the quotes.
unfoldable pub escape : ℕ → Str
unfolding hex_digit
escape c =
    if ltb 31 c && c != b'"' && c != b'\\'
    then c ∷ []
    else b'\\'
      ∷ (if c == b'\\'
          then b'\\' ∷ []
          else if c == b'"'
          then b'"' ∷ []
          else if c == 8
          then b'b' ∷ []
          else if c == 12
          then b'f' ∷ []
          else if c == 10
          then b'n' ∷ []
          else if c == 13
          then b'r' ∷ []
          else if c == 9
          then b't' ∷ []
          else b'u' ∷ b'0' ∷ b'0' ∷ hex_digit (c / 16) ∷ hex_digit (c % 16) ∷ [])

unfoldable pub escape_all : Str → Str
unfolding escape
escape_all [] = []
escape_all (c ∷ s) = escape c ++ escape_all s

-- `none` is the null pointer.
unfoldable pub persist_string_ptr : Option Str → List ℕ
unfolding json_persist_str escape_all
persist_string_ptr none = json_persist_str []
persist_string_ptr (some s) = b'"' ∷ escape_all s ++ b'"' ∷ []

abbrev is_nil {ℓ} : {A : Type ℓ} → List A → Bool
is_nil [] = true
is_nil (x ∷ xs) = false

abbrev pub fmt_bytes : Bool → List ℕ → List ℕ
fmt_bytes true bs = bs
fmt_bytes false bs = []

module _ {F : Type 0} (show_float : F → Str) where
  -- The buffer of 21 bytes holds any `long`, and not every `%f`.
  persist_float : F → Run (List ℕ)
  persist_float x = if ltb (length (show_float x)) 21 then ok (show_float x) else fault

  abbrev pub ends : Members F → Bool
  ends nil = true
  ends (member k v m) = false

  -- `persist_value` without the NUL that it adds at depth 0; `persist_items` and
  -- `persist_fields` are the loops of `persist_array` and `persist_object`.
  unfoldable mutual
    unfolding print_long json_persist_str persist_string_ptr persist_float

    pub persist_inner : Bool → ℕ → Json F → Run (List ℕ)
    persist_inner fmt depth null = ok (json_persist_str (b'n' ∷ b'u' ∷ b'l' ∷ b'l' ∷ []))
    persist_inner fmt depth false_value =
        ok (json_persist_str (b'f' ∷ b'a' ∷ b'l' ∷ b's' ∷ b'e' ∷ []))
    persist_inner fmt depth true_value = ok (json_persist_str (b't' ∷ b'r' ∷ b'u' ∷ b'e' ∷ []))
    persist_inner fmt depth (integer n) = ok (print_long n)
    persist_inner fmt depth (float x) = persist_float x
    persist_inner fmt depth (string s) = ok (persist_string_ptr (some s))
    persist_inner fmt depth (object m) =
        if ends m
        then ok (b'{' ∷ fmt_bytes fmt (10 ∷ replicate (depth - 1) 9) ++ b'}' ∷ 0 ∷ [])
        else (persist_fields fmt (depth + 1) m >>= λ bs. ok (
            b'{' ∷ fmt_bytes fmt (10 ∷ [])
            ++ (bs ++ (fmt_bytes fmt (replicate depth 9) ++ b'}' ∷ []))))
    persist_inner fmt depth (array m) =
        if ends m
        then ok (b'[' ∷ b']' ∷ [])
        else persist_items fmt (depth + 1) m >>= λ bs. ok (b'[' ∷ bs ++ b']' ∷ [])

    pub persist_items : Bool → ℕ → Members F → Run (List ℕ)
    persist_items fmt depth nil = ok []
    persist_items fmt depth (member k v m) = persist_inner fmt depth v >>= λ bs.
        persist_items fmt depth m >>= λ rest.
        ok (bs ++ ((if ends m then [] else (b',' ∷ fmt_bytes fmt (32 ∷ []))) ++ rest))

    pub persist_fields : Bool → ℕ → Members F → Run (List ℕ)
    persist_fields fmt depth nil = ok []
    persist_fields fmt depth (member k v m) = persist_inner fmt depth v >>= λ bs.
        persist_fields fmt depth m >>= λ rest. ok (
          fmt_bytes fmt (replicate depth 9)
          ++ (persist_string_ptr k
              ++ (b':' ∷ fmt_bytes fmt (9 ∷ [])
                  ++ (bs
                      ++ ((if ends m then [] else (b',' ∷ []))
                          ++ (fmt_bytes fmt (10 ∷ []) ++ rest))))))

  -- At depth 0 a NUL follows, and is counted.
  unfoldable pub rte_persist_json : Json F → Bool → Run (List ℕ)
  unfolding persist_inner
  rte_persist_json j fmt = persist_inner fmt 0 j >>= λ bs. ok (bs ++ 0 ∷ [])

-- What the C string at the start of a buffer reads as.
unfoldable pub c_string : List ℕ → Str
c_string [] = []
c_string (b ∷ bs) = if b == 0 then [] else b ∷ c_string bs
