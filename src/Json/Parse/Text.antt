-- ===== src/Json/Parse/Text.antt =====
-- Reading a string: rte_json.c, lines 30-170. A pointer into the text is what stands from there to
-- the NUL, so the empty list is the NUL itself; a pointer behind the NUL is a fault where it is
-- read.
pub mod Rest
pub mod Written
use vsecplat.Common.{ℕ, zero, suc, ◌+◌, ◌-◌, ◌*◌, ◌/◌, ◌%◌, Bool, true, false, List, [], ◌∷◌, ◌++◌}
use vsecplat.Common.{Option, none, some, ◌==◌, ◌!=◌, ltb, leb, if◌then◌else◌, length, ◌&&◌, ◌||◌}
use vsecplat.Common.{bit_and, bit_or, u8}
use vsecplat.Common.Run.{Run, ok, fault, ◌>>=◌}
use vsecplat.Policy.Text.{Str, is_digit}

-- One digit of `parse_hex4`; `none` is `return 0`.
unfoldable pub hex_of : ℕ → Option ℕ
hex_of c =
    if is_digit c
    then some (c - b'0')
    else if leb b'A' c && leb c b'F'
    then some (10 + (c - b'A'))
    else if leb b'a' c && leb c b'f'
    then some (10 + (c - b'a'))
    else none

hex_next : Option ℕ → ℕ → Option ℕ
hex_next none c = none
hex_next (some h) c = elim (hex_of c) [ none ↦ none | some d ↦ some (h * 16 + d) ]

abbrev or_zero : Option ℕ → ℕ
or_zero none = 0
or_zero (some h) = h

-- Four digits, or 0.
unfoldable pub parse_hex4 : ℕ → ℕ → ℕ → ℕ → ℕ
unfolding hex_of hex_next
parse_hex4 a b c d = or_zero (hex_next (hex_next (hex_next (hex_of a) b) c) d)

-- The bytes of a code point in UTF-8: its last six bits under the mark 10, and so on, and the
-- rest under `firstByteMark`.
abbrev tail_byte : ℕ → ℕ
tail_byte uc = bit_and (u8 (bit_or uc 0x80)) 0xbf

unfoldable pub utf8 : ℕ → Str
utf8 uc =
    if ltb uc 0x80
    then u8 uc ∷ []
    else if ltb uc 0x800
    then u8 (bit_or (uc / 64) 0xc0) ∷ tail_byte uc ∷ []
    else if ltb uc 0x10000
    then u8 (bit_or (uc / 4096) 0xe0) ∷ tail_byte (uc / 64) ∷ tail_byte uc ∷ []
    else u8 (bit_or (uc / 262144) 0xf0)
      ∷ tail_byte (uc / 4096)
      ∷ tail_byte (uc / 64)
      ∷ tail_byte uc
      ∷ []

abbrev pub between : ℕ → ℕ → ℕ → Bool
between lo hi c = leb lo c && leb c hi

-- The code point of a pair of surrogates.
abbrev pub pair_of : ℕ → ℕ → ℕ
pair_of uc uc2 = 0x10000 + bit_or (bit_and uc 0x3ff * 1024) (bit_and uc2 0x3ff)

-- The first loop: how many bytes and escapes there are up to the closing quote or the NUL.
unfoldable mutual
  pub count_units : Str → Run ℕ
  count_units [] = ok 0
  count_units (c ∷ s) =
      let escaped = count_escaped s in
      let next = count_units s >>= λ n. ok (suc n) in
      if c == b'"' then ok 0 else if c == b'\\' then escaped else next

  pub count_escaped : Str → Run ℕ
  count_escaped [] = fault
  count_escaped (d ∷ s) = count_units s >>= λ n. ok (suc n)

-- What the second loop has written, and where it stopped.
abbrev pub Copied : Type 0
Copied = Run (Str × Str)

abbrev pub written : Str → Copied → Copied
written out m = m >>= λ (more, rest). ok (out ++ more, rest)

-- The byte of an escape other than `\u`.
unfoldable pub plain_escape : ℕ → ℕ
plain_escape d =
    if d == b'b'
    then 8
    else if d == b'f'
    then 12
    else if d == b'n'
    then 10
    else if d == b'r'
    then 13
    else if d == b't'
    then 9
    else d

-- The second loop, up to the closing quote or the NUL. `\u` moves over four bytes, whatever they
-- are, and a first surrogate over six more; a number that is no code point writes nothing.
unfoldable mutual
  pub copy_units : Str → Copied
  copy_units [] = ok ([], [])
  copy_units (c ∷ s) =
      let escaped = copy_escaped s in
      let next = written (c ∷ []) (copy_units s) in
      if c == b'"' then ok ([], c ∷ s) else if c == b'\\' then escaped else next

  pub copy_escaped : Str → Copied
  copy_escaped [] = fault
  copy_escaped (d ∷ s) =
      let coded = copy_coded s in
      let next = written (plain_escape d ∷ []) (copy_units s) in if d == b'u' then coded else next

  pub copy_coded : Str → Copied
  copy_coded (a ∷ b ∷ c ∷ d ∷ s) =
      let uc = parse_hex4 a b c d in
      let nothing = copy_units s in
      let single = written (utf8 uc) (copy_units s) in
      let pair = copy_pair uc nothing s in
      if between 0xdc00 0xdfff uc || uc == 0
      then nothing
      else if between 0xd800 0xdbff uc
      then pair
      else single
  copy_coded _ = fault

  -- `unpaired` is what follows where there is no second surrogate.
  pub copy_pair : ℕ → Copied → Str → Copied
  copy_pair uc unpaired (e ∷ u ∷ s) =
      let second = copy_second uc s in if e != b'\\' || u != b'u' then unpaired else second
  copy_pair uc unpaired s = unpaired

  pub copy_second : ℕ → Str → Copied
  copy_second uc (a ∷ b ∷ c ∷ d ∷ s) =
      let uc2 = parse_hex4 a b c d in
      let nothing = copy_units s in
      let single = written (utf8 (pair_of uc uc2)) (copy_units s) in
      if between 0xdc00 0xdfff uc2 then single else nothing
  copy_second uc _ = fault

abbrev pub behind_quote : Str → Str
behind_quote [] = []
behind_quote (c ∷ s) = if c == b'"' then s else c ∷ s

-- The string's bytes and where the text goes on; `none` is the null pointer. The NUL behind the
-- bytes that were written lies in the `len + 1` bytes that the first loop asked for, or else some
-- write was out of bounds.
unfoldable pub json_parse_string : Str → Run (Option (Str × Str))
unfolding count_units copy_units
json_parse_string [] = ok none
json_parse_string (c ∷ s) =
    if c != b'"'
    then ok none
    else count_units s >>= λ len. copy_units s >>= λ (out, rest).
        if ltb len (length out) then fault else ok (some (out, behind_quote rest))
