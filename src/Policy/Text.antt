-- ===== src/Policy/Text.antt =====
-- The C strings that a rule is written in: userspace/daemon/vsecplat_policy.c, lines 9-121, and
-- the `atoi` of the C library.
pub mod Masks
use vsecplat.Common.{ℕ, zero, suc, ◌+◌, ◌-◌, ◌*◌, ◌/◌, ◌%◌, ◌^◌, ◌≤◌, ◌<◌, Bool, true, false}
use vsecplat.Common.{List, [], ◌∷◌, ◌++◌, Option, none, some, ◌≡◌, refl, arith, ◌&&◌, ◌||◌}
use vsecplat.Common.{
  ltb, leb, ◌==◌, ◌!=◌, if◌then◌else◌, length, set, drop, u8, bit_or, ℤ, pos, neg,
}
use vsecplat.Common.Run.{Run, ok, fault, ◌>>=◌}

-- The bytes of a C string, without the NUL that ends it.
abbrev pub Str : Type 0
Str = List ℕ

abbrev pub is_digit : ℕ → Bool
is_digit c = leb b'0' c && leb c b'9'

is_space : ℕ → Bool
is_space c = c == 32 || (leb 9 c && leb c 13)

-- `atoi`: white space, a sign, digits up to the first other byte.
digits_from : ℕ → Str → ℕ
digits_from n [] = n
digits_from n (c ∷ s) =
    let rest = digits_from (n * 10 + (c - b'0')) s in if is_digit c then rest else n

atoi_sign : Str → ℤ
atoi_sign [] = pos 0
atoi_sign (c ∷ s) =
    if c == b'-'
    then neg (digits_from 0 s)
    else if c == b'+'
    then pos (digits_from 0 s)
    else pos (digits_from 0 (c ∷ s))

skip_space : Str → Str
skip_space [] = []
skip_space (c ∷ s) = let rest = skip_space s in if is_space c then rest else c ∷ s

unfoldable pub atoi : Str → ℤ
unfolding skip_space atoi_sign digits_from is_space
atoi s = atoi_sign (skip_space s)

-- `bad_ip_address`: its result, and the string as it leaves it. A part above 255 is reported
-- while the NUL that cuts the string off behind that part is still in place.
pub data IpCheck : Type 0 where
  good bad unfinished : IpCheck

abbrev above_255 : ℤ → Bool
above_255 (pos n) = ltb 255 n
above_255 _ = false

-- The end of a part: `front` stands before it, `rest` behind it; `k` goes on.
part_end : Str → Str → Str → IpCheck × Str → IpCheck × Str
unfolding atoi
part_end front seg rest k =
    if ltb 3 (length seg)
    then (bad, front ++ (seg ++ rest))
    else if above_255 (atoi seg)
    then (bad, front ++ seg)
    else k

module _ (whole : Str) where
  ip_loop : Str → Str → ℕ → ℕ → Str → IpCheck × Str
  unfolding part_end
  ip_loop front seg dots nums [] =
      part_end front seg [] (if ltb (nums + 1) 4 then (bad, whole) else (good, whole))
  ip_loop front seg dots nums (c ∷ rest) =
      let next_part = ip_loop (front ++ (seg ++ c ∷ [])) [] (dots + 1) (nums + 1) rest in
      let next_byte = ip_loop front (seg ++ c ∷ []) dots nums rest in
      let from_dot = c ∷ rest in
      if c == b'.'
      then (if leb 3 dots then (bad, whole) else elim rest [
        | [] ↦ (unfinished, whole)
        | d ∷ _ ↦ if d == b'.' then (bad, whole) else part_end front seg from_dot next_part
      ])
      else (if is_digit c then next_byte else (bad, whole))

unfoldable pub bad_ip_address : Str → IpCheck × Str
unfolding ip_loop
bad_ip_address s = ip_loop s [] [] 0 0 s

-- A store through a pointer into an array of bytes.
unfoldable pub store : List ℕ → ℕ → ℕ → Run (List ℕ)
store buf i v = if ltb i (length buf) then ok (set buf i v) else fault

-- `while (offset--) *pnt++ = 0xff`
unfoldable pub fill_ones : ℕ → ℕ → List ℕ → Run (List ℕ × ℕ)
unfolding store
fill_ones zero p buf = ok (buf, p)
fill_ones (suc offset) p buf = store buf p 0xff >>= fill_ones offset (suc p)

abbrev maskbit : List ℕ
maskbit = 0x00 ∷ 0x80 ∷ 0xc0 ∷ 0xe0 ∷ 0xf0 ∷ 0xf8 ∷ 0xfc ∷ 0xfe ∷ 0xff ∷ []

maskbit_at : List ℕ → ℕ → ℕ
maskbit_at [] i = 0
maskbit_at (m ∷ ms) zero = m
maskbit_at (m ∷ ms) (suc i) = maskbit_at ms i

-- The four bytes of a `struct in_addr`, read as a `uint32_t`.
abbrev word_of : List ℕ → ℕ
word_of [] = 0
word_of (b ∷ bs) = b + 2 ^ 8 * word_of bs

-- A negative length walks off the address, and so does one above 32.
unfoldable pub masklen2ip : ℤ → Run ℕ
unfolding fill_ones maskbit_at store
masklen2ip (pos n) = do
  (buf, p) ← fill_ones (n / 8) 0 (0 ∷ 0 ∷ 0 ∷ 0 ∷ [])
  if n % 8 == 0
      then ok (word_of buf)
      else store buf p (maskbit_at maskbit (n % 8)) >>= λ b. ok (word_of b)
masklen2ip _ = fault

-- `str_to_mac`: the value of a hexadecimal digit, by the two tests of the code.
hex_value : ℕ → Option ℕ
hex_value c =
    if leb (u8 (c + 2 ^ 8 - b'0')) 9
    then some (u8 (c + 2 ^ 8 - b'0'))
    else if leb (u8 (bit_or c 0x20 + 2 ^ 8 - b'a')) 5
    then some (u8 (bit_or c 0x20 + 2 ^ 8 - (b'a' - 10)))
    else none

-- The inner loop: at most two digits; `none` is its `return -1`.
mac_byte : ℕ → ℕ → ℕ → Str → Option (ℕ × Str)
unfolding hex_value
mac_byte zero j val s = some (val, s)
mac_byte (suc more) j val [] = if j == 0 then none else some (val, [])
mac_byte (suc more) j val (c ∷ s) = elim (hex_value c) [
  | some d ↦ mac_byte more (j + 1) (u8 (u8 (val * 2 ^ 4) + d)) s
  | none ↦ if j != 0 && c == b':' then some (val, c ∷ s) else none
]

abbrev skip_colon : ℕ → Str → Str
skip_colon i [] = []
skip_colon i (c ∷ s) = if i != 0 && c == b':' then s else c ∷ s

-- The outer loop over the bytes left; the bytes written so far stay when a byte is malformed.
mac_loop : ℕ → ℕ → Str → List ℕ → List ℕ
unfolding mac_byte
mac_loop zero i s mac = mac
mac_loop (suc left) i s mac = elim (mac_byte 2 0 0 (skip_colon i s)) [
  | none ↦ mac
  | some (val, rest) ↦ mac_loop left (i + 1) rest (set mac i val)
]

abbrev pub nm_mac_len : ℕ
nm_mac_len = 6

-- The address that `str_to_mac` leaves behind the pointer; its callers drop the result code.
unfoldable pub str_to_mac : Str → List ℕ → List ℕ
unfolding mac_loop
str_to_mac s mac = mac_loop nm_mac_len 0 s mac
