-- ===== src/Tests/Texts.antt =====
-- Written addresses, numbers and masks at samples.
use vsecplat.Common.{ℕ, ◌≤◌, Bool, true, [], ◌∷◌, ◌++◌}
use vsecplat.Common.{
  if◌then◌else◌, ltb, pos, ◌≡◌, ◌≢◌, ◌↔◌, refl, arith, ◌==◌, ◌!=◌, ◌&&◌, any, All,
}
use vsecplat.Common.{bit_and, ntohl, to_u32}
use vsecplat.Common.Run.{ok, fault, Returns}
use vsecplat.Policy.Text.{Str, atoi, bad_ip_address, masklen2ip, str_to_mac}
use vsecplat.Policy.Text.IpCheck.{good}
use vsecplat.Policy.Text.Masks.{netmask, masklen2ip_lem}
use vsecplat.Policy.Objects.{blank_addr, blank_num}
use vsecplat.Policy.Objects.Match.{test_match_addr_obj, check_num_obj_list, test_match_num_obj}
use vsecplat.Policy.Objects.Parse.{get_addr_obj_from_str, get_num_obj_from_str, parse_num_objs}
use vsecplat.Policy.Objects.Written.{
  host_matches, range_matches, net_matches, star_matches, IsPlain,
}
use vsecplat.Policy.Objects.Numbers.{number_range_matches, negated_numbers, join}
use vsecplat.Tests.Samples.{aton_sample}

-- 10.0.0.1, in network byte order, and as text.
abbrev host : ℕ
host = 0x0100000a

abbrev host_text : Str
host_text = b'1' ∷ b'0' ∷ b'.' ∷ b'0' ∷ b'.' ∷ b'0' ∷ b'.' ∷ b'1' ∷ []

abbrev star_text : Str
star_text = b'1' ∷ b'0' ∷ b'.' ∷ b'0' ∷ b'.' ∷ b'0' ∷ b'.' ∷ []

abbrev all_of : (ℕ → Bool) → Str → Bool
all_of p [] = true
all_of p (c ∷ s) = p c && all_of p s

abbrev plain_byte : ℕ → Bool
plain_byte c = (c != b'-') && (c != b'/') && (c != b'*')

IsPlain-all : (s : Str) → all_of plain_byte s ≡ true → IsPlain s
IsPlain-all [] e = tt
IsPlain-all (c ∷ s) e = ((ground arith, ground arith, ground arith), IsPlain-all s (ground arith))

avoids : (d : ℕ) (s : Str) → all_of (λ c. c != d) s ≡ true → All (λ c. c ≢ d) s
avoids d [] e = tt
avoids d (c ∷ s) e = (ground arith, avoids d s (ground arith))

host_matches_example :
    Returns
      (get_addr_obj_from_str aton_sample 0 blank_addr host_text)
      (λ (o, ret). test_match_addr_obj o host ≡ (host == host))
unfolding bad_ip_address
host_matches_example =
    host_matches aton_sample 0 host_text host host (IsPlain-all host_text refl) refl refl
      (ground arith) (ground arith)

range_matches_example :
    Returns
      (get_addr_obj_from_str aton_sample 0 blank_addr (host_text ++ b'-' ∷ host_text))
      (λ (o, ret).
        (test_match_addr_obj o host ≡ true)
        ↔ ((ntohl host ≤ ntohl host) × (ntohl host ≤ ntohl host)))
unfolding bad_ip_address
range_matches_example =
    range_matches aton_sample 0 host_text host_text host host host (IsPlain-all host_text refl) refl
      refl refl

mask_16 : netmask 16 ≡ 0xffff
unfolding netmask ntohl
mask_16 = refl

net_matches_example :
    Returns
      (get_addr_obj_from_str aton_sample 0 blank_addr (host_text ++ b'/' ∷ b'1' ∷ b'6' ∷ []))
      (λ (o, ret).
        test_match_addr_obj o 0x0500000a
        ≡ (bit_and host (netmask 16) == bit_and 0x0500000a (netmask 16)))
unfolding bad_ip_address atoi
net_matches_example =
    net_matches aton_sample 0 host_text (b'1' ∷ b'6' ∷ []) host 15 0x0500000a
      (IsPlain-all host_text refl) refl refl (ground arith) refl (omega arith)
      (rw mask_16 (ground arith)) (omega arith)

star_matches_example :
    Returns (get_addr_obj_from_str aton_sample 0 blank_addr (star_text ++ b'*' ∷ [])) (λ (o, ret).
      (test_match_addr_obj o 0x0500000a ≡ true) ↔ (
        (bit_and host (netmask 24) ≡ bit_and 0x0500000a (netmask 24))
        × (bit_and host 0x0500000a ≡ 0x0500000a)))
unfolding bad_ip_address
star_matches_example =
    star_matches aton_sample 0 star_text host 0x0500000a (IsPlain-all star_text refl) refl refl
      (ground arith) (ground arith)

-- `10.0.0.1)`, which stands behind `!(`.
abbrev negated_text : Str
negated_text = host_text ++ (b')' ∷ [])

-- `80` and `443`
abbrev http : Str
http = b'8' ∷ b'0' ∷ []

abbrev https : Str
https = b'4' ∷ b'4' ∷ b'3' ∷ []

number_range_matches_example :
    (test_match_num_obj (get_num_obj_from_str blank_num (http ++ b'-' ∷ https)) 100 ≡ true)
    ↔ ((to_u32 (atoi http) ≤ 100) × (100 ≤ to_u32 (atoi https)))
number_range_matches_example = number_range_matches http https 100 (avoids b'-' http refl)

negated_numbers_example :
    ((parse_num_objs (b'!' ∷ b'(' ∷ join http (https ∷ []))).1 ≡ 1)
    × (check_num_obj_list (parse_num_objs (b'!' ∷ b'(' ∷ join http (https ∷ []))).0 443
        ≡ any (λ t. test_match_num_obj (get_num_obj_from_str blank_num t) 443) (http ∷ https ∷ []))
negated_numbers_example =
    negated_numbers http (https ∷ []) 443 (avoids b'|' http refl, (avoids b'|' https refl, tt))

masklen2ip_lem_example : masklen2ip (pos 20) ≡ (if ltb 32 20 then fault else ok (netmask 20))
masklen2ip_lem_example = masklen2ip_lem 20

mac_sample :
    str_to_mac
      (b'0' ∷ b'0' ∷ b':' ∷ b'1' ∷ b'3' ∷ b':' ∷ b'3' ∷ b'2' ∷ b':' ∷ b'0' ∷ b'd' ∷ b':' ∷ b'6'
        ∷ b'd' ∷ b':' ∷ b'2' ∷ b'D' ∷ [])
      (0 ∷ 0 ∷ 0 ∷ 0 ∷ 0 ∷ 0 ∷ [])
    ≡ 0x00 ∷ 0x13 ∷ 0x32 ∷ 0x0d ∷ 0x6d ∷ 0x2d ∷ []
unfolding str_to_mac
mac_sample = refl

mask_sample : (masklen2ip (pos 20) ≡ ok 0x00f0ffff) × (masklen2ip (pos 33) ≡ fault)
unfolding masklen2ip
mask_sample = (refl, refl)

ip_sample : (bad_ip_address (b'1' ∷ b'.' ∷ b'2' ∷ b'.' ∷ b'3' ∷ b'.' ∷ b'4' ∷ [])).0 ≡ good
unfolding bad_ip_address
ip_sample = refl
