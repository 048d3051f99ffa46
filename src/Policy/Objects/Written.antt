-- ===== src/Policy/Objects/Written.antt =====
-- What a written criterion matches: the texts of a rule, read and then tested.
use vsecplat.Common.{ℕ, suc, ◌^◌, ◌≤◌, ◌<◌, true, [], ◌∷◌}
use vsecplat.Common.{◌++◌, Option, some, ◌==◌, bit_or, not32}
use vsecplat.Common.{pos, ◌≡◌, ◌≢◌, ◌↔◌, sym, ◌∙◌, ap, All, arith}
use vsecplat.Common.{
  bit_and, ntohl, bit_and_self, mask_guard, append_assoc, append-nil, zero-bit_or,
}
use vsecplat.Common.Run.{ok, Returns}
use vsecplat.Policy.Text.{Str, atoi, bad_ip_address, masklen2ip, good}
use vsecplat.Policy.Text.Masks.{netmask, netmask-lt, masklen2ip-netmask}
use vsecplat.Policy.Objects.{AddrObj, blank_addr, all_ones}
use vsecplat.Policy.Objects.Match.{test_match_addr_obj}
use vsecplat.Policy.Objects.Parse.{
  aton_or, addr_loop, aton_checked, net_obj, end_obj, get_addr_obj_from_str, returning,
}
use vsecplat.Policy.Objects.AddrType.{ip_host, ip_net_mask, ip_range}

-- No byte of the text has a meaning to `get_addr_obj_from_str`.
abbrev pub IsPlain : Str → Type 0
IsPlain s = All (λ c. (c ≢ b'-') × (c ≢ b'/') × (c ≢ b'*')) s

module _ (inet_aton : Str → Option ℕ) (addr : ℕ) where
  addr_loop_plain :
      (obj : AddrObj) (stars : ℕ) (seen p rest : Str)
      → IsPlain p
      → addr_loop inet_aton addr obj stars seen (p ++ rest)
        ≡ addr_loop inet_aton addr obj stars (seen ++ p) rest
  addr_loop_plain obj stars seen [] rest h = rw append-nil
  addr_loop_plain obj stars seen (c ∷ p) rest h =
      one_step
      ∙ addr_loop_plain obj stars (seen ++ c ∷ []) p rest h.1
      ∙ ap (λ s. addr_loop inet_aton addr obj stars s rest) (append_assoc seen (c ∷ []) p)
    where
      one_step :
          addr_loop inet_aton addr obj stars seen (c ∷ (p ++ rest))
          ≡ addr_loop inet_aton addr obj stars (seen ++ c ∷ []) (p ++ rest)
      one_step = unfold addr_loop in ground arith

  read_plain :
      (p rest : Str)
      → IsPlain p
      → get_addr_obj_from_str inet_aton addr blank_addr (p ++ rest)
        ≡ returning (pos 0) (addr_loop inet_aton addr blank_addr 0 p rest)
  unfolding get_addr_obj_from_str
  read_plain p rest h = ap (returning (pos 0)) (addr_loop_plain blank_addr 0 [] p rest h)

  aton_good :
      (p : Str) (a : ℕ)
      → bad_ip_address p ≡ (good, p)
      → inet_aton p ≡ some a
      → aton_checked inet_aton p addr ≡ a
  unfolding aton_checked
  aton_good p a check e = rw check (rw (e, aton_or))

  -- A plain text is one address.
  pub host_read :
      (p : Str) (a : ℕ)
      → IsPlain p
      → bad_ip_address p ≡ (good, p)
      → inet_aton p ≡ some a
      → a ≢ 0
      → get_addr_obj_from_str inet_aton addr blank_addr p
        ≡ ok (record { type = ip_host; addr_mask = a; word0 = a; word1 = 0 }, pos 0)
  host_read p a h check e nonzero =
      ap (get_addr_obj_from_str inet_aton addr blank_addr) (sym (append-nil p))
      ∙ read_plain p [] h
      ∙ ap (returning (pos 0)) at_end
    where
      at_end :
          addr_loop inet_aton addr blank_addr 0 p []
          ≡ ok (record { type = ip_host; addr_mask = a; word0 = a; word1 = 0 })
      at_end =
          unfold addr_loop end_obj in rw (aton_good p a check e) (ground (arith, zero-bit_or a))

  -- Two plain texts round a `-` are a range.
  pub range_read :
      (p q : Str) (a b : ℕ)
      → IsPlain p
      → bad_ip_address p ≡ (good, p)
      → inet_aton p ≡ some a
      → inet_aton q ≡ some b
      → get_addr_obj_from_str inet_aton addr blank_addr (p ++ b'-' ∷ q)
        ≡ ok (record { type = ip_range; addr_mask = 0; word0 = a; word1 = b }, pos 0)
  range_read p q a b h check ea eb = read_plain p (b'-' ∷ q) h ∙ ap (returning (pos 0)) at_dash
    where
      at_dash :
          addr_loop inet_aton addr blank_addr 0 p (b'-' ∷ q)
          ≡ ok (record { type = ip_range; addr_mask = 0; word0 = a; word1 = b })
      at_dash = unfold addr_loop in rw (aton_good p a check ea, eb, aton_or)

  -- A plain text before a `/` is a network, and a number behind it the length of its mask.
  pub net_read :
      (p q : Str) (a n len : ℕ)
      → IsPlain p
      → bad_ip_address p ≡ (good, p)
      → inet_aton p ≡ some a
      → a ≢ 0
      → atoi q ≡ pos (suc n)
      → masklen2ip (pos (suc n)) ≡ ok len
      → get_addr_obj_from_str inet_aton addr blank_addr (p ++ b'/' ∷ q)
        ≡ ok (
          record { type = ip_net_mask; addr_mask = bit_or a (not32 len); word0 = a; word1 = len },
          pos 0,
        )
  net_read p q a n len h check e nonzero eq em =
      read_plain p (b'/' ∷ q) h ∙ ap (returning (pos 0)) at_slash
    where
      at_slash :
          addr_loop inet_aton addr blank_addr 0 p (b'/' ∷ q)
          ≡ ok (record {
            type = ip_net_mask;
            addr_mask = bit_or a (not32 len);
            word0 = a;
            word1 = len;
          })
      at_slash = unfold addr_loop net_obj in rw (aton_good p a check e, eq, em) (ground arith)

-- A written host address, other than 0.0.0.0 and 255.255.255.255, is read into an entry that
-- matches that address and no other.
pub host_matches :
    (inet_aton : Str → Option ℕ) (addr : ℕ) (p : Str) (a ip : ℕ)
    → IsPlain p
    → bad_ip_address p ≡ (good, p)
    → inet_aton p ≡ some a
    → a ≢ 0
    → a ≢ all_ones
    → Returns
        (get_addr_obj_from_str inet_aton addr blank_addr p)
        (λ (o, ret). test_match_addr_obj o ip ≡ (a == ip))
host_matches inet_aton addr p a ip h check e nonzero not_all = (
  _,
  host_read inet_aton addr p a h check e nonzero,
  unfold test_match_addr_obj in ground (arith, bit_and_self a),
)

-- A written range is read into an entry that matches the addresses between its ends, both
-- included, in the order of their dotted form.
pub range_matches :
    (inet_aton : Str → Option ℕ) (addr : ℕ) (p q : Str) (a b ip : ℕ)
    → IsPlain p
    → bad_ip_address p ≡ (good, p)
    → inet_aton p ≡ some a
    → inet_aton q ≡ some b
    → Returns (get_addr_obj_from_str inet_aton addr blank_addr (p ++ b'-' ∷ q)) (λ (o, ret).
      (test_match_addr_obj o ip ≡ true) ↔ ((ntohl a ≤ ntohl ip) × (ntohl ip ≤ ntohl b)))
range_matches inet_aton addr p q a b ip h check ea eb =
    (_, range_read inet_aton addr p q a b h check ea eb, unfold test_match_addr_obj in ground arith)

-- A written network with a prefix length from 1 to 32 is read into an entry that matches exactly the
-- addresses that agree with it under the mask of that many leading ones. The address before the `/` is
-- not 0.0.0.0, and does not have all the bits of the mask set.
pub net_matches :
    (inet_aton : Str → Option ℕ) (addr : ℕ) (p q : Str) (a n ip : ℕ)
    → IsPlain p
    → bad_ip_address p ≡ (good, p)
    → inet_aton p ≡ some a
    → a ≢ 0
    → atoi q ≡ pos (suc n)
    → suc n ≤ 32
    → bit_or a (not32 (netmask (suc n))) ≢ all_ones
    → ip < 2 ^ 32
    → Returns (get_addr_obj_from_str inet_aton addr blank_addr (p ++ b'/' ∷ q)) (λ (o, ret).
      test_match_addr_obj o ip ≡ (bit_and a (netmask (suc n)) == bit_and ip (netmask (suc n))))
net_matches inet_aton addr p q a n ip h check e nonzero eq small not_all fits =
    let len = netmask (suc n) in
    (
      _,
      net_read inet_aton addr p q a n len h check e nonzero eq (masklen2ip-netmask (suc n) small),
      unfold test_match_addr_obj in
          ground (arith, mask_guard a len ip fits (netmask-lt (suc n) small)),
    )

-- A text that ends in one star, and which with a 0 for the star is an address other than 0.0.0.0 and
-- 255.255.255.255, is read into an entry that matches an address exactly if the two agree on the first 24
-- bits and the address has no bit that the one of the text lacks.
pub star_matches :
    (inet_aton : Str → Option ℕ) (addr : ℕ) (p : Str) (a ip : ℕ)
    → IsPlain p
    → bad_ip_address (p ++ b'0' ∷ []) ≡ (good, p ++ b'0' ∷ [])
    → inet_aton (p ++ b'0' ∷ []) ≡ some a
    → a ≢ 0
    → a ≢ all_ones
    → Returns (get_addr_obj_from_str inet_aton addr blank_addr (p ++ b'*' ∷ [])) (λ (o, ret).
      (test_match_addr_obj o ip ≡ true)
      ↔ ((bit_and a (netmask 24) ≡ bit_and ip (netmask 24)) × (bit_and a ip ≡ ip)))
star_matches inet_aton addr p a ip h check e nonzero not_all = (
  (record { type = ip_net_mask; addr_mask = a; word0 = a; word1 = netmask 24 }, pos 0),
  read_plain inet_aton addr p (b'*' ∷ []) h ∙ ap (returning (pos 0)) at_star,
  unfold test_match_addr_obj in ground arith,
)
  where
    at_star :
        addr_loop inet_aton addr blank_addr 0 p (b'*' ∷ [])
        ≡ ok (record { type = ip_net_mask; addr_mask = a; word0 = a; word1 = netmask 24 })
    at_star =
        unfold addr_loop end_obj in
        rw
          (aton_good inet_aton addr (p ++ b'0' ∷ []) a check e, masklen2ip-netmask 24 (omega arith))
          (ground (arith, zero-bit_or a))
