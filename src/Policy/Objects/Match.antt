-- ===== src/Policy/Objects/Match.antt =====
-- Whether an address or a number meets a criterion, and whether it meets one of a list.
use vsecplat.Common.{ℕ, Bool, true, false, List, [], ◌∷◌, ◌&&◌, ◌||◌, leb, ◌==◌, ◌!=◌}
use vsecplat.Common.{if◌then◌else◌, bit_and, ntohl}
use vsecplat.Policy.Objects.{AddrObj, AddrType, NumObj, NumType, all_ones}
use vsecplat.Policy.Objects.AddrType.{ip_null, ip_host, ip_net_mask, ip_range}
use vsecplat.Policy.Objects.NumType.{num_null, num_single, num_range}

-- The `switch` on the type of the entry.
unfoldable pub switch_addr : AddrType → ℕ → ℕ → ℕ → Bool
switch_addr ip_null word0 word1 ip = false
switch_addr ip_host word0 word1 ip = word0 == 0 || word0 == ip
switch_addr ip_net_mask word0 word1 ip = bit_and word0 word1 == bit_and ip word1
switch_addr ip_range word0 word1 ip = leb (ntohl word0) (ntohl ip) && leb (ntohl ip) (ntohl word1)

unfoldable pub test_match_addr_obj : AddrObj → ℕ → Bool
unfolding switch_addr
test_match_addr_obj o ip =
    if o.addr_mask == all_ones
    then true
    else if o.addr_mask != 0 && bit_and o.addr_mask ip != ip
    then false
    else switch_addr o.type o.word0 o.word1 ip

unfoldable pub check_addr_obj_list : List AddrObj → ℕ → Bool
check_addr_obj_list [] ip = false
check_addr_obj_list (o ∷ os) ip =
    if test_match_addr_obj o ip then true else check_addr_obj_list os ip

unfoldable pub switch_num : NumType → ℕ → ℕ → ℕ → Bool
switch_num num_null word0 word1 num = true
switch_num num_single word0 word1 num = word0 == 0 || word0 == num
switch_num num_range word0 word1 num = leb word0 num && leb num word1

unfoldable pub test_match_num_obj : NumObj → ℕ → Bool
unfolding switch_num
test_match_num_obj o num =
    if o.num_mask == all_ones
    then true
    else if o.num_mask != 0 && bit_and o.num_mask num != num
    then false
    else switch_num o.type o.word0 o.word1 num

unfoldable pub check_num_obj_list : List NumObj → ℕ → Bool
check_num_obj_list [] num = false
check_num_obj_list (o ∷ os) num =
    if test_match_num_obj o num then true else check_num_obj_list os num
