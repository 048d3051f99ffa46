-- ===== src/Policy/Objects.antt =====
-- Address and number criteria: `addr_obj_entry` and `num_obj_entry` of
-- userspace/daemon/vsecplat_policy.h, and how vsecplat_policy.c reads them from text (lines
-- 123-354) and matches them (lines 1057-1171).
pub mod Parse
pub mod Match
pub mod Written
pub mod Numbers
use vsecplat.Common.{ℕ, ◌≡◌, List}

-- `IP_NULL`, `IP_HOST`, `IP_NET_MASK`, `IP_RANGE`.
pub data AddrType : Type 0 where
  ip_null ip_host ip_net_mask ip_range : AddrType

-- The union holds two words: `word0` is `host_ip`, `range.min` and `net.mask`, and `word1` is
-- `range.max` and `net.length`. Addresses stand in network byte order, as `s_addr` does.
pub record AddrObj : Type 0 where
  pub type : AddrType
  pub addr_mask : ℕ
  pub word0 : ℕ
  pub word1 : ℕ

-- `NUM_NULL`, `NUM_SINGLE`, `NUM_RANGE`.
pub data NumType : Type 0 where
  num_null num_single num_range : NumType

-- `word0` is `num` and `range.min`, and `word1` is `range.max`.
pub record NumObj : Type 0 where
  pub type : NumType
  pub num_mask : ℕ
  pub word0 : ℕ
  pub word1 : ℕ

-- The entries as `memset` leaves them.
abbrev pub blank_addr : AddrObj
blank_addr = record { type = ip_null; addr_mask = 0; word0 = 0; word1 = 0 }

abbrev pub blank_num : NumObj
blank_num = record { type = num_null; num_mask = 0; word0 = 0; word1 = 0 }

abbrev pub all_ones : ℕ
all_ones = 0xffffffff
