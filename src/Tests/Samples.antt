-- ===== src/Tests/Samples.antt =====
-- Sample rules, packets and tables, and parameters for the samples.
use vsecplat.Common.{ℕ, List, [], ◌∷◌, ◌++◌, Option, none, some}
use vsecplat.Common.{pos, refl, arith}
use vsecplat.Policy.Text.{Str}
use vsecplat.Policy.Objects.{AddrObj, NumObj, all_ones}
use vsecplat.Policy.Objects.AddrType.{ip_host}
use vsecplat.Policy.Objects.NumType.{num_single}
use vsecplat.Policy.Rules.{RuleEntry, init_rule_entry}
use vsecplat.Policy.Store.{Policies}
use vsecplat.Policy.Store.Linked.{IsLinked}
use vsecplat.Policy.Forward.{Headers}
use vsecplat.Policy.Duplicates.{no_duplicates}
use vsecplat.Policy.Dispatch.{Engine}
use vsecplat.Packet.Buffer.{Skb}

abbrev pub host_obj : ℕ → AddrObj
host_obj a = record { type = ip_host; addr_mask = a; word0 = a; word1 = 0 }

abbrev pub every_addr : List AddrObj
every_addr = record { type = ip_host; addr_mask = all_ones; word0 = 0; word1 = 0 } ∷ []

abbrev pub every_num : List NumObj
every_num = record { type = num_single; num_mask = all_ones; word0 = 0; word1 = 0 } ∷ []

abbrev pub target_mac : List ℕ
target_mac = 2 ∷ 0 ∷ 0 ∷ 0 ∷ 0 ∷ 9 ∷ []

abbrev pub own_mac : List ℕ
own_mac = 2 ∷ 0 ∷ 0 ∷ 0 ∷ 0 ∷ 1 ∷ []

-- Forwards every packet to the target.
abbrev pub open_rule : RuleEntry
open_rule = record init_rule_entry {
  id = pos 7;
  forward = 1;
  conversion = pos 1;
  dst_mac = target_mac;
  sip = every_addr;
  dip = every_addr;
  sport = every_num;
  dport = every_num;
  proto = every_num;
  vlanid = every_num;
}

abbrev pub tied_rule : RuleEntry
tied_rule = record open_rule { recurs_dstmac = some 0 }

-- States no criterion.
abbrev pub blank_rule : RuleEntry
blank_rule = record init_rule_entry { id = pos 3; forward = 1 }

abbrev pub two_rules : Policies
two_rules = record {
  rules = tied_rule ∷ blank_rule ∷ [];
  recurs = record { handle = 0; dst_mac = target_mac } ∷ [];
  next = 1;
  policy_file = none;
}

pub two_rules-IsLinked : IsLinked two_rules
two_rules-IsLinked = record {
  mirrored = refl;
  tied = (refl, (refl, tt));
  rising = (omega arith, omega arith);
}

abbrev pub engine : Engine
engine = record {
  policies = two_rules;
  duplicates = record { rule = no_duplicates; file = none };
  mirror_state = 1;
  guide_state = 1;
}

-- A UDP packet from 10.0.0.1 to 10.0.0.2 in an Ethernet frame.
abbrev pub udp_frame : List ℕ
udp_frame =
    own_mac
    ++ (own_mac
        ++ (8 ∷ 0 ∷ 0x45 ∷ 0 ∷ 0 ∷ 28 ∷ 0 ∷ 0 ∷ 0 ∷ 0 ∷ 64 ∷ 17 ∷ 0 ∷ 0 ∷ 10 ∷ 0 ∷ 0 ∷ 1 ∷ 10 ∷ 0
            ∷ 0 ∷ 2 ∷ 0 ∷ 53 ∷ 0 ∷ 53 ∷ 0 ∷ 8 ∷ 0 ∷ 0 ∷ []))

abbrev pub udp_skb : Skb
udp_skb = record {
  buf = udp_frame;
  len = 42;
  data_ofs = 0;
  mac_ofs = 0;
  nh_ofs = 14;
  h_ofs = 34;
  protocol = 8;
  vlanid = 0;
}

-- The same packet behind the tag of VLAN 5.
abbrev pub tagged_frame : List ℕ
tagged_frame =
    own_mac
    ++ (own_mac
        ++ (0x81 ∷ 0 ∷ 0 ∷ 5 ∷ 8 ∷ 0 ∷ 0x45 ∷ 0 ∷ 0 ∷ 28 ∷ 0 ∷ 0 ∷ 0 ∷ 0 ∷ 64 ∷ 17 ∷ 0 ∷ 0 ∷ 10 ∷ 0
            ∷ 0 ∷ 1 ∷ 10 ∷ 0 ∷ 0 ∷ 2 ∷ 0 ∷ 53 ∷ 0 ∷ 53 ∷ 0 ∷ 8 ∷ 0 ∷ 0 ∷ []))

abbrev pub tagged_skb : Skb
tagged_skb = record udp_skb { buf = tagged_frame; len = 46 }

abbrev pub headers : Headers
headers = record {
  saddr = 0x0100000a;
  daddr = 0x0200000a;
  protocol = 17;
  source = 0x3500;
  dest = 0x3500;
  vlanid = 0;
}

-- The functions of the C library at the samples: `inet_aton` knows one text.
abbrev pub show_sample : ℕ → Str
show_sample n = b'0' ∷ []

abbrev pub aton_sample : Str → Option ℕ
aton_sample [] = none
aton_sample (c ∷ s) = some 0x0100000a
