-- ===== src/Packet/Handle/Frame.antt =====
-- Which frames the daemon sends on, by the bytes of the received frame alone: the layout of Ethernet,
-- of the VLAN tag, of IPv4 and of the ports, beside the code of packet.c.
use vsecplat.Common.{ℕ, ◌+◌, ◌*◌, ◌%◌, ◌^◌, ◌≤◌, ◌<◌, Bool, false, All, drop, length, bit_and}
use vsecplat.Common.{if◌then◌else◌, ◌==◌, ◌!=◌, ◌&&◌, Option, none, some}
use vsecplat.Packet.Buffer.{Skb}
use vsecplat.Packet.Buffer.Reads.{bytes_of, le16, le32}
use vsecplat.Policy.Rules.{nm_pkt_forward, nm_pkt_discard}
use vsecplat.Policy.Store.{check_recursive}
use vsecplat.Policy.Forward.{Headers, has_ports, get_forward_policy, check_duplicate_rule}
use vsecplat.Policy.Dispatch.{Engine}

-- Two bytes in network byte order.
abbrev pub be16 : (ℕ → ℕ) → ℕ → ℕ
be16 g i = g i * 2 ^ 8 + g (i + 1)

-- The length of the network header that starts at `b`.
abbrev pub header_len : (ℕ → ℕ) → ℕ → ℕ
header_len g b = g b % 16 * 4

abbrev port_at : (ℕ → ℕ) → ℕ → ℕ → ℕ
port_at g b ofs = if has_ports (g (b + 9)) then le16 g (b + header_len g b + ofs) else 0

-- The IPv4 packet at `b`, with addresses and ports as they stand in memory.
abbrev pub packet_at : (ℕ → ℕ) → ℕ → ℕ → Headers
packet_at g b vlanid = record {
  saddr = le32 g (b + 12);
  daddr = le32 g (b + 16);
  protocol = g (b + 9);
  source = port_at g b 0;
  dest = port_at g b 2;
  vlanid = vlanid;
}

-- A packet that the frame carries: where it starts in the frame, and its VLAN.
pub record Carried : Type 0 where
  pub ofs : ℕ
  pub vlan : ℕ

abbrev behind_tag : (ℕ → ℕ) → ℕ → Option Carried
behind_tag g d =
    if be16 g (d + 16) == 0x0800
    then some (record { ofs = 18; vlan = bit_and (be16 g (d + 14)) 0xfff })
    else none

-- The IPv4 packet of the frame at `d`: behind the type 0x0800, or behind a tag of type 0x8100 and the
-- type 0x0800.
abbrev pub carried : (ℕ → ℕ) → ℕ → ℕ → Option Carried
carried g d vlanid =
    if be16 g (d + 12) == 0x0800
    then some (record { ofs = 14; vlan = vlanid })
    else if be16 g (d + 12) == 0x8100
    then behind_tag g d
    else none

-- The engine lets a packet through: both switches are on, it is no duplicate, and the rules
-- forward it.
abbrev pub allows : Engine → Headers → Bool
allows e h =
    (e.mirror_state != 0)
    && (e.guide_state != 0)
    && (check_duplicate_rule e.duplicates.rule h.saddr h.daddr != nm_pkt_discard)
    && ((get_forward_policy e.policies.rules h).0 == nm_pkt_forward)

abbrev pub allows_carried : Engine → (ℕ → ℕ) → ℕ → Option Carried → Bool
allows_carried e g d none = false
allows_carried e g d (some c) = allows e (packet_at g (d + c.ofs) c.vlan)

-- The frame does not come from the daemon itself, and the engine lets its packet through.
abbrev pub admitted : Engine → Skb → Bool
admitted e skb =
    let g = bytes_of skb.buf in
    (check_recursive e.policies.recurs (drop skb.data_ofs skb.buf) != nm_pkt_discard)
    && allows_carried e g skb.data_ofs (carried g skb.data_ofs skb.vlanid)

-- The headers of the packet lie in the frame, with the first 4 bytes behind the network header.
abbrev pub HoldsHeaders : Skb → Option Carried → Type 0
HoldsHeaders skb none = Unit
HoldsHeaders skb (some c) =
    (c.ofs + 20 ≤ skb.len)
    × (c.ofs + header_len (bytes_of skb.buf) (skb.data_ofs + c.ofs) + 4 ≤ skb.len)

-- A received frame: it lies in its buffer of bytes, has an Ethernet header with room for a tag, and holds
-- the headers of its packet.
pub record IsFrame (skb : Skb) : Type 0 where
  pub long : 18 ≤ skb.len
  pub fits : skb.len < 2 ^ 32
  pub inside : skb.data_ofs + skb.len ≤ length skb.buf
  pub bytes : All (λ b. b < 256) skb.buf
  pub whole : HoldsHeaders skb (carried (bytes_of skb.buf) skb.data_ofs skb.vlanid)
