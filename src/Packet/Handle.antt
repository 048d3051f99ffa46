-- ===== src/Packet/Handle.antt =====
-- From a received buffer to a verdict, and what is done about it: packet.c, lines 11-173.
pub mod Frame
pub mod Stages
pub mod Tags
pub mod Intercept
pub mod Verdict
use vsecplat.Common.{ℕ, zero, suc, ◌+◌, ◌-◌, ◌*◌, ◌%◌, ◌^◌, Bool, true, false, List, [], ◌∷◌, ◌++◌}
use vsecplat.Common.{
  if◌then◌else◌, ltb, leb, ◌==◌, ◌!=◌, ◌||◌, ◌&&◌, length, take, drop, ntohs, bit_and,
}
use vsecplat.Common.{Option, none, some, ◌≡◌}
use vsecplat.Common.Run.{Run, ok, fault, ◌>>=◌}
use vsecplat.Packet.Buffer.{
  Skb, byte_at, u16_at, u32_at, write_bytes, move_bytes, nm_skb_pull, nm_skb_push,
}
use vsecplat.Policy.Text.{nm_mac_len}
use vsecplat.Policy.Rules.{nm_pkt_drop, nm_pkt_forward, nm_pkt_discard}
use vsecplat.Policy.Store.{check_recursive}
use vsecplat.Policy.Forward.{Headers, has_ports, get_forward_policy, check_duplicate_rule}
use vsecplat.Policy.Dispatch.{Engine}

abbrev pub eth_hlen : ℕ
eth_hlen = 14

abbrev pub eth_p_ip : ℕ
eth_p_ip = 0x0800

abbrev pub eth_p_arp : ℕ
eth_p_arp = 0x0806

abbrev pub eth_p_8021q : ℕ
eth_p_8021q = 0x8100

-- `htons(ETH_P_802_3)` and `htons(ETH_P_802_2)`.
abbrev pub eth_p_802_3 : ℕ
eth_p_802_3 = 0x0100

abbrev pub eth_p_802_2 : ℕ
eth_p_802_2 = 0x0400

unfoldable pub eth_type_trans : Skb → Run Skb
unfolding nm_skb_pull
eth_type_trans skb = u16_at skb.buf (skb.mac_ofs + 12) >>= λ h_proto.
    let pulled = nm_skb_pull eth_hlen skb in
    let typed = λ (proto : ℕ). record pulled { protocol = proto; nh_ofs = pulled.data_ofs } in
    if leb 1536 (ntohs h_proto)
    then ok (typed h_proto)
    else (u16_at pulled.buf pulled.data_ofs >>= λ raw.
        ok (typed (if raw == 0xffff then eth_p_802_3 else eth_p_802_2)))

-- The ports of UDP and TCP, at the transport header; for other protocols they are not read.
unfoldable pub ports_of : Skb → ℕ → Run (ℕ × ℕ)
ports_of skb proto =
    if has_ports proto
    then (u16_at skb.buf skb.h_ofs >>= λ source.
        u16_at skb.buf (skb.h_ofs + 2) >>= λ dest. ok (source, dest))
    else ok (0, 0)

-- The fields that the policy and the statistics read, at the network and transport headers.
unfoldable pub headers_of : Skb → Run Headers
unfolding ports_of
headers_of skb = u32_at skb.buf (skb.nh_ofs + 12) >>= λ saddr.
    u32_at skb.buf (skb.nh_ofs + 16) >>= λ daddr. byte_at skb.buf (skb.nh_ofs + 9) >>= λ protocol.
    ports_of skb protocol >>= λ (source, dest). ok (record {
      saddr = saddr;
      daddr = daddr;
      protocol = protocol;
      source = source;
      dest = dest;
      vlanid = skb.vlanid;
    })

-- The transport header behind `ihl * 4` bytes.
unfoldable pub find_transport : Skb → Run Skb
unfolding nm_skb_pull
find_transport skb = byte_at skb.buf skb.nh_ofs >>= λ first.
    let pulled = nm_skb_pull (first % 16 * 4) skb in ok (record pulled { h_ofs = pulled.data_ofs })

-- A conversion overwrites the destination address in the frame.
unfoldable pub rewrite_mac : Option (List ℕ) → Skb → Run Skb
rewrite_mac none skb = ok skb
rewrite_mac (some mac) skb =
    write_bytes skb.buf skb.mac_ofs (take nm_mac_len mac) >>= λ buf. ok (record skb { buf = buf })

unfoldable pub check_duplicate : Engine → Skb → Run ℕ
check_duplicate e skb = u32_at skb.buf (skb.nh_ofs + 12) >>= λ saddr.
    u32_at skb.buf (skb.nh_ofs + 16) >>= λ daddr.
    ok (check_duplicate_rule e.duplicates.rule saddr daddr)

-- The verdict of the rules, with the conversion that comes with it.
unfoldable pub forward_by_rules : Engine → Skb → Run (Skb × ℕ)
unfolding headers_of rewrite_mac
forward_by_rules e skb = headers_of skb >>= λ h.
    let (verdict, mac) = get_forward_policy e.policies.rules h in
    rewrite_mac mac skb >>= λ out. ok (out, verdict)

unfoldable pub nm_ipv4_recv : Engine → Skb → Run (Skb × ℕ)
unfolding find_transport check_duplicate forward_by_rules
nm_ipv4_recv e skb = find_transport skb >>= λ at.
    if e.mirror_state == 0 || e.guide_state == 0
    then ok (at, nm_pkt_drop)
    else (check_duplicate e at >>= λ ret.
        if ret == nm_pkt_discard then ok (at, nm_pkt_discard) else forward_by_rules e at)

abbrev pub nm_arp_recv : ℕ
nm_arp_recv = nm_pkt_drop

-- `skb->len - 16` wraps below 16 bytes.
unfoldable pub strip_tag : Skb → Run Skb
unfolding nm_skb_push nm_skb_pull move_bytes
strip_tag skb =
    let veth = nm_skb_push eth_hlen skb in
    if ltb veth.len 16
    then fault
    else (let d = veth.data_ofs in
        u16_at veth.buf (d + 16) >>= λ inner. u16_at veth.buf (d + 14) >>= λ vlan_tci.
        move_bytes veth.buf (d + 12) (d + 16) (veth.len - 16) >>= λ buf.
        let tagged = record veth {
          protocol = inner;
          vlanid = bit_and (ntohs vlan_tci) 0xfff;
          buf = buf;
        } in
        let pulled = nm_skb_pull eth_hlen tagged in ok (record pulled { nh_ofs = pulled.data_ofs }))

unfoldable pub nm_vlan_recv : Engine → Skb → Run (Skb × ℕ)
unfolding strip_tag nm_ipv4_recv
nm_vlan_recv e skb = strip_tag skb >>= λ bare.
    if ntohs bare.protocol == eth_p_ip
    then nm_ipv4_recv e bare
    else if ntohs bare.protocol == eth_p_arp
    then ok (bare, nm_arp_recv)
    else ok (bare, 0)

unfoldable pub by_protocol : Engine → Skb → Run (Skb × ℕ)
unfolding nm_vlan_recv nm_ipv4_recv
by_protocol e skb =
    if ntohs skb.protocol == eth_p_ip
    then nm_ipv4_recv e skb
    else if ntohs skb.protocol == eth_p_8021q
    then nm_vlan_recv e skb
    else if ntohs skb.protocol == eth_p_arp
    then ok (skb, nm_arp_recv)
    else ok (skb, nm_pkt_discard)

-- The destination address is read for `check_recursive`, and the protocol behind it in any case.
unfoldable pub packet_intercept : Engine → Skb → Run (Skb × ℕ)
unfolding by_protocol eth_type_trans
packet_intercept e skb =
    let s = record skb { mac_ofs = skb.data_ofs } in
    if ltb (length s.buf) (s.mac_ofs + nm_mac_len)
    then fault
    else if check_recursive e.policies.recurs (drop s.mac_ofs s.buf) == nm_pkt_discard
    then ok (s, nm_pkt_discard)
    else (eth_type_trans s >>= λ typed. by_protocol e typed)

-- What one round of the thread does with a packet: the frame that it hands to `nm_send`, and the
-- packet that it hands to the statistics.
pub record Round : Type 0 where
  pub sent : Option Skb
  pub recorded : Option Skb

abbrev pub idle : Round
idle = record { sent = none; recorded = none }

-- The source address of a frame that is sent is that of the output device.
unfoldable pub packet_send : List ℕ → Skb → Run Skb
packet_send dev_mac skb =
    write_bytes skb.buf (skb.mac_ofs + nm_mac_len) (take nm_mac_len dev_mac) >>= λ buf.
    ok (record skb { buf = buf })

-- `vsecplat_record_pkt` is called where statistics are on.
abbrev pub recorded_of : ℕ → Skb → Option Skb
recorded_of isstatistics skb = if isstatistics != 0 then some skb else none

unfoldable pub finish : Engine → ℕ → List ℕ → ℕ → Skb × ℕ → Run Round
unfolding packet_send
finish e isstatistics dev_mac orig_len (skb, verdict) =
    if verdict == nm_pkt_discard
    then ok idle
    else (let verdict' = if e.guide_state == 0 then nm_pkt_drop else verdict in
        let whole = record skb { len = orig_len } in
        if verdict' == nm_pkt_forward
        then (packet_send dev_mac whole >>= λ out.
            ok (record { sent = some out; recorded = recorded_of isstatistics out }))
        else ok (record { sent = none; recorded = recorded_of isstatistics whole }))

-- One round of `packet_handle_thread`, in which the engine does not change. `none` is a round
-- without a packet.
unfoldable pub packet_handle : Engine → ℕ → List ℕ → Option Skb → Run Round
unfolding finish packet_intercept
packet_handle e isstatistics dev_mac none = ok idle
packet_handle e isstatistics dev_mac (some skb) =
    if skb.len == 0
    then ok idle
    else if e.mirror_state == 0
    then ok idle
    else packet_intercept e skb >>= λ r. finish e isstatistics dev_mac skb.len r
