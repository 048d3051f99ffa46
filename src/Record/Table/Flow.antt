-- ===== src/Record/Table/Flow.antt =====
-- About the entry that `vsecplat_record_pkt` of vsecplat_record.c fills in: the flow that stands in the
-- bytes of the packet.
use vsecplat.Common.{◌+◌, ◌≤◌, true, length, if◌then◌else◌, ◌≡◌, refl, Bool-cases, inl, inr}
use vsecplat.Common.{arith}
use vsecplat.Common.Run.{ok}
use vsecplat.Packet.Buffer.{Skb}
use vsecplat.Packet.Buffer.Reads.{bytes_of, le16, le32, byte_at-ok, u16_at-ok, u32_at-ok}
use vsecplat.Packet.Handle.{headers_of, ports_of}
use vsecplat.Policy.Forward.{has_ports}
use vsecplat.Record.Table.{RecordEntry, entry_of}

-- The headers of the packet lie in the buffer, the ports where its protocol has any.
pub record HasHeaders (skb : Skb) : Type 0 where
  pub network : skb.nh_ofs + 20 ≤ length skb.buf
  pub transport :
      has_ports (bytes_of skb.buf (skb.nh_ofs + 9)) ≡ true → skb.h_ofs + 4 ≤ length skb.buf

-- The flow of the packet, by its bytes: a protocol without ports has 0 for both.
abbrev pub flow_of : Skb → RecordEntry
flow_of skb =
    let g = bytes_of skb.buf in
    let ports = has_ports (g (skb.nh_ofs + 9)) in
    record {
      sip = le32 g (skb.nh_ofs + 12);
      dip = le32 g (skb.nh_ofs + 16);
      sport = if ports then le16 g skb.h_ofs else 0;
      dport = if ports then le16 g (skb.h_ofs + 2) else 0;
      proto = g (skb.nh_ofs + 9);
      vlanid = skb.vlanid;
      count = 0;
      packetsize = 0;
    }

pub entry_of-flow_of : (skb : Skb) → HasHeaders skb → entry_of skb ≡ ok (flow_of skb)
unfolding entry_of headers_of ports_of
entry_of-flow_of skb h =
    let n = skb.nh_ofs in
    let w = h.network in
    rw (u32_at-ok skb.buf (n + 12) (omega arith)) (
      rw (u32_at-ok skb.buf (n + 16) (omega arith)) (
        rw (byte_at-ok skb.buf (n + 9) (omega arith))
          (elim (Bool-cases (has_ports (bytes_of skb.buf (n + 9)))) [
            | inl ports ↦
                let t = h.transport ports in
                rw ports (
                  rw (u16_at-ok skb.buf skb.h_ofs (omega arith))
                    (rw (u16_at-ok skb.buf (skb.h_ofs + 2) (omega arith)) refl))
            | inr other ↦ rw other refl
          ])))
