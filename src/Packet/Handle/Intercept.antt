-- ===== src/Packet/Handle/Intercept.antt =====
-- About `packet_intercept` of packet.c: the verdict on a received frame.
use vsecplat.Common.{ℕ, ◌+◌, ◌-◌, ◌<◌, Bool, true, false, drop, length}
use vsecplat.Common.{ltb, ◌==◌, ◌≡◌, ◌∙◌, ap, inl, inr, refl, arith}
use vsecplat.Common.{Option, none, some, Bool-cases, ntohs, bit_and}
use vsecplat.Common.Run.{Returns}
use vsecplat.Packet.Buffer.{Skb}
use vsecplat.Packet.Buffer.Reads.{bytes_of, le16}
use vsecplat.Packet.Handle.{by_protocol, nm_vlan_recv, packet_intercept}
use vsecplat.Packet.Handle.Frame.{
  be16, packet_at, Carried, carried, allows, allows_carried, admitted, HoldsHeaders, IsFrame,
}
use vsecplat.Packet.Handle.Stages.{Keeps, AtNetwork, nm_ipv4_recv-allows}
use vsecplat.Packet.Handle.Tags.{
  HasType, ntohs-le16, eth_type_trans-ok, strip_tag-ok, length-same, packet_at-same,
}
use vsecplat.Policy.Text.{nm_mac_len}
use vsecplat.Policy.Rules.{nm_pkt_drop, nm_pkt_forward, nm_pkt_discard}
use vsecplat.Policy.Store.{check_recursive}
use vsecplat.Policy.Dispatch.{Engine}

module _ (e : Engine) (skb : Skb) (frame : IsFrame skb) where
  abbrev g : ℕ → ℕ
  g = bytes_of skb.buf

  abbrev pub at_start : Skb
  at_start = record skb { mac_ofs = skb.data_ofs }

  -- Behind the Ethernet header.
  abbrev typed : ℕ → Skb
  typed p = record at_start {
    len = skb.len - 14;
    data_ofs = skb.data_ofs + 14;
    nh_ofs = skb.data_ofs + 14;
    protocol = p;
  }

  -- What a stage makes of the frame, if it carries this packet.
  abbrev Judged : Option Carried → Skb × ℕ → Type 0
  Judged o r = ((r.1 == nm_pkt_forward) ≡ allows_carried e g skb.data_ofs o) × Keeps at_start r.0

  plain-AtNetwork :
      (p v : ℕ) → HoldsHeaders skb (some (record { ofs = 14; vlan = v })) → AtNetwork (typed p)
  plain-AtNetwork p v (short, whole) =
      let inside = frame.inside in
      record {
        next = refl;
        whole = omega arith;
        network = omega arith;
        transport = omega arith;
        ethernet = omega arith;
      }

  -- The bytes behind the tag are those of the untagged packet.
  tagged_packet :
      (p : ℕ)
      → ntohs p ≡ 0x8100
      → HoldsHeaders skb
          (some (record { ofs = 18; vlan = bit_and (be16 g (skb.data_ofs + 14)) 0xfff }))
      → (be16 g (skb.data_ofs + 16) == 0x0800) ≡ true
      → Returns
          (nm_vlan_recv e (typed p))
          (Judged (some (record { ofs = 18; vlan = bit_and (be16 g (skb.data_ofs + 14)) 0xfff })))
  unfolding nm_vlan_recv
  tagged_packet p tag (short, whole) ip =
      let d = skb.data_ofs in
      let inside = frame.inside in
      let (buf, run, moved) =
        strip_tag-ok (typed p) d skb.len refl (omega arith) (omega arith) frame.fits inside in
      let same : (k : ℕ) → k < skb.len - 18 → bytes_of buf (d + 14 + k) ≡ g (d + 18 + k) = λ k h.
        ap (bytes_of buf) (omega arith) ∙ moved.inside (k + 2) (omega arith) ∙ ap g (omega arith) in
      let m = skb.len - 18 in
      let size = moved.size in
      let n = length-same g (bytes_of buf) (d + 18) (d + 14) m same (omega arith) in
      let bare : Skb = record (typed p) {
        protocol = le16 g (d + 16);
        vlanid = bit_and (ntohs (le16 g (d + 14))) 0xfff;
        buf = buf;
      } in
      let network : AtNetwork bare = record {
        next = refl;
        whole = omega (arith, n);
        network = omega (arith, size);
        transport = omega (arith, n, size);
        ethernet = omega (arith, size);
      } in
      let vlan = ap (λ (v : ℕ). bit_and v 0xfff) (ntohs-le16 skb.buf (d + 14) frame.bytes) in
      let is_ip : (ntohs (le16 g (d + 16)) == 0x0800) ≡ true =
        ap (λ (v : ℕ). v == 0x0800) (ntohs-le16 skb.buf (d + 16) frame.bytes) ∙ ip in
      let packet =
        ap (packet_at (bytes_of buf) (d + 14)) vlan
        ∙ packet_at-same g (bytes_of buf) (d + 18) (d + 14) m same (bit_and (be16 g (d + 14)) 0xfff)
            (omega arith) (omega arith) in
      let (r, done, (verdict, keeps)) = nm_ipv4_recv-allows e bare network in
      (
        r,
        rw run (rw is_ip done),
        (verdict ∙ ap (allows e) packet, record { size = keeps.size ∙ size; place = keeps.place }),
      )

  -- A tag in front of something else.
  tagged_other :
      (p : ℕ)
      → (be16 g (skb.data_ofs + 16) == 0x0800) ≡ false
      → Returns (nm_vlan_recv e (typed p)) (Judged none)
  unfolding nm_vlan_recv
  tagged_other p other =
      let long = frame.long in
      let (buf, run, moved) =
        strip_tag-ok (typed p) skb.data_ofs skb.len refl (omega arith) long frame.fits
          frame.inside in
      let inner = le16 g (skb.data_ofs + 16) in
      let not_ip : (ntohs inner == 0x0800) ≡ false =
        ap (λ (v : ℕ). v == 0x0800) (ntohs-le16 skb.buf (skb.data_ofs + 16) frame.bytes) ∙ other in
      let bare : Skb = record (typed p) {
        protocol = inner;
        vlanid = bit_and (ntohs (le16 g (skb.data_ofs + 14))) 0xfff;
        buf = buf;
      } in
      let keeps : Keeps at_start bare = record { size = moved.size; place = refl } in
      elim (Bool-cases (ntohs inner == 0x0806)) [
        | inl arp ↦ ((bare, nm_pkt_drop), rw run (rw (not_ip, arp) refl), (refl, keeps))
        | inr rest ↦ ((bare, 0), rw run (rw (not_ip, rest) refl), (refl, keeps))
      ]

  by_protocol-carried :
      (p : ℕ)
      → HasType p (be16 g (skb.data_ofs + 12))
      → Returns (by_protocol e (typed p)) (Judged (carried g skb.data_ofs skb.vlanid))
  unfolding by_protocol
  by_protocol-carried p type =
      let d = skb.data_ofs in
      let whole = frame.whole in
      let kept : Keeps at_start (typed p) = record { size = refl; place = refl } in
      let ip_type = type 0x0800 (omega arith) in
      let tag_type = type 0x8100 (omega arith) in
      elim (Bool-cases (be16 g (d + 12) == 0x0800)) [
        | inl ip ↦
            rw (ip_type, ip)
              (nm_ipv4_recv-allows e (typed p) (plain-AtNetwork p skb.vlanid (rw ip at whole)))
        | inr other ↦ elim (Bool-cases (be16 g (d + 12) == 0x8100)) [
          | inl tag ↦ elim (Bool-cases (be16 g (d + 16) == 0x0800)) [
            | inl ip ↦
                rw (ip_type, other, tag_type, tag, ip)
                  (tagged_packet p (ground (arith, tag_type, tag)) (rw (other, tag, ip) at whole)
                    ip)
            | inr rest ↦ rw (ip_type, other, tag_type, tag, rest) (tagged_other p rest)
          ]
          | inr plain ↦
              rw (ip_type, other, tag_type, plain)
                (elim (Bool-cases (ntohs p == 0x0806)) [
                  | inl arp ↦ ((typed p, nm_pkt_drop), rw arp refl, (refl, kept))
                  | inr rest ↦ ((typed p, nm_pkt_discard), rw rest refl, (refl, kept))
                ])
        ]
      ]

  abbrev own : Bool
  own = check_recursive e.policies.recurs (drop skb.data_ofs skb.buf) == nm_pkt_discard

  -- The verdict is to forward exactly the frames that are admitted; the buffer keeps its size.
  pub intercept-admitted :
      Returns
        (packet_intercept e skb)
        (λ r. ((r.1 == nm_pkt_forward) ≡ admitted e skb) × Keeps at_start r.0)
  unfolding packet_intercept
  intercept-admitted =
      let long = frame.long in
      let inside = frame.inside in
      let room : ltb (length skb.buf) (skb.data_ofs + nm_mac_len) ≡ false = ground arith in
      let (p, read, type) = eth_type_trans-ok at_start refl long inside frame.bytes in
      let (r, run, (verdict, keeps)) = by_protocol-carried p type in
      rw room (elim (Bool-cases own) [
        | inl yes_own ↦ (
          (at_start, nm_pkt_discard),
          rw yes_own refl,
          (not_sent yes_own, record { size = refl; place = refl }),
        )
        | inr foreign ↦ (r, rw foreign (rw read run), (verdict ∙ sent foreign, keeps))
      ])
    where
      not_sent : own ≡ true → false ≡ admitted e skb
      not_sent h = ground arith

      sent :
          own ≡ false
          → allows_carried e g skb.data_ofs (carried g skb.data_ofs skb.vlanid) ≡ admitted e skb
      sent h = ground arith
