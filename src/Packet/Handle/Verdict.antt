-- ===== src/Packet/Handle/Verdict.antt =====
-- About the rounds of `packet_handle_thread` of packet.c: when a frame is sent.
use vsecplat.Common.{ℕ, ◌+◌, ◌≤◌, Bool, true, false, List, drop, length, take}
use vsecplat.Common.{
  if◌then◌else◌, ◌==◌, ◌!=◌, ◌&&◌, ◌≡◌, ◌∙◌, sym, ap, inl, inr, refl, arith, length-take,
}
use vsecplat.Common.{Option, none, some, Bool-cases}
use vsecplat.Common.Run.{ok, Returns, ◌>>=◌}
use vsecplat.Packet.Buffer.{Skb}
use vsecplat.Packet.Buffer.Reads.{bytes_of, write_bytes-ok}
use vsecplat.Packet.Handle.{idle, packet_intercept, packet_send, recorded_of, finish, packet_handle}
use vsecplat.Packet.Handle.Frame.{Carried, carried, allows_carried, admitted, IsFrame}
use vsecplat.Packet.Handle.Intercept.{intercept-admitted}
use vsecplat.Policy.Text.{nm_mac_len}
use vsecplat.Policy.Rules.{nm_pkt_drop, nm_pkt_forward, nm_pkt_discard}
use vsecplat.Policy.Store.{check_recursive}
use vsecplat.Policy.Dispatch.{Engine}

abbrev pub is_some {ℓ} : {A : Type ℓ} → Option A → Bool
is_some none = false
is_some (some a) = true

-- The frame that is sent, if one is.
finish-sent :
    (e : Engine) (isstatistics : ℕ) (dev_mac : List ℕ) (orig_len : ℕ) (r : Skb × ℕ)
    → r.0.mac_ofs + 12 ≤ length r.0.buf
    → Returns
        (finish e isstatistics dev_mac orig_len r)
        (λ round. is_some round.sent ≡ ((r.1 == nm_pkt_forward) && (e.guide_state != 0)))
unfolding finish packet_send
finish-sent e isstatistics dev_mac orig_len (skb, verdict) room =
    let (buf, run, size) =
      write_bytes-ok skb.buf (skb.mac_ofs + nm_mac_len) (take nm_mac_len dev_mac)
        (omega (arith, length-take nm_mac_len dev_mac)) in
    let verdict' = if e.guide_state == 0 then nm_pkt_drop else verdict in
    let whole : Skb = record skb { len = orig_len } in
    let out : Skb = record whole { buf = buf } in
    elim (Bool-cases (verdict == nm_pkt_discard)) [
      | inl discard ↦ (idle, rw discard refl, discarded discard)
      | inr kept ↦ elim (Bool-cases (verdict' == nm_pkt_forward)) [
        | inl forward ↦ (
          record { sent = some out; recorded = recorded_of isstatistics out },
          rw (kept, forward) (rw run refl),
          sym (forwarded ∙ forward),
        )
        | inr drop_it ↦ (
          record { sent = none; recorded = recorded_of isstatistics whole },
          rw (kept, drop_it) refl,
          sym (forwarded ∙ drop_it),
        )
      ]
    ]
  where
    discarded :
        (verdict == nm_pkt_discard) ≡ true
        → false ≡ ((verdict == nm_pkt_forward) && (e.guide_state != 0))
    discarded h = ground arith

    forwarded :
        ((verdict == nm_pkt_forward) && (e.guide_state != 0))
        ≡ ((if e.guide_state == 0 then nm_pkt_drop else verdict) == nm_pkt_forward)
    forwarded = ground arith

guided :
    (e : Engine) (g : ℕ → ℕ) (d : ℕ) (own : Bool) (o : Option Carried)
    → ((own && allows_carried e g d o) && (e.guide_state != 0)) ≡ (own && allows_carried e g d o)
guided e g d true none = refl
guided e g d false o = refl
guided e g d true (some c) = ground arith

off_blocks :
    (e : Engine) (g : ℕ → ℕ) (d : ℕ) (own : Bool) (o : Option Carried)
    → (e.mirror_state == 0) ≡ true
    → false ≡ (own && allows_carried e g d o)
off_blocks e g d true none off = refl
off_blocks e g d false o off = refl
off_blocks e g d true (some c) off = ground arith

handle_step :
    (e : Engine) (isstatistics : ℕ) (dev_mac : List ℕ) (skb : Skb)
    → packet_handle e isstatistics dev_mac (some skb) ≡ (
        if skb.len == 0
        then ok idle
        else if e.mirror_state == 0
        then ok idle
        else packet_intercept e skb >>= λ r. finish e isstatistics dev_mac skb.len r)
unfolding packet_handle
handle_step e isstatistics dev_mac skb = refl

-- A received frame is handled without a fault, and is sent exactly if it is admitted: it is not
-- addressed to the target of a converting rule, the frame's bytes carry an IPv4 packet, behind a VLAN tag
-- or not, the switches are on, and the duplicate rule and the forwarding rules let the packet through
-- whose addresses, protocol, ports and VLAN stand in these bytes. The frame has from 18 to 2^32 - 1 bytes,
-- lies in its buffer, and holds the headers of the packet.
pub packet_handle-admitted :
    (e : Engine) (isstatistics : ℕ) (dev_mac : List ℕ) (skb : Skb)
    → IsFrame skb
    → Returns
        (packet_handle e isstatistics dev_mac (some skb))
        (λ r. is_some r.sent ≡ admitted e skb)
packet_handle-admitted e isstatistics dev_mac skb frame =
    let g = bytes_of skb.buf in
    let d = skb.data_ofs in
    let foreign = check_recursive e.policies.recurs (drop d skb.buf) != nm_pkt_discard in
    let o = carried g d skb.vlanid in
    let long = frame.long in
    let inside = frame.inside in
    let nonempty : (skb.len == 0) ≡ false = ground arith in
    elim (Bool-cases (e.mirror_state == 0)) [
      | inl off ↦ (idle, rw (handle_step, nonempty, off) refl, off_blocks e g d foreign o off)
      | inr on ↦
          let (r, run, (verdict, keeps)) = intercept-admitted e skb frame in
          let size = keeps.size in
          let place = keeps.place in
          let (round, done, sent) =
            finish-sent e isstatistics dev_mac skb.len r (omega (arith, size, place)) in
          (
            round,
            rw (handle_step, nonempty, on) (rw run done),
            sent ∙ (ap (λ b. b && (e.guide_state != 0)) verdict ∙ guided e g d foreign o),
          )
    ]
