-- ===== src/Packet/Handle/Stages.antt =====
-- About the stages of packet.c: what each finds in the frame, without a fault.
use vsecplat.Common.{ℕ, ◌+◌, ◌-◌, ◌≤◌, true, false, List, Option, none, some}
use vsecplat.Common.{ltb, ◌==◌, ◌||◌, ◌≡◌, refl, arith, inl, inr}
use vsecplat.Common.{Bool-cases, length, take, length-take}
use vsecplat.Common.Run.{ok, Returns}
use vsecplat.Packet.Buffer.{Skb, nm_skb_pull}
use vsecplat.Packet.Buffer.Reads.{bytes_of, byte_at-ok, u16_at-ok, u32_at-ok, write_bytes-ok}
use vsecplat.Packet.Handle.{
  ports_of, headers_of, find_transport, rewrite_mac, check_duplicate, forward_by_rules,
  nm_ipv4_recv,
}
use vsecplat.Packet.Handle.Frame.{header_len, packet_at, allows}
use vsecplat.Policy.Text.{nm_mac_len}
use vsecplat.Policy.Rules.{nm_pkt_drop, nm_pkt_forward, nm_pkt_discard}
use vsecplat.Policy.Forward.{Headers, has_ports, get_forward_policy, check_duplicate_rule}
use vsecplat.Policy.Dispatch.{Engine}

-- The buffer keeps its size, and the frame its place.
pub record Kept (bytes start : ℕ) (r : Skb) : Type 0 where
  pub size : length r.buf ≡ bytes
  pub place : r.mac_ofs ≡ start

abbrev pub Keeps : Skb → Skb → Type 0
Keeps s r = Kept (length s.buf) s.mac_ofs r

-- A frame whose network header is the next of its data.
pub record AtNetwork (s : Skb) : Type 0 where
  pub next : s.data_ofs ≡ s.nh_ofs
  pub whole : header_len (bytes_of s.buf) s.nh_ofs ≤ s.len
  pub network : s.nh_ofs + 20 ≤ length s.buf
  pub transport : s.nh_ofs + header_len (bytes_of s.buf) s.nh_ofs + 4 ≤ length s.buf
  pub ethernet : s.mac_ofs + nm_mac_len ≤ length s.buf

-- Behind `find_transport`.
abbrev at_transport : Skb → Skb
at_transport s =
    let n = header_len (bytes_of s.buf) s.nh_ofs in
    record s { len = s.len - n; data_ofs = s.nh_ofs + n; h_ofs = s.nh_ofs + n }

find_transport-ok : (s : Skb) → AtNetwork s → find_transport s ≡ ok (at_transport s)
unfolding find_transport nm_skb_pull
find_transport-ok s a =
    let n = header_len (bytes_of s.buf) s.nh_ofs in
    let enough : ltb s.len n ≡ false = let w = a.whole in ground (arith, w) in
    rw (byte_at-ok s.buf s.nh_ofs (let w = a.network in omega arith)) (rw (enough, a.next) refl)

-- The packet that `get_forward_policy` sees.
abbrev seen : Skb → Headers
seen s = packet_at (bytes_of s.buf) s.nh_ofs s.vlanid

headers_of-ok : (s : Skb) → AtNetwork s → headers_of (at_transport s) ≡ ok (seen s)
unfolding headers_of ports_of
headers_of-ok s a =
    let n = header_len (bytes_of s.buf) s.nh_ofs in
    let w = a.network in
    let t = a.transport in
    let none : s.nh_ofs + n + 0 ≡ s.nh_ofs + n = omega arith in
    rw (u32_at-ok s.buf (s.nh_ofs + 12) (omega arith)) (
      rw (u32_at-ok s.buf (s.nh_ofs + 16) (omega arith)) (
        rw (byte_at-ok s.buf (s.nh_ofs + 9) (omega arith))
          (elim (Bool-cases (has_ports (bytes_of s.buf (s.nh_ofs + 9)))) [
            | inl ports ↦ rw ports (
                rw (u16_at-ok s.buf (s.nh_ofs + n) (omega arith))
                  (rw (u16_at-ok s.buf (s.nh_ofs + n + 2) (omega arith)) (rw none refl)))
            | inr other ↦ rw other refl
          ])))

rewrite_mac-ok :
    (mac : Option (List ℕ)) (s : Skb)
    → s.mac_ofs + nm_mac_len ≤ length s.buf
    → (r : Skb) × (rewrite_mac mac s ≡ ok r) × Keeps s r
unfolding rewrite_mac
rewrite_mac-ok none s h = (s, refl, record { size = refl; place = refl })
rewrite_mac-ok (some mac) s h =
    let (buf, run, same) =
      write_bytes-ok s.buf s.mac_ofs (take nm_mac_len mac)
        (omega (arith, length-take nm_mac_len mac)) in
    (record s { buf = buf }, rw run refl, record { size = same; place = refl })

forward_by_rules-ok :
    (e : Engine) (s : Skb)
    → AtNetwork s
    → Returns
        (forward_by_rules e (at_transport s))
        (λ r. (r.1 ≡ (get_forward_policy e.policies.rules (seen s)).0) × Keeps s r.0)
unfolding forward_by_rules
forward_by_rules-ok e s a =
    let verdict = get_forward_policy e.policies.rules (seen s) in
    let (r, run, keeps) = rewrite_mac-ok verdict.1 (at_transport s) a.ethernet in
    (
      (r, verdict.0),
      rw (headers_of-ok s a) (rw run refl),
      (refl, record { size = keeps.size; place = keeps.place }),
    )

-- The verdict on an IPv4 packet is to forward it exactly if the engine allows it.
pub nm_ipv4_recv-allows :
    (e : Engine) (s : Skb)
    → AtNetwork s
    → Returns (nm_ipv4_recv e s) (λ r. ((r.1 == nm_pkt_forward) ≡ allows e (seen s)) × Keeps s r.0)
unfolding nm_ipv4_recv
nm_ipv4_recv-allows e s a =
    let kept : Keeps s (at_transport s) = record { size = refl; place = refl } in
    rw (find_transport-ok s a) (elim (Bool-cases (e.mirror_state == 0 || e.guide_state == 0)) [
      | inl off ↦ ((at_transport s, nm_pkt_drop), rw off refl, (off_blocks off, kept))
      | inr on ↦
          rw (on, duplicate)
            (elim (Bool-cases (ret == nm_pkt_discard)) [
              | inl twice ↦
                  ((at_transport s, nm_pkt_discard), rw twice refl, (twice_blocks twice, kept))
              | inr once ↦
                  let (r, run, (verdict, keeps)) = forward_by_rules-ok e s a in
                  (r, rw once run, (by_verdict on once r.1 verdict, keeps))
            ])
    ])
  where
    ret : ℕ
    ret = check_duplicate_rule e.duplicates.rule (seen s).saddr (seen s).daddr

    duplicate : check_duplicate e (at_transport s) ≡ ok ret
    duplicate =
        let w = a.network in
        unfold check_duplicate in
        rw (u32_at-ok s.buf (s.nh_ofs + 12) (omega arith))
          (rw (u32_at-ok s.buf (s.nh_ofs + 16) (omega arith)) refl)

    off_blocks :
        (e.mirror_state == 0 || e.guide_state == 0) ≡ true
        → (nm_pkt_drop == nm_pkt_forward) ≡ allows e (seen s)
    off_blocks off = ground arith

    twice_blocks :
        (ret == nm_pkt_discard) ≡ true → (nm_pkt_discard == nm_pkt_forward) ≡ allows e (seen s)
    twice_blocks twice = ground arith

    by_verdict :
        (e.mirror_state == 0 || e.guide_state == 0) ≡ false
        → (ret == nm_pkt_discard) ≡ false
        → (v : ℕ) → v ≡ (get_forward_policy e.policies.rules (seen s)).0
        → (v == nm_pkt_forward) ≡ allows e (seen s)
    by_verdict on once v same = ground arith
