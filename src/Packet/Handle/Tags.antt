-- ===== src/Packet/Handle/Tags.antt =====
-- About the Ethernet header and the VLAN tag of packet.c: what `eth_type_trans` and `nm_vlan_recv` make of
-- a frame.
use vsecplat.Common.{ℕ, ◌+◌, ◌-◌, ◌*◌, ◌%◌, ◌^◌, ◌≤◌, ◌<◌, Bool, true, false, List, All, inl, inr}
use vsecplat.Common.{
  if◌then◌else◌, ltb, leb, ◌==◌, ◌≡◌, ◌∙◌, refl, ap, ap₂, arith, Bool-cases, ntohs, length, bit_and,
}
use vsecplat.Common.Run.{ok}
use vsecplat.Packet.Buffer.{Skb, u16_at, move_bytes, nm_skb_pull, nm_skb_push}
use vsecplat.Packet.Buffer.Reads.{
  bytes_of, le16, le32, u16_at-ok, bytes_of-lt, Moved, move_bytes-ok,
}
use vsecplat.Packet.Handle.{eth_type_trans, strip_tag, eth_p_802_3, eth_p_802_2}
use vsecplat.Packet.Handle.Frame.{be16, header_len, packet_at}
use vsecplat.Policy.Forward.{Headers, has_ports}

swap_bytes : (a b : ℕ) → a < 256 → b < 256 → ntohs (a + 2 ^ 8 * b) ≡ a * 2 ^ 8 + b
unfolding ntohs
swap_bytes a b h g = omega arith

pub ntohs-le16 :
    (buf : List ℕ) (i : ℕ)
    → All (λ b. b < 256) buf
    → ntohs (le16 (bytes_of buf) i) ≡ be16 (bytes_of buf) i
ntohs-le16 buf i bytes =
    swap_bytes (bytes_of buf i) (bytes_of buf (i + 1)) (bytes_of-lt buf i bytes)
      (bytes_of-lt buf (i + 1) bytes)

-- The number of the protocol is the type of the frame, wherever that is a type at all.
abbrev pub HasType : ℕ → ℕ → Type 0
HasType proto type = (x : ℕ) → 1536 ≤ x → (ntohs proto == x) ≡ (type == x)

untyped : (b : Bool) → ntohs (if b then eth_p_802_3 else eth_p_802_2) < 1536
unfolding ntohs
untyped true = omega arith
untyped false = omega arith

no_type : (proto type : ℕ) → ntohs proto < 1536 → type < 1536 → HasType proto type
no_type proto type h g x large = ground arith

-- Behind the Ethernet header.
pub eth_type_trans-ok :
    (s : Skb)
    → s.mac_ofs ≡ s.data_ofs
    → 18 ≤ s.len
    → s.data_ofs + s.len ≤ length s.buf
    → All (λ b. b < 256) s.buf
    → (p : ℕ) × (eth_type_trans s
        ≡ ok (record s {
          len = s.len - 14;
          data_ofs = s.data_ofs + 14;
          nh_ofs = s.data_ofs + 14;
          protocol = p;
        }))
      × HasType p (be16 (bytes_of s.buf) (s.data_ofs + 12))
unfolding eth_type_trans nm_skb_pull
eth_type_trans-ok s start long inside bytes =
    let g = bytes_of s.buf in
    let w = le16 g (s.data_ofs + 12) in
    let net = ntohs-le16 s.buf (s.data_ofs + 12) bytes in
    let read : u16_at s.buf (s.mac_ofs + 12) ≡ ok w =
      rw start (u16_at-ok s.buf (s.data_ofs + 12) (omega arith)) in
    let enough : ltb s.len 14 ≡ false = ground arith in
    elim (Bool-cases (leb 1536 (ntohs w))) [
      | inl typed ↦ (w, rw read (rw (typed, enough) refl), λ x large. ap (λ n. n == x) net)
      | inr small ↦
          let raw = le16 g (s.data_ofs + 14) in
          let p = if raw == 0xffff then eth_p_802_3 else eth_p_802_2 in
          (
            p,
            rw read
                (rw (small, enough) (rw (u16_at-ok s.buf (s.data_ofs + 14) (omega arith)) refl)),
            no_type p (be16 g (s.data_ofs + 12)) (untyped (raw == 0xffff))
                (ground (arith, small, net)),
          )
    ]

-- Behind the tag, which the bytes behind it have moved over.
pub strip_tag-ok :
    (s : Skb) (d len : ℕ)
    → s.data_ofs ≡ d + 14
    → s.len + 14 ≡ len
    → 18 ≤ len
    → len < 2 ^ 32
    → d + len ≤ length s.buf
    → (buf : List ℕ) × (strip_tag s
        ≡ ok (record s {
          len = len - 14;
          data_ofs = d + 14;
          nh_ofs = d + 14;
          protocol = le16 (bytes_of s.buf) (d + 16);
          vlanid = bit_and (ntohs (le16 (bytes_of s.buf) (d + 14))) 0xfff;
          buf = buf;
        }))
      × Moved s.buf (d + 12) (d + 16) (len - 16) buf
unfolding strip_tag nm_skb_push nm_skb_pull
strip_tag-ok s d len start size long fits inside =
    let (buf, run, moved) =
      move_bytes-ok s.buf (d + 12) (d + 16) (len - 16) (omega arith) (omega arith) in
    (buf, with_moved buf run, moved)
  where
    with_moved :
        (buf : List ℕ)
        → move_bytes s.buf (d + 12) (d + 16) (len - 16) ≡ ok buf
        → strip_tag s
          ≡ ok (record s {
            len = len - 14;
            data_ofs = d + 14;
            nh_ofs = d + 14;
            protocol = le16 (bytes_of s.buf) (d + 16);
            vlanid = bit_and (ntohs (le16 (bytes_of s.buf) (d + 14))) 0xfff;
            buf = buf;
          })
    with_moved buf run =
        let pushed : (s.len + 14) % 2 ^ 32 ≡ len = omega arith in
        let back : s.data_ofs - 14 ≡ d = omega arith in
        let tagged : ltb len 16 ≡ false = ground arith in
        let enough : ltb len 14 ≡ false = ground arith in
        rw (pushed, back, tagged)
          (rw (u16_at-ok s.buf (d + 16) (omega arith))
            (rw (u16_at-ok s.buf (d + 14) (omega arith)) (rw (run, enough) refl)))

-- A packet is the same wherever its headers are.
module _ (g g' : ℕ → ℕ) (b b' m : ℕ) (same : (k : ℕ) → k < m → g' (b' + k) ≡ g (b + k)) where
  same_from : (x k : ℕ) → x + k < m → g' (b' + x + k) ≡ g (b + x + k)
  same_from x k h = ap g' (omega arith) ∙ same (x + k) h ∙ ap g (omega arith)

  le16-same : (x : ℕ) → x + 2 ≤ m → le16 g' (b' + x) ≡ le16 g (b + x)
  le16-same x h = rw (same x (omega arith), same_from x 1 (omega arith)) refl

  le32-same : (x : ℕ) → x + 4 ≤ m → le32 g' (b' + x) ≡ le32 g (b + x)
  le32-same x h =
      let high : le16 g' (b' + x + 2) ≡ le16 g (b + x + 2) =
        ap (le16 g') (omega arith) ∙ le16-same (x + 2) (omega arith) ∙ ap (le16 g) (omega arith) in
      ap₂ (λ (low high : ℕ). low + 2 ^ 16 * high) (le16-same x (omega arith)) high

  pub length-same : 0 < m → header_len g' b' ≡ header_len g b
  length-same h =
      let first : g' b' ≡ g b = ap g' (omega arith) ∙ same 0 h ∙ ap g (omega arith) in rw first refl

  port-same :
      (ofs : ℕ)
      → header_len g b + ofs + 2 ≤ m
      → le16 g' (b' + header_len g' b' + ofs) ≡ le16 g (b + header_len g b + ofs)
  port-same ofs h =
      let n = header_len g b in
      ap (λ (k : ℕ). le16 g' (b' + k + ofs)) (length-same (omega arith))
      ∙ ap (le16 g') (omega arith)
      ∙ le16-same (n + ofs) (omega arith)
      ∙ ap (le16 g) (omega arith)

  pub packet_at-same :
      (vlanid : ℕ) → 20 ≤ m → header_len g b + 4 ≤ m → packet_at g' b' vlanid ≡ packet_at g b vlanid
  packet_at-same vlanid h whole =
      let saddr = le32-same 12 (omega arith) in
      let daddr = le32-same 16 (omega arith) in
      let protocol = same 9 (omega arith) in
      let source = port-same 0 (omega arith) in
      let dest = port-same 2 (omega arith) in
      let at : ℕ → ℕ → ℕ → ℕ → ℕ → Headers = λ saddr daddr protocol source dest. record {
        saddr = saddr;
        daddr = daddr;
        protocol = protocol;
        source = if has_ports protocol then source else 0;
        dest = if has_ports protocol then dest else 0;
        vlanid = vlanid;
      } in
      λ i. at (saddr i) (daddr i) (protocol i) (source i) (dest i)
