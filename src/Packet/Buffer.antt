-- ===== src/Packet/Buffer.antt =====
-- A packet buffer and the pointers into it: userspace/include/nm_skb.h, userspace/lib/nm_skb.c
-- (lines 296-316), and the header structs of userspace/include. The target is little-endian.
pub mod Reads
use vsecplat.Common.{ℕ, zero, suc, ◌+◌, ◌-◌, ◌*◌, ◌^◌, List, [], ◌∷◌, none, some}
use vsecplat.Common.{if◌then◌else◌, ltb, leb, take, drop, length, get_elem?, ◌%◌}
use vsecplat.Common.Run.{Run, ok, fault, ◌>>=◌}

-- `buf` is the whole buffer of the network card, in which `head` is `NM_HEAD_OFFSET`; the pointers
-- are offsets into it. `protocol` is the number
-- as it stands in memory, in network byte order.
pub record Skb : Type 0 where
  pub buf : List ℕ
  pub len : ℕ
  pub data_ofs : ℕ
  pub mac_ofs : ℕ
  pub nh_ofs : ℕ
  pub h_ofs : ℕ
  pub protocol : ℕ
  pub vlanid : ℕ

abbrev pub nm_head_offset : ℕ
nm_head_offset = 256

-- A read outside of the buffer is a fault.
unfoldable pub byte_at : List ℕ → ℕ → Run ℕ
byte_at buf i = elim (get_elem? buf i) [ none ↦ fault | some b ↦ ok b ]

unfoldable pub u16_at : List ℕ → ℕ → Run ℕ
unfolding byte_at
u16_at buf i = byte_at buf i >>= λ low. byte_at buf (i + 1) >>= λ high. ok (low + 2 ^ 8 * high)

unfoldable pub u32_at : List ℕ → ℕ → Run ℕ
unfolding u16_at
u32_at buf i = u16_at buf i >>= λ low. u16_at buf (i + 2) >>= λ high. ok (low + 2 ^ 16 * high)

-- The bytes from an offset on are replaced.
unfoldable pub overwrite : List ℕ → ℕ → List ℕ → List ℕ
overwrite [] i bs = []
overwrite (x ∷ xs) zero [] = x ∷ xs
overwrite (x ∷ xs) zero (b ∷ bs) = b ∷ overwrite xs zero bs
overwrite (x ∷ xs) (suc i) bs = x ∷ overwrite xs i bs

-- `memcpy` into the buffer.
unfoldable pub write_bytes : List ℕ → ℕ → List ℕ → Run (List ℕ)
unfolding overwrite
write_bytes buf i bs = if leb (i + length bs) (length buf) then ok (overwrite buf i bs) else fault

-- `memmove(buf + dst, buf + src, n)`
unfoldable pub move_bytes : List ℕ → ℕ → ℕ → ℕ → Run (List ℕ)
unfolding write_bytes
move_bytes buf dst src n =
    if leb (src + n) (length buf) then write_bytes buf dst (take n (drop src buf)) else fault

-- Too long a pull changes nothing; its callers drop the null pointer that it returns.
unfoldable pub nm_skb_pull : ℕ → Skb → Skb
nm_skb_pull n skb =
    if ltb skb.len n then skb else record skb { len = skb.len - n; data_ofs = skb.data_ofs + n }

-- A push below `head`, which 256 bytes lie before, only prints a message.
unfoldable pub nm_skb_push : ℕ → Skb → Skb
nm_skb_push n skb = record skb { len = (skb.len + n) % 2 ^ 32; data_ofs = skb.data_ofs - n }
