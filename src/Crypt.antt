-- ===== src/Crypt.antt =====
-- The two ciphers of userspace/daemon/tea_crypt.c: TEA, where the file is compiled with
-- `NM_TEA_CRYPT`, and otherwise a toggle of the top bit of each byte.
pub mod Inverse
use vsecplat.Common.{
  ℕ, zero, suc, ◌+◌, ◌-◌, ◌*◌, ◌/◌, ◌%◌, ◌^◌, Bool, true, false, List, [], ◌∷◌, ◌++◌,
}
use vsecplat.Common.{
  if◌then◌else◌, ◌==◌, ◌!=◌, bit_xor, bit_and, bit_or, add32, sub32, u32, ◌<<<◌, ◌>>>◌,
}
use vsecplat.Common.{◌≡◌, refl, length}

-- The 16 bytes of a key, and the 8 bytes of a block.
pub record Key : Type 0 where
  pub a : ℕ
  pub b : ℕ
  pub c : ℕ
  pub d : ℕ

pub record Block : Type 0 where
  pub left : ℕ
  pub right : ℕ

abbrev pub delta : ℕ
delta = 0x9e3779b9

-- `((x << 4) + k) ^ (x + sum) ^ ((x >> 5) + l)`
unfoldable pub tea_mix : ℕ → ℕ → ℕ → ℕ → ℕ
tea_mix x sum k l = bit_xor (bit_xor (add32 (u32 (x <<< 4)) k) (add32 x sum)) (add32 (x >>> 5) l)

-- One round of each loop; `sum` is raised before a round of the encryption, and lowered behind a
-- round of the decryption.
unfoldable pub encrypt_round : Key → ℕ → Block → Block
encrypt_round key sum v =
    let left = add32 v.left (tea_mix v.right sum key.a key.b) in
    record { left = left; right = add32 v.right (tea_mix left sum key.c key.d) }

unfoldable pub decrypt_round : Key → ℕ → Block → Block
decrypt_round key sum v =
    let right = sub32 v.right (tea_mix v.left sum key.c key.d) in
    record { left = sub32 v.left (tea_mix right sum key.a key.b); right = right }

unfoldable pub encrypt_loop : Key → ℕ → ℕ → Block → Block
encrypt_loop key zero sum v = v
encrypt_loop key (suc i) sum v =
    let sum' = add32 sum delta in encrypt_loop key i sum' (encrypt_round key sum' v)

unfoldable pub decrypt_loop : Key → ℕ → ℕ → Block → Block
decrypt_loop key zero sum v = v
decrypt_loop key (suc i) sum v = decrypt_loop key i (sub32 sum delta) (decrypt_round key sum v)

abbrev pub tea_rounds : ℕ
tea_rounds = 32

unfoldable pub tea_encrypt : Key → Block → Block
tea_encrypt key v = encrypt_loop key tea_rounds 0 v

unfoldable pub tea_decrypt : Key → Block → Block
tea_decrypt key v = decrypt_loop key tea_rounds 0xC6EF3720 v

abbrev pub tea_key : Key
tea_key = record { a = 0x5a5adead; b = 0x5a5adead; c = 0x55aadead; d = 0x55aadead }

-- The loops of `nm_encrypt` and `nm_decrypt` over the buffer as words; `pairs` counts their
-- rounds. A round reads and writes two words.
unfoldable pub encrypt_words : ℕ → List ℕ → List ℕ
encrypt_words zero ws = ws
encrypt_words (suc pairs) (x ∷ y ∷ ws) =
    let v = tea_encrypt tea_key (record { left = x; right = y }) in
    v.left ∷ v.right ∷ encrypt_words pairs ws
encrypt_words (suc pairs) ws = ws

unfoldable pub decrypt_words : ℕ → List ℕ → List ℕ
decrypt_words zero ws = ws
decrypt_words (suc pairs) (x ∷ y ∷ ws) =
    let v = tea_decrypt tea_key (record { left = x; right = y }) in
    v.left ∷ v.right ∷ decrypt_words pairs ws
decrypt_words (suc pairs) ws = ws

-- `rte_align(len, 8) / 4` words, and the number of bytes that they are.
unfoldable pub crypt_len : ℕ → ℕ
crypt_len len = (len + 7) / 8 * 8 / 4

-- `for(i=0; i<crypt_len; i+=2)`
abbrev pub rounds_of : ℕ → ℕ
rounds_of words = (words + 1) / 2

unfoldable pub nm_encrypt_tea : List ℕ → ℕ → List ℕ × ℕ
nm_encrypt_tea ws len = (encrypt_words (rounds_of (crypt_len len)) ws, crypt_len len * 4)

unfoldable pub nm_decrypt_tea : List ℕ → ℕ → List ℕ × ℕ
nm_decrypt_tea ws len = (decrypt_words (rounds_of (len / 4)) ws, len / 4 * 4)

-- Without `NM_TEA_CRYPT`: the two functions have one body.
unfoldable pub toggle : ℕ → ℕ
toggle x = if bit_and x 0x80 != 0 then bit_and x 0x7f else bit_or x 0x80

unfoldable pub nm_crypt : ℕ → List ℕ → List ℕ
nm_crypt zero bytes = bytes
nm_crypt (suc len) [] = []
nm_crypt (suc len) (x ∷ bytes) = toggle x ∷ nm_crypt len bytes
