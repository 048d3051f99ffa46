-- ===== src/Crypt/Inverse.antt =====
-- About decryption behind encryption with the ciphers of tea_crypt.c.
use vsecplat.Common.{
  each_below, each_below_lem, ℕ, zero, suc, ◌+◌, ◌*◌, ◌/◌, ◌%◌, ◌^◌, ◌≤◌, ◌<◌, true,
}
use vsecplat.Common.{List, [], ◌∷◌, ◌≡◌, refl, ◌∙◌, ap, ap₂, arith, All, ◌==◌, ==_iff}
use vsecplat.Common.{add32, sub32, bit_xor-lt}
use vsecplat.Crypt.{
  Key, Block, delta, tea_mix, encrypt_round, decrypt_round, encrypt_loop, decrypt_loop, tea_encrypt,
  tea_decrypt, tea_key, encrypt_words, decrypt_words, crypt_len, nm_encrypt_tea, nm_decrypt_tea,
  toggle, nm_crypt,
}

pub record IsBlock (v : Block) : Type 0 where
  pub fits_left : v.left < 2 ^ 32
  pub fits_right : v.right < 2 ^ 32

sub32-add32 : (x m : ℕ) → x < 2 ^ 32 → m < 2 ^ 32 → sub32 (add32 x m) m ≡ x
sub32-add32 x m h k = omega arith

tea_mix-lt : (x sum k l : ℕ) → tea_mix x sum k l < 2 ^ 32
unfolding tea_mix
tea_mix-lt x sum k l =
    bit_xor-lt 32 _ _ (bit_xor-lt 32 _ _ (omega arith) (omega arith)) (omega arith)

decrypt_round-encrypt_round :
    (key : Key) (sum : ℕ) (v : Block)
    → IsBlock v
    → decrypt_round key sum (encrypt_round key sum v) ≡ v
unfolding encrypt_round decrypt_round
decrypt_round-encrypt_round key sum v fits = rw (
  sub32-add32 v.right _ fits.fits_right
      (tea_mix-lt (add32 v.left (tea_mix v.right sum key.a key.b)) sum key.c key.d),
  sub32-add32 v.left _ fits.fits_left (tea_mix-lt v.right sum key.a key.b),
)

encrypt_round-IsBlock : (key : Key) (sum : ℕ) (v : Block) → IsBlock (encrypt_round key sum v)
unfolding encrypt_round
encrypt_round-IsBlock key sum v = record { fits_left = omega arith; fits_right = omega arith }

encrypt_loop-IsBlock :
    (key : Key) (i sum : ℕ) (v : Block) → IsBlock v → IsBlock (encrypt_loop key i sum v)
unfolding encrypt_loop
encrypt_loop-IsBlock key zero sum v fits = fits
encrypt_loop-IsBlock key (suc i) sum v fits =
    encrypt_loop-IsBlock key i (add32 sum delta) _ (encrypt_round-IsBlock key _ v)

-- The sum behind the given number of rounds.
raise : ℕ → ℕ → ℕ
raise zero sum = sum
raise (suc i) sum = raise i (add32 sum delta)

raise-suc : (i sum : ℕ) → raise (suc i) sum ≡ add32 (raise i sum) delta
unfolding raise
raise-suc zero sum = refl
raise-suc (suc i) sum = raise-suc i (add32 sum delta)

raise-lt : (i sum : ℕ) → sum < 2 ^ 32 → raise i sum < 2 ^ 32
unfolding raise
raise-lt zero sum h = h
raise-lt (suc i) sum h = raise-lt i (add32 sum delta) (omega arith)

-- The last round of the encryption, split off.
encrypt_loop-suc :
    (key : Key) (i sum : ℕ) (v : Block)
    → encrypt_loop key (suc i) sum v
      ≡ encrypt_round key (raise (suc i) sum) (encrypt_loop key i sum v)
unfolding encrypt_loop raise
encrypt_loop-suc key zero sum v = refl
encrypt_loop-suc key (suc i) sum v = encrypt_loop-suc key i (add32 sum delta) _

decrypt_loop-suc :
    (key : Key) (i sum : ℕ) (v : Block)
    → decrypt_loop key (suc i) sum v
      ≡ decrypt_loop key i (sub32 sum delta) (decrypt_round key sum v)
unfolding decrypt_loop
decrypt_loop-suc key i sum v = refl

lowered : (i sum : ℕ) → sum < 2 ^ 32 → sub32 (raise (suc i) sum) delta ≡ raise i sum
lowered i sum h =
    rw (raise-suc i sum) (sub32-add32 (raise i sum) delta (raise-lt i sum h) (omega arith))

no_rounds :
    (key : Key) (sum : ℕ) (v : Block)
    → decrypt_loop key 0 (raise 0 sum) (encrypt_loop key 0 sum v) ≡ v
unfolding decrypt_loop encrypt_loop
no_rounds key sum v = refl

decrypt_loop-encrypt_loop :
    (key : Key) (i sum : ℕ) (v : Block)
    → sum < 2 ^ 32
    → IsBlock v
    → decrypt_loop key i (raise i sum) (encrypt_loop key i sum v) ≡ v
decrypt_loop-encrypt_loop key zero sum v h fits = no_rounds key sum v
decrypt_loop-encrypt_loop key (suc i) sum v h fits =
    ap (decrypt_loop key (suc i) (raise (suc i) sum)) (encrypt_loop-suc key i sum v)
    ∙ (decrypt_loop-suc key i (raise (suc i) sum) _
        ∙ (ap₂ (decrypt_loop key i) (lowered i sum h)
              (decrypt_round-encrypt_round key _ _ (encrypt_loop-IsBlock key i sum v fits))
            ∙ decrypt_loop-encrypt_loop key i sum v h fits))

-- TEA on one block: with any key, decrypting the encryption of two 32-bit words gives the words
-- back.
pub tea_decrypt-tea_encrypt :
    (key : Key) (v : Block) → IsBlock v → tea_decrypt key (tea_encrypt key v) ≡ v
unfolding tea_decrypt tea_encrypt raise
tea_decrypt-tea_encrypt key v fits = decrypt_loop-encrypt_loop key 32 0 v (omega arith) fits

-- The loops over a buffer: decrypting behind encrypting, with the same number of rounds, gives
-- the 32-bit words back.
pub decrypt_words-encrypt_words :
    (pairs : ℕ) (ws : List ℕ)
    → All (λ x. x < 2 ^ 32) ws
    → decrypt_words pairs (encrypt_words pairs ws) ≡ ws
unfolding encrypt_words decrypt_words
decrypt_words-encrypt_words zero ws fits = refl
decrypt_words-encrypt_words (suc pairs) [] fits = refl
decrypt_words-encrypt_words (suc pairs) (x ∷ []) fits = refl
decrypt_words-encrypt_words (suc pairs) (x ∷ y ∷ ws) fits =
    let block : Block = record { left = x; right = y } in
    let back =
      tea_decrypt-tea_encrypt tea_key block
        (record { fits_left = fits.0; fits_right = fits.1.0 }) in
    ap₂ (λ v rest. v.left ∷ v.right ∷ rest) back (decrypt_words-encrypt_words pairs ws fits.1.1)

-- With TEA, decrypting what was sent, with the length that was sent, gives the 32-bit words of the
-- buffer back; that length is a multiple of 8 and at least that of the text.
pub nm_decrypt_tea-nm_encrypt_tea :
    (ws : List ℕ) (len : ℕ)
    → All (λ x. x < 2 ^ 32) ws
    → let sent = nm_encrypt_tea ws len in
      (nm_decrypt_tea sent.0 sent.1 ≡ (ws, sent.1)) × (sent.1 % 8 ≡ 0) × (len ≤ sent.1)
unfolding nm_encrypt_tea nm_decrypt_tea crypt_len
nm_decrypt_tea-nm_encrypt_tea ws len fits =
    let words : ℕ = (len + 7) / 8 * 8 / 4 in
    let same : words * 4 / 4 ≡ words = omega arith in
    (rw (same, decrypt_words-encrypt_words ((words + 1) / 2) ws fits), omega arith, omega arith)

toggle_table : each_below (λ b. toggle (toggle b) == b) 256 ≡ true
unfolding each_below toggle
toggle_table = refl

toggle_self : (x : ℕ) → x < 256 → toggle (toggle x) ≡ x
toggle_self x h = (==_iff _ x).0 (each_below_lem (λ b. toggle (toggle b) == b) 256 x h toggle_table)

-- Without TEA the functions `nm_encrypt` and `nm_decrypt` have one body, and running it twice
-- over the same length gives the bytes back.
pub nm_crypt_twice :
    (len : ℕ) (bytes : List ℕ)
    → All (λ x. x < 256) bytes
    → nm_crypt len (nm_crypt len bytes) ≡ bytes
unfolding nm_crypt
nm_crypt_twice zero bytes fits = refl
nm_crypt_twice (suc len) [] fits = refl
nm_crypt_twice (suc len) (x ∷ bytes) fits =
    ap₂ (λ y ys. y ∷ ys) (toggle_self x fits.0) (nm_crypt_twice len bytes fits.1)
