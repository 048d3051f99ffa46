-- ===== src/Connection/Sealed.antt =====
-- About the data of a message of msg_comm.c under encryption and decryption.
use vsecplat.Common.{ℕ, zero, suc, ◌+◌, ◌≤◌, ◌<◌, Bool, true, false, List, [], ◌∷◌, All}
use vsecplat.Common.{◌≡◌, refl, ◌∙◌, ap, arith, ltb, length}
use vsecplat.Common.Run.{Run, ok}
use vsecplat.Crypt.{nm_crypt}
use vsecplat.Crypt.Inverse.{nm_crypt_twice}
use vsecplat.Connection.{Bytes, nm_recv_buf_len, head_len, write_at, crypt_data}
use vsecplat.Connection.Buffer.{IsAt, write_at_before, write_at_behind, write_at-IsAt, read_at_lem}

pub in_buffer : (n : ℕ) → n ≤ nm_recv_buf_len → ltb nm_recv_buf_len n ≡ false
in_buffer n h = ground arith

abbrev pub sealed : Bool → List ℕ → List ℕ
sealed true xs = nm_crypt (length xs) xs
sealed false xs = xs

pub length-nm_crypt : (n : ℕ) (xs : List ℕ) → length (nm_crypt n xs) ≡ length xs
unfolding nm_crypt
length-nm_crypt zero xs = refl
length-nm_crypt (suc n) [] = refl
length-nm_crypt (suc n) (x ∷ xs) = ap suc (length-nm_crypt n xs)

pub length-sealed : (enc : Bool) (xs : List ℕ) → length (sealed enc xs) ≡ length xs
length-sealed true xs = length-nm_crypt (length xs) xs
length-sealed false xs = refl

pub sealed_twice :
    (enc : Bool) (xs : List ℕ) → All (λ x. x < 256) xs → sealed enc (sealed enc xs) ≡ xs
sealed_twice true xs h =
    ap (λ n. nm_crypt n (nm_crypt (length xs) xs)) (length-nm_crypt (length xs) xs)
    ∙ nm_crypt_twice (length xs) xs h
sealed_twice false xs h = refl

-- The buffer with the data encrypted or decrypted, and all else as it was.
pub record Crypted (enc : Bool) (xs : List ℕ) (buf : Bytes) (result : Run Bytes) : Type 0 where
  pub buffer : Bytes
  pub done : result ≡ ok buffer
  pub here : IsAt buffer head_len (sealed enc xs)
  pub before : (i : ℕ) → i < head_len → buffer i ≡ buf i
  pub behind : (i : ℕ) → head_len + length xs ≤ i → buffer i ≡ buf i

pub crypt_data-Crypted :
    (enc : Bool) (n : ℕ) (xs : List ℕ) (buf : Bytes)
    → n ≡ length xs
    → head_len + length xs ≤ nm_recv_buf_len
    → IsAt buf head_len xs
    → Crypted enc xs buf (crypt_data enc n buf)
crypt_data-Crypted false n xs buf e fits at = record {
  buffer = buf;
  done = refl;
  here = at;
  before = λ i h. refl;
  behind = λ i h. refl;
}
crypt_data-Crypted true n xs buf e fits at =
    let inside = in_buffer (head_len + length xs) fits in
    let text = read_at_lem head_len xs buf at in
    let long = length-nm_crypt (length xs) xs in
    rw e (
      rw inside (record {
        buffer = write_at head_len (nm_crypt (length xs) xs) buf;
        done = ap (λ t. ok (write_at head_len (nm_crypt (length xs) t) buf)) text;
        here = write_at-IsAt head_len (nm_crypt (length xs) xs) buf;
        before = λ i h. write_at_before head_len (nm_crypt (length xs) xs) buf i h;
        behind =
            λ i h. write_at_behind head_len (nm_crypt (length xs) xs) buf i (omega (arith, long));
      }))
