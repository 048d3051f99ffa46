-- ===== src/Connection/Framed.antt =====
-- About messages of msg_comm.c on the wire: the head and the data.
use vsecplat.Common.{ℕ, suc, ◌+◌, ◌/◌, ◌%◌, ◌^◌, ◌≤◌, ◌<◌, Bool, List, ◌++◌, All}
use vsecplat.Common.{◌≡◌, ◌≢◌, ◌∙◌, ap, subst, arith, length}
use vsecplat.Policy.Text.{Str}
use vsecplat.Connection.{Bytes, write_at, int_at, int_bytes, head_len}
use vsecplat.Connection.Buffer.{IsAt, IsAt-same, write_at_behind, write_at-IsAt, IsAt-append}
use vsecplat.Connection.Sealed.{sealed, length-sealed}

-- A message on the wire: its length and its type, of four bytes each, and the data.
abbrev pub framed : Bool → List ℕ → List ℕ
framed enc xs = int_bytes (head_len + length xs) ++ (int_bytes 1 ++ sealed enc xs)

pub length-framed : (enc : Bool) (xs : List ℕ) → length (framed enc xs) ≡ head_len + length xs
length-framed enc xs = omega (arith, length-sealed enc xs)

pub int_at-int_bytes :
    (ofs n : ℕ) (buf : Bytes) → n < 2 ^ 32 → IsAt buf ofs (int_bytes n) → int_at ofs buf ≡ n
int_at-int_bytes ofs n buf small at =
    let b0 = at.0 in
    let b1 : buf (ofs + 1) ≡ n / 2 ^ 8 % 256 =
      (let same : ofs + 1 ≡ suc ofs = omega arith in ap buf same) ∙ at.1.0 in
    let b2 : buf (ofs + 2) ≡ n / 2 ^ 16 % 256 =
      (let same : ofs + 2 ≡ suc (suc ofs) = omega arith in ap buf same) ∙ at.1.1.0 in
    let b3 : buf (ofs + 3) ≡ n / 2 ^ 24 % 256 =
      (let same : ofs + 3 ≡ suc (suc (suc ofs)) = omega arith in ap buf same) ∙ at.1.1.1.0 in
    omega arith

-- Bytes from the data on that may be read as a text.
pub record IsText (text : Str) : Type 0 where
  pub plain : All (λ c. c ≢ 0) text
  pub bytes : All (λ c. c < 256) text

pub framed_parts :
    (enc : Bool) (xs : List ℕ) (buf : Bytes)
    → IsAt buf 0 (framed enc xs)
    → IsAt buf 0 (int_bytes (head_len + length xs))
      × IsAt buf 4 (int_bytes 1)
      × IsAt buf head_len (sealed enc xs)
framed_parts enc xs buf (a, (b, (c, (d, (e, (f, (g, (h, rest)))))))) =
    ((a, (b, (c, (d, tt)))), (e, (f, (g, (h, tt)))), rest)

-- The bytes that are left of the head, and the answer, make the message that is written.
pub reply-IsAt :
    (enc : Bool) (bytes : List ℕ) (buf : Bytes)
    → IsAt buf 4 (int_bytes 1)
    → IsAt buf head_len (sealed enc bytes)
    → IsAt (write_at 0 (int_bytes (length bytes + head_len)) buf) 0 (framed enc bytes)
reply-IsAt enc bytes buf kind here =
    let len : length bytes + head_len ≡ head_len + length bytes = omega arith in
    let buf' = write_at 0 (int_bytes (length bytes + head_len)) buf in
    let kept =
      λ (i : ℕ) (far : 4 ≤ i). write_at_behind 0 (int_bytes (length bytes + head_len)) buf i far in
    IsAt-append 0 (int_bytes (head_len + length bytes)) (int_bytes 1 ++ sealed enc bytes) buf'
      (subst (λ n. IsAt buf' 0 (int_bytes n)) len
        (write_at-IsAt 0 (int_bytes (length bytes + head_len)) buf))
      (IsAt-append 4 (int_bytes 1) (sealed enc bytes) buf'
        (IsAt-same buf buf' 4 (int_bytes 1) (λ i low high. kept i low) kind)
        (IsAt-same buf buf' 8 (sealed enc bytes) (λ i low high. kept i (omega arith)) here))
