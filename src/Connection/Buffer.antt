-- ===== src/Connection/Buffer.antt =====
-- About buffers of msg_comm.c: reading what was written.
use vsecplat.Common.{ℕ, zero, suc, ◌+◌, ◌≤◌, ◌<◌, true, false, List, [], ◌∷◌, ◌++◌, some, All}
use vsecplat.Common.{◌≡◌, ◌≢◌, refl, sym, ◌∙◌, ap, ap₂, subst, arith, ◌==◌, length}
use vsecplat.Connection.{Bytes, write_at, read_at, clear_at, text_at}

-- The bytes stand in the buffer from the offset on.
abbrev pub IsAt : Bytes → ℕ → List ℕ → Type 0
IsAt buf ofs [] = Unit
IsAt buf ofs (x ∷ xs) = (buf ofs ≡ x) × IsAt buf (suc ofs) xs

-- They depend on no byte before it.
pub IsAt-same :
    (buf buf' : Bytes) (ofs : ℕ) (xs : List ℕ)
    → ((i : ℕ) → ofs ≤ i → i < ofs + length xs → buf' i ≡ buf i)
    → IsAt buf ofs xs
    → IsAt buf' ofs xs
IsAt-same buf buf' ofs [] e h = tt
IsAt-same buf buf' ofs (x ∷ xs) e h = (
  e ofs (omega arith) (omega arith) ∙ h.0,
  IsAt-same buf buf' (suc ofs) xs (λ i low high. e i (omega arith) (omega arith)) h.1,
)

pub write_at_before :
    (ofs : ℕ) (xs : List ℕ) (buf : Bytes) (i : ℕ) → i < ofs → write_at ofs xs buf i ≡ buf i
write_at_before ofs [] buf i h = refl
write_at_before ofs (x ∷ xs) buf i h =
    let other : (i == ofs) ≡ false = ground arith in
    rw other (write_at_before (suc ofs) xs buf i (omega arith))

pub write_at_behind :
    (ofs : ℕ) (xs : List ℕ) (buf : Bytes) (i : ℕ)
    → ofs + length xs ≤ i
    → write_at ofs xs buf i ≡ buf i
write_at_behind ofs [] buf i h = refl
write_at_behind ofs (x ∷ xs) buf i h =
    let other : (i == ofs) ≡ false = ground arith in
    rw other (write_at_behind (suc ofs) xs buf i (omega arith))

pub write_at-IsAt : (ofs : ℕ) (xs : List ℕ) (buf : Bytes) → IsAt (write_at ofs xs buf) ofs xs
write_at-IsAt ofs [] buf = tt
write_at-IsAt ofs (x ∷ xs) buf =
    let here : (ofs == ofs) ≡ true = ground arith in
    (
      rw here refl,
      IsAt-same (write_at (suc ofs) xs buf) (write_at ofs (x ∷ xs) buf) (suc ofs) xs
          (λ i low high. let other : (i == ofs) ≡ false = ground arith in rw other refl)
          (write_at-IsAt (suc ofs) xs buf),
    )

pub read_at_lem :
    (ofs : ℕ) (xs : List ℕ) (buf : Bytes) → IsAt buf ofs xs → read_at ofs (length xs) buf ≡ xs
read_at_lem ofs [] buf h = refl
read_at_lem ofs (x ∷ xs) buf h = ap₂ ◌∷◌ h.0 (read_at_lem (suc ofs) xs buf h.1)

pub IsAt-append :
    (ofs : ℕ) (xs ys : List ℕ) (buf : Bytes)
    → IsAt buf ofs xs
    → IsAt buf (ofs + length xs) ys
    → IsAt buf ofs (xs ++ ys)
IsAt-append ofs [] ys buf h g =
    let same : ofs + 0 ≡ ofs = omega arith in subst (λ o. IsAt buf o ys) same g
IsAt-append ofs (x ∷ xs) ys buf h g = (
  h.0,
  IsAt-append (suc ofs) xs ys buf h.1 (
      let same : ofs + suc (length xs) ≡ suc ofs + length xs = omega arith in
      subst (λ o. IsAt buf o ys) same g),
)

-- A text without NULs that is followed by one.
pub text_at_lem :
    (n ofs : ℕ) (s : List ℕ) (buf : Bytes)
    → length s < n
    → All (λ c. c ≢ 0) s
    → IsAt buf ofs s
    → buf (ofs + length s) ≡ 0
    → text_at n ofs buf ≡ some s
text_at_lem zero ofs s buf fits plain at end = absurd (omega arith)
text_at_lem (suc n) ofs [] buf fits plain at end =
    let same : ofs + 0 ≡ ofs = omega arith in
    let here : buf ofs ≡ 0 = sym (ap buf same) ∙ end in
    let test : (buf ofs == 0) ≡ true = ground (arith, here) in rw (test, text_at) refl
text_at_lem (suc n) ofs (x ∷ s) buf fits plain at end =
    let same : ofs + suc (length s) ≡ suc ofs + length s = omega arith in
    let here : buf ofs ≡ x = at.0 in
    let no_nul : x ≢ 0 = plain.0 in
    let test : (buf ofs == 0) ≡ false = ground (arith, here, no_nul) in
    rw (test, text_at)
      (rw
        (
          text_at_lem n (suc ofs) s buf (omega arith) plain.1 at.1 (sym (ap buf same) ∙ end),
          text_at,
        )
        (ap (λ c. some (c ∷ s)) here))

pub clear_at_inside :
    (ofs n : ℕ) (buf : Bytes) (i : ℕ) → ofs ≤ i → i < ofs + n → clear_at ofs n buf i ≡ 0
clear_at_inside ofs n buf i low high = ground arith

pub clear_at_before : (ofs n : ℕ) (buf : Bytes) (i : ℕ) → i < ofs → clear_at ofs n buf i ≡ buf i
clear_at_before ofs n buf i low = ground arith
