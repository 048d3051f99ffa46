-- ===== src/Packet/Buffer/Reads.antt =====
-- About packet buffers: reads inside of them, and what they find behind `memcpy` and `memmove`.
use vsecplat.Common.{ℕ, zero, suc, ◌+◌, ◌*◌, ◌^◌, ◌≤◌, ◌<◌, true, List, [], ◌∷◌, All}
use vsecplat.Common.{leb, ◌≡◌, refl, ap, ◌∙◌, arith, length, take, drop, get_or}
use vsecplat.Common.{get_elem?, some, length-take, length-drop}
use vsecplat.Common.Run.{ok}
use vsecplat.Packet.Buffer.{byte_at, u16_at, u32_at, overwrite, write_bytes, move_bytes}

-- The bytes of a buffer, and two and four of them as numbers of the little-endian target.
abbrev pub bytes_of : List ℕ → ℕ → ℕ
bytes_of buf i = get_or buf i 0

abbrev pub le16 : (ℕ → ℕ) → ℕ → ℕ
le16 g i = g i + 2 ^ 8 * g (i + 1)

abbrev pub le32 : (ℕ → ℕ) → ℕ → ℕ
le32 g i = le16 g i + 2 ^ 16 * le16 g (i + 2)

get_elem?-inside : (buf : List ℕ) (i : ℕ) → i < length buf → get_elem? buf i ≡ some (get_or buf i 0)
get_elem?-inside [] i h = absurd (omega arith)
get_elem?-inside (x ∷ xs) zero h = refl
get_elem?-inside (x ∷ xs) (suc i) h = get_elem?-inside xs i (omega arith)

pub byte_at-ok : (buf : List ℕ) (i : ℕ) → i < length buf → byte_at buf i ≡ ok (bytes_of buf i)
unfolding byte_at
byte_at-ok buf i h = rw (get_elem?-inside buf i h, byte_at) refl

pub u16_at-ok :
    (buf : List ℕ) (i : ℕ) → i + 2 ≤ length buf → u16_at buf i ≡ ok (le16 (bytes_of buf) i)
unfolding u16_at
u16_at-ok buf i h =
    rw (byte_at-ok buf i (omega arith)) (rw (byte_at-ok buf (i + 1) (omega arith)) refl)

pub u32_at-ok :
    (buf : List ℕ) (i : ℕ) → i + 4 ≤ length buf → u32_at buf i ≡ ok (le32 (bytes_of buf) i)
unfolding u32_at
u32_at-ok buf i h =
    rw (u16_at-ok buf i (omega arith)) (rw (u16_at-ok buf (i + 2) (omega arith)) refl)

pub bytes_of-lt : (buf : List ℕ) (i : ℕ) → All (λ b. b < 256) buf → bytes_of buf i < 256
bytes_of-lt [] i h = omega arith
bytes_of-lt (x ∷ xs) zero h = h.0
bytes_of-lt (x ∷ xs) (suc i) h = bytes_of-lt xs i h.1

length-overwrite : (buf : List ℕ) (i : ℕ) (bs : List ℕ) → length (overwrite buf i bs) ≡ length buf
unfolding overwrite
length-overwrite [] i bs = refl
length-overwrite (x ∷ xs) zero [] = refl
length-overwrite (x ∷ xs) zero (b ∷ bs) = ap suc (length-overwrite xs zero bs)
length-overwrite (x ∷ xs) (suc i) bs = ap suc (length-overwrite xs i bs)

overwrite_before :
    (buf : List ℕ) (i : ℕ) (bs : List ℕ) (j : ℕ)
    → j < i
    → bytes_of (overwrite buf i bs) j ≡ bytes_of buf j
unfolding overwrite
overwrite_before [] i bs j h = refl
overwrite_before (x ∷ xs) zero bs j h = absurd (omega arith)
overwrite_before (x ∷ xs) (suc i) bs zero h = refl
overwrite_before (x ∷ xs) (suc i) bs (suc j) h = overwrite_before xs i bs j (omega arith)

overwrite_inside :
    (buf : List ℕ) (i : ℕ) (bs : List ℕ) (k : ℕ)
    → i + length bs ≤ length buf
    → k < length bs
    → bytes_of (overwrite buf i bs) (i + k) ≡ bytes_of bs k
unfolding overwrite
overwrite_inside [] i bs k h g = absurd (omega arith)
overwrite_inside (x ∷ xs) zero [] k h g = absurd (omega arith)
overwrite_inside (x ∷ xs) zero (b ∷ bs) zero h g = refl
overwrite_inside (x ∷ xs) zero (b ∷ bs) (suc k) h g =
    let e : 0 + suc k ≡ suc (0 + k) = omega arith in
    rw e (overwrite_inside xs zero bs k (omega arith) (omega arith))
overwrite_inside (x ∷ xs) (suc i) bs k h g =
    let e : suc i + k ≡ suc (i + k) = omega arith in
    rw e (overwrite_inside xs i bs k (omega arith) g)

bytes_of-take : (n : ℕ) (xs : List ℕ) (k : ℕ) → k < n → bytes_of (take n xs) k ≡ bytes_of xs k
bytes_of-take zero xs k h = absurd (omega arith)
bytes_of-take (suc n) [] k h = refl
bytes_of-take (suc n) (x ∷ xs) zero h = refl
bytes_of-take (suc n) (x ∷ xs) (suc k) h = bytes_of-take n xs k (omega arith)

bytes_of-drop : (n : ℕ) (xs : List ℕ) (k : ℕ) → bytes_of (drop n xs) k ≡ bytes_of xs (n + k)
bytes_of-drop zero xs k = ap (bytes_of xs) (omega arith)
bytes_of-drop (suc n) [] k = refl
bytes_of-drop (suc n) (x ∷ xs) k =
    let e : suc n + k ≡ suc (n + k) = omega arith in rw e (bytes_of-drop n xs k)

-- `memcpy` inside of the buffer ends, in a buffer of the same size.
pub write_bytes-ok :
    (buf : List ℕ) (i : ℕ) (bs : List ℕ)
    → i + length bs ≤ length buf
    → (buf' : List ℕ) × (write_bytes buf i bs ≡ ok buf') × (length buf' ≡ length buf)
unfolding write_bytes
write_bytes-ok buf i bs h =
    let inside : leb (i + length bs) (length buf) ≡ true = ground arith in
    (overwrite buf i bs, rw inside refl, length-overwrite buf i bs)

-- A buffer in which `n` bytes were moved to the front.
pub record Moved (buf : List ℕ) (dst src n : ℕ) (buf' : List ℕ) : Type 0 where
  pub size : length buf' ≡ length buf
  pub before : (j : ℕ) → j < dst → bytes_of buf' j ≡ bytes_of buf j
  pub inside : (k : ℕ) → k < n → bytes_of buf' (dst + k) ≡ bytes_of buf (src + k)

pub move_bytes-ok :
    (buf : List ℕ) (dst src n : ℕ)
    → dst ≤ src
    → src + n ≤ length buf
    → (buf' : List ℕ) × (move_bytes buf dst src n ≡ ok buf') × Moved buf dst src n buf'
unfolding move_bytes write_bytes
move_bytes-ok buf dst src n front fits =
    let moved = take n (drop src buf) in
    let size : length moved ≡ n =
      omega (arith, length-take n (drop src buf), length-drop src buf) in
    let fits' : leb (src + n) (length buf) ≡ true = ground arith in
    let fits'' : leb (dst + length moved) (length buf) ≡ true =
      let room : dst + length moved ≤ length buf = omega (arith, size) in ground (arith, room) in
    (
      overwrite buf dst moved,
      rw fits' (rw fits'' refl),
      record {
        size = length-overwrite buf dst moved;
        before = overwrite_before buf dst moved;
        inside = λ k h.
            overwrite_inside buf dst moved k (omega (arith, size)) (omega (arith, size))
            ∙ bytes_of-take n (drop src buf) k h
            ∙ bytes_of-drop src buf k;
      },
    )
