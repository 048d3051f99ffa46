-- ===== src/Common/Word.antt =====
-- The fixed widths of C as native numbers, and byte order on the little-endian target.
use Prim.Native.Nat.{ℕ, ◌+◌, ◌-◌, ◌*◌, ◌/◌, ◌%◌, ◌^◌}

abbrev pub u8 : ℕ → ℕ
u8 n = n % 2 ^ 8

abbrev pub u16 : ℕ → ℕ
u16 n = n % 2 ^ 16

abbrev pub u32 : ℕ → ℕ
u32 n = n % 2 ^ 32

infixl 75 ◌<<<◌ ◌>>>◌
abbrev pub ◌<<<◌ : ℕ → ℕ → ℕ
x <<< k = x * 2 ^ k

abbrev pub ◌>>>◌ : ℕ → ℕ → ℕ
x >>> k = x / 2 ^ k

-- `uint32_t` addition and subtraction; `-` on ℕ stops at 0, so the modulus is added first.
abbrev pub add32 : ℕ → ℕ → ℕ
add32 a b = (a + b) % 2 ^ 32

abbrev pub sub32 : ℕ → ℕ → ℕ
sub32 a b = (a + 2 ^ 32 - b) % 2 ^ 32

-- `~x` on a `uint32_t`.
abbrev pub not32 : ℕ → ℕ
not32 x = 2 ^ 32 - 1 - x

-- `ntohs` and `ntohl` swap the bytes.
unfoldable pub ntohs : ℕ → ℕ
ntohs x = x % 2 ^ 8 * 2 ^ 8 + x / 2 ^ 8 % 2 ^ 8

unfoldable pub ntohl : ℕ → ℕ
ntohl x =
    x % 2 ^ 8 * 2 ^ 24
    + x / 2 ^ 8 % 2 ^ 8 * 2 ^ 16
    + x / 2 ^ 16 % 2 ^ 8 * 2 ^ 8
    + x / 2 ^ 24 % 2 ^ 8
