-- ===== src/Common/Bits.antt =====
-- Laws of `&`, `|`, `^` and `~` at variables, from their lowest digit upwards.
use Prim.Native.Nat.{ℕ, zero, suc, ◌+◌, ◌-◌, ◌*◌, ◌/◌, ◌%◌, ◌^◌, ◌≤◌, ◌<◌, min, max}
use Prim.Native.Nat.{bit_and, bit_or, bit_xor, differ, digits}
use Prim.Native.Nat.{bit_and-bitwise, bit_or-bitwise, bit_xor-bitwise}
use mathlib.Core.Path.{◌≡◌, refl}
use native.Mathlib.Nat.{pow-suc}
use native.Mathlib.Omega.{arith}
use vsecplat.Common.Word.{not32}

-- Any count of digits that covers the first number gives the same result.
digits_enough :
    (z : ℕ → ℕ) (f : ℕ → ℕ → ℕ) (n m a b : ℕ) → a ≤ n → a ≤ m → digits z f n a b ≡ digits z f m a b
digits_enough z f n m zero b p q = zero_case n m
  where
    zero_case : (n m : ℕ) → digits z f n zero b ≡ digits z f m zero b
    zero_case zero zero = refl
    zero_case zero (suc m) = refl
    zero_case (suc n) zero = refl
    zero_case (suc n) (suc m) = refl
digits_enough z f zero m (suc a) b p q = absurd (omega arith)
digits_enough z f (suc n) zero (suc a) b p q = absurd (omega arith)
digits_enough z f (suc n) (suc m) (suc a) b p q =
    rw (digits_enough z f n m (suc a / 2) (b / 2) (omega arith) (omega arith))

-- The lowest digit, split off; a number without digits has the result `z y`.
digits_split :
    (z : ℕ → ℕ) (f : ℕ → ℕ → ℕ) (x y : ℕ)
    → digits z f (suc x) (suc x) y
      ≡ digits z f (suc x / 2) (suc x / 2) (y / 2) * 2 + f (suc x % 2) (y % 2)
digits_split z f x y =
    rw (digits_enough z f x (suc x / 2) (suc x / 2) (y / 2) (omega arith) (omega arith))

pub low_and : (x y : ℕ) → bit_and x y ≡ min (x % 2) (y % 2) + bit_and (x / 2) (y / 2) * 2
low_and zero y = omega (arith, bit_and-bitwise 0 (y / 2), bit_and-bitwise 0 y)
low_and (suc x) y =
    let halves = bit_and-bitwise (suc x / 2) (y / 2) in
    omega (arith, halves, digits_split (λ d. 0) min x y, bit_and-bitwise (suc x) y)

pub low_or : (x y : ℕ) → bit_or x y ≡ max (x % 2) (y % 2) + bit_or (x / 2) (y / 2) * 2
low_or zero y = omega (arith, bit_or-bitwise 0 (y / 2), bit_or-bitwise 0 y)
low_or (suc x) y =
    let halves = bit_or-bitwise (suc x / 2) (y / 2) in
    omega (arith, halves, digits_split (λ d. d) max x y, bit_or-bitwise (suc x) y)

pub low_xor : (x y : ℕ) → bit_xor x y ≡ differ (x % 2) (y % 2) + bit_xor (x / 2) (y / 2) * 2
low_xor zero y = omega (arith, bit_xor-bitwise 0 (y / 2), bit_xor-bitwise 0 y)
low_xor (suc x) y =
    let halves = bit_xor-bitwise (suc x / 2) (y / 2) in
    omega (arith, halves, digits_split (λ d. d) differ x y, bit_xor-bitwise (suc x) y)

differ-lt : (a b : ℕ) → a < 2 → b < 2 → differ a b < 2
differ-lt zero b h k = k
differ-lt (suc a) zero h k = h
differ-lt (suc a) (suc b) h k = ground (arith, differ-lt a b)

differ_cancel : (a b : ℕ) → a < 2 → b < 2 → differ (differ a b) b ≡ a
differ_cancel zero zero h k = refl
differ_cancel zero (suc zero) h k = refl
differ_cancel (suc zero) zero h k = refl
differ_cancel (suc zero) (suc zero) h k = refl
differ_cancel zero (suc (suc b)) h k = absurd (omega arith)
differ_cancel (suc (suc a)) b h k = absurd (omega arith)
differ_cancel (suc zero) (suc (suc b)) h k = absurd (omega arith)

-- The halves and the parity of an exclusive or.
xor_parts :
    (a b : ℕ)
    → (bit_xor a b / 2 ≡ bit_xor (a / 2) (b / 2)) × (bit_xor a b % 2 ≡ differ (a % 2) (b % 2))
xor_parts a b =
    let small = differ-lt (a % 2) (b % 2) (omega arith) (omega arith) in
    (omega (arith, low_xor a b), omega (arith, low_xor a b))

xor_cancel_upto : (k a b : ℕ) → a ≤ k → b ≤ k → bit_xor (bit_xor a b) b ≡ a
xor_cancel_upto k zero zero p q = refl
xor_cancel_upto zero (suc a) b p q = absurd (omega arith)
xor_cancel_upto zero zero (suc b) p q = absurd (omega arith)
xor_cancel_upto (suc k) a b p q =
    let ih = xor_cancel_upto k (a / 2) (b / 2) (omega arith) (omega arith) in
    let parts = xor_parts a b in
    rw
      (
        low_xor (bit_xor a b) b,
        parts.0,
        parts.1,
        ih,
        differ_cancel (a % 2) (b % 2) (omega arith) (omega arith),
      )
      (omega arith)

pub bit_xor_cancel : (a b : ℕ) → bit_xor (bit_xor a b) b ≡ a
bit_xor_cancel a b = xor_cancel_upto (max a b) a b (omega arith) (omega arith)

pub bit_xor-lt : (k a b : ℕ) → a < 2 ^ k → b < 2 ^ k → bit_xor a b < 2 ^ k
bit_xor-lt zero zero zero p q = p
bit_xor-lt zero (suc a) b p q = absurd (omega arith)
bit_xor-lt zero zero (suc b) p q = absurd (omega arith)
bit_xor-lt (suc k) a b p q = omega (
  arith,
  low_xor a b,
  pow-suc 2 k,
  differ-lt (a % 2) (b % 2) (omega arith) (omega arith),
  bit_xor-lt k (a / 2) (b / 2) (omega (arith, pow-suc 2 k)) (omega (arith, pow-suc 2 k)),
)

and_self_upto : (k a : ℕ) → a ≤ k → bit_and a a ≡ a
and_self_upto k zero p = refl
and_self_upto zero (suc a) p = absurd (omega arith)
and_self_upto (suc k) (suc a) p =
    omega (arith, low_and (suc a) (suc a), and_self_upto k (suc a / 2) (omega arith))

pub bit_and_self : (a : ℕ) → bit_and a a ≡ a
bit_and_self a = and_self_upto a a (omega arith)

-- `~x` on `k` bits, and its digits.
complement : ℕ → ℕ → ℕ
complement k x = 2 ^ k - 1 - x

complement_parts :
    (k x : ℕ)
    → x < 2 ^ suc k
    → (complement (suc k) x / 2 ≡ complement k (x / 2)) × (complement (suc k) x % 2 ≡ 1 - x % 2)
unfolding complement
complement_parts k x h = (omega (arith, pow-suc 2 k), omega (arith, pow-suc 2 k))

-- The digits of a mask test: where the digits under the mask agree, the guard passes.
digit_guard : (m l i : ℕ) → l < 2 → i < 2 → min m l ≡ min i l → min (max m (1 - l)) i ≡ i
digit_guard m l i hl hi e = omega arith

and_zero_upto : (k a : ℕ) → a ≤ k → bit_and a 0 ≡ 0
and_zero_upto k zero p = refl
and_zero_upto zero (suc a) p = absurd (omega arith)
and_zero_upto (suc k) (suc a) p =
    omega (arith, low_and (suc a) 0, and_zero_upto k (suc a / 2) (omega arith))

pub bit_and-zero : (a : ℕ) → bit_and a 0 ≡ 0
bit_and-zero a = and_zero_upto a a (omega arith)

pub and_parts :
    (a b : ℕ)
    → (bit_and a b / 2 ≡ bit_and (a / 2) (b / 2)) × (bit_and a b % 2 ≡ min (a % 2) (b % 2))
and_parts a b = (omega (arith, low_and a b), omega (arith, low_and a b))

pub or_parts :
    (a b : ℕ) → (bit_or a b / 2 ≡ bit_or (a / 2) (b / 2)) × (bit_or a b % 2 ≡ max (a % 2) (b % 2))
or_parts a b = (omega (arith, low_or a b), omega (arith, low_or a b))

mask_digits :
    (k m l i : ℕ)
    → i < 2 ^ k
    → l < 2 ^ k
    → bit_and m l ≡ bit_and i l
    → bit_and (bit_or m (complement k l)) i ≡ i
mask_digits zero m l zero p q e = bit_and-zero _
mask_digits zero m l (suc i) p q e = absurd (omega arith)
mask_digits (suc k) m l i p q e =
    let c = complement_parts k l q in
    let o = or_parts m (complement (suc k) l) in
    let same : bit_and (m / 2) (l / 2) ≡ bit_and (i / 2) (l / 2) =
      omega (arith, and_parts m l, and_parts i l) in
    let ih =
      mask_digits k (m / 2) (l / 2) (i / 2) (omega (arith, pow-suc 2 k))
        (omega (arith, pow-suc 2 k)) same in
    let guard =
      digit_guard (m % 2) (l % 2) (i % 2) (omega arith) (omega arith)
        (omega (arith, and_parts m l, and_parts i l)) in
    rw (low_and (bit_or m (complement (suc k) l)) i, o.0, o.1, c.0, c.1, ih, guard) (omega arith)

-- An address that agrees with `m` under the mask `l` passes the test against `m | ~l`.
pub mask_guard :
    (m l i : ℕ)
    → i < 2 ^ 32
    → l < 2 ^ 32
    → bit_and m l ≡ bit_and i l
    → bit_and (bit_or m (not32 l)) i ≡ i
unfolding complement
mask_guard m l i p q e = mask_digits 32 m l i p q e

pub zero-bit_or : (a : ℕ) → bit_or 0 a ≡ a
zero-bit_or a = bit_or-bitwise 0 a

pub zero-bit_and : (a : ℕ) → bit_and 0 a ≡ 0
zero-bit_and a = bit_and-bitwise 0 a
