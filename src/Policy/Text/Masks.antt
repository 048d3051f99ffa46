-- ===== src/Policy/Text/Masks.antt =====
-- About `masklen2ip` of vsecplat_policy.c.
use vsecplat.Common.{ℕ, zero, suc, ◌-◌, ◌/◌, ◌%◌, ◌^◌, ◌≤◌, ◌<◌, Bool, true, false}
use vsecplat.Common.{
  each_below, each_below_lem, ◌≡◌, refl, arith, ◌==◌, ==_iff, ntohl, [], ◌∷◌, ltb, pos,
}
use vsecplat.Common.{if◌then◌else◌}
use native.Mathlib.Decide.{dec_lt}
use vsecplat.Common.Run.{Run, ok, fault}
use vsecplat.Policy.Text.{masklen2ip, fill_ones}

-- The mask of `n` leading ones, in network byte order.
unfoldable pub netmask : ℕ → ℕ
netmask n = ntohl (2 ^ 32 - 2 ^ (32 - n))

abbrev returns : Run ℕ → ℕ → Bool
returns (ok m) n = m == n
returns fault n = false

returns_lem : (r : Run ℕ) (n : ℕ) → returns r n ≡ true → r ≡ ok n
returns_lem (ok m) n h = ap_ok
  where
    ap_ok : ok m ≡ ok n
    ap_ok = ground (arith, ==_iff m n)
returns_lem fault n h = cc

mask_table : each_below (λ n. returns (masklen2ip (pos n)) (netmask n)) 33 ≡ true
unfolding each_below masklen2ip netmask ntohl
mask_table = refl

fits_table : each_below (λ n. ltb (netmask n) (2 ^ 32)) 33 ≡ true
unfolding each_below netmask ntohl
fits_table = refl

pub netmask-lt : (n : ℕ) → n ≤ 32 → netmask n < 2 ^ 32
netmask-lt n h =
    ground (arith, each_below_lem (λ n. ltb (netmask n) (2 ^ 32)) 33 n (omega arith) fits_table)

pub masklen2ip-netmask : (n : ℕ) → n ≤ 32 → masklen2ip (pos n) ≡ ok (netmask n)
masklen2ip-netmask n h =
    returns_lem _ _
      (each_below_lem (λ n. returns (masklen2ip (pos n)) (netmask n)) 33 n (omega arith) mask_table)

-- Five bytes of ones do not fit.
fill_ones_far : (k : ℕ) → fill_ones (suc (suc (suc (suc (suc k))))) 0 (0 ∷ 0 ∷ 0 ∷ 0 ∷ []) ≡ fault
unfolding fill_ones
fill_ones_far k = refl

fill_ones-fault : (k : ℕ) → 4 < k → fill_ones k 0 (0 ∷ 0 ∷ 0 ∷ 0 ∷ []) ≡ fault
fill_ones-fault (suc (suc (suc (suc (suc k))))) h = fill_ones_far k
fill_ones-fault zero h = absurd (omega arith)
fill_ones-fault (suc zero) h = absurd (omega arith)
fill_ones-fault (suc (suc zero)) h = absurd (omega arith)
fill_ones-fault (suc (suc (suc zero))) h = absurd (omega arith)
fill_ones-fault (suc (suc (suc (suc zero)))) h = absurd (omega arith)

just_behind : (n : ℕ) → n / 8 ≡ 4 → (n % 8 == 0) ≡ false → masklen2ip (pos n) ≡ fault
unfolding masklen2ip
just_behind n e r = rw (e, r)

far_behind : (n : ℕ) → 4 < n / 8 → masklen2ip (pos n) ≡ fault
unfolding masklen2ip
far_behind n h = rw (fill_ones-fault (n / 8) h)

too_long : (n : ℕ) → 32 < n → masklen2ip (pos n) ≡ fault
too_long n h = elim (dec_lt 4 (n / 8)) [
  | yes far ↦ far_behind n far
  | no near ↦ just_behind n (omega arith) (ground arith)
]

-- A prefix length up to 32 gives the mask with that many leading ones; a longer one writes
-- behind the end of the address.
pub masklen2ip_lem : (n : ℕ) → masklen2ip (pos n) ≡ (if ltb 32 n then fault else ok (netmask n))
masklen2ip_lem n = ground (arith, masklen2ip-netmask n, too_long n)
