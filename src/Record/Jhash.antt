-- ===== src/Record/Jhash.antt =====
-- The hash of a flow: userspace/lib/nm_jhash.c.
pub mod Reversal
use vsecplat.Common.{
  ℕ, ◌+◌, ◌-◌, ◌*◌, ◌/◌, ◌%◌, ◌^◌, ◌≡◌, refl, bit_xor, add32, sub32, u32, ◌<<<◌, ◌>>>◌,
}

pub record Words : Type 0 where
  pub a : ℕ
  pub b : ℕ
  pub c : ℕ

-- `a -= b; a -= c; a ^= (c >> r);` for each of the three words in turn, as the macro
-- `__jhash_mix` writes it: the second word of a line is shifted to the left.
unfoldable pub mix_a : ℕ → Words → Words
mix_a r w = record w { a = bit_xor (sub32 (sub32 w.a w.b) w.c) (w.c >>> r) }

unfoldable pub mix_b : ℕ → Words → Words
mix_b r w = record w { b = bit_xor (sub32 (sub32 w.b w.c) w.a) (u32 (w.a <<< r)) }

unfoldable pub mix_c : ℕ → Words → Words
mix_c r w = record w { c = bit_xor (sub32 (sub32 w.c w.a) w.b) (w.b >>> r) }

unfoldable pub jhash_mix : Words → Words
unfolding mix_a mix_b mix_c
jhash_mix w =
    mix_c 15 (mix_b 10 (mix_a 3 (mix_c 5 (mix_b 16 (mix_a 12 (mix_c 13 (mix_b 8 (mix_a 13 w))))))))

abbrev pub golden_ratio : ℕ
golden_ratio = 0x9e3779b9

unfoldable pub jhash_3words : ℕ → ℕ → ℕ → ℕ → ℕ
unfolding jhash_mix
jhash_3words a b c initval =
    (jhash_mix
      (record { a = add32 a golden_ratio; b = add32 b golden_ratio; c = add32 c initval })).c
