-- ===== src/Record/Jhash/Reversal.antt =====
-- About the macro `__jhash_mix` of nm_jhash.c, and its steps backwards.
use vsecplat.Common.{ℕ, ◌^◌, ◌<◌, ◌≡◌, refl, ◌∙◌, ap, arith}
use native.Mathlib.Nat.{div-le_self}
use vsecplat.Common.{bit_xor, bit_xor_cancel, bit_xor-lt, add32, sub32, u32, ◌<<<◌, ◌>>>◌}
use vsecplat.Record.Jhash.{Words, mix_a, mix_b, mix_c, jhash_mix}

-- The words are `uint32_t`.
pub record IsWords (w : Words) : Type 0 where
  pub fits_a : w.a < 2 ^ 32
  pub fits_b : w.b < 2 ^ 32
  pub fits_c : w.c < 2 ^ 32

unmix_a : ℕ → Words → Words
unmix_a r w = record w { a = add32 (add32 (bit_xor w.a (w.c >>> r)) w.c) w.b }

unmix_b : ℕ → Words → Words
unmix_b r w = record w { b = add32 (add32 (bit_xor w.b (u32 (w.a <<< r))) w.a) w.c }

unmix_c : ℕ → Words → Words
unmix_c r w = record w { c = add32 (add32 (bit_xor w.c (w.b >>> r)) w.b) w.a }

-- Two subtractions and an exclusive or are undone by it and two additions.
undo :
    (x y z k : ℕ)
    → x < 2 ^ 32
    → y < 2 ^ 32
    → z < 2 ^ 32
    → add32 (add32 (bit_xor (bit_xor (sub32 (sub32 x y) z) k) k) z) y ≡ x
undo x y z k p q r = rw (bit_xor_cancel (sub32 (sub32 x y) z) k) (omega arith)

mixed-lt : (x y z k : ℕ) → k < 2 ^ 32 → bit_xor (sub32 (sub32 x y) z) k < 2 ^ 32
mixed-lt x y z k h = bit_xor-lt 32 _ k (omega arith) h

shifted-lt : (x r : ℕ) → x < 2 ^ 32 → x >>> r < 2 ^ 32
shifted-lt x r h = omega (arith, div-le_self x (2 ^ r))

module _ (r : ℕ) (w : Words) (fits : IsWords w) where
  mix_a-IsWords : IsWords (mix_a r w)
  unfolding mix_a
  mix_a-IsWords = record {
    fits_a = mixed-lt w.a w.b w.c (w.c >>> r) (shifted-lt w.c r fits.fits_c);
    fits_b = fits.fits_b;
    fits_c = fits.fits_c;
  }

  mix_b-IsWords : IsWords (mix_b r w)
  unfolding mix_b
  mix_b-IsWords = record {
    fits_a = fits.fits_a;
    fits_b = mixed-lt w.b w.c w.a (u32 (w.a <<< r)) (omega arith);
    fits_c = fits.fits_c;
  }

  mix_c-IsWords : IsWords (mix_c r w)
  unfolding mix_c
  mix_c-IsWords = record {
    fits_a = fits.fits_a;
    fits_b = fits.fits_b;
    fits_c = mixed-lt w.c w.a w.b (w.b >>> r) (shifted-lt w.b r fits.fits_b);
  }

  unmix_a-mix_a : unmix_a r (mix_a r w) ≡ w
  unfolding unmix_a mix_a
  unmix_a-mix_a =
      ap (λ x. record w { a = x })
        (undo w.a w.b w.c (w.c >>> r) fits.fits_a fits.fits_b fits.fits_c)

  unmix_b-mix_b : unmix_b r (mix_b r w) ≡ w
  unfolding unmix_b mix_b
  unmix_b-mix_b =
      ap (λ x. record w { b = x })
        (undo w.b w.c w.a (u32 (w.a <<< r)) fits.fits_b fits.fits_c fits.fits_a)

  unmix_c-mix_c : unmix_c r (mix_c r w) ≡ w
  unfolding unmix_c mix_c
  unmix_c-mix_c =
      ap (λ x. record w { c = x })
        (undo w.c w.a w.b (w.b >>> r) fits.fits_c fits.fits_a fits.fits_b)

-- Three lines of the macro, and back.
round : ℕ → ℕ → ℕ → Words → Words
round i j k w = mix_c k (mix_b j (mix_a i w))

unround : ℕ → ℕ → ℕ → Words → Words
unround i j k w = unmix_a i (unmix_b j (unmix_c k w))

module _ (i j k : ℕ) (w : Words) (fits : IsWords w) where
  round-IsWords : IsWords (round i j k w)
  unfolding round
  round-IsWords = mix_c-IsWords k _ (mix_b-IsWords j _ (mix_a-IsWords i w fits))

  unround-round : unround i j k (round i j k w) ≡ w
  unfolding round unround
  unround-round =
      let one = mix_a-IsWords i w fits in
      let two = mix_b-IsWords j (mix_a i w) one in
      ap (λ v. unmix_a i (unmix_b j v)) (unmix_c-mix_c k (mix_b j (mix_a i w)) two)
      ∙ (ap (unmix_a i) (unmix_b-mix_b j (mix_a i w) one) ∙ unmix_a-mix_a i w fits)

pub jhash_unmix : Words → Words
jhash_unmix w = unround 13 8 13 (unround 12 16 5 (unround 3 10 15 w))

-- On three 32-bit words the mixing step has an inverse.
pub jhash_unmix-jhash_mix : (w : Words) → IsWords w → jhash_unmix (jhash_mix w) ≡ w
unfolding jhash_unmix
jhash_unmix-jhash_mix w fits =
    let one = round-IsWords 13 8 13 w fits in
    let two = round-IsWords 12 16 5 (round 13 8 13 w) one in
    ap (λ v. unround 13 8 13 (unround 12 16 5 (unround 3 10 15 v))) rounds
    ∙ (ap (λ v. unround 13 8 13 (unround 12 16 5 v))
          (unround-round 3 10 15 (round 12 16 5 (round 13 8 13 w)) two)
        ∙ (ap (unround 13 8 13) (unround-round 12 16 5 (round 13 8 13 w) one)
            ∙ unround-round 13 8 13 w fits))
  where
    rounds : jhash_mix w ≡ round 3 10 15 (round 12 16 5 (round 13 8 13 w))
    rounds = unfold jhash_mix round in refl
