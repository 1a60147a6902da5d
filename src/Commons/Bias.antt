-- ===== src/Commons/Bias.antt =====
-- `bias_for_circuit` and `unbias_from_circuit` are inverse, and the bias carries the signed order of
-- days to the unsigned order that the circuit compares by.
use provii_crypto.Prelude.{ℕ, suc, ◌+◌, ◌-◌, ◌^◌, ◌≤◌, ◌<◌, ◌≡◌, ◌↔◌, ◌⊎◌, inl, inr, bit_xor, arith}
use native.Mathlib.Decide.{dec_lt}
use provii_crypto.Prelude.Int.{ℤ, pos, negsuc, pos_part, neg_part, IsI32, ◌≤ℤ◌}
use provii_crypto.Prelude.Bits.{bit_xor_set_top, bit_xor_clear_top}
use provii_crypto.Commons.{bias_for_circuit, unbias_from_circuit, sign_bias}

-- The biased word is the day count plus 2^31.
pub bias_parts : (d : ℤ) → IsI32 d → bias_for_circuit d + neg_part d ≡ sign_bias + pos_part d
unfolding bias_for_circuit
bias_parts (pos n) h = omega (arith, bit_xor_set_top 31 n (omega arith))
bias_parts (negsuc n) h =
    omega (arith, bit_xor_clear_top 31 (2 ^ 32 - suc n) (omega arith) (omega arith))

pub bias-lt : (d : ℤ) → IsI32 d → bias_for_circuit d < 2 ^ 32
bias-lt (pos n) h = omega (arith, bias_parts (pos n) h)
bias-lt (negsuc n) h = omega (arith, bias_parts (negsuc n) h)

-- On `i32` days the bias keeps and reflects the order: the biased words compare as the days do.
pub bias_order :
    (a b : ℤ) → IsI32 a → IsI32 b → (bias_for_circuit a ≤ bias_for_circuit b) ↔ (a ≤ℤ b)
bias_order a b ha hb = (
  λ h. omega (arith, bias_parts a ha, bias_parts b hb),
  λ h. omega (arith, bias_parts a ha, bias_parts b hb),
)

flip_top :
    (w : ℕ)
    → w < 2 ^ 32
    → ((w < 2 ^ 31) × (bit_xor w sign_bias ≡ w + 2 ^ 31))
      ⊎ ((2 ^ 31 ≤ w) × (bit_xor w sign_bias + 2 ^ 31 ≡ w))
flip_top w h = elim (dec_lt w (2 ^ 31)) [
  | yes p ↦ inl (p, bit_xor_set_top 31 w p)
  | no p ↦ inr (omega arith, bit_xor_clear_top 31 w (omega arith) h)
]

unbias_parts :
    (w : ℕ)
    → w < 2 ^ 32
    → IsI32 (unbias_from_circuit w)
      × (w + neg_part (unbias_from_circuit w) ≡ sign_bias + pos_part (unbias_from_circuit w))
unfolding unbias_from_circuit
unbias_parts w h = ground (arith, flip_top w h)

pub unbias-IsI32 : (w : ℕ) → w < 2 ^ 32 → IsI32 (unbias_from_circuit w)
unbias-IsI32 w h = (unbias_parts w h).0

eq_of_parts : (a b : ℤ) → pos_part a + neg_part b ≡ pos_part b + neg_part a → a ≡ b
eq_of_parts a b h = ground arith

-- On `i32` days removing the bias undoes adding it, and on 32-bit words adding it undoes
-- removing it.
pub bias-unbias :
    ((d : ℤ) → IsI32 d → unbias_from_circuit (bias_for_circuit d) ≡ d)
    × ((w : ℕ) → w < 2 ^ 32 → bias_for_circuit (unbias_from_circuit w) ≡ w)
bias-unbias = (
  λ d h.
      let (q, e) = unbias_parts (bias_for_circuit d) (bias-lt d h) in
      eq_of_parts (unbias_from_circuit (bias_for_circuit d)) d (omega (arith, bias_parts d h)),
  λ w h. let (q, e) = unbias_parts w h in omega (arith, bias_parts (unbias_from_circuit w) q),
)
