-- ===== src/PublicInputs/Tests.antt =====
-- A packing that satisfies the documented laws, and the theorems at concrete values.
use provii_crypto.Prelude.{
  ℕ, zero, suc, ◌+◌, ◌-◌, ◌/◌, ◌≡◌, refl, ap, arith, Bool, true, List, [], ◌∷◌, length, replicate,
  cons_inj,
}
use provii_crypto.Prelude.Int.{negsuc}
use provii_crypto.PublicInputs.{Multipack, PublicValues}
use provii_crypto.PublicInputs.Assembly.{IsTyped, assemble_public_inputs_inj}

-- The first scalar holds all bits; the others fill up the number.
abbrev pub pack_bits : List Bool → List (List Bool)
pack_bits [] = []
pack_bits (b ∷ bs) = (b ∷ bs) ∷ replicate ((length (b ∷ bs) + 253) / 254 - 1) []

length-replicate : (n : ℕ) (x : List Bool) → length (replicate n x) ≡ n
length-replicate zero x = refl
length-replicate (suc n) x = ap suc (length-replicate n x)

pub length-pack_bits : (bs : List Bool) → length (pack_bits bs) ≡ (length bs + 253) / 254
length-pack_bits [] = omega arith
length-pack_bits (b ∷ bs) = omega (arith, length-replicate ((length (b ∷ bs) + 253) / 254 - 1) [])

pub pack_bits_inj :
    (bs cs : List Bool) → length bs ≡ length cs → pack_bits bs ≡ pack_bits cs → bs ≡ cs
pack_bits_inj [] [] l e = refl
pack_bits_inj [] (c ∷ cs) l e = absurd (omega arith)
pack_bits_inj (b ∷ bs) [] l e = absurd (omega arith)
pack_bits_inj (b ∷ bs) (c ∷ cs) l e = (cons_inj e).0

abbrev pub packing : Multipack
packing = record {
  Scalar = List Bool;
  compute_multipacking = pack_bits;
  length-compute_multipacking = length-pack_bits;
  compute_multipacking_inj = pack_bits_inj;
}

abbrev pub values : PublicValues
values = record {
  direction = true;
  cutoff_days = negsuc 3651;
  rp_hash = replicate 32 170;
  issuer_vk_bytes = replicate 32 85;
  cred_nullifier = replicate 32 7;
}

pub values-IsTyped : IsTyped values
values-IsTyped = omega arith

assemble_public_inputs_inj_example : values ≡ values
assemble_public_inputs_inj_example =
    assemble_public_inputs_inj packing values values values-IsTyped values-IsTyped refl
