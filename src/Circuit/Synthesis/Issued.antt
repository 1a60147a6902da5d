-- ===== src/Circuit/Synthesis/Issued.antt =====
-- A witness that is an issued credential for a date that qualifies.
use provii_crypto.Prelude.{
  ℕ, zero, suc, ◌≡◌, refl, ap, arith, true, false, List, [], ◌∷◌, ◌++◌, length, take, drop,
}
use provii_crypto.Prelude.Int.{IsI32}
use provii_crypto.Prelude.Bytes.{}
use provii_crypto.Commons.{redjubjub_personalization}
use provii_crypto.Commit
use provii_crypto.Commit.{note_commitment}
use provii_crypto.Commit.Binding.{opening}
use provii_crypto.Credential
use provii_crypto.Credential.{CredMsgV2, prehash}
use provii_crypto.Credential.Layout.{layout}
use provii_crypto.PublicInputs.{PublicValues, bits_le_from_bytes}
use provii_crypto.Circuit.Alloc.{}
use provii_crypto.Circuit.Alloc.Honest.{}
use provii_crypto.Circuit.Age.{AgeWitness}
use provii_crypto.Circuit.Age.Threshold.{Qualifies}
use provii_crypto.Circuit.Runs.{}
use provii_crypto.Circuit.Curve.{Curve, pedersen_hash}
use provii_crypto.Circuit.Pedersen.{blake2s_no_personalization}
use provii_crypto.Circuit.Pedersen.Honest.{}
use provii_crypto.Circuit.Redjubjub.{}
use provii_crypto.Circuit.Redjubjub.Sound.{Equation}
use provii_crypto.Circuit.Redjubjub.Honest.{}
use provii_crypto.Circuit.Synthesis.{}
use provii_crypto.Circuit.Synthesis.Honest.{}

-- The message of a witness.
abbrev pub message_of : AgeWitness → CredMsgV2
message_of w = record {
  v = w.v;
  kid = w.kid;
  c = w.c_bytes;
  iat = w.iat;
  exp = w.exp;
  schema = w.schema;
}

-- The witness is a credential that was issued for the date: its commitment opens to the date, the
-- signature is one on the message under the named key, and the date qualifies.
pub record Issued (C : Curve) (p : PublicValues) (w : AgeWitness) : Type 0 where
  pub issuer_vk : C.Point
  pub r_point : C.Point
  pub s_bytes : List ℕ
  pub message-IsTyped : Credential.IsTyped (message_of w)
  pub length-kid : length w.kid ≡ 14
  pub length-schema : length w.schema ≡ 12
  pub length-r_bits : length w.r_bits ≡ 128
  pub dob_days-IsI32 : IsI32 w.dob_days
  pub issuer_vk_is : w.issuer_vk_bytes ≡ C.point_to_bytes issuer_vk
  pub issuer_vk_not_small : C.is_small_order issuer_vk ≡ false
  pub r_not_small : C.is_small_order r_point ≡ false
  pub s_is_scalar : C.is_scalar s_bytes ≡ true
  pub length-s_bytes : length s_bytes ≡ 32
  pub sig_is : w.sig_rj_bytes ≡ C.point_to_bytes r_point ++ s_bytes
  pub c_opens : w.c_bytes ≡ pedersen_hash C note_commitment (opening w.dob_days w.r_bits)
  pub public_vk_is : p.issuer_vk_bytes ≡ w.issuer_vk_bytes
  pub cred_nullifier_is : p.cred_nullifier ≡ Commit.pedersen_nullifier (pedersen_hash C) w.c_bytes
  pub qualifies : Qualifies p.direction p.cutoff_days w.dob_days
  pub equation :
      Equation C r_point
        (bits_le_from_bytes s_bytes)
        issuer_vk
        (C.blake2s blake2s_no_personalization (layout (message_of w)))
        redjubjub_personalization

pub take-front : (n : ℕ) (xs ys : List ℕ) → length xs ≡ n → take n (xs ++ ys) ≡ xs
take-front zero [] ys e = refl
take-front zero (x ∷ xs) ys e = absurd (omega arith)
take-front (suc n) [] ys e = absurd (omega arith)
take-front (suc n) (x ∷ xs) ys e = ap (λ t. x ∷ t) (take-front n xs ys (omega arith))

pub drop-front : (n : ℕ) (xs ys : List ℕ) → length xs ≡ n → drop n (xs ++ ys) ≡ ys
drop-front zero [] ys e = refl
drop-front zero (x ∷ xs) ys e = absurd (omega arith)
drop-front (suc n) [] ys e = absurd (omega arith)
drop-front (suc n) (x ∷ xs) ys e = drop-front n xs ys (omega arith)
