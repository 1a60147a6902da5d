-- ===== src/Circuit/Synthesis/Statement.antt =====
-- The statement that a proof shows of the verifier's values, and the message and the day that the
-- wires spell.
use provii_crypto.Prelude.{
  ℕ, ◌^◌, ◌<◌, ◌≡◌, refl, sym, ap, ap₂, ◌∙◌, arith, Bool, false, List, length, ok, All,
}
use provii_crypto.Prelude.Int.{ℤ, IsI32}
use provii_crypto.Prelude.Bytes.{IsByte, bits_from, value}
use provii_crypto.Prelude.Decode.{
  value-lt, bits_from-value, byte_bits-value, be_value, to_be_bytes-be_value,
}
use provii_crypto.Commons.{unbias_from_circuit, redjubjub_personalization}
use provii_crypto.Commons.Bias.{bias-unbias, unbias-IsI32}
use provii_crypto.Commit
use provii_crypto.Commit.{note_commitment}
use provii_crypto.Commit.Binding.{opening}
use provii_crypto.Credential
use provii_crypto.Credential.{CredMsgV2, prehash}
use provii_crypto.PublicInputs.{PublicValues, bits_le_from_bytes}
use provii_crypto.Circuit.Backend.{Bellman, bits}
use provii_crypto.Circuit.Prehash.Parity
use provii_crypto.Circuit.Prehash.Parity.{length-bits, build_prehash_bits-prehash}
use provii_crypto.Circuit.Age.Threshold.{day_bits, Qualifies}
use provii_crypto.Circuit.Accepts.{}
use provii_crypto.Circuit.Curve.{Curve, Sapling, pedersen_hash}
use provii_crypto.Circuit.Pedersen.{blake2s_no_personalization}
use provii_crypto.Circuit.Pedersen.Parity.{}
use provii_crypto.Circuit.Redjubjub.Sound.{Equation}
use provii_crypto.Circuit.Synthesis.{WitnessWires}
use provii_crypto.Circuit.Synthesis.Words.{spell}
use provii_crypto.Circuit.Synthesis.Public.{}
use provii_crypto.Circuit.Synthesis.Witness.{IsAllocated}

-- What a proof shows of the values that the verifier supplies: an issuer's key signed a credential
-- whose commitment opens to a qualifying date of birth and whose nullifier is the supplied one.
pub record Statement (C : Curve) (p : PublicValues) : Type 0 where
  pub message : CredMsgV2
  pub dob_days : ℤ
  pub r_bits : List Bool
  pub issuer_vk : C.Point
  pub r_point : C.Point
  pub s_bits : List Bool
  pub signed : List ℕ
  pub message-IsTyped : Credential.IsTyped message
  pub length-kid : length message.kid ≡ 14
  pub length-schema : length message.schema ≡ 12
  pub dob_days-IsI32 : IsI32 dob_days
  pub length-r_bits : length r_bits ≡ 128
  pub c_opens : message.c ≡ pedersen_hash C note_commitment (opening dob_days r_bits)
  pub cred_nullifier_is : p.cred_nullifier ≡ Commit.pedersen_nullifier (pedersen_hash C) message.c
  pub qualifies : Qualifies p.direction p.cutoff_days dob_days
  pub issuer_vk_is : C.point_to_bytes issuer_vk ≡ p.issuer_vk_bytes
  pub issuer_vk_not_small : C.is_small_order issuer_vk ≡ false
  pub signed_is : prehash message ≡ ok signed
  pub equation :
      Equation C r_point s_bits issuer_vk
        (C.blake2s blake2s_no_personalization signed)
        redjubjub_personalization

module _ {B : Bellman} {C : Curve} (S : Sapling B C) where
  -- The message that the wires spell, around the commitment that was computed.
  pub record Spelling (w : WitnessWires S) (c : List ℕ) : Type 0 where
    pub message : CredMsgV2
    pub message-IsTyped : Credential.IsTyped message
    pub length-kid : length message.kid ≡ 14
    pub length-schema : length message.schema ≡ 12
    pub c_is : message.c ≡ c
    pub carries :
        Parity.Carries message w.v_bits w.kid_bits w.c_bytes_bits w.iat_bits w.exp_bits
          w.schema_bits

  pub spelling :
      (w : WitnessWires S) (c : List ℕ)
      → IsAllocated S w
      → All IsByte c
      → length c ≡ 32
      → bits w.c_bytes_bits ≡ bits_le_from_bytes c
      → Spelling w c
  spelling w c a hc lc ec =
      let lv = length-bits w.v_bits ∙ a.v_length in
      let v_small = value-lt (bits w.v_bits) in
      let kid = spell 14 (bits w.kid_bits) (length-bits w.kid_bits ∙ a.kid_length) in
      let schema = spell 12 (bits w.schema_bits) (length-bits w.schema_bits ∙ a.schema_length) in
      let iat = spell 8 (bits w.iat_bits) (length-bits w.iat_bits ∙ a.iat_length) in
      let exp = spell 8 (bits w.exp_bits) (length-bits w.exp_bits ∙ a.exp_length) in
      let (iat_small, iat_is) = to_be_bytes-be_value iat.bytes iat.bytes-IsByte iat.length-bytes in
      let (exp_small, exp_is) = to_be_bytes-be_value exp.bytes exp.bytes-IsByte exp.length-bytes in
      record {
        message = record {
          v = value (bits w.v_bits);
          kid = kid.bytes;
          c = c;
          iat = be_value 0 iat.bytes;
          exp = be_value 0 exp.bytes;
          schema = schema.bytes;
        };
        message-IsTyped = (
          byte_small (bits w.v_bits) lv,
          kid.bytes-IsByte,
          hc,
          lc,
          iat_small,
          exp_small,
          schema.bytes-IsByte,
        );
        length-kid = kid.length-bytes;
        length-schema = schema.length-bytes;
        c_is = refl;
        carries = record {
          v_bits = sym (byte_bits-value (bits w.v_bits) lv);
          kid_bits = kid.bytes_bits;
          c_bits = ec;
          iat_bits = iat.bytes_bits ∙ ap bits_le_from_bytes (sym iat_is);
          exp_bits = exp.bytes_bits ∙ ap bits_le_from_bytes (sym exp_is);
          schema_bits = schema.bytes_bits;
        };
      }
    where
      byte_small : (bs : List Bool) → length bs ≡ 8 → value bs < 256
      byte_small bs l = omega (arith, value-lt bs, ap (λ n. 2 ^ n) l)

-- A word of 32 bits is a biased day.
pub day_of : (bs : List Bool) → length bs ≡ 32 → (d : ℤ) × IsI32 d × (bs ≡ day_bits d)
day_of bs l =
    let small : value bs < 2 ^ 32 = omega (arith, value-lt bs, ap (λ n. 2 ^ n) l) in
    (
      unbias_from_circuit (value bs),
      unbias-IsI32 (value bs) small,
      sym (bits_from-value bs)
          ∙ ap₂ (λ n v. bits_from n 0 v) l (sym (bias-unbias.1 (value bs) small)),
    )
