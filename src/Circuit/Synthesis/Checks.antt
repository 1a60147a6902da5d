-- ===== src/Circuit/Synthesis/Checks.antt =====
-- What each step of the synthesis establishes in an accepted run.
use provii_crypto.Prelude.{
  ℕ, ◌+◌, ◌*◌, ◌≤◌, ◌≡◌, sym, ap, ◌∙◌, List, ◌++◌, length, ok, ok-injective, ◌==◌,
}
use provii_crypto.Prelude.Decode.{}
use provii_crypto.Commons.{redjubjub_personalization}
use provii_crypto.Commit
use provii_crypto.Commit.{note_commitment}
use provii_crypto.Credential
use provii_crypto.Credential.{CredMsgV2, prehash}
use provii_crypto.Credential.Layout.{Fits}
use provii_crypto.PublicInputs.{bits_le_from_bytes}
use provii_crypto.Circuit.Backend.{Bellman, bits}
use provii_crypto.Circuit.Prehash.{build_prehash_bits}
use provii_crypto.Circuit.Prehash.Parity
use provii_crypto.Circuit.Prehash.Parity.{length-bits, build_prehash_bits-prehash}
use provii_crypto.Circuit.Age.{kid_size_bytes, schema_size_bytes}
use provii_crypto.Circuit.Accepts.{
  Accepts, Accepts-bind, Accepts-map, Accepts-guarded, Accepts-require, Accepts-lift,
  Accepts-enforce_bits_equal, lift,
}
use provii_crypto.Circuit.Curve.{Curve, Sapling, pedersen_hash}
use provii_crypto.Circuit.Pedersen.{
  pedersen_nullifier, commit, blake2s_256, blake2s_no_personalization,
}
use provii_crypto.Circuit.Pedersen.Parity.{
  pedersen_nullifier_sound, commit_sound, enforce_bytes_equal_sound,
}
use provii_crypto.Circuit.Redjubjub.{get_vk_bytes_bits, verify}
use provii_crypto.Circuit.Redjubjub.Sound.{IsEncoded, Equation, verify_with_personalization_sound}
use provii_crypto.Circuit.Synthesis.{
  PublicWires, WitnessWires, check_sizes, check_issuer, check_nullifier, check_commitment,
  check_signature,
}
use provii_crypto.Circuit.Synthesis.Public.{}

module _ {B : Bellman} {C : Curve} (S : Sapling B C) where
  pub check_sizes_sound : (w : WitnessWires S) → Accepts B (check_sizes S w) (λ _. Unit {0})
  unfolding check_sizes
  check_sizes_sound w = Accepts-guarded B (length w.kid_bits == kid_size_bytes * 8) _ λ _.
      Accepts-guarded B (length w.schema_bits == schema_size_bytes * 8) _
        λ _. Accepts-map B (Accepts-require B (length w.c_bytes_bits == 256)) λ u _. u

  pub check_issuer_sound :
      (p : PublicWires) (w : WitnessWires S)
      → Accepts B
          (check_issuer S p w)
          (λ _. bits w.issuer_vk.vk_bytes_bits ≡ bits p.issuer_vk_bits_public)
  unfolding check_issuer get_vk_bytes_bits
  check_issuer_sound p w =
      Accepts-enforce_bits_equal B w.issuer_vk.vk_bytes_bits p.issuer_vk_bits_public

  pub check_nullifier_sound :
      (p : PublicWires) (w : WitnessWires S)
      → Accepts B (check_nullifier S p w) (λ _.
        (c_bytes : List ℕ)
        → bits w.c_bytes_bits ≡ bits_le_from_bytes c_bytes
        → length c_bytes ≡ 32
        → bits p.cred_nullifier_bits
          ≡ bits_le_from_bytes (Commit.pedersen_nullifier (pedersen_hash C) c_bytes))
  unfolding check_nullifier
  check_nullifier_sound p w =
      Accepts-bind B (pedersen_nullifier S w.c_bytes_bits) _ _
        (pedersen_nullifier_sound S w.c_bytes_bits)
        λ computed.
          Accepts-map B (Accepts-enforce_bits_equal B computed p.cred_nullifier_bits)
            λ _ same nullifier c_bytes hc l. sym same ∙ nullifier c_bytes hc l

  pub check_commitment_sound :
      (w : WitnessWires S)
      → Accepts B (check_commitment S w) (λ _.
        length w.dob_bits + length w.r_bits ≤ 1128
        → bits w.c_bytes_bits
          ≡ bits_le_from_bytes (pedersen_hash C note_commitment (bits w.dob_bits ++ bits w.r_bits)))
  unfolding check_commitment
  check_commitment_sound w =
      Accepts-bind B (commit S w.dob_bits w.r_bits) _ _ (commit_sound S w.dob_bits w.r_bits) λ c.
        Accepts-map B (enforce_bytes_equal_sound S c w.c_bytes_bits)
          λ _ same commitment short. sym same ∙ commitment short

  -- The digest that is signed: that of the wires' message.
  pub check_signature_sound :
      (w : WitnessWires S)
      → Accepts B (check_signature S w) (λ _.
        (m : CredMsgV2)
        → Credential.IsTyped m
        → Fits m
        → Parity.Carries m w.v_bits w.kid_bits w.c_bytes_bits w.iat_bits w.exp_bits w.schema_bits
        → IsEncoded S w.issuer_vk.point w.issuer_vk.vk_bytes_bits
        → IsEncoded S w.sig_rj.r_point w.sig_rj.r_bytes_bits
        → (bytes : List ℕ) × (prehash m ≡ ok bytes)
          × Equation C w.sig_rj.r_point
              (bits w.sig_rj.s_bytes_bits)
              w.issuer_vk.point
              (C.blake2s blake2s_no_personalization bytes)
              redjubjub_personalization)
  unfolding check_signature blake2s_256 verify
  check_signature_sound w =
      let built =
        build_prehash_bits w.v_bits w.kid_bits w.c_bytes_bits w.iat_bits w.exp_bits w.schema_bits in
      Accepts-bind B (lift built) _ _ (Accepts-lift B built) λ message.
        Accepts-bind B (S.blake2s_gadget message blake2s_no_personalization) _ _
          (S.blake2s_sound message blake2s_no_personalization)
          λ digest. Accepts-guarded B (length digest == 256) _ λ _.
            Accepts-map B
              (verify_with_personalization_sound S w.issuer_vk w.sig_rj digest
                redjubjub_personalization)
              λ _ equation hashed e m t f carried hv hr.
                let (out, bytes, e', hb, same) = build_prehash_bits-prehash m carried t f in
                let message_is : message ≡ out = ok-injective (sym e ∙ e') in
                (bytes, hb, equation _ (hashed bytes (ap bits message_is ∙ same)) hv hr)
