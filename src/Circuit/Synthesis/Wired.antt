-- ===== src/Circuit/Synthesis/Wired.antt =====
-- Step 1 for an issued credential: the wires of an honest prover.
use provii_crypto.Prelude.{
  ◌≡◌, ap, ◌∙◌, arith, some, length, length-append, map, take, drop, take_all, ◌==◌, ==_iff,
}
use provii_crypto.Prelude.Bytes.{byte_bits, to_be_bytes}
use provii_crypto.Commons.{bias_for_circuit}
use provii_crypto.PublicInputs.{PublicValues, bits_le_from_bytes}
use provii_crypto.Circuit.Backend.{Bellman, IsHonest, known}
use provii_crypto.Circuit.Alloc.{
  alloc_u32_witness, alloc_u8_witness, alloc_u64_witness, alloc_bytes_witness_fixed,
  alloc_bool_vec_witness_fixed,
}
use provii_crypto.Circuit.Alloc.Honest.{
  alloc_u32_witness-Runs, alloc_u8_witness-Runs, alloc_u64_witness-Runs, alloc_bytes_witness-Runs,
  alloc_bool_vec_witness-Runs,
}
use provii_crypto.Circuit.Age.{AgeWitness, kid_size_bytes, schema_size_bytes}
use provii_crypto.Circuit.Age.Threshold.{day_bits}
use provii_crypto.Circuit.Runs.{Runs, Runs-bind, Runs-return, Runs-guarded}
use provii_crypto.Circuit.Curve.{Curve, Sapling, IsHonestSapling}
use provii_crypto.Circuit.Pedersen.{}
use provii_crypto.Circuit.Pedersen.Honest.{}
use provii_crypto.Circuit.Redjubjub.{alloc_vk, alloc_sig}
use provii_crypto.Circuit.Redjubjub.Honest.{
  key_wires, signature_wires, alloc_vk-Runs, alloc_sig-Runs,
}
use provii_crypto.Circuit.Synthesis.{WitnessWires, alloc_fields, alloc_witness}
use provii_crypto.Circuit.Synthesis.Honest.{}
use provii_crypto.Circuit.Synthesis.Issued.{Issued, take-front, drop-front}

module _ {B : Bellman} {C : Curve} (S : Sapling B C) (H : IsHonest B) (K : IsHonestSapling S) where
  module _ (p : PublicValues) (w : AgeWitness) (i : Issued C p w) where
    abbrev pub wired : WitnessWires S
    wired = record {
      dob_bits = map known (day_bits w.dob_days);
      r_bits = map known w.r_bits;
      issuer_vk = key_wires S H K i.issuer_vk;
      sig_rj = signature_wires S H K i.r_point i.s_bytes;
      v_bits = map known (byte_bits w.v);
      kid_bits = map known (bits_le_from_bytes w.kid);
      c_bytes_bits = map known (bits_le_from_bytes w.c_bytes);
      iat_bits = map known (bits_le_from_bytes (to_be_bytes 8 w.iat));
      exp_bits = map known (bits_le_from_bytes (to_be_bytes 8 w.exp));
      schema_bits = map known (bits_le_from_bytes w.schema);
    }

    pub length-c : length w.c_bytes ≡ 32
    length-c = ap length i.c_opens ∙ C.length-point_to_bytes _

    length-sig : length w.sig_rj_bytes ≡ 64
    length-sig =
        ap length i.sig_is
        ∙ omega (
          arith,
          length-append (C.point_to_bytes i.r_point) i.s_bytes,
          C.length-point_to_bytes i.r_point,
          i.length-s_bytes,
        )

    vk-Runs : Runs B (alloc_vk S (some w.issuer_vk_bytes)) (key_wires S H K i.issuer_vk)
    vk-Runs = rw i.issuer_vk_is (alloc_vk-Runs S H K i.issuer_vk i.issuer_vk_not_small)

    sig-Runs :
        Runs B (alloc_sig S (some w.sig_rj_bytes)) (signature_wires S H K i.r_point i.s_bytes)
    sig-Runs =
        let r = C.point_to_bytes i.r_point in
        let front : take 32 w.sig_rj_bytes ≡ r =
          ap (take 32) i.sig_is ∙ take-front 32 r i.s_bytes (C.length-point_to_bytes i.r_point) in
        let back : take 32 (drop 32 w.sig_rj_bytes) ≡ i.s_bytes =
          ap (λ x. take 32 (drop 32 x)) i.sig_is
          ∙ ap (take 32) (drop-front 32 r i.s_bytes (C.length-point_to_bytes i.r_point))
          ∙ take_all 32 i.s_bytes i.length-s_bytes in
        alloc_sig-Runs S H K i.r_point i.s_bytes w.sig_rj_bytes i.r_not_small i.s_is_scalar
          i.length-s_bytes front back

    pub alloc_witness-Runs : Runs B (alloc_witness S (some w)) wired
    unfolding alloc_witness alloc_fields
    alloc_witness-Runs =
        Runs-guarded B (length w.kid == kid_size_bytes) _ _ ((==_iff _ _).1 i.length-kid) (
          Runs-guarded B (length w.schema == schema_size_bytes) _ _ ((==_iff _ _).1 i.length-schema)
            (Runs-guarded B (length w.sig_rj_bytes == 64) _ _ ((==_iff _ _).1 length-sig) (
              Runs-guarded B (length w.r_bits == 128) _ _ ((==_iff _ _).1 i.length-r_bits) (
                Runs-bind B (alloc_u32_witness B (some (bias_for_circuit w.dob_days))) _ _ _
                  (alloc_u32_witness-Runs B H (bias_for_circuit w.dob_days))
                  (Runs-bind B (alloc_bool_vec_witness_fixed B (some w.r_bits) 128) _ _ _
                    (alloc_bool_vec_witness-Runs B H w.r_bits 128 i.length-r_bits)
                    (Runs-bind B (alloc_vk S (some w.issuer_vk_bytes)) _ _ _ vk-Runs (
                      Runs-bind B (alloc_sig S (some w.sig_rj_bytes)) _ _ _ sig-Runs (
                        Runs-bind B (alloc_u8_witness B (some w.v)) _ _ _
                          (alloc_u8_witness-Runs B H w.v)
                          (Runs-bind B (alloc_bytes_witness_fixed B (some w.kid) kid_size_bytes) _ _
                            _ (alloc_bytes_witness-Runs B H w.kid kid_size_bytes i.length-kid)
                            (Runs-bind B (alloc_bytes_witness_fixed B (some w.c_bytes) 32) _ _ _
                              (alloc_bytes_witness-Runs B H w.c_bytes 32 length-c)
                              (Runs-bind B (alloc_u64_witness B (some w.iat)) _ _ _
                                (alloc_u64_witness-Runs B H w.iat)
                                (Runs-bind B (alloc_u64_witness B (some w.exp)) _ _ _
                                  (alloc_u64_witness-Runs B H w.exp)
                                  (Runs-bind B
                                    (alloc_bytes_witness_fixed B (some w.schema) schema_size_bytes)
                                    _ _ _
                                    (alloc_bytes_witness-Runs B H w.schema schema_size_bytes
                                      i.length-schema)
                                    (Runs-return B wired))))))))))))))
