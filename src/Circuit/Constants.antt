-- ===== src/Circuit/Constants.antt =====
-- crypto-circuit-age/src/lib.rs: the fingerprint of the constants that shape the circuit. BLAKE2s and
-- the hexadecimal text are arguments.
use provii_crypto.Prelude.{ℕ, ◌≡◌, refl, List, ◌∷◌, ◌++◌, replicate}
use provii_crypto.Prelude.Bytes.{codes, to_le_bytes}
use provii_crypto.Commons.{redjubjub_personalization, nullifier_dst, cred_dst}
use provii_crypto.Signature.Primitives.{spending_key_gen_bytes}
use provii_crypto.Circuit.Age.{kid_size_bytes, schema_size_bytes}

-- What is hashed, in the order of the calls of `update`.
unfoldable pub constants_preimage : List ℕ
constants_preimage =
    codes "provii.age.circuit.constants.v0"
    ++ (spending_key_gen_bytes
        ++ (redjubjub_personalization
            ++ (nullifier_dst
                ++ (cred_dst
                    ++ (9 ∷ replicate 5 0
                        ++ (to_le_bytes 4 14 ++ (to_le_bytes 4 12 ++ to_le_bytes 4 128)))))))

unfoldable pub compute_circuit_constants_hash : (List ℕ → List ℕ) → (List ℕ → List ℕ) → List ℕ
compute_circuit_constants_hash blake2s256 hex = hex (blake2s256 constants_preimage)

-- The numbers at the end are the sizes that the witness and the circuit check.
sizes_agree :
    constants_preimage
    ≡ codes "provii.age.circuit.constants.v0"
      ++ (spending_key_gen_bytes
          ++ (redjubjub_personalization
              ++ (nullifier_dst
                  ++ (cred_dst
                      ++ (9 ∷ replicate 5 0
                          ++ (to_le_bytes 4 kid_size_bytes
                              ++ (to_le_bytes 4 schema_size_bytes ++ to_le_bytes 4 128)))))))
unfolding constants_preimage
sizes_agree = refl
