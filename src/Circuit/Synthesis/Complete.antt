-- ===== src/Circuit/Synthesis/Complete.antt =====
-- Completeness of the circuit: a credential that was issued and qualifies can be proved.
use provii_crypto.Prelude.{
  ℕ, ◌+◌, ◌*◌, ◌≤◌, ◌≡◌, sym, ap, ◌∙◌, arith, List, [], ◌++◌, some, length, map, ◌==◌, ==_iff,
}
use provii_crypto.Prelude.Bytes.{length-bits_from}
use provii_crypto.Commons.{bias_for_circuit, redjubjub_personalization}
use provii_crypto.Commit
use provii_crypto.Commit.{note_commitment}
use provii_crypto.Commit.Binding.{opening}
use provii_crypto.Credential.Layout.{Fits, layout}
use provii_crypto.PublicInputs.{Multipack, PublicValues, bits_le_from_bytes, packed}
use provii_crypto.PublicInputs.Bytes.{length-bits_le_from_bytes}
use provii_crypto.PublicInputs.Assembly.{IsTyped}
use provii_crypto.Circuit.Backend.{Bellman, IsHonest, known}
use provii_crypto.Circuit.Bits.Complete.{Returns, length-known}
use provii_crypto.Circuit.Alloc.{}
use provii_crypto.Circuit.Alloc.Honest.{}
use provii_crypto.Circuit.Age.{AgeWitness, age_check, kid_size_bytes, schema_size_bytes}
use provii_crypto.Circuit.Age.Threshold.{day_bits, age_check_complete}
use provii_crypto.Circuit.Accepts.{lift}
use provii_crypto.Circuit.Runs.{
  Runs, Runs-bind, Runs-then, Runs-guarded, Runs-require, Runs-lift, enforce_bits_equal-known,
}
use provii_crypto.Circuit.Curve.{
  Curve, Sapling, IsHonestSapling, Exposing, IsHonestExposing, pedersen_hash,
}
use provii_crypto.Circuit.Prehash.{build_prehash_bits}
use provii_crypto.Circuit.Prehash.Honest.{build_prehash_bits-known}
use provii_crypto.Circuit.Pedersen.{
  pedersen_nullifier, commit, blake2s_256, blake2s_no_personalization,
}
use provii_crypto.Circuit.Pedersen.Honest.{
  pedersen_nullifier-Runs, commit-Runs, enforce_bytes_equal-Runs,
}
use provii_crypto.Circuit.Redjubjub.{get_vk_bytes_bits, verify}
use provii_crypto.Circuit.Redjubjub.Honest.{verify_with_personalization-Runs}
use provii_crypto.Circuit.Synthesis.{
  WitnessWires, alloc_witness, check_sizes, check_issuer, check_nullifier, check_commitment,
  check_signature, constrain, synthesize,
}
use provii_crypto.Circuit.Synthesis.Public.{alloc_public_exposed}
use provii_crypto.Circuit.Synthesis.Honest.{
  public_wires, alloc_public-Runs, pack_public_complete, honest_groups, honest_groups-packed,
}
use provii_crypto.Circuit.Synthesis.Issued.{message_of, Issued}
use provii_crypto.Circuit.Synthesis.Wired.{wired, length-c, alloc_witness-Runs}

module _ {B : Bellman} {C : Curve} (S : Sapling B C) (H : IsHonest B) (K : IsHonestSapling S) where
  module _ (p : PublicValues) (w : AgeWitness) (i : Issued C p w) where
    abbrev ww : WitnessWires S
    ww = wired S H K p w i

    length-byte_wires :
        (bytes : List ℕ) → length (map known (bits_le_from_bytes bytes)) ≡ 8 * length bytes
    length-byte_wires bytes =
        length-known (bits_le_from_bytes bytes) ∙ length-bits_le_from_bytes bytes

    check_sizes-Runs : Runs B (check_sizes S ww) tt
    unfolding check_sizes
    check_sizes-Runs =
        Runs-guarded B (length ww.kid_bits == kid_size_bytes * 8) _ _
          ((==_iff _ _).1 (omega (arith, length-byte_wires w.kid, i.length-kid)))
          (Runs-guarded B (length ww.schema_bits == schema_size_bytes * 8) _ _
            ((==_iff _ _).1 (omega (arith, length-byte_wires w.schema, i.length-schema)))
            (Runs-require B (length ww.c_bytes_bits == 256)
              ((==_iff _ _).1 (omega (arith, length-byte_wires w.c_bytes, length-c S H K p w i)))))

    check_issuer-Runs : Runs B (check_issuer S (public_wires p) ww) tt
    unfolding check_issuer get_vk_bytes_bits
    check_issuer-Runs =
        rw (i.public_vk_is ∙ i.issuer_vk_is)
          (enforce_bits_equal-known B (bits_le_from_bytes (C.point_to_bytes i.issuer_vk)))

    check_nullifier-Runs : Runs B (check_nullifier S (public_wires p) ww) tt
    unfolding check_nullifier
    check_nullifier-Runs =
        let n = Commit.pedersen_nullifier (pedersen_hash C) w.c_bytes in
        rw i.cred_nullifier_is (
          Runs-bind B (pedersen_nullifier S (map known (bits_le_from_bytes w.c_bytes))) _ _ _
            (pedersen_nullifier-Runs S K w.c_bytes (length-c S H K p w i))
            (enforce_bits_equal-known B (bits_le_from_bytes n)))

    check_commitment-Runs : Runs B (check_commitment S ww) tt
    unfolding check_commitment
    check_commitment-Runs =
        let short : length (day_bits w.dob_days) + length w.r_bits ≤ 1128 =
          omega (arith, length-bits_from 32 0 (bias_for_circuit w.dob_days), i.length-r_bits) in
        let c =
          bits_le_from_bytes (pedersen_hash C note_commitment (opening w.dob_days w.r_bits)) in
        rw i.c_opens (
          Runs-bind B (commit S (map known (day_bits w.dob_days)) (map known w.r_bits)) _ _ _
            (commit-Runs S K (day_bits w.dob_days) w.r_bits short) (enforce_bytes_equal-Runs S K c))

    check_signature-Runs : Runs B (check_signature S ww) tt
    unfolding check_signature blake2s_256 verify
    check_signature-Runs =
        let m = message_of w in
        let fits : Fits m = (omega (arith, i.length-kid), omega (arith, i.length-schema)) in
        let (_, built) = build_prehash_bits-known m i.message-IsTyped fits in
        let digest = C.blake2s blake2s_no_personalization (layout m) in
        Runs-bind B
          (lift (
            build_prehash_bits ww.v_bits ww.kid_bits ww.c_bytes_bits ww.iat_bits ww.exp_bits
              ww.schema_bits))
          _ _ _ (Runs-lift B _ _ built)
          (Runs-bind B
            (S.blake2s_gadget (map known (bits_le_from_bytes (layout m)))
              blake2s_no_personalization)
            _ _ _ (record { on_run = K.blake2s_known (layout m) blake2s_no_personalization })
            (Runs-guarded B (length (map known (bits_le_from_bytes digest)) == 256) _ _
              ((==_iff _ _).1 (
                omega (
                  arith,
                  length-byte_wires digest,
                  C.length-blake2s blake2s_no_personalization (layout m),
                )))
              (verify_with_personalization-Runs S H K i.issuer_vk i.r_point i.s_bytes digest
                redjubjub_personalization (C.length-blake2s blake2s_no_personalization (layout m))
                i.equation)))

    constrain-Runs : IsTyped p → Runs B (constrain S (public_wires p) (some w)) tt
    unfolding constrain
    constrain-Runs t =
        let age =
          age_check B (known p.direction) (map known (day_bits p.cutoff_days)) ww.dob_bits in
        Runs-bind B (alloc_witness S (some w)) _ _ _ (alloc_witness-Runs S H K p w i) (
          Runs-then B (check_sizes S ww) _ _ check_sizes-Runs (
            Runs-then B (check_issuer S (public_wires p) ww) _ _ check_issuer-Runs (
              Runs-then B (check_nullifier S (public_wires p) ww) _ _ check_nullifier-Runs (
                Runs-then B (check_commitment S ww) _ _ check_commitment-Runs (
                  Runs-then B age _ _
                    (record {
                      on_run = λ s.
                          age_check_complete B H p.direction p.cutoff_days w.dob_days s t.0
                            i.dob_days-IsI32 i.qualifies;
                    })
                    check_signature-Runs)))))

module _ {B : Bellman} {M : Multipack} {C : Curve} (E : Exposing B M) (S : Sapling B C)
    (H : IsHonest B) (K : IsHonestSapling S) (X : IsHonestExposing E) where
  -- An honest prover with a credential that was issued for a qualifying date synthesizes the circuit
  -- without an error, and every constraint holds: on a system that has exposed nothing, against the
  -- packing of the typed values, the system stays as satisfied as it was.
  pub synthesize_complete :
      (p : PublicValues) (w : AgeWitness) (s : B.System)
      → IsTyped p
      → Issued C p w
      → E.public_inputs ≡ packed M p
      → E.exposed s ≡ []
      → Returns B (synthesize E.pack_into_inputs S p (some w) s) s tt
  unfolding synthesize
  synthesize_complete p w s t i inputs nothing =
      let (s1, h1, q1) = (alloc_public-Runs B H p).on_run s in
      let start =
        ap (λ x. x ++ honest_groups M p) (alloc_public_exposed E p s h1 ∙ nothing)
        ∙ honest_groups-packed M p t
        ∙ sym inputs in
      let (s2, h2, q2) = pack_public_complete E X p s1 start in
      let (s3, h3, q3) = (constrain-Runs S H K p w i t).on_run s2 in
      (s3, rw (h1, h2) h3, q3 ∙ q2 ∙ q1)
