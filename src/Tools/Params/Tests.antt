-- ===== src/Tools/Params/Tests.antt =====
-- The comparison of keys and the setup witness at concrete inputs.
use provii_crypto.Prelude.{ℕ, Bool, ◌≡◌, refl, arith, true, List, [], ok, some}
use provii_crypto.PublicInputs.{packed, bits_le_from_bytes}
use provii_crypto.Prelude.Bytes.{bits_from}
use provii_crypto.PublicInputs.Tests.{packing}
use provii_crypto.Circuit.Bits.Complete.{Returns}
use provii_crypto.Circuit.Synthesis.{synthesize}
use provii_crypto.Circuit.Synthesis.TwoPoints.{two_points, digest}
use provii_crypto.Circuit.Synthesis.Example.{Exposed, exposing_system, exposing, expose, gadgets}
use provii_crypto.Circuit.Synthesis.HonestExample.{
  exposing_system-IsHonest, gadgets-IsHonestSapling, exposing-IsHonestExposing,
}
use provii_crypto.Signature.{nonce_from}
use provii_crypto.Issuance.Example.{modulo_two, subgroup}
use provii_crypto.Tools.Params.{generate_valid_test_witness}
use provii_crypto.Tools.Params.SetupWitness.{setup_values, setup_witness, setup_witness_synthesizes}

-- 2026-01-15.
abbrev now : ℕ
now = 1768480200

abbrev inputs : List (List Bool)
inputs = packed packing (setup_values subgroup now true digest)

abbrev start : Exposed
start = record { scalars = []; satisfied = true }

setup_witness_synthesizes_example :
    (generate_valid_test_witness modulo_two two_points now true
      ≡ ok (setup_witness modulo_two two_points now true))
    × Returns
        (exposing_system inputs)
        (synthesize
          (expose inputs)
          (gadgets inputs)
          (setup_values subgroup now true digest)
          (some (setup_witness modulo_two two_points now true))
          start)
        start
        tt
unfolding nonce_from bits_le_from_bytes bits_from
setup_witness_synthesizes_example =
    setup_witness_synthesizes subgroup now true (exposing inputs) (gadgets inputs)
      (exposing_system-IsHonest inputs) (gadgets-IsHonestSapling inputs)
      (exposing-IsHonestExposing inputs) digest start (omega arith) (omega arith) refl refl refl
      refl
