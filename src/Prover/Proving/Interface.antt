-- ===== src/Prover/Proving/Interface.antt =====
-- What the prover uses of bellman and of its environment, and the data that it returns:
-- crypto-prover/src/lib.rs.
use provii_crypto.Prelude.{ℕ, Bool, List, Option}
use provii_crypto.Prelude.Int.{ℤ}
use provii_crypto.PublicInputs.{Multipack}
use provii_crypto.Verifier.{Groth16}
use provii_crypto.Circuit.Backend.{Bellman, Boolean, Synth}
use provii_crypto.Circuit.Age.{AgeWitness}
use provii_crypto.Circuit.Curve.{Curve, Sapling}
use provii_crypto.Circuit.Synthesis.{AgePublic}
use provii_crypto.Prover.Runtime.{}
use provii_crypto.Prover.Validation.{ValidationResults}
use provii_crypto.Prover.Attempts.{Attempt}

-- What the crate uses of bellman's Groth16 prover. Writing to a vector may fail by its type.
pub record Groth16Prover {M : Multipack} (G : Groth16 M) : Type 1 where
  pub Parameters : Type 0
  pub Rng : Type 0
  pub vk : Parameters → G.VerifyingKey
  pub read_params : List ℕ → Option Parameters
  pub write_vk : G.VerifyingKey → Option (List ℕ)
  pub write_proof : G.Proof → Option (List ℕ)
  pub create_random_proof : AgePublic → AgeWitness → Parameters → Rng → Attempt G.Proof
  pub scalar_eq : M.Scalar → M.Scalar → Bool
  pub scalar_hex : M.Scalar → List ℕ

-- `TestConstraintSystem` with the gadgets over it.
pub record TestSystem (C : Curve) : Type 1 where
  pub bellman : Bellman
  pub pack_into_inputs : List Boolean → Synth bellman.System (Unit {0})
  pub gadgets : Sapling bellman C
  pub new : bellman.System
  pub num_constraints : bellman.System → ℕ
  pub num_inputs : bellman.System → ℕ

-- What the clock, the platform and the logger report.
pub record Environment : Type 0 where
  pub synthesis_time_ms : ℕ
  pub generation_time_ms : ℕ
  pub platform : List ℕ
  pub version : List ℕ
  pub full_debug_log : List ℕ

pub record CircuitStats : Type 0 where
  pub num_constraints : Option ℕ
  pub num_variables : Option ℕ
  pub synthesis_time_ms : Option ℕ

pub record ProofMetadata : Type 0 where
  pub generation_time_ms : ℕ
  pub platform : List ℕ
  pub version : List ℕ

pub record DebugInfo : Type 0 where
  pub validation_results : ValidationResults
  pub circuit_stats : CircuitStats
  pub error_trace : List (List ℕ)
  pub full_debug_log : List ℕ
  pub public_inputs_hex : List (List ℕ)

pub record AgeSnarkProofV2Extended : Type 0 where
  pub v : ℕ
  pub vk : ℕ
  pub rp_hash : List ℕ
  pub cutoff : ℤ
  pub issuer_vk_bytes : List ℕ
  pub cred_nullifier : List ℕ
  pub direction : Bool
  pub proof : List ℕ
  pub metadata : Option ProofMetadata
  pub debug_info : Option DebugInfo
