-- ===== src/Prover/Proving/Example.antt =====
-- A proof system of single bytes whose first call fails, a system against given public inputs, and a
-- laptop to prove on.
use provii_crypto.Prelude.{
  ℕ, ◌≡◌, refl, Bool, true, false, List, [], ◌∷◌, Option, some, none, ◌==◌, if◌then◌else◌,
}
use provii_crypto.PublicInputs.Tests.{packing}
use provii_crypto.Verifier.{Groth16, Keys}
use provii_crypto.Circuit.Synthesis.TwoPoints.{two_points}
use provii_crypto.Circuit.Synthesis.Example.{exposing_system, expose, gadgets}
use provii_crypto.Circuit.Synthesis.Tests.{inputs}
use provii_crypto.Prover.Runtime.{
  RuntimeConfig, Platform, Runtime, basic, init_prover_runtime, choose_threads,
}
use provii_crypto.Prover.Validation.{}
use provii_crypto.Prover.Attempts.{Attempt, created, synthesis_error}
use provii_crypto.Prover.Proving.{Groth16Prover, TestSystem, Environment}
use provii_crypto.Prover.Proving.Composed.{}

abbrev pub only_byte : List ℕ → Option ℕ
only_byte (b ∷ []) = some b
only_byte bytes = none

abbrev pub bytewise : Groth16 packing
bytewise = record {
  VerifyingKey = ℕ;
  PreparedVerifyingKey = ℕ;
  Proof = ℕ;
  read_vk = only_byte;
  prepare_verifying_key = λ vk. vk;
  read_proof = only_byte;
  verify_proof = λ pvk proof inputs. pvk == proof;
}

-- A call with randomness 0 fails.
abbrev pub try_proof : ℕ → ℕ → Attempt ℕ
try_proof params rng = if rng == 0 then synthesis_error else created params

abbrev pub prover : Groth16Prover bytewise
prover = record {
  Parameters = ℕ;
  Rng = ℕ;
  vk = λ params. params;
  read_params = only_byte;
  write_vk = λ vk. some (vk ∷ []);
  write_proof = λ proof. some (proof ∷ []);
  create_random_proof = λ p w params rng. try_proof params rng;
  scalar_eq = λ x y. true;
  scalar_hex = λ x. [];
}

-- Against given public inputs.
abbrev pub system_for : List (List Bool) → TestSystem two_points
system_for inputs = record {
  bellman = exposing_system inputs;
  pack_into_inputs = expose inputs;
  gadgets = gadgets inputs;
  new = record { scalars = []; satisfied = true };
  num_constraints = λ s. 0;
  num_inputs = λ s. 9;
}

abbrev pub environment : Environment
environment = record {
  synthesis_time_ms = 5;
  generation_time_ms = 900;
  platform = [];
  version = [];
  full_debug_log = [];
}

abbrev pub laptop : Platform
laptop = record { is_mobile = false; is_test = false; available_parallelism = some 16 }

abbrev pub defaults : RuntimeConfig
defaults = record { is_mobile = false; max_threads = 1; debug_level = basic }

abbrev pub fresh_runtime : Runtime
fresh_runtime = record { initialized = false; config = some defaults }

abbrev pub configured : RuntimeConfig
configured = record { is_mobile = false; max_threads = 4; debug_level = basic }

pub configures : (init_prover_runtime laptop fresh_runtime).config ≡ some configured
unfolding init_prover_runtime choose_threads
configures = refl

abbrev pub one_key : Keys packing bytewise
one_key = (4, 12) ∷ []
