-- ===== src/Verifier.antt =====
-- crypto-verifier/src/lib.rs: the registry of verifying keys, set once, and the verification of a
-- proof against it. The global `OnceCell` is a state that each operation takes and returns.
pub mod Registry
pub mod Verification
pub mod Soundness
mod Tests
use provii_crypto.Prelude.{ℕ, Bool, true, false, List, [], ◌∷◌, Option, some, none, Result, ok, err}
use provii_crypto.Prelude.{◌>>=◌, ◌>>◌, guard, ok_or, map_err, ◌==◌, if◌then◌else◌}
use provii_crypto.Commons.{
  Error, invalid_input, invalid_format, verifier_not_initialized, already_initialized,
  verification_failed,
}
use provii_crypto.PublicInputs.{Multipack, PublicValues, assemble_public_inputs_canonical}

-- What the crate uses of bellman's Groth16: reading keys and proofs, preparing a key, and the check.
pub record Groth16 (M : Multipack) : Type 1 where
  pub VerifyingKey : Type 0
  pub PreparedVerifyingKey : Type 0
  pub Proof : Type 0
  pub read_vk : List ℕ → Option VerifyingKey
  pub prepare_verifying_key : VerifyingKey → PreparedVerifyingKey
  pub read_proof : List ℕ → Option Proof
  pub verify_proof : PreparedVerifyingKey → Proof → List M.Scalar → Bool

-- A `HashMap<u32, V>`.
module _ {V : Type 0} where
  unfoldable pub get : List (ℕ × V) → ℕ → Option V
  get [] k = none
  get ((j, v) ∷ m) k = if j == k then some v else get m k

  unfoldable pub insert : ℕ → V → List (ℕ × V) → List (ℕ × V)
  insert k v [] = (k, v) ∷ []
  insert k v ((j, w) ∷ m) = if j == k then (k, v) ∷ m else (j, w) ∷ insert k v m

pub record VerifyResult : Type 0 where
  pub inputs : PublicValues
  pub vk_id : ℕ

module _ (M : Multipack) (G : Groth16 M) where
  open G use {PreparedVerifyingKey, read_vk, prepare_verifying_key, read_proof, verify_proof}

  abbrev pub Keys : Type 0
  Keys = List (ℕ × PreparedVerifyingKey)

  -- `VK_REGISTRY`: unset, or set for good.
  abbrev pub Cell : Type 0
  Cell = Option Keys

  pub load_vk : List ℕ → Result Error PreparedVerifyingKey
  load_vk bytes = do vk ← ok_or (read_vk bytes) invalid_format; ok (prepare_verifying_key vk)

  -- `OnceCell::set` with its error mapped: a set cell keeps its value.
  pub set_registry : Keys → Cell → Result Error (Unit {0}) × Cell
  set_registry m none = (ok tt, some m)
  set_registry m (some old) = (err already_initialized, some old)

  -- A failure before the cell is reached leaves it as it was.
  abbrev pub then_set : Result Error Keys → Cell → Result Error (Unit {0}) × Cell
  then_set (ok m) cell = set_registry m cell
  then_set (err e) cell = (err e, cell)

  pub init_with_vk_bytes : List ℕ → Cell → Result Error (Unit {0}) × Cell
  init_with_vk_bytes bytes cell = then_set (do pvk ← load_vk bytes; ok (insert 0 pvk [])) cell

  -- The loop over the entries with the map so far.
  pub load_entries : List (ℕ × List ℕ) → Keys → Result Error Keys
  load_entries [] m = ok m
  load_entries ((vk_id, bytes) ∷ entries) m = do
    pvk ← load_vk bytes
    load_entries entries (insert vk_id pvk m)

  pub init_with_vk_registry : List (ℕ × List ℕ) → Cell → Result Error (Unit {0}) × Cell
  init_with_vk_registry [] cell = (err invalid_input, cell)
  init_with_vk_registry (e ∷ entries) cell = then_set (load_entries (e ∷ entries) []) cell

  abbrev pub registered : Cell → ℕ → Option PreparedVerifyingKey
  registered none vk_id = none
  registered (some m) vk_id = get m vk_id

  pub verify_age_snark : List ℕ → PublicValues → ℕ → Cell → Result Error VerifyResult
  verify_age_snark proof_bytes p vk_id cell = do
    pvk ← ok_or (registered cell vk_id) verifier_not_initialized
    inputs ← map_err (assemble_public_inputs_canonical M p) invalid_input
    proof ← ok_or (read_proof proof_bytes) invalid_format
    guard (verify_proof pvk proof inputs) verification_failed
    ok (record { inputs = p; vk_id = vk_id })
