-- ===== src/PublicInputs.antt =====
-- crypto-public-inputs/src/lib.rs: the eight public inputs of a proof, from their host values.
pub mod Bytes
pub mod Assembly
pub mod Tests
use provii_crypto.Prelude.{
  ℕ, ◌+◌, ◌/◌, ◌≡◌, Bool, true, List, [], ◌++◌, Result, ok, err, ◌==◌, not, length,
}
use provii_crypto.Prelude.{if◌then◌else◌}
use provii_crypto.Prelude.Int.{ℤ}
use provii_crypto.Prelude.Bytes.{byte_bits, to_le_bytes}
use provii_crypto.Commons.{bias_for_circuit}

-- `PublicInputError::WrongCount`.
pub data PublicInputError : Type 0 where
  wrong_count : ℕ → ℕ → PublicInputError

unfoldable pub bits_le_from_bytes : List ℕ → List Bool
bits_le_from_bytes [] = []
bits_le_from_bytes (List.◌∷◌ b bytes) = byte_bits b ++ bits_le_from_bytes bytes

-- `bellman::gadgets::multipack::compute_multipacking` over the scalars of bls12_381: 254 bits go
-- into one scalar, and vectors of one length that pack to the same scalars are the same.
pub record Multipack : Type 1 where
  pub Scalar : Type 0
  pub compute_multipacking : List Bool → List Scalar
  pub length-compute_multipacking :
      (bs : List Bool) → length (compute_multipacking bs) ≡ (length bs + 253) / 254
  pub compute_multipacking_inj :
      (bs cs : List Bool)
      → length bs ≡ length cs
      → compute_multipacking bs ≡ compute_multipacking cs
      → bs ≡ cs

-- The arguments of the assembly; arrays of 32 bytes are lists.
pub record PublicValues : Type 0 where
  pub direction : Bool
  pub cutoff_days : ℤ
  pub rp_hash : List ℕ
  pub issuer_vk_bytes : List ℕ
  pub cred_nullifier : List ℕ

module _ (M : Multipack) where
  open M use {Scalar, compute_multipacking}

  -- The five groups of scalars in the order in which they are pushed.
  abbrev pub packed : PublicValues → List Scalar
  packed p =
      compute_multipacking (bits_le_from_bytes (to_le_bytes 4 (if p.direction then 1 else 0)))
      ++ (compute_multipacking (bits_le_from_bytes (to_le_bytes 4 (bias_for_circuit p.cutoff_days)))
          ++ (compute_multipacking (bits_le_from_bytes p.rp_hash)
              ++ (compute_multipacking (bits_le_from_bytes p.issuer_vk_bytes)
                  ++ compute_multipacking (bits_le_from_bytes p.cred_nullifier))))

  unfoldable pub assemble_public_inputs_manual :
      PublicValues → Result PublicInputError (List Scalar)
  assemble_public_inputs_manual p =
      let out = packed p in
      if not (length out == 8) then err (wrong_count 8 (length out)) else ok out

  unfoldable pub assemble_public_inputs_canonical :
      PublicValues → Result PublicInputError (List Scalar)
  unfolding assemble_public_inputs_manual
  assemble_public_inputs_canonical p = assemble_public_inputs_manual p

  unfoldable pub assemble_public_inputs_diagnostic :
      PublicValues → Result PublicInputError (List Scalar)
  assemble_public_inputs_diagnostic p = assemble_public_inputs_manual p
