-- ===== src/Circuit/Pedersen.antt =====
-- crypto-circuit-age/src/gadgets/pedersen.rs and blake2s.rs: the nullifier, the commitment and the
-- hash, on top of the gadgets for points.
pub mod Parity
pub mod Honest
use provii_crypto.Prelude.{ℕ, List, [], ◌∷◌, ◌++◌, ◌==◌, length, take, replicate}
use mathlib.Core.List.{flat_map}
use provii_crypto.Commons.{nullifier_dst}
use provii_crypto.Commit.{note_commitment, merkle_tree}
use provii_crypto.Circuit.Backend.{Bellman, Boolean, Synth, return, ◌>>=◌, ◌>>◌}
use provii_crypto.Circuit.Bits.{require, equal_bits}
use provii_crypto.Circuit.Prehash.{constant_byte}
use provii_crypto.Circuit.Curve.{Curve, Sapling}

abbrev pub blake2s_no_personalization : List ℕ
blake2s_no_personalization = replicate 8 0

module _ {B : Bellman} {C : Curve} (S : Sapling B C) where
  unfoldable pub pedersen_nullifier : List Boolean → Synth B.System (List Boolean)
  pedersen_nullifier c_bytes_bits = do
    nullifier_point ←
        S.pedersen (merkle_tree 0) (flat_map constant_byte nullifier_dst ++ c_bytes_bits)
    nullifier_bits_full ← S.repr nullifier_point
    return (take 256 nullifier_bits_full)

  unfoldable pub commit : List Boolean → List Boolean → Synth B.System (List Boolean)
  commit dob_bits r_bits = do
    commitment ← S.pedersen note_commitment (dob_bits ++ r_bits)
    S.repr commitment

  -- The loop is that of `enforce_bits_equal`.
  unfoldable pub enforce_bytes_equal : List Boolean → List Boolean → Synth B.System (Unit {0})
  enforce_bytes_equal computed witnessed = do
    require (length computed == length witnessed)
    equal_bits B computed witnessed

  unfoldable pub blake2s_256 : List Boolean → Synth B.System (List Boolean)
  blake2s_256 input = S.blake2s_gadget input blake2s_no_personalization

  pub blake2s_with_personalization : List Boolean → List ℕ → Synth B.System (List Boolean)
  blake2s_with_personalization input personalization = S.blake2s_gadget input personalization
