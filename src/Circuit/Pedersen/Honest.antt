-- ===== src/Circuit/Pedersen/Honest.antt =====
-- The nullifier and the commitment of an honest prover: the wires carry the host's values.
use provii_crypto.Prelude.{
  ℕ, ◌+◌, ◌≤◌, ◌≡◌, refl, sym, ap, ◌∙◌, arith, Bool, List, [], ◌∷◌, ◌++◌, length, length-append,
  map, take, take_all, ◌==◌, ==_refl,
}
use mathlib.Core.List.{flat_map}
use provii_crypto.Commons.{nullifier_dst}
use provii_crypto.Commit
use provii_crypto.Commit.{note_commitment, merkle_tree}
use provii_crypto.Prelude.Bytes.{byte_bits}
use provii_crypto.PublicInputs.{bits_le_from_bytes}
use provii_crypto.PublicInputs.Bytes.{length-bits_le_from_bytes}
use provii_crypto.Circuit.Backend.{Bellman, known}
use provii_crypto.Circuit.Bits.Complete.{length-known}
use provii_crypto.Circuit.Runs.{Runs, Runs-bind, Runs-return, Runs-guarded, equal_bits-known}
use provii_crypto.Circuit.Alloc.Honest.{map-append}
use provii_crypto.Circuit.Prehash.{constant_byte}
use provii_crypto.Circuit.Curve.{Curve, Sapling, IsHonestSapling, pedersen_hash}
use provii_crypto.Circuit.Pedersen.{pedersen_nullifier, commit, enforce_bytes_equal}

pub constant_wires :
    (bytes : List ℕ) → flat_map constant_byte bytes ≡ map known (bits_le_from_bytes bytes)
unfolding flat_map bits_le_from_bytes
constant_wires [] = refl
constant_wires (b ∷ bytes) =
    ap (λ t. map known (byte_bits b) ++ t) (constant_wires bytes)
    ∙ sym (map-append (byte_bits b) (bits_le_from_bytes bytes))

module _ {B : Bellman} {C : Curve} (S : Sapling B C) (K : IsHonestSapling S) where
  pub pedersen_nullifier-Runs :
      (c : List ℕ)
      → length c ≡ 32
      → Runs B
          (pedersen_nullifier S (map known (bits_le_from_bytes c)))
          (map known (bits_le_from_bytes (Commit.pedersen_nullifier (pedersen_hash C) c)))
  unfolding pedersen_nullifier Commit.pedersen_nullifier
  pedersen_nullifier-Runs c l =
      let input = bits_le_from_bytes nullifier_dst ++ bits_le_from_bytes c in
      let point = C.pedersen_point (merkle_tree 0) input in
      let out = map known (bits_le_from_bytes (C.point_to_bytes point)) in
      let short : length input ≤ 1128 = omega (
        arith,
        length-append (bits_le_from_bytes nullifier_dst) (bits_le_from_bytes c),
        length-bits_le_from_bytes nullifier_dst,
        length-bits_le_from_bytes c,
      ) in
      let all : take 256 out ≡ out = take_all 256 out (
        omega (
          arith,
          length-known (bits_le_from_bytes (C.point_to_bytes point)),
          length-bits_le_from_bytes (C.point_to_bytes point),
          C.length-point_to_bytes point,
        )) in
      let wires : flat_map constant_byte nullifier_dst ++ map known (bits_le_from_bytes c)
          ≡ map known input =
        ap (λ t. t ++ map known (bits_le_from_bytes c)) (constant_wires nullifier_dst)
        ∙ sym (map-append (bits_le_from_bytes nullifier_dst) (bits_le_from_bytes c)) in
      rw wires (
        Runs-bind B (S.pedersen (merkle_tree 0) (map known input)) _ _ _
          (record { on_run = λ s. K.pedersen_known (merkle_tree 0) input s short })
          (Runs-bind B (S.repr point) _ _ _ (record { on_run = K.repr_known point })
            (rw all (Runs-return B out))))

  pub commit-Runs :
      (dob r : List Bool)
      → length dob + length r ≤ 1128
      → Runs B
          (commit S (map known dob) (map known r))
          (map known (bits_le_from_bytes (pedersen_hash C note_commitment (dob ++ r))))
  unfolding commit
  commit-Runs dob r short =
      let point = C.pedersen_point note_commitment (dob ++ r) in
      rw (← (map-append dob r)) (
        Runs-bind B (S.pedersen note_commitment (map known (dob ++ r))) _ _ _
          (record {
            on_run = λ s.
                K.pedersen_known note_commitment (dob ++ r) s (omega (arith, length-append dob r));
          })
          (record { on_run = K.repr_known point }))

  pub enforce_bytes_equal-Runs :
      (us : List Bool) → Runs B (enforce_bytes_equal S (map known us) (map known us)) tt
  unfolding enforce_bytes_equal
  enforce_bytes_equal-Runs us =
      Runs-guarded B (length (map known us) == length (map known us)) _ tt (==_refl _)
        (equal_bits-known B us)
