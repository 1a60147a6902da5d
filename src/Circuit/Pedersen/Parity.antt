-- ===== src/Circuit/Pedersen/Parity.antt =====
-- The gadgets compute what the host computes: the nullifier and the commitment of crypto-commit.
use provii_crypto.Prelude.{
  ℕ, ◌+◌, ◌≤◌, ◌≡◌, refl, sym, ap, ap₂, ◌∙◌, arith, List, [], ◌∷◌, ◌++◌, length, take, take_all,
  length-append, ==_iff, ◌==◌,
}
use provii_crypto.Prelude.{zero, suc}
use mathlib.Core.List.{flat_map}
use provii_crypto.PublicInputs.{bits_le_from_bytes}
use provii_crypto.PublicInputs.Bytes.{length-bits_le_from_bytes}
use provii_crypto.Commons.{nullifier_dst}
use provii_crypto.Commit
use provii_crypto.Commit.{note_commitment, merkle_tree}
use provii_crypto.Circuit.Backend.{Bellman, Boolean, bits}
use provii_crypto.Circuit.Accepts.{
  Accepts, Accepts-bind, Accepts-return, Accepts-map, Accepts-guarded, Accepts-equal_bits,
}
use provii_crypto.Circuit.Bits.{equal_bits}
use provii_crypto.Circuit.Prehash.{constant_byte}
use provii_crypto.Circuit.Prehash.Parity.{bits-append, length-bits, bits-constant_bytes}
use provii_crypto.Circuit.Curve.{Curve, Sapling, pedersen_hash}
use provii_crypto.Circuit.Pedersen.{pedersen_nullifier, commit, enforce_bytes_equal}

bits-take : (n : ℕ) (xs : List Boolean) → bits (take n xs) ≡ take n (bits xs)
bits-take zero xs = refl
bits-take (suc n) [] = refl
bits-take (suc n) (x ∷ xs) = ap (λ t. x.bit ∷ t) (bits-take n xs)

-- The bits before the commitment's.
abbrev dst_wires : List Boolean
dst_wires = flat_map constant_byte nullifier_dst

length-dst_wires : length dst_wires ≡ 224
length-dst_wires =
    sym (length-bits dst_wires)
    ∙ ap length (bits-constant_bytes nullifier_dst)
    ∙ length-bits_le_from_bytes nullifier_dst

module _ {B : Bellman} {C : Curve} (S : Sapling B C) where
  length-encoded : (p : C.Point) → length (bits_le_from_bytes (C.point_to_bytes p)) ≡ 256
  length-encoded p =
      omega (arith, length-bits_le_from_bytes (C.point_to_bytes p), C.length-point_to_bytes p)

  -- If the circuit accepts, the nullifier's wires carry the bits of the host's nullifier of the
  -- 32 bytes that the input wires carry.
  pub pedersen_nullifier_sound :
      (c_wires : List Boolean)
      → Accepts B (pedersen_nullifier S c_wires) (λ w.
        (c_bytes : List ℕ)
        → bits c_wires ≡ bits_le_from_bytes c_bytes
        → length c_bytes ≡ 32
        → bits w ≡ bits_le_from_bytes (Commit.pedersen_nullifier (pedersen_hash C) c_bytes))
  unfolding pedersen_nullifier Commit.pedersen_nullifier
  pedersen_nullifier_sound c_wires =
      let input = dst_wires ++ c_wires in
      Accepts-bind B (S.pedersen (merkle_tree 0) input) _ _ (S.pedersen_sound (merkle_tree 0) input)
        λ p. Accepts-bind B (S.repr p) _ _ (S.repr_sound p) λ full.
          Accepts-return B (take 256 full) λ encoded hashed c_bytes hc l.
            let short : length input ≤ 1128 = omega (
              arith,
              length-append dst_wires c_wires,
              length-dst_wires,
              length-bits c_wires,
              ap length hc,
              length-bits_le_from_bytes c_bytes,
            ) in
            let message : bits input
                ≡ bits_le_from_bytes nullifier_dst ++ bits_le_from_bytes c_bytes =
              bits-append dst_wires c_wires ∙ ap₂ ◌++◌ (bits-constant_bytes nullifier_dst) hc in
            bits-take 256 full
            ∙ ap (take 256) encoded
            ∙ take_all 256 _ (length-encoded p)
            ∙ ap (λ q. bits_le_from_bytes (C.point_to_bytes q))
                (hashed short ∙ ap (C.pedersen_point (merkle_tree 0)) message)

  -- If the circuit accepts, the commitment's wires carry the bits of the host's hash of the date's
  -- bits and the randomness, if these are at most 1128 bits.
  pub commit_sound :
      (dob_bits r_bits : List Boolean)
      → Accepts B (commit S dob_bits r_bits) (λ w.
        length dob_bits + length r_bits ≤ 1128
        → bits w
          ≡ bits_le_from_bytes (pedersen_hash C note_commitment (bits dob_bits ++ bits r_bits)))
  unfolding commit
  commit_sound dob_bits r_bits =
      let input = dob_bits ++ r_bits in
      Accepts-bind B (S.pedersen note_commitment input) _ _ (S.pedersen_sound note_commitment input)
        λ p. Accepts-map B (S.repr_sound p) λ w encoded hashed short.
          encoded
          ∙ ap (λ q. bits_le_from_bytes (C.point_to_bytes q))
              (hashed (omega (arith, length-append dob_bits r_bits))
                ∙ ap (C.pedersen_point note_commitment) (bits-append dob_bits r_bits))

  pub enforce_bytes_equal_sound :
      (computed witnessed : List Boolean)
      → Accepts B (enforce_bytes_equal S computed witnessed) (λ _. bits computed ≡ bits witnessed)
  unfolding enforce_bytes_equal
  enforce_bytes_equal_sound computed witnessed =
      Accepts-guarded B (length computed == length witnessed) (equal_bits B computed witnessed)
        λ e. Accepts-equal_bits B computed witnessed ((==_iff _ _).0 e)
