-- ===== src/Circuit/Curve.antt =====
-- What the circuit uses of the Jubjub curve: the points, their encodings and the hashes on the host
-- (`Curve`), and the gadgets of gadgets/sapling_ecc.rs and sapling_pedersen.rs, which are copies of
-- sapling-crypto's, with bellman's BLAKE2s and multipacking (`Sapling`, `Exposing`).
use provii_crypto.Prelude.{
  ℕ, ◌≤◌, ◌<◌, ◌≡◌, Bool, true, false, List, ◌++◌, Option, some, ok, length, map,
}
use provii_crypto.Prelude.Bytes.{IsByte, value}
use provii_crypto.Prelude.{All}
use provii_crypto.PublicInputs.{Multipack, bits_le_from_bytes}
use provii_crypto.Commit.{Personalization}
use provii_crypto.Signature.Primitives.{spending_key_gen_bytes}
use provii_crypto.Circuit.Backend.{Bellman, Boolean, Synth, bits, known}
use provii_crypto.Circuit.Accepts.{Accepts}
use provii_crypto.Circuit.Bits.Complete.{Returns}

-- The whole curve, as the gadgets have it: a point need not lie in the prime-order subgroup.
pub record Curve : Type 1 where
  pub Point : Type 0
  pub point_add : Point → Point → Point
  pub scale : Point → ℕ → Point
  pub generator : Point
  -- `ExtendedPoint::generator`, a placeholder when there is no witness.
  pub any_point : Point
  pub is_small_order : Point → Bool
  -- The affine coordinates, as residues of the scalar field.
  pub get_u : Point → ℕ
  pub get_v : Point → ℕ
  pub point_from_bytes : List ℕ → Option Point
  pub point_to_bytes : Point → List ℕ
  -- `Fr::from_bytes` accepts.
  pub is_scalar : List ℕ → Bool
  pub pedersen_point : Personalization → List Bool → Point
  -- BLAKE2s with a personalization, eight zero bytes for none.
  pub blake2s : List ℕ → List ℕ → List ℕ
  pub coordinates_inj : (p q : Point) → get_u p ≡ get_u q → get_v p ≡ get_v q → p ≡ q
  pub generator_decodes : point_from_bytes spending_key_gen_bytes ≡ some generator
  pub point_decodes : (p : Point) → point_from_bytes (point_to_bytes p) ≡ some p
  pub point_canonical :
      (b : List ℕ) {p : Point} → point_from_bytes b ≡ some p → point_to_bytes p ≡ b
  pub length-point_to_bytes : (p : Point) → length (point_to_bytes p) ≡ 32
  pub point_to_bytes-IsByte : (p : Point) → All IsByte (point_to_bytes p)
  pub length-blake2s : (tag bytes : List ℕ) → length (blake2s tag bytes) ≡ 32

-- The hash of crypto-commit: the encoded point.
abbrev pub pedersen_hash : (C : Curve) → Personalization → List Bool → List ℕ
pedersen_hash C p message = C.point_to_bytes (C.pedersen_point p message)

-- `from_bytes` and then bits: the integer that multiplication by a bit vector uses.
abbrev pub le_value : List ℕ → ℕ
le_value bytes = value (bits_le_from_bytes bytes)

-- The gadgets. A point wire is the point that its two coordinates are assigned; an assignment off
-- the curve is never accepted.
pub record Sapling (B : Bellman) (C : Curve) : Type 1 where
  pub coordinates_small : (p : C.Point) → (C.get_u p < B.modulus) × (C.get_v p < B.modulus)
  pub witness : Option C.Point → Synth B.System C.Point
  pub assert_not_small_order : C.Point → Synth B.System (Unit {0})
  pub repr : C.Point → Synth B.System (List Boolean)
  pub mul : C.Point → List Boolean → Synth B.System C.Point
  pub add : C.Point → C.Point → Synth B.System C.Point
  pub pedersen : Personalization → List Boolean → Synth B.System C.Point
  pub blake2s_gadget : List Boolean → List ℕ → Synth B.System (List Boolean)
  pub witness_sound : (p : Option C.Point) → Accepts B (witness p) (λ _. Unit {0})
  pub assert_not_small_order_sound :
      (p : C.Point) → Accepts B (assert_not_small_order p) (λ _. C.is_small_order p ≡ false)
  pub repr_sound :
      (p : C.Point) → Accepts B (repr p) (λ w. bits w ≡ bits_le_from_bytes (C.point_to_bytes p))
  pub mul_sound :
      (p : C.Point) (by : List Boolean)
      → Accepts B (mul p by) (λ q. q ≡ C.scale p (value (bits by)))
  pub add_sound : (p q : C.Point) → Accepts B (add p q) (λ r. r ≡ C.point_add p q)
  -- The generators last for 1128 bits behind the personalization.
  pub pedersen_sound :
      (p : Personalization) (input : List Boolean)
      → Accepts B
          (pedersen p input)
          (λ q. length input ≤ 1128 → q ≡ C.pedersen_point p (bits input))
  pub blake2s_sound :
      (input : List Boolean) (tag : List ℕ)
      → Accepts B (blake2s_gadget input tag) (λ w.
        (bytes : List ℕ)
        → bits input ≡ bits_le_from_bytes bytes
        → bits w ≡ bits_le_from_bytes (C.blake2s tag bytes))

-- With an honest prover's values the gadgets succeed and keep the system satisfied.
pub record IsHonestSapling {B : Bellman} {C : Curve} (S : Sapling B C) : Type 0 where
  pub witness_known : (p : C.Point) (s : B.System) → Returns B (S.witness (some p) s) s p
  pub not_small_order_known :
      (p : C.Point) (s : B.System)
      → C.is_small_order p ≡ false
      → Returns B (S.assert_not_small_order p s) s tt
  pub repr_known :
      (p : C.Point) (s : B.System)
      → Returns B (S.repr p s) s (map known (bits_le_from_bytes (C.point_to_bytes p)))
  pub mul_known :
      (p : C.Point) (us : List Bool) (s : B.System)
      → Returns B (S.mul p (map known us) s) s (C.scale p (value us))
  pub add_known : (p q : C.Point) (s : B.System) → Returns B (S.add p q s) s (C.point_add p q)
  pub pedersen_known :
      (p : Personalization) (us : List Bool) (s : B.System)
      → length us ≤ 1128
      → Returns B (S.pedersen p (map known us) s) s (C.pedersen_point p us)
  pub blake2s_known :
      (bytes tag : List ℕ) (s : B.System)
      → Returns B
          (S.blake2s_gadget (map known (bits_le_from_bytes bytes)) tag s)
          s
          (map known (bits_le_from_bytes (C.blake2s tag bytes)))

-- `multipack::pack_into_inputs`, against the public inputs that the verifier supplies: a system is
-- satisfied only while what has been exposed agrees with them.
pub record Exposing (B : Bellman) (M : Multipack) : Type 1 where
  pub public_inputs : List M.Scalar
  pub exposed : B.System → List M.Scalar
  pub pack_into_inputs : List Boolean → Synth B.System (Unit {0})
  pub alloc_exposed :
      (v : Option Bool) (s : B.System) {x : Boolean} {t : B.System}
      → B.alloc v s ≡ ok (x, t)
      → exposed t ≡ exposed s
  pub pack_into_inputs_sound :
      (wires : List Boolean) (s : B.System) {t : B.System}
      → pack_into_inputs wires s ≡ ok (tt, t)
      → B.is_satisfied t ≡ true
      → (B.is_satisfied s ≡ true) × (exposed t ≡ exposed s ++ M.compute_multipacking (bits wires))
  pub agrees :
      (s : B.System)
      → B.is_satisfied s ≡ true
      → (rest : List M.Scalar) × (exposed s ++ rest ≡ public_inputs)

-- Exposing what the verifier supplies as well succeeds.
pub record IsHonestExposing {B : Bellman} {M : Multipack} (E : Exposing B M) : Type 0 where
  pub pack_known :
      (us : List Bool) (s : B.System) (rest : List M.Scalar)
      → E.exposed s ++ (M.compute_multipacking us ++ rest) ≡ E.public_inputs
      → (t : B.System) × (E.pack_into_inputs (map known us) s ≡ ok (tt, t))
        × (B.is_satisfied t ≡ B.is_satisfied s)
        × (E.exposed t ≡ E.exposed s ++ M.compute_multipacking us)
