-- ===== src/Issuance.antt =====
-- The crates together, from the issuer to the circuit: a credential that crypto-commit and
-- crypto-sig-redjubjub make, and the witness that crypto-circuit-age proves with. The crates' curves
-- are one: jubjub's subgroup, with which the issuer signs, lies in the curve of the gadgets.
pub mod Signed
pub mod Proved
pub mod Verified
pub mod Example
mod Tests
use provii_crypto.Prelude.{ℕ, ◌≡◌, true, List, ◌++◌, length, replicate}
use provii_crypto.Signature.Primitives.{Jubjub}
use provii_crypto.Circuit.Curve.{Curve, le_value}
use provii_crypto.Circuit.Pedersen.{blake2s_no_personalization}

-- `SubgroupPoint` within `ExtendedPoint`: the same encodings and operations, where a multiple by a
-- scalar is one by the integer of its bytes, and the wide reduction of 32 bytes does not change a
-- multiple, as the subgroup's order is the scalar field's. Both sides hash with the same BLAKE2s.
pub record Subgroup (J : Jubjub) (C : Curve) : Type 0 where
  pub embed : J.Point → C.Point
  pub embed_generator : embed J.generator ≡ C.generator
  pub embed_add : (p q : J.Point) → embed (J.point_add p q) ≡ C.point_add (embed p) (embed q)
  pub embed_scale :
      (p : J.Point) (a : J.Scalar)
      → embed (J.scale p a) ≡ C.scale (embed p) (le_value (J.scalar_to_bytes a))
  pub embed_wide :
      (p : J.Point) (digest : List ℕ)
      → length digest ≡ 32
      → embed (J.scale p (J.scalar_from_bytes_wide (digest ++ replicate 32 0)))
        ≡ C.scale (embed p) (le_value digest)
  pub embed_bytes : (p : J.Point) → C.point_to_bytes (embed p) ≡ J.point_to_bytes p
  pub embed_small : (p : J.Point) → C.is_small_order (embed p) ≡ J.is_identity p
  pub scalar_accepted : (a : J.Scalar) → C.is_scalar (J.scalar_to_bytes a) ≡ true
  pub blake2s_plain :
      (bytes : List ℕ) → J.blake2s256 bytes ≡ C.blake2s blake2s_no_personalization bytes
  pub blake2s_tagged : (tag bytes : List ℕ) → J.blake2s_personal tag bytes ≡ C.blake2s tag bytes
