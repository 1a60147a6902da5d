-- ===== src/Issuance/Example.antt =====
-- The integers modulo two as the subgroup of the curve of two points.
use provii_crypto.Prelude.{
  ℕ, ◌≡◌, refl, ap, arith, Bool, true, false, not, ◌&&◌, List, ◌∷◌, some, none, Option, replicate,
  take, take-append, if◌then◌else◌,
}
use provii_crypto.Prelude.Bytes.{bytes_eq, bytes_eq_sound, bits_from, to_ℕ}
use mathlib.Core.List.{flat_map}
use provii_crypto.Signature.Primitives.{Jubjub}
use provii_crypto.Circuit.Curve.{le_value}
use provii_crypto.PublicInputs.{bits_le_from_bytes}
use provii_crypto.Circuit.Synthesis.TwoPoints.{
  two_points, encode, decode-encode, decode-canonical, length-encode, digest, odd, flip, decode,
}
use provii_crypto.Signature.{}
use provii_crypto.Circuit.Synthesis.HonestExample.{}
use provii_crypto.Issuance.{Subgroup}

abbrev pub scalar_bytes : Bool → List ℕ
scalar_bytes a = to_ℕ a ∷ replicate 31 0

abbrev pub read_scalar : List ℕ → Option Bool
read_scalar b =
    if bytes_eq b (scalar_bytes true)
    then some true
    else if bytes_eq b (scalar_bytes false)
    then some false
    else none

pub read-scalar_bytes : (a : Bool) → read_scalar (scalar_bytes a) ≡ some a
read-scalar_bytes true = refl
read-scalar_bytes false = refl

pub read_canonical : (b : List ℕ) {a : Bool} → read_scalar b ≡ some a → scalar_bytes a ≡ b
read_canonical b {a} h =
    ground (arith, bytes_eq_sound b (scalar_bytes true), bytes_eq_sound b (scalar_bytes false))

pub distribute : (p a b : Bool) → (p && flip a b) ≡ flip (p && a) (p && b)
distribute true true b = refl
distribute true false b = refl
distribute false true b = refl
distribute false false b = refl

pub associate : (p a b : Bool) → (p && (a && b)) ≡ ((p && b) && a)
associate p a b = ground arith

abbrev pub modulo_two : Jubjub
modulo_two = record {
  Scalar = Bool;
  Point = Bool;
  scalar_add = flip;
  scalar_mul = λ a b. a && b;
  is_zero = not;
  point_add = flip;
  scale = λ p a. p && a;
  is_identity = not;
  generator = true;
  scalar_from_bytes = read_scalar;
  scalar_to_bytes = scalar_bytes;
  scalar_from_bytes_wide = λ b. odd (le_value (take 32 b));
  point_from_bytes = decode;
  point_to_bytes = encode;
  blake2s256 = λ bytes. digest;
  blake2s_personal = λ tag bytes. digest;
  scale_add = distribute;
  scale_mul = associate;
  scale_identity = λ a. refl;
  generator_decodes = refl;
  length-scalar_to_bytes = λ a. refl;
  length-point_to_bytes = length-encode;
  scalar_decodes = read-scalar_bytes;
  scalar_canonical = read_canonical;
  point_decodes = decode-encode;
  point_canonical = decode-canonical;
}

pub odd-scalar_bytes : (a : Bool) → a ≡ odd (le_value (scalar_bytes a))
unfolding bits_le_from_bytes bits_from flat_map
odd-scalar_bytes true = refl
odd-scalar_bytes false = refl

pub subgroup : Subgroup modulo_two two_points
subgroup = record {
  embed = λ p. p;
  embed_generator = refl;
  embed_add = λ p q. refl;
  embed_scale = λ p a. ap (λ x. p && x) (odd-scalar_bytes a);
  embed_wide = λ p d l. ap (λ x. p && odd (le_value x)) (take-append 32 d (replicate 32 0) l);
  embed_bytes = λ p. refl;
  embed_small = λ p. refl;
  scalar_accepted = λ a. refl;
  blake2s_plain = λ b. refl;
  blake2s_tagged = λ tag b. refl;
}
