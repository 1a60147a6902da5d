-- ===== src/Circuit/Synthesis/TwoPoints.antt =====
-- A curve of two points, the integers modulo two, at which the interface of the curve can be run.
use provii_crypto.Prelude.{
  ℕ, ◌%◌, ◌≡◌, refl, arith, Bool, true, false, not, ◌&&◌, List, [], ◌∷◌, Option, some, none, ◌==◌,
  length, replicate, if◌then◌else◌, All,
}
use provii_crypto.Prelude.Bytes.{IsByte, to_ℕ, bytes_eq, bytes_eq_sound}
use provii_crypto.Signature.Primitives.{spending_key_gen_bytes}
use provii_crypto.Circuit.Backend.{}
use provii_crypto.Circuit.Curve.{Curve}

-- The integers modulo two; `true` generates.
abbrev pub odd : ℕ → Bool
odd n = (n % 2 == 1)

abbrev pub flip : Bool → Bool → Bool
flip true q = not q
flip false q = q

abbrev pub parity : List Bool → Bool
parity [] = false
parity (b ∷ bs) = flip b (parity bs)

abbrev pub encode : Bool → List ℕ
encode true = spending_key_gen_bytes
encode false = replicate 32 0

abbrev pub decode : List ℕ → Option Bool
decode b =
    if bytes_eq b spending_key_gen_bytes
    then some true
    else if bytes_eq b (replicate 32 0)
    then some false
    else none

pub decode-canonical : (b : List ℕ) {p : Bool} → decode b ≡ some p → encode p ≡ b
decode-canonical b {p} h =
    ground (arith, bytes_eq_sound b spending_key_gen_bytes, bytes_eq_sound b (replicate 32 0))

pub coordinates : (p q : Bool) → to_ℕ p ≡ to_ℕ q → p ≡ q
coordinates p q h = ground arith

pub decode-encode : (p : Bool) → decode (encode p) ≡ some p
decode-encode true = refl
decode-encode false = refl

pub length-encode : (p : Bool) → length (encode p) ≡ 32
length-encode true = refl
length-encode false = refl

pub encode-IsByte : (p : Bool) → All IsByte (encode p)
encode-IsByte true = omega arith
encode-IsByte false = omega arith

-- The digest of every message.
abbrev pub digest : List ℕ
digest = 1 ∷ replicate 31 0

abbrev pub two_points : Curve
two_points = record {
  Point = Bool;
  point_add = flip;
  scale = λ p n. p && odd n;
  generator = true;
  any_point = true;
  is_small_order = not;
  get_u = to_ℕ;
  get_v = λ p. 1;
  point_from_bytes = decode;
  point_to_bytes = encode;
  is_scalar = λ b. length b == 32;
  pedersen_point = λ tag message. parity message;
  blake2s = λ tag message. digest;
  coordinates_inj = λ p q u v. coordinates p q u;
  generator_decodes = refl;
  point_decodes = decode-encode;
  point_canonical = decode-canonical;
  length-point_to_bytes = length-encode;
  point_to_bytes-IsByte = encode-IsByte;
  length-blake2s = λ tag message. refl;
}
