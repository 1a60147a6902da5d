-- ===== src/Signature/Primitives.antt =====
-- What the signature crate uses of jubjub, blake2 and blake2s_simd, by their documented behaviour.
use provii_crypto.Prelude.{ℕ, ◌≡◌, Bool, List, [], ◌∷◌, Option, some, length}

-- `SPENDING_KEY_GEN_BYTES`.
abbrev pub spending_key_gen_bytes : List ℕ
spending_key_gen_bytes =
    0x30 ∷ 0xb5 ∷ 0xf2 ∷ 0xaa ∷ 0xad ∷ 0x32 ∷ 0x56 ∷ 0x30 ∷ 0xbc ∷ 0xdd ∷ 0xdb ∷ 0xce ∷ 0x4d ∷ 0x67
    ∷ 0x65 ∷ 0x6d ∷ 0x05 ∷ 0xfd ∷ 0x1c ∷ 0xc2 ∷ 0xd0 ∷ 0x37 ∷ 0xbb ∷ 0x53 ∷ 0x75 ∷ 0xb6 ∷ 0xe9
    ∷ 0x6d ∷ 0x9e ∷ 0x01 ∷ 0xa1 ∷ 0x57 ∷ []

-- The scalar field and the subgroup, their canonical encodings in 32 bytes, and the hashes.
pub record Jubjub : Type 1 where
  pub Scalar : Type 0
  pub Point : Type 0
  pub scalar_add : Scalar → Scalar → Scalar
  pub scalar_mul : Scalar → Scalar → Scalar
  pub is_zero : Scalar → Bool
  pub point_add : Point → Point → Point
  pub scale : Point → Scalar → Point
  pub is_identity : Point → Bool
  pub generator : Point
  pub scalar_from_bytes : List ℕ → Option Scalar
  pub scalar_to_bytes : Scalar → List ℕ
  pub scalar_from_bytes_wide : List ℕ → Scalar
  pub point_from_bytes : List ℕ → Option Point
  pub point_to_bytes : Point → List ℕ
  -- `Blake2s256` and `blake2s_simd::Params` with a personalization.
  pub blake2s256 : List ℕ → List ℕ
  pub blake2s_personal : List ℕ → List ℕ → List ℕ
  pub scale_add :
      (p : Point) (a b : Scalar) → scale p (scalar_add a b) ≡ point_add (scale p a) (scale p b)
  pub scale_mul : (p : Point) (a b : Scalar) → scale p (scalar_mul a b) ≡ scale (scale p b) a
  pub scale_identity : (a : Scalar) → is_identity (scale generator a) ≡ is_zero a
  pub generator_decodes : point_from_bytes spending_key_gen_bytes ≡ some generator
  pub length-scalar_to_bytes : (a : Scalar) → length (scalar_to_bytes a) ≡ 32
  pub length-point_to_bytes : (p : Point) → length (point_to_bytes p) ≡ 32
  pub scalar_decodes : (a : Scalar) → scalar_from_bytes (scalar_to_bytes a) ≡ some a
  pub scalar_canonical :
      (b : List ℕ) {a : Scalar} → scalar_from_bytes b ≡ some a → scalar_to_bytes a ≡ b
  pub point_decodes : (p : Point) → point_from_bytes (point_to_bytes p) ≡ some p
  pub point_canonical :
      (b : List ℕ) {p : Point} → point_from_bytes b ≡ some p → point_to_bytes p ≡ b
