-- ===== src/Circuit/Redjubjub.antt =====
-- crypto-circuit-age/src/gadgets/redjubjub.rs: verification keys and signatures in the circuit, and
-- the verification of a signature on a hash.
pub mod Sound
pub mod Honest
use provii_crypto.Prelude.{ℕ, Bool, List, [], ◌++◌, Option, some, none, ◌==◌, length, take, drop}
use provii_crypto.Commons.{redjubjub_personalization}
use provii_crypto.Circuit.Backend.{
  Bellman, Boolean, Synth, Lc, zero_lc, add_one, add_num, sub_num, return, fail, unsatisfiable,
  ◌>>=◌, ◌>>◌,
}
use provii_crypto.Circuit.Bits.{require, enforce_that, enforce_bits_equal}
use provii_crypto.Circuit.Alloc.{alloc_bytes_witness_fixed}
use provii_crypto.Circuit.Accepts.{or_unsatisfiable}
use provii_crypto.Circuit.Curve.{Curve, Sapling}

module _ {B : Bellman} {C : Curve} (S : Sapling B C) where
  pub record RjVerificationKey : Type 0 where
    pub point : C.Point
    pub vk_bytes_bits : List Boolean

  pub record RjSignature : Type 0 where
    pub r_point : C.Point
    pub s_bytes_bits : List Boolean
    pub r_bytes_bits : List Boolean

  unfoldable pub get_vk_bytes_bits : RjVerificationKey → Synth B.System (List Boolean)
  get_vk_bytes_bits vk = return vk.vk_bytes_bits

  -- A point that is not of small order, and wires for the bytes that it is read from.
  abbrev pub witness_point : C.Point → Synth B.System C.Point
  witness_point affine = do p ← S.witness (some affine); S.assert_not_small_order p; return p

  abbrev pub vk_parts : Option (List ℕ) → Synth B.System (C.Point × List Boolean)
  vk_parts (some bytes) = do
    affine ← or_unsatisfiable (C.point_from_bytes bytes)
    p ← witness_point affine
    raw_bits ← alloc_bytes_witness_fixed B (some bytes) 32
    return (p, raw_bits)
  vk_parts none = do
    p ← witness_point C.any_point
    raw_bits ← alloc_bytes_witness_fixed B none 32
    return (p, raw_bits)

  unfoldable pub alloc_vk : Option (List ℕ) → Synth B.System RjVerificationKey
  alloc_vk vk_bytes32 = do
    (point, vk_bits_raw) ← vk_parts vk_bytes32
    repr_bits ← S.repr point
    enforce_bits_equal B repr_bits vk_bits_raw
    return (record { point = point; vk_bytes_bits = vk_bits_raw })

  -- The point, the bits of s and the bits of R.
  abbrev pub sig_parts : Option (List ℕ) → Synth B.System (C.Point × List Boolean × List Boolean)
  sig_parts (some bytes) = do
    let r_bytes = take 32 bytes
    let s_bytes = take 32 (drop 32 bytes)
    r_affine_val ← or_unsatisfiable (C.point_from_bytes r_bytes)
    require (C.is_scalar s_bytes)
    r_point ← witness_point r_affine_val
    r_bits_raw ← alloc_bytes_witness_fixed B (some r_bytes) 32
    s_bits_raw ← alloc_bytes_witness_fixed B (some s_bytes) 32
    return (r_point, s_bits_raw, r_bits_raw)
  sig_parts none = do
    r_point ← witness_point C.any_point
    r_bits_raw ← alloc_bytes_witness_fixed B none 32
    s_bits_raw ← alloc_bytes_witness_fixed B none 32
    return (r_point, s_bits_raw, r_bits_raw)

  unfoldable pub alloc_sig : Option (List ℕ) → Synth B.System RjSignature
  alloc_sig sig_bytes64 = do
    (r_point, s_bits_raw, r_bits_raw) ← sig_parts sig_bytes64
    r_repr_bits ← S.repr r_point
    enforce_bits_equal B r_repr_bits r_bits_raw
    return (record { r_point = r_point; s_bytes_bits = s_bits_raw; r_bytes_bits = r_bits_raw })

  -- `expect` on the decoded constant; it is `generator`, by `generator_decodes`.
  unfoldable pub get_generator_point : Synth B.System C.Point
  get_generator_point = do
    generator ← S.witness (some C.generator)
    enforce_that B (add_num zero_lc (C.get_u generator)) (add_one zero_lc)
        (add_num zero_lc (C.get_u C.generator))
    enforce_that B (add_num zero_lc (C.get_v generator)) (add_one zero_lc)
        (add_num zero_lc (C.get_v C.generator))
    return generator

  unfoldable pub enforce_points_equal : C.Point → C.Point → Synth B.System (Unit {0})
  enforce_points_equal p1 p2 = do
    enforce_that B (sub_num (add_num zero_lc (C.get_u p1)) (C.get_u p2)) (add_one zero_lc) zero_lc
    enforce_that B (sub_num (add_num zero_lc (C.get_v p1)) (C.get_v p2)) (add_one zero_lc) zero_lc

  unfoldable pub verify_with_personalization :
      RjVerificationKey → RjSignature → List Boolean → List ℕ → Synth B.System (Unit {0})
  verify_with_personalization vk sig prehash_bits256 personalization = do
    require (length prehash_bits256 == 256)
    let challenge_preimage = sig.r_bytes_bits ++ (vk.vk_bytes_bits ++ prehash_bits256)
    challenge_bits ← S.blake2s_gadget challenge_preimage personalization
    base_point ← get_generator_point
    s_times_b ← S.mul base_point sig.s_bytes_bits
    c_times_vk ← S.mul vk.point challenge_bits
    r_plus_c_vk ← S.add sig.r_point c_times_vk
    enforce_points_equal s_times_b r_plus_c_vk

  unfoldable pub verify : RjVerificationKey → RjSignature → List Boolean → Synth B.System (Unit {0})
  verify vk sig prehash_bits256 =
      verify_with_personalization vk sig prehash_bits256 redjubjub_personalization
